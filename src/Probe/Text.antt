-- ===== src/Probe/Text.antt =====
-- The texts and identifiers that probes.py and identifiers.py accept.
use Prim.Native.Char.{code}
use rtsp_proxy.Prelude.{
  ℕ, ◌/◌, ◌%◌, ◌^◌, String, Bool, false, ◌&&◌, ◌||◌, List, [], ◌∷◌, leb, ◌==◌, length, all,
}

-- The code points of a text. `String` has its own `[]` and `∷`.
abbrev pub codes : String → List ℕ
codes String.[] = []
codes (String.◌∷◌ c s) = code c ∷ codes s

-- `uuid.UUID`: a 128-bit number. Its version is read only where its variant is that of RFC 4122.
abbrev pub is_uuid4 : ℕ → Bool
is_uuid4 n = (n / 2 ^ 62) % 4 == 2 && (n / 2 ^ 76) % 16 == 4

abbrev pub is_digit : ℕ → Bool
is_digit c = leb b'0' c && leb c b'9'

abbrev is_lower : ℕ → Bool
is_lower c = leb b'a' c && leb c b'z'

abbrev is_upper : ℕ → Bool
is_upper c = leb b'A' c && leb c b'Z'

abbrev is_mark : ℕ → Bool
is_mark c = c == b'.' || c == b'_' || c == b'-'

-- `[a-z0-9]` followed by at most `most` of `[a-z0-9._-]`.
lower_name : ℕ → List ℕ → Bool
lower_name most [] = false
lower_name most (c ∷ rest) =
    (is_lower c || is_digit c)
    && (all (λ d. is_lower d || is_digit d || is_mark d) rest && leb (length rest) most)

-- The same with upper case letters.
mixed_name : ℕ → List ℕ → Bool
mixed_name most [] = false
mixed_name most (c ∷ rest) =
    (is_lower c || is_upper c || is_digit c)
    && (all (λ d. is_lower d || is_upper d || is_digit d || is_mark d) rest
        && leb (length rest) most)

-- `_SITE_KEY.fullmatch`
unfoldable pub site_key_matches : String → Bool
unfolding lower_name
site_key_matches s = lower_name 63 (codes s)

-- `_CODEC_NAME.fullmatch`
unfoldable pub codec_name_matches : String → Bool
unfolding lower_name
codec_name_matches s = lower_name 31 (codes s)

-- `_RELEASE_ID.fullmatch`
unfoldable pub release_id_matches : String → Bool
unfolding mixed_name
release_id_matches s = mixed_name 127 (codes s)
