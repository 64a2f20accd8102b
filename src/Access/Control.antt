-- ===== src/Access/Control.antt =====
-- `AccessGrantControl` of access.py, for any store of its protocol.
pub mod Issued
pub mod Calls
use rtsp_proxy.Prelude.{
  ℕ, ◌+◌, ◌/◌, String, Bool, true, false, not, ◌&&◌, ◌||◌, Option, none, some, List, [], ◌∷◌, min,
  ltb, leb, ◌==◌, if◌then◌else◌, length, any, eqb, is_some, Bool-cases,
}
use rtsp_proxy.Prelude.Errors.{
  value_error, lookup_error, Error, Result, ok, err, refuse, ◌>>=◌, ◌>>◌,
}
use mathlib.Core.Bool.{Bool-discrete}
use rtsp_proxy.Probe.Text.{codes, is_uuid4}
use rtsp_proxy.Access.Grants.{AccessGrant, active_at, text_is, is_hex, checked_grant}

-- The secret-free view of a grant.
pub record AccessGrantSummary : Type 0 where
  pub id : ℕ
  pub camera_id : ℕ
  pub username : String
  pub not_before : ℕ
  pub expires_at : Option ℕ
  pub revoked_at : Option ℕ
  pub revision : ℕ
  pub kind : String
  pub created_by : String
  pub last_used_at : Option ℕ

unfoldable pub from_grant : AccessGrant → AccessGrantSummary
from_grant g = record {
  id = g.id;
  camera_id = g.camera_id;
  username = g.username;
  not_before = g.not_before;
  expires_at = g.expires_at;
  revoked_at = g.revoked_at;
  revision = g.revision;
  kind = g.kind;
  created_by = g.created_by;
  last_used_at = g.last_used_at;
}

pub record AccessGrantPage : Type 0 where
  pub items : List AccessGrantSummary
  pub truncated : Bool

pub record AccessGrantIdempotency : Type 0 where
  pub key : ℕ
  pub actor_account_id : ℕ
  pub actor_session_id : ℕ
  pub operation : String
  pub camera_id : ℕ
  pub source_grant_id : Option ℕ
  pub replacement_grant_id : ℕ
  pub request_sha256 : String

unfoldable pub checked_idempotency : AccessGrantIdempotency → Result AccessGrantIdempotency
checked_idempotency i = do
  refuse
      (not (is_uuid4 i.key)
        || not (text_is i.operation "issue" || text_is i.operation "rotate")
        || not (eqb Bool-discrete (text_is i.operation "issue") (not (is_some i.source_grant_id)))
        || not (length (codes i.request_sha256) == 64)
        || any (λ c. not (is_hex c)) (codes i.request_sha256))
      (value_error "access_grant_idempotency_invalid")
  ok i

-- What is read of `NodeMutationContext`.
pub record MutationContext : Type 0 where
  pub idempotency_key : ℕ
  pub actor_account_id : ℕ
  pub actor_session_id : ℕ

-- What is hashed: the members of the JSON object.
pub data GrantRequest : Type 0 where
  issue_request : ℕ → String → Option ℕ → GrantRequest
  rotate_request : Option ℕ → ℕ → Option ℕ → ℕ → Option ℕ → GrantRequest

-- `AccessGrantStore`, a protocol: each method may raise, and may change the store. An argument that
-- is left out is `none`.
pub record AccessGrantStore (S : Type 0) : Type 0 where
  pub check_access_grant_request : AccessGrantIdempotency → S → Result (Unit {0}) × S
  pub create_access_grant :
      AccessGrant
      → Option MutationContext
      → Option AccessGrantIdempotency
      → S
      → Result AccessGrant × S
  pub get_access_grant_by_id : ℕ → S → Result (Option AccessGrant) × S
  pub list_access_grants : ℕ → ℕ → S → Result (List AccessGrantSummary) × S
  pub revoke_access_grant : ℕ → ℕ → ℕ → Option MutationContext → S → Result AccessGrant × S
  pub purge_inactive_access_grants : ℕ → ℕ → MutationContext → S → Result (List ℕ) × S
  -- the grant, its replacement, the new end of the old one and its expected revision
  pub rotate_access_grant :
      ℕ
      → AccessGrant
      → ℕ
      → ℕ
      → Option MutationContext
      → Option AccessGrantIdempotency
      → S
      → Result (AccessGrant × AccessGrant) × S

-- What the library supplies: the name for an id, the HMAC, SHA-256, `isalnum`, the clock, a new id and
-- a new secret for a kind.
pub record Means : Type 0 where
  pub username : ℕ → String
  pub digest : String → String
  pub primary_key_id : String
  pub sha256 : String → GrantRequest → String
  pub is_alnum : ℕ → Bool
  pub now : ℕ
  pub new_grant_id : ℕ
  pub new_secret : String → String

pub record IssuedAccessGrant : Type 0 where
  pub grant : AccessGrant
  pub secret : String

-- `MIN_GRANT_LIFETIME`, `MAX_GRANT_LIFETIME` and `MAX_ROTATION_OVERLAP`
abbrev pub min_grant_lifetime : ℕ
min_grant_lifetime = 1_000_000

abbrev pub max_grant_lifetime : ℕ
max_grant_lifetime = 31_622_400_000_000

abbrev pub max_rotation_overlap : ℕ
max_rotation_overlap = 86_400_000_000

abbrev lifetime_invalid : Option ℕ → Bool
lifetime_invalid none = false
lifetime_invalid (some lifetime) =
    ltb lifetime min_grant_lifetime || ltb max_grant_lifetime lifetime

abbrev pub end_of : ℕ → Option ℕ → Option ℕ
end_of now none = none
end_of now (some lifetime) = some (now + lifetime)

abbrev pub seconds : Option ℕ → Option ℕ
seconds none = none
seconds (some lifetime) = some (lifetime / 1_000_000)

abbrev pub or_else : Option ℕ → ℕ → ℕ
or_else none n = n
or_else (some m) n = m

abbrev pub or_text : Option String → String → String
or_text none s = s
or_text (some t) s = t

-- `camera_id is not None and grant.camera_id != camera_id`
abbrev pub other_camera : Option ℕ → ℕ → Bool
other_camera none camera = false
other_camera (some c) camera = not (camera == c)

module _ (means : Means) where
  abbrev minimum_secret_length : String → ℕ
  minimum_secret_length kind = if text_is kind "service" then 43 else 12

  -- `character.isalnum() or character in "-_"`
  abbrev may_stand : ℕ → Bool
  may_stand c = means.is_alnum c || c == b'-' || c == b'_'

  unfoldable pub issue : ℕ → ℕ → Option ℕ → String → String → Result IssuedAccessGrant
  issue camera_id grant_id lifetime kind created_by = do
    refuse (not (is_some lifetime) && not (text_is kind "service"))
        (value_error "access_grant_lifetime_invalid")
    refuse (lifetime_invalid lifetime) (value_error "access_grant_lifetime_invalid")
    refuse
        (ltb (length (codes (means.new_secret kind))) (minimum_secret_length kind)
          || any (λ c. not (may_stand c)) (codes (means.new_secret kind)))
        (value_error "access_grant_secret_invalid")
    grant ← checked_grant means.username (record {
      id = grant_id;
      camera_id = camera_id;
      username = means.username grant_id;
      token_verifier = means.digest (means.new_secret kind);
      pepper_key_id = means.primary_key_id;
      not_before = means.now;
      expires_at = end_of means.now lifetime;
      revoked_at = none;
      revision = 1;
      kind = kind;
      created_by = created_by;
      last_used_at = none;
    })
    ok (record { grant = grant; secret = means.new_secret kind })

  keyed :
      ℕ
      → MutationContext
      → String
      → ℕ
      → Option ℕ
      → ℕ
      → GrantRequest
      → Result (Option AccessGrantIdempotency)
  keyed key context operation camera_id source replacement request =
      if context.idempotency_key == key
      then (do
        i ← checked_idempotency (record {
          key = key;
          actor_account_id = context.actor_account_id;
          actor_session_id = context.actor_session_id;
          operation = operation;
          camera_id = camera_id;
          source_grant_id = source;
          replacement_grant_id = replacement;
          request_sha256 = means.sha256 operation request;
        })
        ok (some i))
      else err (value_error "access_grant_idempotency_invalid")

  -- `_idempotency`
  unfoldable pub idempotency :
      Option ℕ
      → Option MutationContext
      → String
      → ℕ
      → Option ℕ
      → ℕ
      → GrantRequest
      → Result (Option AccessGrantIdempotency)
  unfolding keyed
  idempotency none none operation camera_id source replacement request = ok none
  idempotency none (some context) operation camera_id source replacement request =
      err (value_error "access_grant_idempotency_invalid")
  idempotency (some key) none operation camera_id source replacement request =
      err (value_error "access_grant_idempotency_invalid")
  idempotency (some key) (some context) operation camera_id source replacement request =
      keyed key context operation camera_id source replacement request
