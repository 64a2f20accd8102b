-- ===== src/Access/Grants.antt =====
-- The grants, policies and targets of access.py.
use rtsp_proxy.Prelude.{
  ℕ, String, Bool, true, not, ◌&&◌, ◌||◌, Option, none, some, List, ◌++◌, ltb, leb, ◌==◌,
  if◌then◌else◌, length, any, eqb, is_some, String-discrete,
}
use rtsp_proxy.Prelude.Errors.{value_error, Result, ok, refuse, ◌>>◌}
use rtsp_proxy.Probe.Text.{codes, is_digit}

pub record AccessGrant : Type 0 where
  pub id : ℕ
  pub camera_id : ℕ
  pub username : String
  pub token_verifier : String
  pub pepper_key_id : String
  pub not_before : ℕ
  pub expires_at : Option ℕ
  pub revoked_at : Option ℕ
  pub revision : ℕ
  pub kind : String
  pub created_by : String
  pub last_used_at : Option ℕ

-- `moment < end` for an end that is there.
abbrev before_end : ℕ → Option ℕ → Bool
before_end moment none = true
before_end moment (some end) = ltb moment end

unfoldable pub active_at : AccessGrant → ℕ → Bool
active_at g moment =
    leb g.not_before moment && before_end moment g.expires_at && before_end moment g.revoked_at

abbrev pub text_is : String → String → Bool
text_is s t = eqb String-discrete s t

abbrev pub is_hex : ℕ → Bool
is_hex c = is_digit c || leb b'a' c && leb c b'f'

-- `username` is what `f"grant-{self.id.hex}"` is for the id.
unfoldable pub checked_grant : (ℕ → String) → AccessGrant → Result AccessGrant
checked_grant username g = do
  refuse (not (text_is g.username (username g.id))) (value_error "access_grant_username_invalid")
  refuse
      (not (length (codes g.token_verifier) == 64)
        || any (λ c. not (is_hex c)) (codes g.token_verifier))
      (value_error "access_grant_verifier_invalid")
  refuse (length (codes g.pepper_key_id) == 0 || ltb 64 (length (codes g.pepper_key_id)))
      (value_error "access_grant_pepper_key_invalid")
  refuse (is_some g.expires_at && not (before_end g.not_before g.expires_at))
      (value_error "access_grant_window_invalid")
  refuse (ltb g.revision 1) (value_error "access_grant_revision_invalid")
  refuse (not (text_is g.kind "temporary" || text_is g.kind "service"))
      (value_error "access_grant_kind_invalid")
  refuse (not (is_some g.expires_at) && not (text_is g.kind "service"))
      (value_error "access_grant_lifetime_invalid")
  refuse (length (codes g.created_by) == 0 || ltb 128 (length (codes g.created_by)))
      (value_error "access_grant_creator_invalid")
  ok g

-- The policy as it is once its CIDRs are canonical.
pub record AccessPolicy : Type 0 where
  pub camera_id : ℕ
  pub revision : ℕ
  pub internet_cidrs : List String
  pub local_cidrs : List String

-- `contains` is `address in ip_network(cidr)`.
unfoldable pub permits : (String → ℕ → Bool) → AccessPolicy → ℕ → Bool
permits contains p address =
    let networks = p.internet_cidrs ++ p.local_cidrs in
    if length networks == 0 then true else any (λ cidr. contains cidr address) networks

pub record AccessTarget : Type 0 where
  pub camera_id : ℕ
  pub node_id : ℕ
  pub public_id : String
  pub enabled : Bool
  pub policy : AccessPolicy

unfoldable pub checked_target : AccessTarget → Result AccessTarget
checked_target t = do
  refuse (not (t.policy.camera_id == t.camera_id)) (value_error "access_target_policy_mismatch")
  ok t

pub record AuthorizeRequest : Type 0 where
  pub node_id : ℕ
  pub public_id : String
  pub peer : ℕ
  pub username : String
  pub password : String
  pub action : String
  pub protocol : String

-- The test of the address is done where the text of the address is read.
unfoldable pub checked_authorize_request : AuthorizeRequest → Result AuthorizeRequest
checked_authorize_request r = do
  refuse (ltb 64 (length (codes r.username)) || ltb 256 (length (codes r.password)))
      (value_error "access_request_credentials_invalid")
  ok r
