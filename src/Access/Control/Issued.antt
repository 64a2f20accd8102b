-- ===== src/Access/Control/Issued.antt =====
-- What is issued.
use rtsp_proxy.Prelude.{
  ℕ, ◌+◌, ◌≤◌, ◌<◌, ◌↔◌, if◌then◌else◌, ◌≡◌, String, true, Option, none, some, arith, length,
}
use rtsp_proxy.Prelude.Errors.{ok}
use rtsp_proxy.Probe.Text.{codes}
use rtsp_proxy.Access.Grants.{AccessGrant, active_at, text_is, checked_grant}
use rtsp_proxy.Access.Control.{
  Means, IssuedAccessGrant, issue, end_of, min_grant_lifetime, max_grant_lifetime,
}

-- A lifetime within the limits; only a service grant may have none.
abbrev pub LifetimeAllowed : Option ℕ → String → Type 0
LifetimeAllowed none kind = text_is kind "service" ≡ true
LifetimeAllowed (some lifetime) kind =
    (min_grant_lifetime ≤ lifetime) × (lifetime ≤ max_grant_lifetime)

-- From `start` on, and before the end if there is one.
abbrev pub Within : ℕ → Option ℕ → ℕ → Type 0
Within start none t = start ≤ t
Within start (some end) t = (start ≤ t) × (t < end)

-- How long the secret of a grant of this kind must be.
abbrev pub least_length : String → ℕ
least_length kind = if text_is kind "service" then 43 else 12

-- A grant as it is issued.
pub record IsIssued (means : Means) (camera_id grant_id : ℕ) (lifetime : Option ℕ)
    (kind created_by : String) (i : IssuedAccessGrant) : Type 0 where
  pub lifetime_allowed : LifetimeAllowed lifetime kind
  pub for_camera : (i.grant.camera_id ≡ camera_id) × (i.grant.id ≡ grant_id)
  pub named : i.grant.username ≡ means.username grant_id
  pub of_kind : (i.grant.kind ≡ kind) × (i.grant.created_by ≡ created_by)
  pub active :
      (t : ℕ) → (active_at i.grant t ≡ true) ↔ Within means.now (end_of means.now lifetime) t
  pub never_revoked : i.grant.revoked_at ≡ none
  pub unused : i.grant.last_used_at ≡ none
  pub of_secret :
      (i.grant.token_verifier ≡ means.digest i.secret)
      × (i.grant.pepper_key_id ≡ means.primary_key_id)
  pub secret : i.secret ≡ means.new_secret kind
  pub long_secret : least_length kind ≤ length (codes i.secret)
  pub first_revision : i.grant.revision ≡ 1

active_at-Within :
    (g : AccessGrant) (start : ℕ) (end : Option ℕ)
    → g.not_before ≡ start
    → g.expires_at ≡ end
    → g.revoked_at ≡ none
    → (t : ℕ) → (active_at g t ≡ true) ↔ Within start end t
unfolding active_at
active_at-Within g start none a b c t = rw (a, b, c) (λ h. ground arith, λ h. ground arith)
active_at-Within g start (some end) a b c t = rw (a, b, c) (λ h. ground arith, λ h. ground arith)

-- Where a grant is issued, its lifetime is allowed for its kind; it is for that camera and has that
-- id, the name of that id, that kind and that creator; it is active at just the times from now on
-- that are before the end of its lifetime, if it has one; it is neither revoked nor used; its
-- verifier is the digest of its secret under the primary key; the secret is the one drawn for that
-- kind and is as long as the kind asks; and its revision is 1.
pub issue-IsIssued :
    (means : Means) (camera_id grant_id : ℕ) (lifetime : Option ℕ) (kind created_by : String)
    (i : IssuedAccessGrant)
    → issue means camera_id grant_id lifetime kind created_by ≡ ok i
    → IsIssued means camera_id grant_id lifetime kind created_by i
unfolding issue checked_grant
issue-IsIssued means camera_id grant_id none kind created_by i h = record {
  lifetime_allowed = ground arith;
  for_camera = ground arith;
  named = ground arith;
  of_kind = ground arith;
  never_revoked = ground arith;
  unused = ground arith;
  of_secret = ground arith;
  secret = ground arith;
  long_secret = ground arith;
  first_revision = ground arith;
  active = active_at-Within i.grant means.now none (ground arith) (ground arith) (ground arith);
}
issue-IsIssued means camera_id grant_id (some lifetime) kind created_by i h = record {
  lifetime_allowed = ground arith;
  for_camera = ground arith;
  named = ground arith;
  of_kind = ground arith;
  never_revoked = ground arith;
  unused = ground arith;
  of_secret = ground arith;
  secret = ground arith;
  long_secret = ground arith;
  first_revision = ground arith;
  active =
      active_at-Within i.grant means.now (some (means.now + lifetime)) (ground arith) (ground arith)
        (ground arith);
}
