-- ===== src/Access/Control/Calls.antt =====
-- The methods of `AccessGrantControl`, which call the store.
pub mod Rotation
use rtsp_proxy.Prelude.{
  ℕ, zero, suc, ◌+◌, ◌/◌, String, Bool, true, false, not, ◌&&◌, ◌||◌, Option, none, some, List, [],
  ◌∷◌, min, ltb, leb, ◌==◌, if◌then◌else◌, length, is_some,
}
use rtsp_proxy.Prelude.Errors.{value_error, lookup_error, Error, Result, ok, err}
use rtsp_proxy.Access.Grants.{AccessGrant, active_at}
use rtsp_proxy.Access.Control.{
  AccessGrantSummary, from_grant, AccessGrantPage, AccessGrantIdempotency, MutationContext,
  GrantRequest, issue_request, rotate_request, AccessGrantStore, Means, IssuedAccessGrant,
  max_rotation_overlap, seconds, or_else, or_text, other_camera, issue, idempotency,
}

abbrev pub Act : Type 0 → Type 0 → Type 0
Act S A = S → Result A × S

module _ {S : Type 0} where
  abbrev pub continue : {A B : Type 0} → Result A → (A → Act S B) → Act S B
  continue (ok a) f s = f a s
  continue (err e) f s = (err e, s)

  infixl 5 ◌>>=◌ ◌>>◌
  abbrev pub ◌>>=◌ : {A B : Type 0} → Act S A → (A → Act S B) → Act S B
  ◌>>=◌ m f s = let (r, s') = m s in continue r f s'

  abbrev pub ◌>>◌ : {B : Type 0} → Act S (Unit {0}) → Act S B → Act S B
  ◌>>◌ m k = m >>= λ _. k

  abbrev pub pure : {A : Type 0} → Result A → Act S A
  pure r s = (r, s)

  abbrev pub require : Bool → Error → Act S (Unit {0})
  require true e s = (err e, s)
  require false e s = (ok tt, s)

abbrev pub not_found : Error
not_found = lookup_error "access_grant_not_found"

module _ {S : Type 0} (api : AccessGrantStore S) (means : Means) where
  check_request : Option AccessGrantIdempotency → Act S (Unit {0})
  check_request none s = (ok tt, s)
  check_request (some i) s = api.check_access_grant_request i s

  unfoldable pub create :
      ℕ → Option ℕ → String → String → Option MutationContext → Option ℕ → Act S IssuedAccessGrant
  unfolding check_request
  create camera_id lifetime kind created_by context key = do
    i ← pure (
        idempotency means key context "issue" camera_id none means.new_grant_id
          (issue_request camera_id kind (seconds lifetime)))
    check_request i
    issued ← pure (issue means camera_id means.new_grant_id lifetime kind created_by)
    persisted ← api.create_access_grant issued.grant context i
    pure (ok (record { grant = persisted; secret = issued.secret }))

  summary_of : Option ℕ → Option AccessGrant → Result AccessGrantSummary
  summary_of camera none = err not_found
  summary_of camera (some g) =
      if other_camera camera g.camera_id then err not_found else ok (from_grant g)

  unfoldable pub get_grant : ℕ → Option ℕ → Act S AccessGrantSummary
  unfolding summary_of
  get_grant grant_id camera = do g ← api.get_access_grant_by_id grant_id; pure (summary_of camera g)

  -- `grants[:limit]`
  first : ℕ → List AccessGrantSummary → List AccessGrantSummary
  first zero l = []
  first (suc n) [] = []
  first (suc n) (g ∷ rest) = g ∷ first n rest

  unfoldable pub list_for_camera : ℕ → ℕ → Act S AccessGrantPage
  unfolding first
  list_for_camera camera_id limit = do
    require (not (leb 1 limit && leb limit 100)) (value_error "access_grant_list_limit_invalid")
    grants ← api.list_access_grants camera_id (limit + 1)
    pure (ok (record { items = first limit grants; truncated = ltb limit (length grants) }))

  revoke_current :
      ℕ → Option ℕ → Option ℕ → Option MutationContext → Option AccessGrant → Act S AccessGrant
  revoke_current grant_id camera expected context none = pure (err not_found)
  revoke_current grant_id camera expected context (some current) =
      if other_camera camera current.camera_id
      then pure (err not_found)
      else if is_some current.revoked_at
      then (if or_else expected current.revision == current.revision
          then pure (ok current)
          else pure (err not_found))
      else api.revoke_access_grant grant_id means.now (or_else expected current.revision) context

  unfoldable pub revoke : ℕ → Option ℕ → Option ℕ → Option MutationContext → Act S AccessGrant
  unfolding revoke_current
  revoke grant_id camera expected context = do
    require (is_some context && not (is_some expected))
        (value_error "access_grant_revision_required")
    current ← api.get_access_grant_by_id grant_id
    revoke_current grant_id camera expected context current

  unfoldable pub purge_inactive : ℕ → MutationContext → Act S (List ℕ)
  purge_inactive camera_id context = api.purge_inactive_access_grants camera_id means.now context

  -- The grant ends with the overlap, or earlier where it was to end earlier.
  abbrev pub old_end : Option ℕ → ℕ → ℕ
  old_end none overlap = means.now + overlap
  old_end (some end) overlap = min end (means.now + overlap)

  -- The replacement is issued and written with the new end of the grant that it replaces.
  replace_current :
      ℕ
      → ℕ
      → Option ℕ
      → Option ℕ
      → Option String
      → Option MutationContext
      → Option AccessGrantIdempotency
      → AccessGrant
      → Act S IssuedAccessGrant
  replace_current grant_id overlap lifetime expected created_by context i current = do
    issued ← pure (
        issue means current.camera_id means.new_grant_id lifetime current.kind
          (or_text created_by current.created_by))
    written ←
        api.rotate_access_grant grant_id issued.grant (old_end current.expires_at overlap)
          (or_else expected current.revision) context i
    pure (ok (record { grant = written.1; secret = issued.secret }))

  rotate_current :
      ℕ
      → ℕ
      → Option ℕ
      → Option ℕ
      → Option ℕ
      → Option String
      → Option MutationContext
      → Option AccessGrantIdempotency
      → Option AccessGrant
      → Act S IssuedAccessGrant
  unfolding replace_current
  rotate_current grant_id overlap lifetime camera expected created_by context i none =
      pure (err not_found)
  rotate_current grant_id overlap lifetime camera expected created_by context i (some current) =
      if is_some current.revoked_at || other_camera camera current.camera_id
      then pure (err not_found)
      else if not (active_at current means.now)
      then pure (err not_found)
      else replace_current grant_id overlap lifetime expected created_by context i current

  unfoldable pub rotate :
      ℕ
      → ℕ
      → Option ℕ
      → Option ℕ
      → Option ℕ
      → Option String
      → Option MutationContext
      → Option ℕ
      → Act S IssuedAccessGrant
  unfolding rotate_current check_request
  rotate grant_id overlap lifetime camera expected created_by context key = do
    require (ltb max_rotation_overlap overlap) (value_error "access_grant_overlap_invalid")
    require (is_some context && (not (is_some camera) || not (is_some expected)))
        (value_error "access_grant_revision_required")
    i ← pure (
        idempotency means key context "rotate" (or_else camera 0) (some grant_id) means.new_grant_id
          (rotate_request camera grant_id expected (overlap / 1_000_000) (seconds lifetime)))
    check_request i
    current ← api.get_access_grant_by_id grant_id
    rotate_current grant_id overlap lifetime camera expected created_by context i current
