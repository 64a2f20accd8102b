-- ===== src/Access/Control/Calls/Rotation.antt =====
-- When a grant is replaced.
use rtsp_proxy.Prelude.{
  ℕ, ◌+◌, ◌/◌, ◌≤◌, ◌≡◌, refl, ap, ◌∙◌, String, Bool, true, false, not, ◌||◌, ◌&&◌, Option, none,
  some, arith, is_some, inl, inr, ltb, Bool-cases,
}
use rtsp_proxy.Prelude.Errors.{ok, value_error, Error, Result-cases}
use rtsp_proxy.Access.Grants.{AccessGrant, active_at}
use rtsp_proxy.Access.Control.{
  AccessGrantStore, AccessGrantIdempotency, MutationContext, Means, IssuedAccessGrant, issue,
  max_rotation_overlap, other_camera, idempotency, or_text, or_else, rotate_request, seconds,
}
use rtsp_proxy.Access.Control.Issued.{IsIssued, issue-IsIssued}
use rtsp_proxy.Access.Control.Calls.{
  Act, ◌>>=◌, ◌>>◌, pure, require, check_request, replace_current, rotate_current, rotate, old_end,
}

module _ {S : Type 0} where
  -- Each result of the method has the property.
  record Returns {A : Type 0} (P : A → Type 0) (m : Act S A) : Type 0 where
    at : (s : S) (a : A) → (m s).0 ≡ ok a → P a

  Returns-bind :
      {A B : Type 0} (P : B → Type 0) (m : Act S A) (f : A → Act S B)
      → ((a : A) (s : S) → (m s).0 ≡ ok a → Returns P (f a))
      → Returns P (m >>= f)
  Returns-bind P m f k = record {
    at = λ s b h. elim (Result-cases (m s).0) [
      | inl (a, e) ↦ (k a s e).at (m s).1 b (rw e at h)
      | inr (x, e) ↦ absurd (ground arith)
    ];
  }

  Returns-require :
      {B : Type 0} (P : B → Type 0) (wrong : Bool) (e : Error) (k : Act S B)
      → (wrong ≡ false → Returns P k)
      → Returns P (require wrong e >> k)
  Returns-require P true e k h = record { at = λ s b g. absurd (ground arith) }
  Returns-require P false e k h = record { at = λ s b g. (h refl).at s b g }

module _ {S : Type 0} (api : AccessGrantStore S) (means : Means) where
  -- How a grant was replaced: what the store answered, and what it was asked to write.
  pub record IsRotated (grant_id overlap : ℕ) (lifetime camera : Option ℕ)
      (created_by : Option String) (r : IssuedAccessGrant) : Type 0 where
    pub current : AccessGrant
    pub found : (s : S) × ((api.get_access_grant_by_id grant_id s).0 ≡ ok (some current))
    pub of_camera : other_camera camera current.camera_id ≡ false
    pub not_revoked : current.revoked_at ≡ none
    pub active_now : active_at current means.now ≡ true
    pub replacement : IssuedAccessGrant
    pub issued :
        IsIssued means current.camera_id means.new_grant_id lifetime current.kind
          (or_text created_by current.created_by)
          replacement
    pub same_secret : r.secret ≡ replacement.secret
    pub written :
        (revision : ℕ) × (context : Option MutationContext) × (i : Option AccessGrantIdempotency)
        × (s : S) × (old : AccessGrant) × ((api.rotate_access_grant grant_id replacement.grant
              (old_end api means current.expires_at overlap)
              revision
              context
              i
              s).0
            ≡ ok (old, r.grant))
    pub ends_soon : old_end api means current.expires_at overlap ≤ means.now + overlap
    pub overlap_allowed : overlap ≤ max_rotation_overlap

  old_end-le : (end : Option ℕ) (overlap : ℕ) → old_end api means end overlap ≤ means.now + overlap
  old_end-le none overlap = omega arith
  old_end-le (some end) overlap = omega arith

  replace_current-IsRotated :
      (grant_id overlap : ℕ) (lifetime camera expected : Option ℕ) (created_by : Option String)
      (context : Option MutationContext) (i : Option AccessGrantIdempotency) (current : AccessGrant)
      (s0 : S)
      → (api.get_access_grant_by_id grant_id s0).0 ≡ ok (some current)
      → other_camera camera current.camera_id ≡ false
      → is_some current.revoked_at ≡ false
      → active_at current means.now ≡ true
      → overlap ≤ max_rotation_overlap
      → Returns (IsRotated grant_id overlap lifetime camera created_by) (
          replace_current api means grant_id overlap lifetime expected created_by context i current)
  unfolding replace_current
  replace_current-IsRotated grant_id overlap lifetime camera expected created_by context i current
        s0 found same live active small =
      Returns-bind (IsRotated grant_id overlap lifetime camera created_by)
        (pure (
          issue means current.camera_id means.new_grant_id lifetime current.kind
            (or_text created_by current.created_by)))
        _
        λ issued s1 e.
          Returns-bind (IsRotated grant_id overlap lifetime camera created_by)
            (api.rotate_access_grant grant_id issued.grant
              (old_end api means current.expires_at overlap) _ context i)
            _
            λ written s2 f. record {
              at = λ s r h. record {
                current = current;
                found = (s0, found);
                of_camera = same;
                not_revoked = ground arith;
                active_now = active;
                replacement = issued;
                issued =
                    issue-IsIssued means current.camera_id means.new_grant_id lifetime current.kind
                      _ issued e;
                same_secret = ground arith;
                written = (_, context, i, s2, written.0, f ∙ ap ok (ground arith));
                ends_soon = old_end-le current.expires_at overlap;
                overlap_allowed = small;
              };
            }

  rotate_current-IsRotated :
      (grant_id overlap : ℕ) (lifetime camera expected : Option ℕ) (created_by : Option String)
      (context : Option MutationContext) (i : Option AccessGrantIdempotency)
      (o : Option AccessGrant) (s0 : S)
      → (api.get_access_grant_by_id grant_id s0).0 ≡ ok o
      → overlap ≤ max_rotation_overlap
      → Returns (IsRotated grant_id overlap lifetime camera created_by) (
          rotate_current api means grant_id overlap lifetime camera expected created_by context i o)
  unfolding rotate_current
  rotate_current-IsRotated grant_id overlap lifetime camera expected created_by context i none s0
        found small =
      record { at = λ s r h. absurd (ground arith) }
  rotate_current-IsRotated grant_id overlap lifetime camera expected created_by context i
        (some current) s0 found small =
      elim (Bool-cases (is_some current.revoked_at || other_camera camera current.camera_id)) [
        | inl wrong ↦ rw wrong (record { at = λ s r h. absurd (ground arith) })
        | inr right ↦ elim (Bool-cases (active_at current means.now)) [
          | inl active ↦
              rw (right, active)
                (replace_current-IsRotated grant_id overlap lifetime camera expected created_by
                  context i current s0 found (ground arith) (ground arith) active small)
          | inr ended ↦ rw (right, ended) (record { at = λ s r h. absurd (ground arith) })
        ]
      ]

  -- Whatever the store answers: where `rotate` returns a grant, the overlap is allowed; the store
  -- named a grant that is of that camera, not revoked and active now; the replacement was issued for
  -- the same camera and kind, by the creator that is given or else by that of the old grant; and what is returned is what the store answered when it was asked to
  -- write the replacement with an end of the old grant no later than the overlap from now.
  pub rotate-IsRotated :
      (grant_id overlap : ℕ) (lifetime camera expected : Option ℕ) (created_by : Option String)
      (context : Option MutationContext) (key : Option ℕ) (s : S) (r : IssuedAccessGrant)
      → (rotate api means grant_id overlap lifetime camera expected created_by context key s).0
        ≡ ok r
      → IsRotated grant_id overlap lifetime camera created_by r
  unfolding rotate
  rotate-IsRotated grant_id overlap lifetime camera expected created_by context key s r h =
      (Returns-require (IsRotated grant_id overlap lifetime camera created_by)
          (ltb max_rotation_overlap overlap) (value_error "access_grant_overlap_invalid") _
          λ small.
            Returns-require (IsRotated grant_id overlap lifetime camera created_by)
              (is_some context && (not (is_some camera) || not (is_some expected)))
              (value_error "access_grant_revision_required") _
              λ given.
                Returns-bind (IsRotated grant_id overlap lifetime camera created_by)
                  (pure (
                    idempotency means key context "rotate" (or_else camera 0) (some grant_id)
                      means.new_grant_id
                      (rotate_request camera grant_id expected (overlap / 1_000_000)
                        (seconds lifetime))))
                  _
                  λ i s1 e.
                    Returns-bind (IsRotated grant_id overlap lifetime camera created_by)
                      (check_request api means i) _
                      λ u s2 f.
                        Returns-bind (IsRotated grant_id overlap lifetime camera created_by)
                          (api.get_access_grant_by_id grant_id) _
                          λ o s3 found.
                            rotate_current-IsRotated grant_id overlap lifetime camera expected
                              created_by context i o s3 found (ground arith)).at
        s r h
