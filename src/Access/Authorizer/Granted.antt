-- ===== src/Access/Authorizer/Granted.antt =====
-- When access is granted.
use rtsp_proxy.Prelude.{
  ℕ, ◌≡◌, refl, Bool, true, false, not, ◌||◌, Option, none, some, inl, inr, arith, ap, sym, ◌∙◌,
}
use rtsp_proxy.Prelude.Errors.{Result, ok, err, Result-cases}
use rtsp_proxy.Access.Grants.{
  AccessGrant, active_at, text_is, permits, AccessTarget, AuthorizeRequest,
}
use rtsp_proxy.Access.Limiter.{Limiter, begin_peer, end_peer, allow_peer, allow_grant}
use rtsp_proxy.Access.Telemetry.{AccessDecisionReason, AccessDecision, checked_decision}
use rtsp_proxy.Access.Authorizer.{
  AccessAuthorizerStore, Verifier, Clocks, World, Act, ◌>>=◌, ask, limited, deny, when,
  grant_access, rehash, after_rehash, check_grant, if_allowed, with_grant, with_target, if_admitted,
  authorize_started, recorded, finally_end, started, turned_away, if_begun, authorize,
}

module _ {S : Type 0} where
  -- Each decision of the method that grants access has the property.
  record Grants (P : AccessDecision → Type 0) (m : Act S AccessDecision) : Type 0 where
    at : (w : World S) (d : AccessDecision) → (m w).0 ≡ ok d → d.allowed ≡ true → P d

  Grants-deny :
      (P : AccessDecision → Type 0) (reason : AccessDecisionReason) → Grants P (deny reason)
  unfolding checked_decision
  Grants-deny P reason = record { at = λ w d h a. absurd (ground arith) }

  Grants-when :
      (P : AccessDecision → Type 0) (b : Bool) (m k : Act S AccessDecision)
      → Grants P m
      → (b ≡ false → Grants P k)
      → Grants P (when b m k)
  Grants-when P true m k gm gk = gm
  Grants-when P false m k gm gk = gk refl

  Grants-bind :
      {A : Type 0} (P : AccessDecision → Type 0) (m : Act S A) (f : A → Act S AccessDecision)
      → ((a : A) (w : World S) → (m w).0 ≡ ok a → Grants P (f a))
      → Grants P (m >>= f)
  Grants-bind P m f k = record {
    at = λ w d h a. elim (Result-cases (m w).0) [
      | inl (x, e) ↦ (k x w e).at (m w).1 d (rw e at h) a
      | inr (x, e) ↦ absurd (ground arith)
    ];
  }

module _ {S : Type 0} (api : AccessAuthorizerStore S) (verifier : Verifier) (clocks : Clocks) where
  -- What the answer of the store and the tests must have been for a decision that grants access.
  pub record IsAuthorized (r : AuthorizeRequest) (d : AccessDecision) : Type 0 where
    pub reads : (text_is r.action "read" ≡ true) × (text_is r.protocol "rtsp" ≡ true)
    pub target : AccessTarget
    pub target_found :
        (s : S) × ((api.get_access_target r.node_id r.public_id s).0 ≡ ok (some target))
    pub enabled : target.enabled ≡ true
    pub permitted : permits verifier.contains target.policy r.peer ≡ true
    pub grant : AccessGrant
    pub grant_found :
        (s : S) × ((api.get_access_grant target.camera_id r.username s).0 ≡ ok (some grant))
    pub active : active_at grant clocks.now ≡ true
    pub verified : verifier.verify r.password grant.token_verifier grant.pepper_key_id ≡ true
    pub names : (d.camera_id ≡ some target.camera_id) × (d.grant_id ≡ some grant.id)

  grant_access-Grants :
      (t : AccessTarget) (g : AccessGrant)
      → Grants
          (λ d. (d.camera_id ≡ some t.camera_id) × (d.grant_id ≡ some g.id))
          (grant_access api verifier clocks t g)
  unfolding grant_access checked_decision
  grant_access-Grants t g = record { at = λ w d h a. ground arith }

  Grants-weaken :
      (P Q : AccessDecision → Type 0) (m : Act S AccessDecision)
      → ((d : AccessDecision) → P d → Q d)
      → Grants P m
      → Grants Q m
  Grants-weaken P Q m f g = record { at = λ w d h a. f d (g.at w d h a) }

  module _ (P : AccessDecision → Type 0) (r : AuthorizeRequest) (t : AccessTarget) (g : AccessGrant)
      (conclude : (d : AccessDecision)
        → active_at g clocks.now ≡ true
        → verifier.verify r.password g.token_verifier g.pepper_key_id ≡ true
        → (d.camera_id ≡ some t.camera_id) × (d.grant_id ≡ some g.id)
        → P d) where
    check_grant-Grants : Grants P (check_grant api verifier clocks r t g)
    unfolding check_grant after_rehash
    check_grant-Grants =
        Grants-when P (not (active_at g clocks.now)) _ _ (Grants-deny P _) λ active.
          Grants-when P (not (verifier.verify r.password g.token_verifier g.pepper_key_id)) _ _
            (Grants-deny P _)
            λ verified. Grants-bind P (rehash api verifier clocks r g) _ λ rehashed w e.
              Grants-when P (not rehashed) _ _ (Grants-deny P _) λ _.
                Grants-weaken _ P _ (λ d n. conclude d (ground arith) (ground arith) n)
                  (grant_access-Grants t g)

  with_grant-Grants :
      (P : AccessDecision → Type 0) (r : AuthorizeRequest) (t : AccessTarget)
      (o : Option AccessGrant)
      → ((g : AccessGrant) → o ≡ some g → Grants P (check_grant api verifier clocks r t g))
      → Grants P (with_grant api verifier clocks r t o)
  unfolding with_grant if_allowed
  with_grant-Grants P r t none k = Grants-deny P _
  with_grant-Grants P r t (some g) k =
      Grants-bind P (limited (allow_grant clocks.floats t.camera_id g.id clocks.at_grant)) _
        λ allowed w e. Grants-when P (not allowed) _ _ (Grants-deny P _) λ _. k g refl

  with_target-Grants :
      (r : AuthorizeRequest) (o : Option AccessTarget) (s : S)
      → text_is r.action "read" ≡ true
      → text_is r.protocol "rtsp" ≡ true
      → (api.get_access_target r.node_id r.public_id s).0 ≡ ok o
      → Grants (IsAuthorized r) (with_target api verifier clocks r o)
  unfolding with_target
  with_target-Grants r none s reads streams found = Grants-deny (IsAuthorized r) _
  with_target-Grants r (some t) s reads streams found =
      Grants-when (IsAuthorized r) (not t.enabled) _ _ (Grants-deny (IsAuthorized r) _) λ enabled.
        Grants-when (IsAuthorized r) (not (permits verifier.contains t.policy r.peer)) _ _
          (Grants-deny (IsAuthorized r) _)
          λ permitted.
            Grants-bind (IsAuthorized r) (ask (api.get_access_grant t.camera_id r.username)) _
              λ o w known. with_grant-Grants (IsAuthorized r) r t o λ g same.
                check_grant-Grants (IsAuthorized r) r t g λ d active verified names. record {
                  reads = (reads, streams);
                  target = t;
                  target_found = (s, found);
                  enabled = ground arith;
                  permitted = ground arith;
                  grant = g;
                  grant_found = (w.store, known ∙ ap ok same);
                  active = active;
                  verified = verified;
                  names = names;
                }

  authorize_started-Grants :
      (r : AuthorizeRequest) → Grants (IsAuthorized r) (authorize_started api verifier clocks r)
  unfolding authorize_started if_admitted
  authorize_started-Grants r =
      Grants-when (IsAuthorized r)
        (not (text_is r.action "read") || not (text_is r.protocol "rtsp")) _ _
        (Grants-deny (IsAuthorized r) _)
        λ right.
          Grants-bind (IsAuthorized r) (limited (allow_peer clocks.floats r.peer clocks.at_peer)) _
            λ admitted w e.
              Grants-when (IsAuthorized r) (not admitted) _ _ (Grants-deny (IsAuthorized r) _) λ _.
                Grants-bind (IsAuthorized r) (ask (api.get_access_target r.node_id r.public_id)) _
                  λ o v found. with_target-Grants r o v.store (ground arith) (ground arith) found

  recorded-same :
      (r : AuthorizeRequest) (out : Result AccessDecision × World S)
      → (recorded api verifier clocks r out).0 ≡ out.0
  recorded-same r (ok d, w) = refl
  recorded-same r (err e, w) = refl

  finally_end-ok :
      (o : Option Limiter) (peer : ℕ) (out : Result AccessDecision × World S) (d : AccessDecision)
      → (finally_end api verifier clocks o peer out).0 ≡ ok d
      → out.0 ≡ ok d
  finally_end-ok none peer (x, w) d h = h
  finally_end-ok (some l) peer (x, w) d h = elim (Result-cases (end_peer peer l).0) [
    | inl (u, e) ↦ rw e at h
    | inr (f, e) ↦ absurd (ground arith)
  ]

  if_begun-Grants :
      (r : AuthorizeRequest) (begun : Bool)
      → Grants (IsAuthorized r) (if_begun api verifier clocks r begun)
  unfolding if_begun started turned_away
  if_begun-Grants r begun =
      Grants-when (IsAuthorized r) (not begun) _ _
        (record {
          at = λ w d h a.
              (Grants-deny (IsAuthorized r) AccessDecisionReason.request_denied).at w d
                (sym (recorded-same r (deny AccessDecisionReason.request_denied w)) ∙ h) a;
        })
        λ _. record {
          at = λ w d h a.
              (authorize_started-Grants r).at w d
                (sym (recorded-same r (authorize_started api verifier clocks r w))
                  ∙ finally_end-ok _ r.peer
                      (recorded api verifier clocks r (authorize_started api verifier clocks r w)) d
                      h)
                a;
        }

  -- Whatever the store answers: where `authorize` returns a decision that allows, the request is to
  -- read over RTSP, the store named an enabled target whose policy permits the address, the store
  -- named a grant for that camera and user that is active now, the verifier accepted the password
  -- for it, and the decision names that camera and grant.
  pub authorize-IsAuthorized :
      (r : AuthorizeRequest) (w : World S) (d : AccessDecision)
      → (authorize api verifier clocks r w).0 ≡ ok d
      → d.allowed ≡ true
      → IsAuthorized r d
  unfolding authorize
  authorize-IsAuthorized r w d h a =
      (Grants-bind (IsAuthorized r) (limited (begin_peer r.peer)) _
          (λ begun v e. if_begun-Grants r begun)).at
        w d h a
