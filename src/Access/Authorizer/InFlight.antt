-- ===== src/Access/Authorizer/InFlight.antt =====
-- No attempt stays in flight once its call has ended.
use rtsp_proxy.Prelude.{
  ℕ, ◌≡◌, refl, Bool, true, false, not, ◌||◌, Option, none, some, inl, inr, arith, Bool-cases,
  Option-cases, ap, ◌∙◌, get, Dict,
}
use rtsp_proxy.Prelude.Errors.{Result, ok, err, Result-cases}
use rtsp_proxy.Access.Grants.{
  AccessGrant, active_at, text_is, permits, AccessTarget, AuthorizeRequest,
}
use rtsp_proxy.Access.Floats.{Float, Floats}
use rtsp_proxy.Access.Limiter.{Limiter, begin_peer, end_peer, allow_peer, allow_grant}
use rtsp_proxy.Access.Limiter.Pending.{
  IsPendingBounded, end_peer-begin_peer, end_peer-pending, begin_peer_refused,
}
use rtsp_proxy.Access.Telemetry.{AccessDecisionReason, AccessDecision}
use rtsp_proxy.Access.Authorizer.{
  AccessAuthorizerStore, Verifier, Clocks, World, Act, ◌>>=◌, ask, limited, with_attempts, deny,
  when, grant_access, rehash, after_rehash, check_grant, if_allowed, with_grant, with_target,
  if_admitted, authorize_started, record_decision, recorded, finish, started, turned_away, if_begun,
  authorize,
}

abbrev pub flights : Option Limiter → Option (Dict ℕ)
flights none = none
flights (some l) = some l.pending

module _ {S : Type 0} where
  -- The method leaves the attempts in flight, whatever it returns or raises.
  record Leaves {A : Type 0} (m : Act S A) : Type 0 where
    at : (w : World S) → flights (m w).1.attempts ≡ flights w.attempts

  Leaves-deny : (reason : AccessDecisionReason) → Leaves (deny reason)
  Leaves-deny reason = record { at = λ w. refl }

  Leaves-when : (b : Bool) (m k : Act S AccessDecision) → Leaves m → Leaves k → Leaves (when b m k)
  Leaves-when true m k a b = a
  Leaves-when false m k a b = b

  Leaves-bind :
      {A B : Type 0} (m : Act S A) (f : A → Act S B)
      → Leaves m
      → ((a : A) → Leaves (f a))
      → Leaves (m >>= f)
  Leaves-bind m f km kf = record {
    at = λ w. elim (Result-cases (m w).0) [
      | inl (a, e) ↦ rw e ((kf a).at (m w).1 ∙ km.at w)
      | inr (x, e) ↦ rw e (km.at w)
    ];
  }

  Leaves-ask : {A : Type 0} (call : S → Result A × S) → Leaves (ask call)
  Leaves-ask call = record { at = λ w. refl }

  with_attempts-flights :
      (o : Option Limiter) (attempt : Limiter → Bool × Limiter) (w : World S)
      → w.attempts ≡ o
      → ((l : Limiter) → (attempt l).1.pending ≡ l.pending)
      → flights (with_attempts o attempt w).1.attempts ≡ flights o
  with_attempts-flights none attempt w e h = ap flights e
  with_attempts-flights (some l) attempt w e h = ap some (h l)

  Leaves-limited :
      (attempt : Limiter → Bool × Limiter)
      → ((l : Limiter) → (attempt l).1.pending ≡ l.pending)
      → Leaves (limited attempt)
  Leaves-limited attempt h = record { at = λ w. with_attempts-flights w.attempts attempt w refl h }

allow_peer-pending :
    (f : Floats) (a : ℕ) (now : Float) (l : Limiter) → (allow_peer f a now l).1.pending ≡ l.pending
unfolding allow_peer
allow_peer-pending f a now l = refl

allow_grant-pending :
    (f : Floats) (c g : ℕ) (now : Float) (l : Limiter)
    → (allow_grant f c g now l).1.pending ≡ l.pending
unfolding allow_grant
allow_grant-pending f c g now l = refl

module _ {S : Type 0} (api : AccessAuthorizerStore S) (verifier : Verifier) (clocks : Clocks) where
  check_grant-Leaves :
      (r : AuthorizeRequest) (t : AccessTarget) (g : AccessGrant)
      → Leaves (check_grant api verifier clocks r t g)
  unfolding check_grant rehash after_rehash grant_access
  check_grant-Leaves r t g = Leaves-when (not (active_at g clocks.now)) _ _ (Leaves-deny _) (
      Leaves-when (not (verifier.verify r.password g.token_verifier g.pepper_key_id)) _ _
        (Leaves-deny _)
        (Leaves-bind (rehash api verifier clocks r g) (after_rehash api verifier clocks t g)
          (record {
            at = λ w. elim (Bool-cases (text_is g.pepper_key_id verifier.primary_key_id)) [
              | inl same ↦ rw same refl
              | inr other ↦ rw other refl
            ];
          })
          (λ rehashed.
            Leaves-when (not rehashed) _ (grant_access api verifier clocks t g)
              (Leaves-deny AccessDecisionReason.credential_denied) (record { at = λ w. refl }))))

  with_grant-Leaves :
      (r : AuthorizeRequest) (t : AccessTarget) (o : Option AccessGrant)
      → Leaves (with_grant api verifier clocks r t o)
  unfolding with_grant if_allowed
  with_grant-Leaves r t none = Leaves-deny _
  with_grant-Leaves r t (some g) =
      Leaves-bind (limited (allow_grant clocks.floats t.camera_id g.id clocks.at_grant)) _
        (Leaves-limited _ (allow_grant-pending clocks.floats t.camera_id g.id clocks.at_grant))
        λ allowed. Leaves-when (not allowed) _ _ (Leaves-deny _) (check_grant-Leaves r t g)

  with_target-Leaves :
      (r : AuthorizeRequest) (o : Option AccessTarget)
      → Leaves (with_target api verifier clocks r o)
  unfolding with_target
  with_target-Leaves r none = Leaves-deny _
  with_target-Leaves r (some t) =
      Leaves-when (not t.enabled) _ _ (Leaves-deny AccessDecisionReason.target_denied) (
        Leaves-when (not (permits verifier.contains t.policy r.peer)) _ _
          (Leaves-deny AccessDecisionReason.ip_denied)
          (Leaves-bind (ask (api.get_access_grant t.camera_id r.username)) _ (Leaves-ask _)
            (with_grant-Leaves r t)))

  authorize_started-Leaves :
      (r : AuthorizeRequest) → Leaves (authorize_started api verifier clocks r)
  unfolding authorize_started if_admitted
  authorize_started-Leaves r =
      Leaves-when (not (text_is r.action "read") || not (text_is r.protocol "rtsp")) _ _
        (Leaves-deny AccessDecisionReason.request_denied)
        (Leaves-bind (limited (allow_peer clocks.floats r.peer clocks.at_peer)) _
          (Leaves-limited _ (allow_peer-pending clocks.floats r.peer clocks.at_peer))
          λ admitted. Leaves-when (not admitted) _ _ (Leaves-deny _) (
            Leaves-bind (ask (api.get_access_target r.node_id r.public_id)) _ (Leaves-ask _)
              (with_target-Leaves r)))

  recorded-flights :
      (r : AuthorizeRequest) (out : Result AccessDecision × World S)
      → flights (recorded api verifier clocks r out).1.attempts ≡ flights out.1.attempts
  unfolding record_decision
  recorded-flights r (err e, w) = refl
  recorded-flights r (ok d, w) = elim (Option-cases w.sink) [
    | inl missing ↦ rw missing refl
    | inr (t, e) ↦ rw e refl
  ]

  finish-flights :
      (a b : ℕ) (l : Limiter) (out : Result AccessDecision × World S)
      → IsPendingBounded l
      → (begin_peer a l).0 ≡ true
      → flights out.1.attempts ≡ some (begin_peer a l).1.pending
      → (k : Limiter) × ((finish api verifier clocks a out).1.attempts ≡ some k)
        × (get b k.pending ≡ get b l.pending)
  finish-flights a b l out h begun e = elim (Option-cases out.1.attempts) [
    | inl missing ↦ absurd (ground arith)
    | inr (k, there) ↦
        let same : k.pending ≡ (begin_peer a l).1.pending = ground arith in
        (
          (end_peer a k).1,
          rw there refl,
          ap (get b) (end_peer-pending a k (begin_peer a l).1 same)
              ∙ (end_peer-begin_peer a b l h begun).1,
        )
  ]

  still :
      (b : ℕ) (l : Limiter) (o : Option Limiter)
      → flights o ≡ some l.pending
      → (k : Limiter) × (o ≡ some k) × (get b k.pending ≡ get b l.pending)
  still b l none e = absurd (ground arith)
  still b l (some k) e =
      let same : k.pending ≡ l.pending = ground arith in (k, refl, ap (get b) same)

  -- Where the authorizer has a limiter whose table of attempts in flight is bounded: whatever the
  -- request, the store and the clocks, and whether a decision is returned or an exception raised,
  -- `authorize` leaves every address with as many attempts in flight as before the call.
  pub authorize-flights :
      (r : AuthorizeRequest) (w : World S) (l : Limiter) (b : ℕ)
      → w.attempts ≡ some l
      → IsPendingBounded l
      → (k : Limiter) × ((authorize api verifier clocks r w).1.attempts ≡ some k)
        × (get b k.pending ≡ get b l.pending)
  unfolding authorize if_begun started turned_away
  authorize-flights r w l b e h = rw e elim (Bool-cases (begin_peer r.peer l).0) [
    | inl begun ↦
        let v : World S = record w { attempts = some (begin_peer r.peer l).1 } in
        rw begun (
          finish-flights r.peer b l
            (recorded api verifier clocks r (authorize_started api verifier clocks r v)) h begun
            (recorded-flights r (authorize_started api verifier clocks r v)
              ∙ (authorize_started-Leaves r).at v))
    | inr refused ↦
        let v : World S = record w { attempts = some (begin_peer r.peer l).1 } in
        let same = recorded-flights r (deny AccessDecisionReason.request_denied v) in
        rw refused (
          still b l _
            (same ∙ ap (λ (x : Limiter). some x.pending) (begin_peer_refused r.peer l refused)))
  ]
