-- ===== src/Probe/Health/Trace.antt =====
-- What a row of results must hold before a camera is down, and before it is healthy again.
use rtsp_proxy.Prelude.{
  ℕ, ◌+◌, ◌≤◌, ◌≡◌, refl, inl, inr, Bool, true, false, List, [], ◌∷◌, count, arith, subst,
}
use rtsp_proxy.Prelude.Errors.{ok, Result-cases}
use rtsp_proxy.Probe.Kinds.{ProbeMethod, ProbeOutcome, ProbeHealthState}
use rtsp_proxy.Probe.Data.{ProbeTarget, ProbeObservation}
use rtsp_proxy.Probe.Health.{
  ProbeHealthRecord, for_target, checked_health, is_down, advance, observe_deep, observe_all,
}
use rtsp_proxy.Probe.Health.Sound.{IsSound, observe_deep-taken, observe_deep-IsSound}

abbrev pub is_failure : ProbeObservation → Bool
is_failure o = elim o.outcome [ ProbeOutcome.unhealthy ↦ true | _ ↦ false ]

abbrev pub is_success : ProbeObservation → Bool
is_success o = elim o.outcome [ ProbeOutcome.healthy ↦ true | _ ↦ false ]

-- After `n` failures: no more of them are in a row, and a camera that is down has had two.
record FailuresSeen (r : ProbeHealthRecord) (n : ℕ) : Type 0 where
  in_a_row : r.consecutive_failures ≤ n
  when_down : is_down r.health_state ≡ true → 2 ≤ n

advance-FailuresSeen :
    (outcome : ProbeOutcome) (r r' : ProbeHealthRecord) (o : ProbeObservation) (spaced : Bool)
    (n : ℕ)
    → o.outcome ≡ outcome
    → FailuresSeen r n
    → advance outcome r o spaced ≡ ok r'
    → FailuresSeen r' (n + count is_failure (o ∷ []))
unfolding advance checked_health
advance-FailuresSeen ProbeOutcome.inconclusive r r' o spaced n e s h = ground arith
advance-FailuresSeen ProbeOutcome.unhealthy r r' o spaced n e s h = ground arith
advance-FailuresSeen ProbeOutcome.healthy r r' o spaced n e s h = ground arith

-- After `n` successes: a camera that recovers has had no more of them in a row, and one that is no
-- longer down has had two.
record SuccessesSeen (r : ProbeHealthRecord) (n : ℕ) : Type 0 where
  in_a_row : r.health_state ≡ ProbeHealthState.recovering → r.consecutive_successes ≤ n
  when_up : is_down r.health_state ≡ false → 2 ≤ n

advance-SuccessesSeen :
    (outcome : ProbeOutcome) (r r' : ProbeHealthRecord) (o : ProbeObservation) (spaced : Bool)
    (n : ℕ)
    → o.outcome ≡ outcome
    → IsSound r
    → SuccessesSeen r n
    → advance outcome r o spaced ≡ ok r'
    → SuccessesSeen r' (n + count is_success (o ∷ []))
unfolding advance checked_health
advance-SuccessesSeen ProbeOutcome.inconclusive r r' o spaced n e s c h = ground arith
advance-SuccessesSeen ProbeOutcome.unhealthy r r' o spaced n e s c h = ground arith
advance-SuccessesSeen ProbeOutcome.healthy r r' o spaced n e s c h = ground arith

-- A property of the record and of how many results passed a test goes through a row of results.
module _ (P : ProbeHealthRecord → ℕ → Type 0) (test : ProbeObservation → Bool) (spacing : ℕ)
    (step : (r r' : ProbeHealthRecord) (o : ProbeObservation) (n : ℕ)
      → IsSound r
      → P r n
      → observe_deep r o spacing ≡ ok r'
      → P r' (n + count test (o ∷ []))) where
  observe_all_induction :
      (os : List ProbeObservation) (r r' : ProbeHealthRecord) (n : ℕ)
      → IsSound r
      → P r n
      → observe_all spacing r os ≡ ok r'
      → P r' (n + count test os)
  unfolding observe_all
  observe_all_induction [] r r' n s p h =
      subst (λ k. P r' k) (omega arith) (subst (λ x. P x n) (ground arith) p)
  observe_all_induction (o ∷ os) r r' n s p h = elim (Result-cases (observe_deep r o spacing)) [
    | inl (r1, e) ↦
        subst (λ k. P r' k) (omega arith)
          (observe_all_induction os r1 r' (n + count test (o ∷ []))
            (observe_deep-IsSound r r1 o spacing s e) (step r r1 o n s p e) (rw e at h))
    | inr (e, q) ↦ absurd (ground arith)
  ]

fresh_start :
    (t : ProbeTarget) (m : ProbeMethod) (r0 : ProbeHealthRecord)
    → for_target t m ≡ ok r0
    → IsSound r0 × FailuresSeen r0 0
unfolding for_target
fresh_start t m r0 h = ground arith

-- A camera whose record starts afresh is down (unhealthy or recovering) only after at least two
-- unhealthy results, whatever other results came between and however they were spaced.
pub down_needs_two_failures :
    (t : ProbeTarget) (m : ProbeMethod) (spacing : ℕ) (os : List ProbeObservation)
    (r0 r : ProbeHealthRecord)
    → for_target t m ≡ ok r0
    → observe_all spacing r0 os ≡ ok r
    → is_down r.health_state ≡ true
    → 2 ≤ count is_failure os
down_needs_two_failures t m spacing os r0 r start h down =
    let (sound, seen0) = fresh_start t m r0 start in
    let seen =
      observe_all_induction FailuresSeen is_failure spacing
        (λ q q' o n s f e.
          advance-FailuresSeen o.outcome q q' o _ n refl f (observe_deep-taken q q' o spacing e).1)
        os r0 r 0 sound seen0 h in
    omega (arith, seen.when_down down)

-- A camera whose record is sound and unhealthy is no longer down (neither unhealthy nor
-- recovering) only after at least two healthy results.
pub up_needs_two_successes :
    (spacing : ℕ) (os : List ProbeObservation) (r0 r : ProbeHealthRecord)
    → IsSound r0
    → r0.health_state ≡ ProbeHealthState.unhealthy
    → observe_all spacing r0 os ≡ ok r
    → is_down r.health_state ≡ false
    → 2 ≤ count is_success os
up_needs_two_successes spacing os r0 r s bad h up =
    let seen =
      observe_all_induction SuccessesSeen is_success spacing
        (λ q q' o n s c e.
          let (a, moved) = observe_deep-taken q q' o spacing e in
          advance-SuccessesSeen o.outcome q q' o _ n refl s c moved)
        os r0 r 0 s (ground arith) h in
    omega (arith, seen.when_up up)
