-- ===== src/Probe/Health/Sound.antt =====
-- The records that results can lead to, and when a result is taken.
use rtsp_proxy.Prelude.{
  ℕ, ◌≤◌, ◌<◌, ◌≡◌, ◌≢◌, refl, sym, ◌∙◌, inl, inr, Bool, true, false, Option, none, some, arith,
}
use rtsp_proxy.Prelude.Errors.{Error, ok, err, Result-cases}
use rtsp_proxy.Probe.Kinds.{ProbeMethod, ProbeOutcome, ProbeHealthState, same_method}
use rtsp_proxy.Probe.Data.{ProbeTarget, ProbeObservation, one_second, one_hour}
use rtsp_proxy.Probe.Identity.{same_health_generation}
use rtsp_proxy.Probe.Health.{
  ProbeHealthRecord, for_target, not_newer, same_id, observe_deep, checked_health, is_spaced,
  advance,
}

-- `first` is there only with `second`, and is no later.
abbrev pub NotAfter : Option ℕ → Option ℕ → Type 0
NotAfter none _ = Unit
NotAfter (some a) (some b) = a ≤ b
NotAfter (some a) none = ⊥

abbrev pub BothOrNeither : Option ℕ → Option ℕ → Type 0
BothOrNeither none none = Unit
BothOrNeither (some _) (some _) = Unit
BothOrNeither _ _ = ⊥

pub record IsSound (r : ProbeHealthRecord) : Type 0 where
  pub failures_capped : r.consecutive_failures ≤ 2
  pub successes_capped : r.consecutive_successes ≤ 2
  pub success_is_deep : NotAfter r.last_success_at r.last_deep_at
  pub deep_has_id : BothOrNeither r.last_observation_id r.last_deep_at
  -- one of the two counters is at 0
  pub one_streak : 0 < r.consecutive_failures → r.consecutive_successes ≡ 0
  -- a camera that is down and not recovering has no success in a row
  pub unhealthy_streak : r.health_state ≡ ProbeHealthState.unhealthy → r.consecutive_successes ≡ 0
  pub recovering_streak : r.health_state ≡ ProbeHealthState.recovering → r.consecutive_failures ≡ 0
  -- two failures in a row mean down
  pub down_streak : 2 ≤ r.consecutive_failures → r.health_state ≡ ProbeHealthState.unhealthy
  -- a healthy camera has had a success, and no failure since
  pub healthy_success :
      r.health_state ≡ ProbeHealthState.healthy
      → (0 < r.consecutive_successes) × (r.consecutive_failures ≡ 0)
  pub unknown_fresh : r.health_state ≡ ProbeHealthState.unknown → r.last_deep_at ≡ none

pub record IsAccepted (r : ProbeHealthRecord) (o : ProbeObservation) (spacing : ℕ) : Type 0 where
  pub spacing_range : (one_second ≤ spacing) × (spacing ≤ one_hour)
  pub same_generation : same_health_generation r.target o.target r.method ≡ true
  pub method_same : same_method o.method r.method ≡ true
  pub newer : not_newer r.last_deep_at o.completed_at ≡ false
  pub new_id : same_id r.last_observation_id o.observation_id ≡ false

pub for_target-IsSound :
    (t : ProbeTarget) (m : ProbeMethod)
    → (r : ProbeHealthRecord) × (for_target t m ≡ ok r) × IsSound r
unfolding for_target
for_target-IsSound t m = (_, refl, ground arith)

-- A result that is taken was acceptable, and the record is moved by its outcome.
pub observe_deep-taken :
    (r r' : ProbeHealthRecord) (o : ProbeObservation) (spacing : ℕ)
    → observe_deep r o spacing ≡ ok r'
    → IsAccepted r o spacing
      × (advance o.outcome r o (is_spaced r.last_deep_at o.completed_at spacing) ≡ ok r')
unfolding observe_deep
observe_deep-taken r r' o spacing h = ground arith

-- The three outcomes, from a sound record and a result that is newer.
advance-IsSound :
    (outcome : ProbeOutcome) (r r' : ProbeHealthRecord) (o : ProbeObservation) (spaced : Bool)
    → IsSound r
    → not_newer r.last_deep_at o.completed_at ≡ false
    → advance outcome r o spaced ≡ ok r'
    → IsSound r'
unfolding advance checked_health
advance-IsSound ProbeOutcome.inconclusive r r' o spaced s n h = ground arith
advance-IsSound ProbeOutcome.unhealthy r r' o spaced s n h = ground arith
advance-IsSound ProbeOutcome.healthy r r' o spaced s n h = ground arith

-- Every result that a sound record takes leads to a sound record: the counters stay at most 2, the
-- times stay in order, and the counters agree with the state.
pub observe_deep-IsSound :
    (r r' : ProbeHealthRecord) (o : ProbeObservation) (spacing : ℕ)
    → IsSound r
    → observe_deep r o spacing ≡ ok r'
    → IsSound r'
observe_deep-IsSound r r' o spacing s h =
    let (a, moved) = observe_deep-taken r r' o spacing h in
    advance-IsSound o.outcome r r' o _ s a.newer moved

advance_no_error :
    (outcome : ProbeOutcome) (r : ProbeHealthRecord) (o : ProbeObservation) (spaced : Bool)
    (e : Error)
    → IsSound r
    → not_newer r.last_deep_at o.completed_at ≡ false
    → advance outcome r o spaced ≢ err e
unfolding advance checked_health
advance_no_error ProbeOutcome.inconclusive r o spaced e s n = ground arith
advance_no_error ProbeOutcome.unhealthy r o spaced e s n = ground arith
advance_no_error ProbeOutcome.healthy r o spaced e s n = ground arith

observe_deep-advance :
    (r : ProbeHealthRecord) (o : ProbeObservation) (spacing : ℕ)
    → IsAccepted r o spacing
    → observe_deep r o spacing
      ≡ advance o.outcome r o (is_spaced r.last_deep_at o.completed_at spacing)
unfolding observe_deep
observe_deep-advance r o spacing a = ground arith

-- A sound record takes every acceptable result: the check of the new record never fails.
pub observe_deep_accepts :
    (r : ProbeHealthRecord) (o : ProbeObservation) (spacing : ℕ)
    → IsSound r
    → IsAccepted r o spacing
    → (r' : ProbeHealthRecord) × (observe_deep r o spacing ≡ ok r') × IsSound r'
observe_deep_accepts r o spacing s a = elim (Result-cases (observe_deep r o spacing)) [
  | inl (r', h) ↦ (r', h, observe_deep-IsSound r r' o spacing s h)
  | inr (e, h) ↦
      absurd (
        advance_no_error o.outcome r o _ e s a.newer (sym (observe_deep-advance r o spacing a) ∙ h))
]
