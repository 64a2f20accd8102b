-- ===== src/Probe/Examples/HealthRecords.antt =====
-- The theorems on the health of a camera at concrete inputs.
use rtsp_proxy.Prelude.{
  ℕ, ◌≡◌, ◌↔◌, ◌≤◌, refl, none, some, List, [], ◌∷◌, arith, count, ℕ_discrete, String-discrete,
}
use rtsp_proxy.Prelude.Errors.{ok}
use rtsp_proxy.Probe.Kinds.{
  path, manual, ProbeOutcome, ProbeHealthState, ProbeFailureClass, fresh, stale,
}
use rtsp_proxy.Probe.Data.{ProbeObservation}
use rtsp_proxy.Probe.Identity.{
  same_health_generation_refl, same_health_generation, probe_generation_key,
  ProbeGenerationKey-discrete,
}
use rtsp_proxy.Probe.Health.{
  ProbeHealthRecord, for_target, observe_deep, observe_all, observation_state,
}
use rtsp_proxy.Probe.Health.Sound.{IsSound, IsAccepted, observe_deep-IsSound, observe_deep_accepts}
use rtsp_proxy.Probe.Health.Trace.{
  is_failure, is_success, down_needs_two_failures, up_needs_two_successes,
}
use rtsp_proxy.Probe.Health.Age.{staleness, Aged, observation_state-exact, observation_state_ages}
use rtsp_proxy.Probe.Examples.{uuid, camera}

abbrev failed : ℕ → ℕ → ProbeObservation
failed n completed_at = record {
  observation_id = uuid n;
  request_id = uuid 1;
  target = camera 10;
  method = path;
  priority = manual;
  outcome = ProbeOutcome.unhealthy;
  started_at = 0;
  completed_at = completed_at;
  attempt = 1;
  failure_class = some ProbeFailureClass.connect_timeout;
  video_codec = none;
  audio_codec = none;
}

abbrev passed : ℕ → ℕ → ProbeObservation
passed n completed_at = record (failed n completed_at) {
  outcome = ProbeOutcome.healthy;
  failure_class = none;
  video_codec = some "h264";
}

abbrev unknown_yet : ProbeHealthRecord
unknown_yet = record {
  target = camera 10;
  method = path;
  health_state = ProbeHealthState.unknown;
  consecutive_failures = 0;
  consecutive_successes = 0;
  last_observation_id = none;
  last_deep_at = none;
  last_success_at = none;
}

abbrev down : ProbeHealthRecord
down = record unknown_yet {
  health_state = ProbeHealthState.unhealthy;
  consecutive_failures = 2;
  last_observation_id = some (uuid 21);
  last_deep_at = some 12_000_000;
}

abbrev up_again : ProbeHealthRecord
up_again = record unknown_yet {
  health_state = ProbeHealthState.healthy;
  consecutive_successes = 2;
  last_observation_id = some (uuid 23);
  last_deep_at = some 32_000_000;
  last_success_at = some 32_000_000;
}

abbrev failures : List ProbeObservation
failures = failed 20 2_000_000 ∷ failed 21 12_000_000 ∷ []

abbrev successes : List ProbeObservation
successes = passed 22 22_000_000 ∷ passed 23 32_000_000 ∷ []

starts : for_target (camera 10) path ≡ ok unknown_yet
unfolding for_target
starts = refl

goes_down : observe_all 5_000_000 unknown_yet failures ≡ ok down
unfolding observe_all observe_deep same_health_generation ProbeGenerationKey-discrete ℕ_discrete
    String-discrete probe_generation_key
goes_down = refl

comes_up : observe_all 5_000_000 down successes ≡ ok up_again
unfolding observe_all observe_deep same_health_generation ProbeGenerationKey-discrete ℕ_discrete
    String-discrete probe_generation_key
comes_up = refl

down-IsSound : IsSound down
down-IsSound = ground arith

recovery-IsAccepted : IsAccepted down (passed 22 22_000_000) 5_000_000
recovery-IsAccepted = record {
  spacing_range = (omega arith, omega arith);
  same_generation = same_health_generation_refl (camera 10) path;
  method_same = refl;
  newer = refl;
  new_id = refl;
}

down_needs_two_failures_example : 2 ≤ count is_failure failures
down_needs_two_failures_example =
    down_needs_two_failures (camera 10) path 5_000_000 failures unknown_yet down starts goes_down
      refl

up_needs_two_successes_example : 2 ≤ count is_success successes
up_needs_two_successes_example =
    up_needs_two_successes 5_000_000 successes down up_again down-IsSound refl comes_up refl

observe_deep_accepts_example :
    (r : ProbeHealthRecord) × (observe_deep down (passed 22 22_000_000) 5_000_000 ≡ ok r)
    × IsSound r
observe_deep_accepts_example =
    observe_deep_accepts down (passed 22 22_000_000) 5_000_000 down-IsSound recovery-IsAccepted

abbrev recovering : ProbeHealthRecord
recovering = record down {
  health_state = ProbeHealthState.recovering;
  consecutive_failures = 0;
  consecutive_successes = 1;
  last_observation_id = some (uuid 22);
  last_deep_at = some 22_000_000;
  last_success_at = some 22_000_000;
}

recovers : observe_deep down (passed 22 22_000_000) 5_000_000 ≡ ok recovering
unfolding observe_deep
recovers = rw same_health_generation_refl refl

observe_deep-IsSound_example : IsSound recovering
observe_deep-IsSound_example =
    observe_deep-IsSound down recovering (passed 22 22_000_000) 5_000_000 down-IsSound recovers

soon_fresh : observation_state up_again 33_000_000 2_000_000 ≡ ok fresh
unfolding observation_state
soon_fresh = refl

later_stale : observation_state up_again 35_000_000 2_000_000 ≡ ok stale
unfolding observation_state
later_stale = refl

observation_state-exact_example :
    ((fresh ≡ fresh) ↔ Aged (some 32_000_000) 33_000_000 0 2_000_000)
    × ((fresh ≡ stale) ↔ Aged (some 32_000_000) 33_000_000 2_000_001 4_000_000)
observation_state-exact_example =
    observation_state-exact up_again 33_000_000 2_000_000 fresh soon_fresh

observation_state_ages_example : staleness fresh ≤ staleness stale
observation_state_ages_example =
    observation_state_ages up_again 33_000_000 35_000_000 2_000_000 32_000_000 fresh stale refl
      (omega arith) (omega arith) soon_fresh later_stale
