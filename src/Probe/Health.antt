-- ===== src/Probe/Health.antt =====
-- `ProbeHealthRecord` of probes.py: how the results of deep probes move the health of a camera.
pub mod Sound
pub mod Trace
pub mod Age
use rtsp_proxy.Prelude.{
  ℕ, ◌+◌, ◌-◌, ◌*◌, Bool, true, false, not, ◌&&◌, ◌||◌, Option, none, some, List, [], ◌∷◌, min, max,
  ltb, leb, ◌==◌, is_some, if◌then◌else◌,
}
use rtsp_proxy.Prelude.Errors.{value_error, Result, ok, refuse, ◌>>=◌, ◌>>◌}
use rtsp_proxy.Probe.Kinds.{
  ProbeMethod, ProbeOutcome, ProbeHealthState, ProbeObservationState, fresh, stale, overdue,
  same_method,
}
use rtsp_proxy.Probe.Data.{ProbeTarget, ProbeObservation, one_second, one_hour, one_day}
use rtsp_proxy.Probe.Identity.{same_health_generation}

pub record ProbeHealthRecord : Type 0 where
  pub target : ProbeTarget
  pub method : ProbeMethod
  pub health_state : ProbeHealthState
  pub consecutive_failures : ℕ
  pub consecutive_successes : ℕ
  pub last_observation_id : Option ℕ
  pub last_deep_at : Option ℕ
  pub last_success_at : Option ℕ

-- Both times are there, and the success is the later one.
success_after_deep : Option ℕ → Option ℕ → Bool
success_after_deep (some success) (some deep) = ltb deep success
success_after_deep none _ = false
success_after_deep (some success) none = false

-- `__post_init__`: the record itself, or the exception.
unfoldable pub checked_health : ProbeHealthRecord → Result ProbeHealthRecord
unfolding success_after_deep
checked_health r = do
  refuse
      (ltb 2 r.consecutive_failures
        || ltb 2 r.consecutive_successes
        || success_after_deep r.last_success_at r.last_deep_at
        || (is_some r.last_observation_id && not (is_some r.last_deep_at))
        || (not (is_some r.last_observation_id) && is_some r.last_deep_at))
      (value_error "probe_health_record_invalid")
  ok r

unfoldable pub for_target : ProbeTarget → ProbeMethod → Result ProbeHealthRecord
unfolding checked_health
for_target target method = checked_health (record {
  target = target;
  method = method;
  health_state = ProbeHealthState.unknown;
  consecutive_failures = 0;
  consecutive_successes = 0;
  last_observation_id = none;
  last_deep_at = none;
  last_success_at = none;
})

unfoldable pub for_current_target : ProbeHealthRecord → ProbeTarget → Result ProbeHealthRecord
unfolding checked_health for_target
for_current_target r target =
    if same_health_generation r.target target r.method
    then checked_health (record r { target = target })
    else for_target target r.method

-- `self.last_deep_at is not None and observation.completed_at <= self.last_deep_at`
abbrev pub not_newer : Option ℕ → ℕ → Bool
not_newer none completed_at = false
not_newer (some deep) completed_at = leb completed_at deep

abbrev pub same_id : Option ℕ → ℕ → Bool
same_id none i = false
same_id (some j) i = i == j

-- `spaced`; the difference is exact, since a result that is not newer was refused.
abbrev pub is_spaced : Option ℕ → ℕ → ℕ → Bool
is_spaced none completed_at spacing = true
is_spaced (some deep) completed_at spacing = leb spacing (completed_at - deep)

-- `self.health_state in {UNHEALTHY, RECOVERING}`
abbrev pub is_down : ProbeHealthState → Bool
is_down ProbeHealthState.unhealthy = true
is_down ProbeHealthState.recovering = true
is_down _ = false

abbrev is_recovering : ProbeHealthState → Bool
is_recovering ProbeHealthState.recovering = true
is_recovering _ = false

abbrev to_number : Bool → ℕ
to_number true = 1
to_number false = 0

after_failure : ProbeHealthRecord → ProbeObservation → Bool → Result ProbeHealthRecord
unfolding checked_health
after_failure r o spaced =
    let failures = min 2 (r.consecutive_failures + to_number spaced) in
    checked_health (record r {
      target = o.target;
      health_state =
          if is_down r.health_state || leb 2 failures
          then ProbeHealthState.unhealthy
          else ProbeHealthState.suspect;
      consecutive_failures = failures;
      consecutive_successes = 0;
      last_observation_id = some o.observation_id;
      last_deep_at = some o.completed_at;
    })

after_success : ProbeHealthRecord → ProbeObservation → Bool → Result ProbeHealthRecord
unfolding checked_health
after_success r o spaced =
    let successes = min 2 (r.consecutive_successes + to_number spaced) in
    let down = is_down r.health_state in
    checked_health (record r {
      target = o.target;
      health_state =
          if down
          then (if is_recovering r.health_state && leb 2 successes
              then ProbeHealthState.healthy
              else ProbeHealthState.recovering)
          else ProbeHealthState.healthy;
      consecutive_failures = 0;
      consecutive_successes = if down then successes else max 1 successes;
      last_observation_id = some o.observation_id;
      last_deep_at = some o.completed_at;
      last_success_at = some o.completed_at;
    })

pub advance : ProbeOutcome → ProbeHealthRecord → ProbeObservation → Bool → Result ProbeHealthRecord
unfolding after_failure after_success
advance ProbeOutcome.inconclusive r o spaced = ok r
advance ProbeOutcome.unhealthy r o spaced = after_failure r o spaced
advance ProbeOutcome.healthy r o spaced = after_success r o spaced

unfoldable pub observe_deep : ProbeHealthRecord → ProbeObservation → ℕ → Result ProbeHealthRecord
unfolding advance
observe_deep r o spacing = do
  refuse (not (leb one_second spacing && leb spacing one_hour))
      (value_error "probe_confirmation_spacing_invalid")
  refuse
      (not (same_health_generation r.target o.target r.method)
        || not (same_method o.method r.method)
        || not_newer r.last_deep_at o.completed_at
        || same_id r.last_observation_id o.observation_id)
      (value_error "probe_health_observation_invalid")
  advance o.outcome r o (is_spaced r.last_deep_at o.completed_at spacing)

-- A row of results, each fed to the record that the one before it left.
unfoldable pub observe_all :
    ℕ → ProbeHealthRecord → List ProbeObservation → Result ProbeHealthRecord
observe_all spacing r [] = ok r
observe_all spacing r (o ∷ rest) = do r' ← observe_deep r o spacing; observe_all spacing r' rest

age_state : Option ℕ → ℕ → ℕ → ProbeObservationState
age_state none now interval = overdue
age_state (some success) now interval =
    if ltb now success
    then overdue
    else if leb (now - success) interval
    then fresh
    else if leb (now - success) (2 * interval)
    then stale
    else overdue

unfoldable pub observation_state : ProbeHealthRecord → ℕ → ℕ → Result ProbeObservationState
unfolding age_state
observation_state r now configured_interval = do
  refuse (not (leb one_second configured_interval && leb configured_interval one_day))
      (value_error "probe_freshness_window_invalid")
  ok (age_state r.last_success_at now configured_interval)
