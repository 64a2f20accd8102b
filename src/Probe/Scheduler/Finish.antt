-- ===== src/Probe/Scheduler/Finish.antt =====
-- `complete`, `cancel` and `diagnostics`.
pub mod Narrowing
pub mod Fencing
use rtsp_proxy.Prelude.{
  ℕ, ◌+◌, Bool, false, not, ◌&&◌, ◌||◌, Option, none, some, ltb, ◌==◌, if◌then◌else◌, eqb, get, pop,
  count, values,
}
use rtsp_proxy.Prelude.Errors.{value_error, ok, err}
use rtsp_proxy.Probe.Kinds.{ProbeMethod, source, path, same_method}
use rtsp_proxy.Probe.Data.{
  ProbeRequest, ProbeLease, ProbeExecutionResult, ProbeObservation, checked_observation,
}
use rtsp_proxy.Probe.Identity.{ProbeLease-discrete}
use rtsp_proxy.Probe.Scheduler.State.{Scheduler}
use rtsp_proxy.Probe.Scheduler.Steps.{Step}

-- `current == lease` for the lease that stands under the request's id, if there is one.
abbrev pub is_lease : Option ProbeLease → ProbeLease → Bool
is_lease none lease = false
is_lease (some current) lease = eqb ProbeLease-discrete current lease

abbrev pub is_request : Option ProbeRequest → ℕ → Bool
is_request none request_id = false
is_request (some request) request_id = request.request_id == request_id

-- The lease is active just so, and its request is that of its camera.
unfoldable pub holds : Scheduler → ProbeLease → Bool
holds s lease =
    is_lease (get lease.request_id s.active) lease
    && is_request (get lease.target.camera_id s.requests_by_camera) lease.request_id

release : ProbeLease → Scheduler → Scheduler
release lease s = record s {
  active = pop lease.request_id s.active;
  requests_by_camera = pop lease.target.camera_id s.requests_by_camera;
  attempts = pop lease.request_id s.attempts;
}

observe : ProbeLease → ProbeExecutionResult → ℕ → ProbeObservation
observe lease result observation_id = record {
  observation_id = observation_id;
  request_id = lease.request_id;
  target = lease.target;
  method = lease.method;
  priority = lease.priority;
  outcome = result.outcome;
  started_at = lease.started_at;
  completed_at = result.completed_at;
  attempt = lease.attempt;
  failure_class = result.failure_class;
  video_codec = result.video_codec;
  audio_codec = result.audio_codec;
}

abbrev pub in_window : ProbeLease → ProbeExecutionResult → Bool
in_window lease result =
    not (ltb result.completed_at lease.started_at || ltb lease.lease_expires_at result.completed_at)

unfoldable pub complete : ProbeLease → ProbeExecutionResult → Step ProbeObservation
unfolding holds release observe
complete lease result s =
    if is_lease (get lease.request_id s.active) lease
      && in_window lease result
      && is_request (get lease.target.camera_id s.requests_by_camera) lease.request_id
    then (
      checked_observation (observe lease result (s.ids.observation_id s.observations_drawn)),
      record (release lease s) {
        completed_total = s.completed_total + 1;
        observations_drawn = s.observations_drawn + 1;
      },
    )
    else (err (value_error "probe_lease_invalid"), s)

unfoldable pub cancel : ProbeLease → Step (Unit {0})
unfolding holds release
cancel lease s =
    if holds s lease
    then (ok tt, record (release lease s) { rejected_total = s.rejected_total + 1 })
    else (err (value_error "probe_lease_invalid"), s)

pub record ProbeSchedulerDiagnostics : Type 0 where
  pub queued : ℕ
  pub active : ℕ
  pub source_queued : ℕ
  pub source_active : ℕ
  pub path_queued : ℕ
  pub path_active : ℕ
  pub submitted_total : ℕ
  pub completed_total : ℕ
  pub expired_total : ℕ
  pub rejected_total : ℕ

queued_by_method : Scheduler → ProbeMethod → ℕ
queued_by_method s method =
    count (λ r. same_method r.method method) s.pending.manual_queue
    + count (λ r. same_method r.method method) s.pending.confirmation_queue
    + count (λ r. same_method r.method method) s.pending.routine_queue

active_of_method : Scheduler → ProbeMethod → ℕ
active_of_method s method = count (λ l. same_method l.method method) (values s.active)

unfoldable pub diagnostics : Scheduler → ProbeSchedulerDiagnostics
unfolding queued_by_method active_of_method
diagnostics s = record {
  queued = queued_by_method s source + queued_by_method s path;
  active = active_of_method s source + active_of_method s path;
  source_queued = queued_by_method s source;
  source_active = active_of_method s source;
  path_queued = queued_by_method s path;
  path_active = active_of_method s path;
  submitted_total = s.submitted_total;
  completed_total = s.completed_total;
  expired_total = s.expired_total;
  rejected_total = s.rejected_total;
}
