-- ===== src/Probe/Examples.antt =====
-- Two cameras on one node, with a manual and a routine request: the theorems on probes.py at
-- concrete inputs.
mod Scheduling
mod HealthRecords
mod Storage
use rtsp_proxy.Prelude.{
  ℕ, ◌+◌, ◌^◌, ◌≡◌, ◌≢◌, ◌↔◌, refl, inl, inr, Bool, true, false, Option, none, some, List, [], ◌∷◌,
  arith, Dict, get, eqb, count, ◌≤◌,
}
use rtsp_proxy.Prelude.Errors.{ok, err, out_of_fuel}
use rtsp_proxy.Probe.Kinds.{
  ProbeMethod, source, path, ProbePriority, manual, confirmation, routine, ProbeOutcome,
  ProbeHealthState, ProbeFailureClass, running, fresh, stale,
}
use rtsp_proxy.Probe.Data.{
  ProbeNodeRuntimeGeneration, ProbeTarget, ProbeRequest, ProbeLease, ProbeExecutionResult,
  ProbeObservation,
}
use rtsp_proxy.Probe.Scheduler.State.{Settings, Ids, Scheduler, create}

abbrev pub uuid : ℕ → ℕ
uuid n = 2 ^ 63 + 2 ^ 78 + n

abbrev pub runtime : ProbeNodeRuntimeGeneration
runtime = record {
  node_applied_revision = 3;
  process_id = 100;
  process_start_ticks = 5000;
  process_boot_id = uuid 1;
  release_id = "r1";
}

abbrev pub camera : ℕ → ProbeTarget
camera n = record {
  camera_id = uuid n;
  public_id = "camera";
  node_id = uuid 2;
  site_key = "site-1";
  desired_revision = 1;
  placement_generation = 1;
  node_state = running;
  enabled = true;
  maintenance = false;
  occupied = false;
  source_pull_active = false;
  max_source_sessions = 2;
  node_runtime = some runtime;
  source_endpoint_generation = some (uuid 3);
}

abbrev pub settings : Settings
settings = record {
  global_limit = 4;
  per_node_limit = 2;
  per_site_limit = 2;
  source_limit = 2;
  path_limit = 2;
  queue_limit = 10;
  lease = 5_000_000;
  retry_delay = 1_000_000;
  max_attempts = 3;
}

abbrev pub ids : Ids
ids = record {
  request_id = λ n. uuid (1000 + n);
  lease_token = λ n. uuid (2000 + n);
  observation_id = λ n. uuid (3000 + n);
}

abbrev pub request : ℕ → ProbePriority → ProbeRequest
request n priority = record {
  request_id = uuid (1000 + n);
  target = camera n;
  method = path;
  priority = priority;
  requested_at = 0;
  deadline_at = 60_000_000;
  available_at = 0;
}

abbrev pub lease : ProbeLease
lease = record {
  request_id = uuid 1010;
  lease_token = uuid 2000;
  target = camera 10;
  method = path;
  priority = manual;
  started_at = 0;
  lease_expires_at = 5_000_000;
  attempt = 1;
}

abbrev pub result : ProbeExecutionResult
result = record {
  outcome = ProbeOutcome.healthy;
  completed_at = 2_000_000;
  failure_class = none;
  video_codec = some "h264";
  audio_codec = none;
}

abbrev pub targets : Dict ProbeTarget
targets = (uuid 10, camera 10) ∷ (uuid 11, camera 11) ∷ []
