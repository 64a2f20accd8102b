-- ===== src/Probe/Scheduler/State.antt =====
-- The scheduler's settings and state, and its constructor.
use rtsp_proxy.Prelude.{ℕ, Bool, not, ◌&&◌, ◌||◌, List, [], ◌∷◌, ◌++◌, leb, Dict}
use rtsp_proxy.Prelude.Errors.{value_error, Result, ok, refuse, ◌>>=◌, ◌>>◌}
use rtsp_proxy.Probe.Kinds.{ProbeMethod, source, path, ProbePriority, manual, confirmation, routine}
use rtsp_proxy.Probe.Data.{ProbeRequest, ProbeLease}
use rtsp_proxy.Probe.Scheduler.Reservations.{Reservations, priority_reservations}

-- What the callables `new_request_id`, `new_lease_token` and `new_observation_id` return at their
-- n-th call.
pub record Ids : Type 0 where
  pub request_id : ℕ → ℕ
  pub lease_token : ℕ → ℕ
  pub observation_id : ℕ → ℕ

-- The durations are in microseconds.
pub record Settings : Type 0 where
  pub global_limit : ℕ
  pub per_node_limit : ℕ
  pub per_site_limit : ℕ
  pub source_limit : ℕ
  pub path_limit : ℕ
  pub queue_limit : ℕ
  pub lease : ℕ
  pub retry_delay : ℕ
  pub max_attempts : ℕ

abbrev pub method_limit : Settings → ProbeMethod → ℕ
method_limit c source = c.source_limit
method_limit c path = c.path_limit

pub record Pending : Type 0 where
  pub manual_queue : List ProbeRequest
  pub confirmation_queue : List ProbeRequest
  pub routine_queue : List ProbeRequest

abbrev pub queue : Pending → ProbePriority → List ProbeRequest
queue p manual = p.manual_queue
queue p confirmation = p.confirmation_queue
queue p routine = p.routine_queue

abbrev pub set_queue : ProbePriority → List ProbeRequest → Pending → Pending
set_queue manual l p = record p { manual_queue = l }
set_queue confirmation l p = record p { confirmation_queue = l }
set_queue routine l p = record p { routine_queue = l }

-- `self._pending[priority].append(request)`
abbrev pub enqueue : ProbePriority → ProbeRequest → Pending → Pending
enqueue priority request p = set_queue priority (queue p priority ++ request ∷ []) p

pub record Scheduler : Type 0 where
  pub settings : Settings
  pub reservations : Reservations
  pub ids : Ids
  pub requests_by_camera : Dict ProbeRequest
  pub pending : Pending
  pub active : Dict ProbeLease
  pub attempts : Dict ℕ
  pub fair_index : ℕ
  pub submitted_total : ℕ
  pub completed_total : ℕ
  pub expired_total : ℕ
  pub rejected_total : ℕ
  -- how often each callable was called
  pub requests_drawn : ℕ
  pub tokens_drawn : ℕ
  pub observations_drawn : ℕ

abbrev within : ℕ → ℕ → ℕ → Bool
within low value high = leb low value && leb value high

-- The tests of `__init__`, in their order.
checked_settings : Settings → Result Settings
checked_settings c = do
  refuse (not (within 1 c.global_limit 256)) (value_error "probe_global_limit_invalid")
  refuse (not (within 1 c.per_node_limit c.global_limit)) (value_error "probe_node_limit_invalid")
  refuse (not (within 1 c.per_site_limit c.global_limit)) (value_error "probe_site_limit_invalid")
  refuse
      (not (within 1 c.source_limit c.global_limit) || not (within 1 c.path_limit c.global_limit))
      (value_error "probe_method_limit_invalid")
  refuse (not (within 1 c.queue_limit 10_000)) (value_error "probe_queue_limit_invalid")
  refuse (not (within 100_000 c.lease 60_000_000)) (value_error "probe_lease_seconds_invalid")
  refuse (not (within 100_000 c.retry_delay 300_000_000)) (value_error "probe_retry_delay_invalid")
  refuse (not (within 1 c.max_attempts 10)) (value_error "probe_attempt_limit_invalid")
  ok c

abbrev no_pending : Pending
no_pending = record { manual_queue = []; confirmation_queue = []; routine_queue = [] }

unfoldable pub create : Settings → Ids → Result Scheduler
unfolding checked_settings
create c ids = do
  settings ← checked_settings c
  ok (record {
    settings = settings;
    reservations = priority_reservations settings.global_limit;
    ids = ids;
    requests_by_camera = [];
    pending = no_pending;
    active = [];
    attempts = [];
    fair_index = 0;
    submitted_total = 0;
    completed_total = 0;
    expired_total = 0;
    rejected_total = 0;
    requests_drawn = 0;
    tokens_drawn = 0;
    observations_drawn = 0;
  })
