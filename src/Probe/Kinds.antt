-- ===== src/Probe/Kinds.antt =====
-- The enumerations of probes.py, and `NodeState` of nodes.py.
use rtsp_proxy.Prelude.{ℕ, Bool, true, false, Option, none, some}

pub data NodeState : Type 0 where
  provisioning stopped stopping starting running draining maintenance failed deleting : NodeState

pub data ProbeMethod : Type 0 where
  source path : ProbeMethod

pub data ProbePriority : Type 0 where
  manual confirmation routine : ProbePriority

pub data ProbeOutcome : Type 0 where
  healthy unhealthy inconclusive : ProbeOutcome

pub data ProbeHealthState : Type 0 where
  unknown healthy suspect unhealthy recovering : ProbeHealthState

pub data ProbeObservationState : Type 0 where
  fresh stale overdue : ProbeObservationState

pub data ProbeFailureClass : Type 0 where
  authentication codec connect_timeout executor output transport : ProbeFailureClass

-- `_PRIORITY_RANK`
abbrev pub priority_rank : ProbePriority → ℕ
priority_rank manual = 3
priority_rank confirmation = 2
priority_rank routine = 1

-- `_PRIORITY_WEIGHTS`
abbrev pub priority_weight : ProbePriority → ℕ
priority_weight manual = 4
priority_weight confirmation = 3
priority_weight routine = 3

-- `self._failure_class in _CAMERA_FAILURE_CLASSES`; no failure class is in no set.
abbrev pub is_camera_failure : Option ProbeFailureClass → Bool
is_camera_failure none = false
is_camera_failure (some executor) = false
is_camera_failure (some output) = false
is_camera_failure (some _) = true

-- `self._failure_class in _INFRASTRUCTURE_FAILURE_CLASSES`
abbrev pub is_infrastructure_failure : Option ProbeFailureClass → Bool
is_infrastructure_failure none = false
is_infrastructure_failure (some executor) = true
is_infrastructure_failure (some output) = true
is_infrastructure_failure (some _) = false

abbrev pub is_source : ProbeMethod → Bool
is_source source = true
is_source path = false

abbrev pub is_path : ProbeMethod → Bool
is_path source = false
is_path path = true

abbrev pub same_method : ProbeMethod → ProbeMethod → Bool
same_method source source = true
same_method path path = true
same_method _ _ = false

abbrev pub same_priority : ProbePriority → ProbePriority → Bool
same_priority manual manual = true
same_priority confirmation confirmation = true
same_priority routine routine = true
same_priority _ _ = false

pub NodeState-discrete : Discrete NodeState
NodeState-discrete = hlevel

pub ProbeMethod-discrete : Discrete ProbeMethod
ProbeMethod-discrete = hlevel

pub ProbePriority-discrete : Discrete ProbePriority
ProbePriority-discrete = hlevel

pub ProbeOutcome-discrete : Discrete ProbeOutcome
ProbeOutcome-discrete = hlevel

pub ProbeFailureClass-discrete : Discrete ProbeFailureClass
ProbeFailureClass-discrete = hlevel
