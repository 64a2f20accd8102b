-- ===== src/Nodes/Kinds.antt =====
-- The enumerations of nodes.py. `NodeState` stands with the probes.
use rtsp_proxy.Prelude.{ℕ, Bool, true, false, ◌==◌}
use rtsp_proxy.Probe.Kinds.{
  NodeState, provisioning, stopped, stopping, starting, running, draining, maintenance, failed,
}

pub data NodeHealth : Type 0 where
  unknown healthy unhealthy : NodeHealth

pub data NodeCreationMode : Type 0 where
  operator automatic : NodeCreationMode

pub data PlacementMode : Type 0 where
  automatic manual : PlacementMode

pub data CameraState : Type 0 where
  enabled disabled deleting deleted : CameraState

pub data CameraMoveState : Type 0 where
  prepare_target activate_target cleanup_source cleanup_target complete aborted : CameraMoveState

pub data NodePortChangeState : Type 0 where
  prepared complete aborted : NodePortChangeState

-- The tests `state is X` and `state in {X, Y}`.
abbrev rank : NodeState → ℕ
rank provisioning = 0
rank stopped = 1
rank stopping = 2
rank starting = 3
rank running = 4
rank draining = 5
rank maintenance = 6
rank failed = 7
rank NodeState.deleting = 8

abbrev pub same_state : NodeState → NodeState → Bool
same_state a b = rank a == rank b

abbrev pub is_running : NodeState → Bool
is_running running = true
is_running _ = false

abbrev pub is_stopped : NodeState → Bool
is_stopped stopped = true
is_stopped _ = false

abbrev pub is_draining : NodeState → Bool
is_draining draining = true
is_draining _ = false

abbrev pub is_maintenance : NodeState → Bool
is_maintenance maintenance = true
is_maintenance _ = false

abbrev pub is_node_deleting : NodeState → Bool
is_node_deleting NodeState.deleting = true
is_node_deleting _ = false

abbrev pub is_healthy : NodeHealth → Bool
is_healthy healthy = true
is_healthy _ = false

abbrev pub is_enabled : CameraState → Bool
is_enabled enabled = true
is_enabled _ = false

abbrev pub is_disabled : CameraState → Bool
is_disabled disabled = true
is_disabled _ = false

abbrev pub is_deleting : CameraState → Bool
is_deleting deleting = true
is_deleting _ = false

abbrev pub is_deleted : CameraState → Bool
is_deleted deleted = true
is_deleted _ = false

abbrev pub camera_move_is_terminal : CameraMoveState → Bool
camera_move_is_terminal CameraMoveState.complete = true
camera_move_is_terminal CameraMoveState.aborted = true
camera_move_is_terminal _ = false

abbrev pub is_prepare_target : CameraMoveState → Bool
is_prepare_target prepare_target = true
is_prepare_target _ = false

abbrev pub is_activate_target : CameraMoveState → Bool
is_activate_target activate_target = true
is_activate_target _ = false

abbrev pub is_cleanup_source : CameraMoveState → Bool
is_cleanup_source cleanup_source = true
is_cleanup_source _ = false

abbrev pub is_cleanup_target : CameraMoveState → Bool
is_cleanup_target cleanup_target = true
is_cleanup_target _ = false

abbrev pub is_move_complete : CameraMoveState → Bool
is_move_complete CameraMoveState.complete = true
is_move_complete _ = false

abbrev pub is_move_aborted : CameraMoveState → Bool
is_move_aborted CameraMoveState.aborted = true
is_move_aborted _ = false

abbrev pub is_prepared : NodePortChangeState → Bool
is_prepared prepared = true
is_prepared _ = false

abbrev pub is_change_complete : NodePortChangeState → Bool
is_change_complete NodePortChangeState.complete = true
is_change_complete _ = false

abbrev pub is_change_aborted : NodePortChangeState → Bool
is_change_aborted NodePortChangeState.aborted = true
is_change_aborted _ = false
