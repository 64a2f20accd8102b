-- ===== src/Nodes/Lifecycle.antt =====
-- The commands of `InMemoryNodeStore` (nodes.py) on one node, and what it takes from the runtime.
use rtsp_proxy.Prelude.{
  ℕ, suc, Bool, true, false, not, ◌&&◌, ◌||◌, Option, none, some, ◌==◌, length, if◌then◌else◌,
}
use rtsp_proxy.Prelude.Errors.{
  node_not_found, node_not_empty, node_lifecycle_conflict, Result, ok, refuse, found_or, ◌>>=◌,
  ◌>>◌,
}
use rtsp_proxy.Probe.Kinds.{
  NodeState, stopped, running, draining, maintenance, provisioning, failed,
}
use rtsp_proxy.Nodes.Kinds.{same_state, is_running, is_stopped, is_maintenance, is_node_deleting}
use rtsp_proxy.Nodes.Data.{NodeCommandFence, NodeRuntimeObservation, MediaNode}
use rtsp_proxy.Nodes.Table.{put_at, remove_at}
use rtsp_proxy.Nodes.Checks.{require_node_command_fence, validate_runtime_observation}
use rtsp_proxy.Nodes.Store.{
  Store, get_node, put_node, node_key, list_node_active_moves, node_has_prepared_port_change,
}

abbrev pub require_node : ℕ → Store → Result MediaNode
require_node id s = found_or (node_not_found "node_not_found") (get_node id s)

-- `self._nodes[self._nodes.index(node)] = updated; return updated`
abbrev pub saved : MediaNode → Store → Result (MediaNode × Store)
saved n s = ok (n, put_node n s)

-- `bool(n)` of a number and of a list
abbrev pub truthy : ℕ → Bool
truthy n = not (n == 0)

unfoldable pub has_active_moves_on : ℕ → Store → Bool
unfolding list_node_active_moves
has_active_moves_on id s = truthy (length (list_node_active_moves id s))

-- What both `apply_runtime_observation` and the ends of a port change take from an observation that
-- is made at `now`.
unfoldable pub observed : ℕ → NodeRuntimeObservation → MediaNode → MediaNode
observed now o n = record n {
  runtime_state = o.state;
  health = o.health;
  management_fresh = o.management_fresh;
  management_observed_at = if o.management_fresh then some now else none;
  runtime_observed_at = some now;
  config_compatible = o.config_compatible;
  applied_revision = o.applied_revision;
  process_id = o.process_id;
  process_start_ticks = o.process_start_ticks;
  process_boot_id = o.process_boot_id;
  observed_config_sha256 = o.config_sha256;
  observed_release_id = o.release_id;
}

unfoldable pub apply_runtime_observation :
    ℕ → NodeRuntimeObservation → ℕ → Store → Result (MediaNode × Store)
unfolding get_node put_at validate_runtime_observation observed
apply_runtime_observation id o now s = do
  n ← require_node id s
  validate_runtime_observation n o
  saved (observed now o n) s

abbrev startable : NodeState → Bool
startable provisioning = true
startable stopped = true
startable failed = true
startable running = true
startable _ = false

unfoldable pub request_desired_state :
    ℕ → NodeState → Option NodeCommandFence → Store → Result (MediaNode × Store)
unfolding get_node put_at require_node_command_fence
request_desired_state id state fence s = do
  n ← require_node id s
  require_node_command_fence n fence
  refuse (is_running state && not (startable n.state))
      (node_lifecycle_conflict "node_start_source_state_invalid")
  if same_state n.state state
      then ok (n, s)
      else saved (record n { state = state; desired_revision = suc n.desired_revision }) s

-- `allowed`: what may go to a state, and whether the state is one to go to.
abbrev pub administrative : NodeState → NodeState → Bool
administrative running draining = true
administrative draining maintenance = true
administrative draining running = true
administrative maintenance running = true
administrative _ _ = false

unfoldable pub request_administrative_state :
    ℕ → NodeState → Option NodeCommandFence → Store → Result (MediaNode × Store)
unfolding get_node put_at require_node_command_fence
request_administrative_state id state fence s = do
  n ← require_node id s
  require_node_command_fence n fence
  if administrative n.state state
      then saved
          (record n {
            state = state;
            maintenance = is_maintenance state;
            desired_revision = suc n.desired_revision;
            applied_revision = suc n.desired_revision;
          })
          s
      else do
        refuse (not (same_state n.state state))
            (node_lifecycle_conflict "node_administrative_transition_invalid")
        ok (n, s)

abbrev removable : NodeState → Bool
removable stopped = true
removable failed = true
removable NodeState.deleting = true
removable _ = false

unfoldable pub request_node_delete :
    ℕ → Option NodeCommandFence → Store → Result (MediaNode × Store)
unfolding get_node put_at require_node_command_fence has_active_moves_on
    node_has_prepared_port_change
request_node_delete id fence s = do
  n ← require_node id s
  require_node_command_fence n fence
  refuse (truthy n.registered_cameras) (node_not_empty "node_not_empty")
  refuse (not (removable n.state))
      (node_lifecycle_conflict "node_delete_requires_stopped_or_failed")
  refuse (has_active_moves_on id s || node_has_prepared_port_change id s)
      (node_lifecycle_conflict "node_operation_in_progress")
  if is_node_deleting n.state
      then ok (n, s)
      else saved
          (record n {
            state = NodeState.deleting;
            desired_revision = suc n.desired_revision;
            management_fresh = false;
            management_observed_at = none;
          })
          s

unfoldable pub finalized : Option MediaNode → ℕ → Store → Result (Unit {0} × Store)
unfolding remove_at
finalized none id s = ok (tt, s)
finalized (some n) id s = do
  refuse (not (is_node_deleting n.state) || truthy n.registered_cameras)
      (node_lifecycle_conflict "node_delete_not_ready")
  ok (tt, record s { nodes = remove_at node_key id s.nodes })

unfoldable pub finalize_node_delete : ℕ → Store → Result (Unit {0} × Store)
unfolding finalized get_node
finalize_node_delete id s = finalized (get_node id s) id s

abbrev stoppable : NodeState → Bool
stoppable provisioning = true
stoppable running = true
stoppable draining = true
stoppable maintenance = true
stoppable _ = false

unfoldable pub request_stop : ℕ → Option NodeCommandFence → Store → Result (MediaNode × Store)
unfolding get_node put_at require_node_command_fence has_active_moves_on
request_stop id fence s = do
  n ← require_node id s
  require_node_command_fence n fence
  refuse (has_active_moves_on id s) (node_lifecycle_conflict "node_operation_in_progress")
  refuse (truthy n.registered_cameras) (node_not_empty "node_not_empty")
  if is_stopped n.state then ok (n, s) else do
    refuse (not (stoppable n.state)) (node_lifecycle_conflict "node_stop_source_state_invalid")
    saved
        (record n {
          state = stopped;
          maintenance = false;
          desired_revision = suc n.desired_revision;
        })
        s

unfoldable pub request_restart : ℕ → Option NodeCommandFence → Store → Result (MediaNode × Store)
unfolding get_node put_at require_node_command_fence has_active_moves_on
request_restart id fence s = do
  n ← require_node id s
  require_node_command_fence n fence
  refuse (has_active_moves_on id s) (node_lifecycle_conflict "node_operation_in_progress")
  refuse (not (is_running n.state)) (node_lifecycle_conflict "node_not_running")
  refuse (truthy n.registered_cameras) (node_not_empty "node_not_empty")
  saved (record n { desired_revision = suc n.desired_revision }) s
