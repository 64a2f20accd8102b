-- ===== src/Nodes/PortChange.antt =====
-- The change of a node's external port by `InMemoryNodeStore` (nodes.py): prepared, then completed
-- or aborted.
use rtsp_proxy.Prelude.{
  ℕ, suc, String, Bool, not, ◌&&◌, ◌||◌, List, [], ◌∷◌, ◌++◌, ◌==◌, any, map, if◌then◌else◌,
}
use rtsp_proxy.Prelude.Errors.{
  node_not_found, node_port_out_of_range, node_port_in_use, node_lifecycle_conflict, stop_iteration,
  Result, ok, refuse, found_or, ◌>>=◌, ◌>>◌,
}
use rtsp_proxy.Nodes.Kinds.{
  NodePortChangeState, is_running, is_prepared, is_change_complete, is_change_aborted,
}
use rtsp_proxy.Nodes.Data.{NodeRuntimeObservation, MediaNode, CameraPlacement, NodePortChange}
use rtsp_proxy.Nodes.Table.{find, put_at}
use rtsp_proxy.Nodes.Checks.{validate_runtime_observation}
use rtsp_proxy.Nodes.Ports.{contains}
use rtsp_proxy.Nodes.Store.{
  Store, Means, get_node, put_node, put_change, port_change_of, is_live_on,
  node_has_prepared_port_change,
}
use rtsp_proxy.Nodes.Lifecycle.{require_node, has_active_moves_on, observed}
use rtsp_proxy.Nodes.Reconfigure.{require_blast_radius}

-- Another node has the port, or a prepared change will take it.
unfoldable pub is_taken : ℕ → ℕ → Store → Bool
is_taken id port s =
    any (λ n. n.external_port == port && not (n.id == id)) s.nodes
    || any (λ c. c.new_port == port && is_prepared c.state) s.port_changes

-- What a caller of `begin_port_change` asks for and expects.
pub record PortChangeRequest : Type 0 where
  pub change_id : ℕ
  pub node_id : ℕ
  pub new_port : ℕ
  pub allowed_ports : List ℕ
  pub expected_revision : ℕ
  pub expected_registered_cameras : ℕ
  pub expected_blast_radius_sha256 : String

unfoldable pub prepared_change : PortChangeRequest → MediaNode → NodePortChange
prepared_change q n = record {
  id = q.change_id;
  node_id = q.node_id;
  old_port = n.external_port;
  new_port = q.new_port;
  source_revision = n.desired_revision;
  target_revision = suc n.desired_revision;
  registered_cameras = q.expected_registered_cameras;
  blast_radius_sha256 = q.expected_blast_radius_sha256;
  state = NodePortChangeState.prepared;
}

module _ {A : Type 0} (means : Means A) where
  unfoldable pub begin_port_change : PortChangeRequest → Store → Result (NodePortChange × Store)
  unfolding get_node has_active_moves_on node_has_prepared_port_change require_blast_radius is_taken
      prepared_change
  begin_port_change q s = do
    n ← require_node q.node_id s
    refuse (not (contains q.allowed_ports q.new_port))
        (node_port_out_of_range "node_port_out_of_range")
    refuse (not (is_running n.state) || not (is_running n.runtime_state))
        (node_lifecycle_conflict "node_not_running")
    refuse (not (n.desired_revision == q.expected_revision))
        (node_lifecycle_conflict "node_revision_conflict")
    require_blast_radius means n q.node_id q.expected_registered_cameras
        q.expected_blast_radius_sha256 s
    refuse (n.external_port == q.new_port) (node_lifecycle_conflict "node_port_unchanged")
    refuse (is_taken q.node_id q.new_port s) (node_port_in_use "node_port_in_use")
    refuse (node_has_prepared_port_change q.node_id s)
        (node_lifecycle_conflict "node_port_change_in_progress")
    refuse (has_active_moves_on q.node_id s)
        (node_lifecycle_conflict "node_camera_move_in_progress")
    ok (prepared_change q n, record s { port_changes = s.port_changes ++ prepared_change q n ∷ [] })

-- The cameras of a node follow its port.
unfoldable pub moved_to_port : ℕ → ℕ → List CameraPlacement → List CameraPlacement
moved_to_port node_id port cameras =
    map (λ c. if is_live_on node_id c then record c { node_port = port } else c) cameras

unfoldable pub require_change : ℕ → Store → Result NodePortChange
unfolding find
require_change id s = found_or (node_not_found "node_port_change_not_found") (port_change_of id s)

unfoldable pub complete_port_change :
    ℕ → NodeRuntimeObservation → ℕ → Store → Result (MediaNode × Store)
unfolding require_change get_node put_at validate_runtime_observation observed moved_to_port
complete_port_change change_id o now s = do
  c ← require_change change_id s
  n ← found_or stop_iteration (get_node c.node_id s)
  if is_change_complete c.state then ok (n, s) else do
    refuse (not (is_prepared c.state)) (node_lifecycle_conflict "node_port_change_not_prepared")
    let provisional = record n {
      external_port = c.new_port;
      desired_revision = c.target_revision;
    } in
        do
          validate_runtime_observation provisional o
          ok (
            observed now o provisional,
            put_change (record c { state = NodePortChangeState.complete })
                (record (put_node (observed now o provisional) s) {
                  cameras = moved_to_port n.id c.new_port s.cameras;
                }),
          )

unfoldable pub abort_port_change :
    ℕ → NodeRuntimeObservation → ℕ → Store → Result (MediaNode × Store)
unfolding require_change get_node put_at validate_runtime_observation observed
abort_port_change change_id o now s = do
  c ← require_change change_id s
  n ← found_or stop_iteration (get_node c.node_id s)
  if is_change_aborted c.state then ok (n, s) else do
    refuse (not (is_prepared c.state)) (node_lifecycle_conflict "node_port_change_not_prepared")
    let restored = record n { external_port = c.old_port; desired_revision = c.source_revision } in
        do
          validate_runtime_observation restored o
          ok (
            observed now o restored,
            put_change (record c { state = NodePortChangeState.aborted })
                (put_node (observed now o restored) s),
          )
