-- ===== src/Nodes/Move.antt =====
-- The moves of cameras between nodes by `InMemoryNodeStore` (nodes.py).
use rtsp_proxy.Prelude.{
  ℕ, suc, ◌+◌, ◌*◌, ◌-◌, String, Bool, not, ◌||◌, none, some, [], ◌∷◌, ◌++◌, ltb, leb, ◌==◌,
  if◌then◌else◌,
}
use rtsp_proxy.Prelude.Errors.{
  value_error, node_lifecycle_busy, node_camera_capacity_reached, eligible_node_missing,
  camera_not_found, camera_lifecycle_conflict, camera_revision_conflict, camera_move_expired,
  stop_iteration, Result, ok, refuse, found_or, ◌>>=◌, ◌>>◌,
}
use rtsp_proxy.Nodes.Kinds.{
  PlacementMode, CameraMoveState, is_enabled, is_prepare_target, is_activate_target,
  is_cleanup_source, is_cleanup_target, is_move_complete, is_move_aborted, camera_move_is_terminal,
}
use rtsp_proxy.Nodes.Data.{MediaNode, CameraPlacement, CameraMove, checked_move}
use rtsp_proxy.Nodes.Table.{find, put_at}
use rtsp_proxy.Nodes.Checks.{is_node_eligible}
use rtsp_proxy.Nodes.Store.{
  Store, Means, get_node, put_node, put_camera, put_move, get_camera_move, camera_of,
  require_camera, require_no_active_camera_move, node_has_prepared_port_change,
}
use rtsp_proxy.Nodes.Lifecycle.{require_node}

-- What a caller of `create_camera_move` asks for.
pub record MoveRequest : Type 0 where
  pub move_id : ℕ
  pub camera_id : ℕ
  pub target_node_id : ℕ
  pub expected_revision : ℕ
  pub force : Bool
  pub confirmed_disconnect_readers : ℕ
  pub timeout_seconds : ℕ
  pub management_freshness_seconds : ℕ

module _ {A : Type 0} (means : Means A) where
  unfoldable pub new_move : MoveRequest → CameraPlacement → MediaNode → MediaNode → ℕ → CameraMove
  new_move q c source target now = record {
    id = q.move_id;
    camera_id = c.id;
    public_id = c.public_id;
    source_url = c.source_url;
    source_node_id = c.node_id;
    target_node_id = q.target_node_id;
    source_generation = c.placement_generation;
    target_generation = suc c.placement_generation;
    desired_revision = suc c.desired_revision;
    force = q.force;
    confirmed_disconnect_readers = q.confirmed_disconnect_readers;
    source_port = some source.external_port;
    target_port = some target.external_port;
    source_endpoint = some (means.endpoint_text source.external_port c.public_id);
    target_endpoint = some (means.endpoint_text target.external_port c.public_id);
    expires_at = now + q.timeout_seconds * 1_000_000;
    abort_reason = none;
    state = CameraMoveState.prepare_target;
  }

  -- The move is recorded, and the camera has its revision.
  unfoldable pub proposed :
      MoveRequest
      → CameraPlacement
      → MediaNode
      → MediaNode
      → ℕ
      → Store
      → Result (CameraMove × Store)
  unfolding new_move checked_move put_at
  proposed q c source target now s = do
    m ← checked_move (new_move q c source target now)
    ok (
      m,
      put_camera (record c { desired_revision = suc c.desired_revision })
          (record s { camera_moves = s.camera_moves ++ m ∷ [] }),
    )

  unfoldable pub create_camera_move : MoveRequest → ℕ → Store → Result (CameraMove × Store)
  unfolding require_camera get_node is_node_eligible node_has_prepared_port_change
      require_no_active_camera_move proposed
  create_camera_move q now s = do
    refuse (ltb q.timeout_seconds 1 || ltb 3600 q.timeout_seconds)
        (value_error "camera_move_timeout_invalid")
    c ← require_camera q.camera_id s
    refuse (not (is_enabled c.state)) (camera_lifecycle_conflict "camera_not_enabled")
    refuse (not (c.desired_revision == q.expected_revision))
        (camera_revision_conflict q.expected_revision c.desired_revision)
    refuse (c.node_id == q.target_node_id) (camera_lifecycle_conflict "camera_already_on_target")
    target ← require_node q.target_node_id s
    refuse (not (is_node_eligible q.management_freshness_seconds now target))
        (eligible_node_missing "manual_node_ineligible")
    refuse
        (node_has_prepared_port_change c.node_id s
          || node_has_prepared_port_change q.target_node_id s)
        (camera_lifecycle_conflict "node_port_change_in_progress")
    require_no_active_camera_move q.camera_id s
    source ← found_or stop_iteration (get_node c.node_id s)
    proposed q c source target now s

unfoldable pub require_move : ℕ → Store → Result CameraMove
unfolding get_camera_move
require_move id s = found_or (camera_not_found "camera_move_not_found") (get_camera_move id s)

-- `self._camera_moves[self._camera_moves.index(move)] = replace(move, state=…)`
abbrev pub advanced : CameraMove → CameraMoveState → Store → Result (CameraMove × Store)
advanced m state s = ok (record m { state = state }, put_move (record m { state = state }) s)

-- The camera goes to the target, and each node counts what it has then.
unfoldable pub switched : CameraMove → CameraPlacement → MediaNode → MediaNode → Store → Store
unfolding put_at
switched m c source target s =
    put_move (record m { state = CameraMoveState.cleanup_source })
      (put_camera
        (record c {
          node_id = target.id;
          node_port = target.external_port;
          placement_mode = PlacementMode.manual;
          placement_generation = m.target_generation;
        })
        (put_node (record target { registered_cameras = suc target.registered_cameras })
          (put_node (record source { registered_cameras = source.registered_cameras - 1 }) s)))

-- The clock of the store reads `clock`, that of the host `now`. The two nodes of a move differ, so
-- that the record of the target is in its place after that of the source is written.
unfoldable pub switch_camera_move : ℕ → Bool → ℕ → ℕ → Store → Result (CameraMove × Store)
unfolding require_move find get_node is_node_eligible node_has_prepared_port_change switched
switch_camera_move move_id cancelled clock now s = do
  refuse cancelled (node_lifecycle_busy "node_lifecycle_busy")
  m ← require_move move_id s
  if not (is_prepare_target m.state) then ok (m, s) else do
    refuse (leb m.expires_at clock) (camera_move_expired "camera_move_expired")
    c ← found_or stop_iteration (camera_of m.camera_id s)
    source ← found_or stop_iteration (get_node m.source_node_id s)
    target ← found_or stop_iteration (get_node m.target_node_id s)
    refuse
        (not (c.node_id == m.source_node_id)
          || not (c.placement_generation == m.source_generation)
          || not (c.desired_revision == m.desired_revision))
        (camera_lifecycle_conflict "camera_move_fenced")
    refuse (leb target.camera_capacity target.registered_cameras)
        (node_camera_capacity_reached "node_camera_capacity_reached")
    refuse (not (is_node_eligible 30 now target)) (eligible_node_missing "manual_node_ineligible")
    refuse (node_has_prepared_port_change source.id s || node_has_prepared_port_change target.id s)
        (camera_lifecycle_conflict "node_port_change_in_progress")
    ok (record m { state = CameraMoveState.cleanup_source }, switched m c source target s)

unfoldable pub mark_camera_move_source_cleaned : ℕ → Store → Result (CameraMove × Store)
unfolding require_move put_at
mark_camera_move_source_cleaned move_id s = do
  m ← require_move move_id s
  if is_activate_target m.state then ok (m, s) else do
    refuse (not (is_cleanup_source m.state)) (camera_lifecycle_conflict "camera_move_not_switched")
    advanced m CameraMoveState.activate_target s

-- The revision that the move took is given up, if the camera still has it.
unfoldable pub released : CameraMove → CameraPlacement → Store → Store
unfolding put_at
released m c s =
    if c.desired_revision == m.desired_revision
    then put_camera (record c { desired_revision = suc c.desired_revision }) s
    else s

unfoldable pub request_camera_move_abort : ℕ → String → Bool → Store → Result (CameraMove × Store)
unfolding require_move find put_at released
request_camera_move_abort move_id reason cancelled s = do
  refuse cancelled (node_lifecycle_busy "node_lifecycle_busy")
  m ← require_move move_id s
  if camera_move_is_terminal m.state || is_cleanup_target m.state then ok (m, s) else do
    refuse (not (is_prepare_target m.state))
        (camera_lifecycle_conflict "camera_move_already_switched")
    c ← found_or stop_iteration (camera_of m.camera_id s)
    let updated = record m { state = CameraMoveState.cleanup_target; abort_reason = some reason } in
        ok (updated, put_move updated (released m c s))

unfoldable pub abort_camera_move : ℕ → Store → Result (CameraMove × Store)
unfolding require_move put_at
abort_camera_move move_id s = do
  m ← require_move move_id s
  if is_move_aborted m.state then ok (m, s) else do
    refuse (not (is_cleanup_target m.state))
        (camera_lifecycle_conflict "camera_move_abort_not_prepared")
    advanced m CameraMoveState.aborted s

unfoldable pub complete_camera_move : ℕ → Store → Result (CameraMove × Store)
unfolding require_move find put_at
complete_camera_move move_id s = do
  m ← require_move move_id s
  if is_move_complete m.state then ok (m, s) else do
    refuse (not (is_activate_target m.state)) (camera_lifecycle_conflict "camera_move_not_switched")
    c ← found_or stop_iteration (camera_of m.camera_id s)
    advanced m CameraMoveState.complete
        (put_camera (record c { applied_revision = m.desired_revision }) s)
