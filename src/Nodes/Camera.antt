-- ===== src/Nodes/Camera.antt =====
-- The commands of `InMemoryNodeStore` (nodes.py) on one camera.
use rtsp_proxy.Prelude.{
  ℕ, suc, ◌-◌, String, Bool, true, false, not, ◌&&◌, ◌||◌, Option, none, some, ◌==◌, is_some,
  if◌then◌else◌,
}
use rtsp_proxy.Prelude.Errors.{
  camera_lifecycle_conflict, camera_revision_conflict, stop_iteration, Result, ok, refuse, found_or,
  ◌>>=◌, ◌>>◌,
}
use rtsp_proxy.Access.Grants.{text_is}
use rtsp_proxy.Nodes.Kinds.{CameraState, is_enabled, is_disabled, is_deleting}
use rtsp_proxy.Nodes.Data.{ProbeEndpointIdentity, CameraPlacement, same_identity}
use rtsp_proxy.Nodes.Table.{put_at}
use rtsp_proxy.Nodes.Store.{
  Store, Means, get_node, put_node, put_camera, camera_of, require_camera, has_active_move,
  require_no_active_camera_move, node_has_prepared_port_change,
}

abbrev revision_differs : Option ℕ → CameraPlacement → Bool
revision_differs none c = false
revision_differs (some expected) c = not (c.desired_revision == expected)

abbrev or_zero : Option ℕ → ℕ
or_zero none = 0
or_zero (some n) = n

-- `expected_revision is not None and camera.desired_revision != expected_revision`
abbrev require_revision : Option ℕ → CameraPlacement → Result (Unit {0})
require_revision expected c =
    refuse (revision_differs expected c)
      (camera_revision_conflict (or_zero expected) c.desired_revision)

-- Neither the camera nor its node is on the move.
unfoldable pub require_settled : CameraPlacement → ℕ → Store → Result (Unit {0})
unfolding require_no_active_camera_move node_has_prepared_port_change
require_settled c id s = do
  require_no_active_camera_move id s
  refuse (node_has_prepared_port_change c.node_id s)
      (camera_lifecycle_conflict "node_port_change_in_progress")

-- `self._cameras[self._cameras.index(camera)] = updated; return updated`
abbrev pub saved_camera : CameraPlacement → Store → Result (CameraPlacement × Store)
saved_camera c s = ok (c, put_camera c s)

module _ {A : Type 0} (means : Means A) where
  -- The endpoint that the camera has after the update.
  abbrev updated_endpoint :
      Bool → String → Option A → CameraPlacement → Result (Option ProbeEndpointIdentity)
  updated_endpoint true source_url endpoint c = means.endpoint_identity source_url endpoint
  updated_endpoint false source_url endpoint c = ok c.probe_endpoint

  unfoldable pub update_camera :
      ℕ → String → String → Option ℕ → Option A → Store → Result (CameraPlacement × Store)
  unfolding require_camera require_settled put_at
  update_camera id given_name given_source expected endpoint s = do
    name ← means.validate_name given_name
    source_url ← means.validate_source given_source
    c ← require_camera id s
    refuse (is_deleting c.state) (camera_lifecycle_conflict "camera_deleting")
    require_revision expected c
    require_settled c id s
    let source_changed = not (text_is c.source_url source_url) in
        do
          identity ← updated_endpoint (source_changed || is_some endpoint) source_url endpoint c
          let endpoint_changed =
                source_changed
                || (is_some endpoint && not (same_identity identity c.probe_endpoint)) in
              if text_is c.name name && not source_changed && not endpoint_changed
              then ok (c, s)
              else saved_camera
                  (record c {
                    name = name;
                    source_url = source_url;
                    desired_revision = suc c.desired_revision;
                    probe_endpoint = identity;
                  })
                  s

abbrev pub enabled_or_not : Bool → CameraState
enabled_or_not true = CameraState.enabled
enabled_or_not false = CameraState.disabled

unfoldable pub set_camera_enabled : ℕ → Bool → Option ℕ → Store → Result (CameraPlacement × Store)
unfolding require_camera require_settled put_at
set_camera_enabled id enabled expected s = do
  c ← require_camera id s
  refuse (is_deleting c.state) (camera_lifecycle_conflict "camera_deleting")
  require_revision expected c
  require_settled c id s
  if (if enabled then is_enabled c.state else is_disabled c.state)
      then ok (c, s)
      else saved_camera
          (record c { state = enabled_or_not enabled; desired_revision = suc c.desired_revision }) s

unfoldable pub request_camera_delete : ℕ → Option ℕ → Store → Result (CameraPlacement × Store)
unfolding require_camera require_settled put_at
request_camera_delete id expected s = do
  c ← require_camera id s
  require_revision expected c
  if is_deleting c.state then ok (c, s) else do
    require_settled c id s
    saved_camera
        (record c { state = CameraState.deleting; desired_revision = suc c.desired_revision }) s

-- What was applied is not what the camera is now.
abbrev pub is_outdated : ℕ → ℕ → ℕ → CameraPlacement → Bool
is_outdated node_id generation revision c =
    not (c.node_id == node_id)
    || not (c.placement_generation == generation)
    || not (c.desired_revision == revision)

-- The camera of `mark_camera_applied`, whose placement was applied.
unfoldable pub applied : CameraPlacement → ℕ → ℕ → Store → Result (Bool × Store)
unfolding get_node put_at
applied c node_id revision s =
    if not (is_deleting c.state)
    then ok (true, put_camera (record c { applied_revision = revision }) s)
    else do
      n ← found_or stop_iteration (get_node node_id s)
      ok (
        true,
        put_camera (record c { state = CameraState.deleted; applied_revision = revision })
            (put_node (record n { registered_cameras = n.registered_cameras - 1 }) s),
      )

abbrev pub marked : Option CameraPlacement → ℕ → ℕ → ℕ → Store → Result (Bool × Store)
marked none node_id generation revision s = ok (false, s)
marked (some c) node_id generation revision s =
    if is_outdated node_id generation revision c || has_active_move c.id s
    then ok (false, s)
    else applied c node_id revision s

unfoldable pub mark_camera_applied : ℕ → ℕ → ℕ → ℕ → Store → Result (Bool × Store)
unfolding applied has_active_move
mark_camera_applied id node_id generation revision s =
    marked (camera_of id s) node_id generation revision s
