-- ===== src/Nodes/Store.antt =====
-- The state of `InMemoryNodeStore` (nodes.py) and its queries.
use rtsp_proxy.Prelude.{
  ℕ, String, Bool, not, ◌&&◌, ◌||◌, Option, none, some, List, [], ◌∷◌, ◌==◌, any, filter,
  if◌then◌else◌,
}
use rtsp_proxy.Prelude.Errors.{
  node_not_found, camera_not_found, camera_lifecycle_conflict, Result, ok, refuse, found_or, ◌>>=◌,
  ◌>>◌,
}
use rtsp_proxy.Nodes.Kinds.{is_enabled, is_deleted, is_prepared, camera_move_is_terminal}
use rtsp_proxy.Nodes.Data.{
  ProbeEndpointIdentity, MediaNode, CameraPlacement, CameraMove, NodePortChange,
}
use rtsp_proxy.Nodes.Table.{find, put_at}
use rtsp_proxy.Nodes.Checks.{is_node_eligible}
use rtsp_proxy.Nodes.Ports.{contains}

-- A dictionary by the session and the key of a request.
abbrev pub Requests : Type 0 → Type 0
Requests V = List ((ℕ × ℕ) × V)

abbrev pub same_request : ℕ × ℕ → ℕ × ℕ → Bool
same_request a b = a.0 == b.0 && a.1 == b.1

module _ {V : Type 0} where
  unfoldable pub request_of : ℕ × ℕ → Requests V → Option V
  request_of k [] = none
  request_of k ((j, v) ∷ rest) = if same_request j k then some v else request_of k rest

  unfoldable pub put_request : ℕ × ℕ → V → Requests V → Requests V
  put_request k v [] = (k, v) ∷ []
  put_request k v ((j, w) ∷ rest) =
      let tail = put_request k v rest in if same_request j k then (j, v) ∷ rest else (j, w) ∷ tail

-- The state. Of a request it keeps the account, the digest and the id of what was made for it.
pub record Store : Type 0 where
  pub nodes : List MediaNode
  pub cameras : List CameraPlacement
  pub camera_moves : List CameraMove
  pub port_changes : List NodePortChange
  pub registration_requests : Requests (ℕ × String × ℕ)
  pub camera_registration_requests : Requests (ℕ × String × Option ℕ)

unfoldable pub create_store : List MediaNode → Store
create_store nodes = record {
  nodes = nodes;
  cameras = [];
  camera_moves = [];
  port_changes = [];
  registration_requests = [];
  camera_registration_requests = [];
}

-- What the registry calls elsewhere: `validate_camera_name`, `validate_camera_source_url`,
-- `probe_endpoint_identity` with the endpoint that was admitted, and the digest of placements.
pub record Means (Admitted : Type 0) : Type 0 where
  pub validate_name : String → Result String
  pub validate_source : String → Result String
  pub endpoint_identity : String → Option Admitted → Result (Option ProbeEndpointIdentity)
  pub digest : List (ℕ × ℕ) → String
  -- the text `rtsp://server:{port}/{public_id}`
  pub endpoint_text : ℕ → String → String

abbrev pub node_key : MediaNode → ℕ
node_key n = n.id

abbrev pub camera_key : CameraPlacement → ℕ
camera_key c = c.id

abbrev pub move_key : CameraMove → ℕ
move_key m = m.id

abbrev pub change_key : NodePortChange → ℕ
change_key c = c.id

abbrev pub is_live : CameraPlacement → Bool
is_live c = not (is_deleted c.state)

-- A camera that is not deleted, on a node.
abbrev pub is_live_on : ℕ → CameraPlacement → Bool
is_live_on node_id c = c.node_id == node_id && is_live c

abbrev pub is_prepared_on : ℕ → NodePortChange → Bool
is_prepared_on node_id c = c.node_id == node_id && is_prepared c.state

abbrev pub is_active_for : ℕ → CameraMove → Bool
is_active_for camera_id m = m.camera_id == camera_id && not (camera_move_is_terminal m.state)

unfoldable pub get_node : ℕ → Store → Option MediaNode
unfolding find
get_node id s = find node_key id s.nodes

abbrev pub put_node : MediaNode → Store → Store
put_node n s = record s { nodes = put_at node_key n s.nodes }

abbrev pub put_camera : CameraPlacement → Store → Store
put_camera c s = record s { cameras = put_at camera_key c s.cameras }

abbrev pub put_move : CameraMove → Store → Store
put_move m s = record s { camera_moves = put_at move_key m s.camera_moves }

abbrev pub put_change : NodePortChange → Store → Store
put_change c s = record s { port_changes = put_at change_key c s.port_changes }

abbrev pub camera_of : ℕ → Store → Option CameraPlacement
camera_of id s = find camera_key id s.cameras

unfoldable pub get_camera_move : ℕ → Store → Option CameraMove
unfolding find
get_camera_move id s = find move_key id s.camera_moves

abbrev pub port_change_of : ℕ → Store → Option NodePortChange
port_change_of id s = find change_key id s.port_changes

unfoldable pub list_nodes : Store → List MediaNode
list_nodes s = s.nodes

unfoldable pub list_cameras : Store → List CameraPlacement
list_cameras s = filter is_live s.cameras

unfoldable pub get_cameras : List ℕ → Store → List CameraPlacement
get_cameras ids s = filter (λ c. contains ids c.id && is_live c) s.cameras

first_live : ℕ → List CameraPlacement → Option CameraPlacement
first_live id [] = none
first_live id (c ∷ rest) = if c.id == id && is_live c then some c else first_live id rest

unfoldable pub get_camera : ℕ → Store → Option CameraPlacement
unfolding first_live
get_camera id s = first_live id s.cameras

-- `tuple(camera for camera in self._cameras if …)`
abbrev pub cameras_on : ℕ → Store → List CameraPlacement
cameras_on node_id s = filter (is_live_on node_id) s.cameras

unfoldable pub list_node_cameras : ℕ → Store → Result (List CameraPlacement)
list_node_cameras node_id s = do
  refuse (not (any (λ n. n.id == node_id) s.nodes)) (node_not_found "node_not_found")
  ok (cameras_on node_id s)

unfoldable pub list_node_active_moves : ℕ → Store → List CameraMove
list_node_active_moves node_id s =
    filter
      (λ m.
        (m.source_node_id == node_id || m.target_node_id == node_id)
        && not (camera_move_is_terminal m.state))
      s.camera_moves

unfoldable pub list_incomplete_camera_moves : Store → List CameraMove
list_incomplete_camera_moves s = filter (λ m. not (camera_move_is_terminal m.state)) s.camera_moves

unfoldable pub list_incomplete_port_changes : Store → List NodePortChange
list_incomplete_port_changes s = filter (λ c. is_prepared c.state) s.port_changes

unfoldable pub node_has_prepared_port_change : ℕ → Store → Bool
node_has_prepared_port_change node_id s = any (is_prepared_on node_id) s.port_changes

-- Whether a camera is the subject of a move that has not ended.
unfoldable pub has_active_move : ℕ → Store → Bool
has_active_move camera_id s = any (is_active_for camera_id) s.camera_moves

unfoldable pub require_no_active_camera_move : ℕ → Store → Result (Unit {0})
unfolding has_active_move
require_no_active_camera_move camera_id s =
    refuse (has_active_move camera_id s) (camera_lifecycle_conflict "camera_move_in_progress")

-- `camera is None or camera.state is CameraState.DELETED`
unfoldable pub require_camera : ℕ → Store → Result CameraPlacement
require_camera id s = do
  c ← found_or (camera_not_found "camera_not_found") (camera_of id s)
  refuse (is_deleted c.state) (camera_not_found "camera_not_found")
  ok c

unfoldable pub list_camera_move_targets : ℕ → ℕ → ℕ → Store → Result (List MediaNode)
unfolding require_camera node_has_prepared_port_change is_node_eligible
list_camera_move_targets camera_id seconds now s = do
  c ← require_camera camera_id s
  refuse (not (is_enabled c.state)) (camera_lifecycle_conflict "camera_not_enabled")
  if node_has_prepared_port_change c.node_id s
      then ok []
      else ok (
          filter
            (λ n.
              not (n.id == c.node_id)
              && not (node_has_prepared_port_change n.id s)
              && is_node_eligible seconds now n)
            s.nodes)
