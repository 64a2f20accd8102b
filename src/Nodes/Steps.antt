-- ===== src/Nodes/Steps.antt =====
-- What the registry of nodes.py promises of its methods: each of them does nothing, or takes steps
-- of these kinds.
use rtsp_proxy.Prelude.{
  refl, inr, ℕ, suc, String, ◌-◌, ◌≡◌, ◌<◌, ◌⊎◌, true, false, Option, none, some, [], ◌∷◌, ◌++◌,
  ◌==◌,
}
use rtsp_proxy.Nodes.Kinds.{
  CameraMoveState, prepare_target, cleanup_target, cleanup_source, activate_target,
  NodePortChangeState, CameraState, is_enabled, is_deleting, is_prepared,
}
use rtsp_proxy.Nodes.Data.{MediaNode, CameraPlacement, CameraMove, NodePortChange}
use rtsp_proxy.Nodes.Table.{remove_at}
use rtsp_proxy.Nodes.Store.{
  Requests, Store, get_node, put_node, put_camera, put_move, put_change, get_camera_move, camera_of,
  port_change_of, node_key, is_live, node_has_prepared_port_change, has_active_move,
}
use rtsp_proxy.Nodes.Register.{is_occupied, is_occupied_management}
use rtsp_proxy.Nodes.PortChange.{is_taken, moved_to_port}
use rtsp_proxy.Nodes.Move.{switched}

-- A node that is revised keeps what others depend on.
pub record KeepsHolding (n m : MediaNode) : Type 0 where
  pub id : m.id ≡ n.id
  pub external_port : m.external_port ≡ n.external_port
  pub api_port : m.api_port ≡ n.api_port
  pub metrics_port : m.metrics_port ≡ n.metrics_port
  pub registered_cameras : m.registered_cameras ≡ n.registered_cameras
  pub camera_capacity : m.camera_capacity ≡ n.camera_capacity

-- A node whose external port is another, all else as above.
pub record TakesPort (n m : MediaNode) (port : ℕ) : Type 0 where
  pub id : m.id ≡ n.id
  pub external_port : m.external_port ≡ port
  pub api_port : m.api_port ≡ n.api_port
  pub metrics_port : m.metrics_port ≡ n.metrics_port
  pub registered_cameras : m.registered_cameras ≡ n.registered_cameras
  pub camera_capacity : m.camera_capacity ≡ n.camera_capacity

-- A camera that is revised stays where it is, and stays what it is while it is on the move.
pub record KeepsPlace (s : Store) (c d : CameraPlacement) : Type 0 where
  pub id : d.id ≡ c.id
  pub node_id : d.node_id ≡ c.node_id
  pub node_port : d.node_port ≡ c.node_port
  pub placement_generation : d.placement_generation ≡ c.placement_generation
  pub is_live : is_live d ≡ is_live c
  pub state : (has_active_move c.id s ≡ false) ⊎ (d.state ≡ c.state)

-- The way of a move, but for the switch of its camera.
pub data Advances : CameraMoveState → CameraMoveState → Type 0 where
  gives_up : Advances prepare_target cleanup_target
  cleans_source : Advances cleanup_source activate_target
  ends : Advances activate_target CameraMoveState.complete
  undoes : Advances cleanup_target CameraMoveState.aborted

-- Two moves are the same move at two times.
pub record IsSameMove (m n : CameraMove) : Type 0 where
  pub id : n.id ≡ m.id
  pub camera_id : n.camera_id ≡ m.camera_id
  pub source_node_id : n.source_node_id ≡ m.source_node_id
  pub target_node_id : n.target_node_id ≡ m.target_node_id
  pub source_generation : n.source_generation ≡ m.source_generation
  pub target_generation : n.target_generation ≡ m.target_generation
  pub desired_revision : n.desired_revision ≡ m.desired_revision

pub KeepsPlace-revised :
    (s : Store) (c : CameraPlacement) (desired applied : ℕ)
    → KeepsPlace s c (record c { desired_revision = desired; applied_revision = applied })
KeepsPlace-revised s c desired applied = record {
  id = refl;
  node_id = refl;
  node_port = refl;
  placement_generation = refl;
  is_live = refl;
  state = inr refl;
}

pub IsSameMove-advanced :
    (m : CameraMove) (reason : Option String) (state : CameraMoveState)
    → IsSameMove m (record m { abort_reason = reason; state = state })
IsSameMove-advanced m reason state = record {
  id = refl;
  camera_id = refl;
  source_node_id = refl;
  target_node_id = refl;
  source_generation = refl;
  target_generation = refl;
  desired_revision = refl;
}

-- A move that may be made: of an enabled camera that is on no other move, to another node.
pub record IsProposed (s : Store) (c : CameraPlacement) (m : CameraMove) : Type 0 where
  pub found : camera_of m.camera_id s ≡ some c
  pub is_enabled : is_enabled c.state ≡ true
  pub is_apart : (m.source_node_id == m.target_node_id) ≡ false
  pub is_free : has_active_move m.camera_id s ≡ false
  pub state : m.state ≡ prepare_target

-- A switch that may be made.
pub record IsSwitchable (s : Store) (m : CameraMove) (c : CameraPlacement) (old new : MediaNode)
    : Type 0 where
  pub move : get_camera_move m.id s ≡ some m
  pub state : m.state ≡ prepare_target
  pub camera : camera_of m.camera_id s ≡ some c
  pub source : get_node m.source_node_id s ≡ some old
  pub target : get_node m.target_node_id s ≡ some new
  pub node_id : c.node_id ≡ m.source_node_id
  pub placement_generation : c.placement_generation ≡ m.source_generation
  pub desired_revision : c.desired_revision ≡ m.desired_revision
  pub room : new.registered_cameras < new.camera_capacity
  pub source_settled : node_has_prepared_port_change m.source_node_id s ≡ false
  pub target_settled : node_has_prepared_port_change m.target_node_id s ≡ false

-- A change of port that may be begun.
pub record IsPreparable (s : Store) (n : MediaNode) (c : NodePortChange) : Type 0 where
  pub found : get_node c.node_id s ≡ some n
  pub old_port : c.old_port ≡ n.external_port
  pub is_other : (n.external_port == c.new_port) ≡ false
  pub is_untaken : is_taken c.node_id c.new_port s ≡ false
  pub is_single : node_has_prepared_port_change c.node_id s ≡ false
  pub state : c.state ≡ NodePortChangeState.prepared

pub data Step : Store → Store → Type 0 where
  stays : (s : Store) → Step s s
  also : (s t u : Store) → Step s t → Step t u → Step s u
  node_requests :
      (s : Store) (r : Requests (ℕ × String × ℕ)) → Step s (record s { registration_requests = r })
  camera_requests :
      (s : Store) (r : Requests (ℕ × String × Option ℕ))
      → Step s (record s { camera_registration_requests = r })
  node_revised :
      (s : Store) (n m : MediaNode)
      → get_node n.id s ≡ some n
      → KeepsHolding n m
      → Step s (put_node m s)
  node_added :
      (s : Store) (n : MediaNode)
      → get_node n.id s ≡ none
      → node_has_prepared_port_change n.id s ≡ false
      → n.registered_cameras ≡ 0
      → is_occupied s n.external_port ≡ false
      → is_occupied_management s n.api_port ≡ false
      → is_occupied_management s n.metrics_port ≡ false
      → (n.api_port == n.metrics_port) ≡ false
      → Step s (record s { nodes = s.nodes ++ n ∷ [] })
  node_removed :
      (s : Store) (n : MediaNode)
      → get_node n.id s ≡ some n
      → n.registered_cameras ≡ 0
      → Step s (record s { nodes = remove_at node_key n.id s.nodes })
  camera_placed :
      (s : Store) (n : MediaNode) (c : CameraPlacement)
      → get_node n.id s ≡ some n
      → n.registered_cameras < n.camera_capacity
      → node_has_prepared_port_change n.id s ≡ false
      → c.node_id ≡ n.id
      → c.node_port ≡ n.external_port
      → is_live c ≡ true
      → Step s (record (put_node (record n { registered_cameras = suc n.registered_cameras }) s) {
        cameras = s.cameras ++ c ∷ [];
      })
  camera_revised :
      (s : Store) (c d : CameraPlacement)
      → camera_of c.id s ≡ some c
      → KeepsPlace s c d
      → Step s (put_camera d s)
  camera_retired :
      (s : Store) (n : MediaNode) (c : CameraPlacement) (revision : ℕ)
      → camera_of c.id s ≡ some c
      → get_node c.node_id s ≡ some n
      → is_deleting c.state ≡ true
      → has_active_move c.id s ≡ false
      → Step s (
          put_camera
            (record c { state = CameraState.deleted; applied_revision = revision })
            (put_node (record n { registered_cameras = n.registered_cameras - 1 }) s))
  move_proposed :
      (s : Store) (c : CameraPlacement) (m : CameraMove)
      → IsProposed s c m
      → Step s (record s { camera_moves = s.camera_moves ++ m ∷ [] })
  move_advanced :
      (s : Store) (m n : CameraMove)
      → get_camera_move m.id s ≡ some m
      → IsSameMove m n
      → Advances m.state n.state
      → Step s (put_move n s)
  camera_switched :
      (s : Store) (m : CameraMove) (c : CameraPlacement) (source target : MediaNode)
      → IsSwitchable s m c source target
      → Step s (switched m c source target s)
  change_begun :
      (s : Store) (n : MediaNode) (c : NodePortChange)
      → IsPreparable s n c
      → Step s (record s { port_changes = s.port_changes ++ c ∷ [] })
  change_completed :
      (s : Store) (c : NodePortChange) (n m : MediaNode)
      → port_change_of c.id s ≡ some c
      → is_prepared c.state ≡ true
      → get_node c.node_id s ≡ some n
      → TakesPort n m c.new_port
      → Step s (
          put_change
            (record c { state = NodePortChangeState.complete })
            (record (put_node m s) { cameras = moved_to_port n.id c.new_port s.cameras }))
  change_aborted :
      (s : Store) (c : NodePortChange) (n m : MediaNode)
      → port_change_of c.id s ≡ some c
      → is_prepared c.state ≡ true
      → get_node c.node_id s ≡ some n
      → TakesPort n m c.old_port
      → Step s (put_change (record c { state = NodePortChangeState.aborted }) (put_node m s))
