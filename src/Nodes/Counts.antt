-- ===== src/Nodes/Counts.antt =====
-- That the registry (nodes.py) counts its cameras right.
pub mod Tables
mod Cameras
mod Movable
pub mod Kept
use rtsp_proxy.Prelude.{ℕ, ◌≤◌, ◌≡◌, Bool, true, false, Option, none, some, List, ◌==◌, count, In}
use rtsp_proxy.Nodes.Kinds.{CameraMoveState, prepare_target, is_enabled}
use rtsp_proxy.Nodes.Data.{MediaNode, CameraPlacement, CameraMove}
use rtsp_proxy.Nodes.Table.{find, IsKeyed}
use rtsp_proxy.Nodes.Store.{Store, node_key, camera_key, is_live_on}

abbrev pub held : Option MediaNode → ℕ
held none = 0
held (some n) = n.registered_cameras

-- How many cameras the node of an id says it has; there may be none.
abbrev pub registered_in : ℕ → List MediaNode → ℕ
registered_in id nodes = held (find node_key id nodes)

-- Every node has as many cameras as it counts.
abbrev pub IsCounted : List MediaNode → List CameraPlacement → Type 0
IsCounted nodes cameras = (id : ℕ) → count (is_live_on id) cameras ≡ registered_in id nodes

-- No node has more cameras than it has room for.
abbrev pub IsWithin : List MediaNode → Type 0
IsWithin nodes =
    (id : ℕ) (n : MediaNode)
    → find node_key id nodes ≡ some n
    → n.registered_cameras ≤ n.camera_capacity

-- The camera of a move that is not switched yet is enabled.
abbrev pub IsMovable : List CameraMove → List CameraPlacement → Type 0
IsMovable moves cameras =
    (m : CameraMove)
    → In m moves
    → m.state ≡ prepare_target
    → (c : CameraPlacement) × (find camera_key m.camera_id cameras ≡ some c)
      × (is_enabled c.state ≡ true)

abbrev pub IsApart : List CameraMove → Type 0
IsApart moves = (m : CameraMove) → In m moves → (m.source_node_id == m.target_node_id) ≡ false

pub record IsConsistent (s : Store) : Type 0 where
  pub keyed : IsKeyed node_key s.nodes
  pub counted : IsCounted s.nodes s.cameras
  pub within : IsWithin s.nodes
  pub movable : IsMovable s.camera_moves s.cameras
  pub apart : IsApart s.camera_moves
