-- ===== src/Nodes/Counts/Kept.antt =====
-- Every step of the registry keeps its counts.
use rtsp_proxy.Prelude.{
  String, ◌++◌, Option, List, [], ◌∷◌, ℕ, suc, ◌-◌, ◌≡◌, refl, sym, ◌∙◌, subst, true, false, some,
  ◌==◌, arith, inl, inr, ◌≢◌,
}
use mathlib.Core.Option.{some-injective}
use rtsp_proxy.Nodes.Kinds.{CameraMoveState, prepare_target, is_enabled, is_deleting}
use rtsp_proxy.Nodes.Data.{NodePortChange, MediaNode, CameraPlacement, CameraMove}
use rtsp_proxy.Nodes.Table.{find, find-key, find-In}
use rtsp_proxy.Nodes.Store.{
  Requests, Store, node_key, camera_key, move_key, get_node, get_camera_move, is_live,
  has_active_move, put_node,
}
use rtsp_proxy.Nodes.Move.{switched}
use rtsp_proxy.Nodes.Steps.{
  Step, stays, also, node_requests, camera_requests, node_revised, node_added, node_removed,
  camera_placed, camera_revised, camera_retired, move_proposed, move_advanced, camera_switched,
  change_begun, change_completed, change_aborted, Advances, gives_up, cleans_source, ends, undoes,
  IsSwitchable,
}
use rtsp_proxy.Nodes.Counts.{IsConsistent}
use rtsp_proxy.Nodes.Counts.Tables.{
  put-elsewhere, put-IsKeyed, put-IsWithin, same-IsCounted, added-IsKeyed, added-IsWithin,
  added-IsCounted, removed-IsKeyed, removed-IsWithin, removed-IsCounted,
}
use rtsp_proxy.Nodes.Counts.Cameras.{
  placed-IsCounted, revised-IsCounted, retired-IsCounted, switched-IsCounted,
}
use rtsp_proxy.Nodes.Counts.Movable.{
  put-IsMovable, placed-IsMovable, advanced-IsMovable, proposed-IsMovable, put-IsApart,
  append-IsApart, moved-IsCounted, moved-IsMovable,
}

-- What is not of nodes, cameras and moves.
same-IsConsistent :
    (s : Store) (changes : List NodePortChange) (r : Requests (ℕ × String × ℕ))
    (q : Requests (ℕ × String × Option ℕ))
    → IsConsistent s
    → IsConsistent (record s {
      port_changes = changes;
      registration_requests = r;
      camera_registration_requests = q;
    })
same-IsConsistent s changes r q h = record {
  keyed = h.keyed;
  counted = h.counted;
  within = h.within;
  movable = h.movable;
  apart = h.apart;
}

-- A node that is written with the cameras it counted.
put_node-IsConsistent :
    (s : Store) (n m : MediaNode)
    → find node_key m.id s.nodes ≡ some n
    → m.registered_cameras ≡ n.registered_cameras
    → m.camera_capacity ≡ n.camera_capacity
    → IsConsistent s
    → IsConsistent (put_node m s)
put_node-IsConsistent s n m found count capacity h = record {
  keyed = put-IsKeyed m n s.nodes found h.keyed;
  counted = same-IsCounted m n s.nodes found s.cameras count h.counted;
  within =
      put-IsWithin m n s.nodes found h.within
        (omega (arith, h.within m.id n found, count, capacity));
  movable = h.movable;
  apart = h.apart;
}

pub own_node :
    (s : Store) (id : ℕ) (n : MediaNode)
    → get_node id s ≡ some n
    → find node_key n.id s.nodes ≡ some n
unfolding get_node
own_node s id n found =
    subst (λ k. find node_key k s.nodes ≡ some n) (sym (find-key node_key id s.nodes n found)) found

advanced_apart :
    (s : Store) (m n : CameraMove)
    → get_camera_move m.id s ≡ some m
    → n.source_node_id ≡ m.source_node_id
    → n.target_node_id ≡ m.target_node_id
    → IsConsistent s
    → (n.source_node_id == n.target_node_id) ≡ false
unfolding get_camera_move
advanced_apart s m n found source target h =
    rw (source, target) (h.apart m (find-In move_key m.id s.camera_moves m found))

leaves_prepare : (a b : CameraMoveState) → Advances a b → b ≢ prepare_target
leaves_prepare _ _ gives_up = λ e. absurd (ground arith)
leaves_prepare _ _ cleans_source = λ e. absurd (ground arith)
leaves_prepare _ _ ends = λ e. absurd (ground arith)
leaves_prepare _ _ undoes = λ e. absurd (ground arith)

enabled-live : (c : CameraPlacement) → is_enabled c.state ≡ true → is_live c ≡ true
enabled-live c h = ground arith

deleting-live : (c : CameraPlacement) → is_deleting c.state ≡ true → is_live c ≡ true
deleting-live c h = ground arith

switched-IsConsistent :
    (s : Store) (m : CameraMove) (c : CameraPlacement) (source target : MediaNode)
    → IsSwitchable s m c source target
    → IsConsistent s
    → IsConsistent (switched m c source target s)
unfolding switched get_node get_camera_move
switched-IsConsistent s m c source target q h =
    let apart = h.apart m (find-In move_key m.id s.camera_moves m q.move) in
    let old = record source { registered_cameras = source.registered_cameras - 1 } in
    let new = record target { registered_cameras = suc target.registered_cameras } in
    let here = own_node s m.source_node_id source q.source in
    let to = own_node s m.target_node_id target q.target in
    let from = find-key node_key m.source_node_id s.nodes source q.source in
    let into = find-key node_key m.target_node_id s.nodes target q.target in
    let there = put-elsewhere old source target s.nodes here to (rw (from, into) apart) in
    let (e, at, on) = h.movable m (find-In move_key m.id s.camera_moves m q.move) q.state in
    let it : e ≡ c = some-injective _ _ (sym at ∙ q.camera) in
    let live = enabled-live c (subst (λ x. is_enabled x.state ≡ true) it on) in
    let found =
      subst (λ k. find camera_key k s.cameras ≡ some c)
        (sym (find-key camera_key m.camera_id s.cameras c q.camera)) q.camera in
    record {
      keyed = put-IsKeyed new target _ there (put-IsKeyed old source s.nodes here h.keyed);
      counted =
          switched-IsCounted s.nodes s.cameras h.counted source target c _
            (subst (λ k. find node_key k s.nodes ≡ some source) (sym q.node_id) q.source) to found
            (rw (q.node_id, into) apart) live live;
      within =
          put-IsWithin new target _ there
            (put-IsWithin old source s.nodes here h.within
              (omega (arith, h.within source.id source here)))
            q.room;
      movable =
          advanced-IsMovable _ _
            (put-IsMovable s.camera_moves s.cameras h.movable c _ found refl (inr refl)) _
            (λ e. absurd (ground arith));
      apart = put-IsApart _ s.camera_moves apart h.apart;
    }

-- Every step keeps the counts of the registry.
pub Step-IsConsistent : (s t : Store) → Step s t → IsConsistent s → IsConsistent t
unfolding get_node get_camera_move has_active_move
Step-IsConsistent _ _ (stays s) h = h
Step-IsConsistent _ _ (also s t u first second) h =
    Step-IsConsistent t u second (Step-IsConsistent s t first h)
Step-IsConsistent _ _ (node_requests s r) h =
    same-IsConsistent s s.port_changes r s.camera_registration_requests h
Step-IsConsistent _ _ (camera_requests s r) h =
    same-IsConsistent s s.port_changes s.registration_requests r h
Step-IsConsistent _ _ (node_revised s n m found k) h =
    put_node-IsConsistent s n m (subst (λ j. find node_key j s.nodes ≡ some n) (sym k.id) found)
      k.registered_cameras k.camera_capacity h
Step-IsConsistent _ _ (node_added s n new settled empty _ _ _ _) h = record {
  keyed = added-IsKeyed n s.nodes new h.keyed;
  counted = added-IsCounted n s.nodes s.cameras empty h.counted;
  within = added-IsWithin n s.nodes empty h.within;
  movable = h.movable;
  apart = h.apart;
}
Step-IsConsistent _ _ (node_removed s n found empty) h = record {
  keyed = removed-IsKeyed n s.nodes h.keyed;
  counted = removed-IsCounted n s.nodes s.cameras h.keyed found empty h.counted;
  within = removed-IsWithin n s.nodes h.keyed h.within;
  movable = h.movable;
  apart = h.apart;
}
Step-IsConsistent _ _ (camera_placed s n c found room settled on port live) h = record {
  keyed = put-IsKeyed _ n s.nodes found h.keyed;
  counted = placed-IsCounted s.nodes s.cameras h.counted n c found on live;
  within = put-IsWithin _ n s.nodes found h.within room;
  movable = placed-IsMovable s.camera_moves s.cameras h.movable c;
  apart = h.apart;
}
Step-IsConsistent _ _ (camera_revised s c d found k) h = record {
  keyed = h.keyed;
  counted =
      revised-IsCounted s.nodes s.cameras h.counted c d
        (subst (λ j. find camera_key j s.cameras ≡ some c) (sym k.id) found) k.node_id k.is_live;
  within = h.within;
  movable = put-IsMovable s.camera_moves s.cameras h.movable c d found k.id k.state;
  apart = h.apart;
}
Step-IsConsistent _ _ (camera_retired s n c revision found at leaving free) h =
    let here = own_node s c.node_id n at in
    record {
      keyed = put-IsKeyed _ n s.nodes here h.keyed;
      counted =
          retired-IsCounted s.nodes s.cameras h.counted n c _ at found (deleting-live c leaving)
            refl;
      within = put-IsWithin _ n s.nodes here h.within (omega (arith, h.within n.id n here));
      movable = put-IsMovable s.camera_moves s.cameras h.movable c _ found refl (inl free);
      apart = h.apart;
    }
Step-IsConsistent _ _ (move_proposed s c m p) h = record {
  keyed = h.keyed;
  counted = h.counted;
  within = h.within;
  movable = proposed-IsMovable s.camera_moves s.cameras h.movable m c p.found p.is_enabled;
  apart = append-IsApart m s.camera_moves p.is_apart h.apart;
}
Step-IsConsistent _ _ (move_advanced s m n found same way) h = record {
  keyed = h.keyed;
  counted = h.counted;
  within = h.within;
  movable =
      advanced-IsMovable s.camera_moves s.cameras h.movable n (leaves_prepare m.state n.state way);
  apart =
      put-IsApart n s.camera_moves
        (advanced_apart s m n found same.source_node_id same.target_node_id h) h.apart;
}
Step-IsConsistent _ _ (camera_switched s m c source target q) h =
    switched-IsConsistent s m c source target q h
Step-IsConsistent _ _ (change_begun s n c p) h =
    same-IsConsistent s (s.port_changes ++ c ∷ []) s.registration_requests
      s.camera_registration_requests h
Step-IsConsistent _ _ (change_completed s c n m found ready at k) h =
    let put =
      put_node-IsConsistent s n m
        (subst (λ j. find node_key j s.nodes ≡ some n) (sym k.id) (own_node s c.node_id n at))
        k.registered_cameras k.camera_capacity h in
    record {
      keyed = put.keyed;
      counted = moved-IsCounted n.id c.new_port s.cameras _ put.counted;
      within = put.within;
      movable = moved-IsMovable n.id c.new_port s.cameras s.camera_moves put.movable;
      apart = put.apart;
    }
Step-IsConsistent _ _ (change_aborted s c n m found ready at k) h =
    let put =
      put_node-IsConsistent s n m
        (subst (λ j. find node_key j s.nodes ≡ some n) (sym k.id) (own_node s c.node_id n at))
        k.registered_cameras k.camera_capacity h in
    record {
      keyed = put.keyed;
      counted = put.counted;
      within = put.within;
      movable = put.movable;
      apart = put.apart;
    }
