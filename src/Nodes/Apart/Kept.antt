-- ===== src/Nodes/Apart/Kept.antt =====
-- Every step of the registry keeps the external ports apart.
use rtsp_proxy.Prelude.{◌-◌, ◌≡◌, refl, sym, ◌∙◌, subst, false, some, ◌==◌}
use rtsp_proxy.Nodes.Data.{MediaNode, CameraMove, CameraPlacement}
use rtsp_proxy.Nodes.Table.{find, put_at, find-key, find-In}
use rtsp_proxy.Nodes.Store.{
  Store, node_key, change_key, get_node, get_camera_move, move_key, node_has_prepared_port_change,
}
use rtsp_proxy.Nodes.Register.{is_occupied}
use rtsp_proxy.Nodes.PortChange.{is_taken}
use rtsp_proxy.Nodes.Move.{switched}
use rtsp_proxy.Nodes.Steps.{
  Step, stays, also, node_requests, camera_requests, node_revised, node_added, node_removed,
  camera_placed, camera_revised, camera_retired, move_proposed, move_advanced, camera_switched,
  change_begun, change_completed, change_aborted, IsSwitchable,
}
use rtsp_proxy.Nodes.Counts.{IsConsistent}
use rtsp_proxy.Nodes.Counts.Kept.{own_node, Step-IsConsistent}
use rtsp_proxy.Nodes.Counts.Tables.{put-elsewhere}
use rtsp_proxy.Nodes.Apart.{IsPortsApart}
use rtsp_proxy.Nodes.Apart.Tables.{
  KeepsPorts-trans, put-KeepsPorts, remove-KeepsPorts, kept-IsPortsApart,
}
use rtsp_proxy.Nodes.Apart.Changes.{
  added-IsPortsApart, begun-IsPortsApart, ended-IsPortsApart, completed-IsPortsApart,
}

abbrev pub IsApart : Store → Type 0
IsApart s = IsPortsApart s.nodes s.port_changes

put_node-IsApart :
    (s : Store) (n m : MediaNode)
    → find node_key m.id s.nodes ≡ some n
    → m.external_port ≡ n.external_port
    → IsApart s
    → IsPortsApart (put_at node_key m s.nodes) s.port_changes
put_node-IsApart s n m found e h =
    kept-IsPortsApart s.nodes _ s.port_changes (put-KeepsPorts s.nodes n m found e) h

switched-IsApart :
    (s : Store) (m : CameraMove) (c : CameraPlacement) (source target : MediaNode)
    → IsSwitchable s m c source target
    → (m.source_node_id == m.target_node_id) ≡ false
    → IsApart s
    → IsApart (switched m c source target s)
unfolding switched get_node
switched-IsApart s m c source target q apart h =
    let old = record source { registered_cameras = source.registered_cameras - 1 } in
    let here = own_node s m.source_node_id source q.source in
    let to = own_node s m.target_node_id target q.target in
    let from = find-key node_key m.source_node_id s.nodes source q.source in
    let into = find-key node_key m.target_node_id s.nodes target q.target in
    let there = put-elsewhere old source target s.nodes here to (rw (from, into) apart) in
    kept-IsPortsApart s.nodes _ s.port_changes
      (KeepsPorts-trans s.nodes _ _ (put-KeepsPorts s.nodes source old here refl)
        (put-KeepsPorts (put_at node_key old s.nodes) target _ there refl))
      h

-- Every step of a registry that counts right keeps the ports apart.
pub Step-IsApart : (s t : Store) → Step s t → IsConsistent s → IsApart s → IsApart t
unfolding get_node get_camera_move is_occupied is_taken node_has_prepared_port_change
Step-IsApart _ _ (stays s) h a = a
Step-IsApart _ _ (also s t u first second) h a =
    Step-IsApart t u second (Step-IsConsistent s t first h) (Step-IsApart s t first h a)
Step-IsApart _ _ (node_requests s r) h a = a
Step-IsApart _ _ (camera_requests s r) h a = a
Step-IsApart _ _ (node_revised s n m found k) h a =
    put_node-IsApart s n m (subst (λ j. find node_key j s.nodes ≡ some n) (sym k.id) found)
      k.external_port a
Step-IsApart _ _ (node_added s n new settled _ free _ _ _) h a =
    added-IsPortsApart s.nodes s.port_changes a n new settled free
Step-IsApart _ _ (node_removed s n found empty) h a =
    kept-IsPortsApart s.nodes _ s.port_changes (remove-KeepsPorts s.nodes n.id h.keyed) a
Step-IsApart _ _ (camera_placed s n c found _ _ _ _ _) h a = put_node-IsApart s n _ found refl a
Step-IsApart _ _ (camera_revised s _ _ _ _) h a = a
Step-IsApart _ _ (camera_retired s n c _ _ at _ _) h a =
    put_node-IsApart s n _ (own_node s c.node_id n at) refl a
Step-IsApart _ _ (move_proposed s _ _ _) h a = a
Step-IsApart _ _ (move_advanced s _ _ _ _ _) h a = a
Step-IsApart _ _ (camera_switched s m c source target q) h a =
    switched-IsApart s m c source target q
      (h.apart m (find-In move_key m.id s.camera_moves m q.move)) a
Step-IsApart _ _ (change_begun s n c p) h a =
    begun-IsPortsApart s.nodes s.port_changes a n c p.found p.old_port p.is_other p.is_untaken
      p.is_single
Step-IsApart _ _ (change_completed s c n m found ready at k) h a =
    let same = find-key node_key c.node_id s.nodes n at in
    completed-IsPortsApart s.nodes s.port_changes a c _ found ready refl n m
      (subst (λ j. find node_key j s.nodes ≡ some n) (sym k.id) (own_node s c.node_id n at))
      (k.id ∙ same) k.external_port
Step-IsApart _ _ (change_aborted s c n m found ready at k) h a =
    let kept =
      put_node-IsApart s n m
        (subst (λ j. find node_key j s.nodes ≡ some n) (sym k.id) (own_node s c.node_id n at))
        (k.external_port
          ∙ sym (a.origin c n (find-In change_key c.id s.port_changes c found) ready at))
        a in
    ended-IsPortsApart _ s.port_changes kept c _ found ready refl
