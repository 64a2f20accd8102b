-- ===== src/Nodes/Methods/OfSwitches.antt =====
-- The making of a move and the switch of its camera take the steps of the registry.
use rtsp_proxy.Prelude.{
  ℕ, suc, ◌≡◌, refl, Bool, false, not, ◌||◌, some, [], ◌∷◌, ◌++◌, ◌==◌, ==_iff, arith, sym, leb,
}
use rtsp_proxy.Prelude.Errors.{Result, ok, ◌>>◌}
use rtsp_proxy.Nodes.Kinds.{CameraMoveState, is_enabled, is_prepare_target}
use rtsp_proxy.Nodes.Data.{MediaNode, CameraPlacement, CameraMove, checked_move}
use rtsp_proxy.Nodes.Table.{find-key}
use rtsp_proxy.Nodes.Store.{
  Store, Means, get_node, get_camera_move, node_key, camera_of, has_active_move, put_camera,
  require_no_active_camera_move, node_has_prepared_port_change,
}
use rtsp_proxy.Nodes.Move.{
  MoveRequest, new_move, proposed, create_camera_move, switched, switch_camera_move,
}
use rtsp_proxy.Nodes.Steps.{
  KeepsPlace-revised, also, camera_revised, move_proposed, camera_switched,
}
use rtsp_proxy.Nodes.Methods.Rules.{
  Steps, steps_required, steps_either, steps_found, steps_after, steps_on, steps_not,
}
use rtsp_proxy.Nodes.Methods.OfCameras.{steps_with}
use rtsp_proxy.Nodes.Methods.OfMoves.{is_prepare, steps_moving}

checked_move-same : (m n : CameraMove) → checked_move m ≡ ok n → n ≡ m
unfolding checked_move
checked_move-same m n h = ground arith

module _ (s : Store) where
  steps_free :
      {A : Type 0} (id : ℕ) (rest : Result (A × Store))
      → (has_active_move id s ≡ false → Steps s rest)
      → Steps s (require_no_active_camera_move id s >> rest)
  unfolding require_no_active_camera_move
  steps_free id rest h = steps_required s _ _ _ h

  steps_switched :
      (m : CameraMove) (c : CameraPlacement) (source target : MediaNode) (now : ℕ)
      → get_camera_move m.id s ≡ some m
      → not (is_prepare_target m.state) ≡ false
      → camera_of m.camera_id s ≡ some c
      → get_node m.source_node_id s ≡ some source
      → get_node m.target_node_id s ≡ some target
      → (not (c.node_id == m.source_node_id)
          || not (c.placement_generation == m.source_generation)
          || not (c.desired_revision == m.desired_revision))
        ≡ false
      → leb target.camera_capacity target.registered_cameras ≡ false
      → (node_has_prepared_port_change source.id s || node_has_prepared_port_change target.id s)
        ≡ false
      → Steps s
          (ok (record m { state = CameraMoveState.cleanup_source }, switched m c source target s))
  unfolding get_node
  steps_switched m c source target now found preparing camera from to fenced room settled =
      let a = find-key node_key m.source_node_id s.nodes source from in
      let b = find-key node_key m.target_node_id s.nodes target to in
      record {
        taken = camera_switched s m c source target (record {
          move = found;
          state = is_prepare m.state preparing;
          camera = camera;
          source = from;
          target = to;
          node_id = ground (arith, ==_iff c.node_id m.source_node_id);
          placement_generation = ground (arith, ==_iff c.placement_generation m.source_generation);
          desired_revision = ground (arith, ==_iff c.desired_revision m.desired_revision);
          room = ground arith;
          source_settled = rw (sym a) (ground arith);
          target_settled = rw (sym b) (ground arith);
        });
      }

  pub switch_camera_move-Steps :
      (id : ℕ) (cancelled : Bool) (clock now : ℕ)
      → Steps s (switch_camera_move id cancelled clock now s)
  unfolding switch_camera_move
  switch_camera_move-Steps id cancelled clock now =
      search
        (
          steps_moving s,
          steps_either s,
          steps_not s,
          steps_required s,
          steps_found s,
          steps_switched,
        )
        depth 30 fits 30000

  steps_created :
      {A : Type 0} (means : Means A) (q : MoveRequest) (c : CameraPlacement)
      (source target : MediaNode) (now : ℕ) (m : CameraMove)
      → c.id ≡ q.camera_id
      → camera_of c.id s ≡ some c
      → not (is_enabled c.state) ≡ false
      → (c.node_id == q.target_node_id) ≡ false
      → has_active_move q.camera_id s ≡ false
      → checked_move (new_move means q c source target now) ≡ ok m
      → Steps s (
          ok (
            m,
            put_camera
                (record c { desired_revision = suc c.desired_revision })
                (record s { camera_moves = s.camera_moves ++ m ∷ [] }),
          ))
  unfolding new_move
  steps_created means q c source target now m same found on apart free made =
      rw (checked_move-same (new_move means q c source target now) m made) (record {
        taken =
            also s
              (record s {
                camera_moves = s.camera_moves ++ new_move means q c source target now ∷ [];
              })
              _
              (move_proposed s c (new_move means q c source target now) (record {
                found = found;
                is_enabled = ground arith;
                is_apart = apart;
                is_free = rw same free;
                state = refl;
              }))
              (camera_revised _ c _ found
                (KeepsPlace-revised _ c (suc c.desired_revision) c.applied_revision));
      })

  proposed-Steps :
      {A : Type 0} (means : Means A) (q : MoveRequest) (c : CameraPlacement)
      (source target : MediaNode) (now : ℕ)
      → c.id ≡ q.camera_id
      → camera_of c.id s ≡ some c
      → not (is_enabled c.state) ≡ false
      → (c.node_id == q.target_node_id) ≡ false
      → has_active_move q.camera_id s ≡ false
      → Steps s (proposed means q c source target now s)
  unfolding proposed
  proposed-Steps means q c source target now same found on apart free =
      steps_after s (checked_move (new_move means q c source target now)) _
        (λ m made. steps_created means q c source target now m same found on apart free made)

  pub create_camera_move-Steps :
      {A : Type 0} (means : Means A) (q : MoveRequest) (now : ℕ)
      → Steps s (create_camera_move means q now s)
  unfolding create_camera_move
  create_camera_move-Steps means q now =
      search (steps_with s, steps_required s, steps_on s, steps_free, steps_found s, proposed-Steps)
        depth 30 fits 30000
