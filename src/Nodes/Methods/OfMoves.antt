-- ===== src/Nodes/Methods/OfMoves.antt =====
-- The moves of cameras take the steps of the registry.
use rtsp_proxy.Prelude.{
  ℕ, suc, ◌≡◌, refl, Bool, false, not, String, some, ◌==◌, arith, subst, sym, inl, inr, Bool-cases,
}
use rtsp_proxy.Prelude.Errors.{Result, ok, ◌>>=◌}
use rtsp_proxy.Nodes.Kinds.{
  CameraMoveState, prepare_target, cleanup_target, is_prepare_target, is_activate_target,
  is_cleanup_source, is_cleanup_target,
}
use rtsp_proxy.Nodes.Data.{CameraPlacement, CameraMove}
use rtsp_proxy.Nodes.Table.{find, find-key}
use rtsp_proxy.Nodes.Store.{Store, get_camera_move, move_key, camera_of, put_move, put_camera}
use rtsp_proxy.Nodes.Move.{
  require_move, advanced, mark_camera_move_source_cleaned, released, request_camera_move_abort,
  abort_camera_move, complete_camera_move,
}
use rtsp_proxy.Nodes.Steps.{
  KeepsPlace-revised, IsSameMove-advanced, also, camera_revised, move_advanced, Advances, gives_up,
  cleans_source, ends, undoes, IsSameMove,
}
use rtsp_proxy.Nodes.Methods.Rules.{Steps, steps_required, steps_either, steps_found, steps_not}
use rtsp_proxy.Nodes.Methods.OfCameras.{own_camera}

pub is_prepare :
    (state : CameraMoveState) → not (is_prepare_target state) ≡ false → state ≡ prepare_target
is_prepare CameraMoveState.prepare_target h = refl
is_prepare state h = absurd (ground arith)

module _ (s : Store) where
  pub steps_moving :
      (id : ℕ) (next : CameraMove → Result (CameraMove × Store))
      → ((m : CameraMove) → get_camera_move m.id s ≡ some m → Steps s (next m))
      → Steps s (require_move id s >>= next)
  unfolding require_move get_camera_move
  steps_moving id next h = steps_found s _ _ _ (λ m e. h m (
      subst (λ k. find move_key k s.camera_moves ≡ some m)
        (sym (find-key move_key id s.camera_moves m e)) e))

  advance :
      (m : CameraMove) (state : CameraMoveState)
      → get_camera_move m.id s ≡ some m
      → Advances m.state state
      → Steps s (advanced m state s)
  advance m state found way = record {
    taken =
        move_advanced s m (record m { state = state }) found
          (IsSameMove-advanced m m.abort_reason state) way;
  }

  cleaning :
      (state : CameraMoveState)
      → not (is_cleanup_source state) ≡ false
      → Advances state CameraMoveState.activate_target
  cleaning CameraMoveState.cleanup_source h = cleans_source
  cleaning state h = absurd (ground arith)

  pub mark_camera_move_source_cleaned-Steps :
      (id : ℕ) → Steps s (mark_camera_move_source_cleaned id s)
  unfolding mark_camera_move_source_cleaned
  mark_camera_move_source_cleaned-Steps id =
      search (steps_moving, steps_either s, steps_not s, steps_required s, advance, cleaning) depth
        20 fits 10000

  undoing :
      (state : CameraMoveState)
      → not (is_cleanup_target state) ≡ false
      → Advances state CameraMoveState.aborted
  undoing CameraMoveState.cleanup_target h = undoes
  undoing state h = absurd (ground arith)

  pub abort_camera_move-Steps : (id : ℕ) → Steps s (abort_camera_move id s)
  unfolding abort_camera_move
  abort_camera_move-Steps id =
      search (steps_moving, steps_either s, steps_not s, steps_required s, advance, undoing) depth
        20 fits 10000

  steps_given_up :
      (m : CameraMove) (c : CameraPlacement) (reason : String)
      → get_camera_move m.id s ≡ some m
      → not (is_prepare_target m.state) ≡ false
      → camera_of m.camera_id s ≡ some c
      → let n = record m { state = CameraMoveState.cleanup_target; abort_reason = some reason } in
        Steps s (ok (n, put_move n (released m c s)))
  unfolding released get_camera_move
  steps_given_up m c reason found preparing at =
      let n = record m { state = CameraMoveState.cleanup_target; abort_reason = some reason } in
      let same : IsSameMove m n =
        IsSameMove-advanced m (some reason) CameraMoveState.cleanup_target in
      let way : Advances m.state cleanup_target =
        subst (λ x. Advances x cleanup_target) (sym (is_prepare m.state preparing)) gives_up in
      elim (Bool-cases (c.desired_revision == m.desired_revision)) [
        | inr other ↦ rw other (record { taken = move_advanced s m n found same way })
        | inl own ↦ rw own (record {
          taken =
              also s (put_camera (record c { desired_revision = suc c.desired_revision }) s) _
                (camera_revised s c _ (own_camera s m.camera_id c at).1
                  (KeepsPlace-revised s c (suc c.desired_revision) c.applied_revision))
                (move_advanced
                  (put_camera (record c { desired_revision = suc c.desired_revision }) s) m n found
                  same way);
        })
      ]

  pub request_camera_move_abort-Steps :
      (id : ℕ) (reason : String) (cancelled : Bool)
      → Steps s (request_camera_move_abort id reason cancelled s)
  unfolding request_camera_move_abort
  request_camera_move_abort-Steps id reason cancelled =
      search
        (steps_moving, steps_either s, steps_not s, steps_required s, steps_found s, steps_given_up)
        depth 20 fits 10000

  ending :
      (state : CameraMoveState)
      → not (is_activate_target state) ≡ false
      → Advances state CameraMoveState.complete
  ending CameraMoveState.activate_target h = ends
  ending state h = absurd (ground arith)

  steps_ended :
      (m : CameraMove) (c : CameraPlacement)
      → get_camera_move m.id s ≡ some m
      → not (is_activate_target m.state) ≡ false
      → camera_of m.camera_id s ≡ some c
      → Steps s (
          advanced m CameraMoveState.complete
            (put_camera (record c { applied_revision = m.desired_revision }) s))
  unfolding get_camera_move
  steps_ended m c found activating at = record {
    taken =
        also s (put_camera (record c { applied_revision = m.desired_revision }) s) _
          (camera_revised s c _ (own_camera s m.camera_id c at).1
            (KeepsPlace-revised s c c.desired_revision m.desired_revision))
          (move_advanced (put_camera (record c { applied_revision = m.desired_revision }) s) m
            (record m { state = CameraMoveState.complete }) found
            (IsSameMove-advanced m m.abort_reason CameraMoveState.complete)
            (ending m.state activating));
  }

  pub complete_camera_move-Steps : (id : ℕ) → Steps s (complete_camera_move id s)
  unfolding complete_camera_move
  complete_camera_move-Steps id =
      search
        (steps_moving, steps_either s, steps_not s, steps_required s, steps_found s, steps_ended)
        depth 20 fits 10000
