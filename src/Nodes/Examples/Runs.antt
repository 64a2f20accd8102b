-- ===== src/Nodes/Examples/Runs.antt =====
-- The theorems on any calls of the registry at concrete calls.
use rtsp_proxy.Prelude.{
  ℕ, ◌≡◌, ◌≤◌, refl, Bool, false, none, some, List, [], ◌∷◌, ◌++◌, count, inl, String-discrete,
}
use rtsp_proxy.Prelude.Errors.{ok}
use rtsp_proxy.Nodes.Kinds.{CameraMoveState}
use rtsp_proxy.Nodes.Data.{MediaNode, CameraMove}
use rtsp_proxy.Nodes.Store.{
  Store, create_store, get_node, get_camera_move, is_live_on, node_has_prepared_port_change,
}
use rtsp_proxy.Nodes.Runs.{Call, switching, aborting_move, run, after, IsFreshRun, after-Step}
use rtsp_proxy.Nodes.Camera.{mark_camera_applied}
use rtsp_proxy.Nodes.Steps.{Step}
use rtsp_proxy.Nodes.Runs.Moves.{IsFollowed, run_follows_moves, run_ended_moves}
use rtsp_proxy.Nodes.Runs.Placements.{
  run-IsConsistent, empty-IsConsistent, run_counts, run_housed, run-mark_camera_applied_returns,
}
use rtsp_proxy.Nodes.Examples.{
  means, empty, starting, moving, starting_fresh, started, placing, placing_fresh, placed,
  first_node, camera,
}

after-Step_example : Step started (after means (switching 90 false 200 100) started)
after-Step_example =
    after-Step means (switching 90 false 200 100) started
      (run-IsConsistent means starting empty starting_fresh empty-IsConsistent).keyed tt

run_counts_example : (count (is_live_on 1) placed.cameras ≡ 1) × (1 ≤ 100)
unfolding run after get_node create_store String-discrete
run_counts_example = run_counts means placing placing_fresh 1 first_node refl

run_housed_example : (n : MediaNode) × (get_node 1 placed ≡ some n)
unfolding run after get_node create_store String-discrete
run_housed_example = run_housed means placing placing_fresh camera (inl refl) refl

run-mark_camera_applied_returns_example :
    (b : Bool) × (t : Store) × (mark_camera_applied 50 1 1 1 placed ≡ ok (b, t))
run-mark_camera_applied_returns_example =
    run-mark_camera_applied_returns means placing 50 1 1 1 placing_fresh

abbrev move : CameraMoveState → CameraMove
move state = record {
  id = 90;
  camera_id = 50;
  public_id = "p";
  source_url = "rtsp://camera";
  source_node_id = 1;
  target_node_id = 2;
  source_generation = 1;
  target_generation = 2;
  desired_revision = 2;
  force = false;
  confirmed_disconnect_readers = 0;
  source_port = some 8554;
  target_port = some 8555;
  source_endpoint = some "p";
  target_endpoint = some "p";
  expires_at = 300_000_100;
  abort_reason = none;
  state = state;
}

moving_fresh : IsFreshRun means moving started
moving_fresh = (tt, (tt, (tt, tt)))

run_follows_moves_example :
    IsFollowed 90 (run means moving started) (move CameraMoveState.prepare_target)
unfolding run after get_camera_move create_store String-discrete
run_follows_moves_example =
    run_follows_moves means starting moving 90 (move CameraMoveState.prepare_target) starting_fresh
      moving_fresh refl

abbrev moved : List (Call ℕ)
moved = starting ++ moving

moved_fresh : IsFreshRun means moved empty
unfolding get_node create_store node_has_prepared_port_change after
moved_fresh = (
  record { is_new = refl; is_settled = refl },
  (
    record { is_new = refl; is_settled = refl },
    (tt, (tt, (tt, (tt, (tt, (tt, (tt, (tt, (tt, tt))))))))),
  ),
)

run_ended_moves_example :
    (n : CameraMove) × (get_camera_move 90
        (run means (aborting_move 90 ∷ []) (run means moved empty))
      ≡ some n)
    × (n.state ≡ CameraMoveState.complete)
unfolding run after get_camera_move create_store String-discrete
run_ended_moves_example =
    run_ended_moves means moved (aborting_move 90 ∷ []) 90 (move CameraMoveState.complete)
      moved_fresh (tt, tt) refl refl
