-- ===== src/Nodes/Examples/Ports.antt =====
-- The theorems on ports, placements and repeated registrations at concrete inputs.
use rtsp_proxy.Prelude.{
  ℕ, ◌≡◌, ◌≢◌, refl, Bool, true, false, none, List, [], ◌∷◌, ◌==◌, inl, inr, String-discrete, arith,
}
use rtsp_proxy.Prelude.Errors.{ok}
use rtsp_proxy.Probe.Kinds.{running}
use rtsp_proxy.Nodes.Kinds.{NodePortChangeState}
use rtsp_proxy.Nodes.Data.{RegistrationIdempotency, MediaNode, CameraPlacement, NodePortChange}
use rtsp_proxy.Nodes.Ports.{
  first_port, select_port_with_bounded_recheck, select_rounds, remove_port,
}
use rtsp_proxy.Nodes.Ports.Sound.{
  IsSelected, select_port-IsSelected, first_port-IsChoice, select_port_finds,
}
use rtsp_proxy.Nodes.Checks.{is_node_eligible}
use rtsp_proxy.Nodes.Store.{
  Store, create_store, get_node, node_has_prepared_port_change, list_incomplete_port_changes,
}
use rtsp_proxy.Nodes.Register.{new_node, register_idempotently}
use rtsp_proxy.Nodes.Register.Replay.{register_idempotently_replays}
use rtsp_proxy.Nodes.PortChange.{PortChangeRequest}
use rtsp_proxy.Nodes.Place.{place_camera_automatically, new_placement, takes_cameras}
use rtsp_proxy.Nodes.Place.Chosen.{
  IsBestPlace, IsPlaced, place_camera_automatically-IsBestPlace, place_camera_automatically_places,
}
use rtsp_proxy.Nodes.Runs.{
  Call, registering, desiring, observing, beginning_port_change, run, after, IsFreshRun,
}
use rtsp_proxy.Nodes.Runs.Ports.{run_ports_distinct, run_ports_reserved}
use rtsp_proxy.Nodes.Examples.{
  means, registration, observation, placement, empty, first_node, camera,
}

abbrev bindable : ℕ → Bool
bindable port = port == 8556

select_port-IsSelected_example : IsSelected none bindable (8554 ∷ 8555 ∷ 8556 ∷ []) 8556
unfolding select_port_with_bounded_recheck select_rounds remove_port
select_port-IsSelected_example =
    select_port-IsSelected none first_port bindable (8554 ∷ 8555 ∷ 8556 ∷ []) 8556 refl

select_port_finds_example :
    (q : ℕ) × (select_port_with_bounded_recheck none first_port bindable (8554 ∷ 8555 ∷ 8556 ∷ [])
      ≡ ok q)
select_port_finds_example =
    select_port_finds first_port bindable first_port-IsChoice (8554 ∷ 8555 ∷ 8556 ∷ []) 8556 refl
      refl

abbrev change_request : PortChangeRequest
change_request = record {
  change_id = 70;
  node_id = 1;
  new_port = 8556;
  allowed_ports = 8554 ∷ 8555 ∷ 8556 ∷ [];
  expected_revision = 2;
  expected_registered_cameras = 0;
  expected_blast_radius_sha256 = "d";
}

-- Two nodes, of which the first is about to change its port.
abbrev changing : List (Call ℕ)
changing =
    registering (registration 1)
    ∷ desiring 1 running none
    ∷ observing 1 observation 100
    ∷ beginning_port_change change_request
    ∷ registering (registration 2)
    ∷ []

changing_fresh : IsFreshRun means changing empty
unfolding get_node create_store node_has_prepared_port_change after String-discrete
changing_fresh = (
  record { is_new = refl; is_settled = refl },
  (tt, (tt, (tt, (record { is_new = refl; is_settled = refl }, tt)))),
)

abbrev changed : Store
changed = run means changing empty

abbrev idle_node : MediaNode
idle_node = record first_node { registered_cameras = 0 }

abbrev second_node : MediaNode
second_node = new_node (registration 2) 8555 20_001 20_101

run_ports_distinct_example : idle_node.external_port ≢ second_node.external_port
unfolding run after get_node create_store new_node String-discrete
run_ports_distinct_example =
    run_ports_distinct means changing changing_fresh 1 2 idle_node second_node (λ e. ground arith)
      refl refl

abbrev change : NodePortChange
change = record {
  id = 70;
  node_id = 1;
  old_port = 8554;
  new_port = 8556;
  source_revision = 2;
  target_revision = 3;
  registered_cameras = 0;
  blast_radius_sha256 = "d";
  state = NodePortChangeState.prepared;
}

run_ports_reserved_example : second_node.external_port ≢ change.new_port
unfolding run after get_node create_store list_incomplete_port_changes new_node String-discrete
run_ports_reserved_example =
    run_ports_reserved means changing changing_fresh change 2 second_node (inl refl) refl

abbrev full_node : MediaNode
full_node = record first_node { registered_cameras = 100 }

abbrev busy_node : MediaNode
busy_node = record first_node { id = 2; registered_cameras = 5 }

abbrev free_node : MediaNode
free_node = record first_node { id = 3 }

abbrev ready : Store
ready = create_store (full_node ∷ busy_node ∷ free_node ∷ [])

place_camera_automatically-IsBestPlace_example :
    IsBestPlace 30 100 ready (record camera { node_id = 3 })
unfolding create_store place_camera_automatically new_placement
place_camera_automatically-IsBestPlace_example =
    place_camera_automatically-IsBestPlace means placement 100 ready (record camera { node_id = 3 })
      (record ready {
        nodes = full_node ∷ busy_node ∷ record free_node { registered_cameras = 2 } ∷ [];
        cameras = record camera { node_id = 3 } ∷ [];
      })
      refl

place_camera_automatically_places_example :
    (c : CameraPlacement) × (t : Store) × (place_camera_automatically means placement 100 ready
      ≡ ok (c, t))
    × IsPlaced means placement 100 ready "door" "rtsp://camera" none c t
unfolding create_store takes_cameras is_node_eligible node_has_prepared_port_change
place_camera_automatically_places_example =
    place_camera_automatically_places means placement 100 ready "door" "rtsp://camera" none
      busy_node refl refl refl (inr (inl refl)) refl

abbrev request : RegistrationIdempotency
request = record { key = 5; actor_account_id = 6; actor_session_id = 7; request_sha256 = "r" }

abbrev new : MediaNode
new = new_node (registration 1) 8554 20_000 20_100

register_idempotently_replays_example :
    register_idempotently
      (registration 2)
      request
      (record empty { nodes = new ∷ []; registration_requests = ((7, 5), (6, "r", 1)) ∷ [] })
    ≡ ok (
      record { node = new; replayed = true },
      record empty { nodes = new ∷ []; registration_requests = ((7, 5), (6, "r", 1)) ∷ [] },
    )
unfolding create_store get_node register_idempotently new_node
register_idempotently_replays_example =
    register_idempotently_replays (registration 1) (registration 2) request empty
      (record empty { nodes = new ∷ []; registration_requests = ((7, 5), (6, "r", 1)) ∷ [] })
      (record { node = new; replayed = false }) refl refl
