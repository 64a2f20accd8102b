-- ===== src/Nodes/Examples.antt =====
-- Concrete calls of the registry of nodes.py: two nodes are registered and started, a camera is placed
-- on the first and moved to the second.
mod Runs
mod Ports
use rtsp_proxy.Prelude.{
  ℕ, ◌≡◌, ◌≤◌, refl, String, Bool, true, false, Option, none, some, List, [], ◌∷◌, ◌++◌, count, In,
  inl, String-discrete,
}
use rtsp_proxy.Prelude.Errors.{ok}
use rtsp_proxy.Probe.Kinds.{running}
use rtsp_proxy.Nodes.Kinds.{
  NodeHealth, NodeCreationMode, PlacementMode, CameraMoveState, CameraState,
}
use rtsp_proxy.Nodes.Data.{
  RegistrationIdempotency, NodeRuntimeObservation, MediaNode, CameraPlacement, CameraMove,
}
use rtsp_proxy.Nodes.Ports.{first_port}
use rtsp_proxy.Nodes.Store.{
  Store, Means, create_store, get_node, get_camera_move, is_live_on, list_incomplete_port_changes,
  node_has_prepared_port_change,
}
use rtsp_proxy.Nodes.Register.{
  Registration, new_node, register_idempotently, NodeRegistrationResult,
}
use rtsp_proxy.Nodes.Register.Replay.{register_idempotently_replays}
use rtsp_proxy.Nodes.Place.{Placement, new_placement, place_camera_automatically}
use rtsp_proxy.Nodes.Move.{MoveRequest, new_move}
use rtsp_proxy.Nodes.Runs.{
  Call, registering, desiring, observing, placing_automatically, creating_move, switching,
  marking_cleaned, completing_move, aborting_move, run, after, IsFreshRun, after-Step,
}
use rtsp_proxy.Nodes.Camera.{mark_camera_applied}
use rtsp_proxy.Nodes.Steps.{Step}
use rtsp_proxy.Nodes.Runs.Moves.{IsFollowed, run_follows_moves, run_ended_moves}
use rtsp_proxy.Nodes.Runs.Placements.{
  run-IsConsistent, empty-IsConsistent, run_counts, run_housed, run-mark_camera_applied_returns,
}

abbrev pub means : Means ℕ
means = record {
  validate_name = λ name. ok name;
  validate_source = λ source_url. ok source_url;
  endpoint_identity = λ source_url endpoint. ok none;
  digest = λ placements. "d";
  endpoint_text = λ port public_id. public_id;
}

abbrev pub registration : ℕ → Registration
registration id = record {
  name = "node";
  allowed_ports = 8554 ∷ 8555 ∷ 8556 ∷ [];
  max_nodes = 10;
  preferred_port = none;
  choose_port = first_port;
  new_node_id = id;
  api_ports = 20_000 ∷ 20_001 ∷ [];
  metrics_ports = 20_100 ∷ 20_101 ∷ [];
  release_id = "0.1.0";
  mediamtx_binary_sha256 = "0";
  creation_mode = NodeCreationMode.operator;
  is_port_bindable = λ port. true;
}

abbrev pub observation : NodeRuntimeObservation
observation = record {
  state = running;
  health = NodeHealth.healthy;
  management_fresh = true;
  config_compatible = true;
  applied_revision = 2;
  process_id = some 7;
  process_start_ticks = some 7;
  process_boot_id = some 7;
  config_sha256 = some "c";
  release_id = some "0.1.0";
}

abbrev pub placement : Placement ℕ
placement = record {
  camera_id = 50;
  name = "door";
  source_url = "rtsp://camera";
  public_id = "p";
  management_freshness_seconds = 30;
  probe_endpoint = none;
}

abbrev move_request : MoveRequest
move_request = record {
  move_id = 90;
  camera_id = 50;
  target_node_id = 2;
  expected_revision = 1;
  force = false;
  confirmed_disconnect_readers = 0;
  timeout_seconds = 300;
  management_freshness_seconds = 30;
}

abbrev pub empty : Store
empty = create_store []

abbrev pub starting : List (Call ℕ)
starting =
    registering (registration 1)
    ∷ registering (registration 2)
    ∷ desiring 1 running none
    ∷ desiring 2 running none
    ∷ observing 1 observation 100
    ∷ observing 2 observation 100
    ∷ placing_automatically placement 100
    ∷ creating_move move_request 100
    ∷ []

abbrev pub moving : List (Call ℕ)
moving = switching 90 false 200 100 ∷ marking_cleaned 90 ∷ completing_move 90 ∷ []

pub starting_fresh : IsFreshRun means starting empty
unfolding get_node create_store node_has_prepared_port_change after
starting_fresh = (
  record { is_new = refl; is_settled = refl },
  (record { is_new = refl; is_settled = refl }, (tt, (tt, (tt, (tt, (tt, (tt, tt))))))),
)

abbrev started : Store
started = run means starting empty

-- One node with one camera.
abbrev pub placing : List (Call ℕ)
placing =
    registering (registration 1)
    ∷ desiring 1 running none
    ∷ observing 1 observation 100
    ∷ placing_automatically placement 100
    ∷ []

pub placing_fresh : IsFreshRun means placing empty
unfolding get_node create_store node_has_prepared_port_change after
placing_fresh = (record { is_new = refl; is_settled = refl }, (tt, (tt, (tt, tt))))

abbrev placed : Store
placed = run means placing empty

abbrev pub first_node : MediaNode
first_node = record {
  id = 1;
  name = "node";
  external_port = 8554;
  api_port = 20_000;
  metrics_port = 20_100;
  release_id = "0.1.0";
  mediamtx_binary_sha256 = "0";
  creation_mode = NodeCreationMode.operator;
  state = running;
  runtime_state = running;
  health = NodeHealth.healthy;
  registered_cameras = 1;
  camera_capacity = 100;
  active_sources = 0;
  maintenance = false;
  management_fresh = true;
  management_observed_at = some 100;
  runtime_observed_at = some 100;
  config_compatible = true;
  desired_revision = 2;
  applied_revision = 2;
  process_id = some 7;
  process_start_ticks = some 7;
  process_boot_id = some 7;
  observed_config_sha256 = some "c";
  observed_release_id = some "0.1.0";
}

abbrev camera : CameraPlacement
camera = record {
  id = 50;
  name = "door";
  source_url = "rtsp://camera";
  public_id = "p";
  node_id = 1;
  node_port = 8554;
  placement_mode = PlacementMode.automatic;
  placement_generation = 1;
  state = CameraState.enabled;
  desired_revision = 1;
  applied_revision = 0;
  probe_endpoint = none;
  probe_endpoint_schema_supported = true;
}
