-- ===== src/Nodes/Register.antt =====
-- The registration of nodes by `InMemoryNodeStore` (nodes.py).
pub mod Replay
use rtsp_proxy.Prelude.{
  ℕ, String, Bool, true, false, not, ◌&&◌, ◌||◌, Option, none, some, List, [], ◌∷◌, ◌++◌, leb, ◌==◌,
  length, any, filter, map, is_some, if◌then◌else◌,
}
use rtsp_proxy.Prelude.Errors.{
  node_lifecycle_conflict, node_port_out_of_range, node_port_in_use, node_port_range_exhausted,
  node_management_port_range_exhausted, maximum_nodes_reached, Error, Result, ok, err, refuse,
  found_or, ◌>>=◌, ◌>>◌,
}
use rtsp_proxy.Probe.Kinds.{provisioning}
use rtsp_proxy.Access.Grants.{text_is}
use rtsp_proxy.Nodes.Kinds.{NodeHealth, NodeCreationMode, is_prepared}
use rtsp_proxy.Nodes.Data.{RegistrationIdempotency, MediaNode}
use rtsp_proxy.Nodes.Ports.{contains, first_port, select_port_with_bounded_recheck}
use rtsp_proxy.Nodes.Store.{Store, get_node, request_of, put_request}

-- The arguments of a registration, the callables `choose_port` and `is_port_bindable` among them,
-- and the id that `new_node_id` returns.
pub record Registration : Type 0 where
  pub name : String
  pub allowed_ports : List ℕ
  pub max_nodes : ℕ
  pub preferred_port : Option ℕ
  pub choose_port : List ℕ → ℕ
  pub new_node_id : ℕ
  pub api_ports : List ℕ
  pub metrics_ports : List ℕ
  pub release_id : String
  pub mediamtx_binary_sha256 : String
  pub creation_mode : NodeCreationMode
  pub is_port_bindable : ℕ → Bool

-- `preferred_port is not None and …`
abbrev pub preferring : (ℕ → Bool) → Option ℕ → Bool
preferring test none = false
preferring test (some port) = test port

-- The external port of a node, or what a prepared change will make one.
unfoldable pub is_occupied : Store → ℕ → Bool
is_occupied s port =
    any (λ n. n.external_port == port) s.nodes
    || any (λ c. c.new_port == port && is_prepared c.state) s.port_changes

unfoldable pub is_occupied_management : Store → ℕ → Bool
is_occupied_management s port = any (λ n. n.api_port == port || n.metrics_port == port) s.nodes

-- `except NodePortRangeExhausted: raise NodeManagementPortRangeExhausted`
abbrev management_error : Error → Error
management_error (node_port_range_exhausted _) =
    node_management_port_range_exhausted "node_management_port_range_exhausted"
management_error e = e

abbrev pub as_management : Result ℕ → Result ℕ
as_management (ok port) = ok port
as_management (err e) = err (management_error e)

abbrev pub free_ports : (ℕ → Bool) → List ℕ → List ℕ
free_ports occupied ports = filter (λ port. not (occupied port)) ports

unfoldable pub new_node : Registration → ℕ → ℕ → ℕ → MediaNode
new_node r external_port api_port metrics_port = record {
  id = r.new_node_id;
  name = r.name;
  external_port = external_port;
  api_port = api_port;
  metrics_port = metrics_port;
  release_id = r.release_id;
  mediamtx_binary_sha256 = r.mediamtx_binary_sha256;
  creation_mode = r.creation_mode;
  state = provisioning;
  runtime_state = provisioning;
  health = NodeHealth.unknown;
  registered_cameras = 0;
  camera_capacity = 100;
  active_sources = 0;
  maintenance = false;
  management_fresh = false;
  management_observed_at = none;
  runtime_observed_at = none;
  config_compatible = false;
  desired_revision = 1;
  applied_revision = 0;
  process_id = none;
  process_start_ticks = none;
  process_boot_id = none;
  observed_config_sha256 = none;
  observed_release_id = none;
}

unfoldable pub register_automatically : Registration → Store → Result (MediaNode × Store)
unfolding is_occupied is_occupied_management new_node select_port_with_bounded_recheck
register_automatically r s =
    let available = free_ports (is_occupied s) r.allowed_ports in
    let available_api = free_ports (is_occupied_management s) r.api_ports in
    let available_metrics = free_ports (is_occupied_management s) r.metrics_ports in
    do
      refuse (preferring (λ port. not (contains r.allowed_ports port)) r.preferred_port)
          (node_port_out_of_range "node_port_out_of_range")
      refuse (leb r.max_nodes (length s.nodes)) (maximum_nodes_reached "max_nodes_reached")
      refuse (preferring (is_occupied s) r.preferred_port) (node_port_in_use "node_port_in_use")
      refuse (length available == 0) (node_port_range_exhausted "node_port_range_exhausted")
      external ←
          select_port_with_bounded_recheck r.preferred_port r.choose_port r.is_port_bindable
            available
      refuse (length available_api == 0 || length available_metrics == 0)
          (node_management_port_range_exhausted "node_management_port_range_exhausted")
      api ←
          as_management
            (select_port_with_bounded_recheck none first_port r.is_port_bindable available_api)
      metrics ← as_management (
          select_port_with_bounded_recheck none first_port r.is_port_bindable
            (filter (λ port. not (port == external || port == api)) available_metrics))
      ok (
        new_node r external api metrics,
        record s { nodes = s.nodes ++ new_node r external api metrics ∷ [] },
      )

pub record NodeRegistrationResult : Type 0 where
  pub node : MediaNode
  pub replayed : Bool

-- What an earlier request of the same key made, if it was the same request.
unfoldable pub replayed_registration :
    RegistrationIdempotency → ℕ × String × ℕ → Store → Result NodeRegistrationResult
unfolding get_node
replayed_registration i previous s = do
  refuse (not (previous.0 == i.actor_account_id) || not (text_is previous.1 i.request_sha256))
      (node_lifecycle_conflict "node_idempotency_conflict")
  node ←
      found_or (node_lifecycle_conflict "node_idempotency_target_missing") (get_node previous.2 s)
  ok (record { node = node; replayed = true })

unfoldable pub registered :
    Registration
    → RegistrationIdempotency
    → Option (ℕ × String × ℕ)
    → Store
    → Result (NodeRegistrationResult × Store)
unfolding register_automatically replayed_registration
registered r i (some previous) s = do replay ← replayed_registration i previous s; ok (replay, s)
registered r i none s = do
  made ← register_automatically r s
  ok (
    record { node = made.0; replayed = false },
    record (made.1) {
      registration_requests =
          put_request (i.actor_session_id, i.key) (i.actor_account_id, i.request_sha256, made.0.id)
            made.1.registration_requests;
    },
  )

unfoldable pub register_idempotently :
    Registration → RegistrationIdempotency → Store → Result (NodeRegistrationResult × Store)
unfolding registered request_of put_request
register_idempotently r i s =
    registered r i (request_of (i.actor_session_id, i.key) s.registration_requests) s

looked_up :
    RegistrationIdempotency
    → Option (ℕ × String × ℕ)
    → Store
    → Result (Option NodeRegistrationResult)
unfolding replayed_registration
looked_up i none s = ok none
looked_up i (some previous) s = do replay ← replayed_registration i previous s; ok (some replay)

unfoldable pub lookup_registration :
    RegistrationIdempotency → Store → Result (Option NodeRegistrationResult)
unfolding looked_up request_of
lookup_registration i s =
    looked_up i (request_of (i.actor_session_id, i.key) s.registration_requests) s
