-- ===== src/Nodes/Data.antt =====
-- The dataclasses of nodes.py; `checked_x` is `__post_init__` of `X`. A `PublicId` is its text, and
-- a port, a revision and a generation are never below zero.
use rtsp_proxy.Prelude.{
  ℕ, String, Bool, not, ◌&&◌, ◌||◌, Option, none, some, ltb, leb, ◌==◌, length, any, is_some,
}
use rtsp_proxy.Prelude.Errors.{value_error, Result, ok, refuse, ◌>>◌}
use rtsp_proxy.Probe.Kinds.{NodeState}
use rtsp_proxy.Probe.Text.{codes, is_uuid4}
use rtsp_proxy.Access.Grants.{is_hex, text_is}
use rtsp_proxy.Nodes.Kinds.{
  NodeHealth, NodeCreationMode, PlacementMode, CameraState, CameraMoveState, NodePortChangeState,
  camera_move_is_terminal,
}

pub record NodeCommandFence : Type 0 where
  pub expected_revision : ℕ
  pub expected_state : NodeState

unfoldable pub checked_fence : NodeCommandFence → Result NodeCommandFence
checked_fence f = do
  refuse (ltb f.expected_revision 1) (value_error "node_command_fence_invalid")
  ok f

-- `NodeRegistrationIdempotency` and `CameraRegistrationIdempotency`, which have the same fields.
pub record RegistrationIdempotency : Type 0 where
  pub key : ℕ
  pub actor_account_id : ℕ
  pub actor_session_id : ℕ
  pub request_sha256 : String

abbrev idempotency_invalid : RegistrationIdempotency → Bool
idempotency_invalid i =
    not (is_uuid4 i.key)
    || not (length (codes i.request_sha256) == 64)
    || any (λ c. not (is_hex c)) (codes i.request_sha256)

unfoldable pub checked_node_idempotency : RegistrationIdempotency → Result RegistrationIdempotency
checked_node_idempotency i = do
  refuse (idempotency_invalid i) (value_error "node_registration_idempotency_invalid")
  ok i

unfoldable pub checked_camera_idempotency : RegistrationIdempotency → Result RegistrationIdempotency
checked_camera_idempotency i = do
  refuse (idempotency_invalid i) (value_error "camera_registration_idempotency_invalid")
  ok i

pub record NodeRuntimeObservation : Type 0 where
  pub state : NodeState
  pub health : NodeHealth
  pub management_fresh : Bool
  pub config_compatible : Bool
  pub applied_revision : ℕ
  pub process_id : Option ℕ
  pub process_start_ticks : Option ℕ
  pub process_boot_id : Option ℕ
  pub config_sha256 : Option String
  pub release_id : Option String

pub record MediaNode : Type 0 where
  pub id : ℕ
  pub name : String
  pub external_port : ℕ
  pub api_port : ℕ
  pub metrics_port : ℕ
  pub release_id : String
  pub mediamtx_binary_sha256 : String
  pub creation_mode : NodeCreationMode
  pub state : NodeState
  pub runtime_state : NodeState
  pub health : NodeHealth
  pub registered_cameras : ℕ
  pub camera_capacity : ℕ
  pub active_sources : ℕ
  pub maintenance : Bool
  pub management_fresh : Bool
  pub management_observed_at : Option ℕ
  pub runtime_observed_at : Option ℕ
  pub config_compatible : Bool
  pub desired_revision : ℕ
  pub applied_revision : ℕ
  pub process_id : Option ℕ
  pub process_start_ticks : Option ℕ
  pub process_boot_id : Option ℕ
  pub observed_config_sha256 : Option String
  pub observed_release_id : Option String

-- `ProbeEndpointIdentity` of probe_security.py, an address as its number.
pub record ProbeEndpointIdentity : Type 0 where
  pub generation : ℕ
  pub address : ℕ
  pub port : ℕ
  pub site_key : String
  pub policy_sha256 : String
  pub source_url_sha256 : String

abbrev same_endpoint : ProbeEndpointIdentity → ProbeEndpointIdentity → Bool
same_endpoint a b =
    a.generation == b.generation
    && a.address == b.address
    && a.port == b.port
    && text_is a.site_key b.site_key
    && text_is a.policy_sha256 b.policy_sha256
    && text_is a.source_url_sha256 b.source_url_sha256

abbrev pub same_identity : Option ProbeEndpointIdentity → Option ProbeEndpointIdentity → Bool
same_identity none none = Bool.true
same_identity (some a) (some b) = same_endpoint a b
same_identity _ _ = Bool.false

pub record CameraPlacement : Type 0 where
  pub id : ℕ
  pub name : String
  pub source_url : String
  pub public_id : String
  pub node_id : ℕ
  pub node_port : ℕ
  pub placement_mode : PlacementMode
  pub placement_generation : ℕ
  pub state : CameraState
  pub desired_revision : ℕ
  pub applied_revision : ℕ
  pub probe_endpoint : Option ProbeEndpointIdentity
  pub probe_endpoint_schema_supported : Bool

pub record CameraMove : Type 0 where
  pub id : ℕ
  pub camera_id : ℕ
  pub public_id : String
  pub source_url : String
  pub source_node_id : ℕ
  pub target_node_id : ℕ
  pub source_generation : ℕ
  pub target_generation : ℕ
  pub desired_revision : ℕ
  pub force : Bool
  pub confirmed_disconnect_readers : ℕ
  pub source_port : Option ℕ
  pub target_port : Option ℕ
  pub source_endpoint : Option String
  pub target_endpoint : Option String
  pub expires_at : ℕ
  pub abort_reason : Option String
  pub state : CameraMoveState

abbrev port_invalid : Option ℕ → Bool
port_invalid none = Bool.false
port_invalid (some port) = not (leb 1 port && leb port 65_535)

abbrev endpoint_invalid : Option String → Option ℕ → Bool
endpoint_invalid (some e) (some p) = Bool.false
endpoint_invalid none none = Bool.false
endpoint_invalid _ _ = Bool.true

unfoldable pub checked_move : CameraMove → Result CameraMove
checked_move m = do
  refuse (not (m.confirmed_disconnect_readers == 0 || m.confirmed_disconnect_readers == 1))
      (value_error "camera_move_confirmed_readers_invalid")
  refuse (port_invalid m.source_port || port_invalid m.target_port)
      (value_error "camera_move_port_invalid")
  refuse
      (endpoint_invalid m.source_endpoint m.source_port
        || endpoint_invalid m.target_endpoint m.target_port)
      (value_error "camera_move_endpoint_invalid")
  refuse
      (not (camera_move_is_terminal m.state)
        && (not (is_some m.source_port)
            || not (is_some m.target_port)
            || not (is_some m.source_endpoint)
            || not (is_some m.target_endpoint)))
      (value_error "camera_move_endpoint_invalid")
  ok m

pub record NodePortChange : Type 0 where
  pub id : ℕ
  pub node_id : ℕ
  pub old_port : ℕ
  pub new_port : ℕ
  pub source_revision : ℕ
  pub target_revision : ℕ
  pub registered_cameras : ℕ
  pub blast_radius_sha256 : String
  pub state : NodePortChangeState
