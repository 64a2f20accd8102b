-- ===== src/Nodes/Place.antt =====
-- The placement of cameras on nodes by `InMemoryNodeStore` (nodes.py).
pub mod Least
pub mod Chosen
use rtsp_proxy.Prelude.{
  ℕ, suc, String, Bool, true, false, not, ◌&&◌, ◌||◌, Option, none, some, List, [], ◌∷◌, ◌++◌, ltb,
  leb, ◌==◌, filter, if◌then◌else◌,
}
use rtsp_proxy.Prelude.Errors.{
  node_not_found, node_camera_capacity_reached, node_runtime_unavailable, eligible_node_missing,
  camera_lifecycle_conflict, Result, ok, err, refuse, found_or, ◌>>=◌, ◌>>◌,
}
use rtsp_proxy.Access.Grants.{text_is}
use rtsp_proxy.Nodes.Kinds.{PlacementMode, enabled, CameraState}
use rtsp_proxy.Nodes.Data.{
  RegistrationIdempotency, MediaNode, ProbeEndpointIdentity, CameraPlacement,
}
use rtsp_proxy.Nodes.Table.{find, put_at}
use rtsp_proxy.Nodes.Checks.{is_node_eligible}
use rtsp_proxy.Nodes.Store.{
  Store, Means, get_node, get_camera, put_node, node_has_prepared_port_change, request_of,
  put_request,
}
use rtsp_proxy.Nodes.Lifecycle.{require_node}

-- The arguments that the placements share.
pub record Placement (A : Type 0) : Type 0 where
  pub camera_id : ℕ
  pub name : String
  pub source_url : String
  pub public_id : String
  pub management_freshness_seconds : ℕ
  pub probe_endpoint : Option A

-- `a <= b` of `(registered_cameras, active_sources, id.int)`
unfoldable pub loaded_no_more : MediaNode → MediaNode → Bool
loaded_no_more a b =
    ltb a.registered_cameras b.registered_cameras
    || (a.registered_cameras == b.registered_cameras
        && (ltb a.active_sources b.active_sources
            || (a.active_sources == b.active_sources && leb a.id b.id)))

-- `min(eligible, key=…)`: the first of those that no other is less than.
unfoldable pub least_loaded : MediaNode → List MediaNode → MediaNode
unfolding loaded_no_more
least_loaded best [] = best
least_loaded best (n ∷ rest) = least_loaded (if loaded_no_more best n then best else n) rest

abbrev pub first_least : List MediaNode → Option MediaNode
first_least [] = none
first_least (n ∷ rest) = some (least_loaded n rest)

-- A node that takes cameras.
unfoldable pub takes_cameras : ℕ → ℕ → Store → MediaNode → Bool
takes_cameras seconds now s n =
    is_node_eligible seconds now n && not (node_has_prepared_port_change n.id s)

-- `sorted(…, key=…)`, which keeps the order of equals.
insert_by_load : MediaNode → List MediaNode → List MediaNode
unfolding loaded_no_more
insert_by_load n [] = n ∷ []
insert_by_load n (m ∷ rest) =
    let tail = insert_by_load n rest in if loaded_no_more n m then n ∷ m ∷ rest else m ∷ tail

sorted_by_load : List MediaNode → List MediaNode
unfolding insert_by_load
sorted_by_load [] = []
sorted_by_load (n ∷ rest) = insert_by_load n (sorted_by_load rest)

unfoldable pub list_camera_creation_targets : ℕ → ℕ → Store → List MediaNode
unfolding sorted_by_load takes_cameras
list_camera_creation_targets seconds now s =
    sorted_by_load (filter (takes_cameras seconds now s) s.nodes)

module _ {A : Type 0} where
  unfoldable pub new_placement :
      Placement A
      → String
      → String
      → MediaNode
      → PlacementMode
      → Option ProbeEndpointIdentity
      → CameraPlacement
  new_placement q name source_url n mode endpoint = record {
    id = q.camera_id;
    name = name;
    source_url = source_url;
    public_id = q.public_id;
    node_id = n.id;
    node_port = n.external_port;
    placement_mode = mode;
    placement_generation = 1;
    state = CameraState.enabled;
    desired_revision = 1;
    applied_revision = 0;
    probe_endpoint = endpoint;
    probe_endpoint_schema_supported = true;
  }

pub record CameraRegistrationResult : Type 0 where
  pub camera : CameraPlacement
  pub replayed : Bool

-- `_camera_registration_target_id`
unfoldable pub camera_registration_target_id :
    ℕ × String × Option ℕ → RegistrationIdempotency → Result (Option ℕ)
camera_registration_target_id previous i = do
  refuse (not (previous.0 == i.actor_account_id) || not (text_is previous.1 i.request_sha256))
      (camera_lifecycle_conflict "camera_idempotency_conflict")
  ok previous.2

abbrev pub replayed_camera : ℕ → Store → Result CameraRegistrationResult
replayed_camera id s = do
  c ← found_or (camera_lifecycle_conflict "camera_idempotency_target_missing") (get_camera id s)
  ok (record { camera = c; replayed = true })

abbrev pub replay_of : Option ℕ → Store → Result (Option CameraRegistrationResult)
replay_of none s = ok none
replay_of (some id) s = do replay ← replayed_camera id s; ok (some replay)

looked_up :
    RegistrationIdempotency
    → Option (ℕ × String × Option ℕ)
    → Store
    → Result (Option CameraRegistrationResult)
unfolding camera_registration_target_id get_camera
looked_up i none s = ok none
looked_up i (some previous) s = do id ← camera_registration_target_id previous i; replay_of id s

unfoldable pub lookup_camera_registration :
    RegistrationIdempotency → Store → Result (Option CameraRegistrationResult)
unfolding looked_up request_of
lookup_camera_registration i s =
    looked_up i (request_of (i.actor_session_id, i.key) s.camera_registration_requests) s

abbrev pub noted_request : RegistrationIdempotency → Option ℕ → Store → Store
noted_request i id s = record s {
  camera_registration_requests =
      put_request (i.actor_session_id, i.key) (i.actor_account_id, i.request_sha256, id)
        s.camera_registration_requests;
}

unfoldable pub reserved :
    RegistrationIdempotency
    → Option (ℕ × String × Option ℕ)
    → Store
    → Result (Option CameraRegistrationResult × Store)
unfolding camera_registration_target_id get_camera put_request
reserved i none s = ok (none, noted_request i none s)
reserved i (some previous) s = do
  id ← camera_registration_target_id previous i
  replay ← replay_of id s
  ok (replay, s)

unfoldable pub reserve_camera_registration :
    RegistrationIdempotency → Store → Result (Option CameraRegistrationResult × Store)
unfolding reserved request_of
reserve_camera_registration i s =
    reserved i (request_of (i.actor_session_id, i.key) s.camera_registration_requests) s

module _ {A : Type 0} (means : Means A) where
  -- `self._cameras.append(placement)`, and the node counts one more.
  unfoldable pub placed_on :
      Placement A
      → String
      → String
      → MediaNode
      → PlacementMode
      → Store
      → Result (CameraPlacement × Store)
  unfolding new_placement put_at
  placed_on q name source_url n mode s = do
    endpoint ← means.endpoint_identity source_url q.probe_endpoint
    ok (
      new_placement q name source_url n mode endpoint,
      record (put_node (record n { registered_cameras = suc n.registered_cameras }) s) {
        cameras = s.cameras ++ new_placement q name source_url n mode endpoint ∷ [];
      },
    )

  unfoldable pub place_camera_automatically :
      Placement A → ℕ → Store → Result (CameraPlacement × Store)
  unfolding takes_cameras least_loaded placed_on is_node_eligible node_has_prepared_port_change
  place_camera_automatically q now s = do
    name ← means.validate_name q.name
    source_url ← means.validate_source q.source_url
    n ←
        found_or (eligible_node_missing "eligible_node_missing")
          (first_least (filter (takes_cameras q.management_freshness_seconds now s) s.nodes))
    placed_on q name source_url n PlacementMode.automatic s

  unfoldable pub place_camera_manually :
      Placement A → ℕ → ℕ → Store → Result (CameraPlacement × Store)
  unfolding get_node placed_on is_node_eligible node_has_prepared_port_change
  place_camera_manually q node_id now s = do
    name ← means.validate_name q.name
    source_url ← means.validate_source q.source_url
    n ← require_node node_id s
    refuse (leb n.camera_capacity n.registered_cameras)
        (node_camera_capacity_reached "node_camera_capacity_reached")
    refuse (node_has_prepared_port_change node_id s)
        (eligible_node_missing "manual_node_ineligible")
    refuse (not (is_node_eligible q.management_freshness_seconds now n))
        (eligible_node_missing "manual_node_ineligible")
    placed_on q name source_url n PlacementMode.manual s

  abbrev pub placed_anywhere : Placement A → Option ℕ → ℕ → Store → Result (CameraPlacement × Store)
  placed_anywhere q none now s = place_camera_automatically q now s
  placed_anywhere q (some node_id) now s = place_camera_manually q node_id now s

  abbrev pub placed_once :
      Placement A
      → Option ℕ
      → RegistrationIdempotency
      → ℕ
      → Option ℕ
      → Store
      → Result (CameraRegistrationResult × Store)
  placed_once q node_id i now (some id) s = do replay ← replayed_camera id s; ok (replay, s)
  placed_once q node_id i now none s = do
    made ← placed_anywhere q node_id now s
    ok (record { camera = made.0; replayed = false }, noted_request i (some made.0.id) made.1)

  unfoldable pub place_camera_idempotently :
      Placement A
      → Option ℕ
      → RegistrationIdempotency
      → ℕ
      → Store
      → Result (CameraRegistrationResult × Store)
  unfolding request_of camera_registration_target_id place_camera_automatically
      place_camera_manually get_camera put_request
  place_camera_idempotently q node_id i now s = do
    previous ←
        found_or (node_runtime_unavailable "camera_registration_reservation_missing")
          (request_of (i.actor_session_id, i.key) s.camera_registration_requests)
    id ← camera_registration_target_id previous i
    placed_once q node_id i now id s
