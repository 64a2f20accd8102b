-- ===== src/Nodes/Methods/OfPlacement.antt =====
-- The placement of cameras takes the steps of the registry.
use rtsp_proxy.Prelude.{
  ℕ, suc, ◌<◌, ◌≡◌, refl, true, false, not, String, Option, none, some, [], ◌∷◌, ◌++◌, arith,
  filter, In-filter,
}
use rtsp_proxy.Prelude.Errors.{Result, ok, err, ◌>>=◌}
use rtsp_proxy.Nodes.Kinds.{PlacementMode}
use rtsp_proxy.Nodes.Data.{
  RegistrationIdempotency, MediaNode, CameraPlacement, ProbeEndpointIdentity,
}
use rtsp_proxy.Nodes.Table.{In-find, IsKeyed}
use rtsp_proxy.Nodes.Checks.{is_node_eligible}
use rtsp_proxy.Nodes.Store.{
  Store, Means, get_node, node_key, put_node, node_has_prepared_port_change,
}
use rtsp_proxy.Nodes.Place.Least.{first_least-In}
use rtsp_proxy.Nodes.Place.{
  Placement, first_least, takes_cameras, new_placement, placed_on, noted_request, reserved,
  reserve_camera_registration, CameraRegistrationResult, place_camera_automatically,
  place_camera_manually, placed_anywhere, placed_once, place_camera_idempotently,
}
use rtsp_proxy.Nodes.Steps.{also, camera_requests, camera_placed}
use rtsp_proxy.Nodes.Methods.Rules.{
  Steps, steps_required, steps_found, steps_after, steps_on, steps_not,
}

eligible-room :
    (seconds now : ℕ) (n : MediaNode)
    → is_node_eligible seconds now n ≡ true
    → n.registered_cameras < n.camera_capacity
unfolding is_node_eligible
eligible-room seconds now n h = ground arith

module _ (s : Store) {A : Type 0} (means : Means A) where
  steps_placed :
      (q : Placement A) (name source_url : String) (n : MediaNode) (mode : PlacementMode)
      (endpoint : Option ProbeEndpointIdentity)
      → get_node n.id s ≡ some n
      → n.registered_cameras < n.camera_capacity
      → node_has_prepared_port_change n.id s ≡ false
      → Steps s (
          ok (
            new_placement q name source_url n mode endpoint,
            record (put_node (record n { registered_cameras = suc n.registered_cameras }) s) {
              cameras = s.cameras ++ new_placement q name source_url n mode endpoint ∷ [];
            },
          ))
  unfolding new_placement
  steps_placed q name source_url n mode endpoint found room settled = record {
    taken = camera_placed s n _ found room settled refl refl refl;
  }

  placed_on-Steps :
      (q : Placement A) (name source_url : String) (n : MediaNode) (mode : PlacementMode)
      → get_node n.id s ≡ some n
      → n.registered_cameras < n.camera_capacity
      → node_has_prepared_port_change n.id s ≡ false
      → Steps s (placed_on means q name source_url n mode s)
  unfolding placed_on
  placed_on-Steps q name source_url n mode found room settled = search (steps_after s, steps_placed)

  steps_automatic :
      (q : Placement A) (name source_url : String) (n : MediaNode) (now : ℕ)
      → IsKeyed node_key s.nodes
      → first_least (filter (takes_cameras q.management_freshness_seconds now s) s.nodes) ≡ some n
      → Steps s (placed_on means q name source_url n PlacementMode.automatic s)
  unfolding takes_cameras get_node
  steps_automatic q name source_url n now keyed least =
      let (inside, takes) =
        In-filter (takes_cameras q.management_freshness_seconds now s) s.nodes n
          (first_least-In _ n least) in
      placed_on-Steps q name source_url n PlacementMode.automatic
        (In-find node_key s.nodes n keyed inside)
        (eligible-room q.management_freshness_seconds now n (ground arith)) (ground arith)

  pub place_camera_automatically-Steps :
      (q : Placement A) (now : ℕ)
      → IsKeyed node_key s.nodes
      → Steps s (place_camera_automatically means q now s)
  unfolding place_camera_automatically
  place_camera_automatically-Steps q now keyed =
      search (steps_after s, steps_found s, steps_automatic) depth 20 fits 20000

  steps_manual :
      (q : Placement A) (name source_url : String) (n : MediaNode) (node_id now : ℕ)
      → n.id ≡ node_id
      → get_node n.id s ≡ some n
      → node_has_prepared_port_change node_id s ≡ false
      → not (is_node_eligible q.management_freshness_seconds now n) ≡ false
      → Steps s (placed_on means q name source_url n PlacementMode.manual s)
  steps_manual q name source_url n node_id now same found settled eligible =
      placed_on-Steps q name source_url n PlacementMode.manual found
        (eligible-room q.management_freshness_seconds now n (ground arith)) (rw same settled)

  pub place_camera_manually-Steps :
      (q : Placement A) (node_id now : ℕ) → Steps s (place_camera_manually means q node_id now s)
  unfolding place_camera_manually
  place_camera_manually-Steps q node_id now =
      search (steps_after s, steps_on s, steps_required s, steps_manual) depth 20 fits 20000

  placed_anywhere-Steps :
      (q : Placement A) (node_id : Option ℕ) (now : ℕ)
      → IsKeyed node_key s.nodes
      → Steps s (placed_anywhere means q node_id now s)
  placed_anywhere-Steps q none now keyed = place_camera_automatically-Steps q now keyed
  placed_anywhere-Steps q (some node_id) now keyed = place_camera_manually-Steps q node_id now

  steps_noted :
      (r : Result (CameraPlacement × Store)) (i : RegistrationIdempotency)
      → Steps s r
      → Steps {A = CameraRegistrationResult} s (
          r >>= λ made.
          ok
            (record { camera = made.0; replayed = false }, noted_request i (some made.0.id) made.1))
  steps_noted (ok made) i h = record { taken = also s made.1 _ h.taken (camera_requests made.1 _) }
  steps_noted (err e) i h = record { taken = tt }

  placed_once-Steps :
      (q : Placement A) (node_id : Option ℕ) (i : RegistrationIdempotency) (now : ℕ) (id : Option ℕ)
      → IsKeyed node_key s.nodes
      → Steps s (placed_once means q node_id i now id s)
  placed_once-Steps q node_id i now (some id) keyed = search (steps_after s, steps_not s)
  placed_once-Steps q node_id i now none keyed =
      steps_noted _ i (placed_anywhere-Steps q node_id now keyed)

  pub place_camera_idempotently-Steps :
      (q : Placement A) (node_id : Option ℕ) (i : RegistrationIdempotency) (now : ℕ)
      → IsKeyed node_key s.nodes
      → Steps s (place_camera_idempotently means q node_id i now s)
  unfolding place_camera_idempotently
  place_camera_idempotently-Steps q node_id i now keyed =
      search (steps_found s, steps_after s, placed_once-Steps)

reserved-Steps :
    (i : RegistrationIdempotency) (o : Option (ℕ × String × Option ℕ)) (s : Store)
    → Steps s (reserved i o s)
unfolding reserved
reserved-Steps i none s = record { taken = camera_requests s _ }
reserved-Steps i (some previous) s = search (steps_after s, steps_not s)

pub reserve_camera_registration-Steps :
    (i : RegistrationIdempotency) (s : Store) → Steps s (reserve_camera_registration i s)
unfolding reserve_camera_registration
reserve_camera_registration-Steps i s = reserved-Steps i _ s
