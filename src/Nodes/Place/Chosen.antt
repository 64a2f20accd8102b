-- ===== src/Nodes/Place/Chosen.antt =====
-- Which node `place_camera_automatically` (nodes.py) chooses.
use rtsp_proxy.Prelude.{
  ℕ, suc, ◌++◌, ◌≡◌, refl, String, true, Option, some, List, [], ◌∷◌, filter, In, In-filter,
  filter-In, inl, inr, Option-cases,
}
use rtsp_proxy.Prelude.Errors.{
  eligible_node_missing, ok, found_or, Gives, Gives-after, Gives-found, Gives-any, Gives-ok,
}
use rtsp_proxy.Nodes.Kinds.{PlacementMode, CameraState}
use rtsp_proxy.Nodes.Table.{put_at, put_at-In}
use rtsp_proxy.Nodes.Data.{MediaNode, CameraPlacement, ProbeEndpointIdentity}
use rtsp_proxy.Nodes.Store.{Store, Means, put_node, node_key}
use rtsp_proxy.Nodes.Place.Least.{first_least-In, first_least-least, first_least_some}
use rtsp_proxy.Nodes.Place.{
  Placement, loaded_no_more, first_least, takes_cameras, new_placement, placed_on,
  place_camera_automatically,
}

-- A placement on a node that takes cameras, of which none that takes cameras is less loaded.
pub record IsBestPlace (seconds now : ℕ) (s : Store) (c : CameraPlacement) : Type 0 where
  pub node : MediaNode
  pub inside : In node s.nodes
  pub takes : takes_cameras seconds now s node ≡ true
  pub least :
      (m : MediaNode)
      → In m s.nodes
      → takes_cameras seconds now s m ≡ true
      → loaded_no_more node m ≡ true
  pub node_id : c.node_id ≡ node.id
  pub node_port : c.node_port ≡ node.external_port

module _ {A : Type 0} (means : Means A) (q : Placement A) (now : ℕ) (s : Store) where
  takers : List MediaNode
  takers = filter (takes_cameras q.management_freshness_seconds now s) s.nodes

  placed_on-IsBestPlace :
      (name source_url : String) (n : MediaNode)
      → first_least takers ≡ some n
      → Gives
          (λ r. IsBestPlace q.management_freshness_seconds now s r.0)
          (placed_on means q name source_url n PlacementMode.automatic s)
  unfolding placed_on new_placement takers
  placed_on-IsBestPlace name source_url n least =
      let (inside, takes) =
        In-filter (takes_cameras q.management_freshness_seconds now s) s.nodes n
          (first_least-In _ n least) in
      Gives-after (λ r. IsBestPlace q.management_freshness_seconds now s r.0) (λ _. Unit {0})
        (means.endpoint_identity source_url q.probe_endpoint) _ (Gives-any _)
        (λ endpoint _. record {
          node = n;
          inside = inside;
          takes = takes;
          least = λ m there taking. first_least-least _ n m least (
              filter-In (takes_cameras q.management_freshness_seconds now s) s.nodes m there
                taking);
          node_id = refl;
          node_port = refl;
        })

  place_automatically_best :
      Gives
        (λ r. IsBestPlace q.management_freshness_seconds now s r.0)
        (place_camera_automatically means q now s)
  unfolding place_camera_automatically takers
  place_automatically_best =
      Gives-after _ (λ _. Unit {0}) (means.validate_name q.name) _ (Gives-any _)
        (λ name _.
          Gives-after _ (λ _. Unit {0}) (means.validate_source q.source_url) _ (Gives-any _)
            (λ source_url _.
              Gives-after _ (λ n. first_least takers ≡ some n)
                (found_or (eligible_node_missing "eligible_node_missing") (first_least takers)) _
                (Gives-found _ (first_least takers))
                (λ n least. placed_on-IsBestPlace name source_url n least)))

  -- A camera that is placed automatically is placed on a node that takes cameras, and every node that
  -- takes cameras has at least as many cameras, or as many and at least as many active sources, or as
  -- many of both and no lower id.
  pub place_camera_automatically-IsBestPlace :
      (c : CameraPlacement) (t : Store)
      → place_camera_automatically means q now s ≡ ok (c, t)
      → IsBestPlace q.management_freshness_seconds now s c
  place_camera_automatically-IsBestPlace c t h =
      Gives-ok (λ r. IsBestPlace q.management_freshness_seconds now s r.0) _ (c, t)
        place_automatically_best h

  -- A camera that was placed: the record that was asked for is the last of the cameras, and the node
  -- that it names counts one camera more than before; the moves and the changes of port stay.
  pub record IsPlaced (name source_url : String) (endpoint : Option ProbeEndpointIdentity)
      (c : CameraPlacement) (t : Store) : Type 0 where
    pub appended : t.cameras ≡ s.cameras ++ c ∷ []
    pub asked : (c.id ≡ q.camera_id) × (c.public_id ≡ q.public_id)
    pub accepted : (c.name ≡ name) × (c.source_url ≡ source_url) × (c.probe_endpoint ≡ endpoint)
    pub starts : (c.state ≡ CameraState.enabled) × (c.placement_mode ≡ PlacementMode.automatic)
    pub best : IsBestPlace q.management_freshness_seconds now s c
    pub counted :
        (n : MediaNode) × In n s.nodes
        × (n.id ≡ c.node_id)
        × In (record n { registered_cameras = suc n.registered_cameras }) t.nodes
    pub moves : t.camera_moves ≡ s.camera_moves
    pub port_changes : t.port_changes ≡ s.port_changes

  -- What is done on the node that is chosen.
  chosen_camera : String → String → Option ProbeEndpointIdentity → MediaNode → CameraPlacement
  unfolding new_placement
  chosen_camera name source_url endpoint m =
      new_placement q name source_url m PlacementMode.automatic endpoint

  chosen_store : String → String → Option ProbeEndpointIdentity → MediaNode → Store
  unfolding chosen_camera put_at
  chosen_store name source_url endpoint m =
      record (put_node (record m { registered_cameras = suc m.registered_cameras }) s) {
        cameras = s.cameras ++ chosen_camera name source_url endpoint m ∷ [];
      }

  places_on :
      (name source_url : String) (endpoint : Option ProbeEndpointIdentity) (m : MediaNode)
      → means.validate_name q.name ≡ ok name
      → means.validate_source q.source_url ≡ ok source_url
      → means.endpoint_identity source_url q.probe_endpoint ≡ ok endpoint
      → first_least takers ≡ some m
      → place_camera_automatically means q now s
        ≡ ok (chosen_camera name source_url endpoint m, chosen_store name source_url endpoint m)
  unfolding place_camera_automatically placed_on takers chosen_store chosen_camera
  places_on name source_url endpoint m named sourced admitted e =
      rw (named, sourced, e, admitted) refl

  chosen-IsPlaced :
      (name source_url : String) (endpoint : Option ProbeEndpointIdentity) (m : MediaNode)
      → In m s.nodes
      → IsBestPlace q.management_freshness_seconds now s (chosen_camera name source_url endpoint m)
      → IsPlaced name source_url endpoint
          (chosen_camera name source_url endpoint m)
          (chosen_store name source_url endpoint m)
  unfolding chosen_store chosen_camera new_placement
  chosen-IsPlaced name source_url endpoint m inside best = record {
    appended = refl;
    asked = (refl, refl);
    accepted = (refl, refl, refl);
    starts = (refl, refl);
    best = best;
    counted = (
      m,
      inside,
      refl,
      put_at-In node_key (record m { registered_cameras = suc m.registered_cameras }) m s.nodes
          inside refl,
    );
    moves = refl;
    port_changes = refl;
  }

  -- If the name, the source and the endpoint are accepted and some node takes cameras, the call
  -- returns, and the camera that it returns is placed: it is the one that was asked for, appended to
  -- the cameras, on a least loaded node that takes cameras, which counts one camera more.
  pub place_camera_automatically_places :
      (name source_url : String) (endpoint : Option ProbeEndpointIdentity) (n : MediaNode)
      → means.validate_name q.name ≡ ok name
      → means.validate_source q.source_url ≡ ok source_url
      → means.endpoint_identity source_url q.probe_endpoint ≡ ok endpoint
      → In n s.nodes
      → takes_cameras q.management_freshness_seconds now s n ≡ true
      → (c : CameraPlacement) × (t : Store) × (place_camera_automatically means q now s ≡ ok (c, t))
        × IsPlaced name source_url endpoint c t
  unfolding takers
  place_camera_automatically_places name source_url endpoint n named sourced admitted inside takes =
      elim (Option-cases (first_least takers)) [
        | inr (m, e) ↦
            let returned = places_on name source_url endpoint m named sourced admitted e in
            let (inside_m, takes_m) =
              In-filter (takes_cameras q.management_freshness_seconds now s) s.nodes m
                (first_least-In _ m e) in
            (
              chosen_camera name source_url endpoint m,
              chosen_store name source_url endpoint m,
              returned,
              chosen-IsPlaced name source_url endpoint m inside_m
                  (place_camera_automatically-IsBestPlace _ _ returned),
            )
        | inl e ↦ absurd (
            first_least_some takers n
              (filter-In (takes_cameras q.management_freshness_seconds now s) s.nodes n inside
                takes)
              e)
      ]
