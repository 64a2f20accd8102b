-- ===== src/Nodes/Methods/OfCameras.antt =====
-- The commands on one camera take the steps of the registry.
use rtsp_proxy.Prelude.{
  ℕ, ◌-◌, ◌≡◌, refl, Bool, true, false, not, ◌||◌, String, Option, none, some, ==_iff, arith, subst,
  sym, inl, inr, Option-cases, Bool-cases, ap,
}
use rtsp_proxy.Prelude.Errors.{Result, ok, ◌>>=◌, ◌>>◌}
use rtsp_proxy.Nodes.Kinds.{CameraState, is_deleted, is_deleting}
use rtsp_proxy.Nodes.Data.{MediaNode, CameraPlacement}
use rtsp_proxy.Nodes.Table.{find, find-key}
use rtsp_proxy.Nodes.Store.{
  Store, Means, get_node, put_node, put_camera, camera_of, camera_key, is_live, has_active_move,
  require_camera, require_no_active_camera_move,
}
use rtsp_proxy.Nodes.Camera.{
  enabled_or_not, require_settled, saved_camera, update_camera, set_camera_enabled,
  request_camera_delete, applied, is_outdated, marked, mark_camera_applied,
}
use rtsp_proxy.Nodes.Steps.{KeepsPlace-revised, camera_revised, camera_retired}
use rtsp_proxy.Nodes.Methods.Rules.{
  Steps, steps_required, steps_then, steps_either, steps_found, steps_after, steps_not,
}

module _ (s : Store) where
  pub own_camera :
      (id : ℕ) (c : CameraPlacement)
      → camera_of id s ≡ some c
      → (c.id ≡ id) × (camera_of c.id s ≡ some c)
  own_camera id c found =
      let same = find-key camera_key id s.cameras c found in
      (same, subst (λ k. find camera_key k s.cameras ≡ some c) (sym same) found)

  pub steps_with :
      {A : Type 0} (id : ℕ) (next : CameraPlacement → Result (A × Store))
      → ((c : CameraPlacement)
          → c.id ≡ id
          → camera_of c.id s ≡ some c
          → is_live c ≡ true
          → Steps s (next c))
      → Steps s (require_camera id s >>= next)
  unfolding require_camera
  steps_with id next h = elim (Option-cases (camera_of id s)) [
    | inl e ↦ rw e (record { taken = tt })
    | inr (c, e) ↦ elim (Bool-cases (is_deleted c.state)) [
      | inl gone ↦ rw (e, gone) (record { taken = tt })
      | inr here ↦
          let (same, found) = own_camera id c e in rw (e, here) (h c same found (ap not here))
    ]
  ]

  steps_settled :
      {A : Type 0} (c : CameraPlacement) (id : ℕ) (rest : Result (A × Store))
      → (has_active_move id s ≡ false → Steps s rest)
      → Steps s (require_settled c id s >> rest)
  unfolding require_settled require_no_active_camera_move
  steps_settled c id rest h = elim (Bool-cases (has_active_move id s)) [
    | inl moving ↦ rw moving (record { taken = tt })
    | inr free ↦ rw free (steps_required s _ _ _ (λ _. h free))
  ]

  steps_revised :
      (id : ℕ) (c d : CameraPlacement)
      → c.id ≡ id
      → camera_of c.id s ≡ some c
      → has_active_move id s ≡ false
      → d.id ≡ c.id
      → d.node_id ≡ c.node_id
      → d.node_port ≡ c.node_port
      → d.placement_generation ≡ c.placement_generation
      → is_live d ≡ is_live c
      → Steps s (saved_camera d s)
  steps_revised id c d same found free e n p g l = record {
    taken = camera_revised s c d found (record {
      id = e;
      node_id = n;
      node_port = p;
      placement_generation = g;
      is_live = l;
      state = inl (rw same free);
    });
  }

  pub update_camera-Steps :
      {A : Type 0} (means : Means A) (id : ℕ) (name source_url : String) (expected : Option ℕ)
      (endpoint : Option A)
      → Steps s (update_camera means id name source_url expected endpoint s)
  unfolding update_camera
  update_camera-Steps means id name source_url expected endpoint =
      search
        (
          steps_after s,
          steps_with,
          steps_required s,
          steps_then s,
          steps_settled,
          steps_either s,
          steps_not s,
          steps_revised,
        )
        depth 30 fits 20000

  live_state :
      (b : Bool) (c : CameraPlacement)
      → is_live c ≡ true
      → is_live (record c { state = enabled_or_not b }) ≡ is_live c
  live_state true c h = sym h
  live_state false c h = sym h

  pub set_camera_enabled-Steps :
      (id : ℕ) (enabled : Bool) (expected : Option ℕ)
      → Steps s (set_camera_enabled id enabled expected s)
  unfolding set_camera_enabled
  set_camera_enabled-Steps id enabled expected =
      search
        (
          steps_with,
          steps_required s,
          steps_settled,
          steps_either s,
          steps_not s,
          steps_revised,
          live_state,
        )
        depth 30 fits 20000

  pub request_camera_delete-Steps :
      (id : ℕ) (expected : Option ℕ) → Steps s (request_camera_delete id expected s)
  unfolding request_camera_delete
  request_camera_delete-Steps id expected =
      search
        (
          steps_with,
          steps_required s,
          steps_settled,
          steps_either s,
          steps_not s,
          steps_revised,
          sym,
        )
        depth 30 fits 20000

  steps_staying :
      (c : CameraPlacement) (revision : ℕ)
      → camera_of c.id s ≡ some c
      → Steps s (ok (true, put_camera (record c { applied_revision = revision }) s))
  steps_staying c revision found = record {
    taken = camera_revised s c _ found (KeepsPlace-revised s c c.desired_revision revision);
  }

  steps_leaving :
      (c : CameraPlacement) (n : MediaNode) (node_id generation revision : ℕ)
      → camera_of c.id s ≡ some c
      → (is_outdated node_id generation revision c || has_active_move c.id s) ≡ false
      → get_node node_id s ≡ some n
      → not (is_deleting c.state) ≡ false
      → Steps s (
          ok (
            true,
            put_camera
                (record c { state = CameraState.deleted; applied_revision = revision })
                (put_node (record n { registered_cameras = n.registered_cameras - 1 }) s),
          ))
  steps_leaving c n node_id generation revision found ready at leaving =
      let on : c.node_id ≡ node_id = ground (arith, ==_iff c.node_id node_id) in
      let free : has_active_move c.id s ≡ false = ground arith in
      record { taken = camera_retired s n c revision found (rw on at) (ground arith) free }

  steps_applied :
      (c : CameraPlacement) (node_id generation revision : ℕ)
      → camera_of c.id s ≡ some c
      → (is_outdated node_id generation revision c || has_active_move c.id s) ≡ false
      → Steps s (applied c node_id revision s)
  unfolding applied
  steps_applied c node_id generation revision found ready =
      search (steps_either s, steps_found s, steps_staying, steps_leaving)

  marked-Steps :
      (o : Option CameraPlacement) (id node_id generation revision : ℕ)
      → camera_of id s ≡ o
      → Steps s (marked o node_id generation revision s)
  marked-Steps none id node_id generation revision e = steps_not s false
  marked-Steps (some c) id node_id generation revision e =
      let (same, found) = own_camera id c e in search (steps_either s, steps_not s, steps_applied)

  pub mark_camera_applied-Steps :
      (id node_id generation revision : ℕ)
      → Steps s (mark_camera_applied id node_id generation revision s)
  unfolding mark_camera_applied
  mark_camera_applied-Steps id node_id generation revision =
      marked-Steps _ id node_id generation revision refl
