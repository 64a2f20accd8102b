-- ===== src/Nodes/Counts/Cameras.antt =====
-- How the counts change when a camera is placed, revised, retired or switched.
use rtsp_proxy.Prelude.{
  count-In, ℕ, suc, ◌-◌, ◌≤◌, ◌≡◌, refl, sym, ap, ◌∙◌, subst, true, false, some, List, [], ◌∷◌,
  ◌++◌, ◌==◌, ==_iff, arith, inl, inr, Bool-cases, if◌then◌else◌, count-append, In,
}
use rtsp_proxy.Nodes.Data.{MediaNode, CameraPlacement}
use rtsp_proxy.Nodes.Table.{find, put_at, find-key, find-In, count-put_at}
use rtsp_proxy.Nodes.Store.{node_key, camera_key, is_live, is_live_on}
use rtsp_proxy.Nodes.Counts.{held, registered_in, IsCounted}
use rtsp_proxy.Nodes.Counts.Tables.{registered_in-put, put-elsewhere}

-- The cameras of a node as its count, a camera at a time.
module _ (nodes : List MediaNode) (cameras : List CameraPlacement)
    (counted : IsCounted nodes cameras) where
  pub placed-IsCounted :
      (n : MediaNode) (c : CameraPlacement)
      → find node_key n.id nodes ≡ some n
      → c.node_id ≡ n.id
      → is_live c ≡ true
      → IsCounted
          (put_at node_key (record n { registered_cameras = suc n.registered_cameras }) nodes)
          (cameras ++ c ∷ [])
  placed-IsCounted n c found on live k =
      let put =
        registered_in-put (record n { registered_cameras = suc n.registered_cameras }) n nodes found
          k in
      let more = count-append (is_live_on k) cameras (c ∷ []) in
      elim (Bool-cases (n.id == k)) [
        | inl same ↦
            let at : registered_in k nodes ≡ n.registered_cameras =
              rw (sym ((==_iff n.id k).0 same), found) refl in
            rw (put, more, on, same, live) (omega (arith, counted k, at))
        | inr other ↦ rw (put, more, on, other) (omega (arith, counted k))
      ]

  pub revised-IsCounted :
      (c d : CameraPlacement)
      → find camera_key d.id cameras ≡ some c
      → d.node_id ≡ c.node_id
      → is_live d ≡ is_live c
      → IsCounted nodes (put_at camera_key d cameras)
  revised-IsCounted c d found on live k =
      let changed = count-put_at camera_key (is_live_on k) d c cameras found in
      let equal : is_live_on k d ≡ is_live_on k c = rw (on, live) refl in
      omega (arith, counted k, changed, ap {B = ℕ} (λ b. if b then 1 else 0) equal)

  -- A camera that counts on a node is one of those it counts.
  pub held-live :
      (n : MediaNode) (c : CameraPlacement)
      → find node_key c.node_id nodes ≡ some n
      → In c cameras
      → is_live c ≡ true
      → 1 ≤ n.registered_cameras
  held-live n c at inside live =
      let some_there =
        count-In (is_live_on c.node_id) cameras c inside
          (rw ((==_iff c.node_id c.node_id).1 refl, live) refl) in
      let all_there : registered_in c.node_id nodes ≡ n.registered_cameras = rw at refl in
      omega (arith, counted c.node_id, some_there, all_there)

  pub retired-IsCounted :
      (n : MediaNode) (c d : CameraPlacement)
      → find node_key c.node_id nodes ≡ some n
      → find camera_key d.id cameras ≡ some c
      → is_live c ≡ true
      → is_live d ≡ false
      → IsCounted
          (put_at node_key (record n { registered_cameras = n.registered_cameras - 1 }) nodes)
          (put_at camera_key d cameras)
  retired-IsCounted n c d at found live dead k =
      let own = find-key node_key c.node_id nodes n at in
      let put =
        registered_in-put (record n { registered_cameras = n.registered_cameras - 1 }) n nodes
          (rw (sym own) at at) k in
      let changed = count-put_at camera_key (is_live_on k) d c cameras found in
      let some_there = held-live n c at (find-In camera_key d.id cameras c found) live in
      let gone : is_live_on k d ≡ false = rw dead (ground arith) in
      let here : is_live_on k c ≡ (n.id == k) = rw (live, own) (ground arith) in
      elim (Bool-cases (n.id == k)) [
        | inl same ↦
            let total : registered_in k nodes ≡ n.registered_cameras =
              rw (sym ((==_iff n.id k).0 same), own, at) refl in
            rw (put, same)
              (omega (arith, counted k, some_there, total, rw (gone, here, same) at changed))
        | inr other ↦ rw (put, other) (omega (arith, counted k, rw (gone, here, other) at changed))
      ]

  pub switched-IsCounted :
      (source target : MediaNode) (c d : CameraPlacement)
      → find node_key c.node_id nodes ≡ some source
      → find node_key d.node_id nodes ≡ some target
      → find camera_key d.id cameras ≡ some c
      → (c.node_id == d.node_id) ≡ false
      → is_live c ≡ true
      → is_live d ≡ true
      → IsCounted
          (put_at node_key
            (record target { registered_cameras = suc target.registered_cameras })
            (put_at node_key
              (record source { registered_cameras = source.registered_cameras - 1 })
              nodes))
          (put_at camera_key d cameras)
  switched-IsCounted source target c d from to found apart live lives k =
      let old = find-key node_key c.node_id nodes source from in
      let new = find-key node_key d.node_id nodes target to in
      let m = record source { registered_cameras = source.registered_cameras - 1 } in
      let here = subst (λ j. find node_key j nodes ≡ some source) (sym old) from in
      let first = registered_in-put m source nodes here k in
      let elsewhere : (source.id == target.id) ≡ false = rw (old, new) apart in
      let there =
        put-elsewhere m source target nodes here
          (subst (λ j. find node_key j nodes ≡ some target) (sym new) to) elsewhere in
      let second =
        registered_in-put (record target { registered_cameras = suc target.registered_cameras })
          target (put_at node_key m nodes) there k in
      let changed = count-put_at camera_key (is_live_on k) d c cameras found in
      let some_there = held-live source c from (find-In camera_key d.id cameras c found) live in
      let was : is_live_on k c ≡ (source.id == k) = rw (live, old) (ground arith) in
      let is : is_live_on k d ≡ (target.id == k) = rw (lives, new) (ground arith) in
      elim (Bool-cases (source.id == k)) [
        | inl leaves ↦
            let stays_out : (target.id == k) ≡ false =
              ground (arith, ==_iff source.id k, elsewhere) in
            let total : registered_in k nodes ≡ source.registered_cameras =
              rw (sym ((==_iff source.id k).0 leaves), here) refl in
            rw (second, stays_out, first, leaves)
              (omega
                (arith, counted k, some_there, total, rw (was, is, leaves, stays_out) at changed))
        | inr stays ↦ elim (Bool-cases (target.id == k)) [
          | inl enters ↦
              let total : registered_in k nodes ≡ target.registered_cameras = ap held (
                subst (λ j. find node_key j nodes ≡ some target)
                  (sym new ∙ (==_iff target.id k).0 enters) to) in
              rw (second, enters)
                (omega (arith, counted k, total, rw (was, is, stays, enters) at changed))
          | inr out ↦
              rw (second, out, first, stays)
                (omega (arith, counted k, rw (was, is, stays, out) at changed))
        ]
      ]
