-- ===== src/Nodes/Counts/Tables.antt =====
-- How the counts change with one record of a list.
use rtsp_proxy.Prelude.{
  ℕ, ◌≤◌, ◌≡◌, refl, sym, ap, ◌∙◌, subst, Bool, true, false, Option, none, some, List, [], ◌∷◌,
  ◌++◌, ◌==◌, ==_iff, arith, inl, inr, Bool-cases, Option-cases, if◌then◌else◌, count-append,
}
use mathlib.Core.Option.{some-injective}
use rtsp_proxy.Nodes.Data.{MediaNode, CameraPlacement}
use rtsp_proxy.Nodes.Table.{
  find, put_at, remove_at, find-put_at, find-append, append-found, find-remove_at, find-key,
  count-put_at, count-remove_at-le, absent-find, IsKeyed,
}
use rtsp_proxy.Nodes.Store.{node_key}
use rtsp_proxy.Nodes.Counts.{held, registered_in, IsCounted, IsWithin}

held-if :
    (b : Bool) (m : MediaNode) (o : Option MediaNode)
    → held (if b then some m else o) ≡ (if b then m.registered_cameras else held o)
held-if true m o = refl
held-if false m o = refl

module _ (m n : MediaNode) (nodes : List MediaNode)
    (found : find node_key m.id nodes ≡ some n) where
  pub registered_in-put :
      (k : ℕ)
      → registered_in k (put_at node_key m nodes)
        ≡ (if m.id == k then m.registered_cameras else registered_in k nodes)
  registered_in-put k =
      rw (find-put_at node_key k m n nodes found) (held-if (m.id == k) m (find node_key k nodes))

  pub put-IsKeyed : IsKeyed node_key nodes → IsKeyed node_key (put_at node_key m nodes)
  put-IsKeyed keyed k = ground (
    arith,
    count-put_at node_key (λ x. x.id == k) m n nodes found,
    keyed k,
    find-key node_key m.id nodes n found,
  )

  pub put-IsWithin :
      IsWithin nodes → m.registered_cameras ≤ m.camera_capacity → IsWithin (put_at node_key m nodes)
  put-IsWithin within fits k x h = elim (Bool-cases (m.id == k)) [
    | inl same ↦
        subst (λ y. y.registered_cameras ≤ y.camera_capacity)
          (some-injective _ _ (rw (find-put_at node_key k m n nodes found, same) at h)) fits
    | inr other ↦ within k x (rw (find-put_at node_key k m n nodes found, other) at h)
  ]

  -- A node that still counts the same.
  pub same-IsCounted :
      (cameras : List CameraPlacement)
      → m.registered_cameras ≡ n.registered_cameras
      → IsCounted nodes cameras
      → IsCounted (put_at node_key m nodes) cameras
  same-IsCounted cameras e counted k = elim (Bool-cases (m.id == k)) [
    | inr other ↦ rw (registered_in-put k, other) (counted k)
    | inl same ↦
        let at : registered_in k nodes ≡ n.registered_cameras =
          rw (sym ((==_iff m.id k).0 same), found) refl in
        rw (registered_in-put k, same) (counted k ∙ at ∙ sym e)
  ]

-- A node of another id is where it was.
pub put-elsewhere :
    (m n o : MediaNode) (nodes : List MediaNode)
    → find node_key m.id nodes ≡ some n
    → find node_key o.id nodes ≡ some o
    → (m.id == o.id) ≡ false
    → find node_key o.id (put_at node_key m nodes) ≡ some o
put-elsewhere m n o nodes found other apart =
    rw (find-put_at node_key o.id m n nodes found, apart) other

module _ (n : MediaNode) (nodes : List MediaNode) where
  pub added-IsKeyed :
      find node_key n.id nodes ≡ none → IsKeyed node_key nodes → IsKeyed node_key (nodes ++ n ∷ [])
  added-IsKeyed new keyed k = ground (
    arith,
    count-append (λ x. x.id == k) nodes (n ∷ []),
    keyed k,
    ==_iff n.id k,
    absent-find node_key n.id nodes,
  )

  pub added-IsWithin : n.registered_cameras ≡ 0 → IsWithin nodes → IsWithin (nodes ++ n ∷ [])
  added-IsWithin empty within k x h = elim (append-found node_key k n x nodes h) [
    | inl e ↦ within k x e
    | inr (e, _) ↦ subst (λ y. y.registered_cameras ≤ y.camera_capacity) e (omega arith)
  ]

  pub added-IsCounted :
      (cameras : List CameraPlacement)
      → n.registered_cameras ≡ 0
      → IsCounted nodes cameras
      → IsCounted (nodes ++ n ∷ []) cameras
  added-IsCounted cameras empty counted k = elim (Option-cases (find node_key k nodes)) [
    | inr (y, e) ↦ rw (find-append node_key k n nodes, e) (counted k ∙ ap held e)
    | inl e ↦ elim (Bool-cases (n.id == k)) [
      | inl same ↦ rw (find-append node_key k n nodes, e, same) (counted k ∙ ap held e ∙ sym empty)
      | inr other ↦ rw (find-append node_key k n nodes, e, other) (counted k ∙ ap held e)
    ]
  ]

  pub removed-IsKeyed : IsKeyed node_key nodes → IsKeyed node_key (remove_at node_key n.id nodes)
  removed-IsKeyed keyed k =
      omega (arith, keyed k, count-remove_at-le node_key (λ x. x.id == k) n.id nodes)

  pub removed-IsWithin :
      IsKeyed node_key nodes → IsWithin nodes → IsWithin (remove_at node_key n.id nodes)
  removed-IsWithin keyed within k x h = elim (Bool-cases (n.id == k)) [
    | inl same ↦
        let impossible : none ≡ some x =
          rw (find-remove_at node_key n.id k nodes (keyed n.id), same) at h in
        absurd (ground arith)
    | inr other ↦ within k x (rw (find-remove_at node_key n.id k nodes (keyed n.id), other) at h)
  ]

  pub removed-IsCounted :
      (cameras : List CameraPlacement)
      → IsKeyed node_key nodes
      → find node_key n.id nodes ≡ some n
      → n.registered_cameras ≡ 0
      → IsCounted nodes cameras
      → IsCounted (remove_at node_key n.id nodes) cameras
  removed-IsCounted cameras keyed found empty counted k = elim (Bool-cases (n.id == k)) [
    | inl same ↦
        rw (find-remove_at node_key n.id k nodes (keyed n.id), same)
          (counted k ∙ rw (sym ((==_iff n.id k).0 same), found) empty)
    | inr other ↦ rw (find-remove_at node_key n.id k nodes (keyed n.id), other) (counted k)
  ]
