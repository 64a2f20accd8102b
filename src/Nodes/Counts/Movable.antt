-- ===== src/Nodes/Counts/Movable.antt =====
-- How the cameras of pending moves stay enabled, and how a change of port leaves the counts.
use rtsp_proxy.Prelude.{
  ℕ, ◌≡◌, refl, sym, ap, ◌∙◌, subst, true, false, some, List, [], ◌∷◌, ◌++◌, map, ◌==◌, ==_iff,
  arith, inl, inr, ◌⊎◌, Bool-cases, if◌then◌else◌, count, any, any-none, In-snoc, ◌≢◌,
}
use mathlib.Core.Option.{some-injective}
use rtsp_proxy.Nodes.Kinds.{prepare_target, is_enabled}
use rtsp_proxy.Nodes.Data.{MediaNode, CameraPlacement, CameraMove}
use rtsp_proxy.Nodes.Table.{find, put_at, find-put_at, find-append, In-put_at}
use rtsp_proxy.Nodes.Store.{camera_key, move_key, is_live_on, is_active_for}
use rtsp_proxy.Nodes.PortChange.{moved_to_port}
use rtsp_proxy.Nodes.Counts.{IsCounted, IsMovable, IsApart}

module _ (moves : List CameraMove) (cameras : List CameraPlacement)
    (movable : IsMovable moves cameras) where
  -- A camera that is revised is not on the move, or is in the state it was in.
  pub put-IsMovable :
      (c d : CameraPlacement)
      → find camera_key c.id cameras ≡ some c
      → d.id ≡ c.id
      → (any (is_active_for c.id) moves ≡ false) ⊎ (d.state ≡ c.state)
      → IsMovable moves (put_at camera_key d cameras)
  put-IsMovable c d found own state m inside preparing =
      let (e, at, on) = movable m inside preparing in
      let here = subst (λ k. find camera_key k cameras ≡ some c) (sym own) found in
      let changed = find-put_at camera_key m.camera_id d c cameras here in
      elim (Bool-cases (d.id == m.camera_id)) [
        | inr other ↦ (e, rw (changed, other) at, on)
        | inl same ↦
            let id : m.camera_id ≡ c.id = sym ((==_iff d.id m.camera_id).0 same) ∙ own in
            elim state [
              | inl free ↦
                  let idle = any-none (is_active_for c.id) moves m free inside in
                  absurd (ground (arith, (rw (id, preparing) at idle), ==_iff c.id c.id))
              | inr kept ↦
                  let it : e ≡ c =
                    some-injective _ _
                      (sym at ∙ subst (λ k. find camera_key k cameras ≡ some c) (sym id) found) in
                  (
                    d,
                    rw (changed, same) refl,
                    ap is_enabled kept ∙ subst (λ x. is_enabled x.state ≡ true) it on,
                  )
            ]
      ]

  pub placed-IsMovable : (c : CameraPlacement) → IsMovable moves (cameras ++ c ∷ [])
  placed-IsMovable c m inside preparing =
      let (e, at, on) = movable m inside preparing in
      (e, rw (find-append camera_key m.camera_id c cameras, at) refl, on)

  pub advanced-IsMovable :
      (n : CameraMove) → n.state ≢ prepare_target → IsMovable (put_at move_key n moves) cameras
  advanced-IsMovable n moving m inside preparing = elim (In-put_at move_key n m moves inside) [
    | inl e ↦ absurd (moving (ap (λ (x : CameraMove). x.state) (sym e) ∙ preparing))
    | inr old ↦ movable m old preparing
  ]

  pub proposed-IsMovable :
      (n : CameraMove) (c : CameraPlacement)
      → find camera_key n.camera_id cameras ≡ some c
      → is_enabled c.state ≡ true
      → IsMovable (moves ++ n ∷ []) cameras
  proposed-IsMovable n c at on m inside preparing = elim (In-snoc moves n m inside) [
    | inr old ↦ movable m old preparing
    | inl e ↦
        subst
          (λ (x : CameraMove).
            (c : CameraPlacement) × (find camera_key x.camera_id cameras ≡ some c)
            × (is_enabled c.state ≡ true))
          (sym e) (c, at, on)
  ]

pub put-IsApart :
    (n : CameraMove) (moves : List CameraMove)
    → (n.source_node_id == n.target_node_id) ≡ false
    → IsApart moves
    → IsApart (put_at move_key n moves)
put-IsApart n moves here apart m inside = elim (In-put_at move_key n m moves inside) [
  | inl e ↦ subst (λ (x : CameraMove). (x.source_node_id == x.target_node_id) ≡ false) (sym e) here
  | inr old ↦ apart m old
]

pub append-IsApart :
    (n : CameraMove) (moves : List CameraMove)
    → (n.source_node_id == n.target_node_id) ≡ false
    → IsApart moves
    → IsApart (moves ++ n ∷ [])
append-IsApart n moves here apart m inside = elim (In-snoc moves n m inside) [
  | inr old ↦ apart m old
  | inl e ↦ subst (λ (x : CameraMove). (x.source_node_id == x.target_node_id) ≡ false) (sym e) here
]

ported : ℕ → ℕ → CameraPlacement → CameraPlacement
ported node_id port c = if is_live_on node_id c then record c { node_port = port } else c

ported-live :
    (node_id port k : ℕ) (c : CameraPlacement)
    → is_live_on k (ported node_id port c) ≡ is_live_on k c
unfolding ported
ported-live node_id port k c = elim (Bool-cases (is_live_on node_id c)) [
  | inl on ↦ rw on refl
  | inr off ↦ rw off refl
]

ported-id : (node_id port : ℕ) (c : CameraPlacement) → (ported node_id port c).id ≡ c.id
unfolding ported
ported-id node_id port c = elim (Bool-cases (is_live_on node_id c)) [
  | inl on ↦ rw on refl
  | inr off ↦ rw off refl
]

ported-state : (node_id port : ℕ) (c : CameraPlacement) → (ported node_id port c).state ≡ c.state
unfolding ported
ported-state node_id port c = elim (Bool-cases (is_live_on node_id c)) [
  | inl on ↦ rw on refl
  | inr off ↦ rw off refl
]

count-ported :
    (node_id port k : ℕ) (cs : List CameraPlacement)
    → count (is_live_on k) (map (ported node_id port) cs) ≡ count (is_live_on k) cs
count-ported node_id port k [] = refl
count-ported node_id port k (c ∷ cs) = omega (
  arith,
  ap {B = ℕ} (λ b. if b then 1 else 0) (ported-live node_id port k c),
  count-ported node_id port k cs,
)

find-ported :
    (node_id port k : ℕ) (cs : List CameraPlacement) (c : CameraPlacement)
    → find camera_key k cs ≡ some c
    → find camera_key k (map (ported node_id port) cs) ≡ some (ported node_id port c)
unfolding find ported
find-ported node_id port k [] c h = absurd (ground arith)
find-ported node_id port k (d ∷ cs) c h = elim (Bool-cases (d.id == k)) [
  | inl same ↦
      rw (ported-id node_id port d, same)
        (ap (λ o. some (ported node_id port o)) (some-injective _ _ (rw same at h)))
  | inr other ↦
      rw (ported-id node_id port d, other) (find-ported node_id port k cs c (rw other at h))
]

module _ (node_id port : ℕ) (cameras : List CameraPlacement) where
  pub moved-IsCounted :
      (nodes : List MediaNode)
      → IsCounted nodes cameras
      → IsCounted nodes (moved_to_port node_id port cameras)
  unfolding moved_to_port ported
  moved-IsCounted nodes counted k = count-ported node_id port k cameras ∙ counted k

  pub moved-IsMovable :
      (moves : List CameraMove)
      → IsMovable moves cameras
      → IsMovable moves (moved_to_port node_id port cameras)
  unfolding moved_to_port ported
  moved-IsMovable moves movable m inside preparing =
      let (c, at, on) = movable m inside preparing in
      (
        ported node_id port c,
        find-ported node_id port m.camera_id cameras c at,
        ap is_enabled (ported-state node_id port c) ∙ on,
      )
