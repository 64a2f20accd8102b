-- ===== src/Nodes/Runs/Placements.antt =====
-- What holds of the cameras of a registry after any calls.
use rtsp_proxy.Prelude.{
  count-In, ℕ, ◌≤◌, ◌≡◌, refl, ap, ◌∙◌, Bool, true, ◌||◌, Option, none, some, List, [], ◌∷◌, arith,
  count, In, inl, inr, Bool-cases, Option-cases, ==_iff,
}
use rtsp_proxy.Prelude.Errors.{ok}
use rtsp_proxy.Nodes.Kinds.{is_deleting}
use rtsp_proxy.Nodes.Data.{MediaNode, CameraPlacement}
use rtsp_proxy.Nodes.Table.{find, find-In}
use rtsp_proxy.Nodes.Store.{
  Store, Means, create_store, get_node, is_live, is_live_on, node_key, camera_key, camera_of,
  has_active_move,
}
use rtsp_proxy.Nodes.Camera.{is_outdated, marked, applied, mark_camera_applied}
use rtsp_proxy.Nodes.Counts.{IsConsistent, registered_in, held}
use rtsp_proxy.Nodes.Counts.Kept.{Step-IsConsistent}
use rtsp_proxy.Nodes.Runs.{Call, after, run, IsFreshRun, after-Step}

pub empty-IsConsistent : IsConsistent (create_store [])
unfolding create_store find
empty-IsConsistent = record {
  keyed = λ k. omega arith;
  counted = λ k. refl;
  within = λ k n h. absurd (ground arith);
  movable = λ m inside. absurd inside;
  apart = λ m inside. absurd inside;
}

-- The node of a camera that is not deleted.
live-node :
    (s : Store) (c : CameraPlacement)
    → IsConsistent s
    → In c s.cameras
    → is_live c ≡ true
    → (n : MediaNode) × (get_node c.node_id s ≡ some n)
unfolding get_node
live-node s c h inside live =
    let here =
      count-In (is_live_on c.node_id) s.cameras c inside
        (rw ((==_iff c.node_id c.node_id).1 refl, live) refl) in
    elim (Option-cases (find node_key c.node_id s.nodes)) [
      | inr there ↦ there
      | inl absent ↦
          let nothing : registered_in c.node_id s.nodes ≡ 0 = ap held absent in
          absurd (omega (arith, here, nothing, h.counted c.node_id))
    ]

module _ {A : Type 0} (means : Means A) where
  pub run-IsConsistent :
      (calls : List (Call A)) (s : Store)
      → IsFreshRun means calls s
      → IsConsistent s
      → IsConsistent (run means calls s)
  unfolding run
  run-IsConsistent [] s fresh h = h
  run-IsConsistent (c ∷ rest) s fresh h =
      run-IsConsistent rest (after means c s) fresh.1
        (Step-IsConsistent s _ (after-Step means c s h.keyed fresh.0) h)

  module _ (calls : List (Call A)) (fresh : IsFreshRun means calls (create_store [])) where
    consistent : IsConsistent (run means calls (create_store []))
    consistent = run-IsConsistent calls (create_store []) fresh empty-IsConsistent

    -- After any calls, valid or refused, each node counts exactly the cameras that are on it and not
    -- deleted, and these are never more than it has room for, if each new node has a new id.
    pub run_counts :
        (id : ℕ) (n : MediaNode)
        → get_node id (run means calls (create_store [])) ≡ some n
        → (count (is_live_on id) (run means calls (create_store [])).cameras ≡ n.registered_cameras)
          × (n.registered_cameras ≤ n.camera_capacity)
    unfolding get_node
    run_counts id n found = (consistent.counted id ∙ ap held found, consistent.within id n found)

    -- After any calls, a camera that is not deleted is on a node that is there, if each new node has
    -- a new id.
    pub run_housed :
        (c : CameraPlacement)
        → In c (run means calls (create_store [])).cameras
        → is_live c ≡ true
        → (n : MediaNode) × (get_node c.node_id (run means calls (create_store [])) ≡ some n)
    run_housed c inside live = live-node _ c consistent inside live

applied_returns :
    (s : Store) (c : CameraPlacement) (node_id revision : ℕ)
    → IsConsistent s
    → In c s.cameras
    → c.node_id ≡ node_id
    → (b : Bool) × (t : Store) × (applied c node_id revision s ≡ ok (b, t))
unfolding applied
applied_returns s c node_id revision h inside on = elim (Bool-cases (is_deleting c.state)) [
  | inr staying ↦ rw staying (_, _, refl)
  | inl leaving ↦
      let (n, at) = live-node s c h inside (ground arith) in
      let here = rw on at at in rw (leaving, here) (_, _, refl)
]

marked_returns :
    (o : Option CameraPlacement) (s : Store) (id node_id generation revision : ℕ)
    → IsConsistent s
    → camera_of id s ≡ o
    → (b : Bool) × (t : Store) × (marked o node_id generation revision s ≡ ok (b, t))
marked_returns none s id node_id generation revision h e = (_, _, refl)
marked_returns (some c) s id node_id generation revision h e =
    elim (Bool-cases (is_outdated node_id generation revision c || has_active_move c.id s)) [
      | inl out ↦ rw out (_, _, refl)
      | inr ready ↦ rw ready (
          applied_returns s c node_id revision h (find-In camera_key id s.cameras c e)
            (ground (arith, ==_iff c.node_id node_id)))
    ]

-- After any calls, `mark_camera_applied` returns and never fails to find the node of a camera that is
-- being deleted, if each new node has a new id.
pub run-mark_camera_applied_returns :
    {A : Type 0} (means : Means A) (calls : List (Call A)) (id node_id generation revision : ℕ)
    → IsFreshRun means calls (create_store [])
    → (b : Bool) × (t : Store) × (mark_camera_applied id node_id generation revision
          (run means calls (create_store []))
        ≡ ok (b, t))
unfolding mark_camera_applied
run-mark_camera_applied_returns means calls id node_id generation revision fresh =
    marked_returns _ _ id node_id generation revision (consistent means calls fresh) refl
