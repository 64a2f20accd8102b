-- ===== src/Nodes/Runs/Moves.antt =====
-- What becomes of the moves of a registry, whatever is called.
use rtsp_proxy.Prelude.{
  ℕ, ◌≡◌, refl, sym, ap, subst, ◌∙◌, true, some, List, [], ◌∷◌, arith, inl, inr, Bool-cases, ◌==◌,
  ==_iff,
}
use mathlib.Core.Option.{some-injective}
use rtsp_proxy.Nodes.Kinds.{
  CameraMoveState, prepare_target, cleanup_source, camera_move_is_terminal,
}
use rtsp_proxy.Nodes.Data.{CameraMove}
use rtsp_proxy.Nodes.Table.{find, put_at, find-put_at, find-append}
use rtsp_proxy.Nodes.Store.{Store, Means, create_store, get_camera_move, move_key}
use rtsp_proxy.Nodes.Move.{switched}
use rtsp_proxy.Nodes.Steps.{
  IsSameMove-advanced, Step, stays, also, node_requests, camera_requests, node_revised, node_added,
  node_removed, camera_placed, camera_revised, camera_retired, move_proposed, move_advanced,
  camera_switched, change_begun, change_completed, change_aborted, Advances, gives_up,
  cleans_source, ends, undoes, IsSameMove,
}
use rtsp_proxy.Nodes.Counts.{IsConsistent}
use rtsp_proxy.Nodes.Counts.Kept.{Step-IsConsistent}
use rtsp_proxy.Nodes.Runs.{Call, after, run, IsFreshRun, after-Step}
use rtsp_proxy.Nodes.Runs.Placements.{run-IsConsistent, empty-IsConsistent}

-- The ways of a move: it is switched and then cleaned up, activated and completed, or it is given
-- up, undone and aborted.
pub data Leads : CameraMoveState → CameraMoveState → Type 0 where
  stands : (a : CameraMoveState) → Leads a a
  goes : (a b c : CameraMoveState) → Leads a b → Advances b c → Leads a c
  is_switched : (a : CameraMoveState) → Leads a prepare_target → Leads a cleanup_source

Leads-trans : (a b c : CameraMoveState) → Leads a b → Leads b c → Leads a c
Leads-trans a _ _ h (stands b) = h
Leads-trans a _ _ h (goes b c d l w) = goes a c d (Leads-trans a b c h l) w
Leads-trans a _ _ h (is_switched b l) = is_switched a (Leads-trans a b prepare_target h l)

-- A move that has ended leads nowhere.
Leads-terminal : (a b : CameraMoveState) → Leads a b → camera_move_is_terminal a ≡ true → b ≡ a
Leads-terminal _ _ (stands a) h = refl
Leads-terminal _ _ (goes a _ _ l gives_up) h =
    absurd (ground (arith, ap camera_move_is_terminal (Leads-terminal a _ l h)))
Leads-terminal _ _ (goes a _ _ l cleans_source) h =
    absurd (ground (arith, ap camera_move_is_terminal (Leads-terminal a _ l h)))
Leads-terminal _ _ (goes a _ _ l ends) h =
    absurd (ground (arith, ap camera_move_is_terminal (Leads-terminal a _ l h)))
Leads-terminal _ _ (goes a _ _ l undoes) h =
    absurd (ground (arith, ap camera_move_is_terminal (Leads-terminal a _ l h)))
Leads-terminal _ _ (is_switched a l) h =
    absurd (ground (arith, ap camera_move_is_terminal (Leads-terminal a _ l h)))

-- The move is still recorded, and has gone on by its ways.
pub record IsFollowed (id : ℕ) (t : Store) (m : CameraMove) : Type 0 where
  pub now : CameraMove
  pub found : get_camera_move id t ≡ some now
  pub same : IsSameMove m now
  pub way : Leads m.state now.state

IsSameMove-refl : (m : CameraMove) → IsSameMove m m
IsSameMove-refl m = IsSameMove-advanced m m.abort_reason m.state

IsSameMove-trans : (m n o : CameraMove) → IsSameMove m n → IsSameMove n o → IsSameMove m o
IsSameMove-trans m n o h k = record {
  id = k.id ∙ h.id;
  camera_id = k.camera_id ∙ h.camera_id;
  source_node_id = k.source_node_id ∙ h.source_node_id;
  target_node_id = k.target_node_id ∙ h.target_node_id;
  source_generation = k.source_generation ∙ h.source_generation;
  target_generation = k.target_generation ∙ h.target_generation;
  desired_revision = k.desired_revision ∙ h.desired_revision;
}

kept : (id : ℕ) (t : Store) (m : CameraMove) → get_camera_move id t ≡ some m → IsFollowed id t m
kept id t m found = record {
  now = m;
  found = found;
  same = IsSameMove-refl m;
  way = stands m.state;
}

IsFollowed-trans :
    (id : ℕ) (t u : Store) (m : CameraMove) (f : IsFollowed id t m)
    → IsFollowed id u f.now
    → IsFollowed id u m
IsFollowed-trans id t u m f g = record {
  now = g.now;
  found = g.found;
  same = IsSameMove-trans m f.now g.now f.same g.same;
  way = Leads-trans m.state f.now.state g.now.state f.way g.way;
}

-- A move that is written over the one it goes on.
replaced :
    (id : ℕ) (t : Store) (moves : List CameraMove) (m n o : CameraMove)
    → t.camera_moves ≡ put_at move_key n moves
    → find move_key m.id moves ≡ some m
    → IsSameMove m n
    → Leads m.state n.state
    → find move_key id moves ≡ some o
    → IsFollowed id t o
unfolding get_camera_move
replaced id t moves m n o e found same way at =
    let here = subst (λ k. find move_key k moves ≡ some m) (sym same.id) found in
    elim (Bool-cases (n.id == id)) [
      | inr other ↦ kept id t o (rw (e, find-put_at move_key id n m moves here, other) at)
      | inl hit ↦
          let it : m ≡ o = some-injective _ _ (
            sym found
            ∙ subst (λ k. find move_key k moves ≡ some o)
                (sym (sym same.id ∙ (==_iff n.id id).0 hit)) at) in
          subst (IsFollowed id t) it (record {
            now = n;
            found = rw (e, find-put_at move_key id n m moves here, hit) refl;
            same = same;
            way = way;
          })
    ]

Step-IsFollowed :
    (id : ℕ) (s t : Store) (m : CameraMove)
    → Step s t
    → get_camera_move id s ≡ some m
    → IsFollowed id t m
unfolding get_camera_move switched
Step-IsFollowed id _ _ m (stays s) h = kept id s m h
Step-IsFollowed id _ _ m (also s t u first second) h =
    let f = Step-IsFollowed id s t m first h in
    IsFollowed-trans id t u m f (Step-IsFollowed id t u f.now second f.found)
Step-IsFollowed id _ _ m (node_requests s r) h = kept id _ m h
Step-IsFollowed id _ _ m (camera_requests s r) h = kept id _ m h
Step-IsFollowed id _ _ m (node_revised s _ _ _ _) h = kept id _ m h
Step-IsFollowed id _ _ m (node_added s _ _ _ _ _ _ _ _) h = kept id _ m h
Step-IsFollowed id _ _ m (node_removed s _ _ _) h = kept id _ m h
Step-IsFollowed id _ _ m (camera_placed s _ _ _ _ _ _ _ _) h = kept id _ m h
Step-IsFollowed id _ _ m (camera_revised s _ _ _ _) h = kept id _ m h
Step-IsFollowed id _ _ m (camera_retired s _ _ _ _ _ _ _) h = kept id _ m h
Step-IsFollowed id _ _ m (move_proposed s c n p) h =
    kept id _ m (rw (find-append move_key id n s.camera_moves, h) refl)
Step-IsFollowed id _ _ m (move_advanced s n o found same way) h =
    replaced id _ s.camera_moves n o m refl found same
      (goes n.state n.state o.state (stands n.state) way) h
Step-IsFollowed id _ _ m (camera_switched s n c source target q) h =
    replaced id (switched n c source target s) s.camera_moves n
      (record n { state = cleanup_source }) m refl q.move
      (IsSameMove-advanced n n.abort_reason cleanup_source)
      (rw q.state (is_switched prepare_target (stands prepare_target))) h
Step-IsFollowed id _ _ m (change_begun s _ _ _) h = kept id _ m h
Step-IsFollowed id _ _ m (change_completed s _ _ _ _ _ _ _) h = kept id _ m h
Step-IsFollowed id _ _ m (change_aborted s _ _ _ _ _ _ _) h = kept id _ m h

module _ {A : Type 0} (means : Means A) where
  runs_follow :
      (calls : List (Call A)) (s : Store) (id : ℕ) (m : CameraMove)
      → IsFreshRun means calls s
      → IsConsistent s
      → get_camera_move id s ≡ some m
      → IsFollowed id (run means calls s) m
  unfolding run
  runs_follow [] s id m fresh h found = kept id s m found
  runs_follow (c ∷ rest) s id m fresh h found =
      let step = after-Step means c s h.keyed fresh.0 in
      let f = Step-IsFollowed id s _ m step found in
      IsFollowed-trans id _ _ m f
        (runs_follow rest (after means c s) id f.now fresh.1 (Step-IsConsistent s _ step h) f.found)

  module _ (before later : List (Call A)) (id : ℕ) (m : CameraMove)
      (first : IsFreshRun means before (create_store []))
      (second : IsFreshRun means later (run means before (create_store [])))
      (found : get_camera_move id (run means before (create_store [])) ≡ some m) where
    -- A move that is recorded after some calls is still recorded after any more, with the same
    -- camera, nodes, generations and revision, and its state has gone on only by the ways of a move.
    -- Each new node has a new id.
    pub run_follows_moves : IsFollowed id (run means later (run means before (create_store []))) m
    run_follows_moves =
        runs_follow later _ id m second
          (run-IsConsistent means before (create_store []) first empty-IsConsistent) found

    -- A move that is complete or aborted after some calls is in the same state after any more. Each
    -- new node has a new id.
    pub run_ended_moves :
        camera_move_is_terminal m.state ≡ true
        → (n : CameraMove) × (get_camera_move id
              (run means later (run means before (create_store [])))
            ≡ some n)
          × (n.state ≡ m.state)
    run_ended_moves ended =
        let f = run_follows_moves in
        (f.now, f.found, Leads-terminal m.state f.now.state f.way ended)
