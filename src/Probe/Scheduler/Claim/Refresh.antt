-- ===== src/Probe/Scheduler/Claim/Refresh.antt =====
-- After `_refresh_pending_targets` the pending requests carry the current targets.
use rtsp_proxy.Prelude.{
  ℕ, ◌≡◌, ◌≢◌, refl, ◌∙◌, ap, subst, Bool, true, false, not, Option, none, some, List, [], ◌∷◌,
  arith, Dict, get, All, All-append, if◌then◌else◌, is_some,
}
use rtsp_proxy.Prelude.Errors.{Result, ok, err}
use rtsp_proxy.Probe.Kinds.{ProbePriority, manual, confirmation, routine}
use rtsp_proxy.Probe.Data.{ProbeTarget, ProbeRequest}
use rtsp_proxy.Probe.Identity.{same_probe_generation}
use rtsp_proxy.Probe.Eligibility.{require_probe_eligible}
use rtsp_proxy.Probe.Scheduler.State.{Scheduler, Pending, queue}
use rtsp_proxy.Probe.Scheduler.Claim.{
  Refreshed, kept, renewed, dropped, refresh, refresh_one, refresh_queue, refresh_at,
  refresh_pending_targets, reject, is_ok,
}

module _ (targets : Dict ProbeTarget) where
  -- A pending request whose camera has a current target carries it, and may be probed.
  abbrev pub IsFresh : ProbeRequest → Type 0
  IsFresh r =
      (t : ProbeTarget)
      → get r.target.camera_id targets ≡ some t
      → (r.target ≡ t) × (require_probe_eligible t r.method ≡ ok tt)

  abbrev pub AreFresh : Pending → Type 0
  AreFresh p = (priority : ProbePriority) → All IsFresh (queue p priority)

  -- Each key stands for the target of that camera.
  abbrev pub AreKeyed : Type 0
  AreKeyed = (k : ℕ) (t : ProbeTarget) → get k targets ≡ some t → k ≡ t.camera_id

  abbrev refreshed : ProbeRequest → Scheduler → List ProbeRequest × List ℕ × Scheduler
  refreshed r s = refresh_one (refresh (get r.target.camera_id targets) r) r s

  renewed-IsFresh :
      AreKeyed
      → (r : ProbeRequest) (t : ProbeTarget) → get r.target.camera_id targets ≡ some t
      → require_probe_eligible t r.method ≡ ok tt
      → IsFresh (record r { target = t })
  renewed-IsFresh keyed r t e fit u h =
      let here : get t.camera_id targets ≡ some t =
        subst (λ k. get k targets ≡ some t) (keyed r.target.camera_id t e) e in
      let same : t ≡ u = ground arith in
      (same, subst (λ x. require_probe_eligible x r.method ≡ ok tt) same fit)

  abbrev pub HasTarget : ℕ → Type 0
  HasTarget k = is_some (get k targets) ≡ true

  -- What stays of a request is fresh, and what it admits has a target.
  abbrev Good : List ProbeRequest × List ℕ × Scheduler → Type 0
  Good (l, admitted, t) = All IsFresh l × All HasTarget admitted

  by_tests :
      AreKeyed
      → (r : ProbeRequest) (s : Scheduler) (t : ProbeTarget) (changed : Bool)
        (fit : Result (Unit {0}))
      → get r.target.camera_id targets ≡ some t
      → require_probe_eligible t r.method ≡ fit
      → Good
          (refresh_one (if changed then dropped else if is_ok fit then renewed t else dropped) r s)
  unfolding refresh_one reject
  by_tests keyed r s t true fit e f = (tt, tt)
  by_tests keyed r s t false (err x) e f = (tt, tt)
  by_tests keyed r s t false (ok u) e f = (
    (renewed-IsFresh keyed r t e f, tt),
    (
      let here : get t.camera_id targets ≡ some t =
            subst (λ k. get k targets ≡ some t) (keyed r.target.camera_id t e) e in
          rw here refl,
      tt,
    ),
  )

  refreshed-Good : AreKeyed → (r : ProbeRequest) (s : Scheduler) → Good (refreshed r s)
  unfolding refresh
  refreshed-Good keyed r s = go (get r.target.camera_id targets) refl
    where
      go :
          (o : Option ProbeTarget)
          → get r.target.camera_id targets ≡ o
          → Good (refresh_one (refresh o r) r s)
      go none e = unfold refresh_one in (((λ t h. absurd (ground arith)), tt), tt)
      go (some t) e =
          by_tests keyed r s t (not (same_probe_generation r.target t))
            (require_probe_eligible t r.method) e refl

  refresh_queue-Good :
      AreKeyed → (q : List ProbeRequest) (s : Scheduler) → Good (refresh_queue targets q s)
  unfolding refresh_queue
  refresh_queue-Good keyed [] s = (tt, tt)
  refresh_queue-Good keyed (r ∷ rest) s =
      let one = refreshed-Good keyed r s in
      let others = refresh_queue-Good keyed rest (refreshed r s).2 in
      (
        All-append IsFresh (refreshed r s).0 _ one.0 others.0,
        All-append HasTarget (refreshed r s).1 _ one.1 others.1,
      )

  pending-refresh_one :
      (d : Refreshed) (r : ProbeRequest) (s : Scheduler) → (refresh_one d r s).2.pending ≡ s.pending
  unfolding refresh_one reject
  pending-refresh_one kept r s = refl
  pending-refresh_one (renewed t) r s = refl
  pending-refresh_one dropped r s = refl

  pending-refresh_queue :
      (q : List ProbeRequest) (s : Scheduler) → (refresh_queue targets q s).2.pending ≡ s.pending
  unfolding refresh_queue
  pending-refresh_queue [] s = refl
  pending-refresh_queue (r ∷ rest) s =
      pending-refresh_queue rest (refreshed r s).2
      ∙ pending-refresh_one (refresh (get r.target.camera_id targets) r) r s

  refresh_queue_parts :
      AreKeyed
      → (q : List ProbeRequest) (s : Scheduler)
      → All IsFresh (refresh_queue targets q s).0 × All HasTarget (refresh_queue targets q s).1
  refresh_queue_parts keyed q s = refresh_queue-Good keyed q s

  -- A queue is fresh after its turn, and the others stay as they are.
  refresh_at-IsFresh :
      AreKeyed
      → (p : ProbePriority) (s : Scheduler)
      → All IsFresh (queue (refresh_at targets p s).1.pending p)
        × All HasTarget (refresh_at targets p s).0
  unfolding refresh_at
  refresh_at-IsFresh keyed manual s = refresh_queue_parts keyed (queue s.pending manual) s
  refresh_at-IsFresh keyed confirmation s =
      refresh_queue_parts keyed (queue s.pending confirmation) s
  refresh_at-IsFresh keyed routine s = refresh_queue_parts keyed (queue s.pending routine) s

  after_manual :
      (s : Scheduler)
      → (p : ProbePriority) → p ≢ manual
      → queue (refresh_at targets manual s).1.pending p ≡ queue s.pending p
  unfolding refresh_at
  after_manual s manual n = absurd (n refl)
  after_manual s confirmation n =
      ap (λ (x : Pending). x.confirmation_queue) (pending-refresh_queue (queue s.pending manual) s)
  after_manual s routine n =
      ap (λ (x : Pending). x.routine_queue) (pending-refresh_queue (queue s.pending manual) s)

  after_confirmation :
      (s : Scheduler)
      → (p : ProbePriority) → p ≢ confirmation
      → queue (refresh_at targets confirmation s).1.pending p ≡ queue s.pending p
  unfolding refresh_at
  after_confirmation s confirmation n = absurd (n refl)
  after_confirmation s manual n =
      ap (λ (x : Pending). x.manual_queue) (pending-refresh_queue (queue s.pending confirmation) s)
  after_confirmation s routine n =
      ap (λ (x : Pending). x.routine_queue) (pending-refresh_queue (queue s.pending confirmation) s)

  after_routine :
      (s : Scheduler)
      → (p : ProbePriority) → p ≢ routine
      → queue (refresh_at targets routine s).1.pending p ≡ queue s.pending p
  unfolding refresh_at
  after_routine s routine n = absurd (n refl)
  after_routine s manual n =
      ap (λ (x : Pending). x.manual_queue) (pending-refresh_queue (queue s.pending routine) s)
  after_routine s confirmation n =
      ap (λ (x : Pending). x.confirmation_queue) (pending-refresh_queue (queue s.pending routine) s)

  pub refresh_pending_targets-IsFresh :
      AreKeyed
      → (s : Scheduler)
      → AreFresh (refresh_pending_targets targets s).1.pending
        × All HasTarget (refresh_pending_targets targets s).0
  unfolding refresh_pending_targets
  refresh_pending_targets-IsFresh keyed s =
      let s1 = (refresh_at targets manual s).1 in
      let s2 = (refresh_at targets confirmation s1).1 in
      let m = refresh_at-IsFresh keyed manual s in
      let c = refresh_at-IsFresh keyed confirmation s1 in
      let r = refresh_at-IsFresh keyed routine s2 in
      let m2 : All IsFresh (queue s2.pending manual) =
        rw (after_confirmation s1 manual (λ e. cc)) m.0 in
      (
        (elim [
          | manual ↦ rw (after_routine s2 manual (λ e. cc)) m2
          | confirmation ↦ rw (after_routine s2 confirmation (λ e. cc)) c.0
          | routine ↦ r.0
        ]),
        All-append HasTarget _ _ m.1 (All-append HasTarget _ _ c.1 r.1),
      )
