-- ===== src/Probe/Scheduler/Claim/Current.antt =====
-- The leases of a claim are for targets that are current and eligible.
use rtsp_proxy.Prelude.{
  ℕ, zero, suc, ◌<◌, ◌≡◌, refl, sym, ◌∙◌, ap, subst, Bool, true, false, ◌||◌, Option, none, some,
  List, [], ◌∷◌, inl, inr, arith, Option-cases, Bool-cases, Dict, get, All, All-In, ltb, length,
  ◌==◌,
}
use rtsp_proxy.Prelude.Errors.{Result, ok, err}
use rtsp_proxy.Probe.Data.{ProbeTarget, ProbeRequest, ProbeLease}
use rtsp_proxy.Probe.Eligibility.{require_probe_eligible}
use rtsp_proxy.Probe.Scheduler.State.{Scheduler, queue}
use rtsp_proxy.Probe.Scheduler.Steps.{Step, follow, done}
use rtsp_proxy.Probe.Scheduler.Select.{next_eligible_request}
use rtsp_proxy.Probe.Scheduler.Select.Chosen.{next_eligible_request-IsFirst}
use rtsp_proxy.Probe.Scheduler.Claim.Grant.{IsGranted, Granted, grant_lease-Granted}
use rtsp_proxy.Probe.Scheduler.Claim.Refresh.{
  IsFresh, AreKeyed, HasTarget, refresh_pending_targets-IsFresh,
}
use rtsp_proxy.Probe.Scheduler.Expiry.{expire_active, drop_expired_pending}
use rtsp_proxy.Probe.Scheduler.Claim.{
  grant_lease, claim_chosen, claim_round, while_room, claim_loop, run_claims, claim_refreshed,
  claim_locked, claim_available, refresh_pending_targets, target_mismatch, pending_count,
}
use rtsp_proxy.Probe.Scheduler.Claim.Queues.{eligible-mem, mem-All, Kept, grant_lease-Kept}

-- The lease is for the target that the caller passed as current for its camera, that target may
-- be probed by the method of the lease, and the lease begins now and has not ended.
pub record IsClaimed (targets : Dict ProbeTarget) (now : ℕ) (l : ProbeLease) : Type 0 where
  pub current : get l.target.camera_id targets ≡ some l.target
  pub eligible_now : require_probe_eligible l.target l.method ≡ ok tt
  pub starts_now : l.started_at ≡ now
  pub not_ended : now < l.lease_expires_at

abbrev pub AllClaimed : Dict ProbeTarget → ℕ → Result (List ProbeLease) → Type 0
AllClaimed targets now (ok leases) = All (IsClaimed targets now) leases
AllClaimed targets now (err e) = Unit

module _ (targets : Dict ProbeTarget) (now : ℕ) where
  add-AllClaimed :
      (l : ProbeLease) (r : Result (List ProbeLease)) (t : Scheduler)
      → IsClaimed targets now l
      → AllClaimed targets now r
      → AllClaimed targets now (follow r (λ ls. done (l ∷ ls)) t).0
  add-AllClaimed l (ok ls) t c all = (c, all)
  add-AllClaimed l (err e) t c all = tt

  granted-IsClaimed :
      (s t : Scheduler) (r : ProbeRequest) (l : ProbeLease) (target : ProbeTarget)
      → get r.target.camera_id targets ≡ some target
      → IsFresh targets r
      → IsGranted now r s l t
      → IsClaimed targets now l
  granted-IsClaimed s t r l target e fresh g =
      let (same, fits) = fresh target e in
      let is_current : get r.target.camera_id targets ≡ some r.target = e ∙ ap some (sym same) in
      let may : require_probe_eligible r.target r.method ≡ ok tt =
        subst (λ x. require_probe_eligible x r.method ≡ ok tt) (sym same) fits in
      record {
        current =
            subst (λ (x : ProbeTarget). get x.camera_id targets ≡ some x) (sym g.lease.same_target)
              is_current;
        eligible_now = rw (g.lease.same_target, g.lease.same_method) may;
        starts_now = g.lease.starts_now;
        not_ended = g.lease.not_empty;
      }

  abbrev AnswersClaimed : Step (List ProbeLease) → Type 0
  AnswersClaimed m = (s : Scheduler) → Kept (IsFresh targets) s → AllClaimed targets now (m s).0

  after_lease :
      (r : ProbeRequest) (s : Scheduler) (rest : ProbeLease → Step (List ProbeLease))
      (out : Result ProbeLease × Scheduler)
      → Granted now r s out
      → Kept (IsFresh targets) out.1
      → ((l : ProbeLease) (t : Scheduler)
          → IsGranted now r s l t
          → Kept (IsFresh targets) t
          → AllClaimed targets now (rest l t).0)
      → AllClaimed targets now (follow out.0 rest out.1).0
  after_lease r s rest (ok l, t) g kept go = go l t g kept
  after_lease r s rest (err e, t) g kept go = tt

  module _ (admitted : List ℕ) (known : All (HasTarget targets) admitted) where
    chosen-IsFresh :
        (s : Scheduler) (r : ProbeRequest)
        → Kept (IsFresh targets) s
        → (next_eligible_request s now admitted).0 ≡ some r
        → (target : ProbeTarget) × (get r.target.camera_id targets ≡ some target)
          × IsFresh targets r
    chosen-IsFresh s r kept h =
        let (p, queued, fits, _) = next_eligible_request-IsFirst s now admitted r h in
        let has =
          mem-All (HasTarget targets) r.target.camera_id admitted
            (eligible-mem s now admitted r fits) known in
        elim (Option-cases (get r.target.camera_id targets)) [
          | inl missing ↦ absurd (ground arith)
          | inr (target, e) ↦
              (target, e, All-In (IsFresh targets) (queue s.pending p) r (kept p) queued)
        ]

    claim_chosen-claimed :
        (chosen : Option ProbeRequest) (s : Scheduler) (rest : ProbeLease → Step (List ProbeLease))
        → ((r : ProbeRequest)
            → chosen ≡ some r
            → (target : ProbeTarget) × (get r.target.camera_id targets ≡ some target)
              × IsFresh targets r)
        → ((l : ProbeLease) → IsClaimed targets now l → AnswersClaimed (rest l))
        → Kept (IsFresh targets) s
        → AllClaimed targets now (claim_chosen now chosen rest s).0
    unfolding claim_chosen
    claim_chosen-claimed none s rest fresh go kept = tt
    claim_chosen-claimed (some r) s rest fresh go kept =
        let (target, e, is_fresh) = fresh r refl in
        after_lease r s rest (grant_lease now r s) (grant_lease-Granted now r s)
          ((grant_lease-Kept (IsFresh targets) now r).at s kept)
          λ l t g k. go l (granted-IsClaimed s t r l target e is_fresh g) t k

    while_room-claimed :
        (test : Bool) (round : Step (List ProbeLease))
        → AnswersClaimed round
        → AnswersClaimed (while_room test round)
    unfolding while_room
    while_room-claimed false round h s kept = tt
    while_room-claimed true round h s kept = h s kept

    claim_loop-claimed : (fuel : ℕ) → AnswersClaimed (claim_loop fuel now admitted)
    unfolding claim_loop claim_round
    claim_loop-claimed zero s kept = tt
    claim_loop-claimed (suc fuel) s kept =
        while_room-claimed (ltb (length s.active) s.settings.global_limit) _
          (λ t k.
            claim_chosen-claimed (next_eligible_request t now admitted).0 _ _
              (λ r h. chosen-IsFresh t r k h)
              (λ l c u ku.
                add-AllClaimed l (claim_loop fuel now admitted u).0 _ c
                  (claim_loop-claimed fuel u ku))
              k)
          s kept

target_mismatch-AreKeyed :
    (targets : Dict ProbeTarget) → target_mismatch targets ≡ false → AreKeyed targets
unfolding target_mismatch get
target_mismatch-AreKeyed [] h k t e = absurd (ground arith)
target_mismatch-AreKeyed ((j, u) ∷ rest) h k t e = elim (Bool-cases (j == k)) [
  | inl same ↦ ground arith
  | inr other ↦ target_mismatch-AreKeyed rest (ground arith) k t (rw other at e)
]

claim_refreshed-claimed :
    (now : ℕ) (targets : Dict ProbeTarget) (s : Scheduler)
    → AreKeyed targets
    → AllClaimed targets now (claim_refreshed now targets s).0
unfolding claim_refreshed run_claims
claim_refreshed-claimed now targets s keyed =
    let (fresh, known) = refresh_pending_targets-IsFresh targets keyed s in
    claim_loop-claimed targets now (refresh_pending_targets targets s).0 known
      (suc (pending_count (refresh_pending_targets targets s).1)) _ fresh

follow-claimed :
    (now : ℕ) (targets : Dict ProbeTarget) (out : Result (Unit {0}) × Scheduler)
    → AreKeyed targets
    → AllClaimed targets now
        (follow out.0 (λ _ s. claim_refreshed now targets (drop_expired_pending now s)) out.1).0
follow-claimed now targets (ok u, s) keyed = claim_refreshed-claimed now targets _ keyed
follow-claimed now targets (err e, s) keyed = tt

-- Every lease that a claim returns is for the target that the caller passed as current for the
-- lease's camera; that target may be probed by the lease's method, and the lease begins now and
-- ends later.
pub claim_available-current :
    (now : ℕ) (targets : Dict ProbeTarget) (s : Scheduler)
    → AllClaimed targets now (claim_available now targets s).0
unfolding claim_available claim_locked
claim_available-current now targets s =
    elim (Bool-cases (ltb s.settings.queue_limit (length targets) || target_mismatch targets)) [
      | inl invalid ↦ rw invalid tt
      | inr valid ↦ rw valid (
          follow-claimed now targets (expire_active now s)
            (target_mismatch-AreKeyed targets (ground arith)))
    ]
