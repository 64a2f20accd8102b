-- ===== src/Probe/Scheduler/Finish/Fencing.antt =====
-- A lease ends only as it was granted.
use rtsp_proxy.Prelude.{
  ℕ, ◌≡◌, refl, true, false, Option, none, some, inl, inr, Bool-cases, ◌&&◌, arith, get, pop, ap,
  eqb→eq, eqb_refl, ==_iff,
}
use rtsp_proxy.Prelude.Errors.{Error, err, value_error}
use rtsp_proxy.Probe.Data.{ProbeLease, ProbeRequest, ProbeExecutionResult}
use rtsp_proxy.Probe.Identity.{ProbeLease-discrete}
use rtsp_proxy.Probe.Scheduler.State.{Scheduler}
use rtsp_proxy.Probe.Scheduler.Finish.{
  is_lease, is_request, in_window, holds, release, complete, cancel,
}

-- The lease stands under its request's id exactly as it was granted, and the request of its camera
-- is the one that it was granted for.
pub record IsCurrent (s : Scheduler) (l : ProbeLease) : Type 0 where
  pub active : get l.request_id s.active ≡ some l
  pub request :
      (r : ProbeRequest) × (get l.target.camera_id s.requests_by_camera ≡ some r)
      × (r.request_id ≡ l.request_id)

is_lease-eq : (o : Option ProbeLease) (l : ProbeLease) → is_lease o l ≡ true → o ≡ some l
is_lease-eq none l h = cc
is_lease-eq (some k) l h = ap some (eqb→eq ProbeLease-discrete k l h)

is_request-eq :
    (o : Option ProbeRequest) (id : ℕ)
    → is_request o id ≡ true
    → (r : ProbeRequest) × (o ≡ some r) × (r.request_id ≡ id)
is_request-eq none id h = absurd (ground arith)
is_request-eq (some r) id h = (r, refl, ground arith)

abbrev refused_lease : Error
refused_lease = value_error "probe_lease_invalid"

holds-IsCurrent : (s : Scheduler) (l : ProbeLease) → holds s l ≡ true → IsCurrent s l
unfolding holds
holds-IsCurrent s l h = record {
  active = is_lease-eq (get l.request_id s.active) l (ground arith);
  request = is_request-eq (get l.target.camera_id s.requests_by_camera) l.request_id (ground arith);
}

IsCurrent-tests :
    (s : Scheduler) (l : ProbeLease)
    → IsCurrent s l
    → (is_lease (get l.request_id s.active) l ≡ true)
      × (is_request (get l.target.camera_id s.requests_by_camera) l.request_id ≡ true)
IsCurrent-tests s l c =
    let (r, e, same) = c.request in
    (rw c.active (eqb_refl ProbeLease-discrete l), rw e ((==_iff _ _).1 same))

-- Where the lease is not current or the result lies outside its time, `complete` raises and
-- changes nothing.
complete_refuses :
    (l : ProbeLease) (r : ProbeExecutionResult) (s : Scheduler)
    → (IsCurrent s l → in_window l r ≡ false)
    → complete l r s ≡ (err refused_lease, s)
unfolding complete
complete_refuses l r s outside =
    elim (Bool-cases (
      is_lease (get l.request_id s.active) l
      && in_window l r
      && is_request (get l.target.camera_id s.requests_by_camera) l.request_id)) [
        | inr stale ↦ rw stale
        | inl exact ↦ absurd (
            let current = holds-IsCurrent s l (unfold holds in ground arith) in
            let outside' = outside current in ground arith)
      ]

-- To cancel a lease that is not current raises and changes nothing.
cancel_refuses :
    (l : ProbeLease) (s : Scheduler) → ¬ IsCurrent s l → cancel l s ≡ (err refused_lease, s)
unfolding cancel
cancel_refuses l s not_current = elim (Bool-cases (holds s l)) [
  | inr stale ↦ rw stale
  | inl exact ↦ absurd (not_current (holds-IsCurrent s l exact))
]

-- What the ends of a current lease leave.
pub complete_active :
    (l : ProbeLease) (r : ProbeExecutionResult) (s : Scheduler)
    → IsCurrent s l
    → in_window l r ≡ true
    → ((complete l r s).1.active ≡ pop l.request_id s.active)
      × ((complete l r s).1.ids ≡ s.ids)
      × ((complete l r s).1.tokens_drawn ≡ s.tokens_drawn)
unfolding complete release
complete_active l r s c w = ground (arith, IsCurrent-tests s l c)

pub cancel_active :
    (l : ProbeLease) (s : Scheduler)
    → IsCurrent s l
    → ((cancel l s).1.active ≡ pop l.request_id s.active)
      × ((cancel l s).1.ids ≡ s.ids)
      × ((cancel l s).1.tokens_drawn ≡ s.tokens_drawn)
unfolding cancel holds release
cancel_active l s c = ground (arith, IsCurrent-tests s l c)

-- `t` is a state in which the lease is refused, whichever way it is ended.
pub record IsSpent (l : ProbeLease) (t : Scheduler) : Type 0 where
  pub no_completion : (r : ProbeExecutionResult) → complete l r t ≡ (err refused_lease, t)
  pub no_cancel : cancel l t ≡ (err refused_lease, t)

pub stale-IsSpent : (l : ProbeLease) (t : Scheduler) → ¬ IsCurrent t l → IsSpent l t
stale-IsSpent l t stale = record {
  no_completion = λ r. complete_refuses l r t (λ c. absurd (stale c));
  no_cancel = cancel_refuses l t stale;
}
