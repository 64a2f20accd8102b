-- ===== src/Probe/Scheduler/Claim/Grant.antt =====
-- What the grant of one lease does to the leases.
use rtsp_proxy.Prelude.{
  ℕ, ◌+◌, ◌≤◌, ◌≡◌, refl, ◌∙◌, ap, subst, Bool, count, values, arith, if◌then◌else◌, count-put-le,
  inl, inr, ◌<◌,
}
use rtsp_proxy.Prelude.Errors.{Result, ok, err, Result-cases}
use rtsp_proxy.Probe.Data.{ProbeRequest, ProbeLease, checked_lease}
use rtsp_proxy.Probe.Scheduler.State.{Scheduler, Settings}
use rtsp_proxy.Probe.Scheduler.Steps.{follow}
use rtsp_proxy.Probe.Scheduler.Budget.{
  Narrows, Narrows-refl, Narrows-same, Narrows-trans, IsNarrowing, IsNarrowing-bind,
  IsNarrowing-modify,
}
use rtsp_proxy.Probe.Scheduler.Claim.{
  next_attempt, draw_token, take_pending, count_attempt, prepare, lease_for, activate, grant_lease,
}

take_pending-IsNarrowing : (r : ProbeRequest) → IsNarrowing (take_pending r)
unfolding take_pending
take_pending-IsNarrowing r =
    IsNarrowing-bind _ _ (record { at = λ s. Narrows-refl s })
      λ rest. IsNarrowing-modify _ (λ s. Narrows-same s _ refl refl refl refl (omega arith))

count_attempt-IsNarrowing : (r : ProbeRequest) → IsNarrowing (count_attempt r)
unfolding count_attempt
count_attempt-IsNarrowing r =
    IsNarrowing-bind (λ s. (next_attempt r s, s)) _ (record { at = λ s. Narrows-refl s })
      λ n. record { at = λ s. Narrows-same s _ refl refl refl refl (omega arith) }

prepare-IsNarrowing : (r : ProbeRequest) → IsNarrowing (prepare r)
unfolding prepare draw_token
prepare-IsNarrowing r = IsNarrowing-bind (take_pending r) _ (take_pending-IsNarrowing r) λ _.
    IsNarrowing-bind (count_attempt r) _ (count_attempt-IsNarrowing r)
      λ n. record { at = λ s. Narrows-same s _ refl refl refl refl (omega arith) }

-- What a lease is that the loop hands out at `now` for a request.
pub record IsLeaseOf (now duration : ℕ) (r : ProbeRequest) (l : ProbeLease) : Type 0 where
  pub same_request : l.request_id ≡ r.request_id
  pub same_target : l.target ≡ r.target
  pub same_method : l.method ≡ r.method
  pub same_priority : l.priority ≡ r.priority
  pub starts_now : l.started_at ≡ now
  pub not_empty : now < l.lease_expires_at
  pub by_deadline : l.lease_expires_at ≤ r.deadline_at
  pub by_duration : l.lease_expires_at ≤ now + duration
  pub attempt_range : (1 ≤ l.attempt) × (l.attempt ≤ 10)

-- The state after a grant: a lease more, or an exception and none.
pub record IsGranted (now : ℕ) (r : ProbeRequest) (s : Scheduler) (l : ProbeLease) (t : Scheduler)
    : Type 0 where
  pub settings : t.settings ≡ s.settings
  pub lease : IsLeaseOf now s.settings.lease r l
  pub one_more :
      (p : ProbeLease → Bool)
      → count p (values t.active) ≤ count p (values s.active) + (if p l then 1 else 0)

abbrev pub Granted : ℕ → ProbeRequest → Scheduler → Result ProbeLease × Scheduler → Type 0
Granted now r s (ok l, t) = IsGranted now r s l t
Granted now r s (err e, t) = Narrows s t

checked-IsLeaseOf :
    (now duration : ℕ) (r : ProbeRequest) (numbers : ℕ × ℕ) (l : ProbeLease)
    → checked_lease (lease_for now r duration numbers) ≡ ok l
    → IsLeaseOf now duration r l
unfolding checked_lease
checked-IsLeaseOf now duration r (attempt, token) l h = ground arith

activate-Granted :
    (now : ℕ) (r : ProbeRequest) (numbers : ℕ × ℕ) (s : Scheduler)
    → Granted now r s (activate now r numbers s)
unfolding activate
activate-Granted now r numbers s =
    elim (Result-cases (checked_lease (lease_for now r s.settings.lease numbers))) [
      | inl (l, e) ↦ rw e (record {
        settings = refl;
        lease = checked-IsLeaseOf now s.settings.lease r numbers l e;
        one_more = λ p. count-put-le p l.request_id l s.active;
      })
      | inr (x, e) ↦ rw e (Narrows-refl s)
    ]

Granted-after :
    (now : ℕ) (r : ProbeRequest) (s t : Scheduler) (out : Result ProbeLease × Scheduler)
    → Narrows s t
    → Granted now r t out
    → Granted now r s out
Granted-after now r s t (err e, u) n g = Narrows-trans s t u n g
Granted-after now r s t (ok l, u) n g = record {
  settings = g.settings ∙ n.settings;
  lease = subst (λ c. IsLeaseOf now c r l) (ap (λ (c : Settings). c.lease) n.settings) g.lease;
  one_more = λ p. omega (arith, g.one_more p, n.fewer p);
}

pub grant_lease-Granted :
    (now : ℕ) (r : ProbeRequest) (s : Scheduler) → Granted now r s (grant_lease now r s)
unfolding grant_lease
grant_lease-Granted now r s = go (prepare r s) refl
  where
    go :
        (out : Result (ℕ × ℕ) × Scheduler)
        → prepare r s ≡ out
        → Granted now r s (follow out.0 (activate now r) out.1)
    go (ok n, t) e =
        Granted-after now r s t _ (rw e at ((prepare-IsNarrowing r).at s))
          (activate-Granted now r n t)
    go (err x, t) e = rw e at ((prepare-IsNarrowing r).at s)
