-- ===== src/Probe/Scheduler/Expiry/Narrowing.antt =====
-- Expiry ends leases and starts none.
use rtsp_proxy.Prelude.{
  arith, ℕ, refl, Option, none, some, List, [], ◌∷◌, Dict, count-pop-le, pop, ◌+◌, leb, ltb, ◌||◌,
  ◌==◌, if◌then◌else◌, Bool-cases, inl, inr,
}
use rtsp_proxy.Probe.Kinds.{ProbePriority, manual, confirmation, routine}
use rtsp_proxy.Probe.Data.{ProbeRequest, ProbeLease}
use rtsp_proxy.Probe.Scheduler.State.{Scheduler}
use rtsp_proxy.Probe.Scheduler.Budget.{
  Narrows, Narrows-refl, Narrows-same, Narrows-trans, IsNarrowing, IsNarrowing-done,
  IsNarrowing-lift, IsNarrowing-bind, IsNarrowing-modify,
}
use rtsp_proxy.Probe.Scheduler.Expiry.{
  retry, retry_or_drop, requeue, expire_lease, expire_leases, expire_active, forget,
  drop_expired_queue, drop_expired_at, drop_expired_pending,
}

retry-IsNarrowing :
    (available_at : ℕ) (l : ProbeLease) (r : ProbeRequest) → IsNarrowing (retry available_at l r)
unfolding retry
retry-IsNarrowing available_at l r =
    IsNarrowing-bind _ _ (IsNarrowing-lift _)
      λ again. IsNarrowing-modify _ (λ s. Narrows-same s _ refl refl refl refl (omega arith))

retry_or_drop-IsNarrowing :
    (now request_id : ℕ) (l : ProbeLease) (r : ProbeRequest)
    → IsNarrowing (retry_or_drop now request_id l r)
unfolding retry_or_drop
retry_or_drop-IsNarrowing now request_id l r = record {
  at = λ s.
      elim (Bool-cases (
        leb s.settings.max_attempts l.attempt
        || leb r.deadline_at (now + s.settings.retry_delay))) [
          | inl drop ↦ rw drop (Narrows-same s _ refl refl refl refl (omega arith))
          | inr again ↦ rw again ((retry-IsNarrowing _ l r).at s)
        ];
}

requeue-IsNarrowing :
    (now request_id : ℕ) (l : ProbeLease) (r : Option ProbeRequest)
    → IsNarrowing (requeue now request_id l r)
unfolding requeue
requeue-IsNarrowing now request_id l none = IsNarrowing-done tt
requeue-IsNarrowing now request_id l (some r) = elim (Bool-cases (r.request_id == request_id)) [
  | inl same ↦ rw same (retry_or_drop-IsNarrowing now request_id l r)
  | inr other ↦ rw other (IsNarrowing-done tt)
]

expire_lease-IsNarrowing :
    (now request_id : ℕ) (l : ProbeLease) → IsNarrowing (expire_lease now request_id l)
unfolding expire_lease
expire_lease-IsNarrowing now request_id l = record {
  at = λ s. elim (Bool-cases (ltb now l.lease_expires_at)) [
    | inl live ↦ rw live (Narrows-refl s)
    | inr gone ↦ rw gone (
        let t = record s {
          active = pop request_id s.active;
          expired_total = s.expired_total + 1;
        } in
        Narrows-trans s t _
          (record {
            settings = refl;
            reservations = refl;
            ids = refl;
            fewer = λ p. count-pop-le p request_id s.active;
            tokens = omega arith;
          })
          ((requeue-IsNarrowing now request_id l _).at t))
  ];
}

expire_leases-IsNarrowing :
    (now : ℕ) (items : Dict ProbeLease) → IsNarrowing (expire_leases now items)
unfolding expire_leases
expire_leases-IsNarrowing now [] = IsNarrowing-done tt
expire_leases-IsNarrowing now ((request_id, l) ∷ rest) =
    IsNarrowing-bind _ _ (expire_lease-IsNarrowing now request_id l)
      λ _. expire_leases-IsNarrowing now rest

pub expire_active-IsNarrowing : (now : ℕ) → IsNarrowing (expire_active now)
unfolding expire_active
expire_active-IsNarrowing now = record { at = λ s. (expire_leases-IsNarrowing now s.active).at s }

drop_expired_queue-Narrows :
    (now : ℕ) (q : List ProbeRequest) (s : Scheduler) → Narrows s (drop_expired_queue now q s).1
unfolding drop_expired_queue forget
drop_expired_queue-Narrows now [] s = Narrows-refl s
drop_expired_queue-Narrows now (r ∷ rest) s =
    Narrows-trans s (if leb r.deadline_at now then forget r s else s) _
      (elim (Bool-cases (leb r.deadline_at now)) [
        | inl gone ↦ rw gone (Narrows-same s _ refl refl refl refl (omega arith))
        | inr live ↦ rw live (Narrows-refl s)
      ])
      (drop_expired_queue-Narrows now rest _)

drop_expired_at-Narrows :
    (now : ℕ) (p : ProbePriority) (s : Scheduler) → Narrows s (drop_expired_at now p s)
unfolding drop_expired_at
drop_expired_at-Narrows now p s =
    Narrows-trans s _ _ (drop_expired_queue-Narrows now _ s)
      (Narrows-same _ _ refl refl refl refl (omega arith))

pub drop_expired_pending-Narrows :
    (now : ℕ) (s : Scheduler) → Narrows s (drop_expired_pending now s)
unfolding drop_expired_pending
drop_expired_pending-Narrows now s = Narrows-trans s _ _ (drop_expired_at-Narrows now manual s) (
    Narrows-trans _ _ _ (drop_expired_at-Narrows now confirmation _)
      (drop_expired_at-Narrows now routine _))
