-- ===== src/Probe/Scheduler/Expiry/Ends.antt =====
-- Expiry runs out of no fuel: it takes none.
use rtsp_proxy.Prelude.{
  ℕ, Option, none, some, [], ◌∷◌, Dict, inl, inr, Bool-cases, leb, ltb, ◌+◌, ◌||◌, ◌==◌, arith,
}
use rtsp_proxy.Probe.Data.{ProbeRequest, ProbeLease, checked_request}
use rtsp_proxy.Probe.Scheduler.Steps.{lift}
use rtsp_proxy.Probe.Scheduler.Ends.{IsAnswer, Ends, Ends-bind}
use rtsp_proxy.Probe.Scheduler.Expiry.{
  retry, retry_or_drop, requeue, expire_lease, expire_leases, expire_active,
}

pub checked_request-IsAnswer : (r : ProbeRequest) → IsAnswer (checked_request r)
unfolding checked_request
checked_request-IsAnswer r h = ground arith

retry-Ends : (available_at : ℕ) (l : ProbeLease) (r : ProbeRequest) → Ends (retry available_at l r)
unfolding retry
retry-Ends available_at l r =
    Ends-bind (lift (checked_request (record r { available_at = available_at }))) _
      (record { at = λ s. checked_request-IsAnswer _ }) (λ again. record { at = λ s h. cc })

retry_or_drop-Ends :
    (now request_id : ℕ) (l : ProbeLease) (r : ProbeRequest)
    → Ends (retry_or_drop now request_id l r)
unfolding retry_or_drop
retry_or_drop-Ends now request_id l r = record {
  at = λ s.
      elim (Bool-cases (
        leb s.settings.max_attempts l.attempt
        || leb r.deadline_at (now + s.settings.retry_delay))) [
          | inl drop ↦ rw drop (λ h. cc)
          | inr again ↦ rw again ((retry-Ends _ l r).at s)
        ];
}

requeue-Ends :
    (now request_id : ℕ) (l : ProbeLease) (r : Option ProbeRequest)
    → Ends (requeue now request_id l r)
unfolding requeue
requeue-Ends now request_id l none = record { at = λ s h. cc }
requeue-Ends now request_id l (some r) = elim (Bool-cases (r.request_id == request_id)) [
  | inl same ↦ rw same (retry_or_drop-Ends now request_id l r)
  | inr other ↦ rw other (record { at = λ s h. cc })
]

expire_lease-Ends : (now request_id : ℕ) (l : ProbeLease) → Ends (expire_lease now request_id l)
unfolding expire_lease
expire_lease-Ends now request_id l = record {
  at = λ s. elim (Bool-cases (ltb now l.lease_expires_at)) [
    | inl live ↦ rw live (λ h. cc)
    | inr gone ↦ rw gone ((requeue-Ends now request_id l _).at _)
  ];
}

expire_leases-Ends : (now : ℕ) (items : Dict ProbeLease) → Ends (expire_leases now items)
unfolding expire_leases
expire_leases-Ends now [] = record { at = λ s h. cc }
expire_leases-Ends now ((request_id, l) ∷ rest) =
    Ends-bind (expire_lease now request_id l) _ (expire_lease-Ends now request_id l)
      λ _. expire_leases-Ends now rest

pub expire_active-Ends : (now : ℕ) → Ends (expire_active now)
unfolding expire_active
expire_active-Ends now = record { at = λ s. (expire_leases-Ends now s.active).at s }
