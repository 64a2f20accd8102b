-- ===== src/Probe/Scheduler/Expiry.antt =====
-- `_expire_active` and `_drop_expired_pending`.
pub mod Narrowing
pub mod Ends
use rtsp_proxy.Prelude.{
  ℕ, ◌+◌, ◌||◌, Option, none, some, List, [], ◌∷◌, ltb, leb, ◌==◌, if◌then◌else◌, get, put, pop,
  Dict,
}
use rtsp_proxy.Prelude.Errors.{ok}
use rtsp_proxy.Probe.Kinds.{ProbePriority, manual, confirmation, routine}
use rtsp_proxy.Probe.Data.{ProbeRequest, ProbeLease, checked_request}
use rtsp_proxy.Probe.Scheduler.State.{Scheduler, queue, set_queue, enqueue}
use rtsp_proxy.Probe.Scheduler.Steps.{Step, ◌>>=◌, ◌>>◌, done, lift, modify}

-- The request goes back to its queue, available again at `available_at`.
retry : ℕ → ProbeLease → ProbeRequest → Step (Unit {0})
retry available_at lease request = do
  again ← lift (checked_request (record request { available_at = available_at }))
  modify (λ t. record t {
    requests_by_camera = put lease.target.camera_id again t.requests_by_camera;
    pending = enqueue again.priority again t.pending;
  })

retry_or_drop : ℕ → ℕ → ProbeLease → ProbeRequest → Step (Unit {0})
unfolding retry
retry_or_drop now request_id lease request s =
    let available_at = now + s.settings.retry_delay in
    if leb s.settings.max_attempts lease.attempt || leb request.deadline_at available_at
    then (
      ok tt,
      record s {
        requests_by_camera = pop lease.target.camera_id s.requests_by_camera;
        attempts = pop request_id s.attempts;
      },
    )
    else retry available_at lease request s

requeue : ℕ → ℕ → ProbeLease → Option ProbeRequest → Step (Unit {0})
unfolding retry_or_drop
requeue now request_id lease none = done tt
requeue now request_id lease (some request) =
    if request.request_id == request_id then retry_or_drop now request_id lease request else done tt

-- The body of the loop, for the item `(request_id, lease)`.
expire_lease : ℕ → ℕ → ProbeLease → Step (Unit {0})
unfolding requeue
expire_lease now request_id lease s =
    if ltb now lease.lease_expires_at
    then (ok tt, s)
    else requeue now request_id lease (get lease.target.camera_id s.requests_by_camera)
        (record s { active = pop request_id s.active; expired_total = s.expired_total + 1 })

-- The loop goes over the items as they were at its start.
expire_leases : ℕ → Dict ProbeLease → Step (Unit {0})
expire_leases now [] = done tt
expire_leases now ((request_id, lease) ∷ rest) = do
  expire_lease now request_id lease
  expire_leases now rest

unfoldable pub expire_active : ℕ → Step (Unit {0})
unfolding expire_leases expire_lease
expire_active now s = expire_leases now s.active s

forget : ProbeRequest → Scheduler → Scheduler
forget request s = record s {
  requests_by_camera = pop request.target.camera_id s.requests_by_camera;
  attempts = pop request.request_id s.attempts;
  expired_total = s.expired_total + 1;
}

-- One queue: what is kept, and the state without what is dropped.
drop_expired_queue : ℕ → List ProbeRequest → Scheduler → List ProbeRequest × Scheduler
drop_expired_queue now [] s = ([], s)
drop_expired_queue now (request ∷ rest) s =
    let expired = leb request.deadline_at now in
    let (retained, s') = drop_expired_queue now rest (if expired then forget request s else s) in
    (if expired then retained else request ∷ retained, s')

drop_expired_at : ℕ → ProbePriority → Scheduler → Scheduler
drop_expired_at now priority s =
    let (retained, s') = drop_expired_queue now (queue s.pending priority) s in
    record s' { pending = set_queue priority retained s'.pending }

unfoldable pub drop_expired_pending : ℕ → Scheduler → Scheduler
unfolding forget drop_expired_queue drop_expired_at
drop_expired_pending now s =
    drop_expired_at now routine (drop_expired_at now confirmation (drop_expired_at now manual s))
