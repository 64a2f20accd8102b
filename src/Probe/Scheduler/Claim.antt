-- ===== src/Probe/Scheduler/Claim.antt =====
-- `_refresh_pending_targets` and `claim_available`.
pub mod Grant
pub mod Keeping
pub mod WithinBudget
pub mod Tokens
pub mod Refresh
pub mod Queues
pub mod Current
pub mod Fuel
use rtsp_proxy.Prelude.{
  ℕ, zero, suc, ◌+◌, Bool, true, false, not, ◌||◌, Option, none, some, List, [], ◌∷◌, ◌++◌, ltb,
  ◌==◌, if◌then◌else◌, min, length, get, put, pop, Dict,
}
use rtsp_proxy.Prelude.Errors.{value_error, key_error, out_of_fuel, Result, ok, err}
use rtsp_proxy.Probe.Kinds.{ProbePriority, manual, confirmation, routine}
use rtsp_proxy.Probe.Data.{ProbeTarget, ProbeRequest, ProbeLease, checked_lease}
use rtsp_proxy.Probe.Identity.{same_probe_generation}
use rtsp_proxy.Probe.Eligibility.{require_probe_eligible}
use rtsp_proxy.Probe.Scheduler.State.{Scheduler, queue, set_queue}
use rtsp_proxy.Probe.Scheduler.Steps.{Step, ◌>>=◌, ◌>>◌, done, lift, modify}
use rtsp_proxy.Probe.Scheduler.Expiry.{expire_active, drop_expired_pending}
use rtsp_proxy.Probe.Scheduler.Submit.{remove_first, found}
use rtsp_proxy.Probe.Scheduler.Select.{next_eligible_request}

abbrev is_ok : Result (Unit {0}) → Bool
is_ok (ok _) = true
is_ok (err _) = false

-- What becomes of a pending request: it stays as it is, stays with its new target, or is dropped.
pub data Refreshed : Type 0 where
  kept : Refreshed
  renewed : ProbeTarget → Refreshed
  dropped : Refreshed

refresh : Option ProbeTarget → ProbeRequest → Refreshed
refresh none request = kept
refresh (some current) request =
    if not (same_probe_generation request.target current)
    then dropped
    else if is_ok (require_probe_eligible current request.method)
    then renewed current
    else dropped

reject : ProbeRequest → Scheduler → Scheduler
reject request s = record s {
  requests_by_camera = pop request.target.camera_id s.requests_by_camera;
  attempts = pop request.request_id s.attempts;
  rejected_total = s.rejected_total + 1;
}

-- One request: what stays of it in its queue, the cameras that it admits, and the state.
refresh_one : Refreshed → ProbeRequest → Scheduler → List ProbeRequest × List ℕ × Scheduler
unfolding reject
refresh_one kept request s = (request ∷ [], [], s)
refresh_one dropped request s = ([], [], reject request s)
refresh_one (renewed current) request s =
    let refreshed = record request { target = current } in
    (
      refreshed ∷ [],
      current.camera_id ∷ [],
      record s { requests_by_camera = put current.camera_id refreshed s.requests_by_camera },
    )

refresh_queue :
    Dict ProbeTarget → List ProbeRequest → Scheduler → List ProbeRequest × List ℕ × Scheduler
unfolding refresh refresh_one
refresh_queue targets [] s = ([], [], s)
refresh_queue targets (request ∷ rest) s =
    let (l, a, s1) =
      refresh_one (refresh (get request.target.camera_id targets) request) request s in
    let (ls, as1, s2) = refresh_queue targets rest s1 in (l ++ ls, a ++ as1, s2)

refresh_at : Dict ProbeTarget → ProbePriority → Scheduler → List ℕ × Scheduler
refresh_at targets priority s =
    let (retained, admitted, s') = refresh_queue targets (queue s.pending priority) s in
    (admitted, record s' { pending = set_queue priority retained s'.pending })

unfoldable pub refresh_pending_targets : Dict ProbeTarget → Scheduler → List ℕ × Scheduler
unfolding refresh_queue refresh_at
refresh_pending_targets targets s =
    let (a1, s1) = refresh_at targets manual s in
    let (a2, s2) = refresh_at targets confirmation s1 in
    let (a3, s3) = refresh_at targets routine s2 in (a1 ++ (a2 ++ a3), s3)

-- `self._attempts[request.request_id] + 1`; a KeyError where the request is not there.
next_attempt : ProbeRequest → Scheduler → Result ℕ
next_attempt request s = elim (get request.request_id s.attempts) [
  | none ↦ err key_error
  | some n ↦ ok (n + 1)
]

-- `self._new_lease_token()`
draw_token : Step ℕ
draw_token s =
    (ok (s.ids.lease_token s.tokens_drawn), record s { tokens_drawn = s.tokens_drawn + 1 })

-- `self._pending[request.priority].remove(request)`
take_pending : ProbeRequest → Step (Unit {0})
take_pending request = do
  rest ← (λ s. (found (remove_first request (queue s.pending request.priority)), s))
  modify (λ s. record s { pending = set_queue request.priority rest s.pending })

count_attempt : ProbeRequest → Step ℕ
unfolding next_attempt
count_attempt request = do
  attempt ← (λ s. (next_attempt request s, s))
  modify (λ s. record s { attempts = put request.request_id attempt s.attempts })
  done attempt

-- What comes before the lease: its attempt and its token.
prepare : ProbeRequest → Step (ℕ × ℕ)
unfolding take_pending count_attempt draw_token
prepare request = do
  take_pending request
  attempt ← count_attempt request
  token ← draw_token
  done (attempt, token)

abbrev pub lease_for : ℕ → ProbeRequest → ℕ → ℕ × ℕ → ProbeLease
lease_for now request duration (attempt, token) = record {
  request_id = request.request_id;
  lease_token = token;
  target = request.target;
  method = request.method;
  priority = request.priority;
  started_at = now;
  lease_expires_at = min request.deadline_at (now + duration);
  attempt = attempt;
}

-- `self._active[request.request_id] = lease`
start_lease : Result ProbeLease → Step ProbeLease
start_lease (err e) s = (err e, s)
start_lease (ok lease) s = (ok lease, record s { active = put lease.request_id lease s.active })

activate : ℕ → ProbeRequest → ℕ × ℕ → Step ProbeLease
unfolding start_lease
activate now request numbers s =
    start_lease (checked_lease (lease_for now request s.settings.lease numbers)) s

-- The body of the loop from `remove` on, for the request that was chosen.
pub grant_lease : ℕ → ProbeRequest → Step ProbeLease
unfolding prepare activate
grant_lease now request = do numbers ← prepare request; activate now request numbers

claim_chosen :
    ℕ → Option ProbeRequest → (ProbeLease → Step (List ProbeLease)) → Step (List ProbeLease)
claim_chosen now none rest = done []
claim_chosen now (some request) rest = do lease ← grant_lease now request; rest lease

-- One round of the loop; `rest` goes on with the lease that was granted.
claim_round : ℕ → List ℕ → (ProbeLease → Step (List ProbeLease)) → Step (List ProbeLease)
unfolding claim_chosen
claim_round now admitted rest s =
    let (chosen, index) = next_eligible_request s now admitted in
    claim_chosen now chosen rest (record s { fair_index = index })

while_room : Bool → Step (List ProbeLease) → Step (List ProbeLease)
while_room false round s = (ok [], s)
while_room true round s = round s

-- The `while` loop. The leases come in the order in which they are granted.
claim_loop : ℕ → ℕ → List ℕ → Step (List ProbeLease)
unfolding claim_round while_room grant_lease
claim_loop zero now admitted s = (err out_of_fuel, s)
claim_loop (suc fuel) now admitted s =
    while_room (ltb (length s.active) s.settings.global_limit)
      (claim_round now admitted
        (λ lease. do leases ← claim_loop fuel now admitted; done (lease ∷ leases)))
      s

pub pending_count : Scheduler → ℕ
pending_count s =
    length s.pending.manual_queue
    + length s.pending.confirmation_queue
    + length s.pending.routine_queue

target_mismatch : Dict ProbeTarget → Bool
target_mismatch [] = false
target_mismatch ((camera_id, target) ∷ rest) =
    not (camera_id == target.camera_id) || target_mismatch rest

-- Each round of the loop takes one request from the queues, so their length is fuel enough.
unfoldable pub run_claims : ℕ → List ℕ → Step (List ProbeLease)
unfolding claim_loop pending_count
run_claims now admitted s = claim_loop (suc (pending_count s)) now admitted s

claim_refreshed : ℕ → Dict ProbeTarget → Step (List ProbeLease)
unfolding run_claims
claim_refreshed now targets s =
    let (admitted, t) = refresh_pending_targets targets s in run_claims now admitted t

-- The part under the lock.
claim_locked : ℕ → Dict ProbeTarget → Step (List ProbeLease)
unfolding claim_refreshed
claim_locked now targets = do
  expire_active now
  (λ s. claim_refreshed now targets (drop_expired_pending now s))

unfoldable pub claim_available : ℕ → Dict ProbeTarget → Step (List ProbeLease)
unfolding target_mismatch claim_locked
claim_available now targets s =
    if ltb s.settings.queue_limit (length targets) || target_mismatch targets
    then (err (value_error "probe_current_target_batch_invalid"), s)
    else claim_locked now targets s
