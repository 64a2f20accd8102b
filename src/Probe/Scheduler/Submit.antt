-- ===== src/Probe/Scheduler/Submit.antt =====
-- `submit`: a request joins the one that its camera has, or is admitted to its queue.
pub mod Narrowing
use rtsp_proxy.Prelude.{
  ℕ, ◌+◌, not, ◌&&◌, ◌||◌, Option, none, some, List, [], ◌∷◌, ltb, leb, ◌==◌, if◌then◌else◌, min,
  length, is_some, eqb, get, put,
}
use rtsp_proxy.Prelude.Errors.{
  value_error, probe_queue_full, probe_single_flight_conflict, Result, ok, err,
}
use rtsp_proxy.Probe.Kinds.{ProbeMethod, ProbePriority, priority_rank, same_method, same_priority}
use rtsp_proxy.Probe.Data.{ProbeTarget, ProbeRequest, checked_request, one_day}
use rtsp_proxy.Probe.Identity.{ProbeRequest-discrete, same_probe_generation}
use rtsp_proxy.Probe.Eligibility.{require_probe_eligible}
use rtsp_proxy.Probe.Scheduler.State.{queue, set_queue, enqueue}
use rtsp_proxy.Probe.Scheduler.Steps.{Step, ◌>>=◌, ◌>>◌, done, lift, modify}
use rtsp_proxy.Probe.Scheduler.Expiry.{expire_active, drop_expired_pending}

-- `list.remove`: without the first item that is equal; `none` is its ValueError.
unfoldable pub remove_first : ProbeRequest → List ProbeRequest → Option (List ProbeRequest)
remove_first r [] = none
remove_first r (x ∷ xs) =
    let rest = remove_first r xs in
    if eqb ProbeRequest-discrete x r
    then some xs
    else elim rest [ none ↦ none | some l ↦ some (x ∷ l) ]

-- `queue[queue.index(old)] = new`; `none` is the ValueError of `index`.
unfoldable pub replace_first :
    ProbeRequest → ProbeRequest → List ProbeRequest → Option (List ProbeRequest)
replace_first old new [] = none
replace_first old new (x ∷ xs) =
    let rest = replace_first old new xs in
    if eqb ProbeRequest-discrete x old
    then some (new ∷ xs)
    else elim rest [ none ↦ none | some l ↦ some (x ∷ l) ]

abbrev pub found : Option (List ProbeRequest) → Result (List ProbeRequest)
found none = err (value_error "x not in list")
found (some l) = ok l

-- The request moves to the other queue.
move_promoted : ProbeRequest → ProbeRequest → Step (Unit {0})
unfolding remove_first
move_promoted current promoted = do
  rest ← (λ s. (found (remove_first current (queue s.pending current.priority)), s))
  modify (λ s. record s {
    pending = enqueue promoted.priority promoted (set_queue current.priority rest s.pending);
  })

-- The request stands in the same place of its own queue.
replace_promoted : ProbeRequest → ProbeRequest → Step (Unit {0})
unfolding replace_first
replace_promoted current promoted = do
  replaced ← (λ s. (found (replace_first current promoted (queue s.pending current.priority)), s))
  modify (λ s. record s { pending = set_queue current.priority replaced s.pending })

requeue_promoted : ProbeRequest → ProbeRequest → Step (Unit {0})
unfolding move_promoted replace_promoted
requeue_promoted current promoted =
    if not (same_priority promoted.priority current.priority)
    then move_promoted current promoted
    else replace_promoted current promoted

-- The camera has a request of the same generation and method that waits in its queue.
promote : ProbeRequest → ProbeTarget → ProbePriority → ℕ → Step ProbeRequest
unfolding requeue_promoted
promote current target priority deadline_at =
    let promoted_priority : ProbePriority =
      if ltb (priority_rank current.priority) (priority_rank priority)
      then priority
      else current.priority in
    let promoted_deadline = min current.deadline_at deadline_at in
    if same_priority promoted_priority current.priority && promoted_deadline == current.deadline_at
    then done current
    else do
      promoted ← lift (
          checked_request (record current {
            target = target;
            priority = promoted_priority;
            deadline_at = promoted_deadline;
          }))
      requeue_promoted current promoted
      modify (λ t. record t {
        requests_by_camera = put target.camera_id promoted t.requests_by_camera;
      })
      done promoted

join : ProbeRequest → ProbeTarget → ProbeMethod → ProbePriority → ℕ → Step ProbeRequest
unfolding promote
join current target method priority deadline_at s =
    if same_probe_generation current.target target && same_method current.method method
    then (if is_some (get current.request_id s.active)
        then (ok current, s)
        else promote current target priority deadline_at s)
    else (
      err (probe_single_flight_conflict "probe_single_flight_conflict"),
      record s { rejected_total = s.rejected_total + 1 },
    )

-- `self._new_request_id()`
new_request_id : Step ℕ
new_request_id s =
    (ok (s.ids.request_id s.requests_drawn), record s { requests_drawn = s.requests_drawn + 1 })

admit_as : ProbeTarget → ProbeMethod → ProbePriority → ℕ → ℕ → ℕ → Step ProbeRequest
admit_as target method priority requested_at deadline_at request_id = do
  request ← lift (
      checked_request (record {
        request_id = request_id;
        target = target;
        method = method;
        priority = priority;
        requested_at = requested_at;
        deadline_at = deadline_at;
        available_at = requested_at;
      }))
  modify (λ s. record s {
    requests_by_camera = put target.camera_id request s.requests_by_camera;
    pending = enqueue priority request s.pending;
    attempts = put request.request_id 0 s.attempts;
    submitted_total = s.submitted_total + 1;
  })
  done request

admit_new : ProbeTarget → ProbeMethod → ProbePriority → ℕ → ℕ → Step ProbeRequest
unfolding new_request_id admit_as
admit_new target method priority requested_at deadline_at = do
  request_id ← new_request_id
  admit_as target method priority requested_at deadline_at request_id

admit : ProbeTarget → ProbeMethod → ProbePriority → ℕ → ℕ → Step ProbeRequest
unfolding admit_new
admit target method priority requested_at deadline_at s =
    if leb s.settings.queue_limit (length s.requests_by_camera)
    then (
      err (probe_queue_full "probe_queue_full"),
      record s { rejected_total = s.rejected_total + 1 },
    )
    else admit_new target method priority requested_at deadline_at s

join_or_admit :
    Option ProbeRequest → ProbeTarget → ProbeMethod → ProbePriority → ℕ → ℕ → Step ProbeRequest
unfolding join admit
join_or_admit none target method priority requested_at deadline_at =
    admit target method priority requested_at deadline_at
join_or_admit (some current) target method priority requested_at deadline_at =
    join current target method priority deadline_at

checked_window : ℕ → ℕ → Result (Unit {0})
checked_window requested_at deadline_at =
    if leb deadline_at requested_at || ltb (requested_at + one_day) deadline_at
    then err (value_error "probe_request_window_invalid")
    else ok tt

join_current : ProbeTarget → ProbeMethod → ProbePriority → ℕ → ℕ → Step ProbeRequest
unfolding join_or_admit
join_current target method priority requested_at deadline_at s =
    join_or_admit (get target.camera_id s.requests_by_camera) target method priority requested_at
      deadline_at s

-- The part under the lock.
enter : ProbeTarget → ProbeMethod → ProbePriority → ℕ → ℕ → Step ProbeRequest
unfolding join_current
enter target method priority requested_at deadline_at = do
  expire_active requested_at
  modify (drop_expired_pending requested_at)
  join_current target method priority requested_at deadline_at

unfoldable pub submit : ProbeTarget → ProbeMethod → ProbePriority → ℕ → ℕ → Step ProbeRequest
unfolding checked_window enter
submit target method priority requested_at deadline_at = do
  lift (require_probe_eligible target method)
  lift (checked_window requested_at deadline_at)
  enter target method priority requested_at deadline_at
