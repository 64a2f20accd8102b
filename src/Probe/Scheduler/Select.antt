-- ===== src/Probe/Scheduler/Select.antt =====
-- `_next_eligible_request`: which pending request gets the next lease.
pub mod Scan
pub mod Chosen
use rtsp_proxy.Prelude.{
  ℕ, zero, suc, ◌+◌, ◌-◌, ◌%◌, String, Bool, true, ◌&&◌, ◌||◌, Option, none, some, List, [], ◌∷◌,
  ◌++◌, ltb, leb, ◌==◌, if◌then◌else◌, filter, count, any, values, eqb, String-discrete,
}
use rtsp_proxy.Probe.Kinds.{
  ProbeMethod, ProbePriority, manual, confirmation, routine, same_method, same_priority,
}
use rtsp_proxy.Probe.Data.{ProbeRequest, ProbeLease}
use rtsp_proxy.Probe.Scheduler.Reservations.{reserved}
use rtsp_proxy.Probe.Scheduler.State.{Scheduler, queue, method_limit}

-- `_FAIR_PRIORITIES[index]`
abbrev pub fair_priority : ℕ → ProbePriority
fair_priority i = if ltb i 4 then manual else if ltb i 7 then confirmation else routine

-- The tallies of the active leases.
abbrev on_node : ℕ → ProbeLease → Bool
on_node node lease = lease.target.node_id == node

abbrev on_site : String → ProbeLease → Bool
on_site site lease = eqb String-discrete lease.target.site_key site

abbrev by_method : ProbeMethod → ProbeLease → Bool
by_method method lease = same_method lease.method method

abbrev by_priority : ProbePriority → ProbeLease → Bool
by_priority priority lease = same_priority lease.priority priority

abbrev pub active_on_node : Scheduler → ℕ → ℕ
active_on_node s node = count (on_node node) (values s.active)

abbrev pub active_on_site : Scheduler → String → ℕ
active_on_site s site = count (on_site site) (values s.active)

abbrev pub active_by_method : Scheduler → ProbeMethod → ℕ
active_by_method s method = count (by_method method) (values s.active)

abbrev pub active_by_priority : Scheduler → ProbePriority → ℕ
active_by_priority s priority = count (by_priority priority) (values s.active)

abbrev pub mem : ℕ → List ℕ → Bool
mem k l = any (λ j. j == k) l

unfoldable pub eligible : Scheduler → ℕ → List ℕ → ProbeRequest → Bool
eligible s now admitted request =
    mem request.target.camera_id admitted
    && leb request.available_at now
    && ltb (active_on_node s request.target.node_id) s.settings.per_node_limit
    && ltb (active_on_site s request.target.site_key) s.settings.per_site_limit
    && ltb (active_by_method s request.method) (method_limit s.settings request.method)

-- The order of the keys `(deadline_at, requested_at, request_id.int)`.
abbrev pub before : ProbeRequest → ProbeRequest → Bool
before a b =
    ltb a.deadline_at b.deadline_at
    || (a.deadline_at == b.deadline_at
        && (ltb a.requested_at b.requested_at
            || (a.requested_at == b.requested_at && ltb a.request_id b.request_id)))

-- `min(candidates, key=…)`: the first of the least; `none` where there is no candidate.
earliest_from : ProbeRequest → List ProbeRequest → ProbeRequest
earliest_from best [] = best
earliest_from best (r ∷ rest) = earliest_from (if before r best then r else best) rest

unfoldable pub earliest : List ProbeRequest → Option ProbeRequest
unfolding earliest_from
earliest [] = none
earliest (r ∷ rest) = some (earliest_from r rest)

abbrev pub candidates : Scheduler → ℕ → List ℕ → ProbePriority → List ProbeRequest
candidates s now admitted priority = filter (eligible s now admitted) (queue s.pending priority)

abbrev take_or : Option ProbeRequest → ℕ → Option ProbeRequest × ℕ → Option ProbeRequest × ℕ
take_or (some request) next rest = (some request, next)
take_or none next rest = rest

module _ (takes : ProbePriority → Bool) (pool : ProbePriority → List ProbeRequest) where
  abbrev look : ProbePriority → Option ProbeRequest
  look priority = if takes priority then earliest (pool priority) else none

  -- One round of `for _ in _FAIR_PRIORITIES`, over the priorities that `takes` lets through: the
  -- request, and the index at which the next look begins.
  pub fair_scan : ℕ → ℕ → Option ProbeRequest × ℕ
  unfolding earliest
  fair_scan zero index = (none, index)
  fair_scan (suc rounds) index =
      let next = (index + 1) % 10 in
      take_or (look (fair_priority index)) next (fair_scan rounds next)

-- The three looks in turn: with reservations, at urgent requests, and without reservations.
choose :
    Option ProbeRequest × ℕ
    → Option ProbeRequest
    → (ℕ → Option ProbeRequest × ℕ)
    → Option ProbeRequest × ℕ
choose (some r, index) urgent last = (some r, index)
choose (none, index) (some r) last = (some r, index)
choose (none, index) none last = last index

abbrev is_urgent : Scheduler → ℕ → ProbeRequest → Bool
is_urgent s now request = leb (request.deadline_at - now) s.settings.lease

-- The first of the urgent candidates of all queues.
abbrev urgent : Scheduler → ℕ → (ProbePriority → List ProbeRequest) → Option ProbeRequest
urgent s now pool =
    earliest (filter (is_urgent s now) (pool manual ++ (pool confirmation ++ pool routine)))

abbrev with_room : Scheduler → ProbePriority → Bool
with_room s priority = ltb (active_by_priority s priority) (reserved s.reservations priority)

unfoldable pub next_eligible_request : Scheduler → ℕ → List ℕ → Option ProbeRequest × ℕ
unfolding eligible fair_scan choose
next_eligible_request s now admitted =
    choose (fair_scan (with_room s) (candidates s now admitted) 10 s.fair_index)
      (urgent s now (candidates s now admitted))
      (fair_scan (λ _. true) (candidates s now admitted) 10)
