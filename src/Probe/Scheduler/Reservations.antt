-- ===== src/Probe/Scheduler/Reservations.antt =====
-- `_priority_reservations`: how many of the leases are kept for each priority.
pub mod Shares
use rtsp_proxy.Prelude.{
  ℕ, zero, suc, ◌+◌, ◌*◌, ◌/◌, Bool, true, false, ◌&&◌, ◌||◌, max, ltb, ◌==◌, if◌then◌else◌,
}
use rtsp_proxy.Probe.Kinds.{
  ProbePriority, manual, confirmation, routine, priority_rank, priority_weight,
}

pub record Reservations : Type 0 where
  pub for_manual : ℕ
  pub for_confirmation : ℕ
  pub for_routine : ℕ

abbrev pub reserved : Reservations → ProbePriority → ℕ
reserved r manual = r.for_manual
reserved r confirmation = r.for_confirmation
reserved r routine = r.for_routine

abbrev pub total : Reservations → ℕ
total r = r.for_manual + r.for_confirmation + r.for_routine

-- `reservations[priority] += 1`
abbrev grant : ProbePriority → Reservations → Reservations
grant manual r = record r { for_manual = r.for_manual + 1 }
grant confirmation r = record r { for_confirmation = r.for_confirmation + 1 }
grant routine r = record r { for_routine = r.for_routine + 1 }

-- The key `(global_limit * weight - reservations * 10, rank)` of `a` is below that of `b`; the
-- subtracted terms stand on the other side, so that no difference is cut off at 0.
lower_key : ℕ → Reservations → ProbePriority → ProbePriority → Bool
lower_key g r a b =
    let left = g * priority_weight a + reserved r b * 10 in
    let right = g * priority_weight b + reserved r a * 10 in
    ltb left right || (left == right && ltb (priority_rank a) (priority_rank b))

-- `max(ProbePriority, key=…)`: the first of the members with the largest key.
neediest : ℕ → Reservations → ProbePriority
unfolding lower_key
neediest g r =
    let first = if lower_key g r manual confirmation then confirmation else manual in
    if lower_key g r first routine then routine else first

-- The `while` loop.
fill : ℕ → ℕ → Reservations → Reservations
fill zero g r = r
fill (suc fuel) g r =
    let next = fill fuel g (grant (neediest g r) r) in if ltb (total r) g then next else r

abbrev share : ℕ → ProbePriority → ℕ
share g p = max 1 (g * priority_weight p / 10)

unfoldable pub priority_reservations : ℕ → Reservations
unfolding fill neediest
priority_reservations g =
    if ltb g 3
    then record { for_manual = 0; for_confirmation = 0; for_routine = 0 }
    else fill g g (record {
      for_manual = share g manual;
      for_confirmation = share g confirmation;
      for_routine = share g routine;
    })
