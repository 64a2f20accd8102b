-- ===== src/Probe/Scheduler/Reservations/Shares.antt =====
-- The reservations add up, and no priority is left out.
use rtsp_proxy.Prelude.{ℕ, zero, suc, ◌+◌, ◌*◌, ◌/◌, ◌≤◌, ◌≡◌, inl, inr, arith, ltb, Bool-cases}
use rtsp_proxy.Probe.Kinds.{ProbePriority, manual, confirmation, routine, priority_weight}
use rtsp_proxy.Probe.Scheduler.Reservations.{
  Reservations, reserved, total, grant, neediest, fill, share, priority_reservations,
}

total-grant : (p : ProbePriority) (r : Reservations) → total (grant p r) ≡ total r + 1
total-grant manual r = omega arith
total-grant _ r = omega arith

reserved-grant-le : (p q : ProbePriority) (r : Reservations) → reserved r q ≤ reserved (grant p r) q
reserved-grant-le manual q r = ground arith
reserved-grant-le _ q r = ground arith

-- With fuel for what is missing the loop ends by its test.
total-fill :
    (fuel g : ℕ) (r : Reservations) → total r ≤ g → g ≤ total r + fuel → total (fill fuel g r) ≡ g
unfolding fill
total-fill zero g r h k = omega arith
total-fill (suc fuel) g r h k =
    ground (arith, total-grant (neediest g r) r, total-fill fuel g (grant (neediest g r) r))

reserved-fill-le :
    (fuel g : ℕ) (r : Reservations) (q : ProbePriority) → reserved r q ≤ reserved (fill fuel g r) q
unfolding fill
reserved-fill-le zero g r q = omega arith
reserved-fill-le (suc fuel) g r q = elim (Bool-cases (ltb (total r) g)) [
  | inl more ↦ rw more (
      omega (
        arith,
        reserved-fill-le fuel g (grant (neediest g r) r) q,
        reserved-grant-le (neediest g r) q r,
      ))
  | inr done ↦ rw done (omega arith)
]

-- From three leases on, the reservations use up the server's limit exactly, and each priority has
-- at least one lease and at least its weighted share, rounded down.
pub priority_reservations-exact :
    (g : ℕ) (p : ProbePriority)
    → 3 ≤ g
    → (total (priority_reservations g) ≡ g)
      × (1 ≤ reserved (priority_reservations g) p)
      × (g * priority_weight p / 10 ≤ reserved (priority_reservations g) p)
unfolding priority_reservations
priority_reservations-exact g p h =
    let start : Reservations = record {
      for_manual = share g manual;
      for_confirmation = share g confirmation;
      for_routine = share g routine;
    } in
    ground (arith, total-fill g g start, reserved-fill-le g g start p)
