-- ===== src/Probe/Scheduler/Runs.antt =====
-- Any calls of the scheduler's methods, in any order, from a scheduler that was just created.
pub mod Spent
use rtsp_proxy.Prelude.{ℕ, ◌≡◌, List, [], ◌∷◌, Dict, arith}
use rtsp_proxy.Prelude.Errors.{ok}
use rtsp_proxy.Probe.Kinds.{ProbeMethod, ProbePriority}
use rtsp_proxy.Probe.Data.{ProbeTarget, ProbeRequest, ProbeLease, ProbeExecutionResult}
use rtsp_proxy.Probe.Scheduler.State.{Settings, Ids, Scheduler, create}
use rtsp_proxy.Probe.Scheduler.Submit.{submit}
use rtsp_proxy.Probe.Scheduler.Submit.Narrowing.{submit-IsNarrowing}
use rtsp_proxy.Probe.Scheduler.Claim.{claim_available, grant_lease}
use rtsp_proxy.Probe.Scheduler.Claim.Keeping.{HasRoom, claim_available-Keeps}
use rtsp_proxy.Probe.Scheduler.Claim.WithinBudget.{grant_lease-IsWithinBudget}
use rtsp_proxy.Probe.Scheduler.Finish.{complete, cancel}
use rtsp_proxy.Probe.Scheduler.Finish.Narrowing.{complete-IsNarrowing, cancel-IsNarrowing}
use rtsp_proxy.Probe.Scheduler.Budget.{Narrows, IsWithinBudget, Narrows-IsWithinBudget}

-- A call of a method with its arguments. Its result, or what it raises, goes to the caller.
pub data Call : Type 0 where
  submitting : ProbeTarget → ProbeMethod → ProbePriority → ℕ → ℕ → Call
  claiming : ℕ → Dict ProbeTarget → Call
  completing : ProbeLease → ProbeExecutionResult → Call
  cancelling : ProbeLease → Call

abbrev pub after : Call → Scheduler → Scheduler
after (submitting t m p requested_at deadline_at) s = (submit t m p requested_at deadline_at s).1
after (claiming now targets) s = (claim_available now targets s).1
after (completing lease result) s = (complete lease result s).1
after (cancelling lease) s = (cancel lease s).1

unfoldable pub run : List Call → Scheduler → Scheduler
run [] s = s
run (c ∷ rest) s = run rest (after c s)

-- What narrowing keeps, and the grant of a lease to a request with room, is kept by any calls.
module _ (P : Scheduler → Type 0) (narrow : (s t : Scheduler) → Narrows s t → P s → P t)
    (grant : (now : ℕ) (r : ProbeRequest) (s : Scheduler)
      → HasRoom s r
      → P s
      → P (grant_lease now r s).1) where
  after-Keeps : (c : Call) (s : Scheduler) → P s → P (after c s)
  after-Keeps (submitting t m p requested_at deadline_at) s =
      narrow s _ ((submit-IsNarrowing t m p requested_at deadline_at).at s)
  after-Keeps (claiming now targets) s = claim_available-Keeps P narrow grant now targets s
  after-Keeps (completing l r) s = narrow s _ ((complete-IsNarrowing l r).at s)
  after-Keeps (cancelling l) s = narrow s _ ((cancel-IsNarrowing l).at s)

  pub run-Keeps : (calls : List Call) (s : Scheduler) → P s → P (run calls s)
  unfolding run
  run-Keeps [] s b = b
  run-Keeps (c ∷ rest) s b = run-Keeps rest (after c s) (after-Keeps c s b)

create-IsWithinBudget :
    (c : Settings) (ids : Ids) (s : Scheduler) → create c ids ≡ ok s → IsWithinBudget s
unfolding create
create-IsWithinBudget c ids s h = record {
  in_all = ground arith;
  on_node = λ node. ground arith;
  on_site = λ site. ground arith;
  by_method = λ m. ground arith;
}

-- Whatever calls are made, valid or refused, and whatever ids are drawn, the leases that are active
-- at once stay within the limits for the server, each node, each site and each method.
pub run-IsWithinBudget :
    (c : Settings) (ids : Ids) (s : Scheduler) (calls : List Call)
    → create c ids ≡ ok s
    → IsWithinBudget (run calls s)
run-IsWithinBudget c ids s calls h =
    run-Keeps IsWithinBudget Narrows-IsWithinBudget grant_lease-IsWithinBudget calls s
      (create-IsWithinBudget c ids s h)
