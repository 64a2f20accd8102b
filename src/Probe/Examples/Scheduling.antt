-- ===== src/Probe/Examples/Scheduling.antt =====
-- The theorems on the scheduler at concrete inputs.
use rtsp_proxy.Prelude.{
  ℕ, put, ap, ◌∙◌, ℕ_discrete, String-discrete, ◌≡◌, ◌≢◌, ◌≤◌, ◌*◌, ◌/◌, refl, inl, false, none,
  some, List, [], ◌∷◌, arith, get,
}
use rtsp_proxy.Prelude.Errors.{ok, err, out_of_fuel}
use rtsp_proxy.Probe.Kinds.{path, manual, routine, priority_weight}
use rtsp_proxy.Probe.Scheduler.State.{Scheduler, create}
use rtsp_proxy.Probe.Scheduler.Reservations.{priority_reservations, total, reserved}
use rtsp_proxy.Probe.Scheduler.Reservations.Shares.{priority_reservations-exact}
use rtsp_proxy.Probe.Scheduler.Budget.{IsWithinBudget}
use rtsp_proxy.Probe.Scheduler.Select.{next_eligible_request, eligible}
use rtsp_proxy.Probe.Scheduler.Select.Chosen.{
  IsFirst, next_eligible_request-IsFirst, next_eligible_request-none,
}
use rtsp_proxy.Probe.Scheduler.Claim.{claim_available}
use rtsp_proxy.Probe.Scheduler.Claim.Current.{AllClaimed, claim_available-current}
use rtsp_proxy.Probe.Scheduler.Claim.Fuel.{claim_available_ends}
use rtsp_proxy.Probe.Scheduler.Finish.{complete, cancel}
use rtsp_proxy.Probe.Scheduler.Finish.Fencing.{IsCurrent, IsSpent}
use rtsp_proxy.Probe.Scheduler.Submit.{submit}
use rtsp_proxy.Probe.Scheduler.Runs.Spent.{finish_once}
use rtsp_proxy.Probe.Scheduler.Runs.{
  Call, submitting, claiming, cancelling, run, run-IsWithinBudget,
}
use rtsp_proxy.Probe.Data.{ProbeLease, ProbeRequest, checked_request, checked_lease}
use rtsp_proxy.Probe.Eligibility.{require_probe_eligible}
use rtsp_proxy.Probe.Scheduler.Expiry.{expire_active, drop_expired_pending}
use rtsp_proxy.Probe.Scheduler.Claim.{refresh_pending_targets}
use rtsp_proxy.Probe.Scheduler.Submit.{remove_first}
use rtsp_proxy.Probe.Identity.{
  ProbeRequest-discrete, ProbeGenerationKey-discrete, same_probe_generation, probe_generation_key,
}
use rtsp_proxy.Probe.Examples.{uuid, camera, settings, ids, request, lease, result, targets}

-- The scheduler as it is created.
abbrev started : Scheduler
started = record {
  settings = settings;
  reservations = priority_reservations 4;
  ids = ids;
  requests_by_camera = [];
  pending = record { manual_queue = []; confirmation_queue = []; routine_queue = [] };
  active = [];
  attempts = [];
  fair_index = 0;
  submitted_total = 0;
  completed_total = 0;
  expired_total = 0;
  rejected_total = 0;
  requests_drawn = 0;
  tokens_drawn = 0;
  observations_drawn = 0;
}

-- One camera waits by hand, the other one by routine.
abbrev waiting : Scheduler
waiting = record started {
  requests_by_camera = (uuid 10, request 10 manual) ∷ (uuid 11, request 11 routine) ∷ [];
  pending = record {
    manual_queue = request 10 manual ∷ [];
    confirmation_queue = [];
    routine_queue = request 11 routine ∷ [];
  };
  attempts = (uuid 1010, 0) ∷ (uuid 1011, 0) ∷ [];
}

abbrev calls : List Call
calls =
    submitting (camera 10) path manual 0 60_000_000
    ∷ submitting (camera 11) path routine 1 60_000_000
    ∷ claiming 2 targets
    ∷ cancelling lease
    ∷ claiming 9_000_000 targets
    ∷ []

started-create : create settings ids ≡ ok started
unfolding create
started-create = refl

run-IsWithinBudget_example : IsWithinBudget (run calls started)
run-IsWithinBudget_example = run-IsWithinBudget settings ids started calls started-create

claim_available-current_example : AllClaimed targets 2 (claim_available 2 targets waiting).0
claim_available-current_example = claim_available-current 2 targets waiting

claim_available_ends_example : (claim_available 2 targets waiting).0 ≢ err out_of_fuel
claim_available_ends_example = claim_available_ends 2 targets waiting

chosen : (next_eligible_request waiting 2 (uuid 10 ∷ uuid 11 ∷ [])).0 ≡ some (request 10 manual)
unfolding next_eligible_request priority_reservations
chosen = refl

next_eligible_request-IsFirst_example :
    IsFirst waiting 2 (uuid 10 ∷ uuid 11 ∷ []) (request 10 manual)
next_eligible_request-IsFirst_example =
    next_eligible_request-IsFirst waiting 2 (uuid 10 ∷ uuid 11 ∷ []) (request 10 manual) chosen

nothing_chosen : (next_eligible_request waiting 2 []).0 ≡ none
unfolding next_eligible_request priority_reservations
nothing_chosen = refl

next_eligible_request-none_example : eligible waiting 2 [] (request 11 routine) ≡ false
next_eligible_request-none_example =
    next_eligible_request-none waiting 2 [] (omega arith) nothing_chosen routine
      (request 11 routine) (inl refl)

-- The camera is submitted and claimed, and the lease that was granted ends.
abbrev first_calls : List Call
first_calls = submitting (camera 10) path manual 0 60_000_000 ∷ claiming 0 targets ∷ []

abbrev first_request : ProbeRequest
first_request = record (request 10 manual) { request_id = uuid 1000 }

abbrev granted : ProbeLease
granted = record lease { request_id = uuid 1000 }

abbrev submitted : Scheduler
submitted = record started {
  requests_by_camera = (uuid 10, first_request) ∷ [];
  pending = record {
    manual_queue = first_request ∷ [];
    confirmation_queue = [];
    routine_queue = [];
  };
  attempts = (uuid 1000, 0) ∷ [];
  submitted_total = 1;
  requests_drawn = 1;
}

abbrev claimed : Scheduler
claimed = record submitted {
  pending = record { manual_queue = []; confirmation_queue = []; routine_queue = [] };
  active = (uuid 1000, granted) ∷ [];
  attempts = (uuid 1000, 1) ∷ [];
  fair_index = 1;
  tokens_drawn = 1;
}

submitted_first : (submit (camera 10) path manual 0 60_000_000 started).1 ≡ submitted
unfolding submit get put priority_reservations require_probe_eligible expire_active
    drop_expired_pending checked_request
submitted_first = refl

claimed_first : (claim_available 0 targets submitted).1 ≡ claimed
unfolding claim_available get put priority_reservations expire_active refresh_pending_targets
    drop_expired_pending same_probe_generation ProbeGenerationKey-discrete ℕ_discrete
    probe_generation_key String-discrete require_probe_eligible next_eligible_request remove_first
    ProbeRequest-discrete checked_lease
claimed_first = refl

ran : run first_calls started ≡ claimed
unfolding run
ran = ap (λ s. (claim_available 0 targets s).1) submitted_first ∙ claimed_first

granted-IsCurrent : IsCurrent (run first_calls started) granted
unfolding get
granted-IsCurrent = rw ran (record { active = refl; request = (first_request, refl, refl) })

tokens_apart : (j k : ℕ) → ids.lease_token j ≡ ids.lease_token k → j ≡ k
tokens_apart j k e = omega arith

finish_once_example :
    IsSpent granted (run calls (complete granted result (run first_calls started)).1)
    × IsSpent granted (run calls (cancel granted (run first_calls started)).1)
finish_once_example =
    finish_once settings ids started first_calls calls granted result tokens_apart started-create
      granted-IsCurrent refl

priority_reservations-exact_example :
    (total (priority_reservations 16) ≡ 16)
    × (1 ≤ reserved (priority_reservations 16) routine)
    × (16 * priority_weight routine / 10 ≤ reserved (priority_reservations 16) routine)
priority_reservations-exact_example = priority_reservations-exact 16 routine (omega arith)
