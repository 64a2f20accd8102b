-- ===== src/Probe/Scheduler/Claim/Fuel.antt =====
-- The loop of a claim ends by its test: each round takes a request from the queues.
use rtsp_proxy.Prelude.{
  ℕ, zero, suc, ◌<◌, ◌≡◌, ◌≢◌, refl, true, false, Bool, Option, none, some, List, [], ◌∷◌, inl, inr,
  arith, Bool-cases, Option-cases, Dict, length, eqb, ltb, ◌||◌, ap, ◌∙◌,
}
use rtsp_proxy.Prelude.Errors.{Result, ok, err, out_of_fuel}
use rtsp_proxy.Probe.Kinds.{ProbePriority, manual}
use rtsp_proxy.Probe.Data.{ProbeTarget, ProbeRequest, ProbeLease, checked_lease}
use rtsp_proxy.Probe.Identity.{ProbeRequest-discrete}
use rtsp_proxy.Probe.Scheduler.State.{Scheduler, queue, set_queue}
use rtsp_proxy.Probe.Scheduler.Steps.{Step, follow, ◌>>=◌, done}
use rtsp_proxy.Probe.Scheduler.Ends.{IsAnswer, Ends, follow-Ends, Ends-bind}
use rtsp_proxy.Probe.Scheduler.Expiry.{expire_active, drop_expired_pending}
use rtsp_proxy.Probe.Scheduler.Expiry.Ends.{expire_active-Ends}
use rtsp_proxy.Probe.Scheduler.Submit.{remove_first}
use rtsp_proxy.Probe.Scheduler.Select.{next_eligible_request}
use rtsp_proxy.Probe.Scheduler.Claim.{
  next_attempt, draw_token, take_pending, count_attempt, prepare, start_lease, activate,
  grant_lease, claim_chosen, claim_round, while_room, claim_loop, run_claims, claim_refreshed,
  claim_locked, claim_available, refresh_pending_targets, target_mismatch, pending_count,
}

remove_first-length :
    (r : ProbeRequest) (q l : List ProbeRequest)
    → remove_first r q ≡ some l
    → length q ≡ suc (length l)
unfolding remove_first
remove_first-length r [] l h = absurd (ground arith)
remove_first-length r (x ∷ q) l h = elim (Bool-cases (eqb ProbeRequest-discrete x r)) [
  | inl same ↦ ground arith
  | inr other ↦ elim (Option-cases (remove_first r q)) [
    | inl missing ↦ absurd (ground arith)
    | inr (rest, e) ↦ ground (arith, remove_first-length r q rest)
  ]
]

-- One request fewer is pending, or the exception is one of the program's.
abbrev Shorter : {A : Type 0} → ℕ → Result A × Scheduler → Type 0
Shorter n (ok a, t) = suc (pending_count t) ≡ n
Shorter n (err e, t) = e ≢ out_of_fuel

pending_count-set_queue :
    (p : ProbePriority) (l : List ProbeRequest) (s : Scheduler)
    → length (queue s.pending p) ≡ suc (length l)
    → suc (pending_count (record s { pending = set_queue p l s.pending })) ≡ pending_count s
unfolding pending_count
pending_count-set_queue manual l s h = omega arith
pending_count-set_queue _ l s h = omega arith

take_pending-Shorter :
    (r : ProbeRequest) (s : Scheduler) → Shorter (pending_count s) (take_pending r s)
unfolding take_pending
take_pending-Shorter r s = elim (Option-cases (remove_first r (queue s.pending r.priority))) [
  | inl missing ↦ rw missing (λ h. cc)
  | inr (l, e) ↦ rw e (
      pending_count-set_queue r.priority l s
        (remove_first-length r (queue s.pending r.priority) l e))
]

-- A step that leaves the queues.
record Leaves {A : Type 0} (m : Step A) : Type 0 where
  at : (s : Scheduler) → (pending_count (m s).1 ≡ pending_count s) × IsAnswer (m s).0

follow-Shorter :
    {A B : Type 0} (n : ℕ) (f : A → Step B) (out : Result A × Scheduler)
    → Shorter n out
    → ((a : A) → Leaves (f a))
    → Shorter n (follow out.0 f out.1)
follow-Shorter n f (err e, t) h kf = h
follow-Shorter {B} n f (ok a, t) h kf = go (f a t) ((kf a).at t)
  where
    go :
        (out : Result B × Scheduler)
        → (pending_count out.1 ≡ pending_count t) × IsAnswer out.0
        → Shorter n out
    go (ok b, u) (same, _) = omega arith
    go (err e, u) (_, answer) = λ same. answer (ap err same)

count_attempt-Leaves : (r : ProbeRequest) → Leaves (count_attempt r)
unfolding count_attempt next_attempt pending_count
count_attempt-Leaves r = record { at = λ s. ground arith }

Leaves-bind :
    {A B : Type 0} (m : Step A) (f : A → Step B)
    → Leaves m
    → ((a : A) → Leaves (f a))
    → Leaves (m >>= f)
Leaves-bind {A} {B} m f km kf = record { at = λ s. go s (m s) (km.at s) }
  where
    go :
        (s : Scheduler) (out : Result A × Scheduler)
        → (pending_count out.1 ≡ pending_count s) × IsAnswer out.0
        → (pending_count (follow out.0 f out.1).1 ≡ pending_count s)
          × IsAnswer (follow out.0 f out.1).0
    go s (ok a, t) (same, _) = (((kf a).at t).0 ∙ same, ((kf a).at t).1)
    go s (err e, t) (same, answer) = (same, λ h. answer (cc))

done-Leaves : {A : Type 0} (a : A) → Leaves (done a)
done-Leaves a = record { at = λ t. (refl, λ h. cc) }

draw_token-Leaves : Leaves draw_token
unfolding draw_token pending_count
draw_token-Leaves = record { at = λ s. (refl, λ h. cc) }

activate-Leaves : (now : ℕ) (r : ProbeRequest) (numbers : ℕ × ℕ) → Leaves (activate now r numbers)
unfolding activate start_lease pending_count checked_lease
activate-Leaves now r numbers = record { at = λ s. ground arith }

prepare-Shorter : (r : ProbeRequest) (s : Scheduler) → Shorter (pending_count s) (prepare r s)
unfolding prepare
prepare-Shorter r s =
    follow-Shorter (pending_count s) _ (take_pending r s) (take_pending-Shorter r s) λ _.
      Leaves-bind (count_attempt r) _ (count_attempt-Leaves r)
        λ attempt. Leaves-bind draw_token _ draw_token-Leaves λ token. done-Leaves (attempt, token)

grant_lease-Shorter :
    (now : ℕ) (r : ProbeRequest) (s : Scheduler) → Shorter (pending_count s) (grant_lease now r s)
unfolding grant_lease
grant_lease-Shorter now r s =
    follow-Shorter (pending_count s) (activate now r) (prepare r s) (prepare-Shorter r s)
      (activate-Leaves now r)

follow-Shorter-IsAnswer :
    {A B : Type 0} (n : ℕ) (f : A → Step B) (out : Result A × Scheduler)
    → Shorter n out
    → ((a : A) (t : Scheduler) → suc (pending_count t) ≡ n → IsAnswer (f a t).0)
    → IsAnswer (follow out.0 f out.1).0
follow-Shorter-IsAnswer n f (ok a, t) h k = k a t h
follow-Shorter-IsAnswer n f (err e, t) h k = λ same. h (cc)

claim_chosen-IsAnswer :
    (now : ℕ) (chosen : Option ProbeRequest) (rest : ProbeLease → Step (List ProbeLease))
    (s : Scheduler)
    → ((l : ProbeLease) (t : Scheduler)
        → suc (pending_count t) ≡ pending_count s
        → IsAnswer (rest l t).0)
    → IsAnswer (claim_chosen now chosen rest s).0
unfolding claim_chosen
claim_chosen-IsAnswer now none rest s k = λ h. cc
claim_chosen-IsAnswer now (some r) rest s k =
    follow-Shorter-IsAnswer (pending_count s) rest (grant_lease now r s)
      (grant_lease-Shorter now r s) k

claim_round-IsAnswer :
    (now : ℕ) (admitted : List ℕ) (rest : ProbeLease → Step (List ProbeLease)) (s : Scheduler)
    → ((l : ProbeLease) (t : Scheduler)
        → suc (pending_count t) ≡ pending_count s
        → IsAnswer (rest l t).0)
    → IsAnswer (claim_round now admitted rest s).0
unfolding claim_round pending_count
claim_round-IsAnswer now admitted rest s k =
    claim_chosen-IsAnswer now _ rest
      (record s { fair_index = (next_eligible_request s now admitted).1 }) k

while_room-IsAnswer :
    (room : Bool) (round : Step (List ProbeLease)) (s : Scheduler)
    → IsAnswer (round s).0
    → IsAnswer (while_room room round s).0
unfolding while_room
while_room-IsAnswer true round s k = k
while_room-IsAnswer false round s k = λ h. cc

done_more-Ends : (l : ProbeLease) (leases : List ProbeLease) → Ends (done (l ∷ leases))
done_more-Ends l leases = record { at = λ s h. cc }

claim_loop-IsAnswer :
    (fuel now : ℕ) (admitted : List ℕ) (s : Scheduler)
    → pending_count s < fuel
    → IsAnswer (claim_loop fuel now admitted s).0
unfolding claim_loop
claim_loop-IsAnswer zero now admitted s h = absurd (omega arith)
claim_loop-IsAnswer (suc fuel) now admitted s h =
    while_room-IsAnswer (ltb (length s.active) s.settings.global_limit) _ s (
      claim_round-IsAnswer now admitted _ s λ l t less.
        follow-Ends _ (done_more-Ends l) (claim_loop fuel now admitted t)
          (claim_loop-IsAnswer fuel now admitted t (omega arith)))

claim_refreshed-Ends : (now : ℕ) (targets : Dict ProbeTarget) → Ends (claim_refreshed now targets)
unfolding claim_refreshed run_claims
claim_refreshed-Ends now targets = record {
  at = λ s.
      claim_loop-IsAnswer (suc (pending_count (refresh_pending_targets targets s).1)) now
        (refresh_pending_targets targets s).0 (refresh_pending_targets targets s).1 (omega arith);
}

claim_locked-Ends : (now : ℕ) (targets : Dict ProbeTarget) → Ends (claim_locked now targets)
unfolding claim_locked
claim_locked-Ends now targets =
    Ends-bind (expire_active now) _ (expire_active-Ends now)
      λ _. record { at = λ s. (claim_refreshed-Ends now targets).at (drop_expired_pending now s) }

-- The loop of `claim_available` ends: from any state, at any instant and with any batch of current
-- targets, the call returns leases or raises an exception of the program, and never runs out of the
-- fuel it is given, one round for each pending request and one more.
pub claim_available_ends :
    (now : ℕ) (targets : Dict ProbeTarget) (s : Scheduler)
    → (claim_available now targets s).0 ≢ err out_of_fuel
unfolding claim_available
claim_available_ends now targets s =
    elim (Bool-cases (ltb s.settings.queue_limit (length targets) || target_mismatch targets)) [
      | inl wrong ↦ rw wrong (λ h. cc)
      | inr right ↦ rw right ((claim_locked-Ends now targets).at s)
    ]
