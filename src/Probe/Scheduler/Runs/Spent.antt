-- ===== src/Probe/Scheduler/Runs/Spent.antt =====
-- A lease ends once, whatever calls follow.
use rtsp_proxy.Prelude.{
  ℕ, ◌≤◌, ◌≡◌, ◌≢◌, refl, ◌∙◌, ap, sym, true, some, List, count, values, arith, inl, inr,
  Bool-cases, ◌==◌, ==_iff, get, pop, count-get, count-pop-lt,
}
use rtsp_proxy.Prelude.Errors.{Result, ok, err}
use rtsp_proxy.Probe.Data.{ProbeRequest, ProbeLease, ProbeExecutionResult}
use rtsp_proxy.Probe.Scheduler.State.{Settings, Ids, Scheduler, create}
use rtsp_proxy.Probe.Scheduler.Budget.{Narrows}
use rtsp_proxy.Probe.Scheduler.Claim.{grant_lease}
use rtsp_proxy.Probe.Scheduler.Claim.Grant.{Granted, grant_lease-Granted}
use rtsp_proxy.Probe.Scheduler.Claim.Tokens.{TakesToken, grant_lease-TakesToken}
use rtsp_proxy.Probe.Scheduler.Finish.{complete, cancel, in_window}
use rtsp_proxy.Probe.Scheduler.Finish.Fencing.{
  IsCurrent, IsSpent, stale-IsSpent, complete_active, cancel_active,
}
use rtsp_proxy.Probe.Scheduler.Runs.{Call, run, run-Keeps}

-- How many active leases have the token.
abbrev with_token : ℕ → Scheduler → ℕ
with_token token s = count (λ (l : ProbeLease). l.lease_token == token) (values s.active)

-- No token is of two active leases, and none that is still to be drawn is of an active lease.
record IsDistinct (s : Scheduler) : Type 0 where
  apart : (j k : ℕ) → s.ids.lease_token j ≡ s.ids.lease_token k → j ≡ k
  one : (token : ℕ) → with_token token s ≤ 1
  coming : (k : ℕ) → s.tokens_drawn ≤ k → with_token (s.ids.lease_token k) s ≡ 0

-- No active lease has the token, and it is not drawn again.
record IsRetired (token : ℕ) (s : Scheduler) : Type 0 where
  gone : with_token token s ≡ 0
  past : (k : ℕ) → s.tokens_drawn ≤ k → s.ids.lease_token k ≢ token

Narrows-IsDistinct : (s t : Scheduler) → Narrows s t → IsDistinct s → IsDistinct t
Narrows-IsDistinct s t n d = record {
  apart = rw n.ids d.apart;
  one = λ token. omega (arith, n.fewer (λ l. l.lease_token == token), d.one token);
  coming = λ k h. rw n.ids (
      omega (
        arith,
        n.fewer (λ l. l.lease_token == s.ids.lease_token k),
        d.coming k (omega (arith, n.tokens, h)),
      ));
}

Narrows-IsRetired :
    (token : ℕ) (s t : Scheduler) → Narrows s t → IsRetired token s → IsRetired token t
Narrows-IsRetired token s t n d = record {
  gone = omega (arith, n.fewer (λ l. l.lease_token == token), d.gone);
  past = λ k h. rw n.ids (d.past k (omega (arith, n.tokens, h)));
}

Granted-IsDistinct :
    (now : ℕ) (r : ProbeRequest) (s : Scheduler) (out : Result ProbeLease × Scheduler)
    → Granted now r s out
    → TakesToken s out
    → IsDistinct s
    → IsDistinct out.1
Granted-IsDistinct now r s (err e, t) g k d = Narrows-IsDistinct s t g d
Granted-IsDistinct now r s (ok l, t) g (ids, token, drawn) d = record {
  apart = rw ids d.apart;
  one = λ wanted. elim (Bool-cases (l.lease_token == wanted)) [
    | inl same ↦
        let first = (==_iff _ _).0 same in
        let before : with_token wanted s ≡ 0 =
          ap (λ x. with_token x s) (sym first ∙ token) ∙ d.coming s.tokens_drawn (omega arith) in
        let more = rw same at (g.one_more (λ m. m.lease_token == wanted)) in
        omega (arith, more, before)
    | inr other ↦
        let more = rw other at (g.one_more (λ m. m.lease_token == wanted)) in
        omega (arith, more, d.one wanted)
  ];
  coming = λ k h. rw ids (elim (Bool-cases (l.lease_token == s.ids.lease_token k)) [
    | inl same ↦
        let again = d.apart s.tokens_drawn k (sym token ∙ (==_iff _ _).0 same) in
        absurd (omega (arith, again, drawn, h))
    | inr other ↦
        let more = rw other at (g.one_more (λ m. m.lease_token == s.ids.lease_token k)) in
        omega (arith, more, d.coming k (omega (arith, drawn, h)))
  ]);
}

Granted-IsRetired :
    (token now : ℕ) (r : ProbeRequest) (s : Scheduler) (out : Result ProbeLease × Scheduler)
    → Granted now r s out
    → TakesToken s out
    → IsRetired token s
    → IsRetired token out.1
Granted-IsRetired token now r s (err e, t) g k d = Narrows-IsRetired token s t g d
Granted-IsRetired token now r s (ok l, t) g (ids, same, drawn) d = record {
  gone = elim (Bool-cases (l.lease_token == token)) [
    | inl taken ↦ absurd (d.past s.tokens_drawn (omega arith) (sym same ∙ (==_iff _ _).0 taken))
    | inr other ↦
        let more = rw other at (g.one_more (λ m. m.lease_token == token)) in
        omega (arith, more, d.gone)
  ];
  past = λ k h. rw ids (d.past k (omega (arith, drawn, h)));
}

run-IsDistinct : (calls : List Call) (s : Scheduler) → IsDistinct s → IsDistinct (run calls s)
run-IsDistinct = run-Keeps IsDistinct Narrows-IsDistinct λ now r s room d.
    Granted-IsDistinct now r s (grant_lease now r s) (grant_lease-Granted now r s)
      (grant_lease-TakesToken now r s) d

run-IsRetired :
    (token : ℕ) (calls : List Call) (s : Scheduler)
    → IsRetired token s
    → IsRetired token (run calls s)
run-IsRetired token = run-Keeps (IsRetired token) (Narrows-IsRetired token) λ now r s room d.
    Granted-IsRetired token now r s (grant_lease now r s) (grant_lease-Granted now r s)
      (grant_lease-TakesToken now r s) d

retired-IsSpent : (l : ProbeLease) (t : Scheduler) → IsRetired l.lease_token t → IsSpent l t
retired-IsSpent l t d = stale-IsSpent l t λ c. omega (
  arith,
  count-get (λ (m : ProbeLease). m.lease_token == l.lease_token) l.request_id l t.active c.active
      ((==_iff _ _).1 refl),
  d.gone,
)

-- The lease was the only one with its token, and leaves.
popped-IsRetired :
    (l : ProbeLease) (s t : Scheduler)
    → IsDistinct s
    → get l.request_id s.active ≡ some l
    → (t.active ≡ pop l.request_id s.active) × (t.ids ≡ s.ids) × (t.tokens_drawn ≡ s.tokens_drawn)
    → IsRetired l.lease_token t
popped-IsRetired l s t d found (popped, ids, drawn) =
    let has = λ (m : ProbeLease). m.lease_token == l.lease_token in
    record {
      gone = rw popped (
          omega (
            arith,
            count-pop-lt has l.request_id l s.active found ((==_iff _ _).1 refl),
            d.one l.lease_token,
          ));
      past = λ k h e. omega (
        arith,
        count-get has l.request_id l s.active found ((==_iff _ _).1 refl),
        ap (λ x. with_token x s) (sym (rw ids at e)) ∙ d.coming k (rw drawn at h),
      );
    }

retired_run :
    (after : List Call) (l : ProbeLease) (s t : Scheduler)
    → IsDistinct s
    → get l.request_id s.active ≡ some l
    → (t.active ≡ pop l.request_id s.active) × (t.ids ≡ s.ids) × (t.tokens_drawn ≡ s.tokens_drawn)
    → IsSpent l (run after t)
retired_run after l s t d found e =
    retired-IsSpent l (run after t)
      (run-IsRetired l.lease_token after t (popped-IsRetired l s t d found e))

create-IsDistinct :
    (c : Settings) (ids : Ids) (s : Scheduler)
    → ((j k : ℕ) → ids.lease_token j ≡ ids.lease_token k → j ≡ k)
    → create c ids ≡ ok s
    → IsDistinct s
unfolding create
create-IsDistinct c ids s apart h = record {
  apart = let same : s.ids ≡ ids = ground arith in rw same apart;
  one = λ token. ground arith;
  coming = λ k before. ground arith;
}

-- Where the lease tokens that are drawn differ from each other: after any calls from the creation
-- on, a lease that is current is spent once it has been completed in time, and once it has been
-- cancelled. Whatever calls follow, claims included, to complete or to cancel it again raises and
-- changes nothing.
pub finish_once :
    (c : Settings) (ids : Ids) (start : Scheduler) (before after : List Call) (l : ProbeLease)
    (r : ProbeExecutionResult)
    → ((j k : ℕ) → ids.lease_token j ≡ ids.lease_token k → j ≡ k)
    → create c ids ≡ ok start
    → IsCurrent (run before start) l
    → in_window l r ≡ true
    → IsSpent l (run after (complete l r (run before start)).1)
      × IsSpent l (run after (cancel l (run before start)).1)
finish_once c ids start before after l r apart created current inside =
    let s = run before start in
    let distinct = run-IsDistinct before start (create-IsDistinct c ids start apart created) in
    (
      retired_run after l s (complete l r s).1 distinct current.active
          (complete_active l r s current inside),
      retired_run after l s (cancel l s).1 distinct current.active (cancel_active l s current),
    )
