-- ===== src/Probe/Scheduler/Claim/WithinBudget.antt =====
-- The grants keep the budgets.
use rtsp_proxy.Prelude.{
  ℕ, ◌+◌, ◌≤◌, ◌<◌, ◌≡◌, refl, sym, Bool, true, false, arith, if◌then◌else◌, ==_iff, eqb→eq,
  String-discrete, ap, ◌∙◌, subst,
}
use rtsp_proxy.Prelude.Errors.{Result, ok, err}
use rtsp_proxy.Probe.Kinds.{ProbeMethod, same_method}
use rtsp_proxy.Probe.Data.{ProbeTarget, ProbeRequest, ProbeLease}
use rtsp_proxy.Probe.Scheduler.State.{Scheduler, method_limit}
use rtsp_proxy.Probe.Scheduler.Claim.Keeping.{HasRoom}
use rtsp_proxy.Probe.Scheduler.Budget.{IsWithinBudget, Narrows-IsWithinBudget}
use rtsp_proxy.Probe.Scheduler.Select.{active_on_node, active_on_site, active_by_method}
use rtsp_proxy.Probe.Scheduler.Claim.Grant.{IsGranted, Granted, grant_lease-Granted}
use rtsp_proxy.Probe.Scheduler.Claim.{grant_lease}

-- One more fits where the test of the new lease leaves room.
still_fits :
    (c d bound : ℕ) (b : Bool)
    → d ≤ c + (if b then 1 else 0)
    → c ≤ bound
    → (b ≡ true → c < bound)
    → d ≤ bound
still_fits c d bound true h k m = let less = m refl in omega arith
still_fits c d bound false h k m = omega arith

same_method-eq : (a b : ProbeMethod) → same_method a b ≡ true → a ≡ b
same_method-eq a b h = ground arith

-- A lease for a request with room keeps the budgets.
grant-IsWithinBudget :
    (now : ℕ) (s t : Scheduler) (r : ProbeRequest) (l : ProbeLease)
    → HasRoom s r
    → IsWithinBudget s
    → IsGranted now r s l t
    → IsWithinBudget t
grant-IsWithinBudget now s t r l room b g = record {
  in_all = rw g.settings (omega (arith, g.one_more (λ _. true), room.in_all));
  on_node = λ node. rw g.settings (
      still_fits _ _ _ _ (g.one_more _) (b.on_node node) λ e.
        subst (λ k. active_on_node s k < s.settings.per_node_limit)
          (ap (λ (x : ProbeTarget). x.node_id) (sym g.lease.same_target) ∙ (==_iff _ _).0 e)
          room.on_node);
  on_site = λ site. rw g.settings (
      still_fits _ _ _ _ (g.one_more _) (b.on_site site) λ e.
        subst (λ k. active_on_site s k < s.settings.per_site_limit)
          (ap (λ (x : ProbeTarget). x.site_key) (sym g.lease.same_target)
            ∙ eqb→eq String-discrete _ _ e)
          room.on_site);
  by_method = λ m. rw g.settings (
      still_fits _ _ _ _ (g.one_more _) (b.by_method m) λ e.
        subst (λ k. active_by_method s k < method_limit s.settings k)
          (sym g.lease.same_method ∙ same_method-eq _ _ e) room.by_method);
}

after_grant :
    (now : ℕ) (s : Scheduler) (r : ProbeRequest) (out : Result ProbeLease × Scheduler)
    → HasRoom s r
    → IsWithinBudget s
    → Granted now r s out
    → IsWithinBudget out.1
after_grant now s r (ok l, t) room b g = grant-IsWithinBudget now s t r l room b g
after_grant now s r (err e, t) room b g = Narrows-IsWithinBudget s t g b

pub grant_lease-IsWithinBudget :
    (now : ℕ) (r : ProbeRequest) (s : Scheduler)
    → HasRoom s r
    → IsWithinBudget s
    → IsWithinBudget (grant_lease now r s).1
grant_lease-IsWithinBudget now r s room b =
    after_grant now s r (grant_lease now r s) room b (grant_lease-Granted now r s)
