-- ===== src/Probe/Scheduler/Budget.antt =====
-- The budgets of the scheduler: how many leases may be active at once.
use rtsp_proxy.Prelude.{ℕ, ◌≤◌, ◌≡◌, refl, String, Bool, true, ◌∙◌, count, values, arith}
use rtsp_proxy.Prelude.Errors.{Result, ok, err}
use rtsp_proxy.Probe.Kinds.{ProbeMethod}
use rtsp_proxy.Probe.Data.{ProbeLease}
use rtsp_proxy.Probe.Scheduler.State.{Scheduler, method_limit}
use rtsp_proxy.Probe.Scheduler.Steps.{Step, follow, ◌>>=◌, done, lift, modify}
use rtsp_proxy.Probe.Scheduler.Select.{active_on_node, active_on_site, active_by_method}

-- No budget is overdrawn.
pub record IsWithinBudget (s : Scheduler) : Type 0 where
  pub in_all : count (λ _. true) (values s.active) ≤ s.settings.global_limit
  pub on_node : (node : ℕ) → active_on_node s node ≤ s.settings.per_node_limit
  pub on_site : (site : String) → active_on_site s site ≤ s.settings.per_site_limit
  pub by_method : (m : ProbeMethod) → active_by_method s m ≤ method_limit s.settings m

-- The settings stay, no kind of lease becomes more frequent, and no token is put back.
pub record Narrows (s t : Scheduler) : Type 0 where
  pub settings : t.settings ≡ s.settings
  pub reservations : t.reservations ≡ s.reservations
  pub ids : t.ids ≡ s.ids
  pub fewer : (p : ProbeLease → Bool) → count p (values t.active) ≤ count p (values s.active)
  pub tokens : s.tokens_drawn ≤ t.tokens_drawn

pub Narrows-refl : (s : Scheduler) → Narrows s s
Narrows-refl s = record {
  settings = refl;
  reservations = refl;
  ids = refl;
  fewer = λ p. omega arith;
  tokens = omega arith;
}

-- A statement that leaves the settings, the reservations, the ids and the leases.
pub Narrows-same :
    (s t : Scheduler)
    → t.settings ≡ s.settings
    → t.reservations ≡ s.reservations
    → t.ids ≡ s.ids
    → t.active ≡ s.active
    → s.tokens_drawn ≤ t.tokens_drawn
    → Narrows s t
Narrows-same s t a b c d e = record {
  settings = a;
  reservations = b;
  ids = c;
  fewer = λ p. rw d (omega arith);
  tokens = e;
}

pub Narrows-trans : (s t u : Scheduler) → Narrows s t → Narrows t u → Narrows s u
Narrows-trans s t u a b = record {
  settings = b.settings ∙ a.settings;
  reservations = b.reservations ∙ a.reservations;
  ids = b.ids ∙ a.ids;
  fewer = λ p. omega (arith, a.fewer p, b.fewer p);
  tokens = omega (arith, a.tokens, b.tokens);
}

pub Narrows-IsWithinBudget : (s t : Scheduler) → Narrows s t → IsWithinBudget s → IsWithinBudget t
Narrows-IsWithinBudget s t n b = record {
  in_all = rw n.settings (omega (arith, n.fewer (λ _. true), b.in_all));
  on_node = λ node. rw n.settings (omega (arith, n.fewer _, b.on_node node));
  on_site = λ site. rw n.settings (omega (arith, n.fewer _, b.on_site site));
  by_method = λ m. rw n.settings (omega (arith, n.fewer _, b.by_method m));
}

-- Whatever a step returns or raises, it narrows.
pub record IsNarrowing {A : Type 0} (m : Step A) : Type 0 where
  pub at : (s : Scheduler) → Narrows s (m s).1

module _ {A : Type 0} where
  pub IsNarrowing-done : (a : A) → IsNarrowing (done a)
  IsNarrowing-done a = record { at = λ s. Narrows-refl s }

  pub IsNarrowing-lift : (r : Result A) → IsNarrowing (lift r)
  IsNarrowing-lift r = record { at = λ s. Narrows-refl s }

module _ {A B : Type 0} where
  pub IsNarrowing-bind :
      (m : Step A) (f : A → Step B)
      → IsNarrowing m
      → ((a : A) → IsNarrowing (f a))
      → IsNarrowing (m >>= f)
  IsNarrowing-bind m f km kf = record { at = λ s. go s (m s).0 (m s).1 (km.at s) }
    where
      go : (s : Scheduler) (r : Result A) (t : Scheduler) → Narrows s t → Narrows s (follow r f t).1
      go s (ok a) t n = Narrows-trans s t _ n ((kf a).at t)
      go s (err e) t n = n

pub IsNarrowing-modify :
    (f : Scheduler → Scheduler) → ((s : Scheduler) → Narrows s (f s)) → IsNarrowing (modify f)
IsNarrowing-modify f h = record { at = h }
