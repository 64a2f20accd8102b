-- ===== src/Probe/Scheduler/Keeps.antt =====
-- Invariants of the scheduler's steps, one rule for each way to build a step. What is kept is kept
-- whether the step returns or raises.
use rtsp_proxy.Prelude.Errors.{Result, ok, err}
use rtsp_proxy.Probe.Scheduler.State.{Scheduler}
use rtsp_proxy.Probe.Scheduler.Steps.{Step, follow, ◌>>=◌}

pub record Keeps {A : Type 0} (P : Scheduler → Type 0) (m : Step A) : Type 0 where
  pub at : (s : Scheduler) → P s → P (m s).1

module _ {P : Scheduler → Type 0} {A B : Type 0} where
  pub follow-Keeps :
      (f : A → Step B)
      → ((a : A) → Keeps P (f a))
      → (out : Result A × Scheduler) → P out.1
      → P (follow out.0 f out.1).1
  follow-Keeps f kf (ok a, t) p = (kf a).at t p
  follow-Keeps f kf (err e, t) p = p

  pub Keeps-bind :
      (m : Step A) (f : A → Step B) → Keeps P m → ((a : A) → Keeps P (f a)) → Keeps P (m >>= f)
  Keeps-bind m f km kf = record { at = λ s p. follow-Keeps f kf (m s) (km.at s p) }
