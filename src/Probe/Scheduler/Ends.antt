-- ===== src/Probe/Scheduler/Ends.antt =====
-- Steps that do not run out of fuel.
use rtsp_proxy.Prelude.{◌≢◌}
use rtsp_proxy.Prelude.Errors.{Result, ok, err, out_of_fuel}
use rtsp_proxy.Probe.Scheduler.State.{Scheduler}
use rtsp_proxy.Probe.Scheduler.Steps.{Step, follow, ◌>>=◌}

abbrev pub IsAnswer : {A : Type 0} → Result A → Type 0
IsAnswer r = r ≢ err out_of_fuel

pub record Ends {A : Type 0} (m : Step A) : Type 0 where
  pub at : (s : Scheduler) → IsAnswer (m s).0

module _ {A B : Type 0} where
  pub follow-Ends :
      (f : A → Step B)
      → ((a : A) → Ends (f a))
      → (out : Result A × Scheduler) → IsAnswer out.0
      → IsAnswer (follow out.0 f out.1).0
  follow-Ends f kf (ok a, t) n = (kf a).at t
  follow-Ends f kf (err e, t) n = λ h. n (cc)

  pub Ends-bind : (m : Step A) (f : A → Step B) → Ends m → ((a : A) → Ends (f a)) → Ends (m >>= f)
  Ends-bind m f km kf = record { at = λ s. follow-Ends f kf (m s) (km.at s) }
