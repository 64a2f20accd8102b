-- ===== src/Probe/Scheduler/Steps.antt =====
-- A method of the scheduler takes its state and returns it beside the result: what was written
-- before an exception stays written.
use rtsp_proxy.Prelude.Errors.{Result, ok, err, Error}
use rtsp_proxy.Probe.Scheduler.State.{Scheduler}

abbrev pub Step : Type 0 → Type 0
Step A = Scheduler → Result A × Scheduler

-- What comes after a result: the rest of the method, or the exception.
abbrev pub follow : {A B : Type 0} → Result A → (A → Step B) → Step B
follow (ok a) f s = f a s
follow (err e) f s = (err e, s)

infixl 5 ◌>>=◌ ◌>>◌
abbrev pub ◌>>=◌ : {A B : Type 0} → Step A → (A → Step B) → Step B
◌>>=◌ m f s = let (r, s') = m s in follow r f s'

abbrev pub ◌>>◌ : {A B : Type 0} → Step A → Step B → Step B
m >> k = m >>= λ _. k

abbrev pub raise : {A : Type 0} → Error → Step A
raise e s = (err e, s)

abbrev pub done : {A : Type 0} → A → Step A
done a s = (ok a, s)

-- The call of a function that changes no state.
abbrev pub lift : {A : Type 0} → Result A → Step A
lift r s = (r, s)

-- A statement that cannot raise.
abbrev pub modify : (Scheduler → Scheduler) → Step (Unit {0})
modify f s = (ok tt, f s)
