-- ===== src/Probe/Store.antt =====
-- `InMemoryProbeObservationStore` of probes.py: the latest result for each camera and method.
pub mod Laws
use rtsp_proxy.Prelude.{
  ℕ, Bool, true, false, not, ◌&&◌, ◌||◌, Option, none, some, List, [], ◌∷◌, ltb, leb, ◌==◌,
  if◌then◌else◌, filter, length, any, eqb, get, put, Dict,
}
use rtsp_proxy.Prelude.Errors.{value_error, Result, ok, err}
use rtsp_proxy.Probe.Text.{is_uuid4}
use rtsp_proxy.Probe.Kinds.{ProbeMethod, same_method}
use rtsp_proxy.Probe.Data.{ProbeTarget, ProbeObservation}
use rtsp_proxy.Probe.Identity.{ProbeObservation-discrete, observation_target_is_current}
use rtsp_proxy.Probe.Eligibility.{require_probe_eligible}

-- The keys of `_observations` are pairs of a camera and a method.
pub record Entry : Type 0 where
  pub camera : ℕ
  pub method : ProbeMethod
  pub observation : ProbeObservation

pub record Store : Type 0 where
  pub targets : Dict ProbeTarget
  pub observations : List Entry

unfoldable pub set_current_target : ProbeTarget → Store → Store
set_current_target target s = record s { targets = put target.camera_id target s.targets }

abbrev pub has_key : ℕ → ProbeMethod → Entry → Bool
has_key camera method e = e.camera == camera && same_method e.method method

unfoldable pub find : ℕ → ProbeMethod → List Entry → Option ProbeObservation
find camera method [] = none
find camera method (e ∷ rest) =
    if has_key camera method e then some e.observation else find camera method rest

unfoldable pub write : ℕ → ProbeMethod → ProbeObservation → List Entry → List Entry
write camera method o [] = record { camera = camera; method = method; observation = o } ∷ []
write camera method o (e ∷ rest) =
    if has_key camera method e
    then record e { observation = o } ∷ rest
    else e ∷ write camera method o rest

store_result : ProbeObservation → Store → Bool × Store
store_result o s =
    (true, record s { observations = write o.target.camera_id o.method o s.observations })

-- The comparison with the result that the store holds.
against : Option ProbeObservation → ProbeObservation → Store → Bool × Store
unfolding store_result
against none o s = store_result o s
against (some current) o s =
    if current.observation_id == o.observation_id
    then (eqb ProbeObservation-discrete current o, s)
    else if leb o.completed_at current.completed_at
    then (false, s)
    else store_result o s

is_current : Option ProbeTarget → ProbeObservation → Bool
is_current none o = false
is_current (some target) o = observation_target_is_current o.target target o.method

-- The part under the lock.
record_admitted : ProbeObservation → Store → Bool × Store
unfolding against is_current
record_admitted o s =
    if is_current (get o.target.camera_id s.targets) o
    then against (find o.target.camera_id o.method s.observations) o s
    else (false, s)

if_eligible : Result (Unit {0}) → ProbeObservation → Store → Result Bool × Store
unfolding record_admitted
if_eligible (err e) o s = (err e, s)
if_eligible (ok _) o s = let (done, t) = record_admitted o s in (ok done, t)

unfoldable pub record_if_current : ProbeObservation → Store → Result Bool × Store
unfolding if_eligible find write
record_if_current o s = if_eligible (require_probe_eligible o.target o.method) o s

-- The order of the keys `(completed_at, observation_id.int)`.
abbrev pub older : ProbeObservation → ProbeObservation → Bool
older a b =
    ltb a.completed_at b.completed_at
    || (a.completed_at == b.completed_at && ltb a.observation_id b.observation_id)

-- `max(candidates, key=…)`: the first of the greatest.
latest_from : ProbeObservation → List ProbeObservation → ProbeObservation
latest_from best [] = best
latest_from best (o ∷ rest) = latest_from (if older best o then o else best) rest

latest : List ProbeObservation → Option ProbeObservation
unfolding latest_from
latest [] = none
latest (o ∷ rest) = some (latest_from o rest)

candidates_from : ℕ → Option ProbeTarget → List Entry → List ProbeObservation
unfolding is_current
candidates_from camera target [] = []
candidates_from camera target (e ∷ rest) =
    let others = candidates_from camera target rest in
    if e.camera == camera && is_current target e.observation then e.observation ∷ others else others

collect : Store → List ℕ → Dict ProbeObservation
unfolding latest candidates_from
collect s [] = []
collect s (camera ∷ rest) =
    let others = collect s rest in
    elim (latest (candidates_from camera (get camera s.targets) s.observations)) [
      | none ↦ others
      | some o ↦ (camera, o) ∷ others
    ]

-- `len(camera_ids) != len(set(camera_ids))`
has_double : List ℕ → Bool
has_double [] = false
has_double (c ∷ rest) = any (λ d. d == c) rest || has_double rest

unfoldable pub latest_for : List ℕ → Store → Result (Dict ProbeObservation)
unfolding collect has_double
latest_for cameras s =
    if ltb 256 (length cameras) || has_double cameras || any (λ c. not (is_uuid4 c)) cameras
    then err (value_error "probe_result_batch_invalid")
    else ok (collect s cameras)
