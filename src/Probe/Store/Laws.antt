-- ===== src/Probe/Store/Laws.antt =====
-- What the store of results promises.
use rtsp_proxy.Prelude.{
  ℕ, ◌<◌, ◌≡◌, refl, ◌∙◌, ap, Bool, true, false, ◌&&◌, Option, none, some, List, [], ◌∷◌, inl, inr,
  ◌⊎◌, arith, Bool-cases, Option-cases, ◌==◌, ==_iff, if◌then◌else◌, eqb_refl, eqb→eq, get, leb,
  eqb,
}
use rtsp_proxy.Prelude.Errors.{Result, ok, err}
use rtsp_proxy.Probe.Kinds.{ProbeMethod, same_method}
use rtsp_proxy.Probe.Data.{ProbeTarget, ProbeObservation}
use rtsp_proxy.Probe.Identity.{ProbeObservation-discrete, observation_target_is_current}
use rtsp_proxy.Probe.Eligibility.{
  require_probe_eligible, IsEligible, require_probe_eligible_sound, require_probe_eligible_complete,
}
use rtsp_proxy.Probe.Store.{
  Entry, Store, find, write, store_result, against, is_current, record_admitted, if_eligible,
  record_if_current,
}

find-write :
    (camera c : ℕ) (method m : ProbeMethod) (o : ProbeObservation) (l : List Entry)
    → find c m (write camera method o l)
      ≡ (if camera == c && same_method method m then some o else find c m l)
unfolding find write
find-write camera c method m o [] = refl
find-write camera c method m o (e ∷ rest) = ground (arith, find-write camera c method m o rest)

-- Nothing that is recorded takes the place of a result with a later completion time.
abbrev pub NotOlder : Option ProbeObservation → Option ProbeObservation → Type 0
NotOlder none new = Unit
NotOlder (some old) none = ⊥
NotOlder (some old) (some new) = (old ≡ new) ⊎ (old.completed_at < new.completed_at)

NotOlder-refl : (o : Option ProbeObservation) → NotOlder o o
NotOlder-refl none = tt
NotOlder-refl (some o) = inl refl

-- What an attempt to record leads to.
pub data Recorded (o : ProbeObservation) (s : Store) : Bool → Store → Type 0 where
  stored :
      (t : Store)
      → t.targets ≡ s.targets
      → find o.target.camera_id o.method t.observations ≡ some o
      → ((c : ℕ) (m : ProbeMethod) → NotOlder (find c m s.observations) (find c m t.observations))
      → Recorded o s true t
  refused : Recorded o s false s

same_method_refl : (m : ProbeMethod) → same_method m m ≡ true
same_method_refl m = ground arith

key_refl :
    (o : ProbeObservation)
    → (o.target.camera_id == o.target.camera_id && same_method o.method o.method) ≡ true
key_refl o = ground (arith, same_method_refl o.method)

NotOlder-write :
    (old : Option ProbeObservation) (o : ProbeObservation) (same : Bool)
    → (same ≡ true → (q : ProbeObservation) → old ≡ some q → q.completed_at < o.completed_at)
    → NotOlder old (if same then some o else old)
NotOlder-write old o false newer = NotOlder-refl old
NotOlder-write none o true newer = tt
NotOlder-write (some q) o true newer = inr (newer refl q refl)

same_method-eq : (a b : ProbeMethod) → same_method a b ≡ true → a ≡ b
same_method-eq a b h = ground arith

written-Recorded :
    (o : ProbeObservation) (s : Store)
    → ((old : ProbeObservation)
        → find o.target.camera_id o.method s.observations ≡ some old
        → old.completed_at < o.completed_at)
    → Recorded o s (store_result o s).0 (store_result o s).1
unfolding store_result
written-Recorded o s newer = stored _ refl (rw (find-write, key_refl o) refl) λ c m. rw find-write (
    NotOlder-write (find c m s.observations) o _ λ same q e.
      let at_camera : o.target.camera_id ≡ c = ground arith in
      let by_method : o.method ≡ m = same_method-eq o.method m (ground arith) in
      newer q (rw (at_camera, by_method) e))

against-Recorded :
    (o : ProbeObservation) (s : Store) (old : Option ProbeObservation)
    → find o.target.camera_id o.method s.observations ≡ old
    → Recorded o s (against old o s).0 (against old o s).1
unfolding against
against-Recorded o s none e = written-Recorded o s (λ q f. absurd (ground arith))
against-Recorded o s (some old) e = elim (Bool-cases (old.observation_id == o.observation_id)) [
  | inl same_id ↦ rw same_id (repeated (eqb ProbeObservation-discrete old o) refl)
  | inr other_id ↦ rw other_id (elim (Bool-cases (leb o.completed_at old.completed_at)) [
    | inl late ↦ rw late refused
    | inr newer ↦ rw newer (written-Recorded o s (λ q f. ground arith))
  ])
]
  where
    repeated : (b : Bool) → eqb ProbeObservation-discrete old o ≡ b → Recorded o s b s
    repeated true h =
        stored s refl (e ∙ ap some (eqb→eq ProbeObservation-discrete old o h))
          (λ c m. NotOlder-refl (find c m s.observations))
    repeated false h = refused

record_admitted-Recorded :
    (o : ProbeObservation) (s : Store)
    → Recorded o s (record_admitted o s).0 (record_admitted o s).1
unfolding record_admitted
record_admitted-Recorded o s = elim (Bool-cases (is_current (get o.target.camera_id s.targets) o)) [
  | inl current ↦ rw current (against-Recorded o s _ refl)
  | inr fenced ↦ rw fenced refused
]

-- An attempt to record a result is answered by `true` with the result in its place, where no result
-- with a later completion time was replaced and the targets are as before; or by `false` or an
-- exception with the store as it was.
abbrev pub Effect : ProbeObservation → Store → Result Bool × Store → Type 0
Effect o s (ok answer, t) = Recorded o s answer t
Effect o s (err e, t) = t ≡ s

if_eligible-Effect :
    (r : Result (Unit {0})) (o : ProbeObservation) (s : Store) → Effect o s (if_eligible r o s)
unfolding if_eligible
if_eligible-Effect (ok u) o s = record_admitted-Recorded o s
if_eligible-Effect (err e) o s = refl

-- Every attempt to record has one of these effects: the result stands in its place, no result gave
-- way to one that was not completed later, the targets are as before and the answer is `true`; or
-- nothing changed.
pub record_if_current-Effect :
    (o : ProbeObservation) (s : Store) → Effect o s (record_if_current o s)
unfolding record_if_current
record_if_current-Effect o s = if_eligible-Effect (require_probe_eligible o.target o.method) o s

-- The target that the store knows for the camera of the result, if it admits the result.
abbrev pub Admits : ProbeObservation → Store → Type 0
Admits o s =
    (t : ProbeTarget) × (get o.target.camera_id s.targets ≡ some t)
    × (observation_target_is_current o.target t o.method ≡ true)

is_current-Admits :
    (o : ProbeObservation) (s : Store)
    → is_current (get o.target.camera_id s.targets) o ≡ true
    → Admits o s
unfolding is_current
is_current-Admits o s h = elim (Option-cases (get o.target.camera_id s.targets)) [
  | inl missing ↦ absurd (ground arith)
  | inr (t, e) ↦ (t, e, ground arith)
]

record_admitted-fenced :
    (o : ProbeObservation) (s : Store) → (record_admitted o s).0 ≡ true → Admits o s
unfolding record_admitted
record_admitted-fenced o s h = elim (Bool-cases (is_current (get o.target.camera_id s.targets) o)) [
  | inl current ↦ is_current-Admits o s current
  | inr fenced ↦ absurd (ground arith)
]

if_eligible-fenced :
    (r : Result (Unit {0})) (o : ProbeObservation) (s : Store)
    → require_probe_eligible o.target o.method ≡ r
    → (if_eligible r o s).0 ≡ ok true
    → IsEligible o.target o.method × Admits o s
unfolding if_eligible
if_eligible-fenced (ok u) o s e h =
    (require_probe_eligible_sound o.target o.method e, record_admitted-fenced o s (ground arith))
if_eligible-fenced (err x) o s e h = absurd (ground arith)

-- Where an attempt to record answers `true`, the target of the result is eligible for its method,
-- and the store admits it for the target that it knows for its camera.
pub record_if_current-fenced :
    (o : ProbeObservation) (s : Store)
    → (record_if_current o s).0 ≡ ok true
    → IsEligible o.target o.method × Admits o s
unfolding record_if_current
record_if_current-fenced o s h = if_eligible-fenced _ o s refl h

Recorded-place :
    (o : ProbeObservation) (s : Store) (b : Bool) (t : Store)
    → Recorded o s b t
    → b ≡ true
    → (t.targets ≡ s.targets) × (find o.target.camera_id o.method t.observations ≡ some o)
Recorded-place o s b t (stored _ same place _) h = (same, place)
Recorded-place o s b t refused h = absurd (ground arith)

Effect-place :
    (o : ProbeObservation) (s : Store) (out : Result Bool × Store)
    → Effect o s out
    → out.0 ≡ ok true
    → (out.1.targets ≡ s.targets) × (find o.target.camera_id o.method out.1.observations ≡ some o)
Effect-place o s (ok b, t) e h = Recorded-place o s b t e (ground arith)
Effect-place o s (err x, t) e h = absurd (ground arith)

admitted_again :
    (o : ProbeObservation) (t : Store)
    → is_current (get o.target.camera_id t.targets) o ≡ true
    → find o.target.camera_id o.method t.observations ≡ some o
    → record_admitted o t ≡ (true, t)
unfolding record_admitted against
admitted_again o t current place =
    rw
      (
        current,
        place,
        (==_iff o.observation_id o.observation_id).1 refl,
        eqb_refl ProbeObservation-discrete o,
      )
      refl

recorded_again :
    (o : ProbeObservation) (t : Store)
    → IsEligible o.target o.method
    → is_current (get o.target.camera_id t.targets) o ≡ true
    → find o.target.camera_id o.method t.observations ≡ some o
    → record_if_current o t ≡ (ok true, t)
unfolding record_if_current if_eligible
recorded_again o t fit current place =
    rw (require_probe_eligible_complete o.target o.method fit, admitted_again o t current place)

-- Where a result was recorded, recording it again at once answers `true` and changes nothing.
pub record_if_current_again :
    (o : ProbeObservation) (s : Store)
    → (record_if_current o s).0 ≡ ok true
    → record_if_current o (record_if_current o s).1 ≡ (ok true, (record_if_current o s).1)
record_if_current_again o s h =
    let (same, place) = Effect-place o s (record_if_current o s) (record_if_current-Effect o s) h in
    let (fit, admits) = record_if_current-fenced o s h in
    recorded_again o (record_if_current o s).1 fit
      (rw same (unfold is_current in rw admits.1 admits.2)) place
