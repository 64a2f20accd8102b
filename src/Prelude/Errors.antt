-- ===== src/Prelude/Errors.antt =====
-- Exceptions as values: a function that may raise returns a `Result`, and a method that may raise
-- after it has changed its object returns the object beside the result.
use Prim.Native.Nat.{ℕ}
use Prim.Native.String.{String}
use mathlib.Core.Path.{◌≡◌, refl}
use mathlib.Core.Logic.{◌⊎◌, inl, inr}
use mathlib.Core.Bool.{Bool, true, false}
use mathlib.Core.Option.{Option, none, some}
use rtsp_proxy.Prelude.Tests.{if◌then◌else◌}

-- The exception classes that the modelled code raises, each with its message.
pub data Error : Type 0 where
  value_error : String → Error
  lookup_error : String → Error
  key_error : Error
  runtime_error : String → Error
  probe_ineligible : String → Error
  probe_queue_full : String → Error
  probe_single_flight_conflict : String → Error
  node_port_range_exhausted : String → Error
  node_management_port_range_exhausted : String → Error
  maximum_nodes_reached : String → Error
  node_port_out_of_range : String → Error
  node_port_in_use : String → Error
  node_camera_capacity_reached : String → Error
  node_not_empty : String → Error
  node_lifecycle_conflict : String → Error
  node_lifecycle_busy : String → Error
  node_release_conflict : String → Error
  node_not_found : String → Error
  node_runtime_unavailable : String → Error
  invalid_node_runtime_observation : String → Error
  eligible_node_missing : String → Error
  camera_not_found : String → Error
  camera_lifecycle_conflict : String → Error
  -- the expected and the current revision
  camera_revision_conflict : ℕ → ℕ → Error
  camera_move_expired : String → Error
  -- `next` of an iterator that is empty
  stop_iteration : Error
  -- not of the source: a loop on fuel that did not end
  out_of_fuel : Error

pub data Result {ℓ} (A : Type ℓ) : Type ℓ where
  ok : A → Result A
  err : Error → Result A

infixl 5 ◌>>=◌ ◌>>◌
abbrev pub ◌>>=◌ {ℓ κ} : {A : Type ℓ} {B : Type κ} → Result A → (A → Result B) → Result B
ok value >>= next = next value
err raised >>= next = err raised

abbrev pub ◌>>◌ {ℓ} : {B : Type ℓ} → Result (Unit {0}) → Result B → Result B
first >> rest = first >>= λ _. rest

-- `if wrong: raise e`
abbrev pub refuse : Bool → Error → Result (Unit {0})
refuse true e = err e
refuse false e = ok tt

-- To split on a result and keep the equation.
pub Result-cases {ℓ} :
    {A : Type ℓ} (r : Result A) → ((a : A) × (r ≡ ok a)) ⊎ ((e : Error) × (r ≡ err e))
Result-cases (ok a) = inl (a, refl)
Result-cases (err e) = inr (e, refl)

-- What holds of the value, where there is one.
abbrev pub Gives {ℓ κ} : {A : Type ℓ} → (A → Type κ) → Result A → Type κ
Gives P (ok a) = P a
Gives P (err e) = Unit

module _ {ℓ κ} {A : Type ℓ} (P : A → Type κ) where
  pub Gives-after {μ ν} :
      {B : Type μ} (Q : B → Type ν) (r : Result B) (next : B → Result A)
      → Gives Q r
      → ((b : B) → Q b → Gives P (next b))
      → Gives P (r >>= next)
  Gives-after Q (ok b) next q h = h b q
  Gives-after Q (err e) next q h = tt

  pub Gives-required :
      (wrong : Bool) (e : Error) (rest : Result A)
      → (wrong ≡ false → Gives P rest)
      → Gives P (refuse wrong e >> rest)
  Gives-required true e rest h = tt
  Gives-required false e rest h = h refl

  pub Gives-either :
      (b : Bool) (r q : Result A)
      → (b ≡ true → Gives P r)
      → (b ≡ false → Gives P q)
      → Gives P (if b then r else q)
  Gives-either true r q h k = h refl
  Gives-either false r q h k = k refl

  pub Gives-ok : (r : Result A) (a : A) → Gives P r → r ≡ ok a → P a
  Gives-ok r a h e = rw e at h

-- `next(…, None)`, and what is raised where there is none.
abbrev pub found_or {ℓ} : {A : Type ℓ} → Error → Option A → Result A
found_or e none = err e
found_or e (some a) = ok a

pub Gives-found {ℓ} :
    {A : Type ℓ} (e : Error) (o : Option A) → Gives (λ a. o ≡ some a) (found_or e o)
Gives-found e none = tt
Gives-found e (some a) = refl

pub Gives-map {ℓ κ μ} :
    {A : Type ℓ} (P : A → Type κ) (Q : A → Type μ) (r : Result A)
    → ((a : A) → P a → Q a)
    → Gives P r
    → Gives Q r
Gives-map P Q (ok a) h p = h a p
Gives-map P Q (err e) h p = tt

pub Gives-any {ℓ} : {A : Type ℓ} (r : Result A) → Gives (λ _. Unit {0}) r
Gives-any (ok a) = tt
Gives-any (err e) = tt
