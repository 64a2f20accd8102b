-- ===== src/Prelude/Tests.antt =====
-- Boolean tests on numbers, texts and decidable types, and the conditional.
use Prim.Native.Nat.{ℕ, ◌≤◌, ◌<◌, compare, Ordering}
use Prim.Native.String.{String}
use mathlib.Core.Path.{◌≡◌, refl}
use mathlib.Core.Logic.{◌↔◌, ◌⊎◌, inl, inr}
use mathlib.Core.Bool.{Bool, true, false}
use mathlib.Core.Option.{Option, none, some}
use native.Mathlib.Omega.{arith}
use text.Mathlib.Text.{◌==◌ as text_eq}
use text.Mathlib.TextEquality.{eq_iff}

abbrev pub ltb : ℕ → ℕ → Bool
ltb a b = elim (compare a b) [ Ordering.lt ↦ true | _ ↦ false ]

abbrev pub leb : ℕ → ℕ → Bool
leb a b = elim (compare a b) [ Ordering.gt ↦ false | _ ↦ true ]

infix 50 ◌==◌
abbrev pub ◌==◌ : ℕ → ℕ → Bool
a == b = elim (compare a b) [ Ordering.eq ↦ true | _ ↦ false ]

infix 1 if◌then◌else◌
abbrev pub if◌then◌else◌ {ℓ} : {A : Type ℓ} → Bool → A → A → A
if true then x else y = x
if false then x else y = y

pub ltb→lt : (a b : ℕ) → ltb a b ≡ true → a < b
ltb→lt a b h = ground arith

pub leb→le : (a b : ℕ) → leb a b ≡ true → a ≤ b
leb→le a b h = ground arith

pub ==_iff : (a b : ℕ) → ((a == b) ≡ true) ↔ (a ≡ b)
==_iff a b = ground arith

pub Bool-cases : (b : Bool) → (b ≡ true) ⊎ (b ≡ false)
Bool-cases true = inl refl
Bool-cases false = inr refl

pub Option-cases {ℓ} : {A : Type ℓ} (o : Option A) → (o ≡ none) ⊎ ((a : A) × (o ≡ some a))
Option-cases none = inl refl
Option-cases (some a) = inr (a, refl)

abbrev pub is_some {ℓ} : {A : Type ℓ} → Option A → Bool
is_some none = false
is_some (some a) = true

-- Equality of texts as a decision, from the Boolean test of the library.
from_test : (s t : String) (b : Bool) → text_eq s t ≡ b → Dec (s ≡ t)
from_test s t true e = yes ((eq_iff s t).0 e)
from_test s t false e = no (λ p. ground (arith, eq_iff s t))

unfoldable pub String-discrete : Discrete String
unfolding from_test
String-discrete s t = from_test s t (text_eq s t) refl

-- `==` of a type with decidable equality: a dataclass is equal to another field by field.
module _ {ℓ} {A : Type ℓ} (dec : Discrete A) where
  abbrev pub eqb : A → A → Bool
  eqb a b = elim (dec a b) [ yes _ ↦ true | no _ ↦ false ]

  pub eqb→eq : (a b : A) → eqb a b ≡ true → a ≡ b
  eqb→eq a b h =
      elim (dec a b) as (λ d. elim d [ yes _ ↦ true | no _ ↦ false ] ≡ true → a ≡ b) [
        | yes p ↦ λ _. p
        | no _ ↦ λ e. cc
      ]
        h

  pub eqb_refl : (a : A) → eqb a a ≡ true
  eqb_refl a = elim (dec a a) as (λ d. elim d [ yes _ ↦ true | no _ ↦ false ] ≡ true) [
    | yes p ↦ refl
    | no n ↦ absurd (n refl)
  ]
