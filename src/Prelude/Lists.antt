-- ===== src/Prelude/Lists.antt =====
-- Lists measured by native numbers and filtered by Boolean tests.
use Prim.Native.Nat.{ℕ, suc, ◌+◌, ◌≤◌}
use mathlib.Core.Path.{◌≡◌, refl, sym, subst}
use mathlib.Core.Bool.{Bool, true, false, ◌&&◌, ◌||◌}
use mathlib.Core.List.{List, [], ◌∷◌, ◌++◌}
use mathlib.Core.Logic.{◌⊎◌, inl, inr}
use native.Mathlib.Omega.{arith}
use rtsp_proxy.Prelude.Tests.{if◌then◌else◌}

module _ {ℓ} {A : Type ℓ} where
  abbrev pub length : List A → ℕ
  length [] = 0
  length (x ∷ xs) = suc (length xs)

  pub length-append : (xs ys : List A) → length (xs ++ ys) ≡ length xs + length ys
  length-append [] ys = omega arith
  length-append (x ∷ xs) ys = omega (arith, length-append xs ys)

  abbrev pub filter : (A → Bool) → List A → List A
  filter p [] = []
  filter p (x ∷ xs) = let rest = filter p xs in if p x then x ∷ rest else rest

  -- How many items pass a test.
  abbrev pub count : (A → Bool) → List A → ℕ
  count p [] = 0
  count p (x ∷ xs) = (if p x then 1 else 0) + count p xs

  abbrev pub any : (A → Bool) → List A → Bool
  any p [] = false
  any p (x ∷ xs) = p x || any p xs

  abbrev pub all : (A → Bool) → List A → Bool
  all p [] = true
  all p (x ∷ xs) = p x && all p xs

  abbrev pub All {κ} : (A → Type κ) → List A → Type κ
  All P [] = Unit
  All P (x ∷ xs) = P x × All P xs

  pub All-append {κ} : (P : A → Type κ) (xs ys : List A) → All P xs → All P ys → All P (xs ++ ys)
  All-append P [] ys front back = back
  All-append P (x ∷ xs) ys front back = (front.0, All-append P xs ys front.1 back)

  pub All-map {κ μ} :
      (P : A → Type κ) (Q : A → Type μ) (xs : List A) → ((a : A) → P a → Q a) → All P xs → All Q xs
  All-map P Q [] h front = tt
  All-map P Q (x ∷ xs) h front = (h x front.0, All-map P Q xs h front.1)

  pub count-append : (p : A → Bool) (xs ys : List A) → count p (xs ++ ys) ≡ count p xs + count p ys
  count-append p [] ys = omega arith
  count-append p (x ∷ xs) ys = omega (arith, count-append p xs ys)

  pub count-le-length : (p : A → Bool) (xs : List A) → count p xs ≤ length xs
  count-le-length p [] = omega arith
  count-le-length p (x ∷ xs) = ground (arith, count-le-length p xs)

module _ {A : Type 0} where
  -- Membership as a sum, which the tactics take apart.
  abbrev pub In : A → List A → Type 0
  In a [] = ⊥
  In a (x ∷ xs) = (a ≡ x) ⊎ In a xs

  pub All-In {κ} : (P : A → Type κ) (xs : List A) (a : A) → All P xs → In a xs → P a
  All-In P [] a h m = absurd m
  All-In P (x ∷ xs) a h (inl e) = subst P (sym e) h.0
  All-In P (x ∷ xs) a h (inr m) = All-In P xs a h.1 m

  pub All-of-In {κ} : (P : A → Type κ) (xs : List A) → ((a : A) → In a xs → P a) → All P xs
  All-of-In P [] h = tt
  All-of-In P (x ∷ xs) h = (h x (inl refl), All-of-In P xs (λ a m. h a (inr m)))

  pub In-filter : (p : A → Bool) (xs : List A) (a : A) → In a (filter p xs) → In a xs × (p a ≡ true)
  In-filter p [] a m = absurd m
  In-filter p (x ∷ xs) a m = ground (arith, In-filter p xs a)

  pub filter-In : (p : A → Bool) (xs : List A) (a : A) → In a xs → p a ≡ true → In a (filter p xs)
  filter-In p [] a m h = absurd m
  filter-In p (x ∷ xs) a m h = ground (arith, filter-In p xs a)

  pub In-append : (xs ys : List A) (a : A) → In a (xs ++ ys) → In a xs ⊎ In a ys
  In-append [] ys a m = inr m
  In-append (x ∷ xs) ys a m = ground (arith, In-append xs ys a)

  pub append-In_left : (xs ys : List A) (a : A) → In a xs → In a (xs ++ ys)
  append-In_left [] ys a m = absurd m
  append-In_left (x ∷ xs) ys a (inl e) = inl e
  append-In_left (x ∷ xs) ys a (inr m) = inr (append-In_left xs ys a m)

  pub append-In_right : (xs ys : List A) (a : A) → In a ys → In a (xs ++ ys)
  append-In_right [] ys a m = m
  append-In_right (x ∷ xs) ys a m = inr (append-In_right xs ys a m)

  pub any-none : (p : A → Bool) (xs : List A) (a : A) → any p xs ≡ false → In a xs → p a ≡ false
  any-none p [] a h m = absurd m
  any-none p (x ∷ xs) a h m = ground (arith, any-none p xs a)

  pub none-count : (p : A → Bool) (xs : List A) → any p xs ≡ false → count p xs ≡ 0
  none-count p [] h = refl
  none-count p (x ∷ xs) h = ground (arith, none-count p xs)

  pub count-In : (p : A → Bool) (xs : List A) (a : A) → In a xs → p a ≡ true → 1 ≤ count p xs
  count-In p [] a m h = absurd m
  count-In p (x ∷ xs) a m h = ground (arith, count-In p xs a)

  -- What is in a list with one more at its end.
  pub In-snoc : (xs : List A) (n a : A) → In a (xs ++ n ∷ []) → (a ≡ n) ⊎ In a xs
  In-snoc [] n a m = ground arith
  In-snoc (x ∷ xs) n a m = ground (arith, In-snoc xs n a)
