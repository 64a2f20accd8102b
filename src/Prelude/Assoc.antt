-- ===== src/Prelude/Assoc.antt =====
-- Python's `dict` with numbers for keys, in insertion order: an assignment to a key that is there
-- keeps its place, and a new key goes to the end.
use Prim.Native.Nat.{ℕ, suc, ◌+◌, ◌≤◌}
use mathlib.Core.Path.{◌≡◌, refl}
use mathlib.Core.Bool.{true, Bool}
use mathlib.Core.Option.{Option, none, some}
use mathlib.Core.List.{List, [], ◌∷◌}
use native.Mathlib.Omega.{arith}
use rtsp_proxy.Prelude.Tests.{◌==◌, if◌then◌else◌}
use rtsp_proxy.Prelude.Lists.{length, count}

abbrev pub Dict {ℓ} : Type ℓ → Type ℓ
Dict V = List (ℕ × V)

module _ {ℓ} {V : Type ℓ} where
  unfoldable pub get : ℕ → Dict V → Option V
  get k [] = none
  get k ((j, v) ∷ d) = if j == k then some v else get k d

  unfoldable pub put : ℕ → V → Dict V → Dict V
  put k v [] = (k, v) ∷ []
  put k v ((j, w) ∷ d) = if j == k then (j, v) ∷ d else (j, w) ∷ put k v d

  unfoldable pub pop : ℕ → Dict V → Dict V
  pop k [] = []
  pop k ((j, w) ∷ d) = let rest = pop k d in if j == k then rest else (j, w) ∷ rest

  abbrev pub values : Dict V → List V
  values [] = []
  values ((k, v) ∷ d) = v ∷ values d

  pub get-put :
      (k j : ℕ) (v : V) (d : Dict V) → get j (put k v d) ≡ (if k == j then some v else get j d)
  unfolding get put
  get-put k j v [] = refl
  get-put k j v ((i, w) ∷ d) = ground (arith, get-put k j v d)

  pub get-pop : (k j : ℕ) (d : Dict V) → get j (pop k d) ≡ (if k == j then none else get j d)
  unfolding get pop
  get-pop k j [] = ground arith
  get-pop k j ((i, w) ∷ d) = ground (arith, get-pop k j d)

  -- A write counts at most once more.
  pub count-put-le :
      (p : V → Bool) (k : ℕ) (v : V) (d : Dict V)
      → count p (values (put k v d)) ≤ count p (values d) + (if p v then 1 else 0)
  unfolding put
  count-put-le p k v [] = ground arith
  count-put-le p k v ((i, w) ∷ d) = ground (arith, count-put-le p k v d)

  pub count-pop-le :
      (p : V → Bool) (k : ℕ) (d : Dict V) → count p (values (pop k d)) ≤ count p (values d)
  unfolding pop
  count-pop-le p k [] = omega arith
  count-pop-le p k ((i, w) ∷ d) = ground (arith, count-pop-le p k d)

  pub count-get :
      (p : V → Bool) (k : ℕ) (v : V) (d : Dict V)
      → get k d ≡ some v
      → p v ≡ true
      → 1 ≤ count p (values d)
  unfolding get
  count-get p k v [] h t = absurd (ground arith)
  count-get p k v ((i, w) ∷ d) h t = ground (arith, count-get p k v d)

  -- What is found under the key is counted no more.
  pub count-pop-lt :
      (p : V → Bool) (k : ℕ) (v : V) (d : Dict V)
      → get k d ≡ some v
      → p v ≡ true
      → suc (count p (values (pop k d))) ≤ count p (values d)
  unfolding get pop
  count-pop-lt p k v [] h t = absurd (ground arith)
  count-pop-lt p k v ((i, w) ∷ d) h t = ground (arith, count-pop-le p k d, count-pop-lt p k v d)

  pub length-put-le : (k : ℕ) (v : V) (d : Dict V) → length (put k v d) ≤ suc (length d)
  unfolding put
  length-put-le k v [] = omega arith
  length-put-le k v ((i, w) ∷ d) = ground (arith, length-put-le k v d)

  pub length-put_known :
      (k : ℕ) (v u : V) (d : Dict V) → get k d ≡ some u → length (put k v d) ≡ length d
  unfolding get put
  length-put_known k v u [] h = cc
  length-put_known k v u ((i, w) ∷ d) h = ground (arith, length-put_known k v u d)

  pub length-pop-le : (k : ℕ) (d : Dict V) → length (pop k d) ≤ length d
  unfolding pop
  length-pop-le k [] = omega arith
  length-pop-le k ((i, w) ∷ d) = ground (arith, length-pop-le k d)
