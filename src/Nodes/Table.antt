-- ===== src/Nodes/Table.antt =====
-- A Python list of records that have an id. `next(x for x in xs if x.id == k)` finds the first with
-- the id; `xs[xs.index(x)] = y` and `xs.remove(x)` for the record found so change that one, since
-- the first record equal to it is itself.
use mathlib.Core.Option.{some-injective}
use rtsp_proxy.Prelude.{
  Option-cases, ◌∙◌, ℕ, ◌+◌, ◌≤◌, ◌≡◌, refl, ap, ◌⊎◌, Bool, Option, none, some, List, [], ◌∷◌, ◌++◌,
  arith, inl, inr, ◌==◌, ==_iff, if◌then◌else◌, count, In, Bool-cases, is_some, count-In,
}

module _ {A : Type 0} (key : A → ℕ) where
  unfoldable pub find : ℕ → List A → Option A
  find k [] = none
  find k (x ∷ xs) = if key x == k then some x else find k xs

  -- Puts a record in the place of the first with its id.
  unfoldable pub put_at : A → List A → List A
  put_at y [] = []
  put_at y (x ∷ xs) = let rest = put_at y xs in if key x == key y then y ∷ xs else x ∷ rest

  unfoldable pub remove_at : ℕ → List A → List A
  remove_at k [] = []
  remove_at k (x ∷ xs) = let rest = remove_at k xs in if key x == k then xs else x ∷ rest

  pub find-key : (k : ℕ) (xs : List A) (a : A) → find k xs ≡ some a → key a ≡ k
  unfolding find
  find-key k [] a h = absurd (ground arith)
  find-key k (x ∷ xs) a h = elim (Bool-cases (key x == k)) [
    | inl same ↦ ground (arith, ==_iff (key x) k)
    | inr other ↦ find-key k xs a (rw other at h)
  ]

  pub find-In : (k : ℕ) (xs : List A) (a : A) → find k xs ≡ some a → In a xs
  unfolding find
  find-In k [] a h = absurd (ground arith)
  find-In k (x ∷ xs) a h = ground (arith, find-In k xs a)

  pub find-put_at :
      (k : ℕ) (y a : A) (xs : List A)
      → find (key y) xs ≡ some a
      → find k (put_at y xs) ≡ (if key y == k then some y else find k xs)
  unfolding find put_at
  find-put_at k y a [] h = absurd (ground arith)
  find-put_at k y a (x ∷ xs) h = ground (arith, find-put_at k y a xs)

  pub find-append :
      (k : ℕ) (y : A) (xs : List A)
      → find k (xs ++ y ∷ [])
        ≡ (if is_some (find k xs) then find k xs else if key y == k then some y else none)
  unfolding find
  find-append k y [] = refl
  find-append k y (x ∷ xs) = ground (arith, find-append k y xs)

  -- The record that is put replaces one that counted, and nothing else.
  pub count-put_at :
      (p : A → Bool) (y a : A) (xs : List A)
      → find (key y) xs ≡ some a
      → count p (put_at y xs) + (if p a then 1 else 0) ≡ count p xs + (if p y then 1 else 0)
  unfolding find put_at
  count-put_at p y a [] h = absurd (ground arith)
  count-put_at p y a (x ∷ xs) h = ground (arith, count-put_at p y a xs)

  pub In-put_at : (y a : A) (xs : List A) → In a (put_at y xs) → (a ≡ y) ⊎ In a xs
  unfolding put_at
  In-put_at y a [] m = absurd m
  In-put_at y a (x ∷ xs) m = ground (arith, In-put_at y a xs)

  -- A record that is put in the place of one with its id is there.
  pub put_at-In : (y a : A) (xs : List A) → In a xs → key a ≡ key y → In y (put_at y xs)
  unfolding put_at
  put_at-In y a [] inside same = absurd inside
  put_at-In y a (x ∷ xs) inside same = elim (Bool-cases (key x == key y)) [
    | inl first ↦ rw first (inl refl)
    | inr other ↦ rw other (elim inside [
      | inl e ↦ absurd (ground (arith, ap key e, same, ==_iff (key x) (key y)))
      | inr later ↦ inr (put_at-In y a xs later same)
    ])
  ]

  pub In-remove_at : (k : ℕ) (a : A) (xs : List A) → In a (remove_at k xs) → In a xs
  unfolding remove_at
  In-remove_at k a [] m = absurd m
  In-remove_at k a (x ∷ xs) m = ground (arith, In-remove_at k a xs)

  -- Ids that are of one record each.
  abbrev pub IsKeyed : List A → Type 0
  IsKeyed xs = (k : ℕ) → count (λ x. key x == k) xs ≤ 1

  pub find-absent : (k : ℕ) (xs : List A) → count (λ x. key x == k) xs ≡ 0 → find k xs ≡ none
  unfolding find
  find-absent k [] h = refl
  find-absent k (x ∷ xs) h = ground (arith, find-absent k xs)

  pub absent-find : (k : ℕ) (xs : List A) → find k xs ≡ none → count (λ x. key x == k) xs ≡ 0
  unfolding find
  absent-find k [] h = refl
  absent-find k (x ∷ xs) h = ground (arith, absent-find k xs)

  pub find-remove_at :
      (k j : ℕ) (xs : List A)
      → count (λ x. key x == k) xs ≤ 1
      → find j (remove_at k xs) ≡ (if k == j then none else find j xs)
  unfolding find remove_at
  find-remove_at k j [] h = ground arith
  find-remove_at k j (x ∷ xs) h = ground (arith, find-remove_at k j xs, find-absent k xs)

  pub count-remove_at-le :
      (p : A → Bool) (k : ℕ) (xs : List A) → count p (remove_at k xs) ≤ count p xs
  unfolding remove_at
  count-remove_at-le p k [] = omega arith
  count-remove_at-le p k (x ∷ xs) = ground (arith, count-remove_at-le p k xs)

  -- A record that is in the list is the one found by its id, if ids are of one record each.
  pub In-find : (xs : List A) (a : A) → IsKeyed xs → In a xs → find (key a) xs ≡ some a
  unfolding find
  In-find [] a keyed m = absurd m
  In-find (x ∷ xs) a keyed (inl e) = ground (arith, ap key e)
  In-find (x ∷ xs) a keyed (inr m) = ground (
    arith,
    keyed (key a),
    count-In (λ y. key y == key a) xs a m ((==_iff (key a) (key a)).1 refl),
    In-find xs a (λ k. ground (arith, keyed k)) m,
  )

  -- What is found where a record was put, and where one was added.
  pub put-found :
      (k : ℕ) (y a x : A) (xs : List A)
      → find (key y) xs ≡ some a
      → find k (put_at y xs) ≡ some x
      → (find k xs ≡ some x) ⊎ ((y ≡ x) × (key y ≡ k))
  put-found k y a x xs h found = elim (Bool-cases (key y == k)) [
    | inl same ↦
        inr (
          some-injective _ _ (rw (find-put_at k y a xs h, same) at found),
          (==_iff (key y) k).0 same,
        )
    | inr other ↦ inl (rw (find-put_at k y a xs h, other) at found)
  ]

  pub append-found :
      (k : ℕ) (y x : A) (xs : List A)
      → find k (xs ++ y ∷ []) ≡ some x
      → (find k xs ≡ some x) ⊎ ((y ≡ x) × (key y ≡ k))
  append-found k y x xs found = elim (Option-cases (find k xs)) [
    | inr (z, e) ↦ inl (e ∙ (rw (find-append k y xs, e) at found))
    | inl e ↦ elim (Bool-cases (key y == k)) [
      | inl same ↦ inr (
        some-injective _ _ (rw (find-append k y xs, e, same) at found),
        (==_iff (key y) k).0 same,
      )
      | inr other ↦
          let impossible : none ≡ some x = rw (find-append k y xs, e, other) at found in
          absurd (ground arith)
    ]
  ]
