-- ===== src/Nodes/Ports/Sound.antt =====
-- What the selection of a port returns, and when it finds one.
use rtsp_proxy.Prelude.{
  ℕ, zero, suc, ◌≡◌, refl, subst, Bool, true, false, not, Option, none, some, List, [], ◌∷◌, inl,
  inr, ◌==◌, ==_iff, length, arith, Bool-cases, is_some, if◌then◌else◌,
}
use rtsp_proxy.Prelude.Errors.{
  runtime_error, node_port_in_use, Result, ok, refuse, ◌>>◌, Gives, Gives-map,
}
use rtsp_proxy.Nodes.Ports.{
  contains, remove_port, chosen, select_rounds, select_port_with_bounded_recheck, first_port,
}

contains-remove_port :
    (q p : ℕ) (ports : List ℕ) → contains (remove_port q ports) p ≡ true → contains ports p ≡ true
unfolding remove_port
contains-remove_port q p [] h = h
contains-remove_port q p (r ∷ rest) h = ground (arith, contains-remove_port q p rest)

remove_port-contains :
    (q p : ℕ) (ports : List ℕ)
    → contains ports p ≡ true
    → (q == p) ≡ false
    → contains (remove_port q ports) p ≡ true
unfolding remove_port
remove_port-contains q p [] h e = h
remove_port-contains q p (r ∷ rest) h e = ground (arith, remove_port-contains q p rest)

length-remove_port :
    (q : ℕ) (ports : List ℕ)
    → contains ports q ≡ true
    → suc (length (remove_port q ports)) ≡ length ports
unfolding remove_port
length-remove_port q [] h = absurd (ground arith)
length-remove_port q (r ∷ rest) h = ground (arith, length-remove_port q rest)

-- A port that was among the candidates and can be bound; the preferred one, where one is preferred.
pub record IsSelected (preferred : Option ℕ) (bindable : ℕ → Bool) (ports : List ℕ) (p : ℕ)
    : Type 0 where
  pub is_candidate : contains ports p ≡ true
  pub is_bindable : bindable p ≡ true
  pub is_preferred : (q : ℕ) → preferred ≡ some q → p ≡ q

module _ (preferred : Option ℕ) (choose : List ℕ → ℕ) (bindable : ℕ → Bool) where
  is_preferred-chosen :
      (ports : List ℕ) (q : ℕ) → preferred ≡ some q → chosen preferred choose ports ≡ q
  is_preferred-chosen ports q h = rw h refl

  after_round :
      (ports : List ℕ) (port : ℕ) (rest : Result ℕ)
      → ((q : ℕ) → preferred ≡ some q → port ≡ q)
      → Gives (IsSelected preferred bindable (remove_port port ports)) rest
      → Gives (IsSelected preferred bindable ports) (do
        refuse (not (contains ports port)) (runtime_error "node_port_selector_invalid")
        if bindable port
            then ok port
            else do refuse (is_some preferred) (node_port_in_use "node_port_in_use"); rest)
  after_round ports port rest h g = elim (Bool-cases (contains ports port)) [
    | inr out ↦ rw out tt
    | inl here ↦ elim (Bool-cases (bindable port)) [
      | inl free ↦
          rw (here, free) (record { is_candidate = here; is_bindable = free; is_preferred = h })
      | inr bound ↦ elim (Bool-cases (is_some preferred)) [
        | inl p ↦ rw (here, bound, p) tt
        | inr p ↦
            rw (here, bound, p)
              (Gives-map _ (IsSelected preferred bindable ports) rest
                (λ q c. record {
                  is_candidate = contains-remove_port port q ports c.is_candidate;
                  is_bindable = c.is_bindable;
                  is_preferred = c.is_preferred;
                })
                g)
      ]
    ]
  ]

  rounds-IsSelected :
      (rounds : ℕ) (ports : List ℕ)
      → Gives
          (IsSelected preferred bindable ports)
          (select_rounds rounds preferred choose bindable ports)
  unfolding select_rounds
  rounds-IsSelected zero ports = tt
  rounds-IsSelected (suc rounds) ports =
      let port = chosen preferred choose ports in
      after_round ports port
        (select_rounds rounds preferred choose bindable (remove_port port ports))
        (is_preferred-chosen ports) (rounds-IsSelected rounds (remove_port port ports))

  pub port-IsSelected :
      (ports : List ℕ)
      → Gives
          (IsSelected preferred bindable ports)
          (select_port_with_bounded_recheck preferred choose bindable ports)
  unfolding select_port_with_bounded_recheck
  port-IsSelected ports = rounds-IsSelected (length ports) ports

  -- A port that is selected was among the candidates, can be bound, and is the preferred one if one
  -- is preferred, whatever `choose_port` returns.
  pub select_port-IsSelected :
      (ports : List ℕ) (p : ℕ)
      → select_port_with_bounded_recheck preferred choose bindable ports ≡ ok p
      → IsSelected preferred bindable ports p
  select_port-IsSelected ports p h =
      subst (Gives (IsSelected preferred bindable ports)) h (port-IsSelected ports)

-- `choose_port` returns one of the ports it is asked about.
abbrev pub IsChoice : (List ℕ → ℕ) → Type 0
IsChoice choose = (q : ℕ) (ports : List ℕ) → contains (q ∷ ports) (choose (q ∷ ports)) ≡ true

pub first_port-IsChoice : IsChoice first_port
first_port-IsChoice q ports = ground arith

module _ (choose : List ℕ → ℕ) (bindable : ℕ → Bool) (choice : IsChoice choose) where
  chooses :
      (ports : List ℕ) (p : ℕ) → contains ports p ≡ true → contains ports (choose ports) ≡ true
  chooses [] p h = absurd (ground arith)
  chooses (q ∷ rest) p h = choice q rest

  rounds_find :
      (rounds : ℕ) (ports : List ℕ) (p : ℕ)
      → length ports ≡ rounds
      → contains ports p ≡ true
      → bindable p ≡ true
      → (q : ℕ) × (select_rounds rounds none choose bindable ports ≡ ok q)
  unfolding select_rounds
  rounds_find zero [] p e h free = absurd (ground arith)
  rounds_find zero (q ∷ rest) p e h free = absurd (omega arith)
  rounds_find (suc rounds) ports p e h free =
      let here = chooses ports p h in
      elim (Bool-cases (bindable (choose ports))) [
        | inl good ↦ (choose ports, rw (here, good) refl)
        | inr bad ↦
            let other : (choose ports == p) ≡ false = ground (arith, ==_iff (choose ports) p) in
            let (q, found) =
              rounds_find rounds (remove_port (choose ports) ports) p
                (omega (arith, length-remove_port (choose ports) ports here))
                (remove_port-contains (choose ports) p ports h other) free in
            (q, rw (here, bad) found)
      ]

  -- Where no port is preferred and `choose_port` returns a candidate, a port is selected as soon as
  -- one candidate can be bound.
  pub select_port_finds :
      (ports : List ℕ) (p : ℕ)
      → contains ports p ≡ true
      → bindable p ≡ true
      → (q : ℕ) × (select_port_with_bounded_recheck none choose bindable ports ≡ ok q)
  unfolding select_port_with_bounded_recheck
  select_port_finds ports p h free = rounds_find (length ports) ports p refl h free
