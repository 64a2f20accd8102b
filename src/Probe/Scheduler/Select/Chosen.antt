-- ===== src/Probe/Scheduler/Select/Chosen.antt =====
-- Which request is chosen, and that one is chosen whenever one can be.
use rtsp_proxy.Prelude.{
  ℕ, zero, suc, ◌+◌, ◌%◌, ◌<◌, ◌-◌, ◌≡◌, ◌∙◌, subst, sym, ap, refl, Bool, true, false, Option, none,
  some, List, [], ◌++◌, arith, inl, inr, ◌⊎◌, In, All, All-of-In, filter, In-filter, filter-In,
  In-append, append-In_left, append-In_right, Option-cases, Bool-cases,
}
use rtsp_proxy.Probe.Kinds.{ProbePriority, manual, confirmation, routine}
use rtsp_proxy.Probe.Data.{ProbeRequest}
use rtsp_proxy.Probe.Scheduler.State.{Scheduler, queue}
use rtsp_proxy.Probe.Scheduler.Select.{
  eligible, before, earliest, candidates, fair_priority, take_or, look, fair_scan, choose,
  next_eligible_request, with_room, is_urgent, urgent,
}
use rtsp_proxy.Probe.Scheduler.Select.Scan.{
  earliest-In, earliest-first, earliest-none, fair_scan-Found, fair_scan-none,
}

choose-some :
    (a : Option ProbeRequest × ℕ) (u : Option ProbeRequest) (b : ℕ → Option ProbeRequest × ℕ)
    (r : ProbeRequest)
    → (choose a u b).0 ≡ some r
    → (a.0 ≡ some r) ⊎ ((u ≡ some r) ⊎ ((b a.1).0 ≡ some r))
unfolding choose
choose-some (some q, i) u b r h = inl h
choose-some (none, i) (some q) b r h = inr (inl h)
choose-some (none, i) none b r h = inr (inr h)

choose-none :
    (a : Option ProbeRequest × ℕ) (u : Option ProbeRequest) (b : ℕ → Option ProbeRequest × ℕ)
    → (choose a u b).0 ≡ none
    → (b a.1).0 ≡ none
unfolding choose
choose-none (some q, i) u b h = absurd (ground arith)
choose-none (none, i) (some q) b h = absurd (ground arith)
choose-none (none, i) none b h = h

choose_index :
    (a : Option ProbeRequest × ℕ) (u : Option ProbeRequest) (b : ℕ → Option ProbeRequest × ℕ)
    → a.1 < 10
    → ((i : ℕ) → i < 10 → (b i).1 < 10)
    → (choose a u b).1 < 10
unfolding choose
choose_index (some q, i) u b h k = h
choose_index (none, i) (some q) b h k = h
choose_index (none, i) none b h k = k i h

abbrev some_index : ProbePriority → ℕ
some_index manual = 0
some_index confirmation = 4
some_index routine = 7

fair_priority-some_index : (p : ProbePriority) → fair_priority (some_index p) ≡ p
fair_priority-some_index manual = refl
fair_priority-some_index _ = refl

-- Ten looks pass every priority.
fair_scan-none_all :
    (pool : ProbePriority → List ProbeRequest) (index : ℕ)
    → index < 10
    → (fair_scan (λ _. true) pool 10 index).0 ≡ none
    → (p : ProbePriority) → pool p ≡ []
fair_scan-none_all pool index small h p =
    let k = (some_index p + 10 - index) % 10 in
    let place : (index + k) % 10 ≡ some_index p = ground arith in
    earliest-none (pool p) (
      subst (λ q. earliest (pool q) ≡ none) (fair_priority-some_index p)
        (subst (λ i. earliest (pool (fair_priority i)) ≡ none) place
          (fair_scan-none (λ _. true) pool 10 index small h k (omega arith))))

module _ (s : Scheduler) (now : ℕ) (admitted : List ℕ) where
  abbrev pool : ProbePriority → List ProbeRequest
  pool = candidates s now admitted

  abbrev waiting : List ProbeRequest
  waiting = pool manual ++ (pool confirmation ++ pool routine)

  In-waiting : (r : ProbeRequest) → In r waiting → (p : ProbePriority) × In r (pool p)
  In-waiting r m = elim (In-append (pool manual) _ r m) [
    | inl a ↦ (manual, a)
    | inr b ↦ elim (In-append (pool confirmation) _ r b) [
      | inl c ↦ (confirmation, c)
      | inr d ↦ (routine, d)
    ]
  ]

  waiting-In : (r : ProbeRequest) (p : ProbePriority) → In r (pool p) → In r waiting
  waiting-In r manual m = append-In_left (pool manual) _ r m
  waiting-In r confirmation m =
      append-In_right (pool manual) _ r (append-In_left (pool confirmation) _ r m)
  waiting-In r routine m =
      append-In_right (pool manual) _ r (append-In_right (pool confirmation) _ r m)

  -- The request is pending and eligible, and no eligible request of its queue comes before it.
  abbrev pub IsFirst : ProbeRequest → Type 0
  IsFirst r =
      (p : ProbePriority) × In r (queue s.pending p)
      × (eligible s now admitted r ≡ true)
      × All (λ q. before q r ≡ false) (filter (eligible s now admitted) (queue s.pending p))

  IsFirst-of_pool :
      (p : ProbePriority) (r : ProbeRequest)
      → In r (pool p)
      → ((q : ProbeRequest) → In q (pool p) → before q r ≡ false)
      → IsFirst r
  IsFirst-of_pool p r m first =
      let (queued, fits) = In-filter (eligible s now admitted) (queue s.pending p) r m in
      (p, queued, fits, All-of-In (λ q. before q r ≡ false) (pool p) first)

  scan-IsFirst :
      (takes : ProbePriority → Bool) (index : ℕ) (r : ProbeRequest)
      → (fair_scan takes pool 10 index).0 ≡ some r
      → IsFirst r
  scan-IsFirst takes index r h =
      let (p, _, e) = fair_scan-Found takes pool 10 index r h in
      IsFirst-of_pool p r (earliest-In (pool p) r e) (λ q m. earliest-first (pool p) r q e m)

  urgent-IsFirst :
      (r : ProbeRequest) → earliest (filter (is_urgent s now) waiting) ≡ some r → IsFirst r
  urgent-IsFirst r h =
      let (m, urgent) = In-filter (is_urgent s now) waiting r (earliest-In _ r h) in
      let (p, mp) = In-waiting r m in
      IsFirst-of_pool p r mp λ q mq. elim (Bool-cases (before q r)) [
        | inr no_sooner ↦ no_sooner
        | inl sooner_q ↦
            earliest-first _ r q h
              (filter-In (is_urgent s now) waiting q (waiting-In q p mq) (ground arith))
      ]

  fair_index_below :
      (takes : ProbePriority → Bool) (rounds index : ℕ)
      → index < 10
      → (fair_scan takes pool rounds index).1 < 10
  unfolding fair_scan
  fair_index_below takes zero index small = small
  fair_index_below takes (suc rounds) index small =
      elim (Option-cases (look takes pool (fair_priority index))) [
        | inl e ↦ rw (e, take_or) (fair_index_below takes rounds ((index + 1) % 10) (omega arith))
        | inr (q, e) ↦ rw (e, take_or) (omega arith)
      ]

  next_eligible_request-choose :
      next_eligible_request s now admitted
      ≡ choose
          (fair_scan (with_room s) pool 10 s.fair_index)
          (urgent s now pool)
          (fair_scan (λ _. true) pool 10)
  unfolding next_eligible_request
  next_eligible_request-choose = refl

  -- A request that is chosen is pending in one of the queues and eligible, and no eligible request
  -- of that queue has an earlier deadline, or the same one and an earlier submission, or both the
  -- same and a smaller id.
  pub next_eligible_request-IsFirst :
      (r : ProbeRequest) → (next_eligible_request s now admitted).0 ≡ some r → IsFirst r
  next_eligible_request-IsFirst r h =
      elim (choose-some _ _ _ r
        (ap (λ (x : Option ProbeRequest × ℕ). x.0) (sym next_eligible_request-choose) ∙ h)) [
          | inl e ↦ scan-IsFirst (with_room s) s.fair_index r e
          | inr (inl u) ↦ urgent-IsFirst r u
          | inr (inr l) ↦ scan-IsFirst (λ _. true) _ r l
        ]

  -- With the index of the fair round below 10: where nothing is chosen, no pending request is
  -- eligible.
  pub next_eligible_request-none :
      s.fair_index < 10
      → (next_eligible_request s now admitted).0 ≡ none
      → (p : ProbePriority) (r : ProbeRequest) → In r (queue s.pending p)
      → eligible s now admitted r ≡ false
  next_eligible_request-none small h p r m =
      let last =
        choose-none _ _ _
          (ap (λ (x : Option ProbeRequest × ℕ). x.0) (sym next_eligible_request-choose) ∙ h) in
      let empty =
        fair_scan-none_all pool _ (fair_index_below (with_room s) 10 s.fair_index small) last p in
      elim (Bool-cases (eligible s now admitted r)) [
        | inr not_eligible ↦ not_eligible
        | inl fits ↦
            absurd (
              subst (In r) empty (filter-In (eligible s now admitted) (queue s.pending p) r m fits))
      ]

  pub next_eligible_request-index :
      s.fair_index < 10 → (next_eligible_request s now admitted).1 < 10
  next_eligible_request-index small = rw next_eligible_request-choose (
      choose_index _ _ _ (fair_index_below (with_room s) 10 s.fair_index small)
        (λ i below. fair_index_below (λ _. true) 10 i below))
