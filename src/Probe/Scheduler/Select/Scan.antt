-- ===== src/Probe/Scheduler/Select/Scan.antt =====
-- What the first of a list and a round of looks find.
use rtsp_proxy.Prelude.{
  ℕ, zero, suc, ◌+◌, ◌%◌, ◌<◌, ◌≡◌, ◌∙◌, subst, refl, Bool, true, false, none, some, List, [], ◌∷◌,
  arith, inl, inr, In, if◌then◌else◌, Option-cases, Bool-cases,
}
use rtsp_proxy.Probe.Kinds.{ProbePriority}
use rtsp_proxy.Probe.Data.{ProbeRequest}
use rtsp_proxy.Probe.Scheduler.Select.{
  before, earliest_from, earliest, fair_priority, take_or, look, fair_scan,
}

earliest_from-In : (b : ProbeRequest) (l : List ProbeRequest) → In (earliest_from b l) (b ∷ l)
unfolding earliest_from
earliest_from-In b [] = inl refl
earliest_from-In b (r ∷ l) = ground (arith, earliest_from-In (if before r b then r else b) l)

pub earliest-In : (l : List ProbeRequest) (r : ProbeRequest) → earliest l ≡ some r → In r l
unfolding earliest
earliest-In [] r h = cc
earliest-In (x ∷ l) r h = ground (arith, earliest_from-In x l)

before_chain : (a b c : ProbeRequest) → before a b ≡ false → before b c ≡ false → before a c ≡ false
before_chain a b c h k = ground arith

before_asymm : (a b : ProbeRequest) → before a b ≡ true → before b a ≡ false
before_asymm a b h = ground arith

before_irrefl : (a : ProbeRequest) → before a a ≡ false
before_irrefl a = ground arith

-- The smaller of two comes before neither.
sooner : ProbeRequest → ProbeRequest → ProbeRequest
sooner b x = if before x b then x else b

sooner-first :
    (b x e : ProbeRequest)
    → before (sooner b x) e ≡ false
    → (before b e ≡ false) × (before x e ≡ false)
unfolding sooner
sooner-first b x e h = elim (Bool-cases (before x b)) [
  | inl earlier ↦
      let h' : before x e ≡ false = rw (earlier, if◌then◌else◌) at h in
      (before_chain b x e (before_asymm x b earlier) h', h')
  | inr later ↦
      let h' : before b e ≡ false = rw (later, if◌then◌else◌) at h in
      (h', before_chain x b e later h')
]

-- No candidate comes before the one that is taken.
earliest_from-first :
    (b : ProbeRequest) (l : List ProbeRequest) (r : ProbeRequest)
    → In r (b ∷ l)
    → before r (earliest_from b l) ≡ false
unfolding earliest_from sooner
earliest_from-first b [] r (inl e) = rw e (before_irrefl b)
earliest_from-first b [] r (inr e) = absurd e
earliest_from-first b (x ∷ l) r m =
    let rest = earliest_from-first (sooner b x) l in
    let firsts = sooner-first b x (earliest_from (sooner b x) l) (rest (sooner b x) (inl refl)) in
    elim m [ inl e ↦ rw e firsts.0 | inr (inl e) ↦ rw e firsts.1 | inr (inr n) ↦ rest r (inr n) ]

pub earliest-first :
    (l : List ProbeRequest) (best r : ProbeRequest)
    → earliest l ≡ some best
    → In r l
    → before r best ≡ false
unfolding earliest
earliest-first [] best r h m = absurd m
earliest-first (x ∷ l) best r h m = ground (arith, earliest_from-first x l r m)

pub earliest-none : (l : List ProbeRequest) → earliest l ≡ none → l ≡ []
unfolding earliest
earliest-none [] h = refl
earliest-none (x ∷ l) h = cc

module _ (takes : ProbePriority → Bool) (pool : ProbePriority → List ProbeRequest) where
  abbrev pub Found : ProbeRequest → Type 0
  Found r = (p : ProbePriority) × (takes p ≡ true) × (earliest (pool p) ≡ some r)

  look-Found : (p : ProbePriority) (r : ProbeRequest) → look takes pool p ≡ some r → Found r
  look-Found p r h = elim (Bool-cases (takes p)) [
    | inl takes_it ↦ (p, takes_it, rw takes_it at h)
    | inr passes ↦ absurd (ground arith)
  ]

  -- What a round of looks finds is the first of a pool that it may take from.
  pub fair_scan-Found :
      (rounds index : ℕ) (r : ProbeRequest)
      → (fair_scan takes pool rounds index).0 ≡ some r
      → Found r
  unfolding fair_scan
  fair_scan-Found zero index r h = absurd (ground arith)
  fair_scan-Found (suc rounds) index r h =
      elim (Option-cases (look takes pool (fair_priority index))) [
        | inl e ↦ fair_scan-Found rounds ((index + 1) % 10) r (rw (e, take_or) at h)
        | inr (q, e) ↦ look-Found (fair_priority index) r (e ∙ (rw (e, take_or) at h))
      ]

  abbrev pub Passed : ℕ → Type 0
  Passed index = look takes pool (fair_priority index) ≡ none

  Passed-on :
      (rounds index : ℕ)
      → index < 10
      → Passed index
      → ((j : ℕ) → j < rounds → Passed (((index + 1) % 10 + j) % 10))
      → (k : ℕ) → k < suc rounds
      → Passed ((index + k) % 10)
  Passed-on rounds index small e later zero lt =
      let same : index ≡ (index + 0) % 10 = omega arith in subst Passed same e
  Passed-on rounds index small e later (suc k) lt =
      let same : ((index + 1) % 10 + k) % 10 ≡ (index + suc k) % 10 = omega arith in
      subst Passed same (later k (omega arith))

  -- A round that finds nothing has looked at every index, whichever it began with.
  pub fair_scan-none :
      (rounds index : ℕ)
      → index < 10
      → (fair_scan takes pool rounds index).0 ≡ none
      → (k : ℕ) → k < rounds
      → Passed ((index + k) % 10)
  unfolding fair_scan
  fair_scan-none zero index small h k lt = absurd (omega arith)
  fair_scan-none (suc rounds) index small h k lt =
      elim (Option-cases (look takes pool (fair_priority index))) [
        | inr (q, e) ↦ absurd (ground arith)
        | inl e ↦
            Passed-on rounds index small e
              (fair_scan-none rounds ((index + 1) % 10) (omega arith) (rw (e, take_or) at h)) k lt
      ]
