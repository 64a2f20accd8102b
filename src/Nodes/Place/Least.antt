-- ===== src/Nodes/Place/Least.antt =====
-- The least loaded of some nodes.
use rtsp_proxy.Prelude.{
  ◌≡◌, ◌≢◌, refl, subst, Bool, true, false, none, some, List, [], ◌∷◌, arith, In, inl, inr,
  if◌then◌else◌,
}
use mathlib.Core.Option.{some-injective}
use rtsp_proxy.Nodes.Data.{MediaNode}
use rtsp_proxy.Nodes.Place.{loaded_no_more, least_loaded, first_least}

In-either :
    (b : Bool) (a m n : MediaNode) (ns : List MediaNode)
    → In a ((if b then m else n) ∷ ns)
    → In a (m ∷ n ∷ ns)
In-either true a m n ns h = ground arith
In-either false a m n ns h = inr h

pub least_loaded-In :
    (best : MediaNode) (ns : List MediaNode) → In (least_loaded best ns) (best ∷ ns)
unfolding least_loaded
least_loaded-In best [] = inl refl
least_loaded-In best (n ∷ rest) =
    In-either (loaded_no_more best n) _ best n rest
      (least_loaded-In (if loaded_no_more best n then best else n) rest)

pub first_least-In : (ns : List MediaNode) (n : MediaNode) → first_least ns ≡ some n → In n ns
first_least-In [] n h = absurd (ground arith)
first_least-In (m ∷ rest) n h =
    subst (λ k. In k (m ∷ rest)) (some-injective _ _ h) (least_loaded-In m rest)

no_more_refl : (a : MediaNode) → loaded_no_more a a ≡ true
unfolding loaded_no_more
no_more_refl a = ground arith

no_more_trans :
    (a b c : MediaNode)
    → loaded_no_more a b ≡ true
    → loaded_no_more b c ≡ true
    → loaded_no_more a c ≡ true
unfolding loaded_no_more
no_more_trans a b c h k = ground arith

no_more_total : (a b : MediaNode) → loaded_no_more a b ≡ false → loaded_no_more b a ≡ true
unfolding loaded_no_more
no_more_total a b h = ground arith

either_no_more :
    (b : Bool) (m n : MediaNode)
    → loaded_no_more m n ≡ b
    → (loaded_no_more (if b then m else n) m ≡ true)
      × (loaded_no_more (if b then m else n) n ≡ true)
either_no_more true m n e = (no_more_refl m, e)
either_no_more false m n e = (no_more_total m n e, no_more_refl n)

least_loaded-least :
    (best : MediaNode) (ns : List MediaNode) (m : MediaNode)
    → In m (best ∷ ns)
    → loaded_no_more (least_loaded best ns) m ≡ true
unfolding least_loaded
least_loaded-least best [] m (inl e) = rw e (no_more_refl best)
least_loaded-least best [] m (inr nothing) = absurd nothing
least_loaded-least best (n ∷ rest) m inside =
    let b = loaded_no_more best n in
    let first = if b then best else n in
    let (below, beyond) = either_no_more b best n refl in
    let chosen = least_loaded-least first rest first (inl refl) in
    elim inside [
      | inl e ↦ rw e (no_more_trans (least_loaded first rest) first best chosen below)
      | inr later ↦ elim later [
        | inl e ↦ rw e (no_more_trans (least_loaded first rest) first n chosen beyond)
        | inr after ↦ least_loaded-least first rest m (inr after)
      ]
    ]

pub first_least-least :
    (ns : List MediaNode) (n m : MediaNode)
    → first_least ns ≡ some n
    → In m ns
    → loaded_no_more n m ≡ true
first_least-least [] n m h inside = absurd inside
first_least-least (k ∷ rest) n m h inside =
    subst (λ x. loaded_no_more x m ≡ true) (some-injective _ _ h)
      (least_loaded-least k rest m inside)

pub first_least_some : (ns : List MediaNode) (m : MediaNode) → In m ns → first_least ns ≢ none
first_least_some [] m inside e = inside
first_least_some (k ∷ rest) m inside e = ground arith
