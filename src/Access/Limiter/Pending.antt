-- ===== src/Access/Limiter/Pending.antt =====
-- The table of attempts in flight.
use rtsp_proxy.Prelude.{
  ℕ, ◌+◌, ◌≤◌, ◌≡◌, refl, true, false, Option, none, some, List, arith, inl, inr, Bool-cases,
  Option-cases, ==_iff, ◌==◌, ◌-◌, ◌&&◌, leb, length, length-put-le, length-put_known,
  length-pop-le, get, put, pop, get-put, get-pop,
}
use rtsp_proxy.Prelude.Errors.{ok}
use rtsp_proxy.Access.Limiter.{Limiter, begin_peer, end_peer, end_current, or_zero}

-- What is counted for an address, none or a number in range.
abbrev pub InRange : Option ℕ → ℕ → Type 0
InRange none most = Unit
InRange (some n) most = (1 ≤ n) × (n ≤ most)

-- No address has more attempts in flight than it may, an address without one is not in the table,
-- and the table has room for no more addresses than it may.
pub record IsPendingBounded (l : Limiter) : Type 0 where
  pub counted : (address : ℕ) → InRange (get address l.pending) l.limits.maximum_pending_per_peer
  pub keys : length l.pending ≤ l.limits.maximum_keys

put-InRange :
    (a b n most : ℕ) (d : List (ℕ × ℕ))
    → 1 ≤ n
    → n ≤ most
    → InRange (get b d) most
    → InRange (get b (put a n d)) most
put-InRange a b n most d low high h = elim (Bool-cases (a == b)) [
  | inl same ↦ rw (get-put, same) (low, high)
  | inr other ↦ rw (get-put, other) h
]

pop-InRange :
    (a b most : ℕ) (d : List (ℕ × ℕ)) → InRange (get b d) most → InRange (get b (pop a d)) most
pop-InRange a b most d h = elim (Bool-cases (a == b)) [
  | inl same ↦ rw (get-pop, same) tt
  | inr other ↦ rw (get-pop, other) h
]

or_zero-InRange : (o : Option ℕ) (most : ℕ) → InRange o most → or_zero o ≤ most
or_zero-InRange none most h = omega arith
or_zero-InRange (some n) most h = h.1

pub begin_peer-IsPendingBounded :
    (a : ℕ) (l : Limiter) → IsPendingBounded l → IsPendingBounded (begin_peer a l).1
unfolding begin_peer
begin_peer-IsPendingBounded a l h =
    elim (Bool-cases (leb l.limits.maximum_pending_per_peer (or_zero (get a l.pending)))) [
      | inl full ↦ rw full h
      | inr free ↦
          elim (Bool-cases
            (or_zero (get a l.pending) == 0 && leb l.limits.maximum_keys (length l.pending))) [
              | inl crowded ↦ rw (free, crowded) h
              | inr room ↦
                  rw (free, room)
                    (record {
                      counted = λ b.
                          put-InRange a b (or_zero (get a l.pending) + 1) _ l.pending (omega arith)
                            (ground arith) (h.counted b);
                      keys = elim (Option-cases (get a l.pending)) [
                        | inl missing ↦ ground (
                          arith,
                          length-put-le a (or_zero (get a l.pending) + 1) l.pending,
                          h.keys,
                        )
                        | inr (n, e) ↦ omega (
                          arith,
                          length-put_known a (or_zero (get a l.pending) + 1) n l.pending e,
                          h.keys,
                        )
                      ];
                    })
            ]
    ]

pub end_peer-IsPendingBounded :
    (a : ℕ) (l : Limiter) → IsPendingBounded l → IsPendingBounded (end_peer a l).1
unfolding end_peer end_current
end_peer-IsPendingBounded a l h = elim (Option-cases (get a l.pending)) [
  | inl missing ↦ rw missing h
  | inr (n, e) ↦
      let range : InRange (some n) l.limits.maximum_pending_per_peer = rw e at (h.counted a) in
      elim (Bool-cases (n == 1)) [
        | inl last ↦
            rw (e, last)
              (record {
                counted = λ b. pop-InRange a b _ l.pending (h.counted b);
                keys = omega (arith, length-pop-le a l.pending, h.keys);
              })
        | inr more ↦
            rw (e, more)
              (record {
                counted = λ b.
                    put-InRange a b (n - 1) _ l.pending (ground arith) (omega (arith, range.1))
                      (h.counted b);
                keys = omega (arith, length-put_known a (n - 1) n l.pending e, h.keys);
              })
      ]
]

begun :
    (a : ℕ) (l : Limiter)
    → (begin_peer a l).0 ≡ true
    → (begin_peer a l).1 ≡ record l { pending = put a (or_zero (get a l.pending) + 1) l.pending }
unfolding begin_peer
begun a l h = ground arith

restored_first : (a b : ℕ) (d : List (ℕ × ℕ)) → get a d ≡ none → get b (pop a (put a 1 d)) ≡ get b d
restored_first a b d e = elim (Bool-cases (a == b)) [
  | inl same ↦ let at_b : get b d ≡ none = ground (arith, ==_iff a b) in rw (get-pop, same, at_b)
  | inr other ↦ rw (get-pop, other, get-put, other)
]

restored_more :
    (a b n : ℕ) (d : List (ℕ × ℕ))
    → get a d ≡ some n
    → get b (put a (n + 1 - 1) (put a (n + 1) d)) ≡ get b d
restored_more a b n d e = elim (Bool-cases (a == b)) [
  | inl same ↦
      let at_b : get b d ≡ some n = ground (arith, ==_iff a b) in
      let less : n + 1 - 1 ≡ n = omega arith in rw (get-put, same, at_b, less)
  | inr other ↦ rw (get-put, other, get-put, other)
]

-- Where an attempt was let in and the table is bounded, its end succeeds and leaves every address
-- with as many attempts in flight as before it.
pub end_peer-begin_peer :
    (a b : ℕ) (l : Limiter)
    → IsPendingBounded l
    → (begin_peer a l).0 ≡ true
    → ((end_peer a (begin_peer a l).1).0 ≡ ok tt)
      × (get b (end_peer a (begin_peer a l).1).1.pending ≡ get b l.pending)
unfolding end_peer end_current
end_peer-begin_peer a b l h began = rw (begun a l began) elim (Option-cases (get a l.pending)) [
  | inl missing ↦
      let found : get a (put a (0 + 1) l.pending) ≡ some 1 =
        rw (get-put, (==_iff a a).1 refl) refl in
      rw (missing, found) (refl, restored_first a b l.pending missing)
  | inr (n, e) ↦
      let range : InRange (some n) l.limits.maximum_pending_per_peer = rw e at (h.counted a) in
      let found : get a (put a (n + 1) l.pending) ≡ some (n + 1) =
        rw (get-put, (==_iff a a).1 refl) refl in
      let more : (n + 1 == 1) ≡ false = ground (arith, range.0) in
      rw (e, found, more) (refl, restored_more a b n l.pending e)
]

pub end_peer-pending :
    (a : ℕ) (l k : Limiter)
    → l.pending ≡ k.pending
    → (end_peer a l).1.pending ≡ (end_peer a k).1.pending
unfolding end_peer end_current
end_peer-pending a l k e = elim (Option-cases (get a k.pending)) [
  | inl missing ↦ rw (e, missing) refl
  | inr (n, found) ↦ ground (arith, e, found)
]

pub begin_peer_refused : (a : ℕ) (l : Limiter) → (begin_peer a l).0 ≡ false → (begin_peer a l).1 ≡ l
unfolding begin_peer
begin_peer_refused a l h = ground arith

pub begin_peer-limits :
    (a : ℕ) (l : Limiter)
    → ((begin_peer a l).1.limits ≡ l.limits) × ((begin_peer a l).1.buckets ≡ l.buckets)
unfolding begin_peer
begin_peer-limits a l = ground arith

pub end_peer-limits :
    (a : ℕ) (l : Limiter)
    → ((end_peer a l).1.limits ≡ l.limits) × ((end_peer a l).1.buckets ≡ l.buckets)
unfolding end_peer end_current
end_peer-limits a l = elim (Option-cases (get a l.pending)) [
  | inl missing ↦ rw missing (refl, refl)
  | inr (n, e) ↦ ground (arith, e)
]
