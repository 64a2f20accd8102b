-- ===== src/Access/Limiter/Rate.antt =====
-- How many attempts one key is allowed while the clock stands still.
use rtsp_proxy.Prelude.{
  ℕ, ◌+◌, ◌≤◌, ◌∙◌, zero, suc, min, ◌≡◌, refl, true, none, some, List, [], ◌∷◌, arith, inl, inr,
  Bool-cases, if◌then◌else◌, length,
}
use rtsp_proxy.Access.Floats.{Float, Floats, IsFloats, max_exact}
use rtsp_proxy.Access.Limiter.Buckets.{start, allow-used, allowed_at}
use rtsp_proxy.Access.Limiter.{BucketKey, RateBucket, Limiter, refill, spend, find_bucket, allow}

module _ (floats : Floats) where
  -- No reading of the clock is later than the one before it.
  abbrev pub StandsStill : Float → List Float → Type 0
  StandsStill before [] = Unit
  StandsStill before (t ∷ ts) = (floats.le t before ≡ true) × StandsStill t ts

module _ (floats : Floats) (is : IsFloats floats) where
  -- No more whole tokens than `m`, and no less.
  abbrev AtMost : ℕ → Float → Type 0
  AtMost m x = floats.le x (floats.of_int m) ≡ true

  abbrev AtLeast : ℕ → Float → Type 0
  AtLeast m x = floats.le (floats.of_int m) x ≡ true

  le_one :
      (m : ℕ) (x : Float)
      → m ≤ max_exact
      → floats.le (floats.of_int 1) x ≡ true
      → AtMost m x
      → 1 ≤ m
  le_one m x small one most =
      let below = is.le_trans (floats.of_int 1) x (floats.of_int m) one most in
      ground (arith, is.of_int_le 1 m (omega arith) small)

  one_le :
      (m : ℕ) (x : Float)
      → suc m ≤ max_exact
      → AtLeast (suc m) x
      → floats.le (floats.of_int 1) x ≡ true
  one_le m x small least =
      is.le_trans (floats.of_int 1) (floats.of_int (suc m)) x
        (is.of_int_le 1 (suc m) (omega arith) small ∙ ground arith) least

  module _ (key : BucketKey) (rate burst : ℕ) where
    -- At a time that is no later, a bucket gains nothing.
    refilled-AtMost :
        (m : ℕ) (now : Float) (b : RateBucket)
        → rate ≤ max_exact
        → burst ≤ max_exact
        → floats.le now b.updated ≡ true
        → AtMost m b.tokens
        → AtMost m (refill floats (floats.of_int rate) (floats.of_int burst) now b).tokens
    refilled-AtMost m now b r q stands most = rw (is.no_time now b.updated stands) (
        is.min_at_most burst _ (floats.of_int m) q
          (is.gain_at_most rate b.tokens (floats.of_int m) r most))

    refilled-AtLeast :
        (m : ℕ) (now : Float) (b : RateBucket)
        → rate ≤ max_exact
        → burst ≤ max_exact
        → m ≤ burst
        → floats.le now b.updated ≡ true
        → AtLeast m b.tokens
        → AtLeast m (refill floats (floats.of_int rate) (floats.of_int burst) now b).tokens
    refilled-AtLeast m now b r q within stands least = rw (is.no_time now b.updated stands) (
        is.min_at_least (floats.of_int burst) _ (floats.of_int m)
          (is.of_int_le m burst (omega arith) q ∙ ground arith)
          (is.gain_at_least rate b.tokens (floats.of_int m) r least))

    -- What an attempt leaves of at most `m` tokens, where `m` is what it and later ones may take.
    spend-AtMost :
        (m : ℕ) (b : RateBucket)
        → m ≤ max_exact
        → AtMost m b.tokens
        → (k : ℕ) × (AtMost k (spend floats b).1.tokens)
          × ((if (spend floats b).0 then 1 else 0) + k ≤ m)
    spend-AtMost zero b small most = elim (Bool-cases (floats.le (floats.of_int 1) b.tokens)) [
      | inl one ↦ absurd (omega (arith, le_one zero b.tokens small one most))
      | inr nothing ↦ rw nothing (zero, most, omega arith)
    ]
    spend-AtMost (suc k) b small most = elim (Bool-cases (floats.le (floats.of_int 1) b.tokens)) [
      | inl one ↦ rw one (k, is.sub_at_most k b.tokens small most, omega arith)
      | inr nothing ↦ rw nothing (suc k, most, omega arith)
    ]

    spend-updated : (b : RateBucket) → (spend floats b).1.updated ≡ b.updated
    spend-updated b = ground arith

    allowed_at_most :
        (m : ℕ) (ts : List Float) (l : Limiter) (b : RateBucket)
        → rate ≤ max_exact
        → burst ≤ max_exact
        → m ≤ max_exact
        → find_bucket key l.buckets ≡ some b
        → AtMost m b.tokens
        → StandsStill floats b.updated ts
        → allowed_at floats key (floats.of_int rate) (floats.of_int burst) ts l ≤ m
    unfolding allowed_at
    allowed_at_most m [] l b r q small found most stands = omega arith
    allowed_at_most m (t ∷ ts) l b r q small found most stands =
        let full = refill floats (floats.of_int rate) (floats.of_int burst) t b in
        let (answer, left) = allow-used floats key (floats.of_int rate) (floats.of_int burst) t l in
        let (k, after, sum) = spend-AtMost m full small (refilled-AtMost m t b r q stands.0 most) in
        let kept = rw found at left in
        let still : StandsStill floats (spend floats full).1.updated ts =
          rw (spend-updated full) stands.1 in
        let rest =
          allowed_at_most k ts (allow floats key (floats.of_int rate) (floats.of_int burst) t l).1
            (spend floats full).1 r q (omega arith) kept after still in
        rw (answer, found) (omega (arith, sum, rest))

    -- Where the floats are those of IEEE 754 and the rate and the burst are whole numbers up to
    -- 2 ^ 53, whatever the limiter holds: of attempts of one key that follow each other without
    -- attempts of other keys between them, at readings of the clock none of which is later than the
    -- one before it, no more are allowed than the burst.
    pub allowed_at_bounded :
        (t : Float) (ts : List Float) (l : Limiter)
        → rate ≤ max_exact
        → burst ≤ max_exact
        → StandsStill floats t ts
        → allowed_at floats key (floats.of_int rate) (floats.of_int burst) (t ∷ ts) l ≤ burst
    unfolding allowed_at
    allowed_at_bounded t ts l r q stands =
        let o = find_bucket key l.buckets in
        let full =
          refill floats (floats.of_int rate) (floats.of_int burst) t
            (start o (floats.of_int burst) t) in
        let (answer, left) = allow-used floats key (floats.of_int rate) (floats.of_int burst) t l in
        let (k, after, sum) = spend-AtMost burst full q (is.min_first burst _ q) in
        let still : StandsStill floats (spend floats full).1.updated ts =
          rw (spend-updated full) stands in
        let rest =
          allowed_at_most k ts (allow floats key (floats.of_int rate) (floats.of_int burst) t l).1
            (spend floats full).1 r q (omega arith) left after still in
        rw answer (omega (arith, sum, rest))

    -- Just `m` whole tokens: an attempt takes one of them, if there is one.
    spend_whole :
        (m : ℕ) (b : RateBucket)
        → m ≤ max_exact
        → AtMost m b.tokens
        → AtLeast m b.tokens
        → (k : ℕ) × (AtMost k (spend floats b).1.tokens)
          × (AtLeast k (spend floats b).1.tokens)
          × (k ≤ m)
          × ((n : ℕ) → (if (spend floats b).0 then 1 else 0) + min k n ≡ min m (suc n))
    spend_whole zero b small most least = elim (Bool-cases (floats.le (floats.of_int 1) b.tokens)) [
      | inl one ↦ absurd (omega (arith, le_one zero b.tokens small one most))
      | inr nothing ↦ rw nothing (zero, most, least, omega arith, λ n. omega arith)
    ]
    spend_whole (suc k) b small most least = rw (one_le k b.tokens small least) (
      k,
      is.sub_at_most k b.tokens small most,
      is.sub_at_least k b.tokens small least,
      omega arith,
      λ n. omega arith,
    )

    module _ (r : rate ≤ max_exact) (q : burst ≤ max_exact) where
      allowed_of : List Float → Limiter → ℕ
      allowed_of = allowed_at floats key (floats.of_int rate) (floats.of_int burst)

      -- One attempt, and those after it.
      allowed_first :
          (m : ℕ) (t : Float) (ts : List Float) (l : Limiter) (b : RateBucket)
          → start (find_bucket key l.buckets) (floats.of_int burst) t ≡ b
          → m ≤ burst
          → AtMost m b.tokens
          → AtLeast m b.tokens
          → StandsStill floats b.updated (t ∷ ts)
          → ((k : ℕ) (after : Limiter) (left : RateBucket)
              → find_bucket key after.buckets ≡ some left
              → k ≤ burst
              → AtMost k left.tokens
              → AtLeast k left.tokens
              → StandsStill floats left.updated ts
              → allowed_of ts after ≡ min k (length ts))
          → allowed_of (t ∷ ts) l ≡ min m (suc (length ts))
      unfolding allowed_of allowed_at
      allowed_first m t ts l b found within most least stands later =
          let full = refill floats (floats.of_int rate) (floats.of_int burst) t b in
          let (answer, left) =
            allow-used floats key (floats.of_int rate) (floats.of_int burst) t l in
          let (k, after_most, after_least, fewer, sum) =
            spend_whole m full (omega arith) (refilled-AtMost m t b r q stands.0 most)
              (refilled-AtLeast m t b r q within stands.0 least) in
          let kept = rw found at left in
          let still : StandsStill floats (spend floats full).1.updated ts =
            rw (spend-updated full) stands.1 in
          let rest =
            later k (allow floats key (floats.of_int rate) (floats.of_int burst) t l).1
              (spend floats full).1 kept (omega arith) after_most after_least still in
          rw (answer, found, rest) (sum (length ts))

      allowed_all :
          (ts : List Float) (m : ℕ) (l : Limiter) (b : RateBucket)
          → find_bucket key l.buckets ≡ some b
          → m ≤ burst
          → AtMost m b.tokens
          → AtLeast m b.tokens
          → StandsStill floats b.updated ts
          → allowed_of ts l ≡ min m (length ts)
      unfolding allowed_of allowed_at
      allowed_all [] m l b found within most least stands = omega arith
      allowed_all (t ∷ ts) m l b found within most least stands =
          allowed_first m t ts l b (rw found refl) within most least stands
            (λ k after left. allowed_all ts k after left)

    -- Where the floats are those of IEEE 754, the rate and the burst are whole numbers up to 2 ^ 53,
    -- and the limiter has no bucket for the key: of attempts of that key that follow each other
    -- without attempts of other keys between them, at readings of the clock of which the first is a
    -- number and none is later than the one before it, as many are allowed as the burst, or all of
    -- them if they are fewer.
    pub allowed_at-exact :
        (t : Float) (ts : List Float) (l : Limiter)
        → rate ≤ max_exact
        → burst ≤ max_exact
        → find_bucket key l.buckets ≡ none
        → floats.le t t ≡ true
        → StandsStill floats t ts
        → allowed_at floats key (floats.of_int rate) (floats.of_int burst) (t ∷ ts) l
          ≡ min burst (length (t ∷ ts))
    unfolding allowed_of
    allowed_at-exact t ts l r q missing number stands =
        let same : floats.le (floats.of_int burst) (floats.of_int burst) ≡ true =
          is.of_int_le burst burst q q ∙ ground arith in
        allowed_first r q burst t ts l (record { tokens = floats.of_int burst; updated = t })
          (rw missing refl) (omega arith) same same (number, stands)
          (λ k after left. allowed_all r q ts k after left)
