-- ===== src/Access/Limiter/Buckets.antt =====
-- What one attempt answers, and the bucket of its key that it leaves.
use rtsp_proxy.Prelude.{
  ℕ, ◌+◌, ◌≡◌, refl, Bool, true, Option, none, some, List, [], ◌∷◌, ◌++◌, arith, inl, inr,
  Bool-cases, if◌then◌else◌, length, leb,
}
use rtsp_proxy.Access.Floats.{Float, Floats}
use rtsp_proxy.Access.Limiter.{
  BucketKey, peer, grant, same_key, RateBucket, Buckets, Limiter, refill, spend, bucket_for,
  find_bucket, pop_bucket, drop_first, allow,
}

same_key_refl : (k : BucketKey) → same_key k k ≡ true
same_key_refl (peer a) = ground arith
same_key_refl (grant c g) = ground arith

find-pop_bucket : (k : BucketKey) (d : Buckets) → find_bucket k (pop_bucket k d) ≡ none
unfolding find_bucket pop_bucket
find-pop_bucket k [] = refl
find-pop_bucket k ((j, b) ∷ d) = elim (Bool-cases (same_key j k)) [
  | inl same ↦ rw same (find-pop_bucket k d)
  | inr other ↦ rw (other, other) (find-pop_bucket k d)
]

find-drop_first :
    (k : BucketKey) (d : Buckets) → find_bucket k d ≡ none → find_bucket k (drop_first d) ≡ none
unfolding find_bucket
find-drop_first k [] h = refl
find-drop_first k ((j, b) ∷ d) h = ground arith

find-last :
    (k : BucketKey) (d : Buckets) (b : RateBucket)
    → find_bucket k d ≡ none
    → find_bucket k (d ++ (k, b) ∷ []) ≡ some b
unfolding find_bucket
find-last k [] b h = rw same_key_refl refl
find-last k ((j, c) ∷ d) b h = elim (Bool-cases (same_key j k)) [
  | inl same ↦ absurd (ground arith)
  | inr other ↦ rw other (find-last k d b (rw other at h))
]

-- The bucket that an attempt finds, or the full one that it starts.
abbrev pub start : Option RateBucket → Float → Float → RateBucket
start none burst now = record { tokens = burst; updated = now }
start (some b) burst now = b

others-none :
    (o : Option RateBucket) (k : BucketKey) (most : ℕ) (burst now : Float) (d : Buckets)
    → find_bucket k d ≡ none
    → find_bucket k (bucket_for o most burst now d).0 ≡ none
others-none (some b) k most burst now d h = h
others-none none k most burst now d h = elim (Bool-cases (leb most (length d))) [
  | inl full ↦ rw full (find-drop_first k d h)
  | inr room ↦ rw room h
]

start-bucket_for :
    (o : Option RateBucket) (most : ℕ) (burst now : Float) (d : Buckets)
    → (bucket_for o most burst now d).1 ≡ start o burst now
start-bucket_for none most burst now d = refl
start-bucket_for (some b) most burst now d = refl

module _ (floats : Floats) (key : BucketKey) (rate burst : Float) where
  abbrev pub used : Float → Option RateBucket → Bool × RateBucket
  used now o = spend floats (refill floats rate burst now (start o burst now))

  -- What an attempt answers, and the bucket that it leaves.
  pub allow-used :
      (now : Float) (l : Limiter)
      → ((allow floats key rate burst now l).0 ≡ (used now (find_bucket key l.buckets)).0)
        × (find_bucket key (allow floats key rate burst now l).1.buckets
            ≡ some (used now (find_bucket key l.buckets)).1)
  unfolding allow
  allow-used now l =
      let o = find_bucket key l.buckets in
      let same = start-bucket_for o l.limits.maximum_keys burst now (pop_bucket key l.buckets) in
      (
        rw same refl,
        rw same (
            find-last key _ _ (
              others-none o key l.limits.maximum_keys burst now _ (find-pop_bucket key l.buckets))),
      )

  -- Attempts at these times, one after the other: how many of them are allowed.
  unfoldable pub allowed_at : List Float → Limiter → ℕ
  allowed_at [] l = 0
  allowed_at (now ∷ rest) l =
      let (allowed, left) = allow floats key rate burst now l in
      (if allowed then 1 else 0) + allowed_at rest left
