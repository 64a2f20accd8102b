-- ===== src/Access/Limiter/Runs.antt =====
-- Any calls of the limiter, in any order, from a limiter that was just created.
use rtsp_proxy.Prelude.{
  ℕ, suc, ◌≤◌, ◌≡◌, refl, Option, none, some, List, [], ◌∷◌, arith, inl, inr, Bool-cases, length,
  length-append, leb, get,
}
use rtsp_proxy.Prelude.Errors.{ok}
use rtsp_proxy.Access.Floats.{Float, Floats}
use rtsp_proxy.Access.Limiter.{
  BucketKey, peer, grant, same_key, RateBucket, Buckets, Limits, Limiter, create_limiter,
  begin_peer, end_peer, bucket_for, drop_first, find_bucket, pop_bucket, allow, allow_peer,
  allow_grant,
}
use rtsp_proxy.Access.Limiter.Pending.{
  IsPendingBounded, begin_peer-IsPendingBounded, end_peer-IsPendingBounded, begin_peer-limits,
  end_peer-limits,
}

pub data Call : Type 0 where
  beginning ending : ℕ → Call
  asking_peer : ℕ → Float → Call
  asking_grant : ℕ → ℕ → Float → Call

module _ (floats : Floats) where
  abbrev pub after : Call → Limiter → Limiter
  after (beginning a) l = (begin_peer a l).1
  after (ending a) l = (end_peer a l).1
  after (asking_peer a now) l = (allow_peer floats a now l).1
  after (asking_grant c g now) l = (allow_grant floats c g now l).1

  pub run : List Call → Limiter → Limiter
  run [] l = l
  run (c ∷ rest) l = run rest (after c l)

-- Both tables are bounded.
pub record IsBounded (l : Limiter) : Type 0 where
  pub in_flight : IsPendingBounded l
  pub buckets : length l.buckets ≤ l.limits.maximum_keys
  pub some_room : 1 ≤ l.limits.maximum_keys

length-pop_bucket-le : (k : BucketKey) (d : Buckets) → length (pop_bucket k d) ≤ length d
unfolding pop_bucket
length-pop_bucket-le k [] = omega arith
length-pop_bucket-le k ((j, b) ∷ d) = ground (arith, length-pop_bucket-le k d)

length-pop_bucket-lt :
    (k : BucketKey) (d : Buckets) (b : RateBucket)
    → find_bucket k d ≡ some b
    → suc (length (pop_bucket k d)) ≤ length d
unfolding find_bucket pop_bucket
length-pop_bucket-lt k [] b h = absurd (ground arith)
length-pop_bucket-lt k ((j, c) ∷ d) b h = elim (Bool-cases (same_key j k)) [
  | inl same ↦ rw same (omega (arith, length-pop_bucket-le k d))
  | inr other ↦ rw other (omega (arith, length-pop_bucket-lt k d b (rw other at h)))
]

length-drop_first : (d : Buckets) → 1 ≤ length d → suc (length (drop_first d)) ≤ length d
length-drop_first [] h = absurd (omega arith)
length-drop_first (b ∷ d) h = omega arith

length-bucket_for :
    (o : Option RateBucket) (k : BucketKey) (most : ℕ) (burst now : Float) (d : Buckets)
    → find_bucket k d ≡ o
    → length d ≤ most
    → 1 ≤ most
    → suc (length (bucket_for o most burst now (pop_bucket k d)).0) ≤ most
length-bucket_for (some b) k most burst now d e h one = omega (arith, length-pop_bucket-lt k d b e)
length-bucket_for none k most burst now d e h one =
    elim (Bool-cases (leb most (length (pop_bucket k d)))) [
      | inl full ↦
          rw full (ground (arith, length-drop_first (pop_bucket k d), length-pop_bucket-le k d))
      | inr room ↦ rw room (ground arith)
    ]

create-IsBounded : (c : Limits) (l : Limiter) → create_limiter c ≡ ok l → IsBounded l
unfolding create_limiter get
create-IsBounded c l h = record {
  in_flight = record { counted = λ a. ground arith; keys = ground arith };
  buckets = ground arith;
  some_room = ground arith;
}

module _ (floats : Floats) where
  allow-IsBounded :
      (k : BucketKey) (rate burst now : Float) (l : Limiter)
      → IsBounded l
      → IsBounded (allow floats k rate burst now l).1
  unfolding allow
  allow-IsBounded k rate burst now l h = record {
    in_flight = record { counted = h.in_flight.counted; keys = h.in_flight.keys };
    buckets = rw length-append (
        omega (
          arith,
          length-bucket_for (find_bucket k l.buckets) k l.limits.maximum_keys burst now l.buckets
              refl h.buckets h.some_room,
        ));
    some_room = h.some_room;
  }

  after-IsBounded : (c : Call) (l : Limiter) → IsBounded l → IsBounded (after floats c l)
  unfolding allow_peer allow_grant
  after-IsBounded (beginning a) l h =
      let (limits, buckets) = begin_peer-limits a l in
      record {
        in_flight = begin_peer-IsPendingBounded a l h.in_flight;
        buckets = rw (limits, buckets) h.buckets;
        some_room = rw limits h.some_room;
      }
  after-IsBounded (ending a) l h =
      let (limits, buckets) = end_peer-limits a l in
      record {
        in_flight = end_peer-IsPendingBounded a l h.in_flight;
        buckets = rw (limits, buckets) h.buckets;
        some_room = rw limits h.some_room;
      }
  after-IsBounded (asking_peer a now) l h = allow-IsBounded (peer a) _ _ now l h
  after-IsBounded (asking_grant c g now) l h = allow-IsBounded (grant c g) _ _ now l h

  keeps_running : (calls : List Call) (l : Limiter) → IsBounded l → IsBounded (run floats calls l)
  unfolding run
  keeps_running [] l h = h
  keeps_running (c ∷ rest) l h = keeps_running rest (after floats c l) (after-IsBounded c l h)

  -- Whatever the floats answer, and whatever calls are made of a limiter since it was created: no address has more attempts in flight
  -- than the limit for one, and neither the table of attempts in flight nor that of buckets has more
  -- keys than the limit.
  pub run-IsBounded :
      (c : Limits) (l : Limiter) (calls : List Call)
      → create_limiter c ≡ ok l
      → IsBounded (run floats calls l)
  run-IsBounded c l calls h = keeps_running calls l (create-IsBounded c l h)
