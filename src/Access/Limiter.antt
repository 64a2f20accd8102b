-- ===== src/Access/Limiter.antt =====
-- `AccessAttemptLimiter` of access.py. Tokens and times are floats, whose arithmetic is a parameter.
-- An address is the number of what `_peer_address` returns, an IPv6 address 2 ^ 32 more.
pub mod Pending
pub mod Buckets
pub mod Rate
pub mod Runs
use rtsp_proxy.Prelude.{
  ℕ, ◌+◌, ◌-◌, Bool, true, false, ◌&&◌, ◌||◌, Option, none, some, List, [], ◌∷◌, ◌++◌, ltb, leb,
  ◌==◌, if◌then◌else◌, length, get, put, pop, Dict,
}
use rtsp_proxy.Prelude.Errors.{runtime_error, value_error, Result, ok, err, refuse, ◌>>◌}
use rtsp_proxy.Access.Floats.{Float, Floats}

-- The keys of the buckets, `peer:…` and `grant:…:…`.
pub data BucketKey : Type 0 where
  peer : ℕ → BucketKey
  grant : ℕ → ℕ → BucketKey

abbrev pub same_key : BucketKey → BucketKey → Bool
same_key (peer a) (peer b) = a == b
same_key (grant c g) (grant d h) = c == d && g == h
same_key (peer a) (grant d h) = false
same_key (grant c g) (peer b) = false

pub record RateBucket : Type 0 where
  pub tokens : Float
  pub updated : Float

pub record Limits : Type 0 where
  pub peer_rate : ℕ
  pub peer_burst : ℕ
  pub grant_rate : ℕ
  pub grant_burst : ℕ
  pub maximum_pending_per_peer : ℕ
  pub maximum_keys : ℕ

abbrev pub Buckets : Type 0
Buckets = List (BucketKey × RateBucket)

pub record Limiter : Type 0 where
  pub limits : Limits
  pub buckets : Buckets
  pub pending : Dict ℕ

unfoldable pub create_limiter : Limits → Result Limiter
create_limiter c = do
  refuse
      (ltb c.peer_rate 1
        || ltb c.peer_burst 1
        || ltb c.grant_rate 1
        || ltb c.grant_burst 1
        || ltb c.maximum_pending_per_peer 1
        || ltb c.maximum_keys 1
        || ltb c.peer_burst c.peer_rate
        || ltb c.grant_burst c.grant_rate)
      (value_error "access_attempt_limiter_invalid")
  ok (record { limits = c; buckets = []; pending = [] })

-- `self._pending.get(key, 0)`
abbrev pub or_zero : Option ℕ → ℕ
or_zero none = 0
or_zero (some n) = n

unfoldable pub begin_peer : ℕ → Limiter → Bool × Limiter
begin_peer address l =
    let current = or_zero (get address l.pending) in
    if leb l.limits.maximum_pending_per_peer current
    then (false, l)
    else if current == 0 && leb l.limits.maximum_keys (length l.pending)
    then (false, l)
    else (true, record l { pending = put address (current + 1) l.pending })

end_current : Option ℕ → ℕ → Limiter → Result (Unit {0}) × Limiter
end_current none address l = (err (runtime_error "access_attempt_pending_missing"), l)
end_current (some current) address l =
    if current == 1
    then (ok tt, record l { pending = pop address l.pending })
    else (ok tt, record l { pending = put address (current - 1) l.pending })

unfoldable pub end_peer : ℕ → Limiter → Result (Unit {0}) × Limiter
unfolding end_current
end_peer address l = end_current (get address l.pending) address l

unfoldable pub find_bucket : BucketKey → Buckets → Option RateBucket
find_bucket key [] = none
find_bucket key ((k, b) ∷ rest) = if same_key k key then some b else find_bucket key rest

unfoldable pub pop_bucket : BucketKey → Buckets → Buckets
pop_bucket key [] = []
pop_bucket key ((k, b) ∷ rest) =
    let others = pop_bucket key rest in if same_key k key then others else (k, b) ∷ others

-- `popitem(last=False)`
abbrev drop_first : Buckets → Buckets
drop_first [] = []
drop_first (b ∷ rest) = rest

module _ (floats : Floats) where
  -- The bucket with what it gained since it was last used.
  abbrev pub refill : Float → Float → Float → RateBucket → RateBucket
  refill rate burst now b = record {
    tokens = floats.min burst (
        floats.add b.tokens
          (floats.mul (floats.max (floats.of_int 0) (floats.sub now b.updated)) rate));
    updated = now;
  }

  abbrev pub spend : RateBucket → Bool × RateBucket
  spend b =
      if floats.le (floats.of_int 1) b.tokens
      then (true, record b { tokens = floats.sub b.tokens (floats.of_int 1) })
      else (false, b)

-- The other buckets, the oldest of them dropped where a new key finds no room, and its own bucket.
abbrev pub bucket_for : Option RateBucket → ℕ → Float → Float → Buckets → Buckets × RateBucket
bucket_for (some b) maximum_keys burst now others = (others, b)
bucket_for none maximum_keys burst now others = (
  if leb maximum_keys (length others) then drop_first others else others,
  record { tokens = burst; updated = now },
)

module _ (floats : Floats) where
  -- `_allow` at the time `now` of the clock.
  unfoldable pub allow : BucketKey → Float → Float → Float → Limiter → Bool × Limiter
  unfolding find_bucket pop_bucket
  allow key rate burst now l =
      let (others, b) =
        bucket_for (find_bucket key l.buckets) l.limits.maximum_keys burst now
          (pop_bucket key l.buckets) in
      let (allowed, left) = spend floats (refill floats rate burst now b) in
      (allowed, record l { buckets = others ++ (key, left) ∷ [] })

  -- The rate and the burst are what the constructor keeps of its arguments, `float(peer_rate)` and
  -- so on.
  unfoldable pub allow_peer : ℕ → Float → Limiter → Bool × Limiter
  unfolding allow
  allow_peer address now l =
      allow (peer address) (floats.of_int l.limits.peer_rate) (floats.of_int l.limits.peer_burst)
        now l

  unfoldable pub allow_grant : ℕ → ℕ → Float → Limiter → Bool × Limiter
  unfolding allow
  allow_grant camera_id grant_id now l =
      allow (grant camera_id grant_id) (floats.of_int l.limits.grant_rate)
        (floats.of_int l.limits.grant_burst) now l
