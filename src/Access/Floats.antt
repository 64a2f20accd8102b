-- ===== src/Access/Floats.antt =====
-- The arithmetic of Python's `float`, which the limiter of access.py computes with. A float is the
-- number of its bits, and what the operations answer is a parameter: nothing here rounds.
use rtsp_proxy.Prelude.{ℕ, suc, ◌≤◌, ◌≡◌, Bool, true, leb}

abbrev pub Float : Type 0
Float = ℕ

pub record Floats : Type 0 where
  -- `float(n)`
  pub of_int : ℕ → Float
  pub add : Float → Float → Float
  pub sub : Float → Float → Float
  pub mul : Float → Float → Float
  pub min : Float → Float → Float
  pub max : Float → Float → Float
  -- `a <= b`, which is `b >= a`
  pub le : Float → Float → Bool

-- 2 ^ 53: up to it a float holds each whole number exactly.
abbrev pub max_exact : ℕ
max_exact = 9_007_199_254_740_992

-- What IEEE 754 and Python's `min` and `max` promise near whole numbers: a rounded result does not
-- cross a whole number, a time that does not go on gives nothing, and nothing is added by nothing.
-- `x <= y` is false where either is no number.
pub record IsFloats (f : Floats) : Type 0 where
  pub le_trans : (x y z : Float) → f.le x y ≡ true → f.le y z ≡ true → f.le x z ≡ true
  pub of_int_le :
      (m n : ℕ) → m ≤ max_exact → n ≤ max_exact → f.le (f.of_int m) (f.of_int n) ≡ leb m n
  pub sub_at_most :
      (n : ℕ) (x : Float)
      → suc n ≤ max_exact
      → f.le x (f.of_int (suc n)) ≡ true
      → f.le (f.sub x (f.of_int 1)) (f.of_int n) ≡ true
  pub sub_at_least :
      (n : ℕ) (x : Float)
      → suc n ≤ max_exact
      → f.le (f.of_int (suc n)) x ≡ true
      → f.le (f.of_int n) (f.sub x (f.of_int 1)) ≡ true
  pub min_first :
      (n : ℕ) (x : Float) → n ≤ max_exact → f.le (f.min (f.of_int n) x) (f.of_int n) ≡ true
  pub min_at_most :
      (n : ℕ) (x y : Float) → n ≤ max_exact → f.le x y ≡ true → f.le (f.min (f.of_int n) x) y ≡ true
  pub min_at_least : (x y z : Float) → f.le z x ≡ true → f.le z y ≡ true → f.le z (f.min x y) ≡ true
  pub no_time :
      (now before : Float)
      → f.le now before ≡ true
      → f.max (f.of_int 0) (f.sub now before) ≡ f.of_int 0
  pub gain_at_most :
      (rate : ℕ) (x y : Float)
      → rate ≤ max_exact
      → f.le x y ≡ true
      → f.le (f.add x (f.mul (f.of_int 0) (f.of_int rate))) y ≡ true
  pub gain_at_least :
      (rate : ℕ) (x y : Float)
      → rate ≤ max_exact
      → f.le y x ≡ true
      → f.le y (f.add x (f.mul (f.of_int 0) (f.of_int rate))) ≡ true
