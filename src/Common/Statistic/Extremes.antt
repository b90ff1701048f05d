-- ===== src/Common/Statistic/Extremes.antt =====
-- The least and the greatest number of statistic.rs bound every number that was given, NaN included.
use timbre_tsf.Prelude.{ℕ, ◌≡◌, arith, Bool, false, not, ◌&&◌, ltb, if◌then◌else◌}
use timbre_tsf.Words.{slt}
use timbre_tsf.Words.Float.{FloatFormat, is_nan, float_key, float_lt}
use timbre_tsf.Common.Statistic.{int_min, int_max, float_min, float_max}

-- A number between two others, by a test of what is less.
abbrev pub Between : (ℕ → ℕ → Bool) → ℕ → ℕ → ℕ → Type 0
Between lt least greatest u = (lt u least ≡ false) × (lt greatest u ≡ false)

pub int_Between :
    (w least greatest u x : ℕ)
    → Between (slt w) least greatest u
    → Between (slt w) (int_min w least x) (int_max w greatest x) u
int_Between w least greatest u x (lo, hi) = (ground arith, ground arith)

pub int_Between_self :
    (w least greatest x : ℕ) → Between (slt w) (int_min w least x) (int_max w greatest x) x
int_Between_self w least greatest x = (ground arith, ground arith)

-- Comparison of floats and what passes over NaN, for any test of NaN and any key.
module _ (nan : ℕ → Bool) (key : ℕ → ℕ) where
  abbrev lt : ℕ → ℕ → Bool
  lt x y = not (nan x) && not (nan y) && ltb (key x) (key y)

  abbrev least_of : ℕ → ℕ → ℕ
  least_of x y = if nan x then y else if lt y x then y else x

  abbrev greatest_of : ℕ → ℕ → ℕ
  greatest_of x y = if nan x then y else if lt x y then y else x

  least_old : (x m u : ℕ) → nan m ≡ false → lt u m ≡ false → lt u (least_of x m) ≡ false
  least_old x m u num h = ground arith

  least_new :
      (x m : ℕ) → nan m ≡ false → (lt x (least_of x m) ≡ false) × (nan (least_of x m) ≡ false)
  least_new x m num = (ground arith, ground arith)

  greatest_old : (x m u : ℕ) → nan m ≡ false → lt m u ≡ false → lt (greatest_of x m) u ≡ false
  greatest_old x m u num h = ground arith

  greatest_new :
      (x m : ℕ) → nan m ≡ false → (lt (greatest_of x m) x ≡ false) × (nan (greatest_of x m) ≡ false)
  greatest_new x m num = (ground arith, ground arith)

  -- The same where both are numbers, whichever comes first.
  least_first :
      (m x u : ℕ) → nan m ≡ false → nan x ≡ false → lt u m ≡ false → lt u (least_of m x) ≡ false
  least_first m x u num num' h = ground arith

  greatest_first :
      (m x u : ℕ) → nan m ≡ false → nan x ≡ false → lt m u ≡ false → lt (greatest_of m x) u ≡ false
  greatest_first m x u num num' h = ground arith

  least_second :
      (m x u : ℕ) → nan m ≡ false → nan x ≡ false → lt u x ≡ false → lt u (least_of m x) ≡ false
  least_second m x u num num' h = ground arith

  greatest_second :
      (m x u : ℕ) → nan m ≡ false → nan x ≡ false → lt x u ≡ false → lt (greatest_of m x) u ≡ false
  greatest_second m x u num num' h = ground arith

module _ (f : FloatFormat) where
  -- Two numbers that are no NaN, as the extremes are.
  abbrev pub AreNumbers : ℕ → ℕ → Type 0
  AreNumbers least greatest = (is_nan f least ≡ false) × (is_nan f greatest ≡ false)

  pub float_Between :
      (least greatest u x : ℕ)
      → AreNumbers least greatest
      → Between (float_lt f) least greatest u
      → Between (float_lt f) (float_min f x least) (float_max f x greatest) u
  unfolding float_min float_max
  float_Between least greatest u x (num, num') (lo, hi) = (
    least_old (is_nan f) (float_key f) x least u num lo,
    greatest_old (is_nan f) (float_key f) x greatest u num' hi,
  )

  pub float_Between_self :
      (least greatest x : ℕ)
      → AreNumbers least greatest
      → Between (float_lt f) (float_min f x least) (float_max f x greatest) x
        × AreNumbers (float_min f x least) (float_max f x greatest)
  unfolding float_min float_max
  float_Between_self least greatest x (num, num') =
      let (lo, n) = least_new (is_nan f) (float_key f) x least num in
      let (hi, n') = greatest_new (is_nan f) (float_key f) x greatest num' in ((lo, hi), (n, n'))

  -- What one of two pairs of extremes bounds, the extremes of both bound.
  pub float_Between_first :
      (least greatest other_least other_greatest u : ℕ)
      → AreNumbers least greatest
      → AreNumbers other_least other_greatest
      → Between (float_lt f) least greatest u
      → Between (float_lt f) (float_min f least other_least) (float_max f greatest other_greatest) u
  unfolding float_min float_max
  float_Between_first least greatest other_least other_greatest u (num, num') (other, other')
        (lo, hi) =
      (
        least_first (is_nan f) (float_key f) least other_least u num other lo,
        greatest_first (is_nan f) (float_key f) greatest other_greatest u num' other' hi,
      )

  pub float_Between_other :
      (least greatest other_least other_greatest u : ℕ)
      → AreNumbers least greatest
      → AreNumbers other_least other_greatest
      → Between (float_lt f) other_least other_greatest u
      → Between (float_lt f) (float_min f least other_least) (float_max f greatest other_greatest) u
  unfolding float_min float_max
  float_Between_other least greatest other_least other_greatest u (num, num') (other, other')
        (lo, hi) =
      (
        least_second (is_nan f) (float_key f) least other_least u num other lo,
        greatest_second (is_nan f) (float_key f) greatest other_greatest u num' other' hi,
      )

-- The same for integers: what the second pair bounds.
pub int_Between_other :
    (w least greatest u x y : ℕ)
    → Between (slt w) x y u
    → Between (slt w) (int_min w least x) (int_max w greatest y) u
int_Between_other w least greatest u x y (lo, hi) = (ground arith, ground arith)

pub int_Between_first :
    (w least greatest u x y : ℕ)
    → Between (slt w) least greatest u
    → Between (slt w) (int_min w least x) (int_max w greatest y) u
int_Between_first w least greatest u x y (lo, hi) = (ground arith, ground arith)
