-- ===== src/Words/Float.antt =====
-- Comparison of floating-point numbers, each the bits of an IEEE 754 number: zeros of both signs
-- are equal, and a comparison with NaN is false.
use timbre_tsf.Prelude.{ℕ, ◌+◌, ◌-◌, ◌%◌, ◌^◌, Bool, not, ◌&&◌, ltb, ◌==◌, if◌then◌else◌}

-- The width and the bits of infinity.
pub record FloatFormat : Type 0 where
  pub width : ℕ
  pub infinity : ℕ

abbrev pub f32_format : FloatFormat
f32_format = record { width = 32; infinity = 0x7f80_0000 }

abbrev pub f64_format : FloatFormat
f64_format = record { width = 64; infinity = 0x7ff0_0000_0000_0000 }

abbrev pub is_nan : FloatFormat → ℕ → Bool
is_nan f x = ltb f.infinity (x % 2 ^ (f.width - 1))

-- A number that grows with the floating-point number, the same for both zeros.
abbrev pub float_key : FloatFormat → ℕ → ℕ
float_key f x = if ltb x (2 ^ (f.width - 1)) then 2 ^ (f.width - 1) + x else 2 ^ f.width - x

abbrev pub float_lt : FloatFormat → ℕ → ℕ → Bool
float_lt f x y = not (is_nan f x) && not (is_nan f y) && ltb (float_key f x) (float_key f y)

abbrev pub float_eq : FloatFormat → ℕ → ℕ → Bool
float_eq f x y = not (is_nan f x) && not (is_nan f y) && float_key f x == float_key f y
