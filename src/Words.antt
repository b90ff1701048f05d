-- ===== src/Words.antt =====
-- Machine words. A w-bit integer, signed or not, is its bit pattern, a number below 2 ^ w: so `as`
-- between types of one width changes nothing, and a wider one from a signed one extends the sign.
-- Arithmetic wraps, as in the release profile of the crate.
pub mod Bits
pub mod Shifts
pub mod Zeros
pub mod Xor
pub mod Zigzag
pub mod Float
mod Tests
use timbre_tsf.Prelude.{ℕ, ◌+◌, ◌-◌, ◌*◌, ◌/◌, ◌%◌, ◌^◌, ◌<◌, Bool, ltb, leb, if◌then◌else◌}

abbrev pub u8 : ℕ → ℕ
u8 n = n % 2 ^ 8

abbrev pub u32 : ℕ → ℕ
u32 n = n % 2 ^ 32

abbrev pub u64 : ℕ → ℕ
u64 n = n % 2 ^ 64

abbrev pub IsByte : ℕ → Type 0
IsByte b = b < 2 ^ 8

abbrev pub IsU32 : ℕ → Type 0
IsU32 n = n < 2 ^ 32

abbrev pub IsU64 : ℕ → Type 0
IsU64 n = n < 2 ^ 64

-- x << k and x >> k at w bits; `sar` is the shift of a signed type, which copies the sign.
abbrev pub shl : ℕ → ℕ → ℕ → ℕ
shl w x k = (x * 2 ^ k) % 2 ^ w

abbrev pub shr : ℕ → ℕ → ℕ
shr x k = x / 2 ^ k

abbrev pub sar : ℕ → ℕ → ℕ → ℕ
sar w x k = if ltb x (2 ^ (w - 1)) then x / 2 ^ k else 2 ^ w - 1 - (2 ^ w - 1 - x) / 2 ^ k

-- x + y, x - y and -x at w bits.
abbrev pub wrapping_add : ℕ → ℕ → ℕ → ℕ
wrapping_add w x y = (x + y) % 2 ^ w

abbrev pub wrapping_sub : ℕ → ℕ → ℕ → ℕ
wrapping_sub w x y = (x + (2 ^ w - y)) % 2 ^ w

abbrev pub wrapping_neg : ℕ → ℕ → ℕ
wrapping_neg w x = (2 ^ w - x) % 2 ^ w

-- `i32 as i64` and `i32 as u64`.
abbrev pub sign_extend : ℕ → ℕ
sign_extend x = if ltb x (2 ^ 31) then x else x + (2 ^ 64 - 2 ^ 32)

-- The order of a signed w-bit type.
abbrev pub bias : ℕ → ℕ → ℕ
bias w x = (x + 2 ^ (w - 1)) % 2 ^ w

abbrev pub slt : ℕ → ℕ → ℕ → Bool
slt w x y = ltb (bias w x) (bias w y)

abbrev pub sle : ℕ → ℕ → ℕ → Bool
sle w x y = leb (bias w x) (bias w y)
