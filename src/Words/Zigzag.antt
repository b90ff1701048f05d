-- ===== src/Words/Zigzag.antt =====
-- The zigzag map on bit patterns, as zigzag.rs, simple8b.rs and dictionary.rs write it:
-- `(n << 1) ^ (n >> (w - 1))` and back `(z >> 1) ^ -(z & 1)`.
use timbre_tsf.Prelude.{
  ℕ, ◌+◌, ◌-◌, ◌*◌, ◌/◌, ◌%◌, ◌^◌, ◌≤◌, ◌<◌, bit_and, bit_xor, ◌≡◌, arith, ◌∙◌, lt→ltb, ◌⊎◌, inl,
  inr,
}
use timbre_tsf.Words.{shl, shr, sar, wrapping_neg}
use timbre_tsf.Words.Bits.{bit_xor_ones, bit_xor-zero, bit_and_mask}

-- `(n << 1) ^ (n >> 31)` of an i32 and `(n << 1) ^ (n >> 63)` of an i64.
unfoldable pub zigzag32 : ℕ → ℕ
zigzag32 n = bit_xor (shl 32 n 1) (sar 32 n 31)

unfoldable pub zigzag64 : ℕ → ℕ
zigzag64 n = bit_xor (shl 64 n 1) (sar 64 n 63)

-- `((z >> 1) as i32) ^ -((z & 1) as i32)` of a u32, and so for 64 bits: the shift is of an
-- unsigned type and brings in zeros.
unfoldable pub unzigzag32 : ℕ → ℕ
unzigzag32 z = bit_xor (shr z 1) (wrapping_neg 32 (bit_and z 1))

unfoldable pub unzigzag64 : ℕ → ℕ
unzigzag64 z = bit_xor (shr z 1) (wrapping_neg 64 (bit_and z 1))

-- `(z >> 1) ^ -(z & 1)` of an i32 and an i64: the shift copies the sign.
unfoldable pub signed_unzigzag32 : ℕ → ℕ
signed_unzigzag32 z = bit_xor (sar 32 z 1) (wrapping_neg 32 (bit_and z 1))

unfoldable pub signed_unzigzag64 : ℕ → ℕ
signed_unzigzag64 z = bit_xor (sar 64 z 1) (wrapping_neg 64 (bit_and z 1))

pub lt_or_le : (a b : ℕ) → (a < b) ⊎ (b ≤ a)
lt_or_le a b = omega arith

-- In plain arithmetic: twice a non-negative number, and from the top down for a negative one.
pub zigzag32-nonneg : (n : ℕ) → n < 2 ^ 31 → zigzag32 n ≡ 2 * n
unfolding zigzag32
zigzag32-nonneg n h = ground (arith, bit_xor-zero (n * 2))

pub zigzag32-neg : (n : ℕ) → 2 ^ 31 ≤ n → n < 2 ^ 32 → zigzag32 n ≡ 2 * (2 ^ 32 - 1 - n) + 1
unfolding zigzag32
zigzag32-neg n h k = ground (arith, bit_xor_ones 32 ((n * 2) % 2 ^ 32))

pub unzigzag32-even : (z : ℕ) → z % 2 ≡ 0 → unzigzag32 z ≡ z / 2
unfolding unzigzag32
unzigzag32-even z h = rw (bit_and_mask 1 z, h, bit_xor-zero)

pub unzigzag32-odd : (z : ℕ) → z % 2 ≡ 1 → z < 2 ^ 32 → unzigzag32 z ≡ 2 ^ 32 - 1 - z / 2
unfolding unzigzag32
unzigzag32-odd z h k = rw (bit_and_mask 1 z, h) (bit_xor_ones 32 (z / 2) (omega arith))

pub signed_unzigzag32-eq : (z : ℕ) → z < 2 ^ 31 → signed_unzigzag32 z ≡ unzigzag32 z
unfolding signed_unzigzag32 unzigzag32
signed_unzigzag32-eq z h = rw (lt→ltb z (2 ^ 31) h)

pub zigzag32-lt : (n : ℕ) → n < 2 ^ 32 → zigzag32 n < 2 ^ 32
zigzag32-lt n h = elim (lt_or_le n (2 ^ 31)) [
  | inl p ↦ omega (arith, zigzag32-nonneg n p)
  | inr p ↦ omega (arith, zigzag32-neg n p h)
]

-- Every 32-bit integer comes back from its zigzag form.
pub unzigzag32-zigzag32 : (n : ℕ) → n < 2 ^ 32 → unzigzag32 (zigzag32 n) ≡ n
unzigzag32-zigzag32 n h = elim (lt_or_le n (2 ^ 31)) [
  | inl p ↦
      let e = zigzag32-nonneg n p in
      unzigzag32-even (zigzag32 n) (omega (arith, e)) ∙ omega (arith, e)
  | inr p ↦
      let e = zigzag32-neg n p h in
      unzigzag32-odd (zigzag32 n) (omega (arith, e)) (omega (arith, e)) ∙ omega (arith, e)
]

-- In plain arithmetic: twice a non-negative number, and from the top down for a negative one.
pub zigzag64-nonneg : (n : ℕ) → n < 2 ^ 63 → zigzag64 n ≡ 2 * n
unfolding zigzag64
zigzag64-nonneg n h = ground (arith, bit_xor-zero (n * 2))

pub zigzag64-neg : (n : ℕ) → 2 ^ 63 ≤ n → n < 2 ^ 64 → zigzag64 n ≡ 2 * (2 ^ 64 - 1 - n) + 1
unfolding zigzag64
zigzag64-neg n h k = ground (arith, bit_xor_ones 64 ((n * 2) % 2 ^ 64))

pub unzigzag64-even : (z : ℕ) → z % 2 ≡ 0 → unzigzag64 z ≡ z / 2
unfolding unzigzag64
unzigzag64-even z h = rw (bit_and_mask 1 z, h, bit_xor-zero)

pub unzigzag64-odd : (z : ℕ) → z % 2 ≡ 1 → z < 2 ^ 64 → unzigzag64 z ≡ 2 ^ 64 - 1 - z / 2
unfolding unzigzag64
unzigzag64-odd z h k = rw (bit_and_mask 1 z, h) (bit_xor_ones 64 (z / 2) (omega arith))

pub signed_unzigzag64-eq : (z : ℕ) → z < 2 ^ 63 → signed_unzigzag64 z ≡ unzigzag64 z
unfolding signed_unzigzag64 unzigzag64
signed_unzigzag64-eq z h = rw (lt→ltb z (2 ^ 63) h)

pub zigzag64-lt : (n : ℕ) → n < 2 ^ 64 → zigzag64 n < 2 ^ 64
zigzag64-lt n h = elim (lt_or_le n (2 ^ 63)) [
  | inl p ↦ omega (arith, zigzag64-nonneg n p)
  | inr p ↦ omega (arith, zigzag64-neg n p h)
]

-- Every 64-bit integer comes back from its zigzag form.
pub unzigzag64-zigzag64 : (n : ℕ) → n < 2 ^ 64 → unzigzag64 (zigzag64 n) ≡ n
unzigzag64-zigzag64 n h = elim (lt_or_le n (2 ^ 63)) [
  | inl p ↦
      let e = zigzag64-nonneg n p in
      unzigzag64-even (zigzag64 n) (omega (arith, e)) ∙ omega (arith, e)
  | inr p ↦
      let e = zigzag64-neg n p h in
      unzigzag64-odd (zigzag64 n) (omega (arith, e)) (omega (arith, e)) ∙ omega (arith, e)
]
