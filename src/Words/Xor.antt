-- ===== src/Words/Xor.antt =====
-- Exclusive or of words: it undoes itself and stays in the width.
use timbre_tsf.Prelude.{ℕ, zero, suc, ◌+◌, ◌/◌, ◌^◌, ◌<◌, ◌≤◌, ◌≡◌, refl, bit_xor, arith}
use timbre_tsf.Words.Bits.{bit_xor_step}
use native.Mathlib.Nat.{pow-suc}

xor_twice_below : (n p v : ℕ) → p ≤ n → v ≤ n → bit_xor p (bit_xor p v) ≡ v
xor_twice_below zero p v hp hv =
    let zp : p ≡ 0 = omega arith in let zv : v ≡ 0 = omega arith in rw (zp, zv) refl
xor_twice_below (suc n) p v hp hv =
    let outer = bit_xor_step p (bit_xor p v) in
    let inner = bit_xor_step p v in
    let half : bit_xor p v / 2 ≡ bit_xor (p / 2) (v / 2) = omega arith in
    let rest = xor_twice_below n (p / 2) (v / 2) (omega arith) (omega arith) in
    omega (arith, outer, inner, rw (← half) at rest)

pub bit_xor_twice : (p v : ℕ) → bit_xor p (bit_xor p v) ≡ v
bit_xor_twice p v = xor_twice_below (p + v) p v (omega arith) (omega arith)

pub bit_xor-lt : (k p v : ℕ) → p < 2 ^ k → v < 2 ^ k → bit_xor p v < 2 ^ k
bit_xor-lt zero p v hp hv =
    let zp : p ≡ 0 = omega arith in let zv : v ≡ 0 = omega arith in rw (zp, zv) (omega arith)
bit_xor-lt (suc k) p v hp hv = omega (
  arith,
  pow-suc 2 k,
  bit_xor_step p v,
  bit_xor-lt k (p / 2) (v / 2) (omega (arith, pow-suc 2 k)) (omega (arith, pow-suc 2 k)),
)

xor_comm_below : (n p v : ℕ) → p ≤ n → v ≤ n → bit_xor p v ≡ bit_xor v p
xor_comm_below zero p v hp hv =
    let zp : p ≡ 0 = omega arith in let zv : v ≡ 0 = omega arith in rw (zp, zv) refl
xor_comm_below (suc n) p v hp hv = omega (
  arith,
  bit_xor_step p v,
  bit_xor_step v p,
  xor_comm_below n (p / 2) (v / 2) (omega arith) (omega arith),
)

pub bit_xor_comm : (p v : ℕ) → bit_xor p v ≡ bit_xor v p
bit_xor_comm p v = xor_comm_below (p + v) p v (omega arith) (omega arith)
