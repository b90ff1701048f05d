-- ===== src/Words/Bits.antt =====
-- `|`, `&` and `^` at variables: of disjoint fields, with a low mask, and with all ones.
mod Step
use Step.{bit_or_step, bit_and_step}
pub use Step.{bit_xor_step}
use timbre_tsf.Prelude.{
  ℕ, zero, suc, ◌+◌, ◌-◌, ◌*◌, ◌/◌, ◌%◌, ◌^◌, ◌<◌, ◌≤◌, bit_and, bit_or, bit_xor, ◌≡◌, refl, ap,
  arith,
}
use timbre_tsf.Prelude.Order.{lt_wf}
use mathlib.Core.WellFounded
use native.Mathlib.Nat.{pow-suc, one-le-pow}

pub two_pow_pos : (k : ℕ) → 0 < 2 ^ k
two_pow_pos k = one-le-pow k 2 (omega arith)

-- 2 ^ k is one factor of each power above.
pub two_pow_add : (j k : ℕ) → 2 ^ (j + k) ≡ 2 ^ j * 2 ^ k
two_pow_add j zero = let e : j + 0 ≡ j = omega arith in rw e (omega arith)
two_pow_add j (suc k) =
    let e : j + suc k ≡ suc (j + k) = omega arith in
    rw e
      (omega (arith, pow-suc 2 (j + k), two_pow_add j k, ap (λ (t : ℕ). 2 ^ j * t) (pow-suc 2 k)))

power_double : (h k : ℕ) → h * 2 ^ suc k ≡ h * 2 ^ k + h * 2 ^ k
power_double h k = omega (arith, ap (◌*◌ h) (pow-suc 2 k))

-- What holds at zero, and at a number where it holds at the half, holds.
by_halves : (P : ℕ → Type 0) → P 0 → ((n : ℕ) → P (suc n / 2) → P (suc n)) → (a : ℕ) → P a
by_halves P at_zero double a = WellFounded.induction lt_wf a go
  where
    go : (n : ℕ) → ((m : ℕ) → m < n → P m) → P n
    go zero below = at_zero
    go (suc n) below = double n (below (suc n / 2) (omega arith))

pub bit_or-zero : (a : ℕ) → bit_or a 0 ≡ a
bit_or-zero =
    by_halves (λ a. bit_or a 0 ≡ a) refl λ n half. omega (arith, bit_or_step (suc n) 0, half)

pub zero-bit_or : (a : ℕ) → bit_or 0 a ≡ a
zero-bit_or =
    by_halves (λ a. bit_or 0 a ≡ a) refl λ n half. omega (arith, bit_or_step 0 (suc n), half)

bit_and-zero : (a : ℕ) → bit_and a 0 ≡ 0
bit_and-zero =
    by_halves (λ a. bit_and a 0 ≡ 0) refl λ n half. omega (arith, bit_and_step (suc n) 0, half)

pub bit_xor-zero : (a : ℕ) → bit_xor a 0 ≡ a
bit_xor-zero =
    by_halves (λ a. bit_xor a 0 ≡ a) refl λ n half. omega (arith, bit_xor_step (suc n) 0, half)

-- `(q << k) | r` and `r | (q << k)` are sums when `r` fits `k` bits.
pub bit_or_fields : (k high low : ℕ) → low < 2 ^ k → bit_or (high * 2 ^ k) low ≡ high * 2 ^ k + low
bit_or_fields zero high low room = ground (arith, bit_or-zero high)
bit_or_fields (suc k) high low room =
    let rest = bit_or_fields k high (low / 2) (omega (arith, pow-suc 2 k)) in
    ground (arith, rest, power_double high k, bit_or_step (high * 2 ^ suc k) low)

pub bit_or_fields' : (k high low : ℕ) → low < 2 ^ k → bit_or low (high * 2 ^ k) ≡ high * 2 ^ k + low
bit_or_fields' zero high low room = ground (arith, zero-bit_or high)
bit_or_fields' (suc k) high low room =
    let rest = bit_or_fields' k high (low / 2) (omega (arith, pow-suc 2 k)) in
    ground (arith, rest, power_double high k, bit_or_step low (high * 2 ^ suc k))

-- A value of `b` bits written at bit `s` into a word whose bits there are clear.
pub bit_or_insert :
    (s b h v r : ℕ)
    → r < 2 ^ s
    → v < 2 ^ b
    → bit_or (h * 2 ^ b * 2 ^ s + r) (v * 2 ^ s) ≡ (h * 2 ^ b + v) * 2 ^ s + r
bit_or_insert zero b h v r hr hv = ground (arith, bit_or_fields b h v)
bit_or_insert (suc s) b h v r hr hv = ground (
  arith,
  bit_or_step (h * 2 ^ b * 2 ^ suc s + r) (v * 2 ^ suc s),
  power_double (h * 2 ^ b) s,
  power_double v s,
  power_double (h * 2 ^ b + v) s,
  bit_or_insert s b h v (r / 2) (omega (arith, pow-suc 2 s)) hv,
)

bit_and_ones : (k high low : ℕ) → low < 2 ^ k → bit_and (high * 2 ^ k + low) (2 ^ k - 1) ≡ low
bit_and_ones zero high low room = rw bit_and-zero (omega arith)
bit_and_ones (suc k) high low room =
    let rest = bit_and_ones k high (low / 2) (omega (arith, pow-suc 2 k)) in
    let digit = bit_and_step (high * 2 ^ suc k + low) (2 ^ suc k - 1) in
    ground (arith, rest, digit, power_double high k, two_pow_pos k, pow-suc 2 k)

-- A mask of `k` low bits is the remainder by `2 ^ k`.
pub bit_and_mask : (k word : ℕ) → bit_and word (2 ^ k - 1) ≡ word % 2 ^ k
bit_and_mask k word =
    let split = bit_and_ones k (word / 2 ^ k) (word % 2 ^ k) in ground (arith, split, two_pow_pos k)

-- `x ^ -1` at `k` bits is the complement.
pub bit_xor_ones : (k a : ℕ) → a < 2 ^ k → bit_xor a (2 ^ k - 1) ≡ 2 ^ k - 1 - a
bit_xor_ones zero a h = rw bit_xor-zero (omega arith)
bit_xor_ones (suc k) a h = ground (
  arith,
  bit_xor_step a (2 ^ suc k - 1),
  pow-suc 2 k,
  two_pow_pos k,
  bit_xor_ones k (a / 2) (omega (arith, pow-suc 2 k)),
)
