-- ===== src/Words/Zeros.antt =====
-- `leading_zeros` and `trailing_zeros` of a w-bit integer.
use timbre_tsf.Prelude.{
  ℕ, zero, suc, ◌+◌, ◌-◌, ◌*◌, ◌/◌, ◌%◌, ◌^◌, ◌<◌, ◌≤◌, ◌≡◌, sym, ap, ◌∙◌, arith, leb, leb→le, ◌==◌,
  if◌then◌else◌, inl, inr, Bool-cases,
}
use timbre_tsf.Words.Bits.{two_pow_pos}
use timbre_tsf.Words.Shifts.{two_pow_mono, two_pow_sum}
use native.Mathlib.Nat.{pow-suc, div-div-eq-div-mul, mul-div_cancel}

unfoldable pub leading_zeros : ℕ → ℕ → ℕ
leading_zeros zero x = 0
leading_zeros (suc w) x = let rest = leading_zeros w x in if leb (2 ^ w) x then 0 else suc rest

unfoldable pub trailing_zeros : ℕ → ℕ → ℕ
trailing_zeros zero x = 0
trailing_zeros (suc w) x = let rest = trailing_zeros w (x / 2) in if x % 2 == 1 then 0 else suc rest

pub leading_zeros-le : (w x : ℕ) → leading_zeros w x ≤ w
unfolding leading_zeros
leading_zeros-le zero x = omega arith
leading_zeros-le (suc w) x = ground (arith, leading_zeros-le w x)

pub leading_zeros-lt : (w x : ℕ) → x < 2 ^ w → x < 2 ^ (w - leading_zeros w x)
unfolding leading_zeros
leading_zeros-lt zero x h = omega arith
leading_zeros-lt (suc w) x h = elim (Bool-cases (leb (2 ^ w) x)) [
  | inl large ↦ rw large (let e : suc w - 0 ≡ suc w = omega arith in rw e h)
  | inr small ↦ rw small (
      let e : suc w - suc (leading_zeros w x) ≡ w - leading_zeros w x = omega arith in
      rw e (leading_zeros-lt w x (ground arith)))
]

pub trailing_zeros-divides : (w x : ℕ) → x / 2 ^ trailing_zeros w x * 2 ^ trailing_zeros w x ≡ x
unfolding trailing_zeros
trailing_zeros-divides zero x = omega arith
trailing_zeros-divides (suc w) x = elim (Bool-cases (x % 2 == 1)) [
  | inl odd ↦ rw odd (omega arith)
  | inr even ↦ rw even (
      let t = trailing_zeros w (x / 2) in
      rw (pow-suc 2 t) (halves x (2 ^ t) (ground arith) (trailing_zeros-divides w (x / 2))))
]
  where
    times_swap : (q y : ℕ) → q * (2 * y) ≡ q * y * 2
    times_swap q y = grind arith

    halves : (x y : ℕ) → x % 2 ≡ 0 → x / 2 / y * y ≡ x / 2 → x / (y * 2) * (y * 2) ≡ x
    halves x y even e =
        let swap : y * 2 ≡ 2 * y = omega arith in
        let parts : x / 2 / y * (2 * y) ≡ x / 2 / y * y * 2 = times_swap (x / 2 / y) y in
        rw (swap, ← div-div-eq-div-mul, parts, e) (omega arith)

-- So a shift down by at most as many places loses nothing.
pub shr-trailing_zeros : (w x k : ℕ) → k ≤ trailing_zeros w x → x / 2 ^ k * 2 ^ k ≡ x
shr-trailing_zeros w x k h =
    let t = trailing_zeros w x in
    let m = x / 2 ^ t * 2 ^ (t - k) in
    let whole : x ≡ m * 2 ^ k =
      sym (trailing_zeros-divides w x)
      ∙ ap (λ (n : ℕ). x / 2 ^ t * n) (two_pow_sum (t - k) k t (omega arith))
      ∙ times_assoc (x / 2 ^ t) (2 ^ (t - k)) (2 ^ k) in
    ap (λ (n : ℕ). n / 2 ^ k * 2 ^ k) whole
    ∙ ap (λ (n : ℕ). n * 2 ^ k) (mul-div_cancel m (two_pow_pos k))
    ∙ sym whole
  where
    times_assoc : (a b c : ℕ) → a * (b * c) ≡ a * b * c
    times_assoc a b c = grind arith

pub zeros-lt : (w x : ℕ) → 0 < x → x < 2 ^ w → leading_zeros w x + trailing_zeros w x < w
zeros-lt w x pos h =
    let t = trailing_zeros w x in
    let k = w - leading_zeros w x in
    let low : 2 ^ t ≤ x = factor (x / 2 ^ t) (2 ^ t) x (trailing_zeros-divides w x) pos in
    let high = leading_zeros-lt w x h in
    elim (Bool-cases (leb k t)) [
      | inl wide ↦ absurd (omega (arith, two_pow_mono k t (leb→le k t wide)))
      | inr small ↦ ground (arith, leading_zeros-le w x)
    ]
  where
    factor : (q y x : ℕ) → q * y ≡ x → 0 < x → y ≤ x
    factor zero y x e pos = absurd (omega arith)
    factor (suc q) y x e pos = grind arith
