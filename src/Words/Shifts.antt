-- ===== src/Words/Shifts.antt =====
-- Shifts by a variable number of places: what stays of a word that holds a field at its top.
use timbre_tsf.Prelude.{ℕ, bit_or, ◌+◌, ◌-◌, ◌*◌, ◌/◌, ◌%◌, ◌^◌, ◌<◌, ◌≤◌, ◌≡◌, sym, ap, ◌∙◌, arith}
use timbre_tsf.Words.Bits.{two_pow_pos, two_pow_add, bit_or_insert}
use native.Mathlib.Nat.{
  mul-div-mul_right, mod-eq_of_lt, mod-lt, div-add-mod', mul-add-mod_self_right, div-lt_iff_lt-mul,
  pow-le-pow_right,
}

-- 2 ^ c where c is a sum.
pub two_pow_sum : (a b c : ℕ) → c ≡ a + b → 2 ^ c ≡ 2 ^ a * 2 ^ b
two_pow_sum a b c e = ap (λ (k : ℕ). 2 ^ k) e ∙ two_pow_add a b

pub two_pow_mono : (a b : ℕ) → a ≤ b → 2 ^ a ≤ 2 ^ b
two_pow_mono a b h = pow-le-pow_right (omega arith) h

times_lt : (p x y : ℕ) → p < y → 0 < x → p * x < y * x
times_lt p x y h pos = grind arith

-- A field of `r` bits moved up by `x` places.
pub shifted-lt : (p r x : ℕ) → p < 2 ^ r → p * 2 ^ x < 2 ^ (r + x)
shifted-lt p r x h = rw (two_pow_add r x) (times_lt p (2 ^ x) (2 ^ r) h (two_pow_pos x))

pub shl_fits : (p r x w : ℕ) → r + x ≤ w → p < 2 ^ r → (p * 2 ^ x) % 2 ^ w ≡ p * 2 ^ x
shl_fits p r x w room h =
    mod-eq_of_lt (omega (arith, shifted-lt p r x h, two_pow_mono (r + x) w room))

pub high_part : (p x r c : ℕ) → c ≡ r + x → p * 2 ^ x / 2 ^ c ≡ p / 2 ^ r
high_part p x r c e = rw (two_pow_sum r x c e) (mul-div-mul_right p (2 ^ r) (two_pow_pos x))

mod_times : (p y x : ℕ) → 0 < y → 0 < x → (p * x) % (y * x) ≡ (p % y) * x
mod_times p y x hy hx =
    let parts : (p / y) * (y * x) + (p % y) * x ≡ p * x =
      split (p / y) (p % y) (div-add-mod' p y) in
    ap (λ (n : ℕ). n % (y * x)) (sym parts)
    ∙ mul-add-mod_self_right (p / y) (y * x) ((p % y) * x)
    ∙ mod-eq_of_lt (times_lt (p % y) x y (mod-lt p hy) hx)
  where
    regroup : (q r : ℕ) → q * (y * x) + r * x ≡ (q * y + r) * x
    regroup q r = grind arith

    split : (q r : ℕ) → q * y + r ≡ p → q * (y * x) + r * x ≡ p * x
    split q r e = regroup q r ∙ ap (λ (n : ℕ). n * x) e

-- Shifting out the upper bits of a field of more than `r` bits leaves the low `r`.
pub low_part :
    (p x k r w : ℕ) → w ≡ r + (x + k) → (p * 2 ^ x * 2 ^ k) % 2 ^ w ≡ (p % 2 ^ r) * 2 ^ (x + k)
low_part p x k r w e =
    let assoc : p * 2 ^ x * 2 ^ k ≡ p * 2 ^ (x + k) = rw (two_pow_add x k) (grind arith) in
    rw (assoc, two_pow_sum r (x + k) w e)
      (mod_times p (2 ^ r) (2 ^ (x + k)) (two_pow_pos r) (two_pow_pos (x + k)))

-- The upper part of a number of `a + b` bits has `a`.
pub shr-lt : (p a b c : ℕ) → c ≡ a + b → p < 2 ^ c → p / 2 ^ b < 2 ^ a
shr-lt p a b c e h = (div-lt_iff_lt-mul (two_pow_pos b)).1 (rw (two_pow_sum a b c e) at h)

pub mod_two_pow-lt : (p r : ℕ) → p % 2 ^ r < 2 ^ r
mod_two_pow-lt p r = mod-lt p (two_pow_pos r)

pub joined-lt : (p v a b c : ℕ) → c ≡ a + b → p < 2 ^ a → v < 2 ^ b → p * 2 ^ b + v < 2 ^ c
joined-lt p v a b c e hp hv = rw (two_pow_sum a b c e) (room p (2 ^ a) (2 ^ b) hp hv)
  where
    room : (p x y : ℕ) → p < x → v < y → p * y + v < x * y
    room p x y h k = grind arith

-- A value of `n` bits set right behind `b` bits that stand at the top of a word.
pub bit_or_behind :
    (v n b p : ℕ)
    → v < 2 ^ n
    → b + n ≤ 64
    → bit_or (p * 2 ^ (64 - b)) (v * 2 ^ (64 - (b + n))) ≡ (p * 2 ^ n + v) * 2 ^ (64 - (b + n))
bit_or_behind v n b p small fits =
    let s = 64 - (b + n) in
    let top : p * 2 ^ (64 - b) ≡ p * 2 ^ n * 2 ^ s + 0 =
      rw (two_pow_sum n s (64 - b) (omega arith)) (grind arith) in
    let none_left : (p * 2 ^ n + v) * 2 ^ s + 0 ≡ (p * 2 ^ n + v) * 2 ^ s = omega arith in
    rw top (bit_or_insert s n p v 0 (two_pow_pos s) small ∙ none_left)
