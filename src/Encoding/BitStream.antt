-- ===== src/Encoding/BitStream.antt =====
-- The bit sequence behind a byte sequence, most significant bit first. It is what the bit writer
-- and the bit reader of gorilla.rs and chimp128.rs stand for.
pub mod Writer
pub mod Reader
mod Tests
use timbre_tsf.Prelude.{
  ℕ, zero, suc, ◌+◌, ◌-◌, ◌*◌, ◌/◌, ◌%◌, ◌^◌, ◌<◌, ◌≡◌, refl, sym, ap, ap₂, ◌∙◌, arith, Bool, true,
  false, List, [], ◌∷◌, ◌++◌, length, take, drop, All, ◌==◌, if◌then◌else◌, append_assoc,
  length-append, drop-length_append,
}
use timbre_tsf.Words.{IsByte}
use timbre_tsf.Words.Bits.{two_pow_pos, two_pow_add}
use timbre_tsf.Words.Shifts.{two_pow_sum, shr-lt, mod_two_pow-lt, joined-lt}
use timbre_tsf.Bytes.BigEndian.{to_be_bytes, from_be_bytes}
use native.Mathlib.Nat.{
  pow-suc, div-add-mod', div-div-eq-div-mul, add-mul-div_right, mul-add-div_right,
}

-- The low `n` bits of a number.
unfoldable pub bits_of : ℕ → ℕ → List Bool
bits_of zero v = []
bits_of (suc n) v = (v / 2 ^ n % 2 == 1) ∷ bits_of n v

unfoldable pub stream : List ℕ → List Bool
stream [] = []
stream (b ∷ bytes) = bits_of 8 b ++ stream bytes

-- The number that the first `n` bits make.
unfoldable pub from_bits : ℕ → List Bool → ℕ
from_bits zero l = 0
from_bits (suc n) [] = 0
from_bits (suc n) (true ∷ l) = 2 ^ n + from_bits n l
from_bits (suc n) (false ∷ l) = from_bits n l

pub length-bits_of : (n v : ℕ) → length (bits_of n v) ≡ n
unfolding bits_of
length-bits_of zero v = refl
length-bits_of (suc n) v = ap suc (length-bits_of n v)

pub stream-append : (xs ys : List ℕ) → stream (xs ++ ys) ≡ stream xs ++ stream ys
unfolding stream
stream-append [] ys = refl
stream-append (x ∷ xs) ys = rw (stream-append xs ys, append_assoc)

pub length-stream : (xs : List ℕ) → length (stream xs) ≡ 8 * length xs
unfolding stream
length-stream [] = refl
length-stream (x ∷ xs) =
    omega (arith, length-append (bits_of 8 x) (stream xs), length-bits_of 8 x, length-stream xs)

-- The bits above the low `n` do not count.
bits_of-high : (n q v : ℕ) → bits_of n (q * 2 ^ n + v) ≡ bits_of n v
unfolding bits_of
bits_of-high zero q v = refl
bits_of-high (suc n) q v =
    let double : q * 2 ^ suc n ≡ (q * 2) * 2 ^ n = rw (pow-suc 2 n) (grind arith) in
    let top : ((q * 2) * 2 ^ n + v) / 2 ^ n ≡ q * 2 + v / 2 ^ n =
      mul-add-div_right (two_pow_pos n) (q * 2) v in
    let bit : (q * 2 + v / 2 ^ n) % 2 ≡ v / 2 ^ n % 2 = omega arith in
    rw (double, top, bit, bits_of-high n (q * 2) v)

-- A number of two fields is the upper field's bits and then the lower one's.
pub bits_of-add :
    (a b p v : ℕ) → v < 2 ^ b → bits_of (a + b) (p * 2 ^ b + v) ≡ bits_of a p ++ bits_of b v
unfolding bits_of
bits_of-add zero b p v h = let e : 0 + b ≡ b = omega arith in rw e (bits_of-high b p v)
bits_of-add (suc a) b p v h =
    let e : suc a + b ≡ suc (a + b) = omega arith in
    let top : (p * 2 ^ b + v) / 2 ^ (a + b) ≡ p / 2 ^ a = upper in
    rw (e, bits_of, top, bits_of-add a b p v h)
  where
    low_zero : v / 2 ^ b ≡ 0
    low_zero = native.Mathlib.Nat.div-eq_of_lt h

    upper : (p * 2 ^ b + v) / 2 ^ (a + b) ≡ p / 2 ^ a
    upper =
        let c : 2 ^ (a + b) ≡ 2 ^ b * 2 ^ a = two_pow_sum b a (a + b) (omega arith) in
        rw (c, ← div-div-eq-div-mul, mul-add-div_right (two_pow_pos b) p v, low_zero)
          (let z : p + 0 ≡ p = omega arith in rw z)

-- The same, for the two fields of one number.
pub bits_of-split :
    (a b c p : ℕ) → c ≡ a + b → bits_of c p ≡ bits_of a (p / 2 ^ b) ++ bits_of b (p % 2 ^ b)
bits_of-split a b c p e =
    ap₂ bits_of e (sym (div-add-mod' p (2 ^ b)))
    ∙ bits_of-add a b (p / 2 ^ b) (p % 2 ^ b) (mod_two_pow-lt p b)

pub bits_of-mod : (n v : ℕ) → bits_of n (v % 2 ^ n) ≡ bits_of n v
bits_of-mod n v =
    sym (bits_of-high n (v / 2 ^ n) (v % 2 ^ n)) ∙ ap (bits_of n) (div-add-mod' v (2 ^ n))

from_bits-digit :
    (n q : ℕ) (l : List Bool)
    → q < 2
    → from_bits (suc n) ((q % 2 == 1) ∷ l) ≡ q * 2 ^ n + from_bits n l
unfolding from_bits
from_bits-digit n zero l h = omega arith
from_bits-digit n (suc zero) l h = omega arith
from_bits-digit n (suc (suc q)) l h = absurd (omega arith)

-- The bits of a number make it again, whatever follows them.
pub from_bits-bits_of :
    (n v : ℕ) (rest : List Bool) → v < 2 ^ n → from_bits n (bits_of n v ++ rest) ≡ v
unfolding bits_of from_bits
from_bits-bits_of zero v rest h = omega arith
from_bits-bits_of (suc n) v rest h =
    let low : bits_of n v ≡ bits_of n (v % 2 ^ n) = sym (bits_of-mod n v) in
    from_bits-digit n (v / 2 ^ n) (bits_of n v ++ rest) (shr-lt v 1 n (suc n) (omega arith) h)
    ∙ rw (low, from_bits-bits_of n (v % 2 ^ n) rest (mod_two_pow-lt v n)) (div-add-mod' v (2 ^ n))

-- Two numbers of `n` bits that begin the same sequence are one.
pub bits_of-first :
    (n v v' : ℕ) (rest rest' : List Bool)
    → v < 2 ^ n
    → v' < 2 ^ n
    → bits_of n v ++ rest ≡ bits_of n v' ++ rest'
    → (v ≡ v') × (rest ≡ rest')
bits_of-first n v v' rest rest' h h' same = (
  sym (from_bits-bits_of n v rest h) ∙ ap (from_bits n) same ∙ from_bits-bits_of n v' rest' h',
  sym (after v rest) ∙ ap (drop n) same ∙ after v' rest',
)
  where
    after : (u : ℕ) (l : List Bool) → drop n (bits_of n u ++ l) ≡ l
    after u l =
        ap (λ (k : ℕ). drop k (bits_of n u ++ l)) (sym (length-bits_of n u))
        ∙ drop-length_append (bits_of n u) l

pub stream-to_be_bytes : (w v : ℕ) → stream (to_be_bytes w v) ≡ bits_of (8 * w) v
unfolding stream to_be_bytes bits_of
stream-to_be_bytes zero v = refl
stream-to_be_bytes (suc w) v =
    rw (stream-to_be_bytes w v, ← bits_of-mod (8 * w) v)
      (ap (λ (l : List Bool). l ++ bits_of (8 * w) (v % 2 ^ (8 * w)))
          (bits_of-mod 8 (v / 2 ^ (8 * w)))
        ∙ sym (bits_of-split 8 (8 * w) (8 * suc w) v (omega arith)))

pub from_be_bytes-lt :
    (bytes : List ℕ) → All IsByte bytes → from_be_bytes bytes < 2 ^ (8 * length bytes)
unfolding from_be_bytes
from_be_bytes-lt [] h = omega arith
from_be_bytes-lt (b ∷ bytes) (hb, h) =
    joined-lt b (from_be_bytes bytes) 8 (8 * length bytes) (8 * suc (length bytes)) (omega arith) hb
      (from_be_bytes-lt bytes h)

pub stream-from_be_bytes :
    (bytes : List ℕ)
    → All IsByte bytes
    → stream bytes ≡ bits_of (8 * length bytes) (from_be_bytes bytes)
unfolding stream from_be_bytes bits_of
stream-from_be_bytes [] h = refl
stream-from_be_bytes (b ∷ bytes) (hb, h) =
    let e : 8 * suc (length bytes) ≡ 8 + 8 * length bytes = omega arith in
    rw (stream-from_be_bytes bytes h, e)
      (sym (bits_of-add 8 (8 * length bytes) b (from_be_bytes bytes) (from_be_bytes-lt bytes h)))
