-- ===== src/Words/Bits/Step.antt =====
-- The native operations mean `bitwise`, a recursion on binary digits with fuel. Here the fuel is
-- dropped: one equation for the lowest digit.
use Prim.Native.Nat.{digits, bitwise, differ, bit_and-bitwise, bit_or-bitwise, bit_xor-bitwise}
use timbre_tsf.Prelude.{
  ℕ, zero, suc, ◌+◌, ◌-◌, ◌*◌, ◌/◌, ◌%◌, ◌≤◌, min, max, bit_and, bit_or, bit_xor, ◌≡◌, refl, arith,
}

-- What the recursion gives at any fuel from the first number on.
module _ (base : ℕ → ℕ) (combine : ℕ → ℕ → ℕ) where
  digits-fuel :
      (x y i j : ℕ) → x ≤ i → x ≤ j → digits base combine i x y ≡ digits base combine j x y
  digits-fuel (suc x) y (suc i) (suc j) small small' =
      rw (digits-fuel (suc x / 2) (y / 2) i j (omega arith) (omega arith))
  digits-fuel zero y zero zero small small' = refl
  digits-fuel zero y zero (suc j) small small' = refl
  digits-fuel zero y (suc i) zero small small' = refl
  digits-fuel zero y (suc i) (suc j) small small' = refl
  digits-fuel (suc x) y zero j small small' = absurd (omega arith)
  digits-fuel (suc x) y (suc i) zero small small' = absurd (omega arith)

  lowest_digit :
      (x y : ℕ)
      → let higher = bitwise base combine (suc x / 2) (y / 2) in
        bitwise base combine (suc x) y ≡ 2 * higher + combine (suc x % 2) (y % 2)
  lowest_digit x y =
      let enough = digits-fuel (suc x / 2) (y / 2) x (suc x / 2) (omega arith) (omega arith) in
      omega (arith, enough)

pub bit_or_step : (x y : ℕ) → bit_or x y ≡ 2 * bit_or (x / 2) (y / 2) + max (x % 2) (y % 2)
bit_or_step (suc x) y = simp bit_or-bitwise (lowest_digit (λ rest. rest) max x y)
bit_or_step zero y = simp bit_or-bitwise (omega arith)

pub bit_and_step : (x y : ℕ) → bit_and x y ≡ 2 * bit_and (x / 2) (y / 2) + min (x % 2) (y % 2)
bit_and_step (suc x) y = simp bit_and-bitwise (lowest_digit (λ rest. 0) min x y)
bit_and_step zero y = simp bit_and-bitwise (omega arith)

differ-eq : (x y : ℕ) → differ x y ≡ (x - y) + (y - x)
differ-eq (suc x) (suc y) = omega (arith, differ-eq x y)
differ-eq zero y = omega arith
differ-eq (suc x) zero = omega arith

pub bit_xor_step :
    (x y : ℕ) → bit_xor x y ≡ 2 * bit_xor (x / 2) (y / 2) + ((x % 2 - y % 2) + (y % 2 - x % 2))
bit_xor_step (suc x) y =
    let low = differ-eq (suc x % 2) (y % 2) in
    simp bit_xor-bitwise (omega (arith, lowest_digit (λ rest. rest) differ x y, low))
bit_xor_step zero y = simp bit_xor-bitwise (omega arith)
