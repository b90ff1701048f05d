-- ===== src/Encoding/BitStream/Reader/Loop.antt =====
-- The loop of `read_bits` ends: each refill that adds something adds at least eight bits.
use timbre_tsf.Prelude.{
  ℕ, zero, suc, ◌+◌, ◌-◌, ◌*◌, ◌/◌, ◌≤◌, ◌<◌, ◌≡◌, refl, arith, Bool, true, false, inl, inr,
  Bool-cases, min, List, length, ltb, ◌==◌, ◌⊎◌,
}
use timbre_tsf.Exec.{TimbreError, Result, ok, err}
use timbre_tsf.Encoding.BitStream.Reader.{
  BitReader, refilled, refill_buffer, refill_until, refill_fuel,
}

-- Why a refill adds nothing: the input is used up, or the word has no room for a byte.
abbrev pub Exhausted : List ℕ → BitReader → Type 0
Exhausted input r = (r.byte_pos ≡ length input) ⊎ (56 < r.bits_available)

-- What a refill can do to a reader that stands inside the input.
data Refill (input : List ℕ) (r : BitReader) (q : Result Bool × BitReader) : Type 0 where
  added :
      (r' : BitReader)
      → q ≡ (ok true, r')
      → r.bits_available + 8 ≤ r'.bits_available
      → r'.bits_available ≤ 64
      → r'.byte_pos ≤ length input
      → Refill input r q
  nothing : q ≡ (ok false, r) → Exhausted input r → Refill input r q

-- How the loop ends: with the bits there, or with too few of them and nothing that can be added.
pub data Ended (short : TimbreError) (input : List ℕ) (num_bits : ℕ)
    (q : Result (Unit {0}) × BitReader) : Type 0 where
  enough :
      (r : BitReader) → q ≡ (ok tt, r) → num_bits ≤ r.bits_available → Ended short input num_bits q
  too_few :
      (r : BitReader)
      → q ≡ (err short, r)
      → r.bits_available < num_bits
      → Exhausted input r
      → Ended short input num_bits q

module _ (short : TimbreError) (behind : Result Bool) where
  refill_cases :
      (input : List ℕ) (r : BitReader)
      → r.bits_available ≤ 64
      → r.byte_pos ≤ length input
      → Refill input r (refill_buffer short behind input r)
  unfolding refill_buffer refilled
  refill_cases input r room inside =
      let before : ltb (length input) r.byte_pos ≡ false = ground arith in
      elim (Bool-cases (length input - r.byte_pos == 0)) [
        | inl at_end ↦ nothing (rw (before, at_end) refl) (inl (ground arith))
        | inr some_left ↦ elim (Bool-cases ((64 - r.bits_available) / 8 == 0)) [
          | inl full ↦ nothing (rw (before, some_left, full) refl) (inr (ground arith))
          | inr some_room ↦
              added
                (refilled input
                  (min (min (length input - r.byte_pos) ((64 - r.bits_available) / 8)) 8) r)
                (rw (before, some_left, some_room) refl) (ground arith) (ground arith)
                (ground arith)
        ]
      ]

  -- With enough fuel for the bits that are missing, more fuel changes nothing, and the loop ends.
  pub refill_until_total :
      (fuel k : ℕ) (input : List ℕ) (n : ℕ) (r : BitReader)
      → r.bits_available ≤ 64
      → r.byte_pos ≤ length input
      → 64 < r.bits_available + 8 * fuel
      → (refill_until short behind (fuel + k) input n r ≡ refill_until short behind fuel input n r)
        × Ended short input n (refill_until short behind fuel input n r)
  unfolding refill_until
  refill_until_total zero k input n r room inside some_fuel = absurd (omega arith)
  refill_until_total (suc fuel) k input n r room inside some_fuel =
      let e : suc fuel + k ≡ suc (fuel + k) = omega arith in
      rw e (
        go (refill_cases input r room inside) (refill_until_total fuel k input n)
          (Bool-cases (ltb r.bits_available n)))
    where
      go :
          Refill input r (refill_buffer short behind input r)
          → ((r' : BitReader)
              → r'.bits_available ≤ 64
              → r'.byte_pos ≤ length input
              → 64 < r'.bits_available + 8 * fuel
              → (refill_until short behind (fuel + k) input n r'
                  ≡ refill_until short behind fuel input n r')
                × Ended short input n (refill_until short behind fuel input n r'))
          → (ltb r.bits_available n ≡ true) ⊎ (ltb r.bits_available n ≡ false)
          → (refill_until short behind (suc (fuel + k)) input n r
              ≡ refill_until short behind (suc fuel) input n r)
            × Ended short input n (refill_until short behind (suc fuel) input n r)
      go c ih (inr there) = rw there (refl, enough r refl (ground arith))
      go (added r' e more room' inside') ih (inl less) =
          rw (less, e) (ih r' room' inside' (omega arith))
      go (nothing e why) ih (inl less) = rw (less, e) (refl, too_few r refl (ground arith) why)

  -- The fuel of `read_bits` is enough for a reader inside the input: more of it changes nothing, and
  -- the loop ends with `num_bits` bits there, or with the error where fewer are there and either the
  -- input is used up or more than 56 bits are fetched, so that no byte has room.
  pub refill_until-refill_fuel :
      (k : ℕ) (input : List ℕ) (n : ℕ) (r : BitReader)
      → r.bits_available ≤ 64
      → r.byte_pos ≤ length input
      → (refill_until short behind (refill_fuel + k) input n r
          ≡ refill_until short behind refill_fuel input n r)
        × Ended short input n (refill_until short behind refill_fuel input n r)
  refill_until-refill_fuel k input n r room inside =
      refill_until_total refill_fuel k input n r room inside (omega arith)
