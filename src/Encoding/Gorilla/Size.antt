-- ===== src/Encoding/Gorilla/Size.antt =====
-- How many bytes gorilla.rs writes: `with_capacity` and the batch methods estimate nine a value.
use timbre_tsf.Prelude.{
  ℕ, ◌+◌, ◌-◌, ◌*◌, ◌/◌, ◌^◌, ◌<◌, ◌≤◌, ◌≡◌, refl, ap, arith, false, List, [], ◌∷◌, ◌++◌, ◌==◌, inl,
  inr, Bool-cases, length, length-append,
}
use timbre_tsf.Words.Zeros.{leading_zeros, trailing_zeros, leading_zeros-le}
use timbre_tsf.Encoding.BitStream.{bits_of, stream, length-bits_of, length-stream}
use timbre_tsf.Encoding.Gorilla.Code.{
  Context, same_block, value_code, changed_bits, new_bits, block_bits, next, code, IsNarrow, Narrow,
  AllNarrow, difference,
}
use timbre_tsf.Encoding.Gorilla.Written.{Layout, BlockFits, next-previous, next-BlockFits}
use timbre_tsf.Encoding.Gorilla.Sequence.{start, whole}

module _ (t bits width : ℕ) (y : Layout t bits width) where
  block_bits-length : (l k x : ℕ) → bits ≤ l + k + 57 → length (block_bits bits l k x) ≤ 57
  unfolding block_bits
  block_bits-length l k x room = omega (arith, length-bits_of (bits - l - k) (x / 2 ^ k))

  new_bits-length : (l k x : ℕ) → bits ≤ l + k + 57 → length (new_bits t bits width l k x) ≤ 71
  unfolding new_bits
  new_bits-length l k x room =
      let counted = bits_of width (bits - l - k - 1) in
      omega (
        arith,
        block_bits-length l k x room,
        length-bits_of width l,
        length-bits_of width (bits - l - k - 1),
        length-append (bits_of width l) (counted ++ block_bits bits l k x),
        length-append counted (block_bits bits l k x),
        y.width_fits,
      )

  reused-length :
      (c : Context) (x : ℕ)
      → c.leading ≤ leading_zeros t x
      → BlockFits bits c
      → length (block_bits bits c.leading c.trailing x) ≤ 57
  reused-length c x lead (inl fresh) =
      absurd (omega (arith, leading_zeros-le t x, y.value_fits, y.word_fits))
  reused-length c x lead (inr known) = block_bits-length c.leading c.trailing x known.1

  value_code-length :
      (c : Context) (v : ℕ)
      → IsNarrow t bits (difference t c v)
      → BlockFits bits c
      → length (value_code t bits width c v) ≤ 71
  unfolding value_code changed_bits
  value_code-length c v narrow fits =
      let x = difference t c v in
      elim (Bool-cases (x == 0)) [
        | inl same ↦ rw same (omega arith)
        | inr differs ↦ elim (Bool-cases (same_block t c x)) [
          | inl within ↦ rw (differs, within) (omega (arith, reused-length c x (ground arith) fits))
          | inr outside ↦
              rw (differs, outside)
                (new_bits-length (leading_zeros t x) (trailing_zeros t x) x (room x differs narrow))
        ]
      ]
    where
      room :
          (x : ℕ)
          → (x == 0) ≡ false
          → IsNarrow t bits x
          → bits ≤ leading_zeros t x + trailing_zeros t x + 57
      room x differs (inl same) = absurd (ground arith)
      room x differs (inr some_room) = some_room

  code-length :
      (vs : List ℕ) (c : Context)
      → Narrow t bits c.previous vs
      → BlockFits bits c
      → length (code t bits width c vs) ≤ 71 * length vs
  unfolding code Narrow
  code-length [] c narrow fits = omega arith
  code-length (v ∷ vs) c (narrow, later) fits =
      let rest =
        code-length vs (next t c v) (rw (next-previous t bits width y c v) later)
          (next-BlockFits t bits width y c v narrow fits) in
      omega (
        arith,
        rest,
        value_code-length c v narrow fits,
        length-append (value_code t bits width c v) (code t bits width (next t c v) vs),
      )

  whole-length :
      (vs : List ℕ) → AllNarrow t bits vs → length (whole t bits width y vs) ≤ 71 * length vs
  unfolding whole
  whole-length [] narrow = omega arith
  whole-length (v ∷ vs) narrow = omega (
    arith,
    code-length vs (start v) narrow (inl refl),
    length-bits_of bits v,
    y.word_fits,
    length-append (bits_of bits v) (code t bits width (start v) vs),
  )

  -- The bytes of a sequence are at most nine for each value.
  pub bytes_bounded :
      (vs bytes : List ℕ) (pad : ℕ)
      → AllNarrow t bits vs
      → pad < 8
      → stream bytes ≡ whole t bits width y vs ++ bits_of pad 0
      → length bytes ≤ 9 * length vs
  bytes_bounded vs bytes pad narrow small e = omega (
    arith,
    whole-length vs narrow,
    ap length e,
    length-stream bytes,
    length-append (whole t bits width y vs) (bits_of pad 0),
    length-bits_of pad 0,
  )
