-- ===== src/Encoding/Gorilla/Code.antt =====
-- The bit sequence that gorilla.rs means for a sequence of values, and when a value is safe to write.
use timbre_tsf.Prelude.{
  ℕ, ◌+◌, ◌-◌, ◌/◌, ◌%◌, ◌^◌, ◌≤◌, ◌≡◌, Bool, true, false, ◌&&◌, List, [], ◌∷◌, ◌++◌, bit_xor, leb,
  ◌==◌, if◌then◌else◌, ◌⊎◌,
}
use timbre_tsf.Words.Zeros.{leading_zeros, trailing_zeros}
use timbre_tsf.Encoding.BitStream.{bits_of}

-- What both sides remember: the value before, and the zeros of its block.
pub record Context : Type 0 where
  pub previous : ℕ
  pub leading : ℕ
  pub trailing : ℕ

-- The significant bits between `l` leading and `k` trailing zeros of a number of `bits` bits.
unfoldable pub block_bits : ℕ → ℕ → ℕ → ℕ → List Bool
block_bits bits l k x = bits_of (bits - l - k) (x / 2 ^ k)

-- Values of `t` bits.
module _ (t : ℕ) where
  abbrev pub difference : Context → ℕ → ℕ
  difference c v = bit_xor c.previous v % 2 ^ t

  -- Whether the significant bits lie in the block before.
  abbrev pub same_block : Context → ℕ → Bool
  same_block c x = leb c.leading (leading_zeros t x) && leb c.trailing (trailing_zeros t x)

  unfoldable pub next : Context → ℕ → Context
  next c v =
      let x = difference c v in
      if x == 0
      then record c { previous = v }
      else if same_block c x
      then record c { previous = v }
      else record { previous = v; leading = leading_zeros t x; trailing = trailing_zeros t x }

  -- Room for a block in the 64-bit word of the writer, whatever waits there.
  abbrev pub IsNarrow : ℕ → ℕ → Type 0
  IsNarrow bits x = (x ≡ 0) ⊎ (bits ≤ leading_zeros t x + trailing_zeros t x + 57)

  -- Each value differs from the one before it in a block that has room.
  unfoldable pub Narrow : ℕ → ℕ → List ℕ → Type 0
  Narrow bits previous [] = Unit {0}
  Narrow bits previous (v ∷ vs) = IsNarrow bits (bit_xor previous v % 2 ^ t) × Narrow bits v vs

  abbrev pub AllNarrow : ℕ → List ℕ → Type 0
  AllNarrow bits [] = Unit {0}
  AllNarrow bits (v ∷ vs) = Narrow bits v vs

-- In an encoder that writes numbers of `bits` bits and counts of `width`.
module _ (t bits width : ℕ) where
  unfoldable pub new_bits : ℕ → ℕ → ℕ → List Bool
  unfolding block_bits
  new_bits l k x =
      true ∷ true ∷ (bits_of width l ++ (bits_of width (bits - l - k - 1) ++ block_bits bits l k x))

  unfoldable pub changed_bits : Context → ℕ → List Bool
  unfolding block_bits new_bits
  changed_bits c x =
      if same_block t c x
      then true ∷ false ∷ block_bits bits c.leading c.trailing x
      else new_bits (leading_zeros t x) (trailing_zeros t x) x

  unfoldable pub value_code : Context → ℕ → List Bool
  unfolding changed_bits
  value_code c v = let x = difference t c v in if x == 0 then false ∷ [] else changed_bits c x

  unfoldable pub code : Context → List ℕ → List Bool
  unfolding value_code next
  code c [] = []
  code c (v ∷ vs) = value_code c v ++ code (next t c v) vs
