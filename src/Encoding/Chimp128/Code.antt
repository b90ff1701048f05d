-- ===== src/Encoding/Chimp128/Code.antt =====
-- The bit sequence that chimp128.rs means for a sequence of values. The context and the condition of
-- room are those of the Gorilla encoding.
use timbre_tsf.Prelude.{
  ℕ, ◌+◌, ◌-◌, Bool, true, false, ◌&&◌, List, [], ◌∷◌, ◌++◌, leb, ◌==◌, if◌then◌else◌,
}
use timbre_tsf.Words.Zeros.{leading_zeros, trailing_zeros}
use timbre_tsf.Encoding.BitStream.{bits_of}
use timbre_tsf.Encoding.Gorilla.Code.{Context, difference, same_block, next, block_bits}

-- Whether case 3 applies, where case 2 does not.
abbrev pub close_block : ℕ → Context → ℕ → Bool
close_block t c x =
    (trailing_zeros t x == c.trailing)
    && (leb (c.leading - 1) (leading_zeros t x) && leb (leading_zeros t x) (c.leading + 1))

module _ (t bits : ℕ) where
  -- `l` and `k` are the zeros of the difference.
  unfoldable pub close_bits : ℕ → ℕ → ℕ → List Bool
  close_bits l k x = true ∷ true ∷ false ∷ (bits_of 2 0 ++ block_bits bits l k x)

  unfoldable pub new_bits : ℕ → ℕ → ℕ → List Bool
  new_bits l k x =
      true ∷ true ∷ true ∷ (bits_of 6 l ++ (bits_of 6 (bits - l - k) ++ block_bits bits l k x))

  unfoldable pub changed_bits : Context → ℕ → List Bool
  changed_bits c x =
      let l = leading_zeros t x in
      let k = trailing_zeros t x in
      if same_block t c x
      then true ∷ false ∷ block_bits bits c.leading c.trailing x
      else if close_block t c x
      then close_bits l k x
      else new_bits l k x

  unfoldable pub value_code : Context → ℕ → List Bool
  value_code c v = let x = difference t c v in if x == 0 then false ∷ [] else changed_bits c x

  -- The context moves on as in the Gorilla encoding: case 3 keeps the trailing zeros, which are the
  -- same there.
  unfoldable pub code : Context → List ℕ → List Bool
  code c [] = []
  code c (v ∷ vs) = value_code c v ++ code (next t c v) vs
