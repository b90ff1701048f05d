-- ===== src/Varint/Read.antt =====
-- The readers give back what the writers push.
use timbre_tsf.Prelude.{
  ℕ, zero, suc, ◌+◌, ◌*◌, ◌/◌, ◌%◌, ◌^◌, ◌<◌, bit_and, ◌≡◌, ap, ◌∙◌, arith, true, false, List, ◌∷◌,
  ◌++◌, length, ltb, leb, ◌==◌, ltb→lt, Bool-cases, inl, inr,
}
use timbre_tsf.Words.Bits.{bit_or_fields', two_pow_add}
use timbre_tsf.Exec.{TimbreError, ok}
use timbre_tsf.Bytes.{At, At-skip}
use timbre_tsf.Varint.{add_group, read_u32_loop, read_u32, read_loop, read_word}
use timbre_tsf.Varint.Groups.{groups, top_bit, low_bits}
use native.Mathlib.Nat.{pow-suc, div-add-mod, mod-eq_of_lt}

-- One round adds the group at its place.
add_group_sum :
    (w result byte shift : ℕ)
    → shift < w
    → result < 2 ^ shift
    → result + byte % 128 * 2 ^ shift < 2 ^ w
    → add_group w result byte shift ≡ result + byte % 128 * 2 ^ shift
add_group_sum w result byte shift hs hr fits =
    rw
      (
        low_bits byte,
        mod-eq_of_lt {n = shift} {m = w} hs,
        mod-eq_of_lt {n = byte % 128 * 2 ^ shift} {m = 2 ^ w} (omega arith),
      )
      (bit_or_fields' shift (byte % 128) result hr ∙ omega arith)

shift_seven : (s : ℕ) → 2 ^ (s + 7) ≡ 128 * 2 ^ s
shift_seven s = omega (arith, two_pow_add s 7)

-- The lowest group of `v` and the rest, both shifted by `s`.
split_group : (v s : ℕ) → v * 2 ^ s ≡ v % 128 * 2 ^ s + v / 128 * 2 ^ (s + 7)
split_group v s = omega (
  arith,
  ap (λ (t : ℕ). t * 2 ^ s) (div-add-mod v 128),
  ap (λ (t : ℕ). v / 128 * t) (shift_seven s),
)

grows : (result v s : ℕ) → result < 2 ^ s → result + v % 128 * 2 ^ s < 2 ^ (s + 7)
grows result v s h = grind (arith, shift_seven s)

-- What both readers do at a last byte and at an inner byte.
module _ (short large : TimbreError) where
  u32_last :
      (v result shift pos : ℕ) (rest : List ℕ)
      → v < 128
      → shift < 32
      → result < 2 ^ shift
      → result + v * 2 ^ shift < 2 ^ 32
      → read_u32_loop short large (v ∷ rest) result shift pos
        ≡ (ok (result + v * 2 ^ shift), pos + 1)
  unfolding read_u32_loop
  u32_last v result shift pos rest hv hs hr fits =
      let small : v % 128 ≡ v = omega arith in
      let last : (bit_and v 0x80 == 0) ≡ true = ground (arith, top_bit v) in
      rw (last, add_group_sum 32 result v shift hs hr (rw small fits), small)

  u32_inner :
      (g result shift pos : ℕ) (rest : List ℕ)
      → g < 128
      → shift + 7 < 32
      → result < 2 ^ shift
      → result + g * 2 ^ shift < 2 ^ 32
      → read_u32_loop short large ((g + 128) ∷ rest) result shift pos
        ≡ read_u32_loop short large rest (result + g * 2 ^ shift) (shift + 7) (pos + 1)
  unfolding read_u32_loop
  u32_inner g result shift pos rest hg hs hr fits =
      let low : (g + 128) % 128 ≡ g = omega arith in
      let more : (bit_and (g + 128) 0x80 == 0) ≡ false = ground (arith, top_bit (g + 128)) in
      let room : leb 32 (shift + 7) ≡ false = ground arith in
      rw (more, room, add_group_sum 32 result (g + 128) shift (omega arith) hr (rw low fits), low)

  u32_groups :
      (k v result shift pos : ℕ) (rest : List ℕ)
      → v < 128 ^ suc k
      → shift + 7 * k < 32
      → result < 2 ^ shift
      → result + v * 2 ^ shift < 2 ^ 32
      → read_u32_loop short large (groups k v ++ rest) result shift pos
        ≡ (ok (result + v * 2 ^ shift), pos + length (groups k v))
  unfolding groups
  u32_groups zero v result shift pos rest hv hs hr fits =
      u32_last v result shift pos rest hv (omega arith) hr fits
  u32_groups (suc k) v result shift pos rest hv hs hr fits =
      let below : result + v % 128 * 2 ^ shift < 2 ^ 32 = omega (arith, split_group v shift) in
      elim (Bool-cases (ltb v 128)) [
        | inl e ↦ rw e (u32_last v result shift pos rest (ltb→lt v 128 e) (omega arith) hr fits)
        | inr e ↦ rw e (
            u32_inner (v % 128) result shift pos _ (omega arith) (omega arith) hr below
            ∙ u32_groups k (v / 128) _ (shift + 7) (pos + 1) rest
                (omega (arith, pow-suc 128 (suc k))) (omega arith) (grows result v shift hr)
                (omega (arith, split_group v shift))
            ∙ ground (arith, split_group v shift))
      ]

  -- Reading a u32 that was written, whatever follows it.
  pub read_u32-groups :
      (v : ℕ) (input : List ℕ) (pos : ℕ) (rest : List ℕ)
      → v < 2 ^ 32
      → At input pos (groups 4 v ++ rest)
      → (read_u32 short large input pos ≡ (ok v, pos + length (groups 4 v)))
        × At input (pos + length (groups 4 v)) rest
  unfolding read_u32
  read_u32-groups v input pos rest h a = (
    rw a.rest (
        u32_groups 4 v 0 0 pos rest (omega arith) (omega arith) (omega arith) (omega arith)
        ∙ ground arith),
    At-skip input pos (groups 4 v) rest a,
  )

module _ (w : ℕ) (short : TimbreError) where
  word_last :
      (v result shift pos : ℕ) (rest : List ℕ)
      → v < 128
      → shift < w
      → result < 2 ^ shift
      → result + v * 2 ^ shift < 2 ^ w
      → read_loop w short (v ∷ rest) result shift pos ≡ (ok (result + v * 2 ^ shift), pos + 1)
  unfolding read_loop
  word_last v result shift pos rest hv hs hr fits =
      let small : v % 128 ≡ v = omega arith in
      let last : (bit_and v 0x80 == 0) ≡ true = ground (arith, top_bit v) in
      rw (last, add_group_sum w result v shift hs hr (rw small fits), small)

  word_inner :
      (g result shift pos : ℕ) (rest : List ℕ)
      → g < 128
      → shift < w
      → result < 2 ^ shift
      → result + g * 2 ^ shift < 2 ^ w
      → read_loop w short ((g + 128) ∷ rest) result shift pos
        ≡ read_loop w short rest (result + g * 2 ^ shift) (shift + 7) (pos + 1)
  unfolding read_loop
  word_inner g result shift pos rest hg hs hr fits =
      let low : (g + 128) % 128 ≡ g = omega arith in
      let more : (bit_and (g + 128) 0x80 == 0) ≡ false = ground (arith, top_bit (g + 128)) in
      rw (more, add_group_sum w result (g + 128) shift hs hr (rw low fits), low)

  word_groups :
      (k v result shift pos : ℕ) (rest : List ℕ)
      → v < 128 ^ suc k
      → shift + 7 * k < w
      → result < 2 ^ shift
      → result + v * 2 ^ shift < 2 ^ w
      → read_loop w short (groups k v ++ rest) result shift pos
        ≡ (ok (result + v * 2 ^ shift), pos + length (groups k v))
  unfolding groups
  word_groups zero v result shift pos rest hv hs hr fits =
      word_last v result shift pos rest hv (omega arith) hr fits
  word_groups (suc k) v result shift pos rest hv hs hr fits =
      let below : result + v % 128 * 2 ^ shift < 2 ^ w = omega (arith, split_group v shift) in
      elim (Bool-cases (ltb v 128)) [
        | inl e ↦ rw e (word_last v result shift pos rest (ltb→lt v 128 e) (omega arith) hr fits)
        | inr e ↦ rw e (
            word_inner (v % 128) result shift pos _ (omega arith) (omega arith) hr below
            ∙ word_groups k (v / 128) _ (shift + 7) (pos + 1) rest
                (omega (arith, pow-suc 128 (suc k))) (omega arith) (grows result v shift hr)
                (omega (arith, split_group v shift))
            ∙ ground (arith, split_group v shift))
      ]

  -- Reading a w-bit number that was written in at most k + 1 groups.
  pub read_word-groups :
      (k v : ℕ) (input : List ℕ) (pos : ℕ) (rest : List ℕ)
      → v < 128 ^ suc k
      → 7 * k < w
      → v < 2 ^ w
      → At input pos (groups k v ++ rest)
      → (read_word w short input pos ≡ (ok v, pos + length (groups k v)))
        × At input (pos + length (groups k v)) rest
  unfolding read_word
  read_word-groups k v input pos rest h fits hw a = (
    rw a.rest
        (word_groups k v 0 0 pos rest h (omega arith) (omega arith) (omega arith) ∙ ground arith),
    At-skip input pos (groups k v) rest a,
  )
