-- ===== src/Encoding/Chimp128/Written.antt =====
-- The encoder of chimp128.rs writes the bits of `Code`.
use timbre_tsf.Prelude.{
  ℕ, ◌+◌, ◌-◌, ◌/◌, ◌^◌, ◌<◌, ◌≤◌, ◌≡◌, sym, ◌∙◌, arith, Bool, true, false, ◌&&◌, List, ◌∷◌, ◌++◌,
  leb, ◌==◌, ◌⊎◌, inl, inr, Bool-cases, append_assoc,
}
use timbre_tsf.Words.{wrapping_sub}
use timbre_tsf.Words.Zeros.{leading_zeros, trailing_zeros, leading_zeros-le, zeros-lt}
use timbre_tsf.Encoding.BitStream.{bits_of}
use timbre_tsf.Encoding.BitStream.Writer.{BitWriter, write_bit}
use timbre_tsf.Encoding.BitStream.Writer.Appends.{Stands, write_bits-Stands, write_bit-Stands}
use timbre_tsf.Encoding.Gorilla.Code.{Context, same_block, block_bits}
use timbre_tsf.Encoding.Gorilla.Written.{Layout, significant_lem, u8_block, block-lt, block_of}
use timbre_tsf.Encoding.Chimp128.Encoder.{
  Chimp128Encoder, write_bits, same_range, close_range, new_range, encode_xor,
}
use timbre_tsf.Encoding.Chimp128.Writing.{write_bits-same}
use timbre_tsf.Encoding.Chimp128.Code.{close_block, close_bits, new_bits, changed_bits}

-- The block before has room, or there is none.
abbrev pub BlockFits : ℕ → Context → Type 0
BlockFits bits c =
    (c.leading ≡ 255) ⊎ ((c.leading + c.trailing < bits) × (bits ≤ c.leading + c.trailing + 57))

-- An encoder that has encoded `n` values, the first among them, and written `l`.
pub record Encodes (bits : ℕ) (e : Chimp128Encoder) (c : Context) (n : ℕ) (l : List Bool)
    : Type 0 where
  pub counted : e.count ≡ n
  pub some_values : 0 < n
  pub previous : e.prev_value ≡ c.previous
  pub leading : e.prev_leading ≡ c.leading
  pub trailing : e.prev_trailing ≡ c.trailing
  pub word : e.bit_width ≡ bits
  pub fits : BlockFits bits c
  pub stands : Stands e.writer l

pub length_lem :
    (bits l k : ℕ)
    → l + k ≤ bits
    → bits ≤ 64
    → wrapping_sub 8 (wrapping_sub 8 bits l) k ≡ bits - l - k
length_lem bits l k h small = omega arith

pub write_bits_appends :
    (v n : ℕ) (w : BitWriter) (l : List Bool)
    → v < 2 ^ n
    → w.bits_in_buffer + n ≤ 64
    → Stands w l
    → Stands (write_bits v n w) (l ++ bits_of n v)
write_bits_appends v n w l small fits s =
    rw (write_bits-same v n w) (write_bits-Stands v n w l small fits s)

module _ (t bits width : ℕ) (y : Layout t bits width) where
  known_block :
      (x : ℕ) (c : Context)
      → c.leading ≤ leading_zeros t x + 1
      → BlockFits bits c
      → (c.leading + c.trailing < bits) × (bits ≤ c.leading + c.trailing + 57)
  known_block x c near (inl fresh) =
      absurd (omega (arith, leading_zeros-le t x, y.value_fits, y.word_fits))
  known_block x c near (inr known) = known

  same_range-Encodes :
      (x n : ℕ) (e : Chimp128Encoder) (c : Context) (l : List Bool)
      → x < 2 ^ t
      → c.leading ≤ leading_zeros t x
      → Encodes bits e c n l
      → Encodes bits
          (same_range x e)
          c
          n
          (l ++ (true ∷ false ∷ block_bits bits c.leading c.trailing x))
  unfolding same_range block_bits
  same_range-Encodes x n e c l small lead h =
      let (room, narrow) = known_block x c (omega arith) h.fits in
      let size = length_lem bits c.leading c.trailing (omega arith) y.word_fits in
      let w1 = write_bit-Stands true e.writer l h.stands in
      let w2 = write_bit-Stands false (write_bit true e.writer) _ w1 in
      let w3 =
        write_bits_appends (x / 2 ^ c.trailing) (bits - c.leading - c.trailing)
          (write_bit false (write_bit true e.writer)) _
          (block-lt t bits c.leading c.trailing x y.value_fits (omega arith) lead small)
          (omega (arith, w2.few)) w2 in
      record {
        counted = h.counted;
        some_values = h.some_values;
        previous = h.previous;
        leading = h.leading;
        trailing = h.trailing;
        word = h.word;
        fits = h.fits;
        stands = rw (h.leading, h.trailing, h.word, size) (rw (append_assoc, append_assoc) at w3);
      }

  -- The last write of cases 3 and 4.
  block-Stands :
      (x : ℕ) (w : BitWriter) (l : List Bool)
      → 0 < x
      → x < 2 ^ t
      → bits ≤ leading_zeros t x + trailing_zeros t x + 57
      → Stands w l
      → (let lz = leading_zeros t x in
          let tz = trailing_zeros t x in
          Stands (write_bits (x / 2 ^ tz) (bits - lz - tz) w) (l ++ block_bits bits lz tz x))
  unfolding block_bits
  block-Stands x w l pos small narrow s =
      let lz = leading_zeros t x in
      let tz = trailing_zeros t x in
      let both = zeros-lt t x pos small in
      write_bits_appends (x / 2 ^ tz) (bits - lz - tz) w l
        (block-lt t bits lz tz x y.value_fits (omega (arith, y.value_fits)) (omega arith) small)
        (omega (arith, s.few)) s

  new_range-Encodes :
      (x n : ℕ) (e : Chimp128Encoder) (c : Context) (l : List Bool)
      → 0 < x
      → x < 2 ^ t
      → bits ≤ leading_zeros t x + trailing_zeros t x + 57
      → Encodes bits e c n l
      → Encodes bits
          (new_range x (leading_zeros t x) (trailing_zeros t x) e)
          (record c { leading = leading_zeros t x; trailing = trailing_zeros t x })
          n
          (l ++ new_bits t bits (leading_zeros t x) (trailing_zeros t x) x)
  unfolding new_range new_bits
  new_range-Encodes x n e c l pos small narrow h =
      let lz = leading_zeros t x in
      let tz = trailing_zeros t x in
      let both = zeros-lt t x pos small in
      let count = significant_lem bits lz tz (omega (arith, y.value_fits)) y.word_fits in
      let w1 = write_bit-Stands true e.writer l h.stands in
      let w2 = write_bit-Stands true (write_bit true e.writer) _ w1 in
      let w3 = write_bit-Stands true (write_bit true (write_bit true e.writer)) _ w2 in
      let marked = write_bit true (write_bit true (write_bit true e.writer)) in
      let w4 =
        write_bits_appends lz 6 marked _ (omega (arith, y.value_fits, y.word_fits))
          (omega (arith, w3.few)) w3 in
      let sized = write_bits lz 6 marked in
      let w5 =
        write_bits_appends (bits - lz - tz) 6 sized _ (omega arith) (omega (arith, w4.few)) w4 in
      let w6 = block-Stands x (write_bits (bits - lz - tz) 6 sized) _ pos small narrow w5 in
      record {
        counted = h.counted;
        some_values = h.some_values;
        previous = h.previous;
        leading = omega (arith, y.value_fits, y.word_fits);
        trailing = omega (arith, y.value_fits, y.word_fits);
        word = h.word;
        fits = inr (omega (arith, y.value_fits), narrow);
        stands =
            rw (h.word, count, u8_block bits lz tz y.word_fits)
              (rw (append_assoc, append_assoc, append_assoc, append_assoc, append_assoc) at w6);
      }

  close_range-Encodes :
      (x n : ℕ) (e : Chimp128Encoder) (c : Context) (l : List Bool)
      → 0 < x
      → x < 2 ^ t
      → bits ≤ leading_zeros t x + trailing_zeros t x + 57
      → leading_zeros t x + 1 ≡ c.leading
      → trailing_zeros t x ≡ c.trailing
      → Encodes bits e c n l
      → Encodes bits
          (close_range x (leading_zeros t x) e)
          (record c { leading = leading_zeros t x; trailing = trailing_zeros t x })
          n
          (l ++ close_bits t bits (leading_zeros t x) (trailing_zeros t x) x)
  unfolding close_range close_bits
  close_range-Encodes x n e c l pos small narrow one_less same h =
      let lz = leading_zeros t x in
      let tz = trailing_zeros t x in
      let both = zeros-lt t x pos small in
      let count = significant_lem bits lz tz (omega (arith, y.value_fits)) y.word_fits in
      let w1 = write_bit-Stands true e.writer l h.stands in
      let w2 = write_bit-Stands true (write_bit true e.writer) _ w1 in
      let w3 = write_bit-Stands false (write_bit true (write_bit true e.writer)) _ w2 in
      let marked = write_bit false (write_bit true (write_bit true e.writer)) in
      let w4 = write_bits_appends 0 2 marked _ (omega arith) (omega (arith, w3.few)) w3 in
      let w5 = block-Stands x (write_bits 0 2 marked) _ pos small narrow w4 in
      let test : (lz + 1 == e.prev_leading) ≡ true =
        rw (h.leading, ← one_less) (same_number (lz + 1)) in
      let last : e.prev_trailing ≡ tz = h.trailing ∙ sym same in
      record {
        counted = h.counted;
        some_values = h.some_values;
        previous = h.previous;
        leading = omega (arith, y.value_fits, y.word_fits);
        trailing = last;
        word = h.word;
        fits = inr (omega (arith, y.value_fits), narrow);
        stands =
            rw (test, h.word, last, count, u8_block bits lz tz y.word_fits)
              (rw (append_assoc, append_assoc, append_assoc, append_assoc) at w5);
      }
    where
      same_number : (k : ℕ) → (k == k) ≡ true
      same_number k = ground arith

  pub encode_xor-Encodes :
      (x n : ℕ) (e : Chimp128Encoder) (c : Context) (l : List Bool)
      → 0 < x
      → x < 2 ^ t
      → bits ≤ leading_zeros t x + trailing_zeros t x + 57
      → Encodes bits e c n l
      → Encodes bits
          (encode_xor t x e)
          (block_of t bits width y c x)
          n
          (l ++ changed_bits t bits c x)
  unfolding encode_xor changed_bits
  encode_xor-Encodes x n e c l pos small narrow h = elim (Bool-cases (same_block t c x)) [
    | inl within ↦
        rw (same_test within, within) (same_range-Encodes x n e c l small (ground arith) h)
    | inr outside ↦ elim (Bool-cases (close_block t c x)) [
      | inl near ↦
          rw (same_test outside, outside, close_test near, near)
            (close_range-Encodes x n e c l pos small narrow (ground arith) (ground arith) h)
      | inr far ↦
          rw (same_test outside, outside, close_test far, far)
            (new_range-Encodes x n e c l pos small narrow h)
    ]
  ]
    where
      same_test :
          {b : Bool}
          → same_block t c x ≡ b
          → (leb e.prev_leading (leading_zeros t x) && leb e.prev_trailing (trailing_zeros t x)) ≡ b
      same_test same = rw (h.leading, h.trailing) same

      close_test :
          {b : Bool}
          → close_block t c x ≡ b
          → ((trailing_zeros t x == e.prev_trailing)
              && (leb (e.prev_leading - 1) (leading_zeros t x)
                  && leb (leading_zeros t x) (e.prev_leading + 1)))
            ≡ b
      close_test close = rw (h.leading, h.trailing) close
