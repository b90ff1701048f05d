-- ===== src/Encoding/Chimp128/Read.antt =====
-- The decoder of chimp128.rs reads the bits of `Code`.
use timbre_tsf.Prelude.{
  ℕ, suc, ◌+◌, ◌-◌, ◌/◌, ◌^◌, ◌<◌, ◌≤◌, ◌≡◌, refl, sym, ap, ◌∙◌, arith, Bool, true, false, List,
  ◌∷◌, ◌++◌, ==_iff, bit_xor, ◌==◌, inl, inr, Bool-cases, append_assoc, All,
}
use timbre_tsf.Exec.{Result, ok}
use timbre_tsf.Words.{u8, wrapping_sub, wrapping_add, IsByte}
use timbre_tsf.Words.Zeros.{leading_zeros, trailing_zeros, leading_zeros-le, zeros-lt}
use timbre_tsf.Words.Xor.{bit_xor_twice}
use timbre_tsf.Words.Bits.{bit_xor-zero}
use timbre_tsf.Words.Shifts.{mod_two_pow-lt}
use timbre_tsf.Encoding.BitStream.{bits_of}
use timbre_tsf.Encoding.BitStream.Reader.{BitReader, read_bits, read_bit}
use timbre_tsf.Encoding.BitStream.Reader.Follows.{Follows, read_bits-Follows, read_bit-Follows}
use timbre_tsf.Encoding.Gorilla.Code.{Context, difference, same_block, block_bits, next, IsNarrow}
use timbre_tsf.Encoding.Gorilla.Written.{Layout, block-lt, block_of, next_same, next_changed}
use timbre_tsf.Encoding.Gorilla.Read.{difference_fits, shifted_back}
use timbre_tsf.Encoding.Chimp128.Decoder.{
  Chimp128Decoder, at_end, shifted, read_same, read_close, read_close_bits, read_new, read_third,
  read_xor, decode_changed, decode_next, decode_same, decode_bits,
}
use timbre_tsf.Encoding.Chimp128.Code.{close_block, close_bits, new_bits, changed_bits, value_code}
use timbre_tsf.Encoding.Chimp128.Written.{BlockFits, length_lem}
use timbre_tsf.Encoding.Chimp128.Values.{differs_room}

-- The bit reader as the decoder calls it.
abbrev bits_at : List ℕ → ℕ → BitReader → Result ℕ × BitReader
bits_at = read_bits at_end (ok false)

abbrev bit_at : List ℕ → BitReader → Result Bool × BitReader
bit_at = read_bit at_end (ok false)

-- The decoder's actions, from what the calls in them give.
module _ (input : List ℕ) where
  read_same_run :
      (d : Chimp128Decoder) (n a x : ℕ) (r : BitReader)
      → wrapping_sub 8 (wrapping_sub 8 d.bit_width d.prev_leading) d.prev_trailing ≡ n
      → bits_at input n d.reader ≡ (ok a, r)
      → shifted a d.prev_trailing ≡ x
      → read_same input d ≡ (ok x, record d { reader = r })
  unfolding read_same
  read_same_run d n a x r size got back = rw (size, got, back) refl

  read_close_run :
      (d : Chimp128Decoder) (l n a x : ℕ) (r r' : BitReader)
      → bits_at input 2 d.reader ≡ (ok 0, r)
      → wrapping_sub 8 d.prev_leading 1 ≡ l
      → wrapping_sub 8 (wrapping_sub 8 d.bit_width l) d.prev_trailing ≡ n
      → bits_at input n r ≡ (ok a, r')
      → shifted a d.prev_trailing ≡ x
      → read_close input d ≡ (ok x, record d { reader = r'; prev_leading = l })
  unfolding read_close read_close_bits
  read_close_run d l n a x r r' delta lead size got back = rw (delta, lead, size, got, back) refl

  read_new_run :
      (d : Chimp128Decoder) (l n k a x : ℕ) (r r' r'' : BitReader)
      → bits_at input 6 d.reader ≡ (ok l, r)
      → bits_at input 6 r ≡ (ok n, r')
      → u8 l ≡ l
      → u8 n ≡ n
      → wrapping_sub 8 (wrapping_sub 8 d.bit_width l) n ≡ k
      → bits_at input n r' ≡ (ok a, r'')
      → shifted a k ≡ x
      → read_new input d ≡ (ok x, record d { reader = r''; prev_leading = l; prev_trailing = k })
  unfolding read_new
  read_new_run d l n k a x r r' r'' first second fits_l fits_n size got back =
      rw (first, second, fits_l, fits_n, size, got, back) refl

  module _ (d d' : Chimp128Decoder) (x : ℕ) (r r' : BitReader) where
    read_second :
        bit_at input d.reader ≡ (ok false, r)
        → read_same input (record d { reader = r }) ≡ (ok x, d')
        → read_xor input d ≡ (ok x, d')
    unfolding read_xor
    read_second bit rest = rw (bit, rest) refl

    read_third_close :
        bit_at input d.reader ≡ (ok true, r)
        → bit_at input r ≡ (ok false, r')
        → read_close input (record d { reader = r' }) ≡ (ok x, d')
        → read_xor input d ≡ (ok x, d')
    unfolding read_xor read_third
    read_third_close bit bit' rest = rw (bit, bit', rest) refl

    read_third_new :
        bit_at input d.reader ≡ (ok true, r)
        → bit_at input r ≡ (ok true, r')
        → read_new input (record d { reader = r' }) ≡ (ok x, d')
        → read_xor input d ≡ (ok x, d')
    unfolding read_xor read_third
    read_third_new bit bit' rest = rw (bit, bit', rest) refl

    decode_same_run :
        (d.count == 0) ≡ false
        → bit_at input d.reader ≡ (ok false, r)
        → decode_bits input d
          ≡ (ok d.prev_value, record d { reader = r; count = wrapping_add 64 d.count 1 })
    unfolding decode_bits decode_next decode_same
    decode_same_run started bit = rw (started, bit) refl

    decode_changed_run :
        (v : ℕ)
        → (d.count == 0) ≡ false
        → bit_at input d.reader ≡ (ok true, r)
        → read_xor input (record d { reader = r }) ≡ (ok x, d')
        → bit_xor d'.prev_value x ≡ v
        → decode_bits input d
          ≡ (ok v, record d' { prev_value = v; count = wrapping_add 64 d'.count 1 })
    unfolding decode_bits decode_next decode_changed
    decode_changed_run v started bit rest value = rw (started, bit, rest, value) refl

-- A decoder that has given `n` values, the first among them, with `l` to come.
pub record Decodes (input : List ℕ) (bits : ℕ) (d : Chimp128Decoder) (c : Context) (n : ℕ)
    (l : List Bool) : Type 0 where
  pub counted : d.count ≡ n
  pub some_values : 0 < n
  pub previous : d.prev_value ≡ c.previous
  pub leading : d.prev_leading ≡ c.leading
  pub trailing : d.prev_trailing ≡ c.trailing
  pub word : d.bit_width ≡ bits
  pub follows : Follows input d.reader l

-- What a read of the difference leaves: the difference, the block, the rest, and all else as it was.
record Gives (input : List ℕ) (d : Chimp128Decoder) (x l k : ℕ) (rest : List Bool)
    (q : Result ℕ × Chimp128Decoder) : Type 0 where
  reader : BitReader
  ran : q ≡ (ok x, record d { reader = reader; prev_leading = l; prev_trailing = k })
  follows : Follows input reader rest

module _ (t bits width : ℕ) (y : Layout t bits width) (input : List ℕ)
    (bytes : All IsByte input) where
  -- The bits of a block.
  takes_block :
      (x l k : ℕ) (r : BitReader) (rest : List Bool)
      → x < 2 ^ t
      → l ≤ leading_zeros t x
      → k ≤ trailing_zeros t x
      → l + k < bits
      → bits ≤ l + k + 57
      → Follows input r (block_bits bits l k x ++ rest)
      → (r' : BitReader) × (bits_at input (bits - l - k) r ≡ (ok (x / 2 ^ k), r'))
        × (shifted (x / 2 ^ k) k ≡ x)
        × Follows input r' rest
  unfolding block_bits
  takes_block x l k r rest small lead trail room narrow f =
      let (r', ran, f') =
        read_bits-Follows at_end (ok false) input (bits - l - k) (x / 2 ^ k) r rest bytes
          (omega (arith, f.room)) (block-lt t bits l k x y.value_fits (omega arith) lead small) f in
      (
        r',
        ran,
        shifted_back t x k small (omega (arith, y.value_fits, y.word_fits))
            (omega (arith, y.word_fits)) trail,
        f',
      )

  known_block :
      (x : ℕ) (c : Context)
      → c.leading ≤ leading_zeros t x + 1
      → BlockFits bits c
      → (c.leading + c.trailing < bits) × (bits ≤ c.leading + c.trailing + 57)
  known_block x c near (inl fresh) =
      absurd (omega (arith, leading_zeros-le t x, y.value_fits, y.word_fits))
  known_block x c near (inr known) = known

  -- Case 2, behind its first bit.
  found_same :
      (x n : ℕ) (d : Chimp128Decoder) (c : Context) (rest : List Bool)
      → x < 2 ^ t
      → c.leading ≤ leading_zeros t x
      → c.trailing ≤ trailing_zeros t x
      → BlockFits bits c
      → Decodes input bits d c n (false ∷ (block_bits bits c.leading c.trailing x ++ rest))
      → Gives input d x d.prev_leading d.prev_trailing rest (read_xor input d)
  found_same x n d c rest small lead trail fits h =
      let (room, narrow) = known_block x c (omega arith) fits in
      let (r1, ran1, f1) =
        read_bit-Follows at_end (ok false) input false d.reader _ bytes h.follows in
      let (r2, ran2, back, f2) =
        takes_block x c.leading c.trailing r1 rest small lead trail room narrow f1 in
      let size = length_lem bits c.leading c.trailing (omega arith) y.word_fits in
      record {
        reader = r2;
        ran =
            read_second input d (record d { reader = r2 }) x r1 r1 ran1
              (read_same_run input (record d { reader = r1 }) (bits - c.leading - c.trailing) _ x r2
                (rw (h.word, h.leading, h.trailing) size) ran2
                (ap (λ (k : ℕ). shifted (x / 2 ^ c.trailing) k) h.trailing ∙ back));
        follows = f2;
      }

  -- Case 3, behind its first bit.
  found_close :
      (x n : ℕ) (d : Chimp128Decoder) (c : Context) (rest : List Bool)
      → 0 < x
      → x < 2 ^ t
      → bits ≤ leading_zeros t x + trailing_zeros t x + 57
      → leading_zeros t x + 1 ≡ c.leading
      → trailing_zeros t x ≡ c.trailing
      → Decodes input bits d c n (
          true
          ∷ false
          ∷ (bits_of 2 0 ++ (block_bits bits (leading_zeros t x) (trailing_zeros t x) x ++ rest)))
      → Gives input d x (leading_zeros t x) d.prev_trailing rest (read_xor input d)
  found_close x n d c rest pos small narrow one_less same h =
      let l = leading_zeros t x in
      let k = trailing_zeros t x in
      let both : l + k < bits = omega (arith, zeros-lt t x pos small, y.value_fits) in
      let (r1, ran1, f1) =
        read_bit-Follows at_end (ok false) input true d.reader _ bytes h.follows in
      let (r2, ran2, f2) = read_bit-Follows at_end (ok false) input false r1 _ bytes f1 in
      let (r3, ran3, f3) =
        read_bits-Follows at_end (ok false) input 2 0 r2 _ bytes (omega (arith, f2.room))
          (omega arith) f2 in
      let (r4, ran4, back, f4) =
        takes_block x l k r3 rest small (omega arith) (omega arith) both narrow f3 in
      let size = length_lem bits l k (omega arith) y.word_fits in
      let last : d.prev_trailing ≡ k = h.trailing ∙ sym same in
      let lead : wrapping_sub 8 d.prev_leading 1 ≡ l =
        omega (arith, h.leading, one_less, y.word_fits, both) in
      record {
        reader = r4;
        ran =
            read_third_close input d (record d { reader = r4; prev_leading = l }) x r1 r2 ran1 ran2
              (read_close_run input (record d { reader = r2 }) l (bits - l - k) _ x r3 r4 ran3 lead
                (rw (h.word, last) size) ran4 (ap (λ (j : ℕ). shifted (x / 2 ^ k) j) last ∙ back));
        follows = f4;
      }

  -- Case 4, behind its first bit.
  found_new :
      (x n : ℕ) (d : Chimp128Decoder) (c : Context) (rest : List Bool)
      → 0 < x
      → x < 2 ^ t
      → bits ≤ leading_zeros t x + trailing_zeros t x + 57
      → (let l = leading_zeros t x in
          let k = trailing_zeros t x in
          Decodes input bits d c n (
            true
            ∷ true
            ∷ (bits_of 6 l ++ (bits_of 6 (bits - l - k) ++ (block_bits bits l k x ++ rest)))))
      → Gives input d x (leading_zeros t x) (trailing_zeros t x) rest (read_xor input d)
  found_new x n d c rest pos small narrow h =
      let l = leading_zeros t x in
      let k = trailing_zeros t x in
      let both : l + k < bits = omega (arith, zeros-lt t x pos small, y.value_fits) in
      let (r1, ran1, f1) =
        read_bit-Follows at_end (ok false) input true d.reader _ bytes h.follows in
      let (r2, ran2, f2) = read_bit-Follows at_end (ok false) input true r1 _ bytes f1 in
      let (r3, ran3, f3) =
        read_bits-Follows at_end (ok false) input 6 l r2 _ bytes (omega (arith, f2.room))
          (omega (arith, y.word_fits)) f2 in
      let (r4, ran4, f4) =
        read_bits-Follows at_end (ok false) input 6 (bits - l - k) r3 _ bytes
          (omega (arith, f3.room)) (omega arith) f3 in
      let (r5, ran5, back, f5) =
        takes_block x l k r4 rest small (omega arith) (omega arith) both narrow f4 in
      record {
        reader = r5;
        ran =
            read_third_new input d (record d { reader = r5; prev_leading = l; prev_trailing = k }) x
              r1 r2 ran1 ran2
              (read_new_run input (record d { reader = r2 }) l (bits - l - k) k _ x r3 r4 r5 ran3
                ran4 (omega (arith, y.word_fits)) (omega (arith, y.word_fits))
                (rw h.word (omega (arith, y.word_fits))) ran5 back);
        follows = f5;
      }

  -- A step of the decoder, and what it leaves.
  abbrev Step : ℕ → Context → ℕ → List Bool → Result ℕ × Chimp128Decoder → Type 0
  Step v c n rest q = (d' : Chimp128Decoder) × (q ≡ (ok v, d')) × Decodes input bits d' c n rest

  -- From a found difference to the value.
  value_found :
      (x v n l k : ℕ) (d : Chimp128Decoder) (r : BitReader) (rest tail : List Bool) (c c' : Context)
      → suc n < 2 ^ 64
      → Decodes input bits d c n tail
      → bit_at input d.reader ≡ (ok true, r)
      → Gives input (record d { reader = r }) x l k rest (read_xor input (record d { reader = r }))
      → bit_xor d.prev_value x ≡ v
      → l ≡ c'.leading
      → k ≡ c'.trailing
      → Step v (record c' { previous = v }) (suc n) rest (decode_bits input d)
  value_found x v n l k d r rest tail c c' room h bit found value lead trail =
      let after : Chimp128Decoder = record d {
        reader = found.reader;
        prev_leading = l;
        prev_trailing = k;
      } in
      let started : (d.count == 0) ≡ false = ground (arith, h.counted, h.some_values) in
      (
        record after { prev_value = v; count = wrapping_add 64 d.count 1 },
        decode_changed_run input d after x r r v started bit found.ran value,
        record {
          counted = omega (arith, h.counted);
          some_values = omega arith;
          previous = refl;
          leading = lead;
          trailing = trail;
          word = h.word;
          follows = found.follows;
        },
      )

  with_reader :
      {d : Chimp128Decoder} {c : Context} {n : ℕ} {l l' : List Bool} (r : BitReader)
      → Decodes input bits d c n l
      → Follows input r l'
      → Decodes input bits (record d { reader = r }) c n l'
  with_reader r h f = record {
    counted = h.counted;
    some_values = h.some_values;
    previous = h.previous;
    leading = h.leading;
    trailing = h.trailing;
    word = h.word;
    follows = f;
  }

  decode_changed-Decodes :
      (x v n : ℕ) (d : Chimp128Decoder) (c : Context) (rest : List Bool)
      → suc n < 2 ^ 64
      → bit_xor d.prev_value x ≡ v
      → 0 < x
      → x < 2 ^ t
      → bits ≤ leading_zeros t x + trailing_zeros t x + 57
      → BlockFits bits c
      → Decodes input bits d c n (changed_bits t bits c x ++ rest)
      → Step v
          (record (block_of t bits width y c x) { previous = v })
          (suc n)
          rest
          (decode_bits input d)
  unfolding changed_bits close_bits new_bits
  decode_changed-Decodes x v n d c rest room value pos small narrow fits h =
      elim (Bool-cases (same_block t c x)) [
        | inl within ↦
            (let f : Follows input d.reader
                  (true ∷ false ∷ (block_bits bits c.leading c.trailing x ++ rest)) =
                rw within at h.follows in
              let (r, ran, f') = read_bit-Follows at_end (ok false) input true d.reader _ bytes f in
              let found =
                found_same x n (record d { reader = r }) c rest small (ground arith) (ground arith)
                  fits (with_reader r h f') in
              rw within (
                value_found x v n d.prev_leading d.prev_trailing d r rest _ c c room h ran found
                  value h.leading h.trailing))
        | inr outside ↦ elim (Bool-cases (close_block t c x)) [
          | inl near ↦
              (let f = rw (outside, near, append_assoc) at h.follows in
                let (r, ran, f') =
                  read_bit-Follows at_end (ok false) input true d.reader _ bytes f in
                let same : trailing_zeros t x ≡ c.trailing = ground arith in
                let found =
                  found_close x n (record d { reader = r }) c rest pos small narrow (ground arith)
                    same (with_reader r h f') in
                rw outside (
                  value_found x v n _ d.prev_trailing d r rest _ c
                    (record c { leading = leading_zeros t x; trailing = trailing_zeros t x }) room h
                    ran found value refl (h.trailing ∙ sym same)))
          | inr far ↦
              (let f = rw (outside, far, append_assoc, append_assoc) at h.follows in
                let (r, ran, f') =
                  read_bit-Follows at_end (ok false) input true d.reader _ bytes f in
                let found =
                  found_new x n (record d { reader = r }) c rest pos small narrow
                    (with_reader r h f') in
                rw outside (
                  value_found x v n _ _ d r rest _ c
                    (record c { leading = leading_zeros t x; trailing = trailing_zeros t x }) room h
                    ran found value refl refl))
        ]
      ]

  -- One further value.
  pub decode_bits-Decodes :
      (v n : ℕ) (d : Chimp128Decoder) (c : Context) (rest : List Bool)
      → suc n < 2 ^ 64
      → c.previous < 2 ^ t
      → v < 2 ^ t
      → IsNarrow t bits (difference t c v)
      → BlockFits bits c
      → Decodes input bits d c n (value_code t bits c v ++ rest)
      → Step v (next t c v) (suc n) rest (decode_bits input d)
  unfolding value_code
  decode_bits-Decodes v n d c rest room hp hv narrow fits h =
      let x = difference t c v in
      let whole : x ≡ bit_xor c.previous v = difference_fits t c.previous v hp hv in
      let value : bit_xor d.prev_value x ≡ v =
        rw (h.previous, whole) (bit_xor_twice c.previous v) in
      elim (Bool-cases (x == 0)) [
        | inl same ↦
            (let (r, ran, f) =
                read_bit-Follows at_end (ok false) input false d.reader _ bytes
                  (rw same at h.follows) in
              let zero_x : x ≡ 0 = (==_iff x 0).0 same in
              let before : d.prev_value ≡ v =
                sym (bit_xor-zero d.prev_value) ∙ rw zero_x at value in
              let started : (d.count == 0) ≡ false = ground (arith, h.counted, h.some_values) in
              let after = record d { reader = r; count = wrapping_add 64 d.count 1 } in
              rw (next_same t bits width y c v same) (
                after,
                decode_same_run input d d 0 r r started ran ∙ ap (λ (u : ℕ). (ok u, after)) before,
                record {
                  counted = omega (arith, h.counted);
                  some_values = omega arith;
                  previous = before;
                  leading = h.leading;
                  trailing = h.trailing;
                  word = h.word;
                  follows = f;
                },
              ))
        | inr differs ↦ rw (next_changed t bits width y c v differs) (
            decode_changed-Decodes x v n d c rest room value (ground arith) (mod_two_pow-lt _ t)
              (differs_room t bits x differs narrow) fits (rw differs at h))
      ]
