-- ===== src/Encoding/Gorilla/Read.antt =====
-- The decoder of gorilla.rs reads the bits of `Code`.
use timbre_tsf.Prelude.{
  ℕ, ◌+◌, ◌-◌, ◌/◌, ◌%◌, ◌^◌, ◌<◌, ◌≤◌, ◌≡◌, refl, sym, ap, ◌∙◌, arith, Bool, true, false, List,
  ◌∷◌, ◌++◌, ==_iff, not, bit_xor, ◌==◌, inl, inr, Bool-cases, append_assoc, All,
}
use timbre_tsf.Exec.{Result, ok, panic, unexpected_eof}
use timbre_tsf.Words.{shl, u32, IsByte}
use timbre_tsf.Words.Zeros.{
  leading_zeros, trailing_zeros, leading_zeros-le, zeros-lt, shr-trailing_zeros,
}
use native.Mathlib.Nat.{mod-eq_of_lt}
use timbre_tsf.Words.Xor.{bit_xor_twice, bit_xor-lt}
use timbre_tsf.Words.Bits.{bit_xor-zero}
use timbre_tsf.Words.Shifts.{mod_two_pow-lt, two_pow_mono}
use timbre_tsf.Encoding.BitStream.{bits_of}
use timbre_tsf.Encoding.BitStream.Reader.{BitReader, read_bits, read_bit}
use timbre_tsf.Encoding.BitStream.Reader.Follows.{Follows, read_bits-Follows, read_bit-Follows}
use timbre_tsf.Encoding.Gorilla.{
  GorillaDecoder, significant, is_none, decode_value, decode_next, decode_changed, read_block,
  read_xor,
}
use timbre_tsf.Encoding.Gorilla.Code.{
  Context, same_block, block_bits, new_bits, changed_bits, value_code, next, IsNarrow, difference,
}
use timbre_tsf.Encoding.Gorilla.Written.{
  Layout, BlockFits, block_of, next_same, next_changed, significant_lem, u8_block, block-lt,
}

-- A decoder behind its first value, with `l` to come.
pub record Decodes (input : List ℕ) (bits width : ℕ) (d : GorillaDecoder) (c : Context)
    (l : List Bool) : Type 0 where
  pub started : is_none d.first_value ≡ false
  pub previous : d.previous_value ≡ c.previous
  pub leading : d.previous_leading ≡ c.leading
  pub trailing : d.previous_trailing ≡ c.trailing
  pub leading_width : d.leading_bits_width ≡ width
  pub significant_width : d.significant_bits_width ≡ width
  pub word : d.value_bits ≡ bits
  pub follows : Follows input d.reader l

-- A difference of values of `t` bits, and the value that it gives back.
pub difference_fits : (t p v : ℕ) → p < 2 ^ t → v < 2 ^ t → bit_xor p v % 2 ^ t ≡ bit_xor p v
difference_fits t p v hp hv = mod-eq_of_lt (bit_xor-lt t p v hp hv)

-- Shifted down and up again by zeros that it has, a difference stays.
pub shifted_back :
    (t x k : ℕ)
    → x < 2 ^ t
    → t ≤ 64
    → k < 64
    → k ≤ trailing_zeros t x
    → shl 64 (x / 2 ^ k) (k % 64) ≡ x
shifted_back t x k small word room le =
    let e : k % 64 ≡ k = omega arith in
    rw (e, shr-trailing_zeros t x k le) (mod-eq_of_lt (omega (arith, two_pow_mono t 64 word)))

-- The numbers of a new block as the decoder makes them.
counted :
    (bits l k : ℕ)
    → l + k < bits
    → bits ≤ 64
    → (u32 (u32 (bits - l - k - 1) + 1) ≡ bits - l - k)
      × (u32 l ≡ l)
      × (significant bits l (bits - l - k) ≡ k)
counted bits l k room word = (omega arith, omega arith, omega arith)

-- The reads of a block's bits, in any place of the decoder.
reads_block :
    (input : List ℕ) (n x : ℕ) (r : BitReader) (rest : List Bool)
    → All IsByte input
    → n ≤ 57
    → x < 2 ^ n
    → Follows input r (bits_of n x ++ rest)
    → (r' : BitReader) × (read_bits unexpected_eof panic input n r ≡ (ok x, r'))
      × Follows input r' rest
reads_block input n x r rest bytes small h f =
    read_bits-Follows unexpected_eof panic input n x r rest bytes (omega (arith, f.room)) h f

-- The decoder's actions, from what the calls in them give.
module _ (input : List ℕ) where
  read_new_block :
      (d : GorillaDecoder) (a b : ℕ) (r r' : BitReader)
      → read_bits unexpected_eof panic input d.leading_bits_width d.reader ≡ (ok a, r)
      → read_bits unexpected_eof panic input d.significant_bits_width r ≡ (ok b, r')
      → read_block input false d ≡ (
        ok (u32 (u32 b + 1)),
        record d {
          reader = r';
          previous_leading = u32 a;
          previous_trailing = significant d.value_bits (u32 a) (u32 (u32 b + 1));
        },
      )
  unfolding read_block
  read_new_block d a b r r' first second = rw (first, second) refl

  new_zeros :
      (d : GorillaDecoder) (a b : ℕ) {n k : ℕ}
      → u32 a ≡ a
      → u32 (u32 b + 1) ≡ n
      → significant d.value_bits a n ≡ k
      → Path
          (Result ℕ × GorillaDecoder)
          (
            ok (u32 (u32 b + 1)),
            record d {
              previous_leading = u32 a;
              previous_trailing = significant d.value_bits (u32 a) (u32 (u32 b + 1));
            },
          )
          (ok n, record d { previous_leading = a; previous_trailing = k })
  new_zeros d a b same count ends = rw (same, count, ends) refl

  decode_same_run :
      (d : GorillaDecoder) (r : BitReader)
      → is_none d.first_value ≡ false
      → read_bit unexpected_eof panic input d.reader ≡ (ok false, r)
      → decode_value input d ≡ (ok d.previous_value, record d { reader = r })
  unfolding decode_value decode_next
  decode_same_run d r started bit = rw (started, bit) refl

  decode_other_run :
      (d : GorillaDecoder) (r : BitReader) {q : Result ℕ × GorillaDecoder}
      → is_none d.first_value ≡ false
      → read_bit unexpected_eof panic input d.reader ≡ (ok true, r)
      → decode_changed input (record d { reader = r }) ≡ q
      → decode_value input d ≡ q
  unfolding decode_value decode_next
  decode_other_run d r started bit q = rw (started, bit) q

  decode_changed_run :
      (d d' : GorillaDecoder) (b : Bool) (n : ℕ) (r : BitReader) {q : Result ℕ × GorillaDecoder}
      → read_bit unexpected_eof panic input d.reader ≡ (ok b, r)
      → read_block input (not b) (record d { reader = r }) ≡ (ok n, d')
      → read_xor input n d' ≡ q
      → decode_changed input d ≡ q
  unfolding decode_changed
  decode_changed_run d d' b n r first second third = rw (first, second) third

module _ (t bits width : ℕ) (y : Layout t bits width) (input : List ℕ)
    (bytes : All IsByte input) where
  -- `read_xor` behind a known block of `l` and `k` zeros.
  read_xor_lem :
      (x l k : ℕ) (d : GorillaDecoder) (rest : List Bool)
      → x < 2 ^ t
      → l ≤ leading_zeros t x
      → k ≤ trailing_zeros t x
      → l + k < bits
      → bits ≤ l + k + 57
      → d.previous_trailing ≡ k
      → Follows input d.reader (block_bits bits l k x ++ rest)
      → (r' : BitReader) × (read_xor input (bits - l - k) d ≡ (
        ok (bit_xor d.previous_value x),
        record d { reader = r'; previous_value = bit_xor d.previous_value x },
      ))
        × Follows input r' rest
  unfolding read_xor block_bits
  read_xor_lem x l k d rest small lead trail room narrow e f =
      let (r', ran, f') =
        reads_block input (bits - l - k) (x / 2 ^ k) d.reader rest bytes (omega arith)
          (block-lt t bits l k x y.value_fits (omega arith) lead small) f in
      let back =
        shifted_back t x k small (omega (arith, y.value_fits, y.word_fits))
          (omega (arith, y.word_fits)) trail in
      (r', rw (u8_block bits l k y.word_fits, ran, e, back) refl, f')

  -- A step of the decoder, and what it leaves.
  abbrev Step : ℕ → Context → List Bool → Result ℕ × GorillaDecoder → Type 0
  Step v c rest q = (d' : GorillaDecoder) × (q ≡ (ok v, d')) × Decodes input bits width d' c rest

  decode_within :
      (x v : ℕ) (d : GorillaDecoder) (c : Context) (rest : List Bool)
      → bit_xor d.previous_value x ≡ v
      → x < 2 ^ t
      → c.leading ≤ leading_zeros t x
      → c.trailing ≤ trailing_zeros t x
      → BlockFits bits c
      → Decodes input bits width d c (false ∷ (block_bits bits c.leading c.trailing x ++ rest))
      → Step v (record c { previous = v }) rest (decode_changed input d)
  unfolding decode_changed read_block
  decode_within x v d c rest value small lead trail (inl fresh) h =
      absurd (omega (arith, leading_zeros-le t x, y.value_fits, y.word_fits))
  decode_within x v d c rest value small lead trail (inr (room, narrow)) h =
      let (r1, ran1, f1) =
        read_bit-Follows unexpected_eof panic input false d.reader _ bytes h.follows in
      let count : significant d.value_bits d.previous_leading d.previous_trailing
          ≡ bits - c.leading - c.trailing =
        rw (h.word, h.leading, h.trailing)
          (significant_lem bits c.leading c.trailing (omega arith) y.word_fits) in
      let (r2, ran2, f2) =
        read_xor_lem x c.leading c.trailing (record d { reader = r1 }) rest small lead trail room
          narrow h.trailing f1 in
      (
        record d { reader = r2; previous_value = v },
        rw (ran1, count, ran2, value) refl,
        record {
          started = h.started;
          previous = refl;
          leading = h.leading;
          trailing = h.trailing;
          leading_width = h.leading_width;
          significant_width = h.significant_width;
          word = h.word;
          follows = f2;
        },
      )

  decode_outside :
      (x v : ℕ) (d : GorillaDecoder) (c : Context) (rest : List Bool)
      → bit_xor d.previous_value x ≡ v
      → 0 < x
      → x < 2 ^ t
      → bits ≤ leading_zeros t x + trailing_zeros t x + 57
      → (let l = leading_zeros t x in
          let k = trailing_zeros t x in
          Decodes input bits width d c (
            true
            ∷ (bits_of width l
                ++ (bits_of width (bits - l - k - 1) ++ (block_bits bits l k x ++ rest)))))
      → Step v
          (record { previous = v; leading = leading_zeros t x; trailing = trailing_zeros t x })
          rest
          (decode_changed input d)
  unfolding decode_changed read_block
  decode_outside x v d c rest value pos small narrow h =
      let l = leading_zeros t x in
      let k = trailing_zeros t x in
      let n = bits - l - k in
      let both : l + k < bits = omega (arith, zeros-lt t x pos small, y.value_fits) in
      let (r1, ran1, f1) =
        read_bit-Follows unexpected_eof panic input true d.reader _ bytes h.follows in
      let (r2, ran2, f2) =
        reads_block input width l r1 _ bytes (omega (arith, y.width_fits)) (omega (arith, y.counts))
          f1 in
      let (r3, ran3, f3) =
        reads_block input width (n - 1) r2 _ bytes (omega (arith, y.width_fits))
          (omega (arith, y.counts)) f2 in
      let (stored, lead32, ends) = counted bits l k both y.word_fits in
      let (r4, ran4, f4) =
        read_xor_lem x l k (record d { reader = r3; previous_leading = l; previous_trailing = k })
          rest small (omega arith) (omega arith) both narrow refl f3 in
      (
        record d { reader = r4; previous_value = v; previous_leading = l; previous_trailing = k },
        decode_changed_run input d
            (record d { reader = r3; previous_leading = l; previous_trailing = k }) true n r1 ran1
            (read_new_block input (record d { reader = r1 }) l (n - 1) r2 r3
                (ap (λ (w : ℕ). read_bits unexpected_eof panic input w r1) h.leading_width ∙ ran2)
                (ap (λ (w : ℕ). read_bits unexpected_eof panic input w r2) h.significant_width
                  ∙ ran3)
              ∙ new_zeros input (record d { reader = r3 }) l (n - 1) lead32 stored
                  (ap (λ (w : ℕ). significant w l n) h.word ∙ ends))
            (ran4
              ∙ ap
                  (λ (u : ℕ). (
                    ok u,
                    record d {
                      reader = r4;
                      previous_value = u;
                      previous_leading = l;
                      previous_trailing = k;
                    },
                  ))
                  value),
        record {
          started = h.started;
          previous = refl;
          leading = refl;
          trailing = refl;
          leading_width = h.leading_width;
          significant_width = h.significant_width;
          word = h.word;
          follows = f4;
        },
      )

  with_reader :
      {d : GorillaDecoder} {c : Context} {l l' : List Bool} (r : BitReader)
      → Decodes input bits width d c l
      → Follows input r l'
      → Decodes input bits width (record d { reader = r }) c l'
  with_reader r h f = record {
    started = h.started;
    previous = h.previous;
    leading = h.leading;
    trailing = h.trailing;
    leading_width = h.leading_width;
    significant_width = h.significant_width;
    word = h.word;
    follows = f;
  }

  decode_changed-Decodes :
      (x v : ℕ) (d : GorillaDecoder) (c : Context) (rest : List Bool)
      → bit_xor d.previous_value x ≡ v
      → 0 < x
      → x < 2 ^ t
      → bits ≤ leading_zeros t x + trailing_zeros t x + 57
      → BlockFits bits c
      → Decodes input bits width d c (changed_bits t bits width c x ++ rest)
      → Step v (record (block_of t bits width y c x) { previous = v }) rest (decode_value input d)
  unfolding changed_bits new_bits
  decode_changed-Decodes x v d c rest value pos small narrow fits h =
      elim (Bool-cases (same_block t c x)) [
        | inl within ↦
            (let f : Follows input d.reader
                  (true ∷ false ∷ (block_bits bits c.leading c.trailing x ++ rest)) =
                rw within at h.follows in
              let (r, ran, f') =
                read_bit-Follows unexpected_eof panic input true d.reader _ bytes f in
              let (d', done, h') =
                decode_within x v (record d { reader = r }) c rest value small (ground arith)
                  (ground arith) fits (with_reader r h f') in
              rw within (d', decode_other_run input d r h.started ran done, h'))
        | inr outside ↦
            (let f = rw (append_assoc, append_assoc) at (rw outside at h.follows) in
              let (r, ran, f') =
                read_bit-Follows unexpected_eof panic input true d.reader _ bytes f in
              let (d', done, h') =
                decode_outside x v (record d { reader = r }) c rest value pos small narrow
                  (with_reader r h f') in
              rw outside (d', decode_other_run input d r h.started ran done, h'))
      ]

  -- One further value.
  pub decode_value-Decodes :
      (v : ℕ) (d : GorillaDecoder) (c : Context) (rest : List Bool)
      → c.previous < 2 ^ t
      → v < 2 ^ t
      → IsNarrow t bits (difference t c v)
      → BlockFits bits c
      → Decodes input bits width d c (value_code t bits width c v ++ rest)
      → Step v (next t c v) rest (decode_value input d)
  unfolding value_code
  decode_value-Decodes v d c rest hp hv narrow fits h =
      let x = difference t c v in
      let whole : x ≡ bit_xor c.previous v = difference_fits t c.previous v hp hv in
      let value : bit_xor d.previous_value x ≡ v =
        rw (h.previous, whole) (bit_xor_twice c.previous v) in
      elim (Bool-cases (x == 0)) [
        | inl same ↦
            (let (r, ran, f) =
                read_bit-Follows unexpected_eof panic input false d.reader _ bytes
                  (rw same at h.follows) in
              let zero_x : x ≡ 0 = (==_iff x 0).0 same in
              let before : d.previous_value ≡ v =
                sym (bit_xor-zero d.previous_value) ∙ rw zero_x at value in
              rw (next_same t bits width y c v same) (
                record d { reader = r },
                decode_same_run input d r h.started ran
                    ∙ ap (λ (n : ℕ). (ok n, record d { reader = r })) before,
                record {
                  started = h.started;
                  previous = before;
                  leading = h.leading;
                  trailing = h.trailing;
                  leading_width = h.leading_width;
                  significant_width = h.significant_width;
                  word = h.word;
                  follows = f;
                },
              ))
        | inr differs ↦ rw (next_changed t bits width y c v differs) (
            decode_changed-Decodes x v d c rest value (ground arith) (mod_two_pow-lt _ t)
              (room x differs narrow) fits (rw differs at h))
      ]
    where
      room :
          (x : ℕ)
          → (x == 0) ≡ false
          → IsNarrow t bits x
          → bits ≤ leading_zeros t x + trailing_zeros t x + 57
      room x differs (inl same) = absurd (ground arith)
      room x differs (inr some_room) = some_room
