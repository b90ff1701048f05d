-- ===== src/Encoding/Gorilla/Written.antt =====
-- The encoder of gorilla.rs writes the bits of `Code`.
use timbre_tsf.Prelude.{
  ℕ, ◌+◌, ◌-◌, ◌/◌, ◌%◌, ◌^◌, ◌<◌, ◌≤◌, ◌≡◌, refl, ap, arith, Bool, true, false, ◌&&◌, List, [],
  ◌∷◌, ◌++◌, bit_xor, leb, ◌==◌, if◌then◌else◌, ◌⊎◌, inl, inr, Bool-cases, append_assoc, append-nil,
}
use timbre_tsf.Exec.{ok, for_each}
use timbre_tsf.Words.{u8, wrapping_sub}
use timbre_tsf.Words.Zeros.{
  leading_zeros, trailing_zeros, leading_zeros-le, leading_zeros-lt, zeros-lt,
}
use timbre_tsf.Words.Shifts.{shr-lt, mod_two_pow-lt, two_pow_mono}
use timbre_tsf.Encoding.BitStream.Writer.{write_bits, write_bit}
use timbre_tsf.Encoding.BitStream.Writer.Appends.{Stands, write_bits-Stands, write_bit-Stands}
use timbre_tsf.Encoding.Gorilla.{
  GorillaEncoder, no_zeros, significant, reuse_block, new_block, encode_xor, is_none,
  encode_value_generic, encode_bits,
}
use timbre_tsf.Encoding.Gorilla.Code.{
  Context, same_block, block_bits, new_bits, changed_bits, value_code, next, code, IsNarrow, Narrow,
  difference,
}

-- The widths of an encoder that fit each other: counts of `width` bits for words of `bits`.
pub record Layout (t bits width : ℕ) : Type 0 where
  pub value_fits : t ≤ bits
  pub word_fits : bits ≤ 64
  pub counts : 2 ^ width ≡ bits
  pub width_fits : width ≤ 6

-- The block before has room, or there is none.
abbrev pub BlockFits : ℕ → Context → Type 0
BlockFits bits c =
    (c.leading ≡ no_zeros)
    ⊎ ((c.leading + c.trailing < bits) × (bits ≤ c.leading + c.trailing + 57))

-- An encoder behind its first value, that has written `l`.
pub record Encodes (bits width : ℕ) (e : GorillaEncoder) (c : Context) (l : List Bool)
    : Type 0 where
  pub started : is_none e.first_value ≡ false
  pub previous : e.previous_value ≡ c.previous
  pub leading : e.previous_leading ≡ c.leading
  pub trailing : e.previous_trailing ≡ c.trailing
  pub leading_width : e.leading_bits_width ≡ width
  pub significant_width : e.significant_bits_width ≡ width
  pub word : e.value_bits ≡ bits
  pub fits : BlockFits bits c
  pub stands : Stands e.writer l

pub significant_lem :
    (bits l k : ℕ) → l + k ≤ bits → bits ≤ 64 → significant bits l k ≡ bits - l - k
significant_lem bits l k h small = omega arith

pub u8_block : (bits l k : ℕ) → bits ≤ 64 → u8 (bits - l - k) ≡ bits - l - k
u8_block bits l k small = omega arith

-- What a block takes of a difference `x`.
pub block-lt :
    (t bits l k x : ℕ)
    → t ≤ bits
    → l + k ≤ bits
    → l ≤ leading_zeros t x
    → x < 2 ^ t
    → x / 2 ^ k < 2 ^ (bits - l - k)
block-lt t bits l k x small room lead h = shr-lt x (bits - l - k) k (bits - l) (omega arith) (
    let low = leading_zeros-lt t x h in
    let wide = two_pow_mono (t - leading_zeros t x) (bits - l) (omega arith) in omega arith)

-- The two ways of `encode_value_generic` behind the first value.
module _ (t v : ℕ) (e : GorillaEncoder) (x : ℕ) where
  generic_same :
      is_none e.first_value ≡ false
      → bit_xor e.previous_value v % 2 ^ t ≡ x
      → (x == 0) ≡ true
      → encode_value_generic t v e
        ≡ record e { writer = write_bit false e.writer; previous_value = v }
  unfolding encode_value_generic
  generic_same started xor same = rw (started, ap (λ (n : ℕ). n == 0) xor, same) refl

  generic_changed :
      is_none e.first_value ≡ false
      → bit_xor e.previous_value v % 2 ^ t ≡ x
      → (x == 0) ≡ false
      → encode_value_generic t v e ≡ record (encode_xor t x e) { previous_value = v }
  unfolding encode_value_generic
  generic_changed started xor differs =
      rw (started, ap (λ (n : ℕ). n == 0) xor, differs)
        (ap (λ (n : ℕ). record (encode_xor t n e) { previous_value = v }) xor)

module _ (t bits width : ℕ) (y : Layout t bits width) where
  reuse_block-Encodes :
      (x : ℕ) (e : GorillaEncoder) (c : Context) (l : List Bool)
      → x < 2 ^ t
      → c.leading ≤ leading_zeros t x
      → Encodes bits width e c l
      → Encodes bits width
          (reuse_block x e)
          c
          (l ++ (true ∷ false ∷ block_bits bits c.leading c.trailing x))
  unfolding reuse_block block_bits
  reuse_block-Encodes x e c l small lead h =
      let (room, narrow) = known_block h.fits in
      let count = significant_lem bits c.leading c.trailing (omega arith) y.word_fits in
      let w1 = write_bit-Stands true e.writer l h.stands in
      let w2 = write_bit-Stands false (write_bit true e.writer) _ w1 in
      let w3 =
        write_bits-Stands (x / 2 ^ c.trailing) (bits - c.leading - c.trailing)
          (write_bit false (write_bit true e.writer)) _
          (block-lt t bits c.leading c.trailing x y.value_fits (omega arith) lead small)
          (omega (arith, w2.few)) w2 in
      record {
        started = h.started;
        previous = h.previous;
        leading = h.leading;
        trailing = h.trailing;
        leading_width = h.leading_width;
        significant_width = h.significant_width;
        word = h.word;
        fits = h.fits;
        stands =
            rw
              (h.leading, h.trailing, h.word, count, u8_block bits c.leading c.trailing y.word_fits)
              (rw (append_assoc, append_assoc) at w3);
      }
    where
      known_block :
          BlockFits bits c → (c.leading + c.trailing < bits) × (bits ≤ c.leading + c.trailing + 57)
      known_block (inl fresh) =
          absurd (omega (arith, leading_zeros-le t x, y.value_fits, y.word_fits))
      known_block (inr known) = known

  new_block-Encodes :
      (x : ℕ) (e : GorillaEncoder) (c : Context) (l : List Bool)
      → 0 < x
      → x < 2 ^ t
      → bits ≤ leading_zeros t x + trailing_zeros t x + 57
      → Encodes bits width e c l
      → Encodes bits width
          (new_block x (leading_zeros t x) (trailing_zeros t x) e)
          (record c { leading = leading_zeros t x; trailing = trailing_zeros t x })
          (l ++ new_bits t bits width (leading_zeros t x) (trailing_zeros t x) x)
  unfolding new_block new_bits block_bits
  new_block-Encodes x e c l pos small narrow h =
      let lz = leading_zeros t x in
      let tz = trailing_zeros t x in
      let both = zeros-lt t x pos small in
      let count = significant_lem bits lz tz (omega (arith, y.value_fits)) y.word_fits in
      let w1 = write_bit-Stands true e.writer l h.stands in
      let w2 = write_bit-Stands true (write_bit true e.writer) _ w1 in
      let marked = write_bit true (write_bit true e.writer) in
      let w3 =
        write_bits-Stands lz width marked _ (omega (arith, y.counts, y.value_fits))
          (omega (arith, w2.few, y.width_fits)) w2 in
      let sized = write_bits lz width marked in
      let w4 =
        write_bits-Stands (bits - lz - tz - 1) width sized _ (omega (arith, y.counts, y.value_fits))
          (omega (arith, w3.few, y.width_fits)) w3 in
      let w5 =
        write_bits-Stands (x / 2 ^ tz) (bits - lz - tz)
          (write_bits (bits - lz - tz - 1) width sized) _
          (block-lt t bits lz tz x y.value_fits (omega (arith, y.value_fits)) (omega arith) small)
          (omega (arith, w4.few)) w4 in
      record {
        started = h.started;
        previous = h.previous;
        leading = refl;
        trailing = refl;
        leading_width = h.leading_width;
        significant_width = h.significant_width;
        word = h.word;
        fits = inr (omega (arith, y.value_fits), narrow);
        stands =
            rw
              (
                h.leading_width,
                h.significant_width,
                h.word,
                count,
                u8_block bits lz tz y.word_fits,
                less_one (bits - lz - tz) (omega (arith, y.value_fits))
                    (omega (arith, y.word_fits)),
              )
              (rw (append_assoc, append_assoc, append_assoc, append_assoc) at w5);
      }
    where
      less_one : (n : ℕ) → 0 < n → n ≤ 64 → wrapping_sub 32 n 1 ≡ n - 1
      less_one n pos small = omega arith

  with_previous :
      (v : ℕ) (e : GorillaEncoder) (c : Context) (l : List Bool)
      → Encodes bits width e c l
      → Encodes bits width (record e { previous_value = v }) (record c { previous = v }) l
  with_previous v e c l h = record {
    started = h.started;
    previous = refl;
    leading = h.leading;
    trailing = h.trailing;
    leading_width = h.leading_width;
    significant_width = h.significant_width;
    word = h.word;
    fits = h.fits;
    stands = h.stands;
  }

  -- What the zeros of a block become.
  abbrev pub block_of : Context → ℕ → Context
  block_of c x =
      if same_block t c x
      then c
      else record c { leading = leading_zeros t x; trailing = trailing_zeros t x }

  pub next_same :
      (c : Context) (v : ℕ)
      → (difference t c v == 0) ≡ true
      → next t c v ≡ record c { previous = v }
  unfolding next
  next_same c v same = rw same refl

  pub next_changed :
      (c : Context) (v : ℕ)
      → (difference t c v == 0) ≡ false
      → next t c v ≡ record (block_of c (difference t c v)) { previous = v }
  unfolding next
  next_changed c v differs = elim (Bool-cases (same_block t c (difference t c v))) [
    | inl within ↦ rw (differs, within) refl
    | inr outside ↦ rw (differs, outside) refl
  ]

  same_value :
      (v : ℕ) (e : GorillaEncoder) (c : Context) (l : List Bool)
      → Encodes bits width e c l
      → Encodes bits width
          (record e { writer = write_bit false e.writer; previous_value = v })
          (record c { previous = v })
          (l ++ (false ∷ []))
  same_value v e c l h = record {
    started = h.started;
    previous = refl;
    leading = h.leading;
    trailing = h.trailing;
    leading_width = h.leading_width;
    significant_width = h.significant_width;
    word = h.word;
    fits = h.fits;
    stands = write_bit-Stands false e.writer l h.stands;
  }

  encode_xor-Encodes :
      (x : ℕ) (e : GorillaEncoder) (c : Context) (l : List Bool)
      → 0 < x
      → x < 2 ^ t
      → bits ≤ leading_zeros t x + trailing_zeros t x + 57
      → Encodes bits width e c l
      → Encodes bits width (encode_xor t x e) (block_of c x) (l ++ changed_bits t bits width c x)
  unfolding encode_xor changed_bits
  encode_xor-Encodes x e c l pos small narrow h = elim (Bool-cases (same_block t c x)) [
    | inl within ↦
        (let lead : c.leading ≤ leading_zeros t x = ground arith in
          rw (same_test within, within) (reuse_block-Encodes x e c l small lead h))
    | inr outside ↦ rw (same_test outside, outside) (new_block-Encodes x e c l pos small narrow h)
  ]
    where
      same_test :
          {b : Bool}
          → same_block t c x ≡ b
          → (leb e.previous_leading (leading_zeros t x)
              && leb e.previous_trailing (trailing_zeros t x))
            ≡ b
      same_test same = rw (h.leading, h.trailing) same

  -- One further value.
  pub encode_value_generic-Encodes :
      (v : ℕ) (e : GorillaEncoder) (c : Context) (l : List Bool)
      → IsNarrow t bits (difference t c v)
      → Encodes bits width e c l
      → Encodes bits width
          (encode_value_generic t v e)
          (next t c v)
          (l ++ value_code t bits width c v)
  unfolding value_code
  encode_value_generic-Encodes v e c l narrow h =
      let x = difference t c v in
      let small = mod_two_pow-lt (bit_xor c.previous v) t in
      let xor : bit_xor e.previous_value v % 2 ^ t ≡ x = rw h.previous refl in
      elim (Bool-cases (x == 0)) [
        | inl same ↦
            rw (generic_same t v e x h.started xor same, same, next_same c v same)
              (same_value v e c l h)
        | inr differs ↦
            (let pos : 0 < x = ground arith in
              rw (generic_changed t v e x h.started xor differs, differs, next_changed c v differs)
                (with_previous v _ _ _
                  (encode_xor-Encodes x e c l pos small (room x differs narrow) h)))
      ]
    where
      room :
          (x : ℕ)
          → (x == 0) ≡ false
          → IsNarrow t bits x
          → bits ≤ leading_zeros t x + trailing_zeros t x + 57
      room x differs (inl same) = absurd (ground arith)
      room x differs (inr some_room) = some_room

  pub next-previous : (c : Context) (v : ℕ) → (next t c v).previous ≡ v
  unfolding next
  next-previous c v = ground arith

  pub next-BlockFits :
      (c : Context) (v : ℕ)
      → IsNarrow t bits (difference t c v)
      → BlockFits bits c
      → BlockFits bits (next t c v)
  next-BlockFits c v narrow fits = elim (Bool-cases (difference t c v == 0)) [
    | inl same ↦ rw (next_same c v same) fits
    | inr differs ↦
        rw (next_changed c v differs) (elim (Bool-cases (same_block t c (difference t c v))) [
          | inl within ↦ rw within fits
          | inr outside ↦
              rw outside (inr (found (difference t c v) differs (mod_two_pow-lt _ t) narrow))
        ])
  ]
    where
      found :
          (x : ℕ)
          → (x == 0) ≡ false
          → x < 2 ^ t
          → IsNarrow t bits x
          → (leading_zeros t x + trailing_zeros t x < bits)
            × (bits ≤ leading_zeros t x + trailing_zeros t x + 57)
      found x differs small (inl same) = absurd (ground arith)
      found x differs small (inr room) =
          (omega (arith, zeros-lt t x (ground arith) small, y.value_fits), room)

  -- Further values, one call for each.
  pub encode_rest :
      (vs : List ℕ) (e : GorillaEncoder) (c : Context) (l : List Bool) (out : List ℕ)
      → Narrow t bits c.previous vs
      → Encodes bits width e c l
      → (e' : GorillaEncoder) × (c' : Context) × (for_each (encode_bits t) vs (e, out)
          ≡ (ok tt, (e', out)))
        × Encodes bits width e' c' (l ++ code t bits width c vs)
  unfolding for_each encode_bits code Narrow
  encode_rest [] e c l out narrow h = (e, c, refl, rw append-nil h)
  encode_rest (v ∷ vs) e c l out (narrow, rest) h =
      let step = encode_value_generic-Encodes v e c l narrow h in
      let (e', c', ran, h') =
        encode_rest vs (encode_value_generic t v e) (next t c v) _ out
          (rw (← next-previous c v) at rest) step in
      (e', c', ran, rw append_assoc at h')
