-- ===== src/Encoding/Gorilla/Sequence.antt =====
-- Whole sequences in gorilla.rs: what the encoder leaves in its output, and what the decoder reads
-- from such bytes.
use timbre_tsf.Prelude.{
  ℕ, ◌^◌, ◌<◌, ◌≡◌, refl, ap₂, ◌∙◌, arith, Bool, true, List, [], ◌∷◌, ◌++◌, ◌==◌, inl, inr,
  Bool-cases, append_assoc, some, All, length, length-append,
}
use timbre_tsf.Exec.{Result, ok, ◌>>◌, for_each, panic, unexpected_eof}
use timbre_tsf.Words.{IsByte}
use timbre_tsf.Words.Bits.{two_pow_pos}
use timbre_tsf.Words.Shifts.{two_pow_mono}
use timbre_tsf.Encoding.BitStream.{bits_of, stream, length-bits_of}
use timbre_tsf.Encoding.BitStream.Writer.{BitWriter, empty_writer, flush_bits}
use timbre_tsf.Encoding.BitStream.Writer.Appends.{
  Stands, write_bits-Stands, flush_bits-Flushed, empty_writer-Stands,
}
use timbre_tsf.Encoding.BitStream.Reader.{new_reader, read_bits}
use timbre_tsf.Encoding.BitStream.Reader.Follows.{
  Follows, Follows-length, read_bits-Follows, start-Follows,
}
use timbre_tsf.Encoding.Gorilla.{
  GorillaEncoder, GorillaDecoder, no_zeros, is_none, has_remaining, encode_value_generic,
  encode_bits, flush, decode_value, decode_first,
}
use timbre_tsf.Encoding.Gorilla.Code.{
  Context, same_block, value_code, changed_bits, new_bits, next, code, Narrow, AllNarrow,
  difference,
}
use timbre_tsf.Encoding.Gorilla.Written.{
  Layout, BlockFits, Encodes, encode_rest, next-previous, next-BlockFits,
}
use timbre_tsf.Encoding.Gorilla.Read.{Decodes, decode_value-Decodes}

-- The context behind a first value.
abbrev pub start : ℕ → Context
start v = record { previous = v; leading = no_zeros; trailing = 0 }

-- An encoder and a decoder before their first value.
pub record FreshEncoder (bits width : ℕ) (e : GorillaEncoder) : Type 0 where
  pub first : is_none e.first_value ≡ true
  pub leading : e.previous_leading ≡ no_zeros
  pub trailing : e.previous_trailing ≡ 0
  pub leading_width : e.leading_bits_width ≡ width
  pub significant_width : e.significant_bits_width ≡ width
  pub word : e.value_bits ≡ bits
  pub empty : e.writer ≡ empty_writer

pub record FreshDecoder (bits width : ℕ) (d : GorillaDecoder) : Type 0 where
  pub first : is_none d.first_value ≡ true
  pub leading : d.previous_leading ≡ no_zeros
  pub trailing : d.previous_trailing ≡ 0
  pub leading_width : d.leading_bits_width ≡ width
  pub significant_width : d.significant_bits_width ≡ width
  pub word : d.value_bits ≡ bits
  pub unread : d.reader ≡ new_reader

module _ (t bits width : ℕ) (y : Layout t bits width) where
  -- All the bits of a sequence.
  unfoldable pub whole : List ℕ → List Bool
  unfolding code
  whole [] = []
  whole (v ∷ vs) = bits_of bits v ++ code t bits width (start v) vs

  encode_first :
      (v : ℕ) (e : GorillaEncoder)
      → v < 2 ^ t
      → FreshEncoder bits width e
      → Encodes bits width (encode_value_generic t v e) (start v) (bits_of bits v)
  unfolding encode_value_generic
  encode_first v e small h = rw h.first (record {
    started = refl;
    previous = refl;
    leading = h.leading;
    trailing = h.trailing;
    leading_width = h.leading_width;
    significant_width = h.significant_width;
    word = h.word;
    fits = inl refl;
    stands =
        rw (h.empty, h.word)
          (write_bits-Stands v bits empty_writer []
            (omega (arith, two_pow_mono t bits y.value_fits)) (omega (arith, y.word_fits))
            empty_writer-Stands);
  })

  -- What a flush leaves.
  pub record Written (vs out : List ℕ) (q : Result (Unit {0}) × (GorillaEncoder × List ℕ))
      : Type 0 where
    pub after : GorillaEncoder
    pub bytes : List ℕ
    pub pad : ℕ
    pub ran : q ≡ (ok tt, (after, out ++ bytes))
    pub are_bytes : All IsByte bytes
    pub pad_small : pad < 8
    pub bits_are : stream bytes ≡ whole vs ++ bits_of pad 0
    pub emptied : after.writer ≡ empty_writer

  flush-Written :
      (vs : List ℕ) (e : GorillaEncoder) (out : List ℕ)
      → Stands e.writer (whole vs)
      → Written vs out (flush (e, out))
  unfolding flush
  flush-Written vs e out s =
      let f = flush_bits-Flushed e.writer (whole vs) s in
      record {
        after = record e { writer = record (flush_bits e.writer) { buffer = [] } };
        bytes = (flush_bits e.writer).buffer;
        pad = f.pad;
        ran = refl;
        are_bytes = f.bytes;
        pad_small = f.pad_small;
        bits_are = f.bits;
        emptied = cleared (flush_bits e.writer) f.word_clear f.none_wait;
      }
    where
      cleared :
          (w : BitWriter)
          → w.bit_buffer ≡ 0
          → w.bits_in_buffer ≡ 0
          → record w { buffer = [] } ≡ empty_writer
      cleared w word none_wait =
          ap₂ (λ (a b : ℕ). record { buffer = []; bit_buffer = a; bits_in_buffer = b }) word
            none_wait

  -- One call for each value and then a flush write the bits of the sequence, in whole bytes.
  pub encode_then_flush :
      (vs out : List ℕ) (e : GorillaEncoder)
      → All (λ v. v < 2 ^ t) vs
      → AllNarrow t bits vs
      → FreshEncoder bits width e
      → Written vs out ((for_each (encode_bits t) vs >> flush) (e, out))
  unfolding for_each encode_bits whole
  encode_then_flush [] out e small narrow h =
      flush-Written [] e out (rw h.empty empty_writer-Stands)
  encode_then_flush (v ∷ vs) out e (small, _) narrow h =
      let first = encode_first v e small h in
      let (e', c', ran, h') =
        encode_rest t bits width y vs (encode_value_generic t v e) (start v) _ out narrow first in
      rw ran (flush-Written (v ∷ vs) e' out h'.stands)

-- Values that a decoder gives one after the other, with more announced before each.
unfoldable pub Decoded : List ℕ → List ℕ → GorillaDecoder → GorillaDecoder → Type 0
Decoded input [] d d' = d ≡ d'
Decoded input (v ∷ vs) d d' =
    (has_remaining d input ≡ true)
    × ((d1 : GorillaDecoder) × (decode_value input d ≡ (ok v, d1)) × Decoded input vs d1 d')

has_remaining-Follows :
    (input : List ℕ) (d : GorillaDecoder) (l : List Bool)
    → 0 < length l
    → Follows input d.reader l
    → has_remaining d input ≡ true
unfolding has_remaining
has_remaining-Follows input d l some_left f = ground (arith, Follows-length input d.reader l f)

module _ (t bits width : ℕ) (y : Layout t bits width) (input : List ℕ)
    (bytes : All IsByte input) where
  value_code-nonempty :
      (c : Context) (v : ℕ) (rest : List Bool) → 0 < length (value_code t bits width c v ++ rest)
  unfolding value_code changed_bits new_bits
  value_code-nonempty c v rest = elim (Bool-cases (difference t c v == 0)) [
    | inl same ↦ rw same (omega arith)
    | inr differs ↦ elim (Bool-cases (same_block t c (difference t c v))) [
      | inl within ↦ rw (differs, within) (omega arith)
      | inr outside ↦ rw (differs, outside) (omega arith)
    ]
  ]

  decode_rest :
      (vs : List ℕ) (d : GorillaDecoder) (c : Context) (rest : List Bool)
      → c.previous < 2 ^ t
      → All (λ v. v < 2 ^ t) vs
      → Narrow t bits c.previous vs
      → BlockFits bits c
      → Decodes input bits width d c (code t bits width c vs ++ rest)
      → (d' : GorillaDecoder) × Decoded input vs d d'
  unfolding code Narrow Decoded
  decode_rest [] d c rest small all_small narrow fits h = (d, refl)
  decode_rest (v ∷ vs) d c rest small (hv, hvs) (narrow, later) fits h =
      let before = next-previous t bits width y c v in
      let rest' = code t bits width (next t c v) vs ++ rest in
      let h1 = rw append_assoc at h in
      let (d1, ran, h2) =
        decode_value-Decodes t bits width y input bytes v d c rest' small hv narrow fits h1 in
      let (d', later_ones) =
        decode_rest vs d1 (next t c v) rest (rw before hv) hvs (rw before later)
          (next-BlockFits t bits width y c v narrow fits) h2 in
      let more = has_remaining-Follows input d _ (value_code-nonempty c v rest') h1.follows in
      (d', (more, (d1, ran, later_ones)))

  decode_first_step :
      (v : ℕ) (d : GorillaDecoder) (rest : List Bool)
      → v < 2 ^ t
      → FreshDecoder bits width d
      → stream input ≡ bits_of bits v ++ rest
      → (has_remaining d input ≡ true)
        × ((d1 : GorillaDecoder) × (decode_value input d ≡ (ok v, d1))
            × Decodes input bits width d1 (start v) rest)
  unfolding decode_value decode_first
  decode_first_step v d rest small h same =
      let f : Follows input new_reader (bits_of bits v ++ rest) =
        rw same at (start-Follows input) in
      let room : v < 2 ^ bits = omega (arith, two_pow_mono t bits y.value_fits) in
      let (r, ran, f') =
        read_bits-Follows unexpected_eof panic input bits v new_reader rest bytes
          (omega (arith, y.word_fits)) room f in
      let ran' : read_bits unexpected_eof panic input d.value_bits d.reader ≡ (ok v, r) =
        rw (h.word, h.unread) ran in
      let some_bits : 0 < length (bits_of bits v ++ rest) = omega (
        arith,
        length-append (bits_of bits v) rest,
        length-bits_of bits v,
        y.counts,
        two_pow_pos width,
      ) in
      (
        has_remaining-Follows input d _ some_bits (rw h.unread f),
        (
          record d { reader = r; first_value = some v; previous_value = v },
          rw (h.first, ran') refl,
          record {
            started = refl;
            previous = refl;
            leading = h.leading;
            trailing = h.trailing;
            leading_width = h.leading_width;
            significant_width = h.significant_width;
            word = h.word;
            follows = f';
          },
        ),
      )

  -- A new decoder gives the values whose bits begin the input.
  pub decode_whole :
      (vs : List ℕ) (d : GorillaDecoder) (rest : List Bool)
      → All (λ v. v < 2 ^ t) vs
      → AllNarrow t bits vs
      → FreshDecoder bits width d
      → stream input ≡ whole t bits width y vs ++ rest
      → (d' : GorillaDecoder) × Decoded input vs d d'
  unfolding whole Decoded
  decode_whole [] d rest small narrow h same = (d, refl)
  decode_whole (v ∷ vs) d rest (hv, hvs) narrow h same =
      let (more, (d1, ran, h1)) =
        decode_first_step v d (code t bits width (start v) vs ++ rest) hv h
          (same ∙ append_assoc _ _ rest) in
      let (d', later) = decode_rest vs d1 (start v) rest hv hvs narrow (inl refl) h1 in
      (d', (more, (d1, ran, later)))
