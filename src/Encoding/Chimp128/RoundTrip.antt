-- ===== src/Encoding/Chimp128/RoundTrip.antt =====
-- `read_f32_batch` and `read_f64_batch` of chimp128.rs give back what was encoded.
use timbre_tsf.Prelude.{
  ℕ, suc, ◌+◌, ◌^◌, ◌<◌, ◌≡◌, refl, sym, ap, ap₂, ◌∙◌, arith, Bool, false, List, [], ◌∷◌, ◌++◌,
  ◌==◌, inl, inr, Bool-cases, All, All-append, length, append_assoc, append-nil,
}
use timbre_tsf.Words.{u32, IsByte, IsU32, IsU64}
use timbre_tsf.Words.Zeros.{zeros-lt}
use timbre_tsf.Words.Shifts.{mod_two_pow-lt, two_pow_mono}
use timbre_tsf.Exec.{ok, for_each, ◌>>◌}
use timbre_tsf.Common.Types.{TsDataType, data_type_to_u8}
use timbre_tsf.Encoding.BitStream.{bits_of, stream, stream-append}
use timbre_tsf.Encoding.BitStream.Reader.{new_reader, read_bits}
use timbre_tsf.Encoding.BitStream.Reader.Follows.{Follows, read_bits-Follows, start-Follows}
use timbre_tsf.Encoding.Gorilla.Code.{
  Context, difference, same_block, next, IsNarrow, Narrow, AllNarrow,
}
use timbre_tsf.Encoding.Gorilla.Written.{Layout, next_same, next_changed, next-previous}
use timbre_tsf.Encoding.Gorilla.RoundTrip.{layout32, layout64, room32, u32_each, each_same}
use timbre_tsf.Encoding.Chimp128.Encoder.{
  Chimp128Encoder, new_encoder, encode_bits, encode_f32_batch, encode_f64_batch, expect, flush,
}
use timbre_tsf.Encoding.Chimp128.Decoder.{
  Chimp128Decoder, new_decoder, at_end, decode_first, decode_bits, decode_into, read_batch,
  read_f32_batch, read_f64_batch,
}
use timbre_tsf.Encoding.Chimp128.Code.{code}
use timbre_tsf.Encoding.Chimp128.Written.{BlockFits}
use timbre_tsf.Encoding.Chimp128.Values.{
  start, whole, differs_room, FreshEncoder, encode_then_flush,
}
use timbre_tsf.Encoding.Chimp128.Read.{Decodes, decode_bits-Decodes}

-- Values that a decoder gives one after the other.
unfoldable pub Decoded : List ℕ → List ℕ → Chimp128Decoder → Chimp128Decoder → Type 0
Decoded input [] d d' = d ≡ d'
Decoded input (v ∷ vs) d d' =
    (d1 : Chimp128Decoder) × (decode_bits input d ≡ (ok v, d1)) × Decoded input vs d1 d'

module _ (t bits width : ℕ) (y : Layout t bits width) where
  next-BlockFits :
      (c : Context) (v : ℕ)
      → IsNarrow t bits (difference t c v)
      → BlockFits bits c
      → BlockFits bits (next t c v)
  next-BlockFits c v narrow fits =
      let x = difference t c v in
      elim (Bool-cases (x == 0)) [
        | inl same ↦ rw (next_same t bits width y c v same) fits
        | inr differs ↦
            rw (next_changed t bits width y c v differs) (elim (Bool-cases (same_block t c x)) [
              | inl within ↦ rw within fits
              | inr outside ↦ rw outside (
                  inr (
                    omega (arith, zeros-lt t x (ground arith) (mod_two_pow-lt _ t), y.value_fits),
                    differs_room t bits x differs narrow,
                  ))
            ])
      ]

  module _ (input : List ℕ) (bytes : All IsByte input) where
    decode_rest :
        (vs : List ℕ) (n : ℕ) (d : Chimp128Decoder) (c : Context) (rest : List Bool)
        → n + length vs < 2 ^ 64
        → c.previous < 2 ^ t
        → All (λ v. v < 2 ^ t) vs
        → Narrow t bits c.previous vs
        → BlockFits bits c
        → Decodes input bits d c n (code t bits c vs ++ rest)
        → (d' : Chimp128Decoder) × Decoded input vs d d'
    unfolding code Narrow Decoded
    decode_rest [] n d c rest room small all_small narrow fits h = (d, refl)
    decode_rest (v ∷ vs) n d c rest room small (hv, hvs) (narrow, later) fits h =
        let before = next-previous t bits width y c v in
        let h1 = rw append_assoc at h in
        let (d1, ran, h2) =
          decode_bits-Decodes t bits width y input bytes v n d c
            (code t bits (next t c v) vs ++ rest) (omega arith) small hv narrow fits h1 in
        let (d', later_ones) =
          decode_rest vs (suc n) d1 (next t c v) rest (omega arith) (rw before hv) hvs
            (rw before later) (next-BlockFits c v narrow fits) h2 in
        (d', (d1, ran, later_ones))

    -- A decoder before its first value.
    record FreshDecoder (d : Chimp128Decoder) : Type 0 where
      first : d.count ≡ 0
      leading : d.prev_leading ≡ 255
      trailing : d.prev_trailing ≡ 0
      word : d.bit_width ≡ bits
      unread : d.reader ≡ new_reader

    decode_first_step :
        (v : ℕ) (d : Chimp128Decoder) (rest : List Bool)
        → v < 2 ^ t
        → FreshDecoder d
        → stream input ≡ bits_of bits v ++ rest
        → (d1 : Chimp128Decoder) × (decode_bits input d ≡ (ok v, d1))
          × Decodes input bits d1 (start v) 1 rest
    unfolding decode_bits decode_first
    decode_first_step v d rest small h same =
        let f : Follows input new_reader (bits_of bits v ++ rest) =
          rw same at (start-Follows input) in
        let room : v < 2 ^ bits = omega (arith, two_pow_mono t bits y.value_fits) in
        let (r, ran, f') =
          read_bits-Follows at_end (ok false) input bits v new_reader rest bytes
            (omega (arith, y.word_fits)) room f in
        let ran' : read_bits at_end (ok false) input d.bit_width d.reader ≡ (ok v, r) =
          rw (h.word, h.unread) ran in
        (
          record d { reader = r; prev_value = v; count = 1 },
          rw (ap (λ (n : ℕ). n == 0) h.first, ran') refl,
          record {
            counted = refl;
            some_values = omega arith;
            previous = refl;
            leading = h.leading;
            trailing = h.trailing;
            word = h.word;
            follows = f';
          },
        )

    decode_whole :
        (vs : List ℕ) (d : Chimp128Decoder) (rest : List Bool)
        → length vs < 2 ^ 64
        → All (λ v. v < 2 ^ t) vs
        → AllNarrow t bits vs
        → FreshDecoder d
        → stream input ≡ whole t bits width y vs ++ rest
        → (d' : Chimp128Decoder) × Decoded input vs d d'
    unfolding whole Decoded
    decode_whole [] d rest room small narrow h same = (d, refl)
    decode_whole (v ∷ vs) d rest room (hv, hvs) narrow h same =
        let (d1, ran, h1) =
          decode_first_step v d (code t bits (start v) vs ++ rest) hv h
            (same ∙ append_assoc _ _ rest) in
        let (d', later) =
          decode_rest vs 1 d1 (start v) rest (omega arith) hv hvs narrow (inl refl) h1 in
        (d', (d1, ran, later))

-- A batch pushes the values that the decoder gives.
decode_into-Decoded :
    (narrow : ℕ → ℕ) (input vs output : List ℕ) (d d' : Chimp128Decoder)
    → All (λ v. narrow v ≡ v) vs
    → Decoded input vs d d'
    → decode_into narrow input (length vs) (d, output) ≡ (ok tt, (d', output ++ vs))
unfolding decode_into Decoded
decode_into-Decoded narrow input [] output d d' same e =
    ap₂ (λ (x : Chimp128Decoder) (l : List ℕ). (ok tt, (x, l))) e (sym (append-nil output))
decode_into-Decoded narrow input (v ∷ vs) output d d' (same, rest) (d1, ran, later) =
    rw (ran, same)
      (decode_into-Decoded narrow input vs (output ++ (v ∷ [])) d1 d' rest later
        ∙ rw append_assoc refl)

-- Encoding and decoding at fitting widths.
module _ (t bits width : ℕ) (y : Layout t bits width) (vs rest out : List ℕ) (e : Chimp128Encoder)
    (d : Chimp128Decoder) where
  read_back :
      length vs < 2 ^ 64
      → All (λ v. v < 2 ^ t) vs
      → AllNarrow t bits vs
      → All IsByte rest
      → FreshEncoder t bits width y e
      → d.count ≡ 0
      → d.prev_leading ≡ 255
      → d.prev_trailing ≡ 0
      → d.bit_width ≡ bits
      → d.reader ≡ new_reader
      → (e' : Chimp128Encoder) × (bytes : List ℕ) × (d' : Chimp128Decoder) × ((for_each
                (encode_bits t)
                vs
              >> flush)
            (e, out)
          ≡ (ok tt, (e', out ++ bytes)))
        × Decoded (bytes ++ rest) vs d d'
  read_back room small narrow rest_bytes fe first leading trailing word unread =
      let w = encode_then_flush t bits width y vs out e room small narrow fe in
      let all_bytes = All-append IsByte w.bytes rest w.are_bytes rest_bytes in
      let coming : stream (w.bytes ++ rest)
          ≡ whole t bits width y vs ++ (bits_of w.pad 0 ++ stream rest) =
        stream-append w.bytes rest
        ∙ ap (λ (l : List Bool). l ++ stream rest) w.bits_are
        ∙ append_assoc (whole t bits width y vs) (bits_of w.pad 0) (stream rest) in
      let (d', decoded) =
        decode_whole t bits width y (w.bytes ++ rest) all_bytes vs d _ room small narrow
          (record {
            first = first;
            leading = leading;
            trailing = trailing;
            word = word;
            unread = unread;
          })
          coming in
      (w.after, w.bytes, d', w.ran, decoded)

fresh_float : FreshEncoder 32 32 5 layout32 (new_encoder TsDataType.float)
unfolding new_encoder
fresh_float = record { first = refl; leading = refl; trailing = refl; word = refl; empty = refl }

fresh_double : FreshEncoder 64 64 6 layout64 (new_encoder TsDataType.double)
unfolding new_encoder
fresh_double = record { first = refl; leading = refl; trailing = refl; word = refl; empty = refl }

-- Fewer than 2 ^ 64 floats encoded by a new Chimp128 encoder of `Float` in one batch and flushed are
-- given back in order by one batch read of a new decoder, whatever bytes follow.
pub chimp_f32_round_trip :
    (values rest out output : List ℕ) (pos : ℕ)
    → length values < 2 ^ 64
    → All IsU32 values
    → All IsByte rest
    → (e : Chimp128Encoder) × (bytes : List ℕ) × (d : Chimp128Decoder) × ((encode_f32_batch values
            >> flush)
          (new_encoder TsDataType.float, out)
        ≡ (ok tt, (e, out ++ bytes)))
      × (read_f32_batch (bytes ++ rest) (length values) (new_decoder TsDataType.float, pos, output)
          ≡ (ok tt, (d, d.reader.byte_pos, output ++ values)))
unfolding encode_f32_batch read_f32_batch read_batch new_encoder new_decoder expect data_type_to_u8
chimp_f32_round_trip values rest out output pos room small rest_bytes =
    let (e, bytes, d, ran, decoded) =
      read_back 32 32 5 layout32 values rest out (new_encoder TsDataType.float)
        (new_decoder TsDataType.float) room small (room32 values) rest_bytes fresh_float refl refl
        refl refl refl in
    (
      e,
      bytes,
      d,
      ran,
      rw
          (decode_into-Decoded u32 (bytes ++ rest) values output (new_decoder TsDataType.float) d
            (u32_each values small) decoded)
          refl,
    )

-- The same holds for doubles where each differs from the one before it in a block that has room:
-- at most 57 bits from the first to the last bit that differ.
pub chimp_f64_round_trip :
    (values rest out output : List ℕ) (pos : ℕ)
    → length values < 2 ^ 64
    → All IsU64 values
    → AllNarrow 64 64 values
    → All IsByte rest
    → (e : Chimp128Encoder) × (bytes : List ℕ) × (d : Chimp128Decoder) × ((encode_f64_batch values
            >> flush)
          (new_encoder TsDataType.double, out)
        ≡ (ok tt, (e, out ++ bytes)))
      × (read_f64_batch (bytes ++ rest) (length values) (new_decoder TsDataType.double, pos, output)
          ≡ (ok tt, (d, d.reader.byte_pos, output ++ values)))
unfolding encode_f64_batch read_f64_batch read_batch new_encoder new_decoder expect data_type_to_u8
chimp_f64_round_trip values rest out output pos room small narrow rest_bytes =
    let (e, bytes, d, ran, decoded) =
      read_back 64 64 6 layout64 values rest out (new_encoder TsDataType.double)
        (new_decoder TsDataType.double) room small narrow rest_bytes fresh_double refl refl refl
        refl refl in
    (
      e,
      bytes,
      d,
      ran,
      rw
          (decode_into-Decoded (λ v. v) (bytes ++ rest) values output
            (new_decoder TsDataType.double) d (each_same values) decoded)
          refl,
    )
