-- ===== src/Encoding/Gorilla/RoundTrip.antt =====
-- `read_f32_batch`, `read_f64_batch` and `read` of gorilla.rs give back what was encoded.
use timbre_tsf.Prelude.{
  ℕ, ◌*◌, ◌^◌, ◌<◌, ◌≤◌, ◌≡◌, refl, sym, ap, ap₂, ◌∙◌, arith, Bool, List, [], ◌∷◌, ◌++◌, inr, All,
  All-append, length, append_assoc, append-nil,
}
use timbre_tsf.Words.{u32, IsByte, IsU32, IsU64}
use timbre_tsf.Exec.{ok, for_each, ◌>>◌}
use timbre_tsf.Common.Types.{TsDataType}
use timbre_tsf.Encoding.BitStream.{bits_of, stream, stream-append}
use timbre_tsf.Encoding.Gorilla.{
  GorillaEncoder, GorillaDecoder, new_encoder, new_decoder, widths, encode_bits, encode_f32_batch,
  encode_f64_batch, flush, decode_into, read_batch, read_f32_batch, read_f64_batch,
}
use timbre_tsf.Encoding.Gorilla.Code.{Narrow, AllNarrow}
use timbre_tsf.Encoding.Gorilla.Written.{Layout}
use timbre_tsf.Encoding.Gorilla.Sequence.{
  FreshEncoder, FreshDecoder, whole, encode_then_flush, Decoded, decode_whole,
}
use timbre_tsf.Encoding.Gorilla.Size.{bytes_bounded}

unfoldable pub layout32 : Layout 32 32 5
layout32 = record {
  value_fits = omega arith;
  word_fits = omega arith;
  counts = refl;
  width_fits = omega arith;
}

unfoldable pub layout64 : Layout 64 64 6
layout64 = record {
  value_fits = omega arith;
  word_fits = omega arith;
  counts = refl;
  width_fits = omega arith;
}

-- A block of 32 bits always has room.
room_after : (p : ℕ) (vs : List ℕ) → Narrow 32 32 p vs
unfolding Narrow
room_after p [] = tt
room_after p (v ∷ vs) = (inr (omega arith), room_after v vs)

pub room32 : (vs : List ℕ) → AllNarrow 32 32 vs
room32 [] = tt
room32 (v ∷ vs) = room_after v vs

fresh_float_encoder : FreshEncoder 32 5 (new_encoder TsDataType.float)
unfolding new_encoder widths
fresh_float_encoder = record {
  first = refl;
  leading = refl;
  trailing = refl;
  leading_width = refl;
  significant_width = refl;
  word = refl;
  empty = refl;
}

fresh_float_decoder : FreshDecoder 32 5 (new_decoder TsDataType.float)
unfolding new_decoder widths
fresh_float_decoder = record {
  first = refl;
  leading = refl;
  trailing = refl;
  leading_width = refl;
  significant_width = refl;
  word = refl;
  unread = refl;
}

fresh_double_encoder : FreshEncoder 64 6 (new_encoder TsDataType.double)
unfolding new_encoder widths
fresh_double_encoder = record {
  first = refl;
  leading = refl;
  trailing = refl;
  leading_width = refl;
  significant_width = refl;
  word = refl;
  empty = refl;
}

fresh_double_decoder : FreshDecoder 64 6 (new_decoder TsDataType.double)
unfolding new_decoder widths
fresh_double_decoder = record {
  first = refl;
  leading = refl;
  trailing = refl;
  leading_width = refl;
  significant_width = refl;
  word = refl;
  unread = refl;
}

-- A batch pushes the values that the decoder gives.
decode_into-Decoded :
    (narrow : ℕ → ℕ) (input vs output : List ℕ) (d d' : GorillaDecoder)
    → All (λ v. narrow v ≡ v) vs
    → Decoded input vs d d'
    → decode_into narrow input (length vs) (d, output) ≡ (ok tt, (d', output ++ vs))
unfolding decode_into Decoded
decode_into-Decoded narrow input [] output d d' same e =
    ap₂ (λ (x : GorillaDecoder) (l : List ℕ). (ok tt, (x, l))) e (sym (append-nil output))
decode_into-Decoded narrow input (v ∷ vs) output d d' (same, rest) (more, (d1, ran, later)) =
    rw (ran, same)
      (decode_into-Decoded narrow input vs (output ++ (v ∷ [])) d1 d' rest later
        ∙ rw append_assoc refl)

-- Encoding and decoding at fitting widths.
module _ (t bits width : ℕ) (y : Layout t bits width) (vs rest out : List ℕ) (e : GorillaEncoder)
    (d : GorillaDecoder) where
  read_back :
      All (λ v. v < 2 ^ t) vs
      → AllNarrow t bits vs
      → All IsByte rest
      → FreshEncoder bits width e
      → FreshDecoder bits width d
      → (e' : GorillaEncoder) × (bytes : List ℕ) × (d' : GorillaDecoder) × ((for_each
                (encode_bits t)
                vs
              >> flush)
            (e, out)
          ≡ (ok tt, (e', out ++ bytes)))
        × (length bytes ≤ 9 * length vs)
        × Decoded (bytes ++ rest) vs d d'
  read_back small narrow rest_bytes fe fd =
      let w = encode_then_flush t bits width y vs out e small narrow fe in
      let all_bytes = All-append IsByte w.bytes rest w.are_bytes rest_bytes in
      let coming : stream (w.bytes ++ rest)
          ≡ whole t bits width y vs ++ (bits_of w.pad 0 ++ stream rest) =
        stream-append w.bytes rest
        ∙ ap (λ (l : List Bool). l ++ stream rest) w.bits_are
        ∙ append_assoc (whole t bits width y vs) (bits_of w.pad 0) (stream rest) in
      let (d', decoded) =
        decode_whole t bits width y (w.bytes ++ rest) all_bytes vs d _ small narrow fd coming in
      (
        w.after,
        w.bytes,
        d',
        w.ran,
        bytes_bounded t bits width y vs w.bytes w.pad narrow w.pad_small w.bits_are,
        decoded,
      )

-- The u64 that a float of 32 bits was decoded to is its own bits.
pub u32_each : (vs : List ℕ) → All IsU32 vs → All (λ v. u32 v ≡ v) vs
u32_each [] h = tt
u32_each (v ∷ vs) (hv, h) = (omega arith, u32_each vs h)

pub each_same : (vs : List ℕ) → All (λ v. v ≡ v) vs
each_same [] = tt
each_same (v ∷ vs) = (refl, each_same vs)

-- Any floats encoded by a new encoder of `Float` in one batch and flushed are given back in order
-- by one batch read of a new decoder, whatever bytes follow; the position is the decoder's.
pub read_f32_batch-encode_f32_batch :
    (values rest out output : List ℕ) (pos : ℕ)
    → All IsU32 values
    → All IsByte rest
    → (e : GorillaEncoder) × (bytes : List ℕ) × (d : GorillaDecoder) × ((encode_f32_batch values
            >> flush)
          (new_encoder TsDataType.float, out)
        ≡ (ok tt, (e, out ++ bytes)))
      × (read_f32_batch (bytes ++ rest) (length values) (new_decoder TsDataType.float, pos, output)
          ≡ (ok tt, (d, d.reader.byte_pos, output ++ values)))
unfolding encode_f32_batch read_f32_batch read_batch
read_f32_batch-encode_f32_batch values rest out output pos small rest_bytes =
    let (e, bytes, d, ran, size, decoded) =
      read_back 32 32 5 layout32 values rest out (new_encoder TsDataType.float)
        (new_decoder TsDataType.float) small (room32 values) rest_bytes fresh_float_encoder
        fresh_float_decoder in
    (
      e,
      bytes,
      d,
      ran,
      rw
          (decode_into-Decoded u32 (bytes ++ rest) values output (new_decoder TsDataType.float) d
            (u32_each values small) decoded)
          refl,
    )

-- The same holds for doubles where each differs from the one before it in a block that has room:
-- at most 57 bits from the first to the last bit that differ.
pub read_f64_batch-encode_f64_batch :
    (values rest out output : List ℕ) (pos : ℕ)
    → All IsU64 values
    → AllNarrow 64 64 values
    → All IsByte rest
    → (e : GorillaEncoder) × (bytes : List ℕ) × (d : GorillaDecoder) × ((encode_f64_batch values
            >> flush)
          (new_encoder TsDataType.double, out)
        ≡ (ok tt, (e, out ++ bytes)))
      × (read_f64_batch (bytes ++ rest) (length values) (new_decoder TsDataType.double, pos, output)
          ≡ (ok tt, (d, d.reader.byte_pos, output ++ values)))
unfolding encode_f64_batch read_f64_batch read_batch
read_f64_batch-encode_f64_batch values rest out output pos small narrow rest_bytes =
    let (e, bytes, d, ran, size, decoded) =
      read_back 64 64 6 layout64 values rest out (new_encoder TsDataType.double)
        (new_decoder TsDataType.double) small narrow rest_bytes fresh_double_encoder
        fresh_double_decoder in
    (
      e,
      bytes,
      d,
      ran,
      rw
          (decode_into-Decoded (λ v. v) (bytes ++ rest) values output
            (new_decoder TsDataType.double) d (each_same values) decoded)
          refl,
    )

-- Such doubles take at most nine bytes each.
pub encode_f64_batch-size :
    (values out : List ℕ)
    → All IsU64 values
    → AllNarrow 64 64 values
    → (e : GorillaEncoder) × (bytes : List ℕ) × ((encode_f64_batch values >> flush)
          (new_encoder TsDataType.double, out)
        ≡ (ok tt, (e, out ++ bytes)))
      × (length bytes ≤ 9 * length values)
unfolding encode_f64_batch
encode_f64_batch-size values out small narrow =
    let (e, bytes, d, ran, size, decoded) =
      read_back 64 64 6 layout64 values [] out (new_encoder TsDataType.double)
        (new_decoder TsDataType.double) small narrow tt fresh_double_encoder fresh_double_decoder in
    (e, bytes, ran, size)

-- Of the bytes of encoded floats, whatever follows them, a new decoder gives the values one by one,
-- and before each of them it answers that more remain.
pub has_remaining-until_last :
    (values rest out : List ℕ)
    → All IsU32 values
    → All IsByte rest
    → (e : GorillaEncoder) × (bytes : List ℕ) × (d : GorillaDecoder) × ((encode_f32_batch values
            >> flush)
          (new_encoder TsDataType.float, out)
        ≡ (ok tt, (e, out ++ bytes)))
      × Decoded (bytes ++ rest) values (new_decoder TsDataType.float) d
unfolding encode_f32_batch
has_remaining-until_last values rest out small rest_bytes =
    let (e, bytes, d, ran, size, decoded) =
      read_back 32 32 5 layout32 values rest out (new_encoder TsDataType.float)
        (new_decoder TsDataType.float) small (room32 values) rest_bytes fresh_float_encoder
        fresh_float_decoder in
    (e, bytes, d, ran, decoded)
