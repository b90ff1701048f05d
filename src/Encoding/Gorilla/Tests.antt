-- ===== src/Encoding/Gorilla/Tests.antt =====
-- gorilla.rs at concrete values.
use timbre_tsf.Prelude.{◌≡◌, refl, arith, List, [], ◌∷◌, ◌++◌, ◌≤◌, inl, inr, length, ℕ}
use timbre_tsf.Exec.{ok, err, unexpected_eof, for_each, ◌>>◌}
use timbre_tsf.Bytes.BigEndian.{to_be_bytes, from_be_bytes}
use timbre_tsf.Words.Zeros.{leading_zeros, trailing_zeros}
use timbre_tsf.Encoding.BitStream.Writer.{put, spill, drain, write_bits, write_bit, flush_bits}
use timbre_tsf.Encoding.BitStream.Reader.{
  fetch, refilled, extract, refill_until, refill_buffer, read_bits, read_bit,
}
use timbre_tsf.Common.Types.{TsDataType}
use timbre_tsf.Encoding.Gorilla.{
  GorillaEncoder, GorillaDecoder, encode_bits, encode_value_generic, encode_xor, new_block,
  reuse_block, widths, read_batch, decode_into, decode_value, decode_first, decode_next,
  decode_changed, read_block, read_xor, new_encoder, new_decoder, encode_f32_batch,
  encode_f64_batch, flush, read_f32_batch, read_f64_batch,
}
use timbre_tsf.Encoding.Gorilla.Code.{Narrow, AllNarrow}
use timbre_tsf.Encoding.Gorilla.Sequence.{Decoded}
use timbre_tsf.Encoding.Gorilla.RoundTrip.{
  read_f32_batch-encode_f32_batch, read_f64_batch-encode_f64_batch, encode_f64_batch-size,
  has_remaining-until_last,
}

-- 22.5, 22.5 and 22.75 as f32.
abbrev temperatures : List ℕ
temperatures = 0x41b40000 ∷ 0x41b40000 ∷ 0x41b60000 ∷ []

-- 1.0, 2.0 and 2.0 as f64.
abbrev doubles : List ℕ
doubles = 0x3ff0000000000000 ∷ 0x4000000000000000 ∷ 0x4000000000000000 ∷ []

doubles_room : AllNarrow 64 64 doubles
unfolding Narrow leading_zeros trailing_zeros
doubles_room = (inr (omega arith), (inl refl, tt))

-- 1.0 and -1.0000000000000002 differ in the first and in the last bit: six bits are lost where the
-- second is written, and the read ends in an error.
abbrev far_doubles : List ℕ
far_doubles = 0x3ff0000000000000 ∷ 0xbff0000000000001 ∷ []

abbrev written : List ℕ → List ℕ
written values = ((encode_f64_batch values >> flush) (new_encoder TsDataType.double, [])).1.1

far_doubles_lost :
    (read_f64_batch (written far_doubles) 2 (new_decoder TsDataType.double, 0, [])).0
    ≡ err unexpected_eof
unfolding encode_f64_batch encode_bits encode_value_generic encode_xor new_block reuse_block flush
    for_each flush_bits write_bits write_bit put spill drain to_be_bytes new_encoder widths
    leading_zeros trailing_zeros read_f64_batch read_batch decode_into decode_value decode_first
    decode_next decode_changed read_block read_xor read_bits read_bit refill_until refill_buffer
    refilled fetch extract from_be_bytes new_decoder
far_doubles_lost = refl

read_f32_batch-encode_f32_batch_example :
    (e : GorillaEncoder) × (bytes : List ℕ) × (d : GorillaDecoder) × ((encode_f32_batch temperatures
          >> flush)
        (new_encoder TsDataType.float, 9 ∷ [])
      ≡ (ok tt, (e, (9 ∷ []) ++ bytes)))
    × (read_f32_batch (bytes ++ (7 ∷ [])) 3 (new_decoder TsDataType.float, 0, [])
        ≡ (ok tt, (d, d.reader.byte_pos, temperatures)))
read_f32_batch-encode_f32_batch_example =
    read_f32_batch-encode_f32_batch temperatures (7 ∷ []) (9 ∷ []) [] 0 (omega arith) (omega arith)

read_f64_batch-encode_f64_batch_example :
    (e : GorillaEncoder) × (bytes : List ℕ) × (d : GorillaDecoder) × ((encode_f64_batch doubles
          >> flush)
        (new_encoder TsDataType.double, [])
      ≡ (ok tt, (e, bytes)))
    × (read_f64_batch (bytes ++ (7 ∷ [])) 3 (new_decoder TsDataType.double, 0, [])
        ≡ (ok tt, (d, d.reader.byte_pos, doubles)))
read_f64_batch-encode_f64_batch_example =
    read_f64_batch-encode_f64_batch doubles (7 ∷ []) [] [] 0 (omega arith) doubles_room
      (omega arith)

encode_f64_batch-size_example :
    (e : GorillaEncoder) × (bytes : List ℕ) × ((encode_f64_batch doubles >> flush)
        (new_encoder TsDataType.double, [])
      ≡ (ok tt, (e, bytes)))
    × (length bytes ≤ 27)
encode_f64_batch-size_example = encode_f64_batch-size doubles [] (omega arith) doubles_room

has_remaining-until_last_example :
    (e : GorillaEncoder) × (bytes : List ℕ) × (d : GorillaDecoder) × ((encode_f32_batch temperatures
          >> flush)
        (new_encoder TsDataType.float, [])
      ≡ (ok tt, (e, bytes)))
    × Decoded (bytes ++ (7 ∷ [])) temperatures (new_decoder TsDataType.float) d
has_remaining-until_last_example =
    has_remaining-until_last temperatures (7 ∷ []) [] (omega arith) (omega arith)
