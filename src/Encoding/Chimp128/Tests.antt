-- ===== src/Encoding/Chimp128/Tests.antt =====
-- chimp128.rs at concrete values.
use timbre_tsf.Prelude.{◌≡◌, refl, arith, List, [], ◌∷◌, ◌++◌, inl, inr, ℕ}
use timbre_tsf.Words.Zeros.{leading_zeros, trailing_zeros}
use timbre_tsf.Bytes.BigEndian.{to_be_bytes, from_be_bytes}
use timbre_tsf.Exec.{ok, for_each, ◌>>◌}
use timbre_tsf.Common.Types.{TsDataType, data_type_to_u8}
use timbre_tsf.Encoding.BitStream.Writer
use timbre_tsf.Encoding.BitStream.Writer.{
  BitWriter, empty_writer, put, drain, spill, write_bit, flush_bits,
}
use timbre_tsf.Encoding.BitStream.Reader.{
  fetch, refilled, extract, refill_until, refill_buffer, read_bits, read_bit,
}
use timbre_tsf.Encoding.Gorilla.Code.{Narrow, AllNarrow}
use timbre_tsf.Encoding.Chimp128.Encoder.{
  Chimp128Encoder, new_encoder, encode_f32_batch, encode_f64_batch, encode_bits,
  encode_bits_generic, encode_xor, new_range, close_range, same_range, write_bits, drain_then,
  expect, flush, finish,
}
use timbre_tsf.Encoding.Chimp128.Decoder.{
  Chimp128Decoder, new_decoder, read_f32_batch, read_f64_batch, read_batch, decode_into,
  decode_bits, decode_first, decode_next, decode_changed, decode_same, read_xor, read_third,
  read_new, read_close, read_close_bits, read_same,
}
use timbre_tsf.Encoding.Chimp128.Writing.{write_bits-same}
use timbre_tsf.Encoding.Chimp128.RoundTrip.{chimp_f32_round_trip, chimp_f64_round_trip}

-- 22.5, 22.5 and 22.75 as f32.
abbrev temperatures : List ℕ
temperatures = 0x41b40000 ∷ 0x41b40000 ∷ 0x41b60000 ∷ []

-- 1.0, 2.0 and 2.0 as f64.
abbrev doubles : List ℕ
doubles = 0x3ff0000000000000 ∷ 0x4000000000000000 ∷ 0x4000000000000000 ∷ []

doubles_room : AllNarrow 64 64 doubles
unfolding Narrow leading_zeros trailing_zeros
doubles_room = (inr (omega arith), (inl refl, tt))

abbrev written : List ℕ → List ℕ
written values = ((encode_f64_batch values >> flush) (new_encoder TsDataType.double, [])).1.1

-- 1.0 and -1.0000000000000002 differ in 64 significant bits, a number that six bits do not hold:
-- 1.0 is read twice, without an error.
abbrev far_doubles : List ℕ
far_doubles = 0x3ff0000000000000 ∷ 0xbff0000000000001 ∷ []

far_doubles_lost :
    (read_f64_batch (written far_doubles) 2 (new_decoder TsDataType.double, 0, [])).1.2
    ≡ 0x3ff0000000000000 ∷ 0x3ff0000000000000 ∷ []
unfolding data_type_to_u8 expect encode_f64_batch encode_bits encode_bits_generic encode_xor
    new_range close_range same_range flush finish for_each flush_bits write_bits write_bit
    drain_then put drain to_be_bytes new_encoder leading_zeros trailing_zeros read_f64_batch
    read_batch decode_into decode_bits decode_first decode_next decode_changed decode_same read_xor
    read_third read_new read_close read_close_bits read_same read_bits read_bit refill_until
    refill_buffer refilled fetch extract from_be_bytes new_decoder
far_doubles_lost = refl

write_bits-same_example : write_bits 21 5 empty_writer ≡ Writer.write_bits 21 5 empty_writer
write_bits-same_example = write_bits-same 21 5 empty_writer

chimp_f32_round_trip_example :
    (e : Chimp128Encoder) × (bytes : List ℕ) × (d : Chimp128Decoder) × ((encode_f32_batch
            temperatures
          >> flush)
        (new_encoder TsDataType.float, 9 ∷ [])
      ≡ (ok tt, (e, (9 ∷ []) ++ bytes)))
    × (read_f32_batch (bytes ++ (7 ∷ [])) 3 (new_decoder TsDataType.float, 0, [])
        ≡ (ok tt, (d, d.reader.byte_pos, temperatures)))
chimp_f32_round_trip_example =
    chimp_f32_round_trip temperatures (7 ∷ []) (9 ∷ []) [] 0 (omega arith) (omega arith)
      (omega arith)

chimp_f64_round_trip_example :
    (e : Chimp128Encoder) × (bytes : List ℕ) × (d : Chimp128Decoder) × ((encode_f64_batch doubles
          >> flush)
        (new_encoder TsDataType.double, [])
      ≡ (ok tt, (e, bytes)))
    × (read_f64_batch (bytes ++ (7 ∷ [])) 3 (new_decoder TsDataType.double, 0, [])
        ≡ (ok tt, (d, d.reader.byte_pos, doubles)))
chimp_f64_round_trip_example =
    chimp_f64_round_trip doubles (7 ∷ []) [] [] 0 (omega arith) (omega arith) doubles_room
      (omega arith)
