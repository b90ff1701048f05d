-- ===== src/Encoding/Chimp128/Encoder.antt =====
-- The encoder of encoding/chimp128.rs. Its three fields of bits are the record of the bit writer.
use timbre_tsf.Prelude.{
  ℕ, ◌+◌, ◌-◌, ◌*◌, ◌%◌, ◌^◌, true, false, ◌&&◌, List, [], ◌++◌, length, bit_xor, ltb, leb, ◌==◌,
  if◌then◌else◌,
}
use timbre_tsf.Words.{shr, u8, wrapping_sub, wrapping_add}
use timbre_tsf.Words.Zeros.{leading_zeros, trailing_zeros}
use timbre_tsf.Exec.{
  Exec, TimbreError, ok, throw, gets, ensure, for_each, encoding_error, ◌>>=◌, ◌>>◌,
}
use timbre_tsf.Bytes.BigEndian.{to_be_bytes}
use timbre_tsf.Common.Types.{TsDataType, same_type}
use timbre_tsf.Encoding.{Value}
use timbre_tsf.Encoding.BitStream.Writer.{
  BitWriter, empty_writer, put, drain, write_bit, flush_bits,
}

pub record Chimp128Encoder : Type 0 where
  pub data_type : TsDataType
  pub prev_value : ℕ
  pub prev_leading : ℕ
  pub prev_trailing : ℕ
  pub count : ℕ
  pub writer : BitWriter
  pub bit_width : ℕ

abbrev pub width_of : TsDataType → ℕ
width_of TsDataType.float = 32
width_of TsDataType.double = 64
width_of t = 64

unfoldable pub new_encoder : TsDataType → Chimp128Encoder
new_encoder t = record {
  data_type = t;
  prev_value = 0;
  prev_leading = 255;
  prev_trailing = 0;
  count = 0;
  writer = empty_writer;
  bit_width = width_of t;
}

-- One of the optimized writes of `write_bits`: after it, less than eight bits end the method.
unfoldable pub drain_then : ℕ → (BitWriter → BitWriter) → BitWriter → BitWriter
drain_then n go_on w =
    let drained = drain n w in
    if leb (8 * n) w.bits_in_buffer
    then (if ltb drained.bits_in_buffer 8 then drained else go_on drained)
    else go_on w

unfoldable pub write_bits : ℕ → ℕ → BitWriter → BitWriter
write_bits value num_bits w =
    let filled = put value num_bits w in
    if num_bits == 0
    then w
    else if leb 64 filled.bits_in_buffer
    then record {
      buffer = filled.buffer ++ to_be_bytes 8 filled.bit_buffer;
      bit_buffer = 0;
      bits_in_buffer = 0;
    }
    else drain_then 4 (drain_then 2 (drain 1)) filled

-- Case 2, "same range". The fields are u8.
unfoldable pub same_range : ℕ → Chimp128Encoder → Chimp128Encoder
same_range xor e =
    let length = wrapping_sub 8 (wrapping_sub 8 e.bit_width e.prev_leading) e.prev_trailing in
    record e {
      writer =
          write_bits (shr xor e.prev_trailing) length (write_bit false (write_bit true e.writer));
    }

-- Case 3, "close range". Where it is taken, `leading` is at most one from `prev_leading`, so that
-- no other difference reaches `unreachable!()`.
unfoldable pub close_range : ℕ → ℕ → Chimp128Encoder → Chimp128Encoder
close_range xor leading e =
    let delta_bits =
      if leading + 1 == e.prev_leading then 0 else if leading == e.prev_leading then 1 else 2 in
    let case3_bits = wrapping_sub 32 (wrapping_sub 32 e.bit_width leading) e.prev_trailing in
    let marked = write_bit false (write_bit true (write_bit true e.writer)) in
    record e {
      writer =
          write_bits (shr xor e.prev_trailing) (u8 case3_bits) (write_bits delta_bits 2 marked);
      prev_leading = u8 leading;
    }

-- Case 4, "new range".
unfoldable pub new_range : ℕ → ℕ → ℕ → Chimp128Encoder → Chimp128Encoder
new_range xor leading trailing e =
    let significant_bits = wrapping_sub 32 (wrapping_sub 32 e.bit_width leading) trailing in
    let marked = write_bit true (write_bit true (write_bit true e.writer)) in
    let sized = write_bits significant_bits 6 (write_bits leading 6 marked) in
    record e {
      writer = write_bits (shr xor trailing) (u8 significant_bits) sized;
      prev_leading = u8 leading;
      prev_trailing = u8 trailing;
    }

unfoldable pub encode_xor : ℕ → ℕ → Chimp128Encoder → Chimp128Encoder
encode_xor t xor e =
    let leading = leading_zeros t xor in
    let trailing = trailing_zeros t xor in
    if leb e.prev_leading leading && leb e.prev_trailing trailing
    then same_range xor e
    else if (trailing == e.prev_trailing)
        && (leb (e.prev_leading - 1) leading && leb leading (e.prev_leading + 1))
    then close_range xor leading e
    else new_range xor leading trailing e

-- `count` is a usize of 64 bits.
unfoldable pub encode_bits_generic : ℕ → ℕ → Chimp128Encoder → Chimp128Encoder
encode_bits_generic t bits e =
    let xor = bit_xor bits e.prev_value % 2 ^ t in
    if e.count == 0
    then record e { writer = write_bits bits e.bit_width e.writer; prev_value = bits; count = 1 }
    else if xor == 0
    then record e {
      writer = write_bit false e.writer;
      prev_value = bits;
      count = wrapping_add 64 e.count 1;
    }
    else record (encode_xor t xor e) { prev_value = bits; count = wrapping_add 64 e.count 1 }

unfoldable pub reset : Chimp128Encoder → Chimp128Encoder
reset e = record e {
  prev_value = 0;
  prev_leading = 255;
  prev_trailing = 0;
  count = 0;
  writer = empty_writer;
}

unfoldable pub encode_bits : ℕ → ℕ → Exec (Chimp128Encoder × List ℕ) (Unit {0})
encode_bits t bits (e, out) = (ok tt, (encode_bits_generic t bits e, out))

-- `self.data_type != expected` returns an error.
unfoldable pub expect : TsDataType → TimbreError → Exec (Chimp128Encoder × List ℕ) (Unit {0})
expect t error = do same ← gets (λ (e, out). same_type e.data_type t); ensure same error

unfoldable pub encode : Value → Exec (Chimp128Encoder × List ℕ) (Unit {0})
encode (Value.bool b) = throw (encoding_error "Chimp128 does not support boolean")
encode (Value.i32 v) = throw (encoding_error "Chimp128 does not support i32")
encode (Value.i64 v) = throw (encoding_error "Chimp128 does not support i64")
encode (Value.f32 v) = do
  expect TsDataType.float (encoding_error "Chimp128: wrong data type for f32")
  encode_bits 32 v
encode (Value.f64 v) = do
  expect TsDataType.double (encoding_error "Chimp128: wrong data type for f64")
  encode_bits 64 v
encode (Value.string s) = throw (encoding_error "Chimp128 does not support string")

unfoldable pub encode_f32_batch : List ℕ → Exec (Chimp128Encoder × List ℕ) (Unit {0})
encode_f32_batch values = do
  expect TsDataType.float (encoding_error "Chimp128: wrong data type for f32 batch")
  for_each (encode_bits 32) values

unfoldable pub encode_f64_batch : List ℕ → Exec (Chimp128Encoder × List ℕ) (Unit {0})
encode_f64_batch values = do
  expect TsDataType.double (encoding_error "Chimp128: wrong data type for f64 batch")
  for_each (encode_bits 64) values

-- `finish`: the bytes, which leave the encoder.
unfoldable pub finish : Chimp128Encoder → List ℕ × Chimp128Encoder
finish e = let w = flush_bits e.writer in (w.buffer, record e { writer = record w { buffer = [] } })

unfoldable pub flush : Exec (Chimp128Encoder × List ℕ) (Unit {0})
flush (e, out) = let (bytes, e') = finish e in (ok tt, (e', out ++ bytes))

unfoldable pub buffered_size : Chimp128Encoder → ℕ
buffered_size e =
    let partial_byte = if ltb 0 e.writer.bits_in_buffer then 1 else 0 in
    length e.writer.buffer + partial_byte
