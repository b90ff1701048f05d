-- ===== src/Encoding/Gorilla.antt =====
-- encoding/gorilla.rs: a float or integer as the exclusive or with its predecessor, of which only
-- the part between the leading and the trailing zeros is written, as bits.
-- `FloatBits` is the width of its type: 32 for u32 and 64 for u64. The fields of the bit writer and
-- of the bit reader are a record of their own in each struct.
pub mod Code
pub mod Written
pub mod Read
pub mod Sequence
pub mod Size
pub mod RoundTrip
mod Tests
use timbre_tsf.Prelude.{
  ℕ, zero, suc, ◌+◌, ◌-◌, ◌*◌, ◌/◌, ◌%◌, ◌^◌, Bool, true, false, not, ◌&&◌, ◌||◌, List, [], ◌∷◌,
  ◌++◌, length, bit_xor, ltb, leb, ◌==◌, Option, none, some, if◌then◌else◌,
}
use timbre_tsf.Words.{shl, shr, u8, u32, wrapping_sub}
use timbre_tsf.Words.Zeros.{leading_zeros, trailing_zeros}
use timbre_tsf.Exec.{
  Result, Exec, ok, err, panic, pure, throw, gets, modify, for_each, encoding_error, decoding_error,
  on_first, ◌>>=◌, ◌>>◌, unexpected_eof,
}
use timbre_tsf.Common.Types.{TsDataType}
use timbre_tsf.Encoding.{Value, Kind}
use timbre_tsf.Encoding.BitStream.Writer.{
  BitWriter, empty_writer, bit_value, write_bits, write_bit, flush_bits,
}
use timbre_tsf.Encoding.BitStream.Reader.{BitReader, new_reader, read_bits, read_bit}

pub record GorillaEncoder : Type 0 where
  pub first_value : Option ℕ
  pub previous_value : ℕ
  pub previous_leading : ℕ
  pub previous_trailing : ℕ
  pub writer : BitWriter
  pub leading_bits_width : ℕ
  pub significant_bits_width : ℕ
  pub value_bits : ℕ

-- (leading_bits_width, significant_bits_width, value_bits)
unfoldable pub widths : TsDataType → ℕ × ℕ × ℕ
widths TsDataType.float = (5, 5, 32)
widths TsDataType.double = (6, 6, 64)
widths TsDataType.int32 = (5, 5, 32)
widths TsDataType.int64 = (6, 6, 64)
widths t = (6, 6, 64)

-- `i32::MAX as u32`
abbrev pub no_zeros : ℕ
no_zeros = 2 ^ 31 - 1

unfoldable pub new_encoder : TsDataType → GorillaEncoder
new_encoder t =
    let (leading_width, significant_width, bits) = widths t in
    record {
      first_value = none;
      previous_value = 0;
      previous_leading = no_zeros;
      previous_trailing = 0;
      writer = empty_writer;
      leading_bits_width = leading_width;
      significant_bits_width = significant_width;
      value_bits = bits;
    }

-- `self.value_bits as u32 - leading - trailing`
abbrev pub significant : ℕ → ℕ → ℕ → ℕ
significant bits leading trailing = wrapping_sub 32 (wrapping_sub 32 bits leading) trailing

-- "Use previous block": the significant bits between the zeros of the block before.
pub reuse_block : ℕ → GorillaEncoder → GorillaEncoder
reuse_block xor e =
    let significant_bits = significant e.value_bits e.previous_leading e.previous_trailing in
    record e {
      writer =
          write_bits (shr xor e.previous_trailing) (u8 significant_bits)
            (write_bit false (write_bit true e.writer));
    }

-- "New block": the leading zeros, the count of the significant bits, and these.
pub new_block : ℕ → ℕ → ℕ → GorillaEncoder → GorillaEncoder
new_block xor leading trailing e =
    let significant_bits = significant e.value_bits leading trailing in
    let marked = write_bit true (write_bit true e.writer) in
    let with_leading = write_bits leading e.leading_bits_width marked in
    let with_count =
      write_bits (wrapping_sub 32 significant_bits 1) e.significant_bits_width with_leading in
    record e {
      writer = write_bits (shr xor trailing) (u8 significant_bits) with_count;
      previous_leading = leading;
      previous_trailing = trailing;
    }

-- The branch `xor.to_u64() != 0`, for an `xor` of `t` bits.
pub encode_xor : ℕ → ℕ → GorillaEncoder → GorillaEncoder
encode_xor t xor e =
    let leading = leading_zeros t xor in
    let trailing = trailing_zeros t xor in
    if leb e.previous_leading leading && leb e.previous_trailing trailing
    then reuse_block xor e
    else new_block xor leading trailing e

abbrev pub is_none : Option ℕ → Bool
is_none none = true
is_none (some v) = false

pub encode_value_generic : ℕ → ℕ → GorillaEncoder → GorillaEncoder
encode_value_generic t bits e =
    let xor = bit_xor e.previous_value bits % 2 ^ t in
    if is_none e.first_value
    then record e {
      first_value = some bits;
      previous_value = bits;
      writer = write_bits bits e.value_bits e.writer;
    }
    else if xor == 0
    then record e { writer = write_bit false e.writer; previous_value = bits }
    else record (encode_xor t xor e) { previous_value = bits }

unfoldable pub reset : GorillaEncoder → GorillaEncoder
reset e = record e {
  first_value = none;
  previous_value = 0;
  previous_leading = no_zeros;
  previous_trailing = 0;
  writer = empty_writer;
}

pub encode_bits : ℕ → ℕ → Exec (GorillaEncoder × List ℕ) (Unit {0})
encode_bits t bits (e, out) = (ok tt, (encode_value_generic t bits e, out))

pub encode : Value → Exec (GorillaEncoder × List ℕ) (Unit {0})
encode (Value.bool b) = encode_bits 64 (bit_value b)
encode (Value.i32 v) = encode_bits 32 v
encode (Value.i64 v) = encode_bits 64 v
encode (Value.f32 v) = encode_bits 32 v
encode (Value.f64 v) = encode_bits 64 v
encode (Value.string s) = throw (encoding_error "Gorilla encoding not supported for strings")

pub encode_f32_batch : List ℕ → Exec (GorillaEncoder × List ℕ) (Unit {0})
encode_f32_batch values = for_each (encode_bits 32) values

pub encode_f64_batch : List ℕ → Exec (GorillaEncoder × List ℕ) (Unit {0})
encode_f64_batch values = for_each (encode_bits 64) values

-- `out.append(&mut self.buffer)` empties the buffer.
pub flush : Exec (GorillaEncoder × List ℕ) (Unit {0})
flush (e, out) =
    let w = flush_bits e.writer in
    (ok tt, (record e { writer = record w { buffer = [] } }, out ++ w.buffer))

unfoldable pub buffered_size : GorillaEncoder → ℕ
buffered_size e =
    let partial_byte = if ltb 0 e.writer.bits_in_buffer then 1 else 0 in
    length e.writer.buffer + partial_byte

pub record GorillaDecoder : Type 0 where
  pub first_value : Option ℕ
  pub previous_value : ℕ
  pub previous_leading : ℕ
  pub previous_trailing : ℕ
  pub reader : BitReader
  pub leading_bits_width : ℕ
  pub significant_bits_width : ℕ
  pub value_bits : ℕ

unfoldable pub new_decoder : TsDataType → GorillaDecoder
new_decoder t =
    let (leading_width, significant_width, bits) = widths t in
    record {
      first_value = none;
      previous_value = 0;
      previous_leading = no_zeros;
      previous_trailing = 0;
      reader = new_reader;
      leading_bits_width = leading_width;
      significant_bits_width = significant_width;
      value_bits = bits;
    }

-- A call of the bit reader on the decoder's fields.
abbrev pub on_reader : {A : Type 0} → Exec BitReader A → Exec GorillaDecoder A
on_reader m d = let (a, r) = m d.reader in (a, record d { reader = r })

-- The number of significant bits, either the previous one or a new one that is read.
pub read_block : List ℕ → Bool → Exec GorillaDecoder ℕ
read_block input true = gets (λ d. significant d.value_bits d.previous_leading d.previous_trailing)
read_block input false = do
  leading_width ← gets (λ d. d.leading_bits_width)
  leading ← on_reader (read_bits unexpected_eof panic input leading_width)
  significant_width ← gets (λ d. d.significant_bits_width)
  stored ← on_reader (read_bits unexpected_eof panic input significant_width)
  modify (λ d. record d {
    previous_leading = u32 leading;
    previous_trailing = significant d.value_bits (u32 leading) (u32 (u32 stored + 1));
  })
  pure (u32 (u32 stored + 1))

-- A shift of a u64 takes its amount modulo 64, in the release profile.
pub read_xor : List ℕ → ℕ → Exec GorillaDecoder ℕ
read_xor input significant_bits = do
  xor_value ← on_reader (read_bits unexpected_eof panic input (u8 significant_bits))
  xor ← gets (λ d. shl 64 xor_value (d.previous_trailing % 64))
  value ← gets (λ d. bit_xor d.previous_value xor)
  modify (λ d. record d { previous_value = value })
  pure value

pub decode_first : List ℕ → Exec GorillaDecoder ℕ
decode_first input = do
  bits ← gets (λ d. d.value_bits)
  value ← on_reader (read_bits unexpected_eof panic input bits)
  modify (λ d. record d { first_value = some value; previous_value = value })
  pure value

pub decode_changed : List ℕ → Exec GorillaDecoder ℕ
decode_changed input = do
  new_block ← on_reader (read_bit unexpected_eof panic input)
  significant_bits ← read_block input (not new_block)
  read_xor input significant_bits

pub decode_next : List ℕ → Exec GorillaDecoder ℕ
decode_next input = do
  is_different ← on_reader (read_bit unexpected_eof panic input)
  if is_different then decode_changed input else gets (λ d. d.previous_value)

pub decode_value : List ℕ → Exec GorillaDecoder ℕ
decode_value input d = if is_none d.first_value then decode_first input d else decode_next input d

-- `*pos = self.byte_pos`
abbrev pub set_pos : Exec (GorillaDecoder × ℕ) (Unit {0})
set_pos (d, pos) = (ok tt, (d, d.reader.byte_pos))

pub read : Kind → List ℕ → Exec (GorillaDecoder × ℕ) Value
read Kind.bool input = do
  v ← on_first (decode_value input)
  set_pos
  pure (Value.bool (not (v == 0)))
read Kind.i32 input = do v ← on_first (decode_value input); set_pos; pure (Value.i32 (u32 v))
read Kind.i64 input = do v ← on_first (decode_value input); set_pos; pure (Value.i64 v)
read Kind.f32 input = do v ← on_first (decode_value input); set_pos; pure (Value.f32 (u32 v))
read Kind.f64 input = do v ← on_first (decode_value input); set_pos; pure (Value.f64 v)
read Kind.string input = throw (decoding_error "Gorilla decoding not supported for strings")

-- `output.push` of `count` values; `narrow` is the conversion of each. What was pushed before an
-- error stays in `output`.
pub decode_into : (ℕ → ℕ) → List ℕ → ℕ → Exec (GorillaDecoder × List ℕ) (Unit {0})
decode_into narrow input zero = pure tt
decode_into narrow input (suc count) = do
  v ← on_first (decode_value input)
  modify (λ (d, output). (d, output ++ (narrow v ∷ [])))
  decode_into narrow input count

-- The state is the decoder, the position and the output.
pub read_batch : (ℕ → ℕ) → List ℕ → ℕ → Exec (GorillaDecoder × ℕ × List ℕ) (Unit {0})
read_batch narrow input count (d, pos, output) =
    let after = decode_into narrow input count (d, output) in finish after.0 after.1
  where
    finish :
        Result (Unit {0})
        → GorillaDecoder × List ℕ
        → Result (Unit {0}) × (GorillaDecoder × ℕ × List ℕ)
    finish (ok u) (d', output') = (ok u, (d', d'.reader.byte_pos, output'))
    finish (err e) (d', output') = (err e, (d', pos, output'))
    finish panic (d', output') = (panic, (d', pos, output'))

unfoldable pub read_f32_batch : List ℕ → ℕ → Exec (GorillaDecoder × ℕ × List ℕ) (Unit {0})
read_f32_batch = read_batch u32

unfoldable pub read_f64_batch : List ℕ → ℕ → Exec (GorillaDecoder × ℕ × List ℕ) (Unit {0})
read_f64_batch = read_batch (λ v. v)

unfoldable pub has_remaining : GorillaDecoder → List ℕ → Bool
has_remaining d input = ltb d.reader.byte_pos (length input) || ltb 0 d.reader.bits_available
