-- ===== src/Encoding/Zigzag.antt =====
-- encoding/zigzag.rs: integers by the zigzag map and a variable-length form. The encoder keeps
-- its bytes until `flush`; the decoder takes a whole block at its first read.
pub mod RoundTrip
mod Tests
use timbre_tsf.Prelude.{
  ℕ, ◌+◌, ◌%◌, ◌^◌, Bool, true, false, not, List, [], ◌∷◌, ◌++◌, length, take, drop, ltb, leb,
  if◌then◌else◌, ◌==◌,
}
use timbre_tsf.Words.{u32, wrapping_add}
use timbre_tsf.Words.Zigzag.{zigzag32, zigzag64, unzigzag32, unzigzag64}
use timbre_tsf.Exec.{
  Exec, TimbreError, ok, err, pure, throw, gets, modify, ensure, on_first, on_second,
  encoding_error, decoding_error, ◌>>=◌, ◌>>◌,
}
use timbre_tsf.Varint.{push_varint, read_u32, read_word}
use timbre_tsf.Encoding.{Value, Kind}

pub record ZigzagEncoder : Type 0 where
  pub encoded_bytes : List ℕ
  pub value_count : ℕ

pub record ZigzagDecoder : Type 0 where
  pub decoded_bytes : List ℕ
  pub position : ℕ
  pub value_count : ℕ
  pub values_read : ℕ

abbrev pub new_encoder : ZigzagEncoder
new_encoder = record { encoded_bytes = []; value_count = 0 }

abbrev pub new_decoder : ZigzagDecoder
new_decoder = record { decoded_bytes = []; position = 0; value_count = 0; values_read = 0 }

pub encode_i32_value : ℕ → Exec (ZigzagEncoder × List ℕ) (Unit {0})
encode_i32_value value (e, out) = (
  ok tt,
  (
    record {
      encoded_bytes = push_varint (zigzag32 value) e.encoded_bytes;
      value_count = wrapping_add 32 e.value_count 1;
    },
    out,
  ),
)

pub encode_i64_value : ℕ → Exec (ZigzagEncoder × List ℕ) (Unit {0})
encode_i64_value value (e, out) = (
  ok tt,
  (
    record {
      encoded_bytes = push_varint (zigzag64 value) e.encoded_bytes;
      value_count = wrapping_add 32 e.value_count 1;
    },
    out,
  ),
)

pub encode : Value → Exec (ZigzagEncoder × List ℕ) (Unit {0})
encode (Value.bool b) = throw (encoding_error "Zigzag encoding not supported for booleans")
encode (Value.i32 v) = encode_i32_value v
encode (Value.i64 v) = encode_i64_value v
encode (Value.f32 v) = throw (encoding_error "Zigzag encoding not supported for floats")
encode (Value.f64 v) = throw (encoding_error "Zigzag encoding not supported for doubles")
encode (Value.string s) = throw (encoding_error "Zigzag encoding not supported for strings")

pub write_varuint : ℕ → List ℕ → List ℕ
write_varuint value out = push_varint value out

pub flush : Exec (ZigzagEncoder × List ℕ) (Unit {0})
unfolding write_varuint
flush (e, out) =
    let sized = write_varuint (u32 (length e.encoded_bytes)) out in
    let counted = write_varuint e.value_count sized in
    (ok tt, (record { encoded_bytes = []; value_count = 0 }, counted ++ e.encoded_bytes))

abbrev pub short_header : TimbreError
short_header = decoding_error "Unexpected end of input reading varuint"

abbrev pub large_header : TimbreError
large_header = decoding_error "Varuint too large"

abbrev pub short_block : TimbreError
short_block = decoding_error "Unexpected end of decoded bytes"

pub read_varuint : List ℕ → Exec ℕ ℕ
read_varuint = read_u32 short_header large_header

-- `self.decoded_bytes.is_empty()`
abbrev pub is_empty : List ℕ → Bool
is_empty [] = true
is_empty (b ∷ bytes) = false

-- Reads the header and copies the block that it announces.
pub load : List ℕ → Exec (ZigzagDecoder × ℕ) (Unit {0})
unfolding read_varuint
load input = do
  encoded_length ← on_second (read_varuint input)
  count ← on_second (read_varuint input)
  modify (λ (d, pos). (record d { value_count = count }, pos))
  pos ← gets (λ (d, pos). pos)
  ensure (leb (pos + encoded_length) (length input))
      (decoding_error "Not enough data for zigzag encoded values")
  modify (λ (d, pos). (
    record d {
      decoded_bytes = d.decoded_bytes ++ take encoded_length (drop pos input);
      position = 0;
      values_read = 0;
    },
    pos + encoded_length,
  ))

pub init : List ℕ → Exec (ZigzagDecoder × ℕ) (Unit {0})
unfolding load
init input (d, pos) =
    if not (is_empty d.decoded_bytes) then (ok tt, (d, pos)) else load input (d, pos)

-- One number from the block. The position moves also where it ends in an error.
pub read_block : ℕ → Exec ZigzagDecoder ℕ
read_block w d =
    let (r, position') = read_word w short_block d.decoded_bytes d.position in
    (r, record d { position = position' })

pub decode_i32 : Exec ZigzagDecoder ℕ
unfolding read_block
decode_i32 = do
  more ← gets (λ d. ltb d.values_read d.value_count)
  ensure more (decoding_error "No more values to decode")
  result ← read_block 32
  modify (λ d. record d { values_read = wrapping_add 32 d.values_read 1 })
  pure (unzigzag32 result)

pub decode_i64 : Exec ZigzagDecoder ℕ
unfolding read_block
decode_i64 = do
  more ← gets (λ d. ltb d.values_read d.value_count)
  ensure more (decoding_error "No more values to decode")
  result ← read_block 64
  modify (λ d. record d { values_read = wrapping_add 32 d.values_read 1 })
  pure (unzigzag64 result)

pub read : Kind → List ℕ → Exec (ZigzagDecoder × ℕ) Value
unfolding init decode_i32 decode_i64
read Kind.bool input = throw (decoding_error "Zigzag decoding not supported for booleans")
read Kind.i32 input = do init input; v ← on_first decode_i32; pure (Value.i32 v)
read Kind.i64 input = do init input; v ← on_first decode_i64; pure (Value.i64 v)
read Kind.f32 input = throw (decoding_error "Zigzag decoding not supported for floats")
read Kind.f64 input = throw (decoding_error "Zigzag decoding not supported for doubles")
read Kind.string input = throw (decoding_error "Zigzag decoding not supported for strings")

pub has_remaining : ZigzagDecoder → Bool
has_remaining d = ltb d.values_read d.value_count
