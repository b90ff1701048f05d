-- ===== src/Encoding/Chimp128/Decoder.antt =====
-- The decoder of encoding/chimp128.rs. Its three fields of bits are the record of the bit reader.
use timbre_tsf.Prelude.{
  ℕ, zero, suc, ◌%◌, Bool, false, ◌||◌, List, [], ◌∷◌, ◌++◌, length, bit_xor, ltb, ◌==◌,
  if◌then◌else◌,
}
use timbre_tsf.Words.{shl, u8, u32, wrapping_sub, wrapping_add}
use timbre_tsf.Exec.{
  Result, Exec, TimbreError, ok, err, panic, pure, throw, gets, modify, ensure, decoding_error,
  on_first, ◌>>=◌, ◌>>◌,
}
use timbre_tsf.Common.Types.{TsDataType, same_type}
use timbre_tsf.Encoding.{Value, Kind}
use timbre_tsf.Encoding.BitStream.Reader.{BitReader, new_reader, read_bits, read_bit}
use timbre_tsf.Encoding.Chimp128.Encoder.{width_of}

pub record Chimp128Decoder : Type 0 where
  pub data_type : TsDataType
  pub prev_value : ℕ
  pub prev_leading : ℕ
  pub prev_trailing : ℕ
  pub count : ℕ
  pub reader : BitReader
  pub bit_width : ℕ

unfoldable pub new_decoder : TsDataType → Chimp128Decoder
new_decoder t = record {
  data_type = t;
  prev_value = 0;
  prev_leading = 255;
  prev_trailing = 0;
  count = 0;
  reader = new_reader;
  bit_width = width_of t;
}

abbrev pub at_end : TimbreError
at_end = decoding_error "Chimp128: unexpected end of data"

-- A call of the bit reader on the decoder's fields.
abbrev pub on_reader : {A : Type 0} → Exec BitReader A → Exec Chimp128Decoder A
on_reader m d = let (a, r) = m d.reader in (a, record d { reader = r })

-- `saturating_sub` where the position is behind the input: nothing is added.
abbrev pub take_bits : List ℕ → ℕ → Exec Chimp128Decoder ℕ
take_bits input n = on_reader (read_bits at_end (ok false) input n)

abbrev pub take_bit : List ℕ → Exec Chimp128Decoder Bool
take_bit input = on_reader (read_bit at_end (ok false) input)

-- A shift of a u64 takes its amount modulo 64, in the release profile.
abbrev pub shifted : ℕ → ℕ → ℕ
shifted x k = shl 64 x (k % 64)

unfoldable pub read_same : List ℕ → Exec Chimp128Decoder ℕ
read_same input = do
  length ← gets (λ d. wrapping_sub 8 (wrapping_sub 8 d.bit_width d.prev_leading) d.prev_trailing)
  xor_val ← take_bits input length
  gets (λ d. shifted xor_val d.prev_trailing)

-- The bits of case 3 with the leading zeros.
unfoldable pub read_close_bits : List ℕ → ℕ → Exec Chimp128Decoder ℕ
read_close_bits input leading = do
  significant_bits ← gets (λ d. wrapping_sub 8 (wrapping_sub 8 d.bit_width leading) d.prev_trailing)
  xor_val ← take_bits input significant_bits
  modify (λ d. record d { prev_leading = leading })
  gets (λ d. shifted xor_val d.prev_trailing)

-- `leading` as i8 and back: one less, the same or one more.
unfoldable pub read_close : List ℕ → Exec Chimp128Decoder ℕ
read_close input = do
  delta_bits ← take_bits input 2
  ensure (ltb delta_bits 3) (decoding_error "Invalid leading delta in Chimp128")
  leading ← gets (λ d.
      if delta_bits == 0
      then wrapping_sub 8 d.prev_leading 1
      else if delta_bits == 1
      then d.prev_leading
      else wrapping_add 8 d.prev_leading 1)
  read_close_bits input leading

unfoldable pub read_new : List ℕ → Exec Chimp128Decoder ℕ
read_new input = do
  leading ← take_bits input 6
  significant_bits ← take_bits input 6
  trailing ←
      gets (λ d. wrapping_sub 8 (wrapping_sub 8 d.bit_width (u8 leading)) (u8 significant_bits))
  xor_val ← take_bits input (u8 significant_bits)
  modify (λ d. record d { prev_leading = u8 leading; prev_trailing = trailing })
  pure (shifted xor_val trailing)

unfoldable pub read_third : List ℕ → Exec Chimp128Decoder ℕ
read_third input = do
  third_bit ← take_bit input
  if third_bit then read_new input else read_close input

unfoldable pub read_xor : List ℕ → Exec Chimp128Decoder ℕ
read_xor input = do
  second_bit ← take_bit input
  if second_bit then read_third input else read_same input

unfoldable pub decode_first : List ℕ → Exec Chimp128Decoder ℕ
decode_first input = do
  width ← gets (λ d. d.bit_width)
  bits ← take_bits input width
  modify (λ d. record d { prev_value = bits; count = 1 })
  pure bits

unfoldable pub decode_changed : List ℕ → Exec Chimp128Decoder ℕ
decode_changed input = do
  xor ← read_xor input
  value ← gets (λ d. bit_xor d.prev_value xor)
  modify (λ d. record d { prev_value = value; count = wrapping_add 64 d.count 1 })
  pure value

unfoldable pub decode_same : Exec Chimp128Decoder ℕ
decode_same = do
  modify (λ d. record d { count = wrapping_add 64 d.count 1 })
  gets (λ d. d.prev_value)

unfoldable pub decode_next : List ℕ → Exec Chimp128Decoder ℕ
decode_next input = do
  first_bit ← take_bit input
  if first_bit then decode_changed input else decode_same

unfoldable pub decode_bits : List ℕ → Exec Chimp128Decoder ℕ
decode_bits input d = if d.count == 0 then decode_first input d else decode_next input d

-- `*pos = self.byte_pos`
abbrev pub set_pos : Exec (Chimp128Decoder × ℕ) (Unit {0})
set_pos (d, pos) = (ok tt, (d, d.reader.byte_pos))

unfoldable pub expect : TsDataType → TimbreError → Exec Chimp128Decoder (Unit {0})
expect t error = do same ← gets (λ d. same_type d.data_type t); ensure same error

unfoldable pub read : Kind → List ℕ → Exec (Chimp128Decoder × ℕ) Value
read Kind.bool input = throw (decoding_error "Chimp128 does not support boolean")
read Kind.i32 input = throw (decoding_error "Chimp128 does not support i32")
read Kind.i64 input = throw (decoding_error "Chimp128 does not support i64")
read Kind.f32 input = do
  on_first (expect TsDataType.float (decoding_error "Chimp128: wrong data type for f32"))
  v ← on_first (decode_bits input)
  set_pos
  pure (Value.f32 (u32 v))
read Kind.f64 input = do
  on_first (expect TsDataType.double (decoding_error "Chimp128: wrong data type for f64"))
  v ← on_first (decode_bits input)
  set_pos
  pure (Value.f64 v)
read Kind.string input = throw (decoding_error "Chimp128 does not support string")

-- `output.push` of `count` values; what was pushed before an error stays in `output`.
unfoldable pub decode_into : (ℕ → ℕ) → List ℕ → ℕ → Exec (Chimp128Decoder × List ℕ) (Unit {0})
decode_into narrow input zero = pure tt
decode_into narrow input (suc count) = do
  v ← on_first (decode_bits input)
  modify (λ (d, output). (d, output ++ (narrow v ∷ [])))
  decode_into narrow input count

-- A batch of values of type `t`. The state is the decoder, the position and the output.
unfoldable pub read_batch :
    TsDataType → TimbreError → (ℕ → ℕ) → List ℕ → ℕ → Exec (Chimp128Decoder × ℕ × List ℕ) (Unit {0})
read_batch t error narrow input count (d, pos, output) =
    if same_type d.data_type t
    then (let after = decode_into narrow input count (d, output) in finish after.0 after.1)
    else (err error, (d, pos, output))
  where
    finish :
        Result (Unit {0})
        → Chimp128Decoder × List ℕ
        → Result (Unit {0}) × (Chimp128Decoder × ℕ × List ℕ)
    finish (ok u) (d', output') = (ok u, (d', d'.reader.byte_pos, output'))
    finish (err e) (d', output') = (err e, (d', pos, output'))
    finish panic (d', output') = (panic, (d', pos, output'))

unfoldable pub read_f32_batch : List ℕ → ℕ → Exec (Chimp128Decoder × ℕ × List ℕ) (Unit {0})
read_f32_batch =
    read_batch TsDataType.float (decoding_error "Chimp128: wrong data type for f32 batch") u32

unfoldable pub read_f64_batch : List ℕ → ℕ → Exec (Chimp128Decoder × ℕ × List ℕ) (Unit {0})
read_f64_batch =
    read_batch TsDataType.double (decoding_error "Chimp128: wrong data type for f64 batch") (λ v. v)

unfoldable pub has_remaining : Chimp128Decoder → List ℕ → Bool
has_remaining d input = ltb d.reader.byte_pos (length input) || ltb 0 d.reader.bits_available
