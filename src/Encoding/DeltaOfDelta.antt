-- ===== src/Encoding/DeltaOfDelta.antt =====
-- encoding/delta_of_delta.rs: second differences, packed by Simple8b. The encoder creates its
-- Simple8b for Int64, the decoder for the data type that it is given.
pub mod RoundTrip
pub mod Types
mod Tests
use timbre_tsf.Prelude.{
  ℕ, ◌+◌, ◌%◌, ◌^◌, Bool, true, false, ◌||◌, List, [], ◌∷◌, ◌++◌, length, ltb, ◌==◌, if◌then◌else◌,
}
use timbre_tsf.Words.{u32, wrapping_add, wrapping_sub, sign_extend}
use timbre_tsf.Exec.{
  Exec, ok, err, pure, throw, modify, encoding_error, decoding_error, on_second, continue, ◌>>=◌,
  ◌>>◌,
}
use timbre_tsf.Bytes.{LittleEndian, read_at}
use timbre_tsf.Common.Types.{TsDataType}
use timbre_tsf.Encoding.{Value, Kind}
use timbre_tsf.Encoding.Simple8b
use timbre_tsf.Encoding.Simple8b.{Simple8bEncoder, Simple8bDecoder}

pub record DeltaOfDeltaEncoder : Type 0 where
  pub previous_value : ℕ
  pub previous_delta : ℕ
  pub simple8b : Simple8bEncoder
  pub count : ℕ

pub record DeltaOfDeltaDecoder : Type 0 where
  pub previous_value : ℕ
  pub previous_delta : ℕ
  pub simple8b : Simple8bDecoder
  pub count : ℕ

abbrev pub new_encoder : DeltaOfDeltaEncoder
new_encoder = record {
  previous_value = 0;
  previous_delta = 0;
  simple8b = Simple8b.new_encoder TsDataType.int64;
  count = 0;
}

abbrev pub new_decoder : TsDataType → DeltaOfDeltaDecoder
new_decoder t = record {
  previous_value = 0;
  previous_delta = 0;
  simple8b = Simple8b.new_decoder t;
  count = 0;
}

-- The number in the answer of `read_i64`.
abbrev pub as_i64 : Value → ℕ
as_i64 (Value.i64 v) = v
as_i64 _ = 0

-- An action of the inner encoder or decoder.
abbrev on_encoder :
    {A : Type 0} → Exec (Simple8bEncoder × List ℕ) A → Exec (DeltaOfDeltaEncoder × List ℕ) A
on_encoder m (e, out) =
    let (r, (s, out')) = m (e.simple8b, out) in (r, (record e { simple8b = s }, out'))

abbrev on_decoder : {A : Type 0} → Exec (Simple8bDecoder × ℕ) A → Exec (DeltaOfDeltaDecoder × ℕ) A
on_decoder m (d, pos) =
    let (r, (s, pos')) = m (d.simple8b, pos) in (r, (record d { simple8b = s }, pos'))

-- The third value and each after it: only Simple8b takes the second difference.
pub encode_later : ℕ → Exec (DeltaOfDeltaEncoder × List ℕ) (Unit {0})
encode_later value (e, out) =
    let delta = wrapping_sub 64 value e.previous_value in
    let delta_of_delta = wrapping_sub 64 delta e.previous_delta in
    continue (on_encoder (Simple8b.encode (Value.i64 delta_of_delta)) (e, out)) λ _.
      modify (λ (e', out'). (
        record e' {
          previous_delta = delta;
          previous_value = value;
          count = wrapping_add 32 e'.count 1;
        },
        out',
      ))

-- The value that the second difference gives, and the state after it.
apply_delta : ℕ → Exec (DeltaOfDeltaDecoder × ℕ) ℕ
apply_delta delta_of_delta (d, pos) =
    let delta = wrapping_add 64 d.previous_delta delta_of_delta in
    let value = wrapping_add 64 d.previous_value delta in
    (
      ok value,
      (
        record d {
          previous_delta = delta;
          previous_value = value;
          count = wrapping_add 32 d.count 1;
        },
        pos,
      ),
    )

pub decode_later : List ℕ → Exec (DeltaOfDeltaDecoder × ℕ) ℕ
unfolding apply_delta
decode_later input = do
  delta_of_delta ← on_decoder (Simple8b.read Kind.i64 input)
  apply_delta (as_i64 delta_of_delta)

pub reset : DeltaOfDeltaEncoder → DeltaOfDeltaEncoder
reset e = record {
  previous_value = 0;
  previous_delta = 0;
  simple8b = Simple8b.new_encoder TsDataType.int64;
  count = 0;
}

module _ (bo : LittleEndian) where
  pub encode_value : ℕ → Exec (DeltaOfDeltaEncoder × List ℕ) (Unit {0})
  unfolding encode_later
  encode_value value (e, out) =
      let delta = wrapping_sub 64 value e.previous_value in
      if e.count == 0
      then (ok tt, (record e { previous_value = value; count = 1 }, out ++ bo.write 8 value))
      else if e.count == 1
      then (
        ok tt,
        (
          record e { previous_delta = delta; previous_value = value; count = 2 },
          out ++ bo.write 8 delta,
        ),
      )
      else encode_later value (e, out)

  pub encode : Value → Exec (DeltaOfDeltaEncoder × List ℕ) (Unit {0})
  unfolding encode_value
  encode (Value.bool b) = throw (encoding_error "DELTA_OF_DELTA not supported for boolean")
  encode (Value.i32 v) = encode_value (sign_extend v)
  encode (Value.i64 v) = encode_value v
  encode (Value.f32 v) = encode_value v
  encode (Value.f64 v) = encode_value v
  encode (Value.string s) = throw (encoding_error "DELTA_OF_DELTA not supported for strings")

  pub flush : Exec (DeltaOfDeltaEncoder × List ℕ) (Unit {0})
  flush = on_encoder (Simple8b.flush bo)

  pub decode_value : List ℕ → Exec (DeltaOfDeltaDecoder × ℕ) ℕ
  unfolding decode_later
  decode_value input (d, pos) =
      if d.count == 0
      then (continue (on_second (read_at bo 8 input) (d, pos))
          λ value (d', pos'). (ok value, (record d' { previous_value = value; count = 1 }, pos')))
      else if d.count == 1
      then (continue (on_second (read_at bo 8 input) (d, pos)) λ delta (d', pos').
          let value = wrapping_add 64 d'.previous_value delta in
          (
            ok value,
            (record d' { previous_delta = delta; previous_value = value; count = 2 }, pos'),
          ))
      else decode_later input (d, pos)

  pub read : Kind → List ℕ → Exec (DeltaOfDeltaDecoder × ℕ) Value
  unfolding decode_value
  read Kind.bool input = throw (decoding_error "DELTA_OF_DELTA not supported for boolean")
  read Kind.i32 input = do v ← decode_value input; pure (Value.i32 (u32 v))
  read Kind.i64 input = do v ← decode_value input; pure (Value.i64 v)
  read Kind.f32 input = do v ← decode_value input; pure (Value.f32 (u32 v))
  read Kind.f64 input = do v ← decode_value input; pure (Value.f64 v)
  read Kind.string input = throw (decoding_error "DELTA_OF_DELTA not supported for strings")

pub has_remaining : DeltaOfDeltaDecoder → List ℕ → ℕ → Bool
has_remaining d input pos = ltb pos (length input) || Simple8b.has_pending_values d.simple8b
