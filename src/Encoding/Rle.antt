-- ===== src/Encoding/Rle.antt =====
-- encoding/rle.rs: run-length encoding of integers and booleans. The state of a call is the
-- encoder and the output vector, or the decoder and the position in the input.
pub mod Runs
pub mod RoundTrip
mod Tests
use timbre_tsf.Prelude.{
  ℕ, ◌+◌, ◌-◌, ◌<◌, ◌^◌, ◌%◌, Bool, true, false, not, ◌||◌, Option, none, some, List, [], ◌∷◌, ◌++◌,
  ltb, leb, length, ◌==◌, if◌then◌else◌,
}
use timbre_tsf.Words.{u32, wrapping_add, wrapping_sub, sign_extend, slt}
use timbre_tsf.Exec.{
  Result, Exec, ok, err, panic, pure, throw, encoding_error, decoding_error, unexpected_eof, ◌>>=◌,
  ◌>>◌, on_second, ensure, modify, lift, gets, abort,
}
use timbre_tsf.Bytes.{LittleEndian, read_at}
use timbre_tsf.Encoding.{Value, Kind}

pub record RleEncoder : Type 0 where
  pub previous_value : Option ℕ
  pub run_length : ℕ

pub record RleDecoder : Type 0 where
  pub current_value : Option ℕ
  pub remaining : ℕ

abbrev pub new_encoder : RleEncoder
new_encoder = record { previous_value = none; run_length = 0 }

abbrev pub new_decoder : RleDecoder
new_decoder = record { current_value = none; remaining = 0 }

-- A boolean as an integer, and a comparison with zero.
abbrev pub bit : Bool → ℕ
bit true = 1
bit false = 0

-- `current_value.unwrap()`
unwrap : {S : Type 0} → Option ℕ → Exec S ℕ
unwrap none = abort
unwrap (some v) = pure v

module _ (bo : LittleEndian) where
  -- One run as it stands in the output: the value and the count.
  pub write_run : ℕ → ℕ → List ℕ
  write_run value count = bo.write 8 value ++ bo.write 4 count

  pub encode_value : ℕ → Exec (RleEncoder × List ℕ) (Unit {0})
  unfolding write_run
  encode_value value (e, out) = elim e.previous_value [
    | none ↦ (ok tt, (record { previous_value = some value; run_length = 1 }, out))
    | some prev ↦
        if prev == value
        then (ok tt, (record e { run_length = wrapping_add 32 e.run_length 1 }, out))
        else (
          ok tt,
          (
            record { previous_value = some value; run_length = 1 },
            out ++ write_run prev e.run_length,
          ),
        )
  ]

  pub encode : Value → Exec (RleEncoder × List ℕ) (Unit {0})
  unfolding encode_value
  encode (Value.bool b) = encode_value (bit b)
  encode (Value.i32 v) = encode_value (sign_extend v)
  encode (Value.i64 v) = encode_value v
  encode (Value.f32 v) = throw (encoding_error "RLE not recommended for floats")
  encode (Value.f64 v) = throw (encoding_error "RLE not recommended for doubles")
  encode (Value.string s) = throw (encoding_error "RLE not supported for strings")

  pub flush : Exec (RleEncoder × List ℕ) (Unit {0})
  unfolding write_run
  flush (e, out) = elim e.previous_value [
    | none ↦ (ok tt, (e, out))
    | some value ↦ (
      ok tt,
      (record { previous_value = none; run_length = 0 }, out ++ write_run value e.run_length),
    )
  ]

  -- Reads the next pair of value and count.
  pub read_run : List ℕ → Exec (RleDecoder × ℕ) ℕ
  read_run input = do
    value ← on_second (read_at bo 8 input)
    count ← on_second (read_at bo 4 input)
    λ (d, pos). (
      ok value,
      (record { current_value = some value; remaining = wrapping_sub 32 count 1 }, pos),
    )

  pub decode_value : List ℕ → Exec (RleDecoder × ℕ) ℕ
  unfolding read_run unwrap
  decode_value input (d, pos) =
      if slt 32 0 d.remaining
      then unwrap d.current_value (record d { remaining = wrapping_sub 32 d.remaining 1 }, pos)
      else if ltb (length input) (pos + 12)
      then (err unexpected_eof, (d, pos))
      else read_run input (d, pos)

  pub read : Kind → List ℕ → Exec (RleDecoder × ℕ) Value
  unfolding decode_value
  read Kind.bool input = do v ← decode_value input; pure (Value.bool (not (v == 0)))
  read Kind.i32 input = do v ← decode_value input; pure (Value.i32 (u32 v))
  read Kind.i64 input = do v ← decode_value input; pure (Value.i64 v)
  read Kind.f32 input = throw (decoding_error "RLE not recommended for floats")
  read Kind.f64 input = throw (decoding_error "RLE not recommended for doubles")
  read Kind.string input = throw (decoding_error "RLE not supported for strings")

pub has_remaining : RleDecoder → List ℕ → ℕ → Bool
has_remaining d input pos = slt 32 0 d.remaining || ltb pos (length input)
