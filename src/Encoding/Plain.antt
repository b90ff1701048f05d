-- ===== src/Encoding/Plain.antt =====
-- encoding/plain.rs: every value in its native form. The encoder and the decoder have no fields, so
-- the state of a call is the output vector, or the position in the input.
pub mod RoundTrip
mod Tests
use timbre_tsf.Prelude.{
  ℕ, ◌+◌, ◌^◌, Bool, true, false, not, Option, none, some, List, [], ◌∷◌, ◌++◌, ltb, length, ◌==◌,
  get_elem?, if◌then◌else◌,
}
use timbre_tsf.Words.{u32, wrapping_add, sign_extend}
use timbre_tsf.Exec.{
  Result, Exec, ok, err, panic, io, pure, unexpected_eof, decoding_error, modify, ◌>>=◌,
}
use timbre_tsf.Bytes.{LittleEndian}
use timbre_tsf.Bytes.Slice.{slice}
use timbre_tsf.Bytes.Strings.{take_string}
use timbre_tsf.Encoding.{Value, Kind}
use timbre_tsf.Encoding.Rle.{bit}

unfoldable pub read_bool : List ℕ → Exec ℕ Bool
read_bool input pos =
    if ltb pos (length input)
    then (elim (get_elem? input pos) [
      | none ↦ (panic, pos)
      | some b ↦ (ok (not (b == 0)), pos + 1)
    ])
    else (err unexpected_eof, pos)

module _ (bo : LittleEndian) where
  unfoldable pub write_value : Value → List ℕ
  write_value (Value.bool b) = bit b ∷ []
  write_value (Value.i32 v) = bo.write 4 v
  write_value (Value.i64 v) = bo.write 8 v
  write_value (Value.f32 v) = bo.write 4 v
  write_value (Value.f64 v) = bo.write 8 v
  write_value (Value.string s) = bo.write 4 (u32 (length s)) ++ s

  unfoldable pub encode : Value → Exec (List ℕ) (Unit {0})
  encode v = modify (λ out. out ++ write_value v)

  unfoldable pub flush : Exec (List ℕ) (Unit {0})
  flush = pure tt

  -- A number of `width` bytes: the check, the cursor over the slice, and the move.
  unfoldable pub read_fixed : ℕ → List ℕ → Exec ℕ ℕ
  read_fixed width input pos =
      if ltb (length input) (wrapping_add 64 pos width)
      then (err unexpected_eof, pos)
      else elim (slice input pos (wrapping_add 64 pos width)) [
        | none ↦ (panic, pos)
        | some cursor ↦ (elim (bo.read width cursor) [
          | none ↦ (err io, pos)
          | some v ↦ (ok v, wrapping_add 64 pos width)
        ])
      ]

  unfoldable pub read_string : List ℕ → Exec ℕ (List ℕ)
  read_string input = do
    len ← read_fixed 4 input
    take_string unexpected_eof (decoding_error "utf8") input (sign_extend len)

  unfoldable pub read : Kind → List ℕ → Exec ℕ Value
  read Kind.bool input = do b ← read_bool input; pure (Value.bool b)
  read Kind.i32 input = do v ← read_fixed 4 input; pure (Value.i32 v)
  read Kind.i64 input = do v ← read_fixed 8 input; pure (Value.i64 v)
  read Kind.f32 input = do v ← read_fixed 4 input; pure (Value.f32 v)
  read Kind.f64 input = do v ← read_fixed 8 input; pure (Value.f64 v)
  read Kind.string input = do s ← read_string input; pure (Value.string s)

unfoldable pub has_remaining : List ℕ → ℕ → Bool
has_remaining input pos = ltb pos (length input)
