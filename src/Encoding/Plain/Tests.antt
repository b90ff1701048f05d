-- ===== src/Encoding/Plain/Tests.antt =====
-- Concrete values, and the theorems at them.
use timbre_tsf.Prelude.{
  ℕ, ◌+◌, ◌-◌, ◌^◌, ◌<◌, ◌≡◌, refl, arith, true, List, [], ◌∷◌, ◌++◌, map, leb, All, length,
  if◌then◌else◌,
}
use timbre_tsf.Exec.{ok, err, panic, unexpected_eof, decoding_error, for_each, traverse}
use timbre_tsf.Bytes.{le_std, to_le_bytes, from_le_bytes, At-start}
use timbre_tsf.Bytes.Slice.{slice}
use timbre_tsf.Bytes.Utf8.{is_utf8}
use timbre_tsf.Bytes.Strings.{take_string}
use timbre_tsf.Encoding.{Value, Kind, kind_of}
use timbre_tsf.Encoding.Plain.{write_value, encode, read, read_fixed, read_string}
use timbre_tsf.Encoding.Plain.RoundTrip.{Fits, encoded, plain_round_trip, read_string_negative}

abbrev ab : List ℕ
ab = 97 ∷ 98 ∷ []

ab-is_utf8 : is_utf8 ab ≡ true
unfolding is_utf8
ab-is_utf8 = refl

abbrev mixed : List Value
mixed = Value.bool true ∷ Value.string ab ∷ Value.i32 258 ∷ []

written : encoded le_std mixed ≡ 1 ∷ 2 ∷ 0 ∷ 0 ∷ 0 ∷ 97 ∷ 98 ∷ 2 ∷ 1 ∷ 0 ∷ 0 ∷ []
unfolding encoded write_value le_std to_le_bytes
written = refl

not_a_string :
    read le_std Kind.string (1 ∷ 0 ∷ 0 ∷ 0 ∷ 255 ∷ []) 0 ≡ (err (decoding_error "utf8"), 4)
unfolding read read_string read_fixed take_string slice is_utf8 le_std from_le_bytes
not_a_string = refl

cut_short : read le_std Kind.i64 (1 ∷ 0 ∷ []) 0 ≡ (err unexpected_eof, 0)
unfolding read read_fixed
cut_short = refl

plain_round_trip_example :
    (for_each (encode le_std) mixed [] ≡ (ok tt, [] ++ encoded le_std mixed))
    × (traverse (λ k. read le_std k (encoded le_std mixed ++ 9 ∷ [])) (map kind_of mixed) 0
        ≡ (ok mixed, 0 + length (encoded le_std mixed)))
plain_round_trip_example =
    plain_round_trip le_std mixed [] (encoded le_std mixed ++ 9 ∷ []) 0 (9 ∷ []) fits short
      (At-start _)
  where
    fits : All Fits mixed
    fits = (tt, ((omega arith, ab-is_utf8), (omega arith, tt)))

    short : length (encoded le_std mixed ++ 9 ∷ []) < 2 ^ 63
    short = rw written (omega arith)

short_length : length (le_std.write 4 4294967295 ++ []) < 2 ^ 63
unfolding le_std to_le_bytes
short_length = omega arith

-- A length of -1.
read_string_negative_example :
    read_string le_std (le_std.write 4 4294967295 ++ []) 0
    ≡ (if leb (2 ^ 32 - 4294967295) (0 + 4) then (panic, 0 + 4) else (err unexpected_eof, 0 + 4))
read_string_negative_example =
    read_string_negative le_std 4294967295 (le_std.write 4 4294967295 ++ []) 0 [] (omega arith)
      (omega arith) short_length (At-start _)
