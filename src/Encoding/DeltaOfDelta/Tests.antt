-- ===== src/Encoding/DeltaOfDelta/Tests.antt =====
-- Concrete runs of delta_of_delta.rs, and the theorems at concrete inputs.
use timbre_tsf.Prelude.{ℕ, ◌≡◌, refl, arith, true, false, List, [], ◌∷◌, ◌++◌, All}
use timbre_tsf.Words.Zigzag.{zigzag64-nonneg, zigzag64-neg}
use timbre_tsf.Exec.{ok, reads}
use timbre_tsf.Bytes.{le_std, At-start}
use timbre_tsf.Common.Types.{TsDataType, data_type_to_u8}
use timbre_tsf.Encoding.{Value, Kind}
use timbre_tsf.Encoding.Simple8b.{takes_i64}
use timbre_tsf.Encoding.Simple8b.RoundTrip.{Fits60}
use timbre_tsf.Encoding.DeltaOfDelta.{
  DeltaOfDeltaEncoder, DeltaOfDeltaDecoder, new_encoder, new_decoder, read,
}
use timbre_tsf.Encoding.DeltaOfDelta.Types.{ReadsNothing, wrong_type_fails}
use timbre_tsf.Encoding.DeltaOfDelta.RoundTrip.{
  second_deltas, packed, encode_all, encoded, Reads, delta_of_delta_round_trip,
}

-- Timestamps a second apart, and one that is late.
abbrev times : List ℕ
times = 1000 ∷ 2000 ∷ 3000 ∷ 4007 ∷ 5000 ∷ []

differences : packed times ≡ 0 ∷ 7 ∷ 18446744073709551602 ∷ []
unfolding packed second_deltas
differences = refl

packed-Fits60 : All Fits60 (packed times)
packed-Fits60 = rw differences (
    omega (
      arith,
      zigzag64-nonneg 0 (omega arith),
      zigzag64-nonneg 7 (omega arith),
      zigzag64-neg 18446744073709551602 (omega arith) (omega arith),
    ))

is_64_bit : takes_i64 TsDataType.timestamp ≡ true
unfolding data_type_to_u8
is_64_bit = refl

delta_of_delta_round_trip_example :
    ((e : DeltaOfDeltaEncoder) × (encode_all le_std times (new_encoder, [])
        ≡ (ok tt, (e, [] ++ encoded le_std times))))
    × Reads le_std TsDataType.timestamp (encoded le_std times ++ 9 ∷ []) 0 times
delta_of_delta_round_trip_example =
    delta_of_delta_round_trip le_std TsDataType.timestamp times [] (encoded le_std times ++ 9 ∷ [])
      0 (9 ∷ []) is_64_bit (omega arith) (omega arith) packed-Fits60 (At-start _)

is_32_bit : takes_i64 TsDataType.int32 ≡ false
unfolding data_type_to_u8
is_32_bit = refl

wrong_type_fails_example :
    ((e : DeltaOfDeltaEncoder) × (encode_all le_std times (new_encoder, [])
        ≡ (ok tt, (e, [] ++ encoded le_std times))))
    × ((d : DeltaOfDeltaDecoder) × (reads
            (read le_std Kind.i64 (encoded le_std times ++ 9 ∷ []))
            2
            (new_decoder TsDataType.int32, 0)
          ≡ (ok (Value.i64 1000 ∷ Value.i64 2000 ∷ []), (d, 16)))
        × ReadsNothing le_std (encoded le_std times ++ 9 ∷ []) d 16)
wrong_type_fails_example =
    wrong_type_fails le_std TsDataType.int32 1000 2000 3000 (4007 ∷ 5000 ∷ []) []
      (encoded le_std times ++ 9 ∷ []) 0 (9 ∷ []) is_32_bit (omega arith) (omega arith)
      (omega arith) packed-Fits60 (At-start _)
