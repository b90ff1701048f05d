-- ===== src/Encoding/Simple8b/Tests.antt =====
-- Concrete runs of simple8b.rs, and the theorems at concrete inputs.
use timbre_tsf.Prelude.{
  ◌-◌, ℕ, ◌<◌, ◌^◌, ◌≡◌, refl, arith, true, List, [], ◌∷◌, ◌++◌, length, map, All,
}
use timbre_tsf.Words.Zigzag.{zigzag32, signed_unzigzag32, zigzag64-nonneg, zigzag64-neg}
use timbre_tsf.Exec.{ok, err, reads}
use timbre_tsf.Bytes.{to_le_bytes, from_le_bytes, le_std, At-start}
use timbre_tsf.Common.Types.{TsDataType, data_type_to_u8}
use timbre_tsf.Encoding.{Value, Kind}
use timbre_tsf.Encoding.Simple8b.{
  Simple8bEncoder, Simple8bDecoder, new_encoder, new_decoder, push, finish, finish_round,
  encode_i32_internal, read, end_of_data, takes_i64,
}
use timbre_tsf.Encoding.Simple8b.Contents.{IsReady, contents, push_lem}
use timbre_tsf.Encoding.Simple8b.Finish.{IsFinished, finish_lem}
use timbre_tsf.Encoding.Simple8b.Select.{best_selector, fits, max_value, bits_of, count_of}
use timbre_tsf.Encoding.Simple8b.Pack.{pack_loop, value_at, pack_values}
use timbre_tsf.Encoding.Simple8b.Unpack.{unpack, unpack-pack_values}
use timbre_tsf.Encoding.Simple8b.RoundTrip.{
  Fits60, encode_all, encoded, finished, simple8b_round_trip,
}

abbrev readings : List ℕ
readings = 7 ∷ 18446744073709551615 ∷ 1000000 ∷ []

cut_short : (read Kind.i64 (7 ∷ 0 ∷ []) (new_decoder TsDataType.int64, 0)).0 ≡ err end_of_data
unfolding read data_type_to_u8
cut_short = refl

readings-Fits60 : All Fits60 readings
readings-Fits60 = omega (
  arith,
  zigzag64-nonneg 7 (omega arith),
  zigzag64-neg 18446744073709551615 (omega arith) (omega arith),
  zigzag64-nonneg 1000000 (omega arith),
)

is_64_bit : takes_i64 TsDataType.int64 ≡ true
unfolding data_type_to_u8
is_64_bit = refl

is_64_bit' : takes_i64 TsDataType.timestamp ≡ true
unfolding data_type_to_u8
is_64_bit' = refl

simple8b_round_trip_example :
    (encode_all le_std readings (new_encoder TsDataType.int64, []) ≡ (
      ok tt,
      (finished TsDataType.int64 readings, [] ++ encoded le_std TsDataType.int64 readings),
    ))
    × ((d : Simple8bDecoder) × (pos' : ℕ) × (reads
            (read Kind.i64 (encoded le_std TsDataType.int64 readings ++ 9 ∷ []))
            (length readings)
            (new_decoder TsDataType.timestamp, 0)
          ≡ (ok (map Value.i64 readings), (d, pos'))))
simple8b_round_trip_example =
    simple8b_round_trip le_std TsDataType.int64 TsDataType.timestamp readings []
      (encoded le_std TsDataType.int64 readings ++ 9 ∷ []) 0 (9 ∷ []) is_64_bit is_64_bit'
      readings-Fits60 (At-start _)

abbrev ready : Simple8bEncoder
ready = record { data_type = TsDataType.int64; pending = 3 ∷ 900 ∷ []; output = [] }

ready-IsReady : IsReady ready
ready-IsReady = record { short = omega arith; small = (omega arith); words = tt }

push_lem_example :
    IsReady (push 5 ready)
    × (contents (push 5 ready) ≡ contents ready ++ 5 ∷ [])
    × ((push 5 ready).data_type ≡ TsDataType.int64)
push_lem_example = push_lem ready 5 ready-IsReady (omega arith)

finish_lem_example : (k : ℕ) × IsFinished ready (finish ready) k
finish_lem_example = finish_lem ready ready-IsReady

twelve : bits_of 12 ≡ 15
unfolding bits_of
twelve = refl

four : count_of 12 ≡ 4
unfolding count_of
four = refl

unpack-pack_values_example :
    (unpack (pack_values (5 ∷ 6 ∷ 7 ∷ 800 ∷ []) 12 15) ≡ 5 ∷ 6 ∷ 7 ∷ 800 ∷ [])
    × (pack_values (5 ∷ 6 ∷ 7 ∷ 800 ∷ []) 12 15 < 2 ^ 64)
unpack-pack_values_example =
    unpack-pack_values 12 15 twelve (omega arith) (5 ∷ 6 ∷ 7 ∷ 800 ∷ []) (omega arith) four
      (omega arith) (omega arith)

-- A value of `encode_i32` that is not read back: 2 ^ 30 comes out as -2 ^ 30.
abbrev half : ℕ
half = 1073741824

abbrev large_word : ℕ
large_word = 2 ^ 64 - 2 ^ 31

large_i32_written :
    (finish (encode_i32_internal half (new_encoder TsDataType.int32))).output ≡ large_word ∷ []
unfolding finish finish_round encode_i32_internal zigzag32 pack_values pack_loop bits_of
    best_selector fits max_value
large_i32_written = refl

large_i32 :
    (read Kind.i32 (to_le_bytes 8 large_word) (new_decoder TsDataType.int32, 0)).0
    ≡ ok (Value.i32 3221225472)
unfolding read data_type_to_u8 to_le_bytes from_le_bytes count_of value_at bits_of signed_unzigzag32
large_i32 = refl
