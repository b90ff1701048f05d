-- ===== src/Encoding/Dictionary/Tests.antt =====
-- Concrete strings, and the theorem at them.
use timbre_tsf.Prelude.{ℕ, ◌^◌, ◌<◌, ◌≡◌, refl, arith, true, List, [], ◌∷◌, ◌++◌, length, All}
use timbre_tsf.Prelude.Order.{lt_wf}
use native.Mathlib.Decide.{dec_lt}
use timbre_tsf.Exec.{ok, panic}
use timbre_tsf.Words.Zigzag.{zigzag32, unzigzag32}
use timbre_tsf.Bytes.{At-start}
use timbre_tsf.Bytes.Utf8.{is_utf8}
use timbre_tsf.Bytes.Slice.{slice}
use timbre_tsf.Bytes.Strings.{take_string}
use timbre_tsf.Varint.{push_varint, push_loop, read_u32, read_u32_loop}
use timbre_tsf.Encoding.Places.{position, add, distinct}
use timbre_tsf.Bytes.Same.{same_string}
use timbre_tsf.Encoding.Dictionary.{
  new_encoder, write_varint, write_var_string, write_strings, write_dictionary, count_equal,
  write_ids_loop, write_encoded_ids, read_varint, read_var_string,
}
use timbre_tsf.Encoding.Dictionary.Coded.{code}
use timbre_tsf.Encoding.Dictionary.Read.{IsString}
use timbre_tsf.Encoding.Dictionary.RoundTrip.{
  encoded, encode_all, ReadBack, dictionary_encoding_round_trip,
}

abbrev on : List ℕ
on = 111 ∷ 110 ∷ []

abbrev off : List ℕ
off = 111 ∷ 102 ∷ 102 ∷ []

abbrev states : List (List ℕ)
states = on ∷ on ∷ off ∷ on ∷ []

abbrev bytes : List ℕ
bytes = 4 ∷ 4 ∷ 111 ∷ 110 ∷ 6 ∷ 111 ∷ 102 ∷ 102 ∷ 0 ∷ 4 ∷ 2 ∷ 2 ∷ 0 ∷ 2 ∷ []

written : encoded states ≡ bytes
unfolding encoded write_dictionary write_strings write_var_string write_varint write_encoded_ids
    write_ids_loop count_equal code distinct add position same_string zigzag32 push_varint push_loop
    lt_wf dec_lt
written = refl

on-is_utf8 : is_utf8 on ≡ true
unfolding is_utf8
on-is_utf8 = refl

off-is_utf8 : is_utf8 off ≡ true
unfolding is_utf8
off-is_utf8 = refl

-- A length of -1.
negative_length : read_var_string (1 ∷ []) 0 ≡ (panic, 1)
unfolding read_var_string read_varint read_u32 read_u32_loop unzigzag32 take_string slice
negative_length = refl

dictionary_encoding_round_trip_example :
    (encode_all states (new_encoder, []) ≡ (ok tt, (new_encoder, [] ++ encoded states)))
    × ReadBack states (encoded states) 0
dictionary_encoding_round_trip_example =
    dictionary_encoding_round_trip states [] (encoded states) 0 (omega arith) strings short
      (At-start _)
  where
    strings : All IsString states
    strings = (
      (omega arith, on-is_utf8),
      ((omega arith, on-is_utf8), ((omega arith, off-is_utf8), ((omega arith, on-is_utf8), tt))),
    )

    short : length (encoded states) < 2 ^ 63
    short = rw written (omega arith)
