-- ===== src/Encoding/DictionaryRle/Tests.antt =====
-- Concrete numbers, and the theorems at them.
use timbre_tsf.Prelude.{some, ℕ, zero, suc, ◌≡◌, refl, arith, List, [], ◌∷◌, length}
use timbre_tsf.Exec.{ok, err, io, reads}
use timbre_tsf.Bytes.{le_std, from_le_bytes, read_at}
use timbre_tsf.Encoding.Places.{nat_equality, position, get, add, distinct}
use timbre_tsf.Encoding.DictionaryRle.{
  DictionaryRleEncoder, new_encoder, cached_index, encode, decode, decode_all,
}
use timbre_tsf.Encoding.DictionaryRle.Index.{IsIndex, Looked, cached_index_lem}
use timbre_tsf.Encoding.DictionaryRle.RoundTrip.{dictionary_rle_round_trip}
use timbre_tsf.Encoding.DictionaryRle.Full.{too_many, dictionary_rle_too_many}

abbrev readings : List ℕ
readings = 7 ∷ 7 ∷ 9 ∷ 7 ∷ []

two_numbers : distinct nat_equality [] readings ≡ 7 ∷ 9 ∷ []
unfolding distinct add position
two_numbers = refl

cut_short : decode le_std (1 ∷ 0 ∷ 5 ∷ []) 0 ≡ (err io, 2)
unfolding decode decode_all reads read_at le_std from_le_bytes
cut_short = refl

dictionary_rle_round_trip_example :
    (bytes : List ℕ) × (e' : DictionaryRleEncoder) × (encode le_std readings new_encoder
      ≡ (ok bytes, e'))
    × (end : ℕ) × (decode le_std bytes 0 ≡ (ok readings, end))
dictionary_rle_round_trip_example =
    dictionary_rle_round_trip le_std readings new_encoder (omega arith) (omega arith)
      (rw two_numbers (omega arith))

-- The numbers below a bound, from the greatest.
abbrev below : ℕ → List ℕ
below zero = []
below (suc n) = n ∷ below n

many_numbers : length (distinct nat_equality [] (below 257)) ≡ 257
unfolding distinct add position
many_numbers = refl

dictionary_rle_too_many_example :
    (e' : DictionaryRleEncoder) × (encode le_std (below 257) new_encoder ≡ (err too_many, e'))
dictionary_rle_too_many_example =
    dictionary_rle_too_many le_std (below 257) new_encoder (omega arith)
      (rw many_numbers (omega arith))

-- An encoder that knows 7, and the number 9.
abbrev seven : DictionaryRleEncoder
seven = record new_encoder {
  dictionary = 7 ∷ [];
  value_to_index = (7, 0) ∷ [];
  last_cached = some (7, 0);
}

seven-IsIndex : IsIndex seven.dictionary seven.value_to_index
unfolding position get
seven-IsIndex = record { places = λ v. refl; room = omega arith }

nine_added : add nat_equality (7 ∷ []) 9 ≡ 7 ∷ 9 ∷ []
unfolding add position
nine_added = refl

seven_found : position nat_equality 7 (7 ∷ []) ≡ some 0
unfolding position
seven_found = refl

cached_index_lem_example : Looked 9 seven (cached_index 9 seven)
cached_index_lem_example =
    cached_index_lem 9 seven seven-IsIndex seven_found (rw nine_added (omega arith))
