-- ===== src/File/GlobalDictionary/Tests.antt =====
-- A dictionary of two strings, and the theorems at it.
use timbre_tsf.Prelude.{
  ℕ, ◌≡◌, refl, arith, true, false, some, none, List, ◌+◌, ◌==◌, ◌⊎◌, if◌then◌else◌, [], ◌∷◌, ◌++◌,
  length,
}
use timbre_tsf.Exec.{ok}
use timbre_tsf.Bytes.{le_std}
use timbre_tsf.Bytes.Same.{same_string}
use timbre_tsf.File.GlobalDictionary.{
  GlobalDictionary, new_dictionary, intern, get_id, get_string, get, serialize, deserialize,
}
use timbre_tsf.Bytes.Utf8.{is_utf8}
use timbre_tsf.File.GlobalDictionary.Stored.{
  IsDictionary, dictionary_bytes, index_from, dictionary_round_trip,
}
use timbre_tsf.File.GlobalDictionary.Intern.{intern_lem}

-- "ab", and "é" as its two bytes.
abbrev ab : List ℕ
ab = 97 ∷ 98 ∷ []

abbrev acute : List ℕ
acute = 195 ∷ 169 ∷ []

abbrev two_strings : GlobalDictionary
two_strings = record {
  string_to_id = (acute, 1) ∷ (ab, 0) ∷ [];
  id_to_string = ab ∷ acute ∷ [];
  next_id = 2;
}

interned : intern ab (intern acute (intern ab new_dictionary).1).1 ≡ (0, two_strings)
unfolding intern get same_string
interned = refl

surrogate : is_utf8 (237 ∷ 160 ∷ 128 ∷ []) ≡ false
unfolding is_utf8
surrogate = refl

ab-is_utf8 : is_utf8 ab ≡ true
unfolding is_utf8
ab-is_utf8 = refl

acute-is_utf8 : is_utf8 acute ≡ true
unfolding is_utf8
acute-is_utf8 = refl

two_strings-IsDictionary : IsDictionary two_strings
unfolding index_from
two_strings-IsDictionary = record {
  map = refl;
  next = refl;
  count = omega arith;
  strings = ((omega arith, ab-is_utf8), ((omega arith, acute-is_utf8), tt));
}

dictionary_round_trip_example :
    (serialize le_std two_strings [] ≡ (
      ok (length (dictionary_bytes le_std two_strings)),
      [] ++ dictionary_bytes le_std two_strings,
    ))
    × (deserialize le_std (dictionary_bytes le_std two_strings ++ 5 ∷ [])
        ≡ (ok two_strings, 5 ∷ []))
dictionary_round_trip_example =
    dictionary_round_trip le_std two_strings [] (5 ∷ []) two_strings-IsDictionary

acute-get_id : get_id acute two_strings ≡ some 1
unfolding get_id get same_string
acute-get_id = refl

-- The first string of all.
empty-IsDictionary : IsDictionary new_dictionary
unfolding index_from
empty-IsDictionary = record { map = refl; next = refl; count = omega arith; strings = tt }

intern_lem_example :
    let (id, d') = intern ab new_dictionary in
    IsDictionary d'
    × (get_id ab d' ≡ some id)
    × (get_string id d' ≡ some ab)
    × (get_string 0 d' ≡ (if 0 == id then some ab else get_string 0 new_dictionary))
    × ((d' ≡ new_dictionary)
        ⊎ ((get_id ab new_dictionary ≡ none)
            × (get_string id new_dictionary ≡ none)
            × (length d'.id_to_string ≡ length new_dictionary.id_to_string + 1)))
intern_lem_example =
    intern_lem ab new_dictionary 0 empty-IsDictionary (omega arith, ab-is_utf8) (omega arith)
