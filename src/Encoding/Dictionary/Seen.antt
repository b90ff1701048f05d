-- ===== src/Encoding/Dictionary/Seen.antt =====
-- `encode_string` of dictionary.rs over a sequence.
use timbre_tsf.Prelude.{
  ℕ, ◌+◌, ◌^◌, ◌≤◌, ◌<◌, ◌≡◌, refl, sym, ap, ap₂, ◌∙◌, arith, not, ◌&&◌, some, List, [], ◌∷◌, ◌++◌,
  map, length, length-append, All, All-append, append_assoc, append-nil, ◌==◌, Bool-cases,
  Option-cases, inl, inr,
}
use timbre_tsf.Exec.{Result, ok, for_each}
use timbre_tsf.Bytes.Same.{same_string}
use timbre_tsf.Encoding.Places.{string_equality, position, get, add, distinct, add_old, add_new}
use timbre_tsf.Encoding.Dictionary.{DictionaryEncoder, no_id, new_encoder, encode_string}
use timbre_tsf.Encoding.Dictionary.Coded.{
  code, code-position, Known, codes-add, HasSeen, lookup_or_create_id_lem, encode_string_hit,
  encode_string_miss, hit-position,
}
use mathlib.Core.List.{map-append}

-- One code more.
codes_last :
    (e : DictionaryEncoder) (seen : List (List ℕ)) (s : List ℕ) (id : ℕ)
    → HasSeen e seen
    → position string_equality s (add string_equality e.index_entry s) ≡ some id
    → (e.encoded_ids ++ id ∷ [] ≡ map (code (add string_equality e.index_entry s)) (seen ++ s ∷ []))
      × All (Known (add string_equality e.index_entry s)) (seen ++ s ∷ [])
codes_last e seen s id has place =
    let d = add string_equality e.index_entry s in
    let (same, all) = codes-add e.index_entry s seen has.known in
    (
      ap₂ (λ (l : List ℕ) (n : ℕ). l ++ n ∷ []) (has.ids ∙ sym same)
            (sym (code-position d s id place))
          ∙ sym (map-append (code d) seen (s ∷ [])),
      All-append (Known d) seen (s ∷ []) all ((id, place), tt),
    )

abbrev pub Encoded : List ℕ → DictionaryEncoder → List (List ℕ) → Type 0
Encoded s e seen =
    (e' : DictionaryEncoder) × (encode_string s e ≡ (ok tt, e'))
    × (e'.index_entry ≡ add string_equality e.index_entry s)
    × HasSeen e' (seen ++ s ∷ [])

encode_next :
    (s : List ℕ) (e : DictionaryEncoder) (seen : List (List ℕ))
    → HasSeen e seen
    → length e.index_entry < 2 ^ 31
    → Encoded s e seen
encode_next s e seen has short =
    elim (Bool-cases (not (e.cached_id == no_id) && same_string e.cached_arc s)) [
      | inl hit ↦
          let place = hit-position s e has.cache hit in
          let same = add_old string_equality s e.index_entry e.cached_id place in
          let (ids, known) = codes_last e seen s e.cached_id has (rw same place) in
          (
            record e { encoded_ids = e.encoded_ids ++ e.cached_id ∷ [] },
            encode_string_hit s e hit,
            sym same,
            record {
              places = has.places;
              cache = has.cache;
              known = rw same at known;
              ids = rw same at ids;
            },
          )
      | inr miss ↦
          let (id, index, cached, arc, found, place, places, cache) =
            lookup_or_create_id_lem s e has.places short in
          let (ids, known) = codes_last e seen s id has place in
          (
            record e {
              entry_index = index;
              index_entry = add string_equality e.index_entry s;
              encoded_ids = e.encoded_ids ++ id ∷ [];
              cached_id = cached;
              cached_arc = arc;
            },
            encode_string_miss s e _ id miss found,
            refl,
            record { places = places; cache = inr cache; known = known; ids = ids },
          )
    ]

length-add : (d : List (List ℕ)) (s : List ℕ) → length (add string_equality d s) ≤ length d + 1
length-add d s = elim (Option-cases (position string_equality s d)) [
  | inl new ↦ rw (add_new string_equality s d new) (omega (arith, length-append d (s ∷ [])))
  | inr (i, old) ↦ rw (add_old string_equality s d i old) (omega arith)
]

pub length-distinct :
    (d vs : List (List ℕ)) → length (distinct string_equality d vs) ≤ length d + length vs
unfolding distinct
length-distinct d [] = omega arith
length-distinct d (s ∷ vs) =
    omega (arith, length-distinct (add string_equality d s) vs, length-add d s)

-- A sequence, from an encoder that has seen another.
abbrev pub Finished : Result (Unit {0}) × DictionaryEncoder → List (List ℕ) → List (List ℕ) → Type 0
Finished result d seen =
    (e' : DictionaryEncoder) × (result ≡ (ok tt, e')) × (e'.index_entry ≡ d) × HasSeen e' seen

encode_rest :
    (vs : List (List ℕ)) (e : DictionaryEncoder) (seen : List (List ℕ))
    → HasSeen e seen
    → length e.index_entry + length vs < 2 ^ 31
    → Finished
        (for_each encode_string vs e)
        (distinct string_equality e.index_entry vs)
        (seen ++ vs)
unfolding for_each distinct
encode_rest [] e seen has short = (e, refl, refl, rw append-nil has)
encode_rest (s ∷ vs) e seen has short =
    let (e₁, step, grown, has₁) = encode_next s e seen has (omega arith) in
    let more =
      encode_rest vs e₁ (seen ++ s ∷ []) has₁
        (omega (arith, length-add e.index_entry s, ap (λ (l : List (List ℕ)). length l) grown)) in
    rw step (rw (grown, append_assoc) at more)

nothing_seen : HasSeen new_encoder []
unfolding get position
nothing_seen = record { places = λ s. refl; cache = inl refl; known = tt; ids = refl }

-- Encoding fewer than 2 ^ 31 strings with a new encoder: its list has each string once, in the
-- order of first occurrence, and the ids are the places of the strings in it.
pub encode_strings_lem :
    (vs : List (List ℕ))
    → length vs < 2 ^ 31
    → Finished (for_each encode_string vs new_encoder) (distinct string_equality [] vs) vs
encode_strings_lem vs short = encode_rest vs new_encoder [] nothing_seen (omega arith)
