-- ===== src/Encoding/DictionaryRle/Index.antt =====
-- The three ways dictionary_rle.rs finds the index of a number, the cache, the search and the map,
-- agree with the place in the dictionary.
use timbre_tsf.Prelude.{
  ℕ, ◌≤◌, ◌<◌, ◌≡◌, refl, sym, ap, ◌∙◌, arith, true, false, Option, none, some, List, [], ◌∷◌, ◌++◌,
  leb, length, length-append, ◌==◌, ==_iff, Bool-cases, Option-cases, inl, inr, lt→leb_false,
}
use timbre_tsf.Words.{u8}
use timbre_tsf.Exec.{Result, ok}
use timbre_tsf.Encoding.Places.{
  nat_equality, position, add, position-lt, add_old, add_new, position_new, HasPlaces,
  HasPlaces-added,
}
use timbre_tsf.Encoding.DictionaryRle.{
  DictionaryRleEncoder, narrow, find, create_index, find_or_create, lookup_or_create_index,
  index_by_cache, cached_index,
}

-- The map has the places of the dictionary, which are bytes.
pub record IsIndex (d : List ℕ) (map : List (ℕ × ℕ)) : Type 0 where
  pub places : HasPlaces nat_equality d map
  pub room : length d ≤ 256

-- The cache, where there is one, has the place of its number.
abbrev pub IsCached : List ℕ → Option (ℕ × ℕ) → Type 0
IsCached d none = Unit
IsCached d (some (bits, index)) = position nat_equality bits d ≡ some index

pub find_lem :
    (v : ℕ) (e : DictionaryRleEncoder)
    → IsIndex e.dictionary e.value_to_index
    → find v e ≡ position nat_equality v e.dictionary
unfolding find narrow
find_lem v e is = elim (Bool-cases (leb (length e.dictionary) 32)) [
  | inr large ↦ rw large (is.places v)
  | inl small ↦ elim (Option-cases (position nat_equality v e.dictionary)) [
    | inl missing ↦ rw (small, missing)
    | inr (i, found) ↦
        let byte : u8 i ≡ i = ground (arith, position-lt nat_equality v e.dictionary i found) in
        rw (small, found, byte)
  ]
]

added-IsIndex :
    (d : List ℕ) (map : List (ℕ × ℕ)) (v : ℕ)
    → IsIndex d map
    → length d < 256
    → position nat_equality v d ≡ none
    → IsIndex (d ++ v ∷ []) ((v, length d) ∷ map)
added-IsIndex d map v is room new = record {
  places = HasPlaces-added nat_equality d map v is.places new;
  room = omega (arith, length-append d (v ∷ []));
}

-- The number's place is found, or it is added where there is room for it; the cache has it then.
abbrev pub Looked : ℕ → DictionaryRleEncoder → Result ℕ × DictionaryRleEncoder → Type 0
Looked v e result =
    (index : ℕ) × (map : List (ℕ × ℕ)) × (cache : Option (ℕ × ℕ)) × (result ≡ (
      ok index,
      record e {
        dictionary = add nat_equality e.dictionary v;
        value_to_index = map;
        last_cached = cache;
      },
    ))
    × (position nat_equality v (add nat_equality e.dictionary v) ≡ some index)
    × IsIndex (add nat_equality e.dictionary v) map
    × IsCached (add nat_equality e.dictionary v) cache

lookup_found :
    (v : ℕ) (e : DictionaryRleEncoder) (i : ℕ)
    → find v e ≡ some i
    → lookup_or_create_index v e ≡ (ok i, record e { last_cached = some (v, i) })
unfolding lookup_or_create_index find_or_create
lookup_found v e i found = rw (found, find_or_create)

lookup_missing :
    (v : ℕ) (e : DictionaryRleEncoder)
    → find v e ≡ none
    → length e.dictionary < 256
    → lookup_or_create_index v e ≡ (
      ok (length e.dictionary),
      record e {
        dictionary = e.dictionary ++ v ∷ [];
        value_to_index = (v, length e.dictionary) ∷ e.value_to_index;
        last_cached = some (v, length e.dictionary);
      },
    )
unfolding lookup_or_create_index find_or_create create_index
lookup_missing v e missing short =
    let free = lt→leb_false (length e.dictionary) 256 short in
    let byte : u8 (length e.dictionary) ≡ length e.dictionary = omega arith in
    rw (missing, find_or_create, free, byte)

lookup_or_create_index_lem :
    (v : ℕ) (e : DictionaryRleEncoder)
    → IsIndex e.dictionary e.value_to_index
    → length (add nat_equality e.dictionary v) ≤ 256
    → Looked v e (lookup_or_create_index v e)
lookup_or_create_index_lem v e is room =
    elim (Option-cases (position nat_equality v e.dictionary)) [
      | inr (i, known) ↦
          let found : find v e ≡ some i = find_lem v e is ∙ known in
          let same = add_old nat_equality v e.dictionary i known in
          (
            i,
            e.value_to_index,
            some (v, i),
            rw same (lookup_found v e i found),
            rw same known,
            rw same is,
            rw same known,
          )
      | inl new ↦
          let found : find v e ≡ none = find_lem v e is ∙ new in
          let grown = add_new nat_equality v e.dictionary new in
          let short : length e.dictionary < 256 =
            omega (arith, length-append e.dictionary (v ∷ []), rw grown at room) in
          let last : position nat_equality v (e.dictionary ++ v ∷ []) ≡ some (length e.dictionary) =
            position_new nat_equality v e.dictionary new in
          (
            length e.dictionary,
            (v, length e.dictionary) ∷ e.value_to_index,
            some (v, length e.dictionary),
            rw grown (lookup_missing v e found short),
            rw grown last,
            rw grown (added-IsIndex e.dictionary e.value_to_index v is short new),
            rw grown last,
          )
    ]

pub cache_empty :
    (v : ℕ) (e : DictionaryRleEncoder)
    → e.last_cached ≡ none
    → cached_index v e ≡ lookup_or_create_index v e
unfolding cached_index index_by_cache
cache_empty v e empty = ap (λ c. index_by_cache c v e) empty

pub cache_miss :
    (v : ℕ) (e : DictionaryRleEncoder) (bits index : ℕ)
    → e.last_cached ≡ some (bits, index)
    → (bits == v) ≡ false
    → cached_index v e ≡ lookup_or_create_index v e
unfolding cached_index index_by_cache
cache_miss v e bits index full other = ap (λ c. index_by_cache c v e) full ∙ rw other

cache_hit :
    (v : ℕ) (e : DictionaryRleEncoder) (bits index : ℕ)
    → e.last_cached ≡ some (bits, index)
    → (bits == v) ≡ true
    → cached_index v e ≡ (ok index, e)
unfolding cached_index index_by_cache
cache_hit v e bits index full same = ap (λ c. index_by_cache c v e) full ∙ rw same

pub cached_index_lem :
    (v : ℕ) (e : DictionaryRleEncoder)
    → IsIndex e.dictionary e.value_to_index
    → IsCached e.dictionary e.last_cached
    → length (add nat_equality e.dictionary v) ≤ 256
    → Looked v e (cached_index v e)
cached_index_lem v e is cached room = from_cache e.last_cached refl cached
  where
    from_cache :
        (c : Option (ℕ × ℕ))
        → e.last_cached ≡ c
        → IsCached e.dictionary c
        → Looked v e (cached_index v e)
    from_cache none empty h = rw (cache_empty v e empty) (lookup_or_create_index_lem v e is room)
    from_cache (some (bits, index)) full h = elim (Bool-cases (bits == v)) [
      | inr other ↦
          rw (cache_miss v e bits index full other) (lookup_or_create_index_lem v e is room)
      | inl hit ↦
          let known : position nat_equality v e.dictionary ≡ some index =
            ap (λ (t : ℕ). position nat_equality t e.dictionary) (sym ((==_iff bits v).0 hit))
            ∙ h in
          let same = add_old nat_equality v e.dictionary index known in
          (
            index,
            e.value_to_index,
            e.last_cached,
            rw same (cache_hit v e bits index full hit),
            rw same known,
            rw same is,
            rw same cached,
          )
    ]
