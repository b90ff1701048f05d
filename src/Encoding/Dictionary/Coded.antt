-- ===== src/Encoding/Dictionary/Coded.antt =====
-- `encode_string` of dictionary.rs: the list of strings gets each new string once, and each string
-- is coded by its place, whether the cache, the map or neither knows it.
use timbre_tsf.Prelude.{
  ℕ, ◌^◌, ◌<◌, ◌≡◌, ◌⊎◌, refl, sym, ap, ap₂, ◌∙◌, arith, true, false, not, ◌&&◌, none, some, List,
  [], ◌∷◌, ◌++◌, map, length, All, ◌==◌, Option-cases, inl, inr, get_elem?, &&→both,
}
use timbre_tsf.Words.{u32, sign_extend}
use timbre_tsf.Exec.{Result, ok}
use timbre_tsf.Bytes.Same.{same_string, same_string→≡}
use timbre_tsf.Encoding.Places.{
  string_equality, position, get, add, position-get_elem?, position-lt, position_new,
  position-add_old, add_old, add_new, HasPlaces, HasPlaces-added,
}
use timbre_tsf.Encoding.Dictionary.{
  DictionaryEncoder, no_id, known_id, new_id, lookup_or_create_id, encode_string,
}

-- The code of a string, its place.
unfoldable pub code : List (List ℕ) → List ℕ → ℕ
code d s = elim (position string_equality s d) [ none ↦ 0 | some i ↦ i ]

pub code-position :
    (d : List (List ℕ)) (s : List ℕ) (i : ℕ) → position string_equality s d ≡ some i → code d s ≡ i
unfolding code
code-position d s i h = rw (h, code)

abbrev pub Known : List (List ℕ) → List ℕ → Type 0
Known d s = (i : ℕ) × (position string_equality s d ≡ some i)

-- Codes stay.
pub codes-add :
    (d : List (List ℕ)) (t : List ℕ) (vs : List (List ℕ))
    → All (Known d) vs
    → (map (code (add string_equality d t)) vs ≡ map (code d) vs)
      × All (Known (add string_equality d t)) vs
codes-add d t [] h = (refl, tt)
codes-add d t (v ∷ vs) ((i, place), h) =
    let still = position-add_old string_equality v t d i place in
    let (same, all) = codes-add d t vs h in
    (
      ap₂ ◌∷◌ (code-position (add string_equality d t) v i still ∙ sym (code-position d v i place))
          same,
      ((i, still), all),
    )

-- The cache is marked as empty, or has the place of its string.
abbrev pub CacheOk : DictionaryEncoder → Type 0
CacheOk e =
    ((e.cached_id == no_id) ≡ true)
    ⊎ (position string_equality e.cached_arc e.index_entry ≡ some e.cached_id)

-- An encoder that has seen strings.
pub record HasSeen (e : DictionaryEncoder) (seen : List (List ℕ)) : Type 0 where
  pub places : HasPlaces string_equality e.index_entry e.entry_index
  pub cache : CacheOk e
  pub known : All (Known e.index_entry) seen
  pub ids : e.encoded_ids ≡ map (code e.index_entry) seen

-- What looking up a string answers.
abbrev pub Looked : List ℕ → DictionaryEncoder → Result ℕ × DictionaryEncoder → Type 0
Looked s e result =
    (id : ℕ) × (index : List (List ℕ × ℕ)) × (cached : ℕ) × (arc : List ℕ) × (result ≡ (
      ok id,
      record e {
        entry_index = index;
        index_entry = add string_equality e.index_entry s;
        cached_id = cached;
        cached_arc = arc;
      },
    ))
    × (position string_equality s (add string_equality e.index_entry s) ≡ some id)
    × HasPlaces string_equality (add string_equality e.index_entry s) index
    × (position string_equality arc (add string_equality e.index_entry s) ≡ some cached)

known_id-found :
    (s : List ℕ) (e : DictionaryEncoder) (id : ℕ)
    → get_elem? e.index_entry (sign_extend id) ≡ some s
    → known_id id e ≡ (ok id, record e { cached_id = id; cached_arc = s })
unfolding known_id
known_id-found s e id h = rw (h, known_id)

lookup_known :
    (s : List ℕ) (e : DictionaryEncoder) (id : ℕ)
    → get string_equality s e.entry_index ≡ some id
    → get_elem? e.index_entry id ≡ some s
    → id < 2 ^ 31
    → lookup_or_create_id s e ≡ (ok id, record e { cached_id = id; cached_arc = s })
unfolding lookup_or_create_id
lookup_known s e id found there small =
    let positive : sign_extend id ≡ id = ground arith in
    rw (found, lookup_or_create_id) (known_id-found s e id (rw positive there))

lookup_new :
    (s : List ℕ) (e : DictionaryEncoder)
    → get string_equality s e.entry_index ≡ none
    → length e.index_entry < 2 ^ 31
    → lookup_or_create_id s e ≡ (
      ok (length e.index_entry),
      record e {
        entry_index = (s, length e.index_entry) ∷ e.entry_index;
        index_entry = e.index_entry ++ s ∷ [];
        cached_id = length e.index_entry;
        cached_arc = s;
      },
    )
unfolding lookup_or_create_id new_id
lookup_new s e missing short =
    let fits : u32 (length e.index_entry) ≡ length e.index_entry = omega arith in
    rw (missing, lookup_or_create_id, fits)

pub lookup_or_create_id_lem :
    (s : List ℕ) (e : DictionaryEncoder)
    → HasPlaces string_equality e.index_entry e.entry_index
    → length e.index_entry < 2 ^ 31
    → Looked s e (lookup_or_create_id s e)
lookup_or_create_id_lem s e places short =
    elim (Option-cases (position string_equality s e.index_entry)) [
      | inr (id, old) ↦
          let same = add_old string_equality s e.index_entry id old in
          let small : id < 2 ^ 31 =
            omega (arith, position-lt string_equality s e.index_entry id old) in
          let there = position-get_elem? string_equality s e.index_entry id old in
          (
            id,
            e.entry_index,
            id,
            s,
            rw same (lookup_known s e id (places s ∙ old) there small),
            rw same old,
            rw same places,
            rw same old,
          )
      | inl new ↦
          let grown = add_new string_equality s e.index_entry new in
          let last = position_new string_equality s e.index_entry new in
          (
            length e.index_entry,
            (s, length e.index_entry) ∷ e.entry_index,
            length e.index_entry,
            s,
            rw grown (lookup_new s e (places s ∙ new) short),
            rw grown last,
            rw grown (HasPlaces-added string_equality e.index_entry e.entry_index s places new),
            rw grown last,
          )
    ]

pub encode_string_hit :
    (s : List ℕ) (e : DictionaryEncoder)
    → (not (e.cached_id == no_id) && same_string e.cached_arc s) ≡ true
    → encode_string s e ≡ (ok tt, record e { encoded_ids = e.encoded_ids ++ e.cached_id ∷ [] })
unfolding encode_string
encode_string_hit s e h = rw h

pub encode_string_miss :
    (s : List ℕ) (e e' : DictionaryEncoder) (id : ℕ)
    → (not (e.cached_id == no_id) && same_string e.cached_arc s) ≡ false
    → lookup_or_create_id s e ≡ (ok id, e')
    → encode_string s e ≡ (ok tt, record e' { encoded_ids = e'.encoded_ids ++ id ∷ [] })
unfolding encode_string
encode_string_miss s e e' id h k = rw (h, k)

-- What a cached id says, where the cache is not empty and its string is the one to encode.
pub hit-position :
    (s : List ℕ) (e : DictionaryEncoder)
    → CacheOk e
    → (not (e.cached_id == no_id) && same_string e.cached_arc s) ≡ true
    → position string_equality s e.index_entry ≡ some e.cached_id
hit-position s e (inl empty) h = absurd (cc (empty, h))
hit-position s e (inr place) h =
    let (full, same) = &&→both (not (e.cached_id == no_id)) (same_string e.cached_arc s) h in
    ap (λ (t : List ℕ). position string_equality t e.index_entry)
      (sym (same_string→≡ e.cached_arc s same))
    ∙ place
