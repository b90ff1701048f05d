-- ===== src/Encoding/DictionaryRle/Full.antt =====
-- `encode` of dictionary_rle.rs refuses a 257th number.
use timbre_tsf.Prelude.{
  ℕ, ◌+◌, ◌^◌, ◌≤◌, ◌<◌, ◌≡◌, refl, sym, ap, ◌∙◌, arith, Option, none, some, List, [], ◌∷◌, ◌++◌,
  length, leb, length-append, ◌==◌, ==_iff, leb→le, le→leb, Bool-cases, Option-cases, inl, inr,
}
use timbre_tsf.Exec.{TimbreError, err, encoding_error, for_each}
use timbre_tsf.Bytes.{LittleEndian}
use timbre_tsf.Encoding.Places.{nat_equality, position, add, distinct, add_old, add_new}
use timbre_tsf.Encoding.DictionaryRle.{
  DictionaryRleEncoder, find, create_index, find_or_create, lookup_or_create_index, cached_index,
  encode_value, encode,
}
use timbre_tsf.Encoding.DictionaryRle.Index.{find_lem, cache_empty, cache_miss, IsIndex, IsCached}
use timbre_tsf.Encoding.DictionaryRle.Accumulate.{HasSeen}
use timbre_tsf.Encoding.DictionaryRle.Seen.{encode_first, encode_next}

abbrev pub too_many : TimbreError
too_many = encoding_error "DictionaryRLE: too many unique values (max 256)"

lookup_full :
    (v : ℕ) (e : DictionaryRleEncoder)
    → find v e ≡ none
    → 256 ≤ length e.dictionary
    → lookup_or_create_index v e ≡ (err too_many, e)
unfolding lookup_or_create_index find_or_create create_index
lookup_full v e missing full = rw (missing, find_or_create, le→leb 256 (length e.dictionary) full)

cached_index_full :
    (v : ℕ) (e : DictionaryRleEncoder)
    → IsIndex e.dictionary e.value_to_index
    → IsCached e.dictionary e.last_cached
    → 256 < length (add nat_equality e.dictionary v)
    → cached_index v e ≡ (err too_many, e)
cached_index_full v e is cached over = elim (Option-cases (position nat_equality v e.dictionary)) [
  | inr (i, old) ↦
      absurd (omega (arith, is.room, rw (add_old nat_equality v e.dictionary i old) at over))
  | inl new ↦
      let grown = rw (add_new nat_equality v e.dictionary new) at over in
      let full : 256 ≤ length e.dictionary =
        omega (arith, grown, length-append e.dictionary (v ∷ [])) in
      let refused = lookup_full v e (find_lem v e is ∙ new) full in
      from_cache new refused e.last_cached refl cached
]
  where
    from_cache :
        position nat_equality v e.dictionary ≡ none
        → lookup_or_create_index v e ≡ (err too_many, e)
        → (c : Option (ℕ × ℕ)) → e.last_cached ≡ c
        → IsCached e.dictionary c
        → cached_index v e ≡ (err too_many, e)
    from_cache new refused none empty h = cache_empty v e empty ∙ refused
    from_cache new refused (some (bits, index)) full h = elim (Bool-cases (bits == v)) [
      | inr other ↦ cache_miss v e bits index full other ∙ refused
      | inl hit ↦
          let clash : none ≡ some index =
            sym new
            ∙ ap (λ (t : ℕ). position nat_equality t e.dictionary) (sym ((==_iff bits v).0 hit))
            ∙ h in
          cc
    ]

encode_value_full :
    (v : ℕ) (e : DictionaryRleEncoder)
    → cached_index v e ≡ (err too_many, e)
    → encode_value v e ≡ (err too_many, e)
unfolding encode_value
encode_value_full v e h = rw h

for_each_full :
    (vs : List ℕ) (e : DictionaryRleEncoder) (seen : List ℕ) (v i : ℕ)
    → HasSeen e seen v i
    → length seen + length vs < 2 ^ 32
    → 256 < length (distinct nat_equality e.dictionary vs)
    → (e' : DictionaryRleEncoder) × (for_each encode_value vs e ≡ (err too_many, e'))
unfolding for_each distinct
for_each_full [] e seen v i has short over = absurd (omega (arith, over, has.index.room))
for_each_full (w ∷ vs) e seen v i has short over =
    elim (Bool-cases (leb (length (add nat_equality e.dictionary w)) 256)) [
      | inl room ↦
          let (e₁, j, step, grown, has₁) =
            encode_next w e seen v i has
              (leb→le (length (add nat_equality e.dictionary w)) 256 room) (omega arith) in
          let (e', refused) =
            for_each_full vs e₁ (seen ++ w ∷ []) w j has₁
              (omega (arith, length-append seen (w ∷ []))) (rw grown over) in
          (e', rw step refused)
      | inr more ↦
          let refused =
            encode_value_full w e (cached_index_full w e has.index has.cached (ground arith)) in
          (e, rw refused)
    ]

-- Encoding fewer than 2 ^ 32 numbers of which more than 256 are distinct is an error, whatever the
-- state of the encoder.
pub dictionary_rle_too_many :
    (bo : LittleEndian) (vs : List ℕ) (e : DictionaryRleEncoder)
    → length vs < 2 ^ 32
    → 256 < length (distinct nat_equality [] vs)
    → (e' : DictionaryRleEncoder) × (encode bo vs e ≡ (err too_many, e'))
unfolding distinct encode for_each
dictionary_rle_too_many bo [] e short over = absurd (omega arith)
dictionary_rle_too_many bo (v ∷ vs) e short over =
    let new : length (add nat_equality [] v) ≤ 256 = unfold add position in omega arith in
    let (e₁, j, step, grown, has) = encode_first v new in
    let (e', refused) = for_each_full vs e₁ (v ∷ []) v j has (omega arith) (rw grown over) in
    (e', rw (step, refused))
