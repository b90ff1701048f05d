-- ===== src/Encoding/DictionaryRle/Seen.antt =====
-- `encode_value` of dictionary_rle.rs over a sequence: the dictionary gets each new number, and the
-- runs stand for what was seen.
use timbre_tsf.Prelude.{
  ℕ, ◌+◌, ◌^◌, ◌≤◌, ◌<◌, ◌≡◌, refl, ap, ◌∙◌, arith, true, Option, some, List, [], ◌∷◌, ◌++◌, length,
  length-append, replicate, All, All-append, append_assoc, append-nil, ◌==◌, ==_iff, Bool-cases,
  inl, inr,
}
use timbre_tsf.Exec.{Result, ok, for_each, ◌>>◌}
use timbre_tsf.Encoding.Places.{
  nat_equality, position, get, add, distinct, position-lt, add_old, position-add_old, distinct_more,
}
use timbre_tsf.Encoding.DictionaryRle.{
  DictionaryRleEncoder, new_encoder, flush_run, accumulate, cached_index, encode_value,
}
use timbre_tsf.Encoding.DictionaryRle.Index.{IsIndex, IsCached, cached_index_lem}
use timbre_tsf.Encoding.DictionaryRle.Accumulate.{
  expand, InDictionary, expand-append, expand-add, position-get_or, replicate_last,
  accumulate-first, accumulate-same, accumulate-other, flush_run_lem, HasSeen,
}

encode_value-cached :
    (w : ℕ) (e e' : DictionaryRleEncoder) (j : ℕ)
    → cached_index w e ≡ (ok j, e')
    → encode_value w e ≡ accumulate w j e'
unfolding encode_value
encode_value-cached w e e' j h = rw h

-- An encoder whose dictionary was extended has seen the same.
module _ (e : DictionaryRleEncoder) (seen : List ℕ) (v i w : ℕ) (has : HasSeen e seen v i) where
  values_added : expand (add nat_equality e.dictionary w) e.runs ++ replicate e.current_run v ≡ seen
  values_added = rw (expand-add e.dictionary w e.runs has.inside).0 has.values

  -- The current run as a finished one.
  run_finished : expand (add nat_equality e.dictionary w) (e.runs ++ (i, e.current_run) ∷ []) ≡ seen
  unfolding expand
  run_finished =
      let place = position-add_old nat_equality v w e.dictionary i has.place in
      expand-append (add nat_equality e.dictionary w) e.runs ((i, e.current_run) ∷ [])
      ∙ rw (position-get_or v (add nat_equality e.dictionary w) i place, append-nil) values_added

  inside_finished :
      length seen < 2 ^ 32
      → All (InDictionary (add nat_equality e.dictionary w)) (e.runs ++ (i, e.current_run) ∷ [])
  inside_finished short =
      let place = position-add_old nat_equality v w e.dictionary i has.place in
      All-append (InDictionary (add nat_equality e.dictionary w)) e.runs ((i, e.current_run) ∷ [])
        (expand-add e.dictionary w e.runs has.inside).1
        (
          (
            position-lt nat_equality v (add nat_equality e.dictionary w) i place,
            omega (arith, has.short),
          ),
          tt,
        )

  module _ (map : List (ℕ × ℕ)) (cache : Option (ℕ × ℕ)) (j : ℕ)
      (is : IsIndex (add nat_equality e.dictionary w) map)
      (cached : IsCached (add nat_equality e.dictionary w) cache)
      (place : position nat_equality w (add nat_equality e.dictionary w) ≡ some j) where
    abbrev looked : DictionaryRleEncoder
    looked = record e {
      dictionary = add nat_equality e.dictionary w;
      value_to_index = map;
      last_cached = cache;
    }

    seen_same :
        (v == w) ≡ true
        → HasSeen (record looked { current_run = e.current_run + 1 }) (seen ++ w ∷ []) v i
    seen_same same = record {
      index = is;
      cached = cached;
      current = has.current;
      place = position-add_old nat_equality v w e.dictionary i has.place;
      positive = omega arith;
      short = omega (arith, has.short, length-append seen (w ∷ []));
      inside = (expand-add e.dictionary w e.runs has.inside).1;
      count = omega (arith, has.count, length-append seen (w ∷ []));
      values =
          rw (replicate_last e.current_run v, ← append_assoc, values_added)
            (ap (λ (t : ℕ). seen ++ t ∷ []) ((==_iff v w).0 same));
    }

    seen_other :
        length seen < 2 ^ 32
        → HasSeen
            (record looked {
              runs = e.runs ++ (i, e.current_run) ∷ [];
              current_value = some (w, j);
              current_run = 1;
            })
            (seen ++ w ∷ [])
            w
            j
    seen_other short = record {
      index = is;
      cached = cached;
      current = refl;
      place = place;
      positive = omega arith;
      short = omega (arith, length-append seen (w ∷ []));
      inside = inside_finished short;
      count = omega (
        arith,
        has.count,
        length-append seen (w ∷ []),
        length-append e.runs ((i, e.current_run) ∷ []),
      );
      values = ap (λ (l : List ℕ). l ++ w ∷ []) run_finished;
    }

-- One more number.
abbrev pub Encoded : ℕ → DictionaryRleEncoder → List ℕ → Type 0
Encoded w e seen =
    (e' : DictionaryRleEncoder) × (i : ℕ) × (encode_value w e ≡ (ok tt, e'))
    × (e'.dictionary ≡ add nat_equality e.dictionary w)
    × HasSeen e' (seen ++ w ∷ []) w i

pub encode_next :
    (w : ℕ) (e : DictionaryRleEncoder) (seen : List ℕ) (v i : ℕ)
    → HasSeen e seen v i
    → length (add nat_equality e.dictionary w) ≤ 256
    → length seen + 1 < 2 ^ 32
    → Encoded w e seen
encode_next w e seen v i has room short =
    let (j, map, cache, found, place, is, cached) =
      cached_index_lem w e has.index has.cached room in
    let e₁ = looked e seen v i w has map cache j is cached place in
    let step = encode_value-cached w e e₁ j found in
    elim (Bool-cases (v == w)) [
      | inl same ↦
          let seen' = seen_same e seen v i w has map cache j is cached place same in
          (
            record e₁ { current_run = e.current_run + 1 },
            i,
            step ∙ accumulate-same w j e₁ v i has.current same (omega (arith, has.short)),
            refl,
            rw ((==_iff v w).0 same) at seen',
          )
      | inr other ↦ (
        record e₁ {
          runs = e.runs ++ (i, e.current_run) ∷ [];
          current_value = some (w, j);
          current_run = 1;
        },
        j,
        step ∙ accumulate-other w j e₁ v i has.current other has.positive,
        refl,
        seen_other e seen v i w has map cache j is cached place (omega arith),
      )
    ]

-- The rest of a sequence, and the last run.
abbrev pub Finished : Result (Unit {0}) × DictionaryRleEncoder → List ℕ → List ℕ → Type 0
Finished result d seen =
    (e' : DictionaryRleEncoder) × (result ≡ (ok tt, e'))
    × (e'.dictionary ≡ d)
    × All (InDictionary e'.dictionary) e'.runs
    × (length e'.runs ≤ length seen)
    × (expand e'.dictionary e'.runs ≡ seen)

unfoldable pub encode_and_flush :
    List ℕ → DictionaryRleEncoder → Result (Unit {0}) × DictionaryRleEncoder
encode_and_flush vs = do for_each encode_value vs; flush_run

flush_last :
    (e : DictionaryRleEncoder) (seen : List ℕ) (v i : ℕ)
    → HasSeen e seen v i
    → length seen < 2 ^ 32
    → Finished (flush_run e) e.dictionary seen
flush_last e seen v i has short =
    let same = add_old nat_equality v e.dictionary i has.place in
    (
      record e { runs = e.runs ++ (i, e.current_run) ∷ []; current_run = 0 },
      flush_run_lem e v i has.current has.positive,
      refl,
      rw same at (inside_finished e seen v i v has short),
      omega (arith, has.count, length-append e.runs ((i, e.current_run) ∷ [])),
      rw same at (run_finished e seen v i v has),
    )

encode_rest :
    (vs : List ℕ) (e : DictionaryRleEncoder) (seen : List ℕ) (v i : ℕ)
    → HasSeen e seen v i
    → length (distinct nat_equality e.dictionary vs) ≤ 256
    → length seen + length vs < 2 ^ 32
    → Finished (encode_and_flush vs e) (distinct nat_equality e.dictionary vs) (seen ++ vs)
unfolding encode_and_flush for_each distinct
encode_rest [] e seen v i has room short = rw append-nil (flush_last e seen v i has (omega arith))
encode_rest (w ∷ vs) e seen v i has room short =
    let (e₁, j, step, grown, has₁) =
      encode_next w e seen v i has
        (omega (arith, distinct_more nat_equality (add nat_equality e.dictionary w) vs))
        (omega arith) in
    let more =
      encode_rest vs e₁ (seen ++ w ∷ []) w j has₁ (rw grown room)
        (omega (arith, length-append seen (w ∷ []))) in
    rw step (rw (grown, append_assoc) at more)

empty-IsIndex : IsIndex [] []
unfolding get position
empty-IsIndex = record { places = λ v. refl; room = omega arith }

pub encode_first :
    (v : ℕ)
    → length (add nat_equality [] v) ≤ 256
    → (e : DictionaryRleEncoder) × (i : ℕ) × (encode_value v new_encoder ≡ (ok tt, e))
      × (e.dictionary ≡ add nat_equality [] v)
      × HasSeen e (v ∷ []) v i
unfolding expand
encode_first v room =
    let (j, map, cache, found, place, is, cached) =
      cached_index_lem v new_encoder empty-IsIndex tt room in
    let e₁ = record new_encoder {
      dictionary = add nat_equality [] v;
      value_to_index = map;
      last_cached = cache;
    } in
    (
      record e₁ { current_value = some (v, j); current_run = 1 },
      j,
      encode_value-cached v new_encoder e₁ j found ∙ accumulate-first v j e₁ refl,
      refl,
      record {
        index = is;
        cached = cached;
        current = refl;
        place = place;
        positive = omega arith;
        short = omega arith;
        inside = tt;
        count = omega arith;
        values = refl;
      },
    )

pub encode_and_flush_lem :
    (v : ℕ) (vs : List ℕ)
    → length (distinct nat_equality [] (v ∷ vs)) ≤ 256
    → length (v ∷ vs) < 2 ^ 32
    → Finished (encode_and_flush (v ∷ vs) new_encoder) (distinct nat_equality [] (v ∷ vs)) (v ∷ vs)
unfolding encode_and_flush for_each distinct
encode_and_flush_lem v vs room short =
    let (e, j, step, grown, has) =
      encode_first v (omega (arith, distinct_more nat_equality (add nat_equality [] v) vs)) in
    let more = encode_rest vs e (v ∷ []) v j has (rw grown room) (omega arith) in
    rw step (rw grown at more)
