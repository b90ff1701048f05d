-- ===== src/Encoding/DictionaryRle/Accumulate.antt =====
-- The runs of dictionary_rle.rs stand for the numbers seen.
use timbre_tsf.Prelude.{
  ℕ, zero, suc, ◌+◌, ◌^◌, ◌≤◌, ◌<◌, ◌≡◌, refl, ap, ◌∙◌, arith, true, false, none, some, List, [],
  ◌∷◌, ◌++◌, ltb, length, length-append, get_elem?, get_or, replicate, All, append_assoc, ◌==◌,
  Option-cases, inl, inr, lt→ltb,
}
use timbre_tsf.Words.{wrapping_add}
use timbre_tsf.Exec.{ok}
use timbre_tsf.Encoding.Places.{
  nat_equality, position, add, position-get_elem?, position-lt, add_old, add_new,
}
use timbre_tsf.Encoding.DictionaryRle.{
  DictionaryRleEncoder, push_run, flush_run, start_run, accumulate_on, accumulate,
}
use timbre_tsf.Encoding.DictionaryRle.Index.{IsIndex, IsCached}

-- The numbers that runs stand for.
unfoldable pub expand : List ℕ → List (ℕ × ℕ) → List ℕ
expand d [] = []
expand d ((index, count) ∷ runs) = replicate count (get_or d index 0) ++ expand d runs

-- A run of a number of the dictionary, its length a u32.
abbrev pub InDictionary : List ℕ → ℕ × ℕ → Type 0
InDictionary d (index, count) = (index < length d) × (count < 2 ^ 32)

pub expand-append :
    (d : List ℕ) (rs ss : List (ℕ × ℕ)) → expand d (rs ++ ss) ≡ expand d rs ++ expand d ss
unfolding expand
expand-append d [] ss = refl
expand-append d ((index, count) ∷ rs) ss =
    rw (expand-append d rs ss, append_assoc (replicate count (get_or d index 0)))

get_or-append : (d ws : List ℕ) (i : ℕ) → i < length d → get_or (d ++ ws) i 0 ≡ get_or d i 0
get_or-append [] ws i h = absurd (omega arith)
get_or-append (v ∷ d) ws zero h = refl
get_or-append (v ∷ d) ws (suc i) h = get_or-append d ws i (omega arith)

pub get_elem?-get_or : (d : List ℕ) (i : ℕ) → i < length d → get_elem? d i ≡ some (get_or d i 0)
get_elem?-get_or [] i h = absurd (omega arith)
get_elem?-get_or (v ∷ d) zero h = refl
get_elem?-get_or (v ∷ d) (suc i) h = get_elem?-get_or d i (omega arith)

pub position-get_or :
    (v : ℕ) (d : List ℕ) (i : ℕ) → position nat_equality v d ≡ some i → get_or d i 0 ≡ v
position-get_or v d i h =
    let found = position-get_elem? nat_equality v d i h in
    let there = get_elem?-get_or d i (position-lt nat_equality v d i h) in cc

expand_extended :
    (d ws : List ℕ) (rs : List (ℕ × ℕ))
    → All (InDictionary d) rs
    → (expand (d ++ ws) rs ≡ expand d rs) × All (InDictionary (d ++ ws)) rs
unfolding expand
expand_extended d ws [] h = (refl, tt)
expand_extended d ws ((index, count) ∷ rs) ((inside, small), h) =
    let (same, still) = expand_extended d ws rs h in
    (
      rw (get_or-append d ws index inside, same),
      ((omega (arith, length-append d ws), small), still),
    )

-- Adding a number changes no run.
pub expand-add :
    (d : List ℕ) (w : ℕ) (rs : List (ℕ × ℕ))
    → All (InDictionary d) rs
    → (expand (add nat_equality d w) rs ≡ expand d rs)
      × All (InDictionary (add nat_equality d w)) rs
expand-add d w rs h = elim (Option-cases (position nat_equality w d)) [
  | inl new ↦ rw (add_new nat_equality w d new) (expand_extended d (w ∷ []) rs h)
  | inr (i, old) ↦ rw (add_old nat_equality w d i old) (refl, h)
]

pub replicate_last : (n v : ℕ) → replicate (n + 1) v ≡ replicate n v ++ v ∷ []
replicate_last zero v = refl
replicate_last (suc n) v =
    let e : suc n + 1 ≡ suc (n + 1) = omega arith in
    rw e (ap (λ (l : List ℕ). v ∷ l) (replicate_last n v))

pub accumulate-first :
    (w j : ℕ) (e : DictionaryRleEncoder)
    → e.current_value ≡ none
    → accumulate w j e ≡ (ok tt, record e { current_value = some (w, j); current_run = 1 })
unfolding accumulate accumulate_on start_run
accumulate-first w j e h = ap (λ c. accumulate_on c w j e) h

pub accumulate-same :
    (w j : ℕ) (e : DictionaryRleEncoder) (v i : ℕ)
    → e.current_value ≡ some (v, i)
    → (v == w) ≡ true
    → e.current_run + 1 < 2 ^ 32
    → accumulate w j e ≡ (ok tt, record e { current_run = e.current_run + 1 })
unfolding accumulate accumulate_on
accumulate-same w j e v i h same small =
    let wraps : wrapping_add 32 e.current_run 1 ≡ e.current_run + 1 = omega arith in
    ap (λ c. accumulate_on c w j e) h ∙ rw (same, wraps)

pub flush_run_lem :
    (e : DictionaryRleEncoder) (v i : ℕ)
    → e.current_value ≡ some (v, i)
    → 1 ≤ e.current_run
    → flush_run e ≡ (ok tt, record e { runs = e.runs ++ (i, e.current_run) ∷ []; current_run = 0 })
unfolding flush_run push_run
flush_run_lem e v i h some_run =
    let test : ltb 0 e.current_run ≡ true = lt→ltb 0 e.current_run some_run in
    rw test (ap (λ c. push_run c e) h)

pub accumulate-other :
    (w j : ℕ) (e : DictionaryRleEncoder) (v i : ℕ)
    → e.current_value ≡ some (v, i)
    → (v == w) ≡ false
    → 1 ≤ e.current_run
    → accumulate w j e ≡ (
      ok tt,
      record e {
        runs = e.runs ++ (i, e.current_run) ∷ [];
        current_value = some (w, j);
        current_run = 1;
      },
    )
unfolding accumulate accumulate_on start_run
accumulate-other w j e v i h other some_run =
    ap (λ c. accumulate_on c w j e) h ∙ rw (other, flush_run_lem e v i h some_run)

-- An encoder that has seen numbers, the last of them `v`, whose place is `i`.
pub record HasSeen (e : DictionaryRleEncoder) (seen : List ℕ) (v i : ℕ) : Type 0 where
  pub index : IsIndex e.dictionary e.value_to_index
  pub cached : IsCached e.dictionary e.last_cached
  pub current : e.current_value ≡ some (v, i)
  pub place : position nat_equality v e.dictionary ≡ some i
  pub positive : 1 ≤ e.current_run
  pub short : e.current_run ≤ length seen
  pub inside : All (InDictionary e.dictionary) e.runs
  pub count : length e.runs < length seen
  pub values : expand e.dictionary e.runs ++ replicate e.current_run v ≡ seen
