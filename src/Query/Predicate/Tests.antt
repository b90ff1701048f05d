-- ===== src/Query/Predicate/Tests.antt =====
-- Concrete predicates, and the theorems at them.
use timbre_tsf.Prelude.{
  All, ℕ, ◌≡◌, ◌≤◌, refl, Bool, if◌then◌else◌, true, false, some, none, Option, List, [], ◌∷◌,
  arith,
}
use timbre_tsf.Bytes.Same.{same_string}
use timbre_tsf.Common.Types.{TsDataType, TsValue}
use timbre_tsf.Common.Statistic.{FloatArithmetic, base, new}
use timbre_tsf.Common.Statistic.Covered.{takes, as_ts_value, update_all}
use timbre_tsf.Encoding.{Value}
use timbre_tsf.Query.Predicate.Chunk.{one_column, chunk_kept}
use timbre_tsf.Query.TimeFilter
use timbre_tsf.Query.TimeFilter.{TimeFilter}
use timbre_tsf.Query.ValueFilter
use timbre_tsf.Query.ValueFilter.{ValueFilter, compare_gt, compare_lt}
use timbre_tsf.Query.Predicate.{
  Predicate, Range, get, value_of, evaluate, might_match_chunk, might_match_statistic, simplify,
  simplify_each, flatten_and, extend, as_all, negate_simplified, size,
}
use timbre_tsf.Query.Predicate.Predicate.{time, value, all_of, not_of}
use timbre_tsf.Query.Predicate.Predicates.{nil, cons}
use timbre_tsf.Query.Predicate.Simplify.{simplify_lem}
use timbre_tsf.Query.Predicate.Pruning.{Covers}

abbrev temperature : List ℕ
temperature = 116 ∷ []

abbrev late : Predicate
late = time (TimeFilter.greater_than 5)

abbrev warm : Predicate
warm = value temperature (ValueFilter.greater_than (TsValue.int32 20))

-- late and ((warm and late) and not not warm)
abbrev nested : Predicate
nested =
    all_of (cons late (cons (all_of (cons warm (cons late nil))) (cons (not_of (not_of warm)) nil)))

abbrev row : List (List ℕ × Option TsValue)
row = (temperature, some (TsValue.int32 21)) ∷ []

abbrev chunk_range : Range
chunk_range = record { min_value = some (TsValue.int32 3); max_value = some (TsValue.int32 30) }

abbrev chunk : List (List ℕ × Range)
chunk = (temperature, chunk_range) ∷ []

abbrev cold_chunk : List (List ℕ × Range)
cold_chunk =
    (
      temperature,
      record { min_value = some (TsValue.int32 3); max_value = some (TsValue.int32 10) },
    )
    ∷ []

flat : simplify 9 nested ≡ some (all_of (cons late (cons warm (cons late (cons warm nil)))))
unfolding simplify simplify_each flatten_and extend as_all negate_simplified
flat = refl

selected : evaluate 6 row nested ≡ true
unfolding evaluate value_of get same_string TimeFilter.matches ValueFilter.matches
    ValueFilter.matches_value compare_gt
selected = refl

skipped : might_match_chunk (0, 9) cold_chunk nested ≡ false
unfolding TimeFilter.might_match_range might_match_chunk might_match_statistic get same_string
    ValueFilter.might_match_range ValueFilter.compare_lte compare_lt ValueFilter.value_eq
skipped = refl

small : size nested ≤ 9
unfolding size
small = omega arith

simplify_lem_example :
    (q : Predicate) × (simplify 9 nested ≡ some q)
    × (size q ≤ size nested)
    × (evaluate 6 row q ≡ evaluate 6 row nested)
simplify_lem_example = simplify_lem 6 row 9 nested small

above : compare_lt (TsValue.int32 21) (TsValue.int32 3) ≡ false
unfolding compare_lt
above = refl

below : compare_lt (TsValue.int32 30) (TsValue.int32 21) ≡ false
unfolding compare_lt
below = refl

covers : (name : List ℕ) → Covers (get chunk name) (value_of row name)
unfolding value_of get
covers name = covered (same_string temperature name)
  where
    covered :
        (b : Bool)
        → Covers
            (if b then some chunk_range else none)
            (elim (if b then some (some (TsValue.int32 21)) else none) as (λ x. Option TsValue) [
              | none ↦ none
              | some v ↦ v
            ])
    covered true = (above, below)
    covered false = tt

abbrev no_sums : FloatArithmetic
no_sums = record { add = λ x y. 0; from_i64 = λ x. x; from_f32 = λ x. x }

abbrev readings : List (ℕ × Value)
readings = (3, Value.i32 7) ∷ (6, Value.i32 21) ∷ []

readings_taken : All (λ item. takes (new TsDataType.int32) item.1 ≡ true) readings
unfolding new
readings_taken = (refl, (refl, tt))

row-temperature : value_of row temperature ≡ some (as_ts_value (Value.i32 21))
unfolding value_of get same_string
row-temperature = refl

chunk_kept_example :
    let s = update_all no_sums readings (new TsDataType.int32) in
    might_match_chunk ((base s).start_time, (base s).end_time) (one_column temperature s) nested
    ≡ true
chunk_kept_example =
    chunk_kept no_sums TsDataType.int32 readings temperature 1 6 (Value.i32 21) row nested
      readings_taken refl row-temperature selected
