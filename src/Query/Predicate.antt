-- ===== src/Query/Predicate.antt =====
-- query/filter/predicate.rs: filters combined by and, or and not. The maps from a measurement's
-- name are association lists.
pub mod Simplify
pub mod Pruning
pub mod Chunk
mod Tests
use timbre_tsf.Prelude.{
  ℕ, zero, suc, ◌+◌, Bool, true, false, not, ◌&&◌, ◌||◌, Option, none, some, List, [], ◌∷◌,
  if◌then◌else◌,
}
use timbre_tsf.Bytes.Same.{same_string}
use timbre_tsf.Common.Types.{TsValue}
use timbre_tsf.Query.TimeFilter
use timbre_tsf.Query.TimeFilter.{TimeFilter}
use timbre_tsf.Query.ValueFilter
use timbre_tsf.Query.ValueFilter.{ValueFilter}

mutual
  pub data Predicate : Type 0 where
    time : TimeFilter → Predicate
    value : List ℕ → ValueFilter → Predicate
    all_of any_of : Predicates → Predicate
    not_of : Predicate → Predicate

  -- `Vec<Predicate>`
  pub data Predicates : Type 0 where
    nil : Predicates
    cons : Predicate → Predicates → Predicates

-- `get` of a map from a name.
unfoldable pub get : {V : Type 0} → List (List ℕ × V) → List ℕ → Option V
get [] name = none
get (entry ∷ map) name = if same_string entry.0 name then some entry.1 else get map name

-- `values.get(measurement).and_then(|v| v.as_ref())`
unfoldable pub value_of : List (List ℕ × Option TsValue) → List ℕ → Option TsValue
value_of values name = elim (get values name) [ none ↦ none | some v ↦ v ]

unfoldable mutual
  pub evaluate : ℕ → List (List ℕ × Option TsValue) → Predicate → Bool
  evaluate timestamp values (time filter) = TimeFilter.matches filter timestamp
  evaluate timestamp values (value name filter) = ValueFilter.matches filter (value_of values name)
  evaluate timestamp values (all_of ps) = evaluate_all timestamp values ps
  evaluate timestamp values (any_of ps) = evaluate_any timestamp values ps
  evaluate timestamp values (not_of p) = not (evaluate timestamp values p)

  pub evaluate_all : ℕ → List (List ℕ × Option TsValue) → Predicates → Bool
  evaluate_all timestamp values nil = true
  evaluate_all timestamp values (cons p ps) =
      evaluate timestamp values p && evaluate_all timestamp values ps

  pub evaluate_any : ℕ → List (List ℕ × Option TsValue) → Predicates → Bool
  evaluate_any timestamp values nil = false
  evaluate_any timestamp values (cons p ps) =
      evaluate timestamp values p || evaluate_any timestamp values ps

-- The least and the greatest value of a column of a chunk, as `Statistic` gives them.
pub record Range : Type 0 where
  pub min_value : Option TsValue
  pub max_value : Option TsValue

-- No statistics: the chunk cannot be skipped.
unfoldable pub might_match_statistic : ValueFilter → Option Range → Bool
might_match_statistic filter none = true
might_match_statistic filter (some stat) =
    ValueFilter.might_match_range filter stat.min_value stat.max_value

unfoldable mutual
  pub might_match_chunk : ℕ × ℕ → List (List ℕ × Range) → Predicate → Bool
  might_match_chunk range statistics (time filter) =
      TimeFilter.might_match_range filter range.0 range.1
  might_match_chunk range statistics (value name filter) =
      might_match_statistic filter (get statistics name)
  might_match_chunk range statistics (all_of ps) = might_match_all range statistics ps
  might_match_chunk range statistics (any_of ps) = might_match_any range statistics ps
  might_match_chunk range statistics (not_of p) = true

  pub might_match_all : ℕ × ℕ → List (List ℕ × Range) → Predicates → Bool
  might_match_all range statistics nil = true
  might_match_all range statistics (cons p ps) =
      might_match_chunk range statistics p && might_match_all range statistics ps

  pub might_match_any : ℕ × ℕ → List (List ℕ × Range) → Predicates → Bool
  might_match_any range statistics nil = false
  might_match_any range statistics (cons p ps) =
      might_match_chunk range statistics p || might_match_any range statistics ps

-- `extend`, and the two ways to flatten a simplified member of a list.
unfoldable pub extend : Predicates → Predicates → Predicates
extend nil qs = qs
extend (cons p ps) qs = cons p (extend ps qs)

unfoldable pub flatten_and : Predicate → Predicates → Predicates
flatten_and (all_of inner) rest = extend inner rest
flatten_and p rest = cons p rest

unfoldable pub flatten_or : Predicate → Predicates → Predicates
flatten_or (any_of inner) rest = extend inner rest
flatten_or p rest = cons p rest

-- The loop over the members, whose simplification may run out of fuel.
unfoldable pub simplify_each :
    (Predicate → Option Predicate)
    → (Predicate → Predicates → Predicates)
    → Predicates
    → Option Predicates
simplify_each simplify flatten nil = some nil
simplify_each simplify flatten (cons p ps) = elim (simplify p) [
  | none ↦ none
  | some p' ↦ (elim (simplify_each simplify flatten ps) [
    | none ↦ none
    | some rest ↦ some (flatten p' rest)
  ])
]

unfoldable pub as_all : Option Predicates → Option Predicate
as_all none = none
as_all (some ps) = some (all_of ps)

unfoldable pub as_any : Option Predicates → Option Predicate
as_any none = none
as_any (some ps) = some (any_of ps)

-- Double negation: what stands under a simplified negation is simplified once more.
unfoldable pub negate_simplified :
    (Predicate → Option Predicate) → Option Predicate → Option Predicate
negate_simplified simplify none = none
negate_simplified simplify (some (not_of p)) = simplify p
negate_simplified simplify (some p) = some (not_of p)

-- `simplify` on fuel; each call is on a predicate of smaller size.
unfoldable pub simplify : ℕ → Predicate → Option Predicate
simplify zero p = none
simplify (suc n) (time filter) = some (time filter)
simplify (suc n) (value name filter) = some (value name filter)
simplify (suc n) (all_of nil) = some (all_of nil)
simplify (suc n) (all_of (cons p nil)) = simplify n p
simplify (suc n) (all_of (cons p (cons q ps))) =
    as_all (simplify_each (simplify n) flatten_and (cons p (cons q ps)))
simplify (suc n) (any_of nil) = some (any_of nil)
simplify (suc n) (any_of (cons p nil)) = simplify n p
simplify (suc n) (any_of (cons p (cons q ps))) =
    as_any (simplify_each (simplify n) flatten_or (cons p (cons q ps)))
simplify (suc n) (not_of p) = negate_simplified (simplify n) (simplify n p)

-- The number of nodes.
unfoldable mutual
  pub size : Predicate → ℕ
  size (time filter) = 1
  size (value name filter) = 1
  size (all_of ps) = 1 + size_all ps
  size (any_of ps) = 1 + size_all ps
  size (not_of p) = 1 + size p

  pub size_all : Predicates → ℕ
  size_all nil = 0
  size_all (cons p ps) = size p + size_all ps
