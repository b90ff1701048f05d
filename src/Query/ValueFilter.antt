-- ===== src/Query/ValueFilter.antt =====
-- query/filter/value_filter.rs: filters on the value of a column, and on the least and the greatest
-- value of a chunk.
pub mod Order
pub mod Pruning
mod Tests
use timbre_tsf.Prelude.{
  ℕ, Bool, true, false, not, ◌&&◌, ◌||◌, Option, none, some, List, [], ◌∷◌, ◌==◌, ltb,
  if◌then◌else◌,
}
use timbre_tsf.Words.{slt}
use timbre_tsf.Words.Float.{f32_format, f64_format, float_lt, float_eq}
use timbre_tsf.Bytes.Same.{same_string}
use timbre_tsf.Common.Types.{TsValue}

-- `is_in` is the variant `In`.
pub data ValueFilter : Type 0 where
  greater_than greater_than_or_equal less_than less_than_or_equal : TsValue → ValueFilter
  equals not_equals : TsValue → ValueFilter
  is_in not_in : List TsValue → ValueFilter
  is_null is_not_null : ValueFilter

-- `<` and `==` of bool and of strings, which compare bytes.
abbrev pub bool_lt : Bool → Bool → Bool
bool_lt a b = not a && b

abbrev pub bool_eq : Bool → Bool → Bool
bool_eq a b = if a then b else not b

unfoldable pub bytes_lt : List ℕ → List ℕ → Bool
bytes_lt [] [] = false
bytes_lt [] (b ∷ t) = true
bytes_lt (a ∷ s) [] = false
bytes_lt (a ∷ s) (b ∷ t) = ltb a b || (a == b && bytes_lt s t)

-- The derived `==` of values.
unfoldable pub value_eq : TsValue → TsValue → Bool
value_eq (TsValue.boolean a) (TsValue.boolean b) = bool_eq a b
value_eq (TsValue.int32 a) (TsValue.int32 b) = a == b
value_eq (TsValue.int64 a) (TsValue.int64 b) = a == b
value_eq (TsValue.float a) (TsValue.float b) = float_eq f32_format a b
value_eq (TsValue.double a) (TsValue.double b) = float_eq f64_format a b
value_eq (TsValue.text a) (TsValue.text b) = same_string a b
value_eq (TsValue.string a) (TsValue.string b) = same_string a b
value_eq (TsValue.blob a) (TsValue.blob b) = same_string a b
value_eq TsValue.null TsValue.null = true
value_eq _ _ = false

unfoldable pub compare_gt : TsValue → TsValue → Bool
compare_gt (TsValue.int32 a) (TsValue.int32 b) = slt 32 b a
compare_gt (TsValue.int64 a) (TsValue.int64 b) = slt 64 b a
compare_gt (TsValue.float a) (TsValue.float b) = float_lt f32_format b a
compare_gt (TsValue.double a) (TsValue.double b) = float_lt f64_format b a
compare_gt (TsValue.boolean a) (TsValue.boolean b) = bool_lt b a
compare_gt (TsValue.text a) (TsValue.text b) = bytes_lt b a
compare_gt (TsValue.string a) (TsValue.string b) = bytes_lt b a
compare_gt _ _ = false

unfoldable pub compare_lt : TsValue → TsValue → Bool
compare_lt (TsValue.int32 a) (TsValue.int32 b) = slt 32 a b
compare_lt (TsValue.int64 a) (TsValue.int64 b) = slt 64 a b
compare_lt (TsValue.float a) (TsValue.float b) = float_lt f32_format a b
compare_lt (TsValue.double a) (TsValue.double b) = float_lt f64_format a b
compare_lt (TsValue.boolean a) (TsValue.boolean b) = bool_lt a b
compare_lt (TsValue.text a) (TsValue.text b) = bytes_lt a b
compare_lt (TsValue.string a) (TsValue.string b) = bytes_lt a b
compare_lt _ _ = false

unfoldable pub compare_gte : TsValue → TsValue → Bool
compare_gte a b = compare_gt a b || value_eq a b

unfoldable pub compare_lte : TsValue → TsValue → Bool
compare_lte a b = compare_lt a b || value_eq a b

-- `set.contains(val)`
unfoldable pub contains : List TsValue → TsValue → Bool
contains [] v = false
contains (target ∷ set) v = value_eq target v || contains set v

-- The arms of the inner match, on a value that is there.
unfoldable pub matches_value : ValueFilter → TsValue → Bool
matches_value (ValueFilter.greater_than t) v = compare_gt v t
matches_value (ValueFilter.greater_than_or_equal t) v = compare_gte v t
matches_value (ValueFilter.less_than t) v = compare_lt v t
matches_value (ValueFilter.less_than_or_equal t) v = compare_lte v t
matches_value (ValueFilter.equals t) v = value_eq v t
matches_value (ValueFilter.not_equals t) v = not (value_eq v t)
matches_value (ValueFilter.is_in set) v = contains set v
matches_value (ValueFilter.not_in set) v = not (contains set v)
matches_value ValueFilter.is_null v = false
matches_value ValueFilter.is_not_null v = true

abbrev is_null_filter : ValueFilter → Bool
is_null_filter ValueFilter.is_null = true
is_null_filter f = false

unfoldable pub matches : ValueFilter → Option TsValue → Bool
matches f (some v) = matches_value f v
matches f none = is_null_filter f

-- `set.iter().any(..)` over a range.
unfoldable pub any_within : List TsValue → TsValue → TsValue → Bool
any_within [] least greatest = false
any_within (t ∷ set) least greatest =
    (not (compare_lt t least) && not (compare_gt t greatest)) || any_within set least greatest

-- Both ends of a range, where both are known.
abbrev with_both : Option TsValue → Option TsValue → (TsValue → TsValue → Bool) → Bool
with_both (some least) (some greatest) test = test least greatest
with_both (some least) none test = true
with_both none greatest test = true

abbrev with_one : Option TsValue → (TsValue → Bool) → Bool
with_one none test = true
with_one (some v) test = test v

unfoldable pub might_match_range : ValueFilter → Option TsValue → Option TsValue → Bool
might_match_range ValueFilter.is_null least greatest = true
might_match_range ValueFilter.is_not_null least greatest = true
might_match_range (ValueFilter.greater_than t) least greatest =
    with_one greatest λ v. not (compare_lte v t)
might_match_range (ValueFilter.greater_than_or_equal t) least greatest =
    with_one greatest λ v. not (compare_lt v t)
might_match_range (ValueFilter.less_than t) least greatest =
    with_one least λ v. not (compare_gte v t)
might_match_range (ValueFilter.less_than_or_equal t) least greatest =
    with_one least λ v. not (compare_gt v t)
might_match_range (ValueFilter.equals t) least greatest =
    with_both least greatest λ u v. not (compare_lt t u) && not (compare_gt t v)
might_match_range (ValueFilter.not_equals t) least greatest = true
might_match_range (ValueFilter.is_in set) least greatest = with_both least greatest (any_within set)
might_match_range (ValueFilter.not_in set) least greatest = true

unfoldable pub negate : ValueFilter → ValueFilter
negate (ValueFilter.greater_than v) = ValueFilter.less_than_or_equal v
negate (ValueFilter.greater_than_or_equal v) = ValueFilter.less_than v
negate (ValueFilter.less_than v) = ValueFilter.greater_than_or_equal v
negate (ValueFilter.less_than_or_equal v) = ValueFilter.greater_than v
negate (ValueFilter.equals v) = ValueFilter.not_equals v
negate (ValueFilter.not_equals v) = ValueFilter.equals v
negate (ValueFilter.is_in set) = ValueFilter.not_in set
negate (ValueFilter.not_in set) = ValueFilter.is_in set
negate ValueFilter.is_null = ValueFilter.is_not_null
negate ValueFilter.is_not_null = ValueFilter.is_null
