-- ===== src/Query/ValueFilter/Tests.antt =====
-- Concrete filters on values, and the theorems at them.
use timbre_tsf.Prelude.{◌≡◌, refl, true, false, some, List, [], ◌∷◌}
use timbre_tsf.Common.Types.{TsValue}
use timbre_tsf.Query.ValueFilter.{
  ValueFilter, matches, matches_value, might_match_range, negate, contains, any_within, compare_gt,
  compare_lt, compare_lte, value_eq,
}
use timbre_tsf.Query.ValueFilter.Pruning.{value_negate_exclusive}

-- -1, as an i32.
abbrev minus_one : TsValue
minus_one = TsValue.int32 4294967295

abbrev not_a_number : TsValue
not_a_number = TsValue.double 0x7ff8_0000_0000_0000

abbrev one_half : TsValue
one_half = TsValue.double 0x3fe0_0000_0000_0000

abbrev two_values : List TsValue
two_values = minus_one ∷ TsValue.int32 7 ∷ []

skipped :
    might_match_range
      (ValueFilter.is_in two_values)
      (some (TsValue.int32 0))
      (some (TsValue.int32 6))
    ≡ false
unfolding might_match_range any_within compare_lt compare_gt
skipped = refl

not_skipped :
    might_match_range (ValueFilter.greater_than not_a_number) (some one_half) (some one_half) ≡ true
unfolding might_match_range compare_lte compare_lt value_eq
not_skipped = refl

unequal : value_eq not_a_number not_a_number ≡ false
unfolding value_eq
unequal = refl

present : matches (ValueFilter.is_in two_values) (some minus_one) ≡ true
unfolding matches matches_value contains value_eq
present = refl

below : compare_lt minus_one (TsValue.int32 4294967294) ≡ false
unfolding compare_lt
below = refl

above : compare_lt (TsValue.int32 0) minus_one ≡ false
unfolding compare_lt
above = refl

value_negate_exclusive_example :
    matches (negate (ValueFilter.is_in two_values)) (some minus_one) ≡ false
value_negate_exclusive_example =
    value_negate_exclusive (ValueFilter.is_in two_values) (some minus_one) present
