-- ===== src/Query/ValueFilter/Pruning.antt =====
-- What skipping a chunk by the least and the greatest value of a column relies on.
use timbre_tsf.Prelude.{
  ◌≡◌, refl, arith, true, false, not, ◌&&◌, Option, none, some, List, [], ◌∷◌, Bool-cases, inl, inr,
}
use timbre_tsf.Common.Types.{TsValue}
use timbre_tsf.Query.ValueFilter.{
  ValueFilter, value_eq, compare_gt, compare_lt, compare_gte, compare_lte, contains, matches,
  matches_value, any_within, might_match_range, negate,
}
use timbre_tsf.Query.ValueFilter.Order.{
  compare_gt-flip, lt_trans, lt_asym, lt-eq_left, lt-eq_right, lt-eq_left', lt-eq_right',
}

-- A value that is not less than the least nor greater than the greatest one, where these are known.
abbrev pub NotBelow : Option TsValue → TsValue → Type 0
NotBelow none v = Unit
NotBelow (some least) v = compare_lt v least ≡ false

abbrev pub NotAbove : Option TsValue → TsValue → Type 0
NotAbove none v = Unit
NotAbove (some greatest) v = compare_lt greatest v ≡ false

-- What is greater than a threshold is greater than all that the threshold is not less than.
lte_lt : (a b c : TsValue) → compare_lte a b ≡ true → compare_lt b c ≡ true → compare_lt a c ≡ true
unfolding compare_lte
lte_lt a b c h k = ground (arith, lt_trans a b c, lt-eq_left a b c)

lt_gte : (a b c : TsValue) → compare_lt a b ≡ true → compare_gte c b ≡ true → compare_lt a c ≡ true
unfolding compare_gte
lt_gte a b c h k = ground (arith, compare_gt-flip c b, lt_trans a b c, lt-eq_right' a b c)

-- A target that equals a value of the range is not outside.
within_range :
    (t v least greatest : TsValue)
    → value_eq t v ≡ true
    → compare_lt v least ≡ false
    → compare_lt greatest v ≡ false
    → (not (compare_lt t least) && not (compare_gt t greatest)) ≡ true
within_range t v least greatest h lo hi =
    ground (arith, compare_gt-flip t greatest, lt-eq_left' v t least, lt-eq_right greatest t v)

contains→within :
    (set : List TsValue) (v least greatest : TsValue)
    → compare_lt v least ≡ false
    → compare_lt greatest v ≡ false
    → contains set v ≡ true
    → any_within set least greatest ≡ true
unfolding contains any_within
contains→within [] v least greatest lo hi h = cc
contains→within (t ∷ set) v least greatest lo hi h =
    ground (arith, within_range t v least greatest, contains→within set v least greatest lo hi)

-- One filter at a value that is there.
value_sound :
    (f : ValueFilter) (v : TsValue) (least greatest : Option TsValue)
    → NotBelow least v
    → NotAbove greatest v
    → matches_value f v ≡ true
    → might_match_range f least greatest ≡ true
unfolding matches_value might_match_range
value_sound ValueFilter.is_null v least greatest lo hi h = refl
value_sound ValueFilter.is_not_null v least greatest lo hi h = refl
value_sound (ValueFilter.not_equals t) v least greatest lo hi h = refl
value_sound (ValueFilter.not_in set) v least greatest lo hi h = refl
value_sound (ValueFilter.greater_than t) v least none lo hi h = refl
value_sound (ValueFilter.greater_than t) v least (some g) lo hi h =
    ground (arith, compare_gt-flip v t, lte_lt g t v)
value_sound (ValueFilter.greater_than_or_equal t) v least none lo hi h = refl
value_sound (ValueFilter.greater_than_or_equal t) v least (some g) lo hi h =
    ground (arith, lt_gte g t v)
value_sound (ValueFilter.less_than t) v none greatest lo hi h = refl
value_sound (ValueFilter.less_than t) v (some l) greatest lo hi h = ground (arith, lt_gte v t l)
value_sound (ValueFilter.less_than_or_equal t) v none greatest lo hi h = refl
value_sound (ValueFilter.less_than_or_equal t) v (some l) greatest lo hi h =
    ground (arith, compare_gt-flip l t, lte_lt v t l)
value_sound (ValueFilter.equals t) v none greatest lo hi h = refl
value_sound (ValueFilter.equals t) v (some l) none lo hi h = refl
value_sound (ValueFilter.equals t) v (some l) (some g) lo hi h =
    ground (arith, compare_gt-flip t g, lt-eq_left v t l, lt-eq_right' g t v)
value_sound (ValueFilter.is_in set) v none greatest lo hi h = refl
value_sound (ValueFilter.is_in set) v (some l) none lo hi h = refl
value_sound (ValueFilter.is_in set) v (some l) (some g) lo hi h = contains→within set v l g lo hi h

-- The value of a row that no statistic excludes: there is none, or it is in the range.
abbrev pub InRange : Option TsValue → Option TsValue → Option TsValue → Type 0
InRange none least greatest = Unit
InRange (some v) least greatest = NotBelow least v × NotAbove greatest v

-- A chunk is skipped only where no row matches: where a filter matches a value, or a missing one,
-- that is neither less than the least value of a chunk nor greater than the greatest, as far as
-- these are known, `might_match_range` says so of the chunk. NaN and values of other types than
-- the statistics' are no exception.
pub value_might_match_sound :
    (f : ValueFilter) (value least greatest : Option TsValue)
    → InRange value least greatest
    → matches f value ≡ true
    → might_match_range f least greatest ≡ true
unfolding matches
value_might_match_sound f (some v) least greatest (lo, hi) h =
    value_sound f v least greatest lo hi h
value_might_match_sound f none least greatest within h = missing f h
  where
    missing : (f : ValueFilter) → matches f none ≡ true → might_match_range f least greatest ≡ true
    missing ValueFilter.is_null h = unfold might_match_range in refl
    missing ValueFilter.is_not_null h = unfold might_match_range in refl
    missing _ h = absurd (cc)

-- Nothing is both less and equal.
lt→ne : (a b : TsValue) → compare_lt a b ≡ true → value_eq b a ≡ false
lt→ne a b h = elim (Bool-cases (value_eq b a)) [
  | inl same ↦ let loop = lt-eq_right a b a h same in absurd (cc (loop, lt_asym a a loop))
  | inr other ↦ other
]

lt→ne' : (a b : TsValue) → compare_lt a b ≡ true → value_eq a b ≡ false
lt→ne' a b h = elim (Bool-cases (value_eq a b)) [
  | inl same ↦ let loop = lt-eq_right' a b a h same in absurd (cc (loop, lt_asym a a loop))
  | inr other ↦ other
]

-- No value, nor a missing one, is matched by a filter and by its negation.
pub value_negate_exclusive :
    (f : ValueFilter) (value : Option TsValue)
    → matches f value ≡ true
    → matches (negate f) value ≡ false
unfolding matches matches_value negate compare_lte compare_gte
value_negate_exclusive (ValueFilter.greater_than t) (some v) h =
    ground (arith, compare_gt-flip v t, lt_asym t v, lt→ne t v)
value_negate_exclusive (ValueFilter.greater_than_or_equal t) (some v) h =
    ground (arith, compare_gt-flip v t, lt_asym v t, lt→ne' v t)
value_negate_exclusive (ValueFilter.less_than t) (some v) h =
    ground (arith, compare_gt-flip v t, lt_asym v t, lt→ne' v t)
value_negate_exclusive (ValueFilter.less_than_or_equal t) (some v) h =
    ground (arith, compare_gt-flip v t, lt_asym t v, lt→ne t v)
value_negate_exclusive (ValueFilter.equals t) (some v) h = rw h
value_negate_exclusive (ValueFilter.not_equals t) (some v) h = ground arith
value_negate_exclusive (ValueFilter.is_in set) (some v) h = rw h
value_negate_exclusive (ValueFilter.not_in set) (some v) h = ground arith
value_negate_exclusive ValueFilter.is_null (some v) h = cc
value_negate_exclusive ValueFilter.is_not_null (some v) h = refl
value_negate_exclusive ValueFilter.is_null none h = refl
value_negate_exclusive ValueFilter.is_not_null none h = cc
value_negate_exclusive _ none h = refl
