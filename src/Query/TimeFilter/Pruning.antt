-- ===== src/Query/TimeFilter/Pruning.antt =====
-- What skipping a chunk by its time range relies on, and what `negate` does.
use timbre_tsf.Prelude.{ℕ, ◌≡◌, refl, arith, Bool, true, false, not, List, [], ◌∷◌, ◌==◌}
use timbre_tsf.Words.{sle}
use timbre_tsf.Query.TimeFilter.{
  TimeFilter, contains, any_within, matches, might_match_range, negate,
}

-- The relation of the Boolean tests of ranges and members.
contains→within :
    (set : List ℕ) (timestamp min_time max_time : ℕ)
    → sle 64 min_time timestamp ≡ true
    → sle 64 timestamp max_time ≡ true
    → contains set timestamp ≡ true
    → any_within set min_time max_time ≡ true
unfolding contains any_within
contains→within [] timestamp min_time max_time lo hi h = cc
contains→within (t ∷ set) timestamp min_time max_time lo hi h =
    ground (arith, contains→within set timestamp min_time max_time lo hi)

-- A chunk is skipped only where no row matches: where a filter matches a timestamp within a
-- range, `might_match_range` says so of the range.
pub might_match_range_sound :
    (f : TimeFilter) (timestamp min_time max_time : ℕ)
    → sle 64 min_time timestamp ≡ true
    → sle 64 timestamp max_time ≡ true
    → matches f timestamp ≡ true
    → might_match_range f min_time max_time ≡ true
unfolding matches might_match_range
might_match_range_sound (TimeFilter.greater_than t) timestamp min_time max_time lo hi h =
    ground arith
might_match_range_sound (TimeFilter.greater_than_or_equal t) timestamp min_time max_time lo hi h =
    ground arith
might_match_range_sound (TimeFilter.less_than t) timestamp min_time max_time lo hi h = ground arith
might_match_range_sound (TimeFilter.less_than_or_equal t) timestamp min_time max_time lo hi h =
    ground arith
might_match_range_sound (TimeFilter.between min max) timestamp min_time max_time lo hi h =
    ground arith
might_match_range_sound (TimeFilter.equals t) timestamp min_time max_time lo hi h = ground arith
might_match_range_sound (TimeFilter.not_equals t) timestamp min_time max_time lo hi h = refl
might_match_range_sound (TimeFilter.is_in set) timestamp min_time max_time lo hi h =
    contains→within set timestamp min_time max_time lo hi h
might_match_range_sound (TimeFilter.not_in set) timestamp min_time max_time lo hi h = refl

-- Whether a filter is `Between`.
abbrev pub is_between : TimeFilter → Bool
is_between (TimeFilter.between min max) = true
is_between f = false

not-not : (b : Bool) → b ≡ not (not b)
not-not true = refl
not-not false = refl

-- A filter other than `Between` and its negation share out the timestamps: the negation matches
-- exactly those that the filter does not match.
pub matches-negate :
    (f : TimeFilter) (timestamp : ℕ)
    → is_between f ≡ false
    → matches (negate f) timestamp ≡ not (matches f timestamp)
unfolding matches negate
matches-negate (TimeFilter.greater_than t) timestamp h = ground arith
matches-negate (TimeFilter.greater_than_or_equal t) timestamp h = ground arith
matches-negate (TimeFilter.less_than t) timestamp h = ground arith
matches-negate (TimeFilter.less_than_or_equal t) timestamp h = ground arith
matches-negate (TimeFilter.between min max) timestamp h = cc
matches-negate (TimeFilter.equals t) timestamp h = refl
matches-negate (TimeFilter.not_equals t) timestamp h = not-not (timestamp == t)
matches-negate (TimeFilter.is_in set) timestamp h = refl
matches-negate (TimeFilter.not_in set) timestamp h = not-not (contains set timestamp)
