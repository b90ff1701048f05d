-- ===== src/Query/TimeFilter.antt =====
-- query/filter/time_filter.rs: filters on the timestamp of a row, and on the time range of a chunk.
pub mod Pruning
mod Tests
use timbre_tsf.Prelude.{ℕ, Bool, true, false, not, ◌&&◌, ◌||◌, List, [], ◌∷◌, ◌==◌, ltb, leb}
use timbre_tsf.Words.{slt, sle}

-- A timestamp is the bit pattern of an i64. `is_in` is the variant `In`.
pub data TimeFilter : Type 0 where
  greater_than greater_than_or_equal less_than less_than_or_equal : ℕ → TimeFilter
  between : ℕ → ℕ → TimeFilter
  equals not_equals : ℕ → TimeFilter
  is_in not_in : List ℕ → TimeFilter

-- `set.contains(&timestamp)`, and `set.iter().any(..)` over a range.
pub contains : List ℕ → ℕ → Bool
contains [] timestamp = false
contains (t ∷ set) timestamp = t == timestamp || contains set timestamp

pub any_within : List ℕ → ℕ → ℕ → Bool
any_within [] min_time max_time = false
any_within (t ∷ set) min_time max_time =
    (sle 64 min_time t && sle 64 t max_time) || any_within set min_time max_time

unfoldable pub matches : TimeFilter → ℕ → Bool
unfolding contains
matches (TimeFilter.greater_than t) timestamp = slt 64 t timestamp
matches (TimeFilter.greater_than_or_equal t) timestamp = sle 64 t timestamp
matches (TimeFilter.less_than t) timestamp = slt 64 timestamp t
matches (TimeFilter.less_than_or_equal t) timestamp = sle 64 timestamp t
matches (TimeFilter.between min max) timestamp = sle 64 min timestamp && sle 64 timestamp max
matches (TimeFilter.equals t) timestamp = timestamp == t
matches (TimeFilter.not_equals t) timestamp = not (timestamp == t)
matches (TimeFilter.is_in set) timestamp = contains set timestamp
matches (TimeFilter.not_in set) timestamp = not (contains set timestamp)

unfoldable pub might_match_range : TimeFilter → ℕ → ℕ → Bool
unfolding any_within
might_match_range (TimeFilter.greater_than t) min_time max_time = slt 64 t max_time
might_match_range (TimeFilter.greater_than_or_equal t) min_time max_time = sle 64 t max_time
might_match_range (TimeFilter.less_than t) min_time max_time = slt 64 min_time t
might_match_range (TimeFilter.less_than_or_equal t) min_time max_time = sle 64 min_time t
might_match_range (TimeFilter.between min max) min_time max_time =
    not (slt 64 max_time min || slt 64 max min_time)
might_match_range (TimeFilter.equals t) min_time max_time = sle 64 min_time t && sle 64 t max_time
might_match_range (TimeFilter.not_equals t) min_time max_time = true
might_match_range (TimeFilter.is_in set) min_time max_time = any_within set min_time max_time
might_match_range (TimeFilter.not_in set) min_time max_time = true

-- `Between` stays as it is: the caller is to use a NOT predicate.
pub negate : TimeFilter → TimeFilter
negate (TimeFilter.greater_than t) = TimeFilter.less_than_or_equal t
negate (TimeFilter.greater_than_or_equal t) = TimeFilter.less_than t
negate (TimeFilter.less_than t) = TimeFilter.greater_than_or_equal t
negate (TimeFilter.less_than_or_equal t) = TimeFilter.greater_than t
negate (TimeFilter.equals t) = TimeFilter.not_equals t
negate (TimeFilter.not_equals t) = TimeFilter.equals t
negate (TimeFilter.is_in set) = TimeFilter.not_in set
negate (TimeFilter.not_in set) = TimeFilter.is_in set
negate (TimeFilter.between min max) = TimeFilter.between min max
