-- ===== src/Query/TimeFilter/Tests.antt =====
-- Concrete filters, and the theorems at them.
use timbre_tsf.Prelude.{ℕ, ◌≡◌, refl, true, false, not, List, [], ◌∷◌}
use timbre_tsf.Query.TimeFilter.{
  TimeFilter, matches, might_match_range, negate, any_within, contains,
}
use timbre_tsf.Query.TimeFilter.Pruning.{might_match_range_sound, matches-negate}

abbrev minus_one : ℕ
minus_one = 18446744073709551615

abbrev two_times : List ℕ
two_times = minus_one ∷ 7 ∷ []

skipped : might_match_range (TimeFilter.is_in two_times) 0 6 ≡ false
unfolding might_match_range any_within
skipped = refl

signed : matches (TimeFilter.less_than 0) minus_one ≡ true
unfolding matches
signed = refl

present : matches (TimeFilter.is_in two_times) 7 ≡ true
unfolding matches contains
present = refl

might_match_range_sound_example : might_match_range (TimeFilter.is_in two_times) 5 9 ≡ true
might_match_range_sound_example =
    might_match_range_sound (TimeFilter.is_in two_times) 7 5 9 refl refl present

matches-negate_example :
    matches (negate (TimeFilter.greater_than minus_one)) 7
    ≡ not (matches (TimeFilter.greater_than minus_one) 7)
matches-negate_example = matches-negate (TimeFilter.greater_than minus_one) 7 refl
