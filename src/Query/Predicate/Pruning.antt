-- ===== src/Query/Predicate/Pruning.antt =====
-- What skipping a chunk by the time range and the statistics of its columns relies on.
use timbre_tsf.Prelude.{ℕ, ◌≡◌, refl, Bool, true, false, ◌&&◌, ◌||◌, Option, none, some, List}
use timbre_tsf.Words.{sle}
use timbre_tsf.Common.Types.{TsValue}
use timbre_tsf.Query.TimeFilter.Pruning.{might_match_range_sound}
use timbre_tsf.Query.ValueFilter
use timbre_tsf.Query.ValueFilter.{ValueFilter}
use timbre_tsf.Query.ValueFilter.Pruning.{InRange, value_might_match_sound}
use timbre_tsf.Query.Predicate.{
  Predicate, Predicates, Range, get, value_of, evaluate, evaluate_all, evaluate_any,
  might_match_statistic, might_match_chunk, might_match_all, might_match_any,
}
use timbre_tsf.Query.Predicate.Predicate.{time, value, all_of, any_of, not_of}
use timbre_tsf.Query.Predicate.Predicates.{nil, cons}

-- A row's value of a column, where the chunk has statistics of the column, is in their range.
abbrev pub Covers : Option Range → Option TsValue → Type 0
Covers none v = Unit
Covers (some stat) v = InRange v stat.min_value stat.max_value

statistic_sound :
    (filter : ValueFilter) (stat : Option Range) (v : Option TsValue)
    → Covers stat v
    → ValueFilter.matches filter v ≡ true
    → might_match_statistic filter stat ≡ true
unfolding might_match_statistic
statistic_sound filter none v within h = refl
statistic_sound filter (some stat) v within h =
    value_might_match_sound filter v stat.min_value stat.max_value within h

and_sound :
    (a b c d : Bool)
    → (a ≡ true → c ≡ true)
    → (b ≡ true → d ≡ true)
    → (a && b) ≡ true
    → (c && d) ≡ true
and_sound true b c d f g h = rw (f refl) (g h)
and_sound false b c d f g h = absurd (cc)

or_sound :
    (a b c d : Bool)
    → (a ≡ true → c ≡ true)
    → (b ≡ true → d ≡ true)
    → (a || b) ≡ true
    → (c || d) ≡ true
or_sound true b c d f g h = rw (f refl) refl
or_sound false b true d f g h = refl
or_sound false b false d f g h = g h

module _ (timestamp min_time max_time : ℕ) (values : List (List ℕ × Option TsValue))
    (statistics : List (List ℕ × Range)) (lo : sle 64 min_time timestamp ≡ true)
    (hi : sle 64 timestamp max_time ≡ true)
    (covers : (name : List ℕ) → Covers (get statistics name) (value_of values name)) where
  mutual
    unfolding evaluate might_match_chunk

    sound :
        (p : Predicate)
        → evaluate timestamp values p ≡ true
        → might_match_chunk (min_time, max_time) statistics p ≡ true
    sound (time filter) h = might_match_range_sound filter timestamp min_time max_time lo hi h
    sound (value name filter) h =
        statistic_sound filter (get statistics name) (value_of values name) (covers name) h
    sound (all_of ps) h = sound_all ps h
    sound (any_of ps) h = sound_any ps h
    sound (not_of p) h = refl

    sound_all :
        (ps : Predicates)
        → evaluate_all timestamp values ps ≡ true
        → might_match_all (min_time, max_time) statistics ps ≡ true
    sound_all nil h = refl
    sound_all (cons p ps) h = and_sound _ _ _ _ (sound p) (sound_all ps) h

    sound_any :
        (ps : Predicates)
        → evaluate_any timestamp values ps ≡ true
        → might_match_any (min_time, max_time) statistics ps ≡ true
    sound_any nil h = absurd (cc)
    sound_any (cons p ps) h = or_sound _ _ _ _ (sound p) (sound_any ps) h

-- A chunk is skipped only where no row of it matches: where a predicate selects a row whose
-- timestamp is in the chunk's time range and whose values are in the ranges of the statistics that
-- the chunk has, `might_match_chunk` says that the chunk might match.
pub might_match_chunk_sound :
    (timestamp min_time max_time : ℕ) (values : List (List ℕ × Option TsValue))
    (statistics : List (List ℕ × Range)) (p : Predicate)
    → sle 64 min_time timestamp ≡ true
    → sle 64 timestamp max_time ≡ true
    → ((name : List ℕ) → Covers (get statistics name) (value_of values name))
    → evaluate timestamp values p ≡ true
    → might_match_chunk (min_time, max_time) statistics p ≡ true
might_match_chunk_sound timestamp min_time max_time values statistics p lo hi covers =
    sound timestamp min_time max_time values statistics lo hi covers p
