-- ===== src/Query/Predicate/Chunk.antt =====
-- A chunk whose statistic was built from its values, as predicate.rs sees it.
use timbre_tsf.Prelude.{
  ℕ, zero, suc, ◌≡◌, refl, sym, ap, ◌∙◌, arith, Bool, true, false, Option, none, some, List, [],
  ◌∷◌, All, get_elem?, if◌then◌else◌,
}
use timbre_tsf.Words.{slt, sle}
use timbre_tsf.Bytes.Same.{same_string, same_string→≡}
use timbre_tsf.Common.Types.{TsDataType, TsValue}
use timbre_tsf.Common.Statistic.{FloatArithmetic, StatisticEnum, base, new, min_value, max_value}
use timbre_tsf.Common.Statistic.Covered.{takes, as_ts_value, update_all, update_all-Covers}
use timbre_tsf.Common.Statistic.Covered
use timbre_tsf.Encoding.{Value}
use timbre_tsf.Query.ValueFilter.Pruning.{InRange}
use timbre_tsf.Query.Predicate.{Predicate, Range, get, value_of, evaluate, might_match_chunk}
use timbre_tsf.Query.Predicate.Pruning.{Covers, might_match_chunk_sound}

All-get_elem? :
    {A : Type 0} (P : A → Type 0) (l : List A) (i : ℕ) (a : A)
    → All P l
    → get_elem? l i ≡ some a
    → P a
All-get_elem? P [] i a h e = cc
All-get_elem? P (b ∷ l) zero a (h, hs) e = let same : b ≡ a = cc in rw same at h
All-get_elem? P (b ∷ l) (suc i) a (h, hs) e = All-get_elem? P l i a hs e

in_time :
    (least greatest t : ℕ)
    → slt 64 t least ≡ false
    → slt 64 greatest t ≡ false
    → (sle 64 least t ≡ true) × (sle 64 t greatest ≡ true)
in_time least greatest t lo hi = (ground arith, ground arith)

-- The statistics of a chunk of one column.
abbrev pub one_column : List ℕ → StatisticEnum → List (List ℕ × Range)
one_column name s = (name, record { min_value = min_value s; max_value = max_value s }) ∷ []

one_column-Covers :
    (name other : List ℕ) (s : StatisticEnum) (v : TsValue)
    (values : List (List ℕ × Option TsValue))
    → InRange (some v) (min_value s) (max_value s)
    → value_of values name ≡ some v
    → Covers (get (one_column name s) other) (value_of values other)
unfolding get
one_column-Covers name other s v values within here = by_name (same_string name other) refl
  where
    by_name :
        (b : Bool)
        → same_string name other ≡ b
        → Covers
            (if b then some (record { min_value = min_value s; max_value = max_value s }) else none)
            (value_of values other)
    by_name false e = tt
    by_name true e =
        let same =
          sym (ap (λ (n : List ℕ). value_of values n) (same_string→≡ name other e)) ∙ here in
        rw same within

-- A chunk of one column, with the statistic that was updated with each of its values, is never
-- skipped where a predicate selects one of its rows: whatever the predicate, the type, the values
-- and the other columns of the row.
pub chunk_kept :
    (fp : FloatArithmetic) (data_type : TsDataType) (items : List (ℕ × Value)) (name : List ℕ)
    (i t : ℕ) (v : Value) (values : List (List ℕ × Option TsValue)) (p : Predicate)
    → All (λ item. takes (new data_type) item.1 ≡ true) items
    → get_elem? items i ≡ some (t, v)
    → value_of values name ≡ some (as_ts_value v)
    → evaluate t values p ≡ true
    → let s = update_all fp items (new data_type) in
      might_match_chunk ((base s).start_time, (base s).end_time) (one_column name s) p ≡ true
chunk_kept fp data_type items name i t v values p typed at_i here selected =
    let s = update_all fp items (new data_type) in
    let ((lo, hi), within) =
      All-get_elem? (Covered.Covers s) items i (t, v) (update_all-Covers fp data_type items typed)
        at_i in
    let (after, before) = in_time (base s).start_time (base s).end_time t lo hi in
    might_match_chunk_sound t (base s).start_time (base s).end_time values (one_column name s) p
      after before (λ other. one_column-Covers name other s (as_ts_value v) values within here)
      selected
