-- ===== src/Common/Statistic/Merging.antt =====
-- The arms of `merge` of statistic.rs: an empty side, and what two sides that hold values hold together.
use timbre_tsf.Prelude.{ℕ, ◌≡◌, true, false, ◌==◌}
use timbre_tsf.Words.Float.{f32_format, f64_format}
use timbre_tsf.Encoding.{Value, Kind}
use timbre_tsf.Common.Statistic.{
  FloatArithmetic, BaseStats, StatisticEnum, base, merge, merge_base, merge_int32, merge_int64,
  merge_float, merge_double,
}
use timbre_tsf.Common.Statistic.Extremes.{
  int_Between_first, int_Between_other, float_Between_first, float_Between_other,
}
use timbre_tsf.Common.Statistic.Covered.{InTime, Holds, Proper}

abbrev pub type_of : StatisticEnum → Kind
type_of (StatisticEnum.boolean s) = Kind.bool
type_of (StatisticEnum.int32 s) = Kind.i32
type_of (StatisticEnum.int64 s) = Kind.i64
type_of (StatisticEnum.float s) = Kind.f32
type_of (StatisticEnum.double s) = Kind.f64
type_of (StatisticEnum.string s) = Kind.string

first_time : (b o : BaseStats) (t : ℕ) → InTime b t → InTime (merge_base o b) t
first_time b o t h = int_Between_first 64 b.start_time b.end_time t o.start_time o.end_time h

other_time : (b o : BaseStats) (t : ℕ) → InTime o t → InTime (merge_base o b) t
other_time b o t h = int_Between_other 64 b.start_time b.end_time t o.start_time o.end_time h

module _ (fp : FloatArithmetic) where
  -- What the statistic holds, both hold together, where neither is empty.
  pub merge_first :
      (s o : StatisticEnum) (t : ℕ) (v : Value)
      → type_of o ≡ type_of s
      → ((base s).count == 0) ≡ false
      → ((base o).count == 0) ≡ false
      → Proper s
      → Proper o
      → Holds s (t, v)
      → Holds (merge fp o s) (t, v)
  unfolding merge merge_int32 merge_int64 merge_float merge_double
  merge_first (StatisticEnum.boolean s) (StatisticEnum.boolean o) t (Value.bool v) same some_s
        some_o p q time =
      rw (some_o, some_s) (first_time s.base o.base t time)
  merge_first (StatisticEnum.int32 s) (StatisticEnum.int32 o) t (Value.i32 v) same some_s some_o p q
        (time, within) =
      rw (some_o, some_s)
        (
          first_time s.base o.base t time,
          int_Between_first 32 s.min_value s.max_value v o.min_value o.max_value within,
        )
  merge_first (StatisticEnum.int64 s) (StatisticEnum.int64 o) t (Value.i64 v) same some_s some_o p q
        (time, within) =
      rw (some_o, some_s)
        (
          first_time s.base o.base t time,
          int_Between_first 64 s.min_value s.max_value v o.min_value o.max_value within,
        )
  merge_first (StatisticEnum.float s) (StatisticEnum.float o) t (Value.f32 v) same some_s some_o p q
        (time, within) =
      rw (some_o, some_s)
        (
          first_time s.base o.base t time,
          float_Between_first f32_format s.min_value s.max_value o.min_value o.max_value v p q
              within,
        )
  merge_first (StatisticEnum.double s) (StatisticEnum.double o) t (Value.f64 v) same some_s some_o p
        q (time, within) =
      rw (some_o, some_s)
        (
          first_time s.base o.base t time,
          float_Between_first f64_format s.min_value s.max_value o.min_value o.max_value v p q
              within,
        )
  merge_first (StatisticEnum.string s) (StatisticEnum.string o) t (Value.string v) same some_s
        some_o p q time =
      rw (some_o, some_s) (first_time s.base o.base t time)
  merge_first _ _ t _ same some_s some_o p q h = absurd (cc)

  -- What the other holds, both hold together, where neither is empty.
  pub merge_other :
      (s o : StatisticEnum) (t : ℕ) (v : Value)
      → type_of o ≡ type_of s
      → ((base s).count == 0) ≡ false
      → ((base o).count == 0) ≡ false
      → Proper s
      → Proper o
      → Holds o (t, v)
      → Holds (merge fp o s) (t, v)
  unfolding merge merge_int32 merge_int64 merge_float merge_double
  merge_other (StatisticEnum.boolean s) (StatisticEnum.boolean o) t (Value.bool v) same some_s
        some_o p q time =
      rw (some_o, some_s) (other_time s.base o.base t time)
  merge_other (StatisticEnum.int32 s) (StatisticEnum.int32 o) t (Value.i32 v) same some_s some_o p q
        (time, within) =
      rw (some_o, some_s)
        (
          other_time s.base o.base t time,
          int_Between_other 32 s.min_value s.max_value v o.min_value o.max_value within,
        )
  merge_other (StatisticEnum.int64 s) (StatisticEnum.int64 o) t (Value.i64 v) same some_s some_o p q
        (time, within) =
      rw (some_o, some_s)
        (
          other_time s.base o.base t time,
          int_Between_other 64 s.min_value s.max_value v o.min_value o.max_value within,
        )
  merge_other (StatisticEnum.float s) (StatisticEnum.float o) t (Value.f32 v) same some_s some_o p q
        (time, within) =
      rw (some_o, some_s)
        (
          other_time s.base o.base t time,
          float_Between_other f32_format s.min_value s.max_value o.min_value o.max_value v p q
              within,
        )
  merge_other (StatisticEnum.double s) (StatisticEnum.double o) t (Value.f64 v) same some_s some_o p
        q (time, within) =
      rw (some_o, some_s)
        (
          other_time s.base o.base t time,
          float_Between_other f64_format s.min_value s.max_value o.min_value o.max_value v p q
              within,
        )
  merge_other (StatisticEnum.string s) (StatisticEnum.string o) t (Value.string v) same some_s
        some_o p q time =
      rw (some_o, some_s) (other_time s.base o.base t time)
  merge_other _ _ t _ same some_s some_o p q h = absurd (cc)

  -- An empty other changes nothing, and an empty statistic becomes the other.
  pub merge_nothing :
      (s o : StatisticEnum)
      → type_of o ≡ type_of s
      → ((base o).count == 0) ≡ true
      → merge fp o s ≡ s
  unfolding merge merge_int32 merge_int64 merge_float merge_double
  merge_nothing (StatisticEnum.boolean s) (StatisticEnum.boolean o) same empty = rw empty
  merge_nothing (StatisticEnum.int32 s) (StatisticEnum.int32 o) same empty = rw empty
  merge_nothing (StatisticEnum.int64 s) (StatisticEnum.int64 o) same empty = rw empty
  merge_nothing (StatisticEnum.float s) (StatisticEnum.float o) same empty = rw empty
  merge_nothing (StatisticEnum.double s) (StatisticEnum.double o) same empty = rw empty
  merge_nothing (StatisticEnum.string s) (StatisticEnum.string o) same empty = rw empty
  merge_nothing _ _ same empty = absurd (cc)

  pub merge_into_nothing :
      (s o : StatisticEnum)
      → type_of o ≡ type_of s
      → ((base o).count == 0) ≡ false
      → ((base s).count == 0) ≡ true
      → merge fp o s ≡ o
  unfolding merge merge_int32 merge_int64 merge_float merge_double
  merge_into_nothing (StatisticEnum.boolean s) (StatisticEnum.boolean o) same some_o empty =
      rw (some_o, empty)
  merge_into_nothing (StatisticEnum.int32 s) (StatisticEnum.int32 o) same some_o empty =
      rw (some_o, empty)
  merge_into_nothing (StatisticEnum.int64 s) (StatisticEnum.int64 o) same some_o empty =
      rw (some_o, empty)
  merge_into_nothing (StatisticEnum.float s) (StatisticEnum.float o) same some_o empty =
      rw (some_o, empty)
  merge_into_nothing (StatisticEnum.double s) (StatisticEnum.double o) same some_o empty =
      rw (some_o, empty)
  merge_into_nothing (StatisticEnum.string s) (StatisticEnum.string o) same some_o empty =
      rw (some_o, empty)
  merge_into_nothing _ _ same some_o empty = absurd (cc)
