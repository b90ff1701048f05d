-- ===== src/Common/Statistic.antt =====
-- common/statistic.rs: count, time range and extremes of a column. An `update_*` method is a case of
-- `Value`; a float is its bits. Addition of f64 and the conversions to it are the parameter `fp`.
pub mod Extremes
pub mod Covered
pub mod Merging
pub mod Merged
pub mod Batch
pub mod Batched
mod Tests
use timbre_tsf.Prelude.{
  ℕ, ◌+◌, ◌-◌, ◌^◌, Bool, true, false, Option, none, some, List, [], ◌∷◌, ◌++◌, length, ◌==◌,
  if◌then◌else◌,
}
use timbre_tsf.Words.{u32, wrapping_add, sign_extend, slt}
use timbre_tsf.Words.Float.{FloatFormat, f32_format, f64_format, is_nan, float_lt}
use timbre_tsf.Exec.{Exec, pure, abort, modify, ◌>>◌}
use timbre_tsf.Bytes.{LittleEndian}
use timbre_tsf.Common.Types.{TsDataType, TsValue}
use timbre_tsf.Encoding.{Value, Kind}
use timbre_tsf.Encoding.Rle.{bit}

-- `+` of f64, `i64 as f64` and `f32 as f64`, on bits.
pub record FloatArithmetic : Type 0 where
  pub add : ℕ → ℕ → ℕ
  pub from_i64 : ℕ → ℕ
  pub from_f32 : ℕ → ℕ

pub record BaseStats : Type 0 where
  pub count : ℕ
  pub start_time : ℕ
  pub end_time : ℕ

pub record BooleanStatistic : Type 0 where
  pub base : BaseStats
  pub sum_value : ℕ
  pub first_value : Bool
  pub last_value : Bool

-- The fields that the statistics of the four types of numbers have.
pub record NumberStatistic : Type 0 where
  pub base : BaseStats
  pub sum_value : ℕ
  pub min_value : ℕ
  pub max_value : ℕ
  pub first_value : ℕ
  pub last_value : ℕ

pub record StringStatistic : Type 0 where
  pub base : BaseStats
  pub first_value : List ℕ
  pub last_value : List ℕ

pub data StatisticEnum : Type 0 where
  boolean : BooleanStatistic → StatisticEnum
  int32 int64 float double : NumberStatistic → StatisticEnum
  string : StringStatistic → StatisticEnum

-- `min` and `max` of an integer of `w` bits.
abbrev pub int_min : ℕ → ℕ → ℕ → ℕ
int_min w a b = if slt w b a then b else a

abbrev pub int_max : ℕ → ℕ → ℕ → ℕ
int_max w a b = if slt w a b then b else a

-- `min` and `max` of a float, which pass over NaN. Of zeros with different signs either may be
-- given; here it is the first.
unfoldable pub float_min : FloatFormat → ℕ → ℕ → ℕ
float_min f a b = if is_nan f a then b else if float_lt f b a then b else a

unfoldable pub float_max : FloatFormat → ℕ → ℕ → ℕ
float_max f a b = if is_nan f a then b else if float_lt f a b then b else a

abbrev pub new_base : BaseStats
new_base = record { count = 0; start_time = 2 ^ 63 - 1; end_time = 2 ^ 63 }

abbrev pub update_time : ℕ → BaseStats → BaseStats
update_time timestamp b = record {
  count = wrapping_add 32 b.count 1;
  start_time = int_min 64 b.start_time timestamp;
  end_time = int_max 64 b.end_time timestamp;
}

abbrev pub new_boolean : BooleanStatistic
new_boolean = record { base = new_base; sum_value = 0; first_value = false; last_value = false }

-- `new` with the type's MAX and MIN.
abbrev pub new_number : ℕ → ℕ → NumberStatistic
new_number greatest least = record {
  base = new_base;
  sum_value = 0;
  min_value = greatest;
  max_value = least;
  first_value = 0;
  last_value = 0;
}

abbrev pub new_string : StringStatistic
new_string = record { base = new_base; first_value = []; last_value = [] }

abbrev pub new_int32 : NumberStatistic
new_int32 = new_number (2 ^ 31 - 1) (2 ^ 31)

abbrev pub new_int64 : NumberStatistic
new_int64 = new_number (2 ^ 63 - 1) (2 ^ 63)

abbrev pub new_float : NumberStatistic
new_float = new_number 0x7f7f_ffff 0xff7f_ffff

abbrev pub new_double : NumberStatistic
new_double = new_number 0x7fef_ffff_ffff_ffff 0xffef_ffff_ffff_ffff

unfoldable pub new : TsDataType → StatisticEnum
new TsDataType.boolean = StatisticEnum.boolean new_boolean
new TsDataType.int64 = StatisticEnum.int64 new_int64
new TsDataType.timestamp = StatisticEnum.int64 new_int64
new TsDataType.float = StatisticEnum.float new_float
new TsDataType.double = StatisticEnum.double new_double
new TsDataType.text = StatisticEnum.string new_string
new TsDataType.string = StatisticEnum.string new_string
new _ = StatisticEnum.int32 new_int32

-- The first value stays.
abbrev pub keep_first : {A : Type 0} → BaseStats → A → A → A
keep_first b value first = if b.count == 0 then value else first

unfoldable pub update_boolean : ℕ → Bool → BooleanStatistic → BooleanStatistic
update_boolean timestamp value s = record {
  base = update_time timestamp s.base;
  sum_value = wrapping_add 64 s.sum_value (bit value);
  first_value = keep_first s.base value s.first_value;
  last_value = value;
}

-- An update with the extremes and the sum that the caller computed.
abbrev pub update_number : ℕ → ℕ → ℕ → ℕ → ℕ → NumberStatistic → NumberStatistic
update_number timestamp value sum least greatest s = record {
  base = update_time timestamp s.base;
  sum_value = sum;
  min_value = least;
  max_value = greatest;
  first_value = keep_first s.base value s.first_value;
  last_value = value;
}

unfoldable pub update_int32 : ℕ → ℕ → NumberStatistic → NumberStatistic
update_int32 timestamp value s =
    update_number timestamp value (wrapping_add 64 s.sum_value (sign_extend value))
      (int_min 32 s.min_value value) (int_max 32 s.max_value value) s

unfoldable pub update_text : ℕ → List ℕ → StringStatistic → StringStatistic
update_text timestamp value s = record {
  base = update_time timestamp s.base;
  first_value = keep_first s.base value s.first_value;
  last_value = value;
}

abbrev pub base : StatisticEnum → BaseStats
base (StatisticEnum.boolean s) = s.base
base (StatisticEnum.int32 s) = s.base
base (StatisticEnum.int64 s) = s.base
base (StatisticEnum.float s) = s.base
base (StatisticEnum.double s) = s.base
base (StatisticEnum.string s) = s.base

-- What an extreme is worth, nothing before the first update.
abbrev pub where_positive : BaseStats → TsValue → Option TsValue
where_positive b v = if slt 32 0 b.count then some v else none

unfoldable pub min_value : StatisticEnum → Option TsValue
min_value (StatisticEnum.boolean s) = none
min_value (StatisticEnum.int32 s) = where_positive s.base (TsValue.int32 s.min_value)
min_value (StatisticEnum.int64 s) = where_positive s.base (TsValue.int64 s.min_value)
min_value (StatisticEnum.float s) = where_positive s.base (TsValue.float s.min_value)
min_value (StatisticEnum.double s) = where_positive s.base (TsValue.double s.min_value)
min_value (StatisticEnum.string s) = none

unfoldable pub max_value : StatisticEnum → Option TsValue
max_value (StatisticEnum.boolean s) = none
max_value (StatisticEnum.int32 s) = where_positive s.base (TsValue.int32 s.max_value)
max_value (StatisticEnum.int64 s) = where_positive s.base (TsValue.int64 s.max_value)
max_value (StatisticEnum.float s) = where_positive s.base (TsValue.float s.max_value)
max_value (StatisticEnum.double s) = where_positive s.base (TsValue.double s.max_value)
max_value (StatisticEnum.string s) = none

-- The time range and the count of two.
abbrev pub merge_base : BaseStats → BaseStats → BaseStats
merge_base o b = record {
  count = wrapping_add 32 b.count o.count;
  start_time = int_min 64 b.start_time o.start_time;
  end_time = int_max 64 b.end_time o.end_time;
}

-- The early returns of `merge`: an empty other changes nothing, an empty self is replaced.
abbrev pub merge_unless_empty : {A : Type 0} → BaseStats → BaseStats → A → A → A → A
merge_unless_empty o b other self merged =
    if o.count == 0 then self else if b.count == 0 then other else merged

abbrev pub merge_boolean : BooleanStatistic → BooleanStatistic → BooleanStatistic
merge_boolean o s = merge_unless_empty o.base s.base o s (record s {
  base = merge_base o.base s.base;
  sum_value = wrapping_add 64 s.sum_value o.sum_value;
  last_value = o.last_value;
})

abbrev pub merge_string : StringStatistic → StringStatistic → StringStatistic
merge_string o s =
    merge_unless_empty o.base s.base o s
      (record s { base = merge_base o.base s.base; last_value = o.last_value })

-- `merge` of numbers with the sum and the extremes that the caller computed.
abbrev pub merge_number : ℕ → ℕ → ℕ → NumberStatistic → NumberStatistic → NumberStatistic
merge_number sum least greatest o s = merge_unless_empty o.base s.base o s (record s {
  base = merge_base o.base s.base;
  sum_value = sum;
  min_value = least;
  max_value = greatest;
  last_value = o.last_value;
})

unfoldable pub merge_int32 : NumberStatistic → NumberStatistic → NumberStatistic
merge_int32 o s =
    merge_number (wrapping_add 64 s.sum_value o.sum_value) (int_min 32 s.min_value o.min_value)
      (int_max 32 s.max_value o.max_value) o s

module _ (fp : FloatArithmetic) where
  unfoldable pub update_int64 : ℕ → ℕ → NumberStatistic → NumberStatistic
  update_int64 timestamp value s =
      update_number timestamp value (fp.add s.sum_value (fp.from_i64 value))
        (int_min 64 s.min_value value) (int_max 64 s.max_value value) s

  unfoldable pub update_float : ℕ → ℕ → NumberStatistic → NumberStatistic
  update_float timestamp value s =
      update_number timestamp value (fp.add s.sum_value (fp.from_f32 value))
        (float_min f32_format value s.min_value) (float_max f32_format value s.max_value) s

  unfoldable pub update_double : ℕ → ℕ → NumberStatistic → NumberStatistic
  update_double timestamp value s =
      update_number timestamp value (fp.add s.sum_value value)
        (float_min f64_format value s.min_value) (float_max f64_format value s.max_value) s

  unfoldable pub update : ℕ → Value → StatisticEnum → StatisticEnum
  update timestamp (Value.bool v) (StatisticEnum.boolean s) =
      StatisticEnum.boolean (update_boolean timestamp v s)
  update timestamp (Value.i32 v) (StatisticEnum.int32 s) =
      StatisticEnum.int32 (update_int32 timestamp v s)
  update timestamp (Value.i64 v) (StatisticEnum.int64 s) =
      StatisticEnum.int64 (update_int64 timestamp v s)
  update timestamp (Value.f32 v) (StatisticEnum.float s) =
      StatisticEnum.float (update_float timestamp v s)
  update timestamp (Value.f64 v) (StatisticEnum.double s) =
      StatisticEnum.double (update_double timestamp v s)
  update timestamp (Value.string v) (StatisticEnum.string s) =
      StatisticEnum.string (update_text timestamp v s)
  update timestamp _ s = s

  unfoldable pub merge_int64 : NumberStatistic → NumberStatistic → NumberStatistic
  merge_int64 o s =
      merge_number (fp.add s.sum_value o.sum_value) (int_min 64 s.min_value o.min_value)
        (int_max 64 s.max_value o.max_value) o s

  unfoldable pub merge_float : NumberStatistic → NumberStatistic → NumberStatistic
  merge_float o s =
      merge_number (fp.add s.sum_value o.sum_value) (float_min f32_format s.min_value o.min_value)
        (float_max f32_format s.max_value o.max_value) o s

  unfoldable pub merge_double : NumberStatistic → NumberStatistic → NumberStatistic
  merge_double o s =
      merge_number (fp.add s.sum_value o.sum_value) (float_min f64_format s.min_value o.min_value)
        (float_max f64_format s.max_value o.max_value) o s

  unfoldable pub merge : StatisticEnum → StatisticEnum → StatisticEnum
  merge (StatisticEnum.boolean o) (StatisticEnum.boolean s) =
      StatisticEnum.boolean (merge_boolean o s)
  merge (StatisticEnum.int32 o) (StatisticEnum.int32 s) = StatisticEnum.int32 (merge_int32 o s)
  merge (StatisticEnum.int64 o) (StatisticEnum.int64 s) = StatisticEnum.int64 (merge_int64 o s)
  merge (StatisticEnum.float o) (StatisticEnum.float s) = StatisticEnum.float (merge_float o s)
  merge (StatisticEnum.double o) (StatisticEnum.double s) = StatisticEnum.double (merge_double o s)
  merge (StatisticEnum.string o) (StatisticEnum.string s) = StatisticEnum.string (merge_string o s)
  merge _ s = s
