-- ===== src/Common/Statistic/Batch.antt =====
-- The batch updates of statistic.rs, and the bytes of a statistic.
use timbre_tsf.Prelude.{ℕ, Bool, true, false, List, [], ◌∷◌, ◌++◌, length, map}
use timbre_tsf.Words.{u32}
use timbre_tsf.Exec.{Exec, Result, ok, pure, abort, modify, ◌>>◌}
use timbre_tsf.Bytes.{LittleEndian}
use timbre_tsf.Encoding.{Value}
use timbre_tsf.Encoding.Rle.{bit}
use timbre_tsf.Common.Statistic.{
  FloatArithmetic, BaseStats, StatisticEnum, NumberStatistic, update_boolean, update_int32,
  update_int64, update_float, update_double, update_text,
}

-- `for i in 0..timestamps.len() { s.update_*(timestamps[i], values[i]) }`, which panics where there
-- is no `values[i]`.
module _ {S A : Type 0} (update_one : ℕ → A → S → S) where
  unfoldable pub batch_loop : List ℕ → List A → Exec S (Unit {0})
  batch_loop [] vs = pure tt
  batch_loop (t ∷ ts) [] = abort
  batch_loop (t ∷ ts) (v ∷ vs) = do modify (update_one t v); batch_loop ts vs

-- A run on the statistic inside a variant.
abbrev pub within :
    {S : Type 0} → (S → StatisticEnum) → Result (Unit {0}) × S → Result (Unit {0}) × StatisticEnum
within variant (r, s) = (r, variant s)

unfoldable pub update_i32_batch : List ℕ → List ℕ → Exec StatisticEnum (Unit {0})
unfolding batch_loop
update_i32_batch timestamps values (StatisticEnum.int32 s) =
    within StatisticEnum.int32 (batch_loop update_int32 timestamps values s)
update_i32_batch timestamps values s = (ok tt, s)

unfoldable pub update_bool_batch : List ℕ → List Bool → Exec StatisticEnum (Unit {0})
unfolding batch_loop
update_bool_batch timestamps values (StatisticEnum.boolean s) =
    within StatisticEnum.boolean (batch_loop update_boolean timestamps values s)
update_bool_batch timestamps values s = (ok tt, s)

unfoldable pub update_string_batch : List ℕ → List (List ℕ) → Exec StatisticEnum (Unit {0})
unfolding batch_loop
update_string_batch timestamps values (StatisticEnum.string s) =
    within StatisticEnum.string (batch_loop update_text timestamps values s)
update_string_batch timestamps values s = (ok tt, s)

-- The argument of a batch method with its type.
pub data Batch : Type 0 where
  bools : List Bool → Batch
  i32s i64s f32s f64s : List ℕ → Batch
  strings : List (List ℕ) → Batch

-- The values as those of single updates.
abbrev pub values_of : Batch → List Value
values_of (Batch.i32s vs) = map Value.i32 vs
values_of (Batch.i64s vs) = map Value.i64 vs
values_of (Batch.f32s vs) = map Value.f32 vs
values_of (Batch.f64s vs) = map Value.f64 vs
values_of (Batch.bools vs) = map Value.bool vs
values_of (Batch.strings vs) = map Value.string vs

-- Whether a batch method is the one of a statistic's type.
abbrev pub takes_batch : StatisticEnum → Batch → Bool
takes_batch (StatisticEnum.int32 s) (Batch.i32s vs) = true
takes_batch (StatisticEnum.int64 s) (Batch.i64s vs) = true
takes_batch (StatisticEnum.float s) (Batch.f32s vs) = true
takes_batch (StatisticEnum.double s) (Batch.f64s vs) = true
takes_batch (StatisticEnum.boolean s) (Batch.bools vs) = true
takes_batch (StatisticEnum.string s) (Batch.strings vs) = true
takes_batch _ _ = false

-- The pairs of two lists.
abbrev pub zip : List ℕ → List Value → List (ℕ × Value)
zip [] vs = []
zip (t ∷ ts) [] = []
zip (t ∷ ts) (v ∷ vs) = (t, v) ∷ zip ts vs

module _ (fp : FloatArithmetic) where
  unfoldable pub update_i64_batch : List ℕ → List ℕ → Exec StatisticEnum (Unit {0})
  unfolding batch_loop
  update_i64_batch timestamps values (StatisticEnum.int64 s) =
      within StatisticEnum.int64 (batch_loop (update_int64 fp) timestamps values s)
  update_i64_batch timestamps values s = (ok tt, s)

  unfoldable pub update_f32_batch : List ℕ → List ℕ → Exec StatisticEnum (Unit {0})
  unfolding batch_loop
  update_f32_batch timestamps values (StatisticEnum.float s) =
      within StatisticEnum.float (batch_loop (update_float fp) timestamps values s)
  update_f32_batch timestamps values s = (ok tt, s)

  unfoldable pub update_f64_batch : List ℕ → List ℕ → Exec StatisticEnum (Unit {0})
  unfolding batch_loop
  update_f64_batch timestamps values (StatisticEnum.double s) =
      within StatisticEnum.double (batch_loop (update_double fp) timestamps values s)
  update_f64_batch timestamps values s = (ok tt, s)

  -- The method for a batch.
  unfoldable pub update_batch : List ℕ → Batch → Exec StatisticEnum (Unit {0})
  unfolding update_i32_batch update_i64_batch update_f32_batch update_f64_batch update_bool_batch
      update_string_batch
  update_batch ts (Batch.i32s vs) = update_i32_batch ts vs
  update_batch ts (Batch.i64s vs) = update_i64_batch ts vs
  update_batch ts (Batch.f32s vs) = update_f32_batch ts vs
  update_batch ts (Batch.f64s vs) = update_f64_batch ts vs
  update_batch ts (Batch.bools vs) = update_bool_batch ts vs
  update_batch ts (Batch.strings vs) = update_string_batch ts vs

module _ (bo : LittleEndian) where
  unfoldable pub write_base : BaseStats → List ℕ
  write_base b = bo.write 4 b.count ++ (bo.write 8 b.start_time ++ bo.write 8 b.end_time)

  -- The fields of a number, of `width` bytes.
  unfoldable pub write_number : ℕ → NumberStatistic → List ℕ
  write_number width s =
      write_base s.base
      ++ (bo.write 8 s.sum_value
          ++ (bo.write width s.min_value
              ++ (bo.write width s.max_value
                  ++ (bo.write width s.first_value ++ bo.write width s.last_value))))

  unfoldable pub write_text : List ℕ → List ℕ
  write_text s = bo.write 4 (u32 (length s)) ++ s

  unfoldable pub serialize_to : StatisticEnum → List ℕ
  serialize_to (StatisticEnum.boolean s) =
      write_base s.base ++ (bo.write 8 s.sum_value ++ bit s.first_value ∷ bit s.last_value ∷ [])
  serialize_to (StatisticEnum.int32 s) = write_number 4 s
  serialize_to (StatisticEnum.int64 s) = write_number 8 s
  serialize_to (StatisticEnum.float s) = write_number 4 s
  serialize_to (StatisticEnum.double s) = write_number 8 s
  serialize_to (StatisticEnum.string s) =
      write_base s.base ++ (write_text s.first_value ++ write_text s.last_value)
