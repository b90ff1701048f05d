-- ===== src/Common/Statistic/Tests.antt =====
-- Concrete statistics, and the theorems at them.
use timbre_tsf.Prelude.{
  ℕ, ◌≡◌, refl, arith, true, some, none, List, [], ◌∷◌, ◌++◌, length, ltb, if◌then◌else◌, All,
}
use timbre_tsf.Common.Types.{TsDataType, TsValue}
use timbre_tsf.Exec.{ok, panic}
use timbre_tsf.Encoding.{Value}
use timbre_tsf.Common.Statistic.Batch.{Batch, zip, values_of, takes_batch, update_batch}
use timbre_tsf.Common.Statistic.Batched.{update_batch-Covers}
use timbre_tsf.Common.Statistic.{
  FloatArithmetic, new, update, update_int32, update_float, float_min, float_max, merge, min_value,
  max_value,
}
use timbre_tsf.Common.Statistic.Covered.{takes, Covers, update_all, update_all-Covers}
use timbre_tsf.Common.Statistic.Merged.{merge-Covers}

-- An arithmetic that forgets the sums.
abbrev no_sums : FloatArithmetic
no_sums = record { add = λ x y. 0; from_i64 = λ x. x; from_f32 = λ x. x }

-- 5 and -1 at the times 10 and 7.
abbrev numbers : List (ℕ × Value)
numbers = (10, Value.i32 5) ∷ (7, Value.i32 4294967295) ∷ []

-- NaN and 1.5.
abbrev floats : List (ℕ × Value)
floats = (1, Value.f32 0x7fc0_0000) ∷ (2, Value.f32 0x3fc0_0000) ∷ []

least_number :
    min_value (update_all no_sums numbers (new TsDataType.int32)) ≡ some (TsValue.int32 4294967295)
unfolding min_value update_all update update_int32 new
least_number = refl

greatest_float :
    max_value (update_all no_sums floats (new TsDataType.float)) ≡ some (TsValue.float 0x3fc0_0000)
unfolding max_value update_all update update_float float_min float_max new
greatest_float = refl

no_text : min_value (new TsDataType.text) ≡ none
unfolding min_value new
no_text = refl

numbers_taken : All (λ item. takes (new TsDataType.int32) item.1 ≡ true) numbers
unfolding new
numbers_taken = (refl, (refl, tt))

numbers_taken_batch : takes_batch (new TsDataType.int32) (Batch.i32s (9 ∷ [])) ≡ true
unfolding new
numbers_taken_batch = refl

floats_taken : All (λ item. takes (new TsDataType.float) item.1 ≡ true) floats
unfolding new
floats_taken = (refl, (refl, tt))

update_all-Covers_example : All (Covers (update_all no_sums floats (new TsDataType.float))) floats
update_all-Covers_example = update_all-Covers no_sums TsDataType.float floats floats_taken

merge-Covers_example :
    All
      (Covers (
        merge no_sums
          (update_all no_sums floats (new TsDataType.float))
          (update_all no_sums floats (new TsDataType.float))))
      (floats ++ floats)
merge-Covers_example =
    merge-Covers no_sums TsDataType.float floats floats floats_taken floats_taken (omega arith)
      (omega arith)

-- After 5 and -1, a batch of two timestamps and one value, which panics at the second.
update_batch-Covers_example :
    let s = update_all no_sums numbers (new TsDataType.int32) in
    let b = Batch.i32s (9 ∷ []) in
    let items = numbers ++ zip (20 ∷ 30 ∷ []) (values_of b) in
    let (r, s') = update_batch no_sums (20 ∷ 30 ∷ []) b s in
    (r ≡ (if ltb (length (values_of b)) 2 then panic else ok tt))
    × (s' ≡ update_all no_sums items (new TsDataType.int32))
    × All (Covers s') items
update_batch-Covers_example =
    update_batch-Covers no_sums TsDataType.int32 numbers (20 ∷ 30 ∷ []) (Batch.i32s (9 ∷ []))
      numbers_taken numbers_taken_batch
