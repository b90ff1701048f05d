-- ===== src/Common/Statistic/Covered.antt =====
-- What the extremes of statistic.rs say of the values given to it.
use timbre_tsf.Prelude.{
  ℕ, ◌≡◌, refl, Bool, true, false, none, some, List, [], ◌∷◌, ◌++◌, All, All-append, append_assoc,
  append-nil, if◌then◌else◌,
}
use timbre_tsf.Words.{slt}
use timbre_tsf.Words.Float.{f32_format, f64_format, float_lt}
use timbre_tsf.Common.Types.{TsDataType, TsValue}
use timbre_tsf.Encoding.{Value}
use timbre_tsf.Query.ValueFilter.{compare_lt}
use timbre_tsf.Query.ValueFilter.Pruning.{InRange}
use timbre_tsf.Common.Statistic.{
  FloatArithmetic, BaseStats, StatisticEnum, base, new, update_time, update_boolean, update_int32,
  update_text, update_int64, update_float, update_double, update, min_value, max_value,
}
use timbre_tsf.Common.Statistic.Extremes.{
  Between, int_Between, int_Between_self, AreNumbers, float_Between, float_Between_self,
}

-- Whether a statistic keeps a value, by their types.
abbrev pub takes : StatisticEnum → Value → Bool
takes (StatisticEnum.boolean s) (Value.bool v) = true
takes (StatisticEnum.int32 s) (Value.i32 v) = true
takes (StatisticEnum.int64 s) (Value.i64 v) = true
takes (StatisticEnum.float s) (Value.f32 v) = true
takes (StatisticEnum.double s) (Value.f64 v) = true
takes (StatisticEnum.string s) (Value.string v) = true
takes _ _ = false

-- A value as a row has it.
abbrev pub as_ts_value : Value → TsValue
as_ts_value (Value.bool v) = TsValue.boolean v
as_ts_value (Value.i32 v) = TsValue.int32 v
as_ts_value (Value.i64 v) = TsValue.int64 v
as_ts_value (Value.f32 v) = TsValue.float v
as_ts_value (Value.f64 v) = TsValue.double v
as_ts_value (Value.string v) = TsValue.string v

abbrev pub InTime : BaseStats → ℕ → Type 0
InTime b timestamp = Between (slt 64) b.start_time b.end_time timestamp

-- A value of the statistic's type, its time and the value within the bounds.
abbrev pub Holds : StatisticEnum → ℕ × Value → Type 0
Holds (StatisticEnum.boolean s) (t, Value.bool v) = InTime s.base t
Holds (StatisticEnum.int32 s) (t, Value.i32 v) =
    InTime s.base t × Between (slt 32) s.min_value s.max_value v
Holds (StatisticEnum.int64 s) (t, Value.i64 v) =
    InTime s.base t × Between (slt 64) s.min_value s.max_value v
Holds (StatisticEnum.float s) (t, Value.f32 v) =
    InTime s.base t × Between (float_lt f32_format) s.min_value s.max_value v
Holds (StatisticEnum.double s) (t, Value.f64 v) =
    InTime s.base t × Between (float_lt f64_format) s.min_value s.max_value v
Holds (StatisticEnum.string s) (t, Value.string v) = InTime s.base t
Holds _ (t, _) = true ≡ false

-- The extremes of floats are never NaN.
abbrev pub Proper : StatisticEnum → Type 0
Proper (StatisticEnum.float s) = AreNumbers f32_format s.min_value s.max_value
Proper (StatisticEnum.double s) = AreNumbers f64_format s.min_value s.max_value
Proper _ = Unit

InTime-update_time : (b : BaseStats) (t u : ℕ) → InTime b u → InTime (update_time t b) u
InTime-update_time b t u h = int_Between 64 b.start_time b.end_time u t h

InTime-self : (b : BaseStats) (t : ℕ) → InTime (update_time t b) t
InTime-self b t = int_Between_self 64 b.start_time b.end_time t

module _ (fp : FloatArithmetic) where
  -- An update holds the new value, and the statistic stays proper.
  pub update-Holds :
      (s : StatisticEnum) (t : ℕ) (v : Value)
      → takes s v ≡ true
      → Proper s
      → Holds (update fp t v s) (t, v) × Proper (update fp t v s)
  unfolding update update_boolean update_int32 update_int64 update_float update_double update_text
  update-Holds (StatisticEnum.boolean s) t (Value.bool v) h p = (InTime-self s.base t, tt)
  update-Holds (StatisticEnum.int32 s) t (Value.i32 v) h p =
      ((InTime-self s.base t, int_Between_self 32 s.min_value s.max_value v), tt)
  update-Holds (StatisticEnum.int64 s) t (Value.i64 v) h p =
      ((InTime-self s.base t, int_Between_self 64 s.min_value s.max_value v), tt)
  update-Holds (StatisticEnum.float s) t (Value.f32 v) h p =
      let (within, numbers) = float_Between_self f32_format s.min_value s.max_value v p in
      ((InTime-self s.base t, within), numbers)
  update-Holds (StatisticEnum.double s) t (Value.f64 v) h p =
      let (within, numbers) = float_Between_self f64_format s.min_value s.max_value v p in
      ((InTime-self s.base t, within), numbers)
  update-Holds (StatisticEnum.string s) t (Value.string v) h p = (InTime-self s.base t, tt)
  update-Holds _ t _ h p = absurd (cc)

  -- What a statistic holds, it holds after an update, of whatever type.
  update-Holds_old :
      (s : StatisticEnum) (t : ℕ) (v : Value) (u : ℕ) (w : Value)
      → takes s v ≡ true
      → Proper s
      → Holds s (u, w)
      → Holds (update fp t v s) (u, w)
  unfolding update update_boolean update_int32 update_int64 update_float update_double update_text
  update-Holds_old (StatisticEnum.boolean s) t (Value.bool v) u (Value.bool w) h p k =
      InTime-update_time s.base t u k
  update-Holds_old (StatisticEnum.int32 s) t (Value.i32 v) u (Value.i32 w) h p (time, within) =
      (InTime-update_time s.base t u time, int_Between 32 s.min_value s.max_value w v within)
  update-Holds_old (StatisticEnum.int64 s) t (Value.i64 v) u (Value.i64 w) h p (time, within) =
      (InTime-update_time s.base t u time, int_Between 64 s.min_value s.max_value w v within)
  update-Holds_old (StatisticEnum.float s) t (Value.f32 v) u (Value.f32 w) h p (time, within) = (
    InTime-update_time s.base t u time,
    float_Between f32_format s.min_value s.max_value w v p within,
  )
  update-Holds_old (StatisticEnum.double s) t (Value.f64 v) u (Value.f64 w) h p (time, within) = (
    InTime-update_time s.base t u time,
    float_Between f64_format s.min_value s.max_value w v p within,
  )
  update-Holds_old (StatisticEnum.string s) t (Value.string v) u (Value.string w) h p k =
      InTime-update_time s.base t u k
  update-Holds_old _ t _ u _ h p k = absurd (cc)

  -- No update changes the type.
  pub update-takes :
      (s : StatisticEnum) (t : ℕ) (v w : Value)
      → takes s w ≡ true
      → takes (update fp t v s) w ≡ true
  unfolding update
  update-takes (StatisticEnum.boolean s) t (Value.bool v) (Value.bool w) h = refl
  update-takes (StatisticEnum.boolean s) t _ (Value.bool w) h = refl
  update-takes (StatisticEnum.int32 s) t (Value.i32 v) (Value.i32 w) h = refl
  update-takes (StatisticEnum.int32 s) t _ (Value.i32 w) h = refl
  update-takes (StatisticEnum.int64 s) t (Value.i64 v) (Value.i64 w) h = refl
  update-takes (StatisticEnum.int64 s) t _ (Value.i64 w) h = refl
  update-takes (StatisticEnum.float s) t (Value.f32 v) (Value.f32 w) h = refl
  update-takes (StatisticEnum.float s) t _ (Value.f32 w) h = refl
  update-takes (StatisticEnum.double s) t (Value.f64 v) (Value.f64 w) h = refl
  update-takes (StatisticEnum.double s) t _ (Value.f64 w) h = refl
  update-takes (StatisticEnum.string s) t (Value.string v) (Value.string w) h = refl
  update-takes (StatisticEnum.string s) t _ (Value.string w) h = refl
  update-takes _ t _ _ h = absurd (cc)

  -- The updates of a sequence, in order.
  unfoldable pub update_all : List (ℕ × Value) → StatisticEnum → StatisticEnum
  update_all [] s = s
  update_all ((t, v) ∷ items) s = update_all items (update fp t v s)

  each_old :
      (items : List (ℕ × Value)) (s : StatisticEnum) (t : ℕ) (v : Value)
      → takes s v ≡ true
      → Proper s
      → All (Holds s) items
      → All (Holds (update fp t v s)) items
  each_old [] s t v h p k = tt
  each_old ((u, w) ∷ items) s t v h p (k, ks) =
      (update-Holds_old s t v u w h p k, each_old items s t v h p ks)

  pub each_taken :
      (items : List (ℕ × Value)) (s : StatisticEnum) (t : ℕ) (v : Value)
      → All (λ item. takes s item.1 ≡ true) items
      → All (λ item. takes (update fp t v s) item.1 ≡ true) items
  each_taken [] s t v h = tt
  each_taken ((u, w) ∷ items) s t v (h, hs) = (update-takes s t v w h, each_taken items s t v hs)

  pub update_all-Holds :
      (items seen : List (ℕ × Value)) (s : StatisticEnum)
      → All (λ item. takes s item.1 ≡ true) items
      → Proper s
      → All (Holds s) seen
      → All (Holds (update_all items s)) (seen ++ items)
  unfolding update_all
  update_all-Holds [] seen s h p k = rw append-nil k
  update_all-Holds ((t, v) ∷ items) seen s (h, hs) p k =
      let (now, proper) = update-Holds s t v h p in
      let old = each_old seen s t v h p k in
      rw (append_assoc seen ((t, v) ∷ []) items) at (
        update_all-Holds items (seen ++ (t, v) ∷ []) (update fp t v s) (each_taken items s t v hs)
          proper (All-append (Holds (update fp t v s)) seen ((t, v) ∷ []) old (now, tt)))

-- What a row of a chunk and the statistic of a column have in common.
abbrev pub Covers : StatisticEnum → ℕ × Value → Type 0
Covers s (t, v) = InTime (base s) t × InRange (some (as_ts_value v)) (min_value s) (max_value s)

where_positive-InRange :
    (b : Bool) (least greatest v : TsValue)
    → compare_lt v least ≡ false
    → compare_lt greatest v ≡ false
    → InRange (some v) (if b then some least else none) (if b then some greatest else none)
where_positive-InRange true least greatest v lo hi = (lo, hi)
where_positive-InRange false least greatest v lo hi = (tt, tt)

Holds-Covers : (s : StatisticEnum) (t : ℕ) (v : Value) → Holds s (t, v) → Covers s (t, v)
unfolding min_value max_value compare_lt
Holds-Covers (StatisticEnum.boolean s) t (Value.bool v) time = (time, (tt, tt))
Holds-Covers (StatisticEnum.int32 s) t (Value.i32 v) (time, (lo, hi)) = (
  time,
  where_positive-InRange (slt 32 0 s.base.count) (TsValue.int32 s.min_value)
      (TsValue.int32 s.max_value) (TsValue.int32 v) lo hi,
)
Holds-Covers (StatisticEnum.int64 s) t (Value.i64 v) (time, (lo, hi)) = (
  time,
  where_positive-InRange (slt 32 0 s.base.count) (TsValue.int64 s.min_value)
      (TsValue.int64 s.max_value) (TsValue.int64 v) lo hi,
)
Holds-Covers (StatisticEnum.float s) t (Value.f32 v) (time, (lo, hi)) = (
  time,
  where_positive-InRange (slt 32 0 s.base.count) (TsValue.float s.min_value)
      (TsValue.float s.max_value) (TsValue.float v) lo hi,
)
Holds-Covers (StatisticEnum.double s) t (Value.f64 v) (time, (lo, hi)) = (
  time,
  where_positive-InRange (slt 32 0 s.base.count) (TsValue.double s.min_value)
      (TsValue.double s.max_value) (TsValue.double v) lo hi,
)
Holds-Covers (StatisticEnum.string s) t (Value.string v) time = (time, (tt, tt))
Holds-Covers _ t _ h = absurd (cc)

pub new-Proper : (data_type : TsDataType) → Proper (new data_type)
unfolding new
new-Proper TsDataType.float = (refl, refl)
new-Proper TsDataType.double = (refl, refl)
new-Proper _ = tt

pub All-Covers :
    (s : StatisticEnum) (items : List (ℕ × Value)) → All (Holds s) items → All (Covers s) items
All-Covers s [] h = tt
All-Covers s ((t, v) ∷ items) (h, hs) = (Holds-Covers s t v h, All-Covers s items hs)

-- After a new statistic of a type was updated with values of this type, every one of their
-- timestamps is within its time range, and no value is below its least or above its greatest
-- value, as far as it has these: NaN is no exception, nor is a count that wrapped around.
pub update_all-Covers :
    (fp : FloatArithmetic) (data_type : TsDataType) (items : List (ℕ × Value))
    → All (λ item. takes (new data_type) item.1 ≡ true) items
    → All (Covers (update_all fp items (new data_type))) items
update_all-Covers fp data_type items h =
    All-Covers (update_all fp items (new data_type)) items
      (update_all-Holds fp items [] (new data_type) h (new-Proper data_type) tt)
