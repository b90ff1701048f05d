-- ===== src/Common/Statistic/Batched.antt =====
-- The batch updates of statistic.rs do what single updates do.
use timbre_tsf.Prelude.{
  ℕ, suc, ◌≡◌, refl, arith, true, false, List, [], ◌∷◌, ◌++◌, length, map, ltb, All, All-append,
  if◌then◌else◌,
}
use timbre_tsf.Exec.{Result, ok, panic}
use timbre_tsf.Common.Types.{TsDataType}
use timbre_tsf.Encoding.{Value}
use timbre_tsf.Common.Statistic.{
  FloatArithmetic, StatisticEnum, new, update, update_boolean, update_int32, update_int64,
  update_float, update_double, update_text,
}
use timbre_tsf.Common.Statistic.Covered.{takes, Covers, update_all, update_all-Covers}
use timbre_tsf.Common.Statistic.Batch.{
  Batch, within, batch_loop, zip, values_of, takes_batch, update_batch, update_i32_batch,
  update_i64_batch, update_f32_batch, update_f64_batch, update_bool_batch, update_string_batch,
}

-- Pairs with values that a statistic takes.
taken_values :
    {A : Type 0} (s : StatisticEnum) (value : A → Value)
    → ((v : A) → takes s (value v) ≡ true)
    → (ts : List ℕ) (vs : List A) → All (λ item. takes s item.1 ≡ true) (zip ts (map value vs))
taken_values s value h [] vs = tt
taken_values s value h (t ∷ ts) [] = tt
taken_values s value h (t ∷ ts) (v ∷ vs) = (h v, taken_values s value h ts vs)

taken_batch :
    (s : StatisticEnum) (ts : List ℕ) (b : Batch)
    → takes_batch s b ≡ true
    → All (λ item. takes s item.1 ≡ true) (zip ts (values_of b))
taken_batch (StatisticEnum.boolean s) ts (Batch.bools vs) h =
    taken_values (StatisticEnum.boolean s) Value.bool (λ v. refl) ts vs
taken_batch (StatisticEnum.int32 s) ts (Batch.i32s vs) h =
    taken_values (StatisticEnum.int32 s) Value.i32 (λ v. refl) ts vs
taken_batch (StatisticEnum.int64 s) ts (Batch.i64s vs) h =
    taken_values (StatisticEnum.int64 s) Value.i64 (λ v. refl) ts vs
taken_batch (StatisticEnum.float s) ts (Batch.f32s vs) h =
    taken_values (StatisticEnum.float s) Value.f32 (λ v. refl) ts vs
taken_batch (StatisticEnum.double s) ts (Batch.f64s vs) h =
    taken_values (StatisticEnum.double s) Value.f64 (λ v. refl) ts vs
taken_batch (StatisticEnum.string s) ts (Batch.strings vs) h =
    taken_values (StatisticEnum.string s) Value.string (λ v. refl) ts vs
taken_batch _ ts _ h = absurd (cc)

-- What a batch of fewer values than timestamps answers, and any other.
abbrev batch_result : List ℕ → List Value → Result (Unit {0})
batch_result ts vs = if ltb (length vs) (length ts) then panic else ok tt

module _ (fp : FloatArithmetic) where
  -- A loop inside a variant, where its update is that of the values of the variant.
  batch_loop-update_all :
      {S A : Type 0} (update_one : ℕ → A → S → S) (variant : S → StatisticEnum) (value : A → Value)
      → ((t : ℕ) (v : A) (s : S) → update fp t (value v) (variant s) ≡ variant (update_one t v s))
      → (ts : List ℕ) (vs : List A) (s : S)
      → within variant (batch_loop update_one ts vs s)
        ≡ (batch_result ts (map value vs), update_all fp (zip ts (map value vs)) (variant s))
  unfolding batch_loop update_all
  batch_loop-update_all f variant value same [] vs s =
      let none_short : ltb (length (map value vs)) 0 ≡ false = ground arith in rw none_short refl
  batch_loop-update_all f variant value same (t ∷ ts) [] s =
      let one_short : ltb 0 (suc (length ts)) ≡ true = ground arith in rw one_short refl
  batch_loop-update_all f variant value same (t ∷ ts) (v ∷ vs) s =
      let both : ltb (suc (length (map value vs))) (suc (length ts))
          ≡ ltb (length (map value vs)) (length ts) =
        ground arith in
      rw (same t v s, both) (batch_loop-update_all f variant value same ts vs (f t v s))

  -- The batch method of a statistic's type is as many single updates as there are pairs.
  own_batch :
      (ts : List ℕ) (b : Batch) (s : StatisticEnum)
      → takes_batch s b ≡ true
      → update_batch fp ts b s
        ≡ (batch_result ts (values_of b), update_all fp (zip ts (values_of b)) s)
  unfolding update_batch update update_i32_batch update_i64_batch update_f32_batch update_f64_batch
      update_bool_batch update_string_batch
  own_batch ts (Batch.i32s vs) (StatisticEnum.int32 s) h =
      batch_loop-update_all update_int32 StatisticEnum.int32 Value.i32 (λ t v s. refl) ts vs s
  own_batch ts (Batch.i64s vs) (StatisticEnum.int64 s) h =
      batch_loop-update_all (update_int64 fp) StatisticEnum.int64 Value.i64 (λ t v s. refl) ts vs s
  own_batch ts (Batch.f32s vs) (StatisticEnum.float s) h =
      batch_loop-update_all (update_float fp) StatisticEnum.float Value.f32 (λ t v s. refl) ts vs s
  own_batch ts (Batch.f64s vs) (StatisticEnum.double s) h =
      batch_loop-update_all (update_double fp) StatisticEnum.double Value.f64 (λ t v s. refl) ts vs
        s
  own_batch ts (Batch.bools vs) (StatisticEnum.boolean s) h =
      batch_loop-update_all update_boolean StatisticEnum.boolean Value.bool (λ t v s. refl) ts vs s
  own_batch ts (Batch.strings vs) (StatisticEnum.string s) h =
      batch_loop-update_all update_text StatisticEnum.string Value.string (λ t v s. refl) ts vs s
  own_batch ts _ _ h = absurd (cc)

  update_all-append :
      (items more : List (ℕ × Value)) (s : StatisticEnum)
      → update_all fp (items ++ more) s ≡ update_all fp more (update_all fp items s)
  unfolding update_all
  update_all-append [] more s = refl
  update_all-append ((t, v) ∷ items) more s = update_all-append items more (update fp t v s)

  -- No update changes the type.
  update-takes_batch :
      (s : StatisticEnum) (t : ℕ) (v : Value) (b : Batch)
      → takes_batch s b ≡ true
      → takes_batch (update fp t v s) b ≡ true
  unfolding update
  update-takes_batch (StatisticEnum.boolean s) t (Value.bool v) (Batch.bools vs) h = refl
  update-takes_batch (StatisticEnum.boolean s) t _ (Batch.bools vs) h = refl
  update-takes_batch (StatisticEnum.int32 s) t (Value.i32 v) (Batch.i32s vs) h = refl
  update-takes_batch (StatisticEnum.int32 s) t _ (Batch.i32s vs) h = refl
  update-takes_batch (StatisticEnum.int64 s) t (Value.i64 v) (Batch.i64s vs) h = refl
  update-takes_batch (StatisticEnum.int64 s) t _ (Batch.i64s vs) h = refl
  update-takes_batch (StatisticEnum.float s) t (Value.f32 v) (Batch.f32s vs) h = refl
  update-takes_batch (StatisticEnum.float s) t _ (Batch.f32s vs) h = refl
  update-takes_batch (StatisticEnum.double s) t (Value.f64 v) (Batch.f64s vs) h = refl
  update-takes_batch (StatisticEnum.double s) t _ (Batch.f64s vs) h = refl
  update-takes_batch (StatisticEnum.string s) t (Value.string v) (Batch.strings vs) h = refl
  update-takes_batch (StatisticEnum.string s) t _ (Batch.strings vs) h = refl
  update-takes_batch _ t _ _ h = absurd (cc)

  update_all-takes_batch :
      (items : List (ℕ × Value)) (s : StatisticEnum) (b : Batch)
      → takes_batch s b ≡ true
      → takes_batch (update_all fp items s) b ≡ true
  unfolding update_all
  update_all-takes_batch [] s b h = h
  update_all-takes_batch ((t, v) ∷ items) s b h =
      update_all-takes_batch items (update fp t v s) b (update-takes_batch s t v b h)

  -- After single updates of a new statistic with values of its type, the batch method of the type
  -- panics where there are fewer values than timestamps and else succeeds. Either way the
  -- statistic is then the one that single updates with the earlier pairs and with those of the batch
  -- give, as far as it has both, and it covers each of them, in time and within its extremes.
  pub update_batch-Covers :
      (data_type : TsDataType) (seen : List (ℕ × Value)) (ts : List ℕ) (b : Batch)
      → All (λ item. takes (new data_type) item.1 ≡ true) seen
      → takes_batch (new data_type) b ≡ true
      → let items = seen ++ zip ts (values_of b) in
        let (r, s) = update_batch fp ts b (update_all fp seen (new data_type)) in
        (r ≡ (if ltb (length (values_of b)) (length ts) then panic else ok tt))
        × (s ≡ update_all fp items (new data_type))
        × All (Covers s) items
  update_batch-Covers data_type seen ts b taken own =
      let start = new data_type in
      let more = zip ts (values_of b) in
      let same =
        own_batch ts b (update_all fp seen start) (update_all-takes_batch seen start b own) in
      let all =
        All-append (λ item. takes start item.1 ≡ true) seen more taken
          (taken_batch start ts b own) in
      rw (same, ← update_all-append seen more start)
        (refl, refl, update_all-Covers fp data_type (seen ++ more) all)
