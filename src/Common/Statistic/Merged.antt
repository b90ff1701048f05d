-- ===== src/Common/Statistic/Merged.antt =====
-- `merge` of statistic.rs, which makes the statistic of a chunk from those of its pages.
use timbre_tsf.Prelude.{
  ℕ, ◌+◌, ◌%◌, ◌^◌, ◌<◌, ◌≡◌, refl, sym, ◌∙◌, arith, true, false, List, [], ◌∷◌, ◌++◌, ◌==◌, length,
  All, All-append, append-nil, Bool-cases, inl, inr,
}
use timbre_tsf.Common.Types.{TsDataType}
use timbre_tsf.Encoding.{Value}
use timbre_tsf.Common.Statistic.{
  FloatArithmetic, StatisticEnum, base, new, merge, update, update_boolean, update_int32,
  update_int64, update_float, update_double, update_text,
}
use timbre_tsf.Common.Statistic.Covered.{
  takes, Holds, Proper, Covers, update_all, update_all-Holds, update-Holds, each_taken, All-Covers,
  new-Proper,
}
use timbre_tsf.Common.Statistic.Merging.{
  type_of, merge_first, merge_other, merge_nothing, merge_into_nothing,
}

module _ (fp : FloatArithmetic) where
  update-type_of : (s : StatisticEnum) (t : ℕ) (v : Value) → type_of (update fp t v s) ≡ type_of s
  unfolding update
  update-type_of (StatisticEnum.boolean s) t (Value.bool v) = refl
  update-type_of (StatisticEnum.boolean s) t _ = refl
  update-type_of (StatisticEnum.int32 s) t (Value.i32 v) = refl
  update-type_of (StatisticEnum.int32 s) t _ = refl
  update-type_of (StatisticEnum.int64 s) t (Value.i64 v) = refl
  update-type_of (StatisticEnum.int64 s) t _ = refl
  update-type_of (StatisticEnum.float s) t (Value.f32 v) = refl
  update-type_of (StatisticEnum.float s) t _ = refl
  update-type_of (StatisticEnum.double s) t (Value.f64 v) = refl
  update-type_of (StatisticEnum.double s) t _ = refl
  update-type_of (StatisticEnum.string s) t (Value.string v) = refl
  update-type_of (StatisticEnum.string s) t _ = refl

  update-count :
      (s : StatisticEnum) (t : ℕ) (v : Value)
      → takes s v ≡ true
      → (base (update fp t v s)).count ≡ ((base s).count + 1) % 2 ^ 32
  unfolding update update_boolean update_int32 update_int64 update_float update_double update_text
  update-count (StatisticEnum.boolean s) t (Value.bool v) h = refl
  update-count (StatisticEnum.int32 s) t (Value.i32 v) h = refl
  update-count (StatisticEnum.int64 s) t (Value.i64 v) h = refl
  update-count (StatisticEnum.float s) t (Value.f32 v) h = refl
  update-count (StatisticEnum.double s) t (Value.f64 v) h = refl
  update-count (StatisticEnum.string s) t (Value.string v) h = refl
  update-count _ t _ h = absurd (cc)

  -- The type, the count and the extremes after a sequence.
  update_all_lem :
      (items : List (ℕ × Value)) (s : StatisticEnum)
      → All (λ item. takes s item.1 ≡ true) items
      → Proper s
      → (type_of (update_all fp items s) ≡ type_of s)
        × ((base (update_all fp items s)).count % 2 ^ 32 ≡ ((base s).count + length items) % 2 ^ 32)
        × Proper (update_all fp items s)
  unfolding update_all
  update_all_lem [] s h p = (refl, omega arith, p)
  update_all_lem ((t, v) ∷ items) s (h, hs) p =
      let (now, proper) = update-Holds fp s t v h p in
      let (same, count, still) =
        update_all_lem items (update fp t v s) (each_taken fp items s t v hs) proper in
      (same ∙ update-type_of s t v, omega (arith, count, update-count s t v h), still)

new-count : (data_type : TsDataType) → (base (new data_type)).count ≡ 0
unfolding new
new-count TsDataType.float = refl
new-count _ = refl

each_first :
    (fp : FloatArithmetic) (s o : StatisticEnum) (items : List (ℕ × Value))
    → type_of o ≡ type_of s
    → ((base s).count == 0) ≡ false
    → ((base o).count == 0) ≡ false
    → Proper s
    → Proper o
    → All (Holds s) items
    → All (Holds (merge fp o s)) items
each_first fp s o [] same some_s some_o p q h = tt
each_first fp s o ((t, v) ∷ items) same some_s some_o p q (h, hs) = (
  merge_first fp s o t v same some_s some_o p q h,
  each_first fp s o items same some_s some_o p q hs,
)

each_other :
    (fp : FloatArithmetic) (s o : StatisticEnum) (items : List (ℕ × Value))
    → type_of o ≡ type_of s
    → ((base s).count == 0) ≡ false
    → ((base o).count == 0) ≡ false
    → Proper s
    → Proper o
    → All (Holds o) items
    → All (Holds (merge fp o s)) items
each_other fp s o [] same some_s some_o p q h = tt
each_other fp s o ((t, v) ∷ items) same some_s some_o p q (h, hs) = (
  merge_other fp s o t v same some_s some_o p q h,
  each_other fp s o items same some_s some_o p q hs,
)

-- A sequence of fewer than 2 ^ 32 values is empty where the count is zero.
no_values :
    (count : ℕ) (items : List (ℕ × Value))
    → count % 2 ^ 32 ≡ length items % 2 ^ 32
    → length items < 2 ^ 32
    → (count == 0) ≡ true
    → items ≡ []
no_values count [] h short zero_count = refl
no_values count (item ∷ items) h short zero_count = absurd (ground arith)

merge-Holds :
    (fp : FloatArithmetic) (s o : StatisticEnum) (xs ys : List (ℕ × Value))
    → type_of o ≡ type_of s
    → Proper s
    → Proper o
    → All (Holds s) xs
    → All (Holds o) ys
    → (((base s).count == 0) ≡ true → xs ≡ [])
    → (((base o).count == 0) ≡ true → ys ≡ [])
    → All (Holds (merge fp o s)) (xs ++ ys)
merge-Holds fp s o xs ys same p q hs ho no_x no_y = elim (Bool-cases ((base o).count == 0)) [
  | inl empty ↦ rw (merge_nothing fp s o same empty, no_y empty, append-nil) hs
  | inr some_o ↦ elim (Bool-cases ((base s).count == 0)) [
    | inl empty ↦ rw (merge_into_nothing fp s o same some_o empty, no_x empty) ho
    | inr some_s ↦
        All-append (Holds (merge fp o s)) xs ys (each_first fp s o xs same some_s some_o p q hs)
          (each_other fp s o ys same some_s some_o p q ho)
  ]
]

-- Two new statistics of a type, each updated with fewer than 2 ^ 32 values of this type: the first
-- merged with the second covers the values of both, in time and within its extremes.
pub merge-Covers :
    (fp : FloatArithmetic) (data_type : TsDataType) (xs ys : List (ℕ × Value))
    → All (λ item. takes (new data_type) item.1 ≡ true) xs
    → All (λ item. takes (new data_type) item.1 ≡ true) ys
    → length xs < 2 ^ 32
    → length ys < 2 ^ 32
    → All
        (Covers (merge fp (update_all fp ys (new data_type)) (update_all fp xs (new data_type))))
        (xs ++ ys)
merge-Covers fp data_type xs ys hx hy short_x short_y =
    let s = update_all fp xs (new data_type) in
    let o = update_all fp ys (new data_type) in
    let (type_s, count_s, proper_s) =
      update_all_lem fp xs (new data_type) hx (new-Proper data_type) in
    let (type_o, count_o, proper_o) =
      update_all_lem fp ys (new data_type) hy (new-Proper data_type) in
    All-Covers (merge fp o s) (xs ++ ys) (
      merge-Holds fp s o xs ys (type_o ∙ sym type_s) proper_s proper_o
        (update_all-Holds fp xs [] (new data_type) hx (new-Proper data_type) tt)
        (update_all-Holds fp ys [] (new data_type) hy (new-Proper data_type) tt)
        (no_values (base s).count xs (omega (arith, count_s, new-count data_type)) short_x)
        (no_values (base o).count ys (omega (arith, count_o, new-count data_type)) short_y))
