-- ===== src/Query/ValueFilter/Order.antt =====
-- The comparisons of value_filter.rs are an order, NaN and values of different types apart.
use timbre_tsf.Prelude.{
  ℕ, ◌≡◌, refl, sym, ◌∙◌, arith, Bool, true, false, not, ◌&&◌, List, [], ◌∷◌, ◌==◌, if◌then◌else◌,
  ap₂, ==_iff, &&→both,
}
use timbre_tsf.Words.{bias}
use timbre_tsf.Words.Float.{f32_format, f64_format, float_key, is_nan}
use timbre_tsf.Bytes.Same.{same_string}
use timbre_tsf.Common.Types.{TsValue}
use timbre_tsf.Query.ValueFilter.{bool_eq, bytes_lt, value_eq, compare_gt, compare_lt}

bytes_lt_trans : (s t u : List ℕ) → bytes_lt s t ≡ true → bytes_lt t u ≡ true → bytes_lt s u ≡ true
unfolding bytes_lt
bytes_lt_trans [] (b ∷ t) [] h k = k
bytes_lt_trans [] (b ∷ t) (c ∷ u) h k = refl
bytes_lt_trans [] [] u h k = cc
bytes_lt_trans (a ∷ s) [] u h k = cc
bytes_lt_trans (a ∷ s) (b ∷ t) [] h k = k
bytes_lt_trans (a ∷ s) (b ∷ t) (c ∷ u) h k = ground (arith, bytes_lt_trans s t u)

bytes_lt_asym : (s t : List ℕ) → bytes_lt s t ≡ true → bytes_lt t s ≡ false
unfolding bytes_lt
bytes_lt_asym [] [] h = refl
bytes_lt_asym [] (b ∷ t) h = refl
bytes_lt_asym (a ∷ s) [] h = cc
bytes_lt_asym (a ∷ s) (b ∷ t) h = ground (arith, bytes_lt_asym s t)

same_string→≡ : (s t : List ℕ) → same_string s t ≡ true → s ≡ t
unfolding same_string
same_string→≡ [] [] h = refl
same_string→≡ [] (b ∷ t) h = cc
same_string→≡ (a ∷ s) [] h = cc
same_string→≡ (a ∷ s) (b ∷ t) h =
    let (head, tail) = &&→both (a == b) (same_string s t) h in
    ap₂ ◌∷◌ ((==_iff a b).0 head) (same_string→≡ s t tail)

-- Every value has a type and a key; NaN, blobs and null stand outside the order.
abbrev tag : TsValue → ℕ
tag (TsValue.boolean b) = 0
tag (TsValue.int32 v) = 1
tag (TsValue.int64 v) = 2
tag (TsValue.float v) = 3
tag (TsValue.double v) = 4
tag (TsValue.text s) = 5
tag (TsValue.string s) = 6
tag (TsValue.blob b) = 7
tag TsValue.null = 8

abbrev key : TsValue → List ℕ
key (TsValue.boolean b) = (if b then 1 else 0) ∷ []
key (TsValue.int32 v) = bias 32 v ∷ []
key (TsValue.int64 v) = bias 64 v ∷ []
key (TsValue.float v) = float_key f32_format v ∷ []
key (TsValue.double v) = float_key f64_format v ∷ []
key (TsValue.text s) = s
key (TsValue.string s) = s
key (TsValue.blob b) = b
key TsValue.null = []

abbrev in_order : TsValue → Bool
in_order (TsValue.float v) = not (is_nan f32_format v)
in_order (TsValue.double v) = not (is_nan f64_format v)
in_order (TsValue.blob b) = false
in_order TsValue.null = false
in_order _ = true

record IsLess (a b : TsValue) : Type 0 where
  types : tag a ≡ tag b
  left : in_order a ≡ true
  right : in_order b ≡ true
  keys : bytes_lt (key a) (key b) ≡ true

abbrev less : TsValue → TsValue → Bool
less a b = tag a == tag b && in_order a && in_order b && bytes_lt (key a) (key b)

compare_lt-less : (a b : TsValue) → compare_lt a b ≡ less a b
unfolding compare_lt bytes_lt
compare_lt-less (TsValue.boolean a) (TsValue.boolean b) = ground arith
compare_lt-less (TsValue.int32 a) (TsValue.int32 b) = ground arith
compare_lt-less (TsValue.int64 a) (TsValue.int64 b) = ground arith
compare_lt-less (TsValue.float a) (TsValue.float b) = ground arith
compare_lt-less (TsValue.double a) (TsValue.double b) = ground arith
compare_lt-less (TsValue.text a) (TsValue.text b) = refl
compare_lt-less (TsValue.string a) (TsValue.string b) = refl
compare_lt-less (TsValue.blob a) (TsValue.blob b) = refl
compare_lt-less TsValue.null TsValue.null = refl
compare_lt-less _ _ = refl

pub compare_gt-flip : (a b : TsValue) → compare_gt a b ≡ compare_lt b a
unfolding compare_lt compare_gt
compare_gt-flip (TsValue.boolean a) (TsValue.boolean b) = refl
compare_gt-flip (TsValue.int32 a) (TsValue.int32 b) = refl
compare_gt-flip (TsValue.int64 a) (TsValue.int64 b) = refl
compare_gt-flip (TsValue.float a) (TsValue.float b) = refl
compare_gt-flip (TsValue.double a) (TsValue.double b) = refl
compare_gt-flip (TsValue.text a) (TsValue.text b) = refl
compare_gt-flip (TsValue.string a) (TsValue.string b) = refl
compare_gt-flip (TsValue.blob a) (TsValue.blob b) = refl
compare_gt-flip TsValue.null TsValue.null = refl
compare_gt-flip _ _ = refl

record IsSame (a b : TsValue) : Type 0 where
  types : tag a ≡ tag b
  order : in_order a ≡ in_order b
  keys : key a ≡ key b

bool_agree : (a b : Bool) → bool_eq a b ≡ true → IsSame (TsValue.boolean a) (TsValue.boolean b)
bool_agree true true h = record { types = refl; order = refl; keys = refl }
bool_agree false false h = record { types = refl; order = refl; keys = refl }
bool_agree true false h = absurd (cc)
bool_agree false true h = absurd (cc)

value_eq-IsSame : (a b : TsValue) → value_eq a b ≡ true → IsSame a b
unfolding value_eq
value_eq-IsSame (TsValue.boolean a) (TsValue.boolean b) h = bool_agree a b h
value_eq-IsSame (TsValue.int32 a) (TsValue.int32 b) h = ground arith
value_eq-IsSame (TsValue.int64 a) (TsValue.int64 b) h = ground arith
value_eq-IsSame (TsValue.float a) (TsValue.float b) h = ground arith
value_eq-IsSame (TsValue.double a) (TsValue.double b) h = ground arith
value_eq-IsSame (TsValue.text a) (TsValue.text b) h = record {
  types = refl;
  order = refl;
  keys = same_string→≡ a b h;
}
value_eq-IsSame (TsValue.string a) (TsValue.string b) h = record {
  types = refl;
  order = refl;
  keys = same_string→≡ a b h;
}
value_eq-IsSame (TsValue.blob a) (TsValue.blob b) h = record {
  types = refl;
  order = refl;
  keys = same_string→≡ a b h;
}
value_eq-IsSame TsValue.null TsValue.null h = record { types = refl; order = refl; keys = refl }
value_eq-IsSame _ _ h = absurd (cc)

lt→IsLess : (a b : TsValue) → compare_lt a b ≡ true → IsLess a b
lt→IsLess a b h = let k = rw (compare_lt-less a b) at h in ground arith

IsLess→lt : (a b : TsValue) → IsLess a b → compare_lt a b ≡ true
IsLess→lt a b h = rw (compare_lt-less a b) (ground (arith, h.types, h.left, h.right, h.keys))

-- The laws that skipping chunks needs.
pub lt_trans :
    (a b c : TsValue) → compare_lt a b ≡ true → compare_lt b c ≡ true → compare_lt a c ≡ true
lt_trans a b c h k =
    let p = lt→IsLess a b h in
    let q = lt→IsLess b c k in
    IsLess→lt a c (record {
      types = p.types ∙ q.types;
      left = p.left;
      right = q.right;
      keys = bytes_lt_trans (key a) (key b) (key c) p.keys q.keys;
    })

pub lt_asym : (a b : TsValue) → compare_lt a b ≡ true → compare_lt b a ≡ false
lt_asym a b h =
    rw (compare_lt-less b a) (ground (arith, bytes_lt_asym (key a) (key b) (lt→IsLess a b h).keys))

pub lt-eq_left :
    (a b c : TsValue) → value_eq a b ≡ true → compare_lt b c ≡ true → compare_lt a c ≡ true
lt-eq_left a b c h k =
    let p = value_eq-IsSame a b h in
    let q = lt→IsLess b c k in
    IsLess→lt a c (record {
      types = p.types ∙ q.types;
      left = p.order ∙ q.left;
      right = q.right;
      keys = rw p.keys q.keys;
    })

pub lt-eq_right :
    (a b c : TsValue) → compare_lt a b ≡ true → value_eq b c ≡ true → compare_lt a c ≡ true
lt-eq_right a b c h k =
    let p = lt→IsLess a b h in
    let q = value_eq-IsSame b c k in
    IsLess→lt a c (record {
      types = p.types ∙ q.types;
      left = p.left;
      right = sym q.order ∙ p.right;
      keys = rw (← q.keys) p.keys;
    })

-- Equality turned round carries an order over, too.
pub lt-eq_left' :
    (a b c : TsValue) → value_eq b a ≡ true → compare_lt b c ≡ true → compare_lt a c ≡ true
lt-eq_left' a b c h k =
    let p = value_eq-IsSame b a h in
    let q = lt→IsLess b c k in
    IsLess→lt a c (record {
      types = sym p.types ∙ q.types;
      left = sym p.order ∙ q.left;
      right = q.right;
      keys = rw (← p.keys) q.keys;
    })

pub lt-eq_right' :
    (a b c : TsValue) → compare_lt a b ≡ true → value_eq c b ≡ true → compare_lt a c ≡ true
lt-eq_right' a b c h k =
    let p = lt→IsLess a b h in
    let q = value_eq-IsSame c b k in
    IsLess→lt a c (record {
      types = p.types ∙ sym q.types;
      left = p.left;
      right = q.order ∙ p.right;
      keys = rw q.keys p.keys;
    })
