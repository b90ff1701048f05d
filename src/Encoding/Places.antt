-- ===== src/Encoding/Places.antt =====
-- Dictionaries of the encoders: keys without repetition, each at its place, and hash maps from the
-- keys to the places, as association lists whose first entry for a key counts.
use timbre_tsf.Prelude.{
  ℕ, zero, suc, ◌≤◌, ◌<◌, ◌≡◌, refl, sym, ap, ◌∙◌, arith, Bool, true, false, Option, none, some,
  List, [], ◌∷◌, ◌++◌, length, length-append, get_elem?, ◌==◌, ==_iff, All, All-append,
  if◌then◌else◌, Bool-cases, Option-cases, inl, inr,
}
use timbre_tsf.Bytes.Same.{same_string, same_string→≡, same_string_refl}

-- `Eq` of the keys.
pub record Equality (A : Type 0) : Type 0 where
  pub same : A → A → Bool
  pub same_sound : (x y : A) → same x y ≡ true → x ≡ y
  pub same_refl : (x : A) → same x x ≡ true

pub nat_same_refl : (x : ℕ) → (x == x) ≡ true
nat_same_refl x = ground arith

abbrev pub nat_equality : Equality ℕ
nat_equality = record {
  same = λ x y. x == y;
  same_sound = λ x y h. (==_iff x y).0 h;
  same_refl = nat_same_refl;
}

abbrev pub string_equality : Equality (List ℕ)
string_equality = record {
  same = same_string;
  same_sound = same_string→≡;
  same_refl = same_string_refl;
}

some-none : {n : ℕ} → ¬ (some n ≡ none)
some-none {n} h = let clash : some n ≡ none = h in cc

module _ {A : Type 0} (eq : Equality A) where
  -- `iter().position(..)`
  unfoldable pub position : A → List A → Option ℕ
  position x [] = none
  position x (y ∷ d) =
      if eq.same y x then some 0 else (elim (position x d) [ none ↦ none | some i ↦ some (suc i) ])

  -- `get` of a map.
  unfoldable pub get : A → List (A × ℕ) → Option ℕ
  get x [] = none
  get x (entry ∷ map) = if eq.same entry.0 x then some entry.1 else get x map

  -- The dictionary after a key, which is added where it is new.
  unfoldable pub add : List A → A → List A
  add d x = elim (position x d) [ none ↦ d ++ x ∷ [] | some i ↦ d ]

  -- The keys of a sequence behind a dictionary, each once.
  unfoldable pub distinct : List A → List A → List A
  distinct d [] = d
  distinct d (x ∷ xs) = distinct (add d x) xs

  pub position-get_elem? :
      (x : A) (d : List A) (i : ℕ) → position x d ≡ some i → get_elem? d i ≡ some x
  unfolding position
  position-get_elem? x [] i h = cc
  position-get_elem? x (y ∷ d) i h = elim (Bool-cases (eq.same y x)) [
    | inl same ↦
        let first : some 0 ≡ some i = rw same at h in
        let place : 0 ≡ i = cc in rw (← place, eq.same_sound y x same)
    | inr other ↦ elim (Option-cases (position x d)) [
      | inl missing ↦ let absent : none ≡ some i = rw (other, missing) at h in cc
      | inr (j, found) ↦
          let later : some (suc j) ≡ some i = rw (other, found) at h in
          let place : suc j ≡ i = cc in rw (← place) (position-get_elem? x d j found)
    ]
  ]

  get_elem?-lt : (d : List A) (i : ℕ) (x : A) → get_elem? d i ≡ some x → i < length d
  get_elem?-lt [] i x h = cc
  get_elem?-lt (y ∷ d) zero x h = omega arith
  get_elem?-lt (y ∷ d) (suc i) x h = omega (arith, get_elem?-lt d i x h)

  pub position-lt : (x : A) (d : List A) (i : ℕ) → position x d ≡ some i → i < length d
  position-lt x d i h = get_elem?-lt d i x (position-get_elem? x d i h)

  -- What is found stays in its place, and a key that is not there comes last.
  position-append :
      (x : A) (d ys : List A) (i : ℕ) → position x d ≡ some i → position x (d ++ ys) ≡ some i
  unfolding position
  position-append x [] ys i h = cc
  position-append x (y ∷ d) ys i h = elim (Bool-cases (eq.same y x)) [
    | inl same ↦ rw same (rw same at h)
    | inr other ↦ elim (Option-cases (position x d)) [
      | inl missing ↦ let absent : none ≡ some i = rw (other, missing) at h in cc
      | inr (j, found) ↦ rw (other, position-append x d ys j found) (rw (other, found) at h)
    ]
  ]

  shifted :
      (b : Bool) (n : ℕ)
      → elim (if b then some n else none) as (λ x. Option ℕ) [ none ↦ none | some i ↦ some (suc i) ]
        ≡ (if b then some (suc n) else none)
  shifted true n = refl
  shifted false n = refl

  position_last :
      (x y : A) (d : List A)
      → position x d ≡ none
      → position x (d ++ y ∷ []) ≡ (if eq.same y x then some (length d) else none)
  unfolding position
  position_last x y [] h = refl
  position_last x y (z ∷ d) h = elim (Bool-cases (eq.same z x)) [
    | inl same ↦ absurd (some-none (rw same at h))
    | inr other ↦ elim (Option-cases (position x d)) [
      | inr (j, found) ↦ absurd (some-none (rw (other, found) at h))
      | inl missing ↦ rw (other, position_last x y d missing) (shifted (eq.same y x) (length d))
    ]
  ]

  pub position_new :
      (x : A) (d : List A) → position x d ≡ none → position x (d ++ x ∷ []) ≡ some (length d)
  position_new x d missing = rw (eq.same_refl x) at (position_last x x d missing)

  pub add_old : (x : A) (d : List A) (i : ℕ) → position x d ≡ some i → add d x ≡ d
  unfolding add
  add_old x d i found = rw (found, add)

  pub add_new : (x : A) (d : List A) → position x d ≡ none → add d x ≡ d ++ x ∷ []
  unfolding add
  add_new x d missing = rw (missing, add)

  pub position-add_old :
      (y x : A) (d : List A) (i : ℕ) → position y d ≡ some i → position y (add d x) ≡ some i
  position-add_old y x d i h = elim (Option-cases (position x d)) [
    | inr (j, found) ↦ rw (add_old x d j found) h
    | inl missing ↦ rw (add_new x d missing) (position-append y d (x ∷ []) i h)
  ]

  -- The map has the places of the dictionary.
  abbrev pub HasPlaces : List A → List (A × ℕ) → Type 0
  HasPlaces d map = (x : A) → get x map ≡ position x d

  pub HasPlaces-added :
      (d : List A) (map : List (A × ℕ)) (x : A)
      → HasPlaces d map
      → position x d ≡ none
      → HasPlaces (d ++ x ∷ []) ((x, length d) ∷ map)
  unfolding get
  HasPlaces-added d map x places new y = elim (Option-cases (position y d)) [
    | inl missing ↦ elim (Bool-cases (eq.same x y)) [
      | inl same ↦ rw (position_last y x d missing, same)
      | inr other ↦ rw (position_last y x d missing, other, places y, missing)
    ]
    | inr (i, found) ↦ elim (Bool-cases (eq.same x y)) [
      | inl same ↦ absurd (
          some-none (sym found ∙ ap (λ (t : A). position t d) (sym (eq.same_sound x y same)) ∙ new))
      | inr other ↦ rw (other, places y, position-append y d (x ∷ []) i found, found)
    ]
  ]

  pub distinct_more : (d xs : List A) → length d ≤ length (distinct d xs)
  unfolding distinct
  distinct_more d [] = omega arith
  distinct_more d (x ∷ xs) = elim (Option-cases (position x d)) [
    | inl new ↦
        let more = distinct_more (d ++ x ∷ []) xs in
        rw (add_new x d new) (omega (arith, more, length-append d (x ∷ [])))
    | inr (i, old) ↦ rw (add_old x d i old) (distinct_more d xs)
  ]

  pub distinct-All : (P : A → Type 0) (d xs : List A) → All P d → All P xs → All P (distinct d xs)
  unfolding distinct
  distinct-All P d [] hd h = hd
  distinct-All P d (x ∷ xs) hd (hx, h) = elim (Option-cases (position x d)) [
    | inl new ↦
        rw (add_new x d new)
          (distinct-All P (d ++ x ∷ []) xs (All-append P d (x ∷ []) hd (hx, tt)) h)
    | inr (i, old) ↦ rw (add_old x d i old) (distinct-All P d xs hd h)
  ]
