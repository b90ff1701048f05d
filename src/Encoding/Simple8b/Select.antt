-- ===== src/Encoding/Simple8b/Select.antt =====
-- The selector table of simple8b.rs, and the two searches of it: `find_selector` of `try_pack`
-- wants enough values for the count, `best_selector` of `finish` pads with zeros.
pub mod Chosen
use timbre_tsf.Prelude.{
  ℕ, zero, suc, ◌+◌, ◌-◌, ◌*◌, ◌^◌, ◌≤◌, ◌<◌, ◌≡◌, ◌≢◌, refl, sym, ap, ◌∙◌, arith, Bool, true,
  false, ◌&&◌, Option, none, some, List, [], ◌∷◌, length, take, drop, ltb, leb, ◌==◌, get_elem?,
  if◌then◌else◌, All, Bool-cases, inl, inr, &&→both, ltb→lt, leb→le, take-all, ◌||◌,
}

-- Count and bits of each selector.
abbrev pub selectors : List (ℕ × ℕ)
selectors =
    (240, 0)
    ∷ (120, 0)
    ∷ (60, 1)
    ∷ (30, 2)
    ∷ (20, 3)
    ∷ (15, 4)
    ∷ (12, 5)
    ∷ (10, 6)
    ∷ (8, 7)
    ∷ (7, 8)
    ∷ (6, 10)
    ∷ (5, 12)
    ∷ (4, 15)
    ∷ (3, 20)
    ∷ (2, 30)
    ∷ (1, 60)
    ∷ []

abbrev pub max_values : List ℕ
max_values =
    0 ∷ 0 ∷ 1 ∷ 3 ∷ 7 ∷ 15 ∷ 31 ∷ 63 ∷ 127 ∷ 255 ∷ 1023 ∷ 4095 ∷ 32767 ∷ 1048575 ∷ 1073741823
    ∷ 1152921504606846975 ∷ []

-- An index below 16 into a table; no other is used.
unfoldable pub max_value : ℕ → ℕ
max_value selector = elim (get_elem? max_values selector) [ some m ↦ m | none ↦ 0 ]

unfoldable pub count_of : ℕ → ℕ
count_of selector = elim (get_elem? selectors selector) [ some (count, bits) ↦ count | none ↦ 0 ]

unfoldable pub bits_of : ℕ → ℕ
bits_of selector = elim (get_elem? selectors selector) [ some (count, bits) ↦ bits | none ↦ 0 ]

-- `values.iter().all(|&v| v <= max)`
unfoldable pub fits : ℕ → List ℕ → Bool
fits max [] = true
fits max (v ∷ vs) = leb v max && fits max vs

-- The first selector of a table, at index `i` and after, that the first `count` values fit.
pub find_selector : List ℕ → List (ℕ × ℕ) → ℕ → Option (ℕ × ℕ × ℕ)
find_selector pending [] i = none
find_selector pending ((count, bits) ∷ more) i =
    if leb count (length pending) && fits (max_value i) (take count pending)
    then some (i, count, bits)
    else find_selector pending more (i + 1)

-- How many values a selector packs, 0 for none.
pub can_pack : List ℕ → ℕ → ℕ → ℕ
can_pack pending count i =
    if leb count (length pending)
    then if fits (max_value i) (take count pending) then count else 0
    else if fits (max_value i) pending
    then count
    else 0

unfoldable pub best_selector : List ℕ → List (ℕ × ℕ) → ℕ → ℕ × ℕ
unfolding can_pack
best_selector pending [] i = (15, 1)
best_selector pending ((count, bits) ∷ more) i =
    if ltb 0 (can_pack pending count i)
    then (i, can_pack pending count i)
    else best_selector pending more (i + 1)
