-- ===== src/Encoding/Simple8b/Select/Chosen.antt =====
-- What both searches choose: a selector whose values fit, and never the selector 1.
use timbre_tsf.Prelude.{
  ℕ, zero, suc, ◌+◌, ◌*◌, ◌^◌, ◌≤◌, ◌<◌, ◌≡◌, refl, ap, ◌∙◌, ◌⊎◌, arith, Bool, true, false, ◌&&◌,
  none, some, List, [], ◌∷◌, length, take, drop, ltb, leb, ◌==◌, get_elem?, if◌then◌else◌, All,
  Bool-cases, inl, inr, &&→both, ltb→lt, leb→le, take-all, ◌||◌, Option-cases, every, every_sound,
}
use timbre_tsf.Encoding.Simple8b.Select.{
  selectors, max_value, count_of, bits_of, fits, find_selector, can_pack, best_selector,
}

pub fits→All : (max : ℕ) (vs : List ℕ) → fits max vs ≡ true → All (λ v. v ≤ max) vs
unfolding fits
fits→All max [] h = tt
fits→All max (v ∷ vs) h =
    let (p, q) = &&→both (leb v max) (fits max vs) h in (leb→le v max p, fits→All max vs q)

-- What the table says of an entry.
pub record IsEntry (selector : ℕ) : Type 0 where
  pub below : selector < 16
  pub pos : 0 < count_of selector
  pub room : count_of selector * bits_of selector ≤ 60
  pub wide : 2 ≤ selector → (0 < bits_of selector) × (max_value selector + 1 ≡ 2 ^ bits_of selector)

entry_ok : ℕ → Bool
entry_ok s =
    ltb 0 (count_of s)
    && leb (count_of s * bits_of s) 60
    && (ltb s 2 || (ltb 0 (bits_of s) && max_value s + 1 == 2 ^ bits_of s))

table_ok : every 16 entry_ok ≡ true
unfolding every entry_ok count_of bits_of max_value
table_ok = refl

entry_ok_sound :
    (s : ℕ)
    → entry_ok s ≡ true
    → (0 < count_of s)
      × (count_of s * bits_of s ≤ 60)
      × (2 ≤ s → (0 < bits_of s) × (max_value s + 1 ≡ 2 ^ bits_of s))
unfolding entry_ok
entry_ok_sound s h = ground arith

pub entry : (s : ℕ) → s < 16 → IsEntry s
entry s h =
    let (p, r, w) = entry_ok_sound s (every_sound 16 entry_ok s table_ok h) in
    record { below = h; pos = p; room = r; wide = w }

-- A table from index `i` on.
abbrev Tail : List (ℕ × ℕ) → ℕ → List (ℕ × ℕ) → Type 0
Tail table i more = (k : ℕ) → get_elem? table (i + k) ≡ get_elem? more k

Tail-step :
    (table : List (ℕ × ℕ)) (i : ℕ) (x : ℕ × ℕ) (more : List (ℕ × ℕ))
    → Tail table i (x ∷ more)
    → Tail table (i + 1) more
Tail-step table i x more h k = let e : i + 1 + k ≡ i + suc k = omega arith in rw e (h (suc k))

Tail-start : (table : List (ℕ × ℕ)) → Tail table 0 table
Tail-start table k = ap (get_elem? table) (omega arith)

can_pack_sound :
    (pending : List ℕ) (c i : ℕ)
    → 0 < can_pack pending c i
    → (can_pack pending c i ≡ c) × (fits (max_value i) (take c pending) ≡ true)
unfolding can_pack
can_pack_sound pending c i h = elim (Bool-cases (leb c (length pending))) [
  | inl e ↦ ground arith
  | inr e ↦ rw (take-all c pending (ground arith)) (ground arith)
]

module _ (pending : List ℕ) (table : List (ℕ × ℕ)) where
  find_sound :
      (more : List (ℕ × ℕ)) (i s c b : ℕ)
      → Tail table i more
      → find_selector pending more i ≡ some (s, c, b)
      → (get_elem? table s ≡ some (c, b))
        × (c ≤ length pending)
        × (fits (max_value s) (take c pending) ≡ true)
  unfolding find_selector
  find_sound [] i s c b t h = cc
  find_sound ((count, bits) ∷ more) i s c b t h =
      let here : get_elem? table i ≡ some (count, bits) =
        (let e : i + 0 ≡ i = omega arith in rw e at (t 0)) in
      ground (arith, here, find_sound more (i + 1) s c b (Tail-step table i (count, bits) more t))

  find_none :
      (more : List (ℕ × ℕ)) (i k c b : ℕ)
      → find_selector pending more i ≡ none
      → get_elem? more k ≡ some (c, b)
      → (leb c (length pending) && fits (max_value (i + k)) (take c pending)) ≡ false
  unfolding find_selector
  find_none [] i k c b h e = cc
  find_none ((count, bits) ∷ more) i zero c b h e =
      let same : i + 0 ≡ i = omega arith in rw same (ground arith)
  find_none ((count, bits) ∷ more) i (suc k) c b h e =
      let same : i + suc k ≡ i + 1 + k = omega arith in
      rw same (ground (arith, find_none more (i + 1) k c b))

  -- The default, or an entry that fits, none before index `i`.
  best_sound :
      (more : List (ℕ × ℕ)) (i s n : ℕ)
      → Tail table i more
      → best_selector pending more i ≡ (s, n)
      → ((s ≡ 15) × (n ≡ 1))
        ⊎ ((b : ℕ) × (get_elem? table s ≡ some (n, b))
            × (i ≤ s)
            × (fits (max_value s) (take n pending) ≡ true))
  unfolding best_selector
  best_sound [] i s n t h = inl (ground arith)
  best_sound ((count, bits) ∷ more) i s n t h =
      let here : get_elem? table i ≡ some (count, bits) =
        (let e : i + 0 ≡ i = omega arith in rw e at (t 0)) in
      elim (Bool-cases (ltb 0 (can_pack pending count i))) [
        | inl e ↦
            let (same, fit) = can_pack_sound pending count i (ltb→lt 0 _ e) in
            let chosen : (i ≡ s) × (can_pack pending count i ≡ n) = ground arith in
            inr (
              bits,
              rw (← chosen.0, ← chosen.1, same) here,
              omega (arith, chosen.0),
              rw (← chosen.0, ← chosen.1, same) fit,
            )
        | inr e ↦
            later (best_sound more (i + 1) s n (Tail-step table i (count, bits) more t) (rw e at h))
      ]
    where
      later :
          ((s ≡ 15) × (n ≡ 1))
            ⊎ ((b : ℕ) × (get_elem? table s ≡ some (n, b))
                × (i + 1 ≤ s)
                × (fits (max_value s) (take n pending) ≡ true))
          → ((s ≡ 15) × (n ≡ 1))
            ⊎ ((b : ℕ) × (get_elem? table s ≡ some (n, b))
                × (i ≤ s)
                × (fits (max_value s) (take n pending) ≡ true))
      later (inl d) = inl d
      later (inr (b, p, q, r)) = inr (b, p, omega arith, r)

get_elem?-lt {ℓ} :
    {A : Type ℓ} (xs : List A) (i : ℕ) {a : A} → get_elem? xs i ≡ some a → i < length xs
get_elem?-lt [] i h = cc
get_elem?-lt (x ∷ xs) zero h = omega arith
get_elem?-lt (x ∷ xs) (suc i) h = omega (arith, get_elem?-lt xs i h)

-- The entry that an index has in the table.
named :
    (s c b : ℕ)
    → get_elem? selectors s ≡ some (c, b)
    → (count_of s ≡ c) × (bits_of s ≡ b) × (s < 16)
unfolding count_of bits_of
named s c b h = (rw h, rw h, get_elem?-lt selectors s h)

short_has_bits : (s c b : ℕ) → get_elem? selectors s ≡ some (c, b) → c ≤ 60 → 2 ≤ s
short_has_bits zero c b h le = absurd (ground arith)
short_has_bits (suc zero) c b h le = absurd (ground arith)
short_has_bits (suc (suc s)) c b h le = omega arith

All-below : (m k : ℕ) (vs : List ℕ) → m + 1 ≡ k → All (λ v. v ≤ m) vs → All (λ v. v < k) vs
All-below m k [] e h = tt
All-below m k (v ∷ vs) e (p, h) = (omega arith, All-below m k vs e h)

-- A choice: the entry of the table, with bits, and values that fit them.
pub record IsChoice (values : List ℕ) (s : ℕ) : Type 0 where
  pub entry_of : IsEntry s
  pub bits : 0 < bits_of s
  pub fit : All (λ v. v < 2 ^ bits_of s) values

choice :
    (values : List ℕ) (s : ℕ)
    → 2 ≤ s
    → s < 16
    → fits (max_value s) values ≡ true
    → IsChoice values s
choice values s wide below f =
    let e = entry s below in
    record {
      entry_of = e;
      bits = (e.wide wide).0;
      fit =
          All-below (max_value s) (2 ^ bits_of s) values (e.wide wide).1
            (fits→All (max_value s) values f);
    }

one_fits : (v n : ℕ) → v < 2 ^ 60 → (leb 1 (suc n) && fits (max_value 15) (v ∷ [])) ≡ true
unfolding fits max_value
one_fits v n h = ground arith

-- With 1 to 60 values pending, the first of 60 bits at most, `try_pack` finds a selector.
pub find_selector_lem :
    (v : ℕ) (vs : List ℕ)
    → v < 2 ^ 60
    → length (v ∷ vs) ≤ 60
    → (s : ℕ) × (find_selector (v ∷ vs) selectors 0 ≡ some (s, count_of s, bits_of s))
      × (count_of s ≤ length (v ∷ vs))
      × IsChoice (take (count_of s) (v ∷ vs)) s
find_selector_lem v vs hv short = elim (Option-cases (find_selector (v ∷ vs) selectors 0)) [
  | inl e ↦ absurd (
      ground
        (arith, one_fits v (length vs) hv, find_none (v ∷ vs) selectors selectors 0 15 1 60 e refl))
  | inr ((s, c, b), e) ↦
      let (at_s, enough, f) =
        find_sound (v ∷ vs) selectors selectors 0 s c b (Tail-start selectors) e in
      let (is_c, is_b, below) = named s c b at_s in
      (
        s,
        rw (is_c, is_b) e,
        rw is_c enough,
        rw is_c (choice (take c (v ∷ vs)) s (short_has_bits s c b at_s (omega arith)) below f),
      )
]

count_15 : count_of 15 ≡ 1
unfolding count_of
count_15 = refl

fits_one : (v : ℕ) → v < 2 ^ 60 → fits (max_value 15) (v ∷ []) ≡ true
unfolding fits max_value
fits_one v h = ground arith

best_skip :
    (pending : List ℕ) (c b i : ℕ) (more : List (ℕ × ℕ))
    → can_pack pending c i ≡ 0
    → best_selector pending ((c, b) ∷ more) i ≡ best_selector pending more (i + 1)
unfolding best_selector
best_skip pending c b i more h = rw h

best_take :
    (pending : List ℕ) (c b i : ℕ) (more : List (ℕ × ℕ))
    → 0 < c
    → can_pack pending c i ≡ c
    → best_selector pending ((c, b) ∷ more) i ≡ (i, c)
unfolding best_selector
best_take pending c b i more pos h = rw h (ground arith)

padded_pack :
    (pending : List ℕ) (c i : ℕ)
    → length pending < c
    → can_pack pending c i ≡ (if fits (max_value i) pending then c else 0)
unfolding can_pack
padded_pack pending c i h = let e : leb c (length pending) ≡ false = ground arith in rw e

-- With fewer than 60 values pending, `finish` packs 240 zeros if all are 0, and else takes a
-- selector that has bits.
pub best_selector_lem :
    (v : ℕ) (vs : List ℕ)
    → v < 2 ^ 60
    → length (v ∷ vs) < 60
    → ((best_selector (v ∷ vs) selectors 0 ≡ (0, 240)) × All (λ x. x ≤ 0) (v ∷ vs))
      ⊎ ((s : ℕ) × (best_selector (v ∷ vs) selectors 0 ≡ (s, count_of s))
          × IsChoice (take (count_of s) (v ∷ vs)) s)
best_selector_lem v vs hv short = elim (Bool-cases (fits 0 pending)) [
  | inl zeros ↦ inl (
    best_take pending 240 0 0 later1 (omega arith)
        (padded_pack pending 240 0 (omega arith) ∙ rw (zero_max, zeros)),
    fits→All 0 pending zeros,
  )
  | inr mixed ↦ inr (chosen (best_selector pending later2 2) refl (two mixed))
]
  where
    pending : List ℕ
    pending = v ∷ vs

    later1 : List (ℕ × ℕ)
    later1 = drop 1 selectors

    later2 : List (ℕ × ℕ)
    later2 = drop 2 selectors

    zero_max : max_value 0 ≡ 0
    zero_max = unfold max_value in refl

    two :
        fits 0 pending ≡ false → best_selector pending selectors 0 ≡ best_selector pending later2 2
    two mixed =
        best_skip pending 240 0 0 later1
          (padded_pack pending 240 0 (omega arith) ∙ rw (zero_max, mixed))
        ∙ best_skip pending 120 0 1 later2
            (padded_pack pending 120 1 (omega arith) ∙ (unfold max_value in rw mixed))

    tail2 : Tail selectors 2 later2
    tail2 k = let e : 2 + k ≡ suc (suc k) = omega arith in ap (get_elem? selectors) e

    chosen :
        (r : ℕ × ℕ)
        → best_selector pending later2 2 ≡ r
        → best_selector pending selectors 0 ≡ best_selector pending later2 2
        → (s : ℕ) × (best_selector pending selectors 0 ≡ (s, count_of s))
          × IsChoice (take (count_of s) pending) s
    chosen (s, n) e first = split (best_sound pending selectors later2 2 s n tail2 e)
      where
        split :
            ((s ≡ 15) × (n ≡ 1))
              ⊎ ((b : ℕ) × (get_elem? selectors s ≡ some (n, b))
                  × (2 ≤ s)
                  × (fits (max_value s) (take n pending) ≡ true))
            → (s' : ℕ) × (best_selector pending selectors 0 ≡ (s', count_of s'))
              × IsChoice (take (count_of s') pending) s'
        split (inl (is_15, is_1)) = (
          15,
          rw count_15 (first ∙ e ∙ λ i. (is_15 i, is_1 i)),
          rw count_15 (choice (v ∷ []) 15 (omega arith) (omega arith) (fits_one v hv)),
        )
        split (inr (b, at_s, wide, f)) =
            let (is_n, is_b, below) = named s n b at_s in
            (s, rw is_n (first ∙ e), rw is_n (choice (take n pending) s wide below f))
