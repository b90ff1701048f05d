-- ===== src/Encoding/Simple8b/Unpack.antt =====
-- The values of a word, and that packing stores just these.
use timbre_tsf.Prelude.{
  ℕ, zero, suc, ◌+◌, ◌-◌, ◌*◌, ◌/◌, ◌%◌, ◌^◌, ◌≤◌, ◌<◌, ◌≡◌, refl, sym, ap, ap₂, ◌∙◌, arith, false,
  List, [], ◌∷◌, length, All, ◌==◌, bit_and, bit_or,
}
use timbre_tsf.Words.{shl}
use timbre_tsf.Words.Bits.{two_pow_add, two_pow_pos, bit_or_insert, bit_and_mask}
use timbre_tsf.Encoding.Simple8b.Select.{bits_of, count_of}
use timbre_tsf.Encoding.Simple8b.Pack.{pack_loop, pack_values, value_at}
use native.Mathlib.Nat.{
  mod-eq_of_lt, pow-le-pow_right, div-div-eq-div-mul, mul-add-div, div-eq_of_lt,
  mul-add-mod_self_left, le_trans, mul_comm, add_comm,
}

-- The payload of values of `bits` bits, the first lowest.
unfoldable pub payload : ℕ → List ℕ → ℕ
payload bits [] = 0
payload bits (v ∷ vs) = v + payload bits vs * 2 ^ bits

-- `n` values of a word from index `i` on, and all values of a word.
unfoldable pub values_from : ℕ → ℕ → ℕ → ℕ → List ℕ
values_from word selector i zero = []
values_from word selector i (suc n) = value_at word selector i ∷ values_from word selector (i + 1) n

unfoldable pub unpack : ℕ → List ℕ
unpack word = let selector = word / 2 ^ 60 % 16 in values_from word selector 0 (count_of selector)

abbrev pub Fit : ℕ → ℕ → Type 0
Fit bits v = v < 2 ^ bits

suc_times : (n b : ℕ) → 2 ^ (suc n * b) ≡ 2 ^ (n * b) * 2 ^ b
suc_times n b = ap (λ (t : ℕ). 2 ^ t) split ∙ two_pow_add (n * b) b
  where
    split : suc n * b ≡ n * b + b
    split = omega arith

next_times : (i b : ℕ) → 2 ^ ((i + 1) * b) ≡ 2 ^ (i * b) * 2 ^ b
next_times i b = ap (λ (t : ℕ). 2 ^ t) split ∙ two_pow_add (i * b) b
  where
    split : (i + 1) * b ≡ i * b + b
    split = omega arith

zero_times : (b : ℕ) → 2 ^ (0 * b) ≡ 1
zero_times b = let e : 0 * b ≡ 0 = omega arith in rw e

below_product : (v r A B : ℕ) → v < B → r < A → v * A + r < A * B
below_product v r A B hv hr = grind arith

payload-lt : (b : ℕ) (vs : List ℕ) → All (Fit b) vs → payload b vs < 2 ^ (length vs * b)
unfolding payload
payload-lt b [] h = rw (zero_times b) (omega arith)
payload-lt b (v ∷ vs) (hv, h) = rw (suc_times (length vs) b) (
    rw (mul_comm (2 ^ (length vs * b)) (2 ^ b), add_comm v (payload b vs * 2 ^ b))
      (grind (arith, payload-lt b vs h)))

shl_fits :
    (v i b : ℕ)
    → v < 2 ^ b
    → (i + 1) * b ≤ 60
    → shl 64 (bit_and v (2 ^ b - 1)) (i * b) ≡ v * 2 ^ (i * b)
shl_fits v i b hv room =
    rw (bit_and_mask b v, mod-eq_of_lt {n = v} {m = 2 ^ b} hv)
      (mod-eq_of_lt {n = v * 2 ^ (i * b)} {m = 2 ^ 64} (omega (arith, in_payload)))
  where
    in_payload : v * 2 ^ (i * b) + 0 < 2 ^ 60
    in_payload =
        le_trans (below_product v 0 (2 ^ (i * b)) (2 ^ b) hv (two_pow_pos (i * b)))
          (rw (next_times i b) at (pow-le-pow_right {n = 2} (omega arith) room))

pack_loop-payload :
    (b : ℕ) (vs : List ℕ) (i h r : ℕ)
    → All (Fit b) vs
    → (i + length vs) * b ≤ 60
    → r < 2 ^ (i * b)
    → pack_loop b vs i (h * 2 ^ (length vs * b) * 2 ^ (i * b) + r)
      ≡ (h * 2 ^ (length vs * b) + payload b vs) * 2 ^ (i * b) + r
unfolding pack_loop payload
pack_loop-payload b [] i h r fit room hr = omega arith
pack_loop-payload b (v ∷ vs) i h r (hv, fit) room hr =
    ap (pack_loop b vs (i + 1)) step
    ∙ pack_loop-payload b vs (i + 1) h (v * 2 ^ (i * b) + r) fit (omega (arith, room))
        (rw (next_times i b) (below_product v r (2 ^ (i * b)) (2 ^ b) hv hr))
    ∙ rw (next_times i b, suc_times (length vs) b) (omega arith)
  where
    step :
        bit_or
          (h * 2 ^ (suc (length vs) * b) * 2 ^ (i * b) + r)
          (shl 64 (bit_and v (2 ^ b - 1)) (i * b))
        ≡ h * 2 ^ (length vs * b) * 2 ^ ((i + 1) * b) + (v * 2 ^ (i * b) + r)
    step =
        ap₂ bit_or (rw (suc_times (length vs) b) (omega arith))
          (shl_fits v i b hv (omega (arith, room)))
        ∙ bit_or_insert (i * b) b (h * 2 ^ (length vs * b)) v r hr hv
        ∙ rw (next_times i b) (omega arith)

payload_room : (k : ℕ) → k ≤ 60 → 2 ^ (60 - k) * 2 ^ k ≡ 2 ^ 60
payload_room k h =
    let e : 60 - k + k ≡ 60 = omega arith in sym (two_pow_add (60 - k) k) ∙ ap (λ (t : ℕ). 2 ^ t) e

-- A word holds its selector above the payload.
pub pack_values-eq :
    (selector b : ℕ) (vs : List ℕ)
    → selector < 16
    → 0 < b
    → length vs * b ≤ 60
    → All (Fit b) vs
    → pack_values vs selector b ≡ selector * 2 ^ 60 + payload b vs
unfolding pack_values
pack_values-eq selector b vs hs hb room fit =
    rw (positive, word)
      (pack_loop-payload b vs 0 h 0 fit (omega (arith, room)) (two_pow_pos (0 * b)) ∙ collect)
  where
    h : ℕ
    h = selector * 2 ^ (60 - length vs * b)

    positive : (b == 0) ≡ false
    positive = ground arith

    whole : 2 ^ (60 - length vs * b) * 2 ^ (length vs * b) ≡ 2 ^ 60
    whole = payload_room (length vs * b) room

    top : h * 2 ^ (length vs * b) ≡ selector * 2 ^ 60
    top = omega (arith, ap (λ (t : ℕ). selector * t) whole)

    word : shl 64 selector 60 ≡ h * 2 ^ (length vs * b) * 2 ^ (0 * b) + 0
    word = rw (zero_times b) (omega (arith, top))

    collect :
        (h * 2 ^ (length vs * b) + payload b vs) * 2 ^ (0 * b) + 0
        ≡ selector * 2 ^ 60 + payload b vs
    collect = rw (zero_times b) (omega (arith, top))

payload_small : (b : ℕ) (vs : List ℕ) → length vs * b ≤ 60 → All (Fit b) vs → payload b vs < 2 ^ 60
payload_small b vs room fit =
    le_trans (payload-lt b vs fit) (pow-le-pow_right {n = 2} (omega arith) room)

module _ (selector b : ℕ) (is_b : bits_of selector ≡ b) (hb : 0 < b) where
  value_at-eq : (word i : ℕ) → value_at word selector i ≡ word / 2 ^ (i * b) % 2 ^ b
  unfolding value_at
  value_at-eq word i =
      let positive : (b == 0) ≡ false = ground arith in
      rw (is_b, positive) (bit_and_mask b (word / 2 ^ (i * b)))

  values_from-payload :
      (word i top : ℕ) (vs : List ℕ)
      → All (Fit b) vs
      → word / 2 ^ (i * b) ≡ top * 2 ^ (length vs * b) + payload b vs
      → values_from word selector i (length vs) ≡ vs
  unfolding values_from payload
  values_from-payload word i top [] fit e = refl
  values_from-payload word i top (v ∷ vs) (hv, fit) e =
      ap₂ ◌∷◌ here (values_from-payload word (i + 1) top vs fit later)
    where
      rest : ℕ
      rest = top * 2 ^ (length vs * b) + payload b vs

      split : word / 2 ^ (i * b) ≡ 2 ^ b * rest + v
      split = e ∙ rw (suc_times (length vs) b) (omega arith)

      here : value_at word selector i ≡ v
      here =
          value_at-eq word i
          ∙ ap (λ (t : ℕ). t % 2 ^ b) split
          ∙ mul-add-mod_self_left (2 ^ b) rest v
          ∙ mod-eq_of_lt {n = v} {m = 2 ^ b} hv

      later : word / 2 ^ ((i + 1) * b) ≡ rest
      later =
          ap (λ (t : ℕ). word / t) (next_times i b)
          ∙ sym (div-div-eq-div-mul word (2 ^ (i * b)) (2 ^ b))
          ∙ ap (λ (t : ℕ). t / 2 ^ b) split
          ∙ mul-add-div {m = 2 ^ b} (two_pow_pos b) rest v
          ∙ omega (arith, div-eq_of_lt {n = v} {m = 2 ^ b} hv)

  -- For a selector below 16 with at least one bit a value: packing as many values as it counts,
  -- none wider than its bits and all together at most 60 bits, stores just these in a 64-bit word.
  pub unpack-pack_values :
      (vs : List ℕ)
      → selector < 16
      → count_of selector ≡ length vs
      → length vs * b ≤ 60
      → All (Fit b) vs
      → (unpack (pack_values vs selector b) ≡ vs) × (pack_values vs selector b < 2 ^ 64)
  unfolding unpack
  unpack-pack_values vs hs count room fit =
      rw (pack_values-eq selector b vs hs hb room fit)
        (rw (named, count) (values_from-payload word 0 top vs fit start), omega (arith, small))
    where
      small : payload b vs < 2 ^ 60
      small = payload_small b vs room fit

      word : ℕ
      word = selector * 2 ^ 60 + payload b vs

      named : (selector * 2 ^ 60 + payload b vs) / 2 ^ 60 % 16 ≡ selector
      named = omega (arith, small)

      top : ℕ
      top = selector * 2 ^ (60 - length vs * b)

      whole : 2 ^ (60 - length vs * b) * 2 ^ (length vs * b) ≡ 2 ^ 60
      whole = payload_room (length vs * b) room

      start : word / 2 ^ (0 * b) ≡ top * 2 ^ (length vs * b) + payload b vs
      start = rw (zero_times b) (omega (arith, ap (λ (t : ℕ). selector * t) whole))
