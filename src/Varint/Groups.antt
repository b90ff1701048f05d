-- ===== src/Varint/Groups.antt =====
-- What the writers push, in plain arithmetic.
use timbre_tsf.Prelude.{
  ℕ, zero, suc, ◌+◌, ◌*◌, ◌/◌, ◌%◌, ◌^◌, ◌≤◌, ◌<◌, bit_and, bit_or, ◌≡◌, refl, ◌∙◌, arith, true,
  List, [], ◌∷◌, ◌++◌, length, All, ltb, ◌==◌, if◌then◌else◌, append_assoc, ==_iff, every,
  every_sound,
}
use timbre_tsf.Words.{IsByte, u8}
use timbre_tsf.Words.Bits.{bit_and_mask, bit_or_fields'}
use timbre_tsf.Varint.{push_loop, push_varint, push_after_loop, push_varint_after}
use mathlib.Core.WellFounded.{Acc}
use native.Mathlib.Nat.{pow-suc}

-- The groups of seven bits of `v`, for `v` below 128 ^ (k + 1).
unfoldable pub groups : ℕ → ℕ → List ℕ
groups zero v = v ∷ []
groups (suc k) v =
    let rest = groups k (v / 128) in if ltb v 128 then v ∷ [] else (v % 128 + 128) ∷ rest

top_bit_table : every 256 (λ b. bit_and b 0x80 == b / 128 * 128) ≡ true
unfolding every
top_bit_table = refl

-- The continuation bit of a byte.
pub top_bit : (b : ℕ) → b < 256 → bit_and b 0x80 ≡ b / 128 * 128
top_bit b h = (==_iff _ _).0 (every_sound 256 _ b top_bit_table h)

pub low_bits : (b : ℕ) → bit_and b 0x7f ≡ b % 128
low_bits b = bit_and_mask 7 b

pub set_top_bit : (b : ℕ) → b < 128 → bit_or b 0x80 ≡ b + 128
set_top_bit b h = bit_or_fields' 7 1 b h ∙ omega arith

inner_byte : (n : ℕ) → bit_or (bit_and (u8 n) 0x7f) 0x80 ≡ n % 128 + 128
inner_byte n = rw low_bits (set_top_bit _ (omega arith) ∙ omega arith)

push_loop-groups :
    (k : ℕ) (out : List ℕ) (n : ℕ) (w : Acc ◌<◌ n)
    → n < 128 ^ suc k
    → push_loop out n w ≡ out ++ groups k n
unfolding push_loop groups
push_loop-groups zero out n (Acc.intro _ smaller) h = ground arith
push_loop-groups (suc k) out n (Acc.intro _ smaller) h =
    let first : List ℕ = (n % 128 + 128) ∷ [] in
    grind (
      arith,
      inner_byte n,
      λ (w : Acc ◌<◌ (n / 128)).
          push_loop-groups k (out ++ first) (n / 128) w (omega (arith, pow-suc 128 (suc k))),
      append_assoc out first (groups k (n / 128)),
    )

-- The writer appends the groups of its number.
pub push_varint-groups :
    (k n : ℕ) (out : List ℕ) → n < 128 ^ suc k → push_varint n out ≡ out ++ groups k n
unfolding push_varint
push_varint-groups k n out h = push_loop-groups k out n _ h

after_byte : (n : ℕ) → u8 (bit_and n 0x7f) ≡ n % 128
after_byte n = rw low_bits (omega arith)

after_inner_byte : (n : ℕ) → bit_or (u8 (bit_and n 0x7f)) 0x80 ≡ n % 128 + 128
after_inner_byte n = rw after_byte (set_top_bit _ (omega arith))

push_after_loop-groups :
    (k : ℕ) (out : List ℕ) (n : ℕ) (w : Acc ◌<◌ n)
    → n < 128 ^ suc k
    → push_after_loop out n w ≡ out ++ groups k n
unfolding push_after_loop groups
push_after_loop-groups zero out n (Acc.intro _ smaller) h = ground (arith, after_byte n)
push_after_loop-groups (suc k) out n (Acc.intro _ smaller) h =
    let first : List ℕ = (n % 128 + 128) ∷ [] in
    grind (
      arith,
      after_byte n,
      after_inner_byte n,
      λ (w : Acc ◌<◌ (n / 128)).
          push_after_loop-groups k (out ++ first) (n / 128) w (omega (arith, pow-suc 128 (suc k))),
      append_assoc out first (groups k (n / 128)),
    )

-- Both writers push the same bytes.
pub push_varint_after-groups :
    (k n : ℕ) (out : List ℕ) → n < 128 ^ suc k → push_varint_after n out ≡ out ++ groups k n
unfolding push_varint_after
push_varint_after-groups k n out h = push_after_loop-groups k out n _ h

pub length-groups : (k v : ℕ) → (1 ≤ length (groups k v)) × (length (groups k v) ≤ k + 1)
unfolding groups
length-groups zero v = omega arith
length-groups (suc k) v = ground (arith, length-groups k (v / 128))

pub groups-IsByte : (k v : ℕ) → v < 128 ^ suc k → All IsByte (groups k v)
unfolding groups
groups-IsByte zero v h = omega arith
groups-IsByte (suc k) v h =
    ground (arith, groups-IsByte k (v / 128) (omega (arith, pow-suc 128 (suc k))))
