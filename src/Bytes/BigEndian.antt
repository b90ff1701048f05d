-- ===== src/Bytes/BigEndian.antt =====
-- `to_be_bytes` and `from_be_bytes` of std, on integers of `width` bytes.
use timbre_tsf.Prelude.{
  ℕ, zero, suc, ◌+◌, ◌*◌, ◌/◌, ◌%◌, ◌^◌, ◌≡◌, refl, ap, arith, List, [], ◌∷◌, length, All,
}
use timbre_tsf.Words.{IsByte}

unfoldable pub to_be_bytes : ℕ → ℕ → List ℕ
to_be_bytes zero v = []
to_be_bytes (suc w) v = (v / 2 ^ (8 * w) % 2 ^ 8) ∷ to_be_bytes w v

unfoldable pub from_be_bytes : List ℕ → ℕ
from_be_bytes [] = 0
from_be_bytes (b ∷ bytes) = b * 2 ^ (8 * length bytes) + from_be_bytes bytes

pub length-to_be_bytes : (w v : ℕ) → length (to_be_bytes w v) ≡ w
unfolding to_be_bytes
length-to_be_bytes zero v = refl
length-to_be_bytes (suc w) v = ap suc (length-to_be_bytes w v)

pub to_be_bytes-IsByte : (w v : ℕ) → All IsByte (to_be_bytes w v)
unfolding to_be_bytes
to_be_bytes-IsByte zero v = tt
to_be_bytes-IsByte (suc w) v = (omega arith, to_be_bytes-IsByte w v)
