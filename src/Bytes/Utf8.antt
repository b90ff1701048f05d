-- ===== src/Bytes/Utf8.antt =====
-- Well-formed UTF-8, the test of `String::from_utf8`.
use timbre_tsf.Prelude.{
  ℕ, zero, suc, Bool, true, false, ◌&&◌, Option, none, some, List, [], ◌∷◌, ltb, leb, ◌==◌,
  if◌then◌else◌,
}

-- How many bytes follow a first byte, and the range of the second.
pub lead : ℕ → Option (ℕ × ℕ × ℕ)
lead b =
    if ltb b 0x80
    then some (0, 0x80, 0xbf)
    else if ltb b 0xc2
    then none
    else if ltb b 0xe0
    then some (1, 0x80, 0xbf)
    else if b == 0xe0
    then some (2, 0xa0, 0xbf)
    else if b == 0xed
    then some (2, 0x80, 0x9f)
    else if ltb b 0xf0
    then some (2, 0x80, 0xbf)
    else if b == 0xf0
    then some (3, 0x90, 0xbf)
    else if ltb b 0xf4
    then some (3, 0x80, 0xbf)
    else if b == 0xf4
    then some (3, 0x80, 0x8f)
    else none

-- A rest of a string where some bytes of a character are to come, the next in a range.
pub is_utf8_from : ℕ → ℕ → ℕ → List ℕ → Bool
is_utf8_from zero lo hi [] = true
is_utf8_from (suc n) lo hi [] = false
is_utf8_from zero lo hi (b ∷ rest) = elim (lead b) [
  | none ↦ false
  | some (n, lo', hi') ↦ is_utf8_from n lo' hi' rest
]
is_utf8_from (suc n) lo hi (b ∷ rest) = leb lo b && leb b hi && is_utf8_from n 0x80 0xbf rest

unfoldable pub is_utf8 : List ℕ → Bool
unfolding is_utf8_from lead
is_utf8 s = is_utf8_from 0 0x80 0xbf s
