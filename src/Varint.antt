-- ===== src/Varint.antt =====
-- Variable-length integers: the loops that zigzag.rs, dictionary.rs, dictionary_rle.rs and
-- file/dictionary.rs repeat. Seven bits a byte, the lowest first; the top bit says that more
-- bytes follow. A writer is well-founded recursion on the number that is left, a reader
-- recursion on the bytes `input[pos..]` that are left.
pub mod Groups
pub mod Read
pub mod RoundTrip
mod Tests
use timbre_tsf.Prelude.{
  ℕ, ◌+◌, ◌/◌, ◌%◌, ◌<◌, ◌^◌, ◌*◌, bit_and, bit_or, List, [], ◌∷◌, ◌++◌, arith, leb, ◌==◌, drop,
  if◌then◌else◌,
}
use timbre_tsf.Prelude.Order.{lt_wf}
use timbre_tsf.Words.{u8, shl, shr}
use timbre_tsf.Exec.{TimbreError, Result, Exec, ok, err}
use mathlib.Core.Logic.{dite}
use mathlib.Core.WellFounded.{Acc}
use native.Mathlib.Decide.{dec_lt}

pub shift_shrinks : (n : ℕ) → 0x7f < n → shr n 7 < n
shift_shrinks n h = omega arith

-- `loop { if n <= 0x7F { push(n as u8); break } else { push((n as u8 & 0x7F) | 0x80); n >>= 7 } }`
unfoldable pub push_loop : List ℕ → (n : ℕ) → Acc ◌<◌ n → List ℕ
push_loop out n (Acc.intro _ smaller) =
    dite (dec_lt 0x7f n)
      (λ more.
        push_loop (out ++ bit_or (bit_and (u8 n) 0x7f) 0x80 ∷ []) (shr n 7)
          (smaller _ (shift_shrinks n more)))
      (λ _. out ++ u8 n ∷ [])

unfoldable pub push_varint : ℕ → List ℕ → List ℕ
push_varint n out = push_loop out n (lt_wf.apply n)

pub more_shrinks : (n : ℕ) → 0 < shr n 7 → shr n 7 < n
more_shrinks n h = omega arith

-- The same number by a loop that tests after the shift: `byte = (value & 0x7F) as u8;
-- value >>= 7; if value != 0 { byte |= 0x80 }; push(byte); if value == 0 { break }`.
unfoldable pub push_after_loop : List ℕ → (value : ℕ) → Acc ◌<◌ value → List ℕ
push_after_loop out value (Acc.intro _ smaller) =
    let byte = u8 (bit_and value 0x7f) in
    dite (dec_lt 0 (shr value 7))
      (λ more.
        push_after_loop (out ++ bit_or byte 0x80 ∷ []) (shr value 7)
          (smaller _ (more_shrinks value more)))
      (λ _. out ++ byte ∷ [])

unfoldable pub push_varint_after : ℕ → List ℕ → List ℕ
push_varint_after value out = push_after_loop out value (lt_wf.apply value)

-- `result |= ((byte & 0x7F) as uN) << shift`, where a shift by the width or more is taken
-- modulo the width.
abbrev pub add_group : ℕ → ℕ → ℕ → ℕ → ℕ
add_group w result byte shift = bit_or result (shl w (bit_and byte 0x7f) (shift % w))

-- The reader of a u32, which refuses a sixth byte. The list is `input[pos..]`.
module _ (short large : TimbreError) where
  unfoldable pub read_u32_loop : List ℕ → ℕ → ℕ → Exec ℕ ℕ
  read_u32_loop [] result shift pos = (err short, pos)
  read_u32_loop (byte ∷ rest) result shift pos =
      let result' = add_group 32 result byte shift in
      let more = read_u32_loop rest result' (shift + 7) (pos + 1) in
      if bit_and byte 0x80 == 0
      then (ok result', pos + 1)
      else if leb 32 (shift + 7)
      then (err large, pos + 1)
      else more

  unfoldable pub read_u32 : List ℕ → Exec ℕ ℕ
  read_u32 input pos = read_u32_loop (drop pos input) 0 0 pos

-- The reader of a w-bit number with no bound on the bytes.
module _ (w : ℕ) (short : TimbreError) where
  unfoldable pub read_loop : List ℕ → ℕ → ℕ → Exec ℕ ℕ
  read_loop [] result shift pos = (err short, pos)
  read_loop (byte ∷ rest) result shift pos =
      let result' = add_group w result byte shift in
      let more = read_loop rest result' (shift + 7) (pos + 1) in
      if bit_and byte 0x80 == 0 then (ok result', pos + 1) else more

  unfoldable pub read_word : List ℕ → Exec ℕ ℕ
  read_word input pos = read_loop (drop pos input) 0 0 pos
