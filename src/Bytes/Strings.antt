-- ===== src/Bytes/Strings.antt =====
-- A string of a length that was read, as the decoders take it from their input.
use timbre_tsf.Prelude.{
  ℕ, ◌+◌, ◌^◌, ◌≤◌, ◌<◌, ◌≡◌, arith, true, false, none, some, List, ◌++◌, length, ltb,
  if◌then◌else◌,
}
use timbre_tsf.Words.{wrapping_add}
use timbre_tsf.Exec.{TimbreError, Exec, ok, err, panic}
use timbre_tsf.Bytes.{At, At-skip}
use timbre_tsf.Bytes.Slice.{slice, slice-At}
use timbre_tsf.Bytes.Utf8.{is_utf8}

-- `*pos + width` is in bounds and does not wrap.
pub fits_input :
    (input : List ℕ) (pos width : ℕ)
    → pos + width ≤ length input
    → length input < 2 ^ 63
    → (wrapping_add 64 pos width ≡ pos + width) × (ltb (length input) (pos + width) ≡ false)
fits_input input pos width h short = (omega arith, ground arith)

-- The errors for an input that ends before, and for bytes that are not UTF-8.
module _ (short_input invalid : TimbreError) where
  -- `from_utf8` and the move behind the string.
  abbrev pub checked_string : List ℕ → ℕ → Exec ℕ (List ℕ)
  checked_string bytes after pos = if is_utf8 bytes then (ok bytes, after) else (err invalid, pos)

  -- `input[*pos..*pos + len]`, with its check.
  unfoldable pub take_string : List ℕ → ℕ → Exec ℕ (List ℕ)
  take_string input len pos =
      if ltb (length input) (wrapping_add 64 pos len)
      then (err short_input, pos)
      else elim (slice input pos (wrapping_add 64 pos len)) [
        | none ↦ (panic, pos)
        | some bytes ↦ checked_string bytes (wrapping_add 64 pos len) pos
      ]

  pub take_string-At :
      (s input : List ℕ) (pos : ℕ) (rest : List ℕ)
      → length input < 2 ^ 63
      → is_utf8 s ≡ true
      → At input pos (s ++ rest)
      → take_string input (length s) pos ≡ (ok s, pos + length s)
  unfolding take_string
  take_string-At s input pos rest short valid a =
      let behind = At-skip input pos s rest a in
      let (wraps, inside) = fits_input input pos (length s) behind.inside short in
      rw (wraps, inside, slice-At input pos s rest a, valid, wraps)
