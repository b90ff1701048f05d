-- ===== src/Bytes/Slice.antt =====
-- Slices `input[from..to]`, which panic where the range is out of order or out of bounds.
use timbre_tsf.Prelude.{
  ℕ, ◌+◌, ◌-◌, ◌<◌, ◌≡◌, arith, List, ◌++◌, length, take, drop, leb, ◌&&◌, Option, none, some,
  length-append, le→leb, lt→leb_false, take-length_append, if◌then◌else◌,
}
use timbre_tsf.Bytes.{At, At-length}

unfoldable pub slice {ℓ} : {A : Type ℓ} → List A → ℕ → ℕ → Option (List A)
slice input from to =
    if leb from to && leb to (length input) then some (take (to - from) (drop from input)) else none

-- What stands at a position.
pub slice-At :
    (input : List ℕ) (pos : ℕ) (xs rest : List ℕ)
    → At input pos (xs ++ rest)
    → slice input pos (pos + length xs) ≡ some xs
unfolding slice
slice-At input pos xs rest a =
    let ordered = le→leb pos (pos + length xs) (omega arith) in
    let whole = At-length input pos (xs ++ rest) a in
    let inside =
      le→leb (pos + length xs) (length input) (omega (arith, whole, length-append xs rest)) in
    let count : pos + length xs - pos ≡ length xs = omega arith in
    rw (ordered, inside, count, a.rest, take-length_append xs rest)

pub slice_disordered : (input : List ℕ) (from to : ℕ) → to < from → slice input from to ≡ none
unfolding slice
slice_disordered input from to h = rw (lt→leb_false to from h)
