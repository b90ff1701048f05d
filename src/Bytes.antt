-- ===== src/Bytes.antt =====
-- Byte sequences: the little-endian forms of std, the third-party crate byteorder behind the
-- interface `LittleEndian`, and reading at a position of an input slice.
pub mod Reader
pub mod Utf8
pub mod Same
pub mod Strings
pub mod Slice
pub mod BigEndian
use timbre_tsf.Prelude.{
  ℕ, zero, suc, ◌+◌, ◌-◌, ◌*◌, ◌/◌, ◌%◌, ◌^◌, ◌≤◌, ◌<◌, ◌≡◌, refl, sym, ap, ap₂, ◌∙◌, arith, List,
  [], ◌∷◌, ◌++◌, length, take, drop, All, leb, get_elem?, Option, none, some, Bool, true, false,
  ltb, length-append, drop-drop, drop-length_append, take-length_append, length-drop, le→leb,
  lt→leb_false, if◌then◌else◌, append-nil, append_assoc, replicate, length-take,
}
use timbre_tsf.Words.{IsByte}
use timbre_tsf.Exec.{Result, Exec, ok, err, panic, io}
use native.Mathlib.Nat.{pow-suc}

-- `to_le_bytes` and `from_le_bytes` of an integer of `width` bytes.
unfoldable pub to_le_bytes : ℕ → ℕ → List ℕ
to_le_bytes zero v = []
to_le_bytes (suc w) v = (v % 2 ^ 8) ∷ to_le_bytes w (v / 2 ^ 8)

unfoldable pub from_le_bytes : List ℕ → ℕ
from_le_bytes [] = 0
from_le_bytes (b ∷ bytes) = b + from_le_bytes bytes * 2 ^ 8

pub length-to_le_bytes : (w v : ℕ) → length (to_le_bytes w v) ≡ w
unfolding to_le_bytes
length-to_le_bytes zero v = refl
length-to_le_bytes (suc w) v = ap suc (length-to_le_bytes w (v / 2 ^ 8))

pub to_le_bytes-IsByte : (w v : ℕ) → All IsByte (to_le_bytes w v)
unfolding to_le_bytes
to_le_bytes-IsByte zero v = tt
to_le_bytes-IsByte (suc w) v = (omega arith, to_le_bytes-IsByte w (v / 2 ^ 8))

pub from_le_bytes-to_le_bytes : (w v : ℕ) → v < 256 ^ w → from_le_bytes (to_le_bytes w v) ≡ v
unfolding to_le_bytes from_le_bytes
from_le_bytes-to_le_bytes zero v h = omega arith
from_le_bytes-to_le_bytes (suc w) v h =
    omega (arith, from_le_bytes-to_le_bytes w (v / 2 ^ 8) (omega (arith, pow-suc 256 w)))

-- What the code relies on of byteorder's `WriteBytesExt` and `ReadBytesExt` at `LittleEndian`,
-- as its documentation states it: writing appends the little-endian bytes; reading takes the
-- first bytes of a reader, and fails where there are too few.
pub record LittleEndian : Type 0 where
  pub write : ℕ → ℕ → List ℕ
  pub read : ℕ → List ℕ → Option ℕ
  pub write_lem : (w v : ℕ) → write w v ≡ to_le_bytes w v
  pub read_enough :
      (w : ℕ) (bytes : List ℕ)
      → w ≤ length bytes
      → read w bytes ≡ some (from_le_bytes (take w bytes))
  pub read_short : (w : ℕ) (bytes : List ℕ) → length bytes < w → read w bytes ≡ none

-- The rest of the input at a position: `input[pos..]` is `bytes`.
pub record At (input : List ℕ) (pos : ℕ) (bytes : List ℕ) : Type 0 where
  pub inside : pos ≤ length input
  pub rest : drop pos input ≡ bytes

pub At-start : (input : List ℕ) → At input 0 input
At-start input = record { inside = omega arith; rest = refl }

pub At-skip :
    (input : List ℕ) (pos : ℕ) (xs ys : List ℕ)
    → At input pos (xs ++ ys)
    → At input (pos + length xs) ys
At-skip input pos xs ys h = record {
  inside = omega (arith, h.inside, length-drop pos input, ap length h.rest, length-append xs ys);
  rest =
      sym (drop-drop (length xs) pos input)
      ∙ ap (drop (length xs)) h.rest
      ∙ drop-length_append xs ys;
}

pub At-length :
    (input : List ℕ) (pos : ℕ) (bytes : List ℕ)
    → At input pos bytes
    → length input ≡ pos + length bytes
At-length input pos bytes h = omega (arith, h.inside, length-drop pos input, ap length h.rest)

get_elem?-drop {ℓ} : {A : Type ℓ} (n : ℕ) (xs : List A) → get_elem? xs n ≡ get_elem? (drop n xs) 0
get_elem?-drop zero xs = refl
get_elem?-drop (suc n) [] = refl
get_elem?-drop (suc n) (x ∷ xs) = get_elem?-drop n xs

-- `input[pos]` at a byte.
pub At-byte :
    (input : List ℕ) (pos b : ℕ) (ys : List ℕ)
    → At input pos (b ∷ ys)
    → (get_elem? input pos ≡ some b) × (pos < length input) × At input (pos + 1) ys
At-byte input pos b ys h = (
  get_elem?-drop pos input ∙ ap (λ (l : List ℕ). get_elem? l 0) h.rest,
  omega (arith, At-length input pos (b ∷ ys) h),
  At-skip input pos (b ∷ []) ys h,
)

module _ (bo : LittleEndian) where
  -- `(&input[*pos..]).read_x::<LittleEndian>()?` and `*pos += width`.
  unfoldable pub read_at : ℕ → List ℕ → Exec ℕ ℕ
  read_at w input pos =
      if leb pos (length input)
      then (elim (bo.read w (drop pos input)) [ none ↦ (err io, pos) | some v ↦ (ok v, pos + w) ])
      else (panic, pos)

  pub length-write : (w v : ℕ) → length (bo.write w v) ≡ w
  length-write w v = rw (bo.write_lem w v) (length-to_le_bytes w v)

  -- What was written is read, whatever follows it.
  pub read-write :
      (w v : ℕ) (rest : List ℕ) → v < 256 ^ w → bo.read w (bo.write w v ++ rest) ≡ some v
  read-write w v rest h =
      bo.read_enough w (bo.write w v ++ rest)
        (omega (arith, length-append (bo.write w v) rest, length-write w v))
      ∙ ap some (
          ap from_le_bytes (
            ap (λ (k : ℕ). take k (bo.write w v ++ rest)) (sym (length-write w v))
            ∙ take-length_append (bo.write w v) rest
            ∙ bo.write_lem w v)
          ∙ from_le_bytes-to_le_bytes w v h)

  pub read_at-write :
      (w v : ℕ) (input : List ℕ) (pos : ℕ) (rest : List ℕ)
      → v < 256 ^ w
      → At input pos (bo.write w v ++ rest)
      → read_at w input pos ≡ (ok v, pos + w)
  unfolding read_at
  read_at-write w v input pos rest h a =
      rw (le→leb pos (length input) a.inside, a.rest, read-write w v rest h)

  pub At-write :
      (w v : ℕ) (input : List ℕ) (pos : ℕ) (rest : List ℕ)
      → At input pos (bo.write w v ++ rest)
      → At input (pos + w) rest
  At-write w v input pos rest a = rw (length-write w v) at (At-skip input pos (bo.write w v) rest a)

-- byteorder's behaviour can be had: std's own functions behave so.
unfoldable pub le_std : LittleEndian
le_std = record {
  write = to_le_bytes;
  read = λ w bytes. if leb w (length bytes) then some (from_le_bytes (take w bytes)) else none;
  write_lem = λ w v. refl;
  read_enough = λ w bytes h. rw (le→leb w (length bytes) h);
  read_short = λ w bytes h. rw (lt→leb_false (length bytes) w h);
}
