-- ===== src/Encoding/BitStream/Reader/Follows.antt =====
-- The bit reader implements a sequence of bits that is still to come.
use timbre_tsf.Prelude.{
  ℕ, zero, suc, ◌+◌, ◌-◌, ◌*◌, ◌/◌, ◌%◌, ◌^◌, ◌<◌, ◌≤◌, ◌≡◌, refl, sym, ap, ◌∙◌, arith, Bool, true,
  min, false, List, [], ◌∷◌, ◌++◌, length, take, drop, replicate, bit_or, ltb, ◌==◌, append_assoc,
  lt→leb_false, Bool-cases, inl, inr, if◌then◌else◌, All, All-take, All-drop, length-take,
  length-replicate, length-drop, take-append-drop, drop-drop, length-append, ltb→lt,
}
use timbre_tsf.Words.{shl, shr, IsByte}
use timbre_tsf.Words.Bits.{two_pow_pos}
use timbre_tsf.Words.Shifts.{
  high_part, low_part, mod_two_pow-lt, joined-lt, two_pow_sum, shr-lt, bit_or_behind,
}
use timbre_tsf.Exec.{TimbreError, Result, ok}
use timbre_tsf.Bytes.BigEndian.{from_be_bytes}
use timbre_tsf.Encoding.BitStream.{
  bits_of, stream, stream-append, bits_of-add, bits_of-split, bits_of-first, stream-from_be_bytes,
  from_be_bytes-lt, length-bits_of, length-stream,
}
use timbre_tsf.Encoding.BitStream.Reader.{
  BitReader, new_reader, fetch, refilled, refill_buffer, refill_until, extract, read_bits, read_bit,
}
use native.Mathlib.Nat.{mul-div_cancel}

-- What is still to be read: the fetched bits, whose number is `fetched`, and the rest of the input.
pub record Follows (input : List ℕ) (r : BitReader) (l : List Bool) : Type 0 where
  pub fetched : ℕ
  pub fetched_small : fetched < 2 ^ r.bits_available
  pub room : r.bits_available ≤ 64
  pub at_top : r.bit_buffer ≡ fetched * 2 ^ (64 - r.bits_available)
  pub inside : r.byte_pos ≤ length input
  pub coming : bits_of r.bits_available fetched ++ stream (drop r.byte_pos input) ≡ l

pub Follows-length :
    (input : List ℕ) (r : BitReader) (l : List Bool)
    → Follows input r l
    → length l ≡ r.bits_available + 8 * (length input - r.byte_pos)
Follows-length input r l f = omega (
  arith,
  ap length f.coming,
  length-append (bits_of r.bits_available f.fetched) (stream (drop r.byte_pos input)),
  length-bits_of r.bits_available f.fetched,
  length-stream (drop r.byte_pos input),
  length-drop r.byte_pos input,
)

-- Zeros behind bytes move their number up.
from_be_bytes-zeros :
    (bytes : List ℕ) (k : ℕ)
    → from_be_bytes (bytes ++ replicate k 0) ≡ from_be_bytes bytes * 2 ^ (8 * k)
unfolding from_be_bytes
from_be_bytes-zeros [] k = from_be_bytes-none k
  where
    from_be_bytes-none : (k : ℕ) → from_be_bytes (replicate k 0) ≡ 0 * 2 ^ (8 * k)
    from_be_bytes-none zero = refl
    from_be_bytes-none (suc k) = omega (arith, from_be_bytes-none k)
from_be_bytes-zeros (b ∷ bytes) k =
    let longer : 8 * length (bytes ++ replicate k 0) ≡ 8 * length bytes + 8 * k =
      omega (arith, length-append bytes (replicate k 0), length-replicate {A = ℕ} k 0) in
    rw
      (
        two_pow_sum (8 * length bytes) (8 * k) (8 * length (bytes ++ replicate k 0)) longer,
        from_be_bytes-zeros bytes k,
      )
      (grind arith)

fetch_lem :
    (input : List ℕ) (pos n : ℕ)
    → n ≤ 8
    → fetch input pos n ≡ from_be_bytes (take n (drop pos input)) * 2 ^ (64 - 8 * n)
unfolding fetch
fetch_lem input pos n h = elim (Bool-cases (n == 8)) [
  | inl whole ↦ (let e : n ≡ 8 = ground arith in rw (e) (omega arith))
  | inr part ↦ rw part (
      from_be_bytes-zeros (take n (drop pos input)) (8 - n)
      ∙ ap (λ (k : ℕ). from_be_bytes (take n (drop pos input)) * 2 ^ k)
          (let e : 8 * (8 - n) ≡ 64 - 8 * n = omega arith in e))
]

-- The word that a refill leaves.
refilled_word :
    (input : List ℕ) (pos n p a word : ℕ)
    → All IsByte input
    → n ≤ length input - pos
    → a + 8 * n ≤ 64
    → word ≡ p * 2 ^ (64 - a)
    → (let number = from_be_bytes (take n (drop pos input)) in
        (number < 2 ^ (8 * n))
        × (bit_or word (shr (fetch input pos n) a)
            ≡ (p * 2 ^ (8 * n) + number) * 2 ^ (64 - (a + 8 * n))))
refilled_word input pos n p a word bytes enough fits e =
    let number = from_be_bytes (take n (drop pos input)) in
    let x = 64 - (a + 8 * n) in
    let count : length (take n (drop pos input)) ≡ n =
      omega (arith, length-take n (drop pos input), length-drop pos input) in
    let small : number < 2 ^ (8 * n) = rw count at (
      from_be_bytes-lt (take n (drop pos input))
        (All-take IsByte n (drop pos input) (All-drop IsByte pos input bytes))) in
    let down : number * 2 ^ (64 - 8 * n) / 2 ^ a ≡ number * 2 ^ x =
      rw (two_pow_sum x a (64 - 8 * n) (omega arith)) (
        ap (λ (k : ℕ). k / 2 ^ a) (times_assoc number (2 ^ x) (2 ^ a))
        ∙ mul-div_cancel (number * 2 ^ x) (two_pow_pos a)) in
    (
      small,
      rw (e, fetch_lem input pos n (omega arith), down)
          (bit_or_behind number (8 * n) a p small fits),
    )
  where
    times_assoc : (x y z : ℕ) → x * (y * z) ≡ x * y * z
    times_assoc x y z = grind arith

-- Fetching moves bits from the input to the word, and changes nothing of what is to come.
refilled-Follows :
    (input : List ℕ) (n : ℕ) (r : BitReader) (l : List Bool)
    → All IsByte input
    → n ≤ length input - r.byte_pos
    → r.bits_available + 8 * n ≤ 64
    → Follows input r l
    → Follows input (refilled input n r) l
unfolding refilled
refilled-Follows input n r l bytes enough fits f =
    let a = r.bits_available in
    let here = drop r.byte_pos input in
    let number = from_be_bytes (take n here) in
    let (small, word) =
      refilled_word input r.byte_pos n f.fetched a r.bit_buffer bytes enough fits f.at_top in
    let eight : n * 8 ≡ 8 * n = omega arith in
    let count : length (take n here) ≡ n =
      omega (arith, length-take n here, length-drop r.byte_pos input) in
    let taken : stream (take n here) ≡ bits_of (8 * n) number =
      stream-from_be_bytes (take n here)
        (All-take IsByte n here (All-drop IsByte r.byte_pos input bytes))
      ∙ ap (λ (k : ℕ). bits_of (8 * k) number) count in
    record {
      fetched = f.fetched * 2 ^ (8 * n) + number;
      fetched_small =
          rw eight (joined-lt f.fetched number a (8 * n) (a + 8 * n) refl f.fetched_small small);
      room = rw eight fits;
      at_top = rw eight word;
      inside = omega (arith, f.inside);
      coming = rw (
        eight,
        bits_of-add a (8 * n) f.fetched number small,
        append_assoc,
        ← taken,
        ← drop-drop n r.byte_pos input,
        ← stream-append,
        take-append-drop,
        f.coming,
      );
    }

-- The word after a read of `n` of its `a` bits.
rest_of_word :
    (n a p : ℕ)
    → a ≤ 64
    → n ≤ a
    → (if ltb n 64 then shl 64 (p * 2 ^ (64 - a)) n else 0) ≡ (p % 2 ^ (a - n)) * 2 ^ (64 - (a - n))
rest_of_word n a p room there = elim (Bool-cases (ltb n 64)) [
  | inl part ↦
      (let places : 64 - a + n ≡ 64 - (a - n) = omega arith in
        rw part (
          low_part p (64 - a) n (a - n) 64 (omega arith)
          ∙ ap (λ (k : ℕ). (p % 2 ^ (a - n)) * 2 ^ k) places))
  | inr whole ↦ (let none_left : a - n ≡ 0 = ground arith in rw (whole, none_left) (omega arith))
]

extracted :
    (input : List ℕ) (n v : ℕ) (r : BitReader) (rest : List Bool)
    → 0 < n
    → v < 2 ^ n
    → n ≤ r.bits_available
    → Follows input r (bits_of n v ++ rest)
    → (r' : BitReader) × (extract n r ≡ (ok v, r')) × Follows input r' rest
unfolding extract
extracted input n v r rest pos small there f =
    let a = r.bits_available in
    let p = f.fetched in
    let rr = a - n in
    let split = bits_of-split n rr a p (omega arith) in
    let same : bits_of n (p / 2 ^ rr) ++ (bits_of rr (p % 2 ^ rr) ++ stream (drop r.byte_pos input))
        ≡ bits_of n v ++ rest =
      sym (append_assoc (bits_of n (p / 2 ^ rr)) (bits_of rr (p % 2 ^ rr)) _)
      ∙ ap (λ (l : List Bool). l ++ stream (drop r.byte_pos input)) (sym split)
      ∙ f.coming in
    let (value, left) =
      bits_of-first n (p / 2 ^ rr) v _ rest (shr-lt p n rr a (omega arith) f.fetched_small) small
        same in
    let got : shr r.bit_buffer (64 - n) ≡ v =
      rw (f.at_top, high_part p (64 - a) rr (64 - n) (omega (arith, f.room))) value in
    (
      record r {
        bit_buffer = (if ltb n 64 then shl 64 r.bit_buffer n else 0);
        bits_available = rr;
      },
      rw got refl,
      record {
        fetched = p % 2 ^ rr;
        fetched_small = mod_two_pow-lt p rr;
        room = omega (arith, f.room);
        at_top = rw f.at_top (rest_of_word n a p f.room there);
        inside = f.inside;
        coming = left;
      },
    )

-- A new reader has the whole input before it.
pub start-Follows : (input : List ℕ) → Follows input new_reader (stream input)
unfolding bits_of
start-Follows input = record {
  fetched = 0;
  fetched_small = omega arith;
  room = omega arith;
  at_top = omega arith;
  inside = omega arith;
  coming = refl;
}

module _ (short : TimbreError) (behind : Result Bool) where
  -- A successful refill has fetched `num_bits` bits where these are there and fit.
  refill_buffer-Follows :
      (input : List ℕ) (n : ℕ) (r : BitReader) (l : List Bool)
      → All IsByte input
      → r.bits_available < n
      → n ≤ r.bits_available + 8 * ((64 - r.bits_available) / 8)
      → n ≤ length l
      → Follows input r l
      → (r' : BitReader) × (refill_buffer short behind input r ≡ (ok true, r'))
        × (n ≤ r'.bits_available)
        × Follows input r' l
  unfolding refill_buffer refilled
  refill_buffer-Follows input n r l bytes less fits enough f =
      let remaining = length input - r.byte_pos in
      let size = Follows-length input r l f in
      let m = min (min remaining ((64 - r.bits_available) / 8)) 8 in
      let some_left : (remaining == 0) ≡ false = ground arith in
      let some_room : ((64 - r.bits_available) / 8 == 0) ≡ false = ground arith in
      let in_range = lt→leb_false in
      let inside : ltb (length input) r.byte_pos ≡ false = ground (arith, f.inside) in
      (
        refilled input m r,
        rw (inside, some_left, some_room) refl,
        omega arith,
        refilled-Follows input m r l bytes (omega arith) (omega arith) f,
      )

  -- The loop gets the bits with its first refill.
  refill_until-Follows :
      (fuel : ℕ) (input : List ℕ) (n : ℕ) (r : BitReader) (l : List Bool)
      → All IsByte input
      → n ≤ r.bits_available + 8 * ((64 - r.bits_available) / 8)
      → n ≤ length l
      → Follows input r l
      → (r' : BitReader) × (refill_until short behind (suc (suc fuel)) input n r ≡ (ok tt, r'))
        × (n ≤ r'.bits_available)
        × Follows input r' l
  unfolding refill_until
  refill_until-Follows fuel input n r l bytes fits enough f =
      elim (Bool-cases (ltb r.bits_available n)) [
        | inl less ↦
            (let (r', ran, more, f') =
                refill_buffer-Follows input n r l bytes (ltb→lt r.bits_available n less) fits enough
                  f in
              let stops : ltb r'.bits_available n ≡ false = ground arith in
              (r', rw (less, ran, stops) refl, more, f'))
        | inr full ↦ (r, rw full refl, ground arith, f)
      ]

  -- Where the next bits that a reader stands for are those of a value of `n` bits, and the word has
  -- room to fetch `n`, `read_bits` gives the value, and the reader stands for what follows.
  pub read_bits-Follows :
      (input : List ℕ) (n v : ℕ) (r : BitReader) (rest : List Bool)
      → All IsByte input
      → n ≤ r.bits_available + 8 * ((64 - r.bits_available) / 8)
      → v < 2 ^ n
      → Follows input r (bits_of n v ++ rest)
      → (r' : BitReader) × (read_bits short behind input n r ≡ (ok v, r')) × Follows input r' rest
  unfolding read_bits bits_of
  read_bits-Follows input zero v r rest bytes fits small f =
      let z : v ≡ 0 = omega arith in (r, rw z refl, f)
  read_bits-Follows input (suc n) v r rest bytes fits small f =
      let long : suc n ≤ length (bits_of (suc n) v ++ rest) =
        omega (arith, length-append (bits_of (suc n) v) rest, length-bits_of (suc n) v) in
      let (r', ran, more, f') =
        refill_until-Follows 7 input (suc n) r (bits_of (suc n) v ++ rest) bytes fits long f in
      let (r'', took, f'') = extracted input (suc n) v r' rest (omega arith) small more f' in
      let some_bits : (suc n == 0) ≡ false = ground arith in
      (r'', rw (some_bits, ran, took) refl, f'')

  pub read_bit-Follows :
      (input : List ℕ) (b : Bool) (r : BitReader) (rest : List Bool)
      → All IsByte input
      → Follows input r (b ∷ rest)
      → (r' : BitReader) × (read_bit short behind input r ≡ (ok b, r')) × Follows input r' rest
  unfolding read_bit bits_of
  read_bit-Follows input true r rest bytes f =
      let (r', ran, f') =
        read_bits-Follows input 1 1 r rest bytes (omega (arith, f.room)) (omega arith) f in
      (r', rw ran refl, f')
  read_bit-Follows input false r rest bytes f =
      let (r', ran, f') =
        read_bits-Follows input 1 0 r rest bytes (omega (arith, f.room)) (omega arith) f in
      (r', rw ran refl, f')
