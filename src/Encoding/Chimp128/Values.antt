-- ===== src/Encoding/Chimp128/Values.antt =====
-- Values one after the other in the encoder of chimp128.rs, and the flush.
use timbre_tsf.Prelude.{
  ℕ, suc, ◌+◌, ◌%◌, ◌^◌, ◌<◌, ◌≤◌, ◌≡◌, refl, ap, arith, Bool, true, false, List, [], ◌∷◌, ◌++◌,
  bit_xor, ◌==◌, inl, inr, Bool-cases, append_assoc, append-nil, length, All,
}
use timbre_tsf.Exec.{Result, ok, for_each, ◌>>◌}
use timbre_tsf.Words.{wrapping_add, IsByte}
use timbre_tsf.Words.Xor.{bit_xor_comm}
use timbre_tsf.Words.Zeros.{leading_zeros, trailing_zeros}
use timbre_tsf.Words.Shifts.{mod_two_pow-lt, two_pow_mono}
use timbre_tsf.Encoding.BitStream.{bits_of, stream}
use timbre_tsf.Encoding.BitStream.Writer.{empty_writer, write_bit, flush_bits}
use timbre_tsf.Encoding.BitStream.Writer.Appends.{
  Stands, write_bit-Stands, flush_bits-Flushed, empty_writer-Stands,
}
use timbre_tsf.Encoding.Gorilla.Code.{Context, difference, next, IsNarrow, Narrow, AllNarrow}
use timbre_tsf.Encoding.Gorilla.Written.{Layout, next_same, next_changed, next-previous}
use timbre_tsf.Encoding.Chimp128.Encoder.{
  Chimp128Encoder, encode_xor, encode_bits_generic, encode_bits, finish, flush,
}
use timbre_tsf.Encoding.Chimp128.Code.{value_code, code}
use timbre_tsf.Encoding.Chimp128.Written.{Encodes, write_bits_appends, encode_xor-Encodes}

-- The two ways of `encode_bits_generic` behind the first value.
module _ (t v : ℕ) (e : Chimp128Encoder) (x : ℕ) where
  generic_same :
      (e.count == 0) ≡ false
      → bit_xor v e.prev_value % 2 ^ t ≡ x
      → (x == 0) ≡ true
      → encode_bits_generic t v e ≡ record e {
        writer = write_bit false e.writer;
        prev_value = v;
        count = wrapping_add 64 e.count 1;
      }
  unfolding encode_bits_generic
  generic_same started xor same = rw (started, ap (λ (n : ℕ). n == 0) xor, same) refl

  generic_changed :
      (e.count == 0) ≡ false
      → bit_xor v e.prev_value % 2 ^ t ≡ x
      → (x == 0) ≡ false
      → encode_bits_generic t v e
        ≡ record (encode_xor t x e) { prev_value = v; count = wrapping_add 64 e.count 1 }
  unfolding encode_bits_generic
  generic_changed started xor differs =
      rw (started, ap (λ (n : ℕ). n == 0) xor, differs)
        (ap
          (λ (n : ℕ). record (encode_xor t n e) {
            prev_value = v;
            count = wrapping_add 64 e.count 1;
          })
          xor)

-- The context behind a first value.
abbrev pub start : ℕ → Context
start v = record { previous = v; leading = 255; trailing = 0 }

pub differs_room :
    (t bits x : ℕ)
    → (x == 0) ≡ false
    → IsNarrow t bits x
    → bits ≤ leading_zeros t x + trailing_zeros t x + 57
differs_room t bits x differs (inl same) = absurd (ground arith)
differs_room t bits x differs (inr some_room) = some_room

module _ (t bits width : ℕ) (y : Layout t bits width) where
  with_value :
      (v n k : ℕ) (e : Chimp128Encoder) (c : Context) (l : List Bool)
      → k ≡ n
      → suc n < 2 ^ 64
      → Encodes bits e c n l
      → Encodes bits
          (record e { prev_value = v; count = wrapping_add 64 k 1 })
          (record c { previous = v })
          (suc n)
          l
  with_value v n k e c l same room h = record {
    counted = omega arith;
    some_values = omega arith;
    previous = refl;
    leading = h.leading;
    trailing = h.trailing;
    word = h.word;
    fits = h.fits;
    stands = h.stands;
  }

  same_value :
      (v n k : ℕ) (e : Chimp128Encoder) (c : Context) (l : List Bool)
      → k ≡ n
      → suc n < 2 ^ 64
      → Encodes bits e c n l
      → Encodes bits
          (record e {
            writer = write_bit false e.writer;
            prev_value = v;
            count = wrapping_add 64 k 1;
          })
          (record c { previous = v })
          (suc n)
          (l ++ (false ∷ []))
  same_value v n k e c l same room h = record {
    counted = omega arith;
    some_values = omega arith;
    previous = refl;
    leading = h.leading;
    trailing = h.trailing;
    word = h.word;
    fits = h.fits;
    stands = write_bit-Stands false e.writer l h.stands;
  }

  -- One further value.
  encode_value-Encodes :
      (v n : ℕ) (e : Chimp128Encoder) (c : Context) (l : List Bool)
      → suc n < 2 ^ 64
      → IsNarrow t bits (difference t c v)
      → Encodes bits e c n l
      → Encodes bits (encode_bits_generic t v e) (next t c v) (suc n) (l ++ value_code t bits c v)
  unfolding value_code
  encode_value-Encodes v n e c l room narrow h =
      let x = difference t c v in
      let xor : bit_xor v e.prev_value % 2 ^ t ≡ x =
        rw h.previous (ap (λ (k : ℕ). k % 2 ^ t) (bit_xor_comm v c.previous)) in
      let started : (e.count == 0) ≡ false = ground (arith, h.counted, h.some_values) in
      elim (Bool-cases (x == 0)) [
        | inl same ↦
            rw (generic_same t v e x started xor same, same, next_same t bits width y c v same)
              (same_value v n e.count e c l h.counted room h)
        | inr differs ↦
            rw
              (
                generic_changed t v e x started xor differs,
                differs,
                next_changed t bits width y c v differs,
              )
              (with_value v n e.count _ _ _ h.counted room (
                encode_xor-Encodes t bits width y x n e c l (ground arith) (mod_two_pow-lt _ t)
                  (differs_room t bits x differs narrow) h))
      ]

  encode_rest :
      (vs : List ℕ) (n : ℕ) (e : Chimp128Encoder) (c : Context) (l : List Bool) (out : List ℕ)
      → n + length vs < 2 ^ 64
      → Narrow t bits c.previous vs
      → Encodes bits e c n l
      → (e' : Chimp128Encoder) × (c' : Context) × (for_each (encode_bits t) vs (e, out)
          ≡ (ok tt, (e', out)))
        × Encodes bits e' c' (n + length vs) (l ++ code t bits c vs)
  unfolding for_each encode_bits code Narrow
  encode_rest [] n e c l out room narrow h =
      let all : n + 0 ≡ n = omega arith in (e, c, refl, rw (append-nil, all) h)
  encode_rest (v ∷ vs) n e c l out room (narrow, later) h =
      let step = encode_value-Encodes v n e c l (omega arith) narrow h in
      let (e', c', ran, h') =
        encode_rest vs (suc n) (encode_bits_generic t v e) (next t c v) _ out (omega arith)
          (rw (← next-previous t bits width y c v) at later) step in
      let total : suc n + length vs ≡ n + suc (length vs) = omega arith in
      (e', c', ran, rw (append_assoc, total) at h')

  -- All the bits of a sequence.
  unfoldable pub whole : List ℕ → List Bool
  whole [] = []
  whole (v ∷ vs) = bits_of bits v ++ code t bits (start v) vs

  -- An encoder before its first value.
  pub record FreshEncoder (e : Chimp128Encoder) : Type 0 where
    pub first : e.count ≡ 0
    pub leading : e.prev_leading ≡ 255
    pub trailing : e.prev_trailing ≡ 0
    pub word : e.bit_width ≡ bits
    pub empty : e.writer ≡ empty_writer

  encode_first :
      (v : ℕ) (e : Chimp128Encoder)
      → v < 2 ^ t
      → FreshEncoder e
      → Encodes bits (encode_bits_generic t v e) (start v) 1 (bits_of bits v)
  unfolding encode_bits_generic
  encode_first v e small h = rw (ap (λ (n : ℕ). n == 0) h.first) (record {
    counted = refl;
    some_values = omega arith;
    previous = refl;
    leading = h.leading;
    trailing = h.trailing;
    word = h.word;
    fits = inl refl;
    stands =
        rw (h.empty, h.word)
          (write_bits_appends v bits empty_writer []
            (omega (arith, two_pow_mono t bits y.value_fits)) (omega (arith, y.word_fits))
            empty_writer-Stands);
  })

  -- What a flush leaves.
  pub record Written (vs out : List ℕ) (q : Result (Unit {0}) × (Chimp128Encoder × List ℕ))
      : Type 0 where
    pub after : Chimp128Encoder
    pub bytes : List ℕ
    pub pad : ℕ
    pub ran : q ≡ (ok tt, (after, out ++ bytes))
    pub are_bytes : All IsByte bytes
    pub bits_are : stream bytes ≡ whole vs ++ bits_of pad 0

  flush-Written :
      (vs : List ℕ) (e : Chimp128Encoder) (out : List ℕ)
      → Stands e.writer (whole vs)
      → Written vs out (flush (e, out))
  unfolding flush finish
  flush-Written vs e out s =
      let f = flush_bits-Flushed e.writer (whole vs) s in
      record {
        after = record e { writer = record (flush_bits e.writer) { buffer = [] } };
        bytes = (flush_bits e.writer).buffer;
        pad = f.pad;
        ran = refl;
        are_bytes = f.bytes;
        bits_are = f.bits;
      }

  -- One call for each value and then a flush write the bits of the sequence, in whole bytes.
  pub encode_then_flush :
      (vs out : List ℕ) (e : Chimp128Encoder)
      → length vs < 2 ^ 64
      → All (λ v. v < 2 ^ t) vs
      → AllNarrow t bits vs
      → FreshEncoder e
      → Written vs out ((for_each (encode_bits t) vs >> flush) (e, out))
  unfolding for_each encode_bits whole
  encode_then_flush [] out e room small narrow h =
      flush-Written [] e out (rw h.empty empty_writer-Stands)
  encode_then_flush (v ∷ vs) out e room (small, _) narrow h =
      let first = encode_first v e small h in
      let (e', c', ran, h') =
        encode_rest vs 1 (encode_bits_generic t v e) (start v) _ out (omega arith) narrow first in
      rw ran (flush-Written (v ∷ vs) e' out h'.stands)
