-- ===== src/Encoding/BitStream/Writer/Appends.antt =====
-- The bit writer implements a sequence of bits: what was written, and then what waits.
use timbre_tsf.Prelude.{
  ℕ, zero, suc, ◌+◌, ◌-◌, ◌*◌, ◌/◌, ◌%◌, ◌^◌, ◌<◌, ◌≤◌, ◌≡◌, refl, sym, ap, ◌∙◌, arith, Bool, true,
  false, List, [], ◌∷◌, ◌++◌, bit_or, ltb, leb, ◌==◌, append_assoc, le→leb, lt→leb_false,
  Bool-cases, inl, inr, leb→le, append-nil, All, All-append,
}
use timbre_tsf.Words.{shl, shr, u8, IsByte}
use timbre_tsf.Words.Bits.{two_pow_pos}
use timbre_tsf.Words.Shifts.{
  shl_fits, high_part, low_part, mod_two_pow-lt, joined-lt, two_pow_sum, bit_or_behind,
}
use timbre_tsf.Encoding.BitStream.{
  bits_of, stream, stream-append, stream-to_be_bytes, bits_of-add, bits_of-split,
}
use timbre_tsf.Encoding.BitStream.Writer.{
  BitWriter, empty_writer, bit_value, put, drain, spill, write_bits, write_bit, flush_bits,
}
use native.Mathlib.Nat.{mul-div_cancel}
use timbre_tsf.Bytes.BigEndian.{to_be_bytes, to_be_bytes-IsByte}

-- The writer stands for `l`: `waiting` is the number that its waiting bits make.
pub record Holds (w : BitWriter) (l : List Bool) : Type 0 where
  pub waiting : ℕ
  pub waiting_small : waiting < 2 ^ w.bits_in_buffer
  pub room : w.bits_in_buffer ≤ 64
  pub at_top : w.bit_buffer ≡ waiting * 2 ^ (64 - w.bits_in_buffer)
  pub written : stream w.buffer ++ bits_of w.bits_in_buffer waiting ≡ l
  pub bytes : All IsByte w.buffer

-- A value of `n` bits placed right behind `b` bits that stand at the top of the word.
put_word :
    (v n b p word : ℕ)
    → v < 2 ^ n
    → 0 < n
    → b + n ≤ 64
    → word ≡ p * 2 ^ (64 - b)
    → bit_or word (shl 64 v ((64 - b - n) % 64)) ≡ (p * 2 ^ n + v) * 2 ^ (64 - (b + n))
put_word v n b p word small pos fits e =
    let s = 64 - (b + n) in
    let shift : (64 - b - n) % 64 ≡ s = omega arith in
    rw (shift, shl_fits v n s 64 (omega arith) small, e) (bit_or_behind v n b p small fits)

u8_fits : (b n : ℕ) → b + n ≤ 64 → u8 (b + n) ≡ b + n
u8_fits b n h = omega arith

put-Holds :
    (v n : ℕ) (w : BitWriter) (l : List Bool)
    → v < 2 ^ n
    → 0 < n
    → w.bits_in_buffer + n ≤ 64
    → Holds w l
    → Holds (put v n w) (l ++ bits_of n v)
unfolding put
put-Holds v n w l small pos fits h =
    let b = w.bits_in_buffer in
    let total = u8_fits b n fits in
    record {
      waiting = h.waiting * 2 ^ n + v;
      waiting_small = rw total (joined-lt h.waiting v b n (b + n) refl h.waiting_small small);
      room = rw total fits;
      at_top = rw total (put_word v n b h.waiting w.bit_buffer small pos fits h.at_top);
      written = rw (total, bits_of-add b n h.waiting v small, ← append_assoc, h.written);
      bytes = h.bytes;
    }

put-bits_in_buffer :
    (v n : ℕ) (w : BitWriter)
    → w.bits_in_buffer + n ≤ 64
    → (put v n w).bits_in_buffer ≡ w.bits_in_buffer + n
unfolding put
put-bits_in_buffer v n w h = u8_fits w.bits_in_buffer n h

drain_full :
    (n : ℕ) (w : BitWriter) (l : List Bool)
    → 8 * n ≤ w.bits_in_buffer
    → Holds w l
    → Holds (drain n w) l
unfolding drain
drain_full n w l full h =
    let b = w.bits_in_buffer in
    let r = b - 8 * n in
    let split = bits_of-split (8 * n) r b h.waiting (omega arith) in
    let whole : shr w.bit_buffer (64 - 8 * n) ≡ h.waiting / 2 ^ r =
      rw h.at_top (high_part h.waiting (64 - b) r (64 - 8 * n) (omega (arith, h.room))) in
    let places : 64 - b + 8 * n ≡ 64 - r = omega (arith, h.room) in
    rw (le→leb (8 * n) b full) (record {
      waiting = h.waiting % 2 ^ r;
      waiting_small = mod_two_pow-lt h.waiting r;
      room = omega (arith, h.room);
      at_top = rw h.at_top (
          low_part h.waiting (64 - b) (8 * n) r 64 (omega (arith, h.room))
          ∙ ap (λ (k : ℕ). (h.waiting % 2 ^ r) * 2 ^ k) places);
      written = rw (
        whole,
        stream-append,
        stream-to_be_bytes n (h.waiting / 2 ^ r),
        append_assoc,
        ← split,
        h.written,
      );
      bytes = All-append IsByte w.buffer _ h.bytes (to_be_bytes-IsByte n _);
    })

drain-Holds : (n : ℕ) (w : BitWriter) (l : List Bool) → Holds w l → Holds (drain n w) l
unfolding drain
drain-Holds n w l h = elim (Bool-cases (leb (8 * n) w.bits_in_buffer)) [
  | inl full ↦ drain_full n w l (leb→le (8 * n) w.bits_in_buffer full) h
  | inr short ↦ rw short h
]

drain-bits_in_buffer :
    (n : ℕ) (w : BitWriter) → w.bits_in_buffer < 16 * n → (drain n w).bits_in_buffer < 8 * n
unfolding drain
drain-bits_in_buffer n w h = ground arith

-- Between two calls at most seven bits wait.
pub record Stands (w : BitWriter) (l : List Bool) : Type 0 where
  pub holds : Holds w l
  pub few : w.bits_in_buffer < 8

spill_whole :
    (w : BitWriter) (l : List Bool) → w.bits_in_buffer ≡ 64 → Holds w l → Stands (spill w) l
unfolding spill bits_of
spill_whole w l full h =
    let word : w.bit_buffer ≡ h.waiting =
      h.at_top ∙ rw full (let e : h.waiting * 1 ≡ h.waiting = omega arith in e) in
    let behind = rw full at h.written in
    rw (le→leb 64 w.bits_in_buffer (omega arith), word)
      (record {
        holds = record {
          waiting = 0;
          waiting_small = omega arith;
          room = omega arith;
          at_top = omega arith;
          written = rw (append-nil, stream-append, stream-to_be_bytes 8 h.waiting) behind;
          bytes = All-append IsByte w.buffer _ h.bytes (to_be_bytes-IsByte 8 _);
        };
        few = omega arith;
      })

spill_part :
    (w : BitWriter) (l : List Bool) → w.bits_in_buffer < 64 → Holds w l → Stands (spill w) l
unfolding spill
spill_part w l less h =
    let h1 = drain-Holds 4 w l h in
    let b1 = drain-bits_in_buffer 4 w less in
    let h2 = drain-Holds 2 (drain 4 w) l h1 in
    let b2 = drain-bits_in_buffer 2 (drain 4 w) b1 in
    let h3 = drain-Holds 1 (drain 2 (drain 4 w)) l h2 in
    rw (lt→leb_false w.bits_in_buffer 64 less)
      (record { holds = h3; few = drain-bits_in_buffer 1 (drain 2 (drain 4 w)) b2 })

spill-Stands : (w : BitWriter) (l : List Bool) → Holds w l → Stands (spill w) l
spill-Stands w l h = elim (Bool-cases (leb 64 w.bits_in_buffer)) [
  | inl full ↦ spill_whole w l (let e = leb→le 64 w.bits_in_buffer full in omega (arith, h.room)) h
  | inr part ↦ spill_part w l (ground arith) h
]

-- `write_bits` of a value of `n` bits appends these to the sequence that a writer stands for, where
-- the bits that wait and the new ones fit 64; less than eight wait then.
pub write_bits-Stands :
    (v n : ℕ) (w : BitWriter) (l : List Bool)
    → v < 2 ^ n
    → w.bits_in_buffer + n ≤ 64
    → Stands w l
    → Stands (write_bits v n w) (l ++ bits_of n v)
unfolding write_bits bits_of
write_bits-Stands v zero w l small fits s = rw append-nil s
write_bits-Stands v (suc n) w l small fits s =
    let more : (suc n == 0) ≡ false = ground arith in
    rw more
      (spill-Stands (put v (suc n) w) _ (put-Holds v (suc n) w l small (omega arith) fits s.holds))

write_bit_as_put :
    (v : ℕ) (w : BitWriter)
    → w.bits_in_buffer < 8
    → put v 1 w ≡ record w {
      bit_buffer = bit_or w.bit_buffer (shl 64 v ((63 - w.bits_in_buffer) % 64));
      bits_in_buffer = u8 (w.bits_in_buffer + 1);
    }
unfolding put
write_bit_as_put v w few =
    let e : (64 - w.bits_in_buffer) - 1 ≡ 63 - w.bits_in_buffer = omega arith in rw e refl

write_bit-put :
    (bit : Bool) (w : BitWriter)
    → w.bits_in_buffer < 8
    → write_bit bit w ≡ drain 1 (put (bit_value bit) 1 w)
unfolding write_bit
write_bit-put bit w few = ap (drain 1) (sym (write_bit_as_put (bit_value bit) w few))

one_bit-Stands :
    (v : ℕ) (w : BitWriter) (l : List Bool)
    → v < 2 ^ 1
    → Stands w l
    → Stands (drain 1 (put v 1 w)) (l ++ bits_of 1 v)
one_bit-Stands v w l small s =
    let one = put-Holds v 1 w l small (omega arith) (omega (arith, s.few)) s.holds in
    let count = put-bits_in_buffer v 1 w (omega (arith, s.few)) in
    record {
      holds = drain-Holds 1 (put v 1 w) _ one;
      few = drain-bits_in_buffer 1 (put v 1 w) (omega (arith, count, s.few));
    }

pub write_bit-Stands :
    (bit : Bool) (w : BitWriter) (l : List Bool)
    → Stands w l
    → Stands (write_bit bit w) (l ++ (bit ∷ []))
unfolding bits_of
write_bit-Stands true w l s = rw (write_bit-put true w s.few) (one_bit-Stands 1 w l (omega arith) s)
write_bit-Stands false w l s =
    rw (write_bit-put false w s.few) (one_bit-Stands 0 w l (omega arith) s)

-- The last byte: the waiting bits and then zeros.
last_byte :
    (p b word : ℕ)
    → b < 8
    → word ≡ p * 2 ^ (64 - b)
    → stream (to_be_bytes 1 (shr word 56)) ≡ bits_of b p ++ bits_of (8 - b) 0
last_byte p b word few e =
    let up : p * 2 ^ (64 - b) ≡ (p * 2 ^ (8 - b)) * 2 ^ 56 =
      rw (two_pow_sum (8 - b) 56 (64 - b) (omega arith)) (times_assoc p (2 ^ (8 - b)) (2 ^ 56)) in
    let value : shr word 56 ≡ p * 2 ^ (8 - b) + 0 =
      rw (e, up) (mul-div_cancel (p * 2 ^ (8 - b)) (two_pow_pos 56) ∙ omega arith) in
    let eight : 8 * 1 ≡ b + (8 - b) = omega arith in
    rw (value, stream-to_be_bytes 1 (p * 2 ^ (8 - b) + 0))
      (ap (λ (k : ℕ). bits_of k (p * 2 ^ (8 - b) + 0)) eight
        ∙ bits_of-add b (8 - b) p 0 (omega (arith, two_pow_pos (8 - b))))
  where
    times_assoc : (x y z : ℕ) → x * (y * z) ≡ x * y * z
    times_assoc x y z = grind arith

-- A flush writes whole bytes: less than eight zeros fill the last.
pub record Flushed (w : BitWriter) (l : List Bool) : Type 0 where
  pub pad : ℕ
  pub pad_small : pad < 8
  pub bits : stream w.buffer ≡ l ++ bits_of pad 0
  pub word_clear : w.bit_buffer ≡ 0
  pub none_wait : w.bits_in_buffer ≡ 0
  pub bytes : All IsByte w.buffer

none_waiting : (w : BitWriter) (l : List Bool) → w.bits_in_buffer ≡ 0 → Holds w l → Flushed w l
unfolding bits_of
none_waiting w l z h = record {
  pad = 0;
  pad_small = omega arith;
  bits = rw (sym (rw z at h.written), append-nil, append-nil) refl;
  word_clear =
      let p0 : h.waiting ≡ 0 = (let small = rw z at h.waiting_small in omega arith) in
      h.at_top ∙ rw p0 (omega arith);
  none_wait = z;
  bytes = h.bytes;
}

pub flush_bits-Flushed : (w : BitWriter) (l : List Bool) → Stands w l → Flushed (flush_bits w) l
unfolding flush_bits
flush_bits-Flushed w l s = elim (Bool-cases (ltb 0 w.bits_in_buffer)) [
  | inl some_wait ↦ rw some_wait (record {
    pad = 8 - w.bits_in_buffer;
    pad_small = ground arith;
    bits = rw (
      stream-append,
      last_byte s.holds.waiting w.bits_in_buffer w.bit_buffer s.few s.holds.at_top,
      ← append_assoc,
      s.holds.written,
    );
    word_clear = refl;
    none_wait = refl;
    bytes = All-append IsByte w.buffer _ s.holds.bytes (to_be_bytes-IsByte 1 _);
  })
  | inr no_wait ↦ rw no_wait (none_waiting w l (ground arith) s.holds)
]

pub empty_writer-Stands : Stands empty_writer []
unfolding stream bits_of
empty_writer-Stands = record {
  holds = record {
    waiting = 0;
    waiting_small = omega arith;
    room = omega arith;
    at_top = omega arith;
    written = refl;
    bytes = tt;
  };
  few = omega arith;
}
