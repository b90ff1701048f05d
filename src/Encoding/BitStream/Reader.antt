-- ===== src/Encoding/BitStream/Reader.antt =====
-- The bit reader of encoding/gorilla.rs: the fields `byte_pos`, `bit_buffer` and `bits_available`
-- of `GorillaDecoder` and the methods that touch only these. Bits that were fetched and not yet
-- read stand at the top of a 64-bit word.
pub mod Follows
pub mod Loop
use timbre_tsf.Prelude.{
  ℕ, zero, suc, ◌+◌, ◌-◌, ◌*◌, ◌/◌, ◌%◌, ◌^◌, min, Bool, true, false, not, List, ◌++◌, length, take,
  drop, replicate, bit_or, ltb, ◌==◌, if◌then◌else◌,
}
use timbre_tsf.Words.{shl, shr}
use timbre_tsf.Exec.{
  TimbreError, Result, Exec, ok, err, panic, pure, throw, abort, gets, unexpected_eof, ◌>>=◌, ◌>>◌,
}
use timbre_tsf.Bytes.BigEndian.{from_be_bytes}

pub record BitReader : Type 0 where
  pub byte_pos : ℕ
  pub bit_buffer : ℕ
  pub bits_available : ℕ

abbrev pub new_reader : BitReader
new_reader = record { byte_pos = 0; bit_buffer = 0; bits_available = 0 }

-- `new_data`: eight bytes at once, or fewer with zeros behind them.
unfoldable pub fetch : List ℕ → ℕ → ℕ → ℕ
fetch input pos bytes_to_read =
    if bytes_to_read == 8
    then from_be_bytes (take 8 (drop pos input))
    else from_be_bytes (take bytes_to_read (drop pos input) ++ replicate (8 - bytes_to_read) 0)

unfoldable pub refilled : List ℕ → ℕ → BitReader → BitReader
unfolding fetch
refilled input bytes_to_read r = record {
  byte_pos = r.byte_pos + bytes_to_read;
  bit_buffer = bit_or r.bit_buffer (shr (fetch input r.byte_pos bytes_to_read) r.bits_available);
  bits_available = r.bits_available + bytes_to_read * 8;
}

-- Where the loop ends well, `num_bits` is at most `bits_available`, and so at most 64.
unfoldable pub extract : ℕ → Exec BitReader ℕ
extract num_bits r = (
  ok (shr r.bit_buffer (64 - num_bits)),
  record r {
    bit_buffer = (if ltb num_bits 64 then shl 64 r.bit_buffer num_bits else 0);
    bits_available = r.bits_available - num_bits;
  },
)

abbrev pub refill_fuel : ℕ
refill_fuel = 9

-- The two files differ in the error at the end of the input, which is `short`.
module _ (short : TimbreError) (behind : Result Bool) where
  -- `bits_available` is at most 64. Where `byte_pos` is behind the end of the input (a later
  -- call got a shorter input than an earlier one), the answer is `behind`: `Ok(false)` in chimp128.rs,
  -- where `remaining` is 0, and `panic` in gorilla.rs, where it underflows. There a debug build
  -- panics and a release build wraps around: it panics at the slice, or reads eight bytes out of
  -- bounds, of which Rust says nothing.
  unfoldable pub refill_buffer : List ℕ → Exec BitReader Bool
  unfolding refilled
  refill_buffer input r =
      let remaining = length input - r.byte_pos in
      let max_bytes = (64 - r.bits_available) / 8 in
      if ltb (length input) r.byte_pos
      then (behind, r)
      else if remaining == 0
      then (ok false, r)
      else if max_bytes == 0
      then (ok false, r)
      else (ok true, refilled input (min (min remaining max_bytes) 8) r)

  -- `while self.bits_available < num_bits { if !self.refill_buffer(input)? { return Err } }` on fuel;
  -- the check before the loop in the code is its first round. At fuel 0 it gives up with `panic`,
  -- which does not happen (see `Loop`).
  unfoldable pub refill_until : ℕ → List ℕ → ℕ → Exec BitReader (Unit {0})
  refill_until zero input num_bits r =
      if ltb r.bits_available num_bits then (panic, r) else (ok tt, r)
  refill_until (suc fuel) input num_bits r =
      let again = refill_until fuel input num_bits in
      if ltb r.bits_available num_bits
      then (do added ← refill_buffer input; if added then again else throw short) r
      else (ok tt, r)

  unfoldable pub read_bits : List ℕ → ℕ → Exec BitReader ℕ
  unfolding extract refill_until
  read_bits input num_bits r =
      if num_bits == 0
      then (ok 0, r)
      else (do refill_until refill_fuel input num_bits; extract num_bits) r

  unfoldable pub read_bit : List ℕ → Exec BitReader Bool
  unfolding read_bits
  read_bit input = do bit ← read_bits input 1; pure (not (bit == 0))
