-- ===== src/Encoding/BitStream/Writer.antt =====
-- The bit writer of encoding/gorilla.rs: the fields `buffer`, `bit_buffer` and `bits_in_buffer` of
-- `GorillaEncoder` and the methods that touch only these. (chimp128.rs has its own copy of them.)
-- The bits that wait stand at the top of a 64-bit word.
pub mod Appends
use timbre_tsf.Prelude.{
  ℕ, ◌+◌, ◌-◌, ◌*◌, ◌%◌, ◌^◌, ◌/◌, Bool, true, false, List, [], ◌∷◌, ◌++◌, length, bit_or, ltb, leb,
  ◌==◌, if◌then◌else◌,
}
use timbre_tsf.Words.{shl, shr, u8}
use timbre_tsf.Bytes.BigEndian.{to_be_bytes}

pub record BitWriter : Type 0 where
  pub buffer : List ℕ
  pub bit_buffer : ℕ
  pub bits_in_buffer : ℕ

abbrev pub empty_writer : BitWriter
empty_writer = record { buffer = []; bit_buffer = 0; bits_in_buffer = 0 }

-- `bool as u64`
abbrev pub bit_value : Bool → ℕ
bit_value true = 1
bit_value false = 0

-- `self.bit_buffer |= value << shift_amount; self.bits_in_buffer += num_bits`. A shift of a u64
-- takes its amount modulo 64, in the release profile; here it is below 64 already.
unfoldable pub put : ℕ → ℕ → BitWriter → BitWriter
put value num_bits w =
    let shift_amount = (64 - w.bits_in_buffer) - num_bits in
    record w {
      bit_buffer = bit_or w.bit_buffer (shl 64 value (shift_amount % 64));
      bits_in_buffer = u8 (w.bits_in_buffer + num_bits);
    }

-- Writes the upper `n` bytes at once where these are full: `n` is 4, 2 or 1.
unfoldable pub drain : ℕ → BitWriter → BitWriter
drain n w =
    if leb (8 * n) w.bits_in_buffer
    then record {
      buffer = w.buffer ++ to_be_bytes n (shr w.bit_buffer (64 - 8 * n));
      bit_buffer = shl 64 w.bit_buffer (8 * n);
      bits_in_buffer = w.bits_in_buffer - 8 * n;
    }
    else w

-- The part of `write_bits` that follows the addition.
unfoldable pub spill : BitWriter → BitWriter
unfolding drain
spill w =
    if leb 64 w.bits_in_buffer
    then record {
      buffer = w.buffer ++ to_be_bytes 8 w.bit_buffer;
      bit_buffer = 0;
      bits_in_buffer = 0;
    }
    else drain 1 (drain 2 (drain 4 w))

unfoldable pub write_bits : ℕ → ℕ → BitWriter → BitWriter
unfolding put spill
write_bits value num_bits w = if num_bits == 0 then w else spill (put value num_bits w)

-- `bits_in_buffer` is at most 7 here, so that `63 - self.bits_in_buffer` does not wrap.
unfoldable pub write_bit : Bool → BitWriter → BitWriter
unfolding drain
write_bit bit w = drain 1 (record w {
  bit_buffer = bit_or w.bit_buffer (shl 64 (bit_value bit) ((63 - w.bits_in_buffer) % 64));
  bits_in_buffer = u8 (w.bits_in_buffer + 1);
})

unfoldable pub flush_bits : BitWriter → BitWriter
flush_bits w =
    if ltb 0 w.bits_in_buffer
    then record {
      buffer = w.buffer ++ to_be_bytes 1 (shr w.bit_buffer 56);
      bit_buffer = 0;
      bits_in_buffer = 0;
    }
    else w
