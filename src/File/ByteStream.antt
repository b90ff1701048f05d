-- ===== src/File/ByteStream.antt =====
-- file/byte_stream.rs: a buffer with a read and a write position.
pub mod Reading
mod Tests
use timbre_tsf.Prelude.{
  ℕ, ◌+◌, ◌-◌, Bool, List, [], ◌++◌, length, take, drop, ltb, ◌==◌, min, ◌||◌, true, false,
  if◌then◌else◌,
}
use timbre_tsf.Words.{wrapping_add}
use timbre_tsf.Exec.{Exec, Result, ok, err, panic, continue, unexpected_eof, invalid_state}

pub record ByteStream : Type 0 where
  pub buffer : List ℕ
  pub read_pos : ℕ
  pub write_pos : ℕ

abbrev pub new_stream : ByteStream
new_stream = record { buffer = []; read_pos = 0; write_pos = 0 }

abbrev pub from_bytes : List ℕ → ByteStream
from_bytes bytes = record { buffer = bytes; read_pos = 0; write_pos = length bytes }

pub write_bytes : List ℕ → Exec ByteStream (Unit {0})
write_bytes bytes s =
    (ok tt, record s { buffer = s.buffer ++ bytes; write_pos = s.write_pos + length bytes })

-- `buffer[read_pos..read_pos + len]`
abbrev pub ahead : ByteStream → ℕ → List ℕ
ahead s len = take len (drop s.read_pos s.buffer)

-- `buffer[read_pos..end]`, which panics where this is no range of the buffer.
abbrev slice_to : ByteStream → ℕ → Result (List ℕ)
slice_to s end =
    if ltb end s.read_pos || ltb (length s.buffer) end
    then panic
    else ok (ahead s (end - s.read_pos))

-- The sum of `read_pos` and `len` wraps around, as in a release build.
pub read_bytes : ℕ → Exec ByteStream (List ℕ)
read_bytes len s =
    let end = wrapping_add 64 s.read_pos len in
    if ltb s.write_pos end
    then (err unexpected_eof, s)
    else (continue (slice_to s end, s) λ bytes s'. (ok bytes, record s' { read_pos = end }))

pub peek_bytes : ℕ → ByteStream → Result (List ℕ)
peek_bytes len s =
    let end = wrapping_add 64 s.read_pos len in
    if ltb s.write_pos end then err unexpected_eof else slice_to s end

pub as_slice : ByteStream → List ℕ
as_slice s = take s.write_pos s.buffer

pub stream_length : ByteStream → ℕ
stream_length s = s.write_pos

pub is_empty : ByteStream → Bool
is_empty s = s.write_pos == 0

pub available : ByteStream → ℕ
available s = s.write_pos - s.read_pos

pub reset : ByteStream → ByteStream
reset s = record { buffer = []; read_pos = 0; write_pos = 0 }

pub reset_read_pos : ByteStream → ByteStream
reset_read_pos s = record s { read_pos = 0 }

pub set_read_position : ℕ → Exec ByteStream (Unit {0})
set_read_position pos s =
    if ltb s.write_pos pos
    then (err (invalid_state "Read position beyond write position"), s)
    else (ok tt, record s { read_pos = pos })

pub into_vec : ByteStream → List ℕ
into_vec s = take s.write_pos s.buffer

-- `Read::read` into a buffer of `len` bytes: the bytes read; none at the end.
pub read : ℕ → Exec ByteStream (List ℕ)
unfolding available
read len s =
    if available s == 0
    then (ok [], s)
    else let to_read = min (available s) len in
      (ok (ahead s to_read), record s { read_pos = s.read_pos + to_read })
