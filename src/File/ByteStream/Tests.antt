-- ===== src/File/ByteStream/Tests.antt =====
-- A stream that was read in part, and the theorems at it.
use timbre_tsf.Prelude.{
  ℕ, ◌+◌, ◌-◌, ◌^◌, ltb, if◌then◌else◌, ◌≡◌, refl, arith, List, [], ◌∷◌, ◌++◌, length,
}
use timbre_tsf.Exec.{ok, err, panic, unexpected_eof}
use timbre_tsf.File.ByteStream.{ByteStream, write_bytes, read_bytes, peek_bytes, available, read}
use timbre_tsf.File.ByteStream.Reading.{IsStream, unread, write_bytes_lem, read_bytes_lem}

abbrev stream : ByteStream
stream = record { buffer = 1 ∷ 2 ∷ 3 ∷ 4 ∷ []; read_pos = 1; write_pos = 4 }

abbrev two : List ℕ
two = 2 ∷ 3 ∷ []

stream-IsStream : IsStream stream
stream-IsStream = record { written = refl; behind = omega arith }

stream-unread : unread stream ≡ two ++ 4 ∷ []
unfolding unread
stream-unread = refl

partial_read : (read 9 stream).0 ≡ ok (2 ∷ 3 ∷ 4 ∷ [])
unfolding read
partial_read = refl

write_bytes_lem_example :
    let (r, s') = write_bytes two stream in
    (r ≡ ok tt)
    × IsStream s'
    × (unread s' ≡ unread stream ++ two)
    × (available s' ≡ available stream + length two)
write_bytes_lem_example = write_bytes_lem two stream stream-IsStream

-- The largest length takes the end of the range in front of its start.
read_bytes_wraps : read_bytes (2 ^ 64 - 1) stream ≡ (panic, stream)
unfolding read_bytes
read_bytes_wraps = refl

read_bytes_lem_example :
    let (r, s') = read_bytes (length two) stream in
    let beyond = if ltb (1 + 4) (2 ^ 64) then err unexpected_eof else panic in
    (r ≡ ok two)
    × (peek_bytes (length two) stream ≡ ok two)
    × IsStream s'
    × (unread s' ≡ 4 ∷ [])
    × (read_bytes 4 stream ≡ (beyond, stream))
    × (peek_bytes 4 stream ≡ beyond)
read_bytes_lem_example =
    read_bytes_lem stream two (4 ∷ []) 4 stream-IsStream (omega arith) stream-unread (omega arith)
      (omega arith)
