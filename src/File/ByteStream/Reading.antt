-- ===== src/File/ByteStream/Reading.antt =====
-- What is written to a stream of byte_stream.rs is read from it, in order and once.
use timbre_tsf.Prelude.{
  ℕ, zero, suc, ◌∷◌, drop-drop, take-length_append, drop-length_append, ◌+◌, ◌-◌, ◌%◌, ◌^◌, ◌≤◌,
  ◌<◌, ◌≡◌, refl, sym, ap, ◌∙◌, arith, true, false, List, [], ◌++◌, length, take, drop, ltb,
  length-append, length-drop, Bool-cases, inl, inr, if◌then◌else◌,
}
use timbre_tsf.Words.{IsU64}
use timbre_tsf.Exec.{ok, err, panic, unexpected_eof}
use timbre_tsf.File.ByteStream.{ByteStream, write_bytes, read_bytes, peek_bytes, available}

-- All of the buffer is written, and the read position is not behind its end.
pub record IsStream (s : ByteStream) : Type 0 where
  pub written : s.write_pos ≡ length s.buffer
  pub behind : s.read_pos ≤ s.write_pos

-- What is still to be read.
unfoldable pub unread : ByteStream → List ℕ
unread s = drop s.read_pos s.buffer

drop-append_left : (n : ℕ) (xs ys : List ℕ) → n ≤ length xs → drop n (xs ++ ys) ≡ drop n xs ++ ys
drop-append_left zero xs ys h = refl
drop-append_left (suc n) [] ys h = absurd (omega arith)
drop-append_left (suc n) (x ∷ xs) ys h = drop-append_left n xs ys (omega arith)

-- Writing keeps a stream well formed and adds the bytes to what is still to be read.
pub write_bytes_lem :
    (bytes : List ℕ) (s : ByteStream)
    → IsStream s
    → let (r, s') = write_bytes bytes s in
      (r ≡ ok tt)
      × IsStream s'
      × (unread s' ≡ unread s ++ bytes)
      × (available s' ≡ available s + length bytes)
unfolding write_bytes unread available
write_bytes_lem bytes s is = (
  refl,
  record {
    written = omega (arith, is.written, length-append s.buffer bytes);
    behind = omega (arith, is.behind);
  },
  drop-append_left s.read_pos s.buffer bytes (omega (arith, is.written, is.behind)),
  omega (arith, is.behind),
)

-- A length that goes beyond what is written.
reads_beyond :
    (s : ByteStream) (more : ℕ)
    → IsStream s
    → s.write_pos < 2 ^ 63
    → s.write_pos < s.read_pos + more
    → IsU64 more
    → let beyond = if ltb (s.read_pos + more) (2 ^ 64) then err unexpected_eof else panic in
      (read_bytes more s ≡ (beyond, s)) × (peek_bytes more s ≡ beyond)
unfolding read_bytes peek_bytes
reads_beyond s more is short far word = elim (Bool-cases (ltb (s.read_pos + more) (2 ^ 64))) [
  | inl word_end ↦
      let wraps : (s.read_pos + more) % 2 ^ 64 ≡ s.read_pos + more = ground arith in
      let beyond : ltb s.write_pos (s.read_pos + more) ≡ true = ground arith in
      rw (word_end, wraps, beyond) (refl, refl)
  | inr wrapped ↦
      let over : 2 ^ 64 ≤ s.read_pos + more = ground arith in
      let small : (s.read_pos + more) % 2 ^ 64 < s.read_pos = omega (arith, is.behind) in
      let passes : ltb s.write_pos ((s.read_pos + more) % 2 ^ 64) ≡ false =
        ground (arith, is.behind) in
      let backwards : ltb ((s.read_pos + more) % 2 ^ 64) s.read_pos ≡ true = ground arith in
      rw (wrapped, passes, backwards) (refl, refl)
]

-- Where a well-formed stream of at most 2 ^ 63 - 1 bytes holds a sequence and then a rest:
-- `read_bytes` and `peek_bytes` of the sequence's length both give the sequence, and `read_bytes`
-- leaves a well-formed stream that holds the rest. Both of any larger u64 than the bytes left
-- change nothing: they answer the unexpected end where its sum with the read position is a u64, and
-- panic where it is not.
pub read_bytes_lem :
    (s : ByteStream) (xs rest : List ℕ) (more : ℕ)
    → IsStream s
    → s.write_pos < 2 ^ 63
    → unread s ≡ xs ++ rest
    → length (xs ++ rest) < more
    → IsU64 more
    → let (r, s') = read_bytes (length xs) s in
      let beyond = if ltb (s.read_pos + more) (2 ^ 64) then err unexpected_eof else panic in
      (r ≡ ok xs)
      × (peek_bytes (length xs) s ≡ ok xs)
      × IsStream s'
      × (unread s' ≡ rest)
      × (read_bytes more s ≡ (beyond, s))
      × (peek_bytes more s ≡ beyond)
unfolding read_bytes peek_bytes unread
read_bytes_lem s xs rest more is short holds much word =
    let size = length-drop s.read_pos s.buffer in
    let total = ap length holds in
    let parts = length-append xs rest in
    let there : s.read_pos + length xs ≤ s.write_pos =
      omega (arith, size, total, parts, is.written, is.behind) in
    let wraps : (s.read_pos + length xs) % 2 ^ 64 ≡ s.read_pos + length xs = omega (arith, there) in
    let fits : ltb s.write_pos (s.read_pos + length xs) ≡ false = ground (arith, there) in
    let ahead : ltb (s.read_pos + length xs) s.read_pos ≡ false = ground arith in
    let inside : ltb (length s.buffer) (s.read_pos + length xs) ≡ false =
      ground (arith, there, is.written) in
    let many : s.read_pos + length xs - s.read_pos ≡ length xs = omega arith in
    let got : take (length xs) (drop s.read_pos s.buffer) ≡ xs =
      ap (take (length xs)) holds ∙ take-length_append xs rest in
    let left : drop (s.read_pos + length xs) s.buffer ≡ rest =
      sym (drop-drop (length xs) s.read_pos s.buffer)
      ∙ ap (drop (length xs)) holds
      ∙ drop-length_append xs rest in
    let far : s.write_pos < s.read_pos + more = omega (arith, size, total, is.written, is.behind) in
    let (read_far, peek_far) = reads_beyond s more is short far word in
    rw (wraps, fits, ahead, inside, many)
      (
        ap ok got,
        ap ok got,
        record { written = is.written; behind = there },
        left,
        read_far,
        peek_far,
      )
