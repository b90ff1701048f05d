-- ===== src/Encoding/Simple8b/RoundTrip.antt =====
-- `read` of simple8b.rs gives back what `encode` and `flush` wrote.
use timbre_tsf.Prelude.{
  ℕ, zero, suc, ◌+◌, ◌-◌, ◌/◌, ◌%◌, ◌^◌, ◌≤◌, ◌<◌, ◌≡◌, refl, sym, ap, ap₂, ◌∙◌, arith, true, false,
  List, [], ◌∷◌, ◌++◌, length, take, ltb, ◌==◌, All, append-nil, append_assoc, length-append,
  replicate, map, take-length_append, length-map,
}
use timbre_tsf.Words.{IsU64}
use timbre_tsf.Words.Bits.{bit_and_mask}
use timbre_tsf.Words.Zigzag.{zigzag64, signed_unzigzag64, signed_unzigzag64-eq, unzigzag64-zigzag64}
use timbre_tsf.Exec.{Exec, ok, reads, reads-zero, reads-suc, for_each, ◌>>◌}
use timbre_tsf.Bytes.{
  LittleEndian, At, from_le_bytes, to_le_bytes, from_le_bytes-to_le_bytes, length-to_le_bytes,
  At-write,
}
use timbre_tsf.Common.Types.{TsDataType}
use timbre_tsf.Encoding.{Value, Kind}
use timbre_tsf.Encoding.Simple8b.{
  Simple8bEncoder, Simple8bDecoder, new_encoder, new_decoder, push, encode_i64_internal, encode,
  finish, write_words, flush, word_at, read, takes_i64,
}
use timbre_tsf.Encoding.Simple8b.Select.{count_of}
use timbre_tsf.Encoding.Simple8b.Select.Chosen.{entry}
use timbre_tsf.Encoding.Simple8b.Pack.{value_at}
use timbre_tsf.Encoding.Simple8b.Unpack.{unpack, values_from}
use timbre_tsf.Encoding.Simple8b.Contents.{unpack_all, contents, IsReady, IsReady-new, push_lem}
use timbre_tsf.Encoding.Simple8b.Finish.{finish_lem}

-- A decoder with `left` values of a word to come, and what these and the next words give.
abbrev pub in_word : TsDataType → ℕ → ℕ → ℕ → Simple8bDecoder
in_word t word selector left = record {
  data_type = t;
  current_word = word;
  current_pos = left;
  current_selector = selector;
}

abbrev ahead : ℕ → ℕ → ℕ → List ℕ → List ℕ
ahead word selector left words =
    values_from word selector (count_of selector - left) left ++ unpack_all words

abbrev decoded : ℕ → Value
decoded z = Value.i64 (signed_unzigzag64 z)

module _ (bo : LittleEndian) where
  -- The word at a position is the one that was written there.
  word_at-write :
      (input : List ℕ) (pos word : ℕ) (rest : List ℕ)
      → IsU64 word
      → At input pos (bo.write 8 word ++ rest)
      → word_at input pos ≡ word
  word_at-write input pos word rest h a =
      ap (λ (l : List ℕ). from_le_bytes (take 8 l))
        (a.rest ∙ ap (λ (l : List ℕ). l ++ rest) (bo.write_lem 8 word))
      ∙ ap from_le_bytes (
          ap (λ (k : ℕ). take k (to_le_bytes 8 word ++ rest)) (sym (length-to_le_bytes 8 word))
          ∙ take-length_append (to_le_bytes 8 word) rest)
      ∙ from_le_bytes-to_le_bytes 8 word (omega arith)

  -- In the middle of a word a read gives the next value of the word.
  read_in_word :
      (t : TsDataType) (word s left : ℕ) (input : List ℕ) (pos : ℕ)
      → takes_i64 t ≡ true
      → let v = value_at word s (count_of s - suc left) in
        read Kind.i64 input (in_word t word s (suc left), pos)
        ≡ (ok (decoded v), (in_word t word s left, pos))
  unfolding read
  read_in_word t word s left input pos ht =
      let loaded : (suc left == 0) ≡ false = ground arith in
      let one_less : suc left - 1 ≡ left = omega arith in rw (ht, loaded, one_less)

  ahead_in_word :
      (word s left : ℕ) (words : List ℕ)
      → suc left ≤ count_of s
      → ahead word s (suc left) words
        ≡ value_at word s (count_of s - suc left) ∷ ahead word s left words
  unfolding values_from
  ahead_in_word word s left words h =
      let next : count_of s - suc left + 1 ≡ count_of s - left = omega arith in
      ap
        (λ (i : ℕ).
          value_at word s (count_of s - suc left) ∷ (values_from word s i left ++ unpack_all words))
        next

  nothing_ahead : (word s : ℕ) → length (ahead word s 0 []) ≡ 0
  unfolding values_from unpack_all
  nothing_ahead word s = refl

  ahead_next_word :
      (old s0 word : ℕ) (words : List ℕ) (left : ℕ)
      → count_of (word / 2 ^ 60 % 16) ≡ suc left
      → ahead old s0 0 (word ∷ words) ≡ ahead word (word / 2 ^ 60 % 16) (suc left) words
  unfolding values_from unpack_all unpack
  ahead_next_word old s0 word words left count =
      let first : suc left - suc left ≡ 0 = omega arith in rw (count, first)

  -- At the end of a word a read loads the next one.
  read_next_word :
      (t : TsDataType) (old s0 word left : ℕ) (input : List ℕ) (pos : ℕ)
      → takes_i64 t ≡ true
      → ltb (length input) (pos + 8) ≡ false
      → word_at input pos ≡ word
      → count_of (word / 2 ^ 60 % 16) ≡ suc left
      → read Kind.i64 input (in_word t old s0 0, pos) ≡ (
        ok (
            decoded
              (value_at word (word / 2 ^ 60 % 16) (count_of (word / 2 ^ 60 % 16) - suc left))),
        (in_word t word (word / 2 ^ 60 % 16) left, pos + 8),
      )
  unfolding read
  read_next_word t old s0 word left input pos ht room e count =
      let one_less : suc left - 1 ≡ left = omega arith in
      rw (ht, room, e, bit_and_mask 4 (word / 2 ^ 60), count, one_less)

  -- As many reads as wanted give the values ahead, in order.
  reads-ahead :
      (n : ℕ) (t : TsDataType) (word s left : ℕ) (words input : List ℕ) (pos : ℕ) (rest : List ℕ)
      → takes_i64 t ≡ true
      → left ≤ count_of s
      → All IsU64 words
      → At input pos (write_words bo words ++ rest)
      → n ≤ length (ahead word s left words)
      → (d' : Simple8bDecoder) × (pos' : ℕ) × (reads
            (read Kind.i64 input)
            n
            (in_word t word s left, pos)
          ≡ (ok (map decoded (take n (ahead word s left words))), (d', pos')))
  reads-ahead zero t word s left words input pos rest ht h hs a enough =
      (in_word t word s left, pos, reads-zero _ _)
  reads-ahead (suc n) t word s (suc left) words input pos rest ht h hs a enough =
      let step = ahead_in_word word s left words h in
      let (d', pos', later) =
        reads-ahead n t word s left words input pos rest ht (omega arith) hs a
          (omega (arith, ap length step)) in
      (d', pos', rw step (reads-suc _ _ (read_in_word t word s left input pos ht) later))
  reads-ahead (suc n) t word s zero [] input pos rest ht h hs a enough =
      absurd (omega (arith, nothing_ahead word s, enough))
  reads-ahead (suc n) t word s zero (w ∷ words) input pos rest ht h (hw, hs) a enough =
      let sel = w / 2 ^ 60 % 16 in
      let pos_count = (entry sel (omega arith)).pos in
      let left = count_of sel - 1 in
      let count : count_of sel ≡ suc left = omega (arith, pos_count) in
      let fresh =
        ahead_next_word word s w words left count
        ∙ ahead_in_word w sel left words (omega (arith, count)) in
      let a' : At input pos (bo.write 8 w ++ (write_words bo words ++ rest)) =
        unfold write_words in rw append_assoc at a in
      let at_rest = At-write bo 8 w input pos _ a' in
      let room : ltb (length input) (pos + 8) ≡ false = ground (arith, at_rest.inside) in
      let (d', pos', later) =
        reads-ahead n t w sel left words input (pos + 8) rest ht (omega (arith, count)) hs at_rest
          (omega (arith, ap length fresh)) in
      (
        d',
        pos',
        rw fresh (
            reads-suc _ _
              (read_next_word t word s w left input pos ht room (word_at-write input pos w _ hw a')
                count)
              later),
      )

-- The zigzag forms of a sequence, and those that fit 60 bits.
abbrev pub Fits60 : ℕ → Type 0
Fits60 v = IsU64 v × (zigzag64 v < 2 ^ 60)

-- `encode_i64` for each value of a sequence.
unfoldable pub push_all : List ℕ → Simple8bEncoder → Simple8bEncoder
push_all [] e = e
push_all (v ∷ vs) e = push_all vs (encode_i64_internal v e)

pub push_all_lem :
    (vs : List ℕ) (e : Simple8bEncoder)
    → All Fits60 vs
    → IsReady e
    → IsReady (push_all vs e)
      × (contents (push_all vs e) ≡ contents e ++ map zigzag64 vs)
      × ((push_all vs e).data_type ≡ e.data_type)
unfolding push_all encode_i64_internal
push_all_lem [] e h ready = (ready, sym (append-nil _), refl)
push_all_lem (v ∷ vs) e ((hv, hz), h) ready =
    let (ready', same, t) = push_lem e (zigzag64 v) ready hz in
    let (ready'', later, t') = push_all_lem vs (push (zigzag64 v) e) h ready' in
    (
      ready'',
      later
          ∙ ap (λ (l : List ℕ). l ++ map zigzag64 vs) same
          ∙ append_assoc (contents e) (zigzag64 v ∷ []) (map zigzag64 vs),
      t' ∙ t,
    )

-- One call of `encode` of a 64-bit type.
pub encode_step :
    (v : ℕ) (e : Simple8bEncoder) (out : List ℕ)
    → takes_i64 e.data_type ≡ true
    → encode (Value.i64 v) (e, out) ≡ (ok tt, (encode_i64_internal v e, out))
unfolding encode
encode_step v e out h = rw h

pub for_each-encode :
    (vs : List ℕ) (e : Simple8bEncoder) (out : List ℕ)
    → takes_i64 e.data_type ≡ true
    → All Fits60 vs
    → IsReady e
    → for_each (λ v. encode (Value.i64 v)) vs (e, out) ≡ (ok tt, (push_all vs e, out))
unfolding for_each push_all encode encode_i64_internal
for_each-encode [] e out ht h ready = refl
for_each-encode (v ∷ vs) e out ht ((hv, hz), h) ready =
    let (ready', same, t) = push_lem e (zigzag64 v) ready hz in
    rw ht (for_each-encode vs (push (zigzag64 v) e) out (rw t ht) h ready')

take-map_append : (vs pad : List ℕ) → take (length vs) (map zigzag64 vs ++ pad) ≡ map zigzag64 vs
take-map_append [] pad = refl
take-map_append (v ∷ vs) pad = ap (λ (l : List ℕ). zigzag64 v ∷ l) (take-map_append vs pad)

unzigzags : (vs : List ℕ) → All Fits60 vs → map decoded (map zigzag64 vs) ≡ map Value.i64 vs
unzigzags [] h = refl
unzigzags (v ∷ vs) ((hv, hz), h) =
    ap₂ ◌∷◌
      (ap Value.i64
        (signed_unzigzag64-eq (zigzag64 v) (omega (arith, hz)) ∙ unzigzag64-zigzag64 v hv))
      (unzigzags vs h)

-- The encoder after a sequence and `finish`.
unfoldable pub finished : TsDataType → List ℕ → Simple8bEncoder
finished t vs = finish (push_all vs (new_encoder t))

module _ (bo : LittleEndian) where
  -- `encode` for each value of a sequence, and then `flush`.
  unfoldable pub encode_all : List ℕ → Exec (Simple8bEncoder × List ℕ) (Unit {0})
  encode_all vs = do for_each (λ v. encode (Value.i64 v)) vs; flush bo

  -- The bytes of a sequence.
  unfoldable pub encoded : TsDataType → List ℕ → List ℕ
  encoded t vs = write_words bo (finished t vs).output

  finished_words :
      (t : TsDataType) (vs : List ℕ)
      → All Fits60 vs
      → All IsU64 (finished t vs).output
        × ((k : ℕ) × (unpack_all (finished t vs).output ≡ map zigzag64 vs ++ replicate k 0))
  unfolding finished
  finished_words t vs h =
      let (ready, same, _) = push_all_lem vs (new_encoder t) h (IsReady-new t) in
      let (k, f) = finish_lem (push_all vs (new_encoder t)) ready in
      (
        f.words,
        (
          k,
          f.same
              ∙ ap (λ (l : List ℕ). l ++ replicate k 0) (same ∙ unfold contents unpack_all in refl),
        ),
      )

  -- The bytes of a sequence whose zigzag forms fit 60 bits are read back: wherever they stand in
  -- an input, whatever follows them, as many reads with a new decoder give the integers, in order.
  pub reads-encoded :
      (t t' : TsDataType) (vs input : List ℕ) (pos : ℕ) (rest : List ℕ)
      → takes_i64 t' ≡ true
      → All Fits60 vs
      → At input pos (encoded t vs ++ rest)
      → (d : Simple8bDecoder) × (pos' : ℕ) × (reads
            (read Kind.i64 input)
            (length vs)
            (new_decoder t', pos)
          ≡ (ok (map Value.i64 vs), (d, pos')))
  unfolding encoded
  reads-encoded t t' vs input pos rest ht h a =
      let (words, (k, same)) = finished_words t vs h in
      let all = unpack_all (finished t vs).output in
      let start : ahead 0 0 0 (finished t vs).output ≡ map zigzag64 vs ++ replicate k 0 =
        (unfold values_from in same) in
      let enough : length vs ≤ length (ahead 0 0 0 (finished t vs).output) = omega (
        arith,
        ap length start,
        length-append (map zigzag64 vs) (replicate k 0),
        length-map vs zigzag64,
      ) in
      let (d, pos', got) =
        reads-ahead bo (length vs) t' 0 0 0 (finished t vs).output input pos rest ht (omega arith)
          words a enough in
      (
        d,
        pos',
        got
            ∙ ap (λ (l : List Value). (ok l, (d, pos')))
                (ap (λ (l : List ℕ). map decoded (take (length vs) l)) start
                  ∙ ap (map decoded) (take-map_append vs (replicate k 0))
                  ∙ unzigzags vs h),
      )

  -- For every sequence of 64-bit integers whose zigzag forms fit 60 bits: encoding it by `encode_i64`
  -- with a new encoder of a 64-bit type and flushing appends `encoded` to the output, and wherever
  -- these bytes stand in an input, whatever follows them, as many `read_i64` with a new decoder of
  -- a 64-bit type give the integers back, in order.
  pub simple8b_round_trip :
      (t t' : TsDataType) (vs out input : List ℕ) (pos : ℕ) (rest : List ℕ)
      → takes_i64 t ≡ true
      → takes_i64 t' ≡ true
      → All Fits60 vs
      → At input pos (encoded t vs ++ rest)
      → (encode_all vs (new_encoder t, out) ≡ (ok tt, (finished t vs, out ++ encoded t vs)))
        × ((d : Simple8bDecoder) × (pos' : ℕ) × (reads
                (read Kind.i64 input)
                (length vs)
                (new_decoder t', pos)
              ≡ (ok (map Value.i64 vs), (d, pos'))))
  unfolding encode_all encoded finished flush
  simple8b_round_trip t t' vs out input pos rest ht ht' h a = (
    rw (for_each-encode vs (new_encoder t) out ht h (IsReady-new t)),
    reads-encoded t t' vs input pos rest ht' h a,
  )
