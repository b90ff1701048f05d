-- ===== src/Encoding/Zigzag/RoundTrip.antt =====
-- `read` of zigzag.rs gives back what `encode` and `flush` wrote.
use timbre_tsf.Prelude.{
  ℕ, suc, ◌+◌, ◌*◌, ◌%◌, ◌^◌, ◌≤◌, ◌<◌, ◌≡◌, refl, ◌∙◌, arith, true, false, List, [], ◌∷◌, ◌++◌,
  length, All, ltb, append-nil, append_assoc, map, length-append, le→leb, take-length_append,
}
use timbre_tsf.Words.{IsU64}
use timbre_tsf.Words.Zigzag.{zigzag64, zigzag64-lt, unzigzag64-zigzag64}
use timbre_tsf.Exec.{Exec, ok, reads, reads-zero, reads-suc, for_each, ◌>>◌}
use timbre_tsf.Bytes.{At, At-skip}
use timbre_tsf.Varint.Groups.{groups, push_varint-groups, length-groups}
use timbre_tsf.Varint.Read.{read_u32-groups, read_word-groups}
use timbre_tsf.Encoding.{Value, Kind}
use timbre_tsf.Encoding.Zigzag.{
  ZigzagEncoder, ZigzagDecoder, new_encoder, new_decoder, encode, encode_i64_value, flush, read,
  load, is_empty, short_header, large_header, short_block,
}

-- `encode` for each value of a sequence, and then `flush`.
unfoldable pub encode_all : List ℕ → Exec (ZigzagEncoder × List ℕ) (Unit {0})
encode_all vs = do for_each (λ v. encode (Value.i64 v)) vs; flush

-- The block of a sequence, and the block behind its header.
unfoldable pub block : List ℕ → List ℕ
block [] = []
block (v ∷ vs) = groups 9 (zigzag64 v) ++ block vs

unfoldable pub encoded : List ℕ → List ℕ
unfolding block
encoded vs = groups 4 (length (block vs)) ++ (groups 4 (length vs) ++ block vs)

length-block :
    (vs : List ℕ) → (length vs ≤ length (block vs)) × (length (block vs) ≤ 10 * length vs)
unfolding block
length-block [] = omega arith
length-block (v ∷ vs) = omega (
  arith,
  length-block vs,
  length-groups 9 (zigzag64 v),
  length-append (groups 9 (zigzag64 v)) (block vs),
)

encode_all_from :
    (vs bytes out : List ℕ) (count : ℕ)
    → count + length vs < 2 ^ 28
    → length bytes ≤ 10 * count
    → All IsU64 vs
    → encode_all vs (record { encoded_bytes = bytes; value_count = count }, out) ≡ (
      ok tt,
      (
        new_encoder,
        ((out ++ groups 4 (length (bytes ++ block vs))) ++ groups 4 (count + length vs))
            ++ (bytes ++ block vs),
      ),
    )
unfolding encode_all for_each encode encode_i64_value flush block
encode_all_from [] bytes out count h size hs =
    let fits : length bytes % 2 ^ 32 ≡ length bytes = omega arith in
    let same : count + 0 ≡ count = omega arith in
    rw (
      append-nil,
      same,
      fits,
      push_varint-groups 4 (length bytes) out (omega arith),
      push_varint-groups 4 count (out ++ groups 4 (length bytes)) (omega arith),
    )
encode_all_from (v ∷ vs) bytes out count (h) size (hv, hs) =
    let g = groups 9 (zigzag64 v) in
    let wraps : (count + 1) % 2 ^ 32 ≡ count + 1 = omega arith in
    let total : count + suc (length vs) ≡ count + 1 + length vs = omega arith in
    rw
      (
        wraps,
        push_varint-groups 9 (zigzag64 v) bytes (omega (arith, zigzag64-lt v hv)),
        total,
        ← append_assoc bytes g (block vs),
      )
      (encode_all_from vs (bytes ++ g) out (count + 1) (omega arith)
        (omega (arith, length-append bytes g, length-groups 9 (zigzag64 v))) hs)

encode_all_lem :
    (vs out : List ℕ)
    → length vs < 2 ^ 28
    → All IsU64 vs
    → encode_all vs (new_encoder, out) ≡ (ok tt, (new_encoder, out ++ encoded vs))
unfolding encoded
encode_all_lem vs out h hs =
    encode_all_from vs [] out 0 (omega arith) (omega arith) hs
    ∙ (let e : 0 + length vs ≡ length vs = omega arith in rw (e, append_assoc, append_assoc))

-- A loaded decoder with `vs` to come.
record IsLoaded (vs : List ℕ) (d : ZigzagDecoder) : Type 0 where
  full : is_empty d.decoded_bytes ≡ false
  here : At d.decoded_bytes d.position (block vs)
  left : d.values_read + length vs ≡ d.value_count
  small : d.value_count < 2 ^ 28

abbrev after : ℕ → ZigzagDecoder → ZigzagDecoder
after v d = record d {
  position = d.position + length (groups 9 (zigzag64 v));
  values_read = d.values_read + 1;
}

read_step :
    (v : ℕ) (vs : List ℕ) (d : ZigzagDecoder) (input : List ℕ) (pos : ℕ)
    → IsU64 v
    → IsLoaded (v ∷ vs) d
    → (read Kind.i64 input (d, pos) ≡ (ok (Value.i64 v), (after v d, pos)))
      × IsLoaded vs (after v d)
unfolding read block
read_step v vs d input pos hv l =
    let (got, at_rest) =
      read_word-groups 64 short_block 9 (zigzag64 v) d.decoded_bytes d.position (block vs)
        (omega (arith, zigzag64-lt v hv)) (omega arith) (zigzag64-lt v hv) l.here in
    let more : ltb d.values_read d.value_count ≡ true = ground (arith, l.left) in
    let wraps : (d.values_read + 1) % 2 ^ 32 ≡ d.values_read + 1 = omega (arith, l.left, l.small) in
    (
      rw (l.full, more, got, wraps, unzigzag64-zigzag64 v hv),
      record { full = l.full; here = at_rest; left = omega (arith, l.left); small = l.small },
    )

-- As many reads as values give these; the position stays, and no value remains.
abbrev pub Drained : List ℕ → ZigzagDecoder × ℕ → ℕ → List ℕ → Type 0
Drained input start pos' vs =
    (d : ZigzagDecoder) × (reads (read Kind.i64 input) (length vs) start
      ≡ (ok (map Value.i64 vs), (d, pos')))
    × (d.values_read ≡ d.value_count)

reads-loaded :
    (vs : List ℕ) (d : ZigzagDecoder) (input : List ℕ) (pos : ℕ)
    → All IsU64 vs
    → IsLoaded vs d
    → Drained input (d, pos) pos vs
reads-loaded [] d input pos hs l = (d, reads-zero _ _, omega (arith, l.left))
reads-loaded (v ∷ vs) d input pos (hv, hs) l =
    let (now, l') = read_step v vs d input pos hv l in
    let (d', later, none_left) = reads-loaded vs (after v d) input pos hs l' in
    (d', reads-suc _ _ now later, none_left)

abbrev loaded : ℕ → List ℕ → ZigzagDecoder
loaded count bytes = record {
  decoded_bytes = bytes;
  position = 0;
  value_count = count;
  values_read = 0;
}

load_lem :
    (vs input : List ℕ) (pos : ℕ) (rest : List ℕ)
    → length vs < 2 ^ 28
    → At input pos (encoded vs ++ rest)
    → (pos' : ℕ) × (load input (new_decoder, pos) ≡ (ok tt, (loaded (length vs) (block vs), pos')))
      × At input pos' rest
unfolding load encoded
load_lem vs input pos rest h a =
    let size = length (block vs) in
    let (read_size, at_count) =
      read_u32-groups short_header large_header size input pos
        (groups 4 (length vs) ++ (block vs ++ rest)) (omega (arith, length-block vs))
        (rw (append_assoc, append_assoc) at a) in
    let (read_count, at_block) =
      read_u32-groups short_header large_header (length vs) input (pos + length (groups 4 size))
        (block vs ++ rest) (omega arith) at_count in
    let start = pos + length (groups 4 size) + length (groups 4 (length vs)) in
    let at_rest = At-skip input start (block vs) rest at_block in
    let fits = le→leb (start + size) (length input) at_rest.inside in
    (
      start + size,
      rw (read_size, read_count, fits, at_block.rest, take-length_append (block vs) rest),
      at_rest,
    )

IsLoaded-loaded :
    (v : ℕ) (vs : List ℕ)
    → suc (length vs) < 2 ^ 28
    → IsLoaded (v ∷ vs) (loaded (suc (length vs)) (block (v ∷ vs)))
IsLoaded-loaded v vs h = record {
  full = is_empty-length (block (v ∷ vs)) (omega (arith, length-block (v ∷ vs)));
  here = record { inside = omega arith; rest = refl };
  left = omega arith;
  small = h;
}
  where
    is_empty-length : (bytes : List ℕ) → 0 < length bytes → is_empty bytes ≡ false
    is_empty-length [] p = absurd (omega arith)
    is_empty-length (b ∷ bytes) p = refl

-- The first read of a new decoder is the first read of a loaded one.
reads_fresh :
    (v : ℕ) (vs input : List ℕ) (pos pos' : ℕ)
    → suc (length vs) < 2 ^ 28
    → load input (new_decoder, pos) ≡ (ok tt, (loaded (suc (length vs)) (block (v ∷ vs)), pos'))
    → reads (read Kind.i64 input) (suc (length vs)) (new_decoder, pos)
      ≡ reads
          (read Kind.i64 input)
          (suc (length vs))
          (loaded (suc (length vs)) (block (v ∷ vs)), pos')
unfolding reads read
reads_fresh v vs input pos pos' h e = rw (e, (IsLoaded-loaded v vs h).full)

-- Encoding a non-empty sequence of fewer than 2 ^ 28 integers by `encode_i64` with a new encoder and flushing
-- appends `encoded` to the output and leaves the encoder new. Wherever these bytes stand in an
-- input, whatever follows them, as many `read_i64` with a new decoder give the integers back, in
-- order, and end behind the bytes with no value left.
pub zigzag_round_trip :
    (v : ℕ) (vs out input : List ℕ) (pos : ℕ) (rest : List ℕ)
    → length (v ∷ vs) < 2 ^ 28
    → All IsU64 (v ∷ vs)
    → At input pos (encoded (v ∷ vs) ++ rest)
    → (encode_all (v ∷ vs) (new_encoder, out) ≡ (ok tt, (new_encoder, out ++ encoded (v ∷ vs))))
      × ((pos' : ℕ) × Drained input (new_decoder, pos) pos' (v ∷ vs) × At input pos' rest)
zigzag_round_trip v vs out input pos rest h hs a =
    let (pos', first, at_rest) = load_lem (v ∷ vs) input pos rest h a in
    let (d, later, none_left) =
      reads-loaded (v ∷ vs) (loaded (suc (length vs)) (block (v ∷ vs))) input pos' hs
        (IsLoaded-loaded v vs h) in
    (
      encode_all_lem (v ∷ vs) out h hs,
      (pos', (d, reads_fresh v vs input pos pos' h first ∙ later, none_left), at_rest),
    )
