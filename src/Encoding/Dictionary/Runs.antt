-- ===== src/Encoding/Dictionary/Runs.antt =====
-- The ids of dictionary.rs in runs, as the encoder writes them and the decoder reads them.
use timbre_tsf.Prelude.{
  ℕ, zero, suc, ◌+◌, ◌^◌, ◌≤◌, ◌<◌, ◌≡◌, refl, sym, ap, ◌∙◌, arith, false, List, [], ◌∷◌, ◌++◌,
  length, length-append, length-drop, drop, replicate, All, All-drop, append_assoc, append-nil, ltb,
  ◌==◌, ==_iff, Bool-cases, inl, inr, lt→ltb,
}
use timbre_tsf.Words.{u32, IsU32, sign_extend}
use timbre_tsf.Words.Zigzag.{zigzag32, zigzag32-lt, unzigzag32-zigzag32}
use timbre_tsf.Exec.{ok, decoding_error}
use timbre_tsf.Bytes.{At, At-length}
use timbre_tsf.Varint.Groups.{groups, push_varint-groups, length-groups}
use timbre_tsf.Varint.Read.{read_u32-groups}
use timbre_tsf.Encoding.Dictionary.{
  DictionaryDecoder, write_varint, read_varint, count_equal, write_ids_loop, decode_ids_loop,
}

write_varint-groups : (v : ℕ) → IsU32 v → write_varint v ≡ groups 4 (zigzag32 v)
unfolding write_varint
write_varint-groups v h = push_varint-groups 4 (zigzag32 v) [] (omega (arith, zigzag32-lt v h))

length-write_varint : (v : ℕ) → IsU32 v → 1 ≤ length (write_varint v)
length-write_varint v h = rw (write_varint-groups v h) (length-groups 4 (zigzag32 v)).0

-- A signed number that was written is read, whatever follows it.
pub read-write_varint :
    (v : ℕ) (input : List ℕ) (pos : ℕ) (rest : List ℕ)
    → IsU32 v
    → At input pos (write_varint v ++ rest)
    → (pos' : ℕ) × (read_varint input pos ≡ (ok v, pos')) × At input pos' rest
unfolding read_varint
read-write_varint v input pos rest h a =
    let (number, behind) =
      read_u32-groups (decoding_error "Unexpected end of input reading varint")
        (decoding_error "Varint too large") (zigzag32 v) input pos rest (zigzag32-lt v h)
        (rw (write_varint-groups v h) at a) in
    (pos + length (groups 4 (zigzag32 v)), rw (number, unzigzag32-zigzag32 v h), behind)

count_equal-le : (c : ℕ) (ids : List ℕ) → count_equal c ids ≤ length ids
unfolding count_equal
count_equal-le c [] = omega arith
count_equal-le c (id ∷ ids) = ground (arith, count_equal-le c ids)

-- What a round takes from the front is a run.
count_equal-drop :
    (c : ℕ) (ids : List ℕ) → replicate (count_equal c ids) c ++ drop (count_equal c ids) ids ≡ ids
unfolding count_equal
count_equal-drop c [] = refl
count_equal-drop c (id ∷ ids) = elim (Bool-cases (id == c)) [
  | inr other ↦ rw (other, count_equal)
  | inl same ↦
      rw (same, count_equal, count_equal-drop c ids)
        (ap (λ (t : ℕ). t ∷ ids) (sym ((==_iff id c).0 same)))
]

ids_end :
    (fuel : ℕ) (input : List ℕ) (pos : ℕ) (d : DictionaryDecoder)
    → pos ≡ length input
    → decode_ids_loop fuel input (d, pos) ≡ (ok tt, (d, length input))
unfolding decode_ids_loop
ids_end zero input pos d h =
    let stop : ltb pos (length input) ≡ false = ground arith in rw (stop, h)
ids_end (suc fuel) input pos d h =
    let stop : ltb pos (length input) ≡ false = ground arith in rw (stop, h)

write_ids_loop_empty : (n : ℕ) → write_ids_loop n [] ≡ []
unfolding write_ids_loop
write_ids_loop_empty zero = refl
write_ids_loop_empty (suc n) = refl

-- One round of each loop.
write_ids_loop_step :
    (n c : ℕ) (ids : List ℕ)
    → length ids + 1 < 2 ^ 31
    → let k = count_equal c ids in
      write_ids_loop (suc n) (c ∷ ids)
      ≡ write_varint c ++ (write_varint (suc k) ++ write_ids_loop n (drop k ids))
unfolding write_ids_loop
write_ids_loop_step n c ids short =
    let next : 1 + count_equal c ids ≡ suc (count_equal c ids) = omega arith in
    let fits : u32 (suc (count_equal c ids)) ≡ suc (count_equal c ids) =
      omega (arith, count_equal-le c ids) in
    rw (next, fits)

decode_ids_loop_step :
    (fuel : ℕ) (input : List ℕ) (pos middle end : ℕ) (d : DictionaryDecoder) (c count : ℕ)
    → pos < length input
    → read_varint input pos ≡ (ok c, middle)
    → read_varint input middle ≡ (ok count, end)
    → count < 2 ^ 31
    → decode_ids_loop (suc fuel) input (d, pos)
      ≡ decode_ids_loop fuel input
          (record d { decoded_ids = d.decoded_ids ++ replicate count c }, end)
unfolding decode_ids_loop
decode_ids_loop_step fuel input pos middle end d c count inside first second short =
    let positive : sign_extend count ≡ count = ground arith in
    rw (lt→ltb pos (length input) inside, first, second, positive)

-- The rounds of the decoder undo those of the encoder, to the end of the input.
pub decode_ids_loop-write :
    (n : ℕ) (ids : List ℕ) (fuel : ℕ) (input : List ℕ) (pos : ℕ) (d : DictionaryDecoder)
    → length ids ≤ n
    → length ids < 2 ^ 31
    → All IsU32 ids
    → length (write_ids_loop n ids) ≤ fuel
    → At input pos (write_ids_loop n ids)
    → decode_ids_loop fuel input (d, pos)
      ≡ (ok tt, (record d { decoded_ids = d.decoded_ids ++ ids }, length input))
decode_ids_loop-write n [] fuel input pos d fits short words enough a =
    let at_end = rw (write_ids_loop_empty n) at a in
    rw append-nil (ids_end fuel input pos d (omega (arith, At-length input pos [] at_end)))
decode_ids_loop-write zero (c ∷ ids) fuel input pos d fits short words enough a =
    absurd (omega arith)
decode_ids_loop-write (suc n) (c ∷ ids) fuel input pos d fits short (word, words) enough a =
    step
      (λ fuel' end d' enough' at_later.
        decode_ids_loop-write n (drop (count_equal c ids) ids) fuel' input end d'
          (omega (arith, length-drop (count_equal c ids) ids))
          (omega (arith, length-drop (count_equal c ids) ids))
          (All-drop IsU32 (count_equal c ids) ids words) enough' at_later)
      fuel (rw bytes at enough) (rw bytes at a)
  where
    bytes :
        write_ids_loop (suc n) (c ∷ ids)
        ≡ write_varint c
          ++ (write_varint (suc (count_equal c ids))
              ++ (write_ids_loop n (drop (count_equal c ids) ids)))
    bytes = write_ids_loop_step n c ids (omega arith)

    few : IsU32 (suc (count_equal c ids))
    few = omega (arith, count_equal-le c ids)

    size :
        length (
          write_varint c
          ++ (write_varint (suc (count_equal c ids))
              ++ (write_ids_loop n (drop (count_equal c ids) ids))))
        ≡ length (write_varint c)
          + (length (write_varint (suc (count_equal c ids)))
              + length (write_ids_loop n (drop (count_equal c ids) ids)))
    size = omega (
      arith,
      length-append (write_varint c) (
          write_varint (suc (count_equal c ids))
          ++ (write_ids_loop n (drop (count_equal c ids) ids))),
      length-append (write_varint (suc (count_equal c ids)))
          (write_ids_loop n (drop (count_equal c ids) ids)),
    )

    Later : Type 0
    Later =
        (fuel' end : ℕ) (d' : DictionaryDecoder)
        → length (write_ids_loop n (drop (count_equal c ids) ids)) ≤ fuel'
        → At input end (write_ids_loop n (drop (count_equal c ids) ids))
        → decode_ids_loop fuel' input (d', end) ≡ (
          ok tt,
          (
            record d' { decoded_ids = d'.decoded_ids ++ drop (count_equal c ids) ids },
            length input,
          ),
        )

    step :
        Later
        → (fuel : ℕ)
        → length (
            write_varint c
            ++ (write_varint (suc (count_equal c ids))
                ++ (write_ids_loop n (drop (count_equal c ids) ids))))
          ≤ fuel
        → At input pos (
            write_varint c
            ++ (write_varint (suc (count_equal c ids))
                ++ (write_ids_loop n (drop (count_equal c ids) ids))))
        → decode_ids_loop fuel input (d, pos)
          ≡ (ok tt, (record d { decoded_ids = d.decoded_ids ++ c ∷ ids }, length input))
    step later zero enough' a' = absurd (omega (arith, size, length-write_varint c word))
    step later (suc fuel) enough' a' =
        let (middle, first, at_count) = read-write_varint c input pos _ word a' in
        let (end, second, at_later) =
          read-write_varint (suc (count_equal c ids)) input middle _ few at_count in
        let some_byte = length-write_varint c word in
        let inside : pos < length input =
          omega (arith, At-length input pos _ a', size, some_byte) in
        let more =
          later fuel end
            (record d { decoded_ids = d.decoded_ids ++ replicate (suc (count_equal c ids)) c })
            (omega (arith, size, some_byte)) at_later in
        decode_ids_loop_step fuel input pos middle end d c (suc (count_equal c ids)) inside first
          second (omega (arith, count_equal-le c ids))
        ∙ more
        ∙ ap (λ (l : List ℕ). (ok tt, (record d { decoded_ids = l }, length input)))
            (append_assoc d.decoded_ids (replicate (suc (count_equal c ids)) c)
                (drop (count_equal c ids) ids)
              ∙ ap (λ (l : List ℕ). d.decoded_ids ++ c ∷ l) (count_equal-drop c ids))
