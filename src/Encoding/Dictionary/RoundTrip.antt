-- ===== src/Encoding/Dictionary/RoundTrip.antt =====
-- `read` of dictionary.rs gives back what `encode` and `flush` wrote.
use timbre_tsf.Prelude.{
  ℕ, ◌^◌, ◌<◌, ◌≡◌, refl, ◌∙◌, arith, false, List, [], ◌∷◌, ◌++◌, map, length, length-map, All,
  append_assoc,
}
use timbre_tsf.Words.{u32, IsU32}
use timbre_tsf.Exec.{Exec, ok, for_each, for_each-on_first, reads, reads-zero, reads-same, ◌>>◌}
use timbre_tsf.Bytes.{At, At-length}
use timbre_tsf.Encoding.{Value, Kind}
use timbre_tsf.Encoding.Places.{string_equality, position-lt, distinct, distinct-All}
use timbre_tsf.Encoding.Dictionary.{
  DictionaryEncoder, DictionaryDecoder, new_encoder, new_decoder, encode, encode_string, flush,
  is_empty, times, write_dictionary, write_strings, write_ids_loop, write_encoded_ids,
  init_dictionary, decode_ids, load_ids, read_string, read,
}
use timbre_tsf.Encoding.Dictionary.Coded.{code, code-position, Known}
use timbre_tsf.Encoding.Dictionary.Seen.{encode_strings_lem, length-distinct}
use timbre_tsf.Encoding.Dictionary.Runs.{read-write_varint, decode_ids_loop-write}
use timbre_tsf.Encoding.Dictionary.Read.{
  IsString, read_strings-write, loaded, read_string_loaded, reads-loaded,
}

-- The strings of a sequence, each once, and its codes.
abbrev pub entries : List (List ℕ) → List (List ℕ)
entries vs = distinct string_equality [] vs

abbrev pub codes : List (List ℕ) → List ℕ
codes vs = map (code (entries vs)) vs

-- The bytes of a sequence.
unfoldable pub encoded : List (List ℕ) → List ℕ
encoded vs = write_dictionary (entries vs) ++ write_encoded_ids (codes vs)

-- `encode_string` for each string of a sequence, and then `flush`.
unfoldable pub encode_all : List (List ℕ) → Exec (DictionaryEncoder × List ℕ) (Unit {0})
encode_all vs = do for_each (λ s. encode (Value.string s)) vs; flush

encode_all_lem :
    (vs : List (List ℕ)) (out : List ℕ)
    → length vs < 2 ^ 31
    → encode_all vs (new_encoder, out) ≡ (ok tt, (new_encoder, out ++ encoded vs))
unfolding encode_all encode flush encoded
encode_all_lem vs out short =
    let (e, run, dictionary, has) = encode_strings_lem vs short in
    let ids = rw dictionary at has.ids in
    rw (for_each-on_first encode_string vs new_encoder e out run, flush, dictionary, ids)

-- The dictionary is read first.
init_dictionary-write :
    (strings : List (List ℕ)) (input : List ℕ) (pos : ℕ) (rest : List ℕ)
    → length strings < 2 ^ 31
    → All IsString strings
    → length input < 2 ^ 63
    → At input pos (write_dictionary strings ++ rest)
    → (pos' : ℕ) × (init_dictionary input (new_decoder, pos) ≡ (ok tt, (loaded strings [] 0, pos')))
      × At input pos' rest
unfolding init_dictionary write_dictionary
init_dictionary-write strings input pos rest short hs size a =
    let same : u32 (length strings) ≡ length strings = omega arith in
    let from_count = rw (same, append_assoc) at a in
    let (p, number, from_strings) =
      read-write_varint (length strings) input pos (write_strings strings ++ rest) (omega arith)
        from_count in
    let (end, found, at_rest) =
      read_strings-write strings input p rest new_decoder hs size from_strings in
    let count : times (length strings) ≡ length strings = ground arith in
    (end, rw (number, count, found), at_rest)

-- And then all ids, to the end of the input; the position stays in front of them.
load_ids-write :
    (strings : List (List ℕ)) (ids : List ℕ) (input : List ℕ) (pos : ℕ)
    → length ids < 2 ^ 31
    → All IsU32 ids
    → At input pos (write_encoded_ids ids)
    → load_ids input (loaded strings [] 0, pos) ≡ (ok tt, (loaded strings ids 0, pos))
unfolding load_ids decode_ids write_encoded_ids
load_ids-write strings ids input pos short words a =
    let all_read =
      decode_ids_loop-write (length ids) ids (length input) input pos (loaded strings [] 0)
        (omega arith) short words
        (omega (arith, At-length input pos (write_ids_loop (length ids) ids) a)) a in
    rw all_read

read_string_step :
    (input : List ℕ) (pos p : ℕ) (strings : List (List ℕ)) (ids : List ℕ)
    → init_dictionary input (new_decoder, pos) ≡ (ok tt, (loaded strings [] 0, p))
    → load_ids input (loaded strings [] 0, p) ≡ (ok tt, (loaded strings ids 0, p))
    → is_empty strings ≡ false
    → is_empty ids ≡ false
    → read_string input (new_decoder, pos) ≡ read_string input (loaded strings ids 0, p)
read_string_step input pos p strings ids first second h k =
    rw (read_string_loaded (loaded strings ids 0) input p h k)
      (unfold read_string in rw (first, second))

is_empty-length : {A : Type 0} (xs : List A) → 0 < length xs → is_empty xs ≡ false
is_empty-length [] h = absurd (omega arith)
is_empty-length (x ∷ xs) h = refl

codes-IsU32 :
    (d vs : List (List ℕ)) → All (Known d) vs → length d < 2 ^ 31 → All IsU32 (map (code d) vs)
codes-IsU32 d [] h short = tt
codes-IsU32 d (v ∷ vs) ((i, place), h) short = (
  omega (arith, code-position d v i place, position-lt string_equality v d i place),
  codes-IsU32 d vs h short,
)

entries-Known : (vs : List (List ℕ)) → length vs < 2 ^ 31 → All (Known (entries vs)) vs
entries-Known vs short =
    let (e, run, dictionary, has) = encode_strings_lem vs short in rw dictionary at has.known

-- The first read goes as from a decoder that has loaded everything.
read_string_first :
    (v : List ℕ) (vs : List (List ℕ)) (input : List ℕ) (pos : ℕ)
    → length (v ∷ vs) < 2 ^ 31
    → All IsString (v ∷ vs)
    → length input < 2 ^ 63
    → At input pos (encoded (v ∷ vs))
    → (pos' : ℕ) × (is_empty (entries (v ∷ vs)) ≡ false)
      × (read_string input (new_decoder, pos)
          ≡ read_string input (loaded (entries (v ∷ vs)) (codes (v ∷ vs)) 0, pos'))
unfolding encoded
read_string_first v vs input pos short strings size a =
    let known = entries-Known (v ∷ vs) short in
    let few : length (entries (v ∷ vs)) < 2 ^ 31 = omega (arith, length-distinct [] (v ∷ vs)) in
    let (p, dictionary, from_ids) =
      init_dictionary-write (entries (v ∷ vs)) input pos (write_encoded_ids (codes (v ∷ vs))) few
        (distinct-All string_equality IsString [] (v ∷ vs) tt strings) size a in
    let ids =
      load_ids-write (entries (v ∷ vs)) (codes (v ∷ vs)) input p
        (omega (arith, length-map (v ∷ vs) (code (entries (v ∷ vs)))))
        (codes-IsU32 (entries (v ∷ vs)) (v ∷ vs) known few) from_ids in
    let present =
      is_empty-length (entries (v ∷ vs))
        (omega (arith, position-lt string_equality v (entries (v ∷ vs)) known.0.0 known.0.1)) in
    (
      p,
      present,
      read_string_step input pos p (entries (v ∷ vs)) (codes (v ∷ vs)) dictionary ids present refl,
    )

read_first :
    (input : List ℕ) (s t : DictionaryDecoder × ℕ)
    → read_string input s ≡ read_string input t
    → read Kind.string input s ≡ read Kind.string input t
unfolding read
read_first input s t h = rw h

-- As many reads as strings, from a new decoder, give the strings.
abbrev pub ReadBack : List (List ℕ) → List ℕ → ℕ → Type 0
ReadBack vs input pos =
    (end : DictionaryDecoder × ℕ) × (reads (read Kind.string input) (length vs) (new_decoder, pos)
      ≡ (ok (map Value.string vs), end))

reads-encoded :
    (vs : List (List ℕ)) (input : List ℕ) (pos : ℕ)
    → length vs < 2 ^ 31
    → All IsString vs
    → length input < 2 ^ 63
    → At input pos (encoded vs)
    → ReadBack vs input pos
reads-encoded [] input pos short strings size a = ((new_decoder, pos), reads-zero _ _)
reads-encoded (v ∷ vs) input pos short strings size a =
    let (p, present, first) = read_string_first v vs input pos short strings size a in
    let few : length (entries (v ∷ vs)) < 2 ^ 31 = omega (arith, length-distinct [] (v ∷ vs)) in
    let start : DictionaryDecoder × ℕ = (loaded (entries (v ∷ vs)) (codes (v ∷ vs)) 0, p) in
    (
      _,
      reads-same (read Kind.string input) (length vs) (new_decoder, pos) start
            (read_first input (new_decoder, pos) start first)
          ∙ reads-loaded (entries (v ∷ vs)) (v ∷ vs) [] input p present
              (entries-Known (v ∷ vs) short) few,
    )

-- Encoding fewer than 2 ^ 31 strings, each UTF-8 and shorter than 2 ^ 31, with a new encoder and
-- flushing appends `encoded vs` to the output and leaves the encoder new. Where these bytes end an
-- input of at most 2 ^ 63 - 1 bytes, as many reads with a new decoder give the strings back, in
-- order.
pub dictionary_encoding_round_trip :
    (vs : List (List ℕ)) (out input : List ℕ) (pos : ℕ)
    → length vs < 2 ^ 31
    → All IsString vs
    → length input < 2 ^ 63
    → At input pos (encoded vs)
    → (encode_all vs (new_encoder, out) ≡ (ok tt, (new_encoder, out ++ encoded vs)))
      × ReadBack vs input pos
dictionary_encoding_round_trip vs out input pos short strings size a =
    (encode_all_lem vs out short, reads-encoded vs input pos short strings size a)
