-- ===== src/Encoding/Dictionary/Read.antt =====
-- The decoder of dictionary.rs on the bytes of a list of strings, and on ids it has loaded.
use timbre_tsf.Prelude.{
  ℕ, suc, ◌+◌, ◌^◌, ◌<◌, ◌≡◌, refl, ap, ◌∙◌, arith, true, false, some, List, [], ◌∷◌, ◌++◌, map,
  length, length-append, get_elem?, All, append_assoc, append-nil,
}
use timbre_tsf.Words.{u32, sign_extend}
use timbre_tsf.Exec.{ok, decoding_error, reads, reads-zero, reads-suc}
use timbre_tsf.Bytes.{At, At-skip}
use timbre_tsf.Bytes.Utf8.{is_utf8}
use timbre_tsf.Bytes.Strings.{take_string, take_string-At}
use timbre_tsf.Encoding.{Value, Kind}
use timbre_tsf.Encoding.Places.{string_equality, position-get_elem?, position-lt}
use timbre_tsf.Encoding.Dictionary.{
  DictionaryDecoder, write_var_string, write_strings, read_varint, read_var_string, read_strings,
  init_dictionary, load_ids, next_string, entry_of, is_empty, read_string, read,
}
use timbre_tsf.Encoding.Dictionary.Coded.{code, code-position, Known}
use timbre_tsf.Encoding.Dictionary.Runs.{read-write_varint}

-- A string whose length fits an i32.
abbrev pub IsString : List ℕ → Type 0
IsString s = (length s < 2 ^ 31) × (is_utf8 s ≡ true)

read_var_string_step :
    (n : ℕ) (input : List ℕ) (pos p q : ℕ) (s : List ℕ)
    → read_varint input pos ≡ (ok n, p)
    → sign_extend n ≡ n
    → take_string
        (decoding_error "Unexpected end of input reading string")
        (decoding_error "Invalid UTF-8")
        input
        n
        p
      ≡ (ok s, q)
    → read_var_string input pos ≡ (ok s, q)
unfolding read_var_string
read_var_string_step n input pos p q s number positive found = rw (number, positive, found)

read_var_string-write :
    (s input : List ℕ) (pos : ℕ) (rest : List ℕ)
    → IsString s
    → length input < 2 ^ 63
    → At input pos (write_var_string s ++ rest)
    → (pos' : ℕ) × (read_var_string input pos ≡ (ok s, pos')) × At input pos' rest
unfolding write_var_string
read_var_string-write s input pos rest (short, valid) size a =
    let same : u32 (length s) ≡ length s = omega arith in
    let positive : sign_extend (length s) ≡ length s = ground arith in
    let from_length = rw (append_assoc, same) at a in
    let (p, number, from_bytes) =
      read-write_varint (length s) input pos (s ++ rest) (omega arith) from_length in
    let found =
      take_string-At (decoding_error "Unexpected end of input reading string")
        (decoding_error "Invalid UTF-8") s input p rest size valid from_bytes in
    (
      p + length s,
      read_var_string_step (length s) input pos p (p + length s) s number positive found,
      At-skip input p s rest from_bytes,
    )

-- The decoder pushes the strings in order.
pub read_strings-write :
    (strings : List (List ℕ)) (input : List ℕ) (pos : ℕ) (rest : List ℕ) (d : DictionaryDecoder)
    → All IsString strings
    → length input < 2 ^ 63
    → At input pos (write_strings strings ++ rest)
    → (pos' : ℕ) × (read_strings input (length strings) (d, pos)
        ≡ (ok tt, (record d { dictionary = d.dictionary ++ strings }, pos')))
      × At input pos' rest
unfolding read_strings write_strings
read_strings-write [] input pos rest d h size a = (pos, rw append-nil, a)
read_strings-write (s ∷ strings) input pos rest d (hs, h) size a =
    let (p, found, from_next) =
      read_var_string-write s input pos (write_strings strings ++ rest) hs size
        (rw append_assoc at a) in
    let (end, more, at_rest) =
      read_strings-write strings input p rest (record d { dictionary = d.dictionary ++ s ∷ [] }) h
        size from_next in
    (end, rw found (more ∙ rw append_assoc), at_rest)

-- A decoder that has loaded a dictionary and ids, at a place among the ids.
abbrev pub loaded : List (List ℕ) → List ℕ → ℕ → DictionaryDecoder
loaded dictionary ids place = record {
  dictionary = dictionary;
  decoded_ids = ids;
  position = place;
}

-- Nothing more is read from the input once both lists are there.
pub read_string_loaded :
    (d : DictionaryDecoder) (input : List ℕ) (pos : ℕ)
    → is_empty d.dictionary ≡ false
    → is_empty d.decoded_ids ≡ false
    → read_string input (d, pos) ≡ next_string (d, pos)
unfolding read_string init_dictionary load_ids
read_string_loaded d input pos h k = rw (h, k)

pub is_empty-append :
    {A : Type 0} (xs : List A) (x : A) (ys : List A) → is_empty (xs ++ x ∷ ys) ≡ false
is_empty-append [] x ys = refl
is_empty-append (y ∷ xs) x ys = refl

next_string_step :
    (d : DictionaryDecoder) (id pos : ℕ) (s : List ℕ)
    → get_elem? d.decoded_ids d.position ≡ some id
    → sign_extend id ≡ id
    → get_elem? d.dictionary id ≡ some s
    → next_string (d, pos) ≡ (ok s, (record d { position = d.position + 1 }, pos))
unfolding next_string entry_of
next_string_step d id pos s found positive there =
    rw (found, next_string)
      (ap (λ r. (r, (record d { position = d.position + 1 }, pos)))
        (rw (positive, entry_of, there)))

get_elem?-append_length :
    (xs : List ℕ) (x : ℕ) (ys : List ℕ) → get_elem? (xs ++ x ∷ ys) (length xs) ≡ some x
get_elem?-append_length [] x ys = refl
get_elem?-append_length (y ∷ xs) x ys = get_elem?-append_length xs x ys

-- The id of a known string gives the string.
pub next_string-code :
    (d : List (List ℕ)) (v : List ℕ) (before after : List ℕ) (pos : ℕ)
    → Known d v
    → length d < 2 ^ 31
    → next_string (loaded d (before ++ code d v ∷ after) (length before), pos)
      ≡ (ok v, (loaded d (before ++ code d v ∷ after) (length before + 1), pos))
next_string-code d v before after pos (i, place) short =
    let small : i < 2 ^ 31 = omega (arith, position-lt string_equality v d i place) in
    let positive : sign_extend i ≡ i = ground arith in
    rw (code-position d v i place) (
      next_string_step (loaded d (before ++ i ∷ after) (length before)) i pos v
        (get_elem?-append_length before i after) positive
        (position-get_elem? string_equality v d i place))

-- All strings of a sequence, from a decoder that has loaded their codes.
pub reads-loaded :
    (d vs : List (List ℕ)) (before : List ℕ) (input : List ℕ) (pos : ℕ)
    → is_empty d ≡ false
    → All (Known d) vs
    → length d < 2 ^ 31
    → reads
        (read Kind.string input)
        (length vs)
        (loaded d (before ++ map (code d) vs) (length before), pos)
      ≡ (
        ok (map Value.string vs),
        (loaded d (before ++ map (code d) vs) (length before + length vs), pos),
      )
reads-loaded d [] before input pos present known short =
    let same : length before + 0 ≡ length before = omega arith in rw same (reads-zero _ _)
reads-loaded d (v ∷ vs) before input pos present (known_v, known) short =
    let next : read Kind.string input
          (loaded d (before ++ map (code d) (v ∷ vs)) (length before), pos)
        ≡ (
          ok (Value.string v),
          (loaded d (before ++ map (code d) (v ∷ vs)) (length before + 1), pos),
        ) =
      unfold read in
      rw (
        read_string_loaded (loaded d (before ++ map (code d) (v ∷ vs)) (length before)) input pos
            present (is_empty-append before (code d v) (map (code d) vs)),
        next_string-code d v before (map (code d) vs) pos known_v short,
      ) in
    let more = reads-loaded d vs (before ++ code d v ∷ []) input pos present known short in
    let count : length (before ++ code d v ∷ []) ≡ length before + 1 =
      length-append before (code d v ∷ []) in
    let total : length before + 1 + length vs ≡ length before + suc (length vs) = omega arith in
    reads-suc _ _ next (rw (append_assoc, count, total) at more)
