-- ===== src/Encoding/Dictionary.antt =====
-- encoding/dictionary.rs: a dictionary of strings and runs of their ids. A string is its bytes, an
-- id the bit pattern of an i32; the hash map is an association list whose first entry for a key
-- counts. The state of a call is the encoder and the output vector, or the decoder and the position.
pub mod Coded
pub mod Seen
pub mod Runs
pub mod Read
pub mod RoundTrip
mod Tests
use timbre_tsf.Prelude.{
  ℕ, zero, suc, ◌+◌, ◌-◌, ◌^◌, Bool, true, false, not, ◌&&◌, Option, none, some, List, [], ◌∷◌,
  ◌++◌, length, get_elem?, drop, replicate, ltb, leb, ◌==◌, if◌then◌else◌,
}
use timbre_tsf.Words.{u32, sign_extend, wrapping_add}
use timbre_tsf.Words.Zigzag.{zigzag32, unzigzag32}
use timbre_tsf.Exec.{
  Result, Exec, TimbreError, ok, err, panic, pure, throw, modify, encoding_error, decoding_error,
  for_each, on_first, on_second, ◌>>=◌, ◌>>◌,
}
use timbre_tsf.Bytes.Same.{same_string}
use timbre_tsf.Bytes.Strings.{take_string}
use timbre_tsf.Varint.{push_varint, read_u32}
use timbre_tsf.Encoding.{Value, Kind}
use timbre_tsf.Encoding.Places.{string_equality, get}

pub record DictionaryEncoder : Type 0 where
  pub entry_index : List (List ℕ × ℕ)
  pub index_entry : List (List ℕ)
  pub encoded_ids : List ℕ
  pub cached_id : ℕ
  pub cached_arc : List ℕ

-- `i32::MIN`, the id that marks an empty cache.
abbrev pub no_id : ℕ
no_id = 2 ^ 31

abbrev pub new_encoder : DictionaryEncoder
new_encoder = record {
  entry_index = [];
  index_entry = [];
  encoded_ids = [];
  cached_id = no_id;
  cached_arc = [];
}

unfoldable pub write_varint : ℕ → List ℕ
write_varint value = push_varint (zigzag32 value) []

unfoldable pub write_var_string : List ℕ → List ℕ
write_var_string s = write_varint (u32 (length s)) ++ s

unfoldable pub write_strings : List (List ℕ) → List ℕ
write_strings [] = []
write_strings (s ∷ strings) = write_var_string s ++ write_strings strings

unfoldable pub write_dictionary : List (List ℕ) → List ℕ
write_dictionary index_entry = write_varint (u32 (length index_entry)) ++ write_strings index_entry

-- How many ids in front equal `current`.
unfoldable pub count_equal : ℕ → List ℕ → ℕ
count_equal current [] = 0
count_equal current (id ∷ ids) =
    let more = count_equal current ids in if id == current then suc more else 0

-- The loop over `encoded_ids[i..]`, on fuel: each round takes at least one id.
unfoldable pub write_ids_loop : ℕ → List ℕ → List ℕ
write_ids_loop zero ids = []
write_ids_loop (suc n) [] = []
write_ids_loop (suc n) (current ∷ ids) =
    let count = 1 + count_equal current ids in
    write_varint current
    ++ (write_varint (u32 count) ++ write_ids_loop n (drop count (current ∷ ids)))

unfoldable pub write_encoded_ids : List ℕ → List ℕ
write_encoded_ids ids = write_ids_loop (length ids) ids

-- A string that the map knows, at the id that it gives, or a new one.
unfoldable pub known_id : ℕ → Exec DictionaryEncoder ℕ
known_id existing_id e = elim (get_elem? e.index_entry (sign_extend existing_id)) [
  | none ↦ (panic, e)
  | some arc ↦ (ok existing_id, record e { cached_id = existing_id; cached_arc = arc })
]

unfoldable pub new_id : List ℕ → Exec DictionaryEncoder ℕ
new_id value e =
    let id = u32 (length e.index_entry) in
    (
      ok id,
      record e {
        entry_index = (value, id) ∷ e.entry_index;
        index_entry = e.index_entry ++ value ∷ [];
        cached_id = id;
        cached_arc = value;
      },
    )

unfoldable pub lookup_or_create_id : List ℕ → Exec DictionaryEncoder ℕ
lookup_or_create_id value e = elim (get string_equality value e.entry_index) [
  | none ↦ new_id value e
  | some existing_id ↦ known_id existing_id e
]

abbrev pub push_id : ℕ → Exec DictionaryEncoder (Unit {0})
push_id id = modify (λ e. record e { encoded_ids = e.encoded_ids ++ id ∷ [] })

unfoldable pub encode_string : List ℕ → Exec DictionaryEncoder (Unit {0})
encode_string value e =
    if not (e.cached_id == no_id) && same_string e.cached_arc value
    then push_id e.cached_id e
    else (do id ← lookup_or_create_id value; push_id id) e

unfoldable pub encode_batch : List (List ℕ) → Exec DictionaryEncoder (Unit {0})
encode_batch values = for_each encode_string values

unfoldable pub encode : Value → Exec (DictionaryEncoder × List ℕ) (Unit {0})
encode (Value.bool b) = throw (encoding_error "Dictionary encoding not supported for booleans")
encode (Value.i32 v) = throw (encoding_error "Dictionary encoding not supported for integers")
encode (Value.i64 v) = throw (encoding_error "Dictionary encoding not supported for long integers")
encode (Value.f32 v) = throw (encoding_error "Dictionary encoding not supported for floats")
encode (Value.f64 v) = throw (encoding_error "Dictionary encoding not supported for doubles")
encode (Value.string s) = on_first (encode_string s)

unfoldable pub flush : Exec (DictionaryEncoder × List ℕ) (Unit {0})
flush (e, out) = (
  ok tt,
  (new_encoder, out ++ (write_dictionary e.index_entry ++ write_encoded_ids e.encoded_ids)),
)

pub record DictionaryDecoder : Type 0 where
  pub dictionary : List (List ℕ)
  pub decoded_ids : List ℕ
  pub position : ℕ

abbrev pub new_decoder : DictionaryDecoder
new_decoder = record { dictionary = []; decoded_ids = []; position = 0 }

unfoldable pub read_varint : List ℕ → Exec ℕ ℕ
read_varint input = do
  result ←
      read_u32 (decoding_error "Unexpected end of input reading varint")
        (decoding_error "Varint too large") input
  pure (unzigzag32 result)

unfoldable pub read_var_string : List ℕ → Exec ℕ (List ℕ)
read_var_string input = do
  length ← read_varint input
  take_string (decoding_error "Unexpected end of input reading string")
      (decoding_error "Invalid UTF-8") input (sign_extend length)

-- The loop `for _ in 0..count`, none for a negative count.
unfoldable pub read_strings : List ℕ → ℕ → Exec (DictionaryDecoder × ℕ) (Unit {0})
read_strings input zero = pure tt
read_strings input (suc n) = do
  s ← on_second (read_var_string input)
  modify (λ (d, pos). (record d { dictionary = d.dictionary ++ s ∷ [] }, pos))
  read_strings input n

abbrev pub times : ℕ → ℕ
times count = if ltb count (2 ^ 31) then count else 0

abbrev pub is_empty {ℓ} : {A : Type ℓ} → List A → Bool
is_empty [] = true
is_empty (a ∷ l) = false

unfoldable pub init_dictionary : List ℕ → Exec (DictionaryDecoder × ℕ) (Unit {0})
init_dictionary input (d, pos) =
    if is_empty d.dictionary
    then (do count ← on_second (read_varint input); read_strings input (times count)) (d, pos)
    else (ok tt, (d, pos))

-- `while *pos < input.len()`, on fuel: each round takes at least one byte.
unfoldable pub decode_ids_loop : ℕ → List ℕ → Exec (DictionaryDecoder × ℕ) (Unit {0})
decode_ids_loop zero input (d, pos) =
    if ltb pos (length input) then (panic, (d, pos)) else (ok tt, (d, pos))
decode_ids_loop (suc n) input (d, pos) =
    if ltb pos (length input)
    then (do
      value ← on_second (read_varint input)
      count ← on_second (read_varint input)
      modify (λ (d', pos').
          (record d' { decoded_ids = d'.decoded_ids ++ replicate (sign_extend count) value }, pos'))
      decode_ids_loop n input)
        (d, pos)
    else (ok tt, (d, pos))

unfoldable pub decode_ids : List ℕ → Exec (DictionaryDecoder × ℕ) (Unit {0})
decode_ids input (d, pos) =
    if is_empty d.decoded_ids
    then decode_ids_loop (length input) input (d, pos)
    else (ok tt, (d, pos))

-- The ids, read once; the position goes back to where they start.
unfoldable pub load_ids : List ℕ → Exec (DictionaryDecoder × ℕ) (Unit {0})
load_ids input (d, pos) =
    if is_empty d.decoded_ids
    then (do decode_ids input; modify (λ (d', pos'). (record d' { position = 0 }, pos))) (d, pos)
    else (ok tt, (d, pos))

unfoldable pub entry_of : List (List ℕ) → ℕ → Result (List ℕ)
entry_of dictionary id = elim (get_elem? dictionary (sign_extend id)) [
  | none ↦ err (decoding_error "Invalid dictionary ID")
  | some s ↦ ok s
]

unfoldable pub next_string : Exec (DictionaryDecoder × ℕ) (List ℕ)
next_string (d, pos) = elim (get_elem? d.decoded_ids d.position) [
  | none ↦ (err (decoding_error "No more values to decode"), (d, pos))
  | some id ↦ (entry_of d.dictionary id, (record d { position = d.position + 1 }, pos))
]

unfoldable pub read_string : List ℕ → Exec (DictionaryDecoder × ℕ) (List ℕ)
read_string input = do init_dictionary input; load_ids input; next_string

unfoldable pub read : Kind → List ℕ → Exec (DictionaryDecoder × ℕ) Value
read Kind.bool input = throw (decoding_error "Dictionary decoding not supported for booleans")
read Kind.i32 input = throw (decoding_error "Dictionary decoding not supported for integers")
read Kind.i64 input = throw (decoding_error "Dictionary decoding not supported for long integers")
read Kind.f32 input = throw (decoding_error "Dictionary decoding not supported for floats")
read Kind.f64 input = throw (decoding_error "Dictionary decoding not supported for doubles")
read Kind.string input = do s ← read_string input; pure (Value.string s)

unfoldable pub has_remaining : DictionaryDecoder → List ℕ → ℕ → Bool
has_remaining d input pos =
    if is_empty d.decoded_ids then ltb pos (length input) else ltb d.position (length d.decoded_ids)
