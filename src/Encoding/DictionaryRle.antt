-- ===== src/Encoding/DictionaryRle.antt =====
-- encoding/dictionary_rle.rs: a dictionary of at most 256 numbers and runs of their indices. An f64
-- is its bits. The hash map is an association list whose first entry for a key counts; a cursor is
-- its position.
pub mod Index
pub mod Accumulate
pub mod Seen
pub mod Written
pub mod RoundTrip
pub mod Full
mod Tests
use timbre_tsf.Prelude.{
  ℕ, zero, suc, ◌+◌, ◌%◌, ◌^◌, Bool, true, false, Option, none, some, List, [], ◌∷◌, ◌++◌, leb, ltb,
  length, get_elem?, replicate, ◌==◌, if◌then◌else◌,
}
use timbre_tsf.Words.{u8, u32, wrapping_add}
use timbre_tsf.Exec.{
  Result, Exec, ok, err, panic, io, pure, throw, abort, gets, modify, encoding_error,
  decoding_error, for_each, reads, ◌>>=◌, ◌>>◌,
}
use timbre_tsf.Bytes.{LittleEndian, read_at}
use timbre_tsf.Encoding.Places.{nat_equality, position, get}
use timbre_tsf.Varint.{push_varint_after, read_u32}

pub record DictionaryRleEncoder : Type 0 where
  pub dictionary : List ℕ
  pub value_to_index : List (ℕ × ℕ)
  pub runs : List (ℕ × ℕ)
  pub current_value : Option (ℕ × ℕ)
  pub current_run : ℕ
  pub last_cached : Option (ℕ × ℕ)

-- `new`, and what `encode` resets every field to.
abbrev pub new_encoder : DictionaryRleEncoder
new_encoder = record {
  dictionary = [];
  value_to_index = [];
  runs = [];
  current_value = none;
  current_run = 0;
  last_cached = none;
}

unfoldable pub narrow : Option ℕ → Option ℕ
narrow none = none
narrow (some i) = some (u8 i)

-- A linear search in a small dictionary, and the map for a large one.
unfoldable pub find : ℕ → DictionaryRleEncoder → Option ℕ
find bits e =
    if leb (length e.dictionary) 32
    then narrow (position nat_equality bits e.dictionary)
    else get nat_equality bits e.value_to_index

unfoldable pub create_index : ℕ → Exec DictionaryRleEncoder ℕ
create_index bits e =
    if leb 256 (length e.dictionary)
    then (err (encoding_error "DictionaryRLE: too many unique values (max 256)"), e)
    else (
      ok (u8 (length e.dictionary)),
      record e {
        dictionary = e.dictionary ++ bits ∷ [];
        value_to_index = (bits, u8 (length e.dictionary)) ∷ e.value_to_index;
      },
    )

unfoldable pub find_or_create : ℕ → Exec DictionaryRleEncoder ℕ
find_or_create bits e = elim (find bits e) [ none ↦ create_index bits e | some i ↦ (ok i, e) ]

unfoldable pub lookup_or_create_index : ℕ → Exec DictionaryRleEncoder ℕ
lookup_or_create_index bits = do
  index ← find_or_create bits
  λ e. (ok index, record e { last_cached = some (bits, index) })

-- The index from the cache, which is the first argument, or looked up.
unfoldable pub index_by_cache : Option (ℕ × ℕ) → ℕ → Exec DictionaryRleEncoder ℕ
index_by_cache none bits e = lookup_or_create_index bits e
index_by_cache (some (cached_bits, cached_idx)) bits e =
    if cached_bits == bits then (ok cached_idx, e) else lookup_or_create_index bits e

unfoldable pub cached_index : ℕ → Exec DictionaryRleEncoder ℕ
cached_index bits e = index_by_cache e.last_cached bits e

-- `current_value.unwrap()`, and the run pushed.
unfoldable pub push_run : Option (ℕ × ℕ) → Exec DictionaryRleEncoder (Unit {0})
push_run none e = (panic, e)
push_run (some (bits, index)) e =
    (ok tt, record e { runs = e.runs ++ (index, e.current_run) ∷ []; current_run = 0 })

unfoldable pub flush_run : Exec DictionaryRleEncoder (Unit {0})
flush_run e = if ltb 0 e.current_run then push_run e.current_value e else (ok tt, e)

unfoldable pub start_run : ℕ → ℕ → Exec DictionaryRleEncoder (Unit {0})
start_run bits index e = (ok tt, record e { current_value = some (bits, index); current_run = 1 })

-- One more in the current run, which is the first argument, or a new one.
unfoldable pub accumulate_on : Option (ℕ × ℕ) → ℕ → ℕ → Exec DictionaryRleEncoder (Unit {0})
accumulate_on none bits index e = start_run bits index e
accumulate_on (some (prev_bits, prev_idx)) bits index e =
    if prev_bits == bits
    then (ok tt, record e { current_run = wrapping_add 32 e.current_run 1 })
    else (do flush_run; start_run bits index) e

unfoldable pub accumulate : ℕ → ℕ → Exec DictionaryRleEncoder (Unit {0})
accumulate bits index e = accumulate_on e.current_value bits index e

unfoldable pub encode_value : ℕ → Exec DictionaryRleEncoder (Unit {0})
encode_value bits = do index ← cached_index bits; accumulate bits index

-- `cursor.read_u8()?`
unfoldable pub read_byte : List ℕ → Exec ℕ ℕ
read_byte input pos = elim (get_elem? input pos) [ none ↦ (err io, pos) | some b ↦ (ok b, pos + 1) ]

unfoldable pub read_varint : List ℕ → Exec ℕ ℕ
read_varint input = read_u32 io (decoding_error "DictionaryRLE: varint overflow") input

-- The values of one run.
unfoldable pub run_values : List ℕ → ℕ → ℕ → Result (List ℕ)
run_values dictionary index run_length = elim (get_elem? dictionary index) [
  | none ↦ err (decoding_error "DictionaryRLE: invalid index")
  | some value ↦ ok (replicate run_length value)
]

unfoldable pub decode_run : List ℕ → List ℕ → Exec ℕ (List ℕ)
decode_run input dictionary = do
  index ← read_byte input
  run_length ← read_varint input
  λ pos. (run_values dictionary index run_length, pos)

unfoldable pub decode_runs : List ℕ → List ℕ → ℕ → List ℕ → Exec ℕ (List ℕ)
decode_runs input dictionary zero result = pure result
decode_runs input dictionary (suc n) result = do
  values ← decode_run input dictionary
  decode_runs input dictionary n (result ++ values)

unfoldable pub write_runs : List (ℕ × ℕ) → List ℕ
write_runs [] = []
write_runs ((index, run_length) ∷ runs) = index ∷ push_varint_after run_length [] ++ write_runs runs

module _ (bo : LittleEndian) where
  unfoldable pub write_values : List ℕ → List ℕ
  write_values [] = []
  write_values (v ∷ values) = bo.write 8 v ++ write_values values

  unfoldable pub finish : DictionaryRleEncoder → List ℕ
  finish e =
      bo.write 2 (length e.dictionary % 2 ^ 16)
      ++ (write_values e.dictionary ++ (bo.write 4 (u32 (length e.runs)) ++ write_runs e.runs))

  unfoldable pub encode : List ℕ → Exec DictionaryRleEncoder (List ℕ)
  encode [] = pure []
  encode (v ∷ values) = do
    modify (λ _. new_encoder)
    for_each encode_value (v ∷ values)
    flush_run
    gets finish

  -- `decode` of data that is there.
  unfoldable pub decode_all : List ℕ → Exec ℕ (List ℕ)
  decode_all input = do
    dict_size ← read_at bo 2 input
    dictionary ← reads (read_at bo 8 input) dict_size
    num_runs ← read_at bo 4 input
    decode_runs input dictionary num_runs []

  unfoldable pub decode : List ℕ → Exec ℕ (List ℕ)
  decode [] = pure []
  decode (b ∷ rest) = decode_all (b ∷ rest)
