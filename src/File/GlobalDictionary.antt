-- ===== src/File/GlobalDictionary.antt =====
-- file/dictionary.rs: the dictionary of the strings of a file. A string is its bytes, and the
-- hash map an association list whose first entry for a key counts.
pub mod Stored
pub mod Intern
mod Tests
use timbre_tsf.Prelude.{
  ℕ, zero, suc, ◌+◌, ◌%◌, ◌^◌, Bool, true, false, ◌&&◌, Option, none, some, List, [], ◌∷◌, ◌++◌,
  length, get_elem?, ◌==◌, if◌then◌else◌,
}
use timbre_tsf.Words.{u32, u64, wrapping_add}
use timbre_tsf.Exec.{Exec, ok, pure, modify, ensure, invalid_state, ◌>>=◌, ◌>>◌}
use timbre_tsf.Bytes.{LittleEndian}
use timbre_tsf.Bytes.Reader.{read_int, read_exact}
use timbre_tsf.Bytes.Same.{same_string}
use timbre_tsf.Bytes.Utf8.{is_utf8}

pub record DictionaryHeader : Type 0 where
  pub version : ℕ
  pub entry_count : ℕ
  pub data_size : ℕ
  pub checksum : ℕ

pub record GlobalDictionary : Type 0 where
  pub string_to_id : List (List ℕ × ℕ)
  pub id_to_string : List (List ℕ)
  pub next_id : ℕ

abbrev pub new_header : ℕ → ℕ → DictionaryHeader
new_header entry_count data_size = record {
  version = 1;
  entry_count = entry_count;
  data_size = data_size;
  checksum = 0;
}

abbrev pub new_dictionary : GlobalDictionary
new_dictionary = record { string_to_id = []; id_to_string = []; next_id = 0 }

-- `get` and `insert` of the map.
unfoldable pub get : List (List ℕ × ℕ) → List ℕ → Option ℕ
get [] s = none
get (entry ∷ map) s = if same_string entry.0 s then some entry.1 else get map s

abbrev pub insert : List ℕ → ℕ → List (List ℕ × ℕ) → List (List ℕ × ℕ)
insert s id map = (s, id) ∷ map

pub intern : List ℕ → GlobalDictionary → ℕ × GlobalDictionary
intern s d = elim (get d.string_to_id s) [
  | some id ↦ (id, d)
  | none ↦ (
    d.next_id,
    record {
      string_to_id = insert s d.next_id d.string_to_id;
      id_to_string = d.id_to_string ++ s ∷ [];
      next_id = wrapping_add 32 d.next_id 1;
    },
  )
]

-- `clear`
pub clear : GlobalDictionary → GlobalDictionary
clear d = record { string_to_id = []; id_to_string = []; next_id = 0 }

pub get_id : List ℕ → GlobalDictionary → Option ℕ
get_id s d = get d.string_to_id s

pub get_string : ℕ → GlobalDictionary → Option (List ℕ)
get_string id d = get_elem? d.id_to_string id

-- The size of the string table, and with the header the bytes written.
pub table_size : List (List ℕ) → ℕ
table_size [] = 0
table_size (s ∷ strings) = 4 + length s + table_size strings

module _ (bo : LittleEndian) where
  pub serialize_header : DictionaryHeader → Exec (List ℕ) (Unit {0})
  serialize_header h = do
    modify (λ out. out ++ bo.write 2 h.version)
    modify (λ out. out ++ bo.write 4 h.entry_count)
    modify (λ out. out ++ bo.write 8 h.data_size)
    modify (λ out. out ++ bo.write 8 h.checksum)

  pub deserialize_header : Exec (List ℕ) DictionaryHeader
  deserialize_header = do
    version ← read_int bo 2
    entry_count ← read_int bo 4
    data_size ← read_int bo 8
    checksum ← read_int bo 8
    pure (record {
      version = version;
      entry_count = entry_count;
      data_size = data_size;
      checksum = checksum;
    })

  -- The string table in the output.
  unfoldable pub write_entries : List (List ℕ) → List ℕ
  write_entries [] = []
  write_entries (s ∷ strings) = bo.write 4 (u32 (length s)) ++ (s ++ write_entries strings)

  pub serialize : GlobalDictionary → Exec (List ℕ) ℕ
  serialize d = do
    serialize_header (new_header (u32 (length d.id_to_string)) (u64 (table_size d.id_to_string)))
    modify (λ out. out ++ write_entries d.id_to_string)
    pure (22 + table_size d.id_to_string)

  -- The loop over the entries to come, from the id on.
  pub read_entries :
      ℕ → ℕ → List (List ℕ × ℕ) → List (List ℕ) → Exec (List ℕ) (List (List ℕ × ℕ) × List (List ℕ))
  read_entries zero id map strings = pure (map, strings)
  read_entries (suc n) id map strings = do
    len ← read_int bo 4
    bytes ← read_exact len
    ensure (is_utf8 bytes) (invalid_state "Invalid UTF-8 in dictionary")
    read_entries n (id + 1) (insert bytes id map) (strings ++ bytes ∷ [])

  pub deserialize : Exec (List ℕ) GlobalDictionary
  deserialize = do
    header ← deserialize_header
    read ← read_entries header.entry_count 0 [] []
    pure (record { string_to_id = read.0; id_to_string = read.1; next_id = header.entry_count })
