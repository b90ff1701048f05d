-- ===== src/File/GlobalDictionary/Stored.antt =====
-- The bytes of a dictionary of file/dictionary.rs, and that they are read back.
use timbre_tsf.Prelude.{
  ℕ, ◌+◌, ◌≡◌, refl, ap, arith, true, List, [], ◌∷◌, ◌++◌, length, All, append_assoc, append-nil,
  length-append,
}
use timbre_tsf.Words.{u32, u64, IsU32}
use timbre_tsf.Exec.{ok}
use timbre_tsf.Bytes.{LittleEndian, length-write}
use timbre_tsf.Bytes.Reader.{read_int-write, read_exact_lem}
use timbre_tsf.File.GlobalDictionary.{
  GlobalDictionary, DictionaryHeader, new_header, insert, table_size, serialize_header,
  deserialize_header, write_entries, serialize, read_entries, deserialize,
}
use timbre_tsf.Bytes.Utf8.{is_utf8}

-- The map after the insertion of strings under the ids from one on.
unfoldable pub index_from : ℕ → List (List ℕ) → List (List ℕ × ℕ) → List (List ℕ × ℕ)
index_from id [] map = map
index_from id (s ∷ strings) map = index_from (id + 1) strings (insert s id map)

-- A string: UTF-8, its length a u32.
abbrev pub IsString : List ℕ → Type 0
IsString s = IsU32 (length s) × (is_utf8 s ≡ true)

-- Map and list agree, and the next id is the number of strings.
pub record IsDictionary (d : GlobalDictionary) : Type 0 where
  pub map : d.string_to_id ≡ index_from 0 d.id_to_string []
  pub next : d.next_id ≡ length d.id_to_string
  pub count : IsU32 (length d.id_to_string)
  pub strings : All IsString d.id_to_string

module _ (bo : LittleEndian) where
  unfoldable pub header_bytes : DictionaryHeader → List ℕ
  header_bytes h =
      bo.write 2 h.version
      ++ (bo.write 4 h.entry_count ++ (bo.write 8 h.data_size ++ bo.write 8 h.checksum))

  unfoldable pub dictionary_bytes : GlobalDictionary → List ℕ
  dictionary_bytes d =
      header_bytes (new_header (u32 (length d.id_to_string)) (u64 (table_size d.id_to_string)))
      ++ write_entries bo d.id_to_string

  length-write_entries :
      (strings : List (List ℕ)) → length (write_entries bo strings) ≡ table_size strings
  unfolding write_entries table_size
  length-write_entries [] = refl
  length-write_entries (s ∷ strings) = omega (
    arith,
    length-append (bo.write 4 (u32 (length s))) (s ++ write_entries bo strings),
    length-append s (write_entries bo strings),
    length-write bo 4 (u32 (length s)),
    length-write_entries strings,
  )

  serialize_header_lem :
      (h : DictionaryHeader) (out : List ℕ)
      → serialize_header bo h out ≡ (ok tt, out ++ header_bytes h)
  unfolding serialize_header header_bytes
  serialize_header_lem h out = ap (λ (l : List ℕ). (ok tt, l)) (simp append_assoc)

  deserialize_header_lem :
      (count size : ℕ) (rest : List ℕ)
      → let h = new_header (u32 count) (u64 size) in
        deserialize_header bo (header_bytes h ++ rest) ≡ (ok h, rest)
  unfolding deserialize_header header_bytes
  deserialize_header_lem count size rest = simp (
    append_assoc,
    read_int-write bo 2 1 _ (omega arith),
    read_int-write bo 4 (u32 count) _ (omega arith),
    read_int-write bo 8 (u64 size) _ (omega arith),
    read_int-write bo 8 0 rest (omega arith),
  )

  read_entries_lem :
      (strings : List (List ℕ)) (id : ℕ) (map : List (List ℕ × ℕ)) (before : List (List ℕ))
      (rest : List ℕ)
      → All IsString strings
      → read_entries bo (length strings) id map before (write_entries bo strings ++ rest)
        ≡ (ok (index_from id strings map, before ++ strings), rest)
  unfolding read_entries write_entries index_from
  read_entries_lem [] id map before rest h = rw (append-nil before)
  read_entries_lem (s ∷ strings) id map before rest ((short, valid), h) =
      let size : u32 (length s) ≡ length s = omega arith in
      let more = read_entries_lem strings (id + 1) (insert s id map) (before ++ s ∷ []) rest h in
      rw (
        size,
        append_assoc (bo.write 4 (length s)),
        append_assoc s,
        read_int-write bo 4 (length s) (s ++ (write_entries bo strings ++ rest)) (omega arith),
        read_exact_lem s (write_entries bo strings ++ rest),
        valid,
        more,
        append_assoc before,
      )

  length-header_bytes : (h : DictionaryHeader) → length (header_bytes h) ≡ 22
  unfolding header_bytes
  length-header_bytes h = simp (length-append, length-write bo)

  length-dictionary_bytes :
      (d : GlobalDictionary) → length (dictionary_bytes d) ≡ 22 + table_size d.id_to_string
  unfolding dictionary_bytes
  length-dictionary_bytes d =
      let h = new_header (u32 (length d.id_to_string)) (u64 (table_size d.id_to_string)) in
      omega (
        arith,
        length-append (header_bytes h) (write_entries bo d.id_to_string),
        length-header_bytes h,
        length-write_entries d.id_to_string,
      )

  -- A dictionary whose map and list agree and whose strings are UTF-8, with lengths that fit a u32:
  -- `serialize` appends `dictionary_bytes` to the output and answers their number, and `deserialize`
  -- gives the dictionary back from these bytes, whatever follows them, and leaves what follows.
  pub dictionary_round_trip :
      (d : GlobalDictionary) (out rest : List ℕ)
      → IsDictionary d
      → (serialize bo d out ≡ (ok (length (dictionary_bytes d)), out ++ dictionary_bytes d))
        × (deserialize bo (dictionary_bytes d ++ rest) ≡ (ok d, rest))
  unfolding serialize deserialize dictionary_bytes
  dictionary_round_trip d out rest is =
      let strings = d.id_to_string in
      let h = new_header (u32 (length strings)) (u64 (table_size strings)) in
      let entries = write_entries bo strings in
      let count : u32 (length strings) ≡ length strings = omega (arith, is.count) in
      let header = deserialize_header_lem (length strings) (table_size strings) (entries ++ rest) in
      let table = read_entries_lem strings 0 [] [] rest is.strings in
      (
        rw (serialize_header_lem h out, length-dictionary_bytes d)
            (ap (λ (l : List ℕ). (ok (22 + table_size strings), l))
              (append_assoc out (header_bytes h) entries)),
        rw (append_assoc (header_bytes h), header, count, table, ← is.map, ← is.next) refl,
      )
