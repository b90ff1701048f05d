-- ===== src/Encoding/DictionaryRle/Written.antt =====
-- `decode` of dictionary_rle.rs on the bytes of a dictionary and of runs.
use timbre_tsf.Prelude.{
  ℕ, ◌+◌, ◌%◌, ◌^◌, ◌≤◌, ◌≡◌, ◌∙◌, arith, List, [], ◌∷◌, ◌++◌, length, replicate, get_or, All,
  append_assoc, append-nil,
}
use timbre_tsf.Words.{u32, IsU32, IsU64}
use timbre_tsf.Exec.{ok, io, decoding_error, reads, reads-zero, reads-suc}
use timbre_tsf.Bytes.{LittleEndian, At, At-byte, At-write, read_at, read_at-write}
use timbre_tsf.Varint.{push_varint_after}
use timbre_tsf.Varint.Groups.{groups, push_varint_after-groups}
use timbre_tsf.Varint.Read.{read_u32-groups}
use timbre_tsf.Encoding.DictionaryRle.{
  DictionaryRleEncoder, write_values, write_runs, finish, read_byte, read_varint, run_values,
  decode_run, decode_runs, decode_all,
}
use timbre_tsf.Encoding.DictionaryRle.Accumulate.{expand, InDictionary, get_elem?-get_or}

decode_run-written :
    (d : List ℕ) (index count : ℕ) (input : List ℕ) (pos : ℕ) (rest : List ℕ)
    → InDictionary d (index, count)
    → At input pos (index ∷ groups 4 count ++ rest)
    → (pos' : ℕ) × (decode_run input d pos ≡ (ok (replicate count (get_or d index 0)), pos'))
      × At input pos' rest
unfolding decode_run read_byte read_varint run_values
decode_run-written d index count input pos rest (inside, small) a =
    let (found, here, behind) = At-byte input pos index (groups 4 count ++ rest) a in
    let (number, at_rest) =
      read_u32-groups io (decoding_error "DictionaryRLE: varint overflow") count input (pos + 1)
        rest small behind in
    (
      pos + 1 + length (groups 4 count),
      rw (found, read_byte, number, get_elem?-get_or d index inside, run_values),
      at_rest,
    )

decode_runs-written :
    (d : List ℕ) (rs : List (ℕ × ℕ)) (input : List ℕ) (pos : ℕ) (rest result : List ℕ)
    → All (InDictionary d) rs
    → At input pos (write_runs rs ++ rest)
    → (pos' : ℕ) × (decode_runs input d (length rs) result pos ≡ (ok (result ++ expand d rs), pos'))
      × At input pos' rest
unfolding decode_runs write_runs expand
decode_runs-written d [] input pos rest result h a = (pos, rw append-nil, a)
decode_runs-written d ((index, count) ∷ rs) input pos rest result (hr, h) a =
    let pushed : push_varint_after count [] ≡ groups 4 count =
      push_varint_after-groups 4 count [] (omega (arith, hr.1)) in
    let from_run = rw (pushed, append_assoc) at a in
    let (pos', run, behind) =
      decode_run-written d index count input pos (write_runs rs ++ rest) hr from_run in
    let (end, more, at_rest) =
      decode_runs-written d rs input pos' rest (result ++ replicate count (get_or d index 0)) h
        behind in
    (end, rw run (more ∙ rw append_assoc), at_rest)

module _ (bo : LittleEndian) where
  reads_values :
      (d input : List ℕ) (pos : ℕ) (rest : List ℕ)
      → All IsU64 d
      → At input pos (write_values bo d ++ rest)
      → (pos' : ℕ) × (reads (read_at bo 8 input) (length d) pos ≡ (ok d, pos')) × At input pos' rest
  unfolding write_values
  reads_values [] input pos rest h a = (pos, reads-zero _ _, a)
  reads_values (v ∷ d) input pos rest (hv, h) a =
      let from_value = rw append_assoc at a in
      let (end, more, at_rest) =
        reads_values d input (pos + 8) rest h (At-write bo 8 v input pos _ from_value) in
      (end, reads-suc _ _ (read_at-write bo 8 v input pos _ (omega arith) from_value) more, at_rest)

  -- The bytes of an encoder give its runs back.
  pub decode_all-finish :
      (e : DictionaryRleEncoder) (input : List ℕ) (pos : ℕ) (rest : List ℕ)
      → All IsU64 e.dictionary
      → length e.dictionary ≤ 256
      → All (InDictionary e.dictionary) e.runs
      → IsU32 (length e.runs)
      → At input pos (finish bo e ++ rest)
      → (pos' : ℕ) × (decode_all bo input pos ≡ (ok (expand e.dictionary e.runs), pos'))
        × At input pos' rest
  unfolding decode_all finish
  decode_all-finish e input pos rest words room inside few a =
      let size : length e.dictionary % 2 ^ 16 ≡ length e.dictionary = omega arith in
      let count : u32 (length e.runs) ≡ length e.runs = omega arith in
      let from_size = rw (size, count) at (simp append_assoc at a) in
      let from_values = At-write bo 2 (length e.dictionary) input pos _ from_size in
      let (p, values, from_count) = reads_values e.dictionary input (pos + 2) _ words from_values in
      let from_runs = At-write bo 4 (length e.runs) input p _ from_count in
      let (end, runs, at_rest) =
        decode_runs-written e.dictionary e.runs input (p + 4) rest [] inside from_runs in
      (
        end,
        rw (
          read_at-write bo 2 (length e.dictionary) input pos _ (omega arith) from_size,
          values,
          read_at-write bo 4 (length e.runs) input p _ (omega arith) from_count,
          runs,
        ),
        at_rest,
      )
