-- ===== src/Encoding/Rle/RoundTrip.antt =====
-- `read` of rle.rs gives back what `encode` and `flush` wrote.
use timbre_tsf.Prelude.{
  ℕ, zero, suc, ◌+◌, ◌^◌, ◌<◌, ◌≡◌, refl, arith, true, false, Option, none, some, List, [], ◌∷◌,
  ◌++◌, length, All, replicate, ltb, append_assoc, map,
}
use timbre_tsf.Words.{IsU64, wrapping_sub, slt}
use timbre_tsf.Exec.{ok, reads, reads-zero, reads-suc}
use timbre_tsf.Bytes.{LittleEndian, At, read_at-write, At-write}
use timbre_tsf.Encoding.{Value, Kind}
use timbre_tsf.Encoding.Rle.{RleDecoder, new_encoder, new_decoder, write_run, read}
use timbre_tsf.Encoding.Rle.Runs.{
  runs, expand, IsRun, expand-runs, runs-IsRun, bytes_of, encode_all, encoded, encode_all_lem,
}

abbrev running : ℕ → ℕ → RleDecoder
running value left = record { current_value = some value; remaining = left }

module _ (bo : LittleEndian) where
  -- Inside a run the next value comes from the cache.
  read_cached :
      (input : List ℕ) (pos value left : ℕ)
      → suc left < 2 ^ 31
      → read bo Kind.i64 input (running value (suc left), pos)
        ≡ (ok (Value.i64 value), (running value left, pos))
  unfolding read
  read_cached input pos value left h =
      let positive : slt 32 0 (suc left) ≡ true = ground arith in
      let wraps : wrapping_sub 32 (suc left) 1 ≡ left = omega arith in rw (positive, wraps)

  -- At the end of a run the next one is read.
  read_next :
      (input : List ℕ) (pos : ℕ) (old : Option ℕ) (value count : ℕ) (rest : List ℕ)
      → IsRun (value, suc count)
      → At input pos (write_run bo value (suc count) ++ rest)
      → (read bo Kind.i64 input (record { current_value = old; remaining = 0 }, pos)
          ≡ (ok (Value.i64 value), (running value count, pos + 12)))
        × At input (pos + 12) rest
  unfolding read write_run
  read_next input pos old value count rest h a = (
    rw (
      fits,
      read_at-write bo 8 value input pos _ (omega arith) at_value,
      read_at-write bo 4 (suc count) input (pos + 8) _ (omega arith) at_count,
      wraps,
      total,
    ),
    rw total at (At-write bo 4 (suc count) input (pos + 8) rest at_count),
  )
    where
      at_value : At input pos (bo.write 8 value ++ (bo.write 4 (suc count) ++ rest))
      at_value = rw append_assoc at a

      at_count : At input (pos + 8) (bo.write 4 (suc count) ++ rest)
      at_count = At-write bo 8 value input pos _ at_value

      total : pos + 8 + 4 ≡ pos + 12
      total = omega arith

      wraps : wrapping_sub 32 (suc count) 1 ≡ count
      wraps = omega arith

      at_rest : At input (pos + 8 + 4) rest
      at_rest = At-write bo 4 (suc count) input (pos + 8) rest at_count

      fits : ltb (length input) (pos + 12) ≡ false
      fits = ground (arith, at_rest.inside)

  -- As many reads as values give these, and end behind the runs with nothing cached.
  abbrev pub Drained : List ℕ → List ℕ → RleDecoder × ℕ → List ℕ → Type 0
  Drained input rest start vs =
      (d : RleDecoder) × (pos' : ℕ) × (reads (read bo Kind.i64 input) (length vs) start
        ≡ (ok (map Value.i64 vs), (d, pos')))
      × At input pos' rest
      × (d.remaining ≡ 0)

  reads_runs :
      (input : List ℕ) (pos value left : ℕ) (rs : List (ℕ × ℕ)) (rest : List ℕ)
      → left < 2 ^ 31
      → All IsRun rs
      → At input pos (bytes_of bo rs ++ rest)
      → Drained input rest (running value left, pos) (replicate left value ++ expand rs)
  unfolding expand bytes_of
  reads_runs input pos value zero [] rest h hs a = (running value 0, pos, reads-zero _ _, a, refl)
  reads_runs input pos value zero ((v, zero) ∷ rs) rest h hs a = absurd (omega arith)
  reads_runs input pos value zero ((v, suc c) ∷ rs) rest h hs a =
      let (next, a') =
        read_next input pos (some value) v c (bytes_of bo rs ++ rest) hs.0 (rw append_assoc at a) in
      let (d, pos', read_rest, at_end, empty) =
        reads_runs input (pos + 12) v c rs rest (omega arith) hs.1 a' in
      (d, pos', reads-suc _ _ next read_rest, at_end, empty)
  reads_runs input pos value (suc left) rs rest h hs a =
      let (d, pos', read_rest, at_end, empty) =
        reads_runs input pos value left rs rest (omega arith) hs a in
      (d, pos', reads-suc _ _ (read_cached input pos value left h) read_rest, at_end, empty)

  -- A new decoder goes to the first run.
  reads_fresh :
      (input : List ℕ) (pos : ℕ) (rs : List (ℕ × ℕ)) (rest : List ℕ)
      → All IsRun rs
      → At input pos (bytes_of bo rs ++ rest)
      → Drained input rest (new_decoder, pos) (expand rs)
  unfolding expand bytes_of
  reads_fresh input pos [] rest hs a = (new_decoder, pos, reads-zero _ _, a, refl)
  reads_fresh input pos ((v, zero) ∷ rs) rest hs a = absurd (omega arith)
  reads_fresh input pos ((v, suc c) ∷ rs) rest hs a =
      let (next, a') =
        read_next input pos none v c (bytes_of bo rs ++ rest) hs.0 (rw append_assoc at a) in
      let (d, pos', read_rest, at_end, empty) =
        reads_runs input (pos + 12) v c rs rest (omega arith) hs.1 a' in
      (d, pos', reads-suc _ _ next read_rest, at_end, empty)

  reads-encoded :
      (vs : List ℕ)
      → length vs < 2 ^ 31
      → All IsU64 vs
      → (input : List ℕ) (pos : ℕ) (rest : List ℕ) → At input pos (encoded bo vs ++ rest)
      → Drained input rest (new_decoder, pos) vs
  unfolding encoded
  reads-encoded [] h hs input pos rest a = (new_decoder, pos, reads-zero _ _, a, refl)
  reads-encoded (v ∷ vs) h hs input pos rest a = rw (expand-runs v 1 vs) at (
      reads_fresh input pos (runs v 1 vs) rest
        (runs-IsRun v 1 vs hs.0 (omega arith) (omega arith) hs.1) a)

  -- Encoding fewer than 2 ^ 31 integers by `encode_i64` with a new encoder and flushing appends `encoded vs` to
  -- the output and leaves the encoder new. Wherever these bytes stand in an input, whatever
  -- follows them, as many `read_i64` with a new decoder give the integers back, in order, and end
  -- exactly behind the bytes with nothing cached.
  pub rle_round_trip :
      (vs out input : List ℕ) (pos : ℕ) (rest : List ℕ)
      → length vs < 2 ^ 31
      → All IsU64 vs
      → At input pos (encoded bo vs ++ rest)
      → (encode_all bo vs (new_encoder, out) ≡ (ok tt, (new_encoder, out ++ encoded bo vs)))
        × Drained input rest (new_decoder, pos) vs
  rle_round_trip vs out input pos rest h hs a =
      (encode_all_lem bo vs out h, reads-encoded vs h hs input pos rest a)
