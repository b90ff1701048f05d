-- ===== src/Encoding/DeltaOfDelta/Types.antt =====
-- The decoder of delta_of_delta.rs hands its own data type to Simple8b, which reads 64-bit types.
use timbre_tsf.Prelude.{
  ℕ, ◌+◌, ◌^◌, ◌<◌, ◌≤◌, ◌≡◌, arith, false, List, [], ◌∷◌, ◌++◌, length, ◌==◌, All, append_assoc,
}
use timbre_tsf.Words.{IsU64, wrapping_sub}
use timbre_tsf.Exec.{ok, err, reads, reads-zero, reads-suc}
use timbre_tsf.Bytes.{LittleEndian, At, At-write}
use timbre_tsf.Common.Types.{TsDataType}
use timbre_tsf.Encoding.{Value, Kind}
use timbre_tsf.Encoding.Simple8b
use timbre_tsf.Encoding.Simple8b.{takes_i64, wrong_type_i64}
use timbre_tsf.Encoding.Simple8b.RoundTrip.{Fits60, encoded as words_of}
use timbre_tsf.Encoding.DeltaOfDelta.{
  DeltaOfDeltaEncoder, DeltaOfDeltaDecoder, new_encoder, new_decoder, read,
}
use timbre_tsf.Encoding.DeltaOfDelta.RoundTrip.{
  decoder_at, encode_all, encode_all_lem, encoded, packed, read_first, read_second, second_deltas,
}

module _ (bo : LittleEndian) where
  -- Each of `read_i32`, `read_i64`, `read_f32` and `read_f64` fails and changes nothing.
  abbrev pub ReadsNothing : List ℕ → DeltaOfDeltaDecoder → ℕ → Type 0
  ReadsNothing input d pos =
      (read bo Kind.i32 input (d, pos) ≡ (err wrong_type_i64, (d, pos)))
      × (read bo Kind.i64 input (d, pos) ≡ (err wrong_type_i64, (d, pos)))
      × (read bo Kind.f32 input (d, pos) ≡ (err wrong_type_i64, (d, pos)))
      × (read bo Kind.f64 input (d, pos) ≡ (err wrong_type_i64, (d, pos)))

  third_fails :
      (d : DeltaOfDeltaDecoder) (input : List ℕ) (pos : ℕ)
      → 2 ≤ d.count
      → takes_i64 d.simple8b.data_type ≡ false
      → ReadsNothing input d pos
  unfolding read Simple8b.read
  third_fails d input pos lo ht =
      let not_0 : (d.count == 0) ≡ false = ground arith in
      let not_1 : (d.count == 1) ≡ false = ground arith in
      (rw (not_0, not_1, ht), rw (not_0, not_1, ht), rw (not_0, not_1, ht), rw (not_0, not_1, ht))

  -- Three or more and fewer than 2 ^ 32 64-bit integers whose second differences have zigzag forms of
  -- at most 60 bits are encoded and flushed without an error. Yet a new decoder of a type other than
  -- Int64 and Timestamp, at the bytes, reads the first two of them and then none: `read_i32`,
  -- `read_i64`, `read_f32` and `read_f64` all fail with Simple8b's error and change nothing.
  pub wrong_type_fails :
      (t : TsDataType) (x y v : ℕ) (vs out input : List ℕ) (pos : ℕ) (rest : List ℕ)
      → takes_i64 t ≡ false
      → length vs + 3 < 2 ^ 32
      → IsU64 x
      → IsU64 y
      → All Fits60 (packed (x ∷ (y ∷ (v ∷ vs))))
      → At input pos (encoded bo (x ∷ (y ∷ (v ∷ vs))) ++ rest)
      → ((e : DeltaOfDeltaEncoder) × (encode_all bo (x ∷ (y ∷ (v ∷ vs))) (new_encoder, out)
            ≡ (ok tt, (e, out ++ encoded bo (x ∷ (y ∷ (v ∷ vs)))))))
        × ((d : DeltaOfDeltaDecoder) × (reads (read bo Kind.i64 input) 2 (new_decoder t, pos)
              ≡ (ok (Value.i64 x ∷ Value.i64 y ∷ []), (d, pos + 16)))
            × ReadsNothing input d (pos + 16))
  unfolding encoded
  wrong_type_fails t x y v vs out input pos rest ht short hx hy fit a =
      let delta = wrapping_sub 64 y x in
      let words = words_of bo TsDataType.int64 (second_deltas y delta (v ∷ vs)) in
      let d = decoder_at y delta (Simple8b.new_decoder t) 2 in
      let at_first : At input pos (bo.write 8 x ++ (bo.write 8 delta ++ (words ++ rest))) =
        (rw (append_assoc (bo.write 8 x), append_assoc (bo.write 8 delta)) at a) in
      let at_second = At-write bo 8 x input pos _ at_first in
      let place : pos + 8 + 8 ≡ pos + 16 = omega arith in
      let second = (rw place at (read_second bo t x y input (pos + 8) _ hx hy at_second)) in
      (
        encode_all_lem bo (x ∷ (y ∷ (v ∷ vs))) out (omega arith) fit,
        (
          d,
          reads-suc _ _ (read_first bo t x input pos _ hx at_first)
              (reads-suc _ _ second (reads-zero _ _)),
          third_fails d input (pos + 16) (omega arith) ht,
        ),
      )
