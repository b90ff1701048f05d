-- ===== src/Encoding/Rle/Tests.antt =====
-- Concrete runs, and the theorems at concrete inputs.
use timbre_tsf.Prelude.{ℕ, ◌≡◌, refl, arith, List, [], ◌∷◌, ◌++◌}
use timbre_tsf.Exec.{ok, err, unexpected_eof, for_each}
use timbre_tsf.Bytes.{le_std, to_le_bytes, At, At-start}
use timbre_tsf.Encoding.{Kind}
use timbre_tsf.Encoding.Rle.{new_encoder, new_decoder, encode, flush, read}
use timbre_tsf.Encoding.Rle.Runs.{encoded, encode_all, bytes_of, runs}
use timbre_tsf.Encoding.Rle.RoundTrip.{Drained, rle_round_trip}

abbrev readings : List ℕ
readings = 7 ∷ 7 ∷ 7 ∷ 18446744073709551615 ∷ []

abbrev bytes : List ℕ
bytes =
    7 ∷ 0 ∷ 0 ∷ 0 ∷ 0 ∷ 0 ∷ 0 ∷ 0 ∷ 3 ∷ 0 ∷ 0 ∷ 0 ∷ 255 ∷ 255 ∷ 255 ∷ 255 ∷ 255 ∷ 255 ∷ 255 ∷ 255
    ∷ 1 ∷ 0 ∷ 0 ∷ 0 ∷ []

two_runs : encode_all le_std readings (new_encoder, []) ≡ (ok tt, (new_encoder, bytes))
unfolding encode_all for_each encode flush le_std to_le_bytes
two_runs = refl

cut_short : (read le_std Kind.i64 (7 ∷ 0 ∷ []) (new_decoder, 0)).0 ≡ err unexpected_eof
unfolding read
cut_short = refl

At-start_bytes : At (bytes ++ 9 ∷ []) 0 (encoded le_std readings ++ 9 ∷ [])
unfolding encoded bytes_of runs le_std to_le_bytes
At-start_bytes = At-start _

rle_round_trip_example :
    (encode_all le_std readings (new_encoder, [])
      ≡ (ok tt, (new_encoder, [] ++ encoded le_std readings)))
    × Drained le_std (bytes ++ 9 ∷ []) (9 ∷ []) (new_decoder, 0) readings
rle_round_trip_example =
    rle_round_trip le_std readings [] (bytes ++ 9 ∷ []) 0 (9 ∷ []) (omega arith) (omega arith)
      At-start_bytes
