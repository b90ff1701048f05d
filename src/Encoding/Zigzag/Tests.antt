-- ===== src/Encoding/Zigzag/Tests.antt =====
-- Concrete runs of zigzag.rs, and the theorem at a concrete input.
use timbre_tsf.Prelude.{ℕ, ◌≡◌, refl, arith, List, [], ◌∷◌, ◌++◌}
use timbre_tsf.Exec.{ok, err}
use timbre_tsf.Bytes.{At, At-start}
use timbre_tsf.Varint.{read_u32, read_u32_loop}
use timbre_tsf.Encoding.{Kind}
use timbre_tsf.Encoding.Zigzag.{new_encoder, new_decoder, read, short_header}
use timbre_tsf.Encoding.Zigzag.RoundTrip.{encode_all, encoded, Drained, zigzag_round_trip}

abbrev readings : List ℕ
readings = 7 ∷ 18446744073709551615 ∷ 300 ∷ []

cut_short : (read Kind.i64 (131 ∷ []) (new_decoder, 0)).0 ≡ err short_header
unfolding read read_u32 read_u32_loop
cut_short = refl

zigzag_round_trip_example :
    (encode_all readings (new_encoder, []) ≡ (ok tt, (new_encoder, [] ++ encoded readings)))
    × ((pos' : ℕ) × Drained (encoded readings ++ 9 ∷ []) (new_decoder, 0) pos' readings
        × At (encoded readings ++ 9 ∷ []) pos' (9 ∷ []))
zigzag_round_trip_example =
    zigzag_round_trip 7 (18446744073709551615 ∷ 300 ∷ []) [] (encoded readings ++ 9 ∷ []) 0 (9 ∷ [])
      (omega arith) (omega arith) (At-start _)
