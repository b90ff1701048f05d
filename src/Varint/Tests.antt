-- ===== src/Varint/Tests.antt =====
-- Concrete variable-length integers, and the theorem at one.
use timbre_tsf.Prelude.{◌+◌, ◌≤◌, ◌≡◌, refl, arith, [], ◌∷◌, ◌++◌, length}
use timbre_tsf.Exec.{ok, err, io, unexpected_eof}
use timbre_tsf.Bytes.{At-start}
use timbre_tsf.Varint.{push_varint, push_varint_after, read_u32, read_u32_loop}
use timbre_tsf.Varint.Groups.{groups}
use timbre_tsf.Varint.RoundTrip.{varint_round_trip}

two_bytes : groups 4 300 ≡ 172 ∷ 2 ∷ []
unfolding groups
two_bytes = refl

too_large :
    read_u32 io unexpected_eof (255 ∷ 255 ∷ 255 ∷ 255 ∷ 255 ∷ 1 ∷ []) 0 ≡ (err unexpected_eof, 5)
unfolding read_u32 read_u32_loop
too_large = refl

varint_round_trip_example :
    (push_varint 300 (9 ∷ []) ≡ (9 ∷ []) ++ groups 4 300)
    × (push_varint_after 300 (9 ∷ []) ≡ (9 ∷ []) ++ groups 4 300)
    × ((1 ≤ length (groups 4 300)) × (length (groups 4 300) ≤ 5))
    × (read_u32 io unexpected_eof (groups 4 300 ++ 7 ∷ []) 0 ≡ (ok 300, 0 + length (groups 4 300)))
varint_round_trip_example =
    varint_round_trip io unexpected_eof 300 (9 ∷ []) (groups 4 300 ++ 7 ∷ []) 0 (7 ∷ [])
      (omega arith) (At-start _)
