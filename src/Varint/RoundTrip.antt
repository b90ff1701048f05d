-- ===== src/Varint/RoundTrip.antt =====
-- The writers and the reader of variable-length integers agree.
use timbre_tsf.Prelude.{ℕ, ◌+◌, ◌^◌, ◌<◌, ◌≤◌, ◌≡◌, arith, List, ◌++◌, length}
use timbre_tsf.Exec.{TimbreError, ok}
use timbre_tsf.Bytes.{At}
use timbre_tsf.Varint.{push_varint, push_varint_after, read_u32}
use timbre_tsf.Varint.Groups.{groups, push_varint-groups, push_varint_after-groups, length-groups}
use timbre_tsf.Varint.Read.{read_u32-groups}

-- For every 32-bit number: both writers append the same bytes, between one and five. Wherever
-- these stand in an input, whatever follows them, the reader gives the number back and ends
-- behind them.
pub varint_round_trip :
    (short large : TimbreError) (v : ℕ) (out input : List ℕ) (pos : ℕ) (rest : List ℕ)
    → v < 2 ^ 32
    → At input pos (groups 4 v ++ rest)
    → (push_varint v out ≡ out ++ groups 4 v)
      × (push_varint_after v out ≡ out ++ groups 4 v)
      × ((1 ≤ length (groups 4 v)) × (length (groups 4 v) ≤ 5))
      × (read_u32 short large input pos ≡ (ok v, pos + length (groups 4 v)))
varint_round_trip short large v out input pos rest h a = (
  push_varint-groups 4 v out (omega arith),
  push_varint_after-groups 4 v out (omega arith),
  length-groups 4 v,
  (read_u32-groups short large v input pos rest h a).0,
)
