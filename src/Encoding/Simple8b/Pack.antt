-- ===== src/Encoding/Simple8b/Pack.antt =====
-- `pack_values` of simple8b.rs and the reading of one value of a word.
use timbre_tsf.Prelude.{ℕ, ◌+◌, ◌-◌, ◌*◌, ◌^◌, List, [], ◌∷◌, ◌==◌, bit_and, bit_or, if◌then◌else◌}
use timbre_tsf.Words.{shl, shr}
use timbre_tsf.Encoding.Simple8b.Select.{bits_of}

-- `word |= (value & ((1u64 << bits) - 1)) << (i * bits)` for each value.
unfoldable pub pack_loop : ℕ → List ℕ → ℕ → ℕ → ℕ
pack_loop bits [] i word = word
pack_loop bits (value ∷ values) i word =
    pack_loop bits values (i + 1) (bit_or word (shl 64 (bit_and value (2 ^ bits - 1)) (i * bits)))

unfoldable pub pack_values : List ℕ → ℕ → ℕ → ℕ
pack_values values selector bits =
    let word = shl 64 selector 60 in
    if bits == 0
    then if selector == 1 then bit_or word 0x0fff_ffff_ffff_ffff else word
    else pack_loop bits values 0 word

-- The value at an index of a word: `(word >> (index * bits)) & ((1u64 << bits) - 1)`.
unfoldable pub value_at : ℕ → ℕ → ℕ → ℕ
value_at word selector index =
    if bits_of selector == 0
    then if selector == 1 then 1 else 0
    else bit_and (shr word (index * bits_of selector)) (2 ^ bits_of selector - 1)
