-- ===== src/Encoding/BitStream/Tests.antt =====
-- The bit writer and reader at concrete bits.
use timbre_tsf.Prelude.{◌≡◌, refl, arith, true, false, [], ◌∷◌, ◌+◌, ◌*◌, ◌^◌}
use timbre_tsf.Exec.{ok, panic, unexpected_eof}
use timbre_tsf.Bytes.BigEndian.{to_be_bytes}
use timbre_tsf.Encoding.BitStream.{bits_of, stream}
use timbre_tsf.Encoding.BitStream.Writer.{empty_writer, write_bits, put, spill, drain}
use timbre_tsf.Encoding.BitStream.Writer.Appends.{Stands, write_bits-Stands, empty_writer-Stands}
use timbre_tsf.Encoding.BitStream.Reader.{
  BitReader, new_reader, read_bits, refill_until, refill_fuel,
}
use timbre_tsf.Encoding.BitStream.Reader.Follows.{Follows, read_bits-Follows, start-Follows}
use timbre_tsf.Encoding.BitStream.Reader.Loop.{Ended, refill_until-refill_fuel}

five_bits :
    write_bits 21 5 empty_writer
    ≡ record { buffer = []; bit_buffer = 21 * 2 ^ 59; bits_in_buffer = 5 }
unfolding write_bits put spill drain
five_bits = refl

-- Where 64 bits are written behind six, the word holds too many: the six bits are lost.
overfull :
    (write_bits (2 ^ 63 + 1) 64 (write_bits 63 6 empty_writer)).buffer
    ≡ 252 ∷ 0 ∷ 0 ∷ 0 ∷ 0 ∷ 0 ∷ 0 ∷ 1 ∷ []
unfolding write_bits put spill drain to_be_bytes
overfull = refl

write_bits-Stands_example :
    Stands (write_bits 21 5 empty_writer) (true ∷ false ∷ true ∷ false ∷ true ∷ [])
unfolding bits_of
write_bits-Stands_example =
    write_bits-Stands 21 5 empty_writer [] (omega arith) (omega arith) empty_writer-Stands

read_bits-Follows_example :
    (r : BitReader) × (read_bits unexpected_eof panic (21 ∷ 7 ∷ []) 8 new_reader ≡ (ok 21, r))
    × Follows (21 ∷ 7 ∷ []) r (bits_of 8 7)
unfolding stream bits_of
read_bits-Follows_example =
    read_bits-Follows unexpected_eof panic (21 ∷ 7 ∷ []) 8 21 new_reader (bits_of 8 7) (omega arith)
      (omega arith) (omega arith) (start-Follows (21 ∷ 7 ∷ []))

refill_until-refill_fuel_example :
    (refill_until unexpected_eof panic (refill_fuel + 3) (21 ∷ 7 ∷ []) 20 new_reader
      ≡ refill_until unexpected_eof panic refill_fuel (21 ∷ 7 ∷ []) 20 new_reader)
    × Ended unexpected_eof
        (21 ∷ 7 ∷ [])
        20
        (refill_until unexpected_eof panic refill_fuel (21 ∷ 7 ∷ []) 20 new_reader)
refill_until-refill_fuel_example =
    refill_until-refill_fuel unexpected_eof panic 3 (21 ∷ 7 ∷ []) 20 new_reader (omega arith)
      (omega arith)
