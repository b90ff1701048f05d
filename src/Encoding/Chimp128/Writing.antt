-- ===== src/Encoding/Chimp128/Writing.antt =====
-- `write_bits` of chimp128.rs, which returns early, does what that of gorilla.rs does.
use timbre_tsf.Prelude.{
  ℕ, ◌*◌, ◌<◌, ◌≡◌, refl, sym, ap, ◌∙◌, arith, false, ◌++◌, leb, ltb, ◌==◌, if◌then◌else◌, inl, inr,
  Bool-cases, ltb→lt,
}
use timbre_tsf.Bytes.BigEndian.{to_be_bytes}
use timbre_tsf.Encoding.BitStream.Writer.{BitWriter, put, drain, spill}
use timbre_tsf.Encoding.BitStream.Writer
use timbre_tsf.Encoding.Chimp128.Encoder.{drain_then, write_bits}

idle : (n : ℕ) (w : BitWriter) → w.bits_in_buffer < 8 * n → drain n w ≡ w
unfolding drain
idle n w few = let less : leb (8 * n) w.bits_in_buffer ≡ false = ground arith in rw less refl

drain_then_lem :
    (n : ℕ) (k : BitWriter → BitWriter) (w : BitWriter)
    → ((w' : BitWriter) → w'.bits_in_buffer < 8 → k w' ≡ w')
    → drain_then n k w ≡ k (drain n w)
unfolding drain_then
drain_then_lem n k w stays = elim (Bool-cases (leb (8 * n) w.bits_in_buffer)) [
  | inl full ↦ elim (Bool-cases (ltb (drain n w).bits_in_buffer 8)) [
    | inl few ↦ rw (full, few) (sym (stays (drain n w) (ltb→lt _ 8 few)))
    | inr more ↦ rw (full, more) refl
  ]
  | inr short ↦ rw short (ap k (sym (idle n w (ground arith))))
]

last : (w : BitWriter) → w.bits_in_buffer < 8 → drain 1 w ≡ w
last w few = idle 1 w (omega arith)

last_two : (w : BitWriter) → w.bits_in_buffer < 8 → drain_then 2 (drain 1) w ≡ w
last_two w few =
    drain_then_lem 2 (drain 1) w last ∙ ap (drain 1) (idle 2 w (omega arith)) ∙ last w few

-- For every writer, value and number of bits, the two methods leave the same.
pub write_bits-same :
    (value num_bits : ℕ) (w : BitWriter)
    → write_bits value num_bits w ≡ Writer.write_bits value num_bits w
unfolding write_bits Writer.write_bits spill
write_bits-same value num_bits w =
    ap (λ (rest : BitWriter). if num_bits == 0 then w else rest)
      (ap
        (λ (rest : BitWriter). if leb 64 (put value num_bits w).bits_in_buffer then whole else rest)
        (drain_then_lem 4 (drain_then 2 (drain 1)) (put value num_bits w) last_two
          ∙ drain_then_lem 2 (drain 1) (drain 4 (put value num_bits w)) last))
  where
    whole : BitWriter
    whole = record {
      buffer = (put value num_bits w).buffer ++ to_be_bytes 8 (put value num_bits w).bit_buffer;
      bit_buffer = 0;
      bits_in_buffer = 0;
    }
