-- ===== src/Encoding/DictionaryRle/RoundTrip.antt =====
-- `decode` of dictionary_rle.rs gives back what `encode` took.
use timbre_tsf.Prelude.{
  ℕ, ◌%◌, ◌^◌, ◌≤◌, ◌<◌, ◌≡◌, refl, arith, List, [], ◌∷◌, length, length-append, All, append-nil,
}
use timbre_tsf.Words.{IsU64}
use timbre_tsf.Exec.{ok, gets, then_both, for_each}
use timbre_tsf.Bytes.{LittleEndian, At-start, length-write}
use timbre_tsf.Encoding.Places.{nat_equality, distinct, distinct-All}
use timbre_tsf.Encoding.DictionaryRle.{
  DictionaryRleEncoder, new_encoder, flush_run, encode_value, finish, encode, decode_all, decode,
}
use timbre_tsf.Encoding.DictionaryRle.Seen.{encode_and_flush, encode_and_flush_lem}
use timbre_tsf.Encoding.DictionaryRle.Written.{decode_all-finish}

module _ (bo : LittleEndian) where
  encode-flushed :
      (v : ℕ) (vs : List ℕ) (e e' : DictionaryRleEncoder)
      → encode_and_flush (v ∷ vs) new_encoder ≡ (ok tt, e')
      → encode bo (v ∷ vs) e ≡ (ok (finish bo e'), e')
  unfolding encode encode_and_flush
  encode-flushed v vs e e' h =
      then_both (for_each encode_value (v ∷ vs)) flush_run (gets (finish bo)) new_encoder h

  decode_present : (input : List ℕ) → 0 < length input → decode bo input ≡ decode_all bo input
  unfolding decode
  decode_present [] h = absurd (omega arith)
  decode_present (b ∷ rest) h = refl

  finish_present : (e : DictionaryRleEncoder) → 0 < length (finish bo e)
  unfolding finish
  finish_present e = omega (
    arith,
    length-append (bo.write 2 (length e.dictionary % 2 ^ 16)) _,
    length-write bo 2 (length e.dictionary % 2 ^ 16),
  )

  -- Encoding any numbers of 64 bits, fewer than 2 ^ 32 and at most 256 of them distinct, with an
  -- encoder in any state succeeds, and decoding the bytes gives the numbers back, in order. The
  -- dictionary holds each number once, in the order of first occurrence.
  pub dictionary_rle_round_trip :
      (vs : List ℕ) (e : DictionaryRleEncoder)
      → All IsU64 vs
      → length vs < 2 ^ 32
      → length (distinct nat_equality [] vs) ≤ 256
      → (bytes : List ℕ) × (e' : DictionaryRleEncoder) × (encode bo vs e ≡ (ok bytes, e'))
        × (end : ℕ) × (decode bo bytes 0 ≡ (ok vs, end))
  dictionary_rle_round_trip [] e words short room =
      ([], e, (unfold encode in refl), 0, unfold decode in refl)
  dictionary_rle_round_trip (v ∷ vs) e words short room =
      let (e', flushed, dictionary, inside, few, values) = encode_and_flush_lem v vs room short in
      let all_words = distinct-All nat_equality IsU64 [] (v ∷ vs) tt words in
      let (end, decoded, at_rest) =
        decode_all-finish bo e' (finish bo e') 0 [] (rw dictionary all_words) (rw dictionary room)
          inside (omega arith) (rw append-nil (At-start (finish bo e'))) in
      (
        finish bo e',
        e',
        encode-flushed v vs e e' flushed,
        end,
        rw (decode_present (finish bo e') (finish_present e'), decoded, values),
      )
