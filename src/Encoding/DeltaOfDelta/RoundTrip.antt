-- ===== src/Encoding/DeltaOfDelta/RoundTrip.antt =====
-- `read` of delta_of_delta.rs gives back what `encode` and `flush` wrote.
use timbre_tsf.Prelude.{
  ℕ, suc, ◌+◌, ◌%◌, ◌^◌, ◌≤◌, ◌<◌, ◌≡◌, refl, sym, ap, ◌∙◌, arith, true, false, List, [], ◌∷◌, ◌++◌,
  length, ◌==◌, All, append_assoc, map,
}
use timbre_tsf.Words.Zigzag.{zigzag64}
use timbre_tsf.Words.{IsU64, wrapping_sub, wrapping_add}
use timbre_tsf.Exec.{Exec, ok, reads, reads-zero, reads-suc, reads-suc_first, for_each, ◌>>◌}
use timbre_tsf.Bytes.{LittleEndian, At, read_at-write, At-write}
use timbre_tsf.Common.Types.{TsDataType, data_type_to_u8}
use timbre_tsf.Encoding.{Value, Kind}
use timbre_tsf.Encoding.Simple8b
use timbre_tsf.Encoding.Simple8b.{
  Simple8bEncoder, Simple8bDecoder, takes_i64, push, encode_i64_internal, finish,
}
use timbre_tsf.Encoding.Simple8b.Contents.{IsReady, IsReady-new, push_lem}
use timbre_tsf.Encoding.Simple8b.RoundTrip.{
  Fits60, push_all, finished, encoded as words_of, reads-encoded, encode_step,
}
use timbre_tsf.Encoding.DeltaOfDelta.{
  DeltaOfDeltaEncoder, DeltaOfDeltaDecoder, new_encoder, new_decoder, encode, flush, read,
}

-- The second differences of a sequence that follows a value and a delta.
unfoldable pub second_deltas : ℕ → ℕ → List ℕ → List ℕ
second_deltas value delta [] = []
second_deltas value delta (v ∷ vs) =
    let delta' = wrapping_sub 64 v value in wrapping_sub 64 delta' delta ∷ second_deltas v delta' vs

-- The numbers that a sequence gives Simple8b.
unfoldable pub packed : List ℕ → List ℕ
packed [] = []
packed (a ∷ []) = []
packed (a ∷ (b ∷ vs)) = second_deltas b (wrapping_sub 64 b a) vs

abbrev encoder_at : ℕ → ℕ → Simple8bEncoder → ℕ → DeltaOfDeltaEncoder
encoder_at value delta s count = record {
  previous_value = value;
  previous_delta = delta;
  simple8b = s;
  count = count;
}

abbrev pub decoder_at : ℕ → ℕ → Simple8bDecoder → ℕ → DeltaOfDeltaDecoder
decoder_at value delta s count = record {
  previous_value = value;
  previous_delta = delta;
  simple8b = s;
  count = count;
}

module _ (bo : LittleEndian) where
  -- `encode` for each value of a sequence, and then `flush`.
  unfoldable pub encode_all : List ℕ → Exec (DeltaOfDeltaEncoder × List ℕ) (Unit {0})
  encode_all vs = do for_each (λ v. encode bo (Value.i64 v)) vs; flush bo

  -- The bytes of a sequence.
  unfoldable pub encoded : List ℕ → List ℕ
  encoded [] = words_of bo TsDataType.int64 []
  encoded (a ∷ []) = bo.write 8 a ++ words_of bo TsDataType.int64 []
  encoded (a ∷ (b ∷ vs)) =
      let delta = wrapping_sub 64 b a in
      bo.write 8 a ++ (bo.write 8 delta ++ words_of bo TsDataType.int64 (second_deltas b delta vs))

  -- One later value goes to Simple8b alone.
  encode_one :
      (v value delta count : ℕ) (s : Simple8bEncoder) (out : List ℕ)
      → 2 ≤ count
      → count + 1 < 2 ^ 32
      → takes_i64 s.data_type ≡ true
      → let delta' = wrapping_sub 64 v value in
        encode bo (Value.i64 v) (encoder_at value delta s count, out) ≡ (
          ok tt,
          (
            encoder_at v delta'
                (Simple8b.encode_i64_internal (wrapping_sub 64 delta' delta) s)
                (count + 1),
            out,
          ),
        )
  unfolding encode
  encode_one v value delta count s out lo hi ht =
      let not_0 : (count == 0) ≡ false = ground arith in
      let not_1 : (count == 1) ≡ false = ground arith in
      let wraps : (count + 1) % 2 ^ 32 ≡ count + 1 = omega arith in
      rw (
        not_0,
        not_1,
        encode_step (wrapping_sub 64 (wrapping_sub 64 v value) delta) s out ht,
        wraps,
      )

  -- The later values of a sequence go to Simple8b as their second differences.
  encode_each :
      (vs : List ℕ) (value delta count : ℕ) (s : Simple8bEncoder) (out : List ℕ)
      → 2 ≤ count
      → count + length vs < 2 ^ 32
      → takes_i64 s.data_type ≡ true
      → IsReady s
      → All Fits60 (second_deltas value delta vs)
      → (value' delta' count' : ℕ) × (for_each
            (λ v. encode bo (Value.i64 v))
            vs
            (encoder_at value delta s count, out)
          ≡ (
            ok tt,
            (encoder_at value' delta' (push_all (second_deltas value delta vs) s) count', out),
          ))
  unfolding for_each second_deltas push_all encode_i64_internal
  encode_each [] value delta count s out lo hi ht ready h = (value, delta, count, refl)
  encode_each (v ∷ vs) value delta count s out lo hi ht ready ((hv, hz), h) =
      let delta' = wrapping_sub 64 v value in
      let second = wrapping_sub 64 delta' delta in
      let (ready', _, t) = push_lem s (zigzag64 second) ready hz in
      let (value'', delta'', count'', later) =
        encode_each vs v delta' (count + 1) (push (zigzag64 second) s) out (omega arith)
          (omega arith) (rw t ht) ready' h in
      (
        value'',
        delta'',
        count'',
        rw (encode_one v value delta count s out lo (omega arith) ht) later,
      )

  -- One later value, where Simple8b reads its second difference.
  read_one :
      (v value delta count : ℕ) (s s' : Simple8bDecoder) (input : List ℕ) (pos pos' : ℕ)
      → 2 ≤ count
      → count + 1 < 2 ^ 32
      → IsU64 value
      → IsU64 delta
      → IsU64 v
      → let delta' = wrapping_sub 64 v value in
        Simple8b.read Kind.i64 input (s, pos)
          ≡ (ok (Value.i64 (wrapping_sub 64 delta' delta)), (s', pos'))
        → read bo Kind.i64 input (decoder_at value delta s count, pos)
          ≡ (ok (Value.i64 v), (decoder_at v delta' s' (count + 1), pos'))
  unfolding read
  read_one v value delta count s s' input pos pos' lo hi hv hd h now =
      let delta' = wrapping_sub 64 v value in
      let delta_back : wrapping_add 64 delta (wrapping_sub 64 delta' delta) ≡ delta' =
        omega arith in
      let value_back : wrapping_add 64 value delta' ≡ v = omega arith in
      let not_0 : (count == 0) ≡ false = ground arith in
      let not_1 : (count == 1) ≡ false = ground arith in
      let wraps : (count + 1) % 2 ^ 32 ≡ count + 1 = omega arith in
      rw (not_0, not_1, now, delta_back, value_back, wraps)

  -- Where Simple8b reads the second differences, the later values are read.
  read_each :
      (vs : List ℕ) (value delta count : ℕ) (s s' : Simple8bDecoder) (input : List ℕ) (pos pos' : ℕ)
      → 2 ≤ count
      → count + length vs < 2 ^ 32
      → IsU64 value
      → IsU64 delta
      → All IsU64 vs
      → reads (Simple8b.read Kind.i64 input) (length vs) (s, pos)
        ≡ (ok (map Value.i64 (second_deltas value delta vs)), (s', pos'))
      → (value' delta' count' : ℕ) × (reads
            (read bo Kind.i64 input)
            (length vs)
            (decoder_at value delta s count, pos)
          ≡ (ok (map Value.i64 vs), (decoder_at value' delta' s' count', pos')))
  unfolding second_deltas
  read_each [] value delta count s s' input pos pos' lo hi hv hd h e = (
    value,
    delta,
    count,
    reads-zero _ _
        ∙ ap (λ p. (ok [], (decoder_at value delta p.1.0 count, p.1.1))) (sym (reads-zero _ _) ∙ e),
  )
  read_each (v ∷ vs) value delta count s s' input pos pos' lo hi hv hd (h, hs) e =
      let delta' = wrapping_sub 64 v value in
      let ((t, p), now, later) = reads-suc_first _ _ e in
      let (value'', delta'', count'', rest) =
        read_each vs v delta' (count + 1) t s' input p pos' (omega arith) (omega arith) h
          (omega arith) hs later in
      (
        value'',
        delta'',
        count'',
        reads-suc _ _ (read_one v value delta count s t input pos p lo (omega arith) hv hd h now)
            rest,
      )

  -- The first value and the first delta stand in the input as they are.
  pub read_first :
      (t : TsDataType) (v : ℕ) (input : List ℕ) (pos : ℕ) (rest : List ℕ)
      → IsU64 v
      → At input pos (bo.write 8 v ++ rest)
      → read bo Kind.i64 input (new_decoder t, pos)
        ≡ (ok (Value.i64 v), (decoder_at v 0 (Simple8b.new_decoder t) 1, pos + 8))
  unfolding read
  read_first t v input pos rest hv a = rw (read_at-write bo 8 v input pos rest (omega arith) a)

  pub read_second :
      (t : TsDataType) (v v' : ℕ) (input : List ℕ) (pos : ℕ) (rest : List ℕ)
      → IsU64 v
      → IsU64 v'
      → At input pos (bo.write 8 (wrapping_sub 64 v' v) ++ rest)
      → read bo Kind.i64 input (decoder_at v 0 (Simple8b.new_decoder t) 1, pos) ≡ (
        ok (Value.i64 v'),
        (decoder_at v' (wrapping_sub 64 v' v) (Simple8b.new_decoder t) 2, pos + 8),
      )
  unfolding read
  read_second t v v' input pos rest hv hv' a =
      let value_back : wrapping_add 64 v (wrapping_sub 64 v' v) ≡ v' = omega arith in
      rw (read_at-write bo 8 (wrapping_sub 64 v' v) input pos rest (omega arith) a, value_back)

  length-second_deltas :
      (vs : List ℕ) (value delta : ℕ) → length (second_deltas value delta vs) ≡ length vs
  unfolding second_deltas
  length-second_deltas [] value delta = refl
  length-second_deltas (v ∷ vs) value delta =
      ap suc (length-second_deltas vs v (wrapping_sub 64 v value))

  -- The encoder's `flush` appends what Simple8b holds.
  flush_at :
      (value delta count : ℕ) (ds out : List ℕ)
      → (e : DeltaOfDeltaEncoder) × (flush bo (
        encoder_at value delta (push_all ds (Simple8b.new_encoder TsDataType.int64)) count,
        out,
      )
          ≡ (ok tt, (e, out ++ words_of bo TsDataType.int64 ds)))
  unfolding flush Simple8b.flush words_of finished
  flush_at value delta count ds out =
      (encoder_at value delta (finished TsDataType.int64 ds) count, refl)

  -- Encoding with a new encoder and flushing appends `encoded vs` to the output.
  pub encode_all_lem :
      (vs out : List ℕ)
      → length vs < 2 ^ 32
      → All Fits60 (packed vs)
      → (e : DeltaOfDeltaEncoder) × (encode_all vs (new_encoder, out)
          ≡ (ok tt, (e, out ++ encoded vs)))
  unfolding encode_all encoded for_each packed encode push_all data_type_to_u8
  encode_all_lem [] out hi h = flush_at 0 0 0 [] out
  encode_all_lem (a ∷ []) out hi h =
      let (e, done) = flush_at a 0 1 [] (out ++ bo.write 8 a) in
      (
        e,
        done
            ∙ ap (λ (l : List ℕ). (ok tt, (e, l)))
                (append_assoc out (bo.write 8 a) (words_of bo TsDataType.int64 [])),
      )
  encode_all_lem (a ∷ (b ∷ vs)) out hi h =
      let delta = wrapping_sub 64 b a in
      let written = (out ++ bo.write 8 a) ++ bo.write 8 delta in
      let new = Simple8b.new_encoder TsDataType.int64 in
      let (v, d, c, each) =
        encode_each vs b delta 2 new written (omega arith) (omega arith) refl
          (IsReady-new TsDataType.int64) h in
      let (e, done) = flush_at v d c (second_deltas b delta vs) written in
      (
        e,
        rw each done
            ∙ ap (λ (l : List ℕ). (ok tt, (e, l)))
                (append_assoc (out ++ bo.write 8 a) (bo.write 8 delta) _
                  ∙ append_assoc out (bo.write 8 a) _),
      )

  -- As many reads as values give these.
  abbrev pub Reads : TsDataType → List ℕ → ℕ → List ℕ → Type 0
  Reads t input pos vs =
      (d : DeltaOfDeltaDecoder) × (pos' : ℕ) × (reads (read bo Kind.i64 input) (length vs)
          (new_decoder t, pos)
        ≡ (ok (map Value.i64 vs), (d, pos')))

  reads_encoded_lem :
      (t : TsDataType) (vs input : List ℕ) (pos : ℕ) (rest : List ℕ)
      → takes_i64 t ≡ true
      → length vs < 2 ^ 32
      → All IsU64 vs
      → All Fits60 (packed vs)
      → At input pos (encoded vs ++ rest)
      → Reads t input pos vs
  unfolding encoded packed
  reads_encoded_lem t [] input pos rest ht hi hs h a = (new_decoder t, pos, reads-zero _ _)
  reads_encoded_lem t (x ∷ []) input pos rest ht hi (hx, hs) h a =
      (_, _, reads-suc _ _ (read_first t x input pos _ hx (rw append_assoc at a)) (reads-zero _ _))
  reads_encoded_lem t (x ∷ (y ∷ vs)) input pos rest ht hi (hx, (hy, hs)) h a =
      let delta = wrapping_sub 64 y x in
      let ds = second_deltas y delta vs in
      let at_first : At input pos
          (bo.write 8 x ++ (bo.write 8 delta ++ (words_of bo TsDataType.int64 ds ++ rest))) =
        (rw (append_assoc (bo.write 8 x), append_assoc (bo.write 8 delta)) at a) in
      let at_second = At-write bo 8 x input pos _ at_first in
      let at_words = At-write bo 8 delta input (pos + 8) _ at_second in
      let (s, pos', unpacked) =
        reads-encoded bo TsDataType.int64 t ds input (pos + 8 + 8) rest ht h at_words in
      let (v, d, c, later) =
        read_each vs y delta 2 (Simple8b.new_decoder t) s input (pos + 8 + 8) pos' (omega arith)
          (omega arith) hy (omega arith) hs (rw (length-second_deltas vs y delta) at unpacked) in
      (
        decoder_at v d s c,
        pos',
        reads-suc _ _ (read_first t x input pos _ hx at_first)
            (reads-suc _ _ (read_second t x y input (pos + 8) _ hx hy at_second) later),
      )

  -- For fewer than 2 ^ 32 64-bit integers whose second differences have zigzag forms of at most 60 bits:
  -- encoding them by `encode_i64` with a new encoder and flushing appends `encoded` to the output, and wherever
  -- these bytes stand in an input, whatever follows them, as many `read_i64` with a new decoder of a
  -- 64-bit type give the integers back, in order.
  pub delta_of_delta_round_trip :
      (t : TsDataType) (vs out input : List ℕ) (pos : ℕ) (rest : List ℕ)
      → takes_i64 t ≡ true
      → length vs < 2 ^ 32
      → All IsU64 vs
      → All Fits60 (packed vs)
      → At input pos (encoded vs ++ rest)
      → ((e : DeltaOfDeltaEncoder) × (encode_all vs (new_encoder, out)
            ≡ (ok tt, (e, out ++ encoded vs))))
        × Reads t input pos vs
  delta_of_delta_round_trip t vs out input pos rest ht hi hs h a =
      (encode_all_lem vs out hi h, reads_encoded_lem t vs input pos rest ht hi hs h a)
