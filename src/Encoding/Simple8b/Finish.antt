-- ===== src/Encoding/Simple8b/Finish.antt =====
-- `finish` packs everything that is pending and adds only zeros.
use timbre_tsf.Prelude.{
  ℕ, zero, suc, ◌+◌, ◌-◌, ◌^◌, ◌≤◌, ◌<◌, ◌≡◌, refl, sym, ap, ap₂, ◌∙◌, arith, List, [], ◌∷◌, ◌++◌,
  length, take, drop, All, All-append, All-drop, inl, inr, append-nil, append_assoc, length-append,
  replicate, length-replicate, length-drop, length-take, take-append-drop, take-all, drop-all, min,
}
use timbre_tsf.Words.{IsU64}
use timbre_tsf.Words.Zigzag.{lt_or_le}
use timbre_tsf.Words.Bits.{two_pow_pos}
use timbre_tsf.Common.Types.{TsDataType}
use timbre_tsf.Encoding.Simple8b.{Simple8bEncoder, finish_round, finish_loop, finish}
use timbre_tsf.Encoding.Simple8b.Select.{count_of, bits_of}
use timbre_tsf.Encoding.Simple8b.Select.Chosen.{IsChoice, best_selector_lem}
use timbre_tsf.Encoding.Simple8b.Pack.{pack_values, value_at}
use timbre_tsf.Encoding.Simple8b.Unpack.{unpack, values_from}
use timbre_tsf.Encoding.Simple8b.Contents.{
  unpack_all, contents, IsReady, choice_word, state, move_values,
}

replicate-add {ℓ} :
    {A : Type ℓ} (n m : ℕ) (a : A) → replicate n a ++ replicate m a ≡ replicate (n + m) a
replicate-add zero m a = ap (λ (k : ℕ). replicate k a) (omega arith)
replicate-add (suc n) m a =
    let e : suc n + m ≡ suc (n + m) = omega arith in
    rw e (ap (λ (l : List _). a ∷ l) (replicate-add n m a))

All-zero : (vs : List ℕ) → All (λ x. x ≤ 0) vs → vs ≡ replicate (length vs) 0
All-zero [] h = refl
All-zero (v ∷ vs) (p, h) = ap₂ ◌∷◌ (omega arith) (All-zero vs h)

All-replicate-zero : (b n : ℕ) → All (λ v. v < 2 ^ b) (replicate n 0)
All-replicate-zero b zero = tt
All-replicate-zero b (suc n) = (two_pow_pos b, All-replicate-zero b n)

-- The word of selector 0.
zeros_word :
    (unpack (pack_values (replicate 240 0) 0 (bits_of 0)) ≡ replicate 240 0)
    × IsU64 (pack_values (replicate 240 0) 0 (bits_of 0))
unfolding unpack pack_values values_from value_at count_of bits_of
zeros_word = (refl, omega arith)

-- After a round: shorter, ready, and the same contents followed by `k` zeros.
record IsRound (e e' : Simple8bEncoder) (k : ℕ) : Type 0 where
  shorter : length e'.pending < length e.pending
  ready : IsReady e'
  same : contents e' ≡ contents e ++ replicate k 0
  same_type : e'.data_type ≡ e.data_type

-- The values of a round, in the order of the contents.
padded_values :
    (p : List ℕ) (n m : ℕ)
    → m ≡ min (length p) n
    → (take m p ++ replicate (n - m) 0) ++ drop m p ≡ p ++ replicate (n - m) 0
padded_values p n m e = elim (lt_or_le (length p) n) [
  | inl less ↦
      let whole : m ≡ length p = omega arith in
      rw (take-all m p (omega arith), drop-all m p (omega arith)) (append-nil _)
  | inr enough ↦
      let none_left : n - m ≡ 0 = omega arith in
      rw (none_left, append-nil, append-nil) (take-append-drop m p)
]

round_lem :
    (t : TsDataType) (p output : List ℕ) (n m word : ℕ)
    → m ≡ min (length p) n
    → 0 < n
    → 0 < length p
    → IsReady (state t p output)
    → unpack word ≡ take m p ++ replicate (n - m) 0
    → IsU64 word
    → IsRound (state t p output) (state t (drop m p) (output ++ word ∷ [])) (n - m)
unfolding contents
round_lem t p output n m word is_m pos some_left ready stored is_word = record {
  shorter = omega (arith, length-drop m p);
  ready = record {
    short = omega (arith, length-drop m p, ready.short);
    small = All-drop (λ v. v < 2 ^ 60) m p ready.small;
    words = All-append IsU64 output (word ∷ []) ready.words (is_word, tt);
  };
  same =
      move_values output (take m p ++ replicate (n - m) 0) (drop m p) word stored
      ∙ ap (λ (l : List ℕ). unpack_all output ++ l) (padded_values p n m is_m)
      ∙ sym (append_assoc (unpack_all output) p (replicate (n - m) 0));
  same_type = refl;
}

-- A choice is one also for the taken values with the padding.
IsChoice-padded :
    (p : List ℕ) (s m : ℕ)
    → m ≡ min (length p) (count_of s)
    → IsChoice (take (count_of s) p) s
    → IsChoice (take m p ++ replicate (count_of s - m) 0) s
      × (length (take m p ++ replicate (count_of s - m) 0) ≡ count_of s)
IsChoice-padded p s m is_m c = (
  record {
    entry_of = c.entry_of;
    bits = c.bits;
    fit =
        All-append (λ v. v < 2 ^ bits_of s) (take m p) (replicate (count_of s - m) 0)
          (rw same_take c.fit) (All-replicate-zero (bits_of s) (count_of s - m));
  },
  omega (
    arith,
    length-append (take m p) (replicate (count_of s - m) 0),
    length-take m p,
    length-replicate {A = ℕ} (count_of s - m) 0,
  ),
)
  where
    same_take : take m p ≡ take (count_of s) p
    same_take = elim (lt_or_le (length p) (count_of s)) [
      | inl less ↦ rw (take-all m p (omega arith), take-all (count_of s) p (omega arith))
      | inr enough ↦ ap (λ (k : ℕ). take k p) (omega arith)
    ]

zero_values :
    (p : List ℕ)
    → All (λ x. x ≤ 0) p
    → length p < 240
    → take (min (length p) 240) p ++ replicate (240 - min (length p) 240) 0 ≡ replicate 240 0
zero_values p zeros short =
    let m = min (length p) 240 in
    let total : length p + (240 - m) ≡ 240 = omega arith in
    ap (λ (l : List ℕ). l ++ replicate (240 - m) 0) (take-all m p (omega arith) ∙ All-zero p zeros)
    ∙ replicate-add (length p) (240 - m) 0
    ∙ ap (λ (k : ℕ). replicate k 0) total

finish_round_lem :
    (t : TsDataType) (v : ℕ) (vs output : List ℕ)
    → IsReady (state t (v ∷ vs) output)
    → let e = state t (v ∷ vs) output in (k : ℕ) × IsRound e (finish_round e) k
unfolding finish_round
finish_round_lem t v vs output ready = elim (best_selector_lem v vs ready.small.0 ready.short) [
  | inl (found, all_zero) ↦ rw found (
    240 - m 240,
    round_lem t pending output 240 (m 240) _ refl (omega arith) (omega arith) ready
        (rw (zero_values pending all_zero (omega arith)) zeros_word.0)
        (rw (zero_values pending all_zero (omega arith)) zeros_word.1),
  )
  | inr (s, found, c) ↦
      let (c', full) = IsChoice-padded pending s (m (count_of s)) refl c in
      let (stored, is_word) = choice_word _ s c' full in
      rw found (
        count_of s - m (count_of s),
        round_lem t pending output (count_of s) (m (count_of s)) _ refl c.entry_of.pos (omega arith)
            ready stored is_word,
      )
]
  where
    pending : List ℕ
    pending = v ∷ vs

    m : ℕ → ℕ
    m n = min (length pending) n

-- After the loop nothing is pending, and at most zeros are added.
pub record IsFinished (e e' : Simple8bEncoder) (k : ℕ) : Type 0 where
  pub empty : e'.pending ≡ []
  pub words : All IsU64 e'.output
  pub same : unpack_all e'.output ≡ contents e ++ replicate k 0
  pub same_type : e'.data_type ≡ e.data_type

finish_loop_lem :
    (fuel : ℕ) (t : TsDataType) (p output : List ℕ)
    → length p ≤ fuel
    → IsReady (state t p output)
    → let e = state t p output in (k : ℕ) × IsFinished e (finish_loop fuel e) k
unfolding finish_loop contents
finish_loop_lem zero t [] output h ready = (
  0,
  record {
    empty = refl;
    words = ready.words;
    same = sym (append-nil _ ∙ append-nil _);
    same_type = refl;
  },
)
finish_loop_lem (suc fuel) t [] output h ready = (
  0,
  record {
    empty = refl;
    words = ready.words;
    same = sym (append-nil _ ∙ append-nil _);
    same_type = refl;
  },
)
finish_loop_lem zero t (v ∷ vs) output h ready = absurd (omega arith)
finish_loop_lem (suc fuel) t (v ∷ vs) output h ready =
    let (k, r) = finish_round_lem t v vs output ready in
    let e' = finish_round (state t (v ∷ vs) output) in
    let (j, f) =
      finish_loop_lem fuel e'.data_type e'.pending e'.output (omega (arith, r.shorter)) r.ready in
    (
      k + j,
      record {
        empty = f.empty;
        words = f.words;
        same =
            f.same
            ∙ ap (λ (l : List ℕ). l ++ replicate j 0) r.same
            ∙ append_assoc _ (replicate k 0) (replicate j 0)
            ∙ ap (λ (l : List ℕ). (unpack_all output ++ (v ∷ vs)) ++ l) (replicate-add k j 0);
        same_type = f.same_type ∙ r.same_type;
      },
    )

-- From a ready encoder `finish` leaves nothing pending and the data type as it is, its words are
-- 64-bit numbers, and the values of these are the contents and then some number of zeros.
pub finish_lem : (e : Simple8bEncoder) → IsReady e → (k : ℕ) × IsFinished e (finish e) k
unfolding finish
finish_lem e ready =
    finish_loop_lem (length e.pending) e.data_type e.pending e.output (omega arith) ready
