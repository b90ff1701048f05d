-- ===== src/Encoding/Simple8b/Contents.antt =====
-- What the encoder holds: the values of its words and the pending ones are the values pushed.
use timbre_tsf.Prelude.{
  ℕ, ◌^◌, ◌≤◌, ◌<◌, ◌≡◌, refl, sym, ap, ◌∙◌, arith, List, [], ◌∷◌, ◌++◌, length, take, drop, leb,
  All, All-append, All-drop, Bool-cases, inl, inr, append-nil, append_assoc, length-append,
  length-drop, length-take, take-append-drop,
}
use timbre_tsf.Words.{IsU64}
use timbre_tsf.Common.Types.{TsDataType}
use timbre_tsf.Encoding.Simple8b.{Simple8bEncoder, try_pack, push, new_encoder}
use timbre_tsf.Encoding.Simple8b.Select.{count_of, bits_of}
use timbre_tsf.Encoding.Simple8b.Select.Chosen.{IsChoice, find_selector_lem}
use timbre_tsf.Encoding.Simple8b.Pack.{pack_values}
use timbre_tsf.Encoding.Simple8b.Unpack.{unpack, unpack-pack_values}

-- The values of a sequence of words.
unfoldable pub unpack_all : List ℕ → List ℕ
unpack_all [] = []
unpack_all (word ∷ words) = unpack word ++ unpack_all words

pub unpack_all-append : (xs ys : List ℕ) → unpack_all (xs ++ ys) ≡ unpack_all xs ++ unpack_all ys
unfolding unpack_all
unpack_all-append [] ys = refl
unpack_all-append (x ∷ xs) ys =
    ap (λ (l : List ℕ). unpack x ++ l) (unpack_all-append xs ys)
    ∙ sym (append_assoc (unpack x) (unpack_all xs) (unpack_all ys))

unpack_all-one : (word : ℕ) → unpack_all (word ∷ []) ≡ unpack word
unfolding unpack_all
unpack_all-one word = append-nil (unpack word)

unfoldable pub contents : Simple8bEncoder → List ℕ
contents e = unpack_all e.output ++ e.pending

-- Between two calls: at most 59 pending values, each of 60 bits at most, and words of 64 bits.
pub record IsReady (e : Simple8bEncoder) : Type 0 where
  pub short : length e.pending < 60
  pub small : All (λ v. v < 2 ^ 60) e.pending
  pub words : All IsU64 e.output

pub IsReady-new : (t : TsDataType) → IsReady (new_encoder t)
IsReady-new t = record { short = omega arith; small = tt; words = tt }

-- A choice packs its values into one word.
pub choice_word :
    (values : List ℕ) (s : ℕ)
    → IsChoice values s
    → length values ≡ count_of s
    → (unpack (pack_values values s (bits_of s)) ≡ values)
      × IsU64 (pack_values values s (bits_of s))
choice_word values s c same =
    unpack-pack_values s (bits_of s) refl c.bits values c.entry_of.below (sym same)
      (rw same c.entry_of.room) c.fit

abbrev pub state : TsDataType → List ℕ → List ℕ → Simple8bEncoder
state t pending output = record { data_type = t; pending = pending; output = output }

-- A word more stands for the values that it was packed from.
pub move_values :
    (words values rest : List ℕ) (word : ℕ)
    → unpack word ≡ values
    → unpack_all (words ++ word ∷ []) ++ rest ≡ unpack_all words ++ (values ++ rest)
move_values words values rest word e =
    ap (λ (l : List ℕ). l ++ rest)
      (unpack_all-append words (word ∷ [])
        ∙ ap (λ (l : List ℕ). unpack_all words ++ l) (unpack_all-one word ∙ e))
    ∙ append_assoc (unpack_all words) values rest

-- `try_pack` with 1 to 60 values pending moves some into a word and changes no content.
try_pack_lem :
    (t : TsDataType) (v : ℕ) (vs output : List ℕ)
    → length (v ∷ vs) ≤ 60
    → All (λ v. v < 2 ^ 60) (v ∷ vs)
    → All IsU64 output
    → let e = state t (v ∷ vs) output in
      IsReady (try_pack e) × (contents (try_pack e) ≡ contents e) × ((try_pack e).data_type ≡ t)
unfolding try_pack contents
try_pack_lem t v vs output short small words =
    let (s, found, enough, c) = find_selector_lem v vs small.0 short in
    let pending : List ℕ = v ∷ vs in
    let taken : length (take (count_of s) pending) ≡ count_of s =
      omega (arith, length-take (count_of s) pending) in
    let (stored, is_word) = choice_word (take (count_of s) pending) s c taken in
    rw found (
      record {
        short = omega (arith, length-drop (count_of s) pending, c.entry_of.pos);
        small = All-drop (λ v. v < 2 ^ 60) (count_of s) pending small;
        words = All-append IsU64 output _ words (is_word, tt);
      },
      move_values output (take (count_of s) pending) (drop (count_of s) pending) _ stored
          ∙ ap (λ (l : List ℕ). unpack_all output ++ l) (take-append-drop (count_of s) pending),
      refl,
    )

-- Pushing a number of 60 bits at most keeps a ready encoder ready and its data type as it is, and
-- adds the number at the end of its contents.
pub push_lem :
    (e : Simple8bEncoder) (z : ℕ)
    → IsReady e
    → z < 2 ^ 60
    → IsReady (push z e)
      × (contents (push z e) ≡ contents e ++ z ∷ [])
      × ((push z e).data_type ≡ e.data_type)
unfolding push
push_lem e z ready small = elim (Bool-cases (leb 60 (length pushed))) [
  | inl full ↦
      rw full (let (r, same, t) = packed pushed refl in (r, same ∙ (unfold contents in kept), t))
  | inr room ↦ rw room (
    record { short = ground arith; small = all_small; words = ready.words },
    unfold contents in kept,
    refl,
  )
]
  where
    pushed : List ℕ
    pushed = e.pending ++ z ∷ []

    kept : unpack_all e.output ++ pushed ≡ (unpack_all e.output ++ e.pending) ++ z ∷ []
    kept = sym (append_assoc (unpack_all e.output) e.pending (z ∷ []))

    all_small : All (λ v. v < 2 ^ 60) pushed
    all_small = All-append (λ v. v < 2 ^ 60) e.pending (z ∷ []) ready.small (small, tt)

    size : length pushed ≤ 60
    size = omega (arith, length-append e.pending (z ∷ []), ready.short)

    packed :
        (vs : List ℕ)
        → pushed ≡ vs
        → let e' = state e.data_type pushed e.output in
          IsReady (try_pack e')
          × (contents (try_pack e') ≡ contents e')
          × ((try_pack e').data_type ≡ e.data_type)
    packed [] is = absurd (omega (arith, ap length is, length-append e.pending (z ∷ [])))
    packed (v ∷ vs) is =
        rw is
          (try_pack_lem e.data_type v vs e.output (rw is at size) (rw is at all_small) ready.words)
