-- ===== src/Encoding/Rle/Runs.antt =====
-- The runs of a sequence, as a description of what `encode` and `flush` of rle.rs write.
use timbre_tsf.Prelude.{
  ℕ, zero, suc, ◌+◌, ◌%◌, ◌^◌, ◌≤◌, ◌<◌, ◌≡◌, refl, sym, ap, ◌∙◌, arith, some, List, [], ◌∷◌, ◌++◌,
  length, All, replicate, ◌==◌, ==_iff, Bool-cases, inl, inr, if◌then◌else◌, append-nil,
  append_assoc,
}
use timbre_tsf.Words.{IsU64}
use timbre_tsf.Exec.{Exec, ok, for_each, ◌>>◌}
use timbre_tsf.Bytes.{LittleEndian}
use timbre_tsf.Encoding.{Value}
use timbre_tsf.Encoding.Rle.{RleEncoder, new_encoder, encode_value, encode, flush, write_run}

-- The runs of `count` times `value` with the sequence behind it.
unfoldable pub runs : ℕ → ℕ → List ℕ → List (ℕ × ℕ)
runs value count [] = (value, count) ∷ []
runs value count (v ∷ vs) =
    let longer = runs value (count + 1) vs in
    let next = (value, count) ∷ runs v 1 vs in if value == v then longer else next

unfoldable pub expand : List (ℕ × ℕ) → List ℕ
expand [] = []
expand ((value, count) ∷ rest) = replicate count value ++ expand rest

-- A run whose value is a 64-bit integer and whose count is a positive i32.
abbrev pub IsRun : ℕ × ℕ → Type 0
IsRun (value, count) = IsU64 value × (1 ≤ count) × (count < 2 ^ 31)

replicate-suc {ℓ} :
    {A : Type ℓ} (n : ℕ) (a : A) (l : List A) → replicate (n + 1) a ++ l ≡ replicate n a ++ (a ∷ l)
replicate-suc zero a l = refl
replicate-suc (suc n) a l =
    let e : suc n + 1 ≡ suc (n + 1) = omega arith in
    rw e (ap (λ (t : List _). a ∷ t) (replicate-suc n a l))

-- The runs stand for the sequence.
pub expand-runs :
    (value count : ℕ) (vs : List ℕ) → expand (runs value count vs) ≡ replicate count value ++ vs
unfolding expand runs
expand-runs value count [] = refl
expand-runs value count (v ∷ vs) = elim (Bool-cases (value == v)) [
  | inl e ↦
      rw (e, runs, expand-runs value (count + 1) vs)
        (rw (replicate-suc count value vs)
          (ap (λ (t : ℕ). replicate count value ++ (t ∷ vs)) ((==_iff value v).0 e)))
  | inr e ↦ rw (e, runs, expand-runs v 1 vs)
]

pub runs-IsRun :
    (value count : ℕ) (vs : List ℕ)
    → IsU64 value
    → 1 ≤ count
    → count + length vs < 2 ^ 31
    → All IsU64 vs
    → All IsRun (runs value count vs)
unfolding runs
runs-IsRun value count [] hv lo hi h = ((hv, lo, omega arith), tt)
runs-IsRun value count (v ∷ vs) hv lo hi (h, hs) = elim (Bool-cases (value == v)) [
  | inl e ↦ rw (e, runs) (runs-IsRun value (count + 1) vs hv (omega arith) (omega arith) hs)
  | inr e ↦ rw (e, runs) ((hv, lo, omega arith), runs-IsRun v 1 vs h (omega arith) (omega arith) hs)
]

module _ (bo : LittleEndian) where
  unfoldable pub bytes_of : List (ℕ × ℕ) → List ℕ
  unfolding write_run
  bytes_of [] = []
  bytes_of ((value, count) ∷ rest) = write_run bo value count ++ bytes_of rest

  -- `encode_value` for each value of a sequence, and then `flush`.
  unfoldable pub encode_all : List ℕ → Exec (RleEncoder × List ℕ) (Unit {0})
  encode_all vs = do for_each (λ v. encode bo (Value.i64 v)) vs; flush bo

  -- From inside a run, the calls write the run with the rest of its sequence, and reset.
  encode_all_from :
      (value count : ℕ) (vs out : List ℕ)
      → count + length vs < 2 ^ 31
      → encode_all vs (record { previous_value = some value; run_length = count }, out)
        ≡ (ok tt, (new_encoder, out ++ bytes_of (runs value count vs)))
  unfolding encode_all for_each encode encode_value flush bytes_of runs
  encode_all_from value count [] out h = rw append-nil
  encode_all_from value count (v ∷ vs) out h = elim (Bool-cases (value == v)) [
    | inl e ↦
        let wraps : (count + 1) % 2 ^ 32 ≡ count + 1 = omega arith in
        rw (e, runs, wraps) (encode_all_from value (count + 1) vs out (omega arith))
    | inr e ↦
        rw (e, runs)
          (rw (sym (append_assoc out (write_run bo value count) (bytes_of (runs v 1 vs))))
            (encode_all_from v 1 vs (out ++ write_run bo value count) (omega arith)))
  ]

  -- The bytes of a sequence.
  unfoldable pub encoded : List ℕ → List ℕ
  encoded [] = []
  encoded (v ∷ vs) = bytes_of (runs v 1 vs)

  pub encode_all_lem :
      (vs out : List ℕ)
      → length vs < 2 ^ 31
      → encode_all vs (new_encoder, out) ≡ (ok tt, (new_encoder, out ++ encoded vs))
  unfolding encoded
  encode_all_lem [] out h = unfold encode_all for_each flush in rw append-nil
  encode_all_lem (v ∷ vs) out h = first v vs out ∙ encode_all_from v 1 vs out (omega arith)
    where
      first :
          (v : ℕ) (vs out : List ℕ)
          → encode_all (v ∷ vs) (new_encoder, out)
            ≡ encode_all vs (record { previous_value = some v; run_length = 1 }, out)
      first v vs out = unfold encode_all for_each encode encode_value in refl
