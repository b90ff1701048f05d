-- ===== src/Exec.antt =====
-- The error type of error.rs, and methods that mutate `&mut self` and return a `Result`.
-- What was written before an error stays written, so the state comes back beside the error too.
-- `panic` is a run that Rust aborts: an index out of range, or `unwrap` of `None`.
use Prim.Native.String.{String}
use mathlib.Core.Bool.{false≢true}
use timbre_tsf.Prelude.{◌≡◌, refl, ap, ap₂, ◌∙◌, Bool, true, false, List, [], ◌∷◌, ℕ, zero, suc}

-- The variants that the modelled code raises, with their messages. `io` stands for the errors of
-- `std::io`, of which only the unexpected end of a reader occurs.
pub data TimbreError : Type 0 where
  io unexpected_eof : TimbreError
  encoding_error decoding_error invalid_state : String → TimbreError

pub data Result {ℓ} (A : Type ℓ) : Type ℓ where
  ok : A → Result A
  err : TimbreError → Result A
  panic : Result A

abbrev pub Exec {ℓ} : Type ℓ → Type ℓ → Type ℓ
Exec S A = S → Result A × S

module _ {ℓ} {S A : Type ℓ} where
  abbrev pub pure : A → Exec S A
  pure a s = (ok a, s)

  abbrev pub throw : TimbreError → Exec S A
  throw e s = (err e, s)

  abbrev pub abort : Exec S A
  abort s = (panic, s)

  abbrev pub gets : (S → A) → Exec S A
  gets f s = (ok (f s), s)

  abbrev pub lift : Result A → Exec S A
  lift r s = (r, s)

module _ {S : Type 0} where
  abbrev pub modify : (S → S) → Exec S (Unit {0})
  modify f s = (ok tt, f s)

  -- An early `return Err` unless the test holds.
  abbrev pub ensure : Bool → TimbreError → Exec S (Unit {0})
  ensure true e s = (ok tt, s)
  ensure false e s = (err e, s)

module _ {ℓ} {S A B : Type ℓ} where
  abbrev pub continue : Result A × S → (A → Exec S B) → Result B × S
  continue (ok a, s) f = f a s
  continue (err e, s) f = (err e, s)
  continue (panic, s) f = (panic, s)

  infixl 5 ◌>>=◌ ◌>>◌
  abbrev pub ◌>>=◌ : Exec S A → (A → Exec S B) → Exec S B
  ◌>>=◌ m f s = continue (m s) f

  abbrev pub ◌>>◌ : Exec S A → Exec S B → Exec S B
  ◌>>◌ m n s = continue (m s) (λ _. n)

-- An action on a part of the state.
module _ {D S A : Type 0} where
  abbrev pub on_second : Exec S A → Exec (D × S) A
  on_second m (d, s) = let (r, s') = m s in (r, (d, s'))

  abbrev pub on_first : Exec D A → Exec (D × S) A
  on_first m (d, s) = let (r, d') = m d in (r, (d', s))

-- Parts of a result, for the lemmas below.
is_ok {ℓ} : {A : Type ℓ} → Result A → Bool
is_ok (ok a) = true
is_ok r = false

head_of {ℓ} : {A : Type ℓ} → A → Result (List A) → A
head_of d (ok (a ∷ l)) = a
head_of d r = d

tail_of {ℓ} : {A : Type ℓ} → Result (List A) → List A
tail_of (ok (a ∷ l)) = l
tail_of r = []

not_ok : ¬ (false ≡ true)
not_ok h = false≢true h

-- A client's loops: the same read `n` times, and one call for each value of a list.
module _ {S A : Type 0} where
  unfoldable pub reads : Exec S A → ℕ → Exec S (List A)
  reads m zero = pure []
  reads m (suc n) = do a ← m; rest ← reads m n; pure (a ∷ rest)

  pub reads-zero : (m : Exec S A) (s : S) → reads m 0 s ≡ (ok [], s)
  unfolding reads
  reads-zero m s = refl

  pub reads-suc :
      (m : Exec S A) (n : ℕ) {s t u : S} {a : A} {rest : List A}
      → m s ≡ (ok a, t)
      → reads m n t ≡ (ok rest, u)
      → reads m (suc n) s ≡ (ok (a ∷ rest), u)
  unfolding reads
  reads-suc m n h k = rw h (rw k)

  -- Where several reads succeed, the first of them does.
  pub reads-suc_first :
      (m : Exec S A) (n : ℕ) {s u : S} {a : A} {rest : List A}
      → reads m (suc n) s ≡ (ok (a ∷ rest), u)
      → (t : S) × (m s ≡ (ok a, t)) × (reads m n t ≡ (ok rest, u))
  unfolding reads head_of tail_of is_ok
  reads-suc_first m n {s} {u} {a} {rest} h = first (m s) refl
    where
      later :
          (a' : A) (t : S) (q : Result (List A) × S)
          → m s ≡ (ok a', t)
          → reads m n t ≡ q
          → (t : S) × (m s ≡ (ok a, t)) × (reads m n t ≡ (ok rest, u))
      later a' t (ok rest', u') e l =
          let same = rw (e, l) at h in
          (
            t,
            e ∙ ap (λ (x : A). (ok x, t)) (ap (λ p. head_of a' p.0) same),
            l
                ∙ ap₂ (λ (x : List A) (y : S). (ok x, y)) (ap (λ p. tail_of p.0) same)
                    (ap (λ p. p.1) same),
          )
      later a' t (err x, u') e l = absurd (not_ok (ap (λ p. is_ok p.0) (rw (e, l) at h)))
      later a' t (panic, u') e l = absurd (not_ok (ap (λ p. is_ok p.0) (rw (e, l) at h)))

      first :
          (r : Result A × S) → m s ≡ r → (t : S) × (m s ≡ (ok a, t)) × (reads m n t ≡ (ok rest, u))
      first (ok a', t) e = later a' t (reads m n t) e refl
      first (err x, t) e = absurd (not_ok (ap (λ p. is_ok p.0) (rw e at h)))
      first (panic, t) e = absurd (not_ok (ap (λ p. is_ok p.0) (rw e at h)))

  unfoldable pub for_each : (A → Exec S (Unit {0})) → List A → Exec S (Unit {0})
  for_each f [] = pure tt
  for_each f (a ∷ rest) = do f a; for_each f rest

-- One read for each member of a list, and what they give.
module _ {S B A : Type 0} where
  unfoldable pub traverse : (B → Exec S A) → List B → Exec S (List A)
  traverse f [] = pure []
  traverse f (b ∷ bs) = do a ← f b; rest ← traverse f bs; pure (a ∷ rest)

  pub traverse-step :
      (f : B → Exec S A) (b : B) (bs : List B) {s t u : S} {a : A} {rest : List A}
      → f b s ≡ (ok a, t)
      → traverse f bs t ≡ (ok rest, u)
      → traverse f (b ∷ bs) s ≡ (ok (a ∷ rest), u)
  unfolding traverse
  traverse-step f b bs h k = rw h (rw k)

-- Two actions and then a third.
module _ {S A B C : Type 0} where
  continue_assoc :
      (p : Result A × S) (n : Exec S B) (k : Exec S C)
      → continue p (λ _. n >> k) ≡ continue (continue p (λ _. n)) (λ _. k)
  continue_assoc (ok a, s) n k = refl
  continue_assoc (err e, s) n k = refl
  continue_assoc (panic, s) n k = refl

  pub then_both :
      (m : Exec S A) (n : Exec S B) (k : Exec S C) (s : S) {q : Result B × S}
      → (m >> n) s ≡ q
      → (m >> (n >> k)) s ≡ continue q (λ _. k)
  then_both m n k s h = continue_assoc (m s) n k ∙ ap (λ r. continue r (λ _. k)) h

-- A loop on the first part of a state.
module _ {D S : Type 0} where
  abbrev first_of : S → Result (Unit {0}) × D → Result (Unit {0}) × (D × S)
  first_of s p = (p.0, (p.1, s))

  first_of-continue :
      (s : S) (p : Result (Unit {0}) × D) (m : Exec (D × S) (Unit {0})) (n : Exec D (Unit {0}))
      → ((d : D) → m (d, s) ≡ first_of s (n d))
      → continue (first_of s p) (λ _. m) ≡ first_of s (continue p (λ _. n))
  first_of-continue s (ok u, d) m n same = same d
  first_of-continue s (err e, d) m n same = refl
  first_of-continue s (panic, d) m n same = refl

module _ {A D S : Type 0} where
  every_first :
      (f : A → Exec D (Unit {0})) (l : List A) (d : D) (s : S)
      → for_each (λ a. on_first (f a)) l (d, s) ≡ first_of s (for_each f l d)
  unfolding for_each
  every_first f [] d s = refl
  every_first f (a ∷ l) d s =
      first_of-continue s (f a d) (for_each (λ a. on_first (f a)) l) (for_each f l)
        (λ d'. every_first f l d' s)

  pub for_each-on_first :
      (f : A → Exec D (Unit {0})) (l : List A) (d d' : D) (s : S)
      → for_each f l d ≡ (ok tt, d')
      → for_each (λ a. on_first (f a)) l (d, s) ≡ (ok tt, (d', s))
  for_each-on_first f l d d' s h = every_first f l d s ∙ ap (first_of s) h

module _ {S A : Type 0} where
  pub reads-same :
      (m : Exec S A) (n : ℕ) (s t : S) → m s ≡ m t → reads m (suc n) s ≡ reads m (suc n) t
  unfolding reads
  reads-same m n s t h = ap (λ r. continue r (λ a. reads m n >>= λ rest. pure (a ∷ rest))) h
