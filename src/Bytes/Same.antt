-- ===== src/Bytes/Same.antt =====
-- `==` of strings.
use timbre_tsf.Prelude.{
  ℕ, ◌≡◌, refl, ap₂, arith, Bool, true, false, ◌&&◌, List, [], ◌∷◌, ◌==◌, ==_iff, &&→both,
}

unfoldable pub same_string : List ℕ → List ℕ → Bool
same_string [] [] = true
same_string [] (b ∷ t) = false
same_string (a ∷ s) [] = false
same_string (a ∷ s) (b ∷ t) = a == b && same_string s t

pub same_string→≡ : (s t : List ℕ) → same_string s t ≡ true → s ≡ t
unfolding same_string
same_string→≡ [] [] h = refl
same_string→≡ [] (b ∷ t) h = cc
same_string→≡ (a ∷ s) [] h = cc
same_string→≡ (a ∷ s) (b ∷ t) h =
    let (head, tail) = &&→both (a == b) (same_string s t) h in
    ap₂ ◌∷◌ ((==_iff a b).0 head) (same_string→≡ s t tail)

pub same_string_refl : (s : List ℕ) → same_string s s ≡ true
unfolding same_string
same_string_refl [] = refl
same_string_refl (a ∷ s) = ground (arith, same_string_refl s)
