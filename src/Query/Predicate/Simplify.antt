-- ===== src/Query/Predicate/Simplify.antt =====
-- `simplify` of predicate.rs ends, makes no predicate larger and keeps what it selects.
use timbre_tsf.Prelude.{
  ℕ, zero, suc, ◌+◌, ◌≤◌, ◌≡◌, refl, sym, ap, ◌∙◌, arith, Bool, true, false, not, ◌&&◌, ◌||◌,
  Option, some, List,
}
use timbre_tsf.Common.Types.{TsValue}
use timbre_tsf.Query.Predicate.{
  Predicate, Predicates, evaluate, evaluate_all, evaluate_any, extend, flatten_and, flatten_or,
  simplify_each, as_all, as_any, negate_simplified, simplify, size, size_all,
}
use timbre_tsf.Query.Predicate.Predicate.{time, value, all_of, any_of, not_of}
use timbre_tsf.Query.Predicate.Predicates.{nil, cons}

and_assoc : (a b c : Bool) → ((a && b) && c) ≡ (a && (b && c))
and_assoc true b c = refl
and_assoc false b c = refl

or_assoc : (a b c : Bool) → ((a || b) || c) ≡ (a || (b || c))
or_assoc true b c = refl
or_assoc false b c = refl

and_true : (a : Bool) → a ≡ (a && true)
and_true true = refl
and_true false = refl

or_false : (a : Bool) → a ≡ (a || false)
or_false true = refl
or_false false = refl

not_flip : (a b : Bool) → not a ≡ b → a ≡ not b
not_flip true b h = ap not h
not_flip false b h = ap not h

size-pos : (p : Predicate) → 1 ≤ size p
unfolding size
size-pos (time filter) = omega arith
size-pos (value name filter) = omega arith
size-pos (all_of ps) = omega arith
size-pos (any_of ps) = omega arith
size-pos (not_of p) = omega arith

size_all-extend : (ps qs : Predicates) → size_all (extend ps qs) ≡ size_all ps + size_all qs
unfolding size extend
size_all-extend nil qs = omega arith
size_all-extend (cons p ps) qs = omega (arith, size_all-extend ps qs)

size_all-flatten_and :
    (p : Predicate) (rest : Predicates) → size_all (flatten_and p rest) ≤ size p + size_all rest
unfolding size flatten_and
size_all-flatten_and (all_of inner) rest = omega (arith, size_all-extend inner rest)
size_all-flatten_and _ rest = omega arith

size_all-flatten_or :
    (p : Predicate) (rest : Predicates) → size_all (flatten_or p rest) ≤ size p + size_all rest
unfolding size flatten_or
size_all-flatten_or (any_of inner) rest = omega (arith, size_all-extend inner rest)
size_all-flatten_or _ rest = omega arith

module _ (timestamp : ℕ) (values : List (List ℕ × Option TsValue)) where
  evaluate_all-extend :
      (ps qs : Predicates)
      → evaluate_all timestamp values (extend ps qs)
        ≡ (evaluate_all timestamp values ps && evaluate_all timestamp values qs)
  unfolding evaluate extend
  evaluate_all-extend nil qs = refl
  evaluate_all-extend (cons p ps) qs = rw (evaluate_all-extend ps qs) (
      sym (
        and_assoc (evaluate timestamp values p) (evaluate_all timestamp values ps)
          (evaluate_all timestamp values qs)))

  evaluate_any-extend :
      (ps qs : Predicates)
      → evaluate_any timestamp values (extend ps qs)
        ≡ (evaluate_any timestamp values ps || evaluate_any timestamp values qs)
  unfolding evaluate extend
  evaluate_any-extend nil qs = refl
  evaluate_any-extend (cons p ps) qs = rw (evaluate_any-extend ps qs) (
      sym (
        or_assoc (evaluate timestamp values p) (evaluate_any timestamp values ps)
          (evaluate_any timestamp values qs)))

  evaluate_all-flatten_and :
      (p : Predicate) (rest : Predicates)
      → evaluate_all timestamp values (flatten_and p rest)
        ≡ (evaluate timestamp values p && evaluate_all timestamp values rest)
  unfolding evaluate flatten_and
  evaluate_all-flatten_and (all_of inner) rest = evaluate_all-extend inner rest
  evaluate_all-flatten_and _ rest = refl

  evaluate_any-flatten_or :
      (p : Predicate) (rest : Predicates)
      → evaluate_any timestamp values (flatten_or p rest)
        ≡ (evaluate timestamp values p || evaluate_any timestamp values rest)
  unfolding evaluate flatten_or
  evaluate_any-flatten_or (any_of inner) rest = evaluate_any-extend inner rest
  evaluate_any-flatten_or _ rest = refl

  -- A result that selects the same and is no larger.
  abbrev IsSimplified : Predicate → Option Predicate → Type 0
  IsSimplified p o =
      (q : Predicate) × (o ≡ some q)
      × (size q ≤ size p)
      × (evaluate timestamp values q ≡ evaluate timestamp values p)

  module _ (f : Predicate → Option Predicate) (n : ℕ)
      (good : (p : Predicate) → size p ≤ n → IsSimplified p (f p)) where
    each_and :
        (ps : Predicates)
        → size_all ps ≤ n
        → (qs : Predicates) × (simplify_each f flatten_and ps ≡ some qs)
          × (size_all qs ≤ size_all ps)
          × (evaluate_all timestamp values qs ≡ evaluate_all timestamp values ps)
    unfolding simplify_each evaluate size
    each_and nil h = (nil, refl, omega arith, refl)
    each_and (cons p ps) h =
        let (q, found, small, same) = good p (omega arith) in
        let (qs, founds, smalls, sames) = each_and ps (omega arith) in
        (
          flatten_and q qs,
          rw (found, simplify_each, founds),
          omega (arith, size_all-flatten_and q qs),
          evaluate_all-flatten_and q qs ∙ rw (same, sames),
        )

    each_or :
        (ps : Predicates)
        → size_all ps ≤ n
        → (qs : Predicates) × (simplify_each f flatten_or ps ≡ some qs)
          × (size_all qs ≤ size_all ps)
          × (evaluate_any timestamp values qs ≡ evaluate_any timestamp values ps)
    unfolding simplify_each evaluate size
    each_or nil h = (nil, refl, omega arith, refl)
    each_or (cons p ps) h =
        let (q, found, small, same) = good p (omega arith) in
        let (qs, founds, smalls, sames) = each_or ps (omega arith) in
        (
          flatten_or q qs,
          rw (found, simplify_each, founds),
          omega (arith, size_all-flatten_or q qs),
          evaluate_any-flatten_or q qs ∙ rw (same, sames),
        )

    negated :
        (p q : Predicate)
        → size p ≤ n
        → size q ≤ size p
        → evaluate timestamp values q ≡ evaluate timestamp values p
        → IsSimplified (not_of p) (negate_simplified f (some q))
    unfolding negate_simplified evaluate size
    negated p (not_of d) h small same =
        let (q, found, less, equal) = good d (omega arith) in
        (
          q,
          found,
          omega arith,
          equal ∙ not_flip (evaluate timestamp values d) (evaluate timestamp values p) same,
        )
    negated p q h small same = (not_of q, refl, omega arith, ap not same)

  simplify_within : (n : ℕ) (p : Predicate) → size p ≤ n → IsSimplified p (simplify n p)
  unfolding simplify size evaluate as_all as_any
  simplify_within zero p h = absurd (omega (arith, size-pos p))
  simplify_within (suc n) (time filter) h = (time filter, refl, omega arith, refl)
  simplify_within (suc n) (value name filter) h = (value name filter, refl, omega arith, refl)
  simplify_within (suc n) (all_of nil) h = (all_of nil, refl, omega arith, refl)
  simplify_within (suc n) (all_of (cons p nil)) h =
      let (q, found, small, same) = simplify_within n p (omega arith) in
      (q, found, omega arith, same ∙ and_true (evaluate timestamp values p))
  simplify_within (suc n) (all_of (cons p (cons q ps))) h =
      let (qs, found, small, same) =
        each_and (simplify n) n (simplify_within n) (cons p (cons q ps)) (omega arith) in
      (all_of qs, ap as_all found, omega arith, same)
  simplify_within (suc n) (any_of nil) h = (any_of nil, refl, omega arith, refl)
  simplify_within (suc n) (any_of (cons p nil)) h =
      let (q, found, small, same) = simplify_within n p (omega arith) in
      (q, found, omega arith, same ∙ or_false (evaluate timestamp values p))
  simplify_within (suc n) (any_of (cons p (cons q ps))) h =
      let (qs, found, small, same) =
        each_or (simplify n) n (simplify_within n) (cons p (cons q ps)) (omega arith) in
      (any_of qs, ap as_any found, omega arith, same)
  simplify_within (suc n) (not_of p) h =
      let (q, found, small, same) = simplify_within n p (omega arith) in
      rw found (negated (simplify n) n (simplify_within n) p q (omega arith) small same)

-- With as much fuel as a predicate has nodes, `simplify` returns a predicate that has no more nodes
-- and selects the same rows.
pub simplify_lem :
    (timestamp : ℕ) (values : List (List ℕ × Option TsValue)) (n : ℕ) (p : Predicate)
    → size p ≤ n
    → (q : Predicate) × (simplify n p ≡ some q)
      × (size q ≤ size p)
      × (evaluate timestamp values q ≡ evaluate timestamp values p)
simplify_lem timestamp values n p h = simplify_within timestamp values n p h
