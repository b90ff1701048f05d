-- ===== src/File/GlobalDictionary/Intern.antt =====
-- What `intern`, `get_id` and `get_string` of file/dictionary.rs promise.
use timbre_tsf.Prelude.{
  ℕ, zero, suc, ◌+◌, ◌^◌, ◌<◌, ◌≡◌, false, refl, sym, ap₂, ◌∙◌, arith, none, some, List, [], ◌∷◌,
  ◌++◌, length, All-append, append-nil, append_assoc, get_elem?, Bool-cases, Option-cases, inl, inr,
  length-append, if◌then◌else◌, ◌==◌, ap, ◌⊎◌,
}
use timbre_tsf.Words.{wrapping_add}
use timbre_tsf.Bytes.Same.{same_string, same_string→≡, same_string_refl}
use timbre_tsf.File.GlobalDictionary.{GlobalDictionary, get, insert, intern, get_id, get_string}
use timbre_tsf.File.GlobalDictionary.Stored.{index_from, IsString, IsDictionary}

-- A map whose ids are the places of their strings in a list.
Agrees : List (List ℕ × ℕ) → List (List ℕ) → Type 0
Agrees map strings = (s : List ℕ) (id : ℕ) → get map s ≡ some id → get_elem? strings id ≡ some s

index_from-append :
    (strings : List (List ℕ)) (id : ℕ) (map : List (List ℕ × ℕ)) (s : List ℕ)
    → index_from id (strings ++ s ∷ []) map
      ≡ insert s (id + length strings) (index_from id strings map)
unfolding index_from
index_from-append [] id map s = let first : id + 0 ≡ id = omega arith in rw first
index_from-append (t ∷ strings) id map s =
    let place : id + 1 + length strings ≡ id + suc (length strings) = omega arith in
    rw place at (index_from-append strings (id + 1) (insert t id map) s)

get_elem?-append_left :
    (xs ys : List (List ℕ)) (n : ℕ) (s : List ℕ)
    → get_elem? xs n ≡ some s
    → get_elem? (xs ++ ys) n ≡ some s
get_elem?-append_left [] ys n s h = cc
get_elem?-append_left (x ∷ xs) ys zero s h = h
get_elem?-append_left (x ∷ xs) ys (suc n) s h = get_elem?-append_left xs ys n s h

get_elem?-append_length :
    (xs ys : List (List ℕ)) (s : List ℕ) → get_elem? (xs ++ s ∷ ys) (length xs) ≡ some s
get_elem?-append_length [] ys s = refl
get_elem?-append_length (x ∷ xs) ys s = get_elem?-append_length xs ys s

insert-Agrees :
    (map : List (List ℕ × ℕ)) (before : List (List ℕ)) (t : List ℕ)
    → Agrees map before
    → Agrees (insert t (length before) map) (before ++ t ∷ [])
unfolding Agrees get
insert-Agrees map before t agrees s id h = elim (Bool-cases (same_string t s)) [
  | inl same ↦
      let here : some (length before) ≡ some id = rw same at h in
      let place : length before ≡ id = cc in
      rw (← place, ← same_string→≡ t s same) (get_elem?-append_length before [] t)
  | inr other ↦ get_elem?-append_left before (t ∷ []) id s (agrees s id (rw other at h))
]

index_from-Agrees :
    (strings : List (List ℕ)) (map : List (List ℕ × ℕ)) (before : List (List ℕ))
    → Agrees map before
    → Agrees (index_from (length before) strings map) (before ++ strings)
unfolding index_from
index_from-Agrees [] map before agrees = rw (append-nil before) agrees
index_from-Agrees (t ∷ strings) map before agrees =
    let next : length (before ++ t ∷ []) ≡ length before + 1 = length-append before (t ∷ []) in
    rw (next, append_assoc before) at
      (index_from-Agrees strings (insert t (length before) map) (before ++ t ∷ [])
        (insert-Agrees map before t agrees))

nothing-Agrees : Agrees [] []
unfolding Agrees get
nothing-Agrees s id h = cc

-- In a dictionary whose map and list agree, an id that `get_id` gives for a string is the id at
-- which `get_string` finds the string.
get_string-get_id :
    (d : GlobalDictionary) (s : List ℕ) (id : ℕ)
    → IsDictionary d
    → get_id s d ≡ some id
    → get_string id d ≡ some s
unfolding Agrees get_id get_string
get_string-get_id d s id is h =
    index_from-Agrees d.id_to_string [] [] nothing-Agrees s id (rw is.map at h)

-- The dictionary with one string more.
abbrev added : List ℕ → GlobalDictionary → GlobalDictionary
added s d = record {
  string_to_id = insert s d.next_id d.string_to_id;
  id_to_string = d.id_to_string ++ s ∷ [];
  next_id = wrapping_add 32 d.next_id 1;
}

intern-known :
    (s : List ℕ) (d : GlobalDictionary) (id : ℕ)
    → get d.string_to_id s ≡ some id
    → intern s d ≡ (id, d)
unfolding intern
intern-known s d id known = rw (known, intern)

intern-fresh :
    (s : List ℕ) (d : GlobalDictionary)
    → get d.string_to_id s ≡ none
    → intern s d ≡ (d.next_id, added s d)
unfolding intern
intern-fresh s d fresh = rw (fresh, intern)

added-IsDictionary :
    (s : List ℕ) (d : GlobalDictionary)
    → IsDictionary d
    → IsString s
    → length d.id_to_string + 1 < 2 ^ 32
    → IsDictionary (added s d)
added-IsDictionary s d is string room =
    let size = length-append d.id_to_string (s ∷ []) in
    let place : 0 + length d.id_to_string ≡ length d.id_to_string = omega arith in
    record {
      map =
          ap₂ (λ (id : ℕ) (map : List (List ℕ × ℕ)). insert s id map) is.next is.map
          ∙ sym (rw place at (index_from-append d.id_to_string 0 [] s));
      next = omega (arith, size, is.next);
      count = omega (arith, size);
      strings = All-append IsString d.id_to_string (s ∷ []) is.strings (string, tt);
    }

get-insert : (s : List ℕ) (id : ℕ) (map : List (List ℕ × ℕ)) → get (insert s id map) s ≡ some id
unfolding get
get-insert s id map = rw (same_string_refl s)

-- A list with one element more, at its own place and at every other.
get_elem?-added :
    (xs : List (List ℕ)) (s : List ℕ) (n : ℕ)
    → get_elem? (xs ++ s ∷ []) n ≡ (if n == length xs then some s else get_elem? xs n)
get_elem?-added [] s zero = refl
get_elem?-added [] s (suc n) = let later : (suc n == 0) ≡ false = ground arith in rw later refl
get_elem?-added (x ∷ xs) s zero =
    let first : (0 == suc (length xs)) ≡ false = ground arith in rw first refl
get_elem?-added (x ∷ xs) s (suc n) =
    let later : (suc n == suc (length xs)) ≡ (n == length xs) = ground arith in
    rw later (get_elem?-added xs s n)

get_elem?-length : (xs : List (List ℕ)) → get_elem? xs (length xs) ≡ none
get_elem?-length [] = refl
get_elem?-length (x ∷ xs) = get_elem?-length xs

-- A list that has the element already.
get_elem?-held :
    (xs : List (List ℕ)) (s : List ℕ) (id n : ℕ)
    → get_elem? xs id ≡ some s
    → get_elem? xs n ≡ (if n == id then some s else get_elem? xs n)
get_elem?-held xs s id n held = elim (Bool-cases (n == id)) [
  | inl same ↦ let place : n ≡ id = ground arith in rw same (ap (get_elem? xs) place ∙ held)
  | inr other ↦ rw other refl
]

-- Interning a string in a dictionary whose map and list agree, with room for one more: the
-- dictionary after it is again one whose map and list agree, both lookups relate the string and
-- the id given, every id but this one names what it named before, and either the dictionary is as
-- it was or the string and the id were unused and there is one string more.
pub intern_lem :
    (s : List ℕ) (d : GlobalDictionary) (n : ℕ)
    → IsDictionary d
    → IsString s
    → length d.id_to_string + 1 < 2 ^ 32
    → let (id, d') = intern s d in
      IsDictionary d'
      × (get_id s d' ≡ some id)
      × (get_string id d' ≡ some s)
      × (get_string n d' ≡ (if n == id then some s else get_string n d))
      × ((d' ≡ d)
          ⊎ ((get_id s d ≡ none)
              × (get_string id d ≡ none)
              × (length d'.id_to_string ≡ length d.id_to_string + 1)))
unfolding get_id get_string
intern_lem s d n is string room = elim (Option-cases (get d.string_to_id s)) [
  | inl fresh ↦
      let size = length-append d.id_to_string (s ∷ []) in
      rw (intern-fresh s d fresh) (
        added-IsDictionary s d is string room,
        get-insert s d.next_id d.string_to_id,
        rw is.next (get_elem?-append_length d.id_to_string [] s),
        rw is.next (get_elem?-added d.id_to_string s n),
        inr (fresh, rw is.next (get_elem?-length d.id_to_string), size),
      )
  | inr (id, known) ↦
      let held = get_string-get_id d s id is known in
      rw (intern-known s d id known)
        (is, known, held, get_elem?-held d.id_to_string s id n held, inl refl)
]
