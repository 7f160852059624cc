-- ===== src/Types/Varlen/Lexical.antt =====
-- VARCHARs are compared in lexicographic order.
use learning_journey.Base.{
  ℕ, suc, ◌<◌, ◌≡◌, ◌⊎◌, refl, sym, ◌∙◌, ap, inl, inr, Bool, List, [], ◌∷◌, ok, ltb, ◌==◌,
  if◌then◌else◌, arith, length,
}
use native.Mathlib.Decide.{dec_lt}
use mathlib.Core.Path.{subst}
use learning_journey.Types.{Library, cmp_true, cmp_false, get_cmp_bool, new_varchar, comparable}
use learning_journey.Types.Varlen.{
  Sign, below, same, above, compare_memory, compare_strings, to_varchar, compare, compare_equals,
  compare_less_than, compare_greater_than, is_zero, negative, positive,
}

-- After what they have in common the first string ends or has the lesser character.
abbrev pub Before : List ℕ → List ℕ → Type 0
Before xs [] = ⊥
Before [] (y ∷ ys) = Unit
Before (x ∷ xs) (y ∷ ys) = (x < y) ⊎ (x ≡ y) × Before xs ys

abbrev Compared : List ℕ → List ℕ → Sign → Type 0
Compared xs ys below = Before xs ys
Compared xs ys same = xs ≡ ys
Compared xs ys above = Before ys xs

Compared-next :
    (x : ℕ) (xs ys : List ℕ) (s : Sign) → Compared xs ys s → Compared (x ∷ xs) (x ∷ ys) s
Compared-next x xs ys below c = inr (refl, c)
Compared-next x xs ys same c = ap (λ l. x ∷ l) c
Compared-next x xs ys above c = inr (refl, c)

-- The first characters, and the rest where they agree.
memory_next :
    (x y : ℕ) (xs ys : List ℕ)
    → ((x < y) × (compare_memory (x ∷ xs) (y ∷ ys) ≡ below))
      ⊎ ((y < x) × (compare_memory (x ∷ xs) (y ∷ ys) ≡ above))
      ⊎ (x ≡ y) × (compare_memory (x ∷ xs) (y ∷ ys) ≡ compare_memory xs ys)
unfolding compare_memory
memory_next x y xs ys = elim (dec_lt x y) [
  | yes lt ↦ inl (lt, ground arith)
  | no not_lt ↦ elim (dec_lt y x) [
    | yes gt ↦ inr (inl (gt, ground arith))
    | no not_gt ↦ inr (inr (omega arith, ground arith))
  ]
]

strings_of :
    (xs ys : List ℕ) (s : Sign)
    → compare_memory xs ys ≡ s
    → compare_strings xs ys ≡ elim s [
      | below ↦ below
      | above ↦ above
      | same ↦
          if length xs == length ys
          then same
          else if ltb (length xs) (length ys)
          then below
          else above
    ]
unfolding compare_strings
strings_of xs ys s e = rw (e, compare_strings) refl

lengths_next :
    (m n : ℕ)
    → (if suc m == suc n then same else if ltb (suc m) (suc n) then below else above)
      ≡ (if m == n then same else if ltb m n then below else above)
lengths_next m n = ground arith

strings_next :
    (x y : ℕ) (xs ys : List ℕ) (s : Sign)
    → compare_memory (x ∷ xs) (y ∷ ys) ≡ s
    → compare_memory xs ys ≡ s
    → compare_strings (x ∷ xs) (y ∷ ys) ≡ compare_strings xs ys
strings_next x y xs ys below e g =
    strings_of (x ∷ xs) (y ∷ ys) below e ∙ sym (strings_of xs ys below g)
strings_next x y xs ys above e g =
    strings_of (x ∷ xs) (y ∷ ys) above e ∙ sym (strings_of xs ys above g)
strings_next x y xs ys same e g =
    strings_of (x ∷ xs) (y ∷ ys) same e
    ∙ lengths_next (length xs) (length ys)
    ∙ sym (strings_of xs ys same g)

pub compare_strings-Compared : (xs ys : List ℕ) → Compared xs ys (compare_strings xs ys)
unfolding compare_memory
compare_strings-Compared [] [] =
    let equal : compare_strings [] [] ≡ same = strings_of [] [] same refl ∙ ground arith in
    subst (Compared [] []) (sym equal) refl
compare_strings-Compared [] (y ∷ ys) =
    let less : compare_strings [] (y ∷ ys) ≡ below =
      strings_of [] (y ∷ ys) same refl ∙ ground arith in
    subst (Compared [] (y ∷ ys)) (sym less) tt
compare_strings-Compared (x ∷ xs) [] =
    let more : compare_strings (x ∷ xs) [] ≡ above =
      strings_of (x ∷ xs) [] same refl ∙ ground arith in
    subst (Compared (x ∷ xs) []) (sym more) tt
compare_strings-Compared (x ∷ xs) (y ∷ ys) = elim (memory_next x y xs ys) [
  | inl (lt, e) ↦
      subst (Compared (x ∷ xs) (y ∷ ys)) (sym (strings_of (x ∷ xs) (y ∷ ys) below e)) (inl lt)
  | inr (inl (gt, e)) ↦
      subst (Compared (x ∷ xs) (y ∷ ys)) (sym (strings_of (x ∷ xs) (y ∷ ys) above e)) (inl gt)
  | inr (inr (eq, e)) ↦
      subst (λ y. Compared (x ∷ xs) (y ∷ ys) (compare_strings (x ∷ xs) (y ∷ ys))) eq
        (subst (Compared (x ∷ xs) (x ∷ ys))
          (sym (
            strings_next x x xs ys (compare_memory xs ys)
              (subst (λ z. compare_memory (x ∷ xs) (z ∷ ys) ≡ compare_memory xs ys) (sym eq) e)
              refl))
          (Compared-next x xs ys (compare_strings xs ys) (compare_strings-Compared xs ys)))
]

module _ {D : Type 0} (lib : Library D) (xs ys : List ℕ) where
  compare-sign :
      (op : Sign → Bool)
      → compare lib op (new_varchar lib xs) (new_varchar lib ys)
        ≡ ok (get_cmp_bool (op (compare_strings xs ys)))
  unfolding compare to_varchar new_varchar comparable
  compare-sign op = refl

  answered :
      (op : Sign → Bool) (s : Sign)
      → compare_strings xs ys ≡ s
      → compare lib op (new_varchar lib xs) (new_varchar lib ys) ≡ ok (get_cmp_bool (op s))
  answered op s e = compare-sign op ∙ ap (λ s. ok (get_cmp_bool (op s))) e

  answers :
      (s : Sign)
      → Compared xs ys s
      → compare_strings xs ys ≡ s
      → ((xs ≡ ys)
          × (compare lib is_zero (new_varchar lib xs) (new_varchar lib ys) ≡ ok cmp_true)
          × (compare lib negative (new_varchar lib xs) (new_varchar lib ys) ≡ ok cmp_false)
          × (compare lib positive (new_varchar lib xs) (new_varchar lib ys) ≡ ok cmp_false))
        ⊎ (Before xs ys
            × (compare lib is_zero (new_varchar lib xs) (new_varchar lib ys) ≡ ok cmp_false)
            × (compare lib negative (new_varchar lib xs) (new_varchar lib ys) ≡ ok cmp_true)
            × (compare lib positive (new_varchar lib xs) (new_varchar lib ys) ≡ ok cmp_false))
        ⊎ Before ys xs
          × (compare lib is_zero (new_varchar lib xs) (new_varchar lib ys) ≡ ok cmp_false)
          × (compare lib negative (new_varchar lib xs) (new_varchar lib ys) ≡ ok cmp_false)
          × (compare lib positive (new_varchar lib xs) (new_varchar lib ys) ≡ ok cmp_true)
  answers below c e =
      inr (inl (c, answered is_zero below e, answered negative below e, answered positive below e))
  answers same c e =
      inl (c, answered is_zero same e, answered negative same e, answered positive same e)
  answers above c e =
      inr (inr (c, answered is_zero above e, answered negative above e, answered positive above e))

  -- Of two strings that are not NULL exactly one comes first in lexicographic order, or they are
  -- equal, and the comparisons of VARCHAR answer which.
  pub compare-Before :
      ((xs ≡ ys)
        × (compare_equals lib (new_varchar lib xs) (new_varchar lib ys) ≡ ok cmp_true)
        × (compare_less_than lib (new_varchar lib xs) (new_varchar lib ys) ≡ ok cmp_false)
        × (compare_greater_than lib (new_varchar lib xs) (new_varchar lib ys) ≡ ok cmp_false))
      ⊎ (Before xs ys
          × (compare_equals lib (new_varchar lib xs) (new_varchar lib ys) ≡ ok cmp_false)
          × (compare_less_than lib (new_varchar lib xs) (new_varchar lib ys) ≡ ok cmp_true)
          × (compare_greater_than lib (new_varchar lib xs) (new_varchar lib ys) ≡ ok cmp_false))
      ⊎ Before ys xs
        × (compare_equals lib (new_varchar lib xs) (new_varchar lib ys) ≡ ok cmp_false)
        × (compare_less_than lib (new_varchar lib xs) (new_varchar lib ys) ≡ ok cmp_false)
        × (compare_greater_than lib (new_varchar lib xs) (new_varchar lib ys) ≡ ok cmp_true)
  unfolding compare_equals compare_less_than compare_greater_than
  compare-Before = answers (compare_strings xs ys) (compare_strings-Compared xs ys) refl
