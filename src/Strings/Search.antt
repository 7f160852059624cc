-- ===== src/Strings/Search.antt =====
-- What `find` finds, and how the occurrences of a pattern cut a string.
use learning_journey.Base.{
  ℕ, zero, suc, ◌+◌, ◌-◌, ◌≤◌, ◌<◌, ◌⊎◌, inl, inr, ◌≡◌, refl, sym, ◌∙◌, ap, ap₂, Bool, true, false,
  List, [], ◌∷◌, ◌++◌, Option, some, none, leb, if◌then◌else◌, arith, length, take, drop,
  append_assoc, length-take, some_injective,
}
use mathlib.Core.Path.{subst}
use learning_journey.Strings.{String, is_prefix, first, find, join, append_each}

module _ {ℓ} {A : Type ℓ} where
  pub length_rest : (n : ℕ) (xs : List A) → length (drop n xs) ≡ length xs - n
  length_rest zero xs = omega arith
  length_rest (suc n) [] = omega arith
  length_rest (suc n) (x ∷ xs) = omega (arith, length_rest n xs)

  drop_none : (n : ℕ) → drop {A = A} n [] ≡ []
  drop_none zero = refl
  drop_none (suc n) = refl

  pub drop-drop : (m n : ℕ) (xs : List A) → drop (m + n) xs ≡ drop n (drop m xs)
  drop-drop zero n xs = ap (λ k. drop k xs) (omega arith)
  drop-drop (suc m) n [] = drop_none (suc m + n) ∙ sym (drop_none n)
  drop-drop (suc m) n (x ∷ xs) =
      ap (λ k. drop k (x ∷ xs)) {x = suc m + n} {y = suc (m + n)} (omega arith) ∙ drop-drop m n xs

  pub drop-append : (xs ys : List A) → drop (length xs) (xs ++ ys) ≡ ys
  drop-append [] ys = refl
  drop-append (x ∷ xs) ys = drop-append xs ys

  pub length_front : (n : ℕ) (xs : List A) → n ≤ length xs → length (take n xs) ≡ n
  length_front n xs below = omega (arith, length-take n xs)

-- A pattern that stands at the front.
pub is_prefix-drop :
    (p s : String) → is_prefix p s ≡ true → (s ≡ p ++ drop (length p) s) × (length p ≤ length s)
is_prefix-drop [] s front = (refl, omega arith)
is_prefix-drop (x ∷ p) [] front = absurd (ground arith)
is_prefix-drop (x ∷ p) (y ∷ s) front =
    let same : y ≡ x = ground arith in
    let (rest, len) = is_prefix-drop p s (ground arith) in (ap₂ ◌∷◌ same rest, omega (arith, len))

-- The pattern stands at the front, or first after it.
choice :
    (b : Bool) (r : Option ℕ) (i : ℕ)
    → (if b then some 0 else elim r [ none ↦ none | some j ↦ some (suc j) ]) ≡ some i
    → ((b ≡ true) × (i ≡ 0)) ⊎ (b ≡ false) × (j : ℕ) × (r ≡ some j) × (i ≡ suc j)
choice true r i found = inl (refl, sym (some_injective found))
choice false none i found = absurd (cc)
choice false (some j) i found = inr (refl, j, refl, sym (some_injective found))

pub first-cases :
    (p : String) (x : ℕ) (s : String) (i : ℕ)
    → first p (x ∷ s) ≡ some i
    → ((is_prefix p (x ∷ s) ≡ true) × (i ≡ 0))
      ⊎ (is_prefix p (x ∷ s) ≡ false) × (j : ℕ) × (first p s ≡ some j) × (i ≡ suc j)
unfolding first
first-cases p x s i found = choice (is_prefix p (x ∷ s)) (first p s) i found

pub first_at_end : (p : String) (i : ℕ) → first p [] ≡ some i → (is_prefix p [] ≡ true) × (i ≡ 0)
unfolding first
first_at_end [] i found = (refl, sym (some_injective found))
first_at_end (x ∷ p) i found = absurd (cc)

-- Where the pattern first stands, the string is what is before, the pattern and the rest.
pub first-split :
    (p s : String) (i : ℕ)
    → first p s ≡ some i
    → (s ≡ take i s ++ (p ++ drop (i + length p) s)) × (i + length p ≤ length s)
first-split p [] i found =
    let (front, zero_i) = first_at_end p i found in
    let (whole, len) = is_prefix-drop p [] front in
    (
      subst (λ i. [] ≡ take i [] ++ (p ++ drop (i + length p) [])) (sym zero_i)
          (whole ∙ ap (λ k. p ++ drop k []) {x = length p} (omega arith)),
      omega (arith, len, zero_i),
    )
first-split p (x ∷ s) i found = elim (first-cases p x s i found) [
  | inl (front, zero_i) ↦
      let (whole, len) = is_prefix-drop p (x ∷ s) front in
      (
        subst (λ i. x ∷ s ≡ take i (x ∷ s) ++ (p ++ drop (i + length p) (x ∷ s))) (sym zero_i)
            (whole ∙ ap (λ k. p ++ drop k (x ∷ s)) {x = length p} (omega arith)),
        omega (arith, len, zero_i),
      )
  | inr (_, j, found_j, suc_i) ↦
      let (whole, len) = first-split p s j found_j in
      (
        subst (λ i. x ∷ s ≡ take i (x ∷ s) ++ (p ++ drop (i + length p) (x ∷ s))) (sym suc_i)
            (ap (λ l. x ∷ l) whole
              ∙ ap (λ k. x ∷ (take j s ++ (p ++ drop k (x ∷ s)))) {x = suc (j + length p)}
                  (omega arith)),
        omega (arith, len, suc_i),
      )
]

-- `find` looks for the pattern in what is left of the string.
pub leb_true : (m n : ℕ) → m ≤ n → leb m n ≡ true
leb_true m n below = ground arith

pub leb_false : (m n : ℕ) → n < m → leb m n ≡ false
leb_false m n past = ground arith

pub find-first :
    (s p : String) (pos : ℕ) (r : Option ℕ)
    → pos ≤ length s
    → first p (drop pos s) ≡ r
    → find s p pos ≡ elim r [ none ↦ none | some i ↦ some (pos + i) ]
unfolding find
find-first s p pos r below found = rw (leb_true pos (length s) below, found, find) refl

pub find_past : (s p : String) (pos : ℕ) → length s < pos → find s p pos ≡ none
unfolding find
find_past s p pos past = rw (leb_false pos (length s) past, find) refl

-- The pieces of a string that end in front of a pattern, found from left to right, and the last.
abbrev pub Cut : String → String → List String → String → Type 0
Cut p s [] last = (s ≡ last) × (first p s ≡ none)
Cut p s (a ∷ pieces) last =
    (first p s ≡ some (length a))
    × (rest : String) × (s ≡ a ++ (p ++ rest))
    × Cut p rest pieces last

abbrev pub between : String → List String → String → String
between sep [] last = last
between sep (a ∷ pieces) last = a ++ (sep ++ between sep pieces last)

each-between :
    (sep a : String) (pieces : List String) (last : String)
    → append_each (pieces ++ (last ∷ [])) sep a ≡ a ++ (sep ++ between sep pieces last)
each-between sep a [] last = refl
each-between sep a (b ∷ pieces) last =
    each-between sep (a ++ (sep ++ b)) pieces last
    ∙ append_assoc a (sep ++ b) (sep ++ between sep pieces last)
    ∙ ap (λ l. a ++ l) (append_assoc sep b (sep ++ between sep pieces last))

pub join-between :
    (sep : String) (pieces : List String) (last : String)
    → join (pieces ++ (last ∷ [])) sep ≡ between sep pieces last
unfolding join
join-between sep [] last = refl
join-between sep (a ∷ pieces) last = each-between sep a pieces last

pub between-Cut :
    (p s : String) (pieces : List String) (last : String)
    → Cut p s pieces last
    → between p pieces last ≡ s
between-Cut p s [] last (whole, _) = sym whole
between-Cut p s (a ∷ pieces) last (_, rest, split, cut) =
    ap (λ l. a ++ (p ++ l)) (between-Cut p rest pieces last cut) ∙ sym split
