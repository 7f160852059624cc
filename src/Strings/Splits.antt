-- ===== src/Strings/Splits.antt =====
-- `Split` by a string.
use learning_journey.Base.{
  ℕ, zero, suc, ◌+◌, ◌-◌, ◌≤◌, ◌<◌, ◌≡◌, refl, sym, ◌∙◌, ap, inl, inr, List, [], ◌∷◌, ◌++◌, Option,
  some, none, ok, throw, out_of_fuel, ◌>>=◌, Option-cases, arith, length, take, take-all, drop,
  bind_then,
}
use learning_journey.Strings.{String, first, find, push, found_or, split_loop, split_string}
use learning_journey.Strings.Search.{
  length_rest, drop-drop, length_front, first-split, find-first, Cut, leb_true, leb_false,
}

abbrev pub non_empty : List String → List String
non_empty [] = []
non_empty (s ∷ splits) = push s (non_empty splits)

-- A round at `last`, where `next` is found.
split_round :
    (fuel : ℕ) (input split : String) (last : ℕ) (r : Option ℕ)
    → last ≤ length input
    → find input split last ≡ r
    → split_loop (suc fuel) input split last
      ≡ split_loop fuel input split (found_or r (length input) + length split)
        >>= (λ splits. ok (push (take (found_or r (length input) - last) (drop last input)) splits))
unfolding split_loop
split_round fuel input split last r below found =
    rw (leb_true last (length input) below, found, split_loop) refl

split_past :
    (fuel : ℕ) (input split : String) (last : ℕ)
    → length input < last
    → split_loop (suc fuel) input split last ≡ ok []
unfolding split_loop
split_past fuel input split last past = rw (leb_false last (length input) past, split_loop) refl

abbrev SplitFrom : ℕ → String → String → ℕ → String → Type 0
SplitFrom fuel input split last left =
    (pieces : List String) × (end_piece : String) × Cut split left pieces end_piece
    × (split_loop fuel input split last ≡ ok (non_empty (pieces ++ (end_piece ∷ []))))

split_last :
    (fuel : ℕ) (input split : String) (last : ℕ)
    → 0 < length split
    → last ≤ length input
    → first split (drop last input) ≡ none
    → SplitFrom (suc (suc fuel)) input split last (drop last input)
split_last fuel input split last some_split below missing = (
  [],
  drop last input,
  (refl, missing),
  split_round (suc fuel) input split last none below
        (find-first input split last none below missing)
      ∙ bind_then (split_loop (suc fuel) input split (length input + length split)) _
          (split_past fuel input split (length input + length split) (omega arith))
          (ap (λ s. ok (push s []))
            (take-all (length input - last) (drop last input)
              (omega (arith, length_rest last input)))),
)

split_from :
    (fuel : ℕ) (input split : String) (last : ℕ)
    → 0 < length split
    → last ≤ length input
    → suc (length input) < fuel + last
    → SplitFrom fuel input split last (drop last input)
split_from zero input split last some_split below enough = absurd (omega arith)
split_from (suc zero) input split last some_split below enough = absurd (omega arith)
split_from (suc (suc fuel)) input split last some_split below enough =
    elim (Option-cases (first split (drop last input))) [
      | inl missing ↦ split_last fuel input split last some_split below missing
      | inr (i, found) ↦
          let left = drop last input in
          let (whole, len) = first-split split left i found in
          let next = last + i + length split in
          let rest = drop next input in
          let next_below : next ≤ length input = omega (arith, length_rest last input, len) in
          let (pieces, end_piece, cut, run) =
            split_from (suc fuel) input split next some_split next_below (omega arith) in
          let at_rest : drop (i + length split) left ≡ rest = sym (
            ap (λ k. drop k input) {y = last + (i + length split)} (omega arith)
            ∙ drop-drop last (i + length split) input) in
          let in_left : i ≤ length left = omega (arith, len) in
          (
            take i left ∷ pieces,
            end_piece,
            (
              found ∙ ap some (sym (length_front i left in_left)),
              rest,
              whole ∙ ap (λ l. take i left ++ (split ++ l)) at_rest,
              cut,
            ),
            split_round (suc fuel) input split last (some (last + i)) below
                  (find-first input split last (some i) below found)
                ∙ bind_then (split_loop (suc fuel) input split next) _ run (
                    ap (λ k. ok (push (take k left) (non_empty (pieces ++ (end_piece ∷ [])))))
                      {x = last + i - last} (omega arith)),
          )
    ]

-- With a separator that is not empty, rounds of the loop by two more than the characters are enough,
-- and the strings are the pieces between the separators, found from left to right, but for those
-- that are empty.
pub split_string-Cut :
    (input split : String) (fuel : ℕ)
    → 0 < length split
    → suc (length input) < fuel
    → (pieces : List String) × (end_piece : String) × Cut split input pieces end_piece
      × (split_string fuel input split ≡ ok (non_empty (pieces ++ (end_piece ∷ []))))
unfolding split_string
split_string-Cut input split fuel some_split enough =
    split_from fuel input split 0 some_split (omega arith) (omega arith)

pub first_empty : (s : String) → first [] s ≡ some 0
unfolding first
first_empty [] = refl
first_empty (c ∷ s) = refl

found_empty : (input : String) (last : ℕ) → last ≤ length input → find input [] last ≡ some last
found_empty input last below =
    find-first input [] last (some 0) below (first_empty (drop last input))
    ∙ ap some {x = last + 0} (omega arith)

-- With an empty separator the loop does not end.
pub split_loop_stuck :
    (fuel : ℕ) (input : String) (last : ℕ)
    → last ≤ length input
    → split_loop fuel input [] last ≡ throw out_of_fuel
unfolding split_loop
split_loop_stuck zero input last below = refl
split_loop_stuck (suc fuel) input last below =
    split_round fuel input [] last (some last) below (found_empty input last below)
    ∙ ap (λ r. r >>= λ splits. ok (push (take (last - last) (drop last input)) splits))
        (ap (split_loop fuel input []) {x = last + 0} (omega arith)
          ∙ split_loop_stuck fuel input last below)
