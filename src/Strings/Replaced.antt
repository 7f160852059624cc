-- ===== src/Strings/Replaced.antt =====
-- `Replace`.
use learning_journey.Base.{
  ℕ, zero, suc, ◌+◌, ◌≤◌, ◌<◌, ◌≡◌, refl, sym, ◌∙◌, ap, ap₂, inl, inr, List, [], ◌∷◌, ◌++◌, Option,
  some, none, ok, throw, out_of_fuel, Option-cases, arith, length, take, drop, append_assoc,
  length-append,
}
use learning_journey.Strings.{String, first, find, join, split_string, replace_loop, replace}
use learning_journey.Strings.Search.{
  length_rest, drop-drop, drop-append, length_front, first-split, find-first, Cut, between,
  join-between, between-Cut,
}
use learning_journey.Strings.Splits.{first_empty, split_loop_stuck}

take-append :
    {A : Type 0} (xs ys : List A) (n : ℕ) → take (length xs + n) (xs ++ ys) ≡ xs ++ take n ys
take-append [] ys n = ap (λ k. take k ys) (omega arith)
take-append (x ∷ xs) ys n =
    ap (λ k. take k (x ∷ (xs ++ ys))) {y = suc (length xs + n)} (omega arith)
    ∙ ap (λ l. x ∷ l) (take-append xs ys n)

replace_round :
    (fuel : ℕ) (source from to : String) (start : ℕ) (r : Option ℕ)
    → find source from start ≡ r
    → replace_loop (suc fuel) source from to start ≡ elim r [
      | none ↦ ok source
      | some n ↦
          replace_loop fuel
            (take n source ++ (to ++ drop (n + length from) source))
            from
            to
            (n + length to)
    ]
unfolding replace_loop
replace_round fuel source from to start r found = rw (found, replace_loop) refl

-- What is found in the part that is left.
find_left :
    (done left from : String) (r : Option ℕ)
    → first from left ≡ r
    → find (done ++ left) from (length done)
      ≡ elim r [ none ↦ none | some i ↦ some (length done + i) ]
find_left done left from r found =
    find-first (done ++ left) from (length done) r (omega (arith, length-append done left))
      (ap (first from) (drop-append done left) ∙ found)

-- What a round leaves, in terms of the part that was left.
next_source :
    (done left from to : String) (i : ℕ)
    → take (length done + i) (done ++ left)
        ++ (to ++ drop (length done + i + length from) (done ++ left))
      ≡ (done ++ (take i left ++ to)) ++ drop (i + length from) left
next_source done left from to i =
    ap₂ (λ a b. a ++ (to ++ b)) (take-append done left i)
      (ap (λ k. drop k (done ++ left)) {y = length done + (i + length from)} (omega arith)
        ∙ drop-drop (length done) (i + length from) (done ++ left)
        ∙ ap (drop (i + length from)) (drop-append done left))
    ∙ append_assoc done (take i left) (to ++ drop (i + length from) left)
    ∙ ap (λ l. done ++ l) (sym (append_assoc (take i left) to (drop (i + length from) left)))
    ∙ sym (append_assoc done (take i left ++ to) (drop (i + length from) left))

replace_from :
    (fuel : ℕ) (done left from to : String)
    → 0 < length from
    → length left < fuel
    → (pieces : List String) × (last : String) × Cut from left pieces last
      × (replace_loop fuel (done ++ left) from to (length done)
          ≡ ok (done ++ between to pieces last))
replace_from zero done left from to some_from enough = absurd (omega arith)
replace_from (suc fuel) done left from to some_from enough = elim (Option-cases (first from left)) [
  | inl missing ↦ (
    [],
    left,
    (refl, missing),
    replace_round fuel (done ++ left) from to (length done) none
        (find_left done left from none missing),
  )
  | inr (i, found) ↦
      let (whole, len) = first-split from left i found in
      let rest = drop (i + length from) left in
      let more = done ++ (take i left ++ to) in
      let in_left : i ≤ length left = omega (arith, len) in
      let front = length_front i left in_left in
      let (pieces, last, cut, run) =
        replace_from fuel more rest from to some_from
          (omega (arith, length_rest (i + length from) left, len)) in
      let start : length done + i + length to ≡ length more =
        omega
          (arith, length-append done (take i left ++ to), length-append (take i left) to, front) in
      (
        take i left ∷ pieces,
        last,
        (found ∙ ap some (sym front), rest, whole, cut),
        replace_round fuel (done ++ left) from to (length done) (some (length done + i))
              (find_left done left from (some i) found)
            ∙ ap₂ (λ s n. replace_loop fuel s from to n) (next_source done left from to i) start
            ∙ run
            ∙ ap ok (
                append_assoc done (take i left ++ to) (between to pieces last)
                ∙ ap (λ l. done ++ l) (append_assoc (take i left) to (between to pieces last))),
      )
]

-- When what is to be replaced is not empty, rounds of the loop by one more than the characters are
-- enough: the string is the pieces between its occurrences, found from left to right and joined by
-- it, and the result is the same pieces joined by the replacement.
pub replace-Cut :
    (source from to : String) (fuel : ℕ)
    → 0 < length from
    → length source < fuel
    → (pieces : List String) × (last : String) × Cut from source pieces last
      × (join (pieces ++ (last ∷ [])) from ≡ source)
      × (replace fuel source from to ≡ ok (join (pieces ++ (last ∷ [])) to))
unfolding replace
replace-Cut source from to fuel some_from enough =
    let (pieces, last, cut, run) = replace_from fuel [] source from to some_from enough in
    (
      pieces,
      last,
      cut,
      join-between from pieces last ∙ between-Cut from source pieces last cut,
      run ∙ ap ok (sym (join-between to pieces last)),
    )

-- A round that replaces the empty string by itself leaves the string and the place in it.
replace_loop_stuck :
    (fuel : ℕ) (source : String) → replace_loop fuel source [] [] 0 ≡ throw out_of_fuel
unfolding replace_loop
replace_loop_stuck zero source = refl
replace_loop_stuck (suc fuel) source =
    replace_round fuel source [] [] 0 (some 0)
      (find_left [] source [] (some 0) (first_empty source))
    ∙ replace_loop_stuck fuel source

-- However many rounds they are given, neither splitting a string by the empty one nor replacing the
-- empty one in it by itself ends.
pub stuck_on_empty :
    (fuel : ℕ) (str : String)
    → (split_string fuel str [] ≡ throw out_of_fuel) × (replace fuel str [] [] ≡ throw out_of_fuel)
unfolding split_string replace
stuck_on_empty fuel str = (split_loop_stuck fuel str 0 (omega arith), replace_loop_stuck fuel str)
