-- ===== src/Strings/Counted.antt =====
-- `Count`.
use learning_journey.Base.{
  ℕ, zero, suc, ◌+◌, ◌≤◌, ◌<◌, ◌≡◌, refl, sym, ◌∙◌, ap, ◌⊎◌, inl, inr, Bool, true, false, [], ◌∷◌,
  Option, some, none, ok, if◌then◌else◌, Option-cases, arith, length, drop,
}
use mathlib.Core.Path.{subst}
use learning_journey.Strings.{String, is_prefix, first, find, count_loop, count}
use learning_journey.Strings.Search.{
  length_rest, drop-drop, find-first, find_past, first-cases, first_at_end,
}

-- At how many places of a string, its end included, the pattern stands.
abbrev pub places : String → String → ℕ
places p [] = if is_prefix p [] then 1 else 0
places p (c ∷ s) = (if is_prefix p (c ∷ s) then 1 else 0) + places p s

nowhere :
    (b : Bool) (r : Option ℕ)
    → (if b then some 0 else elim r [ none ↦ none | some i ↦ some (suc i) ]) ≡ none
    → (b ≡ false) × (r ≡ none)
nowhere true r missing = absurd (cc)
nowhere false none missing = (refl, refl)
nowhere false (some i) missing = absurd (cc)

places_of :
    (p : String) (c : ℕ) (s : String) (b : Bool)
    → is_prefix p (c ∷ s) ≡ b
    → places p (c ∷ s) ≡ (if b then 1 else 0) + places p s
places_of p c s b front = ap (λ b. (if b then 1 else 0) + places p s) front

places-none : (p s : String) → first p s ≡ none → places p s ≡ 0
unfolding first
places-none [] [] missing = absurd (cc)
places-none (x ∷ p) [] missing = refl
places-none p (c ∷ s) missing =
    let (not_here, missing_after) = nowhere (is_prefix p (c ∷ s)) (first p s) missing in
    omega (arith, places_of p c s false not_here, places-none p s missing_after)

places-some :
    (p s : String) (i : ℕ)
    → first p s ≡ some i
    → ((i < length s) × (places p s ≡ 1 + places p (drop (suc i) s)))
      ⊎ (i ≡ length s) × (places p s ≡ 1)
places-some p [] i found =
    let (front, zero_i) = first_at_end p i found in inr (zero_i, ap (λ b. if b then 1 else 0) front)
places-some p (c ∷ s) i found = elim (first-cases p c s i found) [
  | inl (front, zero_i) ↦ inl (
    omega arith,
    places_of p c s true front ∙ ap (λ i. 1 + places p (drop (suc i) (c ∷ s))) (sym zero_i),
  )
  | inr (not_here, j, found_j, suc_i) ↦
      let skip = places_of p c s false not_here in
      elim (places-some p s j found_j) [
        | inl (below, more) ↦ inl (
          omega arith,
          subst (λ i. places p (c ∷ s) ≡ 1 + places p (drop (suc i) (c ∷ s))) (sym suc_i)
              (omega (arith, skip, more)),
        )
        | inr (end_s, one) ↦ inr (omega arith, omega (arith, skip, one))
      ]
]

count_round :
    (fuel : ℕ) (input str : String) (n i : ℕ) (r : Option ℕ)
    → r ≡ some i
    → count_loop (suc fuel) input str r n
      ≡ count_loop fuel input str (find input str (i + 1)) (n + 1)
unfolding count_loop
count_round fuel input str n i r found = rw (found, count_loop) refl

count_ended :
    (fuel : ℕ) (input str : String) (n : ℕ) (r : Option ℕ)
    → r ≡ none
    → count_loop (suc fuel) input str r n ≡ ok n
unfolding count_loop
count_ended fuel input str n r missing = rw (missing, count_loop) refl

count_from :
    (fuel : ℕ) (input str : String) (pos n : ℕ)
    → pos ≤ length input
    → suc (length input) < fuel + pos
    → count_loop fuel input str (find input str pos) n ≡ ok (n + places str (drop pos input))
count_from zero input str pos n below enough = absurd (omega arith)
count_from (suc zero) input str pos n below enough = absurd (omega arith)
count_from (suc (suc fuel)) input str pos n below enough =
    elim (Option-cases (first str (drop pos input))) [
      | inl missing ↦
          count_ended (suc fuel) input str n (find input str pos)
            (find-first input str pos none below missing)
          ∙ ap ok (omega (arith, places-none str (drop pos input) missing))
      | inr (i, found) ↦
          let round =
            count_round (suc fuel) input str n (pos + i) (find input str pos)
              (find-first input str pos (some i) below found) in
          elim (places-some str (drop pos input) i found) [
            | inl (in_left, more) ↦
                let at_next : drop (pos + i + 1) input ≡ drop (suc i) (drop pos input) =
                  ap (λ k. drop k input) {y = pos + suc i} (omega arith)
                  ∙ drop-drop pos (suc i) input in
                round
                ∙ count_from (suc fuel) input str (pos + i + 1) (n + 1)
                    (omega (arith, length_rest pos input)) (omega arith)
                ∙ ap (λ s. ok (n + 1 + places str s)) at_next
                ∙ ap ok {x = n + 1 + places str (drop (suc i) (drop pos input))}
                    (omega (arith, more))
            | inr (end_left, one) ↦
                round
                ∙ count_ended fuel input str (n + 1) (find input str (pos + i + 1))
                    (find_past input str (pos + i + 1) (omega (arith, length_rest pos input)))
                ∙ ap ok (omega (arith, one))
          ]
    ]

-- Rounds of the loop by two more than the characters are enough to count the places of the string,
-- its end included, where the other one stands, also when two of them share characters.
pub count_lem :
    (input str : String) (fuel : ℕ)
    → suc (length input) < fuel
    → count fuel input str ≡ ok (places str input)
unfolding count
count_lem input str fuel enough =
    count_from fuel input str 0 0 (omega arith) (omega arith)
    ∙ ap ok {x = 0 + places str input} (omega arith)
