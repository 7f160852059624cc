-- ===== src/Executors/Batches.antt =====
-- What polling an executor gives, from what one call of `Next` does.
use native.Mathlib.Decide.{dec_lt}
use learning_journey.Base.{
  append_assoc, Option, some, ℕ, zero, suc, ◌+◌, ◌≤◌, ◌<◌, ◌≡◌, refl, sym, ap, ◌∙◌, true, false,
  List, [], ◌∷◌, ◌++◌, Outcome, ok, arith, if◌then◌else◌, length, All, length-append, inl, inr,
  Bool-cases, drop,
}
use learning_journey.Executors.{Executor, Step, is_empty, left_over, poll, full, offset_after}

module _ {ℓ} {A : Type ℓ} where
  abbrev pub concat : List (List A) → List A
  concat [] = []
  concat (b ∷ bs) = b ++ concat bs

  pub drop_all : (n : ℕ) (xs : List A) → length xs ≤ n → drop n xs ≡ []
  drop_all zero [] h = refl
  drop_all zero (x ∷ xs) h = absurd (omega arith)
  drop_all (suc n) [] h = refl
  drop_all (suc n) (x ∷ xs) h = drop_all n xs (omega arith)

  pub length-drop : (n : ℕ) (xs : List A) → n < length xs → length (drop (suc n) xs) < length xs
  length-drop n [] h = absurd (omega arith)
  length-drop zero (x ∷ xs) h = omega arith
  length-drop (suc n) (x ∷ xs) h = omega (arith, length-drop n xs (omega arith))

  pub nonempty : (xs : List A) → is_empty xs ≡ false → 0 < length xs
  nonempty [] h = absurd (ground arith)
  nonempty (x ∷ xs) h = omega arith

  -- `!tuple_batch->empty()`
  pub no_status : (xs : List A) → (if is_empty xs then false else true) ≡ false → xs ≡ []
  no_status [] h = refl
  no_status (x ∷ xs) h = absurd (ground arith)

  pub some_status : (xs : List A) → 0 < length xs → true ≡ (if is_empty xs then false else true)
  some_status [] h = absurd (omega arith)
  some_status (x ∷ xs) h = refl

  -- A full batch at one tuple or another of one index.
  abbrev filled_at : ℕ → List A → Outcome (Option ℕ × List A)
  filled_at i out = ok (some i, out)

  pub at_index : (i j : ℕ) (out : List A) → i ≡ j → filled_at i out ≡ filled_at j out
  at_index i j out e = ap (λ i. filled_at i out) e

-- The tuples that an executor has not yet looked at.
abbrev pub remaining {ℓ} : {T : Type ℓ} → Executor T → List T
remaining ex = left_over ex ++ concat ex.child

-- A batch of the child, the part of it that is taken, and the rest, where the executor makes `f` of
-- its tuples.
pub spread {ℓ κ} :
    {T : Type ℓ} {U : Type κ} (f : List T → List U)
    → ((xs ys : List T) → f (xs ++ ys) ≡ f xs ++ f ys)
    → (batch : List U) (b : List T) (out : List U) (rest : List T) (child : List (List T))
    → batch ++ f b ≡ out ++ f rest
    → batch ++ f (b ++ concat child) ≡ out ++ f (rest ++ concat child)
spread f f-append batch b out rest child e =
    let later = f (concat child) in
    ap (λ l. batch ++ l) (f-append b (concat child))
    ∙ sym (append_assoc batch (f b) later)
    ∙ ap (λ l. l ++ later) e
    ∙ append_assoc out (f rest) later
    ∙ ap (λ l. out ++ l) (sym (f-append rest (concat child)))

-- After a full batch at tuple `i` the tuples behind it are left over.
pub left_over-full {ℓ κ} :
    {T : Type ℓ} {U : Type κ} (child : List (List T)) (b : List T) (i : ℕ) (batch : List U)
    → left_over (full child b i batch).after ≡ drop (suc i) b
left_over-full child b i batch = elim (dec_lt (i + 1) (length b)) [
  | yes h ↦ let e : offset_after b i ≡ suc i = ground arith in rw e (ground arith)
  | no h ↦
      let e : offset_after b i ≡ 0 = ground arith in rw e (sym (drop_all (suc i) b (omega arith)))
]

-- The batches of a child are no longer than asked for, and what is left over is shorter.
pub record Bounded {ℓ} {T : Type ℓ} (size : ℕ) (ex : Executor T) : Type ℓ where
  pub batches : All (λ b. length b ≤ size) ex.child
  pub left : length (left_over ex) < size

-- What one call of `Next` does to the tuples that remain, where `f` is what the executor makes of
-- them.
pub record Good {ℓ κ μ} {T : Type ℓ} {U : Type κ} (f : List T → List U) (size : ℕ)
    (Inv : Executor T → Type μ) (ex : Executor T) (step : Step T U) : Type (ℓ ⊔ κ ⊔ μ) where
  pub content : f (remaining ex) ≡ step.batch ++ f (remaining step.after)
  pub status : step.status ≡ (if is_empty step.batch then false else true)
  pub ended : step.status ≡ false → f (remaining ex) ≡ []
  pub keeps : Inv step.after
  pub bound : length step.batch ≤ size

-- Polling ends, and its batches, none empty and none longer than asked for, are together what the
-- executor makes of the tuples.
abbrev pub Polled {ℓ} : {U : Type ℓ} → Outcome (List (List U)) → List U → ℕ → Type ℓ
Polled {U} run all size =
    (batches : List (List U)) × (run ≡ ok batches)
    × (concat batches ≡ all)
    × All (λ b. (0 < length b) × (length b ≤ size)) batches

module _ {ℓ κ μ} {T : Type ℓ} {U : Type κ} (f : List T → List U) (size : ℕ)
    (Inv : Executor T → Type μ) (next : Executor T → Outcome (Step T U))
    (good : (ex : Executor T)
      → Inv ex
      → (step : Step T U) × (next ex ≡ ok step) × Good f size Inv ex step) where
  pub poll-Good :
      (fuel : ℕ) (ex : Executor T)
      → Inv ex
      → length (f (remaining ex)) < fuel
      → Polled (poll fuel next ex) (f (remaining ex)) size
  unfolding poll
  poll-Good zero ex inv h = absurd (omega arith)
  poll-Good (suc fuel) ex inv h =
      let (step, run, g) = good ex inv in
      elim (Bool-cases step.status) [
        | inl e ↦
            let some_tuple : 0 < length step.batch =
              nonempty step.batch (ground (arith, g.status)) in
            let shorter =
              ap length g.content ∙ length-append step.batch (f (remaining step.after)) in
            let (batches, run', all, sizes) = poll-Good fuel step.after g.keeps (omega arith) in
            (
              step.batch ∷ batches,
              rw (run, e, run', poll) refl,
              ap (λ l. step.batch ++ l) all ∙ sym g.content,
              ((some_tuple, g.bound), sizes),
            )
        | inr e ↦ ([], rw (run, e, poll) refl, sym (g.ended e), tt)
      ]
