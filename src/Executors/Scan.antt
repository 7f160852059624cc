-- ===== src/Executors/Scan.antt =====
-- The loops of `FilterExecutor::Next` over a batch of tuples.
use native.Mathlib.Decide.{dec_le}
use learning_journey.Base.{
  append_assoc, append_nil, ℕ, suc, ◌+◌, ◌≤◌, ◌<◌, ◌≡◌, refl, sym, ap, ◌∙◌, Bool, true, false, List,
  [], ◌∷◌, ◌++◌, some, none, Outcome, ok, arith, if◌then◌else◌, leb, length, length-append, ◌⊎◌,
  inl, inr, Bool-cases, drop,
}
use learning_journey.Executors.{filter_left, filter_batch}
use learning_journey.Executors.Batches.{at_index}

abbrev pub selected {ℓ} : {T : Type ℓ} → (T → Bool) → List T → List T
selected k [] = []
selected k (t ∷ ts) = if k t then t ∷ selected k ts else selected k ts

module _ {ℓ} {T : Type ℓ} (k : T → Bool) where
  pub selected-append : (xs ys : List T) → selected k (xs ++ ys) ≡ selected k xs ++ selected k ys
  selected-append [] ys = refl
  selected-append (x ∷ xs) ys = elim (Bool-cases (k x)) [
    | inl e ↦ rw e (ap (λ l. x ∷ l) (selected-append xs ys))
    | inr e ↦ rw e (selected-append xs ys)
  ]

  pub length-selected : (xs : List T) → length (selected k xs) ≤ length xs
  length-selected [] = omega arith
  length-selected (x ∷ xs) = ground (arith, length-selected xs)

  module _ (passes : T → Outcome Bool) (evaluates : (t : T) → passes t ≡ ok (k t)) (size : ℕ) where
    pub filter_left-eq :
        (ts batch : List T) → filter_left passes size ts batch ≡ ok (batch ++ selected k ts)
    unfolding filter_left
    filter_left-eq [] batch = ap ok (sym (append_nil batch))
    filter_left-eq (t ∷ ts) batch = elim (Bool-cases (k t)) [
      | inl e ↦
          rw (evaluates t, e, filter_left)
            (filter_left-eq ts (batch ++ (t ∷ []))
              ∙ ap ok (append_assoc batch (t ∷ []) (selected k ts)))
      | inr e ↦ rw (evaluates t, e, filter_left) (filter_left-eq ts batch)
    ]

    module _ (t : T) (ts : List T) (i : ℕ) (batch : List T) where
      filter_batch-full :
          k t ≡ true
          → size ≤ length (batch ++ (t ∷ []))
          → filter_batch passes size (t ∷ ts) i batch ≡ ok (some i, batch ++ (t ∷ []))
      unfolding filter_batch
      filter_batch-full e h =
          let fits : leb size (length (batch ++ (t ∷ []))) ≡ true = ground arith in
          rw (evaluates t, e, fits, filter_batch) refl

      filter_batch-more :
          k t ≡ true
          → length (batch ++ (t ∷ [])) < size
          → filter_batch passes size (t ∷ ts) i batch
            ≡ filter_batch passes size ts (i + 1) (batch ++ (t ∷ []))
      unfolding filter_batch
      filter_batch-more e h =
          let fits : leb size (length (batch ++ (t ∷ []))) ≡ false = ground arith in
          rw (evaluates t, e, fits, filter_batch) refl

      filter_batch-skip :
          k t ≡ false
          → filter_batch passes size (t ∷ ts) i batch ≡ filter_batch passes size ts (i + 1) batch
      unfolding filter_batch
      filter_batch-skip e = rw (evaluates t, e, filter_batch) refl

      selected-take :
          k t ≡ true → batch ++ selected k (t ∷ ts) ≡ (batch ++ (t ∷ [])) ++ selected k ts
      selected-take e = rw e (sym (append_assoc batch (t ∷ []) (selected k ts)))

      selected-skip : k t ≡ false → batch ++ selected k (t ∷ ts) ≡ batch ++ selected k ts
      selected-skip e = rw e refl

    -- The output is full at tuple `n` of these, or takes all that pass.
    abbrev pub Scanned : List T → ℕ → List T → Type ℓ
    Scanned ts i batch =
        ((n : ℕ) × (out : List T) × (filter_batch passes size ts i batch ≡ ok (some (i + n), out))
          × (n < length ts)
          × (batch ++ selected k ts ≡ out ++ selected k (drop (suc n) ts))
          × (length out ≡ size))
        ⊎ ((filter_batch passes size ts i batch ≡ ok (none, batch ++ selected k ts))
            × (length (batch ++ selected k ts) < size))

    -- Over one tuple that does not fill the output.
    Scanned-next :
        (t : T) (ts : List T) (i : ℕ) (batch batch' : List T)
        → filter_batch passes size (t ∷ ts) i batch ≡ filter_batch passes size ts (i + 1) batch'
        → batch ++ selected k (t ∷ ts) ≡ batch' ++ selected k ts
        → Scanned ts (i + 1) batch'
        → Scanned (t ∷ ts) i batch
    Scanned-next t ts i batch batch' step same (inl (n, out, run, lt, eq, len)) =
        let index = at_index (i + 1 + n) (i + suc n) (out) (omega arith) in
        inl (suc n, out, step ∙ run ∙ index, omega arith, same ∙ eq, len)
    Scanned-next t ts i batch batch' step same (inr (run, lt)) =
        inr (step ∙ run ∙ ap (λ l. ok (none, l)) (sym same), rw same lt)

    pub filter_batch-Scanned :
        (ts : List T) (i : ℕ) (batch : List T) → length batch < size → Scanned ts i batch
    unfolding filter_batch
    filter_batch-Scanned [] i batch h =
        inr (ap (λ l. ok (none, l)) (sym (append_nil batch)), rw (append_nil batch) h)
    filter_batch-Scanned (t ∷ ts) i batch h = elim (Bool-cases (k t)) [
      | inl e ↦
          let more = length-append batch (t ∷ []) in
          elim (dec_le size (length (batch ++ (t ∷ [])))) [
            | yes fits ↦
                let index = at_index (i) (i + 0) (batch ++ (t ∷ [])) (omega arith) in
                inl (
                  0,
                  batch ++ (t ∷ []),
                  filter_batch-full t ts i batch e fits ∙ index,
                  omega arith,
                  selected-take t ts i batch e,
                  omega arith,
                )
            | no short ↦
                Scanned-next t ts i batch (batch ++ (t ∷ []))
                  (filter_batch-more t ts i batch e (omega arith)) (selected-take t ts i batch e)
                  (filter_batch-Scanned ts (i + 1) (batch ++ (t ∷ [])) (omega arith))
          ]
      | inr e ↦
          Scanned-next t ts i batch batch (filter_batch-skip t ts i batch e)
            (selected-skip t ts i batch e) (filter_batch-Scanned ts (i + 1) batch h)
    ]
