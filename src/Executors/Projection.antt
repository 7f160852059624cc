-- ===== src/Executors/Projection.antt =====
-- `ProjectionExecutor` gives the projection of every tuple, in their order.
use native.Mathlib.Decide.{dec_le}
use learning_journey.Base.{
  append_assoc, append_nil, ℕ, suc, ◌+◌, ◌≤◌, ◌<◌, ◌≡◌, refl, sym, ap, ◌∙◌, true, false, List, [],
  ◌∷◌, ◌++◌, map, some, none, Outcome, ok, arith, ◌>>=◌, if◌then◌else◌, leb, length, All,
  length-append, length-map, ◌⊎◌, inl, inr, drop,
}
use learning_journey.Executors.{
  Executor, Step, is_empty, left_over, poll, full, part, ended, project_left, project_batch,
  project_fetch, project_next, start,
}
use learning_journey.Executors.Batches.{
  at_index, concat, length-drop, remaining, left_over-full, spread, no_status, some_status, Bounded,
  Good, Polled, poll-Good,
}

module _ {ℓ κ} {T : Type ℓ} {U : Type κ} (g : T → U) where
  map-append : (xs ys : List T) → map g (xs ++ ys) ≡ map g xs ++ map g ys
  map-append [] ys = refl
  map-append (x ∷ xs) ys = ap (λ l. g x ∷ l) (map-append xs ys)

-- The batches of the child are not empty either.
record Full {ℓ} {T : Type ℓ} (size : ℕ) (ex : Executor T) : Type ℓ where
  pub bounded : Bounded size ex
  pub full : All (λ b. 0 < length b) ex.child

module _ {ℓ κ} {T : Type ℓ} {U : Type κ} (g : T → U) (project : T → Outcome U)
    (evaluates : (t : T) → project t ≡ ok (g t)) (size : ℕ) where
  project_left-eq :
      (ts : List T) (batch : List U) → project_left project size ts batch ≡ ok (batch ++ map g ts)
  unfolding project_left
  project_left-eq [] batch = ap ok (sym (append_nil batch))
  project_left-eq (t ∷ ts) batch =
      rw (evaluates t, project_left)
        (project_left-eq ts (batch ++ (g t ∷ []))
          ∙ ap ok (append_assoc batch (g t ∷ []) (map g ts)))

  -- The output is full at tuple `n` of these, or takes all.
  abbrev Scanned : List T → ℕ → List U → Type κ
  Scanned ts i batch =
      ((n : ℕ) × (out : List U) × (project_batch project size ts i batch ≡ ok (some (i + n), out))
        × (n < length ts)
        × (batch ++ map g ts ≡ out ++ map g (drop (suc n) ts))
        × (length out ≡ size))
      ⊎ ((project_batch project size ts i batch ≡ ok (none, batch ++ map g ts))
          × (length (batch ++ map g ts) < size))

  module _ (t : T) (ts : List T) (i : ℕ) (batch : List U) where
    abbrev more : List U
    more = batch ++ (g t ∷ [])

    project_batch-step :
        (size ≤ length more → project_batch project size (t ∷ ts) i batch ≡ ok (some i, more))
        × (length more < size
            → project_batch project size (t ∷ ts) i batch
              ≡ project_batch project size ts (i + 1) more)
    unfolding project_batch
    project_batch-step = (
      λ h.
          let fits : leb size (length more) ≡ true = ground arith in
          rw (evaluates t, ◌>>=◌, fits, project_batch) refl,
      λ h.
          let fits : leb size (length more) ≡ false = ground arith in
          rw (evaluates t, ◌>>=◌, fits, project_batch) refl,
    )

    taken : batch ++ map g (t ∷ ts) ≡ more ++ map g ts
    taken = sym (append_assoc batch (g t ∷ []) (map g ts))

  project_batch-Scanned :
      (ts : List T) (i : ℕ) (batch : List U) → length batch < size → Scanned ts i batch
  unfolding project_batch
  project_batch-Scanned [] i batch h =
      inr (ap (λ l. ok (none, l)) (sym (append_nil batch)), rw (append_nil batch) h)
  project_batch-Scanned (t ∷ ts) i batch h =
      let longer = length-append batch (g t ∷ []) in
      elim (dec_le size (length (more t ts i batch))) [
        | yes fits ↦
            let index = at_index (i) (i + 0) (more t ts i batch) (omega arith) in
            inl (
              0,
              more t ts i batch,
              (project_batch-step t ts i batch).0 fits ∙ index,
              omega arith,
              taken t ts i batch,
              omega arith,
            )
        | no short ↦
            let step = (project_batch-step t ts i batch).1 (omega arith) in
            elim (project_batch-Scanned ts (i + 1) (more t ts i batch) (omega arith)) [
              | inl (n, out, run, lt, eq, len) ↦
                  let index = at_index (i + 1 + n) (i + suc n) (out) (omega arith) in
                  inl (suc n, out, step ∙ run ∙ index, omega arith, taken t ts i batch ∙ eq, len)
              | inr (run, lt) ↦
                  let same = taken t ts i batch in
                  inr (step ∙ run ∙ ap (λ l. ok (none, l)) (sym same), rw same lt)
            ]
      ]

  project_fetch-run :
      (b : List T) (child : List (List T)) (batch out : List U)
      → ((n : ℕ)
          → project_batch project size b 0 batch ≡ ok (some n, out)
          → project_fetch project size (b ∷ child) batch ≡ ok (full child b n out))
        × (project_batch project size b 0 batch ≡ ok (none, out)
            → project_fetch project size (b ∷ child) batch ≡ ok (part child b out))
  unfolding project_fetch
  project_fetch-run b child batch out =
      (λ n e. rw (e, project_fetch) refl, λ e. rw (e, project_fetch) refl)

  -- `Next` from the call of the child.
  record Fetched (child : List (List T)) (batch : List U) (step : Step T U) : Type (ℓ ⊔ κ) where
    pub run : project_fetch project size child batch ≡ ok step
    pub content : batch ++ map g (concat child) ≡ step.batch ++ map g (remaining step.after)
    pub status : step.status ≡ (if is_empty step.batch then false else true)
    pub ended : step.status ≡ false → batch ++ map g (concat child) ≡ []
    pub keeps : Full size step.after
    pub bound : length step.batch ≤ size

  fetch-Fetched :
      (child : List (List T)) (batch : List U)
      → All (λ b. length b ≤ size) child
      → All (λ b. 0 < length b) child
      → length batch < size
      → (step : Step T U) × Fetched child batch step
  unfolding project_fetch
  fetch-Fetched [] batch bounded some_tuple short = (
    ended batch,
    record {
      run = refl;
      content = refl;
      status = refl;
      ended = λ e. append_nil batch ∙ no_status batch e;
      keeps = record { bounded = record { batches = tt; left = omega arith }; full = tt };
      bound = omega arith;
    },
  )
  fetch-Fetched (b ∷ child) batch bounded some_tuple short =
      elim (project_batch-Scanned b 0 batch short) [
        | inl (n, out, run, lt, eq, len) ↦
            let at = at_index (0 + n) (n) (out) (omega arith) in
            let rest = left_over-full child b n out in
            (
              full child b n out,
              record {
                run = (project_fetch-run b child batch out).0 n (run ∙ at);
                content =
                    rw rest (spread (map g) (map-append g) batch b out (drop (suc n) b) child eq);
                status = some_status out (omega arith);
                ended = λ e. absurd (ground arith);
                keeps = record {
                  bounded = record {
                    batches = bounded.1;
                    left = rw rest (omega (arith, length-drop n b lt, bounded.0));
                  };
                  full = some_tuple.1;
                };
                bound = omega arith;
              },
            )
        | inr (run, lt) ↦
            let out = batch ++ map g b in
            let sum = length-append batch (map g b) in
            let same = length-map g b in
            let positive : 0 < length out = omega (arith, some_tuple.0) in
            (
              part child b out,
              record {
                run = (project_fetch-run b child batch out).1 run;
                content = spread (map g) (map-append g) batch b out [] child (sym (append_nil out));
                status = refl;
                ended = λ e. absurd (ground (arith, ap length (no_status out e)));
                keeps = record {
                  bounded = record { batches = bounded.1; left = omega arith };
                  full = some_tuple.1;
                };
                bound = omega arith;
              },
            )
      ]

  project_next-Good :
      (ex : Executor T)
      → Full size ex
      → (step : Step T U) × (project_next project size ex ≡ ok step)
        × Good (map g) size (Full size) ex step
  unfolding project_next
  project_next-Good ex inv =
      let taken = map g (left_over ex) in
      let less = length-map g (left_over ex) in
      let (step, f) =
        fetch-Fetched ex.child taken inv.bounded.batches inv.full
          (omega (arith, inv.bounded.left)) in
      let same = map-append g (left_over ex) (concat ex.child) in
      (
        step,
        rw (project_left-eq (left_over ex) [], project_next) f.run,
        record {
          content = same ∙ f.content;
          status = f.status;
          ended = λ e. same ∙ f.ended e;
          keeps = f.keeps;
          bound = f.bound;
        },
      )

-- If the expressions have values for every tuple, no batch of the child is longer than the size
-- asked for, which is not 0, and none is empty, polling the projection ends: after one call more
-- than there are tuples, its batches are together the projections of the tuples of the child, in
-- their order, and no batch is empty or longer than asked for.
pub poll-project_next {ℓ κ} :
    {T : Type ℓ} {U : Type κ} (project : T → Outcome U) (g : T → U) (size : ℕ)
    (child : List (List T)) (fuel : ℕ)
    → ((t : T) → project t ≡ ok (g t))
    → 0 < size
    → All (λ b. length b ≤ size) child
    → All (λ b. 0 < length b) child
    → length (map g (concat child)) < fuel
    → Polled (poll fuel (project_next project size) (start child)) (map g (concat child)) size
poll-project_next project g size child fuel evaluates positive bounded some_tuple enough =
    poll-Good (map g) size (Full size) (project_next project size)
      (project_next-Good g project evaluates size) fuel (start child)
      (record { bounded = record { batches = bounded; left = positive }; full = some_tuple }) enough
