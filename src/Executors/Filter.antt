-- ===== src/Executors/Filter.antt =====
-- `FilterExecutor` gives the tuples that pass, in their order.
use learning_journey.Base.{
  append_nil, ℕ, suc, ◌+◌, ◌≤◌, ◌<◌, ◌≡◌, refl, sym, ◌∙◌, Bool, true, false, List, [], ◌∷◌, ◌++◌,
  some, none, Outcome, ok, arith, if◌then◌else◌, length, All, inl, inr, drop,
}
use learning_journey.Executors.{
  Executor, Step, is_empty, left_over, poll, full, ended, filter_batch, filter_fetch, filter_next,
  start,
}
use learning_journey.Executors.Batches.{
  at_index, concat, length-drop, spread, no_status, some_status, remaining, left_over-full, Bounded,
  Good, Polled, poll-Good,
}
use learning_journey.Executors.Scan.{
  selected, selected-append, length-selected, filter_left-eq, filter_batch-Scanned,
}

module _ {ℓ} {T : Type ℓ} (k : T → Bool) (passes : T → Outcome Bool)
    (evaluates : (t : T) → passes t ≡ ok (k t)) (size : ℕ) where
  -- `Next` from the call of the child.
  record Fetched (child : List (List T)) (batch : List T) (step : Step T T) : Type ℓ where
    pub run : filter_fetch passes size child batch ≡ ok step
    pub content :
        batch ++ selected k (concat child) ≡ step.batch ++ selected k (remaining step.after)
    pub status : step.status ≡ (if is_empty step.batch then false else true)
    pub ended : step.status ≡ false → batch ++ selected k (concat child) ≡ []
    pub keeps : Bounded size step.after
    pub bound : length step.batch ≤ size

  filter_fetch-run :
      (b : List T) (child : List (List T)) (batch : List T) (out : List T)
      → ((n : ℕ)
          → filter_batch passes size b 0 batch ≡ ok (some n, out)
          → filter_fetch passes size (b ∷ child) batch ≡ ok (full child b n out))
        × (filter_batch passes size b 0 batch ≡ ok (none, out)
            → filter_fetch passes size (b ∷ child) batch ≡ filter_fetch passes size child out)
  unfolding filter_fetch
  filter_fetch-run b child batch out =
      (λ n e. rw (e, filter_fetch) refl, λ e. rw (e, filter_fetch) refl)

  fetch-Fetched :
      (child : List (List T)) (batch : List T)
      → All (λ b. length b ≤ size) child
      → length batch < size
      → (step : Step T T) × Fetched child batch step
  unfolding filter_fetch
  fetch-Fetched [] batch bounded short = (
    ended batch,
    record {
      run = refl;
      content = refl;
      status = refl;
      ended = λ e. append_nil batch ∙ no_status batch e;
      keeps = record { batches = tt; left = omega arith };
      bound = omega arith;
    },
  )
  fetch-Fetched (b ∷ child) batch bounded short =
      elim (filter_batch-Scanned k passes evaluates size b 0 batch short) [
        | inl (n, out, run, lt, eq, len) ↦
            let at = at_index (0 + n) (n) (out) (omega arith) in
            let rest = left_over-full child b n out in
            (
              full child b n out,
              record {
                run = (filter_fetch-run b child batch out).0 n (run ∙ at);
                content =
                    rw rest (
                      spread (selected k) (selected-append k) batch b out (drop (suc n) b) child
                        eq);
                status = some_status out (omega arith);
                ended = λ e. absurd (ground arith);
                keeps = record {
                  batches = bounded.1;
                  left = rw rest (omega (arith, length-drop n b lt, bounded.0));
                };
                bound = omega arith;
              },
            )
        | inr (run, lt) ↦
            let taken = batch ++ selected k b in
            let (step, f) = fetch-Fetched child taken bounded.1 lt in
            let same =
              spread (selected k) (selected-append k) batch b taken [] child
                (sym (append_nil taken)) in
            (
              step,
              record {
                run = (filter_fetch-run b child batch taken).1 run ∙ f.run;
                content = same ∙ f.content;
                status = f.status;
                ended = λ e. same ∙ f.ended e;
                keeps = f.keeps;
                bound = f.bound;
              },
            )
      ]

  filter_next-Good :
      (ex : Executor T)
      → Bounded size ex
      → (step : Step T T) × (filter_next passes size ex ≡ ok step)
        × Good (selected k) size (Bounded size) ex step
  unfolding filter_next
  filter_next-Good ex bounded =
      let taken = selected k (left_over ex) in
      let less = length-selected k (left_over ex) in
      let (step, f) = fetch-Fetched ex.child taken bounded.batches (omega (arith, bounded.left)) in
      let same = selected-append k (left_over ex) (concat ex.child) in
      (
        step,
        rw (filter_left-eq k passes evaluates size (left_over ex) [], filter_next) f.run,
        record {
          content = same ∙ f.content;
          status = f.status;
          ended = λ e. same ∙ f.ended e;
          keeps = f.keeps;
          bound = f.bound;
        },
      )

-- If the predicate has a value for every tuple, and no batch of the child is longer than the size
-- asked for, which is not 0, polling the filter ends: after one call more than tuples pass, its
-- batches are together the tuples of the child that pass, in their order, and no batch is empty or
-- longer than asked for.
pub poll-filter_next {ℓ} :
    {T : Type ℓ} (passes : T → Outcome Bool) (k : T → Bool) (size : ℕ) (child : List (List T))
    (fuel : ℕ)
    → ((t : T) → passes t ≡ ok (k t))
    → 0 < size
    → All (λ b. length b ≤ size) child
    → length (selected k (concat child)) < fuel
    → Polled (poll fuel (filter_next passes size) (start child)) (selected k (concat child)) size
poll-filter_next passes k size child fuel evaluates positive bounded enough =
    poll-Good (selected k) size (Bounded size) (filter_next passes size)
      (filter_next-Good k passes evaluates size) fuel (start child)
      (record { batches = bounded; left = positive }) enough
