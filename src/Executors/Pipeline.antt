-- ===== src/Executors/Pipeline.antt =====
-- A projection whose child is a filter.
use mathlib.Core.Path.{subst}
use learning_journey.Base.{
  ℕ, ◌≤◌, ◌<◌, ◌≡◌, Bool, List, [], ◌∷◌, map, Outcome, ok, length, length-map, All, arith,
}
use learning_journey.Executors.{poll, start, filter_next, project_next}
use learning_journey.Executors.Batches.{concat, Polled}
use learning_journey.Executors.Scan.{selected}
use learning_journey.Executors.Filter.{poll-filter_next}
use learning_journey.Executors.Projection.{poll-project_next}

module _ {ℓ} {T : Type ℓ} (size : ℕ) where
  sizes_apart :
      (batches : List (List T))
      → All (λ b. (0 < length b) × (length b ≤ size)) batches
      → All (λ b. length b ≤ size) batches × All (λ b. 0 < length b) batches
  sizes_apart [] h = (tt, tt)
  sizes_apart (b ∷ batches) ((some_tuple, bound), h) =
      let (bounds, some_tuples) = sizes_apart batches h in
      ((bound, bounds), (some_tuple, some_tuples))

-- If the predicate and the expressions have values for every tuple, and no batch of the child of the
-- filter is longer than the size asked for, which is not 0, a filter can be polled to its end and a
-- projection over its batches too, after one call more than tuples pass: the batches of the
-- projection are together the projections of the tuples that pass, in their order.
pub poll-pipeline {ℓ κ} :
    {T : Type ℓ} {U : Type κ} (passes : T → Outcome Bool) (k : T → Bool) (project : T → Outcome U)
    (g : T → U) (size : ℕ) (child : List (List T)) (fuel : ℕ)
    → ((t : T) → passes t ≡ ok (k t))
    → ((t : T) → project t ≡ ok (g t))
    → 0 < size
    → All (λ b. length b ≤ size) child
    → length (selected k (concat child)) < fuel
    → (batches : List (List T)) × (poll fuel (filter_next passes size) (start child) ≡ ok batches)
      × Polled
          (poll fuel (project_next project size) (start batches))
          (map g (selected k (concat child)))
          size
poll-pipeline passes k project g size child fuel passes_ok project_ok positive bounded enough =
    let (batches, run, all, sizes) =
      poll-filter_next passes k size child fuel passes_ok positive bounded enough in
    let (bounds, some_tuples) = sizes_apart size batches sizes in
    let count = length-map g (concat batches) in
    let few : length (concat batches) < fuel = rw all enough in
    (
      batches,
      run,
      subst (λ l. Polled (poll fuel (project_next project size) (start batches)) (map g l) size) all
          (poll-project_next project g size batches fuel project_ok positive bounds some_tuples
            (omega arith)),
    )
