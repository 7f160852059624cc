-- ===== src/Tests/Executors.antt =====
-- A filter for the numbers below 5 and a projection that adds 1, over three batches.
use learning_journey.Base.{ℕ, ◌+◌, ◌≡◌, refl, Bool, List, [], ◌∷◌, ok, arith, ltb}
use learning_journey.Executors.{
  poll, start, filter_next, filter_left, filter_batch, filter_fetch, project_next, project_left,
  project_batch, project_fetch,
}
use learning_journey.Executors.Batches.{Polled}
use learning_journey.Executors.Filter.{poll-filter_next}
use learning_journey.Executors.Projection.{poll-project_next}
use learning_journey.Executors.Pipeline.{poll-pipeline}

abbrev batches : List (List ℕ)
batches = (1 ∷ 9 ∷ 2 ∷ []) ∷ (8 ∷ []) ∷ (3 ∷ 4 ∷ []) ∷ []

abbrev small : ℕ → Bool
small n = ltb n 5

filter_runs :
    poll 5 (filter_next (λ n. ok (small n)) 3) (start batches)
    ≡ ok ((1 ∷ 2 ∷ 3 ∷ []) ∷ (4 ∷ []) ∷ [])
unfolding poll filter_next filter_left filter_batch filter_fetch
filter_runs = refl

project_runs :
    poll 7 (project_next (λ n. ok (n + 1)) 2) (start batches)
    ≡ ok ((2 ∷ 10 ∷ []) ∷ (3 ∷ 9 ∷ []) ∷ (4 ∷ 5 ∷ []) ∷ [])
unfolding poll project_next project_left project_batch project_fetch
project_runs = refl

poll-filter_next_example :
    Polled (poll 5 (filter_next (λ n. ok (small n)) 3) (start batches)) (1 ∷ 2 ∷ 3 ∷ 4 ∷ []) 3
poll-filter_next_example =
    poll-filter_next (λ n. ok (small n)) small 3 batches 5 (λ n. refl) (omega arith)
      (omega arith, (omega arith, (omega arith, tt))) (omega arith)

poll-project_next_example :
    Polled
      (poll 7 (project_next (λ n. ok (n + 1)) 3) (start batches))
      (2 ∷ 10 ∷ 3 ∷ 9 ∷ 4 ∷ 5 ∷ [])
      3
poll-project_next_example =
    poll-project_next (λ n. ok (n + 1)) (λ n. n + 1) 3 batches 7 (λ n. refl) (omega arith)
      (omega arith, (omega arith, (omega arith, tt)))
      (omega arith, (omega arith, (omega arith, tt))) (omega arith)

poll-pipeline_example :
    (bs : List (List ℕ)) × (poll 5 (filter_next (λ n. ok (small n)) 3) (start batches) ≡ ok bs)
    × Polled (poll 5 (project_next (λ n. ok (n + 1)) 3) (start bs)) (2 ∷ 3 ∷ 4 ∷ 5 ∷ []) 3
poll-pipeline_example =
    poll-pipeline (λ n. ok (small n)) small (λ n. ok (n + 1)) (λ n. n + 1) 3 batches 5 (λ n. refl)
      (λ n. refl) (omega arith) (omega arith, (omega arith, (omega arith, tt))) (omega arith)
