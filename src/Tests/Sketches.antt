-- ===== src/Tests/Sketches.antt =====
-- A sketch of width 4 and depth 2 over numbers that are their own hash.
use mathlib.Core.List.{Perm}
use native.Mathlib.Decide.{ℕ_discrete}
use learning_journey.Base.{ℕ, ◌+◌, ◌≤◌, ◌≡◌, refl, List, [], ◌∷◌, ◌++◌, map, ok, arith, length, min}
use learning_journey.Sketch.{
  Sketch, bucket, new_sketch, insert_all, count, merge, top_k, insert, hash_function,
}
use learning_journey.Sketch.Shape.{IsValid}
use learning_journey.Sketch.Create.{new_sketch-IsNew}
use learning_journey.Sketch.Estimate.{count_bounds, occurrences}
use learning_journey.Sketch.Merge.{merge-insert_all}
use learning_journey.Sketch.Threads.{
  done, left, right, thread_steps, bump_all, interleaved-insert_all,
}
use learning_journey.Sketch.Top.{top_k_lem, Descending, Tops}
use learning_journey.Tests.Sorting.{insertion_sort, insertion_sort-IsSort}

abbrev garbage : ℕ → ℕ → ℕ
garbage i j = 99 + i + j

abbrev hash : ℕ → ℕ
hash n = n

abbrev demo : Sketch
demo = record {
  width = 4;
  depth = 2;
  matrix = (0 ∷ 0 ∷ []) ∷ (0 ∷ 0 ∷ []) ∷ (0 ∷ 0 ∷ []) ∷ (0 ∷ 0 ∷ []) ∷ [];
  hash_functions = 0 ∷ 1 ∷ [];
}

demo_made : new_sketch garbage 4 2 ≡ ok demo
unfolding new_sketch
demo_made = refl

demo-IsValid : IsValid demo
demo-IsValid = (new_sketch-IsNew garbage 4 2 demo_made).valid

abbrev items : List ℕ
items = 7 ∷ 3 ∷ 7 ∷ []

-- 3 and 7 share their buckets.
count_runs : count hash 7 (insert_all hash items demo) ≡ 3
unfolding count insert_all insert hash_function
count_runs = refl

count_bounds_example :
    (occurrences hash ℕ_discrete 7 items ≤ count hash 7 (insert_all hash items demo))
    × (count hash 7 (insert_all hash items demo) ≤ 3)
count_bounds_example = count_bounds hash ℕ_discrete garbage 4 2 items 7 demo_made (omega arith)

merge-insert_all_example :
    merge (insert_all hash items demo) (insert_all hash (5 ∷ []) demo)
    ≡ ok (insert_all hash (7 ∷ 3 ∷ 7 ∷ 5 ∷ []) demo)
merge-insert_all_example =
    merge-insert_all hash garbage (λ _ _. 1) 4 2 items (5 ∷ []) demo_made
      (unfold new_sketch in refl)

interleaved-insert_all_example :
    bump_all
      ((bucket hash demo 7 0, 0)
        ∷ (bucket hash demo 3 0, 0)
        ∷ (bucket hash demo 7 1, 1)
        ∷ (bucket hash demo 3 1, 1)
        ∷ [])
      demo.matrix
    ≡ (insert_all hash (7 ∷ 3 ∷ []) demo).matrix
unfolding thread_steps
interleaved-insert_all_example =
    interleaved-insert_all hash (7 ∷ []) (3 ∷ []) demo-IsValid (left (right (left (right done))))

top_k_lem_example :
    let top = top_k hash (λ _. insertion_sort) 1 (3 ∷ 7 ∷ []) (insert_all hash items demo) in
    (rest : List (ℕ × ℕ)) × Perm
      (top ++ rest)
      (map (λ c. (c, count hash c (insert_all hash items demo))) (3 ∷ 7 ∷ []))
    × (length top ≡ min 1 2)
    × Descending top
    × Tops rest top
top_k_lem_example =
    top_k_lem hash (λ _. insertion_sort) 1 (3 ∷ 7 ∷ []) (insert_all hash items demo)
      insertion_sort-IsSort
