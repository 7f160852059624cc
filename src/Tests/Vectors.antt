-- ===== src/Tests/Vectors.antt =====
-- Vectors of numbers, four bytes each, where the system grants up to 64 bytes.
use learning_journey.Base.{ℕ, ◌≤◌, ◌≡◌, refl, Bool, true, [], ◌∷◌, ok, throw, undefined, arith, leb}
use learning_journey.Vector.{Vector, outside, inside, reserve, push_back}
use learning_journey.Vector.Copies.{vec, Available}
use learning_journey.Vector.Growth.{reserve-vec, push_back-vec, push_back_dangling}

abbrev grants : ℕ → Bool
grants bytes = leb bytes 64

abbrev pair : Vector ℕ
pair = vec (5 ∷ 6 ∷ []) 2

storage : (n : ℕ) → n ≤ 16 → Available 4 grants n
storage n h = record { sized = omega arith; word = omega arith; granted = ground arith }

push_back-vec_example : push_back 4 grants true pair (outside 7) ≡ ok (vec (5 ∷ 6 ∷ 7 ∷ []) 4)
push_back-vec_example =
    (push_back-vec 4 grants (5 ∷ 6 ∷ []) 2 7).1 refl (omega arith) (storage 4 (omega arith))

push_back_dangling_example : push_back 4 grants true pair (inside 0) ≡ throw undefined
push_back_dangling_example =
    push_back_dangling 4 grants (5 ∷ 6 ∷ []) 2 0 5 true refl (omega arith) (storage 4 (omega arith))
      refl

reserve-vec_example : reserve 4 grants pair 10 ≡ ok (vec (5 ∷ 6 ∷ []) 10)
reserve-vec_example =
    (reserve-vec 4 grants (5 ∷ 6 ∷ []) 2 10 (omega arith)).1 (omega arith)
      (storage 10 (omega arith))
