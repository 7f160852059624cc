-- ===== src/Tests/Varlens.antt =====
-- Comparisons of strings.
use learning_journey.Base.{◌≡◌, refl, ◌⊎◌, List, [], ◌∷◌, ok, ℕ, pos}
use learning_journey.Types.{new_varchar, cmp_true, cmp_false, boolean, new_wider, new_int8}
use learning_journey.Types.Varlen.{compare_equals, compare_less_than, compare_greater_than, cast_as}
use learning_journey.Types.Varlen.Lexical.{Before, compare-Before}
use learning_journey.Tests.Integers.{demo}

abbrev ab : List ℕ
ab = 97 ∷ 98 ∷ []

abbrev b : List ℕ
b = 98 ∷ []

compare-Before_example :
    ((ab ≡ b)
      × (compare_equals demo (new_varchar demo ab) (new_varchar demo b) ≡ ok cmp_true)
      × (compare_less_than demo (new_varchar demo ab) (new_varchar demo b) ≡ ok cmp_false)
      × (compare_greater_than demo (new_varchar demo ab) (new_varchar demo b) ≡ ok cmp_false))
    ⊎ (Before ab b
        × (compare_equals demo (new_varchar demo ab) (new_varchar demo b) ≡ ok cmp_false)
        × (compare_less_than demo (new_varchar demo ab) (new_varchar demo b) ≡ ok cmp_true)
        × (compare_greater_than demo (new_varchar demo ab) (new_varchar demo b) ≡ ok cmp_false))
    ⊎ Before b ab
      × (compare_equals demo (new_varchar demo ab) (new_varchar demo b) ≡ ok cmp_false)
      × (compare_less_than demo (new_varchar demo ab) (new_varchar demo b) ≡ ok cmp_false)
      × (compare_greater_than demo (new_varchar demo ab) (new_varchar demo b) ≡ ok cmp_true)
compare-Before_example = compare-Before demo ab b

-- "T" is cast to TRUE.
capital_true : cast_as demo (new_varchar demo (84 ∷ [])) boolean ≡ new_int8 demo boolean (pos 1)
unfolding cast_as new_varchar new_wider
capital_true = refl
