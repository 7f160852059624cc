-- ===== src/Tests/Tuples.antt =====
-- A tuple of an integer, a string and a truth value.
use learning_journey.Base.{
  ℕ, ◌+◌, ◌-◌, ◌^◌, ◌<◌, ◌≡◌, refl, List, [], ◌∷◌, some, ok, Returns, arith, ℤ, pos, inr, length,
  get_elem?,
}
use learning_journey.Types.{Value, integer, boolean, int8, int32, store, new_varchar}
use learning_journey.Schema.{Column, new_schema}
use learning_journey.Schema.Layout.{total}
use learning_journey.Tuples.{
  Tuple, new_tuple, get_value, serialize_tuple, deserialize_tuple, payload,
}
use learning_journey.TablePage.Memory.{read_bytes}
use learning_journey.Tuples.Cells.{truth, number, characters}
use learning_journey.Tuples.Fill.{apart_total}
use learning_journey.Tuples.Stored.{AllFit, get_value-new_tuple}
use learning_journey.Tuples.Copied.{deserialize-serialize_tuple}
use learning_journey.Tests.Integers.{demo}
use learning_journey.Tests.Schemas.{a, b, c}

abbrev columns : List Column
columns = a 0 ∷ b 0 ∷ c 0 ∷ []

abbrev hi : List ℕ
hi = 104 ∷ 105 ∷ []

-- 7, "hi" and TRUE
abbrev values : List (Value ℤ)
values =
    store demo integer int32 (pos 7) ∷ new_varchar demo hi ∷ store demo boolean int8 (pos 1) ∷ []

short : length hi + 1 < 2 ^ 32 - 1
short = omega arith

values_fit : AllFit demo columns values
values_fit = (
  (number int32, refl, (refl, pos 7, refl)),
  ((characters, refl, inr (hi, short, refl)), ((truth, refl, (refl, pos 1, refl)), tt)),
)

small : total columns + apart_total demo columns values < 2 ^ 31
unfolding payload new_varchar
small = omega arith

few : length columns < 2 ^ 32
few = omega arith

get_value-new_tuple_example : Returns (new_tuple demo values (new_schema columns)) (λ t.
    (i : ℕ) (v : Value ℤ)
    → get_elem? values i ≡ some v
    → get_value demo t (new_schema columns) i ≡ ok v)
get_value-new_tuple_example = get_value-new_tuple demo columns values values_fit small few

abbrev two_bytes : Tuple
two_bytes = record { size = 2; bytes = λ i. i + 5 }

fits_int : 2 < 2 ^ 31
fits_int = omega arith

deserialize-serialize_tuple_example :
    (written : ℕ → ℕ) × (serialize_tuple two_bytes (λ _. 9) 3 ≡ ok written)
    × ((deserialize_tuple written 3).size ≡ 2)
    × (read_bytes (deserialize_tuple written 3).bytes 0 2 ≡ read_bytes (λ i. i + 5) 0 2)
deserialize-serialize_tuple_example = (deserialize-serialize_tuple two_bytes (λ _. 9) 3).0 fits_int
