-- ===== src/Tests/Integers.antt =====
-- The integer types at concrete values, with integers in the place of `double`.
use learning_journey.Base.{
  ℤ, pos, negsuc, ◌+ℤ◌, ◌-ℤ◌, ◌*ℤ◌, ltb_ℤ, leb_ℤ, eqb_ℤ, ◌≡◌, ◌⊎◌, true, refl, arith, ◌>>=◌, ok,
  throw, out_of_range, invalid_argument, [],
}
use learning_journey.Types.{
  int8, int16, int32, int64, Value, Library, store, tinyint, smallint, integer, cmp_true, cmp_false,
}
use learning_journey.Types.Arithmetic.{quotient}
use learning_journey.Types.Checked.{integer_value}
use learning_journey.Types.Sums.{add_exact}
use learning_journey.Types.Order.{Less, Answers, compare-Less}
use learning_journey.Types.Casts.{cast_exact, deserialize-serialize}
use learning_journey.Types.Division.{division_exact}
use learning_journey.Types.Values

abbrev pub demo : Library ℤ
demo = record {
  of_int = λ z. z;
  add = λ x y. x +ℤ y;
  sub = λ x y. x -ℤ y;
  mul = λ x y. x *ℤ y;
  div = λ x y. x;
  trunc = λ x. x;
  sqrt = λ x. x;
  eqb = λ x y. eqb_ℤ x y;
  ltb = λ x y. ltb_ℤ x y;
  leb = λ x y. leb_ℤ x y;
  decimal_null = negsuc 0;
  stoi = λ s. throw invalid_argument;
  stoll = λ s. throw invalid_argument;
  to_string = λ z. [];
}

abbrev tiny : ℤ → Value ℤ
tiny x = integer_value demo int8 x

abbrev small : ℤ → Value ℤ
small x = integer_value demo int16 x

abbrev pub int : ℤ → Value ℤ
int x = integer_value demo int32 x

abbrev big : ℤ → Value ℤ
big x = integer_value demo int64 x

add_exact_example :
    Values.add demo (tiny (negsuc 99)) (tiny (negsuc 27))
    ≡ ok (record (tiny (negsuc 127)) { is_null = true })
unfolding ◌+ℤ◌
add_exact_example =
    add_exact demo int8 int8 (negsuc 99) (negsuc 27) (omega arith, omega arith)
      (omega arith, omega arith)

division_exact_example :
    (Values.divide demo (int (negsuc 6)) (tiny (pos 2)) ≡ ok (store demo integer int32 (negsuc 2)))
    × (Values.modulo demo (int (negsuc 6)) (tiny (pos 2))
        ≡ ok (store demo integer int32 (negsuc 0)))
unfolding quotient ◌-ℤ◌ ◌*ℤ◌
division_exact_example =
    division_exact demo int32 int8 (negsuc 6) (pos 2) (omega arith, omega arith) refl

compare-Less_example :
    let a = tiny (negsuc 4) in
    let b = big (pos 900) in
    ((negsuc 4 ≡ pos 900)
      × Answers demo a b cmp_true cmp_false cmp_false cmp_true cmp_false cmp_true)
    ⊎ (Less (negsuc 4) (pos 900)
        × Answers demo a b cmp_false cmp_true cmp_true cmp_true cmp_false cmp_false)
    ⊎ Less (pos 900) (negsuc 4)
      × Answers demo a b cmp_false cmp_true cmp_false cmp_false cmp_true cmp_true
compare-Less_example = compare-Less demo int8 int64 (negsuc 4) (pos 900)

cast_exact_example : Values.cast_as demo (int (pos 300)) tinyint ≡ throw out_of_range
cast_exact_example = cast_exact demo int32 int8 (pos 300) (omega arith, omega arith)

deserialize-serialize_example :
    (Values.serialize_to demo (small (negsuc 299)) >>= λ storage.
    Values.deserialize_from demo storage smallint)
    ≡ ok (small (negsuc 299))
deserialize-serialize_example =
    deserialize-serialize demo int16 (negsuc 299) (omega arith, omega arith)
