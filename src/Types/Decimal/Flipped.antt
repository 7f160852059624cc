-- ===== src/Types/Decimal/Flipped.antt =====
-- A DECIMAL compared with an integer, and the integer with the DECIMAL.
use learning_journey.Base.{ℤ, false, ◌≡◌, refl}
use learning_journey.Types.{
  Width, int8, int16, int32, int64, Value, Library, decimal, blank, comparable,
}
use learning_journey.Types.Checked.{integer_value}
use learning_journey.Types.Family
use learning_journey.Types.Tinyint
use learning_journey.Types.Smallint
use learning_journey.Types.Integer
use learning_journey.Types.Bigint
use learning_journey.Types.Values
use learning_journey.Types.Decimal.{
  Doubles, right_double, compare, compare_less_than, compare_less_than_equals, compare_greater_than,
}

-- A DECIMAL that is not NULL.
abbrev pub decimal_value : {D : Type 0} → Library D → D → Value D
decimal_value lib d = record (blank lib decimal) { is_null = false; decimal = d }

-- A DECIMAL is less than an integer, or at most one, exactly when the method of the integer's type
-- finds the integer greater, or at least the DECIMAL, and the other way round.
pub compare-flipped :
    {D : Type 0} (lib : Library D) (doubles : Doubles D) (w : Width) (x : ℤ) (d : D)
    → (compare_less_than lib doubles (decimal_value lib d) (integer_value lib w x)
        ≡ Values.compare_greater_than lib (integer_value lib w x) (decimal_value lib d))
      × (compare_less_than_equals lib doubles (decimal_value lib d) (integer_value lib w x)
          ≡ Values.compare_greater_than_equals lib (integer_value lib w x) (decimal_value lib d))
      × (compare_greater_than lib doubles (decimal_value lib d) (integer_value lib w x)
          ≡ Values.compare_less_than lib (integer_value lib w x) (decimal_value lib d))
unfolding compare_less_than compare_less_than_equals compare_greater_than compare right_double
    comparable Values.compare_greater_than Values.compare_greater_than_equals
    Values.compare_less_than Values.instance_of Family.compare_func Tinyint.compare_less_than
    Tinyint.compare_greater_than Tinyint.compare_greater_than_equals Smallint.compare_less_than
    Smallint.compare_greater_than Smallint.compare_greater_than_equals Integer.compare_less_than
    Integer.compare_greater_than Integer.compare_greater_than_equals Bigint.compare_less_than
    Bigint.compare_greater_than Bigint.compare_greater_than_equals
compare-flipped lib doubles int8 x d = (refl, refl, refl)
compare-flipped lib doubles int16 x d = (refl, refl, refl)
compare-flipped lib doubles int32 x d = (refl, refl, refl)
compare-flipped lib doubles int64 x d = (refl, refl, refl)
