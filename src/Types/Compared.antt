-- ===== src/Types/Compared.antt =====
-- The comparisons of two integer values as tests on their numbers.
use learning_journey.Base.{ℤ, ◌≡◌, refl, not, ok, eqb_ℤ, ltb_ℤ, leb_ℤ}
use learning_journey.Types.{Width, int8, int16, int32, int64, Library, comparable, get_cmp_bool}
use learning_journey.Types.Family.{compare_func}
use learning_journey.Types.Checked.{integer_value}
use learning_journey.Types.Tinyint
use learning_journey.Types.Smallint
use learning_journey.Types.Integer
use learning_journey.Types.Bigint
use learning_journey.Types.Values

module _ {D : Type 0} (lib : Library D) where
  -- The tests on the numbers that the comparisons come down to.
  pub record Compared (v w : Width) (x y : ℤ) : Type 0 where
    pub equals :
        Values.compare_equals lib (integer_value lib v x) (integer_value lib w y)
        ≡ ok (get_cmp_bool (eqb_ℤ x y))
    pub not_equals :
        Values.compare_not_equals lib (integer_value lib v x) (integer_value lib w y)
        ≡ ok (get_cmp_bool (not (eqb_ℤ x y)))
    pub less_than :
        Values.compare_less_than lib (integer_value lib v x) (integer_value lib w y)
        ≡ ok (get_cmp_bool (ltb_ℤ x y))
    pub less_than_equals :
        Values.compare_less_than_equals lib (integer_value lib v x) (integer_value lib w y)
        ≡ ok (get_cmp_bool (leb_ℤ x y))
    pub greater_than :
        Values.compare_greater_than lib (integer_value lib v x) (integer_value lib w y)
        ≡ ok (get_cmp_bool (ltb_ℤ y x))
    pub greater_than_equals :
        Values.compare_greater_than_equals lib (integer_value lib v x) (integer_value lib w y)
        ≡ ok (get_cmp_bool (leb_ℤ y x))

  pub compared : (v w : Width) (x y : ℤ) → Compared v w x y
  unfolding Values.instance_of comparable compare_func Values.compare_equals Tinyint.compare_equals
      Smallint.compare_equals Integer.compare_equals Bigint.compare_equals Values.compare_not_equals
      Tinyint.compare_not_equals Smallint.compare_not_equals Integer.compare_not_equals
      Bigint.compare_not_equals Values.compare_less_than Tinyint.compare_less_than
      Smallint.compare_less_than Integer.compare_less_than Bigint.compare_less_than
      Values.compare_less_than_equals Tinyint.compare_less_than_equals
      Smallint.compare_less_than_equals Integer.compare_less_than_equals
      Bigint.compare_less_than_equals Values.compare_greater_than Tinyint.compare_greater_than
      Smallint.compare_greater_than Integer.compare_greater_than Bigint.compare_greater_than
      Values.compare_greater_than_equals Tinyint.compare_greater_than_equals
      Smallint.compare_greater_than_equals Integer.compare_greater_than_equals
      Bigint.compare_greater_than_equals Tinyint.tinyint_compare_func Smallint.smallint_compare_func
      Integer.integer_compare_func Bigint.bigint_compare_func
  compared int8 int8 x y = record {
    equals = refl;
    not_equals = refl;
    less_than = refl;
    less_than_equals = refl;
    greater_than = refl;
    greater_than_equals = refl;
  }
  compared int8 int16 x y = record {
    equals = refl;
    not_equals = refl;
    less_than = refl;
    less_than_equals = refl;
    greater_than = refl;
    greater_than_equals = refl;
  }
  compared int8 int32 x y = record {
    equals = refl;
    not_equals = refl;
    less_than = refl;
    less_than_equals = refl;
    greater_than = refl;
    greater_than_equals = refl;
  }
  compared int8 int64 x y = record {
    equals = refl;
    not_equals = refl;
    less_than = refl;
    less_than_equals = refl;
    greater_than = refl;
    greater_than_equals = refl;
  }
  compared int16 int8 x y = record {
    equals = refl;
    not_equals = refl;
    less_than = refl;
    less_than_equals = refl;
    greater_than = refl;
    greater_than_equals = refl;
  }
  compared int16 int16 x y = record {
    equals = refl;
    not_equals = refl;
    less_than = refl;
    less_than_equals = refl;
    greater_than = refl;
    greater_than_equals = refl;
  }
  compared int16 int32 x y = record {
    equals = refl;
    not_equals = refl;
    less_than = refl;
    less_than_equals = refl;
    greater_than = refl;
    greater_than_equals = refl;
  }
  compared int16 int64 x y = record {
    equals = refl;
    not_equals = refl;
    less_than = refl;
    less_than_equals = refl;
    greater_than = refl;
    greater_than_equals = refl;
  }
  compared int32 int8 x y = record {
    equals = refl;
    not_equals = refl;
    less_than = refl;
    less_than_equals = refl;
    greater_than = refl;
    greater_than_equals = refl;
  }
  compared int32 int16 x y = record {
    equals = refl;
    not_equals = refl;
    less_than = refl;
    less_than_equals = refl;
    greater_than = refl;
    greater_than_equals = refl;
  }
  compared int32 int32 x y = record {
    equals = refl;
    not_equals = refl;
    less_than = refl;
    less_than_equals = refl;
    greater_than = refl;
    greater_than_equals = refl;
  }
  compared int32 int64 x y = record {
    equals = refl;
    not_equals = refl;
    less_than = refl;
    less_than_equals = refl;
    greater_than = refl;
    greater_than_equals = refl;
  }
  compared int64 int8 x y = record {
    equals = refl;
    not_equals = refl;
    less_than = refl;
    less_than_equals = refl;
    greater_than = refl;
    greater_than_equals = refl;
  }
  compared int64 int16 x y = record {
    equals = refl;
    not_equals = refl;
    less_than = refl;
    less_than_equals = refl;
    greater_than = refl;
    greater_than_equals = refl;
  }
  compared int64 int32 x y = record {
    equals = refl;
    not_equals = refl;
    less_than = refl;
    less_than_equals = refl;
    greater_than = refl;
    greater_than_equals = refl;
  }
  compared int64 int64 x y = record {
    equals = refl;
    not_equals = refl;
    less_than = refl;
    less_than_equals = refl;
    greater_than = refl;
    greater_than_equals = refl;
  }
