-- ===== src/Types/Decimal.antt =====
-- bustub/src/type/decimal_type.cpp, and the cast of a VARCHAR to a DECIMAL. What the C++ library
-- does with a `double` beyond `Library` is a parameter.
pub mod Flipped
use learning_journey.Base.{
  Bool, true, false, not, ◌||◌, List, ℕ, Outcome, ok, throw, failure, assertion_failed,
  out_of_range, std_out_of_range, divide_by_zero, decimal_error, ◌>>=◌, ◌>>◌, throw_if,
  if◌then◌else◌, ℤ, pos,
}
use learning_journey.Types.{
  TypeId, tinyint, smallint, integer, bigint, decimal, varchar, Width, int8, int16, int32, int64,
  CmpBool, cmp_null, cmp_true, get_cmp_bool, Value, Library, new_int, int_null, new_decimal,
  new_varchar, blank, check_comparable,
}
use learning_journey.Types.Family.{
  Comparison, eq, ne, lt, le, gt, ge, double_test, val_mod, is_zero, type_of, int_min, int_max,
  varlen_null,
}

-- `stod`, the limits of a DECIMAL, `static_cast` to an integer and `std::to_string`.
pub record Doubles (D : Type 0) : Type 0 where
  pub stod : List ℕ → Outcome D
  pub decimal_min : D
  pub decimal_max : D
  pub to_int : D → ℤ
  pub to_text : D → List ℕ

abbrev catch_double : {D : Type 0} → Outcome D → Outcome D
catch_double (throw std_out_of_range) = throw out_of_range
catch_double r = r

module _ {D : Type 0} (lib : Library D) (doubles : Doubles D) where
  -- The case of `VarlenType::CastAs`.
  unfoldable pub varchar_as_decimal : Value D → Outcome (Value D)
  varchar_as_decimal v =
      catch_double (doubles.stod (if v.is_null then varlen_null else v.text)) >>= λ res.
      throw_if (lib.ltb doubles.decimal_max res || lib.ltb res doubles.decimal_min) out_of_range
      >> ok (new_decimal lib res)

  -- The right operand as a `double`, by the switch of `DECIMAL_COMPARE_FUNC` and
  -- `DECIMAL_MODIFY_FUNC`.
  unfoldable pub right_double : Value D → TypeId → Outcome D
  unfolding varchar_as_decimal
  right_double r tinyint = ok (lib.of_int r.number)
  right_double r smallint = ok (lib.of_int r.number)
  right_double r integer = ok (lib.of_int r.number)
  right_double r bigint = ok (lib.of_int r.number)
  right_double r decimal = ok r.decimal
  right_double r varchar = varchar_as_decimal r >>= λ v. ok v.decimal
  right_double r _ = throw failure

  abbrev operate_null : Outcome (Value D)
  operate_null = ok (new_decimal lib lib.decimal_null)

  unfoldable pub modify : (D → D → D) → Value D → Value D → Outcome (Value D)
  unfolding right_double
  modify op left right =
      throw_if (not (check_comparable left right)) assertion_failed
      >> (if left.is_null || right.is_null
          then operate_null
          else right_double right right.type_id >>= λ r. ok (new_decimal lib (op left.decimal r)))

  -- The same with the test of the divisor.
  unfoldable pub modify_divided : (D → D → D) → Value D → Value D → Outcome (Value D)
  unfolding right_double is_zero
  modify_divided op left right =
      throw_if (not (check_comparable left right)) assertion_failed
      >> (if left.is_null || right.is_null
          then operate_null
          else (is_zero lib right >>= λ z.
              throw_if z divide_by_zero
              >> (right_double right right.type_id >>= λ r.
                  ok (new_decimal lib (op left.decimal r)))))

  unfoldable pub add : Value D → Value D → Outcome (Value D)
  unfolding modify
  add = modify lib.add

  unfoldable pub subtract : Value D → Value D → Outcome (Value D)
  unfolding modify
  subtract = modify lib.sub

  unfoldable pub multiply : Value D → Value D → Outcome (Value D)
  unfolding modify
  multiply = modify lib.mul

  unfoldable pub divide : Value D → Value D → Outcome (Value D)
  unfolding modify_divided
  divide = modify_divided lib.div

  unfoldable pub modulo : Value D → Value D → Outcome (Value D)
  unfolding modify_divided val_mod
  modulo = modify_divided (val_mod lib)

  unfoldable pub sqrt : Value D → Outcome (Value D)
  sqrt v =
      if v.is_null
      then operate_null
      else (throw_if (lib.ltb v.decimal (lib.of_int (pos 0))) decimal_error
          >> ok (new_decimal lib (lib.sqrt v.decimal)))

  unfoldable pub compare : Comparison → Value D → Value D → Outcome CmpBool
  unfolding right_double
  compare op left right =
      throw_if (not (check_comparable left right)) assertion_failed
      >> (if left.is_null || right.is_null
          then ok cmp_null
          else right_double right right.type_id >>= λ r.
              ok (get_cmp_bool (double_test lib op left.decimal r)))

  unfoldable pub compare_equals : Value D → Value D → Outcome CmpBool
  unfolding compare
  compare_equals = compare eq

  unfoldable pub compare_not_equals : Value D → Value D → Outcome CmpBool
  unfolding compare
  compare_not_equals = compare ne

  unfoldable pub compare_less_than : Value D → Value D → Outcome CmpBool
  unfolding compare
  compare_less_than = compare lt

  unfoldable pub compare_less_than_equals : Value D → Value D → Outcome CmpBool
  unfolding compare
  compare_less_than_equals = compare le

  unfoldable pub compare_greater_than : Value D → Value D → Outcome CmpBool
  unfolding compare
  compare_greater_than = compare gt

  unfoldable pub compare_greater_than_equals : Value D → Value D → Outcome CmpBool
  unfolding compare
  compare_greater_than_equals = compare ge

  abbrev is_true : CmpBool → Bool
  is_true cmp_true = true
  is_true _ = false

  unfoldable pub min : Value D → Value D → Outcome (Value D)
  unfolding compare_less_than_equals
  min left right =
      throw_if (not (check_comparable left right)) assertion_failed
      >> (if left.is_null || right.is_null
          then operate_null
          else compare_less_than_equals left right >>= λ c. ok (if is_true c then left else right))

  unfoldable pub max : Value D → Value D → Outcome (Value D)
  unfolding compare_greater_than_equals
  max left right =
      throw_if (not (check_comparable left right)) assertion_failed
      >> (if left.is_null || right.is_null
          then operate_null
          else compare_greater_than_equals left right >>= λ c.
              ok (if is_true c then left else right))

  abbrev too_large : Width → D → Bool
  too_large int64 d = lib.leb (lib.of_int (int_max int64)) d
  too_large w d = lib.ltb (lib.of_int (int_max w)) d

  -- The case of `CastAs` for an integer of the width `w`; the largest BIGINT is refused.
  abbrev cast_integer : Width → Value D → Outcome (Value D)
  cast_integer w v =
      if v.is_null
      then new_int lib w (type_of w) (int_null w)
      else (throw_if (too_large w v.decimal || lib.ltb v.decimal (lib.of_int (int_min w)))
            out_of_range
          >> new_int lib w (type_of w) (doubles.to_int v.decimal))

  unfoldable pub cast_as : Value D → TypeId → Outcome (Value D)
  cast_as v tinyint = cast_integer int8 v
  cast_as v smallint = cast_integer int16 v
  cast_as v integer = cast_integer int32 v
  cast_as v bigint = cast_integer int64 v
  cast_as v decimal = ok v
  cast_as v varchar =
      if v.is_null then ok (blank lib varchar) else ok (new_varchar lib (doubles.to_text v.decimal))
  cast_as v _ = throw failure
