-- ===== src/Types/Nulls.antt =====
-- NULL among the operands of the integer types.
use learning_journey.Base.{ℤ, ◌≡◌, refl, Bool, true, ◌||◌, Outcome, ok}
use learning_journey.Types.{
  Width, int8, int16, int32, int64, Value, Library, comparable, cmp_null, wrap, store, int_null,
  new_int8, new_wider,
}
use learning_journey.Types.Family.{wider_of, type_of, operation, division, operate_null}
use learning_journey.Types.Checked.{integer_value}
use learning_journey.Types.Tinyint
use learning_journey.Types.Smallint
use learning_journey.Types.Integer
use learning_journey.Types.Bigint
use learning_journey.Types.Values

module _ {D : Type 0} (lib : Library D) where
  -- A value of an integer type, NULL or not.
  abbrev pub any_value : Width → Bool → ℤ → Value D
  any_value w n x = record (integer_value lib w x) { is_null = n }

  abbrev pub null_result : Width → Outcome (Value D)
  null_result w = ok (store lib (type_of w) w (int_null w))

  -- If either of two integer values is NULL, each of the five arithmetic operations gives NULL, of
  -- the wider of the two types, also where the right one is zero.
  pub null_operand :
      (v w : Width) (n m : Bool) (x y : ℤ)
      → n || m ≡ true
      → let a = any_value v n x in
        let b = any_value w m y in
        (Values.add lib a b ≡ null_result (wider_of v w))
        × (Values.subtract lib a b ≡ null_result (wider_of v w))
        × (Values.multiply lib a b ≡ null_result (wider_of v w))
        × (Values.divide lib a b ≡ null_result (wider_of v w))
        × (Values.modulo lib a b ≡ null_result (wider_of v w))
  unfolding Values.instance_of comparable operation division operate_null new_int8 new_wider store
      wrap Values.add Tinyint.add Smallint.add Integer.add Bigint.add Values.subtract
      Tinyint.subtract Smallint.subtract Integer.subtract Bigint.subtract Values.multiply
      Tinyint.multiply Smallint.multiply Integer.multiply Bigint.multiply Values.divide
      Tinyint.divide Smallint.divide Integer.divide Bigint.divide Values.modulo Tinyint.modulo
      Smallint.modulo Integer.modulo Bigint.modulo Tinyint.tinyint_modify_func
      Smallint.smallint_modify_func Integer.integer_modify_func Bigint.bigint_modify_func
  null_operand int8 int8 n m x y h = (rw h refl, rw h refl, rw h refl, rw h refl, rw h refl)
  null_operand int8 int16 n m x y h = (rw h refl, rw h refl, rw h refl, rw h refl, rw h refl)
  null_operand int8 int32 n m x y h = (rw h refl, rw h refl, rw h refl, rw h refl, rw h refl)
  null_operand int8 int64 n m x y h = (rw h refl, rw h refl, rw h refl, rw h refl, rw h refl)
  null_operand int16 int8 n m x y h = (rw h refl, rw h refl, rw h refl, rw h refl, rw h refl)
  null_operand int16 int16 n m x y h = (rw h refl, rw h refl, rw h refl, rw h refl, rw h refl)
  null_operand int16 int32 n m x y h = (rw h refl, rw h refl, rw h refl, rw h refl, rw h refl)
  null_operand int16 int64 n m x y h = (rw h refl, rw h refl, rw h refl, rw h refl, rw h refl)
  null_operand int32 int8 n m x y h = (rw h refl, rw h refl, rw h refl, rw h refl, rw h refl)
  null_operand int32 int16 n m x y h = (rw h refl, rw h refl, rw h refl, rw h refl, rw h refl)
  null_operand int32 int32 n m x y h = (rw h refl, rw h refl, rw h refl, rw h refl, rw h refl)
  null_operand int32 int64 n m x y h = (rw h refl, rw h refl, rw h refl, rw h refl, rw h refl)
  null_operand int64 int8 n m x y h = (rw h refl, rw h refl, rw h refl, rw h refl, rw h refl)
  null_operand int64 int16 n m x y h = (rw h refl, rw h refl, rw h refl, rw h refl, rw h refl)
  null_operand int64 int32 n m x y h = (rw h refl, rw h refl, rw h refl, rw h refl, rw h refl)
  null_operand int64 int64 n m x y h = (rw h refl, rw h refl, rw h refl, rw h refl, rw h refl)

  -- If either of two integer values is NULL, each of the six comparisons gives NULL.
  pub null_compare :
      (v w : Width) (n m : Bool) (x y : ℤ)
      → n || m ≡ true
      → let a = any_value v n x in
        let b = any_value w m y in
        (Values.compare_equals lib a b ≡ ok cmp_null)
        × (Values.compare_not_equals lib a b ≡ ok cmp_null)
        × (Values.compare_less_than lib a b ≡ ok cmp_null)
        × (Values.compare_less_than_equals lib a b ≡ ok cmp_null)
        × (Values.compare_greater_than lib a b ≡ ok cmp_null)
        × (Values.compare_greater_than_equals lib a b ≡ ok cmp_null)
  unfolding Values.instance_of comparable Values.compare_equals Tinyint.compare_equals
      Smallint.compare_equals Integer.compare_equals Bigint.compare_equals Values.compare_not_equals
      Tinyint.compare_not_equals Smallint.compare_not_equals Integer.compare_not_equals
      Bigint.compare_not_equals Values.compare_less_than Tinyint.compare_less_than
      Smallint.compare_less_than Integer.compare_less_than Bigint.compare_less_than
      Values.compare_less_than_equals Tinyint.compare_less_than_equals
      Smallint.compare_less_than_equals Integer.compare_less_than_equals
      Bigint.compare_less_than_equals Values.compare_greater_than Tinyint.compare_greater_than
      Smallint.compare_greater_than Integer.compare_greater_than Bigint.compare_greater_than
      Values.compare_greater_than_equals Tinyint.compare_greater_than_equals
      Smallint.compare_greater_than_equals Integer.compare_greater_than_equals
      Bigint.compare_greater_than_equals
  null_compare int8 int8 n m x y h =
      (rw h refl, rw h refl, rw h refl, rw h refl, rw h refl, rw h refl)
  null_compare int8 int16 n m x y h =
      (rw h refl, rw h refl, rw h refl, rw h refl, rw h refl, rw h refl)
  null_compare int8 int32 n m x y h =
      (rw h refl, rw h refl, rw h refl, rw h refl, rw h refl, rw h refl)
  null_compare int8 int64 n m x y h =
      (rw h refl, rw h refl, rw h refl, rw h refl, rw h refl, rw h refl)
  null_compare int16 int8 n m x y h =
      (rw h refl, rw h refl, rw h refl, rw h refl, rw h refl, rw h refl)
  null_compare int16 int16 n m x y h =
      (rw h refl, rw h refl, rw h refl, rw h refl, rw h refl, rw h refl)
  null_compare int16 int32 n m x y h =
      (rw h refl, rw h refl, rw h refl, rw h refl, rw h refl, rw h refl)
  null_compare int16 int64 n m x y h =
      (rw h refl, rw h refl, rw h refl, rw h refl, rw h refl, rw h refl)
  null_compare int32 int8 n m x y h =
      (rw h refl, rw h refl, rw h refl, rw h refl, rw h refl, rw h refl)
  null_compare int32 int16 n m x y h =
      (rw h refl, rw h refl, rw h refl, rw h refl, rw h refl, rw h refl)
  null_compare int32 int32 n m x y h =
      (rw h refl, rw h refl, rw h refl, rw h refl, rw h refl, rw h refl)
  null_compare int32 int64 n m x y h =
      (rw h refl, rw h refl, rw h refl, rw h refl, rw h refl, rw h refl)
  null_compare int64 int8 n m x y h =
      (rw h refl, rw h refl, rw h refl, rw h refl, rw h refl, rw h refl)
  null_compare int64 int16 n m x y h =
      (rw h refl, rw h refl, rw h refl, rw h refl, rw h refl, rw h refl)
  null_compare int64 int32 n m x y h =
      (rw h refl, rw h refl, rw h refl, rw h refl, rw h refl, rw h refl)
  null_compare int64 int64 n m x y h =
      (rw h refl, rw h refl, rw h refl, rw h refl, rw h refl, rw h refl)
