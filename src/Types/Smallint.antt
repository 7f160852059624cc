-- ===== src/Types/Smallint.antt =====
-- bustub/src/type/smallint_type.cpp: the methods of `SmallintType`. `ToString` is left out.
use learning_journey.Base.{Bool, Outcome, ok, List, ℕ, pos, eqb_ℤ}
use learning_journey.Types.{Width, int16, TypeId, CmpBool, Value, Library, new_decimal}
use learning_journey.Types.Arithmetic.{
  add_value, subtract_value, multiply_value, divide_value, modulo_value,
}
use learning_journey.Types.Family
use learning_journey.Types.Family.{
  Comparison, eq, ne, lt, le, gt, ge, compare_func, modify_func, comparison, operation, division,
  square_root, val_mod,
}

module _ {D : Type 0} (lib : Library D) where
  -- The macro `SMALLINT_COMPARE_FUNC`.
  unfoldable pub smallint_compare_func : Comparison → Value D → Value D → Outcome CmpBool
  unfolding compare_func
  smallint_compare_func op left right = compare_func lib int16 op left right

  -- The macro `SMALLINT_MODIFY_FUNC`.
  unfoldable pub smallint_modify_func :
      (Width → Value D → Value D → Outcome (Value D))
      → (D → D → D)
      → Value D
      → Value D
      → Outcome (Value D)
  unfolding modify_func
  smallint_modify_func method op left right = modify_func lib int16 method op left right

  abbrev pub is_zero : Value D → Bool
  is_zero v = eqb_ℤ v.number (pos 0)

  unfoldable pub add : Value D → Value D → Outcome (Value D)
  unfolding operation add_value smallint_modify_func
  add left right =
      operation lib int16 (smallint_modify_func (add_value lib int16) lib.add) left right

  unfoldable pub subtract : Value D → Value D → Outcome (Value D)
  unfolding operation subtract_value smallint_modify_func
  subtract left right =
      operation lib int16 (smallint_modify_func (subtract_value lib int16) lib.sub) left right

  unfoldable pub multiply : Value D → Value D → Outcome (Value D)
  unfolding operation multiply_value smallint_modify_func
  multiply left right =
      operation lib int16 (smallint_modify_func (multiply_value lib int16) lib.mul) left right

  unfoldable pub divide : Value D → Value D → Outcome (Value D)
  unfolding division divide_value smallint_modify_func
  divide left right =
      division lib int16 (smallint_modify_func (divide_value lib int16) lib.div) left right

  unfoldable pub modulo : Value D → Value D → Outcome (Value D)
  unfolding division modulo_value modify_func
  modulo left right =
      division lib int16 (modify_func lib int16 (modulo_value lib int16) (val_mod lib)) left right

  unfoldable pub operate_null : Value D → Outcome (Value D)
  unfolding Family.operate_null
  operate_null right = Family.operate_null lib int16 right

  unfoldable pub sqrt : Value D → Outcome (Value D)
  unfolding square_root
  sqrt v = square_root lib (ok (new_decimal lib lib.decimal_null)) v

  unfoldable pub compare_equals : Value D → Value D → Outcome CmpBool
  unfolding smallint_compare_func
  compare_equals left right = comparison (smallint_compare_func eq) left right

  unfoldable pub compare_not_equals : Value D → Value D → Outcome CmpBool
  unfolding smallint_compare_func
  compare_not_equals left right = comparison (smallint_compare_func ne) left right

  unfoldable pub compare_less_than : Value D → Value D → Outcome CmpBool
  unfolding smallint_compare_func
  compare_less_than left right = comparison (smallint_compare_func lt) left right

  unfoldable pub compare_less_than_equals : Value D → Value D → Outcome CmpBool
  unfolding smallint_compare_func
  compare_less_than_equals left right = comparison (smallint_compare_func le) left right

  unfoldable pub compare_greater_than : Value D → Value D → Outcome CmpBool
  unfolding smallint_compare_func
  compare_greater_than left right = comparison (smallint_compare_func gt) left right

  unfoldable pub compare_greater_than_equals : Value D → Value D → Outcome CmpBool
  unfolding smallint_compare_func
  compare_greater_than_equals left right = comparison (smallint_compare_func ge) left right

  unfoldable pub serialize_to : Value D → List ℕ
  unfolding Family.serialize
  serialize_to v = Family.serialize lib int16 v

  unfoldable pub deserialize_from : List ℕ → Outcome (Value D)
  unfolding Family.deserialize
  deserialize_from storage = Family.deserialize lib int16 storage

  unfoldable pub copy : Value D → Outcome (Value D)
  unfolding Family.copy
  copy v = Family.copy lib int16 v

  unfoldable pub cast_as : Value D → TypeId → Outcome (Value D)
  unfolding Family.cast_as
  cast_as v type_id = Family.cast_as lib int16 v type_id
