-- ===== src/Expressions.antt =====
-- bustub/src/include/execution/expressions: arithmetic, comparisons, logic, columns and constants,
-- with the values of Types, and `RewriteExpressionForJoin` of
-- bustub/src/optimizer/merge_filter_nlj.cpp. A row stands for a tuple with its schema: what
-- `GetValue` answers at each index. The return type of an expression is only moved, so it is a
-- parameter. `GetAs` of a member that the value does not hold is `undefined`, and so is an `int32_t`
-- that overflows.
pub mod Rewrite
pub mod Logic
use learning_journey.Base.{
  ℕ, ◌+◌, ◌-◌, Bool, true, false, not, ◌&&◌, ◌||◌, Option, none, some, Outcome, ok, throw, failure,
  terminated, undefined, ◌>>=◌, ◌>>◌, throw_if, ltb, ◌==◌, if◌then◌else◌, ℤ, pos, negsuc, ◌+ℤ◌,
  ◌-ℤ◌, eqb_ℤ,
}
use learning_journey.Types.{
  TypeId, boolean, integer, varchar, CmpBool, cmp_false, cmp_true, cmp_null, Value, Library, int32,
  int8, fits, int_null, new_int8, new_int32,
}
use learning_journey.Types.Boolean
use learning_journey.Types.Varlen
use learning_journey.Types.Values

pub data ArithmeticType : Type 0 where
  plus minus : ArithmeticType

pub data ComparisonType : Type 0 where
  equal not_equal less_than less_than_or_equal greater_than greater_than_or_equal : ComparisonType

pub data LogicType : Type 0 where
  and or : LogicType

pub data Expression (C D : Type 0) : Type 0 where
  column : (tuple_idx col_idx : ℕ) → C → Expression C D
  constant : Value D → Expression C D
  arithmetic : ArithmeticType → C → Expression C D → Expression C D → Expression C D
  comparison : ComparisonType → C → Expression C D → Expression C D → Expression C D
  logic : LogicType → C → Expression C D → Expression C D → Expression C D

abbrev pub Row : Type 0 → Type 0
Row D = ℕ → Outcome (Value D)

abbrev get_as_int32 : {D : Type 0} → Value D → Outcome ℤ
get_as_int32 v = elim v.type_id [ integer ↦ ok v.number | _ ↦ throw undefined ]

abbrev pub get_as_bool : {D : Type 0} → Value D → Outcome Bool
get_as_bool v = elim v.type_id [
  | boolean ↦
      if eqb_ℤ v.number (pos 0)
      then ok false
      else if eqb_ℤ v.number (pos 1)
      then ok true
      else throw undefined
  | _ ↦ throw undefined
]

abbrev computed : ArithmeticType → ℤ → ℤ → ℤ
computed plus a b = a +ℤ b
computed minus a b = a -ℤ b

-- `PerformComputation` of an arithmetic expression.
unfoldable pub perform_arithmetic :
    {D : Type 0} → ArithmeticType → Value D → Value D → Outcome (Option ℤ)
perform_arithmetic compute_type lhs rhs =
    if lhs.is_null || rhs.is_null
    then ok none
    else (get_as_int32 lhs >>= λ a. get_as_int32 rhs >>= λ b.
        throw_if (not (fits int32 (computed compute_type a b))) undefined
        >> ok (some (computed compute_type a b)))

unfoldable pub get_bool_as_cmp_bool : {D : Type 0} → Value D → Outcome CmpBool
get_bool_as_cmp_bool v =
    if v.is_null then ok cmp_null else get_as_bool v >>= λ b. ok (if b then cmp_true else cmp_false)

abbrev pub is : CmpBool → CmpBool → Bool
is cmp_false cmp_false = true
is cmp_true cmp_true = true
is cmp_null cmp_null = true
is _ _ = false

-- The switch of `PerformComputation` of a logic expression.
unfoldable pub combine : LogicType → CmpBool → CmpBool → CmpBool
combine and l r =
    if is l cmp_false || is r cmp_false
    then cmp_false
    else if is l cmp_true && is r cmp_true
    then cmp_true
    else cmp_null
combine or l r =
    if is l cmp_false && is r cmp_false
    then cmp_false
    else if is l cmp_true || is r cmp_true
    then cmp_true
    else cmp_null

-- `static_cast<int8_t>`, with the value for NULL.
abbrev pub boolean_byte : CmpBool → ℤ
boolean_byte cmp_false = pos 0
boolean_byte cmp_true = pos 1
boolean_byte cmp_null = int_null int8

module _ {D : Type 0} (lib : Library D) where
  unfoldable pub get_boolean_value : CmpBool → Outcome (Value D)
  get_boolean_value b = new_int8 lib boolean (boolean_byte b)

  unfoldable pub arithmetic_value : ArithmeticType → Value D → Value D → Outcome (Value D)
  arithmetic_value compute_type lhs rhs = perform_arithmetic compute_type lhs rhs >>= λ res.
      new_int32 lib integer (elim res [ none ↦ int_null int32 | some n ↦ n ])

  -- The method of the class of the left value.
  by_class :
      (booleans strings integers : Value D → Value D → Outcome CmpBool)
      → Value D
      → Value D
      → Outcome CmpBool
  by_class booleans strings integers lhs rhs = elim lhs.type_id [
    | boolean ↦ booleans lhs rhs
    | varchar ↦ strings lhs rhs
    | _ ↦ integers lhs rhs
  ]

  unfoldable pub perform_comparison : ComparisonType → Value D → Value D → Outcome CmpBool
  unfolding by_class
  perform_comparison equal =
      by_class (Boolean.compare_equals lib) (Varlen.compare_equals lib) (Values.compare_equals lib)
  perform_comparison not_equal =
      by_class (Boolean.compare_not_equals lib) (Varlen.compare_not_equals lib)
        (Values.compare_not_equals lib)
  perform_comparison less_than =
      by_class (Boolean.compare_less_than lib) (Varlen.compare_less_than lib)
        (Values.compare_less_than lib)
  perform_comparison less_than_or_equal =
      by_class (Boolean.compare_less_than_equals lib) (Varlen.compare_less_than_equals lib)
        (Values.compare_less_than_equals lib)
  perform_comparison greater_than =
      by_class (Boolean.compare_greater_than lib) (Varlen.compare_greater_than lib)
        (Values.compare_greater_than lib)
  perform_comparison greater_than_or_equal =
      by_class (Boolean.compare_greater_than_equals lib) (Varlen.compare_greater_than_equals lib)
        (Values.compare_greater_than_equals lib)

  unfoldable pub logic_value : LogicType → Value D → Value D → Outcome (Value D)
  logic_value logic_type lhs rhs = get_bool_as_cmp_bool lhs >>= λ l.
      get_bool_as_cmp_bool rhs >>= λ r. get_boolean_value (combine logic_type l r)

  module _ {C : Type 0} where
    unfoldable pub evaluate : Expression C D → Row D → Outcome (Value D)
    evaluate (column tuple_idx col_idx ret_type) row = row col_idx
    evaluate (constant val) row = ok val
    evaluate (arithmetic compute_type ret_type l r) row =
        evaluate l row >>= λ lhs. evaluate r row >>= λ rhs. arithmetic_value compute_type lhs rhs
    evaluate (comparison comp_type ret_type l r) row = evaluate l row >>= λ lhs.
        evaluate r row >>= λ rhs. perform_comparison comp_type lhs rhs >>= λ b. get_boolean_value b
    evaluate (logic logic_type ret_type l r) row =
        evaluate l row >>= λ lhs. evaluate r row >>= λ rhs. logic_value logic_type lhs rhs

    -- `!value.IsNull() && value.GetAs<bool>()` of `FilterExecutor`
    unfoldable pub passes : Expression C D → Row D → Outcome Bool
    passes filter_expr row =
        evaluate filter_expr row >>= λ v. if v.is_null then ok false else get_as_bool v

    unfoldable pub evaluate_join : Expression C D → Row D → Row D → Outcome (Value D)
    evaluate_join (column tuple_idx col_idx ret_type) left right =
        if tuple_idx == 0 then left col_idx else right col_idx
    evaluate_join (constant val) left right = ok val
    evaluate_join (arithmetic compute_type ret_type l r) left right =
        evaluate_join l left right >>= λ lhs.
        evaluate_join r left right >>= λ rhs. arithmetic_value compute_type lhs rhs
    evaluate_join (comparison comp_type ret_type l r) left right =
        evaluate_join l left right >>= λ lhs. evaluate_join r left right >>= λ rhs.
        perform_comparison comp_type lhs rhs >>= λ b. get_boolean_value b
    evaluate_join (logic logic_type ret_type l r) left right = evaluate_join l left right >>= λ lhs.
        evaluate_join r left right >>= λ rhs. logic_value logic_type lhs rhs

module _ {C D : Type 0} where
  -- The children of an expression are rewritten before it is.
  unfoldable pub rewrite_expression_for_join : Expression C D → ℕ → ℕ → Outcome (Expression C D)
  rewrite_expression_for_join (column tuple_idx col_idx ret_type) left_cnt right_cnt =
      throw_if (not (tuple_idx == 0)) terminated
      >> (if ltb col_idx left_cnt
          then ok (column 0 col_idx ret_type)
          else if ltb col_idx (left_cnt + right_cnt)
          then ok (column 1 (col_idx - left_cnt) ret_type)
          else throw failure)
  rewrite_expression_for_join (constant val) left_cnt right_cnt = ok (constant val)
  rewrite_expression_for_join (arithmetic compute_type ret_type l r) left_cnt right_cnt =
      rewrite_expression_for_join l left_cnt right_cnt >>= λ l.
      rewrite_expression_for_join r left_cnt right_cnt >>= λ r.
      ok (arithmetic compute_type ret_type l r)
  rewrite_expression_for_join (comparison comp_type ret_type l r) left_cnt right_cnt =
      rewrite_expression_for_join l left_cnt right_cnt >>= λ l.
      rewrite_expression_for_join r left_cnt right_cnt >>= λ r.
      ok (comparison comp_type ret_type l r)
  rewrite_expression_for_join (logic logic_type ret_type l r) left_cnt right_cnt =
      rewrite_expression_for_join l left_cnt right_cnt >>= λ l.
      rewrite_expression_for_join r left_cnt right_cnt >>= λ r. ok (logic logic_type ret_type l r)
