-- ===== src/Tests/Expressions.antt =====
-- The expression `#0.0 + 1 < #0.1` over rows of integers.

use learning_journey.Base.{false, true, ℕ, ◌≡◌, refl, ok, throw, failure, terminated, ℤ, pos}
use learning_journey.Types.{
  int8, boolean, CmpBool, cmp_null, cmp_false, cmp_true, store, wrap, new_int8,
}
use learning_journey.Tests.Integers.{demo, int}
use learning_journey.Expressions.{
  Expression, column, constant, arithmetic, comparison, logic, plus, less_than, and, or, Row,
  evaluate, evaluate_join, passes, rewrite_expression_for_join, get_boolean_value, boolean_byte,
}
use learning_journey.Expressions.Rewrite.{joined, InRange, evaluate_join-rewrite, rewrite_iff}
use learning_journey.Expressions.Logic.{evaluate-logic}

abbrev less : (tuple_idx col_idx : ℕ) → Expression ℕ ℤ
less tuple_idx col_idx =
    comparison less_than 0 (arithmetic plus 0 (column 0 0 0) (constant (int (pos 1))))
      (column tuple_idx col_idx 0)

abbrev five : Row ℤ
five i = ok (int (pos 5))

abbrev seven : Row ℤ
seven i = ok (int (pos 7))

less_rewritten : rewrite_expression_for_join (less 0 1) 1 1 ≡ ok (less 1 0)
unfolding rewrite_expression_for_join
less_rewritten = refl

out_of_columns : rewrite_expression_for_join (less 0 2) 1 1 ≡ throw failure
unfolding rewrite_expression_for_join
out_of_columns = refl

second_tuple : rewrite_expression_for_join (less 1 1) 1 1 ≡ throw terminated
unfolding rewrite_expression_for_join
second_tuple = refl

evaluate_join-rewrite_example :
    evaluate_join demo (less 1 0) five seven ≡ evaluate demo (less 0 1) (joined 1 five seven)
evaluate_join-rewrite_example =
    evaluate_join-rewrite demo 1 1 five seven (less 0 1) (less 1 0) less_rewritten

rewrite_iff_example : InRange 2 (less 0 1)
rewrite_iff_example = (rewrite_iff (less 0 1) 1 1).1 (less 1 0) less_rewritten

abbrev truth : CmpBool → Expression ℕ ℤ
truth b = constant (store demo boolean int8 (boolean_byte b))

evaluate-logic_example :
    (evaluate demo (logic and 0 (truth cmp_null) (truth cmp_false)) five
      ≡ get_boolean_value demo cmp_false)
    × (evaluate demo (logic or 0 (truth cmp_null) (truth cmp_false)) five
        ≡ get_boolean_value demo cmp_null)
unfolding evaluate get_boolean_value new_int8
evaluate-logic_example =
    evaluate-logic demo 0 (truth cmp_null) (truth cmp_false) five cmp_null cmp_false refl refl

failing_run : passes demo (truth cmp_null) five ≡ ok false
unfolding passes evaluate store wrap
failing_run = refl

passing_run : passes demo (truth cmp_true) five ≡ ok true
unfolding passes evaluate store wrap
passing_run = refl
