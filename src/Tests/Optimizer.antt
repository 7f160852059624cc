-- ===== src/Tests/Optimizer.antt =====
-- A filter over a cross join of two tables of integers.
use learning_journey.Base.{
  ℕ, ◌≡◌, refl, true, List, [], ◌∷◌, none, ok, throw, failure, Returns, ok_unique, ◌<◌, ℤ, pos, inl,
  zero, suc, arith,
}
use learning_journey.Types.{integer, boolean, int8, store, wrap, new_int8}
use learning_journey.Schema.{Column, Schema}
use learning_journey.Expressions.{
  column, constant, comparison, less_than, get_boolean_value, rewrite_expression_for_join,
}
use learning_journey.Plans.{
  ColumnExpression, Plan, with_schema, same_types, none_left, plan_and, seq_scan, filter,
  nested_loop_join, projection, other, inner_join,
}
use learning_journey.Plans.Meaning.{Database, Tuple}
use learning_journey.Plans.Sound.{Arity, Sound}
use learning_journey.Types.Boolean
use mathlib.Core.Path.{subst}
use learning_journey.Optimizer.{
  optimize_merge_filter_nlj, optimize_merge_projection, optimize_eliminate_true_filter, bottom_up,
  all_bottom_up, merge_projection_node, merge_filter_nlj_node, eliminate_true_filter_node,
  is_predicate_true, is_identical,
}
use learning_journey.Optimizer.Traversal.{Kept}
use learning_journey.Optimizer.Rules.{
  merge_projection, merge_filter_nlj, eliminate_true_filter, optimize, optimize-Kept,
}
use learning_journey.Tests.Integers.{demo, int}

abbrev number : Column
number = record { column_name = []; column_type = integer; storage_size = 4; column_offset = 0 }

abbrev of_columns : List Column → Schema
of_columns columns = record {
  inlined_storage_size = 4;
  columns = columns;
  tuple_is_inlined = true;
  uninlined_columns = [];
}

abbrev row : ℕ → Tuple ℤ
row n = int (pos n) ∷ []

-- Table 0 has 1 and 5, any other has 3.
abbrev two_tables : Database ℤ ℕ
two_tables = record {
  tables = λ oid. elim oid [ zero ↦ row 1 ∷ row 5 ∷ [] | suc _ ↦ row 3 ∷ [] ];
  outer = λ join_type predicate ls rs. throw failure;
  others = λ kind inputs. ok [];
}

abbrev scan : ℕ → Plan ℤ ℕ
scan oid = seq_scan (of_columns (number ∷ [])) oid [] none

abbrev truth : ColumnExpression ℤ
truth = constant (store demo boolean int8 (pos 1))

abbrev less : ℕ → ℕ → ColumnExpression ℤ
less tuple_idx col_idx =
    comparison less_than number (column 0 0 number) (column tuple_idx col_idx number)

abbrev pair : Schema
pair = of_columns (number ∷ number ∷ [])

abbrev cross : ColumnExpression ℤ → Plan ℤ ℕ
cross on = nested_loop_join pair (scan 0) (scan 1) on inner_join

-- With a projection onto both columns, and below another kind of node.
abbrev query : Plan ℤ ℕ
query = other pair 0 (
    plan_and
      (projection pair (column 0 0 number ∷ column 0 1 number ∷ [])
        (filter pair truth (filter pair (less 0 1) (cross truth))))
      none_left)

zero_below_two : 0 < 2
zero_below_two = omega arith

one_below_two : 1 < 2
one_below_two = omega arith

query-Sound : Sound demo two_tables query
unfolding Sound get_boolean_value new_int8 store wrap
query-Sound = (
  (
    (
      (
        (
          ((refl, (refl, tt)), (refl, tt), refl, (true, refl), inl refl),
          refl,
          tt,
          ((refl, zero_below_two), (refl, one_below_two)),
        ),
        refl,
        (true, refl),
        tt,
      ),
      refl,
    ),
    tt,
  ),
  λ inputs rows run. subst (Arity 2) (ok_unique _ refl run) tt,
)

query_optimized :
    optimize demo (merge_projection ∷ merge_filter_nlj ∷ eliminate_true_filter ∷ []) query
    ≡ ok (other pair 0 (plan_and (cross (less 1 0)) none_left))
unfolding optimize optimize_merge_projection optimize_merge_filter_nlj
    optimize_eliminate_true_filter bottom_up all_bottom_up merge_projection_node
    merge_filter_nlj_node eliminate_true_filter_node is_predicate_true is_identical same_types
    with_schema Boolean.cast_as Boolean.copy new_int8 store wrap rewrite_expression_for_join
query_optimized = refl

optimize-Kept_example :
    Returns
      (optimize demo (merge_projection ∷ merge_filter_nlj ∷ eliminate_true_filter ∷ []) query)
      (Kept demo two_tables query)
optimize-Kept_example =
    optimize-Kept demo two_tables (merge_projection ∷ merge_filter_nlj ∷ eliminate_true_filter ∷ [])
      query query-Sound
