-- ===== src/Optimizer.antt =====
-- The rules of bustub/src/optimizer that need no catalog: merge_projection.cpp,
-- merge_filter_nlj.cpp, merge_filter_scan.cpp and eliminate_true_filter.cpp.
-- Every rule optimizes the children of a node, clones the node with them and then looks at it, which
-- is `bottom_up`; what it makes of the one node is a function of its own.
pub mod Traversal
pub mod TrueFilter
pub mod FilterScan
pub mod Joined
pub mod FilterJoin
pub mod Projection
pub mod Rules
use learning_journey.Base.{
  ℕ, ◌+◌, Bool, true, false, ◌&&◌, List, [], ◌∷◌, Option, none, some, Outcome, ok, throw, failure,
  ◌>>=◌, ◌==◌, if◌then◌else◌, length,
}
use learning_journey.Types.{Value, Library, TypeId, boolean, varchar, decimal}
use learning_journey.Types.Values
use learning_journey.Types.Boolean
use learning_journey.Types.Varlen
use learning_journey.Schema.{Column, Schema}
use learning_journey.Expressions.{
  column, constant, arithmetic, comparison, logic, get_as_bool, rewrite_expression_for_join,
}
use learning_journey.Strings.{String, ends_with}
use learning_journey.Plans.{
  ColumnExpression, Plan, Plans, seq_scan, filter, nested_loop_join, projection, other, none_left,
  plan_and, output_schema, with_schema, same_types, column_count,
}

module _ {D : Type 0} (lib : Library D) where
  -- `CastAs(TypeId::BOOLEAN)`, by the class of the type.
  abbrev cast_to_boolean : Value D → Outcome (Value D)
  cast_to_boolean v = elim v.type_id [
    | boolean ↦ Boolean.cast_as lib v boolean
    | varchar ↦ Varlen.cast_as lib v boolean
    | decimal ↦ throw failure
    | _ ↦ Values.cast_as lib v boolean
  ]

  unfoldable pub is_predicate_true : ColumnExpression D → Outcome Bool
  is_predicate_true (constant val) = cast_to_boolean val >>= get_as_bool
  is_predicate_true _ = ok false

-- Whether the expressions are the columns of the child from `idx` on.
unfoldable pub is_identical : {D : Type 0} → List (ColumnExpression D) → ℕ → Bool
is_identical [] idx = true
is_identical (column tuple_idx col_idx ret_type ∷ expressions) idx =
    ((tuple_idx == 0) && (col_idx == idx)) && is_identical expressions (idx + 1)
is_identical (_ ∷ expressions) idx = false

module _ {D K : Type 0} where
  unfoldable mutual
    pub bottom_up : (Plan D K → Outcome (Plan D K)) → Plan D K → Outcome (Plan D K)
    bottom_up node (seq_scan output table_oid table_name filter_predicate) =
        node (seq_scan output table_oid table_name filter_predicate)
    bottom_up node (filter output predicate child) =
        bottom_up node child >>= λ child. node (filter output predicate child)
    bottom_up node (nested_loop_join output left right predicate join_type) =
        bottom_up node left >>= λ left. bottom_up node right >>= λ right.
        node (nested_loop_join output left right predicate join_type)
    bottom_up node (projection output expressions child) =
        bottom_up node child >>= λ child. node (projection output expressions child)
    bottom_up node (other output kind children) =
        all_bottom_up node children >>= λ children. node (other output kind children)

    pub all_bottom_up : (Plan D K → Outcome (Plan D K)) → Plans D K → Outcome (Plans D K)
    all_bottom_up node none_left = ok none_left
    all_bottom_up node (plan_and plan plans) = bottom_up node plan >>= λ plan.
        all_bottom_up node plans >>= λ plans. ok (plan_and plan plans)

  unfoldable pub merge_projection_node : Plan D K → Outcome (Plan D K)
  merge_projection_node (projection output expressions child) =
      if same_types (output_schema child).columns output.columns && is_identical expressions 0
      then ok (with_schema child output)
      else ok (projection output expressions child)
  merge_projection_node plan = ok plan

  unfoldable pub merge_filter_scan_node : Plan D K → Outcome (Plan D K)
  merge_filter_scan_node (filter output predicate (seq_scan o table_oid table_name none)) =
      ok (seq_scan output table_oid table_name (some predicate))
  merge_filter_scan_node plan = ok plan

  module _ (lib : Library D) where
    unfoldable pub eliminate_true_filter_node : Plan D K → Outcome (Plan D K)
    eliminate_true_filter_node (filter output predicate child) =
        is_predicate_true lib predicate >>= λ b.
        if b then ok child else ok (filter output predicate child)
    eliminate_true_filter_node plan = ok plan

    unfoldable pub merge_filter_nlj_node : Plan D K → Outcome (Plan D K)
    merge_filter_nlj_node (filter output predicate (nested_loop_join o left right on join_type)) =
        is_predicate_true lib on >>= λ b.
        if b
        then (rewrite_expression_for_join predicate (column_count left) (column_count right)
            >>= λ merged. ok (nested_loop_join output left right merged join_type))
        else ok (filter output predicate (nested_loop_join o left right on join_type))
    merge_filter_nlj_node plan = ok plan

  unfoldable pub optimize_merge_projection : Plan D K → Outcome (Plan D K)
  optimize_merge_projection = bottom_up merge_projection_node

  unfoldable pub optimize_merge_filter_scan : Plan D K → Outcome (Plan D K)
  optimize_merge_filter_scan = bottom_up merge_filter_scan_node

  module _ (lib : Library D) where
    unfoldable pub optimize_eliminate_true_filter : Plan D K → Outcome (Plan D K)
    optimize_eliminate_true_filter = bottom_up (eliminate_true_filter_node lib)

    unfoldable pub optimize_merge_filter_nlj : Plan D K → Outcome (Plan D K)
    optimize_merge_filter_nlj = bottom_up (merge_filter_nlj_node lib)

-- The suffixes "_1m", "_100k", "_50k", "_10k", "_1k" and "_100" of a table's name.
unfoldable pub estimated_cardinality : String → Option ℕ
estimated_cardinality table_name =
    if ends_with table_name (95 ∷ 49 ∷ 109 ∷ [])
    then some 1000000
    else if ends_with table_name (95 ∷ 49 ∷ 48 ∷ 48 ∷ 107 ∷ [])
    then some 100000
    else if ends_with table_name (95 ∷ 53 ∷ 48 ∷ 107 ∷ [])
    then some 50000
    else if ends_with table_name (95 ∷ 49 ∷ 48 ∷ 107 ∷ [])
    then some 10000
    else if ends_with table_name (95 ∷ 49 ∷ 107 ∷ [])
    then some 1000
    else if ends_with table_name (95 ∷ 49 ∷ 48 ∷ 48 ∷ [])
    then some 100
    else none
