-- ===== src/Plans.antt =====
-- The plan nodes of bustub/src/include/execution/plans that the rules of the optimizer look at, and
-- one for every other kind with its children. A node's constructor gives it one child for a filter
-- or a projection and two for a join, so the checks of their number always hold.
pub mod Meaning
pub mod Sound
pub mod Arity
use learning_journey.Base.{ℕ, Bool, false, ◌&&◌, true, List, [], ◌∷◌, Option, ◌==◌, length}
use learning_journey.Types.{
  TypeId, invalid, boolean, tinyint, smallint, integer, bigint, decimal, varchar, timestamp, vector,
}
use learning_journey.Schema.{Column, Schema}
use learning_journey.Expressions.{Expression}

pub data JoinType : Type 0 where
  invalid_join left_join right_join inner_join outer_join : JoinType

abbrev pub ColumnExpression : Type 0 → Type 0
ColumnExpression D = Expression Column D

mutual
  pub data Plan (D K : Type 0) : Type 0 where
    seq_scan :
        (output : Schema) (table_oid : ℕ) (table_name : List ℕ)
        (filter_predicate : Option (ColumnExpression D))
        → Plan D K
    filter : (output : Schema) (predicate : ColumnExpression D) (child : Plan D K) → Plan D K
    nested_loop_join :
        (output : Schema) (left right : Plan D K) (predicate : ColumnExpression D)
        (join_type : JoinType)
        → Plan D K
    projection :
        (output : Schema) (expressions : List (ColumnExpression D)) (child : Plan D K) → Plan D K
    other : (output : Schema) (kind : K) (children : Plans D K) → Plan D K

  pub data Plans (D K : Type 0) : Type 0 where
    none_left : Plans D K
    plan_and : Plan D K → Plans D K → Plans D K

module _ {D K : Type 0} where
  abbrev pub output_schema : Plan D K → Schema
  output_schema (seq_scan output table_oid table_name filter_predicate) = output
  output_schema (filter output predicate child) = output
  output_schema (nested_loop_join output left right predicate join_type) = output
  output_schema (projection output expressions child) = output
  output_schema (other output kind children) = output

  abbrev pub column_count : Plan D K → ℕ
  column_count plan = length (output_schema plan).columns

  -- `plan->output_schema_ = …`
  unfoldable pub with_schema : Plan D K → Schema → Plan D K
  with_schema (seq_scan output table_oid table_name filter_predicate) s =
      seq_scan s table_oid table_name filter_predicate
  with_schema (filter output predicate child) s = filter s predicate child
  with_schema (nested_loop_join output left right predicate join_type) s =
      nested_loop_join s left right predicate join_type
  with_schema (projection output expressions child) s = projection s expressions child
  with_schema (other output kind children) s = other s kind children

abbrev type_code : TypeId → ℕ
type_code invalid = 0
type_code boolean = 1
type_code tinyint = 2
type_code smallint = 3
type_code integer = 4
type_code bigint = 5
type_code decimal = 6
type_code varchar = 7
type_code timestamp = 8
type_code vector = 9

-- `std::equal` on the types of columns.
unfoldable pub same_types : List Column → List Column → Bool
same_types [] [] = true
same_types (a ∷ left) (b ∷ right) =
    (type_code a.column_type == type_code b.column_type) && same_types left right
same_types _ _ = false
