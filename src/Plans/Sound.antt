-- ===== src/Plans/Sound.antt =====
-- When a plan fits its schemas: every tuple it gives has a value for each column of its schema.
use learning_journey.Base.{ℕ, ◌+◌, ◌≡◌, ◌⊎◌, Bool, List, Outcome, ok, length, All}
use learning_journey.Types.{Library, get_cmp_bool}
use learning_journey.Expressions.{constant, get_boolean_value}
use learning_journey.Expressions.Rewrite.{InRange}
use learning_journey.Plans.{
  ColumnExpression, JoinType, inner_join, Plan, Plans, seq_scan, filter, nested_loop_join,
  projection, other, none_left, plan_and, column_count,
}
use learning_journey.Plans.Meaning.{Tuple, Database}

abbrev pub Arity : {D : Type 0} → ℕ → List (Tuple D) → Type 0
Arity n rows = All (λ t. length t ≡ n) rows

abbrev pub HasArity : {D : Type 0} → ℕ → Outcome (List (Tuple D)) → Type 0
HasArity {D} n result = (rows : List (Tuple D)) → result ≡ ok rows → Arity n rows

-- A constant predicate is TRUE or FALSE.
abbrev pub Definite : {D : Type 0} → Library D → ColumnExpression D → Type 0
Definite lib (constant v) = (b : Bool) × (get_boolean_value lib (get_cmp_bool b) ≡ ok v)
Definite lib _ = Unit

abbrev pub NotConstant : {D : Type 0} → ColumnExpression D → Type 0
NotConstant (constant v) = ⊥
NotConstant _ = Unit

module _ {D K : Type 0} (lib : Library D) (db : Database D K) where
  -- A join of another type has no constant predicate.
  abbrev pub SoundJoin : ℕ → JoinType → ColumnExpression D → Type 0
  SoundJoin n join_type predicate =
      (join_type ≡ inner_join)
      ⊎ NotConstant predicate
        × ((ls rs : List (Tuple D)) → HasArity n (db.outer join_type predicate ls rs))

  unfoldable mutual
    pub Sound : Plan D K → Type 0
    Sound (seq_scan output table_oid table_name filter_predicate) =
        Arity (length output.columns) (db.tables table_oid)
    Sound (filter output predicate child) =
        Sound child
        × (length output.columns ≡ column_count child)
        × Definite lib predicate
        × InRange (column_count child) predicate
    Sound (nested_loop_join output left right predicate join_type) =
        Sound left
        × Sound right
        × (length output.columns ≡ column_count left + column_count right)
        × Definite lib predicate
        × SoundJoin (length output.columns) join_type predicate
    Sound (projection output expressions child) =
        Sound child × (length expressions ≡ length output.columns)
    Sound (other output kind children) =
        AllSound children
        × ((inputs : List (List (Tuple D)))
            → HasArity (length output.columns) (db.others kind inputs))

    pub AllSound : Plans D K → Type 0
    AllSound none_left = Unit
    AllSound (plan_and plan plans) = Sound plan × AllSound plans
