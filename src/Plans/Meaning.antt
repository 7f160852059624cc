-- ===== src/Plans/Meaning.antt =====
-- What a plan gives, independently of the executors: the tuples of a table, those that a predicate
-- keeps, the pairs of two inputs that it keeps, or the values of expressions. A nested loop join of
-- another type than INNER, a table and every other kind of plan node is a parameter.
use learning_journey.Base.{
  ℕ, Bool, List, [], ◌∷◌, ◌++◌, map, none, some, Outcome, ok, throw, undefined, ◌>>=◌,
  if◌then◌else◌, get_elem?,
}
use learning_journey.Types.{Value, Library}
use learning_journey.Expressions.{Row, get_as_bool, evaluate, evaluate_join, passes}
use learning_journey.Plans.{
  ColumnExpression, JoinType, inner_join, Plan, Plans, seq_scan, filter, nested_loop_join,
  projection, other, none_left, plan_and,
}

abbrev pub Tuple : Type 0 → Type 0
Tuple D = List (Value D)

-- `GetValue` of a tuple with its schema.
abbrev pub as_row : {D : Type 0} → Tuple D → Row D
as_row t i = elim (get_elem? t i) [ some v ↦ ok v | none ↦ throw undefined ]

module _ {ℓ} {A : Type ℓ} where
  unfoldable pub keep : (A → Outcome Bool) → List A → Outcome (List A)
  keep p [] = ok []
  keep p (x ∷ xs) = p x >>= λ b. keep p xs >>= λ rest. ok (if b then x ∷ rest else rest)

  unfoldable pub each {κ} : {B : Type κ} → (A → Outcome B) → List A → Outcome (List B)
  each f [] = ok []
  each f (x ∷ xs) = f x >>= λ y. each f xs >>= λ ys. ok (y ∷ ys)

abbrev pub pairs {ℓ} : {A : Type ℓ} → List A → List A → List (A × A)
pairs [] rs = []
pairs (l ∷ ls) rs = map (λ r. (l, r)) rs ++ pairs ls rs

abbrev pub glue {ℓ} : {A : Type ℓ} → List A × List A → List A
glue (l, r) = l ++ r

pub record Database (D K : Type 0) : Type 0 where
  pub tables : ℕ → List (Tuple D)
  pub outer :
      JoinType → ColumnExpression D → List (Tuple D) → List (Tuple D) → Outcome (List (Tuple D))
  pub others : K → List (List (Tuple D)) → Outcome (List (Tuple D))

module _ {D : Type 0} (lib : Library D) where
  abbrev pub passes_tuple : ColumnExpression D → Tuple D → Outcome Bool
  passes_tuple predicate t = passes lib predicate (as_row t)

  unfoldable pub passes_pair : ColumnExpression D → Tuple D × Tuple D → Outcome Bool
  passes_pair predicate (l, r) = evaluate_join lib predicate (as_row l) (as_row r) >>= λ v.
      if v.is_null then ok Bool.false else get_as_bool v

  abbrev pub project : List (ColumnExpression D) → Tuple D → Outcome (Tuple D)
  project expressions t = each (λ e. evaluate lib e (as_row t)) expressions

  module _ {K : Type 0} (db : Database D K) where
    abbrev pub join :
        JoinType → ColumnExpression D → List (Tuple D) → List (Tuple D) → Outcome (List (Tuple D))
    join inner_join predicate ls rs =
        keep (passes_pair predicate) (pairs ls rs) >>= λ ps. ok (map glue ps)
    join join_type predicate ls rs = db.outer join_type predicate ls rs

    unfoldable mutual
      pub meaning : Plan D K → Outcome (List (Tuple D))
      meaning (seq_scan output table_oid table_name none) = ok (db.tables table_oid)
      meaning (seq_scan output table_oid table_name (some predicate)) =
          keep (passes_tuple predicate) (db.tables table_oid)
      meaning (filter output predicate child) = meaning child >>= keep (passes_tuple predicate)
      meaning (nested_loop_join output left right predicate join_type) =
          meaning left >>= λ ls. meaning right >>= λ rs. join join_type predicate ls rs
      meaning (projection output expressions child) = meaning child >>= each (project expressions)
      meaning (other output kind children) = meaning_all children >>= db.others kind

      pub meaning_all : Plans D K → Outcome (List (List (Tuple D)))
      meaning_all none_left = ok []
      meaning_all (plan_and plan plans) =
          meaning plan >>= λ rows. meaning_all plans >>= λ rest. ok (rows ∷ rest)
