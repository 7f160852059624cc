-- ===== src/Optimizer/Projection.antt =====
-- merge_projection.cpp: a projection onto the columns of its child, in their order and of their
-- types, gives what the child gives.
use learning_journey.Base.{
  ℕ, zero, suc, ◌+◌, ◌<◌, ◌≡◌, refl, sym, ◌∙◌, ap, ap₂, Bool, true, false, ◌&&◌, List, [], ◌∷◌,
  some, none, Outcome, ok, throw, undefined, ◌>>=◌, if◌then◌else◌, arith, length, drop, get_elem?,
  Returns,
}
use mathlib.Core.Path.{subst}
use learning_journey.Types.{Value, Library}
use learning_journey.Schema.{Column, Schema}
use learning_journey.Expressions.{column, constant, arithmetic, comparison, logic, evaluate}
use learning_journey.Plans.{
  ColumnExpression, Plan, seq_scan, filter, nested_loop_join, projection, other, output_schema,
  with_schema, same_types, column_count,
}
use learning_journey.Plans.Meaning.{Tuple, Database, each, as_row, project, meaning}
use learning_journey.Plans.Sound.{Arity, HasArity, SoundJoin, Sound}
use learning_journey.Plans.Arity.{meaning-Arity}
use learning_journey.Optimizer.{is_identical, merge_projection_node, optimize_merge_projection}
use learning_journey.Optimizer.Traversal.{Kept, Keeps, unchanged, bottom_up-Kept}

length-same_types : (xs ys : List Column) → same_types xs ys ≡ true → length xs ≡ length ys
unfolding same_types
length-same_types [] [] same = refl
length-same_types [] (y ∷ ys) same = absurd (ground arith)
length-same_types (x ∷ xs) [] same = absurd (ground arith)
length-same_types (x ∷ xs) (y ∷ ys) same = ap suc (length-same_types xs ys (ground arith))

-- A list from an index on.
drop_at {ℓ} :
    {A : Type ℓ} (xs : List A) (i : ℕ)
    → i < length xs
    → (x : A) × (get_elem? xs i ≡ some x) × (drop i xs ≡ x ∷ drop (suc i) xs)
drop_at [] i below = absurd (omega arith)
drop_at (x ∷ xs) zero below = (x, refl, refl)
drop_at (x ∷ xs) (suc i) below = drop_at xs i (omega arith)

drop_all {ℓ} : {A : Type ℓ} (xs : List A) (i : ℕ) → i ≡ length xs → [] ≡ drop i xs
drop_all [] zero e = refl
drop_all [] (suc i) e = refl
drop_all (x ∷ xs) zero e = absurd (omega arith)
drop_all (x ∷ xs) (suc i) e = drop_all xs i (omega arith)

module _ {D : Type 0} (lib : Library D) where
  column_then :
      (tuple_idx col_idx idx : ℕ) (ret_type : Column) (es : List (ColumnExpression D))
      → is_identical (column tuple_idx col_idx ret_type ∷ es) idx ≡ true
      → (col_idx ≡ idx) × (is_identical es (suc idx) ≡ true)
  unfolding is_identical
  column_then tuple_idx col_idx idx ret_type es same = (
    ground arith,
    subst (λ n. is_identical es n ≡ true) {x = idx + 1} (omega arith) (ground arith),
  )

  row_at : (t : Tuple D) (i : ℕ) (v : Value D) → get_elem? t i ≡ some v → as_row t i ≡ ok v
  row_at t i v found = ap (λ o. elim o [ some v ↦ ok v | none ↦ throw undefined ]) found

  project_from :
      (es : List (ColumnExpression D)) (t : Tuple D) (i : ℕ)
      → is_identical es i ≡ true
      → length es + i ≡ length t
      → project lib es t ≡ ok (drop i t)
  unfolding each evaluate is_identical
  project_from [] t i same len = ap ok (drop_all t i (omega arith))
  project_from (column tuple_idx col_idx ret_type ∷ es) t i same len =
      let (at, rest) = column_then tuple_idx col_idx i ret_type es same in
      let (v, found, split) = drop_at t i (omega arith) in
      let tail = project_from es t (suc i) rest (omega arith) in
      ap₂ (λ p q. p >>= λ y. q >>= λ ys. ok (y ∷ ys)) (ap (as_row t) at ∙ row_at t i v found) tail
      ∙ ap ok (sym split)
  project_from (constant v ∷ es) t i same len = absurd (ground arith)
  project_from (arithmetic op r a b ∷ es) t i same len = absurd (ground arith)
  project_from (comparison op r a b ∷ es) t i same len = absurd (ground arith)
  project_from (logic op r a b ∷ es) t i same len = absurd (ground arith)

  each-project :
      (es : List (ColumnExpression D)) (ts : List (Tuple D)) (n : ℕ)
      → is_identical es 0 ≡ true
      → length es ≡ n
      → Arity n ts
      → each (project lib es) ts ≡ ok ts
  unfolding each
  each-project es [] n same len all = refl
  each-project es (t ∷ ts) n same len all =
      rw
        (project_from es t 0 same (omega (arith, all.0)), each-project es ts n same len all.1, each)
        refl

  unprojected :
      (m : Outcome (List (Tuple D))) (es : List (ColumnExpression D)) (n : ℕ)
      → is_identical es 0 ≡ true
      → length es ≡ n
      → HasArity n m
      → m ≡ m >>= each (project lib es)
  unprojected (ok ts) es n same len fits = sym (each-project es ts n same len (fits ts refl))
  unprojected (throw e) es n same len fits = refl

  module _ {K : Type 0} (db : Database D K) where
    meaning-with_schema :
        (plan : Plan D K) (s : Schema) → meaning lib db (with_schema plan s) ≡ meaning lib db plan
    unfolding meaning with_schema
    meaning-with_schema (seq_scan o oid name none) s = refl
    meaning-with_schema (seq_scan o oid name (some p)) s = refl
    meaning-with_schema (filter o p c) s = refl
    meaning-with_schema (nested_loop_join o l r p j) s = refl
    meaning-with_schema (projection o es c) s = refl
    meaning-with_schema (other o k cs) s = refl

    output-with_schema : (plan : Plan D K) (s : Schema) → output_schema (with_schema plan s) ≡ s
    unfolding with_schema
    output-with_schema (seq_scan o oid name p) s = refl
    output-with_schema (filter o p c) s = refl
    output-with_schema (nested_loop_join o l r p j) s = refl
    output-with_schema (projection o es c) s = refl
    output-with_schema (other o k cs) s = refl

    with_schema-Sound :
        (plan : Plan D K) (s : Schema)
        → column_count plan ≡ length s.columns
        → Sound lib db plan
        → Sound lib db (with_schema plan s)
    unfolding Sound with_schema
    with_schema-Sound (seq_scan o oid name p) s same sound =
        subst (λ n. Arity n (db.tables oid)) same sound
    with_schema-Sound (filter o p c) s same (sound, columns, definite, in_range) =
        (sound, sym same ∙ columns, definite, in_range)
    with_schema-Sound (nested_loop_join o l r p j) s same
          (sound_l, sound_r, columns, definite, fits) =
        (
          sound_l,
          sound_r,
          sym same ∙ columns,
          definite,
          subst (λ n. SoundJoin lib db n j p) same fits,
        )
    with_schema-Sound (projection o es c) s same (sound, columns) = (sound, columns ∙ same)
    with_schema-Sound (other o k cs) s same (sound, fits) =
        (sound, λ inputs. subst (λ n. HasArity n (db.others k inputs)) same (fits inputs))

    dropped-Kept :
        (output : Schema) (es : List (ColumnExpression D)) (child : Plan D K)
        → Sound lib db (projection output es child)
        → same_types (output_schema child).columns output.columns ≡ true
        → is_identical es 0 ≡ true
        → Kept lib db (projection output es child) (with_schema child output)
    unfolding Sound meaning
    dropped-Kept output es child (sound, columns) same identical =
        let count = length-same_types (output_schema child).columns output.columns same in
        record {
          sound = with_schema-Sound child output count sound;
          columns = ap (λ s. length s.columns) (output-with_schema child output);
          same =
              meaning-with_schema child output
              ∙ unprojected (meaning lib db child) es (column_count child) identical
                  (columns ∙ sym count) (meaning-Arity lib db child sound);
        }

    dropped_or_not :
        (output : Schema) (es : List (ColumnExpression D)) (child : Plan D K) (a b : Bool)
        → Sound lib db (projection output es child)
        → same_types (output_schema child).columns output.columns ≡ a
        → is_identical es 0 ≡ b
        → Returns
            (if a && b then ok (with_schema child output) else ok (projection output es child))
            (Kept lib db (projection output es child))
    dropped_or_not output es child true true sound same identical =
        (with_schema child output, refl, dropped-Kept output es child sound same identical)
    dropped_or_not output es child true false sound same identical =
        unchanged lib db (projection output es child) sound
    dropped_or_not output es child false b sound same identical =
        unchanged lib db (projection output es child) sound

    node-Kept : Keeps lib db merge_projection_node
    unfolding merge_projection_node
    node-Kept (projection output es child) sound =
        dropped_or_not output es child (same_types (output_schema child).columns output.columns)
          (is_identical es 0) sound refl refl
    node-Kept (seq_scan o oid name p) sound = unchanged lib db (seq_scan o oid name p) sound
    node-Kept (filter o p c) sound = unchanged lib db (filter o p c) sound
    node-Kept (nested_loop_join o l r p j) sound =
        unchanged lib db (nested_loop_join o l r p j) sound
    node-Kept (other o k cs) sound = unchanged lib db (other o k cs) sound

    -- On a plan that fits its schemas, dropping identical projections gives a plan that does so
    -- too, that has as many columns and gives the same tuples in the same order, or the same error.
    pub optimize-Projection : Keeps lib db optimize_merge_projection
    unfolding optimize_merge_projection
    optimize-Projection = bottom_up-Kept lib db merge_projection_node node-Kept
