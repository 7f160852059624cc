-- ===== src/Optimizer/TrueFilter.antt =====
-- eliminate_true_filter.cpp: a filter whose predicate is TRUE gives what its child gives.
use learning_journey.Base.{
  ◌≡◌, refl, sym, Bool, true, false, List, [], ◌∷◌, Outcome, ok, throw, ◌>>=◌, pos, if◌then◌else◌,
  ok_unique, Returns, bind_then,
}
use mathlib.Core.Path.{subst}
use learning_journey.Types.{Value, Library, boolean, new_int8, store, int8, wrap, get_cmp_bool}
use learning_journey.Types.Boolean
use learning_journey.Expressions.{
  column, constant, arithmetic, comparison, logic, get_as_bool, get_boolean_value, Row, evaluate,
  passes,
}
use learning_journey.Schema.{Schema}
use learning_journey.Plans.{
  ColumnExpression, Plan, seq_scan, filter, nested_loop_join, projection, other,
}
use learning_journey.Plans.Meaning.{Tuple, Database, keep, as_row, passes_tuple, meaning}
use learning_journey.Plans.Sound.{Definite, Sound}
use learning_journey.Optimizer.{
  is_predicate_true, eliminate_true_filter_node, optimize_eliminate_true_filter,
}
use learning_journey.Optimizer.Traversal.{Kept, Keeps, unchanged, bottom_up-Kept}

pub keep_all {ℓ} :
    {A : Type ℓ} (p : A → Outcome Bool) (xs : List A)
    → ((x : A) → p x ≡ ok true)
    → keep p xs ≡ ok xs
unfolding keep
keep_all p [] all = refl
keep_all p (x ∷ xs) all = rw (all x, keep_all p xs all, keep) refl

-- A constant that passes whatever the row.
pub record TrueConstant {D : Type 0} (e : ColumnExpression D) : Type 0 where
  pub val : Value D
  pub is_constant : e ≡ constant val
  pub not_null : val.is_null ≡ false
  pub is_true : get_as_bool val ≡ ok true

module _ {D : Type 0} (lib : Library D) where
  truth_value :
      (b : Bool) (v : Value D)
      → get_boolean_value lib (get_cmp_bool b) ≡ ok v
      → (is_predicate_true lib (constant v) ≡ ok b) × (b ≡ true → TrueConstant (constant v))
  unfolding is_predicate_true Boolean.cast_as Boolean.copy get_boolean_value new_int8 store wrap
  truth_value true v made = (
    subst (λ v. is_predicate_true lib (constant v) ≡ ok true) (ok_unique _ refl made) refl,
    λ _.
        subst (λ v. TrueConstant (constant v)) (ok_unique _ refl made)
          (record {
            val = store lib boolean int8 (pos 1);
            is_constant = refl;
            not_null = refl;
            is_true = refl;
          }),
  )
  truth_value false v made = (
    subst (λ v. is_predicate_true lib (constant v) ≡ ok false) (ok_unique _ refl made) refl,
    λ e. absurd (cc),
  )

  -- The test of a predicate ends without an error, and is true only of TRUE.
  pub is_predicate_true-Definite :
      (e : ColumnExpression D)
      → Definite lib e
      → Returns (is_predicate_true lib e) (λ b. b ≡ true → TrueConstant e)
  unfolding is_predicate_true
  is_predicate_true-Definite (constant v) (b, made) =
      let (run, is_true) = truth_value b v made in (b, run, is_true)
  is_predicate_true-Definite (column t c r) definite = (false, refl, λ e. absurd (cc))
  is_predicate_true-Definite (arithmetic op r a b) definite = (false, refl, λ e. absurd (cc))
  is_predicate_true-Definite (comparison op r a b) definite = (false, refl, λ e. absurd (cc))
  is_predicate_true-Definite (logic op r a b) definite = (false, refl, λ e. absurd (cc))

  passes-TrueConstant :
      (e : ColumnExpression D) → TrueConstant e → (row : Row D) → passes lib e row ≡ ok true
  unfolding passes evaluate
  passes-TrueConstant e c row =
      subst (λ e. passes lib e row ≡ ok true) (sym c.is_constant)
        (rw (c.not_null, passes) c.is_true)

  unfiltered :
      (m : Outcome (List (Tuple D))) (predicate : ColumnExpression D)
      → TrueConstant predicate
      → m ≡ m >>= keep (passes_tuple lib predicate)
  unfiltered (ok ts) predicate c =
      sym
        (keep_all (passes_tuple lib predicate) ts (λ t. passes-TrueConstant predicate c (as_row t)))
  unfiltered (throw x) predicate c = refl

  module _ {K : Type 0} (db : Database D K) where
    eliminated :
        (output : Schema) (predicate : ColumnExpression D) (child : Plan D K) (b : Bool)
        → Sound lib db (filter output predicate child)
        → (b ≡ true → TrueConstant predicate)
        → Returns
            (if b then ok child else ok (filter output predicate child))
            (Kept lib db (filter output predicate child))
    unfolding Sound meaning
    eliminated output predicate child true (sound, columns, _, _) is_true = (
      child,
      refl,
      record {
        sound = sound;
        columns = sym columns;
        same = unfiltered (meaning lib db child) predicate (is_true refl);
      },
    )
    eliminated output predicate child false sound is_true =
        unchanged lib db (filter output predicate child) sound

    node-Kept : Keeps lib db (eliminate_true_filter_node lib)
    unfolding eliminate_true_filter_node Sound
    node-Kept (filter output predicate child) sound =
        let (b, test, is_true) = is_predicate_true-Definite predicate sound.2 in
        let (made, run, k) = eliminated output predicate child b sound is_true in
        (made, bind_then (is_predicate_true lib predicate) _ test run, k)
    node-Kept (seq_scan o oid name p) sound = unchanged lib db (seq_scan o oid name p) sound
    node-Kept (nested_loop_join o l r p j) sound =
        unchanged lib db (nested_loop_join o l r p j) sound
    node-Kept (projection o es c) sound = unchanged lib db (projection o es c) sound
    node-Kept (other o k cs) sound = unchanged lib db (other o k cs) sound

    pub optimize-TrueFilter : Keeps lib db (optimize_eliminate_true_filter lib)
    unfolding optimize_eliminate_true_filter
    optimize-TrueFilter = bottom_up-Kept lib db (eliminate_true_filter_node lib) node-Kept
