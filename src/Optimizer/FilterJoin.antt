-- ===== src/Optimizer/FilterJoin.antt =====
-- merge_filter_nlj.cpp: the predicate of a filter over a join whose own is TRUE becomes the join's.
use learning_journey.Base.{
  ℕ, ◌≡◌, refl, sym, ◌∙◌, inl, inr, Bool, true, false, ok, ◌>>=◌, if◌then◌else◌, length, Returns,
  bind_then,
}
use mathlib.Core.Path.{subst}
use learning_journey.Types.{Library}
use learning_journey.Schema.{Schema}
use learning_journey.Expressions.{rewrite_expression_for_join}
use learning_journey.Expressions.Rewrite.{InRange, rewrite_iff}
use learning_journey.Plans.{
  ColumnExpression, JoinType, inner_join, Plan, seq_scan, filter, nested_loop_join, projection,
  other, column_count,
}
use learning_journey.Plans.Meaning.{Database, meaning}
use learning_journey.Plans.Sound.{NotConstant, SoundJoin, Sound}
use learning_journey.Plans.Arity.{meaning-Arity}
use learning_journey.Optimizer.{is_predicate_true, merge_filter_nlj_node, optimize_merge_filter_nlj}
use learning_journey.Optimizer.Traversal.{Kept, Keeps, unchanged, bottom_up-Kept}
use learning_journey.Optimizer.Joined.{rewrite-Definite, join_filter}
use learning_journey.Optimizer.TrueFilter.{TrueConstant, is_predicate_true-Definite}

module _ {D K : Type 0} (lib : Library D) (db : Database D K) where
  inner_only :
      (n : ℕ) (join_type : JoinType) (on : ColumnExpression D)
      → TrueConstant on
      → SoundJoin lib db n join_type on
      → join_type ≡ inner_join
  inner_only n join_type on c (inl e) = e
  inner_only n join_type on c (inr (not_constant, _)) =
      absurd (subst NotConstant c.is_constant not_constant)

  merged-Kept :
      (output o : Schema) (predicate on merged : ColumnExpression D) (l r : Plan D K)
      (join_type : JoinType)
      → Sound lib db (filter output predicate (nested_loop_join o l r on join_type))
      → TrueConstant on
      → rewrite_expression_for_join predicate (column_count l) (column_count r) ≡ ok merged
      → Kept lib db
          (filter output predicate (nested_loop_join o l r on join_type))
          (nested_loop_join output l r merged join_type)
  unfolding Sound meaning
  merged-Kept output o predicate on merged l r join_type
        ((sound_l, sound_r, counts, _, fits), columns, definite, _) c rewritten =
      let inner = inner_only (length o.columns) join_type on c fits in
      record {
        sound = (
          sound_l,
          sound_r,
          columns ∙ counts,
          rewrite-Definite lib predicate merged (column_count l) (column_count r) definite
              rewritten,
          inl inner,
        );
        columns = refl;
        same =
            subst
              (λ j.
                meaning lib db (nested_loop_join output l r merged j)
                ≡ meaning lib db (filter output predicate (nested_loop_join o l r on j)))
              (sym inner)
              (join_filter lib predicate merged (column_count l) (column_count r) rewritten db on c
                (meaning lib db l) (meaning lib db r) (meaning-Arity lib db l sound_l)
                (meaning-Arity lib db r sound_r));
      }

  merged_or_not :
      (output o : Schema) (predicate on : ColumnExpression D) (l r : Plan D K)
      (join_type : JoinType) (b : Bool)
      → Sound lib db (filter output predicate (nested_loop_join o l r on join_type))
      → (b ≡ true → TrueConstant on)
      → Returns
          (if b
            then (rewrite_expression_for_join predicate (column_count l) (column_count r)
                >>= λ merged. ok (nested_loop_join output l r merged join_type))
            else ok (filter output predicate (nested_loop_join o l r on join_type)))
          (Kept lib db (filter output predicate (nested_loop_join o l r on join_type)))
  unfolding Sound
  merged_or_not output o predicate on l r join_type true sound is_true =
      let ((_, _, counts, _, _), _, _, in_range) = sound in
      let (merged, rewritten) =
        (rewrite_iff predicate (column_count l) (column_count r)).0
          (subst (λ n. InRange n predicate) counts in_range) in
      (
        nested_loop_join output l r merged join_type,
        bind_then (rewrite_expression_for_join predicate _ _) _ rewritten refl,
        merged-Kept output o predicate on merged l r join_type sound (is_true refl) rewritten,
      )
  merged_or_not output o predicate on l r join_type false sound is_true =
      unchanged lib db (filter output predicate (nested_loop_join o l r on join_type)) sound

  node-Kept : Keeps lib db (merge_filter_nlj_node lib)
  unfolding merge_filter_nlj_node Sound
  node-Kept (filter output predicate (nested_loop_join o l r on j)) sound =
      let (b, test, is_true) = is_predicate_true-Definite lib on sound.0.3 in
      let (made, run, k) = merged_or_not output o predicate on l r j b sound is_true in
      (made, bind_then (is_predicate_true lib on) _ test run, k)
  node-Kept (filter output predicate (seq_scan o oid name p)) sound =
      unchanged lib db (filter output predicate (seq_scan o oid name p)) sound
  node-Kept (filter output predicate (filter o p c)) sound =
      unchanged lib db (filter output predicate (filter o p c)) sound
  node-Kept (filter output predicate (projection o es c)) sound =
      unchanged lib db (filter output predicate (projection o es c)) sound
  node-Kept (filter output predicate (other o k cs)) sound =
      unchanged lib db (filter output predicate (other o k cs)) sound
  node-Kept (seq_scan o oid name p) sound = unchanged lib db (seq_scan o oid name p) sound
  node-Kept (nested_loop_join o l r p j) sound = unchanged lib db (nested_loop_join o l r p j) sound
  node-Kept (projection o es c) sound = unchanged lib db (projection o es c) sound
  node-Kept (other o k cs) sound = unchanged lib db (other o k cs) sound

  -- On a plan that fits its schemas, and whose joins with a constant predicate are INNER, merging
  -- filters into joins gives, when it ends without an error, a plan that does so too, that has as
  -- many columns and gives the same tuples in the same order, or the same error.
  pub optimize-FilterJoin : Keeps lib db (optimize_merge_filter_nlj lib)
  unfolding optimize_merge_filter_nlj
  optimize-FilterJoin = bottom_up-Kept lib db (merge_filter_nlj_node lib) node-Kept
