-- ===== src/Optimizer/Traversal.antt =====
-- The traversal that the rules share: when a rule keeps what a node gives, so does its traversal.
use learning_journey.Base.{
  ◌+◌, ◌≡◌, refl, sym, ◌∙◌, ap, ap₂, ◌∷◌, Outcome, ok, ◌>>=◌, Returns, bind_then,
}
use mathlib.Core.Path.{subst}
use learning_journey.Types.{Library}
use learning_journey.Expressions.Rewrite.{InRange}
use learning_journey.Plans.{
  Plan, Plans, seq_scan, filter, nested_loop_join, projection, other, none_left, plan_and,
  column_count,
}
use learning_journey.Plans.Meaning.{
  Database, keep, each, passes_tuple, project, join, meaning, meaning_all,
}
use learning_journey.Plans.Sound.{Sound, AllSound}
use learning_journey.Optimizer.{bottom_up, all_bottom_up}

module _ {D K : Type 0} (lib : Library D) (db : Database D K) where
  -- A sound plan that gives the same tuples, or the same error, in as many columns.
  pub record Kept (before after : Plan D K) : Type 0 where
    pub sound : Sound lib db after
    pub columns : column_count after ≡ column_count before
    pub same : meaning lib db after ≡ meaning lib db before

  pub record AllKept (before after : Plans D K) : Type 0 where
    pub sound : AllSound lib db after
    pub same : meaning_all lib db after ≡ meaning_all lib db before

  -- The rule ends without an error, in a plan that keeps what the old one gives.
  abbrev pub Keeps : (Plan D K → Outcome (Plan D K)) → Type 0
  Keeps rule = (plan : Plan D K) → Sound lib db plan → Returns (rule plan) (Kept plan)

  pub unchanged : (plan : Plan D K) → Sound lib db plan → Returns (ok plan) (Kept plan)
  unchanged plan sound = (plan, refl, record { sound = sound; columns = refl; same = refl })

  pub Kept-trans : {a b c : Plan D K} → Kept a b → Kept b c → Kept a c
  Kept-trans k h = record {
    sound = h.sound;
    columns = h.columns ∙ k.columns;
    same = h.same ∙ k.same;
  }

  module _ (node : Plan D K → Outcome (Plan D K)) (keeps : Keeps node) where
    -- The node with its children optimized, then what the rule makes of it.
    then_node :
        (plan cloned : Plan D K) (r : Outcome (Plan D K))
        → Kept plan cloned
        → r ≡ node cloned
        → Returns r (Kept plan)
    then_node plan cloned r k run =
        let (made, run', h) = keeps cloned k.sound in (made, run ∙ run', Kept-trans k h)

    mutual
      unfolding bottom_up all_bottom_up meaning meaning_all Sound AllSound

      pub bottom_up-Kept : Keeps (bottom_up node)
      bottom_up-Kept (seq_scan output oid name predicate) sound =
          keeps (seq_scan output oid name predicate) sound
      bottom_up-Kept (filter output predicate child) (sound, columns, definite, in_range) =
          let (c, run, k) = bottom_up-Kept child sound in
          then_node (filter output predicate child) (filter output predicate c) _
            (record {
              sound = (
                k.sound,
                columns ∙ sym k.columns,
                definite,
                subst (λ n. InRange n predicate) (sym k.columns) in_range,
              );
              columns = refl;
              same = ap (λ m. m >>= keep (passes_tuple lib predicate)) k.same;
            })
            (bind_then (bottom_up node child) _ run refl)
      bottom_up-Kept (nested_loop_join output l r predicate join_type)
            (sound_l, sound_r, columns, definite, fits) =
          let (l', run_l, k) = bottom_up-Kept l sound_l in
          let (r', run_r, h) = bottom_up-Kept r sound_r in
          then_node (nested_loop_join output l r predicate join_type)
            (nested_loop_join output l' r' predicate join_type) _
            (record {
              sound = (
                k.sound,
                h.sound,
                columns ∙ ap₂ ◌+◌ (sym k.columns) (sym h.columns),
                definite,
                fits,
              );
              columns = refl;
              same =
                  ap₂ (λ m n. m >>= λ ls. n >>= λ rs. join lib db join_type predicate ls rs) k.same
                    h.same;
            })
            (bind_then (bottom_up node l) _ run_l (bind_then (bottom_up node r) _ run_r refl))
      bottom_up-Kept (projection output es child) (sound, columns) =
          let (c, run, k) = bottom_up-Kept child sound in
          then_node (projection output es child) (projection output es c) _
            (record {
              sound = (k.sound, columns);
              columns = refl;
              same = ap (λ m. m >>= each (project lib es)) k.same;
            })
            (bind_then (bottom_up node child) _ run refl)
      bottom_up-Kept (other output kind children) (sound, fits) =
          let (cs, run, k) = all_bottom_up-AllKept children sound in
          then_node (other output kind children) (other output kind cs) _
            (record {
              sound = (k.sound, fits);
              columns = refl;
              same = ap (λ m. m >>= db.others kind) k.same;
            })
            (bind_then (all_bottom_up node children) _ run refl)

      all_bottom_up-AllKept :
          (plans : Plans D K)
          → AllSound lib db plans
          → Returns (all_bottom_up node plans) (AllKept plans)
      all_bottom_up-AllKept none_left sound = (none_left, refl, record { sound = tt; same = refl })
      all_bottom_up-AllKept (plan_and plan plans) (sound, sounds) =
          let (p, run, k) = bottom_up-Kept plan sound in
          let (ps, runs, h) = all_bottom_up-AllKept plans sounds in
          (
            plan_and p ps,
            bind_then (bottom_up node plan) _ run
                (bind_then (all_bottom_up node plans) _ runs refl),
            record {
              sound = (k.sound, h.sound);
              same = ap₂ (λ m n. m >>= λ rows. n >>= λ rest. ok (rows ∷ rest)) k.same h.same;
            },
          )
