-- ===== src/Expressions/Rewrite.antt =====
-- `RewriteExpressionForJoin`: what it makes of an expression, and when it makes something.
use learning_journey.Base.{
  ℕ, ◌+◌, ◌-◌, ◌<◌, ◌≤◌, ◌⊎◌, inl, inr, ◌≡◌, refl, sym, ap, ◌∙◌, ok, arith, ltb, if◌then◌else◌,
  bind-ok, ok_unique,
}
use native.Mathlib.Decide.{dec_lt}
use mathlib.Core.Path.{subst}
use learning_journey.Types.{Library}
use learning_journey.Expressions.{
  Expression, column, constant, arithmetic, comparison, logic, Row, evaluate, evaluate_join,
  rewrite_expression_for_join,
}

-- The row of a join: that of the left side, then that of the right.
abbrev pub joined : {D : Type 0} → ℕ → Row D → Row D → Row D
joined left_cnt left right i = if ltb i left_cnt then left i else right (i - left_cnt)

-- Every column is of the first tuple and among so many.
abbrev pub InRange : {C D : Type 0} → ℕ → Expression C D → Type 0
InRange n (column tuple_idx col_idx ret_type) = (tuple_idx ≡ 0) × (col_idx < n)
InRange n (constant val) = Unit
InRange n (arithmetic compute_type ret_type l r) = InRange n l × InRange n r
InRange n (comparison comp_type ret_type l r) = InRange n l × InRange n r
InRange n (logic logic_type ret_type l r) = InRange n l × InRange n r

-- The two columns that a column becomes.
pub rewrite_column :
    {C D : Type 0} (tuple_idx col_idx left_cnt right_cnt : ℕ) (ret_type : C) (e' : Expression C D)
    → rewrite_expression_for_join (column tuple_idx col_idx ret_type) left_cnt right_cnt ≡ ok e'
    → (tuple_idx ≡ 0)
      × ((col_idx < left_cnt) × (column 0 col_idx ret_type ≡ e')
          ⊎ (left_cnt ≤ col_idx)
            × (col_idx < left_cnt + right_cnt)
            × (column 1 (col_idx - left_cnt) ret_type ≡ e'))
unfolding rewrite_expression_for_join
rewrite_column tuple_idx col_idx left_cnt right_cnt ret_type e' run = ground arith

module _ {C D : Type 0} (lib : Library D) (left_cnt right_cnt : ℕ) (left right : Row D) where
  -- When an expression is rewritten for a join, the value of the new one on the rows of the two
  -- sides is that of the old one on the joined row, and an error is the same.
  pub evaluate_join-rewrite :
      (e e' : Expression C D)
      → rewrite_expression_for_join e left_cnt right_cnt ≡ ok e'
      → evaluate_join lib e' left right ≡ evaluate lib e (joined left_cnt left right)
  unfolding rewrite_expression_for_join evaluate evaluate_join
  evaluate_join-rewrite (column tuple_idx col_idx ret_type) e' run =
      elim (rewrite_column tuple_idx col_idx left_cnt right_cnt ret_type e' run).1 [
        | inl (below, made) ↦ ap (λ e. evaluate_join lib e left right) (sym made) ∙ ground arith
        | inr (above, below, made) ↦
            ap (λ e. evaluate_join lib e left right) (sym made) ∙ ground arith
      ]
  evaluate_join-rewrite (constant val) e' run =
      ap (λ e. evaluate_join lib e left right) (sym (ok_unique _ refl run))
  evaluate_join-rewrite (arithmetic op ret_type l r) e' run =
      let (l', run_l, run') = bind-ok (rewrite_expression_for_join l left_cnt right_cnt) _ run in
      let (r', run_r, made) = bind-ok (rewrite_expression_for_join r left_cnt right_cnt) _ run' in
      subst
        (λ e.
          evaluate_join lib e left right
          ≡ evaluate lib (arithmetic op ret_type l r) (joined left_cnt left right))
        (ok_unique _ refl made)
        (rw (evaluate_join-rewrite l l' run_l, evaluate_join-rewrite r r' run_r, evaluate_join)
          refl)
  evaluate_join-rewrite (comparison op ret_type l r) e' run =
      let (l', run_l, run') = bind-ok (rewrite_expression_for_join l left_cnt right_cnt) _ run in
      let (r', run_r, made) = bind-ok (rewrite_expression_for_join r left_cnt right_cnt) _ run' in
      subst
        (λ e.
          evaluate_join lib e left right
          ≡ evaluate lib (comparison op ret_type l r) (joined left_cnt left right))
        (ok_unique _ refl made)
        (rw (evaluate_join-rewrite l l' run_l, evaluate_join-rewrite r r' run_r, evaluate_join)
          refl)
  evaluate_join-rewrite (logic op ret_type l r) e' run =
      let (l', run_l, run') = bind-ok (rewrite_expression_for_join l left_cnt right_cnt) _ run in
      let (r', run_r, made) = bind-ok (rewrite_expression_for_join r left_cnt right_cnt) _ run' in
      subst
        (λ e.
          evaluate_join lib e left right
          ≡ evaluate lib (logic op ret_type l r) (joined left_cnt left right))
        (ok_unique _ refl made)
        (rw (evaluate_join-rewrite l l' run_l, evaluate_join-rewrite r r' run_r, evaluate_join)
          refl)

rewrite_ok :
    {C D : Type 0} (e : Expression C D) (left_cnt right_cnt : ℕ)
    → InRange (left_cnt + right_cnt) e
    → (e' : Expression C D) × (rewrite_expression_for_join e left_cnt right_cnt ≡ ok e')
unfolding rewrite_expression_for_join
rewrite_ok (column tuple_idx col_idx ret_type) left_cnt right_cnt (first, below) =
    elim (dec_lt col_idx left_cnt) [
      | yes h ↦ (column 0 col_idx ret_type, ground arith)
      | no h ↦ (column 1 (col_idx - left_cnt) ret_type, ground arith)
    ]
rewrite_ok (constant val) left_cnt right_cnt h = (constant val, refl)
rewrite_ok (arithmetic op ret_type l r) left_cnt right_cnt (in_l, in_r) =
    let (l', run_l) = rewrite_ok l left_cnt right_cnt in_l in
    let (r', run_r) = rewrite_ok r left_cnt right_cnt in_r in
    (arithmetic op ret_type l' r', rw (run_l, run_r, rewrite_expression_for_join) refl)
rewrite_ok (comparison op ret_type l r) left_cnt right_cnt (in_l, in_r) =
    let (l', run_l) = rewrite_ok l left_cnt right_cnt in_l in
    let (r', run_r) = rewrite_ok r left_cnt right_cnt in_r in
    (comparison op ret_type l' r', rw (run_l, run_r, rewrite_expression_for_join) refl)
rewrite_ok (logic op ret_type l r) left_cnt right_cnt (in_l, in_r) =
    let (l', run_l) = rewrite_ok l left_cnt right_cnt in_l in
    let (r', run_r) = rewrite_ok r left_cnt right_cnt in_r in
    (logic op ret_type l' r', rw (run_l, run_r, rewrite_expression_for_join) refl)

rewrite_only :
    {C D : Type 0} (e : Expression C D) (left_cnt right_cnt : ℕ) (e' : Expression C D)
    → rewrite_expression_for_join e left_cnt right_cnt ≡ ok e'
    → InRange (left_cnt + right_cnt) e
unfolding rewrite_expression_for_join
rewrite_only (column tuple_idx col_idx ret_type) left_cnt right_cnt e' run =
    let (first, cases) = rewrite_column tuple_idx col_idx left_cnt right_cnt ret_type e' run in
    (first, elim cases [ inl (below, _) ↦ omega arith | inr (_, below, _) ↦ below ])
rewrite_only (constant val) left_cnt right_cnt e' run = tt
rewrite_only (arithmetic op ret_type l r) left_cnt right_cnt e' run =
    let (l', run_l, run') = bind-ok (rewrite_expression_for_join l left_cnt right_cnt) _ run in
    let (r', run_r, _) = bind-ok (rewrite_expression_for_join r left_cnt right_cnt) _ run' in
    (rewrite_only l left_cnt right_cnt l' run_l, rewrite_only r left_cnt right_cnt r' run_r)
rewrite_only (comparison op ret_type l r) left_cnt right_cnt e' run =
    let (l', run_l, run') = bind-ok (rewrite_expression_for_join l left_cnt right_cnt) _ run in
    let (r', run_r, _) = bind-ok (rewrite_expression_for_join r left_cnt right_cnt) _ run' in
    (rewrite_only l left_cnt right_cnt l' run_l, rewrite_only r left_cnt right_cnt r' run_r)
rewrite_only (logic op ret_type l r) left_cnt right_cnt e' run =
    let (l', run_l, run') = bind-ok (rewrite_expression_for_join l left_cnt right_cnt) _ run in
    let (r', run_r, _) = bind-ok (rewrite_expression_for_join r left_cnt right_cnt) _ run' in
    (rewrite_only l left_cnt right_cnt l' run_l, rewrite_only r left_cnt right_cnt r' run_r)

-- An expression is rewritten for a join exactly when its columns are of the first tuple and among
-- those of the two sides.
pub rewrite_iff :
    {C D : Type 0} (e : Expression C D) (left_cnt right_cnt : ℕ)
    → (InRange (left_cnt + right_cnt) e
        → (e' : Expression C D) × (rewrite_expression_for_join e left_cnt right_cnt ≡ ok e'))
      × ((e' : Expression C D)
          → rewrite_expression_for_join e left_cnt right_cnt ≡ ok e'
          → InRange (left_cnt + right_cnt) e)
rewrite_iff e left_cnt right_cnt =
    (rewrite_ok e left_cnt right_cnt, rewrite_only e left_cnt right_cnt)
