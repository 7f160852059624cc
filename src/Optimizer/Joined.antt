-- ===== src/Optimizer/Joined.antt =====
-- A predicate of a filter over a join, and what becomes of it as the predicate of the join.
use learning_journey.Base.{
  ℕ, zero, suc, ◌-◌, ◌≡◌, refl, sym, ◌∙◌, ap, ap₂, inl, inr, Bool, true, false, List, [], ◌∷◌, ◌++◌,
  map, Outcome, ok, throw, ◌>>=◌, ltb, if◌then◌else◌, arith, length, All, bind-ok, ok_unique,
}
use mathlib.Core.Path.{subst, fun_ext}
use learning_journey.Types.{Library}
use learning_journey.Expressions.{
  column, constant, arithmetic, comparison, logic, get_as_bool, evaluate, evaluate_join, passes,
  rewrite_expression_for_join,
}
use learning_journey.Expressions.Rewrite.{joined, rewrite_column, evaluate_join-rewrite}
use learning_journey.Plans.{ColumnExpression, inner_join}
use learning_journey.Plans.Meaning.{
  Tuple, Database, keep, pairs, glue, as_row, passes_tuple, passes_pair, join,
}
use learning_journey.Plans.Sound.{HasArity, Definite}
use learning_journey.Plans.Arity.{PairArity, pairs-Arity}
use learning_journey.Optimizer.TrueFilter.{keep_all, TrueConstant}

ltb_suc : (i n : ℕ) → ltb (suc i) (suc n) ≡ ltb i n
ltb_suc i n = ground arith

module _ {D : Type 0} where
  joined_at :
      (l r : Tuple D) (i : ℕ) → joined (length l) (as_row l) (as_row r) i ≡ as_row (l ++ r) i
  joined_at [] r i = ground arith
  joined_at (x ∷ l) r zero = ground arith
  joined_at (x ∷ l) r (suc i) =
      let index : suc i - suc (length l) ≡ i - length l = omega arith in
      let shifted : joined (suc (length l)) (as_row (x ∷ l)) (as_row r) (suc i)
          ≡ joined (length l) (as_row l) (as_row r) i =
        ap₂ (λ b j. if b then as_row l i else as_row r j) (ltb_suc i (length l)) index in
      shifted ∙ joined_at l r i

keep_step {ℓ κ} :
    {A : Type ℓ} {B : Type κ} (f : A → B) (x : A) (p : Outcome Bool) (k : Outcome (List A))
    → (p >>= λ b. k >>= λ rest. ok (if b then x ∷ rest else rest)) >>= (λ ps. ok (map f ps))
      ≡ p >>= λ b. (k >>= λ ps. ok (map f ps)) >>= λ rest. ok (if b then f x ∷ rest else rest)
keep_step f x (ok true) (ok k) = refl
keep_step f x (ok false) (ok k) = refl
keep_step f x (ok b) (throw e) = refl
keep_step f x (throw e) k = refl

-- A rewritten constant is the same constant.
pub rewrite-Definite :
    {D : Type 0} (lib : Library D) (e e' : ColumnExpression D) (m n : ℕ)
    → Definite lib e
    → rewrite_expression_for_join e m n ≡ ok e'
    → Definite lib e'
unfolding rewrite_expression_for_join
rewrite-Definite lib (constant v) e' m n definite run =
    subst (Definite lib) (ok_unique _ refl run) definite
rewrite-Definite lib (column t c r) e' m n definite run = elim (rewrite_column t c m n r e' run).1 [
  | inl (_, made) ↦ subst (Definite lib) made tt
  | inr (_, _, made) ↦ subst (Definite lib) made tt
]
rewrite-Definite lib (arithmetic op r a b) e' m n definite run =
    let (a', _, run') = bind-ok (rewrite_expression_for_join a m n) _ run in
    let (b', _, made) = bind-ok (rewrite_expression_for_join b m n) _ run' in
    subst (Definite lib) (ok_unique _ refl made) tt
rewrite-Definite lib (comparison op r a b) e' m n definite run =
    let (a', _, run') = bind-ok (rewrite_expression_for_join a m n) _ run in
    let (b', _, made) = bind-ok (rewrite_expression_for_join b m n) _ run' in
    subst (Definite lib) (ok_unique _ refl made) tt
rewrite-Definite lib (logic op r a b) e' m n definite run =
    let (a', _, run') = bind-ok (rewrite_expression_for_join a m n) _ run in
    let (b', _, made) = bind-ok (rewrite_expression_for_join b m n) _ run' in
    subst (Definite lib) (ok_unique _ refl made) tt

module _ {D : Type 0} (lib : Library D) where
  passes_pair-TrueConstant :
      (e : ColumnExpression D)
      → TrueConstant e
      → (p : Tuple D × Tuple D) → passes_pair lib e p ≡ ok true
  unfolding passes_pair evaluate_join
  passes_pair-TrueConstant e c p =
      subst (λ e. passes_pair lib e p ≡ ok true) (sym c.is_constant)
        (rw (c.not_null, passes_pair) c.is_true)

  module _ (predicate merged : ColumnExpression D) (m n : ℕ)
      (rewritten : rewrite_expression_for_join predicate m n ≡ ok merged) where
    -- The merged predicate keeps a pair when the filter keeps what it is glued to.
    pair_tuple :
        (l r : Tuple D)
        → length l ≡ m
        → passes_pair lib merged (l, r) ≡ passes_tuple lib predicate (l ++ r)
    unfolding passes_pair passes
    pair_tuple l r len =
        ap (λ o. o >>= λ v. if v.is_null then ok false else get_as_bool v)
          (evaluate_join-rewrite lib m n (as_row l) (as_row r) predicate merged rewritten
            ∙ ap (evaluate lib predicate)
                (ap (λ k. joined k (as_row l) (as_row r)) (sym len) ∙ fun_ext (joined_at l r)))

    keep-glue :
        (ps : List (Tuple D × Tuple D))
        → All (PairArity m n) ps
        → keep (passes_pair lib merged) ps >>= (λ ps. ok (map glue ps))
          ≡ keep (passes_tuple lib predicate) (map glue ps)
    unfolding keep
    keep-glue [] all = refl
    keep-glue ((l, r) ∷ ps) all =
        keep_step glue (l, r) (passes_pair lib merged (l, r)) (keep (passes_pair lib merged) ps)
        ∙ ap₂ (λ p k. p >>= λ b. k >>= λ rest. ok (if b then (l ++ r) ∷ rest else rest))
            (pair_tuple l r all.0.0) (keep-glue ps all.1)

    module _ {K : Type 0} (db : Database D K) (on : ColumnExpression D) (c : TrueConstant on) where
      pub join_filter :
          (left right : Outcome (List (Tuple D)))
          → HasArity m left
          → HasArity n right
          → (left >>= λ ls. right >>= λ rs. join lib db inner_join merged ls rs)
            ≡ (left >>= λ ls. right >>= λ rs. join lib db inner_join on ls rs)
              >>= keep (passes_tuple lib predicate)
      join_filter (ok ls) (ok rs) fits_l fits_r =
          let all_pass =
            keep_all (passes_pair lib on) (pairs ls rs) (passes_pair-TrueConstant on c) in
          keep-glue (pairs ls rs) (pairs-Arity m n ls rs (fits_l ls refl) (fits_r rs refl))
          ∙ sym (
              ap (λ k. (k >>= λ ps. ok (map glue ps)) >>= keep (passes_tuple lib predicate))
                all_pass)
      join_filter (ok ls) (throw e) fits_l fits_r = refl
      join_filter (throw e) right fits_l fits_r = refl
