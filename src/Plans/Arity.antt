-- ===== src/Plans/Arity.antt =====
-- The tuples of a sound plan have a value for each column of its schema.
use learning_journey.Base.{
  ℕ, suc, ◌+◌, ◌≡◌, refl, sym, ◌∙◌, ap, inl, inr, Bool, true, false, List, [], ◌∷◌, ◌++◌, map, none,
  some, Outcome, ok, if◌then◌else◌, arith, length, All, length-append, bind-ok, ok_unique,
}
use mathlib.Core.Path.{subst}
use learning_journey.Types.{Library}
use learning_journey.Plans.{
  ColumnExpression, JoinType, inner_join, invalid_join, left_join, right_join, outer_join, Plan,
  seq_scan, filter, nested_loop_join, projection, other, column_count,
}
use learning_journey.Plans.Meaning.{
  Tuple, Database, keep, each, pairs, glue, passes_pair, join, project, meaning, meaning_all,
}
use learning_journey.Plans.Sound.{Arity, HasArity, SoundJoin, Sound}

module _ {ℓ} {A : Type ℓ} where
  All-if {κ} :
      (P : A → Type κ) (b : Bool) (x : A) (xs : List A)
      → P x
      → All P xs
      → All P (if b then x ∷ xs else xs)
  All-if P true x xs head tail = (head, tail)
  All-if P false x xs head tail = tail

  pub All-keep {κ} :
      (P : A → Type κ) (p : A → Outcome Bool) (xs ys : List A)
      → All P xs
      → keep p xs ≡ ok ys
      → All P ys
  unfolding keep
  All-keep P p [] ys all run = subst (All P) (ok_unique _ refl run) tt
  All-keep P p (x ∷ xs) ys all run =
      let (b, _, run') = bind-ok (p x) _ run in
      let (rest, kept, made) = bind-ok (keep p xs) _ run' in
      let tail = All-keep P p xs rest all.1 kept in
      subst (All P) (ok_unique _ refl made) (All-if P b x rest all.0 tail)

  pub All-append {κ} : (P : A → Type κ) (xs ys : List A) → All P xs → All P ys → All P (xs ++ ys)
  All-append P [] ys all more = more
  All-append P (x ∷ xs) ys all more = (all.0, All-append P xs ys all.1 more)

  pub length-each {κ} :
      {B : Type κ} (f : A → Outcome B) (xs : List A) (ys : List B)
      → each f xs ≡ ok ys
      → length ys ≡ length xs
  unfolding each
  length-each f [] ys run = ap length (sym (ok_unique _ refl run))
  length-each f (x ∷ xs) ys run =
      let (y, _, run') = bind-ok (f x) _ run in
      let (rest, more, made) = bind-ok (each f xs) _ run' in
      ap length (sym (ok_unique _ refl made)) ∙ ap suc (length-each f xs rest more)

-- A pair of tuples of so many values.
abbrev pub PairArity {ℓ} : {A : Type ℓ} → ℕ → ℕ → List A × List A → Type 0
PairArity m n (l, r) = (length l ≡ m) × (length r ≡ n)

module _ {D : Type 0} where
  pairs_with :
      (m n : ℕ) (l : Tuple D) (rs : List (Tuple D))
      → length l ≡ m
      → Arity n rs
      → All (PairArity m n) (map (λ r. (l, r)) rs)
  pairs_with m n l [] left right = tt
  pairs_with m n l (r ∷ rs) left right = ((left, right.0), pairs_with m n l rs left right.1)

  pub pairs-Arity :
      (m n : ℕ) (ls rs : List (Tuple D))
      → Arity m ls
      → Arity n rs
      → All (PairArity m n) (pairs ls rs)
  pairs-Arity m n [] rs left right = tt
  pairs-Arity m n (l ∷ ls) rs left right =
      All-append (PairArity m n) (map (λ r. (l, r)) rs) (pairs ls rs)
        (pairs_with m n l rs left.0 right) (pairs-Arity m n ls rs left.1 right)

  glue-Arity :
      (m n : ℕ) (ps : List (Tuple D × Tuple D))
      → All (PairArity m n) ps
      → Arity (m + n) (map glue ps)
  glue-Arity m n [] all = tt
  glue-Arity m n ((l, r) ∷ ps) all =
      (omega (arith, length-append l r, all.0.0, all.0.1), glue-Arity m n ps all.1)

module _ {D K : Type 0} (lib : Library D) (db : Database D K) where
  project-Arity :
      (es : List (ColumnExpression D)) (ts rows : List (Tuple D))
      → each (project lib es) ts ≡ ok rows
      → Arity (length es) rows
  unfolding each
  project-Arity es [] rows run = subst (Arity (length es)) (ok_unique _ refl run) tt
  project-Arity es (t ∷ ts) rows run =
      let (row, made_row, run') = bind-ok (project lib es t) _ run in
      let (rest, more, made) = bind-ok (each (project lib es) ts) _ run' in
      subst (Arity (length es)) (ok_unique _ refl made)
        (length-each _ es row made_row, project-Arity es ts rest more)

  inner-Arity :
      (m n : ℕ) (predicate : ColumnExpression D) (ls rs rows : List (Tuple D))
      → Arity m ls
      → Arity n rs
      → join lib db inner_join predicate ls rs ≡ ok rows
      → Arity (m + n) rows
  inner-Arity m n predicate ls rs rows left right run =
      let (ps, kept, made) = bind-ok (keep (passes_pair lib predicate) (pairs ls rs)) _ run in
      subst (Arity (m + n)) (ok_unique _ refl made) (
        glue-Arity m n ps
          (All-keep (PairArity m n) _ (pairs ls rs) ps (pairs-Arity m n ls rs left right) kept))

  join-Arity :
      (m n count : ℕ) (join_type : JoinType) (predicate : ColumnExpression D)
      (ls rs rows : List (Tuple D))
      → count ≡ m + n
      → SoundJoin lib db count join_type predicate
      → Arity m ls
      → Arity n rs
      → join lib db join_type predicate ls rs ≡ ok rows
      → Arity count rows
  join-Arity m n count inner_join predicate ls rs rows columns sound left right run =
      subst (λ n. Arity n rows) (sym columns) (inner-Arity m n predicate ls rs rows left right run)
  join-Arity m n count invalid_join predicate ls rs rows columns sound left right run = elim sound [
    | inl e ↦ absurd (cc)
    | inr (_, fits) ↦ fits ls rs rows run
  ]
  join-Arity m n count left_join predicate ls rs rows columns sound left right run = elim sound [
    | inl e ↦ absurd (cc)
    | inr (_, fits) ↦ fits ls rs rows run
  ]
  join-Arity m n count right_join predicate ls rs rows columns sound left right run = elim sound [
    | inl e ↦ absurd (cc)
    | inr (_, fits) ↦ fits ls rs rows run
  ]
  join-Arity m n count outer_join predicate ls rs rows columns sound left right run = elim sound [
    | inl e ↦ absurd (cc)
    | inr (_, fits) ↦ fits ls rs rows run
  ]

  -- Every tuple that a sound plan gives has a value for each column of the plan's schema.
  pub meaning-Arity :
      (plan : Plan D K) → Sound lib db plan → HasArity (column_count plan) (meaning lib db plan)
  unfolding meaning Sound
  meaning-Arity (seq_scan output oid name none) sound rows run =
      subst (Arity _) (ok_unique _ refl run) sound
  meaning-Arity (seq_scan output oid name (some predicate)) sound rows run =
      All-keep _ _ (db.tables oid) rows sound run
  meaning-Arity (filter output predicate child) (sound, columns, _, _) rows run =
      let (ts, given, kept) = bind-ok (meaning lib db child) _ run in
      All-keep _ _ ts rows
        (subst (λ n. Arity n ts) (sym columns) (meaning-Arity child sound ts given)) kept
  meaning-Arity (nested_loop_join output l r predicate join_type)
        (sound_l, sound_r, columns, _, fits) rows run =
      let (ls, given_l, run') = bind-ok (meaning lib db l) _ run in
      let (rs, given_r, joined) = bind-ok (meaning lib db r) _ run' in
      join-Arity _ _ _ join_type predicate ls rs rows columns fits
        (meaning-Arity l sound_l ls given_l) (meaning-Arity r sound_r rs given_r) joined
  meaning-Arity (projection output es child) (_, columns) rows run =
      let (ts, given, made) = bind-ok (meaning lib db child) _ run in
      subst (λ n. Arity n rows) columns (project-Arity es ts rows made)
  meaning-Arity (other output kind children) (_, fits) rows run =
      let (inputs, _, made) = bind-ok (meaning_all lib db children) _ run in fits inputs rows made
