-- ===== src/Sketch/Merge.antt =====
-- `Merge`, against one sketch that took the inserts of both.
use learning_journey.Base.{
  ℕ, zero, suc, ◌+◌, ◌<◌, ◌≡◌, ◌≢◌, refl, ap, ap₂, sym, ◌∙◌, ◌⊎◌, List, [], ◌∷◌, ◌++◌, arith,
  length, get_or, ok, throw, invalid_argument, u32,
}
use mathlib.Core.Path.{subst₂}
use learning_journey.Sketch.{
  Matrix, Sketch, cell, merge, merge_row, merge_rows, insert, insert_all, new_sketch,
}
use learning_journey.Sketch.Shape.{IsShape, IsValid, cell_ext}
use learning_journey.Sketch.Tally.{tally, cell-insert_all, insert_all-IsValid}
use learning_journey.Sketch.Create.{IsNew, new_sketch-IsNew, new_sketch-eq_ok}

length-merge_row :
    (n : ℕ) (xs ys : List ℕ) → length xs ≡ n → length ys ≡ n → length (merge_row n xs ys) ≡ n
unfolding merge_row
length-merge_row zero xs ys p q = p
length-merge_row (suc n) [] ys p q = p
length-merge_row (suc n) (x ∷ xs) [] p q = p
length-merge_row (suc n) (x ∷ xs) (y ∷ ys) p q =
    ap suc (length-merge_row n xs ys (omega arith) (omega arith))

get_or-merge_row :
    (n : ℕ) (xs ys : List ℕ) (c : ℕ)
    → length xs ≡ n
    → length ys ≡ n
    → c < n
    → get_or (merge_row n xs ys) c 0 ≡ u32 (get_or xs c 0 + get_or ys c 0)
unfolding merge_row
get_or-merge_row zero xs ys c p q h = absurd (omega arith)
get_or-merge_row (suc n) [] ys c p q h = absurd (omega arith)
get_or-merge_row (suc n) (x ∷ xs) [] c p q h = absurd (omega arith)
get_or-merge_row (suc n) (x ∷ xs) (y ∷ ys) zero p q h = refl
get_or-merge_row (suc n) (x ∷ xs) (y ∷ ys) (suc c) p q h =
    get_or-merge_row n xs ys c (omega arith) (omega arith) (omega arith)

merge_rows-IsShape :
    (n d : ℕ) (xs ys : Matrix)
    → IsShape n d xs
    → IsShape n d ys
    → IsShape n d (merge_rows n d xs ys)
unfolding merge_rows
merge_rows-IsShape zero d xs ys p q = p
merge_rows-IsShape (suc n) d [] ys p q = absurd (omega (arith, p.rows))
merge_rows-IsShape (suc n) d (x ∷ xs) [] p q = absurd (omega (arith, q.rows))
merge_rows-IsShape (suc n) d (x ∷ xs) (y ∷ ys) p q =
    let rest =
      merge_rows-IsShape n d xs ys (record { rows = omega (arith, p.rows); columns = p.columns.1 })
        (record { rows = omega (arith, q.rows); columns = q.columns.1 }) in
    record {
      rows = ap suc rest.rows;
      columns = (length-merge_row d x y p.columns.0 q.columns.0, rest.columns);
    }

cell-merge_rows :
    (n d : ℕ) (xs ys : Matrix) (r c : ℕ)
    → IsShape n d xs
    → IsShape n d ys
    → r < n
    → c < d
    → cell (merge_rows n d xs ys) r c ≡ u32 (cell xs r c + cell ys r c)
unfolding merge_rows
cell-merge_rows zero d xs ys r c p q hr hc = absurd (omega arith)
cell-merge_rows (suc n) d [] ys r c p q hr hc = absurd (omega (arith, p.rows))
cell-merge_rows (suc n) d (x ∷ xs) [] r c p q hr hc = absurd (omega (arith, q.rows))
cell-merge_rows (suc n) d (x ∷ xs) (y ∷ ys) zero c p q hr hc =
    get_or-merge_row d x y c p.columns.0 q.columns.0 hc
cell-merge_rows (suc n) d (x ∷ xs) (y ∷ ys) (suc r) c p q hr hc =
    cell-merge_rows n d xs ys r c (record { rows = omega (arith, p.rows); columns = p.columns.1 })
      (record { rows = omega (arith, q.rows); columns = q.columns.1 }) (omega arith) hc

-- `Merge` refuses a sketch of another width or depth with `std::invalid_argument`.
pub merge_mismatch :
    (s t : Sketch) → (s.width ≢ t.width) ⊎ (s.depth ≢ t.depth) → merge s t ≡ throw invalid_argument
unfolding merge
merge_mismatch s t h = ground arith

merge_match :
    (w d : ℕ) (s t : Sketch)
    → (s.width ≡ w) × (s.depth ≡ d)
    → (t.width ≡ w) × (t.depth ≡ d)
    → merge s t ≡ ok (record s { matrix = merge_rows w d s.matrix t.matrix })
merge_match w d s t (p, p') (q, q') =
    same ∙ ap₂ (λ n m. ok (record s { matrix = merge_rows n m s.matrix t.matrix })) p p'
  where
    same : merge s t ≡ ok (record s { matrix = merge_rows s.width s.depth s.matrix t.matrix })
    same = unfold merge in ground arith

module _ {K : Type 0} (std_hash : K → ℕ) where
  -- Inserts change the matrix alone.
  pub insert_all_frame :
      (xs : List K) (s : Sketch)
      → insert_all std_hash xs s ≡ record s { matrix = (insert_all std_hash xs s).matrix }
  unfolding insert_all insert
  insert_all_frame [] s = refl
  insert_all_frame (x ∷ xs) s = insert_all_frame xs (insert std_hash x s)

  tally-append :
      (s : Sketch) (r c : ℕ) (xs ys : List K)
      → tally std_hash s r c (xs ++ ys) ≡ tally std_hash s r c xs + tally std_hash s r c ys
  unfolding tally
  tally-append s r c [] ys = omega arith
  tally-append s r c (x ∷ xs) ys = ground (arith, tally-append s r c xs ys)

  insert_all_sizes :
      (xs : List K) (s : Sketch)
      → ((insert_all std_hash xs s).width ≡ s.width) × ((insert_all std_hash xs s).depth ≡ s.depth)
  insert_all_sizes xs s =
      let same = insert_all_frame xs s in
      (ap (λ (t : Sketch). t.width) same, ap (λ (t : Sketch). t.depth) same)

  pub insert_all-IsShape :
      (xs : List K) {s : Sketch}
      → IsValid s
      → IsShape s.width s.depth (insert_all std_hash xs s).matrix
  insert_all-IsShape xs {s} v =
      let (p, q) = insert_all_sizes xs s in
      subst₂ (λ w d. IsShape w d (insert_all std_hash xs s).matrix) p q
        (insert_all-IsValid std_hash xs v).shape

  merge_rows-insert_all :
      (xs ys : List K) {w d : ℕ} {s : Sketch}
      → IsNew w d s
      → merge_rows s.width s.depth
          (insert_all std_hash xs s).matrix
          (insert_all std_hash ys s).matrix
        ≡ (insert_all std_hash (xs ++ ys) s).matrix
  merge_rows-insert_all xs ys {s = s} new =
      let v = new.valid in
      let left = insert_all-IsShape xs v in
      let right = insert_all-IsShape ys v in
      cell_ext (merge_rows-IsShape s.width s.depth _ _ left right) (insert_all-IsShape (xs ++ ys) v)
        λ r c hr hc. omega (
          arith,
          cell-merge_rows s.width s.depth (insert_all std_hash xs s).matrix
              (insert_all std_hash ys s).matrix r c left right hr hc,
          cell-insert_all std_hash xs r c v hc,
          cell-insert_all std_hash ys r c v hc,
          cell-insert_all std_hash (xs ++ ys) r c v hc,
          tally-append s r c xs ys,
          new.empty r c,
        )

  -- Of two sketches of one width and depth, each made by the constructor, the first having taken
  -- the inserts `xs` and the second `ys`, the merge is the first with the inserts `xs`, then `ys`.
  pub merge-insert_all :
      (raw raw' : ℕ → ℕ → ℕ) (w d : ℕ) (xs ys : List K) {s t : Sketch}
      → new_sketch raw w d ≡ ok s
      → new_sketch raw' w d ≡ ok t
      → merge (insert_all std_hash xs s) (insert_all std_hash ys t)
        ≡ ok (insert_all std_hash (xs ++ ys) s)
  merge-insert_all raw raw' w d xs ys {s} {t} made made' =
      let new = new_sketch-IsNew raw w d made in
      let matrix =
        merge_rows s.width s.depth (insert_all std_hash xs s).matrix
          (insert_all std_hash ys s).matrix in
      ap (λ q. merge (insert_all std_hash xs s) (insert_all std_hash ys q))
        (sym (new_sketch-eq_ok raw raw' w d made made'))
      ∙ merge_match s.width s.depth _ _ (insert_all_sizes xs s) (insert_all_sizes ys s)
      ∙ ap ok (
          ap {A = Sketch} (λ q. record q { matrix = matrix }) (insert_all_frame xs s)
          ∙ ap (λ m. record s { matrix = m }) (merge_rows-insert_all xs ys new)
          ∙ sym (insert_all_frame (xs ++ ys) s))
