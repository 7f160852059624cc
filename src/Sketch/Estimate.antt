-- ===== src/Sketch/Estimate.antt =====
-- What `Count` answers after a run of inserts into a new sketch.
use learning_journey.Base.{
  ℕ, zero, suc, ◌+◌, ◌^◌, ◌<◌, ◌≤◌, ◌≡◌, refl, ap, ◌∙◌, List, [], ◌∷◌, arith, length, min, ok, ltb,
  if◌then◌else◌,
}
use native.Mathlib.Nat.{le_trans}
use mathlib.Core.Logic.{ite, if_pos, if_neg}
use learning_journey.Sketch.{
  Sketch, cell, count, count_loop, bucket, hash_function, insert_all, insert, new_sketch,
  uint32_max,
}
use learning_journey.Sketch.Tally.{tally, cell-insert_all}
use learning_journey.Sketch.Create.{new_sketch-IsNew}

-- The least of `f i`, `f (i + 1)`, … (`n` of them), and of `top`.
unfoldable pub least : (ℕ → ℕ) → ℕ → ℕ → ℕ → ℕ
least f i zero top = top
least f i (suc n) top = least f (i + 1) n (min (f i) top)

least-le-top : (f : ℕ → ℕ) (i n top : ℕ) → least f i n top ≤ top
unfolding least
least-le-top f i zero top = omega arith
least-le-top f i (suc n) top = omega (arith, least-le-top f (i + 1) n (min (f i) top))

least-ge :
    (f : ℕ → ℕ) (b i n top : ℕ) → b ≤ top → ((j : ℕ) → j < i + n → b ≤ f j) → b ≤ least f i n top
unfolding least
least-ge f b i zero top h all = h
least-ge f b i (suc n) top h all =
    least-ge f b (i + 1) n (min (f i) top) (omega (arith, all i (omega arith)))
      (λ j p. all j (omega arith))

least-le-first : (f : ℕ → ℕ) (i n top : ℕ) → 0 < n → least f i n top ≤ f i
unfolding least
least-le-first f i zero top h = absurd (omega arith)
least-le-first f i (suc n) top h = omega (arith, least-le-top f (i + 1) n (min (f i) top))

least_congr :
    (f g : ℕ → ℕ) (i n top : ℕ)
    → ((j : ℕ) → j < i + n → f j ≡ g j)
    → least f i n top ≡ least g i n top
unfolding least
least_congr f g i zero top h = refl
least_congr f g i (suc n) top h =
    rw (h i (omega arith)) (least_congr f g (i + 1) n (min (g i) top) (λ j p. h j (omega arith)))

module _ {K : Type 0} (std_hash : K → ℕ) where
  count_loop-eq-least :
      (s : Sketch) (x : K) (n i top : ℕ)
      → count_loop std_hash s x n i top
        ≡ least (λ j. cell s.matrix (bucket std_hash s x j) j) i n top
  unfolding count_loop least
  count_loop-eq-least s x zero i top = refl
  count_loop-eq-least s x (suc n) i top =
      let v = cell s.matrix (bucket std_hash s x i) i in
      let smaller : (if ltb v top then v else top) ≡ min v top = ground arith in
      rw smaller (count_loop-eq-least s x n (i + 1) (min v top))

  pub insert_all_keeps :
      (xs : List K) (s : Sketch)
      → ((insert_all std_hash xs s).depth ≡ s.depth)
        × ((x : K) (i : ℕ) → bucket std_hash (insert_all std_hash xs s) x i ≡ bucket std_hash s x i)
  unfolding insert_all insert hash_function
  insert_all_keeps [] s = (refl, λ x i. refl)
  insert_all_keeps (y ∷ ys) s = insert_all_keeps ys (insert std_hash y s)

  tally-le-length : (s : Sketch) (r c : ℕ) (xs : List K) → tally std_hash s r c xs ≤ length xs
  unfolding tally
  tally-le-length s r c [] = omega arith
  tally-le-length s r c (x ∷ xs) = ground (arith, tally-le-length s r c xs)

  -- Where a sketch made by the constructor has taken fewer than 2 ^ 32 inserts, `Count` answers the
  -- least, over the columns, of the number of inserted items that share the item's bucket there.
  pub count-insert_all :
      (raw : ℕ → ℕ → ℕ) (w d : ℕ) (xs : List K) (x : K) {s : Sketch}
      → new_sketch raw w d ≡ ok s
      → length xs < 2 ^ 32
      → count std_hash x (insert_all std_hash xs s)
        ≡ least (λ c. tally std_hash s (bucket std_hash s x c) c xs) 0 d uint32_max
  unfolding count
  count-insert_all raw w d xs x {s} made few =
      let new = new_sketch-IsNew raw w d made in
      let (deep, same) = insert_all_keeps xs s in
      let after = insert_all std_hash xs s in
      let held = λ (c : ℕ). cell after.matrix (bucket std_hash after x c) c in
      count_loop-eq-least after x after.depth 0 uint32_max
      ∙ ap (λ n. least held 0 n uint32_max) (deep ∙ new.depth)
      ∙ least_congr held _ 0 d uint32_max λ c h.
        ap (λ r. cell after.matrix r c) (same x c)
        ∙ cell-insert_all std_hash xs (bucket std_hash s x c) c new.valid (omega (arith, new.depth))
        ∙ omega (
          arith,
          new.empty (bucket std_hash s x c) c,
          tally-le-length s (bucket std_hash s x c) c xs,
        )

  module _ (dec : Discrete K) where
    -- How often an item stands in a list.
    unfoldable pub occurrences : K → List K → ℕ
    occurrences x [] = 0
    occurrences x (y ∷ ys) = ite (dec x y) 1 0 + occurrences x ys

    occurrences-le-tally :
        (s : Sketch) (x : K) (c : ℕ) (xs : List K)
        → occurrences x xs ≤ tally std_hash s (bucket std_hash s x c) c xs
    unfolding occurrences tally
    occurrences-le-tally s x c [] = omega arith
    occurrences-le-tally s x c (y ∷ ys) = elim (dec x y) [
      | yes e ↦
          let same : bucket std_hash s x c ≡ bucket std_hash s y c =
            ap (λ z. bucket std_hash s z c) e in
          rw (if_pos _ e) (ground (arith, same, occurrences-le-tally s x c ys))
      | no n ↦ rw (if_neg _ n) (omega (arith, occurrences-le-tally s x c ys))
    ]

    -- With fewer than 2 ^ 32 inserts `Count` never answers less than the number of times that the
    -- item was inserted, nor more than the number of all inserts.
    pub count_bounds :
        (raw : ℕ → ℕ → ℕ) (w d : ℕ) (xs : List K) (x : K) {s : Sketch}
        → new_sketch raw w d ≡ ok s
        → length xs < 2 ^ 32
        → (occurrences x xs ≤ count std_hash x (insert_all std_hash xs s))
          × (count std_hash x (insert_all std_hash xs s) ≤ length xs)
    count_bounds raw w d xs x {s} made few =
        let spread = λ (c : ℕ). tally std_hash s (bucket std_hash s x c) c xs in
        let new = new_sketch-IsNew raw w d made in
        let one = occurrences-le-tally s x 0 xs in
        let most = tally-le-length s (bucket std_hash s x 0) 0 xs in
        rw (count-insert_all raw w d xs x made few) (
          least-ge spread (occurrences x xs) 0 d uint32_max (omega arith)
              (λ j _. occurrences-le-tally s x j xs),
          le_trans (least-le-first spread 0 d uint32_max (omega (arith, new.valid.deep, new.depth)))
              most,
        )
