-- ===== src/Sketch/Tally.antt =====
-- What a run of inserts leaves in each counter.
use learning_journey.Base.{
  ℕ, zero, suc, ◌+◌, ◌≤◌, ◌<◌, ◌≡◌, refl, ◌&&◌, List, [], ◌∷◌, arith, u32, ltb, leb, ◌==◌,
  if◌then◌else◌,
}
use learning_journey.Sketch.{
  Matrix, Sketch, cell, bump, bucket, hash_function, insert, insert_loop, insert_all,
}
use learning_journey.Sketch.Shape.{IsShape, IsValid, bump-IsShape, cell-bump}

module _ {K : Type 0} (std_hash : K → ℕ) where
  pub bucket-lt : (s : Sketch) (x : K) (i : ℕ) → 0 < s.width → bucket std_hash s x i < s.width
  unfolding hash_function
  bucket-lt s x i h = omega arith

  module _ (s : Sketch) (x : K) (wide : 0 < s.width) where
    pub insert_loop-IsShape :
        (n i : ℕ) {m : Matrix}
        → i + n ≤ s.depth
        → IsShape s.width s.depth m
        → IsShape s.width s.depth (insert_loop std_hash s x n i m)
    unfolding insert_loop
    insert_loop-IsShape zero i h shape = shape
    insert_loop-IsShape (suc n) i h shape =
        insert_loop-IsShape n (i + 1) (omega arith)
          (bump-IsShape shape _ i (bucket-lt s x i wide) (omega arith))

    -- The rounds from `i` on bump, in each column that they reach, the counter of the item's bucket.
    pub cell-insert_loop :
        (n i : ℕ) {m : Matrix} (r c : ℕ)
        → i + n ≤ s.depth
        → IsShape s.width s.depth m
        → cell (insert_loop std_hash s x n i m) r c ≡ (
            if leb i c && ltb c (i + n) && bucket std_hash s x c == r
            then u32 (cell m r c + 1)
            else cell m r c)
    unfolding insert_loop
    cell-insert_loop zero i r c h shape = ground arith
    cell-insert_loop (suc n) i {m} r c h shape =
        let b = bucket std_hash s x i in
        let lt = bucket-lt s x i wide in
        ground (
          arith,
          cell-insert_loop n (i + 1) {m = bump b i m} r c (omega arith)
              (bump-IsShape shape b i lt (omega arith)),
          cell-bump shape b i lt (omega arith) r c,
        )

  pub insert-IsValid : (x : K) {s : Sketch} → IsValid s → IsValid (insert std_hash x s)
  unfolding insert
  insert-IsValid x {s} v = record {
    shape = insert_loop-IsShape s x v.wide s.depth 0 (omega arith) v.shape;
    wide = v.wide;
    deep = v.deep;
    bounded = λ r c.
        ground
          (arith, v.bounded r c, cell-insert_loop s x v.wide s.depth 0 r c (omega arith) v.shape);
    seeded = v.seeded;
  }

  -- One insert adds 1, in 32 bits, to the counter of the item's bucket in every column.
  pub cell-insert :
      (x : K) {s : Sketch} (r c : ℕ)
      → IsValid s
      → c < s.depth
      → cell (insert std_hash x s).matrix r c
        ≡ (if bucket std_hash s x c == r then u32 (cell s.matrix r c + 1) else cell s.matrix r c)
  unfolding insert
  cell-insert x {s} r c v h =
      ground (arith, cell-insert_loop s x v.wide s.depth 0 r c (omega arith) v.shape)

  -- How many of the items fall into bucket `r` of column `c`.
  unfoldable pub tally : Sketch → ℕ → ℕ → List K → ℕ
  tally s r c [] = 0
  tally s r c (x ∷ xs) = (if bucket std_hash s x c == r then 1 else 0) + tally s r c xs

  pub insert_all-IsValid :
      (xs : List K) {s : Sketch} → IsValid s → IsValid (insert_all std_hash xs s)
  unfolding insert_all
  insert_all-IsValid [] v = v
  insert_all-IsValid (x ∷ xs) v = insert_all-IsValid xs (insert-IsValid x v)

  bucket-insert :
      (x y : K) (s : Sketch) (i : ℕ)
      → bucket std_hash (insert std_hash x s) y i ≡ bucket std_hash s y i
  unfolding insert hash_function
  bucket-insert x y s i = refl

  pub tally-insert :
      (x : K) (s : Sketch) (r c : ℕ) (xs : List K)
      → tally (insert std_hash x s) r c xs ≡ tally s r c xs
  unfolding tally
  tally-insert x s r c [] = refl
  tally-insert x s r c (y ∷ ys) = rw (bucket-insert x y s c, tally-insert x s r c ys)

  -- After any inserts a counter holds what it held, plus the number of items that fall into it,
  -- in 32 bits.
  pub cell-insert_all :
      (xs : List K) {s : Sketch} (r c : ℕ)
      → IsValid s
      → c < s.depth
      → cell (insert_all std_hash xs s).matrix r c ≡ u32 (cell s.matrix r c + tally s r c xs)
  unfolding insert_all tally insert
  cell-insert_all [] r c v h = omega (arith, v.bounded r c)
  cell-insert_all (x ∷ xs) {s} r c v h = ground (
    arith,
    cell-insert_all xs r c (insert-IsValid x v) (omega arith),
    cell-insert x r c v h,
    tally-insert x s r c xs,
  )
