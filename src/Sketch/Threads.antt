-- ===== src/Sketch/Threads.antt =====
-- `Insert` locks the mutex anew for each increment, so the increments of two threads may interleave.
use mathlib.Core.List.{append_assoc}
use learning_journey.Base.{
  ℕ, zero, suc, ◌+◌, ◌^◌, ◌<◌, ◌≤◌, ◌≡◌, refl, ap, ap₂, sym, ◌∙◌, List, [], ◌∷◌, ◌++◌, arith, ◌&&◌,
  All, u32, ◌==◌, if◌then◌else◌,
}
use learning_journey.Sketch.{
  Matrix, Sketch, cell, bump, bucket, insert, insert_loop, insert_all, hash_function,
}
use learning_journey.Sketch.Shape.{IsShape, IsValid, bump-IsShape, cell-bump, cell_ext}
use learning_journey.Sketch.Tally.{bucket-lt}

-- The row and the column of a counter.
abbrev Place : Type 0
Place = ℕ × ℕ

-- One pass through the body of the loop of `Insert` for each place.
unfoldable pub bump_all : List Place → Matrix → Matrix
bump_all [] m = m
bump_all (p ∷ ps) m = bump_all ps (bump p.0 p.1 m)

-- `zs` is made of the steps of `xs` and of `ys`, each in its own order.
pub data Interleaves {ℓ} {A : Type ℓ} : List A → List A → List A → Type ℓ where
  done : Interleaves [] [] []
  left : {x : A} {xs ys zs : List A} → Interleaves xs ys zs → Interleaves (x ∷ xs) ys (x ∷ zs)
  right : {y : A} {xs ys zs : List A} → Interleaves xs ys zs → Interleaves xs (y ∷ ys) (y ∷ zs)

hits : List Place → ℕ → ℕ → ℕ
hits [] r c = 0
hits (p ∷ ps) r c = (if p.0 == r && p.1 == c then 1 else 0) + hits ps r c

hits-append : (ps qs : List Place) (r c : ℕ) → hits (ps ++ qs) r c ≡ hits ps r c + hits qs r c
unfolding hits
hits-append [] qs r c = omega arith
hits-append (p ∷ ps) qs r c = omega (arith, hits-append ps qs r c)

hits_interleaved :
    {ps qs rs : List Place} (r c : ℕ)
    → Interleaves ps qs rs
    → hits rs r c ≡ hits ps r c + hits qs r c
unfolding hits
hits_interleaved r c done = omega arith
hits_interleaved r c (left i) = omega (arith, hits_interleaved r c i)
hits_interleaved r c (right i) = omega (arith, hits_interleaved r c i)

abbrev InRange : ℕ → ℕ → Place → Type 0
InRange w d p = (p.0 < w) × (p.1 < d)

module _ {w d : ℕ} where
  bump_all-IsShape :
      (ps : List Place) {m : Matrix}
      → All (InRange w d) ps
      → IsShape w d m
      → IsShape w d (bump_all ps m)
  unfolding bump_all
  bump_all-IsShape [] a shape = shape
  bump_all-IsShape (p ∷ ps) a shape =
      bump_all-IsShape ps a.1 (bump-IsShape shape p.0 p.1 a.0.0 a.0.1)

  cell-bump_all :
      (ps : List Place) {m : Matrix} (r c : ℕ)
      → cell m r c < 2 ^ 32
      → All (InRange w d) ps
      → IsShape w d m
      → cell (bump_all ps m) r c ≡ u32 (cell m r c + hits ps r c)
  unfolding bump_all hits
  cell-bump_all [] r c b a shape = omega arith
  cell-bump_all (p ∷ ps) {m} r c b a shape =
      let one = cell-bump shape p.0 p.1 a.0.0 a.0.1 r c in
      let small : cell (bump p.0 p.1 m) r c < 2 ^ 32 = ground (arith, one) in
      ground (arith, one, cell-bump_all ps r c small a.1 (bump-IsShape shape p.0 p.1 a.0.0 a.0.1))

module _ {ℓ κ} {A : Type ℓ} (P : A → Type κ) where
  All-append : (xs ys : List A) → All P xs → All P ys → All P (xs ++ ys)
  All-append [] ys a b = b
  All-append (x ∷ xs) ys a b = (a.0, All-append xs ys a.1 b)

  All-interleaved : {xs ys zs : List A} → Interleaves xs ys zs → All P xs → All P ys → All P zs
  All-interleaved done a b = tt
  All-interleaved (left i) a b = (a.0, All-interleaved i a.1 b)
  All-interleaved (right i) a b = (b.0, All-interleaved i a b.1)

module _ {K : Type 0} (std_hash : K → ℕ) where
  -- The increments of `Insert` from column `i` on, in order.
  insert_steps : Sketch → K → ℕ → ℕ → List Place
  insert_steps s x zero i = []
  insert_steps s x (suc n) i = (bucket std_hash s x i, i) ∷ insert_steps s x n (i + 1)

  -- The increments of a thread that inserts the items of a list.
  unfoldable pub thread_steps : Sketch → List K → List Place
  unfolding insert_steps
  thread_steps s [] = []
  thread_steps s (x ∷ xs) = insert_steps s x s.depth 0 ++ thread_steps s xs

  insert_steps-InRange :
      (s : Sketch) (x : K) (n i : ℕ)
      → 0 < s.width
      → i + n ≤ s.depth
      → All (InRange s.width s.depth) (insert_steps s x n i)
  unfolding insert_steps
  insert_steps-InRange s x zero i h p = tt
  insert_steps-InRange s x (suc n) i h p = (
    (bucket-lt std_hash s x i h, omega arith),
    insert_steps-InRange s x n (i + 1) h (omega arith),
  )

  thread_steps-InRange :
      (s : Sketch) (xs : List K) → 0 < s.width → All (InRange s.width s.depth) (thread_steps s xs)
  unfolding thread_steps
  thread_steps-InRange s [] h = tt
  thread_steps-InRange s (x ∷ xs) h =
      All-append (InRange s.width s.depth) _ _ (insert_steps-InRange s x s.depth 0 h (omega arith))
        (thread_steps-InRange s xs h)

  bump_all-insert_steps :
      (s : Sketch) (x : K) (n i : ℕ) (rest : List Place) (m : Matrix)
      → bump_all (insert_steps s x n i ++ rest) m ≡ bump_all rest (insert_loop std_hash s x n i m)
  unfolding bump_all insert_steps insert_loop
  bump_all-insert_steps s x zero i rest m = refl
  bump_all-insert_steps s x (suc n) i rest m = bump_all-insert_steps s x n (i + 1) rest _

  thread_steps-append :
      (s : Sketch) (xs ys : List K)
      → thread_steps s (xs ++ ys) ≡ thread_steps s xs ++ thread_steps s ys
  unfolding thread_steps
  thread_steps-append s [] ys = refl
  thread_steps-append s (x ∷ xs) ys =
      ap (λ l. insert_steps s x s.depth 0 ++ l) (thread_steps-append s xs ys)
      ∙ sym (append_assoc (insert_steps s x s.depth 0) (thread_steps s xs) (thread_steps s ys))

  insert_steps-insert :
      (x y : K) (s : Sketch) (n i : ℕ)
      → insert_steps (insert std_hash x s) y n i ≡ insert_steps s y n i
  unfolding insert_steps insert hash_function
  insert_steps-insert x y s zero i = refl
  insert_steps-insert x y s (suc n) i =
      ap (λ l. (bucket std_hash s y i, i) ∷ l) (insert_steps-insert x y s n (i + 1))

  thread_steps-insert :
      (x : K) (s : Sketch) (xs : List K) → thread_steps (insert std_hash x s) xs ≡ thread_steps s xs
  unfolding thread_steps insert
  thread_steps-insert x s [] = refl
  thread_steps-insert x s (y ∷ ys) =
      ap₂ ◌++◌ (insert_steps-insert x y s s.depth 0) (thread_steps-insert x s ys)

  -- A thread alone does what its inserts do in turn.
  pub bump_all-thread_steps :
      (xs : List K) (s : Sketch)
      → bump_all (thread_steps s xs) s.matrix ≡ (insert_all std_hash xs s).matrix
  unfolding bump_all thread_steps insert_all insert
  bump_all-thread_steps [] s = refl
  bump_all-thread_steps (x ∷ xs) s =
      bump_all-insert_steps s x s.depth 0 (thread_steps s xs) s.matrix
      ∙ ap (λ ps. bump_all ps (insert std_hash x s).matrix) (sym (thread_steps-insert x s xs))
      ∙ bump_all-thread_steps xs (insert std_hash x s)

  -- However the increments of two threads that insert into one valid sketch interleave, the matrix
  -- ends as if the first had made all its inserts before the second made any.
  pub interleaved-insert_all :
      (xs ys : List K) {s : Sketch} {zs : List Place}
      → IsValid s
      → Interleaves (thread_steps s xs) (thread_steps s ys) zs
      → bump_all zs s.matrix ≡ (insert_all std_hash (xs ++ ys) s).matrix
  interleaved-insert_all xs ys {s} {zs} v i =
      let a = thread_steps-InRange s xs v.wide in
      let b = thread_steps-InRange s ys v.wide in
      let c = thread_steps-InRange s (xs ++ ys) v.wide in
      let z = All-interleaved (InRange s.width s.depth) i a b in
      cell_ext (bump_all-IsShape zs z v.shape) (bump_all-IsShape _ c v.shape) (λ r k _ _.
        let small = v.bounded r k in
        omega (
          arith,
          cell-bump_all zs r k small z v.shape,
          cell-bump_all (thread_steps s (xs ++ ys)) r k small c v.shape,
          hits_interleaved r k i,
          hits-append (thread_steps s xs) (thread_steps s ys) r k,
          ap (λ ps. hits ps r k) (thread_steps-append s xs ys),
        ))
      ∙ bump_all-thread_steps (xs ++ ys) s
