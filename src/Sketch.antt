-- ===== src/Sketch.antt =====
-- The count-min sketch: bustub/src/primer/count_min_sketch.cpp and its header.
-- `std::hash` and `std::sort` are parameters, as is what `new u_int32_t[n]` leaves in memory. A
-- hash function captures its seed and `this`, so the model keeps the seed and reads the width of
-- the sketch that calls it. `nullptr` for the matrix is the empty list of rows.
pub mod Hash
pub mod Shape
pub mod Tally
pub mod Create
pub mod Estimate
pub mod Merge
pub mod Threads
pub mod Top
use learning_journey.Base.{
  ℕ, zero, suc, ◌+◌, ◌-◌, ◌%◌, ◌^◌, Bool, not, ◌||◌, List, [], ◌∷◌, map, Outcome, ok, ◌>>◌,
  throw_if, invalid_argument, u32, ltb, ◌==◌, if◌then◌else◌, length, get_or, set, take,
}
use Hash.{combine_hashes}

-- `u_int32_t **matrix_`: one row for each bucket, one counter in it for each hash function.
abbrev pub Matrix : Type 0
Matrix = List (List ℕ)

pub record Sketch : Type 0 where
  pub width : ℕ
  pub depth : ℕ
  pub matrix : Matrix
  pub hash_functions : List ℕ

abbrev pub seed_base : ℕ
seed_base = 15445

abbrev pub cell : Matrix → ℕ → ℕ → ℕ
cell m r c = get_or (get_or m r []) c 0

-- `new u_int32_t[n]`: `raw` is what the memory held.
pub new_row : (ℕ → ℕ) → ℕ → ℕ → List ℕ
new_row raw j zero = []
new_row raw j (suc n) = raw j ∷ new_row raw (j + 1) n

pub new_rows : (ℕ → ℕ → ℕ) → ℕ → ℕ → ℕ → Matrix
unfolding new_row
new_rows raw depth i zero = []
new_rows raw depth i (suc n) = new_row (raw i) 0 depth ∷ new_rows raw depth (i + 1) n

pub zero_row : ℕ → List ℕ → List ℕ
zero_row zero cells = cells
zero_row (suc n) [] = []
zero_row (suc n) (c ∷ cells) = 0 ∷ zero_row n cells

-- `for (i < width) for (j < depth) matrix_[i][j] = 0`
pub zero_rows : ℕ → ℕ → Matrix → Matrix
unfolding zero_row
zero_rows zero depth rows = rows
zero_rows (suc n) depth [] = []
zero_rows (suc n) depth (r ∷ rows) = zero_row depth r ∷ zero_rows n depth rows

-- The seeds that the loop over `HashFunction(i)` pushes, from `i` on.
pub make_hash_functions : ℕ → ℕ → List ℕ
make_hash_functions i zero = []
make_hash_functions i (suc n) = i ∷ make_hash_functions (i + 1) n

unfoldable pub new_sketch : (ℕ → ℕ → ℕ) → ℕ → ℕ → Outcome Sketch
unfolding new_rows zero_rows make_hash_functions
new_sketch raw width depth = do
  throw_if (width == 0 || depth == 0) invalid_argument
  ok record {
    width = width;
    depth = depth;
    matrix = zero_rows width depth (new_rows raw depth 0 width);
    hash_functions = make_hash_functions 0 depth;
  }

-- What a sketch is left as when it was moved from.
abbrev pub emptied : Sketch
emptied = record { width = 0; depth = 0; matrix = []; hash_functions = [] }

-- The new object, and the one that was moved from.
unfoldable pub move_construct : Sketch → Sketch × Sketch
unfolding make_hash_functions
move_construct other =
    (record other { hash_functions = make_hash_functions 0 other.depth }, emptied)

-- `same` is `this == &other`.
unfoldable pub move_assign : Bool → Sketch → Sketch → Sketch × Sketch
unfolding make_hash_functions
move_assign same this other =
    if same
    then (this, this)
    else (record other { hash_functions = make_hash_functions 0 other.depth }, emptied)

-- `matrix_[r][c]++`
unfoldable pub bump : ℕ → ℕ → Matrix → Matrix
bump r c m = set m r (set (get_or m r []) c (u32 (cell m r c + 1)))

pub merge_row : ℕ → List ℕ → List ℕ → List ℕ
merge_row zero xs ys = xs
merge_row (suc n) [] ys = []
merge_row (suc n) (x ∷ xs) [] = x ∷ xs
merge_row (suc n) (x ∷ xs) (y ∷ ys) = u32 (x + y) ∷ merge_row n xs ys

pub merge_rows : ℕ → ℕ → Matrix → Matrix → Matrix
unfolding merge_row
merge_rows zero depth xs ys = xs
merge_rows (suc n) depth [] ys = []
merge_rows (suc n) depth (x ∷ xs) [] = x ∷ xs
merge_rows (suc n) depth (x ∷ xs) (y ∷ ys) = merge_row depth x y ∷ merge_rows n depth xs ys

unfoldable pub merge : Sketch → Sketch → Outcome Sketch
unfolding merge_rows
merge s other = do
  throw_if (not (s.width == other.width) || not (s.depth == other.depth)) invalid_argument
  ok (record s { matrix = merge_rows s.width s.depth s.matrix other.matrix })

unfoldable pub clear : Sketch → Sketch
unfolding zero_rows
clear s = record s { matrix = zero_rows s.width s.depth s.matrix }

abbrev pub uint32_max : ℕ
uint32_max = 2 ^ 32 - 1

-- The comparator that `TopK` gives to `std::sort`: a larger count stands first.
abbrev pub by_count : {K : Type 0} → K × ℕ → K × ℕ → Bool
by_count a b = ltb b.1 a.1

module _ {K : Type 0} (std_hash : K → ℕ) where
  -- `HashFunction(seed)`, called on an item.
  unfoldable pub hash_function : Sketch → ℕ → K → ℕ
  unfolding combine_hashes
  hash_function s seed item =
      let h1 = std_hash item in
      let h2 = combine_hashes seed seed_base in combine_hashes h1 h2 % s.width

  -- `hash_functions_[i](item)`
  abbrev pub bucket : Sketch → K → ℕ → ℕ
  bucket s item i = hash_function s (get_or s.hash_functions i 0) item

  pub insert_loop : Sketch → K → ℕ → ℕ → Matrix → Matrix
  insert_loop s item zero i m = m
  insert_loop s item (suc n) i m = insert_loop s item n (i + 1) (bump (bucket s item i) i m)

  unfoldable pub insert : K → Sketch → Sketch
  unfolding insert_loop bump
  insert item s = record s { matrix = insert_loop s item s.depth 0 s.matrix }

  pub count_loop : Sketch → K → ℕ → ℕ → ℕ → ℕ
  count_loop s item zero i min_value = min_value
  count_loop s item (suc n) i min_value =
      let v = cell s.matrix (bucket s item i) i in
      count_loop s item n (i + 1) (if ltb v min_value then v else min_value)

  unfoldable pub count : K → Sketch → ℕ
  unfolding count_loop
  count item s = count_loop s item s.depth 0 uint32_max

  unfoldable pub insert_all : List K → Sketch → Sketch
  insert_all [] s = s
  insert_all (x ∷ xs) s = insert_all xs (insert x s)

  -- `sort` is `std::sort`.
  unfoldable pub top_k :
      ((K × ℕ → K × ℕ → Bool) → List (K × ℕ) → List (K × ℕ)) → ℕ → List K → Sketch → List (K × ℕ)
  top_k sort k candidates s =
      let result = sort by_count (map (λ c. (c, count c s)) candidates) in
      if ltb k (length result) then take k result else result
