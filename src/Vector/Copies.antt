-- ===== src/Vector/Copies.antt =====
-- What a vector holds, and the constructors, assignments, index and destructor on it.
use mathlib.Core.List.{append-nil, foldl}
use native.Mathlib.Nat.{div-lt_iff_lt-mul, le-div_iff_mul-le}
use learning_journey.Base.{
  ℕ, zero, suc, ◌+◌, ◌-◌, ◌*◌, ◌^◌, ◌≤◌, ◌<◌, ◌≡◌, refl, sym, ap, ap₂, ◌∙◌, Bool, true, false, List,
  [], ◌∷◌, ◌++◌, map, arith, ok, throw, bad_alloc, length_error, std_out_of_range, length,
  length-replicate, get_elem?, replicate, replicate-add, u64, if◌then◌else◌, pos, negsuc, some,
}
use learning_journey.Vector.{
  Slot, raw, object, Block, Vector, empty, max_size, allocate, read, fill, destroy_range,
  copy_range, copy_list, index, destroy_all, move_construct, move_assign, sum, sized_vector,
  list_vector, copy_construct, copy_assign,
}
use learning_journey.Vector.Slots.{
  destroy_range_middle, fill_middle, copy_list_middle, copy_range_middle, sum_range_middle,
}

-- The vector that holds the elements of a list and has a capacity: its slots are those objects, then
-- raw storage.
abbrev pub vec : {T : Type 0} → List T → ℕ → Vector T
vec xs cap = record {
  elem = map object xs ++ replicate (cap - length xs) raw;
  sz = length xs;
  cap = cap;
}

-- `CustomAllocator::allocate` asks the system for exactly `size * n` bytes, or throws
-- `std::bad_alloc` if that is 2 ^ 64 or more: the product never wraps.
pub allocate_no_wrap :
    {T : Type 0} (size : ℕ) (new_ok : ℕ → Bool) (n : ℕ)
    → 0 < size
    → 0 < n
    → (2 ^ 64 ≤ size * n → allocate {T = T} size new_ok n ≡ throw bad_alloc)
      × (size * n < 2 ^ 64
          → allocate {T = T} size new_ok n
            ≡ (if new_ok (size * n) then ok (replicate n raw) else throw bad_alloc))
unfolding allocate max_size
allocate_no_wrap size new_ok n hs hn = (
  λ h.
      let big = (div-lt_iff_lt-mul {k = size} {x = 2 ^ 64 - 1} {y = n} hs).1 (omega arith) in
      ground arith,
  λ h.
      let fits = (le-div_iff_mul-le {k = size} {x = n} {y = 2 ^ 64 - 1} hs).1 (omega arith) in
      let word : u64 (size * n) ≡ size * n = omega arith in rw word (ground arith),
)

-- Storage for `n` elements can be had: its size in bytes is a `size_t`, and the system grants it.
pub record Available (size : ℕ) (new_ok : ℕ → Bool) (n : ℕ) : Type 0 where
  pub sized : 0 < size
  pub word : size * n < 2 ^ 64
  pub granted : new_ok (size * n) ≡ true

module _ {T : Type 0} where
  pub allocate-ok :
      {size : ℕ} {new_ok : ℕ → Bool} (n : ℕ)
      → Available size new_ok n
      → allocate {T = T} size new_ok n ≡ ok (replicate n raw)
  unfolding allocate
  allocate-ok zero a = refl
  allocate-ok {size} {new_ok} (suc n) a = unfold_step ∙ rw (a.granted) refl
    where
      unfold_step :
          allocate {T = T} size new_ok (suc n)
          ≡ (if new_ok (size * suc n) then ok (replicate (suc n) raw) else throw bad_alloc)
      unfold_step = (allocate_no_wrap {T = T} size new_ok (suc n) a.sized (omega arith)).1 a.word

  pub replicate-split :
      (n cap : ℕ)
      → n ≤ cap
      → replicate {A = Slot T} cap raw ≡ replicate n raw ++ replicate (cap - n) raw
  replicate-split n cap h =
      ap (λ k. replicate k raw) {y = n + (cap - n)} (omega arith)
      ∙ sym (replicate-add n (cap - n) raw)

  copy_all :
      (xs : List T) (d : Block T) (cap : ℕ)
      → length xs ≤ cap
      → copy_range (map object xs ++ d) (length xs) 0 (replicate cap raw)
        ≡ ok (map object xs ++ replicate (cap - length xs) raw)
  copy_all xs d cap h =
      ap (copy_range (map object xs ++ d) (length xs) 0) (replicate-split (length xs) cap h)
      ∙ copy_range_middle xs 0 [] d [] (replicate (cap - length xs) raw) refl refl

  pub destroy_vec :
      (xs : List T) (cap : ℕ)
      → length xs ≤ cap
      → destroy_range (length xs) 0 (vec xs cap).elem ≡ ok (replicate cap raw)
  destroy_vec xs cap h =
      destroy_range_middle xs [] (replicate (cap - length xs) raw) 0 refl
      ∙ ap ok (sym (replicate-split (length xs) cap h))

  -- The destructor destroys every object of the vector, each once, and touches no raw slot.
  pub destroy_all-vec :
      (xs : List T) (cap : ℕ) → length xs ≤ cap → destroy_all (vec xs cap) ≡ ok (replicate cap raw)
  unfolding destroy_all
  destroy_all-vec xs cap h = destroy_vec xs cap h

  fill_all : (v : T) (n : ℕ) → fill v n 0 (replicate n raw) ≡ ok (replicate n (object v))
  fill_all v n =
      ap (fill v n 0) (sym (append-nil (replicate n raw)))
      ∙ fill_middle v n 0 [] [] refl
      ∙ ap ok (append-nil (replicate n (object v)))

  copy_list_all :
      (xs : List T)
      → copy_list xs 0 (replicate (length xs) raw)
        ≡ ok (map object xs ++ replicate (length xs - length xs) raw)
  copy_list_all xs =
      ap (copy_list xs 0) (replicate-split (length xs) (length xs) (omega arith))
      ∙ copy_list_middle xs 0 [] (replicate (length xs - length xs) raw) refl

  map-replicate : (n : ℕ) (v : T) → map object (replicate n v) ≡ replicate n (object v)
  map-replicate zero v = refl
  map-replicate (suc n) v = ap (λ l. object v ∷ l) (map-replicate n v)

  vec-replicate :
      (n : ℕ) (v : T)
      → vec (replicate n v) n ≡ record { elem = replicate n (object v); sz = n; cap = n }
  vec-replicate n v =
      let len = length-replicate n v in
      let spare : n - length (replicate n v) ≡ 0 = omega (arith, len) in
      let slots : map object (replicate n v) ++ replicate (n - length (replicate n v)) raw
          ≡ replicate n (object v) =
        ap₂ (λ l k. l ++ replicate k raw) (map-replicate n v) spare
        ∙ append-nil (replicate n (object v)) in
      ap₂ (λ l k. record { elem = l; sz = k; cap = n }) slots len

  module _ {size : ℕ} {new_ok : ℕ → Bool} where
    -- Where the storage can be had, a copy holds the elements of the original with no room to spare;
    -- a copy assignment destroys what the target held and gives it the elements and the capacity of
    -- the other, and a self-assignment changes nothing.
    pub copy-vec :
        (xs ys : List T) (cap cap' : ℕ)
        → length xs ≤ cap
        → length ys ≤ cap'
        → Available size new_ok (length xs)
        → Available size new_ok cap
        → (copy_construct size new_ok (vec xs cap) ≡ ok (vec xs (length xs)))
          × (copy_assign size new_ok false (vec ys cap') (vec xs cap) ≡ ok (vec xs cap))
          × (copy_assign size new_ok true (vec xs cap) (vec xs cap) ≡ ok (vec xs cap))
    unfolding copy_construct copy_assign
    copy-vec xs ys cap cap' h h' a b = (
      rw (
        allocate-ok (length xs) a,
        copy_all xs (replicate (cap - length xs) raw) (length xs) (omega arith),
      ),
      rw (
        destroy_vec ys cap' h',
        allocate-ok cap b,
        copy_all xs (replicate (cap - length xs) raw) cap h,
      ),
      refl,
    )

    -- Where the storage can be had, `Vector(n)` holds `n` copies of `T{}` (and a negative `n` is
    -- refused with `std::length_error`), and a vector made from a list holds the list; both are full.
    pub construct-vec :
        (init : T) (n : ℕ) (lst : List T)
        → Available size new_ok n
        → Available size new_ok (length lst)
        → (sized_vector size new_ok init (pos n) ≡ ok (vec (replicate n init) n))
          × ((m : ℕ) → sized_vector size new_ok init (negsuc m) ≡ throw length_error)
          × (list_vector size new_ok lst ≡ ok (vec lst (length lst)))
    unfolding sized_vector list_vector
    construct-vec init n lst a b = (
      rw (allocate-ok n a, fill_all init n) (ap ok (sym (vec-replicate n init))),
      λ m. refl,
      rw (allocate-ok (length lst) b, copy_list_all lst) refl,
    )

  pub get_elem?-objects :
      (xs : List T) (d : Block T) (j : ℕ) (x : T)
      → get_elem? xs j ≡ some x
      → (j < length xs) × (get_elem? (map object xs ++ d) j ≡ some (object x))
  get_elem?-objects [] d j x h = cc
  get_elem?-objects (y ∷ ys) d zero x h = (omega arith, cc)
  get_elem?-objects (y ∷ ys) d (suc j) x h =
      let (a, b) = get_elem?-objects ys d j x h in (omega arith, b)

  -- `operator[]` gives the element at an index from 0 up to the size, and throws
  -- `std::out_of_range` at any other.
  pub index-vec :
      (xs : List T) (cap j : ℕ)
      → ((x : T) → get_elem? xs j ≡ some x → index (vec xs cap) (pos j) ≡ ok x)
        × (length xs ≤ j → index (vec xs cap) (pos j) ≡ throw std_out_of_range)
        × (index (vec xs cap) (negsuc j) ≡ throw std_out_of_range)
  unfolding index read
  index-vec xs cap j = (
    λ x h.
        let (low, found) = get_elem?-objects xs (replicate (cap - length xs) raw) j x h in
        rw found (ground arith),
    λ h. ground arith,
    refl,
  )

  -- A move hands over the elements and the storage and leaves an empty vector; a move assignment
  -- first destroys what the target held, and a self-move changes nothing.
  pub move-vec :
      (xs ys : List T) (cap cap' : ℕ)
      → length ys ≤ cap'
      → (move_construct (vec xs cap) ≡ (vec xs cap, empty))
        × (move_assign false (vec ys cap') (vec xs cap) ≡ ok (vec xs cap, empty))
        × (move_assign true (vec xs cap) (vec xs cap) ≡ ok (vec xs cap, vec xs cap))
  unfolding move_construct move_assign destroy_all
  move-vec xs ys cap cap' h = (refl, rw (destroy_vec ys cap' h) refl, refl)

  -- `sum` folds the addition over the elements from the left.
  pub sum-vec :
      (add : T → T → T) (xs : List T) (cap : ℕ) (v : T)
      → sum add (vec xs cap) v ≡ ok (foldl add v xs)
  unfolding sum
  sum-vec add xs cap v = sum_range_middle add xs 0 [] (replicate (cap - length xs) raw) v refl
