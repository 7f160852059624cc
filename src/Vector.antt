-- ===== src/Vector.antt =====
-- Containers/vector/Vector.h over the allocator of Allocator/Allocator.h.
-- A block of raw storage is a list of slots, each raw or holding an object; `nullptr`, which is what
-- `allocate(0)` returns, is the empty list. What C++ leaves undefined (a read of a raw slot or past
-- the block, an `int` past its range, an assignment to an object that was never constructed) is the
-- error `undefined`. `new_ok` says for which sizes in bytes `::operator new` succeeds, `size` is
-- `sizeof(T)`, and `trivial` whether assigning to raw storage of `T` starts an object's lifetime.
-- `sz` and `cap` are never negative; an initializer list and what `reserve` is asked for are taken
-- to be no longer than an `int` can say.
pub mod Slots
pub mod Copies
pub mod Growth
use learning_journey.Base.{
  ℕ, zero, suc, ◌+◌, ◌-◌, ◌*◌, ◌/◌, ◌^◌, Bool, true, false, ◌||◌, List, [], ◌∷◌, Option, none, some,
  Outcome, ok, throw, bad_alloc, length_error, std_out_of_range, undefined, ◌>>=◌, u64, ltb, leb,
  ◌==◌, if◌then◌else◌, length, get_elem?, set, replicate, ℤ, pos, negsuc,
}

pub data Slot (T : Type 0) : Type 0 where
  raw : Slot T
  object : T → Slot T

abbrev pub Block : Type 0 → Type 0
Block T = List (Slot T)

-- What a block is to the references into it: there, or given back to the allocator.
pub data Storage (T : Type 0) : Type 0 where
  live : Block T → Storage T
  freed : Storage T

pub record Vector (T : Type 0) : Type 0 where
  pub elem : Block T
  pub sz : ℕ
  pub cap : ℕ

-- What a `const T &` refers to: something outside the vector, or its element at an index.
pub data Ref (T : Type 0) : Type 0 where
  outside : T → Ref T
  inside : ℕ → Ref T

abbrev pub empty : {T : Type 0} → Vector T
empty = record { elem = []; sz = 0; cap = 0 }

unfoldable pub max_size : ℕ → ℕ
max_size size = (2 ^ 64 - 1) / size

-- `cap == 0 ? 1 : cap * 2`, an `int`
unfoldable pub grown : ℕ → Outcome ℕ
grown cap =
    if cap == 0 then ok 1 else if ltb (cap * 2) (2 ^ 31) then ok (cap * 2) else throw undefined

module _ {T : Type 0} where
  unfoldable pub allocate : ℕ → (ℕ → Bool) → ℕ → Outcome (Block T)
  allocate size new_ok n =
      if n == 0
      then ok []
      else if ltb (max_size size) n
      then throw bad_alloc
      else if new_ok (u64 (size * n))
      then ok (replicate n raw)
      else throw bad_alloc

  read_slot : Option (Slot T) → Outcome T
  read_slot none = throw undefined
  read_slot (some raw) = throw undefined
  read_slot (some (object v)) = ok v

  -- `p[i]` as a value
  unfoldable pub read : Block T → ℕ → Outcome T
  unfolding read_slot
  read b i = read_slot (get_elem? b i)

  unfoldable pub construct : Block T → ℕ → T → Outcome (Block T)
  construct b i v = if ltb i (length b) then ok (set b i (object v)) else throw undefined

  unfoldable pub destroy : Block T → ℕ → Outcome (Block T)
  destroy b i = read b i >>= λ _. ok (set b i raw)

  assign_slot : Bool → Block T → ℕ → T → Option (Slot T) → Outcome (Block T)
  assign_slot trivial b i v none = throw undefined
  assign_slot true b i v (some raw) = ok (set b i (object v))
  assign_slot false b i v (some raw) = throw undefined
  assign_slot trivial b i v (some (object _)) = ok (set b i (object v))

  -- `p[i] = v`
  unfoldable pub assign : Bool → Block T → ℕ → T → Outcome (Block T)
  unfolding assign_slot
  assign trivial b i v = assign_slot trivial b i v (get_elem? b i)

  -- `n` rounds from index `i` of `construct(&elem[i], v)`
  unfoldable pub fill : T → ℕ → ℕ → Block T → Outcome (Block T)
  fill v zero i b = ok b
  fill v (suc n) i b = do b' ← construct b i v; fill v n (i + 1) b'

  -- `n` rounds from index `i` of `destroy(&elem[i])`
  unfoldable pub destroy_range : ℕ → ℕ → Block T → Outcome (Block T)
  destroy_range zero i b = ok b
  destroy_range (suc n) i b = do b' ← destroy b i; destroy_range n (i + 1) b'

  -- `n` rounds from index `i` of `construct(&elem[i], src[i])`
  unfoldable pub copy_range : Block T → ℕ → ℕ → Block T → Outcome (Block T)
  copy_range src zero i b = ok b
  copy_range src (suc n) i b = do v ← read src i; b' ← construct b i v; copy_range src n (i + 1) b'

  -- The loop over an initializer list.
  unfoldable pub copy_list : List T → ℕ → Block T → Outcome (Block T)
  copy_list [] i b = ok b
  copy_list (v ∷ vs) i b = do b' ← construct b i v; copy_list vs (i + 1) b'

  -- `n` rounds from index `i` of `construct(&p[i], elem[i]); destroy(&elem[i])`; the result is `p`.
  unfoldable pub relocate : ℕ → ℕ → Block T → Block T → Outcome (Block T)
  relocate zero i elem p = ok p
  relocate (suc n) i elem p = do
    v ← read elem i
    p' ← construct p i v
    elem' ← destroy elem i
    relocate n (i + 1) elem' p'

  -- `v[i]`; the reference is its value.
  unfoldable pub index : Vector T → ℤ → Outcome T
  index v (negsuc n) = throw std_out_of_range
  index v (pos i) = if leb v.sz i then throw std_out_of_range else read v.elem i

  -- The destructor; the block that it gives back.
  unfoldable pub destroy_all : Vector T → Outcome (Block T)
  destroy_all v = destroy_range v.sz 0 v.elem

  -- The new object, and the one that was moved from.
  unfoldable pub move_construct : Vector T → Vector T × Vector T
  move_construct other = (other, empty)

  -- `same` is `this == &other`.
  unfoldable pub move_assign : Bool → Vector T → Vector T → Outcome (Vector T × Vector T)
  move_assign same this other =
      if same then ok (this, this) else (do _ ← destroy_all this; ok (other, empty))

  -- `sum(c, v)`, for an addition.
  unfoldable pub sum_range : (T → T → T) → Block T → ℕ → ℕ → T → Outcome T
  sum_range add b zero i v = ok v
  sum_range add b (suc n) i v = do x ← read b i; sum_range add b n (i + 1) (add v x)

  unfoldable pub sum : (T → T → T) → Vector T → T → Outcome T
  sum add c v = sum_range add c.elem c.sz 0 v

  -- `if (elem) alloc.deallocate(elem, cap)`: what references into the block find there.
  unfoldable pub deallocate : Block T → Storage T
  deallocate [] = live []
  deallocate (_ ∷ _) = freed

  -- A reference, read when the block that those into the vector point into is so.
  unfoldable pub look : Storage T → Ref T → Outcome T
  look s (outside x) = ok x
  look (live b) (inside i) = read b i
  look freed (inside i) = throw undefined

  store_last : Bool → Vector T → T → Outcome (Vector T)
  store_last trivial v x = do
    b ← assign trivial v.elem v.sz x
    ok (record { elem = b; sz = v.sz + 1; cap = v.cap })

  module _ (size : ℕ) (new_ok : ℕ → Bool) where
    unfoldable pub sized_vector : T → ℤ → Outcome (Vector T)
    sized_vector init (negsuc n) = throw length_error
    sized_vector init (pos n) = do
      elem ← allocate size new_ok n
      elem' ← fill init n 0 elem
      ok (record { elem = elem'; sz = n; cap = n })

    unfoldable pub list_vector : List T → Outcome (Vector T)
    list_vector lst = do
      elem ← allocate size new_ok (length lst)
      elem' ← copy_list lst 0 elem
      ok (record { elem = elem'; sz = length lst; cap = length lst })

    unfoldable pub copy_construct : Vector T → Outcome (Vector T)
    copy_construct other = do
      elem ← allocate size new_ok other.sz
      elem' ← copy_range other.elem other.sz 0 elem
      ok (record { elem = elem'; sz = other.sz; cap = other.sz })

    unfoldable pub copy_assign : Bool → Vector T → Vector T → Outcome (Vector T)
    copy_assign same this other = if same then ok this else (do
      _ ← destroy_range this.sz 0 this.elem
      elem ← allocate size new_ok other.cap
      elem' ← copy_range other.elem other.sz 0 elem
      ok (record { elem = elem'; sz = other.sz; cap = other.cap }))

    -- `reserve`, with what becomes of the block that the vector had.
    unfoldable pub reserve_from : Vector T → ℕ → Outcome (Vector T × Storage T)
    reserve_from v new_cap = if leb new_cap v.cap then ok (v, live v.elem) else (do
      p ← allocate size new_ok new_cap
      p' ← relocate v.sz 0 v.elem p
      ok (record { elem = p'; sz = v.sz; cap = new_cap }, deallocate v.elem))

    unfoldable pub reserve : Vector T → ℕ → Outcome (Vector T)
    reserve v new_cap = reserve_from v new_cap >>= λ (w, _). ok w

    unfoldable pub push_back : Bool → Vector T → Ref T → Outcome (Vector T)
    unfolding store_last
    push_back trivial v value =
        if v.sz == v.cap
        then (do
          new_cap ← grown v.cap
          (w, old) ← reserve_from v new_cap
          x ← look old value
          store_last trivial w x)
        else (do x ← look (live v.elem) value; store_last trivial v x)
