-- ===== src/Arena.antt =====
-- Allocator/Arena.h: an arena that hands out its buffer from the front, and the allocator over it.
-- A pointer is its address; a `size_t` sum or difference is reduced to 64 bits where the code makes
-- it. The lines that print are left out.
pub mod Bounds
pub mod Blocks
pub mod Overflow
use learning_journey.Base.{
  ℕ, ◌+◌, ◌-◌, ◌*◌, ◌/◌, ◌%◌, ◌^◌, Bool, List, [], ◌∷◌, Outcome, ok, throw, bad_alloc, u64, leb,
  ◌==◌, if◌then◌else◌,
}

-- `Arena<N>`: `capacity` is `N`, `buffer` the address of the buffer.
pub record Arena : Type 0 where
  pub capacity : ℕ
  pub buffer : ℕ
  pub next : ℕ

-- `buffer` is where the arena was placed.
unfoldable pub new_arena : ℕ → ℕ → Arena
new_arena capacity buffer = record { capacity = capacity; buffer = buffer; next = buffer }

unfoldable pub is_aligned : ℕ → ℕ → Bool
is_aligned p n = p % n == 0

unfoldable pub used : Arena → ℕ
used a = u64 (a.next + 2 ^ 64 - a.buffer)

unfoldable pub align_up : ℕ → ℕ → ℕ
align_up p alignment =
    if p % alignment == 0 then p else u64 (u64 (p + alignment) + 2 ^ 64 - p % alignment)

-- The pointer returned, and the arena after.
unfoldable pub allocate : Arena → ℕ → ℕ → Outcome (ℕ × Arena)
allocate a n alignment =
    let aligned_addr = align_up a.next alignment in
    let padding = u64 (aligned_addr + 2 ^ 64 - a.next) in
    let total_needed = u64 (n + padding) in
    let bytes_free = u64 (a.capacity + 2 ^ 64 - used a) in
    if leb total_needed bytes_free
    then ok (a.next + padding, record a { next = a.next + total_needed })
    else throw bad_alloc

unfoldable pub deallocate : Arena → Arena
deallocate a = a

-- `CustomAllocator<T, N>::allocate`, where `size` is `sizeof(T)` and `alignment` is `alignof(T)`.
unfoldable pub allocate_elements : ℕ → ℕ → Arena → ℕ → Outcome (ℕ × Arena)
allocate_elements size alignment a n = allocate a (u64 (n * size)) alignment

-- `CustomAllocator<T, N>::max_size`
unfoldable pub max_size : ℕ → ℕ
max_size size = (2 ^ 64 - 1) / size
