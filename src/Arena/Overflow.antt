-- ===== src/Arena/Overflow.antt =====
-- Requests at which a 64-bit sum or product of `allocate` wraps.
use learning_journey.Base.{ℕ, ◌+◌, ◌-◌, ◌*◌, ◌^◌, ◌≤◌, ◌<◌, ◌≡◌, Returns, u64, arith}
use learning_journey.Arena.{Arena, align_up, allocate, allocate_elements}
use learning_journey.Arena.Bounds.{IsValid, align_up_lem, used-eq, allocate_lem}

-- In a valid arena whose first aligned address lies in the buffer or at its end: a request of so
-- many bytes that the sum with the padding reaches 2 ^ 64 is granted, its block runs past the end
-- of the buffer, and `next` is left before the start of the block.
pub allocate_wraps :
    {a : Arena}
    → IsValid a
    → (n alignment : ℕ) → 0 < alignment
    → a.buffer + a.capacity + alignment < 2 ^ 64
    → align_up a.next alignment ≤ a.buffer + a.capacity
    → n < 2 ^ 64
    → 2 ^ 64 ≤ n + (align_up a.next alignment - a.next)
    → Returns (allocate a n alignment) λ r. (r.1.next < r.0) × (r.1.buffer + r.1.capacity < r.0 + n)
unfolding allocate
allocate_wraps {a} v n alignment positive low inside word wraps =
    let start = align_up a.next alignment in
    let (_, above, below) = align_up_lem a.next alignment positive (omega arith) in
    let padding : u64 (start + 2 ^ 64 - a.next) ≡ start - a.next = omega arith in
    let total : u64 (n + (start - a.next)) ≡ n + (start - a.next) - 2 ^ 64 = omega arith in
    let free : u64 (a.capacity + 2 ^ 64 - (a.next - a.buffer)) ≡ a.buffer + a.capacity - a.next =
      omega arith in
    (
      (start, record a { next = a.next + (n + (start - a.next) - 2 ^ 64) }),
      rw (padding, total, used-eq v, free) (ground arith),
      (omega arith, omega arith),
    )

-- `CustomAllocator::allocate` grants a request of `n` elements whose size in bytes is 2 ^ 64 or more
-- wherever the product, cut to 64 bits, fits: the elements run past the end of the buffer.
pub allocate_elements_wraps :
    {a : Arena}
    → IsValid a
    → (size alignment n : ℕ) → 0 < alignment
    → a.buffer + a.capacity + alignment < 2 ^ 64
    → u64 (n * size) + alignment < 2 ^ 64
    → align_up a.next alignment + u64 (n * size) ≤ a.buffer + a.capacity
    → 2 ^ 64 ≤ n * size
    → Returns (allocate_elements size alignment a n) λ r. r.1.buffer + r.1.capacity < r.0 + n * size
unfolding allocate_elements
allocate_elements_wraps v size alignment n positive low small fits wraps =
    let (r, run, post) = (allocate_lem v (u64 (n * size)) alignment positive low small).1 fits in
    (r, run, omega arith)
