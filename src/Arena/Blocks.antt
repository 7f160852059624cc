-- ===== src/Arena/Blocks.antt =====
-- A client's calls in order, and the blocks that they leave it with.
use learning_journey.Base.{ℕ, ◌+◌, ◌^◌, ◌≤◌, ◌<◌, ◌≡◌, Error, ok, throw, List, [], ◌∷◌, arith, All}
use native.Mathlib.Decide.{dec_le}
use learning_journey.Arena.{Arena, align_up, allocate, deallocate}
use learning_journey.Arena.Bounds.{IsValid, allocate_lem}

pub data Call : Type 0 where
  request : ℕ → ℕ → Call
  release : Call

-- The address and the size of each block granted, and the arena at the end. A client that catches
-- `std::bad_alloc` goes on with the arena as it was.
unfoldable pub run : Arena → List Call → List (ℕ × ℕ) × Arena
unfolding deallocate
run a [] = ([], a)
run a (release ∷ cs) = run (deallocate a) cs
run a (request n alignment ∷ cs) = elim (allocate a n alignment) [
  | ok (p, b) ↦ let (blocks, c) = run b cs in ((p, n) ∷ blocks, c)
  | throw e ↦ run a cs
]

-- Each block starts no earlier than the one before it ends, the first no earlier than `low`, and the
-- last ends no later than `high`.
abbrev pub Packed : ℕ → ℕ → List (ℕ × ℕ) → Type 0
Packed low high [] = low ≤ high
Packed low high ((p, n) ∷ blocks) = (low ≤ p) × Packed (p + n) high blocks

-- A call in which no sum wraps, for an arena that ends at `high`.
abbrev pub Sane : ℕ → Call → Type 0
Sane high release = Unit
Sane high (request n alignment) =
    (0 < alignment) × (high + alignment < 2 ^ 64) × (n + alignment < 2 ^ 64)

run_granted :
    (a b : Arena) (p n alignment : ℕ) (cs : List Call)
    → allocate a n alignment ≡ ok (p, b)
    → run a (request n alignment ∷ cs) ≡ ((p, n) ∷ (run b cs).0, (run b cs).1)
unfolding run
run_granted a b p n alignment cs h = rw (h, run)

run_refused :
    (a : Arena) (e : Error) (n alignment : ℕ) (cs : List Call)
    → allocate a n alignment ≡ throw e
    → run a (request n alignment ∷ cs) ≡ run a cs
unfolding run
run_refused a e n alignment cs h = rw (h, run)

-- Whatever a client requests and releases, with no sum past 2 ^ 64: the blocks granted lie one after
-- another between `next` and the end of the buffer, so no two overlap, and the arena stays valid.
pub run-Packed :
    (calls : List Call) {a : Arena}
    → IsValid a
    → All (Sane (a.buffer + a.capacity)) calls
    → Packed a.next (a.buffer + a.capacity) (run a calls).0 × IsValid (run a calls).1
unfolding run
run-Packed [] v s = (v.upper, v)
run-Packed (release ∷ cs) v s = run-Packed cs v s.1
run-Packed (request n alignment ∷ cs) {a} v s =
    let (refused, granted) = allocate_lem v n alignment s.0.0 s.0.1 s.0.2 in
    elim (dec_le (align_up a.next alignment + n) (a.buffer + a.capacity)) [
      | no h ↦ rw (run_refused a _ n alignment cs (refused (omega arith))) (run-Packed cs v s.1)
      | yes h ↦
          let (r, ran, post) = granted h in
          let (_, above, _, next, b, c, valid) = post in
          let ends : r.1.buffer + r.1.capacity ≡ a.buffer + a.capacity = omega arith in
          let rest = run-Packed cs valid (rw ends (s.1)) in
          rw (run_granted a r.1 r.0 n alignment cs ran) ((above, rw (next, ends) at rest.0), rest.1)
    ]
