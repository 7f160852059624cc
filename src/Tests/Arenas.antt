-- ===== src/Tests/Arenas.antt =====
-- An arena of 64 bytes at the address 1024.
use learning_journey.Base.{
  ◌+◌, ◌-◌, ◌^◌, ◌<◌, ◌≡◌, refl, List, [], ◌∷◌, Returns, ok, throw, bad_alloc, arith,
}
use learning_journey.Arena.{Arena, used, align_up, allocate}
use learning_journey.Arena.Bounds.{IsValid, allocate_lem}
use learning_journey.Arena.Blocks.{Call, request, release, run, run-Packed, Packed}
use learning_journey.Arena.Overflow.{allocate_wraps}

-- One byte is used.
abbrev demo : Arena
demo = record { capacity = 64; buffer = 1024; next = 1025 }

demo-IsValid : IsValid demo
demo-IsValid = omega arith

allocate_runs : allocate demo 4 4 ≡ ok (1028, record demo { next = 1032 })
unfolding allocate align_up used
allocate_runs = refl

allocate_lem_example : allocate demo 64 4 ≡ throw bad_alloc
unfolding align_up
allocate_lem_example =
    (allocate_lem {a = demo} demo-IsValid 64 4 (omega arith) (omega arith) (omega arith)).0
      (omega arith)

abbrev calls : List Call
calls = request 4 4 ∷ release ∷ request 100 8 ∷ request 8 8 ∷ []

run_runs : run demo calls ≡ ((1028, 4) ∷ (1032, 8) ∷ [], record demo { next = 1040 })
unfolding run allocate align_up used
run_runs = refl

run-Packed_example : Packed 1025 (1024 + 64) (run demo calls).0 × IsValid (run demo calls).1
run-Packed_example = run-Packed calls {a = demo} demo-IsValid (omega arith)

allocate_wraps_example :
    Returns
      (allocate demo (2 ^ 64 - 3) 4)
      λ r. (r.1.next < r.0) × (r.1.buffer + r.1.capacity < r.0 + (2 ^ 64 - 3))
unfolding align_up
allocate_wraps_example =
    allocate_wraps {a = demo} demo-IsValid (2 ^ 64 - 3) 4 (omega arith) (omega arith) (omega arith)
      (omega arith) (omega arith)
