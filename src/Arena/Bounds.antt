-- ===== src/Arena/Bounds.antt =====
-- One call of `allocate`: where the block lies, and when the call is refused.
use learning_journey.Base.{
  ℕ, ◌+◌, ◌-◌, ◌*◌, ◌/◌, ◌%◌, ◌^◌, ◌≤◌, ◌<◌, ◌≡◌, refl, ap, suc, ◌∙◌, Returns, ok, throw, bad_alloc,
  u64, leb, arith, ◌==◌, if◌then◌else◌, Bool-cases, inl, inr,
}
use native.Mathlib.Nat.{div-add-mod, mod-le, mod-lt, mul-mod_left}
use learning_journey.Arena.{Arena, new_arena, used, align_up, allocate}

-- `next` lies in the buffer or at its end, and the buffer ends below 2 ^ 64.
pub record IsValid (a : Arena) : Type 0 where
  pub lower : a.buffer ≤ a.next
  pub upper : a.next ≤ a.buffer + a.capacity
  pub addressable : a.buffer + a.capacity < 2 ^ 64

pub new_arena-IsValid : (n b : ℕ) → b + n < 2 ^ 64 → IsValid (new_arena n b)
unfolding new_arena
new_arena-IsValid n b h = omega arith

next_multiple : (p a : ℕ) → 0 < a → (p + a - p % a) % a ≡ 0
next_multiple p a h =
    let step : p + a - p % a ≡ suc (p / a) * a = omega (arith, div-add-mod p a, mod-le p a) in
    ap (λ n. n % a) step ∙ mul-mod_left (suc (p / a)) a

-- Below the wrap-around `align_up` gives the least multiple of the alignment that is no less than
-- the address: it is a multiple, and lies less than one alignment above.
pub align_up_lem :
    (p alignment : ℕ)
    → 0 < alignment
    → p + alignment < 2 ^ 64
    → (align_up p alignment % alignment ≡ 0)
      × (p ≤ align_up p alignment)
      × (align_up p alignment < p + alignment)
unfolding align_up
align_up_lem p a h fits = elim (Bool-cases (p % a == 0)) [
  | inl e ↦ rw e (ground arith, omega arith, omega arith)
  | inr e ↦
      let less = mod-lt p h in
      let low : 0 < p % a = ground arith in
      let word : u64 (u64 (p + a) + 2 ^ 64 - p % a) ≡ p + a - p % a = omega arith in
      rw (e, word) (next_multiple p a h, omega arith, omega arith)
]

pub used-eq : {a : Arena} → IsValid a → used a ≡ a.next - a.buffer
unfolding used
used-eq v = omega arith

-- What a refused or granted request of `n` bytes amounts to, where nothing wraps.
module _ {a : Arena} (v : IsValid a) (n alignment : ℕ) (positive : 0 < alignment)
    (low : a.buffer + a.capacity + alignment < 2 ^ 64) (small : n + alignment < 2 ^ 64) where
  pub allocate-eq :
      let start = align_up a.next alignment in
      allocate a n alignment ≡ (
        if leb (start + n) (a.buffer + a.capacity)
        then ok (start, record a { next = start + n })
        else throw bad_alloc)
  unfolding allocate
  allocate-eq =
      let start = align_up a.next alignment in
      let (_, above, below) = align_up_lem a.next alignment positive (omega arith) in
      let padding : u64 (start + 2 ^ 64 - a.next) ≡ start - a.next = omega arith in
      let total : u64 (n + (start - a.next)) ≡ n + (start - a.next) = omega arith in
      let free : u64 (a.capacity + 2 ^ 64 - (a.next - a.buffer)) ≡ a.buffer + a.capacity - a.next =
        omega arith in
      rw (padding, total, used-eq v, free) (ground arith)

-- In a valid arena, for a positive alignment and with no sum past 2 ^ 64: a request is refused with
-- `std::bad_alloc` exactly when the block does not fit between the first aligned address from `next`
-- on and the end of the buffer; a block that is granted starts at that address, `next` becomes its
-- end, and the arena stays valid.
pub allocate_lem :
    {a : Arena}
    → IsValid a
    → (n alignment : ℕ) → 0 < alignment
    → a.buffer + a.capacity + alignment < 2 ^ 64
    → n + alignment < 2 ^ 64
    → (a.buffer + a.capacity < align_up a.next alignment + n
        → allocate a n alignment ≡ throw bad_alloc)
      × (align_up a.next alignment + n ≤ a.buffer + a.capacity
          → Returns (allocate a n alignment) λ r.
            (r.0 % alignment ≡ 0)
            × (a.next ≤ r.0)
            × (r.0 < a.next + alignment)
            × (r.1.next ≡ r.0 + n)
            × (r.1.buffer ≡ a.buffer)
            × (r.1.capacity ≡ a.capacity)
            × IsValid r.1)
allocate_lem {a} v n alignment positive low small =
    let (multiple, above, below) = align_up_lem a.next alignment positive (omega arith) in
    let same = allocate-eq v n alignment positive low small in
    let start = align_up a.next alignment in
    (
      λ h. ground (arith, same),
      λ h. (
        (start, record a { next = start + n }),
        ground (arith, same),
        (multiple, above, below, refl, refl, refl, omega arith),
      ),
    )
