-- ===== src/TablePage/Shape.antt =====
-- The representation invariant: the tuples lie one below another, and above the entries.
use learning_journey.Base.{
  ℕ, zero, suc, ◌+◌, ◌-◌, ◌*◌, ◌≤◌, ◌<◌, ◌≡◌, ◌⊎◌, inl, inr, arith, ltb, ◌≢◌, ap, if◌then◌else◌,
}
use native.Mathlib.Decide.{dec_lt}
use learning_journey.TablePage.{TablePage, page_size, header_size, tuple_info_size, init}

-- Where tuple `i` has to end: where the one before it starts, or at the end of the page.
abbrev pub top : TablePage → ℕ → ℕ
top p i = if ltb 0 i then (p.tuple_info (i - 1)).offset else page_size

pub record IsValid (p : TablePage) : Type 0 where
  pub stacked :
      (i : ℕ) → i < p.num_tuples → (p.tuple_info i).offset + (p.tuple_info i).size ≡ top p i
  pub room : header_size + tuple_info_size * p.num_tuples ≤ top p p.num_tuples

pub init-IsValid : (p : TablePage) → IsValid (init p)
unfolding init
init-IsValid p = record { stacked = λ i h. absurd (omega arith); room = omega arith }

module _ {p : TablePage} (v : IsValid p) where
  pub top-le-page_size : (i : ℕ) → i ≤ p.num_tuples → top p i ≤ page_size
  top-le-page_size zero h = omega arith
  top-le-page_size (suc i) h =
      ground (arith, v.stacked i (omega arith), top-le-page_size i (omega arith))

  -- A later tuple lies below an earlier one.
  pub below :
      (i j : ℕ)
      → i < p.num_tuples
      → j < i
      → (p.tuple_info i).offset + (p.tuple_info i).size ≤ (p.tuple_info j).offset
  below zero j h k = absurd (omega arith)
  below (suc i) j h k = elim (dec_lt j i) [
    | yes e ↦ ground (arith, v.stacked (suc i) h, below i j (omega arith) e)
    | no e ↦ let same : j ≡ i = omega arith in rw same (ground (arith, v.stacked (suc i) h))
  ]

  -- Two tuples share no byte.
  pub apart :
      (i j : ℕ)
      → i < p.num_tuples
      → j < p.num_tuples
      → i ≢ j
      → ((p.tuple_info i).offset + (p.tuple_info i).size ≤ (p.tuple_info j).offset)
        ⊎ ((p.tuple_info j).offset + (p.tuple_info j).size ≤ (p.tuple_info i).offset)
  apart i j hi hj ne = elim (dec_lt j i) [
    | yes e ↦ inl (below i j hi e)
    | no e ↦ inr (below j i hj (omega arith))
  ]

  -- Every tuple ends in the page.
  pub inside :
      (i : ℕ) → i < p.num_tuples → (p.tuple_info i).offset + (p.tuple_info i).size ≤ page_size
  inside i h = omega (arith, v.stacked i h, top-le-page_size i (omega arith))

  -- Every tuple starts above the entries.
  pub above :
      (i : ℕ)
      → i < p.num_tuples
      → header_size + tuple_info_size * p.num_tuples ≤ (p.tuple_info i).offset
  above i h = elim (dec_lt (i + 1) p.num_tuples) [
    | yes e ↦ ground (arith, v.room, below (p.num_tuples - 1) i (omega arith) (omega arith))
    | no e ↦
        let same : p.num_tuples - 1 ≡ i = omega arith in
        ground (arith, v.room, ap (λ k. (p.tuple_info k).offset) same)
  ]
