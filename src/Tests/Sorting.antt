-- ===== src/Tests/Sorting.antt =====
-- An insertion sort, as one function that keeps what the standard says of `std::sort`.
use mathlib.Core.List.{Perm}
use mathlib.Core.List.Perm
use learning_journey.Base.{
  ℕ, ◌≤◌, ◌≡◌, false, List, [], ◌∷◌, arith, All, ltb, if◌then◌else◌, Bool-cases, inl, inr,
}
use learning_journey.Sketch.{by_count}
use learning_journey.Sketch.Top.{IsSort, Sorted}

module _ {K : Type 0} where
  place : K × ℕ → List (K × ℕ) → List (K × ℕ)
  place p [] = p ∷ []
  place p (q ∷ qs) = if ltb p.1 q.1 then q ∷ place p qs else p ∷ q ∷ qs

  unfoldable pub insertion_sort : List (K × ℕ) → List (K × ℕ)
  unfolding place
  insertion_sort [] = []
  insertion_sort (p ∷ ps) = place p (insertion_sort ps)

  place-perm : (p : K × ℕ) (qs : List (K × ℕ)) → Perm (place p qs) (p ∷ qs)
  unfolding place
  place-perm p [] = Perm.refl _
  place-perm p (q ∷ qs) = elim (Bool-cases (ltb p.1 q.1)) [
    | inl e ↦ rw e (Perm.trans (Perm.cons q (place-perm p qs)) (Perm.swap p q qs))
    | inr e ↦ rw e (Perm.refl _)
  ]

  All-place :
      (r p : K × ℕ) (qs : List (K × ℕ))
      → by_count p r ≡ false
      → All (λ y. by_count y r ≡ false) qs
      → All (λ y. by_count y r ≡ false) (place p qs)
  unfolding place
  All-place r p [] h a = (h, tt)
  All-place r p (q ∷ qs) h a = elim (Bool-cases (ltb p.1 q.1)) [
    | inl e ↦ rw e (a.0, All-place r p qs h a.1)
    | inr e ↦ rw e (h, a)
  ]

  All-later :
      (p q : K × ℕ) (qs : List (K × ℕ))
      → q.1 ≤ p.1
      → All (λ y. by_count y q ≡ false) qs
      → All (λ y. by_count y p ≡ false) qs
  All-later p q [] h a = tt
  All-later p q (r ∷ qs) h a = (ground arith, All-later p q qs h a.1)

  place-Sorted : (p : K × ℕ) (qs : List (K × ℕ)) → Sorted by_count qs → Sorted by_count (place p qs)
  unfolding place
  place-Sorted p [] s = (tt, tt)
  place-Sorted p (q ∷ qs) s = elim (Bool-cases (ltb p.1 q.1)) [
    | inl e ↦ rw e (All-place q p qs (ground arith) s.0, place-Sorted p qs s.1)
    | inr e ↦ rw e ((ground arith, All-later p q qs (ground arith) s.0), s)
  ]

  insertion_sort-perm : (l : List (K × ℕ)) → Perm (insertion_sort l) l
  unfolding insertion_sort
  insertion_sort-perm [] = Perm.refl _
  insertion_sort-perm (p ∷ l) =
      Perm.trans (place-perm p (insertion_sort l)) (Perm.cons p (insertion_sort-perm l))

  insertion_sort-Sorted : (l : List (K × ℕ)) → Sorted by_count (insertion_sort l)
  unfolding insertion_sort
  insertion_sort-Sorted [] = tt
  insertion_sort-Sorted (p ∷ l) = place-Sorted p (insertion_sort l) (insertion_sort-Sorted l)

  pub insertion_sort-IsSort : IsSort (by_count {K = K}) insertion_sort
  insertion_sort-IsSort = record { perm = insertion_sort-perm; sorted = insertion_sort-Sorted }
