-- ===== src/Sketch/Top.antt =====
-- `TopK`, with what it relies on of `std::sort` as a hypothesis.
use mathlib.Core.List.{Perm, Permᴰ}
use mathlib.Core.Logic.{∥∥₁_elim}
use native.Mathlib.Nat.{ℕ_set}
use learning_journey.Base.{
  ℕ, suc, ◌≤◌, ◌≡◌, refl, ap, sym, ◌∙◌, Bool, false, List, [], ◌∷◌, ◌++◌, map, arith, All, ltb,
  length, length-map, take, drop, take-append-drop, length-take, min, take-all, Bool-cases, inl,
  inr,
}
use learning_journey.Sketch.{Sketch, count, by_count, top_k}

-- No later element goes before an earlier one.
abbrev pub Sorted {ℓ} : {A : Type ℓ} → (A → A → Bool) → List A → Type ℓ
Sorted lt [] = Unit
Sorted lt (x ∷ xs) = All (λ y. lt y x ≡ false) xs × Sorted lt xs

module _ {K : Type 0} where
  -- What the standard says of `std::sort`, at one comparator: the result is a rearrangement, and it
  -- is sorted.
  pub record IsSort (lt : K × ℕ → K × ℕ → Bool) (sort : List (K × ℕ) → List (K × ℕ)) : Type 0 where
    pub perm : (l : List (K × ℕ)) → Perm (sort l) l
    pub sorted : (l : List (K × ℕ)) → Sorted lt (sort l)

  abbrev pub Descending : List (K × ℕ) → Type 0
  Descending [] = Unit
  Descending (p ∷ ps) = All (λ q. q.1 ≤ p.1) ps × Descending ps

  -- No pair of `rest` counts more than any of the list.
  abbrev pub Tops : List (K × ℕ) → List (K × ℕ) → Type 0
  Tops rest ps = All (λ p. All (λ q. q.1 ≤ p.1) rest) ps

  All-by_count :
      (p : K × ℕ) (l : List (K × ℕ)) → All (λ q. by_count q p ≡ false) l → All (λ q. q.1 ≤ p.1) l
  All-by_count p [] a = tt
  All-by_count p (q ∷ l) a = (ground arith, All-by_count p l a.1)

  Sorted-Descending : (l : List (K × ℕ)) → Sorted by_count l → Descending l
  Sorted-Descending [] s = tt
  Sorted-Descending (p ∷ l) s = (All-by_count p l s.0, Sorted-Descending l s.1)

  All-split : (P : K × ℕ → Type 0) (xs ys : List (K × ℕ)) → All P (xs ++ ys) → All P xs × All P ys
  All-split P [] ys a = (tt, a)
  All-split P (x ∷ xs) ys a = let (b, c) = All-split P xs ys a.1 in ((a.0, b), c)

  Descending-split : (xs ys : List (K × ℕ)) → Descending (xs ++ ys) → Descending xs × Tops ys xs
  Descending-split [] ys d = (tt, tt)
  Descending-split (x ∷ xs) ys d =
      let (a, b) = All-split (λ q. q.1 ≤ x.1) xs ys d.0 in
      let (e, f) = Descending-split xs ys d.1 in ((a, e), (b, f))

length-Permᴰ {ℓ} : {A : Type ℓ} {xs ys : List A} → Permᴰ xs ys → length xs ≡ length ys
length-Permᴰ Permᴰ.nil = refl
length-Permᴰ (Permᴰ.cons e p) = ap suc (length-Permᴰ p)
length-Permᴰ (Permᴰ.swap {l = l} e f) = refl
length-Permᴰ (Permᴰ.trans p q) = length-Permᴰ p ∙ length-Permᴰ q

length-perm {ℓ} : {A : Type ℓ} {xs ys : List A} → Perm xs ys → length xs ≡ length ys
length-perm p = ∥∥₁_elim p (ℕ_set _ _) length-Permᴰ

module _ {K : Type 0} (std_hash : K → ℕ) where
  abbrev scored : List K → Sketch → List (K × ℕ)
  scored candidates s = map (λ c. (c, count std_hash c s)) candidates

  -- `TopK` is the sorted list of the candidates with their counts, cut to its first `k`.
  top_k-eq-take :
      (sort : (K × ℕ → K × ℕ → Bool) → List (K × ℕ) → List (K × ℕ)) (k : ℕ) (cs : List K)
      (s : Sketch)
      → top_k std_hash sort k cs s ≡ take k (sort by_count (scored cs s))
  unfolding top_k
  top_k-eq-take sort k cs s =
      let all = sort by_count (scored cs s) in
      elim (Bool-cases (ltb k (length all))) [
        | inl e ↦ rw e
        | inr e ↦ rw e (sym (take-all k all (ground arith)))
      ]

  -- With a sort as the standard asks, `TopK` returns `k` pairs, or one for each candidate if there
  -- are fewer; each is a candidate with its count, the counts do not rise, and no candidate that is
  -- left out counts more than any that is returned.
  pub top_k_lem :
      (sort : (K × ℕ → K × ℕ → Bool) → List (K × ℕ) → List (K × ℕ)) (k : ℕ) (cs : List K)
      (s : Sketch)
      → IsSort by_count (sort by_count)
      → let top = top_k std_hash sort k cs s in
        (rest : List (K × ℕ)) × Perm (top ++ rest) (map (λ c. (c, count std_hash c s)) cs)
        × (length top ≡ min k (length cs))
        × Descending top
        × Tops rest top
  top_k_lem sort k cs s laws =
      let all = sort by_count (scored cs s) in
      let whole = take-append-drop k all in
      let (down, tops) =
        Descending-split (take k all) (drop k all)
          (rw whole (Sorted-Descending all (laws.sorted (scored cs s)))) in
      (
        drop k all,
        rw (top_k-eq-take, whole) (laws.perm (scored cs s)),
        omega (
          arith,
          ap length (top_k-eq-take sort k cs s),
          length-take k all,
          length-perm (laws.perm (scored cs s)),
          length-map {B = K × ℕ} (λ c. (c, count std_hash c s)) cs,
        ),
        rw (top_k-eq-take) down,
        rw (top_k-eq-take) tops,
      )
