-- ===== src/Vector/Slots.antt =====
-- The loops over slots, at a position in the middle of a block.
use mathlib.Core.List.{append_assoc, foldl}
use learning_journey.Base.{
  ℕ, zero, suc, ◌+◌, ◌≡◌, refl, sym, ap, ap₂, ◌∙◌, List, [], ◌∷◌, ◌++◌, map, arith, ok, length,
  length-append, get_elem?-append, set-append, set, replicate, lt→ltb,
}
use learning_journey.Vector.{
  Slot, raw, object, Block, read, construct, destroy, fill, destroy_range, copy_range, copy_list,
  relocate, sum_range,
}

module _ {T : Type 0} where
  pub objects : List T → Block T
  objects = map object

  -- Reading, writing and destroying the slot that follows `a`.
  module _ (a b : Block T) where
    read_middle : (i : ℕ) (v : T) → i ≡ length a → read (a ++ (object v ∷ b)) i ≡ ok v
    unfolding read
    read_middle i v e = rw (e, get_elem?-append)

    construct_middle :
        (i : ℕ) (s : Slot T) (v : T)
        → i ≡ length a
        → construct (a ++ (s ∷ b)) i v ≡ ok (a ++ (object v ∷ b))
    unfolding construct
    construct_middle i s v e = rw (
      e,
      lt→ltb (length a) (length (a ++ (s ∷ b))) (omega (arith, length-append a (s ∷ b))),
      set-append,
    )

    destroy_middle :
        (i : ℕ) (v : T) → i ≡ length a → destroy (a ++ (object v ∷ b)) i ≡ ok (a ++ (raw ∷ b))
    unfolding destroy
    destroy_middle i v e =
        rw (read_middle i v e)
          (ap (λ k. ok (set (a ++ (object v ∷ b)) k raw)) e ∙ ap ok (set-append a (object v) raw b))

  snoc_append : (a : Block T) (s : Slot T) (b : Block T) → (a ++ (s ∷ [])) ++ b ≡ a ++ (s ∷ b)
  snoc_append a s b = append_assoc a (s ∷ []) b

  length-snoc : (a : Block T) (s : Slot T) (i : ℕ) → i ≡ length a → i + 1 ≡ length (a ++ (s ∷ []))
  length-snoc a s i e = omega (arith, length-append a (s ∷ []))

  pub destroy_range_middle :
      (xs : List T) (a b : Block T) (i : ℕ)
      → i ≡ length a
      → destroy_range (length xs) i (a ++ (map object xs ++ b))
        ≡ ok (a ++ (replicate (length xs) raw ++ b))
  unfolding destroy_range
  destroy_range_middle [] a b i e = refl
  destroy_range_middle (x ∷ xs) a b i e = rw (destroy_middle a (map object xs ++ b) i x e) (
      ap (destroy_range (length xs) (i + 1)) (sym (snoc_append a raw (map object xs ++ b)))
      ∙ destroy_range_middle xs (a ++ (raw ∷ [])) b (i + 1) (length-snoc a raw i e)
      ∙ ap ok (snoc_append a raw (replicate (length xs) raw ++ b)))

  pub fill_middle :
      (v : T) (n i : ℕ) (a b : Block T)
      → i ≡ length a
      → fill v n i (a ++ (replicate n raw ++ b)) ≡ ok (a ++ (replicate n (object v) ++ b))
  unfolding fill
  fill_middle v zero i a b e = refl
  fill_middle v (suc n) i a b e = rw (construct_middle a (replicate n raw ++ b) i raw v e) (
      ap (fill v n (i + 1)) (sym (snoc_append a (object v) (replicate n raw ++ b)))
      ∙ fill_middle v n (i + 1) (a ++ (object v ∷ [])) b (length-snoc a (object v) i e)
      ∙ ap ok (snoc_append a (object v) (replicate n (object v) ++ b)))

  pub copy_list_middle :
      (xs : List T) (i : ℕ) (a b : Block T)
      → i ≡ length a
      → copy_list xs i (a ++ (replicate (length xs) raw ++ b)) ≡ ok (a ++ (map object xs ++ b))
  unfolding copy_list
  copy_list_middle [] i a b e = refl
  copy_list_middle (x ∷ xs) i a b e =
      rw (construct_middle a (replicate (length xs) raw ++ b) i raw x e) (
        ap (copy_list xs (i + 1)) (sym (snoc_append a (object x) (replicate (length xs) raw ++ b)))
        ∙ copy_list_middle xs (i + 1) (a ++ (object x ∷ [])) b (length-snoc a (object x) i e)
        ∙ ap ok (snoc_append a (object x) (map object xs ++ b)))

  pub copy_range_middle :
      (xs : List T) (i : ℕ) (c d a b : Block T)
      → i ≡ length c
      → i ≡ length a
      → copy_range (c ++ (map object xs ++ d)) (length xs) i (a ++ (replicate (length xs) raw ++ b))
        ≡ ok (a ++ (map object xs ++ b))
  unfolding copy_range
  copy_range_middle [] i c d a b f e = refl
  copy_range_middle (x ∷ xs) i c d a b f e =
      rw
        (
          read_middle c (map object xs ++ d) i x f,
          construct_middle a (replicate (length xs) raw ++ b) i raw x e,
        )
        (ap₂ (λ s t. copy_range s (length xs) (i + 1) t)
            (sym (snoc_append c (object x) (map object xs ++ d)))
            (sym (snoc_append a (object x) (replicate (length xs) raw ++ b)))
          ∙ copy_range_middle xs (i + 1) (c ++ (object x ∷ [])) d (a ++ (object x ∷ [])) b
              (length-snoc c (object x) i f) (length-snoc a (object x) i e)
          ∙ ap ok (snoc_append a (object x) (map object xs ++ b)))

  pub relocate_middle :
      (xs : List T) (i : ℕ) (c d a b : Block T)
      → i ≡ length c
      → i ≡ length a
      → relocate (length xs) i (c ++ (map object xs ++ d)) (a ++ (replicate (length xs) raw ++ b))
        ≡ ok (a ++ (map object xs ++ b))
  unfolding relocate
  relocate_middle [] i c d a b f e = refl
  relocate_middle (x ∷ xs) i c d a b f e =
      rw
        (
          read_middle c (map object xs ++ d) i x f,
          construct_middle a (replicate (length xs) raw ++ b) i raw x e,
          destroy_middle c (map object xs ++ d) i x f,
        )
        (ap₂ (λ s t. relocate (length xs) (i + 1) s t)
            (sym (snoc_append c raw (map object xs ++ d)))
            (sym (snoc_append a (object x) (replicate (length xs) raw ++ b)))
          ∙ relocate_middle xs (i + 1) (c ++ (raw ∷ [])) d (a ++ (object x ∷ [])) b
              (length-snoc c raw i f) (length-snoc a (object x) i e)
          ∙ ap ok (snoc_append a (object x) (map object xs ++ b)))

  pub sum_range_middle :
      (add : T → T → T) (xs : List T) (i : ℕ) (c d : Block T) (v : T)
      → i ≡ length c
      → sum_range add (c ++ (map object xs ++ d)) (length xs) i v ≡ ok (foldl add v xs)
  unfolding sum_range
  sum_range_middle add [] i c d v f = refl
  sum_range_middle add (x ∷ xs) i c d v f = rw (read_middle c (map object xs ++ d) i x f) (
      ap (λ s. sum_range add s (length xs) (i + 1) (add v x))
        (sym (snoc_append c (object x) (map object xs ++ d)))
      ∙ sum_range_middle add xs (i + 1) (c ++ (object x ∷ [])) d (add v x)
          (length-snoc c (object x) i f))
