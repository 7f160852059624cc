-- ===== src/TablePage/Memory.antt =====
-- Memory as a function from offsets: `memcpy` into it and out of it.
use learning_journey.Base.{
  ℕ, zero, suc, ◌+◌, ◌≤◌, ◌<◌, ◌≡◌, ◌⊎◌, refl, ap₂, List, [], ◌∷◌, arith, ◌==◌, if◌then◌else◌,
  length,
}

abbrev pub update {ℓ} : {A : Type ℓ} → (ℕ → A) → ℕ → A → ℕ → A
update f i v j = if i == j then v else f j

unfoldable pub write_bytes : (ℕ → ℕ) → ℕ → List ℕ → ℕ → ℕ
write_bytes f o [] = f
write_bytes f o (b ∷ bs) = write_bytes (update f o b) (o + 1) bs

unfoldable pub read_bytes : (ℕ → ℕ) → ℕ → ℕ → List ℕ
read_bytes f o zero = []
read_bytes f o (suc n) = f o ∷ read_bytes f (o + 1) n

-- A byte outside the range that is written keeps its value.
write_bytes_outside :
    (f : ℕ → ℕ) (o : ℕ) (bs : List ℕ) (j : ℕ)
    → (j < o) ⊎ (o + length bs ≤ j)
    → write_bytes f o bs j ≡ f j
unfolding write_bytes
write_bytes_outside f o [] j h = refl
write_bytes_outside f o (b ∷ bs) j h =
    ground (arith, write_bytes_outside (update f o b) (o + 1) bs j (omega arith))

pub read_bytes-write_bytes :
    (f : ℕ → ℕ) (o : ℕ) (bs : List ℕ) → read_bytes (write_bytes f o bs) o (length bs) ≡ bs
unfolding write_bytes read_bytes
read_bytes-write_bytes f o [] = refl
read_bytes-write_bytes f o (b ∷ bs) =
    ap₂ ◌∷◌ (ground (arith, write_bytes_outside (update f o b) (o + 1) bs o (omega arith)))
      (read_bytes-write_bytes (update f o b) (o + 1) bs)

pub read_bytes-write_bytes_apart :
    (f : ℕ → ℕ) (o : ℕ) (bs : List ℕ) (q n : ℕ)
    → (q + n ≤ o) ⊎ (o + length bs ≤ q)
    → read_bytes (write_bytes f o bs) q n ≡ read_bytes f q n
unfolding read_bytes
read_bytes-write_bytes_apart f o bs q zero h = refl
read_bytes-write_bytes_apart f o bs q (suc n) h =
    ap₂ ◌∷◌ (write_bytes_outside f o bs q (omega arith))
      (read_bytes-write_bytes_apart f o bs (q + 1) n (omega arith))
