-- ===== src/Schema/Lookup.antt =====
-- Looking a column up by its name.
use mathlib.Core.Path.{subst}
use learning_journey.Base.{
  some_injective, ℕ, zero, suc, ◌+◌, ◌<◌, ◌≡◌, ◌≢◌, refl, sym, ap, ap₂, ◌∙◌, true, false, List, [],
  ◌∷◌, none, some, arith, get_elem?, Bool-cases, inl, inr, ◌⊎◌,
}
use learning_journey.Schema.{Column, Schema, eqb_name, find_column, try_get_col_idx}

eqb_name-eq : (a b : List ℕ) → eqb_name a b ≡ true → a ≡ b
eqb_name-eq [] [] h = refl
eqb_name-eq [] (y ∷ ys) h = absurd (ground arith)
eqb_name-eq (x ∷ xs) [] h = absurd (ground arith)
eqb_name-eq (x ∷ xs) (y ∷ ys) h =
    let head : x ≡ y = ground arith in
    let tail : eqb_name xs ys ≡ true = ground arith in ap₂ ◌∷◌ head (eqb_name-eq xs ys tail)

eqb_name_refl : (a : List ℕ) → eqb_name a a ≡ true
eqb_name_refl [] = refl
eqb_name_refl (x ∷ xs) = ground (arith, eqb_name_refl xs)

eqb_name-ne : (a b : List ℕ) → eqb_name a b ≡ false → a ≢ b
eqb_name-ne a b h e =
    let same : eqb_name a b ≡ true = ap (eqb_name a) (sym e) ∙ eqb_name_refl a in ground arith

-- No column before this index has the name.
abbrev pub NoneBefore : List Column → List ℕ → ℕ → Type 0
NoneBefore columns col_name n =
    (j : ℕ) (d : Column) → j < n → get_elem? columns j ≡ some d → d.column_name ≢ col_name

NoneBefore-suc :
    (c : Column) (columns : List Column) (col_name : List ℕ) (n : ℕ)
    → c.column_name ≢ col_name
    → NoneBefore columns col_name n
    → NoneBefore (c ∷ columns) col_name (suc n)
NoneBefore-suc c columns col_name n ne before zero d h e =
    subst (λ (d : Column). d.column_name ≢ col_name) (some_injective e) ne
NoneBefore-suc c columns col_name n ne before (suc j) d h e = before j d (omega arith) e

find_column_lem :
    (columns : List Column) (i : ℕ) (col_name : List ℕ)
    → ((n : ℕ) × (c : Column) × (find_column columns i col_name ≡ some (i + n))
        × (get_elem? columns n ≡ some c)
        × (c.column_name ≡ col_name)
        × NoneBefore columns col_name n)
      ⊎ ((find_column columns i col_name ≡ none) × ((n : ℕ) → NoneBefore columns col_name n))
unfolding find_column
find_column_lem [] i col_name = inr (refl, λ n j d h e. absurd (ground arith))
find_column_lem (c ∷ columns) i col_name = elim (Bool-cases (eqb_name c.column_name col_name)) [
  | inl e ↦ inl (
    0,
    c,
    rw (e, find_column) (ap some (omega arith)),
    refl,
    eqb_name-eq c.column_name col_name e,
    λ j d h _. absurd (omega arith),
  )
  | inr e ↦
      let ne = eqb_name-ne c.column_name col_name e in
      elim (find_column_lem columns (i + 1) col_name) [
        | inl (n, d, found, at, same, before) ↦ inl (
          suc n,
          d,
          rw (e, find_column) (found ∙ ap some (omega arith)),
          at,
          same,
          NoneBefore-suc c columns col_name n ne before,
        )
        | inr (found, before) ↦ inr (
          rw (e, find_column) found,
          λ n j d h. NoneBefore-suc c columns col_name n ne (before n) j d (omega arith),
        )
      ]
]

-- `TryGetColIdx` gives the index of a column with the name before which none has it, or there is no
-- column with the name and it gives none.
pub try_get_col_idx_lem :
    (s : Schema) (col_name : List ℕ)
    → ((n : ℕ) × (c : Column) × (try_get_col_idx s col_name ≡ some n)
        × (get_elem? s.columns n ≡ some c)
        × (c.column_name ≡ col_name)
        × NoneBefore s.columns col_name n)
      ⊎ ((try_get_col_idx s col_name ≡ none) × ((n : ℕ) → NoneBefore s.columns col_name n))
unfolding try_get_col_idx
try_get_col_idx_lem s col_name = elim (find_column_lem s.columns 0 col_name) [
  | inl (n, c, found, at, same, before) ↦
      inl (n, c, found ∙ ap some (omega arith), at, same, before)
  | inr none_found ↦ inr none_found
]
