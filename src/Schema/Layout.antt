-- ===== src/Schema/Layout.antt =====
-- The constructor of a schema lays its columns side by side.
use mathlib.Core.Path.{subst}
use learning_journey.Base.{
  append_assoc, append_nil, some_injective, ℕ, zero, suc, ◌+◌, ◌%◌, ◌^◌, ◌≤◌, ◌<◌, ◌≡◌, sym, ap,
  ◌∙◌, List, [], ◌∷◌, ◌++◌, some, arith, get_elem?,
}
use learning_journey.Schema.{Column, Schema, inlined_size, add_columns, new_schema}

abbrev pub total : List Column → ℕ
total [] = 0
total (c ∷ columns) = inlined_size c + total columns

-- The columns with their offsets, the first of which is given.
abbrev pub placed : ℕ → List Column → List Column
placed offset [] = []
placed offset (c ∷ columns) =
    record c { column_offset = offset } ∷ placed (offset + inlined_size c) columns

pub add_columns-placed :
    (columns : List Column) (index offset : ℕ) (s : Schema)
    → offset + total columns < 2 ^ 32
    → ((add_columns columns index offset s).columns ≡ s.columns ++ placed offset columns)
      × ((add_columns columns index offset s).inlined_storage_size ≡ offset + total columns)
unfolding add_columns
add_columns-placed [] index offset s h = (sym (append_nil s.columns), omega arith)
add_columns-placed (c ∷ columns) index offset s h =
    let word : (offset + inlined_size c) % 2 ^ 32 ≡ offset + inlined_size c = omega arith in
    let (all, size) =
      add_columns-placed columns ((index + 1) % 2 ^ 32) ((offset + inlined_size c) % 2 ^ 32) _
        (omega arith) in
    (
      all
          ∙ ap (λ o. (s.columns ++ (record c { column_offset = offset } ∷ [])) ++ placed o columns)
              word
          ∙ append_assoc s.columns _ _,
      size ∙ omega arith,
    )

abbrev Within : ℕ → ℕ → Column → Type 0
Within offset size c =
    (offset ≤ c.column_offset) × (c.column_offset + inlined_size c ≤ offset + size)

pub placed-keeps :
    (offset : ℕ) (columns : List Column) (i : ℕ) (c : Column)
    → get_elem? columns i ≡ some c
    → (o : ℕ) × (get_elem? (placed offset columns) i ≡ some (record c { column_offset = o }))
placed-keeps offset [] i c e = absurd (ground arith)
placed-keeps offset (x ∷ columns) zero c e =
    (offset, ap (λ (c : Column). some (record c { column_offset = offset })) (some_injective e))
placed-keeps offset (x ∷ columns) (suc i) c e = placed-keeps (offset + inlined_size x) columns i c e

placed-within :
    (offset : ℕ) (columns : List Column) (i : ℕ) (c : Column)
    → get_elem? (placed offset columns) i ≡ some c
    → (offset ≤ c.column_offset) × (c.column_offset + inlined_size c ≤ offset + total columns)
placed-within offset [] i c e = absurd (ground arith)
placed-within offset (x ∷ columns) zero c e =
    subst (Within offset (total (x ∷ columns))) (some_injective e) (omega arith, omega arith)
placed-within offset (x ∷ columns) (suc i) c e =
    let (below, above) = placed-within (offset + inlined_size x) columns i c e in
    (omega arith, omega arith)

placed-apart :
    (offset : ℕ) (columns : List Column) (i j : ℕ) (c d : Column)
    → i < j
    → get_elem? (placed offset columns) i ≡ some c
    → get_elem? (placed offset columns) j ≡ some d
    → c.column_offset + inlined_size c ≤ d.column_offset
placed-apart offset [] i j c d h e f = absurd (ground arith)
placed-apart offset (x ∷ columns) i zero c d h e f = absurd (omega arith)
placed-apart offset (x ∷ columns) zero (suc j) c d h e f =
    let (below, _) = placed-within (offset + inlined_size x) columns j d f in
    subst (λ (c : Column). c.column_offset + inlined_size c ≤ d.column_offset) (some_injective e)
      below
placed-apart offset (x ∷ columns) (suc i) (suc j) c d h e f =
    placed-apart (offset + inlined_size x) columns i j c d (omega arith) e f

-- If the columns take less than 2 ^ 32 bytes, the constructor of a schema keeps every column in its
-- place but for its offset, a column ends before the next one starts and within the fixed part of
-- the tuple, and the fixed part is as long as the columns together.
pub new_schema_lem :
    (columns : List Column)
    → total columns < 2 ^ 32
    → let s = new_schema columns in
      (s.inlined_storage_size ≡ total columns)
      × ((i : ℕ) (c : Column)
          → get_elem? columns i ≡ some c
          → (o : ℕ) × (get_elem? s.columns i ≡ some (record c { column_offset = o })))
      × ((i : ℕ) (c : Column)
          → get_elem? s.columns i ≡ some c
          → c.column_offset + inlined_size c ≤ s.inlined_storage_size)
      × ((i j : ℕ) (c d : Column)
          → i < j
          → get_elem? s.columns i ≡ some c
          → get_elem? s.columns j ≡ some d
          → c.column_offset + inlined_size c ≤ d.column_offset)
unfolding new_schema
new_schema_lem columns h =
    let (all, size) = add_columns-placed columns 0 0 _ (omega arith) in
    (
      size ∙ omega arith,
      λ i c e. rw all (placed-keeps 0 columns i c e),
      λ i c e. let (_, within) = placed-within 0 columns i c (rw (← all) e) in rw size within,
      λ i j c d lt e f. placed-apart 0 columns i j c d lt (rw (← all) e) (rw (← all) f),
    )
