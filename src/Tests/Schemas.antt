-- ===== src/Tests/Schemas.antt =====
-- A schema of an integer, a string and a truth value.
use learning_journey.Base.{
  ℕ, ◌+◌, ◌≤◌, ◌<◌, ◌≡◌, refl, false, List, [], ◌∷◌, some, ok, throw, undefined, arith, get_elem?,
}
use learning_journey.Types.{integer, varchar, boolean}
use learning_journey.Schema.{
  Column, Schema, inlined_size, type_size, add_columns, new_schema, copy_schema, get_columns_at,
  find_column, try_get_col_idx, get_col_idx,
}
use learning_journey.Schema.Layout.{new_schema_lem}

abbrev pub a : ℕ → Column
a offset = record {
  column_name = 97 ∷ [];
  column_type = integer;
  storage_size = 4;
  column_offset = offset;
}

abbrev pub b : ℕ → Column
b offset = record {
  column_name = 98 ∷ [];
  column_type = varchar;
  storage_size = 20;
  column_offset = offset;
}

abbrev pub c : ℕ → Column
c offset = record {
  column_name = 99 ∷ [];
  column_type = boolean;
  storage_size = 1;
  column_offset = offset;
}

abbrev abc : List Column
abc = a 0 ∷ b 0 ∷ c 0 ∷ []

abbrev laid_out : Schema
laid_out = record {
  inlined_storage_size = 9;
  columns = a 0 ∷ b 4 ∷ c 8 ∷ [];
  tuple_is_inlined = false;
  uninlined_columns = 1 ∷ [];
}

new_schema_run : new_schema abc ≡ laid_out
unfolding new_schema add_columns
new_schema_run = refl

copied_run : copy_schema laid_out (2 ∷ 0 ∷ []) ≡ ok (new_schema (c 8 ∷ a 0 ∷ []))
unfolding copy_schema get_columns_at
copied_run = refl

copied_past_end : copy_schema laid_out (3 ∷ []) ≡ throw undefined
unfolding copy_schema get_columns_at
copied_past_end = refl

-- A string of 256 bytes is taken to be of none.
long_string : type_size varchar 256 ≡ ok 0
unfolding type_size
long_string = refl

found_run : get_col_idx laid_out (99 ∷ []) ≡ ok 2
unfolding get_col_idx try_get_col_idx find_column
found_run = refl

new_schema_lem_example :
    let s = new_schema abc in
    (s.inlined_storage_size ≡ 9)
    × ((i : ℕ) (c : Column)
        → get_elem? abc i ≡ some c
        → (o : ℕ) × (get_elem? s.columns i ≡ some (record c { column_offset = o })))
    × ((i : ℕ) (c : Column)
        → get_elem? s.columns i ≡ some c
        → c.column_offset + inlined_size c ≤ s.inlined_storage_size)
    × ((i j : ℕ) (c d : Column)
        → i < j
        → get_elem? s.columns i ≡ some c
        → get_elem? s.columns j ≡ some d
        → c.column_offset + inlined_size c ≤ d.column_offset)
new_schema_lem_example = new_schema_lem abc (omega arith)
