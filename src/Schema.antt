-- ===== src/Schema.antt =====
-- bustub/src/include/catalog/column.h, and bustub/src/catalog/schema.cpp with its header: where the
-- columns of a tuple lie. A name is the list of its characters.
pub mod Layout
pub mod Lookup
use learning_journey.Base.{
  ℕ, zero, suc, ◌+◌, ◌*◌, ◌%◌, ◌^◌, Bool, true, false, not, ◌&&◌, List, [], ◌∷◌, ◌++◌, Option, none,
  some, Outcome, ok, throw, failure, undefined, assertion_failed, ◌>>=◌, ◌>>◌, throw_if, u32, ◌==◌,
  if◌then◌else◌, get_elem?,
}
use learning_journey.Types.{
  TypeId, boolean, tinyint, smallint, integer, bigint, decimal, timestamp, varchar, vector,
}

pub record Column : Type 0 where
  pub column_name : List ℕ
  pub column_type : TypeId
  pub storage_size : ℕ
  pub column_offset : ℕ

pub record Schema : Type 0 where
  pub inlined_storage_size : ℕ
  pub columns : List Column
  pub tuple_is_inlined : Bool
  pub uninlined_columns : List ℕ

-- The result is an `uint8_t`.
unfoldable pub type_size : TypeId → ℕ → Outcome ℕ
type_size boolean length = ok 1
type_size tinyint length = ok 1
type_size smallint length = ok 2
type_size integer length = ok 4
type_size bigint length = ok 8
type_size decimal length = ok 8
type_size timestamp length = ok 8
type_size varchar length = ok (length % 2 ^ 8)
type_size vector length = ok (length * 8 % 2 ^ 8)
type_size _ length = throw failure

abbrev pub is_inlined : Column → Bool
is_inlined c = elim c.column_type [ varchar ↦ false | vector ↦ false | _ ↦ true ]

-- What a column takes of the fixed part of a tuple: its value, or the offset of its value.
abbrev pub inlined_size : Column → ℕ
inlined_size c = if is_inlined c then c.storage_size else 4

-- The loop of the constructor, from column `index` at `curr_offset`.
unfoldable pub add_columns : List Column → ℕ → ℕ → Schema → Schema
add_columns [] index curr_offset s = record s { inlined_storage_size = curr_offset }
add_columns (column ∷ columns) index curr_offset s =
    add_columns columns (u32 (index + 1)) (u32 (curr_offset + inlined_size column)) (record s {
      columns = s.columns ++ (record column { column_offset = curr_offset } ∷ []);
      tuple_is_inlined = if is_inlined column then s.tuple_is_inlined else false;
      uninlined_columns =
          if is_inlined column then s.uninlined_columns else s.uninlined_columns ++ (index ∷ []);
    })

unfoldable pub new_schema : List Column → Schema
new_schema columns = add_columns columns 0 0 (record {
  inlined_storage_size = 0;
  columns = [];
  tuple_is_inlined = true;
  uninlined_columns = [];
})

-- An index past the columns is undefined.
unfoldable pub get_columns_at : Schema → List ℕ → Outcome (List Column)
get_columns_at from [] = ok []
get_columns_at from (i ∷ attrs) = elim (get_elem? from.columns i) [
  | none ↦ throw undefined
  | some c ↦ get_columns_at from attrs >>= λ cols. ok (c ∷ cols)
]

unfoldable pub copy_schema : Schema → List ℕ → Outcome Schema
copy_schema from attrs = get_columns_at from attrs >>= λ cols. ok (new_schema cols)

abbrev pub eqb_name : List ℕ → List ℕ → Bool
eqb_name [] [] = true
eqb_name (x ∷ xs) (y ∷ ys) = (x == y) && eqb_name xs ys
eqb_name _ _ = false

-- The loop of `TryGetColIdx` from column `i`.
unfoldable pub find_column : List Column → ℕ → List ℕ → Option ℕ
find_column [] i col_name = none
find_column (c ∷ columns) i col_name = elim (eqb_name c.column_name col_name) [
  | true ↦ some i
  | false ↦ find_column columns (i + 1) col_name
]

unfoldable pub try_get_col_idx : Schema → List ℕ → Option ℕ
try_get_col_idx s col_name = find_column s.columns 0 col_name

unfoldable pub get_col_idx : Schema → List ℕ → Outcome ℕ
get_col_idx s col_name = elim (try_get_col_idx s col_name) [ some i ↦ ok i | none ↦ throw failure ]
