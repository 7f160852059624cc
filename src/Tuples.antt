-- ===== src/Tuples.antt =====
-- bustub/src/storage/table/tuple.cpp, with what it uses of value.h, type.h and varlen_type.cpp. The
-- bytes of a tuple are a function from offsets with a size: a write past the end is `undefined`,
-- and a read is of memory. A value of another type than BOOLEAN, an integer or VARCHAR is refused
-- as `undefined`. The characters of a VARCHAR are kept without the zero that ends them.
pub mod Bytes
pub mod Cells
pub mod Places
pub mod Fill
pub mod Stored
pub mod Copied
use learning_journey.Base.{
  ℕ, zero, suc, ◌+◌, ◌-◌, ◌*◌, ◌%◌, ◌^◌, Bool, true, false, not, List, [], ◌∷◌, ◌++◌, Option, some,
  none, Outcome, ok, throw, undefined, assertion_failed, ◌>>=◌, ◌>>◌, throw_if, u32, ltb, ◌==◌,
  if◌then◌else◌, length, get_elem?, take,
}
use learning_journey.Types.{
  TypeId, boolean, tinyint, smallint, integer, bigint, varchar, Value, Library, blank, new_varchar,
}
use learning_journey.Types.Family.{low_bytes, from_bytes}
use learning_journey.Types.Boolean
use learning_journey.Types.Values
use learning_journey.TablePage.Memory.{write_bytes, read_bytes}
use learning_journey.Schema.{Column, Schema, is_inlined}

pub record Tuple : Type 0 where
  pub size : ℕ
  pub bytes : ℕ → ℕ

-- `BUSTUB_VALUE_NULL`
abbrev pub value_null : ℕ
value_null = 2 ^ 32 - 1

-- `GetStorageSize` of a VARCHAR, whose characters end in a zero.
abbrev pub storage_size_of : {D : Type 0} → Value D → ℕ
storage_size_of v = if v.is_null then value_null else length v.text + 1

-- The length that the constructor counts for a value.
unfoldable pub payload : {D : Type 0} → Value D → ℕ
payload v = if storage_size_of v == value_null then 0 else storage_size_of v

unfoldable pub serialize_varchar : {D : Type 0} → Value D → List ℕ
serialize_varchar v =
    if storage_size_of v == value_null
    then low_bytes 4 value_null
    else low_bytes 4 (storage_size_of v) ++ (v.text ++ (0 ∷ []))

unfoldable pub store_at : Tuple → ℕ → List ℕ → Outcome Tuple
store_at t offset storage =
    throw_if (ltb t.size (offset + length storage)) undefined
    >> ok (record t { bytes = write_bytes t.bytes offset storage })

-- The offset of a column that is not inlined is read as an `int32_t`.
unfoldable pub get_data_ptr : Tuple → Column → Outcome ℕ
get_data_ptr t col =
    if is_inlined col
    then ok col.column_offset
    else (let offset = from_bytes (read_bytes t.bytes col.column_offset 4) in
        throw_if (not (ltb offset (2 ^ 31))) undefined >> ok offset)

module _ {D : Type 0} (lib : Library D) where
  unfoldable pub deserialize_varchar : (ℕ → ℕ) → ℕ → Value D
  deserialize_varchar m offset =
      let len = from_bytes (read_bytes m offset 4) in
      if len == value_null
      then blank lib varchar
      else new_varchar lib (read_bytes m (offset + 4) (len - 1))

  unfoldable pub serialize_to : Value D → Outcome (List ℕ)
  serialize_to v = elim v.type_id [
    | boolean ↦ ok (Boolean.serialize lib v)
    | varchar ↦ ok (serialize_varchar v)
    | _ ↦ Values.serialize_to lib v
  ]

  unfoldable pub deserialize_from : (ℕ → ℕ) → ℕ → TypeId → Outcome (Value D)
  deserialize_from m offset boolean = Boolean.deserialize lib (read_bytes m offset 1)
  deserialize_from m offset tinyint = Values.deserialize_from lib (read_bytes m offset 1) tinyint
  deserialize_from m offset smallint = Values.deserialize_from lib (read_bytes m offset 2) smallint
  deserialize_from m offset integer = Values.deserialize_from lib (read_bytes m offset 4) integer
  deserialize_from m offset bigint = Values.deserialize_from lib (read_bytes m offset 8) bigint
  deserialize_from m offset varchar = ok (deserialize_varchar m offset)
  deserialize_from m offset _ = throw undefined

  -- The first loop, over the columns that are not inlined.
  unfoldable pub tuple_size : List ℕ → List (Value D) → ℕ → Outcome ℕ
  tuple_size [] values size = ok size
  tuple_size (i ∷ uninlined) values size = elim (get_elem? values i) [
    | none ↦ throw undefined
    | some v ↦ tuple_size uninlined values (u32 (size + (4 + payload v)))
  ]

  -- The second loop, over the columns.
  unfoldable pub fill : List Column → List (Value D) → ℕ → Tuple → Outcome Tuple
  fill [] values offset t = ok t
  fill (col ∷ columns) [] offset t = throw undefined
  fill (col ∷ columns) (v ∷ values) offset t = elim (is_inlined col) [
    | true ↦ serialize_to v >>= λ storage.
        store_at t col.column_offset storage >>= λ t. fill columns values offset t
    | false ↦ store_at t col.column_offset (low_bytes 4 offset) >>= λ t.
        serialize_to v >>= λ storage.
        store_at t offset storage >>= λ t. fill columns values (u32 (offset + (4 + payload v))) t
  ]

  unfoldable pub new_tuple : List (Value D) → Schema → Outcome Tuple
  new_tuple values schema =
      throw_if (not (length values == length schema.columns)) assertion_failed
      >> (tuple_size schema.uninlined_columns values schema.inlined_storage_size >>= λ size.
          fill schema.columns values schema.inlined_storage_size
            (record { size = size; bytes = λ _. 0 }))

  unfoldable pub value_at : Tuple → Column → Outcome (Value D)
  value_at t col =
      get_data_ptr t col >>= λ data_ptr. deserialize_from t.bytes data_ptr col.column_type

  unfoldable pub get_value : Tuple → Schema → ℕ → Outcome (Value D)
  get_value t schema column_idx = elim (get_elem? schema.columns column_idx) [
    | none ↦ throw undefined
    | some col ↦ value_at t col
  ]

  unfoldable pub is_null : Tuple → Schema → ℕ → Outcome Bool
  is_null t schema column_idx = get_value t schema column_idx >>= λ v. ok v.is_null

  unfoldable pub get_values : Tuple → Schema → List ℕ → Outcome (List (Value D))
  get_values t schema [] = ok []
  get_values t schema (idx ∷ key_attrs) =
      get_value t schema idx >>= λ v. get_values t schema key_attrs >>= λ values. ok (v ∷ values)

  unfoldable pub key_from_tuple : Tuple → Schema → Schema → List ℕ → Outcome Tuple
  key_from_tuple t schema key_schema key_attrs =
      get_values t schema key_attrs >>= λ values. new_tuple values key_schema

-- A tuple in storage: its size, which goes through an `int32_t`, then its bytes. The `memcpy` of a
-- negative number of bytes is undefined.
unfoldable pub serialize_tuple : Tuple → (ℕ → ℕ) → ℕ → Outcome (ℕ → ℕ)
serialize_tuple t storage offset =
    let sz = u32 t.size in
    let header = write_bytes storage offset (low_bytes 4 sz) in
    if ltb sz (2 ^ 31)
    then ok (write_bytes header (offset + 4) (read_bytes t.bytes 0 sz))
    else throw undefined

unfoldable pub deserialize_tuple : (ℕ → ℕ) → ℕ → Tuple
deserialize_tuple storage offset =
    let size = from_bytes (read_bytes storage offset 4) in
    record { size = size; bytes = write_bytes (λ _. 0) 0 (read_bytes storage (offset + 4) size) }
