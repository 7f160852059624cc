-- ===== src/TablePage.antt =====
-- bustub/src/storage/page/table_page.cpp and its header: a slotted page of tuples, which grow down
-- from the end of the page while their entries grow up behind the header.
-- An identifier or a timestamp is only moved, so it is its bit pattern. The header and the entries
-- are fields of the model, and `bytes` is what lies in the page at each offset; `IsValid` says that
-- no tuple reaches into the entries. A copy is followed as far as it stays in the page: one that
-- would leave the page, which is undefined, is not told apart, so what is proved of the bytes of a
-- page is for tuples whose length is bounded by the room below the last tuple.
pub mod Memory
pub mod Shape
pub mod Access
pub mod Insert
pub mod History
use learning_journey.Base.{
  ℕ, zero, suc, ◌+◌, ◌-◌, ◌*◌, ◌%◌, ◌^◌, Bool, true, false, not, ◌&&◌, List, [], ◌∷◌, Option, none,
  some, Outcome, ok, throw, failure, ◌>>◌, throw_if, u16, u32, u64, ltb, leb, ◌==◌, if◌then◌else◌,
  length, take,
}
use Memory.{update, write_bytes, read_bytes}

pub record TupleMeta : Type 0 where
  pub ts : ℕ
  pub is_deleted : Bool

pub record Rid : Type 0 where
  pub page_id : ℕ
  pub slot_num : ℕ

pub record Tuple : Type 0 where
  pub rid : Rid
  pub bytes : List ℕ

pub record TupleInfo : Type 0 where
  pub offset : ℕ
  pub size : ℕ
  pub meta : TupleMeta

pub record TablePage : Type 0 where
  pub next_page_id : ℕ
  pub num_tuples : ℕ
  pub num_deleted_tuples : ℕ
  pub tuple_info : ℕ → TupleInfo
  pub bytes : ℕ → ℕ

abbrev pub page_size : ℕ
page_size = 8192

abbrev pub header_size : ℕ
header_size = 8

abbrev pub tuple_info_size : ℕ
tuple_info_size = 24

-- -1
abbrev pub invalid_page_id : ℕ
invalid_page_id = 2 ^ 32 - 1

abbrev pub get_length : Tuple → ℕ
get_length t = u32 (length t.bytes)

-- What `memcpy(…, tuple.data_.data(), tuple.GetLength())` copies.
abbrev pub data_of : Tuple → List ℕ
data_of t = take (get_length t) t.bytes

unfoldable pub init : TablePage → TablePage
init p = record p { next_page_id = invalid_page_id; num_tuples = 0; num_deleted_tuples = 0 }

abbrev pub slot_end_offset : TablePage → ℕ
slot_end_offset p =
    if ltb 0 p.num_tuples then (p.tuple_info (p.num_tuples - 1)).offset else page_size

unfoldable pub get_next_tuple_offset : TablePage → Tuple → Option ℕ
get_next_tuple_offset p tuple =
    let tuple_offset = u64 (slot_end_offset p + 2 ^ 64 - get_length tuple) in
    let offset_size = header_size + tuple_info_size * (p.num_tuples + 1) in
    if ltb tuple_offset offset_size then none else some (u16 tuple_offset)

-- The entry at `num_tuples_`, the count and the bytes of a tuple that is placed at an offset.
pub place_tuple : TablePage → TupleMeta → Tuple → ℕ → TablePage
place_tuple p meta tuple offset = record p {
  tuple_info =
      update p.tuple_info p.num_tuples
        (record { offset = offset; size = u16 (get_length tuple); meta = meta });
  num_tuples = u16 (p.num_tuples + 1);
  bytes = write_bytes p.bytes offset (data_of tuple);
}

unfoldable pub insert_tuple : TablePage → TupleMeta → Tuple → Option ℕ × TablePage
unfolding place_tuple
insert_tuple p meta tuple = elim (get_next_tuple_offset p tuple) [
  | none ↦ (none, p)
  | some offset ↦ (some p.num_tuples, place_tuple p meta tuple offset)
]

-- `if (!old_meta.is_deleted_ && meta.is_deleted_) num_deleted_tuples_++`
abbrev pub count_deleted : TablePage → TupleMeta → TupleMeta → ℕ
count_deleted p old_meta meta =
    if not old_meta.is_deleted && meta.is_deleted
    then u16 (p.num_deleted_tuples + 1)
    else p.num_deleted_tuples

unfoldable pub update_tuple_meta : TablePage → TupleMeta → Rid → Outcome TablePage
update_tuple_meta p meta rid =
    let tuple_id = rid.slot_num in
    let info = p.tuple_info tuple_id in
    if leb p.num_tuples tuple_id
    then throw failure
    else ok (record p {
      num_deleted_tuples = count_deleted p info.meta meta;
      tuple_info = update p.tuple_info tuple_id (record info { meta = meta });
    })

unfoldable pub get_tuple : TablePage → Rid → Outcome (TupleMeta × Tuple)
get_tuple p rid =
    let info = p.tuple_info rid.slot_num in
    if leb p.num_tuples rid.slot_num
    then throw failure
    else ok (info.meta, record { rid = rid; bytes = read_bytes p.bytes info.offset info.size })

unfoldable pub get_tuple_meta : TablePage → Rid → Outcome TupleMeta
get_tuple_meta p rid =
    if leb p.num_tuples rid.slot_num then throw failure else ok ((p.tuple_info rid.slot_num).meta)

unfoldable pub update_tuple_in_place_unsafe :
    TablePage → TupleMeta → Tuple → Rid → Outcome TablePage
update_tuple_in_place_unsafe p meta tuple rid =
    let tuple_id = rid.slot_num in
    let info = p.tuple_info tuple_id in
    if leb p.num_tuples tuple_id
    then throw failure
    else if not (info.size == get_length tuple)
    then throw failure
    else ok (record p {
      num_deleted_tuples = count_deleted p info.meta meta;
      tuple_info = update p.tuple_info tuple_id (record info { meta = meta });
      bytes = write_bytes p.bytes info.offset (data_of tuple);
    })
