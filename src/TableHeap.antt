-- ===== src/TableHeap.antt =====
-- bustub/src/storage/table/table_heap.cpp and table_iterator.cpp: a table is a chain of pages, and a
-- tuple is inserted into the last one, after which another page is chained when it does not fit.
-- The buffer pool is a parameter (TableHeap/Pool); the latches are taken one call at a time, so a
-- call is one step. `lock_row` is `LockRow` for the transaction and the table of the call, and `none`
-- the null lock manager. A page identifier is its bit pattern.
pub mod Pool
pub mod Chain
pub mod Room
pub mod Place
pub mod Insert
pub mod Iterate
pub mod Scan
pub mod Update
pub mod History
pub mod Refuse
use learning_journey.Base.{
  ℕ, zero, suc, ◌+◌, ◌^◌, Bool, true, false, not, ◌&&◌, ◌||◌, Option, none, some, Outcome, ok,
  throw, terminated, undefined, assertion_failed, out_of_fuel, ◌>>=◌, ◌>>◌, throw_if, u32, ltb, leb,
  ◌==◌, if◌then◌else◌,
}
use learning_journey.TablePage
use learning_journey.TablePage.{TupleMeta, Rid, Tuple, invalid_page_id, init}
use Pool.{BufferPool}

pub record TableHeap {ℓ} (B : Type ℓ) : Type ℓ where
  pub bpm : B
  pub first_page_id : ℕ
  pub last_page_id : ℕ

pub record TableIterator : Type 0 where
  pub rid : Rid
  pub stop_at_rid : Rid

abbrev pub rid_at : ℕ → ℕ → Rid
rid_at page_id slot_num = record { page_id = page_id; slot_num = slot_num }

abbrev rid_eqb : Rid → Rid → Bool
rid_eqb a b = (a.page_id == b.page_id) && (a.slot_num == b.slot_num)

-- No lock is asked for, or `LockRow` is true.
abbrev pub locks : Option (Rid → Bool) → Rid → Bool
locks none rid = true
locks (some lock) rid = lock rid

-- `check == nullptr || check(old_meta, old_tup, rid)`
abbrev pub checks : Option (TupleMeta → Tuple → Rid → Bool) → TupleMeta → Tuple → Rid → Bool
checks none meta tuple rid = true
checks (some check) meta tuple rid = check meta tuple rid

-- `<` on `page_id_t`, which is signed.
abbrev page_id_ltb : ℕ → ℕ → Bool
page_id_ltb a b = ltb (u32 (a + 2 ^ 31)) (u32 (b + 2 ^ 31))

abbrev pub is_end : TableIterator → Bool
is_end it = it.rid.page_id == invalid_page_id

module _ {ℓ} {B : Type ℓ} ⦃pool : BufferPool B⦄ where
  unfoldable pub new_table_heap : B → TableHeap B
  new_table_heap bpm =
      let (id, bpm) = pool.new_page bpm in
      record {
        bpm = pool.set_page bpm id (init (pool.page bpm id));
        first_page_id = id;
        last_page_id = id;
      }

  -- A round of the loop of `InsertTuple` that does not leave it: a new page, linked from the last.
  unfoldable pub grow : TableHeap B → TableHeap B
  grow h =
      let last = h.last_page_id in
      let (id, bpm) = pool.new_page h.bpm in
      let linked = pool.set_page bpm last (record (pool.page bpm last) { next_page_id = id }) in
      record h { bpm = pool.set_page linked id (init (pool.page linked id)); last_page_id = id }

  -- The loop of `InsertTuple`.
  unfoldable pub find_room : ℕ → TableHeap B → Tuple → Outcome (TableHeap B)
  find_room zero h tuple = throw out_of_fuel
  find_room (suc fuel) h tuple =
      let page = pool.page h.bpm h.last_page_id in
      elim (TablePage.get_next_tuple_offset page tuple) [
        | some _ ↦ ok h
        | none ↦ throw_if (page.num_tuples == 0) terminated >> find_room fuel (grow h) tuple
      ]

  -- What follows the loop: the insertion in the last page, whose `nullopt` is not looked for.
  unfoldable pub insert_in_last :
      TableHeap B → Option (Rid → Bool) → TupleMeta → Tuple → Outcome (Rid × TableHeap B)
  insert_in_last h lock_row meta tuple =
      let last = h.last_page_id in
      let (slot_id, page) = TablePage.insert_tuple (pool.page h.bpm last) meta tuple in
      elim slot_id [
        | none ↦ throw undefined
        | some slot_id ↦
            throw_if (not (locks lock_row (rid_at last slot_id))) terminated
            >> ok (rid_at last slot_id, record h { bpm = pool.set_page h.bpm last page })
      ]

  unfoldable pub insert_tuple :
      ℕ → TableHeap B → Option (Rid → Bool) → TupleMeta → Tuple → Outcome (Rid × TableHeap B)
  insert_tuple fuel h lock_row meta tuple =
      find_room fuel h tuple >>= λ h. insert_in_last h lock_row meta tuple

  unfoldable pub update_tuple_meta : TableHeap B → TupleMeta → Rid → Outcome (TableHeap B)
  update_tuple_meta h meta rid =
      TablePage.update_tuple_meta (pool.page h.bpm rid.page_id) meta rid >>= λ page.
      ok (record h { bpm = pool.set_page h.bpm rid.page_id page })

  unfoldable pub get_tuple : TableHeap B → Rid → Outcome (TupleMeta × Tuple)
  get_tuple h rid = TablePage.get_tuple (pool.page h.bpm rid.page_id) rid >>= λ (meta, tuple).
      ok (meta, record tuple { rid = rid })

  unfoldable pub get_tuple_meta : TableHeap B → Rid → Outcome TupleMeta
  get_tuple_meta h rid = TablePage.get_tuple_meta (pool.page h.bpm rid.page_id) rid

  unfoldable pub update_tuple_in_place :
      TableHeap B
      → TupleMeta
      → Tuple
      → Rid
      → Option (TupleMeta → Tuple → Rid → Bool)
      → Outcome (Bool × TableHeap B)
  update_tuple_in_place h meta tuple rid check =
      let page = pool.page h.bpm rid.page_id in
      TablePage.get_tuple page rid >>= λ (old_meta, old_tup).
      if checks check old_meta old_tup rid
      then TablePage.update_tuple_in_place_unsafe page meta tuple rid
        >>= (λ page. ok (true, record h { bpm = pool.set_page h.bpm rid.page_id page }))
      else ok (false, h)

  -- The constructor of `TableIterator`.
  unfoldable pub new_iterator : TableHeap B → Rid → Rid → TableIterator
  new_iterator h rid stop_at_rid =
      if rid.page_id == invalid_page_id
      then record { rid = rid_at invalid_page_id 0; stop_at_rid = stop_at_rid }
      else if leb (pool.page h.bpm rid.page_id).num_tuples rid.slot_num
      then record { rid = rid_at invalid_page_id 0; stop_at_rid = stop_at_rid }
      else record { rid = rid; stop_at_rid = stop_at_rid }

  unfoldable pub make_iterator : TableHeap B → TableIterator
  make_iterator h =
      let num_tuples = (pool.page h.bpm h.last_page_id).num_tuples in
      new_iterator h (rid_at h.first_page_id 0) (rid_at h.last_page_id num_tuples)

  unfoldable pub make_eager_iterator : TableHeap B → TableIterator
  make_eager_iterator h = new_iterator h (rid_at h.first_page_id 0) (rid_at invalid_page_id 0)

  -- `operator++`.
  unfoldable pub next : TableHeap B → TableIterator → Outcome TableIterator
  next h it =
      let page = pool.page h.bpm it.rid.page_id in
      let stop = it.stop_at_rid in
      let next_tuple_id = u32 (it.rid.slot_num + 1) in
      let rid = rid_at it.rid.page_id next_tuple_id in
      let inside =
        page_id_ltb rid.page_id stop.page_id
        || ((rid.page_id == stop.page_id) && leb next_tuple_id stop.slot_num) in
      throw_if (not (stop.page_id == invalid_page_id) && not inside) assertion_failed
      >> (if rid_eqb rid stop
          then ok (record it { rid = rid_at invalid_page_id 0 })
          else if ltb next_tuple_id page.num_tuples
          then ok (record it { rid = rid })
          else ok (record it { rid = rid_at page.next_page_id 0 }))

  -- The loop of `Catalog::CreateIndex` that gives every tuple of a table to `index->InsertEntry`.
  unfoldable pub populate {κ} :
      {I : Type κ} → ℕ → TableHeap B → TableIterator → (Tuple → I → I) → I → Outcome I
  populate zero h it insert_entry index = throw out_of_fuel
  populate (suc fuel) h it insert_entry index = elim (is_end it) [
    | true ↦ ok index
    | false ↦ get_tuple h it.rid >>= λ (meta, tuple).
        next h it >>= λ it. populate fuel h it insert_entry (insert_entry tuple index)
  ]
