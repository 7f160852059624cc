-- ===== src/TablePage/Access.antt =====
-- Reads, and updates of a tuple that is in the page.
use learning_journey.Base.{
  ◌^◌, ◌≤◌, ◌<◌, ◌≡◌, ◌≢◌, refl, ok, throw, failure, arith, length, take-all, Returns,
}
use learning_journey.TablePage.{
  TablePage, TupleMeta, Tuple, Rid, get_length, data_of, get_tuple, get_tuple_meta, count_deleted,
  update_tuple_meta, update_tuple_in_place_unsafe,
}
use learning_journey.TablePage.Memory.{
  update, write_bytes, read_bytes-write_bytes, read_bytes-write_bytes_apart,
}
use learning_journey.TablePage.Shape.{IsValid, apart}

-- A slot that is not in use is refused by every read and every update.
pub out_of_range :
    (p : TablePage) (meta : TupleMeta) (t : Tuple) (rid : Rid)
    → p.num_tuples ≤ rid.slot_num
    → (get_tuple p rid ≡ throw failure)
      × (get_tuple_meta p rid ≡ throw failure)
      × (update_tuple_meta p meta rid ≡ throw failure)
      × (update_tuple_in_place_unsafe p meta t rid ≡ throw failure)
unfolding get_tuple get_tuple_meta update_tuple_meta update_tuple_in_place_unsafe
out_of_range p meta t rid h = (ground arith, ground arith, ground arith, ground arith)

module _ {p : TablePage} (v : IsValid p) (meta : TupleMeta) (rid : Rid)
    (used : rid.slot_num < p.num_tuples) where
  abbrev remarked : TablePage
  remarked = record p {
    num_deleted_tuples = count_deleted p (p.tuple_info rid.slot_num).meta meta;
    tuple_info =
        update p.tuple_info rid.slot_num (record (p.tuple_info rid.slot_num) { meta = meta });
  }

  remarked-IsValid : IsValid remarked
  remarked-IsValid = record {
    stacked = λ j h. ground (arith, v.stacked j h);
    room = ground (arith, v.room);
  }

  -- `UpdateTupleMeta` on a slot in use of a valid page keeps the page valid, gives that slot the new
  -- meta with the same bytes, leaves what is read at every other slot, and adds 1, in 16 bits, to the
  -- deleted tuples exactly when the slot was not deleted and now is.
  pub update_tuple_meta_lem : Returns (update_tuple_meta p meta rid) λ q.
      IsValid q
      × (q.num_tuples ≡ p.num_tuples)
      × (q.num_deleted_tuples ≡ count_deleted p (p.tuple_info rid.slot_num).meta meta)
      × (get_tuple_meta q rid ≡ ok meta)
      × ((t : Tuple) (old : TupleMeta)
          → get_tuple p rid ≡ ok (old, t)
          → get_tuple q rid ≡ ok (meta, t))
      × ((other : Rid) → other.slot_num ≢ rid.slot_num → get_tuple q other ≡ get_tuple p other)
  unfolding update_tuple_meta get_tuple get_tuple_meta
  update_tuple_meta_lem = (
    remarked,
    ground arith,
    (remarked-IsValid, refl, refl, ground arith, λ t old h. ground arith, λ other ne. ground arith),
  )

  module _ (t : Tuple) (word : length t.bytes < 2 ^ 32) where
    abbrev rewritten : TablePage
    rewritten = record remarked {
      bytes = write_bytes p.bytes (p.tuple_info rid.slot_num).offset (data_of t);
    }

    rewritten-IsValid : IsValid rewritten
    rewritten-IsValid = record { stacked = remarked-IsValid.stacked; room = remarked-IsValid.room }

    -- `UpdateTupleInPlaceUnsafe` on a slot in use of a valid page refuses a tuple of another length;
    -- else it keeps the page valid, gives that slot the new meta and bytes, and leaves what is read
    -- at every other slot.
    pub update_tuple_in_place_lem :
        ((p.tuple_info rid.slot_num).size ≢ length t.bytes
          → update_tuple_in_place_unsafe p meta t rid ≡ throw failure)
        × ((p.tuple_info rid.slot_num).size ≡ length t.bytes
            → Returns (update_tuple_in_place_unsafe p meta t rid) λ q.
              IsValid q
              × (q.num_tuples ≡ p.num_tuples)
              × (get_tuple q rid ≡ ok (meta, record { rid = rid; bytes = t.bytes }))
              × ((other : Rid)
                  → other.slot_num < p.num_tuples
                  → other.slot_num ≢ rid.slot_num
                  → get_tuple q other ≡ get_tuple p other))
    unfolding update_tuple_in_place_unsafe get_tuple
    update_tuple_in_place_lem =
        let info = p.tuple_info rid.slot_num in
        let whole : data_of t ≡ t.bytes = take-all (get_length t) t.bytes (omega arith) in
        (
          λ ne. ground arith,
          λ e. (
            rewritten,
            ground arith,
            (
              rewritten-IsValid,
              refl,
              ground (arith, whole, read_bytes-write_bytes p.bytes info.offset t.bytes),
              λ other h ne.
                  let there = p.tuple_info other.slot_num in
                  ground (
                    arith,
                    whole,
                    apart v other.slot_num rid.slot_num h used ne,
                    read_bytes-write_bytes_apart p.bytes info.offset t.bytes there.offset
                        there.size,
                  ),
            ),
          ),
        )
