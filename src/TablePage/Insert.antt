-- ===== src/TablePage/Insert.antt =====
-- `InsertTuple`: what it does with a tuple that fits and with one that does not, and the offset that
-- a tuple longer than what lies below the last one is given.
use native.Mathlib.Decide.{dec_lt}
use learning_journey.Base.{
  ℕ, ◌+◌, ◌-◌, ◌*◌, ◌^◌, ◌≤◌, ◌<◌, ◌≡◌, refl, ap, ◌∙◌, none, some, ok, arith, ltb, if◌then◌else◌,
  u16, u64, length, take-all,
}
use learning_journey.TablePage.{
  TablePage, TupleMeta, Tuple, Rid, page_size, header_size, tuple_info_size, get_length, data_of,
  slot_end_offset, get_next_tuple_offset, insert_tuple, place_tuple, get_tuple,
}
use learning_journey.TablePage.Memory.{read_bytes-write_bytes, read_bytes-write_bytes_apart}
use learning_journey.TablePage.Shape.{IsValid, top-le-page_size, below}

-- The bytes from the header to the end of the entries, if one more entry is added.
abbrev pub entries_end : TablePage → ℕ
entries_end p = header_size + tuple_info_size * (p.num_tuples + 1)

abbrev pub at_slot : TablePage → Tuple → Rid
at_slot p t = record { page_id = t.rid.page_id; slot_num = p.num_tuples }

module _ {p : TablePage} (v : IsValid p) (t : Tuple)
    (fits : length t.bytes ≤ slot_end_offset p) where
  data_of-eq : data_of t ≡ t.bytes
  data_of-eq =
      take-all (get_length t) t.bytes (omega (arith, top-le-page_size v p.num_tuples (omega arith)))

  get_next_tuple_offset-eq : get_next_tuple_offset p t ≡ (
      if ltb (slot_end_offset p - length t.bytes) (entries_end p)
      then none
      else some (slot_end_offset p - length t.bytes))
  unfolding get_next_tuple_offset
  get_next_tuple_offset-eq =
      let small = top-le-page_size v p.num_tuples (omega arith) in
      let offset : u64 (slot_end_offset p + 2 ^ 64 - get_length t)
          ≡ slot_end_offset p - length t.bytes =
        omega arith in
      let word : u16 (slot_end_offset p - length t.bytes) ≡ slot_end_offset p - length t.bytes =
        omega arith in
      rw (offset, word)

  pub get_next_tuple_offset-some :
      entries_end p + length t.bytes ≤ slot_end_offset p
      → get_next_tuple_offset p t ≡ some (slot_end_offset p - length t.bytes)
  get_next_tuple_offset-some h = get_next_tuple_offset-eq ∙ ground arith

  pub get_next_tuple_offset-none :
      slot_end_offset p < entries_end p + length t.bytes → get_next_tuple_offset p t ≡ none
  get_next_tuple_offset-none h = get_next_tuple_offset-eq ∙ ground arith

  -- The first byte of every tuple lies at or above the end of the new one.
  below_all : (i : ℕ) → i < p.num_tuples → slot_end_offset p ≤ (p.tuple_info i).offset
  below_all i h = elim (dec_lt i (p.num_tuples - 1)) [
    | yes e ↦ ground (arith, below v (p.num_tuples - 1) i (omega arith) e)
    | no e ↦
        let same : p.num_tuples - 1 ≡ i = omega arith in
        ground (arith, ap (λ k. (p.tuple_info k).offset) same)
  ]

  module _ (meta : TupleMeta) (roomy : entries_end p + length t.bytes ≤ slot_end_offset p) where
    abbrev placed : TablePage
    placed = place_tuple p meta t (slot_end_offset p - length t.bytes)

    placed-IsValid : IsValid placed × (placed.num_tuples ≡ p.num_tuples + 1)
    unfolding place_tuple
    placed-IsValid =
        let small = top-le-page_size v p.num_tuples (omega arith) in
        let num : u16 (p.num_tuples + 1) ≡ p.num_tuples + 1 = omega arith in
        (
          record {
            stacked = λ i h. elim (dec_lt i p.num_tuples) [
              | yes e ↦ ground (arith, v.stacked i e)
              | no e ↦ let same : i ≡ p.num_tuples = omega arith in rw same (ground arith)
            ];
            room = rw num (ground arith);
          },
          num,
        )

    -- The new tuple reads back, and the others read as they did.
    placed_reads :
        (get_tuple placed (at_slot p t) ≡ ok (meta, record { rid = at_slot p t; bytes = t.bytes }))
        × ((rid : Rid) → rid.slot_num < p.num_tuples → get_tuple placed rid ≡ get_tuple p rid)
    unfolding get_tuple place_tuple
    placed_reads =
        let small = top-le-page_size v p.num_tuples (omega arith) in
        let start = slot_end_offset p - length t.bytes in
        let num : u16 (p.num_tuples + 1) ≡ p.num_tuples + 1 = omega arith in
        let size : u16 (get_length t) ≡ length t.bytes = omega arith in
        (
          ground (arith, num, size, data_of-eq, read_bytes-write_bytes p.bytes start t.bytes),
          λ rid h.
              let info = p.tuple_info rid.slot_num in
              ground (
                arith,
                num,
                data_of-eq,
                below_all rid.slot_num h,
                read_bytes-write_bytes_apart p.bytes start t.bytes info.offset info.size,
              ),
        )

insert_tuple-none :
    (p : TablePage) (meta : TupleMeta) (t : Tuple)
    → get_next_tuple_offset p t ≡ none
    → insert_tuple p meta t ≡ (none, p)
unfolding insert_tuple
insert_tuple-none p meta t h = rw (h, insert_tuple)

insert_tuple-some :
    (p : TablePage) (meta : TupleMeta) (t : Tuple) (offset : ℕ)
    → get_next_tuple_offset p t ≡ some offset
    → insert_tuple p meta t ≡ (some p.num_tuples, place_tuple p meta t offset)
unfolding insert_tuple
insert_tuple-some p meta t offset h = rw (h, insert_tuple)

-- The identifier of a tuple does not matter to its page.
pub insert_tuple-rid :
    (p : TablePage) (meta : TupleMeta) (t : Tuple) (r : Rid)
    → insert_tuple p meta t ≡ insert_tuple p meta (record t { rid = r })
unfolding insert_tuple get_next_tuple_offset place_tuple
insert_tuple-rid p meta t r = refl

-- An insertion leaves the link to the next page.
pub insert_tuple-next_page_id :
    (p : TablePage) (meta : TupleMeta) (t : Tuple)
    → (insert_tuple p meta t).1.next_page_id ≡ p.next_page_id
unfolding insert_tuple place_tuple
insert_tuple-next_page_id p meta t = ground arith

-- In a valid page, for a tuple no longer than what lies below the last tuple: if the entries with
-- one more would reach into it the page is left as it is and no slot is given; if not the tuple gets
-- the next slot, the page stays valid with one tuple more, a read of that slot gives the meta and
-- the bytes back, and a read of any other slot in use gives what it gave.
pub insert_tuple_lem :
    {p : TablePage}
    → IsValid p
    → (meta : TupleMeta) (t : Tuple) → length t.bytes ≤ slot_end_offset p
    → (slot_end_offset p < entries_end p + length t.bytes → insert_tuple p meta t ≡ (none, p))
      × (entries_end p + length t.bytes ≤ slot_end_offset p
          → (q : TablePage) × (insert_tuple p meta t ≡ (some p.num_tuples, q))
            × IsValid q
            × (q.num_tuples ≡ p.num_tuples + 1)
            × (get_tuple q (at_slot p t) ≡ ok (meta, record { rid = at_slot p t; bytes = t.bytes }))
            × ((rid : Rid) → rid.slot_num < p.num_tuples → get_tuple q rid ≡ get_tuple p rid))
insert_tuple_lem {p} v meta t fits =
    let next = get_next_tuple_offset-eq v t fits in
    let start = slot_end_offset p - length t.bytes in
    (
      λ h. insert_tuple-none p meta t (rw next (ground arith)),
      λ h.
          let (valid, num) = placed-IsValid v t fits meta h in
          let (new, old) = placed_reads v t fits meta h in
          (
            place_tuple p meta t start,
            insert_tuple-some p meta t start (rw next (ground arith)),
            valid,
            num,
            new,
            old,
          ),
    )

-- A tuple that is longer than what lies below the last tuple, and shorter than 2 ^ 32 bytes, does
-- not fit in a valid page, and yet an offset is answered: the difference of the two lengths wraps
-- round 2 ^ 64 and passes the test. From that offset the tuple reaches past the end of the page.
pub get_next_tuple_offset_too_long :
    {p : TablePage}
    → IsValid p
    → (t : Tuple) → slot_end_offset p < length t.bytes
    → length t.bytes < 2 ^ 32
    → (o : ℕ) × (get_next_tuple_offset p t ≡ some o) × (page_size < o + length t.bytes)
unfolding get_next_tuple_offset
get_next_tuple_offset_too_long {p} v t long word =
    let small = top-le-page_size v p.num_tuples (omega arith) in
    let wrapped : entries_end p ≤ u64 (slot_end_offset p + 2 ^ 64 - get_length t) =
      omega (arith, v.room) in
    (u16 (u64 (slot_end_offset p + 2 ^ 64 - get_length t)), ground (arith, wrapped), omega arith)
