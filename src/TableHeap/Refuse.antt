-- ===== src/TableHeap/Refuse.antt =====
-- The insertions that end the program, and the one that should and leaves the page.
use learning_journey.Base.{
  ℕ, suc, ◌+◌, ◌^◌, ◌≤◌, ◌<◌, ◌≡◌, refl, Bool, false, Option, some, ok, throw, terminated, length,
}
use learning_journey.TablePage
use learning_journey.TablePage.{TupleMeta, Tuple, Rid, page_size, slot_end_offset}
use learning_journey.TablePage.Shape.{IsValid}
use learning_journey.TablePage.Insert.{
  entries_end, get_next_tuple_offset-some, get_next_tuple_offset-none,
  get_next_tuple_offset_too_long,
}
use learning_journey.TableHeap.{TableHeap, rid_at, locks, find_room, insert_tuple}
use learning_journey.TableHeap.Pool.{BufferPool}
use learning_journey.TableHeap.Room.{last_page, find_room-some, find_room-none}
use learning_journey.TableHeap.Place.{place, insert_in_last-some}

module _ {ℓ} {B : Type ℓ} ⦃pool : BufferPool B⦄ (h : TableHeap B) (v : IsValid (last_page h))
    (meta : TupleMeta) (t : Tuple) (fuel : ℕ) where
  -- A tuple no longer than what lies below the last tuple of the last page ends the program when
  -- there is no room for it in that page and the page has no tuple, and when it is placed there and
  -- its row cannot be locked.
  pub insert_tuple_refused :
      (lock_row : Option (Rid → Bool))
      → length t.bytes ≤ slot_end_offset (last_page h)
      → ((last_page h).num_tuples ≡ 0
          → slot_end_offset (last_page h) < entries_end (last_page h) + length t.bytes
          → insert_tuple (suc fuel) h lock_row meta t ≡ throw terminated)
        × (entries_end (last_page h) + length t.bytes ≤ slot_end_offset (last_page h)
            → locks lock_row (rid_at h.last_page_id (last_page h).num_tuples) ≡ false
            → insert_tuple (suc fuel) h lock_row meta t ≡ throw terminated)
  unfolding insert_tuple
  insert_tuple_refused lock_row below = (
    λ none full.
        rw
          (
            (find_room-none fuel h t (get_next_tuple_offset-none v t below full)).0 none,
            insert_tuple,
          )
          refl,
    λ room refused.
        let (q, placed) = place h meta t v room in
        rw (find_room-some fuel h t _ (get_next_tuple_offset-some v t below room), insert_tuple)
          ((insert_in_last-some h lock_row meta t _ q placed.inserted).1 refused),
  )

  -- In a table whose last page is valid, for a tuple that is longer than what lies below the last
  -- tuple of that page, and shorter than 2 ^ 32 bytes, the loop of `InsertTuple` ends in its first
  -- round with the table as it is, neither ending the program nor adding a page, since
  -- `GetNextTupleOffset` answers an offset; placed there, the tuple reaches past the end of the page.
  pub find_room_too_long :
      slot_end_offset (last_page h) < length t.bytes
      → length t.bytes < 2 ^ 32
      → (offset : ℕ) × (TablePage.get_next_tuple_offset (last_page h) t ≡ some offset)
        × (page_size < offset + length t.bytes)
        × (find_room (suc fuel) h t ≡ ok h)
  find_room_too_long long word =
      let (offset, found, past) = get_next_tuple_offset_too_long v t long word in
      (offset, found, past, find_room-some fuel h t offset found)
