-- ===== src/TableHeap/Room.antt =====
-- The loop of `InsertTuple` of a table.
use native.Mathlib.Decide.{dec_lt}
use learning_journey.Base.{
  ℕ, suc, ◌+◌, ◌-◌, ◌≤◌, ◌<◌, ◌≡◌, ◌≢◌, ◌⊎◌, inl, inr, refl, sym, ap, ◌∙◌, none, some, ok, throw,
  terminated, arith, length,
}
use learning_journey.TablePage.{
  TablePage, Tuple, init, page_size, header_size, tuple_info_size, slot_end_offset,
  get_next_tuple_offset,
}
use learning_journey.TablePage.Shape.{IsValid, init-IsValid, top-le-page_size}
use learning_journey.TablePage.Insert.{
  entries_end, get_next_tuple_offset-some, get_next_tuple_offset-none,
}
use mathlib.Core.Path.{subst}
use learning_journey.TablePage.Memory.{update}
use learning_journey.TableHeap.{TableHeap, grow, find_room}
use learning_journey.TableHeap.Pool.{BufferPool}

-- What a new page leaves below its end for one tuple and its entry.
abbrev pub largest : ℕ
largest = page_size - (header_size + tuple_info_size)

module _ {ℓ} {B : Type ℓ} ⦃pool : BufferPool B⦄ where
  abbrev pub last_page : TableHeap B → TablePage
  last_page h = pool.page h.bpm h.last_page_id

  pub find_room-some :
      (fuel : ℕ) (h : TableHeap B) (t : Tuple) (o : ℕ)
      → get_next_tuple_offset (last_page h) t ≡ some o
      → find_room (suc fuel) h t ≡ ok h
  unfolding find_room
  find_room-some fuel h t o e = rw (e, find_room) refl

  pub find_room-none :
      (fuel : ℕ) (h : TableHeap B) (t : Tuple)
      → get_next_tuple_offset (last_page h) t ≡ none
      → ((last_page h).num_tuples ≡ 0 → find_room (suc fuel) h t ≡ throw terminated)
        × (0 < (last_page h).num_tuples → find_room (suc fuel) h t ≡ find_room fuel (grow h) t)
  unfolding find_room
  find_room-none fuel h t e =
      (λ z. rw (e, z, find_room) refl, λ z. rw (e, find_room) (ground arith))

  -- The pages with the last one linked to the next that the pool gives.
  abbrev pub linked : TableHeap B → ℕ → TablePage
  linked h =
      let next = pool.counter h.bpm in
      update (pool.page h.bpm) h.last_page_id (record (last_page h) { next_page_id = next })

  grow-page :
      (h : TableHeap B) (k : ℕ)
      → pool.page (grow h).bpm k
        ≡ (let next = pool.counter h.bpm in update (linked h) next (init (linked h next)) k)
  unfolding grow
  grow-page h k = simp (pool.page-set_page, pool.page-new_page, pool.new_page_id)

  pub grow-page_last :
      (h : TableHeap B)
      → h.last_page_id ≢ pool.counter h.bpm
      → pool.page (grow h).bpm h.last_page_id
        ≡ record (last_page h) { next_page_id = pool.counter h.bpm }
  grow-page_last h ne = grow-page h h.last_page_id ∙ ground arith

  pub grow-page_apart :
      (h : TableHeap B) (k : ℕ)
      → k ≢ h.last_page_id
      → k ≢ pool.counter h.bpm
      → pool.page (grow h).bpm k ≡ pool.page h.bpm k
  grow-page_apart h k ne ne' = grow-page h k ∙ ground arith

  pub grow-last_page_id : (h : TableHeap B) → (grow h).last_page_id ≡ pool.counter h.bpm
  unfolding grow
  grow-last_page_id h = pool.new_page_id h.bpm

  pub grow-first_page_id : (h : TableHeap B) → (grow h).first_page_id ≡ h.first_page_id
  unfolding grow
  grow-first_page_id h = refl

  pub grow-counter : (h : TableHeap B) → pool.counter (grow h).bpm ≡ pool.counter h.bpm + 1
  unfolding grow
  grow-counter h = simp (pool.counter-set_page, pool.counter-new_page)

  -- The last page after a round is one that `Init` made.
  pub grow-last_page : (h : TableHeap B) → last_page (grow h) ≡ init (linked h (pool.counter h.bpm))
  grow-last_page h =
      ap (pool.page (grow h).bpm) (grow-last_page_id h)
      ∙ grow-page h (pool.counter h.bpm)
      ∙ ground arith

  module _ (h : TableHeap B) (v : IsValid (last_page h)) (t : Tuple)
      (fits : length t.bytes ≤ slot_end_offset (last_page h)) where
    new_page_fits : length t.bytes ≤ slot_end_offset (last_page (grow h))
    unfolding init
    new_page_fits =
        let small = top-le-page_size v (last_page h).num_tuples (omega arith) in
        rw (grow-last_page h) (omega arith)

    new_page-IsValid : IsValid (last_page (grow h))
    new_page-IsValid =
        subst IsValid (sym (grow-last_page h)) (init-IsValid (linked h (pool.counter h.bpm)))

    new_page_empty : (last_page (grow h)).num_tuples ≡ 0
    unfolding init
    new_page_empty = rw (grow-last_page h) refl

    -- The second round, in a page that `Init` made.
    new_page_round :
        (fuel : ℕ)
        → (length t.bytes ≤ largest → find_room (suc fuel) (grow h) t ≡ ok (grow h))
          × (largest < length t.bytes → find_room (suc fuel) (grow h) t ≡ throw terminated)
    new_page_round fuel =
        let empty = new_page_empty in
        (
          λ small.
              find_room-some fuel (grow h) t _ (
                get_next_tuple_offset-some new_page-IsValid t new_page_fits
                  (ground (arith, empty))),
          λ large.
              (find_room-none fuel (grow h) t (
                  get_next_tuple_offset-none new_page-IsValid t new_page_fits
                    (ground (arith, empty)))).0
                empty,
        )

    -- In a table whose last page is valid, with a tuple no longer than what lies below the last tuple
    -- of that page, two rounds of the loop of `InsertTuple` are enough. It leaves the table as it is
    -- if the tuple and one more entry fit between the entries and the tuples of the last page. If
    -- not, the program is terminated where that page has no tuple or an empty page would be too
    -- small; otherwise one page is added.
    pub find_room_lem :
        (fuel : ℕ)
        → (entries_end (last_page h) + length t.bytes ≤ slot_end_offset (last_page h)
            → find_room (suc (suc fuel)) h t ≡ ok h)
          × (slot_end_offset (last_page h) < entries_end (last_page h) + length t.bytes
              → 0 < (last_page h).num_tuples
              → length t.bytes ≤ largest
              → find_room (suc (suc fuel)) h t ≡ ok (grow h))
          × (slot_end_offset (last_page h) < entries_end (last_page h) + length t.bytes
              → ((last_page h).num_tuples ≡ 0) ⊎ (largest < length t.bytes)
              → find_room (suc (suc fuel)) h t ≡ throw terminated)
    find_room_lem fuel =
        let again =
          λ (full : slot_end_offset (last_page h) < entries_end (last_page h) + length t.bytes).
            find_room-none (suc fuel) h t (get_next_tuple_offset-none v t fits full) in
        (
          λ room. find_room-some (suc fuel) h t _ (get_next_tuple_offset-some v t fits room),
          λ full some_tuple small. (again full).1 some_tuple ∙ (new_page_round fuel).0 small,
          λ full refused. elim (dec_lt 0 (last_page h).num_tuples) [
            | no z ↦ (again full).0 (omega arith)
            | yes z ↦ elim refused [
              | inl empty ↦ (again full).0 empty
              | inr large ↦ (again full).1 z ∙ (new_page_round fuel).1 large
            ]
          ],
        )
