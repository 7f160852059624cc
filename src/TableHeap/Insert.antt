-- ===== src/TableHeap/Insert.antt =====
-- `InsertTuple` of a table with a tuple that a page can hold.
use native.Mathlib.Decide.{dec_lt}
use mathlib.Core.Path.{subst}
use learning_journey.Base.{
  ℕ, suc, ◌+◌, ◌≤◌, ◌<◌, ◌≡◌, ◌≢◌, refl, sym, ap, ap₂, ◌∙◌, Bool, true, List, [], ◌∷◌, ◌++◌, Option,
  ok, arith, length,
}
use learning_journey.TablePage.{
  TablePage, TupleMeta, Rid, Tuple, page_size, header_size, tuple_info_size, init, slot_end_offset,
}
use learning_journey.TablePage.Shape.{IsValid, init-IsValid}
use learning_journey.TablePage.Insert.{
  entries_end, get_next_tuple_offset-some, get_next_tuple_offset-none,
}
use learning_journey.TableHeap.{TableHeap, rid_at, locks, grow, insert_tuple, get_tuple}
use learning_journey.TableHeap.Pool.{BufferPool}
use learning_journey.TableHeap.Room.{
  last_page, linked, find_room-some, find_room-none, grow-page_last, grow-page_apart,
  grow-last_page_id, grow-first_page_id, grow-counter, grow-last_page,
}
use learning_journey.TableHeap.Chain.{
  Linked, Linked-le, Linked-last, Linked-grow, rids, Used, IsHeap, contents,
}
use learning_journey.TableHeap.Place.{
  link-IsValid, put, page-put, page-put_apart, Placed, insert_in_last-some, place, grow_counts,
  grow_reads,
}

module _ {ℓ} {B : Type ℓ} ⦃pool : BufferPool B⦄ where
  -- A table to which one tuple was added, at the end of its contents.
  pub record Added (h : TableHeap B) (later : List ℕ) (meta : TupleMeta) (t : Tuple) (r : Rid)
      (h' : TableHeap B) : Type ℓ where
    pub later' : List ℕ
    pub heap : IsHeap h' later'
    pub order : contents h' later' ≡ contents h later ++ (r ∷ [])
    pub count : pool.counter h'.bpm ≤ pool.counter h.bpm + 1
    pub new : get_tuple h' r ≡ ok (meta, record { rid = r; bytes = t.bytes })
    pub old :
        (other : Rid)
        → other.page_id < pool.counter h.bpm
        → Used (pool.page h.bpm) other
        → get_tuple h' other ≡ get_tuple h other

  chain_of :
      (h : TableHeap B) (later : List ℕ) (count first last : ℕ) (all : List Rid)
      → pool.counter h.bpm ≡ count
      → h.first_page_id ≡ first
      → h.last_page_id ≡ last
      → Linked (pool.page h.bpm) count first later last
      → rids (pool.page h.bpm) first later ≡ all
      → IsHeap h later × (contents h later ≡ all)
  chain_of h later count first last all e f g chain order =
      (rw (e, f, g) chain, ap (λ k. rids (pool.page h.bpm) k later) f ∙ order)

  module _ {h : TableHeap B} {later : List ℕ} (valid : IsHeap h later) (meta : TupleMeta)
      (t : Tuple) where
    put-Added :
        (q : TablePage)
        → Placed h meta t q
        → Added h later meta t (rid_at h.last_page_id (last_page h).num_tuples) (put h q)
    put-Added q placed =
        let (chain, order, _) =
          Linked-last (pool.page h.bpm) (pool.counter h.bpm) (pool.page (put h q).bpm)
            h.last_page_id (λ k ne _. page-put_apart h q k ne) (pool.counter (put h q).bpm)
            (rw (page-put h q) placed.valid) (rw (page-put h q) placed.num)
            (rw (page-put h q) placed.link)
            (omega (arith, pool.counter-set_page h.bpm h.last_page_id q)) h.first_page_id later
            valid in
        record {
          later' = later;
          heap = chain;
          order = order;
          count = omega (arith, pool.counter-set_page h.bpm h.last_page_id q);
          new = placed.new;
          old = λ other _ used. placed.old other used;
        }

    put-grow-Added :
        (q : TablePage)
        → 0 < (last_page h).num_tuples
        → Placed (grow h) meta t q
        → Added h later meta t (rid_at (pool.counter h.bpm) 0) (put (grow h) q)
    unfolding init
    put-grow-Added q some_tuple placed =
        let next = pool.counter h.bpm in
        let (_, bound, v) =
          Linked-le (pool.page h.bpm) next h.first_page_id later h.last_page_id valid in
        let fresh = grow-last_page h in
        let at_last = grow-last_page_id h in
        let pages' = pool.page (put (grow h) q).bpm in
        let old_page : (k : ℕ) → k ≢ next → pages' k ≡ pool.page (grow h).bpm k =
          λ k ne. page-put_apart (grow h) q k (rw at_last ne) in
        let new_page : pages' next ≡ q = ap pages' (sym at_last) ∙ page-put (grow h) q in
        let last_page' : pages' h.last_page_id ≡ record (last_page h) { next_page_id = next } =
          old_page h.last_page_id (omega arith) ∙ grow-page_last h (omega arith) in
        let count : pool.counter (put (grow h) q).bpm ≡ next + 1 =
          pool.counter-set_page (grow h).bpm (grow h).last_page_id q ∙ grow-counter h in
        let (chain, order, _) =
          Linked-grow (pool.page h.bpm) next pages' h.last_page_id
            (λ k ne b. old_page k (omega arith) ∙ grow-page_apart h k ne (omega arith))
            (rw last_page' (link-IsValid v next)) some_tuple (ap (λ p. p.num_tuples) last_page')
            (ap (λ p. p.next_page_id) last_page') (rw new_page placed.valid)
            (ap (λ p. p.num_tuples) new_page ∙ placed.num ∙ rw fresh (omega arith))
            (ap (λ p. p.next_page_id) new_page ∙ placed.link ∙ rw fresh refl) h.first_page_id later
            valid in
        let (heap, contents') =
          chain_of (put (grow h) q) (later ++ (next ∷ [])) (next + 1) h.first_page_id next _ count
            (grow-first_page_id h) at_last chain order in
        let slot : (last_page (grow h)).num_tuples ≡ 0 = rw fresh refl in
        record {
          later' = later ++ (next ∷ []);
          heap = heap;
          order = contents';
          count = omega (arith, count);
          new =
              subst
                (λ r. get_tuple (put (grow h) q) r ≡ ok (meta, record { rid = r; bytes = t.bytes }))
                (ap₂ rid_at at_last slot) placed.new;
          old = λ other b used.
              placed.old other (rw (grow_counts h other.page_id (omega arith) (omega arith)) used)
              ∙ grow_reads h other (omega arith) (omega arith);
        }

-- In a chained table, a tuple no longer than what lies below the last tuple of the last page, and
-- than the room of an empty page, is inserted in at most two rounds of the loop if its row can be
-- locked: it gets the next slot of the last page or the first of a page chained to it, and the table
-- is chained with the tuple after its contents, reads it back, and reads the others as before.
pub insert_tuple-Added {ℓ} :
    {B : Type ℓ} ⦃pool : BufferPool B⦄ {h : TableHeap B} {later : List ℕ}
    → IsHeap h later
    → (lock_row : Option (Rid → Bool)) → ((r : Rid) → locks lock_row r ≡ true)
    → (meta : TupleMeta) (t : Tuple) → length t.bytes ≤ slot_end_offset (last_page h)
    → header_size + tuple_info_size + length t.bytes ≤ page_size
    → (fuel : ℕ)
    → (r : Rid) × (h' : TableHeap B) × (insert_tuple (suc (suc fuel)) h lock_row meta t
        ≡ ok (r, h'))
      × Added h later meta t r h'
unfolding insert_tuple init
insert_tuple-Added ⦃pool = pool⦄ {h} {later} valid lock_row locked meta t below small fuel =
    let (_, bound, v) = Linked-le (pool.page h.bpm) _ h.first_page_id later h.last_page_id valid in
    elim (dec_lt (slot_end_offset (last_page h)) (entries_end (last_page h) + length t.bytes)) [
      | yes full ↦
          let some_tuple : 0 < (last_page h).num_tuples = ground arith in
          let fresh = grow-last_page h in
          let v' : IsValid (last_page (grow h)) =
            rw fresh (init-IsValid (linked h (pool.counter h.bpm))) in
          let fits : entries_end (last_page (grow h)) + length t.bytes
              ≤ slot_end_offset (last_page (grow h)) =
            rw fresh (omega arith) in
          let (q, placed) = place (grow h) meta t v' fits in
          let at_next = ap₂ rid_at (grow-last_page_id h) (ap (λ p. p.num_tuples) fresh) in
          let looped =
            (find_room-none (suc fuel) h t (get_next_tuple_offset-none v t below full)).1 some_tuple
            ∙ find_room-some fuel (grow h) t _
                (get_next_tuple_offset-some v' t (omega arith) fits) in
          (
            rid_at (pool.counter h.bpm) 0,
            put (grow h) q,
            rw (looped, insert_tuple)
                ((insert_in_last-some (grow h) lock_row meta t _ q placed.inserted).0 (locked _)
                  ∙ ap (λ r. ok (r, put (grow h) q)) at_next),
            put-grow-Added valid meta t q some_tuple placed,
          )
      | no room ↦
          let (q, placed) = place h meta t v (omega arith) in
          (
            rid_at h.last_page_id (last_page h).num_tuples,
            put h q,
            rw
                (
                  find_room-some (suc fuel) h t _
                      (get_next_tuple_offset-some v t below (omega arith)),
                  insert_tuple,
                )
                ((insert_in_last-some h lock_row meta t _ q placed.inserted).0 (locked _)),
            put-Added valid meta t q placed,
          )
    ]
