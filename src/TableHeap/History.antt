-- ===== src/TableHeap/History.antt =====
-- Every table that calls on a new one can make, with the identifiers that the insertions returned.
use learning_journey.Base.{
  ℕ, suc, ◌+◌, ◌^◌, ◌≤◌, ◌<◌, ◌≡◌, inl, inr, refl, ap, ◌∙◌, Bool, true, List, [], ◌∷◌, ◌++◌, Option,
  ok, arith, length, ok_unique,
}
use mathlib.Core.Path.{subst}
use learning_journey.TablePage.{
  TupleMeta, Tuple, Rid, page_size, header_size, tuple_info_size, slot_end_offset, init,
}
use learning_journey.TablePage.Shape.{init-IsValid}
use learning_journey.TableHeap.{
  TableHeap, new_table_heap, locks, insert_tuple, update_tuple_meta, update_tuple_in_place,
}
use learning_journey.TableHeap.Pool.{BufferPool}
use learning_journey.TableHeap.Room.{last_page}
use learning_journey.TableHeap.Chain.{IsHeap, contents, slots}
use learning_journey.TableHeap.Insert.{Added, insert_tuple-Added}
use learning_journey.TableHeap.Update.{
  put_at-IsHeap, update_tuple_meta-page, update_tuple_in_place-page,
}
use learning_journey.TableHeap.Scan.{IndexesAll, populate-IndexesAll}

module _ {ℓ} {B : Type ℓ} ⦃pool : BufferPool B⦄ where
  pub data Reach (bpm : B) : TableHeap B → List Rid → Type ℓ where
    start : Reach bpm (new_table_heap bpm) []
    insert :
        {h h' : TableHeap B} {all : List Rid} (fuel : ℕ) (lock_row : Option (Rid → Bool))
        (meta : TupleMeta) (t : Tuple) (r : Rid)
        → ((r : Rid) → locks lock_row r ≡ true)
        → length t.bytes ≤ slot_end_offset (last_page h)
        → header_size + tuple_info_size + length t.bytes ≤ page_size
        → insert_tuple (suc (suc fuel)) h lock_row meta t ≡ ok (r, h')
        → Reach bpm h all
        → Reach bpm h' (all ++ (r ∷ []))
    mark :
        {h h' : TableHeap B} {all : List Rid} (meta : TupleMeta) (rid : Rid)
        → update_tuple_meta h meta rid ≡ ok h'
        → Reach bpm h all
        → Reach bpm h' all
    overwrite :
        {h h' : TableHeap B} {all : List Rid} (meta : TupleMeta) (t : Tuple) (rid : Rid)
        (check : Option (TupleMeta → Tuple → Rid → Bool)) (done : Bool)
        → length t.bytes < 2 ^ 32
        → update_tuple_in_place h meta t rid check ≡ ok (done, h')
        → Reach bpm h all
        → Reach bpm h' all

  -- The table is chained, and these are its identifiers in order.
  abbrev pub Holds : TableHeap B → List Rid → Type 0
  Holds h all = (later : List ℕ) × IsHeap h later × (contents h later ≡ all)

  new_table_heap-Holds : (bpm : B) → Holds (new_table_heap bpm) []
  unfolding new_table_heap init
  new_table_heap-Holds bpm =
      let (id, made) = pool.new_page bpm in
      let first : pool.page (new_table_heap bpm).bpm id ≡ init (pool.page made id) =
        pool.page-set_page made id (init (pool.page made id)) id ∙ ground arith in
      let count = pool.counter-set_page made id (init (pool.page made id)) in
      let id_bound = pool.new_page_id bpm in
      let next_bound = pool.counter-new_page bpm in
      (
        [],
        (
          refl,
          rw first (init-IsValid (pool.page made id)),
          ap (λ p. p.next_page_id) first,
          omega arith,
        ),
        ap (λ p. slots id 0 p.num_tuples) first,
      )

  insert-Holds :
      (h h' : TableHeap B) (all : List Rid) (r : Rid) (later : List ℕ) (meta : TupleMeta)
      (t : Tuple)
      → contents h later ≡ all
      → Added h later meta t r h'
      → Holds h' (all ++ (r ∷ []))
  insert-Holds h h' all r later meta t e added =
      (added.later', added.heap, added.order ∙ ap (λ l. l ++ (r ∷ [])) e)

  Reach-Holds : {bpm : B} {h : TableHeap B} {all : List Rid} → Reach bpm h all → Holds h all
  Reach-Holds start = new_table_heap-Holds _
  Reach-Holds (insert {h} {h'} {all} fuel lock_row meta t r locked below small run reach) =
      let (later, valid, e) = Reach-Holds reach in
      let (r', h'', run', added) =
        insert_tuple-Added {h = h} valid lock_row locked meta t below small fuel in
      insert-Holds h h' all r later meta t e (
        subst (λ (x : Rid × TableHeap B). Added h later meta t x.0 x.1) (ok_unique _ run' run)
          added)
  Reach-Holds (mark {h} {h'} {all} meta rid run reach) =
      let (later, valid, e) = Reach-Holds reach in
      let (q, same, made) = update_tuple_meta-page h h' meta rid run in
      let (valid', e') = put_at-IsHeap h later rid.page_id q same valid in
      subst (λ h. Holds h all) made (later, valid', e' ∙ e)
  Reach-Holds (overwrite {h} {h'} {all} meta t rid check done word run reach) =
      let (later, valid, e) = Reach-Holds reach in
      elim (update_tuple_in_place-page h h' meta t rid check done word run) [
        | inl made ↦ subst (λ h. Holds h all) made (later, valid, e)
        | inr (q, same, made) ↦
            let (valid', e') = put_at-IsHeap h later rid.page_id q same valid in
            subst (λ h. Holds h all) made (later, valid', e' ∙ e)
      ]

-- After any calls on a new table, none of which inserts a tuple longer than what lies below the last
-- one of the last page or than the room of an empty page, and while page identifiers are below
-- 2 ^ 31, the loop of `CreateIndex` over either iterator ends and gives the index the tuples at the
-- identifiers that the insertions returned, in the order of the insertions.
pub populate-Reach {ℓ κ} :
    {B : Type ℓ} ⦃pool : BufferPool B⦄ {I : Type κ} {bpm : B} {h : TableHeap B} {all : List Rid}
    (insert_entry : Tuple → I → I) (fuel : ℕ) (index : I)
    → Reach bpm h all
    → pool.counter h.bpm ≤ 2 ^ 31
    → IndexesAll h all insert_entry fuel index
populate-Reach {h} insert_entry fuel index reach bound =
    let (later, valid, e) = Reach-Holds reach in
    subst (λ all. IndexesAll h all insert_entry fuel index) e
      (populate-IndexesAll h later insert_entry fuel index valid bound)
