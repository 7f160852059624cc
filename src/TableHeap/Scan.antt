-- ===== src/TableHeap/Scan.antt =====
-- A loop over a table: it is given the tuples of the chain in order, once each, and ends.
use native.Mathlib.Decide.{dec_lt}
use learning_journey.Base.{
  ℕ, zero, suc, false, leb, ◌==◌, ◌+◌, ◌^◌, ◌≤◌, ◌<◌, ◌≡◌, ◌≢◌, inl, inr, refl, sym, ap, ◌∙◌, List,
  [], ◌∷◌, ok, arith, length, length-append, foldl, foldl-append, ◌-◌,
}
use learning_journey.TablePage
use learning_journey.TablePage.{
  TablePage, Rid, Tuple, invalid_page_id, page_size, header_size, tuple_info_size,
}
use learning_journey.TableHeap.{
  TableHeap, TableIterator, rid_at, get_tuple, next, populate, new_iterator, make_iterator,
  make_eager_iterator,
}
use learning_journey.TableHeap.Pool.{BufferPool}
use learning_journey.TableHeap.Chain.{
  Linked, Linked-le, Linked-head, slots, rids, tuple_at, IsHeap, contents,
}
use learning_journey.TableHeap.Iterate.{after, at, Stop, next_here, next_page}

length-slots : (id k n : ℕ) → length (slots id k n) ≡ n
length-slots id k zero = refl
length-slots id k (suc n) = ap suc (length-slots id (k + 1) n)

module _ {ℓ κ} {B : Type ℓ} ⦃pool : BufferPool B⦄ {I : Type κ} (h : TableHeap B)
    (bound : pool.counter h.bpm ≤ 2 ^ 31) (insert_entry : Tuple → I → I) where
  abbrev pages : ℕ → TablePage
  pages = pool.page h.bpm

  -- The index with the tuples at these identifiers.
  abbrev indexed : I → List Rid → I
  indexed = foldl (λ index r. insert_entry (tuple_at pages r) index)

  populate_step :
      (fuel id k : ℕ) (stop : Rid) (index : I) (it : TableIterator)
      → id < pool.counter h.bpm
      → k < (pages id).num_tuples
      → next h (at (rid_at id k) stop) ≡ ok it
      → populate (suc fuel) h (at (rid_at id k) stop) insert_entry index
        ≡ populate fuel h it insert_entry (insert_entry (tuple_at pages (rid_at id k)) index)
  unfolding populate get_tuple TablePage.get_tuple
  populate_step fuel id k stop index it b used e =
      let going : (id == invalid_page_id) ≡ false = ground arith in
      let slot : leb (pages id).num_tuples k ≡ false = ground arith in
      rw (going, slot, e, populate) refl

  walk :
      (n k id last : ℕ) (later : List ℕ) (stop : Rid) (fuel all : ℕ) (index : I)
      → Linked pages (pool.counter h.bpm) id later last
      → Stop pages last stop
      → k + suc n ≡ (pages id).num_tuples
      → all ≡ n + fuel
      → populate (suc all) h (at (rid_at id k) stop) insert_entry index
        ≡ populate fuel h (at (after later) stop) insert_entry (indexed index (slots id k (suc n)))
  walk zero k id last later stop fuel all index l s e f =
      let (le, lt, _) = Linked-le pages _ id later last l in
      let index' = insert_entry (tuple_at pages (rid_at id k)) index in
      populate_step all id k stop index _ (omega arith) (omega arith)
        (next_page h bound id last k later stop l s (omega arith))
      ∙ ap (λ n. populate n h (at (after later) stop) insert_entry index') (omega arith)
  walk (suc n) k id last later stop fuel all index l s e f =
      let (le, lt, _) = Linked-le pages _ id later last l in
      let index' = insert_entry (tuple_at pages (rid_at id k)) index in
      populate_step all id k stop index _ (omega arith) (omega arith) (
        next_here h bound id last k stop le lt (Linked-head pages _ id later last l) s
          (omega arith))
      ∙ ap (λ n. populate n h (at (rid_at id (k + 1)) stop) insert_entry index')
          {y = suc (n + fuel)} (omega arith)
      ∙ walk n (k + 1) id last later stop fuel (n + fuel) index' l s (omega arith) refl

  -- Once over a page, whose number of tuples is not 0.
  walk_page :
      (id last : ℕ) (later : List ℕ) (stop : Rid) (fuel all : ℕ) (index : I)
      → Linked pages (pool.counter h.bpm) id later last
      → Stop pages last stop
      → 0 < (pages id).num_tuples
      → all ≡ (pages id).num_tuples + fuel
      → populate all h (at (rid_at id 0) stop) insert_entry index
        ≡ populate fuel h
            (at (after later) stop)
            insert_entry
            (indexed index (slots id 0 (pages id).num_tuples))
  walk_page id last later stop fuel all index l s some_tuple e =
      let n = (pages id).num_tuples - 1 in
      let num : (pages id).num_tuples ≡ suc n = omega arith in
      let count : all ≡ suc (n + fuel) = omega arith in
      rw (num, count) (walk n 0 id last later stop fuel (n + fuel) index l s (omega arith) refl)

  pub walk_all :
      (id last : ℕ) (later : List ℕ) (stop : Rid) (fuel all : ℕ) (index : I)
      → Linked pages (pool.counter h.bpm) id later last
      → Stop pages last stop
      → 0 < (pages id).num_tuples
      → all ≡ length (rids pages id later) + suc fuel
      → populate all h (at (rid_at id 0) stop) insert_entry index
        ≡ ok (indexed index (rids pages id later))
  unfolding populate
  walk_all id last [] stop fuel all index l s some_tuple e =
      let count = length-slots id 0 (pages id).num_tuples in
      walk_page id last [] stop (suc fuel) all index l s some_tuple (omega arith)
  walk_all id last (j ∷ later) stop fuel all index l s some_tuple e =
      let (_, _, _, some_tuple', _, l') = l in
      let here = slots id 0 (pages id).num_tuples in
      let there = rids pages j later in
      let index' = indexed index here in
      let count = length-slots id 0 (pages id).num_tuples in
      let total = length-append here there in
      walk_page id last (j ∷ later) stop (length there + suc fuel) all index l s some_tuple
        (omega arith)
      ∙ walk_all j last later stop fuel (length there + suc fuel) index' l' s some_tuple' refl
      ∙ ap ok
          (sym (foldl-append (λ index r. insert_entry (tuple_at pages r) index) index here there))

module _ {ℓ} {B : Type ℓ} ⦃pool : BufferPool B⦄ (h : TableHeap B) (id : ℕ) (stop : Rid) where
  new_iterator-some :
      id ≢ invalid_page_id
      → 0 < (pool.page h.bpm id).num_tuples
      → new_iterator h (rid_at id 0) stop ≡ at (rid_at id 0) stop
  unfolding new_iterator
  new_iterator-some ne some_tuple = ground arith

  new_iterator-none :
      (pool.page h.bpm id).num_tuples ≡ 0
      → new_iterator h (rid_at id 0) stop ≡ at (rid_at invalid_page_id 0) stop
  unfolding new_iterator
  new_iterator-none none = ground arith

-- Only a table without tuples has a first page without any.
empty_chain :
    (pages : ℕ → TablePage) (count id last : ℕ) (later : List ℕ)
    → Linked pages count id later last
    → (pages id).num_tuples ≡ 0
    → rids pages id later ≡ []
empty_chain pages count id last [] l none = rw none refl
empty_chain pages count id last (j ∷ later) l none = absurd (omega arith)

module _ {ℓ κ} {B : Type ℓ} ⦃pool : BufferPool B⦄ {I : Type κ} (h : TableHeap B) (later : List ℕ)
    (insert_entry : Tuple → I → I) (fuel : ℕ) (index : I) (valid : IsHeap h later)
    (bound : pool.counter h.bpm ≤ 2 ^ 31) where
  populate_from_first :
      (stop : Rid)
      → Stop (pool.page h.bpm) h.last_page_id stop
      → populate
          (length (contents h later) + suc fuel)
          h
          (new_iterator h (rid_at h.first_page_id 0) stop)
          insert_entry
          index
        ≡ ok (indexed h bound insert_entry index (contents h later))
  unfolding populate
  populate_from_first stop s =
      let (le, lt, _) = Linked-le (pool.page h.bpm) _ h.first_page_id later h.last_page_id valid in
      elim (dec_lt 0 (pool.page h.bpm h.first_page_id).num_tuples) [
        | yes some_tuple ↦ rw (new_iterator-some h h.first_page_id stop (omega arith) some_tuple) (
            walk_all h bound insert_entry h.first_page_id h.last_page_id later stop fuel _ index
              valid s some_tuple refl)
        | no none ↦
            let nothing =
              empty_chain (pool.page h.bpm) _ h.first_page_id h.last_page_id later valid
                (omega arith) in
            rw (new_iterator-none h h.first_page_id stop (omega arith), nothing)
              (ap (λ n. populate n h (at (rid_at invalid_page_id 0) stop) insert_entry index)
                {y = suc fuel} (omega arith))
      ]

-- Over either iterator the loop of `CreateIndex` ends after as many rounds as these identifiers and
-- one to see the end, and the index is given the tuples at them in their order.
abbrev pub IndexesAll {ℓ κ} :
    {B : Type ℓ} ⦃pool : BufferPool B⦄ {I : Type κ}
    → TableHeap B
    → List Rid
    → (Tuple → I → I)
    → ℕ
    → I
    → Type κ
IndexesAll ⦃pool = pool⦄ h all insert_entry fuel index =
    let rounds = length all + suc fuel in
    let result = foldl (λ index r. insert_entry (tuple_at (pool.page h.bpm) r) index) index all in
    (populate rounds h (make_iterator h) insert_entry index ≡ ok result)
    × (populate rounds h (make_eager_iterator h) insert_entry index ≡ ok result)

-- In a chained table whose page identifiers are below 2 ^ 31, the loop of `CreateIndex` over either
-- iterator ends after as many rounds as the table has tuples and one to see the end, and gives the
-- index the tuples of the chain in their order.
pub populate-IndexesAll {ℓ κ} :
    {B : Type ℓ} ⦃pool : BufferPool B⦄ {I : Type κ} (h : TableHeap B) (later : List ℕ)
    (insert_entry : Tuple → I → I) (fuel : ℕ) (index : I)
    → IsHeap h later
    → pool.counter h.bpm ≤ 2 ^ 31
    → IndexesAll h (contents h later) insert_entry fuel index
unfolding make_iterator make_eager_iterator
populate-IndexesAll h later insert_entry fuel index valid bound = (
  populate_from_first h later insert_entry fuel index valid bound _ (inl refl),
  populate_from_first h later insert_entry fuel index valid bound _ (inr refl),
)
