-- ===== src/TableHeap/Iterate.antt =====
-- The iterator of a table: it visits the tuples of the chain in order, once each, and ends.
use learning_journey.Base.{
  ℕ, ◌+◌, ◌%◌, ◌^◌, ◌≤◌, ◌<◌, ◌≡◌, ◌⊎◌, inl, inr, sym, ap, ◌∙◌, List, [], ◌∷◌, ok, arith,
}
use learning_journey.TablePage.{TablePage, Rid, invalid_page_id}
use learning_journey.TablePage.Shape.{IsValid, top-le-page_size}
use learning_journey.TableHeap.{TableHeap, TableIterator, rid_at, next}
use learning_journey.TableHeap.Pool.{BufferPool}
use learning_journey.TableHeap.Chain.{Linked, Linked-le}

num_tuples-small : {p : TablePage} → IsValid p → p.num_tuples < 2 ^ 9
num_tuples-small {p} v = omega (arith, v.room, top-le-page_size v p.num_tuples (omega arith))

-- Where the iterator goes from the last tuple of a page.
abbrev pub after : List ℕ → Rid
after [] = rid_at invalid_page_id 0
after (j ∷ later) = rid_at j 0

abbrev pub at : Rid → Rid → TableIterator
at r stop = record { rid = r; stop_at_rid = stop }

-- The end of the table at the time of `MakeIterator`, and the stop of `MakeEagerIterator`.
abbrev pub Stop : (ℕ → TablePage) → ℕ → Rid → Type 0
Stop pages last stop =
    (stop ≡ rid_at last (pages last).num_tuples) ⊎ (stop ≡ rid_at invalid_page_id 0)

module _ {ℓ} {B : Type ℓ} ⦃pool : BufferPool B⦄ (h : TableHeap B)
    (bound : pool.counter h.bpm ≤ 2 ^ 31) where
  abbrev pub pages : ℕ → TablePage
  pages = pool.page h.bpm

  -- `operator++` at a tuple that is not the last of its page.
  pub next_here :
      (id last k : ℕ) (stop : Rid)
      → id ≤ last
      → last < pool.counter h.bpm
      → IsValid (pages id)
      → Stop pages last stop
      → k + 1 < (pages id).num_tuples
      → next h (at (rid_at id k) stop) ≡ ok (at (rid_at id (k + 1)) stop)
  unfolding next
  next_here id last k stop le lt v (inl s) b =
      let small = num_tuples-small v in
      let word : (k + 1) % 2 ^ 32 ≡ k + 1 = omega arith in
      let same : id ≡ last → (pages id).num_tuples ≡ (pages last).num_tuples =
        λ e. ap (λ k. (pages k).num_tuples) e in
      rw (s, word) (ground (arith, same))
  next_here id last k stop le lt v (inr s) b =
      let small = num_tuples-small v in
      let word : (k + 1) % 2 ^ 32 ≡ k + 1 = omega arith in rw (s, word) (ground arith)

  -- `operator++` at the last tuple of a page.
  pub next_page :
      (id last k : ℕ) (later : List ℕ) (stop : Rid)
      → Linked pages (pool.counter h.bpm) id later last
      → Stop pages last stop
      → k + 1 ≡ (pages id).num_tuples
      → next h (at (rid_at id k) stop) ≡ ok (at (after later) stop)
  unfolding next
  next_page id last k [] stop (e, v, nx, lt) (inl s) b =
      let small = num_tuples-small v in
      let word : (k + 1) % 2 ^ 32 ≡ k + 1 = omega arith in
      let same : (pages last).num_tuples ≡ k + 1 = ap (λ k. (pages k).num_tuples) (sym e) ∙ sym b in
      rw (s, word, same) (ground arith)
  next_page id last k [] stop (e, v, nx, lt) (inr s) b =
      let small = num_tuples-small v in
      let word : (k + 1) % 2 ^ 32 ≡ k + 1 = omega arith in rw (s, word) (ground arith)
  next_page id last k (j ∷ later) stop (v, nx, _, _, lt, l) (inl s) b =
      let small = num_tuples-small v in
      let (le, bound', _) = Linked-le pages _ j later last l in
      let word : (k + 1) % 2 ^ 32 ≡ k + 1 = omega arith in rw (s, word) (ground arith)
  next_page id last k (j ∷ later) stop (v, nx, _, _, lt, l) (inr s) b =
      let small = num_tuples-small v in
      let (le, bound', _) = Linked-le pages _ j later last l in
      let word : (k + 1) % 2 ^ 32 ≡ k + 1 = omega arith in rw (s, word) (ground arith)
