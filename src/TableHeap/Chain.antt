-- ===== src/TableHeap/Chain.antt =====
-- The chain of a table's pages and the identifiers of its tuples, in the order of the chain.
use learning_journey.Base.{
  append_assoc, ℕ, zero, suc, ◌+◌, ◌≤◌, ◌<◌, ◌≡◌, ◌≢◌, refl, sym, ap, ◌∙◌, List, [], ◌∷◌, ◌++◌,
  arith,
}
use learning_journey.TablePage.{TablePage, Rid, Tuple, invalid_page_id}
use learning_journey.TablePage.Shape.{IsValid}
use learning_journey.TablePage.Memory.{read_bytes}
use learning_journey.TableHeap.{TableHeap, rid_at}
use learning_journey.TableHeap.Pool.{BufferPool}

-- From page `id` the links lead through `later` to `last`, all below `count` and in their order;
-- a page is empty only if it is alone.
abbrev pub Linked : (ℕ → TablePage) → ℕ → ℕ → List ℕ → ℕ → Type 0
Linked pages count id [] last =
    (id ≡ last) × IsValid (pages id) × ((pages id).next_page_id ≡ invalid_page_id) × (id < count)
Linked pages count id (j ∷ later) last =
    IsValid (pages id)
    × ((pages id).next_page_id ≡ j)
    × (0 < (pages id).num_tuples)
    × (0 < (pages j).num_tuples)
    × (id < j)
    × Linked pages count j later last

-- The first slots of a page from slot `k`.
abbrev pub slots : ℕ → ℕ → ℕ → List Rid
slots id k zero = []
slots id k (suc n) = rid_at id k ∷ slots id (k + 1) n

abbrev pub rids : (ℕ → TablePage) → ℕ → List ℕ → List Rid
rids pages id [] = slots id 0 (pages id).num_tuples
rids pages id (j ∷ later) = slots id 0 (pages id).num_tuples ++ rids pages j later

-- The identifier names a slot in use.
abbrev pub Used : (ℕ → TablePage) → Rid → Type 0
Used pages r = r.slot_num < (pages r.page_id).num_tuples

-- What lies at an identifier.
abbrev pub tuple_at : (ℕ → TablePage) → Rid → Tuple
tuple_at pages r =
    let info = (pages r.page_id).tuple_info r.slot_num in
    record { rid = r; bytes = read_bytes (pages r.page_id).bytes info.offset info.size }

module _ {ℓ} {B : Type ℓ} ⦃pool : BufferPool B⦄ where
  -- The pages after the first, and the chain through them.
  abbrev pub IsHeap : TableHeap B → List ℕ → Type 0
  IsHeap h later =
      Linked (pool.page h.bpm) (pool.counter h.bpm) h.first_page_id later h.last_page_id

  abbrev pub contents : TableHeap B → List ℕ → List Rid
  contents h later = rids (pool.page h.bpm) h.first_page_id later

slots_snoc : (id k n j : ℕ) → j ≡ k + n → slots id k (suc n) ≡ slots id k n ++ (rid_at id j ∷ [])
slots_snoc id k zero j e = ap (λ i. rid_at id i ∷ []) (omega arith)
slots_snoc id k (suc n) j e = ap (λ l. rid_at id k ∷ l) (slots_snoc id (k + 1) n j (omega arith))

module _ (pages : ℕ → TablePage) (count : ℕ) where
  pub Linked-le :
      (id : ℕ) (later : List ℕ) (last : ℕ)
      → Linked pages count id later last
      → (id ≤ last) × (last < count) × IsValid (pages last)
  Linked-le id [] last (e, v, _, b) = rw (← e) (omega arith, b, v)
  Linked-le id (j ∷ later) last (_, _, _, _, b, l) =
      let (le, bound, v) = Linked-le j later last l in (omega arith, bound, v)

  pub Linked-head :
      (id : ℕ) (later : List ℕ) (last : ℕ) → Linked pages count id later last → IsValid (pages id)
  Linked-head id [] last l = l.1
  Linked-head id (j ∷ later) last l = l.0

  module _ (pages' : ℕ → TablePage) (last : ℕ)
      (same : (k : ℕ) → k ≢ last → k < count → pages' k ≡ pages k) where
    -- The last page with one tuple more, and nothing else.
    pub Linked-last :
        (count' : ℕ)
        → IsValid (pages' last)
        → (pages' last).num_tuples ≡ (pages last).num_tuples + 1
        → (pages' last).next_page_id ≡ (pages last).next_page_id
        → count ≤ count'
        → (id : ℕ) (later : List ℕ) → Linked pages count id later last
        → Linked pages' count' id later last
          × (rids pages' id later
              ≡ rids pages id later ++ (rid_at last (pages last).num_tuples ∷ []))
          × (0 < (pages id).num_tuples → 0 < (pages' id).num_tuples)
    Linked-last count' v num nx le id [] (e, _, stop, b) =
        let more : (pages' last).num_tuples ≡ suc ((pages last).num_tuples) = omega arith in
        rw e (
          (refl, v, nx ∙ rw (← e) stop, omega arith),
          rw more (slots_snoc last 0 (pages last).num_tuples _ (omega arith)),
          λ h. omega arith,
        )
    Linked-last count' v num nx le id (j ∷ later) (w, e, p, q, b, l) =
        let (after, bound, _) = Linked-le j later last l in
        let here = same id (omega arith) (omega arith) in
        let (l', r', q') = Linked-last count' v num nx le j later l in
        (
          rw here (w, e, p, q' q, b, l'),
          rw (here, r') (sym (append_assoc (slots id 0 (pages id).num_tuples) _ _)),
          λ h. rw here h,
        )

    -- A page with one tuple, linked from the last page, and nothing else.
    pub Linked-grow :
        IsValid (pages' last)
        → 0 < (pages last).num_tuples
        → (pages' last).num_tuples ≡ (pages last).num_tuples
        → (pages' last).next_page_id ≡ count
        → IsValid (pages' count)
        → (pages' count).num_tuples ≡ 1
        → (pages' count).next_page_id ≡ invalid_page_id
        → (id : ℕ) (later : List ℕ) → Linked pages count id later last
        → Linked pages' (count + 1) id (later ++ (count ∷ [])) count
          × (rids pages' id (later ++ (count ∷ [])) ≡ rids pages id later ++ (rid_at count 0 ∷ []))
          × ((pages' id).num_tuples ≡ (pages id).num_tuples)
    Linked-grow v some_tuple num nx w one stop id [] (e, _, _, b) = rw e (
      (v, nx, omega arith, omega arith, omega arith, (refl, w, stop, omega arith)),
      rw (num, one) refl,
      num,
    )
    Linked-grow v some_tuple num nx w one stop id (j ∷ later) (u, e, p, q, b, l) =
        let (after, bound, _) = Linked-le j later last l in
        let here = same id (omega arith) (omega arith) in
        let (l', r', q') = Linked-grow v some_tuple num nx w one stop j later l in
        (
          rw here (u, e, p, rw q' q, b, l'),
          rw (here, r') (sym (append_assoc (slots id 0 (pages id).num_tuples) _ _)),
          rw here refl,
        )
