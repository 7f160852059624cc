-- ===== src/TableHeap/Place.antt =====
-- What follows the loop of `InsertTuple` of a table, and what is read after it.
use learning_journey.Base.{
  ℕ, ◌+◌, ◌≤◌, ◌≡◌, ◌≢◌, inl, inr, refl, sym, ap, ◌∙◌, Bool, true, false, Option, some, ok, throw,
  terminated, arith, length, eq_cases,
}
use learning_journey.TablePage
use learning_journey.TablePage.{
  TablePage, TupleMeta, Rid, Tuple, invalid_page_id, page_size, header_size, tuple_info_size, init,
  slot_end_offset, get_next_tuple_offset,
}
use learning_journey.TablePage.Shape.{IsValid}
use learning_journey.TablePage.Insert.{
  entries_end, insert_tuple_lem, insert_tuple-rid, insert_tuple-next_page_id,
}
use learning_journey.TableHeap.{TableHeap, rid_at, locks, grow, insert_in_last, get_tuple}
use learning_journey.TableHeap.Pool.{BufferPool}
use learning_journey.TableHeap.Room.{last_page, grow-page_last, grow-page_apart}
use learning_journey.TableHeap.Chain.{Used}

get_tuple-link :
    (p : TablePage) (next_page_id : ℕ) (r : Rid)
    → TablePage.get_tuple (record p { next_page_id = next_page_id }) r ≡ TablePage.get_tuple p r
unfolding TablePage.get_tuple
get_tuple-link p next_page_id r = refl

pub link-IsValid :
    {p : TablePage}
    → IsValid p
    → (next_page_id : ℕ) → IsValid (record p { next_page_id = next_page_id })
link-IsValid v next_page_id = record { stacked = v.stacked; room = v.room }

module _ {ℓ} {B : Type ℓ} ⦃pool : BufferPool B⦄ where
  -- The table with another last page.
  abbrev pub put : TableHeap B → TablePage → TableHeap B
  put h q = record h { bpm = pool.set_page h.bpm h.last_page_id q }

  pub get_tuple-page :
      (h : TableHeap B) (r : Rid)
      → get_tuple h r ≡ TablePage.get_tuple (pool.page h.bpm r.page_id) r
  unfolding get_tuple TablePage.get_tuple
  get_tuple-page h r = ground arith

  pub page-put : (h : TableHeap B) (q : TablePage) → last_page (put h q) ≡ q
  page-put h q = pool.page-set_page h.bpm h.last_page_id q h.last_page_id ∙ ground arith

  pub page-put_apart :
      (h : TableHeap B) (q : TablePage) (k : ℕ)
      → k ≢ h.last_page_id
      → pool.page (put h q).bpm k ≡ pool.page h.bpm k
  page-put_apart h q k ne = pool.page-set_page h.bpm h.last_page_id q k ∙ ground arith

  pub get_tuple-put :
      (h : TableHeap B) (q : TablePage) (r : Rid)
      → (r.page_id ≡ h.last_page_id → TablePage.get_tuple q r ≡ TablePage.get_tuple (last_page h) r)
      → get_tuple (put h q) r ≡ get_tuple h r
  get_tuple-put h q r same =
      get_tuple-page (put h q) r
      ∙ elim (eq_cases r.page_id h.last_page_id) [
        | inl e ↦
            ap (λ p. TablePage.get_tuple p r) (ap (pool.page (put h q).bpm) e ∙ page-put h q)
            ∙ same e
            ∙ ap (λ p. TablePage.get_tuple p r) (ap (pool.page h.bpm) (sym e))
        | inr ne ↦ ap (λ p. TablePage.get_tuple p r) (page-put_apart h q r.page_id ne)
      ]
      ∙ sym (get_tuple-page h r)

  pub insert_in_last-some :
      (h : TableHeap B) (lock_row : Option (Rid → Bool)) (meta : TupleMeta) (t : Tuple) (slot : ℕ)
      (q : TablePage)
      → TablePage.insert_tuple (last_page h) meta t ≡ (some slot, q)
      → (locks lock_row (rid_at h.last_page_id slot) ≡ true
          → insert_in_last h lock_row meta t ≡ ok (rid_at h.last_page_id slot, put h q))
        × (locks lock_row (rid_at h.last_page_id slot) ≡ false
            → insert_in_last h lock_row meta t ≡ throw terminated)
  unfolding insert_in_last
  insert_in_last-some h lock_row meta t slot q e =
      let slot_id = ap (λ (r : Option ℕ × TablePage). r.0) e in
      let page = ap (λ (r : Option ℕ × TablePage). r.1) e in
      (
        λ l. rw (slot_id, page, l, insert_in_last) refl,
        λ l. rw (slot_id, page, l, insert_in_last) refl,
      )

  -- What `insert_in_last` does with a tuple that fits: it gets the next slot of the last page.
  pub record Placed (h : TableHeap B) (meta : TupleMeta) (t : Tuple) (q : TablePage) : Type 0 where
    pub inserted : TablePage.insert_tuple (last_page h) meta t ≡ (some (last_page h).num_tuples, q)
    pub valid : IsValid q
    pub num : q.num_tuples ≡ (last_page h).num_tuples + 1
    pub link : q.next_page_id ≡ (last_page h).next_page_id
    pub new :
        let r = rid_at h.last_page_id (last_page h).num_tuples in
        get_tuple (put h q) r ≡ ok (meta, record { rid = r; bytes = t.bytes })
    pub old : (r : Rid) → Used (pool.page h.bpm) r → get_tuple (put h q) r ≡ get_tuple h r

  pub place :
      (h : TableHeap B) (meta : TupleMeta) (t : Tuple)
      → IsValid (last_page h)
      → entries_end (last_page h) + length t.bytes ≤ slot_end_offset (last_page h)
      → (q : TablePage) × Placed h meta t q
  place h meta t v fits =
      let p = last_page h in
      let t' : Tuple = record t { rid = rid_at h.last_page_id 0 } in
      let (q, made, valid, num, new, old) = (insert_tuple_lem v meta t' (omega arith)).1 fits in
      let made' = insert_tuple-rid p meta t (rid_at h.last_page_id 0) ∙ made in
      (
        q,
        record {
          inserted = made';
          valid = valid;
          num = num;
          link =
              ap (λ (r : Option ℕ × TablePage). r.1.next_page_id) (sym made')
              ∙ insert_tuple-next_page_id p meta t;
          new = get_tuple-page (put h q) _ ∙ rw (page-put h q) new;
          old = λ r used. get_tuple-put h q r λ e. old r (rw (← e) used);
        },
      )

  pub grow_counts :
      (h : TableHeap B) (k : ℕ)
      → h.last_page_id ≢ pool.counter h.bpm
      → k ≢ pool.counter h.bpm
      → (pool.page (grow h).bpm k).num_tuples ≡ (pool.page h.bpm k).num_tuples
  grow_counts h k ne_last ne = elim (eq_cases k h.last_page_id) [
    | inl e ↦ rw e (ap (λ p. p.num_tuples) (grow-page_last h ne_last))
    | inr apart ↦ ap (λ p. p.num_tuples) (grow-page_apart h k apart ne)
  ]

  -- A round of the loop does not change what is read.
  pub grow_reads :
      (h : TableHeap B) (r : Rid)
      → h.last_page_id ≢ pool.counter h.bpm
      → r.page_id ≢ pool.counter h.bpm
      → get_tuple (grow h) r ≡ get_tuple h r
  grow_reads h r ne_last ne =
      get_tuple-page (grow h) r
      ∙ elim (eq_cases r.page_id h.last_page_id) [
        | inl e ↦
            ap (λ p. TablePage.get_tuple p r)
              (ap (pool.page (grow h).bpm) e ∙ grow-page_last h ne_last)
            ∙ get_tuple-link (last_page h) (pool.counter h.bpm) r
            ∙ ap (λ p. TablePage.get_tuple p r) (ap (pool.page h.bpm) (sym e))
        | inr apart ↦ ap (λ p. TablePage.get_tuple p r) (grow-page_apart h r.page_id apart ne)
      ]
      ∙ sym (get_tuple-page h r)
