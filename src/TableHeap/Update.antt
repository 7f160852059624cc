-- ===== src/TableHeap/Update.antt =====
-- A new table, and the updates of a tuple in a table, which keep the chain and its contents.
use mathlib.Core.Path.{subst}
use learning_journey.Base.{
  ℕ, ◌^◌, ◌<◌, ◌≡◌, refl, inl, inr, ap, ap₂, ◌∙◌, List, [], ◌∷◌, ◌++◌, Option, ok, arith, length,
  ok_unique, eq_cases, bind-ok, Bool-cases, Bool, ◌⊎◌,
}
use learning_journey.TablePage
use learning_journey.TablePage.{TablePage, TupleMeta, Tuple, Rid, init, invalid_page_id}
use learning_journey.TablePage.Shape.{IsValid}
use learning_journey.TablePage.History.{mark-IsValid, overwrite-IsValid}
use learning_journey.TableHeap.{TableHeap, update_tuple_meta, update_tuple_in_place, checks}
use learning_journey.TableHeap.Pool.{BufferPool}
use learning_journey.TableHeap.Chain.{Linked, rids, slots, IsHeap, contents}

-- The shape of a page: what the chain asks of it.
pub record SameShape (p q : TablePage) : Type 0 where
  pub valid : IsValid p → IsValid q
  pub num : q.num_tuples ≡ p.num_tuples
  pub link : q.next_page_id ≡ p.next_page_id

pub same_page : (p : TablePage) → SameShape p p
same_page p = record { valid = λ v. v; num = refl; link = refl }

pub Linked-SameShape :
    (pages pages' : ℕ → TablePage) (count : ℕ)
    → ((k : ℕ) → SameShape (pages k) (pages' k))
    → (id : ℕ) (later : List ℕ) (last : ℕ) → Linked pages count id later last
    → Linked pages' count id later last × (rids pages' id later ≡ rids pages id later)
Linked-SameShape pages pages' count same id [] last (e, v, nx, b) =
    let s = same id in ((e, s.valid v, s.link ∙ nx, b), ap (slots id 0) s.num)
Linked-SameShape pages pages' count same id (j ∷ later) last (v, nx, p, q, b, l) =
    let s = same id in
    let s' = same j in
    let (l', r) = Linked-SameShape pages pages' count same j later last l in
    ((s.valid v, s.link ∙ nx, rw s.num p, rw s'.num q, b, l'), ap₂ ◌++◌ (ap (slots id 0) s.num) r)

pub mark-SameShape :
    {p q : TablePage} (meta : TupleMeta) (rid : Rid)
    → TablePage.update_tuple_meta p meta rid ≡ ok q
    → SameShape p q
unfolding TablePage.update_tuple_meta
mark-SameShape {p} {q} meta rid e = record {
  valid = mark-IsValid meta rid e;
  num = ground arith;
  link = ground arith;
}

pub overwrite-SameShape :
    {p q : TablePage} (meta : TupleMeta) (t : Tuple) (rid : Rid)
    → length t.bytes < 2 ^ 32
    → TablePage.update_tuple_in_place_unsafe p meta t rid ≡ ok q
    → SameShape p q
unfolding TablePage.update_tuple_in_place_unsafe
overwrite-SameShape {p} {q} meta t rid word e = record {
  valid = overwrite-IsValid meta t rid word e;
  num = ground arith;
  link = ground arith;
}

module _ {ℓ} {B : Type ℓ} ⦃pool : BufferPool B⦄ where
  -- One page written over by one of its shape.
  abbrev put_at : TableHeap B → ℕ → TablePage → TableHeap B
  put_at h i q = record h { bpm = pool.set_page h.bpm i q }

  put_at-SameShape :
      (h : TableHeap B) (i : ℕ) (q : TablePage)
      → SameShape (pool.page h.bpm i) q
      → (k : ℕ) → SameShape (pool.page h.bpm k) (pool.page (put_at h i q).bpm k)
  put_at-SameShape h i q s k = elim (eq_cases i k) [
    | inl e ↦
        let there : pool.page (put_at h i q).bpm k ≡ q =
          pool.page-set_page h.bpm i q k ∙ ground arith in
        rw there (subst (λ k. SameShape (pool.page h.bpm k) q) e s)
    | inr ne ↦
        let kept : pool.page (put_at h i q).bpm k ≡ pool.page h.bpm k =
          pool.page-set_page h.bpm i q k ∙ ground arith in
        rw kept (same_page (pool.page h.bpm k))
  ]

  pub put_at-IsHeap :
      (h : TableHeap B) (later : List ℕ) (i : ℕ) (q : TablePage)
      → SameShape (pool.page h.bpm i) q
      → IsHeap h later
      → IsHeap (put_at h i q) later × (contents (put_at h i q) later ≡ contents h later)
  put_at-IsHeap h later i q s valid = rw (pool.counter-set_page h.bpm i q) (
      Linked-SameShape (pool.page h.bpm) (pool.page (put_at h i q).bpm) _ (put_at-SameShape h i q s)
        h.first_page_id later h.last_page_id valid)

  -- The page that an update writes over.
  pub update_tuple_meta-page :
      (h h' : TableHeap B) (meta : TupleMeta) (rid : Rid)
      → update_tuple_meta h meta rid ≡ ok h'
      → (q : TablePage) × SameShape (pool.page h.bpm rid.page_id) q × (put_at h rid.page_id q ≡ h')
  unfolding update_tuple_meta
  update_tuple_meta-page h h' meta rid e =
      let (q, run, made) =
        bind-ok (TablePage.update_tuple_meta (pool.page h.bpm rid.page_id) meta rid) _ e in
      (q, mark-SameShape meta rid run, ok_unique _ refl made)

  pub update_tuple_in_place-page :
      (h h' : TableHeap B) (meta : TupleMeta) (t : Tuple) (rid : Rid)
      (check : Option (TupleMeta → Tuple → Rid → Bool)) (done : Bool)
      → length t.bytes < 2 ^ 32
      → update_tuple_in_place h meta t rid check ≡ ok (done, h')
      → (h ≡ h')
        ⊎ ((q : TablePage) × SameShape (pool.page h.bpm rid.page_id) q
            × (put_at h rid.page_id q ≡ h'))
  unfolding update_tuple_in_place
  update_tuple_in_place-page h h' meta t rid check done word e =
      let p = pool.page h.bpm rid.page_id in
      let ((old_meta, old), _, e') = bind-ok (TablePage.get_tuple p rid) _ e in
      elim (Bool-cases (checks check old_meta old rid)) [
        | inl holds ↦
            let (q, run, made) =
              bind-ok (TablePage.update_tuple_in_place_unsafe p meta t rid) _ (rw holds at e') in
            inr (
              q,
              overwrite-SameShape meta t rid word run,
              ap (λ (r : Bool × TableHeap B). r.1) (ok_unique _ refl made),
            )
        | inr fails ↦ inl (ap (λ (r : Bool × TableHeap B). r.1) (ok_unique _ refl (rw fails at e')))
      ]
