-- ===== src/TablePage/History.antt =====
-- A page under any sequence of operations.
use learning_journey.Base.{
  ℕ, ◌≤◌, ◌<◌, ◌^◌, ◌+◌, ◌*◌, ◌≡◌, ◌≢◌, [], ok, arith, length, ok_unique, throw-ne-ok, ◌⊎◌,
}
use native.Mathlib.Decide.{dec_le, dec_lt, ℕ_discrete}
use mathlib.Core.Path.{subst}
use learning_journey.TablePage.{
  TablePage, TupleMeta, Tuple, Rid, slot_end_offset, insert_tuple, update_tuple_meta, init,
  page_size, header_size, tuple_info_size, update_tuple_in_place_unsafe,
}
use learning_journey.TablePage.Shape.{IsValid, init-IsValid, apart, inside, above}
use learning_journey.TablePage.Insert.{insert_tuple_lem, entries_end}
use learning_journey.TablePage.Access.{
  out_of_range, update_tuple_meta_lem, update_tuple_in_place_lem,
}

-- One call on a page: what the caller asked for, the page before and the page after.
pub data Step : TablePage → TablePage → Type 0 where
  insert :
      {p : TablePage} (meta : TupleMeta) (t : Tuple)
      → length t.bytes ≤ slot_end_offset p
      → Step p (insert_tuple p meta t).1
  mark :
      {p q : TablePage} (meta : TupleMeta) (rid : Rid)
      → update_tuple_meta p meta rid ≡ ok q
      → Step p q
  overwrite :
      {p q : TablePage} (meta : TupleMeta) (t : Tuple) (rid : Rid)
      → length t.bytes < 2 ^ 32
      → update_tuple_in_place_unsafe p meta t rid ≡ ok q
      → Step p q

pub data Reach (p : TablePage) : TablePage → Type 0 where
  here : Reach p p
  next : {q r : TablePage} → Reach p q → Step q r → Reach p r

insert-IsValid :
    {p : TablePage} (meta : TupleMeta) (t : Tuple)
    → length t.bytes ≤ slot_end_offset p
    → IsValid p
    → IsValid (insert_tuple p meta t).1
insert-IsValid {p} meta t fits v =
    let (full, roomy) = insert_tuple_lem v meta t fits in
    elim (dec_le (entries_end p + length t.bytes) (slot_end_offset p)) [
      | yes h ↦ let (q, run, valid, _, _, _) = roomy h in rw run valid
      | no h ↦ rw (full (omega arith)) v
    ]

pub mark-IsValid :
    {p q : TablePage} (meta : TupleMeta) (rid : Rid)
    → update_tuple_meta p meta rid ≡ ok q
    → IsValid p
    → IsValid q
mark-IsValid {p} meta rid run v = elim (dec_lt rid.slot_num p.num_tuples) [
  | no h ↦
      let (_, _, refused, _) =
        out_of_range p meta (record { rid = rid; bytes = [] }) rid (omega arith) in
      absurd (throw-ne-ok _ refused run)
  | yes h ↦
      let (r, run', post) = update_tuple_meta_lem v meta rid h in
      subst IsValid (ok_unique _ run' run) post.0
]

pub overwrite-IsValid :
    {p q : TablePage} (meta : TupleMeta) (t : Tuple) (rid : Rid)
    → length t.bytes < 2 ^ 32
    → update_tuple_in_place_unsafe p meta t rid ≡ ok q
    → IsValid p
    → IsValid q
overwrite-IsValid {p} meta t rid word run v = elim (dec_lt rid.slot_num p.num_tuples) [
  | no h ↦
      let (_, _, _, refused) = out_of_range p meta t rid (omega arith) in
      absurd (throw-ne-ok _ refused run)
  | yes h ↦
      let (other, same) = update_tuple_in_place_lem v meta rid h t word in
      elim (ℕ_discrete (p.tuple_info rid.slot_num).size (length t.bytes)) [
        | no ne ↦ absurd (throw-ne-ok _ (other ne) run)
        | yes e ↦ let (r, run', post) = same e in subst IsValid (ok_unique _ run' run) post.0
      ]
]

Reach-IsValid : {p q : TablePage} → IsValid p → Reach p q → IsValid q
Reach-IsValid v here = v
Reach-IsValid v (next r (insert meta t fits)) = insert-IsValid meta t fits (Reach-IsValid v r)
Reach-IsValid v (next r (mark meta rid run)) = mark-IsValid meta rid run (Reach-IsValid v r)
Reach-IsValid v (next r (overwrite meta t rid word run)) =
    overwrite-IsValid meta t rid word run (Reach-IsValid v r)

-- After any calls on a page that was initialised, none of which inserts a tuple longer than what
-- lies below the last one: every tuple lies in the page above the entries, and no two share a byte.
pub Reach-disjoint :
    (p : TablePage) {q : TablePage}
    → Reach (init p) q
    → (i j : ℕ) → i < q.num_tuples
    → j < q.num_tuples
    → i ≢ j
    → (header_size + tuple_info_size * q.num_tuples ≤ (q.tuple_info i).offset)
      × ((q.tuple_info i).offset + (q.tuple_info i).size ≤ page_size)
      × (((q.tuple_info i).offset + (q.tuple_info i).size ≤ (q.tuple_info j).offset)
          ⊎ ((q.tuple_info j).offset + (q.tuple_info j).size ≤ (q.tuple_info i).offset))
Reach-disjoint p r i j hi hj ne =
    let v = Reach-IsValid (init-IsValid p) r in (above v i hi, inside v i hi, apart v i j hi hj ne)
