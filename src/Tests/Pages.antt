-- ===== src/Tests/Pages.antt =====
-- A page with one tuple of three bytes.
use learning_journey.Base.{
  ◌+◌, ◌*◌, ◌≤◌, ◌<◌, ◌≡◌, ◌≢◌, ◌⊎◌, refl, true, false, [], ◌∷◌, some, Returns, ok, throw, failure,
  arith, replicate,
}
use learning_journey.TablePage.{
  TablePage, TupleMeta, Tuple, Rid, init, insert_tuple, get_tuple, update_tuple_in_place_unsafe,
  header_size, tuple_info_size, page_size, get_next_tuple_offset,
}
use learning_journey.TablePage.Memory.{write_bytes, read_bytes}
use learning_journey.TablePage.Shape.{IsValid, init-IsValid}
use learning_journey.TablePage.Insert.{insert_tuple_lem, at_slot}
use learning_journey.TablePage.Access.{update_tuple_in_place_lem}
use learning_journey.TablePage.History.{Reach, here, next, insert, Reach-disjoint}

abbrev live : TupleMeta
live = record { ts = 0; is_deleted = false }

abbrev dead : TupleMeta
dead = record { ts = 1; is_deleted = true }

abbrev zeroth : Rid
zeroth = record { page_id = 5; slot_num = 0 }

abbrev abc : Tuple
abc = record { rid = zeroth; bytes = 97 ∷ 98 ∷ 99 ∷ [] }

abbrev blank : TablePage
blank = record {
  next_page_id = 0;
  num_tuples = 7;
  num_deleted_tuples = 7;
  tuple_info = λ _. record { offset = 0; size = 0; meta = live };
  bytes = λ _. 0;
}

abbrev one : TablePage
one = (insert_tuple (init blank) live abc).1

one_reads : get_tuple one zeroth ≡ ok (live, abc)
unfolding insert_tuple get_next_tuple_offset init get_tuple write_bytes read_bytes
one_reads = refl

one-IsValid : IsValid one
unfolding insert_tuple get_next_tuple_offset init
one-IsValid = record { stacked = λ i h. ground arith; room = omega arith }

insert_tuple_lem_example :
    (q : TablePage) × (insert_tuple (init blank) live abc ≡ (some 0, q))
    × IsValid q
    × (q.num_tuples ≡ 1)
    × (get_tuple q (at_slot (init blank) abc)
        ≡ ok (live, record { rid = at_slot (init blank) abc; bytes = abc.bytes }))
    × ((rid : Rid) → rid.slot_num < 0 → get_tuple q rid ≡ get_tuple (init blank) rid)
unfolding init
insert_tuple_lem_example =
    (insert_tuple_lem (init-IsValid blank) live abc (omega arith)).1 (omega arith)

abbrev long : Tuple
long = record { rid = zeroth; bytes = replicate 9000 0 }

abbrev xyz : Tuple
xyz = record { rid = zeroth; bytes = 120 ∷ 121 ∷ 122 ∷ [] }

update_tuple_in_place_lem_example :
    ((one.tuple_info 0).size ≢ 3 → update_tuple_in_place_unsafe one live xyz zeroth ≡ throw failure)
    × ((one.tuple_info 0).size ≡ 3
        → Returns (update_tuple_in_place_unsafe one live xyz zeroth) λ q.
          IsValid q
          × (q.num_tuples ≡ one.num_tuples)
          × (get_tuple q zeroth ≡ ok (live, xyz))
          × ((other : Rid)
              → other.slot_num < one.num_tuples
              → other.slot_num ≢ 0
              → get_tuple q other ≡ get_tuple one other))
unfolding insert_tuple get_next_tuple_offset init
update_tuple_in_place_lem_example =
    update_tuple_in_place_lem one-IsValid live zeroth (omega arith) xyz (omega arith)

abbrev two : TablePage
two = (insert_tuple one live xyz).1

two_reached : Reach (init blank) two
unfolding insert_tuple get_next_tuple_offset init
two_reached = next (next here (insert live abc (omega arith))) (insert live xyz (omega arith))

Reach-disjoint_example :
    (header_size + tuple_info_size * two.num_tuples ≤ (two.tuple_info 0).offset)
    × ((two.tuple_info 0).offset + (two.tuple_info 0).size ≤ page_size)
    × (((two.tuple_info 0).offset + (two.tuple_info 0).size ≤ (two.tuple_info 1).offset)
        ⊎ ((two.tuple_info 1).offset + (two.tuple_info 1).size ≤ (two.tuple_info 0).offset))
unfolding insert_tuple get_next_tuple_offset init
Reach-disjoint_example =
    Reach-disjoint blank two_reached 0 1 (omega arith) (omega arith) (omega arith)
