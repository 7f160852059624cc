-- ===== src/Tests/Heaps.antt =====
-- A table of two tuples of three bytes in one page, over a pool of pages in a function.
use learning_journey.Base.{
  ℕ, ◌+◌, ◌≡◌, ◌<◌, inl, some, length, refl, false, [], ◌∷◌, none, ok, throw, terminated, arith,
  replicate, length-replicate,
}
use learning_journey.TablePage
use learning_journey.TablePage.{
  TablePage, TupleMeta, Tuple, Rid, init, slot_end_offset, invalid_page_id, page_size, header_size,
  tuple_info_size, get_next_tuple_offset,
}
use learning_journey.TablePage.Memory.{update, write_bytes, read_bytes}
use learning_journey.TablePage.Shape.{init-IsValid}
use learning_journey.TableHeap.{
  TableHeap, rid_at, new_table_heap, find_room, insert_in_last, insert_tuple, get_tuple, populate,
  make_iterator, new_iterator, next,
}
use learning_journey.TableHeap.Pool.{BufferPool}
use learning_journey.TableHeap.Room.{last_page, find_room_lem}
use learning_journey.TableHeap.Place.{put}
use learning_journey.TableHeap.Chain.{IsHeap}
use learning_journey.TableHeap.Insert.{Added, insert_tuple-Added}
use learning_journey.TableHeap.Scan.{IndexesAll, populate-IndexesAll}
use learning_journey.TableHeap.History.{Reach, start, insert, populate-Reach}
use learning_journey.TableHeap.Refuse.{insert_tuple_refused, find_room_too_long}

record Store : Type 0 where
  pub pages : ℕ → TablePage
  pub counter : ℕ

instance store_pool : BufferPool Store
store_pool = record {
  page = λ s. s.pages;
  set_page = λ s i p. record s { pages = update s.pages i p };
  counter = λ s. s.counter;
  new_page = λ s. (s.counter, record s { counter = s.counter + 1 });
  lawful = record {
    page-set_page = λ s i p j. refl;
    counter-set_page = λ s i p. refl;
    page-new_page = λ s j. refl;
    new_page_id = λ s. refl;
    counter-new_page = λ s. refl;
  };
}

abbrev live : TupleMeta
live = record { ts = 0; is_deleted = false }

abbrev abc : Tuple
abc = record { rid = rid_at 0 0; bytes = 97 ∷ 98 ∷ 99 ∷ [] }

abbrev long : ℕ → Tuple
long n = record { rid = rid_at 0 0; bytes = replicate n 7 }

abbrev blank : TablePage
blank = record {
  next_page_id = 0;
  num_tuples = 7;
  num_deleted_tuples = 7;
  tuple_info = λ _. record { offset = 0; size = 0; meta = live };
  bytes = λ _. 0;
}

abbrev store : Store
store = record { pages = λ _. blank; counter = 4 }

abbrev table : TableHeap Store
table = new_table_heap store

table-IsHeap : IsHeap table []
unfolding new_table_heap init store_pool
table-IsHeap = (refl, init-IsValid blank, refl, omega arith)

-- The table with the first tuple in it.
abbrev filled : TableHeap Store
filled = put table (TablePage.insert_tuple (last_page table) live abc).1

filled_run : insert_tuple 2 table none live abc ≡ ok (rid_at 4 0, filled)
unfolding new_table_heap init store_pool insert_tuple find_room insert_in_last
    TablePage.insert_tuple get_next_tuple_offset
filled_run = refl

filled-Reach : Reach store filled (rid_at 4 0 ∷ [])
unfolding new_table_heap init store_pool
filled-Reach =
    insert 0 none live abc (rid_at 4 0) (λ r. refl) (omega arith) (omega arith) filled_run start

scan_run :
    populate 2 filled (make_iterator filled) (λ t all. t.bytes ∷ all) []
    ≡ ok ((97 ∷ 98 ∷ 99 ∷ []) ∷ [])
unfolding new_table_heap init store_pool insert_tuple TablePage.insert_tuple get_next_tuple_offset
    populate make_iterator new_iterator next get_tuple TablePage.get_tuple write_bytes read_bytes
scan_run = refl

populate-Reach_example : IndexesAll filled (rid_at 4 0 ∷ []) (λ t all. t.bytes ∷ all) 0 []
unfolding new_table_heap init store_pool
populate-Reach_example = populate-Reach (λ t all. t.bytes ∷ all) 0 [] filled-Reach (omega arith)

populate-IndexesAll_example : IndexesAll table [] (λ t all. t.bytes ∷ all) 0 []
unfolding new_table_heap init store_pool
populate-IndexesAll_example =
    populate-IndexesAll table [] (λ t all. t.bytes ∷ all) 0 [] table-IsHeap (omega arith)

insert_tuple-Added_example :
    (r : Rid) × (h' : TableHeap Store) × (insert_tuple 2 table none live abc ≡ ok (r, h'))
    × Added table [] live abc r h'
unfolding new_table_heap init store_pool
insert_tuple-Added_example =
    insert_tuple-Added table-IsHeap none (λ r. refl) live abc (omega arith) (omega arith) 0

find_room_lem_example : find_room 2 table (long 8165) ≡ throw terminated
unfolding new_table_heap init store_pool
find_room_lem_example =
    let size = length-replicate {A = ℕ} 8165 7 in
    (find_room_lem table (init-IsValid blank) (long 8165) (omega arith) 0).2 (omega arith)
      (inl refl)

insert_tuple_refused_example : insert_tuple 1 table none live (long 8165) ≡ throw terminated
unfolding new_table_heap init store_pool
insert_tuple_refused_example =
    let size = length-replicate {A = ℕ} 8165 7 in
    (insert_tuple_refused table (init-IsValid blank) live (long 8165) 0 none (omega arith)).0 refl
      (omega arith)

find_room_too_long_example :
    (offset : ℕ) × (TablePage.get_next_tuple_offset (last_page table) (long 9000) ≡ some offset)
    × (page_size < offset + length ((long 9000).bytes))
    × (find_room 1 table (long 9000) ≡ ok table)
unfolding new_table_heap init store_pool
find_room_too_long_example =
    let size = length-replicate {A = ℕ} 9000 7 in
    find_room_too_long table (init-IsValid blank) live (long 9000) 0 (omega arith) (omega arith)
