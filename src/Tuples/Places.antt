-- ===== src/Tuples/Places.antt =====
-- What is written for one column, and what is read from there.
use learning_journey.Base.{
  ℕ, ◌+◌, ◌^◌, ◌<◌, ◌≤◌, ◌≡◌, refl, ◌∙◌, ap, true, false, List, ok, undefined, ◌>>◌, throw_if, not,
  ltb, arith, if◌then◌else◌, length, bind_then,
}
use learning_journey.Types.{Value, Library}
use learning_journey.Types.Family.{low_bytes, from_bytes}
use learning_journey.Types.Casts.{bytes_back}
use learning_journey.TablePage.Memory.{write_bytes, read_bytes}
use learning_journey.Schema.{Column, is_inlined}
use learning_journey.Tuples.{Tuple, store_at, deserialize_from, get_data_ptr, value_at}
use learning_journey.Tuples.Cells.{Cell}

pub store_at-eq :
    (t : Tuple) (offset : ℕ) (storage : List ℕ)
    → offset + length storage ≤ t.size
    → store_at t offset storage ≡ ok (record t { bytes = write_bytes t.bytes offset storage })
unfolding store_at
store_at-eq t offset storage inside = ground arith

module _ {D : Type 0} (lib : Library D) where
  pub read_inlined :
      (t : Tuple) (c : Column) (v : Value D) (cell : Cell lib c v)
      → is_inlined c ≡ true
      → read_bytes t.bytes c.column_offset (length cell.bytes.storage) ≡ cell.bytes.storage
      → value_at lib t c ≡ ok v
  unfolding value_at get_data_ptr
  read_inlined t c v cell here e = bind_then (get_data_ptr t c) _ (rw (here, get_data_ptr) refl) (
      ap (deserialize_from lib t.bytes c.column_offset) cell.typed
      ∙ cell.bytes.read t.bytes c.column_offset e)

  apart_ptr :
      (t : Tuple) (c : Column) (offset : ℕ)
      → is_inlined c ≡ false
      → offset < 2 ^ 31
      → from_bytes (read_bytes t.bytes c.column_offset 4) ≡ offset
      → get_data_ptr t c ≡ ok offset
  unfolding get_data_ptr
  apart_ptr t c offset not_here small ptr =
      let in_word : ltb offset (2 ^ 31) ≡ true = ground arith in
      ap
        (λ b.
          if b
          then ok c.column_offset
          else (throw_if (not (ltb (from_bytes (read_bytes t.bytes c.column_offset 4)) (2 ^ 31)))
                undefined
              >> ok (from_bytes (read_bytes t.bytes c.column_offset 4))))
        not_here
      ∙ ap (λ n. throw_if (not (ltb n (2 ^ 31))) undefined >> ok n) ptr
      ∙ ap (λ b. throw_if (not b) undefined >> ok offset) in_word

  pub read_apart :
      (t : Tuple) (c : Column) (v : Value D) (cell : Cell lib c v) (offset : ℕ)
      → is_inlined c ≡ false
      → offset < 2 ^ 31
      → read_bytes t.bytes c.column_offset 4 ≡ low_bytes 4 offset
      → read_bytes t.bytes offset (length cell.bytes.storage) ≡ cell.bytes.storage
      → value_at lib t c ≡ ok v
  unfolding value_at get_data_ptr
  read_apart t c v cell offset not_here small ptr e =
      bind_then (get_data_ptr t c) _
        (apart_ptr t c offset not_here small
          (ap from_bytes ptr ∙ bytes_back 4 offset (omega arith)))
        (ap (deserialize_from lib t.bytes offset) cell.typed ∙ cell.bytes.read t.bytes offset e)

  -- A column keeps its bytes wherever it is placed.
  abbrev pub placed_Cell :
      (c : Column) (v : Value D) (o : ℕ)
      → Cell lib c v
      → Cell lib (record c { column_offset = o }) v
  placed_Cell c v o cell = record {
    type_id = cell.type_id;
    typed = cell.typed;
    bytes = cell.bytes;
    inlined = cell.inlined;
    apart = cell.apart;
  }
