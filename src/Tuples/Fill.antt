-- ===== src/Tuples/Fill.antt =====
-- The loops of the constructor write every value where it is read again.
use learning_journey.Base.{
  ℕ, zero, suc, ◌+◌, ◌^◌, ◌<◌, ◌≤◌, ◌≡◌, ◌⊎◌, refl, ◌∙◌, ap, inl, inr, true, false, List, [], ◌∷◌,
  some, ok, ◌>>=◌, Returns, u32, arith, if◌then◌else◌, length, get_elem?, Bool-cases,
  some_injective,
}
use mathlib.Core.Path.{subst}
use learning_journey.Types.{Value, Library}
use learning_journey.Types.Family.{low_bytes}
use learning_journey.TablePage.Memory.{
  write_bytes, read_bytes, read_bytes-write_bytes, read_bytes-write_bytes_apart,
}
use learning_journey.Schema.{Column, is_inlined, inlined_size}
use learning_journey.Schema.Layout.{total, placed}
use learning_journey.Tuples.{Tuple, payload, store_at, serialize_to, fill, value_at}
use learning_journey.Tuples.Cells.{Cell}
use learning_journey.Tuples.Places.{store_at-eq, read_inlined, read_apart, placed_Cell}

-- What is not in the inlined part from here on, nor from the offset on.
abbrev Untouched : ℕ → ℕ → ℕ → ℕ → ℕ → Type 0
Untouched o f offset q n = (q + n ≤ o) ⊎ (f ≤ q) × (q + n ≤ offset)

-- Reads of those bytes are the same in two tuples.
abbrev pub Agree : ℕ → ℕ → ℕ → (ℕ → ℕ) → (ℕ → ℕ) → Type 0
Agree o f offset m m' = (q n : ℕ) → Untouched o f offset q n → read_bytes m' q n ≡ read_bytes m q n

module _ {D : Type 0} (lib : Library D) where
  -- How many bytes the values of the columns take that are not inlined.
  abbrev pub apart_total : List Column → List (Value D) → ℕ
  apart_total [] values = 0
  apart_total (c ∷ columns) [] = 0
  apart_total (c ∷ columns) (v ∷ values) =
      (if is_inlined c then 0 else 4 + payload v) + apart_total columns values

  abbrev pub AllCells : List Column → List (Value D) → Type 0
  AllCells [] [] = Unit
  AllCells (c ∷ columns) (v ∷ values) = Cell lib c v × AllCells columns values
  AllCells _ _ = ⊥

  round_inlined :
      (c : Column) (columns : List Column) (v : Value D) (values : List (Value D)) (offset : ℕ)
      (t t1 : Tuple) (storage : List ℕ)
      → is_inlined c ≡ true
      → serialize_to lib v ≡ ok storage
      → store_at t c.column_offset storage ≡ ok t1
      → fill lib (c ∷ columns) (v ∷ values) offset t ≡ fill lib columns values offset t1
  unfolding fill
  round_inlined c columns v values offset t t1 storage here written stored =
      rw (here, written, stored, fill, ◌>>=◌) refl

  round_apart :
      (c : Column) (columns : List Column) (v : Value D) (values : List (Value D)) (offset : ℕ)
      (t t1 t2 : Tuple) (storage : List ℕ)
      → is_inlined c ≡ false
      → store_at t c.column_offset (low_bytes 4 offset) ≡ ok t1
      → serialize_to lib v ≡ ok storage
      → store_at t1 offset storage ≡ ok t2
      → fill lib (c ∷ columns) (v ∷ values) offset t
        ≡ fill lib columns values (u32 (offset + (4 + payload v))) t2
  unfolding fill
  round_apart c columns v values offset t t1 t2 storage not_here ptr written stored =
      rw (not_here, ptr, written, stored, fill, ◌>>=◌) refl

  pub record Filled (columns : List Column) (values : List (Value D)) (o f offset : ℕ)
      (t t' : Tuple) : Type 0 where
    pub agree : Agree o f offset t.bytes t'.bytes
    pub reads :
        (i : ℕ) (c : Column) (v : Value D)
        → get_elem? (placed o columns) i ≡ some c
        → get_elem? values i ≡ some v
        → value_at lib t' c ≡ ok v

  abbrev Fills : List Column → List (Value D) → Type 0
  Fills columns values =
      (o f offset : ℕ) (t : Tuple)
      → f ≡ o + total columns
      → f ≤ offset
      → offset + apart_total columns values ≤ t.size
      → t.size < 2 ^ 31
      → Returns (fill lib (placed o columns) values offset t) (Filled columns values o f offset t)

  reads_with :
      (columns : List Column) (values : List (Value D)) (c : Column) (v : Value D) (t' : Tuple)
      (o : ℕ)
      → value_at lib t' (record c { column_offset = o }) ≡ ok v
      → ((i : ℕ) (d : Column) (w : Value D)
          → get_elem? (placed (o + inlined_size c) columns) i ≡ some d
          → get_elem? values i ≡ some w
          → value_at lib t' d ≡ ok w)
      → (i : ℕ) (d : Column) (w : Value D) → get_elem? (placed o (c ∷ columns)) i ≡ some d
      → get_elem? (v ∷ values) i ≡ some w
      → value_at lib t' d ≡ ok w
  reads_with columns values c v t' o head tail zero d w e g =
      subst (λ d. value_at lib t' d ≡ ok w) (some_injective e)
        (subst (λ w. value_at lib t' (record c { column_offset = o }) ≡ ok w) (some_injective g)
          head)
  reads_with columns values c v t' o head tail (suc i) d w e g = tail i d w e g

  fill_inlined :
      (c : Column) (columns : List Column) (v : Value D) (values : List (Value D))
      → Cell lib c v
      → is_inlined c ≡ true
      → Fills columns values
      → Fills (c ∷ columns) (v ∷ values)
  fill_inlined c columns v values cell here rest o f offset t whole above inside small =
      let storage = cell.bytes.storage in
      let len = cell.inlined here in
      let t1 : Tuple = record t { bytes = write_bytes t.bytes o storage } in
      let none_apart : apart_total (c ∷ columns) (v ∷ values) ≡ apart_total columns values =
        ap (λ b. (if b then 0 else 4 + payload v) + apart_total columns values) here
        ∙ omega arith in
      let (t', run, filled) =
        rest (o + inlined_size c) f offset t1 (omega arith) above (omega (arith, none_apart))
          small in
      (
        t',
        round_inlined (record c { column_offset = o }) _ v values offset t t1 storage here
              cell.bytes.written (store_at-eq t o storage (omega (arith, len)))
            ∙ run,
        record {
          agree = λ q n h.
              filled.agree q n (elim h [ inl below ↦ inl (omega arith) | inr past ↦ inr past ])
              ∙ read_bytes-write_bytes_apart t.bytes o storage q n
                  (elim h [ inl below ↦ inl below | inr (past, _) ↦ inr (omega (arith, len)) ]);
          reads =
              reads_with columns values c v t' o
                (read_inlined lib t' (record c { column_offset = o }) v (placed_Cell lib c v o cell)
                  here
                  (filled.agree o (length storage) (inl (omega (arith, len)))
                    ∙ read_bytes-write_bytes t.bytes o storage))
                filled.reads;
        },
      )

  fill_apart :
      (c : Column) (columns : List Column) (v : Value D) (values : List (Value D))
      → Cell lib c v
      → is_inlined c ≡ false
      → Fills columns values
      → Fills (c ∷ columns) (v ∷ values)
  unfolding low_bytes
  fill_apart c columns v values cell not_here rest o f offset t whole above inside small =
      let storage = cell.bytes.storage in
      let len = cell.apart not_here in
      let four : inlined_size c ≡ 4 = ap (λ b. if b then c.storage_size else 4) not_here in
      let ptr = low_bytes 4 offset in
      let t1 : Tuple = record t { bytes = write_bytes t.bytes o ptr } in
      let t2 : Tuple = record t { bytes = write_bytes t1.bytes offset storage } in
      let some_apart : apart_total (c ∷ columns) (v ∷ values)
          ≡ 4 + payload v + apart_total columns values =
        ap (λ b. (if b then 0 else 4 + payload v) + apart_total columns values) not_here in
      let word : u32 (offset + (4 + payload v)) ≡ offset + length storage =
        omega (arith, len, some_apart) in
      let (t', run, filled) =
        rest (o + inlined_size c) f (offset + length storage) t2 (omega arith) (omega arith)
          (omega (arith, len, some_apart)) small in
      (
        t',
        round_apart (record c { column_offset = o }) _ v values offset t t1 t2 storage not_here
              (store_at-eq t o ptr (omega (arith, four))) cell.bytes.written
              (store_at-eq t1 offset storage (omega (arith, len, some_apart)))
            ∙ ap (λ k. fill lib (placed (o + inlined_size c) columns) values k t2) word
            ∙ run,
        record {
          agree = λ q n h.
              filled.agree q n (elim h [
                | inl below ↦ inl (omega arith)
                | inr (past, below) ↦ inr (past, omega arith)
              ])
              ∙ read_bytes-write_bytes_apart t1.bytes offset storage q n
                  (elim h [ inl below ↦ inl (omega arith) | inr (_, below) ↦ inl below ])
              ∙ read_bytes-write_bytes_apart t.bytes o ptr q n
                  (elim h [ inl below ↦ inl below | inr (past, _) ↦ inr (omega (arith, four)) ]);
          reads =
              reads_with columns values c v t' o
                (read_apart lib t' (record c { column_offset = o }) v (placed_Cell lib c v o cell)
                  offset not_here (omega (arith, some_apart))
                  (filled.agree o 4 (inl (omega (arith, four)))
                    ∙ read_bytes-write_bytes_apart t1.bytes offset storage o 4
                        (inl (omega (arith, four)))
                    ∙ read_bytes-write_bytes t.bytes o ptr)
                  (filled.agree offset (length storage) (inr (above, omega arith))
                    ∙ read_bytes-write_bytes t1.bytes offset storage))
                filled.reads;
        },
      )

  fill_none : Fills [] []
  unfolding fill
  fill_none o f offset t whole above inside small =
      (t, refl, record { agree = λ q n h. refl; reads = λ i c v e g. absurd (ground arith) })

  pub fill-Filled :
      (columns : List Column) (values : List (Value D))
      → AllCells columns values
      → Fills columns values
  fill-Filled [] [] cells = fill_none
  fill-Filled [] (v ∷ values) cells = absurd cells
  fill-Filled (c ∷ columns) [] cells = absurd cells
  fill-Filled (c ∷ columns) (v ∷ values) (cell, cells) = elim (Bool-cases (is_inlined c)) [
    | inl here ↦ fill_inlined c columns v values cell here (fill-Filled columns values cells)
    | inr not_here ↦ fill_apart c columns v values cell not_here (fill-Filled columns values cells)
  ]
