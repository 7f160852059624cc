-- ===== src/Tuples/Stored.antt =====
-- What the constructor of a tuple makes of values is read again by `GetValue`.
use learning_journey.Base.{
  ℕ, zero, suc, ◌+◌, ◌%◌, ◌^◌, ◌<◌, ◌≡◌, refl, sym, ◌∙◌, ap, ap₂, inl, inr, Bool, true, false, not,
  List, [], ◌∷◌, ◌++◌, some, ok, assertion_failed, ◌>>=◌, ◌>>◌, throw_if, Returns, u32, ◌==◌, arith,
  if◌then◌else◌, length, get_elem?, Bool-cases, bind_then, append_assoc, append_nil,
  get_elem?-append, length-append,
}
use learning_journey.Types.{Value, Library}
use learning_journey.Schema.{Column, Schema, is_inlined, inlined_size, add_columns, new_schema}
use learning_journey.Schema.Layout.{total, placed, add_columns-placed, placed-keeps}
use learning_journey.Tuples.{Tuple, payload, tuple_size, fill, new_tuple, get_value, value_at}
use learning_journey.Tuples.Cells.{Fits, fits-Cell}
use learning_journey.Tuples.Fill.{apart_total, AllCells, fill-Filled}

-- The indices of the columns that are not inlined.
abbrev apart_from : ℕ → List Column → List ℕ
apart_from index [] = []
apart_from index (c ∷ columns) =
    if is_inlined c then apart_from (index + 1) columns else index ∷ apart_from (index + 1) columns

abbrev record_apart : Bool → List ℕ → ℕ → List ℕ
record_apart b indices index = if b then indices else indices ++ (index ∷ [])

record_apart-append :
    (b : Bool) (indices : List ℕ) (index : ℕ) (rest : List ℕ)
    → record_apart b indices index ++ rest ≡ indices ++ (if b then rest else index ∷ rest)
record_apart-append true indices index rest = refl
record_apart-append false indices index rest = append_assoc indices (index ∷ []) rest

add_columns-apart :
    (columns : List Column) (index offset : ℕ) (s : Schema)
    → index + length columns < 2 ^ 32
    → (add_columns columns index offset s).uninlined_columns
      ≡ s.uninlined_columns ++ apart_from index columns
unfolding add_columns
add_columns-apart [] index offset s few = sym (append_nil s.uninlined_columns)
add_columns-apart (c ∷ columns) index offset s few =
    let word : (index + 1) % 2 ^ 32 ≡ index + 1 = omega arith in
    let rest = add_columns-apart columns ((index + 1) % 2 ^ 32) _ _ (omega arith) in
    rest
    ∙ ap (λ k. (record_apart (is_inlined c) s.uninlined_columns index) ++ apart_from k columns) word
    ∙ record_apart-append (is_inlined c) s.uninlined_columns index (apart_from (index + 1) columns)

length-placed :
    (offset : ℕ) (columns : List Column) → length (placed offset columns) ≡ length columns
length-placed offset [] = refl
length-placed offset (c ∷ columns) = ap suc (length-placed (offset + inlined_size c) columns)

-- The schema that is made of some columns.
record Laid (columns : List Column) (s : Schema) : Type 0 where
  pub all : s.columns ≡ placed 0 columns
  pub size : s.inlined_storage_size ≡ total columns
  pub apart : s.uninlined_columns ≡ apart_from 0 columns

new_schema-Laid :
    (columns : List Column)
    → total columns < 2 ^ 32
    → length columns < 2 ^ 32
    → Laid columns (new_schema columns)
unfolding new_schema
new_schema-Laid columns small few =
    let (all, size) = add_columns-placed columns 0 0 _ (omega arith) in
    record {
      all = all;
      size = size ∙ omega arith;
      apart = add_columns-apart columns 0 0 _ (omega arith);
    }

module _ {D : Type 0} (lib : Library D) where
  abbrev pub AllFit : List Column → List (Value D) → Type 0
  AllFit [] [] = Unit
  AllFit (c ∷ columns) (v ∷ values) = Fits lib c v × AllFit columns values
  AllFit _ _ = ⊥

  fit-AllCells :
      (columns : List Column) (values : List (Value D))
      → AllFit columns values
      → AllCells lib columns values
  fit-AllCells [] [] fit = tt
  fit-AllCells [] (v ∷ values) fit = fit
  fit-AllCells (c ∷ columns) [] fit = fit
  fit-AllCells (c ∷ columns) (v ∷ values) (fits, fit) =
      (fits-Cell lib c v fits, fit-AllCells columns values fit)

  fit_length :
      (columns : List Column) (values : List (Value D))
      → AllFit columns values
      → length values ≡ length columns
  fit_length [] [] fit = refl
  fit_length [] (v ∷ values) fit = absurd fit
  fit_length (c ∷ columns) [] fit = absurd fit
  fit_length (c ∷ columns) (v ∷ values) (_, fit) = ap suc (fit_length columns values fit)

  column_of :
      (columns : List Column) (values : List (Value D)) (i : ℕ) (v : Value D)
      → AllFit columns values
      → get_elem? values i ≡ some v
      → (c : Column) × (get_elem? columns i ≡ some c)
  column_of [] [] i v fit e = absurd (cc)
  column_of [] (w ∷ values) i v fit e = absurd fit
  column_of (c ∷ columns) [] i v fit e = absurd fit
  column_of (c ∷ columns) (w ∷ values) zero v fit e = (c, refl)
  column_of (c ∷ columns) (w ∷ values) (suc i) v (_, fit) e = column_of columns values i v fit e

  size_step :
      (i : ℕ) (later : List ℕ) (all : List (Value D)) (v : Value D) (size : ℕ)
      → get_elem? all i ≡ some v
      → tuple_size lib (i ∷ later) all size
        ≡ tuple_size lib later all (u32 (size + (4 + payload v)))
  unfolding tuple_size
  size_step i later all v size e = rw (e, tuple_size) refl

  got :
      (t : Tuple) (s : Schema) (i : ℕ) (v : Value D) (c : Column)
      → get_elem? s.columns i ≡ some c
      → value_at lib t c ≡ ok v
      → get_value lib t s i ≡ ok v
  unfolding get_value
  got t s i v c at read = rw (at, get_value) read

  made :
      (s : Schema) (values : List (Value D)) (columns : List Column) (apart : List ℕ) (f size : ℕ)
      (t : Tuple)
      → length values ≡ length columns
      → s.columns ≡ columns
      → s.inlined_storage_size ≡ f
      → s.uninlined_columns ≡ apart
      → tuple_size lib apart values f ≡ ok size
      → fill lib columns values f (record { size = size; bytes = λ _. 0 }) ≡ ok t
      → new_tuple lib values s ≡ ok t
  unfolding new_tuple
  made s values columns apart f size t len e_columns e_size e_apart sized run =
      let same : (length values == length s.columns) ≡ true =
        ground (arith, len, ap length e_columns) in
      ap
        (λ b.
          throw_if (not b) assertion_failed
          >> (tuple_size lib s.uninlined_columns values s.inlined_storage_size >>= λ size.
              fill lib s.columns values s.inlined_storage_size
                (record { size = size; bytes = λ _. 0 })))
        same
      ∙ bind_then (tuple_size lib s.uninlined_columns values s.inlined_storage_size) _
          (ap₂ (λ is n. tuple_size lib is values n) e_apart e_size ∙ sized)
          (ap₂ (λ cs n. fill lib cs values n (record { size = size; bytes = λ _. 0 })) e_columns
              e_size
            ∙ run)

  tuple_size-eq :
      (columns : List Column) (done values : List (Value D)) (index size : ℕ)
      → index ≡ length done
      → AllFit columns values
      → size + apart_total lib columns values < 2 ^ 32
      → tuple_size lib (apart_from index columns) (done ++ values) size
        ≡ ok (size + apart_total lib columns values)
  unfolding tuple_size
  tuple_size-eq [] done values index size at fit small = ap ok (omega arith)
  tuple_size-eq (c ∷ columns) done [] index size at fit small = absurd fit
  tuple_size-eq (c ∷ columns) done (v ∷ values) index size at (_, fit) small =
      let all = done ++ (v ∷ values) in
      let later = apart_from (index + 1) columns in
      let moved : (done ++ (v ∷ [])) ++ values ≡ all = append_assoc done (v ∷ []) values in
      let next : index + 1 ≡ length (done ++ (v ∷ [])) =
        omega (arith, length-append done (v ∷ []), at) in
      let counts = λ (b : Bool) (e : is_inlined c ≡ b).
        ap (λ b. (if b then 0 else 4 + payload v) + apart_total lib columns values) e in
      elim (Bool-cases (is_inlined c)) [
        | inl here ↦
            ap (λ b. tuple_size lib (if b then later else index ∷ later) all size) here
            ∙ ap (λ l. tuple_size lib later l size) (sym moved)
            ∙ tuple_size-eq columns (done ++ (v ∷ [])) values (index + 1) size next fit
                (omega (arith, counts true here))
            ∙ ap ok (omega (arith, counts true here))
        | inr not_here ↦
            ap (λ b. tuple_size lib (if b then later else index ∷ later) all size) not_here
            ∙ size_step index later all v size
                (ap (get_elem? all) at ∙ get_elem?-append done v values)
            ∙ ap (λ n. tuple_size lib later all n) {y = size + (4 + payload v)}
                (omega (arith, counts false not_here))
            ∙ ap (λ l. tuple_size lib later l (size + (4 + payload v))) (sym moved)
            ∙ tuple_size-eq columns (done ++ (v ∷ [])) values (index + 1) (size + (4 + payload v))
                next fit (omega (arith, counts false not_here))
            ∙ ap ok (omega (arith, counts false not_here))
      ]

  -- If the values fit their columns, and the columns with what lies apart from them take less than
  -- 2 ^ 31 bytes, the constructor makes a tuple from which `GetValue` reads every value again.
  pub get_value-new_tuple :
      (columns : List Column) (values : List (Value D))
      → AllFit columns values
      → total columns + apart_total lib columns values < 2 ^ 31
      → length columns < 2 ^ 32
      → Returns (new_tuple lib values (new_schema columns)) (λ t.
        (i : ℕ) (v : Value D)
        → get_elem? values i ≡ some v
        → get_value lib t (new_schema columns) i ≡ ok v)
  get_value-new_tuple columns values fit small few =
      let laid = new_schema-Laid columns (omega arith) few in
      let space : ℕ = total columns + apart_total lib columns values in
      let sized = tuple_size-eq columns [] values 0 (total columns) refl fit (omega arith) in
      let (t, run, filled) =
        fill-Filled lib columns values (fit-AllCells columns values fit) 0 (total columns)
          (total columns) (record { size = space; bytes = λ _. 0 }) (omega arith) (omega arith)
          (omega arith) small in
      (
        t,
        made (new_schema columns) values (placed 0 columns) (apart_from 0 columns) (total columns)
            space t (fit_length columns values fit ∙ sym (length-placed 0 columns)) laid.all
            laid.size laid.apart sized run,
        λ i v e.
            let (c, at) = column_of columns values i v fit e in
            let (o, placed_at) = placed-keeps 0 columns i c at in
            got t (new_schema columns) i v (record c { column_offset = o })
              (ap (λ l. get_elem? l i) laid.all ∙ placed_at) (filled.reads i _ v placed_at e),
      )
