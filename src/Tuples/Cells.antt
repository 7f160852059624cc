-- ===== src/Tuples/Cells.antt =====
-- A value that fits its column, and its bytes.
use learning_journey.Base.{
  ℕ, ◌+◌, ◌/◌, ◌<◌, ◌≡◌, ◌⊎◌, sym, ◌∙◌, ap, inl, inr, true, false, List, arith, if◌then◌else◌,
  length, ℤ,
}
use mathlib.Core.Path.{subst}
use learning_journey.Types.{
  TypeId, boolean, varchar, vector, Width, int8, int16, int32, int64, bits, Value, Library, store,
  blank, new_varchar,
}
use learning_journey.Types.Family.{type_of}
use learning_journey.Schema.{Column, is_inlined, inlined_size}
use learning_journey.Tuples.{value_null, payload}
use learning_journey.Tuples.Bytes.{
  Bytes, truth-Bytes, number-Bytes, null-Bytes, text-Bytes, payload-blank, payload-new_varchar,
}

-- The types that a tuple is modelled for.
pub data Kind : Type 0 where
  truth : Kind
  number : Width → Kind
  characters : Kind

abbrev pub type_id_of : Kind → TypeId
type_id_of truth = boolean
type_id_of (number w) = type_of w
type_id_of characters = varchar

module _ {D : Type 0} (lib : Library D) where
  -- A value as its constructor makes it, of the size of its column.
  abbrev pub MadeAs : Kind → Column → Value D → Type 0
  MadeAs truth c v = (c.storage_size ≡ 1) × (n : ℤ) × (store lib boolean int8 n ≡ v)
  MadeAs (number w) c v = (c.storage_size ≡ bits w / 8) × (n : ℤ) × (store lib (type_of w) w n ≡ v)
  MadeAs characters c v =
      (blank lib varchar ≡ v)
      ⊎ ((text : List ℕ) × (length text + 1 < value_null) × (new_varchar lib text ≡ v))

  abbrev pub Fits : Column → Value D → Type 0
  Fits c v = (k : Kind) × (c.column_type ≡ type_id_of k) × MadeAs k c v

  -- The bytes of a value that fits its column, as many as the loops count for it.
  pub record Cell (c : Column) (v : Value D) : Type 0 where
    pub type_id : TypeId
    pub typed : c.column_type ≡ type_id
    pub bytes : Bytes lib type_id v
    pub inlined : is_inlined c ≡ true → length bytes.storage ≡ inlined_size c
    pub apart : is_inlined c ≡ false → length bytes.storage ≡ 4 + payload v

  inlined_Cell :
      (c : Column) (v : Value D) (t : TypeId) (n : ℕ) (b : Bytes lib t v)
      → c.column_type ≡ t
      → is_inlined c ≡ true
      → c.storage_size ≡ n
      → length b.storage ≡ n
      → Cell c v
  inlined_Cell c v t n b typed yes_inlined size len = record {
    type_id = t;
    typed = typed;
    bytes = b;
    inlined = λ e. len ∙ sym size ∙ sym (ap (λ b. if b then c.storage_size else 4) yes_inlined);
    apart = λ e. absurd (cc);
  }

  apart_Cell :
      (c : Column) (v : Value D) (b : Bytes lib varchar v)
      → c.column_type ≡ varchar
      → length b.storage ≡ 4 + payload v
      → Cell c v
  apart_Cell c v b typed len =
      let not_inlined : is_inlined c ≡ false =
        ap (λ t. elim t [ varchar ↦ false | vector ↦ false | _ ↦ true ]) typed in
      record {
        type_id = varchar;
        typed = typed;
        bytes = b;
        inlined = λ e. absurd (cc);
        apart = λ e. len;
      }

  number-inlined : (c : Column) (w : Width) → c.column_type ≡ type_of w → is_inlined c ≡ true
  number-inlined c int8 e = ap (λ t. elim t [ varchar ↦ false | vector ↦ false | _ ↦ true ]) e
  number-inlined c int16 e = ap (λ t. elim t [ varchar ↦ false | vector ↦ false | _ ↦ true ]) e
  number-inlined c int32 e = ap (λ t. elim t [ varchar ↦ false | vector ↦ false | _ ↦ true ]) e
  number-inlined c int64 e = ap (λ t. elim t [ varchar ↦ false | vector ↦ false | _ ↦ true ]) e

  cell_of :
      (c : Column) (v : Value D) (k : Kind) → c.column_type ≡ type_id_of k → MadeAs k c v → Cell c v
  cell_of c v truth typed (size, n, made) =
      let (b, len) = truth-Bytes lib n in
      subst (Cell c) made (
        inlined_Cell c _ boolean 1 b typed
          (ap (λ t. elim t [ varchar ↦ false | vector ↦ false | _ ↦ true ]) typed) size len)
  cell_of c v (number w) typed (size, n, made) =
      let (b, len) = number-Bytes lib w n in
      subst (Cell c) made
        (inlined_Cell c _ (type_of w) (bits w / 8) b typed (number-inlined c w typed) size len)
  cell_of c v characters typed (inl made) =
      let (b, len) = null-Bytes lib in
      subst (Cell c) made
        (apart_Cell c (blank lib varchar) b typed (omega (arith, len, payload-blank lib)))
  cell_of c v characters typed (inr (text, short, made)) =
      let (b, len) = text-Bytes lib text short in
      subst (Cell c) made (
        apart_Cell c (new_varchar lib text) b typed
          (omega (arith, len, payload-new_varchar lib text short)))

  pub fits-Cell : (c : Column) (v : Value D) → Fits c v → Cell c v
  fits-Cell c v (k, typed, made) = cell_of c v k typed made
