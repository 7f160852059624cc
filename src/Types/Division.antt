-- ===== src/Types/Division.antt =====
-- `Divide` and `Modulo` of two integer values that are not NULL.
use learning_journey.Base.{
  ℕ, ◌≤◌, ℤ, pos, ◌*ℤ◌, ◌-ℤ◌, eqb_ℤ, ◌≡◌, refl, ap, ◌∙◌, true, false, ok, throw, throw_if,
  divide_by_zero, failure, List, ◌>>◌,
}
use learning_journey.Types.{
  Width, int8, int16, int32, int64, fits, Library, comparable, store, new_int8, new_wider, blank,
  varchar, Value,
}
use learning_journey.Types.Arithmetic.{
  quotient, remainder, unchecked, divide_value, modulo_value, promoted,
}
use learning_journey.Types.Family
use learning_journey.Types.Family.{wider_of, type_of, division, modify_func}
use learning_journey.Types.Exact.{wrap_kept}
use learning_journey.Types.Checked.{integer_value}
use learning_journey.Types.Overflows.{InRange}
use learning_journey.Types.Quotient.{magnitude, quotient_small, remainder_small, widths, small_fits}
use learning_journey.Types.Tinyint
use learning_journey.Types.Smallint
use learning_journey.Types.Integer
use learning_journey.Types.Bigint
use learning_journey.Types.Values

module _ {D : Type 0} (lib : Library D) where
  unchecked-eq :
      (v w : Width) (x y z : ℤ)
      → fits (wider_of v w) z ≡ true
      → unchecked lib v w (integer_value lib v x) (integer_value lib w y) z
        ≡ ok (store lib (type_of (wider_of v w)) (wider_of v w) z)
  unfolding unchecked new_int8 new_wider
  unchecked-eq int8 int8 x y z h =
      ap (λ u. ok (store lib (type_of int8) int8 u)) (wrap_kept int8 z h)
  unchecked-eq int8 int16 x y z h =
      ap (λ u. ok (store lib (type_of int16) int16 u)) (wrap_kept int16 z h)
  unchecked-eq int8 int32 x y z h =
      ap (λ u. ok (store lib (type_of int32) int32 u)) (wrap_kept int32 z h)
  unchecked-eq int8 int64 x y z h =
      ap (λ u. ok (store lib (type_of int64) int64 u)) (wrap_kept int64 z h)
  unchecked-eq int16 int8 x y z h =
      ap (λ u. ok (store lib (type_of int16) int16 u)) (wrap_kept int16 z h)
  unchecked-eq int16 int16 x y z h =
      ap (λ u. ok (store lib (type_of int16) int16 u)) (wrap_kept int16 z h)
  unchecked-eq int16 int32 x y z h =
      ap (λ u. ok (store lib (type_of int32) int32 u)) (wrap_kept int32 z h)
  unchecked-eq int16 int64 x y z h =
      ap (λ u. ok (store lib (type_of int64) int64 u)) (wrap_kept int64 z h)
  unchecked-eq int32 int8 x y z h =
      ap (λ u. ok (store lib (type_of int32) int32 u)) (wrap_kept int32 z h)
  unchecked-eq int32 int16 x y z h =
      ap (λ u. ok (store lib (type_of int32) int32 u)) (wrap_kept int32 z h)
  unchecked-eq int32 int32 x y z h =
      ap (λ u. ok (store lib (type_of int32) int32 u)) (wrap_kept int32 z h)
  unchecked-eq int32 int64 x y z h =
      ap (λ u. ok (store lib (type_of int64) int64 u)) (wrap_kept int64 z h)
  unchecked-eq int64 int8 x y z h =
      ap (λ u. ok (store lib (type_of int64) int64 u)) (wrap_kept int64 z h)
  unchecked-eq int64 int16 x y z h =
      ap (λ u. ok (store lib (type_of int64) int64 u)) (wrap_kept int64 z h)
  unchecked-eq int64 int32 x y z h =
      ap (λ u. ok (store lib (type_of int64) int64 u)) (wrap_kept int64 z h)
  unchecked-eq int64 int64 x y z h =
      ap (λ u. ok (store lib (type_of int64) int64 u)) (wrap_kept int64 z h)

  divide-eq_divide_value :
      (v w : Width) (x y : ℤ)
      → Values.divide lib (integer_value lib v x) (integer_value lib w y) ≡ (
          throw_if (eqb_ℤ y (pos 0)) divide_by_zero
          >> divide_value lib v w (integer_value lib v x) (integer_value lib w y))
  unfolding Values.instance_of comparable division modify_func Family.is_zero Values.divide
      Tinyint.divide Smallint.divide Integer.divide Bigint.divide Tinyint.tinyint_modify_func
      Smallint.smallint_modify_func Integer.integer_modify_func Bigint.bigint_modify_func
  divide-eq_divide_value int8 int8 x y = refl
  divide-eq_divide_value int8 int16 x y = refl
  divide-eq_divide_value int8 int32 x y = refl
  divide-eq_divide_value int8 int64 x y = refl
  divide-eq_divide_value int16 int8 x y = refl
  divide-eq_divide_value int16 int16 x y = refl
  divide-eq_divide_value int16 int32 x y = refl
  divide-eq_divide_value int16 int64 x y = refl
  divide-eq_divide_value int32 int8 x y = refl
  divide-eq_divide_value int32 int16 x y = refl
  divide-eq_divide_value int32 int32 x y = refl
  divide-eq_divide_value int32 int64 x y = refl
  divide-eq_divide_value int64 int8 x y = refl
  divide-eq_divide_value int64 int16 x y = refl
  divide-eq_divide_value int64 int32 x y = refl
  divide-eq_divide_value int64 int64 x y = refl

  modulo-eq_modulo_value :
      (v w : Width) (x y : ℤ)
      → Values.modulo lib (integer_value lib v x) (integer_value lib w y) ≡ (
          throw_if (eqb_ℤ y (pos 0)) divide_by_zero
          >> modulo_value lib v w (integer_value lib v x) (integer_value lib w y))
  unfolding Values.instance_of comparable division modify_func Family.is_zero Values.modulo
      Tinyint.modulo Smallint.modulo Integer.modulo Bigint.modulo
  modulo-eq_modulo_value int8 int8 x y = refl
  modulo-eq_modulo_value int8 int16 x y = refl
  modulo-eq_modulo_value int8 int32 x y = refl
  modulo-eq_modulo_value int8 int64 x y = refl
  modulo-eq_modulo_value int16 int8 x y = refl
  modulo-eq_modulo_value int16 int16 x y = refl
  modulo-eq_modulo_value int16 int32 x y = refl
  modulo-eq_modulo_value int16 int64 x y = refl
  modulo-eq_modulo_value int32 int8 x y = refl
  modulo-eq_modulo_value int32 int16 x y = refl
  modulo-eq_modulo_value int32 int32 x y = refl
  modulo-eq_modulo_value int32 int64 x y = refl
  modulo-eq_modulo_value int64 int8 x y = refl
  modulo-eq_modulo_value int64 int16 x y = refl
  modulo-eq_modulo_value int64 int32 x y = refl
  modulo-eq_modulo_value int64 int64 x y = refl

  -- Of two integer values that are not NULL, the right one not zero, `Divide` gives the quotient,
  -- rounded towards zero, and `Modulo` what the quotient times the right one leaves of the left one,
  -- each in the wider of the two types.
  pub division_exact :
      (v w : Width) (x y : ℤ)
      → InRange v x
      → eqb_ℤ y (pos 0) ≡ false
      → let a = integer_value lib v x in
        let b = integer_value lib w y in
        let u = wider_of v w in
        (Values.divide lib a b ≡ ok (store lib (type_of u) u (quotient x y)))
        × (Values.modulo lib a b ≡ ok (store lib (type_of u) u (x -ℤ quotient x y *ℤ y)))
  unfolding divide_value modulo_value remainder
  division_exact v w x y p h =
      let (wide, computed) = widths v w in
      let kept = small_fits (promoted v w) v x (quotient x y) computed (quotient_small x y) p in
      let fit = λ (z : ℤ) (s : magnitude z ≤ magnitude x).
        unchecked-eq v w x y z (small_fits (wider_of v w) v x z wide s p) in
      (
        divide-eq_divide_value v w x y ∙ rw (h, kept) (fit (quotient x y) (quotient_small x y)),
        modulo-eq_modulo_value v w x y ∙ rw (h, kept) (fit (remainder x y) (remainder_small x y)),
      )

  -- The value of a string.
  abbrev pub string_value : List ℕ → Value D
  string_value s = record (blank lib varchar) { text = s; is_null = false }

  varchar_refused :
      (v : Width) (x : ℤ) (s : List ℕ)
      → (Values.divide lib (integer_value lib v x) (string_value s) ≡ throw failure)
        × (Values.modulo lib (integer_value lib v x) (string_value s) ≡ throw failure)
  unfolding Values.instance_of comparable division Family.is_zero Values.divide Tinyint.divide
      Smallint.divide Integer.divide Bigint.divide Values.modulo Tinyint.modulo Smallint.modulo
      Integer.modulo Bigint.modulo
  varchar_refused int8 x s = (refl, refl)
  varchar_refused int16 x s = (refl, refl)
  varchar_refused int32 x s = (refl, refl)
  varchar_refused int64 x s = (refl, refl)

  -- `Divide` and `Modulo` of an integer value that is not NULL throw `DIVIDE_BY_ZERO` where the right
  -- one is an integer zero, and an exception with no type where it is any string, also one that
  -- spells a number.
  pub divide_refused :
      (v w : Width) (x : ℤ) (s : List ℕ)
      → let a = integer_value lib v x in
        let b = integer_value lib w (pos 0) in
        let c = string_value s in
        (Values.divide lib a b ≡ throw divide_by_zero)
        × (Values.modulo lib a b ≡ throw divide_by_zero)
        × (Values.divide lib a c ≡ throw failure)
        × (Values.modulo lib a c ≡ throw failure)
  divide_refused v w x s =
      let (left, right) = varchar_refused v x s in
      (divide-eq_divide_value v w x (pos 0), modulo-eq_modulo_value v w x (pos 0), left, right)
