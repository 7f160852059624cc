-- ===== src/Types/Sums.antt =====
-- `Add`, `Subtract` and `Multiply` of two integer values that are not NULL.
use learning_journey.Base.{
  ◌+ℤ◌, ◌-ℤ◌, ◌*ℤ◌, suc, ◌<◌, ℤ, pos, negsuc, ◌≡◌, ◌⊎◌, inl, inr, refl, ap, ◌∙◌, arith, Outcome, ok,
  throw, true, false, out_of_range, undefined, eqb_ℤ, leb, if◌then◌else◌,
}
use native.Mathlib.Decide.{dec_lt}
use learning_journey.Types.{
  Width, int8, int16, int32, int64, bits, half, fits, int_null, store, Value, Library, comparable,
}
use learning_journey.Types.Exact.{wrap_kept}
use learning_journey.Types.Casts.{in_range}
use learning_journey.Types.Arithmetic.{
  add_value, subtract_value, multiply_value, sum_overflows, difference_overflows, product_overflows,
}
use learning_journey.Types.Family.{operation, modify_func, type_of, wider_of}
use learning_journey.Types.Checked.{integer_value, exact_or_error, checked_lem}
use learning_journey.Types.Overflows.{
  InRange, InRange-Short, narrow, sum_fits, difference_fits, product_fits, no_sum_overflow,
  no_difference_overflow, no_product_overflow,
}
use learning_journey.Types.Tinyint
use learning_journey.Types.Smallint
use learning_journey.Types.Integer
use learning_journey.Types.Bigint
use learning_journey.Types.Values

module _ {D : Type 0} (lib : Library D) where
  -- What an operation answers whose exact result is `z`, in a type of the given width.
  abbrev pub number_or_null : Width → ℤ → Outcome (Value D)
  number_or_null w z =
      if in_range w z
      then ok (integer_value lib w z)
      else if eqb_ℤ z (int_null w)
      then ok (record (integer_value lib w z) { is_null = true })
      else if leb (bits w) 16
      then throw out_of_range
      else throw undefined

  store_null :
      (w : Width) (z : ℤ)
      → fits w z ≡ true
      → store lib (type_of w) w z
        ≡ record (integer_value lib w z) { is_null = eqb_ℤ z (int_null w) }
  unfolding store
  store_null w z h = rw (wrap_kept w z h) refl

  half_positive : (w : Width) → 0 < half w
  half_positive int8 = omega arith
  half_positive int16 = omega arith
  half_positive int32 = omega arith
  half_positive int64 = omega arith

  -- What fits is in range or the number that stands for NULL, and not both.
  fits_cases :
      (w : Width) (z : ℤ)
      → ((fits w z ≡ true) × (in_range w z ≡ true) × (eqb_ℤ z (int_null w) ≡ false))
        ⊎ ((fits w z ≡ true) × (in_range w z ≡ false) × (eqb_ℤ z (int_null w) ≡ true))
        ⊎ (fits w z ≡ false) × (in_range w z ≡ false) × (eqb_ℤ z (int_null w) ≡ false)
  fits_cases w (pos m) = elim (dec_lt m (half w)) [
    | yes b ↦ let some = half_positive w in inl (ground arith, ground arith, ground arith)
    | no b ↦ let some = half_positive w in inr (inr (ground arith, ground arith, ground arith))
  ]
  fits_cases w (negsuc m) = elim (dec_lt (suc m) (half w)) [
    | yes b ↦ inl (ground arith, ground arith, ground arith)
    | no b ↦ elim (dec_lt m (half w)) [
      | yes c ↦ inr (inl (ground arith, ground arith, ground arith))
      | no c ↦ let some = half_positive w in inr (inr (ground arith, ground arith, ground arith))
    ]
  ]

  exact_or_error-eq : (w : Width) (z : ℤ) → exact_or_error lib w z ≡ number_or_null w z
  exact_or_error-eq w z = elim (fits_cases w z) [
    | inl (h, r, n) ↦ rw (h, r) (ap ok (rw (store_null w z h, n) refl))
    | inr (inl (h, r, n)) ↦ rw (h, r, n) (ap ok (rw (store_null w z h, n) refl))
    | inr (inr (h, r, n)) ↦ rw (h, r, n) refl
  ]

  add-eq_add_value :
      (v w : Width) (x y : ℤ)
      → Values.add lib (integer_value lib v x) (integer_value lib w y)
        ≡ add_value lib v w (integer_value lib v x) (integer_value lib w y)
  unfolding Values.add Values.instance_of Tinyint.add Smallint.add Integer.add Bigint.add operation
      modify_func comparable Tinyint.tinyint_modify_func Smallint.smallint_modify_func
      Integer.integer_modify_func Bigint.bigint_modify_func
  add-eq_add_value int8 int8 x y = refl
  add-eq_add_value int8 int16 x y = refl
  add-eq_add_value int8 int32 x y = refl
  add-eq_add_value int8 int64 x y = refl
  add-eq_add_value int16 int8 x y = refl
  add-eq_add_value int16 int16 x y = refl
  add-eq_add_value int16 int32 x y = refl
  add-eq_add_value int16 int64 x y = refl
  add-eq_add_value int32 int8 x y = refl
  add-eq_add_value int32 int16 x y = refl
  add-eq_add_value int32 int32 x y = refl
  add-eq_add_value int32 int64 x y = refl
  add-eq_add_value int64 int8 x y = refl
  add-eq_add_value int64 int16 x y = refl
  add-eq_add_value int64 int32 x y = refl
  add-eq_add_value int64 int64 x y = refl

  -- `Add` of two integer values that are not NULL gives their sum in the wider of the two
  -- types, where that type holds it and does not keep it for NULL, and NULL where the sum is the
  -- number that the type keeps for NULL. If the sum has more bits: where the wider type has at
  -- most 16 it throws `OUT_OF_RANGE`, and where it has more, the sum overflows in C++, which is
  -- undefined.
  pub add_exact :
      (v w : Width) (x y : ℤ)
      → InRange v x
      → InRange w y
      → Values.add lib (integer_value lib v x) (integer_value lib w y)
        ≡ number_or_null (wider_of v w) (x +ℤ y)
  unfolding add_value
  add_exact v w x y p q =
      add-eq_add_value v w x y
      ∙ (checked_lem lib v w x y (x +ℤ y) (sum_overflows x y) (λ _. no_sum_overflow x y)
          λ h.
            let (a, b) = narrow v w h in
            sum_fits x y (InRange-Short v x a p) (InRange-Short w y b q))
      ∙ exact_or_error-eq (wider_of v w) _

  subtract-eq_subtract_value :
      (v w : Width) (x y : ℤ)
      → Values.subtract lib (integer_value lib v x) (integer_value lib w y)
        ≡ subtract_value lib v w (integer_value lib v x) (integer_value lib w y)
  unfolding Values.subtract Values.instance_of Tinyint.subtract Smallint.subtract Integer.subtract
      Bigint.subtract operation modify_func comparable Tinyint.tinyint_modify_func
      Smallint.smallint_modify_func Integer.integer_modify_func Bigint.bigint_modify_func
  subtract-eq_subtract_value int8 int8 x y = refl
  subtract-eq_subtract_value int8 int16 x y = refl
  subtract-eq_subtract_value int8 int32 x y = refl
  subtract-eq_subtract_value int8 int64 x y = refl
  subtract-eq_subtract_value int16 int8 x y = refl
  subtract-eq_subtract_value int16 int16 x y = refl
  subtract-eq_subtract_value int16 int32 x y = refl
  subtract-eq_subtract_value int16 int64 x y = refl
  subtract-eq_subtract_value int32 int8 x y = refl
  subtract-eq_subtract_value int32 int16 x y = refl
  subtract-eq_subtract_value int32 int32 x y = refl
  subtract-eq_subtract_value int32 int64 x y = refl
  subtract-eq_subtract_value int64 int8 x y = refl
  subtract-eq_subtract_value int64 int16 x y = refl
  subtract-eq_subtract_value int64 int32 x y = refl
  subtract-eq_subtract_value int64 int64 x y = refl

  -- `Subtract` of two integer values that are not NULL gives their difference in the wider of the two
  -- types, where that type holds it and does not keep it for NULL, and NULL where the difference is the
  -- number that the type keeps for NULL. If the difference has more bits: where the wider type has at
  -- most 16 it throws `OUT_OF_RANGE`, and where it has more, the difference overflows in C++, which is
  -- undefined.
  pub subtract_exact :
      (v w : Width) (x y : ℤ)
      → InRange v x
      → InRange w y
      → Values.subtract lib (integer_value lib v x) (integer_value lib w y)
        ≡ number_or_null (wider_of v w) (x -ℤ y)
  unfolding subtract_value
  subtract_exact v w x y p q =
      subtract-eq_subtract_value v w x y
      ∙ (checked_lem lib v w x y (x -ℤ y) (difference_overflows x y)
          (λ _. no_difference_overflow x y)
          λ h.
            let (a, b) = narrow v w h in
            difference_fits x y (InRange-Short v x a p) (InRange-Short w y b q))
      ∙ exact_or_error-eq (wider_of v w) _

  multiply-eq_multiply_value :
      (v w : Width) (x y : ℤ)
      → Values.multiply lib (integer_value lib v x) (integer_value lib w y)
        ≡ multiply_value lib v w (integer_value lib v x) (integer_value lib w y)
  unfolding Values.multiply Values.instance_of Tinyint.multiply Smallint.multiply Integer.multiply
      Bigint.multiply operation modify_func comparable Tinyint.tinyint_modify_func
      Smallint.smallint_modify_func Integer.integer_modify_func Bigint.bigint_modify_func
  multiply-eq_multiply_value int8 int8 x y = refl
  multiply-eq_multiply_value int8 int16 x y = refl
  multiply-eq_multiply_value int8 int32 x y = refl
  multiply-eq_multiply_value int8 int64 x y = refl
  multiply-eq_multiply_value int16 int8 x y = refl
  multiply-eq_multiply_value int16 int16 x y = refl
  multiply-eq_multiply_value int16 int32 x y = refl
  multiply-eq_multiply_value int16 int64 x y = refl
  multiply-eq_multiply_value int32 int8 x y = refl
  multiply-eq_multiply_value int32 int16 x y = refl
  multiply-eq_multiply_value int32 int32 x y = refl
  multiply-eq_multiply_value int32 int64 x y = refl
  multiply-eq_multiply_value int64 int8 x y = refl
  multiply-eq_multiply_value int64 int16 x y = refl
  multiply-eq_multiply_value int64 int32 x y = refl
  multiply-eq_multiply_value int64 int64 x y = refl

  -- `Multiply` of two integer values that are not NULL gives their product in the wider of the two
  -- types, where that type holds it and does not keep it for NULL, and NULL where the product is the
  -- number that the type keeps for NULL. If the product has more bits: where the wider type has at
  -- most 16 it throws `OUT_OF_RANGE`, and where it has more, the product overflows in C++, which is
  -- undefined.
  pub multiply_exact :
      (v w : Width) (x y : ℤ)
      → InRange v x
      → InRange w y
      → Values.multiply lib (integer_value lib v x) (integer_value lib w y)
        ≡ number_or_null (wider_of v w) (x *ℤ y)
  unfolding multiply_value
  multiply_exact v w x y p q =
      multiply-eq_multiply_value v w x y
      ∙ (checked_lem lib v w x y (x *ℤ y) (product_overflows x y) (λ _. no_product_overflow x y)
          λ h.
            let (a, b) = narrow v w h in
            product_fits x y (InRange-Short v x a p) (InRange-Short w y b q))
      ∙ exact_or_error-eq (wider_of v w) _
