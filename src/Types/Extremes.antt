-- ===== src/Types/Extremes.antt =====
-- `Min` and `Max` of two integer values that are not NULL.
use learning_journey.Base.{
  ℤ, ◌≡◌, refl, ◌∙◌, ap, arith, ◌⊎◌, inl, inr, ok, ◌>>=◌, if◌then◌else◌, Returns, ◌≤ℤ◌, Bool-cases,
  ltb_ℤ, leb_ℤ,
}
use learning_journey.Types.{
  Width, int8, int16, int32, int64, Library, comparable, new_int8, new_wider,
}
use learning_journey.Types.Family
use learning_journey.Types.Checked.{integer_value}
use learning_journey.Types.Overflows.{InRange}
use learning_journey.Types.Compared.{compared}
use learning_journey.Types.Casts.{store-eq}
use learning_journey.Types.Tinyint
use learning_journey.Types.Smallint
use learning_journey.Types.Integer
use learning_journey.Types.Bigint
use learning_journey.Types.Values

module _ {D : Type 0} (lib : Library D) where
  copy-eq :
      (w : Width) (x : ℤ)
      → InRange w x
      → Values.copy lib (integer_value lib w x) ≡ ok (integer_value lib w x)
  unfolding Values.instance_of Family.copy new_int8 new_wider Values.copy Tinyint.copy Smallint.copy
      Integer.copy Bigint.copy
  copy-eq int8 x p = ap ok (store-eq lib int8 x p)
  copy-eq int16 x p = ap ok (store-eq lib int16 x p)
  copy-eq int32 x p = ap ok (store-eq lib int32 x p)
  copy-eq int64 x p = ap ok (store-eq lib int64 x p)

  min-eq :
      (v w : Width) (x y : ℤ)
      → let a = integer_value lib v x in
        let b = integer_value lib w y in
        Values.min lib a b ≡ (
          Values.compare_less_than lib a b >>= λ c.
          if Values.is_true c then Values.copy lib a else Values.copy lib b)
  unfolding Values.min comparable
  min-eq int8 int8 x y = refl
  min-eq int8 int16 x y = refl
  min-eq int8 int32 x y = refl
  min-eq int8 int64 x y = refl
  min-eq int16 int8 x y = refl
  min-eq int16 int16 x y = refl
  min-eq int16 int32 x y = refl
  min-eq int16 int64 x y = refl
  min-eq int32 int8 x y = refl
  min-eq int32 int16 x y = refl
  min-eq int32 int32 x y = refl
  min-eq int32 int64 x y = refl
  min-eq int64 int8 x y = refl
  min-eq int64 int16 x y = refl
  min-eq int64 int32 x y = refl
  min-eq int64 int64 x y = refl

  -- `Min` of two integer values that are not NULL returns one of the two, and its number is no
  -- greater than either.
  pub min_lem :
      (v w : Width) (x y : ℤ)
      → InRange v x
      → InRange w y
      → let a = integer_value lib v x in
        let b = integer_value lib w y in
        Returns (Values.min lib a b) λ r. ((r ≡ a) ⊎ (r ≡ b)) × (r.number ≤ℤ x) × (r.number ≤ℤ y)
  unfolding Values.is_true
  min_lem v w x y p q = elim (Bool-cases (ltb_ℤ x y)) [
    | inl h ↦ (
      integer_value lib v x,
      min-eq v w x y ∙ rw ((compared lib v w x y).less_than, h) (copy-eq v x p),
      (inl refl, ground arith, ground arith),
    )
    | inr h ↦ (
      integer_value lib w y,
      min-eq v w x y ∙ rw ((compared lib v w x y).less_than, h) (copy-eq w y q),
      (inr refl, ground arith, ground arith),
    )
  ]

  max-eq :
      (v w : Width) (x y : ℤ)
      → let a = integer_value lib v x in
        let b = integer_value lib w y in
        Values.max lib a b ≡ (
          Values.compare_greater_than_equals lib a b >>= λ c.
          if Values.is_true c then Values.copy lib a else Values.copy lib b)
  unfolding Values.max comparable
  max-eq int8 int8 x y = refl
  max-eq int8 int16 x y = refl
  max-eq int8 int32 x y = refl
  max-eq int8 int64 x y = refl
  max-eq int16 int8 x y = refl
  max-eq int16 int16 x y = refl
  max-eq int16 int32 x y = refl
  max-eq int16 int64 x y = refl
  max-eq int32 int8 x y = refl
  max-eq int32 int16 x y = refl
  max-eq int32 int32 x y = refl
  max-eq int32 int64 x y = refl
  max-eq int64 int8 x y = refl
  max-eq int64 int16 x y = refl
  max-eq int64 int32 x y = refl
  max-eq int64 int64 x y = refl

  -- `Max` of two integer values that are not NULL returns one of the two, and its number is no
  -- less than either.
  pub max_lem :
      (v w : Width) (x y : ℤ)
      → InRange v x
      → InRange w y
      → let a = integer_value lib v x in
        let b = integer_value lib w y in
        Returns (Values.max lib a b) λ r. ((r ≡ a) ⊎ (r ≡ b)) × (x ≤ℤ r.number) × (y ≤ℤ r.number)
  unfolding Values.is_true
  max_lem v w x y p q = elim (Bool-cases (leb_ℤ y x)) [
    | inl h ↦ (
      integer_value lib v x,
      max-eq v w x y ∙ rw ((compared lib v w x y).greater_than_equals, h) (copy-eq v x p),
      (inl refl, ground arith, ground arith),
    )
    | inr h ↦ (
      integer_value lib w y,
      max-eq v w x y ∙ rw ((compared lib v w x y).greater_than_equals, h) (copy-eq w y q),
      (inr refl, ground arith, ground arith),
    )
  ]
