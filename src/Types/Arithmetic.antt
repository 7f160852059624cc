-- ===== src/Types/Arithmetic.antt =====
-- The checked arithmetic of bustub/src/include/type/integer_parent_type.h, for operands of types T1
-- and T2. C++ computes in `int`, or in `int64_t` if either operand has that type, and a result out
-- of that range is undefined behaviour.
use learning_journey.Base.{
  ◌+◌, ◌/◌, Bool, not, ◌&&◌, ◌||◌, Outcome, ◌>>◌, throw_if, undefined, out_of_range, divide_by_zero,
  leb, if◌then◌else◌, ℤ, pos, negsuc, ◌+ℤ◌, ◌-ℤ◌, ◌*ℤ◌, eqb_ℤ, ltb_ℤ, sub_ℕ,
}
use learning_journey.Types.{Width, int32, int64, bits, fits, wrap, Value, Library, new_int}

-- The type in which C++ computes.
abbrev pub promoted : Width → Width → Width
promoted int64 w = int64
promoted w int64 = int64
promoted w v = int32

abbrev positive : ℤ → Bool
positive z = ltb_ℤ (pos 0) z

abbrev negative : ℤ → Bool
negative z = ltb_ℤ z (pos 0)

-- `/`, which rounds towards zero.
unfoldable pub quotient : ℤ → ℤ → ℤ
quotient (pos a) (pos b) = pos (a / b)
quotient (pos a) (negsuc b) = sub_ℕ 0 (a / (b + 1))
quotient (negsuc a) (pos b) = sub_ℕ 0 ((a + 1) / b)
quotient (negsuc a) (negsuc b) = pos ((a + 1) / (b + 1))

-- `%`, whose sign is that of the dividend.
unfoldable pub remainder : ℤ → ℤ → ℤ
unfolding quotient
remainder x y = x -ℤ quotient x y *ℤ y

abbrev wider : Width → Width → Bool
wider v w = leb (bits w) (bits v)

abbrev is_zero : ℤ → Bool
is_zero z = eqb_ℤ z (pos 0)

-- The tests for an overflow, from the two operands and the result as it was cast.
abbrev pub sum_overflows : ℤ → ℤ → ℤ → Bool
sum_overflows x y sum =
    (positive x && positive y && negative sum) || (negative x && negative y && positive sum)

abbrev pub difference_overflows : ℤ → ℤ → ℤ → Bool
difference_overflows x y diff =
    (positive x && negative y && negative diff) || (negative x && positive y && positive diff)

unfoldable pub product_overflows : ℤ → ℤ → ℤ → Bool
unfolding quotient
product_overflows x y prod = not (is_zero y) && not (eqb_ℤ (quotient prod y) x)

module _ {D : Type 0} (lib : Library D) (t1 t2 : Width) (left right : Value D) where
  -- The result in the wider type, or in the left one; `bad` tells an overflow from the result.
  unfoldable pub checked : ℤ → (ℤ → Bool) → Outcome (Value D)
  checked exact bad =
      let r1 = wrap t1 exact in
      let r2 = wrap t2 exact in
      throw_if (not (fits (promoted t1 t2) exact)) undefined
      >> throw_if (not (eqb_ℤ exact r1) && not (eqb_ℤ exact r2)) out_of_range
      >> (if wider t1 t2
          then throw_if (bad r1) out_of_range >> new_int lib t1 left.type_id r1
          else throw_if (bad r2) out_of_range >> new_int lib t2 right.type_id r2)

  unfoldable pub add_value : Outcome (Value D)
  unfolding checked
  add_value = let x = left.number in let y = right.number in checked (x +ℤ y) (sum_overflows x y)

  unfoldable pub subtract_value : Outcome (Value D)
  unfolding checked
  subtract_value =
      let x = left.number in let y = right.number in checked (x -ℤ y) (difference_overflows x y)

  unfoldable pub multiply_value : Outcome (Value D)
  unfolding checked product_overflows
  multiply_value =
      let x = left.number in let y = right.number in checked (x *ℤ y) (product_overflows x y)

  -- In the wider type, with no test for overflow.
  unfoldable pub unchecked : ℤ → Outcome (Value D)
  unchecked exact =
      if wider t1 t2
      then new_int lib t1 left.type_id (wrap t1 exact)
      else new_int lib t2 right.type_id (wrap t2 exact)

  unfoldable pub divide_value : Outcome (Value D)
  unfolding unchecked quotient
  divide_value =
      let x = left.number in
      let y = right.number in
      throw_if (is_zero y) divide_by_zero
      >> throw_if (not (fits (promoted t1 t2) (quotient x y))) undefined
      >> unchecked (quotient x y)

  -- `x % y` is undefined where `x / y` is.
  unfoldable pub modulo_value : Outcome (Value D)
  unfolding unchecked quotient remainder
  modulo_value =
      let x = left.number in
      let y = right.number in
      throw_if (is_zero y) divide_by_zero
      >> throw_if (not (fits (promoted t1 t2) (quotient x y))) undefined
      >> unchecked (remainder x y)
