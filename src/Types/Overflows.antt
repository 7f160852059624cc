-- ===== src/Types/Overflows.antt =====
-- That the tests for an overflow never fire on an exact result, and when C++ computes exactly.
use learning_journey.Base.{
  ℕ, zero, suc, ◌+◌, ◌-◌, ◌*◌, ◌/◌, ◌^◌, ◌≤◌, ◌<◌, ◌≡◌, refl, arith, true, false, leb, ℤ, pos,
  negsuc, pos_part, neg_part, ◌+ℤ◌, ◌-ℤ◌, ◌*ℤ◌,
}
use native.Mathlib.Nat.{mul-le-mul, mul-div_cancel}
use learning_journey.Types.{Width, int8, int16, int32, int64, bits, half, fits}
use learning_journey.Types.Arithmetic.{
  sum_overflows, difference_overflows, product_overflows, quotient,
}
use learning_journey.Types.Family.{wider_of}

-- The values that a type holds, without the one that stands for NULL.
abbrev pub InRange : Width → ℤ → Type 0
InRange w z = (neg_part z < half w) × (pos_part z < half w)

-- Where the wider type has at most 16 bits, both have.
pub narrow :
    (v w : Width) → leb (bits (wider_of v w)) 16 ≡ true → (half v ≤ 2 ^ 15) × (half w ≤ 2 ^ 15)
narrow int8 int8 h = (omega arith, omega arith)
narrow int8 int16 h = (omega arith, omega arith)
narrow int8 int32 h = ground (arith, h)
narrow int8 int64 h = ground (arith, h)
narrow int16 int8 h = (omega arith, omega arith)
narrow int16 int16 h = (omega arith, omega arith)
narrow int16 int32 h = ground (arith, h)
narrow int16 int64 h = ground (arith, h)
narrow int32 int8 h = ground (arith, h)
narrow int32 int16 h = ground (arith, h)
narrow int32 int32 h = ground (arith, h)
narrow int32 int64 h = ground (arith, h)
narrow int64 int8 h = ground (arith, h)
narrow int64 int16 h = ground (arith, h)
narrow int64 int32 h = ground (arith, h)
narrow int64 int64 h = ground (arith, h)

abbrev pub Short : ℤ → Type 0
Short z = (neg_part z ≤ 2 ^ 15) × (pos_part z ≤ 2 ^ 15)

pub InRange-Short : (w : Width) (z : ℤ) → half w ≤ 2 ^ 15 → InRange w z → Short z
InRange-Short w z h p = (omega arith, omega arith)

module _ (x y : ℤ) where
  pub sum_fits : Short x → Short y → fits int32 (x +ℤ y) ≡ true
  unfolding ◌+ℤ◌
  sum_fits p q = ground arith

  pub difference_fits : Short x → Short y → fits int32 (x -ℤ y) ≡ true
  unfolding ◌-ℤ◌
  difference_fits p q = ground arith

mul_small : (a b : ℕ) → a ≤ 2 ^ 15 → b ≤ 2 ^ 15 → a * b ≤ 2 ^ 30
mul_small a b p q = mul-le-mul p q

pub product_fits : (x y : ℤ) → Short x → Short y → fits int32 (x *ℤ y) ≡ true
unfolding ◌*ℤ◌
product_fits (pos a) (pos b) p q = ground (arith, mul_small a b (omega arith) (omega arith))
product_fits (pos a) (negsuc b) p q =
    ground (arith, mul_small a (b + 1) (omega arith) (omega arith))
product_fits (negsuc a) (pos b) p q =
    ground (arith, mul_small (a + 1) b (omega arith) (omega arith))
product_fits (negsuc a) (negsuc b) p q =
    ground (arith, mul_small (a + 1) (b + 1) (omega arith) (omega arith))

pub no_sum_overflow : (x y : ℤ) → sum_overflows x y (x +ℤ y) ≡ false
unfolding ◌+ℤ◌
no_sum_overflow (pos a) (pos b) = ground arith
no_sum_overflow (pos a) (negsuc b) = ground arith
no_sum_overflow (negsuc a) (pos b) = ground arith
no_sum_overflow (negsuc a) (negsuc b) = ground arith

pub no_difference_overflow : (x y : ℤ) → difference_overflows x y (x -ℤ y) ≡ false
unfolding ◌-ℤ◌
no_difference_overflow (pos a) (pos b) = ground arith
no_difference_overflow (pos a) (negsuc b) = ground arith
no_difference_overflow (negsuc a) (pos b) = ground arith
no_difference_overflow (negsuc a) (negsuc b) = ground arith

module _ (a b : ℕ) where
  pub mul_pp : pos a *ℤ pos b ≡ pos (a * b)
  unfolding ◌*ℤ◌
  mul_pp = ground arith

  mul_pn : pos (suc a) *ℤ negsuc b ≡ negsuc (suc a * suc b - 1)
  unfolding ◌*ℤ◌
  mul_pn = ground arith

  mul_np : negsuc a *ℤ pos (suc b) ≡ negsuc (suc a * suc b - 1)
  unfolding ◌*ℤ◌
  mul_np = ground arith

  mul_nn : negsuc a *ℤ negsuc b ≡ pos (suc a * suc b)
  unfolding ◌*ℤ◌
  mul_nn = ground arith

mul_zn : (b : ℕ) → pos 0 *ℤ negsuc b ≡ pos 0
unfolding ◌*ℤ◌
mul_zn b = ground arith

div_back : (a b : ℕ) → a * suc b / suc b ≡ a
div_back a b = mul-div_cancel a (omega arith)

pub no_product_overflow : (x y : ℤ) → product_overflows x y (x *ℤ y) ≡ false
unfolding product_overflows quotient
no_product_overflow x (pos zero) = refl
no_product_overflow (pos a) (pos (suc b)) = rw (mul_pp a (suc b)) (ground (arith, div_back a b))
no_product_overflow (pos zero) (negsuc b) = rw (mul_zn b) (ground arith)
no_product_overflow (pos (suc a)) (negsuc b) = rw (mul_pn a b) (ground (arith, div_back (suc a) b))
no_product_overflow (negsuc a) (pos (suc b)) = rw (mul_np a b) (ground (arith, div_back (suc a) b))
no_product_overflow (negsuc a) (negsuc b) = rw (mul_nn a b) (ground (arith, div_back (suc a) b))
