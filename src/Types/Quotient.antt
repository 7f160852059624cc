-- ===== src/Types/Quotient.antt =====
-- The size of a quotient and of a remainder.
use learning_journey.Base.{
  ℕ, ◌+◌, ◌*◌, ◌/◌, ◌≤◌, ℤ, pos, negsuc, pos_part, neg_part, sub_ℕ, ◌*ℤ◌, ◌-ℤ◌, ◌≡◌, arith, true,
}
use native.Mathlib.Nat.{div-le_self, div-mul-le_self}
use learning_journey.Types.{Width, int8, int16, int32, int64, half, fits}
use learning_journey.Types.Arithmetic.{quotient, remainder, promoted}
use learning_journey.Types.Family.{wider_of}
use learning_journey.Types.Overflows.{InRange, mul_pp}

abbrev pub magnitude : ℤ → ℕ
magnitude z = pos_part z + neg_part z

-- A quotient is no larger than what is divided.
pub quotient_small : (x y : ℤ) → magnitude (quotient x y) ≤ magnitude x
unfolding quotient
quotient_small (pos a) (pos b) = omega (arith, div-le_self a b)
quotient_small (pos a) (negsuc b) = ground (arith, div-le_self a (b + 1))
quotient_small (negsuc a) (pos b) = ground (arith, div-le_self (a + 1) b)
quotient_small (negsuc a) (negsuc b) = omega (arith, div-le_self (a + 1) (b + 1))

pub widths : (v w : Width) → (half v ≤ half (wider_of v w)) × (half v ≤ half (promoted v w))
widths int8 int8 = (omega arith, omega arith)
widths int8 int16 = (omega arith, omega arith)
widths int8 int32 = (omega arith, omega arith)
widths int8 int64 = (omega arith, omega arith)
widths int16 int8 = (omega arith, omega arith)
widths int16 int16 = (omega arith, omega arith)
widths int16 int32 = (omega arith, omega arith)
widths int16 int64 = (omega arith, omega arith)
widths int32 int8 = (omega arith, omega arith)
widths int32 int16 = (omega arith, omega arith)
widths int32 int32 = (omega arith, omega arith)
widths int32 int64 = (omega arith, omega arith)
widths int64 int8 = (omega arith, omega arith)
widths int64 int16 = (omega arith, omega arith)
widths int64 int32 = (omega arith, omega arith)
widths int64 int64 = (omega arith, omega arith)

pub small_fits :
    (u v : Width) (x z : ℤ)
    → half v ≤ half u
    → magnitude z ≤ magnitude x
    → InRange v x
    → fits u z ≡ true
small_fits u v x z h s p = ground arith

module _ (k b : ℕ) where
  opposite_times : sub_ℕ 0 k *ℤ pos b ≡ sub_ℕ 0 (k * b)
  unfolding ◌*ℤ◌
  opposite_times = ground arith

  times_opposite : pos k *ℤ negsuc b ≡ sub_ℕ 0 (k * (b + 1))
  unfolding ◌*ℤ◌
  times_opposite = ground arith

  opposite_times_opposite : sub_ℕ 0 k *ℤ negsuc b ≡ pos (k * (b + 1))
  unfolding ◌*ℤ◌
  opposite_times_opposite = ground arith

-- A quotient times its divisor lies between zero and what is divided.
back_within :
    (x y : ℤ) → let p = quotient x y *ℤ y in (pos_part p ≤ pos_part x) × (neg_part p ≤ neg_part x)
unfolding quotient
back_within (pos a) (pos b) = rw (mul_pp (a / b) b) (div-mul-le_self a b, omega arith)
back_within (pos a) (negsuc b) =
    rw (opposite_times_opposite (a / (b + 1)) b) (div-mul-le_self a (b + 1), omega arith)
back_within (negsuc a) (pos b) =
    let small = div-mul-le_self (a + 1) b in
    rw (opposite_times ((a + 1) / b) b) (ground (arith, small), ground (arith, small))
back_within (negsuc a) (negsuc b) =
    let small = div-mul-le_self (a + 1) (b + 1) in
    rw (times_opposite ((a + 1) / (b + 1)) b) (ground (arith, small), ground (arith, small))

-- What is left when a part of a number is taken from it.
rest_small :
    (x p : ℤ)
    → (pos_part p ≤ pos_part x) × (neg_part p ≤ neg_part x)
    → magnitude (x -ℤ p) ≤ magnitude x
unfolding ◌-ℤ◌
rest_small x p (h, k) = ground arith

pub remainder_small : (x y : ℤ) → magnitude (remainder x y) ≤ magnitude x
unfolding remainder
remainder_small x y = rest_small x (quotient x y *ℤ y) (back_within x y)
