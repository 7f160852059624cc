-- ===== src/Types/Exact.antt =====
-- When a cast to so many bits keeps an integer.
use learning_journey.Base.{◌≡◌, arith, true, false, ℤ, pos, negsuc, eqb_ℤ}
use learning_journey.Types.{Width, int8, int16, int32, int64, fits, wrap}

pub wrap_kept : (w : Width) (z : ℤ) → fits w z ≡ true → wrap w z ≡ z
unfolding wrap
wrap_kept int8 (pos n) h = ground arith
wrap_kept int16 (pos n) h = ground arith
wrap_kept int32 (pos n) h = ground arith
wrap_kept int64 (pos n) h = ground arith
wrap_kept int8 (negsuc n) h = ground arith
wrap_kept int16 (negsuc n) h = ground arith
wrap_kept int32 (negsuc n) h = ground arith
wrap_kept int64 (negsuc n) h = ground arith

pub wrap_changed : (w : Width) (z : ℤ) → fits w z ≡ false → eqb_ℤ z (wrap w z) ≡ false
unfolding wrap
wrap_changed int8 (pos n) h = ground arith
wrap_changed int16 (pos n) h = ground arith
wrap_changed int32 (pos n) h = ground arith
wrap_changed int64 (pos n) h = ground arith
wrap_changed int8 (negsuc n) h = ground arith
wrap_changed int16 (negsuc n) h = ground arith
wrap_changed int32 (negsuc n) h = ground arith
wrap_changed int64 (negsuc n) h = ground arith
