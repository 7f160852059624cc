-- ===== src/Types/Checked.antt =====
-- What the checked arithmetic returns: the exact result in the wider of the two types, or an error.
use learning_journey.Base.{
  ◌≡◌, refl, arith, Bool, true, false, Outcome, ok, throw, undefined, out_of_range, leb,
  if◌then◌else◌, ℤ, Bool-cases, inl, inr, ◌∙◌, sym,
}
use learning_journey.Types.{
  Width, int8, int16, int32, int64, bits, fits, Value, Library, blank, store, new_int8, new_wider,
}
use learning_journey.Types.Exact.{wrap_kept, wrap_changed}
use learning_journey.Types.Arithmetic.{checked}
use learning_journey.Types.Family.{type_of, wider_of}

module _ {D : Type 0} (lib : Library D) where
  -- A value of an integer type that is not NULL.
  abbrev pub integer_value : Width → ℤ → Value D
  integer_value w x = record (blank lib (type_of w)) { number = x; is_null = false }

  -- The value of so many bits; where there is none, the exception of the narrow types, or what is
  -- undefined in the wide ones.
  abbrev pub exact_or_error : Width → ℤ → Outcome (Value D)
  exact_or_error w z =
      if fits w z
      then ok (store lib (type_of w) w z)
      else if leb (bits w) 16
      then throw out_of_range
      else throw undefined

  module _ (x y s : ℤ) (bad : ℤ → Bool) where
    checked-fits :
        (v w : Width)
        → fits (wider_of v w) s ≡ true
        → bad s ≡ false
        → checked lib v w (integer_value v x) (integer_value w y) s bad
          ≡ ok (store lib (type_of (wider_of v w)) (wider_of v w) s)
    unfolding checked new_int8 new_wider
    checked-fits int8 int8 h b = let k = wrap_kept int8 s h in ground (arith, b, h)
    checked-fits int8 int16 h b = let k = wrap_kept int16 s h in ground (arith, b, h)
    checked-fits int8 int32 h b = let k = wrap_kept int32 s h in ground (arith, b, h)
    checked-fits int8 int64 h b = let k = wrap_kept int64 s h in ground (arith, b, h)
    checked-fits int16 int8 h b = let k = wrap_kept int16 s h in ground (arith, b, h)
    checked-fits int16 int16 h b = let k = wrap_kept int16 s h in ground (arith, b, h)
    checked-fits int16 int32 h b = let k = wrap_kept int32 s h in ground (arith, b, h)
    checked-fits int16 int64 h b = let k = wrap_kept int64 s h in ground (arith, b, h)
    checked-fits int32 int8 h b = let k = wrap_kept int32 s h in ground (arith, b, h)
    checked-fits int32 int16 h b = let k = wrap_kept int32 s h in ground (arith, b, h)
    checked-fits int32 int32 h b = let k = wrap_kept int32 s h in ground (arith, b, h)
    checked-fits int32 int64 h b = let k = wrap_kept int64 s h in ground (arith, b, h)
    checked-fits int64 int8 h b = let k = wrap_kept int64 s h in ground (arith, b, h)
    checked-fits int64 int16 h b = let k = wrap_kept int64 s h in ground (arith, b, h)
    checked-fits int64 int32 h b = let k = wrap_kept int64 s h in ground (arith, b, h)
    checked-fits int64 int64 h b = let k = wrap_kept int64 s h in ground (arith, b, h)

    checked_overflows :
        (v w : Width)
        → fits (wider_of v w) s ≡ false
        → (leb (bits (wider_of v w)) 16 ≡ true → fits int32 s ≡ true)
        → checked lib v w (integer_value v x) (integer_value w y) s bad
          ≡ (if leb (bits (wider_of v w)) 16 then throw out_of_range else throw undefined)
    unfolding checked
    checked_overflows int8 int8 h n =
        let k = wrap_changed int8 s h in let f = n refl in rw (f, k) refl
    checked_overflows int8 int16 h n =
        let k = wrap_changed int8 s (ground (arith, h)) in
        let l = wrap_changed int16 s (ground (arith, h)) in let f = n refl in rw (f, k, l) refl
    checked_overflows int8 int32 h n = rw h refl
    checked_overflows int8 int64 h n = rw h refl
    checked_overflows int16 int8 h n =
        let k = wrap_changed int16 s (ground (arith, h)) in
        let l = wrap_changed int8 s (ground (arith, h)) in let f = n refl in rw (f, k, l) refl
    checked_overflows int16 int16 h n =
        let k = wrap_changed int16 s h in let f = n refl in rw (f, k) refl
    checked_overflows int16 int32 h n = rw h refl
    checked_overflows int16 int64 h n = rw h refl
    checked_overflows int32 int8 h n = rw h refl
    checked_overflows int32 int16 h n = rw h refl
    checked_overflows int32 int32 h n = rw h refl
    checked_overflows int32 int64 h n = rw h refl
    checked_overflows int64 int8 h n = rw h refl
    checked_overflows int64 int16 h n = rw h refl
    checked_overflows int64 int32 h n = rw h refl
    checked_overflows int64 int64 h n = rw h refl

  pub checked_lem :
      (v w : Width) (x y s : ℤ) (bad : ℤ → Bool)
      → (fits (wider_of v w) s ≡ true → bad s ≡ false)
      → (leb (bits (wider_of v w)) 16 ≡ true → fits int32 s ≡ true)
      → checked lib v w (integer_value v x) (integer_value w y) s bad
        ≡ exact_or_error (wider_of v w) s
  checked_lem v w x y s bad good small = elim (Bool-cases (fits (wider_of v w) s)) [
    | inl h ↦ checked-fits x y s bad v w h (good h) ∙ sym (rw h refl)
    | inr h ↦ checked_overflows x y s bad v w h small ∙ sym (rw h refl)
  ]
