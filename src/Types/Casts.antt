-- ===== src/Types/Casts.antt =====
-- Casts between the integer types, storage, and the smaller and larger of two values.
use learning_journey.Base.{
  ℕ, zero, suc, ◌*◌, ◌/◌, ◌^◌, ◌<◌, ℤ, pos, negsuc, pos_part, neg_part, ◌≡◌, refl, ap, arith, Bool,
  true, inl, inr, ok, throw, out_of_range, ◌>>=◌, ltb, ◌&&◌, if◌then◌else◌, Bool-cases, ltb_ℤ, ◌||◌,
  not, throw_if, ◌>>◌,
}
use native.Mathlib.Nat.{div-add-mod}
use learning_journey.Types.{
  Width, int8, int16, int32, int64, bits, half, Library, wrap, store, new_int8, new_wider, signed,
  residue,
}
use learning_journey.Types.Family
use learning_journey.Types.Family.{wider_of, type_of, low_bytes, from_bytes, int_min, int_max}
use learning_journey.Types.Exact.{wrap_kept}
use learning_journey.Types.Checked.{integer_value}
use learning_journey.Types.Overflows.{InRange}
use learning_journey.Types.Tinyint
use learning_journey.Types.Smallint
use learning_journey.Types.Integer
use learning_journey.Types.Bigint
use learning_journey.Types.Values

-- Whether a type holds a number, other than the one that stands for NULL.
abbrev pub in_range : Width → ℤ → Bool
in_range w z = ltb (neg_part z) (half w) && ltb (pos_part z) (half w)

pub bytes_back : (n r : ℕ) → r < 256 ^ n → from_bytes (low_bytes n r) ≡ r
unfolding from_bytes low_bytes
bytes_back zero r h = omega arith
bytes_back (suc n) r h =
    let rest = bytes_back n (r / 256) (omega arith) in omega (arith, rest, div-add-mod r 256)

word_bound : (w : Width) (x : ℤ) → residue (2 * half w) x < 2 * half w
word_bound int8 (pos n) = omega arith
word_bound int8 (negsuc n) = omega arith
word_bound int16 (pos n) = omega arith
word_bound int16 (negsuc n) = omega arith
word_bound int32 (pos n) = omega arith
word_bound int32 (negsuc n) = omega arith
word_bound int64 (pos n) = omega arith
word_bound int64 (negsuc n) = omega arith

module _ {D : Type 0} (lib : Library D) where
  -- What the constructor makes of a number in range.
  pub store-eq :
      (w : Width) (x : ℤ) → InRange w x → store lib (type_of w) w x ≡ integer_value lib w x
  unfolding store
  store-eq int8 x p =
      rw (wrap_kept int8 x (ground arith))
        (ap (λ b. record (integer_value lib int8 x) { is_null = b }) (ground arith))
  store-eq int16 x p =
      rw (wrap_kept int16 x (ground arith))
        (ap (λ b. record (integer_value lib int16 x) { is_null = b }) (ground arith))
  store-eq int32 x p =
      rw (wrap_kept int32 x (ground arith))
        (ap (λ b. record (integer_value lib int32 x) { is_null = b }) (ground arith))
  store-eq int64 x p =
      rw (wrap_kept int64 x (ground arith))
        (ap (λ b. record (integer_value lib int64 x) { is_null = b }) (ground arith))

  range_parts : (w : Width) (x : ℤ) → in_range w x ≡ true → InRange w x
  range_parts w x t = (ground arith, ground arith)

  guard_range :
      (w : Width) (x : ℤ) → (ltb_ℤ (int_max w) x || ltb_ℤ x (int_min w)) ≡ not (in_range w x)
  guard_range int8 x = ground arith
  guard_range int16 x = ground arith
  guard_range int32 x = ground arith
  guard_range int64 x = ground arith

  cast_narrow :
      (w : Width) (x : ℤ)
      → (throw_if (ltb_ℤ (int_max w) x || ltb_ℤ x (int_min w)) out_of_range
          >> ok (store lib (type_of w) w (wrap w x)))
        ≡ (if in_range w x then ok (integer_value lib w x) else throw out_of_range)
  cast_narrow w x = elim (Bool-cases (in_range w x)) [
    | inl t ↦
        let (low, high) = range_parts w x t in
        rw (guard_range w x, t, wrap_kept w x (ground (arith, low, high)))
          (ap ok (store-eq w x (low, high)))
    | inr f ↦ rw (guard_range w x, f) refl
  ]

  -- A cast of an integer value that is not NULL to another integer type gives the same number, or
  -- throws `OUT_OF_RANGE` where that type does not hold it or keeps it for NULL.
  pub cast_exact :
      (v w : Width) (x : ℤ)
      → InRange v x
      → Values.cast_as lib (integer_value lib v x) (type_of w)
        ≡ (if in_range w x then ok (integer_value lib w x) else throw out_of_range)
  unfolding Values.instance_of Family.cast_as Family.copy new_int8 new_wider Values.cast_as
      Tinyint.cast_as Smallint.cast_as Integer.cast_as Bigint.cast_as
  cast_exact int8 int8 x p =
      let t : in_range int8 x ≡ true = ground arith in rw t (ap ok (store-eq int8 x (omega arith)))
  cast_exact int8 int16 x p =
      let t : in_range int16 x ≡ true = ground arith in
      rw t (ap ok (store-eq int16 x (omega arith)))
  cast_exact int8 int32 x p =
      let t : in_range int32 x ≡ true = ground arith in
      rw t (ap ok (store-eq int32 x (omega arith)))
  cast_exact int8 int64 x p =
      let t : in_range int64 x ≡ true = ground arith in
      rw t (ap ok (store-eq int64 x (omega arith)))
  cast_exact int16 int8 x p = cast_narrow int8 x
  cast_exact int16 int16 x p =
      let t : in_range int16 x ≡ true = ground arith in
      rw t (ap ok (store-eq int16 x (omega arith)))
  cast_exact int16 int32 x p =
      let t : in_range int32 x ≡ true = ground arith in
      rw t (ap ok (store-eq int32 x (omega arith)))
  cast_exact int16 int64 x p =
      let t : in_range int64 x ≡ true = ground arith in
      rw t (ap ok (store-eq int64 x (omega arith)))
  cast_exact int32 int8 x p = cast_narrow int8 x
  cast_exact int32 int16 x p = cast_narrow int16 x
  cast_exact int32 int32 x p =
      let t : in_range int32 x ≡ true = ground arith in
      rw t (ap ok (store-eq int32 x (omega arith)))
  cast_exact int32 int64 x p =
      let t : in_range int64 x ≡ true = ground arith in
      rw t (ap ok (store-eq int64 x (omega arith)))
  cast_exact int64 int8 x p = cast_narrow int8 x
  cast_exact int64 int16 x p = cast_narrow int16 x
  cast_exact int64 int32 x p = cast_narrow int32 x
  cast_exact int64 int64 x p =
      let t : in_range int64 x ≡ true = ground arith in
      rw t (ap ok (store-eq int64 x (omega arith)))

  pub read_back :
      (w : Width) (x : ℤ)
      → signed (half w) (from_bytes (low_bytes (bits w / 8) (residue (2 * half w) x))) ≡ wrap w x
  unfolding wrap
  read_back int8 x = ap (signed (half int8)) (bytes_back 1 _ (word_bound int8 x))
  read_back int16 x = ap (signed (half int16)) (bytes_back 2 _ (word_bound int16 x))
  read_back int32 x = ap (signed (half int32)) (bytes_back 4 _ (word_bound int32 x))
  read_back int64 x = ap (signed (half int64)) (bytes_back 8 _ (word_bound int64 x))

  -- An integer value that is not NULL, written to storage and read back as its type, is the same.
  pub deserialize-serialize :
      (w : Width) (x : ℤ)
      → InRange w x
      → (Values.serialize_to lib (integer_value lib w x) >>= λ storage.
          Values.deserialize_from lib storage (type_of w))
        ≡ ok (integer_value lib w x)
  unfolding Values.instance_of Family.serialize Family.deserialize new_int8 new_wider
      Values.serialize_to Tinyint.serialize_to Smallint.serialize_to Integer.serialize_to
      Bigint.serialize_to Values.deserialize_from Tinyint.deserialize_from Smallint.deserialize_from
      Integer.deserialize_from Bigint.deserialize_from
  deserialize-serialize int8 x p =
      rw (read_back int8 x, wrap_kept int8 x (ground arith)) (ap ok (store-eq int8 x p))
  deserialize-serialize int16 x p =
      rw (read_back int16 x, wrap_kept int16 x (ground arith)) (ap ok (store-eq int16 x p))
  deserialize-serialize int32 x p =
      rw (read_back int32 x, wrap_kept int32 x (ground arith)) (ap ok (store-eq int32 x p))
  deserialize-serialize int64 x p =
      rw (read_back int64 x, wrap_kept int64 x (ground arith)) (ap ok (store-eq int64 x p))
