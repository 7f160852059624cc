-- ===== src/Types/Boolean.antt =====
-- bustub/src/type/boolean_type.cpp.
use learning_journey.Base.{
  Bool, not, ◌||◌, List, [], ◌∷◌, ℕ, Outcome, ok, throw, failure, assertion_failed, ◌>>=◌, ◌>>◌,
  throw_if, if◌then◌else◌, ℤ, pos, eqb_ℤ, ltb_ℤ, leb_ℤ, ◌*◌,
}
use learning_journey.Types.{
  TypeId, boolean, varchar, CmpBool, cmp_null, get_cmp_bool, Value, Library, new_int8, new_varchar,
  blank, check_comparable, int8, half, residue, signed,
}
use learning_journey.Types.Family.{low_bytes, from_bytes}

-- The characters of "true", "false" and "boolean_null".
abbrev to_string : {D : Type 0} → Value D → List ℕ
to_string val =
    if eqb_ℤ val.number (pos 1)
    then 116 ∷ 114 ∷ 117 ∷ 101 ∷ []
    else if eqb_ℤ val.number (pos 0)
    then 102 ∷ 97 ∷ 108 ∷ 115 ∷ 101 ∷ []
    else 98 ∷ 111 ∷ 111 ∷ 108 ∷ 101 ∷ 97 ∷ 110 ∷ 95 ∷ 110 ∷ 117 ∷ 108 ∷ 108 ∷ []

module _ {D : Type 0} (lib : Library D) where
  unfoldable pub copy : Value D → Outcome (Value D)
  copy val = new_int8 lib boolean val.number

  unfoldable pub cast_as : Value D → TypeId → Outcome (Value D)
  unfolding copy
  cast_as val boolean = copy val
  cast_as val varchar =
      if val.is_null then ok (blank lib varchar) else ok (new_varchar lib (to_string val))
  cast_as val _ = throw failure

  -- `BOOLEAN_COMPARE_FUNC` with its guards.
  unfoldable compare : (ℤ → ℤ → Bool) → Value D → Value D → Outcome CmpBool
  unfolding cast_as
  compare op left right =
      throw_if (not (check_comparable left right)) assertion_failed
      >> (if left.is_null || right.is_null
          then ok cmp_null
          else cast_as right boolean >>= λ o. ok (get_cmp_bool (op left.number o.number)))

  unfoldable pub compare_equals : Value D → Value D → Outcome CmpBool
  unfolding compare
  compare_equals = compare eqb_ℤ

  unfoldable pub compare_not_equals : Value D → Value D → Outcome CmpBool
  unfolding compare
  compare_not_equals = compare (λ a b. not (eqb_ℤ a b))

  unfoldable pub compare_less_than : Value D → Value D → Outcome CmpBool
  unfolding compare
  compare_less_than = compare ltb_ℤ

  unfoldable pub compare_less_than_equals : Value D → Value D → Outcome CmpBool
  unfolding compare
  compare_less_than_equals = compare leb_ℤ

  unfoldable pub compare_greater_than : Value D → Value D → Outcome CmpBool
  unfolding compare
  compare_greater_than = compare (λ a b. ltb_ℤ b a)

  unfoldable pub compare_greater_than_equals : Value D → Value D → Outcome CmpBool
  unfolding compare
  compare_greater_than_equals = compare (λ a b. leb_ℤ b a)

  unfoldable pub serialize : Value D → List ℕ
  unfolding low_bytes
  serialize v = low_bytes 1 (residue (2 * half int8) v.number)

  unfoldable pub deserialize : List ℕ → Outcome (Value D)
  unfolding from_bytes
  deserialize storage = new_int8 lib boolean (signed (half int8) (from_bytes storage))
