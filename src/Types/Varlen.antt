-- ===== src/Types/Varlen.antt =====
-- bustub/src/type/varlen_type.cpp for VARCHAR, with `CompareStrings` of
-- bustub/src/include/type/type_util.h. A string is shorter than 2^31. The conversion to a DECIMAL,
-- which Types/Decimal has, is refused as `undefined` here.
pub mod Lexical
use learning_journey.Base.{
  ℕ, ◌+◌, ◌-◌, Bool, true, false, not, ◌&&◌, ◌||◌, List, [], ◌∷◌, map, Outcome, ok, throw, failure,
  undefined, assertion_failed, ◌>>=◌, ◌>>◌, throw_if, ltb, leb, ◌==◌, if◌then◌else◌, length, ℤ, pos,
}
use learning_journey.Types.{
  TypeId, invalid, boolean, tinyint, smallint, integer, bigint, decimal, varchar, CmpBool, cmp_null,
  cmp_true, get_cmp_bool, Value, Library, Width, int8, int16, int32, int64, new_int32,
  check_comparable, blank,
}
use learning_journey.Types.Family.{varchar_as, varlen_null}
use learning_journey.Types.Boolean
use learning_journey.Types.Values

-- The sign of what `memcmp` and `CompareStrings` return.
pub data Sign : Type 0 where
  below same above : Sign

-- `memcmp` on as many characters as the shorter string has.
unfoldable pub compare_memory : List ℕ → List ℕ → Sign
compare_memory [] ys = same
compare_memory (x ∷ xs) [] = same
compare_memory (x ∷ xs) (y ∷ ys) =
    let rest = compare_memory xs ys in if ltb x y then below else if ltb y x then above else rest

unfoldable pub compare_strings : List ℕ → List ℕ → Sign
compare_strings xs ys = elim (compare_memory xs ys) [
  | below ↦ below
  | above ↦ above
  | same ↦
      if length xs == length ys then same else if ltb (length xs) (length ys) then below else above
]

-- The operators of `VARLEN_COMPARE_FUNC` with 0 on the right.
abbrev pub is_zero : Sign → Bool
is_zero below = false
is_zero same = true
is_zero above = false

abbrev pub negative : Sign → Bool
negative below = true
negative same = false
negative above = false

abbrev pub positive : Sign → Bool
positive below = false
positive same = false
positive above = true

abbrev equal : List ℕ → List ℕ → Bool
equal [] [] = true
equal (x ∷ xs) (y ∷ ys) = (x == y) && equal xs ys
equal _ _ = false

-- `ToString`
abbrev to_string : {D : Type 0} → Value D → List ℕ
to_string val = if val.is_null then varlen_null else val.text

-- `std::transform` with `tolower`
abbrev lower : List ℕ → List ℕ
lower = map (λ c. if leb 65 c && leb c 90 then c + 32 else c)

-- "true", "1" and "t", and "false", "0" and "f"
abbrev is_true_word : List ℕ → Bool
is_true_word s = equal s (116 ∷ 114 ∷ 117 ∷ 101 ∷ []) || equal s (49 ∷ []) || equal s (116 ∷ [])

abbrev is_false_word : List ℕ → Bool
is_false_word s =
    equal s (102 ∷ 97 ∷ 108 ∷ 115 ∷ 101 ∷ []) || equal s (48 ∷ []) || equal s (102 ∷ [])

module _ {D : Type 0} (lib : Library D) where
  -- The case of `CastAs` for BOOLEAN.
  abbrev cast_boolean : List ℕ → Outcome (Value D)
  cast_boolean str =
      if is_true_word str
      then new_int32 lib boolean (pos 1)
      else if is_false_word str
      then new_int32 lib boolean (pos 0)
      else throw failure

  unfoldable pub cast_as : Value D → TypeId → Outcome (Value D)
  cast_as value boolean = cast_boolean (lower (to_string value))
  cast_as value tinyint = varchar_as lib int8 value
  cast_as value smallint = varchar_as lib int16 value
  cast_as value integer = varchar_as lib int32 value
  cast_as value bigint = varchar_as lib int64 value
  cast_as value decimal = throw undefined
  cast_as value varchar = ok value
  cast_as value _ = throw failure

  -- `right.CastAs(TypeId::VARCHAR)`, by the class of its type.
  unfoldable pub to_varchar : Value D → Outcome (Value D)
  to_varchar right = elim right.type_id [
    | varchar ↦ ok right
    | boolean ↦ Boolean.cast_as lib right varchar
    | _ ↦ Values.cast_as lib right varchar
  ]

  unfoldable pub compare : (Sign → Bool) → Value D → Value D → Outcome CmpBool
  compare op left right =
      throw_if (not (check_comparable left right)) assertion_failed
      >> (if left.is_null || right.is_null
          then ok cmp_null
          else to_varchar right >>= λ r. ok (get_cmp_bool (op (compare_strings left.text r.text))))

  unfoldable pub compare_equals : Value D → Value D → Outcome CmpBool
  unfolding compare
  compare_equals = compare is_zero

  unfoldable pub compare_not_equals : Value D → Value D → Outcome CmpBool
  unfolding compare
  compare_not_equals = compare (λ s. not (is_zero s))

  unfoldable pub compare_less_than : Value D → Value D → Outcome CmpBool
  unfolding compare
  compare_less_than = compare negative

  unfoldable pub compare_less_than_equals : Value D → Value D → Outcome CmpBool
  unfolding compare
  compare_less_than_equals = compare (λ s. not (positive s))

  unfoldable pub compare_greater_than : Value D → Value D → Outcome CmpBool
  unfolding compare
  compare_greater_than = compare positive

  unfoldable pub compare_greater_than_equals : Value D → Value D → Outcome CmpBool
  unfolding compare
  compare_greater_than_equals = compare (λ s. not (negative s))

  abbrev is_true : CmpBool → Bool
  is_true cmp_true = true
  is_true _ = false

  -- `OperateNull`, which `Type` throws for and this class does not have, when one is NULL.
  unfoldable pub min : Value D → Value D → Outcome (Value D)
  unfolding compare_less_than
  min left right =
      throw_if (not (check_comparable left right)) assertion_failed
      >> (if left.is_null || right.is_null
          then throw failure
          else compare_less_than left right >>= λ c. ok (if is_true c then left else right))

  unfoldable pub max : Value D → Value D → Outcome (Value D)
  unfolding compare_greater_than
  max left right =
      throw_if (not (check_comparable left right)) assertion_failed
      >> (if left.is_null || right.is_null
          then throw failure
          else compare_greater_than left right >>= λ c. ok (if is_true c then left else right))
