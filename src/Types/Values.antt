-- ===== src/Types/Values.antt =====
-- The methods of `Value`, bustub/src/include/type/value.h, which call those of its type. Of the
-- types, the four integer ones are there; a value of another type is refused as `undefined`. `min`
-- and `max` are those of bustub/src/type/integer_parent_type.cpp.
use learning_journey.Base.{
  Bool, not, ◌||◌, List, ℕ, Outcome, ok, throw, ◌>>=◌, ◌>>◌, throw_if, undefined, assertion_failed,
  if◌then◌else◌,
}
use learning_journey.Types.{
  TypeId, tinyint, smallint, integer, bigint, CmpBool, cmp_true, Value, Library, check_integer,
  check_comparable,
}
use learning_journey.Types.Tinyint
use learning_journey.Types.Smallint
use learning_journey.Types.Integer
use learning_journey.Types.Bigint

-- The method of the class for a type, of the four.
unfoldable pub instance_of {ℓ} : {A : Type ℓ} → TypeId → A → A → A → A → Outcome A
instance_of tinyint a b c d = ok a
instance_of smallint a b c d = ok b
instance_of integer a b c d = ok c
instance_of bigint a b c d = ok d
instance_of _ a b c d = throw undefined

unfoldable pub is_true : CmpBool → Bool
is_true cmp_true = Bool.true
is_true _ = Bool.false

module _ {D : Type 0} (lib : Library D) where
  unfoldable pub add : Value D → Value D → Outcome (Value D)
  unfolding instance_of Tinyint.add Smallint.add Integer.add Bigint.add
  add v o =
      instance_of v.type_id (Tinyint.add lib) (Smallint.add lib) (Integer.add lib) (Bigint.add lib)
      >>= λ method. method v o

  unfoldable pub subtract : Value D → Value D → Outcome (Value D)
  unfolding instance_of Tinyint.subtract Smallint.subtract Integer.subtract Bigint.subtract
  subtract v o =
      instance_of v.type_id (Tinyint.subtract lib) (Smallint.subtract lib) (Integer.subtract lib)
        (Bigint.subtract lib)
      >>= λ method. method v o

  unfoldable pub multiply : Value D → Value D → Outcome (Value D)
  unfolding instance_of Tinyint.multiply Smallint.multiply Integer.multiply Bigint.multiply
  multiply v o =
      instance_of v.type_id (Tinyint.multiply lib) (Smallint.multiply lib) (Integer.multiply lib)
        (Bigint.multiply lib)
      >>= λ method. method v o

  unfoldable pub divide : Value D → Value D → Outcome (Value D)
  unfolding instance_of Tinyint.divide Smallint.divide Integer.divide Bigint.divide
  divide v o =
      instance_of v.type_id (Tinyint.divide lib) (Smallint.divide lib) (Integer.divide lib)
        (Bigint.divide lib)
      >>= λ method. method v o

  unfoldable pub modulo : Value D → Value D → Outcome (Value D)
  unfolding instance_of Tinyint.modulo Smallint.modulo Integer.modulo Bigint.modulo
  modulo v o =
      instance_of v.type_id (Tinyint.modulo lib) (Smallint.modulo lib) (Integer.modulo lib)
        (Bigint.modulo lib)
      >>= λ method. method v o

  unfoldable pub compare_equals : Value D → Value D → Outcome CmpBool
  unfolding instance_of Tinyint.compare_equals Smallint.compare_equals Integer.compare_equals
      Bigint.compare_equals
  compare_equals v o =
      instance_of v.type_id (Tinyint.compare_equals lib) (Smallint.compare_equals lib)
        (Integer.compare_equals lib) (Bigint.compare_equals lib)
      >>= λ method. method v o

  unfoldable pub compare_not_equals : Value D → Value D → Outcome CmpBool
  unfolding instance_of Tinyint.compare_not_equals Smallint.compare_not_equals
      Integer.compare_not_equals Bigint.compare_not_equals
  compare_not_equals v o =
      instance_of v.type_id (Tinyint.compare_not_equals lib) (Smallint.compare_not_equals lib)
        (Integer.compare_not_equals lib) (Bigint.compare_not_equals lib)
      >>= λ method. method v o

  unfoldable pub compare_less_than : Value D → Value D → Outcome CmpBool
  unfolding instance_of Tinyint.compare_less_than Smallint.compare_less_than
      Integer.compare_less_than Bigint.compare_less_than
  compare_less_than v o =
      instance_of v.type_id (Tinyint.compare_less_than lib) (Smallint.compare_less_than lib)
        (Integer.compare_less_than lib) (Bigint.compare_less_than lib)
      >>= λ method. method v o

  unfoldable pub compare_less_than_equals : Value D → Value D → Outcome CmpBool
  unfolding instance_of Tinyint.compare_less_than_equals Smallint.compare_less_than_equals
      Integer.compare_less_than_equals Bigint.compare_less_than_equals
  compare_less_than_equals v o =
      instance_of v.type_id (Tinyint.compare_less_than_equals lib)
        (Smallint.compare_less_than_equals lib) (Integer.compare_less_than_equals lib)
        (Bigint.compare_less_than_equals lib)
      >>= λ method. method v o

  unfoldable pub compare_greater_than : Value D → Value D → Outcome CmpBool
  unfolding instance_of Tinyint.compare_greater_than Smallint.compare_greater_than
      Integer.compare_greater_than Bigint.compare_greater_than
  compare_greater_than v o =
      instance_of v.type_id (Tinyint.compare_greater_than lib) (Smallint.compare_greater_than lib)
        (Integer.compare_greater_than lib) (Bigint.compare_greater_than lib)
      >>= λ method. method v o

  unfoldable pub compare_greater_than_equals : Value D → Value D → Outcome CmpBool
  unfolding instance_of Tinyint.compare_greater_than_equals Smallint.compare_greater_than_equals
      Integer.compare_greater_than_equals Bigint.compare_greater_than_equals
  compare_greater_than_equals v o =
      instance_of v.type_id (Tinyint.compare_greater_than_equals lib)
        (Smallint.compare_greater_than_equals lib) (Integer.compare_greater_than_equals lib)
        (Bigint.compare_greater_than_equals lib)
      >>= λ method. method v o

  unfoldable pub operate_null : Value D → Value D → Outcome (Value D)
  unfolding instance_of Tinyint.operate_null Smallint.operate_null Integer.operate_null
      Bigint.operate_null
  operate_null v o =
      instance_of v.type_id (Tinyint.operate_null lib) (Smallint.operate_null lib)
        (Integer.operate_null lib) (Bigint.operate_null lib)
      >>= λ method. method o

  unfoldable pub copy : Value D → Outcome (Value D)
  unfolding instance_of Tinyint.copy Smallint.copy Integer.copy Bigint.copy
  copy v =
      instance_of v.type_id (Tinyint.copy lib) (Smallint.copy lib) (Integer.copy lib)
        (Bigint.copy lib)
      >>= λ method. method v

  unfoldable pub sqrt : Value D → Outcome (Value D)
  unfolding instance_of Tinyint.sqrt Smallint.sqrt Integer.sqrt Bigint.sqrt
  sqrt v =
      instance_of v.type_id (Tinyint.sqrt lib) (Smallint.sqrt lib) (Integer.sqrt lib)
        (Bigint.sqrt lib)
      >>= λ method. method v

  unfoldable pub cast_as : Value D → TypeId → Outcome (Value D)
  unfolding instance_of Tinyint.cast_as Smallint.cast_as Integer.cast_as Bigint.cast_as
  cast_as v type_id =
      instance_of v.type_id (Tinyint.cast_as lib) (Smallint.cast_as lib) (Integer.cast_as lib)
        (Bigint.cast_as lib)
      >>= λ method. method v type_id

  unfoldable pub serialize_to : Value D → Outcome (List ℕ)
  unfolding instance_of Tinyint.serialize_to Smallint.serialize_to Integer.serialize_to
      Bigint.serialize_to
  serialize_to v =
      instance_of v.type_id (Tinyint.serialize_to lib v) (Smallint.serialize_to lib v)
        (Integer.serialize_to lib v) (Bigint.serialize_to lib v)

  unfoldable pub deserialize_from : List ℕ → TypeId → Outcome (Value D)
  unfolding instance_of Tinyint.deserialize_from Smallint.deserialize_from Integer.deserialize_from
      Bigint.deserialize_from
  deserialize_from storage type_id =
      instance_of type_id (Tinyint.deserialize_from lib) (Smallint.deserialize_from lib)
        (Integer.deserialize_from lib) (Bigint.deserialize_from lib)
      >>= λ method. method storage

  unfoldable pub min : Value D → Value D → Outcome (Value D)
  unfolding compare_less_than operate_null copy is_true
  min left right =
      throw_if (not (check_integer left)) assertion_failed
      >> throw_if (not (check_comparable left right)) assertion_failed
      >> (if left.is_null || right.is_null
          then operate_null left right
          else (compare_less_than left right >>= λ c. if is_true c then copy left else copy right))

  unfoldable pub max : Value D → Value D → Outcome (Value D)
  unfolding compare_greater_than_equals operate_null copy is_true
  max left right =
      throw_if (not (check_integer left)) assertion_failed
      >> throw_if (not (check_comparable left right)) assertion_failed
      >> (if left.is_null || right.is_null
          then operate_null left right
          else (compare_greater_than_equals left right >>= λ c.
              if is_true c then copy left else copy right))
