-- ===== src/Types/Family.antt =====
-- What the four integer types of bustub/src/type (tinyint_type.cpp, smallint_type.cpp,
-- integer_type.cpp, bigint_type.cpp) share: the same text but for the width, which is `w` here. The
-- left operand of a method is a value of the type that the method belongs to, since the calls go
-- through `Type::GetInstance(type_id_)`.
use learning_journey.Base.{
  ℕ, zero, suc, ◌+◌, ◌-◌, ◌*◌, ◌/◌, ◌%◌, Bool, not, ◌||◌, List, [], ◌∷◌, Outcome, ok, throw, ◌>>=◌,
  ◌>>◌, throw_if, std_out_of_range, out_of_range, divide_by_zero, decimal_error, failure,
  assertion_failed, leb, if◌then◌else◌, ℤ, pos, negsuc, ltb_ℤ, leb_ℤ, eqb_ℤ,
}
use learning_journey.Types.{
  Width, int8, int16, int32, int64, bits, half, wrap, residue, signed, int_null, TypeId, tinyint,
  smallint, integer, bigint, decimal, varchar, CmpBool, cmp_null, get_cmp_bool, Value, Library,
  check_integer, check_comparable, blank, new_int, new_decimal, new_varchar,
}

abbrev pub type_of : Width → TypeId
type_of int8 = tinyint
type_of int16 = smallint
type_of int32 = integer
type_of int64 = bigint

-- `BUSTUB_INT8_MIN` and the like: one more than the value that stands for NULL.
abbrev pub int_min : Width → ℤ
int_min w = negsuc (half w - 2)

abbrev pub int_max : Width → ℤ
int_max w = pos (half w - 1)

abbrev pub wider_of : Width → Width → Width
wider_of v w = if leb (bits w) (bits v) then v else w

pub data Comparison : Type 0 where
  eq ne lt le gt ge : Comparison

abbrev pub int_test : Comparison → ℤ → ℤ → Bool
int_test eq a b = eqb_ℤ a b
int_test ne a b = not (eqb_ℤ a b)
int_test lt a b = ltb_ℤ a b
int_test le a b = leb_ℤ a b
int_test gt a b = ltb_ℤ b a
int_test ge a b = leb_ℤ b a

-- The `n` lowest bytes of a word, the lowest first, and the word of some bytes.
unfoldable pub low_bytes : ℕ → ℕ → List ℕ
low_bytes zero r = []
low_bytes (suc n) r = r % 256 ∷ low_bytes n (r / 256)

unfoldable pub from_bytes : List ℕ → ℕ
from_bytes [] = 0
from_bytes (b ∷ bs) = b + 256 * from_bytes bs

-- "varlen_null"
abbrev pub varlen_null : List ℕ
varlen_null = 118 ∷ 97 ∷ 114 ∷ 108 ∷ 101 ∷ 110 ∷ 95 ∷ 110 ∷ 117 ∷ 108 ∷ 108 ∷ []

-- `catch (std::out_of_range &e) { throw Exception(ExceptionType::OUT_OF_RANGE, …); }`
abbrev pub catch_range : Outcome ℤ → Outcome ℤ
catch_range (throw std_out_of_range) = throw out_of_range
catch_range r = r

-- `assert(left.CheckInteger()); assert(left.CheckComparable(right));`
abbrev pub check : {D : Type 0} → Value D → Value D → Outcome (Unit {0})
check left right =
    throw_if (not (check_integer left)) assertion_failed
    >> throw_if (not (check_comparable left right)) assertion_failed

abbrev pub comparison :
    {D : Type 0} → (Value D → Value D → Outcome CmpBool) → Value D → Value D → Outcome CmpBool
comparison compare left right =
    check left right >> (if left.is_null || right.is_null then ok cmp_null else compare left right)

module _ {D : Type 0} (lib : Library D) where
  abbrev pub double_test : Comparison → D → D → Bool
  double_test eq a b = lib.eqb a b
  double_test ne a b = not (lib.eqb a b)
  double_test lt a b = lib.ltb a b
  double_test le a b = lib.leb a b
  double_test gt a b = lib.ltb b a
  double_test ge a b = lib.leb b a

  abbrev zero_double : D
  zero_double = lib.of_int (pos 0)

  -- `NumericType::ValMod`
  unfoldable pub val_mod : D → D → D
  val_mod x y = lib.sub x (lib.mul (lib.trunc (lib.div x y)) y)

  abbrev parse : Width → List ℕ → Outcome ℤ
  parse int64 s = lib.stoll s
  parse w s = lib.stoi s

  -- `VarlenType::CastAs` to an integer type.
  unfoldable pub varchar_as : Width → Value D → Outcome (Value D)
  varchar_as w v = do
    i ← catch_range (parse w (if v.is_null then varlen_null else v.text))
    throw_if (ltb_ℤ (wrap w i) (int_min w)) out_of_range
    new_int lib w (type_of w) (wrap w i)

  -- `Value::IsZero`, which only numeric types have.
  zero_by : Value D → TypeId → Outcome Bool
  zero_by v tinyint = ok (eqb_ℤ v.number (pos 0))
  zero_by v smallint = ok (eqb_ℤ v.number (pos 0))
  zero_by v integer = ok (eqb_ℤ v.number (pos 0))
  zero_by v bigint = ok (eqb_ℤ v.number (pos 0))
  zero_by v decimal = ok (lib.eqb v.decimal zero_double)
  zero_by v _ = throw failure

  unfoldable pub is_zero : Value D → Outcome Bool
  unfolding zero_by
  is_zero v = zero_by v v.type_id

  -- `Sqrt`, where `null` is what it returns for NULL.
  unfoldable pub square_root : Outcome (Value D) → Value D → Outcome (Value D)
  square_root null v =
      throw_if (not (check_integer v)) assertion_failed
      >> (if v.is_null
          then null
          else (throw_if (ltb_ℤ v.number (pos 0)) decimal_error
              >> ok (new_decimal lib (lib.sqrt (lib.of_int v.number)))))

  module _ (w : Width) where
    null_by : TypeId → Outcome (Value D)
    null_by tinyint = let v = wider_of w int8 in new_int lib v (type_of v) (int_null v)
    null_by smallint = let v = wider_of w int16 in new_int lib v (type_of v) (int_null v)
    null_by integer = let v = wider_of w int32 in new_int lib v (type_of v) (int_null v)
    null_by bigint = new_int lib int64 bigint (int_null int64)
    null_by decimal = ok (new_decimal lib lib.decimal_null)
    null_by _ = throw failure

    unfoldable pub operate_null : Value D → Outcome (Value D)
    unfolding null_by
    operate_null right = null_by right.type_id

    -- The switch of `…_COMPARE_FUNC`.
    compare_by : Comparison → Value D → Value D → TypeId → Outcome CmpBool
    compare_by op l r tinyint = ok (get_cmp_bool (int_test op l.number r.number))
    compare_by op l r smallint = ok (get_cmp_bool (int_test op l.number r.number))
    compare_by op l r integer = ok (get_cmp_bool (int_test op l.number r.number))
    compare_by op l r bigint = ok (get_cmp_bool (int_test op l.number r.number))
    compare_by op l r decimal = ok (get_cmp_bool (double_test op (lib.of_int l.number) r.decimal))
    compare_by op l r varchar = do
      v ← varchar_as w r
      ok (get_cmp_bool (int_test op l.number v.number))
    compare_by op l r _ = throw failure

    unfoldable pub compare_func : Comparison → Value D → Value D → Outcome CmpBool
    unfolding compare_by
    compare_func op left right = compare_by op left right right.type_id

    -- The switch of `…_MODIFY_FUNC`, where `method v` is `METHOD<T, …>` at the right width `v`.
    modify_by :
        (Width → Value D → Value D → Outcome (Value D))
        → (D → D → D)
        → Value D
        → Value D
        → TypeId
        → Outcome (Value D)
    modify_by method op l r tinyint = method int8 l r
    modify_by method op l r smallint = method int16 l r
    modify_by method op l r integer = method int32 l r
    modify_by method op l r bigint = method int64 l r
    modify_by method op l r decimal = ok (new_decimal lib (op (lib.of_int l.number) r.decimal))
    modify_by method op l r varchar = do v ← varchar_as w r; method w l v
    modify_by method op l r _ = throw failure

    unfoldable pub modify_func :
        (Width → Value D → Value D → Outcome (Value D))
        → (D → D → D)
        → Value D
        → Value D
        → Outcome (Value D)
    unfolding modify_by
    modify_func method op left right = modify_by method op left right right.type_id

    -- `Add`, `Subtract` and `Multiply` at their switch.
    unfoldable pub operation :
        (Value D → Value D → Outcome (Value D)) → Value D → Value D → Outcome (Value D)
    unfolding operate_null
    operation modify left right =
        check left right
        >> (if left.is_null || right.is_null then operate_null right else modify left right)

    -- `Divide` and `Modulo` at theirs.
    unfoldable pub division :
        (Value D → Value D → Outcome (Value D)) → Value D → Value D → Outcome (Value D)
    unfolding operate_null is_zero
    division modify left right =
        check left right
        >> (if left.is_null || right.is_null
            then operate_null right
            else (is_zero right >>= λ z. throw_if z divide_by_zero >> modify left right))

    unfoldable pub serialize : Value D → List ℕ
    unfolding low_bytes
    serialize v = low_bytes (bits w / 8) (residue (2 * half w) v.number)

    unfoldable pub deserialize : List ℕ → Outcome (Value D)
    unfolding from_bytes
    deserialize storage = new_int lib w (type_of w) (signed (half w) (from_bytes storage))

    unfoldable pub copy : Value D → Outcome (Value D)
    copy v = throw_if (not (check_integer v)) assertion_failed >> new_int lib w (type_of w) v.number

    -- The case of `CastAs` for an integer type of the width `v`.
    abbrev pub cast_integer : Value D → Width → Outcome (Value D)
    cast_integer val v =
        if val.is_null
        then new_int lib v (type_of v) (int_null v)
        else if leb (bits w) (bits v)
        then new_int lib v (type_of v) val.number
        else throw_if (ltb_ℤ (int_max v) val.number || ltb_ℤ val.number (int_min v)) out_of_range
          >> new_int lib v (type_of v) (wrap v val.number)

    unfoldable pub cast_as : Value D → TypeId → Outcome (Value D)
    cast_as val tinyint = cast_integer val int8
    cast_as val smallint = cast_integer val int16
    cast_as val integer = cast_integer val int32
    cast_as val bigint = cast_integer val int64
    cast_as val decimal =
        ok (new_decimal lib (if val.is_null then lib.decimal_null else lib.of_int val.number))
    cast_as val varchar =
        ok (if val.is_null then blank lib varchar else new_varchar lib (lib.to_string val.number))
    cast_as val _ = throw failure
