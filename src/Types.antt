-- ===== src/Types.antt =====
-- The SQL values of bustub/src/type/value.cpp: their types, constructors and checks.
-- `value_` is a union: the model has a field for the integer members, one for `decimal_` and one
-- for the characters, of which a value uses that of its type. `is_null` is `size_.len_ ==
-- BUSTUB_VALUE_NULL`. A `double` and what the C++ library does with it, with numerals and with
-- strings, is a parameter.
pub mod Arithmetic
pub mod Family
pub mod Tinyint
pub mod Smallint
pub mod Integer
pub mod Bigint
pub mod Boolean
pub mod Varlen
pub mod Decimal
pub mod Values
pub mod Exact
pub mod Checked
pub mod Sums
pub mod Overflows
pub mod Compared
pub mod Order
pub mod Nulls
pub mod Casts
pub mod Quotient
pub mod Division
pub mod Extremes
use learning_journey.Base.{
  ℕ, zero, suc, ◌+◌, ◌-◌, ◌*◌, ◌%◌, ◌^◌, Bool, true, false, not, ◌&&◌, List, [], ◌∷◌, Outcome, ok,
  throw, incompatible_type, std_out_of_range, out_of_range, Error, ltb, leb, ◌==◌, if◌then◌else◌, ℤ,
  pos, negsuc, pos_part, neg_part, eqb_ℤ,
}

pub data TypeId : Type 0 where
  invalid boolean tinyint smallint integer bigint decimal varchar timestamp vector : TypeId

pub data CmpBool : Type 0 where
  cmp_false cmp_true cmp_null : CmpBool

-- The fixed-width integers of C++.
pub data Width : Type 0 where
  int8 int16 int32 int64 : Width

abbrev pub bits : Width → ℕ
bits int8 = 8
bits int16 = 16
bits int32 = 32
bits int64 = 64

-- 2 ^ (bits - 1)
abbrev pub half : Width → ℕ
half int8 = 2 ^ 7
half int16 = 2 ^ 15
half int32 = 2 ^ 31
half int64 = 2 ^ 63

pub record Value (D : Type 0) : Type 0 where
  pub type_id : TypeId
  pub is_null : Bool
  pub number : ℤ
  pub decimal : D
  pub text : List ℕ

-- The operations on `double`, `BUSTUB_DECIMAL_NULL`, and the conversions of `<string>`.
pub record Library (D : Type 0) : Type 0 where
  pub of_int : ℤ → D
  pub add : D → D → D
  pub sub : D → D → D
  pub mul : D → D → D
  pub div : D → D → D
  pub trunc : D → D
  pub sqrt : D → D
  pub eqb : D → D → Bool
  pub ltb : D → D → Bool
  pub leb : D → D → Bool
  pub decimal_null : D
  pub stoi : List ℕ → Outcome ℤ
  pub stoll : List ℕ → Outcome ℤ
  pub to_string : ℤ → List ℕ

-- Whether an integer is one of so many bits.
abbrev pub fits : Width → ℤ → Bool
fits w z = leb (neg_part z) (half w) && ltb (pos_part z) (half w)

abbrev pub residue : ℕ → ℤ → ℕ
residue m (pos n) = n % m
residue m (negsuc n) = m - 1 - n % m

abbrev pub signed : ℕ → ℕ → ℤ
signed h r = if ltb r h then pos r else negsuc (2 * h - 1 - r)

-- `static_cast` to a narrower integer.
unfoldable pub wrap : Width → ℤ → ℤ
wrap w z = signed (half w) (residue (2 * half w) z)

-- -2 ^ (bits - 1)
abbrev pub int_null : Width → ℤ
int_null w = negsuc (half w - 1)

abbrev pub get_cmp_bool : Bool → CmpBool
get_cmp_bool b = if b then cmp_true else cmp_false

abbrev pub is_integer : TypeId → Bool
is_integer tinyint = true
is_integer smallint = true
is_integer integer = true
is_integer bigint = true
is_integer _ = false

abbrev pub check_integer : {D : Type 0} → Value D → Bool
check_integer v = is_integer v.type_id

-- Whether a value of an integer type may be compared with one of this type.
abbrev pub comparable_integer : TypeId → Bool
comparable_integer decimal = true
comparable_integer varchar = true
comparable_integer t = is_integer t

unfoldable pub comparable : TypeId → TypeId → Bool
comparable boolean boolean = true
comparable boolean varchar = true
comparable boolean _ = false
comparable decimal t = comparable_integer t
comparable varchar t = true
comparable t u = is_integer t && comparable_integer u

abbrev pub check_comparable : {D : Type 0} → Value D → Value D → Bool
check_comparable v o = comparable v.type_id o.type_id

module _ {D : Type 0} (lib : Library D) where
  -- The members that a value of another type leaves unused are zero.
  abbrev pub blank : TypeId → Value D
  blank t = record {
    type_id = t;
    is_null = true;
    number = pos 0;
    decimal = lib.of_int (pos 0);
    text = [];
  }

  unfoldable pub store : TypeId → Width → ℤ → Value D
  unfolding wrap
  store t w i = record (blank t) { number = wrap w i; is_null = eqb_ℤ (wrap w i) (int_null w) }

  abbrev store_timestamp : ℤ → Value D
  store_timestamp i =
      let stamp = residue (2 ^ 64) i in
      record (blank timestamp) { number = pos stamp; is_null = stamp == 2 ^ 64 - 1 }

  -- `Value(type, i)` for an `int8_t`
  unfoldable pub new_int8 : TypeId → ℤ → Outcome (Value D)
  unfolding store
  new_int8 boolean i = ok (store boolean int8 i)
  new_int8 tinyint i = ok (store tinyint int8 i)
  new_int8 smallint i = ok (store smallint int16 i)
  new_int8 integer i = ok (store integer int32 i)
  new_int8 bigint i = ok (store bigint int64 i)
  new_int8 _ i = throw incompatible_type

  -- The same for the wider integers, which may be a timestamp.
  unfoldable pub new_wider : TypeId → ℤ → Outcome (Value D)
  unfolding new_int8
  new_wider timestamp i = ok (store_timestamp i)
  new_wider t i = new_int8 t i

  abbrev pub new_int16 : TypeId → ℤ → Outcome (Value D)
  new_int16 t i = new_wider t i

  abbrev pub new_int32 : TypeId → ℤ → Outcome (Value D)
  new_int32 t i = new_wider t i

  abbrev pub new_int64 : TypeId → ℤ → Outcome (Value D)
  new_int64 t i = new_wider t i

  abbrev pub new_int : Width → TypeId → ℤ → Outcome (Value D)
  new_int int8 t i = new_int8 t i
  new_int int16 t i = new_int16 t i
  new_int int32 t i = new_int32 t i
  new_int int64 t i = new_int64 t i

  -- `Value(TypeId::DECIMAL, d)` for a `double`
  unfoldable pub new_decimal : D → Value D
  new_decimal d = record (blank decimal) { decimal = d; is_null = lib.eqb d lib.decimal_null }

  -- `Value(TypeId::VARCHAR, data)` for a string
  unfoldable pub new_varchar : List ℕ → Value D
  new_varchar s = record (blank varchar) { text = s; is_null = false }
