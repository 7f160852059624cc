-- ===== src/Tuples/Bytes.antt =====
-- The bytes of one value, and what is read from them.
use learning_journey.Base.{
  ℕ, suc, ◌+◌, ◌-◌, ◌*◌, ◌/◌, ◌<◌, ◌≡◌, refl, ◌∙◌, ap, ap₂, true, false, List, [], ◌∷◌, ◌++◌, ok,
  arith, ◌==◌, if◌then◌else◌, length, drop, get_or, length-append, ℤ, pos, negsuc, eqb_ℤ,
}
use learning_journey.Types.{
  TypeId, boolean, varchar, Width, int8, int16, int32, int64, bits, half, Value, Library, store,
  blank, new_varchar, new_int8, new_wider, wrap, residue, fits, signed, int_null, tinyint, smallint,
  integer, bigint,
}
use learning_journey.Types.Family.{type_of, low_bytes, from_bytes}
use learning_journey.Types.Family
use learning_journey.Types.Casts.{bytes_back, read_back}
use learning_journey.Types.Exact.{wrap_kept}
use learning_journey.Types.Boolean
use learning_journey.Types.Tinyint
use learning_journey.Types.Smallint
use learning_journey.Types.Integer
use learning_journey.Types.Bigint
use learning_journey.Types.Values
use learning_journey.TablePage.Memory.{read_bytes}
use learning_journey.Tuples.{
  value_null, payload, serialize_varchar, deserialize_varchar, serialize_to, deserialize_from,
}

module _ {D : Type 0} (lib : Library D) where
  -- The bytes of a value, and that they are read as the value wherever they stand.
  pub record Bytes (t : TypeId) (v : Value D) : Type 0 where
    pub storage : List ℕ
    pub written : serialize_to lib v ≡ ok storage
    pub read :
        (m : ℕ → ℕ) (offset : ℕ)
        → read_bytes m offset (length storage) ≡ storage
        → deserialize_from lib m offset t ≡ ok v

  wrapped_fits : (w : Width) (n : ℤ) → fits w (wrap w n) ≡ true
  unfolding wrap
  wrapped_fits int8 (pos n) = ground arith
  wrapped_fits int8 (negsuc n) = ground arith
  wrapped_fits int16 (pos n) = ground arith
  wrapped_fits int16 (negsuc n) = ground arith
  wrapped_fits int32 (pos n) = ground arith
  wrapped_fits int32 (negsuc n) = ground arith
  wrapped_fits int64 (pos n) = ground arith
  wrapped_fits int64 (negsuc n) = ground arith

  -- A number that was read from the bytes of another is stored as that.
  store_read :
      (t : TypeId) (w : Width) (n : ℤ)
      → store lib t w
          (signed (half w) (from_bytes (low_bytes (bits w / 8) (residue (2 * half w) (wrap w n)))))
        ≡ store lib t w n
  unfolding store
  store_read t w n =
      let once = wrap_kept w (wrap w n) (wrapped_fits w n) in
      ap (λ x. record (blank lib t) { number = x; is_null = eqb_ℤ x (int_null w) })
        (ap (wrap w) (read_back lib w (wrap w n) ∙ once) ∙ once)

  pub truth-Bytes :
      (n : ℤ) → (b : Bytes boolean (store lib boolean int8 n)) × (length b.storage ≡ 1)
  unfolding serialize_to deserialize_from Boolean.serialize Boolean.deserialize low_bytes store
      new_int8
  truth-Bytes n = (
    record {
      storage = low_bytes 1 (residue (2 * half int8) (wrap int8 n));
      written = refl;
      read = λ m offset e.
          ap (λ s. new_int8 lib boolean (signed (half int8) (from_bytes s))) e
          ∙ ap ok (store_read boolean int8 n);
    },
    refl,
  )

  pub number-Bytes :
      (w : Width) (n : ℤ)
      → (b : Bytes (type_of w) (store lib (type_of w) w n)) × (length b.storage ≡ bits w / 8)
  unfolding serialize_to deserialize_from store new_int8 new_wider Values.instance_of
      Family.serialize Family.deserialize Values.serialize_to Tinyint.serialize_to
      Smallint.serialize_to Integer.serialize_to Bigint.serialize_to Values.deserialize_from
      Tinyint.deserialize_from Smallint.deserialize_from Integer.deserialize_from
      Bigint.deserialize_from low_bytes
  number-Bytes int8 n = (
    record {
      storage = low_bytes 1 (residue (2 * half int8) (wrap int8 n));
      written = refl;
      read = λ m offset e.
          ap (λ s. Values.deserialize_from lib s tinyint) e ∙ ap ok (store_read tinyint int8 n);
    },
    refl,
  )
  number-Bytes int16 n = (
    record {
      storage = low_bytes 2 (residue (2 * half int16) (wrap int16 n));
      written = refl;
      read = λ m offset e.
          ap (λ s. Values.deserialize_from lib s smallint) e ∙ ap ok (store_read smallint int16 n);
    },
    refl,
  )
  number-Bytes int32 n = (
    record {
      storage = low_bytes 4 (residue (2 * half int32) (wrap int32 n));
      written = refl;
      read = λ m offset e.
          ap (λ s. Values.deserialize_from lib s integer) e ∙ ap ok (store_read integer int32 n);
    },
    refl,
  )
  number-Bytes int64 n = (
    record {
      storage = low_bytes 8 (residue (2 * half int64) (wrap int64 n));
      written = refl;
      read = λ m offset e.
          ap (λ s. Values.deserialize_from lib s bigint) e ∙ ap ok (store_read bigint int64 n);
    },
    refl,
  )

  pub null-Bytes : (b : Bytes varchar (blank lib varchar)) × (length b.storage ≡ 4)
  unfolding serialize_to deserialize_from serialize_varchar deserialize_varchar low_bytes from_bytes
  null-Bytes = (
    record {
      storage = low_bytes 4 value_null;
      written = refl;
      read = λ m offset e.
          ap
            (λ s. ok (
              if from_bytes s == value_null
              then blank lib varchar
              else new_varchar lib (read_bytes m (offset + 4) (from_bytes s - 1))))
            e;
    },
    refl,
  )

  read_split :
      (m : ℕ → ℕ) (offset : ℕ) (xs ys : List ℕ)
      → read_bytes m offset (length (xs ++ ys)) ≡ xs ++ ys
      → (read_bytes m offset (length xs) ≡ xs)
        × (read_bytes m (offset + length xs) (length ys) ≡ ys)
  unfolding read_bytes
  read_split m offset [] ys e = (refl, ap (λ o. read_bytes m o (length ys)) (omega arith) ∙ e)
  read_split m offset (x ∷ xs) ys e =
      let (front, back) = read_split m (offset + 1) xs ys (ap (drop 1) e) in
      (
        ap₂ ◌∷◌ (ap (λ l. get_or l 0 x) e) front,
        ap (λ o. read_bytes m o (length ys)) {x = offset + suc (length xs)} (omega arith) ∙ back,
      )

  text_read :
      (m : ℕ → ℕ) (offset : ℕ) (text : List ℕ)
      → length text + 1 < value_null
      → read_bytes m offset 4 ≡ low_bytes 4 (length text + 1)
      → read_bytes m (offset + 4) (length text) ≡ text
      → deserialize_varchar lib m offset ≡ new_varchar lib text
  unfolding deserialize_varchar
  text_read m offset text short size chars =
      let len : from_bytes (read_bytes m offset 4) ≡ length text + 1 =
        ap from_bytes size ∙ bytes_back 4 (length text + 1) (omega arith) in
      let not_null : (length text + 1 == value_null) ≡ false = ground arith in
      ap
        (λ n.
          if n == value_null
          then blank lib varchar
          else new_varchar lib (read_bytes m (offset + 4) (n - 1)))
        len
      ∙ ap
          (λ b.
            if b
            then blank lib varchar
            else new_varchar lib (read_bytes m (offset + 4) (length text + 1 - 1)))
          not_null
      ∙ ap (new_varchar lib)
          (ap (read_bytes m (offset + 4)) {x = length text + 1 - 1} (omega arith) ∙ chars)

  pub text-Bytes :
      (text : List ℕ)
      → length text + 1 < value_null
      → (b : Bytes varchar (new_varchar lib text)) × (length b.storage ≡ 4 + (length text + 1))
  unfolding serialize_to deserialize_from serialize_varchar new_varchar low_bytes
  text-Bytes text short =
      let not_null : (length text + 1 == value_null) ≡ false = ground arith in
      (
        record {
          storage = low_bytes 4 (length text + 1) ++ (text ++ (0 ∷ []));
          written =
              ap
                (λ b. ok (
                  if b
                  then low_bytes 4 value_null
                  else low_bytes 4 (length text + 1) ++ (text ++ (0 ∷ []))))
                not_null;
          read = λ m offset e.
              let (size, rest) =
                read_split m offset (low_bytes 4 (length text + 1)) (text ++ (0 ∷ [])) e in
              let (chars, _) = read_split m (offset + 4) text (0 ∷ []) rest in
              ap ok (text_read m offset text short size chars);
        },
        omega (arith, length-append text (0 ∷ [])),
      )

  pub payload-blank : payload (blank lib varchar) ≡ 0
  unfolding payload
  payload-blank = refl

  pub payload-new_varchar :
      (text : List ℕ)
      → length text + 1 < value_null
      → payload (new_varchar lib text) ≡ length text + 1
  unfolding payload new_varchar
  payload-new_varchar text short = ground arith
