-- ===== src/Types/Order.antt =====
-- The six comparisons of two integer values that are not NULL answer how their numbers are ordered.
use learning_journey.Base.{
  ◌<◌, ℤ, pos, negsuc, ◌≡◌, ◌⊎◌, inl, inr, ap, ◌∙◌, arith, not, ok, eqb_ℤ, ltb_ℤ, leb_ℤ, Bool, true,
  false,
}
use native.Mathlib.Decide.{dec_lt}
use learning_journey.Types.{Width, Value, Library, CmpBool, cmp_true, cmp_false, get_cmp_bool}
use learning_journey.Types.Checked.{integer_value}
use learning_journey.Types.Compared.{compared}
use learning_journey.Types.Values

-- The order of the integers, of which `negsuc n` is - (n + 1).
abbrev pub Less : ℤ → ℤ → Type 0
Less (pos m) (pos n) = m < n
Less (pos m) (negsuc n) = ⊥
Less (negsuc m) (pos n) = Unit
Less (negsuc m) (negsuc n) = n < m

-- What the tests on the numbers say of two integers.
Tested : ℤ → ℤ → Bool → Bool → Bool → Type 0
Tested x y equal less greater =
    (eqb_ℤ x y ≡ equal)
    × (ltb_ℤ x y ≡ less)
    × (ltb_ℤ y x ≡ greater)
    × (leb_ℤ x y ≡ not greater)
    × (leb_ℤ y x ≡ not less)

trichotomy :
    (x y : ℤ)
    → ((x ≡ y) × Tested x y true false false)
      ⊎ (Less x y × Tested x y false true false)
      ⊎ Less y x × Tested x y false false true
unfolding Tested
trichotomy (pos m) (pos n) = elim (dec_lt m n) [
  | yes less ↦
      inr (inl (less, (ground arith, ground arith, ground arith, ground arith, ground arith)))
  | no not_less ↦ elim (dec_lt n m) [
    | yes more ↦
        inr (inr (more, (ground arith, ground arith, ground arith, ground arith, ground arith)))
    | no not_more ↦
        let same : m ≡ n = omega arith in
        inl (ap pos same, (ground arith, ground arith, ground arith, ground arith, ground arith))
  ]
]
trichotomy (pos m) (negsuc n) =
    inr (inr (tt, (ground arith, ground arith, ground arith, ground arith, ground arith)))
trichotomy (negsuc m) (pos n) =
    inr (inl (tt, (ground arith, ground arith, ground arith, ground arith, ground arith)))
trichotomy (negsuc m) (negsuc n) = elim (dec_lt n m) [
  | yes less ↦
      inr (inl (less, (ground arith, ground arith, ground arith, ground arith, ground arith)))
  | no not_less ↦ elim (dec_lt m n) [
    | yes more ↦
        inr (inr (more, (ground arith, ground arith, ground arith, ground arith, ground arith)))
    | no not_more ↦
        let same : m ≡ n = omega arith in
        inl (ap negsuc same, (ground arith, ground arith, ground arith, ground arith, ground arith))
  ]
]

module _ {D : Type 0} (lib : Library D) where
  -- The answers of the six comparisons of two values: equal, not equal, less, less or equal,
  -- greater, and greater or equal.
  abbrev pub Answers :
      Value D → Value D → CmpBool → CmpBool → CmpBool → CmpBool → CmpBool → CmpBool → Type 0
  Answers a b eq ne lt le gt ge =
      (Values.compare_equals lib a b ≡ ok eq)
      × (Values.compare_not_equals lib a b ≡ ok ne)
      × (Values.compare_less_than lib a b ≡ ok lt)
      × (Values.compare_less_than_equals lib a b ≡ ok le)
      × (Values.compare_greater_than lib a b ≡ ok gt)
      × (Values.compare_greater_than_equals lib a b ≡ ok ge)

  module _ (v w : Width) (x y : ℤ) where
    answered :
        (equal less greater : Bool)
        → Tested x y equal less greater
        → Answers
            (integer_value lib v x)
            (integer_value lib w y)
            (get_cmp_bool equal)
            (get_cmp_bool (not equal))
            (get_cmp_bool less)
            (get_cmp_bool (not greater))
            (get_cmp_bool greater)
            (get_cmp_bool (not less))
    unfolding Tested
    answered equal less greater (eq, lt, gt, le, ge) =
        let c = compared lib v w x y in
        let answer = λ (b d : Bool) (e : b ≡ d). ap (λ b. ok (get_cmp_bool b)) e in
        (
          c.equals ∙ answer _ _ eq,
          c.not_equals ∙ answer _ _ (ap not eq),
          c.less_than ∙ answer _ _ lt,
          c.less_than_equals ∙ answer _ _ le,
          c.greater_than ∙ answer _ _ gt,
          c.greater_than_equals ∙ answer _ _ ge,
        )

    -- Of two integer values that are not NULL, of any widths, the numbers are equal or one is the
    -- less, and each of the six comparisons answers accordingly.
    pub compare-Less :
        let a = integer_value lib v x in
        let b = integer_value lib w y in
        ((x ≡ y) × Answers a b cmp_true cmp_false cmp_false cmp_true cmp_false cmp_true)
        ⊎ (Less x y × Answers a b cmp_false cmp_true cmp_true cmp_true cmp_false cmp_false)
        ⊎ Less y x × Answers a b cmp_false cmp_true cmp_false cmp_false cmp_true cmp_true
    compare-Less = elim (trichotomy x y) [
      | inl (same, t) ↦ inl (same, answered true false false t)
      | inr (inl (less, t)) ↦ inr (inl (less, answered false true false t))
      | inr (inr (more, t)) ↦ inr (inr (more, answered false false true t))
    ]
