-- ===== src/Expressions/Logic.antt =====
-- The three-valued logic of logic_expression.h.
use Prim.Native.Nat.{max}
use learning_journey.Base.{ℕ, zero, suc, ◌≡◌, refl, ap, ◌∙◌, min, ◌>>=◌}
use learning_journey.Types.{CmpBool, cmp_false, cmp_true, cmp_null, Library, wrap, new_int8, store}
use learning_journey.Expressions.{
  LogicType, and, or, combine, Expression, logic, Row, evaluate, logic_value, get_boolean_value,
  get_bool_as_cmp_bool,
}

-- FALSE below NULL below TRUE.
abbrev pub rank : CmpBool → ℕ
rank cmp_false = 0
rank cmp_null = 1
rank cmp_true = 2

abbrev pub of_rank : ℕ → CmpBool
of_rank zero = cmp_false
of_rank (suc zero) = cmp_null
of_rank (suc (suc n)) = cmp_true

combine-of_rank :
    (a b : CmpBool)
    → (combine and a b ≡ of_rank (min (rank a) (rank b)))
      × (combine or a b ≡ of_rank (max (rank a) (rank b)))
unfolding combine
combine-of_rank cmp_false cmp_false = (refl, refl)
combine-of_rank cmp_false cmp_null = (refl, refl)
combine-of_rank cmp_false cmp_true = (refl, refl)
combine-of_rank cmp_null cmp_false = (refl, refl)
combine-of_rank cmp_null cmp_null = (refl, refl)
combine-of_rank cmp_null cmp_true = (refl, refl)
combine-of_rank cmp_true cmp_false = (refl, refl)
combine-of_rank cmp_true cmp_null = (refl, refl)
combine-of_rank cmp_true cmp_true = (refl, refl)

-- Truth values go through their SQL values unchanged.
logic_value-boolean :
    {D : Type 0} (lib : Library D) (logic_type : LogicType) (a b : CmpBool)
    → get_boolean_value lib a
        >>= (λ lhs. get_boolean_value lib b >>= λ rhs. logic_value lib logic_type lhs rhs)
      ≡ get_boolean_value lib (combine logic_type a b)
unfolding logic_value get_boolean_value get_bool_as_cmp_bool new_int8 store wrap
logic_value-boolean lib logic_type cmp_false cmp_false = refl
logic_value-boolean lib logic_type cmp_false cmp_null = refl
logic_value-boolean lib logic_type cmp_false cmp_true = refl
logic_value-boolean lib logic_type cmp_null cmp_false = refl
logic_value-boolean lib logic_type cmp_null cmp_null = refl
logic_value-boolean lib logic_type cmp_null cmp_true = refl
logic_value-boolean lib logic_type cmp_true cmp_false = refl
logic_value-boolean lib logic_type cmp_true cmp_null = refl
logic_value-boolean lib logic_type cmp_true cmp_true = refl

-- On a row where two expressions are truth values, AND is the lesser of the two and OR the greater,
-- with FALSE below NULL below TRUE.
pub evaluate-logic :
    {C D : Type 0} (lib : Library D) (ret_type : C) (l r : Expression C D) (row : Row D)
    (a b : CmpBool)
    → evaluate lib l row ≡ get_boolean_value lib a
    → evaluate lib r row ≡ get_boolean_value lib b
    → (evaluate lib (logic and ret_type l r) row
        ≡ get_boolean_value lib (of_rank (min (rank a) (rank b))))
      × (evaluate lib (logic or ret_type l r) row
          ≡ get_boolean_value lib (of_rank (max (rank a) (rank b))))
unfolding evaluate
evaluate-logic lib ret_type l r row a b value_l value_r =
    let (both, either) = combine-of_rank a b in
    (
      rw (value_l, value_r, evaluate)
          (logic_value-boolean lib and a b ∙ ap (get_boolean_value lib) both),
      rw (value_l, value_r, evaluate)
          (logic_value-boolean lib or a b ∙ ap (get_boolean_value lib) either),
    )
