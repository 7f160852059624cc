-- ===== src/Base/Results.antt =====
-- What a C++ call ends in: a value, or the exception that it throws.
use mathlib.Core.Path.{◌≡◌, refl, ap, ◌∙◌}
use mathlib.Core.Bool.{Bool, true, false}

-- The standard exceptions, then those of `bustub::Exception` by their `ExceptionType`; `failure` is
-- one with no type, `assertion_failed` is what `assert` ends in, and `undefined` is undefined
-- behaviour, `terminated` is `std::terminate`, and `out_of_fuel` is a loop that was given too few
-- rounds.
pub data Error : Type 0 where
  invalid_argument bad_alloc length_error std_out_of_range : Error
  out_of_range divide_by_zero incompatible_type decimal_error failure : Error
  assertion_failed undefined terminated out_of_fuel : Error

pub data Outcome {ℓ} (A : Type ℓ) : Type ℓ where
  ok : A → Outcome A
  throw : Error → Outcome A

infixl 5 ◌>>=◌ ◌>>◌
abbrev pub ◌>>=◌ {ℓ κ} : {A : Type ℓ} {B : Type κ} → Outcome A → (A → Outcome B) → Outcome B
ok a >>= f = f a
throw e >>= f = throw e

abbrev pub ◌>>◌ {ℓ} : {B : Type ℓ} → Outcome (Unit {0}) → Outcome B → Outcome B
m >> k = m >>= λ _. k

-- `if (b) throw e;`
abbrev pub throw_if : Bool → Error → Outcome (Unit {0})
throw_if true e = throw e
throw_if false e = ok tt

-- The call returns, and its value satisfies `P`.
abbrev pub Returns {ℓ κ} : {A : Type ℓ} → Outcome A → (A → Type κ) → Type (ℓ ⊔ κ)
Returns {A} r P = (a : A) × (r ≡ ok a) × P a

module _ {ℓ} {A : Type ℓ} where
  -- A call has one result.
  pub ok_unique : (r : Outcome A) {a b : A} → r ≡ ok a → r ≡ ok b → a ≡ b
  ok_unique r p q = cc

  pub throw-ne-ok : (r : Outcome A) {e : Error} {a : A} → r ≡ throw e → r ≡ ok a → ⊥
  throw-ne-ok r p q = cc

pub bind_then {ℓ κ} :
    {A : Type ℓ} {B : Type κ} (m : Outcome A) (f : A → Outcome B) {a : A} {r : Outcome B}
    → m ≡ ok a
    → f a ≡ r
    → m >>= f ≡ r
bind_then m f e run = ap (λ m. m >>= f) e ∙ run

pub bind-ok {ℓ κ} :
    {A : Type ℓ} {B : Type κ} (m : Outcome A) (f : A → Outcome B) {b : B}
    → m >>= f ≡ ok b
    → (a : A) × (m ≡ ok a) × (f a ≡ ok b)
bind-ok (ok a) f e = (a, refl, e)
bind-ok (throw x) f e = absurd (throw-ne-ok (throw x) refl e)
