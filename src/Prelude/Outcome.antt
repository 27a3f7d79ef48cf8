-- ===== src/Prelude/Outcome.antt =====
-- Code that throws, as a value: the error, or the result. The error's type is the component's own.
use mathlib.Core.Bool.{Bool, true, false}

pub data Result {ℓ κ} (E : Type κ) (A : Type ℓ) : Type (ℓ ⊔ κ) where
  ok : A → Result E A
  err : E → Result E A

infixl 5 ◌>>=◌ ◌>>◌
abbrev pub ◌>>=◌ {ℓ κ μ} :
    {E : Type μ} {A : Type ℓ} {B : Type κ} → Result E A → (A → Result E B) → Result E B
ok value >>= next = next value
err thrown >>= next = err thrown

abbrev pub ◌>>◌ {ℓ μ} : {E : Type μ} {B : Type ℓ} → Result E (Unit {0}) → Result E B → Result E B
checked >> next = checked >>= λ _. next

-- `if (!test) throw e`.
abbrev pub require {μ} : {E : Type μ} → Bool → E → Result E (Unit {0})
require test thrown = elim test [ true ↦ ok tt | false ↦ err thrown ]
