-- ===== src/Common/Outcome.antt =====
-- The outcome of Go code that may panic: on a nil map, or on an index out of range.
use dozzle_gaia_fork.Common.{Option, none, some}

pub data Outcome {ℓ} (A : Type ℓ) : Type ℓ where
  ok : A → Outcome A
  panic : Outcome A

infixl 5 ◌>>=◌ ◌>>◌
abbrev pub ◌>>=◌ {ℓ κ} : {A : Type ℓ} {B : Type κ} → Outcome A → (A → Outcome B) → Outcome B
ok a >>= f = f a
panic >>= f = panic

abbrev pub ◌>>◌ {ℓ} : {B : Type ℓ} → Outcome (Unit {0}) → Outcome B → Outcome B
m >> k = m >>= λ _. k

-- A pointer's target; nil is `none`.
abbrev pub deref {ℓ} : {A : Type ℓ} → Option A → Outcome A
deref none = panic
deref (some a) = ok a

abbrev pub of_option {ℓ} : {A : Type ℓ} → Option A → Outcome A
of_option none = panic
of_option (some a) = ok a
