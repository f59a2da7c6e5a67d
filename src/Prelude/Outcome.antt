-- ===== src/Prelude/Outcome.antt =====
-- What a call ends in: a value, a C++ exception, or undefined behaviour (a read past the end of
-- a span, a null pointer followed). `stuck` is no end of the program's: a loop of the model ran
-- out of fuel.
use mathlib.Core.Option.{Option, none, some}
use mathlib.Core.Bool.{Bool, true, false}

pub data Exception : Type 0 where
  invalid_argument out_of_range runtime_error bad_optional_access : Exception

pub data Outcome {ℓ} (A : Type ℓ) : Type ℓ where
  done : A → Outcome A
  thrown : Exception → Outcome A
  fault : Outcome A
  stuck : Outcome A

infixl 5 ◌>>=◌ ◌>>◌
abbrev pub ◌>>=◌ {ℓ κ} : {A : Type ℓ} {B : Type κ} → Outcome A → (A → Outcome B) → Outcome B
done a >>= f = f a
thrown e >>= f = thrown e
fault >>= f = fault
stuck >>= f = stuck

abbrev pub ◌>>◌ {ℓ} : {B : Type ℓ} → Outcome (Unit {0}) → Outcome B → Outcome B
m >> k = m >>= λ _. k

-- `throw e` unless the test holds.
abbrev pub require : Bool → Exception → Outcome (Unit {0})
require true e = done tt
require false e = thrown e

-- A pointer that is followed, `std::map::at`.
abbrev pub deref {ℓ} : {A : Type ℓ} → Option A → Outcome A
deref none = fault
deref (some a) = done a

abbrev pub at {ℓ} : {A : Type ℓ} → Option A → Outcome A
at none = thrown out_of_range
at (some a) = done a

-- `std::optional::value`.
abbrev pub value {ℓ} : {A : Type ℓ} → Option A → Outcome A
value none = thrown bad_optional_access
value (some a) = done a
