-- ===== src/Common/Results.antt =====
-- What a C++ call can do besides return: the exceptions, failed assertions and undefined behaviour
-- that the code can reach. A method is a function from the object to the outcome and the object
-- afterwards, so what was written before a throw stays written.
use mathlib.Core.Path.{◌≡◌, refl}
use mathlib.Core.Option.{Option, none, some}

pub data Fault : Type 0 where
  logic_error invalid_argument bad_optional_access bad_cast runtime_error : Fault
  assertion_failed undefined_behaviour out_of_fuel : Fault

pub data Outcome {ℓ} (A : Type ℓ) : Type ℓ where
  ok : A → Outcome A
  fault : Fault → Outcome A

abbrev pub Exec {ℓ κ} : Type ℓ → Type κ → Type (ℓ ⊔ κ)
Exec S A = S → Outcome A × S

-- Runs the rest of a method on the result of a call, unless the call faulted.
abbrev pub and_then {ℓ κ μ} :
    {S : Type ℓ} {A : Type κ} {B : Type μ} → Outcome A × S → (A → Exec S B) → Outcome B × S
and_then (ok a, s) f = f a s
and_then (fault e, s) f = (fault e, s)

infixl 5 ◌>>=◌ ◌>>◌
abbrev pub ◌>>=◌ {ℓ κ μ} :
    {S : Type ℓ} {A : Type κ} {B : Type μ} → Exec S A → (A → Exec S B) → Exec S B
◌>>=◌ m f s = and_then (m s) f

abbrev pub ◌>>◌ {ℓ κ μ} : {S : Type ℓ} {A : Type κ} {B : Type μ} → Exec S A → Exec S B → Exec S B
m >> k = m >>= λ _. k

abbrev pub pure {ℓ κ} : {S : Type ℓ} {A : Type κ} → A → Exec S A
pure a s = (ok a, s)

abbrev pub gets {ℓ κ} : {S : Type ℓ} {A : Type κ} → (S → A) → Exec S A
gets f s = (ok (f s), s)

abbrev pub modify {ℓ} : {S : Type ℓ} → (S → S) → Exec S (Unit {0})
modify f s = (ok tt, f s)

abbrev of_option {ℓ} : {A : Type ℓ} → Fault → Option A → Outcome A
of_option e none = fault e
of_option e (some a) = ok a

-- `std::optional::value()`
abbrev pub value {ℓ κ} : {S : Type ℓ} {A : Type κ} → (S → Option A) → Exec S A
value f s = (of_option bad_optional_access (f s), s)

-- `*optional`, which has no defined behaviour on an empty one
abbrev pub deref {ℓ κ} : {S : Type ℓ} {A : Type κ} → (S → Option A) → Exec S A
deref f s = (of_option undefined_behaviour (f s), s)

-- What holds of the object after a call, and after what follows on each of its values, holds after both.
pub and_then_inv {ℓ κ μ ν} :
    {S : Type ℓ} {A : Type κ} {B : Type μ} (P : S → Type ν) (r : Outcome A × S) (f : A → Exec S B)
    → P r.1
    → ((a : A) → r.0 ≡ ok a → P (f a r.1).1)
    → P (and_then r f).1
and_then_inv P (ok a, s) f p q = q a refl
and_then_inv P (fault e, s) f p q = p
