-- ===== src/Outcome.antt =====
-- Results of code that reads memory and may raise.
use ros2sonic.Prelude.{Option, none, some}

-- The exceptions of the driver, with the names that the code gives them; `system_error` is boost's,
-- and `parameter_type` stands for those that rclcpp raises for a parameter of the wrong type.
pub data Exception : Type 0 where
  out_of_range invalid_argument runtime_error system_error parameter_type : Exception

-- `fault` is undefined behaviour: a read or write outside the memory that the code may touch, or a
-- signed overflow. `hang` is a loop that does not end.
pub data Outcome {ℓ} (A : Type ℓ) : Type ℓ where
  ok : A → Outcome A
  throw : Exception → Outcome A
  fault hang : Outcome A

infixl 5 ◌>>=◌ ◌>>◌
abbrev pub ◌>>=◌ {ℓ κ} : {A : Type ℓ} {B : Type κ} → Outcome A → (A → Outcome B) → Outcome B
ok a >>= f = f a
throw e >>= f = throw e
fault >>= f = fault
hang >>= f = hang

abbrev pub ◌>>◌ {ℓ κ} : {A : Type ℓ} {B : Type κ} → Outcome A → Outcome B → Outcome B
m >> k = m >>= λ _. k

-- A read that misses is a fault.
abbrev pub or_fault {ℓ} : {A : Type ℓ} → Option A → Outcome A
or_fault none = fault
or_fault (some a) = ok a

-- A call that answers nothing has raised.
abbrev pub or_throw {ℓ} : {A : Type ℓ} → Exception → Option A → Outcome A
or_throw e none = throw e
or_throw e (some a) = ok a

-- try { m } catch (const std::exception &e) { handler(e) }
abbrev pub catch {ℓ} : {A : Type ℓ} → Outcome A → (Exception → Outcome A) → Outcome A
catch (ok a) handler = ok a
catch (throw e) handler = handler e
catch fault handler = fault
catch hang handler = hang

-- The code ends without undefined behaviour, and where it returns, what it returns has `P`.
abbrev pub Safely {ℓ} : {A : Type ℓ} → (A → Type 0) → Outcome A → Type 0
Safely P (ok a) = P a
Safely P (throw e) = Unit
Safely P fault = ⊥
Safely P hang = ⊥

pub Safely-bind {ℓ κ} :
    {A : Type ℓ} {B : Type κ} (P : A → Type 0) (Q : B → Type 0) (m : Outcome A) (f : A → Outcome B)
    → Safely P m
    → ((a : A) → P a → Safely Q (f a))
    → Safely Q (m >>= f)
Safely-bind P Q (ok a) f h k = k a h
Safely-bind P Q (throw e) f h k = tt
Safely-bind P Q fault f h k = absurd h
Safely-bind P Q hang f h k = absurd h

-- The code ends, and it does not matter with what.
abbrev pub Ends {ℓ} : {A : Type ℓ} → Outcome A → Type 0
Ends m = Safely (λ _. Unit) m

pub Ends-bind {ℓ κ} :
    {A : Type ℓ} {B : Type κ} (Q : B → Type 0) (m : Outcome A) (f : A → Outcome B)
    → Ends m
    → ((a : A) → Safely Q (f a))
    → Safely Q (m >>= f)
Ends-bind Q m f h k = Safely-bind (λ a. Unit) Q m f h (λ a p. k a)
