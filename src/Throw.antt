-- ===== src/Throw.antt =====
-- throw.go: exceptions by panic and recover. A function of the program that may throw returns an
-- `Outcome`; a Go pair (value, error) is a `Result`. `panic` is a panic that is no exception, such
-- as an index out of range, which `Try` does not catch.
use wirez.Prelude.{ℕ, ◌≡◌, ◌⊎◌, inl, inr, refl, Bool, true, false, Option, none, some, Bytes}

-- The errors that the modelled code throws or passes on, one constructor to each message or cause.
pub data Error : Type 0 where
  eof unexpected_eof broken_pipe net_closed deadline_exceeded : Error
  unsupported : Error
  missing_port too_many_colons missing_bracket unexpected_bracket : Bytes → Error
  invalid_number : Bytes → Error
  cause : ℕ → Error
  message : Bytes → Error
  message_of : Bytes → Bytes → Error
  message_code : Bytes → ℕ → Error
  via : Bytes → Bytes → Error → Error
  joined : Error → Error → Error

-- Why a panic that is no exception was raised.
pub data Fault : Type 0 where
  index_out_of_range nil_dereference : Fault

-- (value, nil) or (_, err).
pub data Result {ℓ} (A : Type ℓ) : Type ℓ where
  value : A → Result A
  failure : Error → Result A

pub data Outcome {ℓ} (A : Type ℓ) : Type ℓ where
  ok : A → Outcome A
  throw : Error → Outcome A
  panic : Fault → Outcome A

infixl 5 ◌>>=◌ ◌>>◌
abbrev pub ◌>>=◌ {ℓ κ} : {A : Type ℓ} {B : Type κ} → Outcome A → (A → Outcome B) → Outcome B
ok a >>= f = f a
throw e >>= f = throw e
panic p >>= f = panic p

abbrev pub ◌>>◌ {ℓ} : {B : Type ℓ} → Outcome (Unit {0}) → Outcome B → Outcome B
m >> k = m >>= λ _. k

-- Throw(err).
unfoldable pub throw_if : Option Error → Outcome (Unit {0})
throw_if none = ok tt
throw_if (some e) = throw e

-- Throw2(f()) and Throw3(f()): the value, or the error thrown.
abbrev pub throw2 {ℓ} : {A : Type ℓ} → Result A → Outcome A
throw2 (value a) = ok a
throw2 (failure e) = throw e

-- Try(cb), with the value that cb assigns: the exception is caught, any other panic goes on.
abbrev pub attempt {ℓ} : {A : Type ℓ} → Outcome A → Outcome (Result A)
attempt (ok a) = ok (value a)
attempt (throw e) = ok (failure e)
attempt (panic p) = panic p

-- Try(cb).Catch(handler).
abbrev pub catch {ℓ} : {A : Type ℓ} → Outcome A → (Error → Outcome A) → Outcome A
catch (ok a) handler = ok a
catch (throw e) handler = handler e
catch (panic p) handler = panic p

-- exc.AsError() of what Try returned: `none` for a nil exception.
abbrev pub as_error {ℓ} : {A : Type ℓ} → Result A → Option Error
as_error (value a) = none
as_error (failure e) = some e

abbrev pub guard : Bool → Error → Outcome (Unit {0})
guard true e = ok tt
guard false e = throw e

-- Throwing what Try caught is the computation itself.
pub attempt-throw2 {ℓ} : {A : Type ℓ} (m : Outcome A) → (attempt m >>= throw2) ≡ m
attempt-throw2 (ok a) = refl
attempt-throw2 (throw e) = refl
attempt-throw2 (panic p) = refl

pub bind-ok {ℓ κ} :
    {A : Type ℓ} {B : Type κ} (m : Outcome A) (f : A → Outcome B) {b : B}
    → (m >>= f) ≡ ok b
    → (a : A) × (m ≡ ok a) × (f a ≡ ok b)
bind-ok (ok a) f h = (a, refl, h)
bind-ok (throw e) f h = cc
bind-ok (panic p) f h = cc

pub ok-injective {ℓ} : {A : Type ℓ} {x y : A} → ok x ≡ ok y → x ≡ y
ok-injective e = cc

-- A split on the outcome that keeps the equation.
pub Outcome-cases {ℓ} :
    {A : Type ℓ} (m : Outcome A)
    → ((a : A) × (m ≡ ok a)) ⊎ ((e : Error) × (m ≡ throw e)) ⊎ ((p : Fault) × (m ≡ panic p))
Outcome-cases (ok a) = inl (a, refl)
Outcome-cases (throw e) = inr (inl (e, refl))
Outcome-cases (panic p) = inr (inr (p, refl))
