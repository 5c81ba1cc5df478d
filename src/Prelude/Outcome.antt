-- ===== src/Prelude/Outcome.antt =====
-- Go's three ways to leave a call: a result, an error value, a panic.
use mathlib.Core.List.{List}
use mathlib.Core.Path.{◌≡◌, refl, ap}
use Prim.Native.String.{String}

-- An error value: from a library, from `fmt.Errorf` with its arguments, or one that `%w` wraps.
pub data Error : Type 0 where
  external : String → Error
  errorf : String → List String → Error
  wrap : String → Error → Error

pub data Outcome {ℓ} (A : Type ℓ) : Type ℓ where
  ok : A → Outcome A
  err : Error → Outcome A
  panic : Outcome A

infixl 10 ◌>>=◌ ◌>>◌
abbrev pub ◌>>=◌ {ℓ κ} : {A : Type ℓ} {B : Type κ} → Outcome A → (A → Outcome B) → Outcome B
ok a >>= f = f a
err e >>= f = err e
panic >>= f = panic

abbrev pub ◌>>◌ {ℓ} : {B : Type ℓ} → Outcome (Unit {0}) → Outcome B → Outcome B
m >> k = m >>= λ _. k

pub ok_injective {ℓ} : {A : Type ℓ} {a b : A} → ok a ≡ ok b → a ≡ b
ok_injective h = cc

-- A chain whose first step ended well goes on with its result.
pub bind_ok {ℓ κ} :
    {A : Type ℓ} {B : Type κ} {m : Outcome A} (f : A → Outcome B) {a : A}
    → m ≡ ok a
    → (m >>= f) ≡ f a
bind_ok f h = ap (λ m. m >>= f) h

-- A chain whose first step is an error is that error.
pub bind_err {ℓ κ} :
    {A : Type ℓ} {B : Type κ} {m : Outcome A} (f : A → Outcome B) {e : Error}
    → m ≡ err e
    → (m >>= f) ≡ err e
bind_err f h = ap (λ m. m >>= f) h

-- A chain that ended well went through its first step.
pub bind-eq-ok {ℓ κ} :
    {A : Type ℓ} {B : Type κ} (m : Outcome A) (f : A → Outcome B) {b : B}
    → (m >>= f) ≡ ok b
    → (a : A) × (m ≡ ok a) × (f a ≡ ok b)
bind-eq-ok (ok a) f h = (a, refl, h)
bind-eq-ok (err e) f h = cc
bind-eq-ok panic f h = cc

-- `fmt.Errorf("…: %w", err)` where there is an error
abbrev pub wrap_error {ℓ} : {A : Type ℓ} → String → Outcome A → Outcome A
wrap_error message (ok a) = ok a
wrap_error message (err e) = err (wrap message e)
wrap_error message panic = panic
