-- ===== src/Prelude/Action.antt =====
-- Code that changes a state and may return an error or panic. What was written before stays written,
-- so the state comes back beside the error too.
use Prim.Native.String.{String}
use mathlib.Core.Logic.{◌⊎◌, inl, inr}
use mathlib.Core.Path.{◌≡◌, refl}
use net_gateway_api_obsolete.Prelude.Outcome.{Error, wrap, Outcome, ok, err, panic}

abbrev pub Action : Type 0 → Type 0 → Type 0
Action S A = S → Outcome A × S

module _ {S A : Type 0} where
  abbrev pub pure : A → Action S A
  pure a s = (ok a, s)

  abbrev pub raise : Error → Action S A
  raise e s = (err e, s)

  abbrev pub lift : Outcome A → Action S A
  lift r s = (r, s)

  abbrev pub gets : (S → A) → Action S A
  gets f s = (ok (f s), s)

module _ {S : Type 0} where
  abbrev pub modify : (S → S) → Action S (Unit {0})
  modify f s = (ok tt, f s)

module _ {S A B : Type 0} where
  -- The rest of the code, if the call returned.
  abbrev pub continue : (A → Action S B) → Outcome A × S → Outcome B × S
  continue f (ok a, s) = f a s
  continue f (err e, s) = (err e, s)
  continue f (panic, s) = (panic, s)

  -- `v, err := m; if err != nil { g }; f`
  abbrev pub handle : (Error → Action S B) → (A → Action S B) → Outcome A × S → Outcome B × S
  handle g f (ok a, s) = f a s
  handle g f (err e, s) = g e s
  handle g f (panic, s) = (panic, s)

  infixl 10 ◌>>=◌
  abbrev pub ◌>>=◌ : Action S A → (A → Action S B) → Action S B
  ◌>>=◌ m f s = continue f (m s)

  abbrev pub or_else_do : Action S A → (Error → Action S B) → (A → Action S B) → Action S B
  or_else_do m g f s = handle g f (m s)

module _ {S B : Type 0} where
  infixl 10 ◌>>◌
  abbrev pub ◌>>◌ : Action S (Unit {0}) → Action S B → Action S B
  ◌>>◌ m k s = continue (λ _. k) (m s)

-- Inversion of one step of the code that returned.
pub continue-eq-ok :
    {S A B : Type 0} (f : A → Action S B) (p : Outcome A × S) {b : B} {t : S}
    → continue f p ≡ (ok b, t)
    → (a : A) × (u : S) × (p ≡ (ok a, u)) × (f a u ≡ (ok b, t))
continue-eq-ok f (ok a, u) h = (a, u, refl, h)
continue-eq-ok f (err e, u) h = cc
continue-eq-ok f (panic, u) h = cc

-- The same for a step that leaves the state.
pub lifted-eq-ok :
    {S A B : Type 0} (f : A → Action S B) (r : Outcome A) (s : S) {b : B} {t : S}
    → continue f (lift r s) ≡ (ok b, t)
    → (a : A) × (r ≡ ok a) × (f a s ≡ (ok b, t))
lifted-eq-ok f (ok a) s h = (a, refl, h)
lifted-eq-ok f (err e) s h = cc
lifted-eq-ok f panic s h = cc

module _ {S A B : Type 0} (P : S → Type 0) where
  -- What holds of the state after a step, and after what follows it if it returned.
  pub keep_continue :
      (f : A → Action S B) (p : Outcome A × S)
      → P p.1
      → ((a : A) → p.0 ≡ ok a → P (f a p.1).1)
      → P (continue f p).1
  keep_continue f (ok a, s) h k = k a refl
  keep_continue f (err e, s) h k = h
  keep_continue f (panic, s) h k = h

  pub keep_handle :
      (g : Error → Action S B) (f : A → Action S B) (p : Outcome A × S)
      → P p.1
      → ((e : Error) → P (g e p.1).1)
      → ((a : A) → p.0 ≡ ok a → P (f a p.1).1)
      → P (handle g f p).1
  keep_handle g f (ok a, s) h j k = k a refl
  keep_handle g f (err e, s) h j k = j e
  keep_handle g f (panic, s) h j k = h

-- An error of a chain is that of its first step, or of what follows it.
pub continue-eq-err :
    {S A B : Type 0} (f : A → Action S B) (p : Outcome A × S) {e : Error} {t : S}
    → continue f p ≡ (err e, t)
    → (p ≡ (err e, t)) ⊎ ((a : A) × (u : S) × (p ≡ (ok a, u)) × (f a u ≡ (err e, t)))
continue-eq-err f (ok a, u) h = inr (a, u, refl, h)
continue-eq-err f (err c, u) h = inl (cc h)
continue-eq-err f (panic, u) h = cc

-- The same for a step whose error is wrapped.
pub wrapped-eq-err :
    {S A B : Type 0} (message : String) (f : A → Action S B) (p : Outcome A × S) {e : Error} {t : S}
    → handle (λ c. raise (wrap message c)) f p ≡ (err e, t)
    → ((c : Error) × (p ≡ (err c, t)) × (e ≡ wrap message c))
      ⊎ ((a : A) × (u : S) × (p ≡ (ok a, u)) × (f a u ≡ (err e, t)))
wrapped-eq-err message f (ok a, u) h = inr (a, u, refl, h)
wrapped-eq-err message f (err c, u) h = inl (c, cc, cc)
wrapped-eq-err message f (panic, u) h = cc
