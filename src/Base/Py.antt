-- ===== src/Base/Py.antt =====
-- Python code that may raise: outcomes, and code that changes a state. What was written
-- before an exception stays written, so the state comes back beside the exception too.
use Prim.Native.Nat.{ℕ}
use Prim.Native.String.{String}
use mathlib.Core.Path.{◌≡◌, refl}
use mathlib.Core.List.{List}
use mathlib.Core.Bool.{Bool, true, false}

-- The exceptions that the modelled code raises or handles, by class.
pub data Exc : Type 0 where
  key_error value_error index_error type_error unicode_error attribute_error assertion_error : Exc
  user_error missing_option missing_section : Exc
  os_error : ℕ → Exc
  called_process_error : ℕ → List ℕ → Exc
  not_found server_error resource_not_ready request_exception : Exc
  plain : String → Exc

pub data Outcome {ℓ} (A : Type ℓ) : Type ℓ where
  ok : A → Outcome A
  raised : Exc → Outcome A

abbrev pub bind {ℓ κ} : {A : Type ℓ} {B : Type κ} → Outcome A → (A → Outcome B) → Outcome B
bind (ok a) f = f a
bind (raised e) f = raised e

abbrev pub is_ok {ℓ} : {A : Type ℓ} → Outcome A → Bool
is_ok (ok _) = true
is_ok (raised _) = false

-- Code that runs in a state `S`.
abbrev pub Py : Type 0 → Type 0 → Type 0
Py S A = S → Outcome A × S

module _ {S A : Type 0} where
  abbrev pub pure : A → Py S A
  pure a s = (ok a, s)

  abbrev pub raise : Exc → Py S A
  raise e s = (raised e, s)

  abbrev pub lift : Outcome A → Py S A
  lift r s = (r, s)

  abbrev pub gets : (S → A) → Py S A
  gets f s = (ok (f s), s)

abbrev pub modify : {S : Type 0} → (S → S) → Py S (Unit {0})
modify f s = (ok tt, f s)

module _ {S A B : Type 0} where
  abbrev pub run_on : Outcome A × S → (A → Py S B) → Outcome B × S
  run_on (ok a, s) f = f a s
  run_on (raised e, s) f = (raised e, s)

  infixl 10 ◌>>=◌ ◌>>◌
  abbrev pub ◌>>=◌ : Py S A → (A → Py S B) → Py S B
  ◌>>=◌ m f s = run_on (m s) f

  abbrev pub ◌>>◌ : Py S A → Py S B → Py S B
  m >> n = m >>= λ _. n

module _ {S A : Type 0} where
  -- `try: m` with `except Exception as e: h`
  abbrev pub catching : Outcome A × S → (Exc → Py S A) → Outcome A × S
  catching (ok a, s) h = (ok a, s)
  catching (raised e, s) h = h e s

  abbrev pub try_except : Py S A → (Exc → Py S A) → Py S A
  try_except m h s = catching (m s) h

-- Inversion of a successful step.
pub bind-eq-ok {ℓ κ} :
    {A : Type ℓ} {B : Type κ} (m : Outcome A) (f : A → Outcome B) {b : B}
    → bind m f ≡ ok b
    → (a : A) × (m ≡ ok a) × (f a ≡ ok b)
bind-eq-ok (ok a) f h = (a, refl, h)
bind-eq-ok (raised e) f h = cc

pub ok_injective {ℓ} : {A : Type ℓ} {a b : A} → ok a ≡ ok b → a ≡ b
ok_injective e = cc
