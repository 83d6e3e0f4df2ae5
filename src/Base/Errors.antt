-- ===== src/Base/Errors.antt =====
-- What a Go call ends in: a value, an error, or a panic.
use mathlib.Core.Path.{◌≡◌, refl}
use mathlib.Core.List.{List}
use go_pec.Base.Clock.{Time}
use go_pec.Base.Strings.{Text}

-- `ValidationError` of pec-server/punto-accesso/punto-accesso.go.
pub record ValidationError : Type 0 where
  pub reason : Text
  pub message_id : Text
  pub from : Text
  pub to : List Text
  pub subject : Text
  pub generated_at : Time

-- The error values of the source. `external` is an error that a library returns, with its text.
pub data Error : Type 0 where
  auth_required : Error
  message : Text → Error
  wrap : Text → Error → Error
  external : Text → Error
  validation : ValidationError → Error
  no_such_mailbox mailbox_not_allowed not_allowed : Error

pub data Outcome {ℓ} (A : Type ℓ) : Type ℓ where
  ok : A → Outcome A
  err : Error → Outcome A
  panic : Outcome A

-- The next step of a function: it is reached only with a value in hand.
infixl 5 ◌>>=◌ ◌>>◌
abbrev pub ◌>>=◌ {ℓ κ} : {X : Type ℓ} {Y : Type κ} → Outcome X → (X → Outcome Y) → Outcome Y
panic >>= next = panic
err problem >>= next = err problem
ok x >>= next = next x

abbrev pub ◌>>◌ {κ} : {Y : Type κ} → Outcome (Unit {0}) → Outcome Y → Outcome Y
done >> rest = done >>= λ _. rest

-- `fmt.Errorf("context: %w", err)` on the way out, also with `%v`, which gives the same text.
abbrev pub with_context {ℓ} : {A : Type ℓ} → Text → Outcome A → Outcome A
with_context c (ok a) = ok a
with_context c (err e) = err (wrap c e)
with_context c panic = panic

-- A bind that gave a value went through both of its steps.
pub >>=-eq-ok {ℓ κ} :
    {X : Type ℓ} {Y : Type κ} (start : Outcome X) (next : X → Outcome Y) {y : Y}
    → (start >>= next) ≡ ok y
    → (x : X) × (start ≡ ok x) × (next x ≡ ok y)
>>=-eq-ok panic next e = cc
>>=-eq-ok (err problem) next e = cc
>>=-eq-ok (ok x) next e = (x, refl, e)

pub with_context-eq-ok {ℓ} :
    {A : Type ℓ} (c : Text) (m : Outcome A) {a : A} → with_context c m ≡ ok a → m ≡ ok a
with_context-eq-ok c (ok _) e = e
with_context-eq-ok c (err _) e = cc
with_context-eq-ok c panic e = cc

pub ok-inj {ℓ} : {A : Type ℓ} {a b : A} → ok a ≡ ok b → a ≡ b
ok-inj e = cc
