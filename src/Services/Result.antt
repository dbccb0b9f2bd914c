-- ===== src/Services/Result.antt =====
-- The results of the services of internal/service: a value, or an error, which is one of the sentinels
-- of internal/flux_errors/errors.go or, where a service hands it on unchanged, an error of the driver.
use flux_backend.Common.{
  Bool, true, false, Option, none, some, ◌≡◌, refl, ◌⊎◌, inl, inr, List, [], Text,
}
use flux_backend.Errors.{FluxError, DbError, handle_db_errors, MsgMap}

pub data Error : Type 0 where
  flux : FluxError → Error
  -- a sentinel with a text that tells the caller apart from others of that sentinel
  explained : FluxError → Text → Error
  driver : DbError → Error

pub data Result {ℓ} (A : Type ℓ) : Type ℓ where
  err : Error → Result A
  ok : A → Result A

infixl 5 ◌>>=◌ ◌>>◌
abbrev pub ◌>>=◌ {ℓ κ} : {A : Type ℓ} {B : Type κ} → Result A → (A → Result B) → Result B
err why >>= next = err why
ok first >>= next = next first

abbrev pub ◌>>◌ {ℓ κ} : {A : Type ℓ} {B : Type κ} → Result A → Result B → Result B
err why >> r = err why
ok first >> r = r

-- `if !b { return err }`.
abbrev pub require : Bool → FluxError → Result (Unit {0})
require true e = ok tt
require false e = err (flux e)

-- `if b { return err }`.
abbrev pub reject : Bool → FluxError → Result (Unit {0})
reject true e = err (flux e)
reject false e = ok tt

-- The value behind a pointer that the code has checked for nil.
abbrev pub present {ℓ} : {A : Type ℓ} → Option A → FluxError → Result A
present (some a) e = ok a
present none e = err (flux e)

-- What a query answers: an error of the driver, or rows.
abbrev pub Answer {ℓ} : Type ℓ → Type ℓ
Answer A = DbError ⊎ A

-- The services pass an empty table of messages.
abbrev pub no_messages : Option (List (Text × MsgMap))
no_messages = some []

-- An error of the driver goes through HandleDBErrors.
unfoldable pub handled {ℓ} : {A : Type ℓ} → Answer A → Result A
handled (inl e) = err (flux (handle_db_errors e no_messages).sentinel)
handled (inr a) = ok a

-- An error of the driver is wrapped in ErrInternal.
unfoldable pub or_internal {ℓ} : {A : Type ℓ} → Answer A → Result A
or_internal (inl e) = err (flux FluxError.internal)
or_internal (inr a) = ok a

pub handled-ok {ℓ} : {A : Type ℓ} (r : Answer A) {a : A} → handled r ≡ ok a → r ≡ inr a
unfolding handled
handled-ok (inl e) h = cc
handled-ok (inr x) h = cc

pub or_internal-ok {ℓ} : {A : Type ℓ} (r : Answer A) {a : A} → or_internal r ≡ ok a → r ≡ inr a
unfolding or_internal
or_internal-ok (inl e) h = cc
or_internal-ok (inr x) h = cc

pub ok-injective {ℓ} : {A : Type ℓ} {a b : A} → ok a ≡ ok b → a ≡ b
ok-injective h = cc

pub inr-injective {ℓ} : {A : Type ℓ} {a b : A} → ◌≡◌ {A = Answer A} (inr a) (inr b) → a ≡ b
inr-injective h = cc

abbrev pub is_ok {ℓ} : {A : Type ℓ} → Result A → Bool
is_ok (ok a) = true
is_ok (err e) = false

-- The result is a value, and `P` holds of that value.
abbrev pub Yields {ℓ κ} : {A : Type ℓ} → Result A → (A → Type κ) → Type (ℓ ⊔ κ)
Yields {A = A} m P = (a : A) × (m ≡ ok a) × P a

pub bind-ok {ℓ κ} :
    {B : Type κ} {b : B} {A : Type ℓ} (m : Result A) (next : A → Result B)
    → m >>= next ≡ ok b
    → Yields m (λ a. next a ≡ ok b)
bind-ok (err why) next h = cc
bind-ok (ok first) next h = (first, refl, h)

pub then-ok {ℓ κ} :
    {B : Type κ} {b : B} {A : Type ℓ} (m : Result A) (r : Result B)
    → m >> r ≡ ok b
    → Yields m (λ _. r ≡ ok b)
then-ok (err why) r h = cc
then-ok (ok first) r h = (first, refl, h)

pub require-ok : (b : Bool) (e : FluxError) → require b e ≡ ok tt → b ≡ true
require-ok true e h = refl
require-ok false e h = cc

pub present-ok {ℓ} :
    {A : Type ℓ} (o : Option A) (e : FluxError) {a : A} → present o e ≡ ok a → o ≡ some a
present-ok (some x) e h = cc
present-ok none e h = cc

pub reject-ok : (b : Bool) (e : FluxError) → reject b e ≡ ok tt → b ≡ false
reject-ok true e h = cc
reject-ok false e h = refl
