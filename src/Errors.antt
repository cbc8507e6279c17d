-- ===== src/Errors.antt =====
-- src/collector/persistence/postgres/errors.py: the typed errors of the repositories, with those
-- that reach a caller from elsewhere: Python's `ValueError` and the driver's `IntegrityError` and
-- `DataError`.
-- An operation that raises leaves its transaction to be rolled back, so no state comes with an error.
use ua_web_data_collector_sp.Base.{◌≡◌, refl, Bool, true, false, Option, none, some}

pub data Error : Type 0 where
  value_error integrity_error data_error : Error
  not_found stale_revision lease_not_owned invalid_transition : Error
  conflict stale_claim invalid_value : Error

-- What a call raises, or what it returns.
pub data Result {ℓ} (Answer : Type ℓ) : Type ℓ where
  err : (raised : Error) → Result Answer
  ok : (answer : Answer) → Result Answer

-- `if not test: raise error`
abbrev pub require : (test : Bool) → Error → Result (Unit {0})
require false error = err error
require true error = ok tt

-- The statements after a call run on what it returns; what it raises ends them.
infixl 5 ◌>>=◌
abbrev pub ◌>>=◌ {ℓ κ} :
    {Answer : Type ℓ} {Next : Type κ} → Result Answer → (Answer → Result Next) → Result Next
err raised >>= rest = err raised
ok answer >>= rest = rest answer

infixl 5 ◌>>◌
abbrev pub ◌>>◌ {κ} : {Next : Type κ} → Result (Unit {0}) → Result Next → Result Next
first >> rest = first >>= λ done. rest

-- `if row is None: raise e`
abbrev pub or_raise {ℓ} : {A : Type ℓ} → Option A → Error → Result A
or_raise none e = err e
or_raise (some a) e = ok a

pub or_raise-eq-ok {ℓ} :
    {A : Type ℓ} (o : Option A) (e : Error) {a : A} → or_raise o e ≡ ok a → o ≡ some a
or_raise-eq-ok none e h = cc
or_raise-eq-ok (some b) e h = cc

pub require-eq-ok : (b : Bool) (e : Error) {done : Unit {0}} → require b e ≡ ok done → b ≡ true
require-eq-ok true e h = refl
require-eq-ok false e h = absurd (cc)

-- The state after an operation: a raised error leaves the transaction rolled back.
abbrev pub after {ℓ κ} : {S : Type ℓ} {A : Type κ} → S → Result (A × S) → S
after s (ok (a, s')) = s'
after s (err e) = s

-- A property of that state, through a step of the operation that only reads.
pub after-bind {ℓ κ μ ν} :
    {S : Type ℓ} {A : Type κ} {B : Type μ} (P : S → Type ν) (s : S) (m : Result A)
    (f : A → Result (B × S))
    → P s
    → ((a : A) → m ≡ ok a → P (after s (f a)))
    → P (after s (m >>= f))
after-bind P s (ok a) f base next = next a refl
after-bind P s (err e) f base next = base

-- A step that only builds the answer leaves the state alone.
pub after-answer {ℓ κ μ} :
    {S : Type ℓ} {A : Type κ} {B : Type μ} (s : S) (m : Result (A × S)) (b : B)
    → after s (m >>= λ u. ok (b, u.1)) ≡ after s m
after-answer s (ok (a, s')) b = refl
after-answer s (err e) b = refl

-- A postcondition of what an operation returns.
abbrev pub IfOk {ℓ κ} : {A : Type ℓ} → (A → Type κ) → Result A → Type κ
IfOk P (ok a) = P a
IfOk P (err e) = Unit

pub IfOk-bind {ℓ κ μ} :
    {A : Type ℓ} {B : Type κ} (P : B → Type μ) (m : Result A) (f : A → Result B)
    → ((a : A) → m ≡ ok a → IfOk P (f a))
    → IfOk P (m >>= f)
IfOk-bind P (ok a) f next = next a refl
IfOk-bind P (err e) f next = tt
