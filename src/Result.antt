-- ===== src/Result.antt =====
-- Exceptions as values: a Python function that may raise returns a `Result`.
use expo_fastapi_todo.Prelude.{◌≡◌, ◌⊎◌, inl, inr, refl, Bool, true, false, not}

-- the exception classes that the modelled code raises or lets through
pub data Error : Type 0 where
  -- app/workflow_domain.py
  invalid_workflow_action terminal_workflow invalid_workflow_input : Error
  unsupported_workflow_definition : Error
  -- app/workflow_service.py
  stale_workflow_step request_id_reused revision_exhausted : Error
  -- app/workflow_repository.py
  invalid_stored_snapshot : Error
  -- app/suggestion_service.py
  suggestion_in_progress stale_suggestion invalid_suggestion_state invalid_stored_suggestion : Error
  -- built-in exceptions, and the database's refusal of a row
  value_error type_error assertion_error integrity_error : Error

pub data Result {ℓ} (A : Type ℓ) : Type ℓ where
  ok : A → Result A
  err : Error → Result A

module _ {ℓ κ} {A : Type ℓ} {B : Type κ} where
  infixl 5 ◌>>=◌
  abbrev pub ◌>>=◌ : Result A → (A → Result B) → Result B
  err raised >>= next = err raised
  ok value >>= next = next value

  -- A chain that did not raise passed its first call.
  pub >>=-eq-ok :
      (first : Result A) (next : A → Result B) {answer : B}
      → (first >>= next) ≡ ok answer
      → (value : A) × (first ≡ ok value) × (next value ≡ ok answer)
  >>=-eq-ok (err raised) next h = cc
  >>=-eq-ok (ok value) next h = (value, refl, h)

infixl 5 ◌>>◌
abbrev pub ◌>>◌ {κ} : {B : Type κ} → Result (Unit {0}) → Result B → Result B
check >> next = check >>= λ passed. next

-- `if test: raise e`
abbrev pub raise_if : Bool → Error → Result (Unit {0})
raise_if true e = err e
raise_if false e = ok tt

-- `try: ... except ...: raise e from exc`
abbrev pub or_raise {ℓ} : {A : Type ℓ} → Result A → Error → Result A
or_raise (ok a) e = ok a
or_raise (err _) e = err e

pub or_raise-eq-ok {ℓ} :
    {A : Type ℓ} (m : Result A) (e : Error) {a : A} → or_raise m e ≡ ok a → m ≡ ok a
or_raise-eq-ok (ok a) e h = h
or_raise-eq-ok (err x) e h = cc

pub ok-injective {ℓ} : {A : Type ℓ} {a b : A} → ok a ≡ ok b → a ≡ b
ok-injective h = cc

pub raise_if-eq-ok : (b : Bool) (e : Error) {u : Unit {0}} → raise_if b e ≡ ok u → b ≡ false
raise_if-eq-ok true e h = cc
raise_if-eq-ok false e h = refl

pub raise_if-not-eq-ok :
    (b : Bool) (e : Error) {u : Unit {0}} → raise_if (not b) e ≡ ok u → b ≡ true
raise_if-not-eq-ok true e h = refl
raise_if-not-eq-ok false e h = cc

pub Result-cases {ℓ} :
    {A : Type ℓ} (r : Result A) → ((a : A) × (r ≡ ok a)) ⊎ ((e : Error) × (r ≡ err e))
Result-cases (ok a) = inl (a, refl)
Result-cases (err e) = inr (e, refl)
