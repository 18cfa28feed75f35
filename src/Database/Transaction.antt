-- ===== src/Database/Transaction.antt =====
-- A session's transaction: it commits the new database with its result, or raises. The database that
-- a raise leaves is the one before, since `session.begin()` rolls back.
use expo_fastapi_todo.Prelude.{◌≡◌, refl, Bool, true, arith, if◌then◌else◌, List}
use expo_fastapi_todo.Result.{Error, Result, ok, err, integrity_error}
use expo_fastapi_todo.Database.Rows.{
  Table, UserRow, SessionRow, TodoRow, AnalyticsEventRow, WorkflowRow, WorkflowStartRequestRow,
  WorkflowActionRequestRow, SuggestionRow,
}

pub record Database : Type 0 where
  pub users : Table UserRow
  pub sessions : Table SessionRow
  pub todos : Table TodoRow
  pub events : Table AnalyticsEventRow
  pub workflows : Table WorkflowRow
  pub start_requests : List WorkflowStartRequestRow
  pub action_requests : List WorkflowActionRequestRow
  pub suggestions : Table SuggestionRow

abbrev pub Transaction {ℓ} : Type ℓ → Type ℓ
Transaction A = Database → Result (A × Database)

module _ {ℓ} {A : Type ℓ} where
  abbrev pub pure : A → Transaction A
  pure a db = ok (a, db)

  abbrev pub raise : Error → Transaction A
  raise e db = err e

  abbrev pub lift : Result A → Transaction A
  lift (ok a) db = ok (a, db)
  lift (err e) db = err e

  abbrev pub gets : (Database → A) → Transaction A
  gets f db = ok (f db, db)

abbrev pub continue {ℓ κ} :
    {A : Type ℓ} {B : Type κ} → Result (A × Database) → (A → Transaction B) → Result (B × Database)
continue (ok (a, db)) f = f a db
continue (err e) f = err e

infixl 5 ◌>>=◌ ◌>>◌
abbrev pub ◌>>=◌ {ℓ κ} :
    {A : Type ℓ} {B : Type κ} → Transaction A → (A → Transaction B) → Transaction B
◌>>=◌ m f db = continue (m db) f

abbrev pub ◌>>◌ {ℓ κ} : {A : Type ℓ} {B : Type κ} → Transaction A → Transaction B → Transaction B
m >> k = m >>= λ _. k

abbrev pub modify : (Database → Database) → Transaction (Unit {0})
modify f db = ok (tt, f db)

-- what a write does when a constraint of the table refuses the row
abbrev pub require : (Database → Bool) → Transaction (Unit {0})
require test db = if test db then ok (tt, db) else err integrity_error

-- `with session.begin(): ...`: the outcome and the database after it
abbrev pub transact {ℓ} : {A : Type ℓ} → Transaction A → Database → Result A × Database
transact m db = elim (m db) [ ok (a, db') ↦ (ok a, db') | err e ↦ (err e, db) ]

-- Inversion of a step that did not raise.
continue-eq-ok {ℓ κ} :
    {A : Type ℓ} {B : Type κ} (r : Result (A × Database)) (f : A → Transaction B) {x : B × Database}
    → continue r f ≡ ok x
    → (a : A) × (db : Database) × (r ≡ ok (a, db)) × (f a db ≡ ok x)
continue-eq-ok (ok (a, db)) f h = (a, db, refl, h)
continue-eq-ok (err e) f h = cc

pub >>=-eq-ok {ℓ κ} :
    {A : Type ℓ} {B : Type κ} (m : Transaction A) (f : A → Transaction B) (db : Database)
    {x : B × Database}
    → (m >>= f) db ≡ ok x
    → (a : A) × (db' : Database) × (m db ≡ ok (a, db')) × (f a db' ≡ ok x)
>>=-eq-ok m f db h = continue-eq-ok (m db) f h

-- The same as a data type, whose match names the parts.
pub data Steps {ℓ κ} {A : Type ℓ} {B : Type κ} (m : Transaction A) (f : A → Transaction B)
    (db : Database) (x : B × Database) : Type (ℓ ⊔ κ) where
  after : (a : A) (db' : Database) → m db ≡ ok (a, db') → f a db' ≡ ok x → Steps m f db x

pub steps {ℓ κ} :
    {A : Type ℓ} {B : Type κ} (m : Transaction A) (f : A → Transaction B) (db : Database)
    {x : B × Database}
    → (m >>= f) db ≡ ok x
    → Steps m f db x
steps m f db h = let (a, db', e, rest) = >>=-eq-ok m f db h in after a db' e rest

-- A write that did not raise met its constraint and left the database alone.
pub require-eq-ok :
    (test : Database → Bool) (db : Database) {u : Unit {0}} {db' : Database}
    → require test db ≡ ok (u, db')
    → (test db ≡ true) × (db' ≡ db)
require-eq-ok test db h = ground arith

pub lift-eq-ok {ℓ} :
    {A : Type ℓ} (r : Result A) (db : Database) {a : A} {db' : Database}
    → lift r db ≡ ok (a, db')
    → (r ≡ ok a) × (db' ≡ db)
lift-eq-ok (ok a) db h = ground arith
lift-eq-ok (err e) db h = cc
