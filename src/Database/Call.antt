-- ===== src/Database/Call.antt =====
-- A call of a transaction by a handler of apps/api/app: it returns, raises, or its connection breaks.
use expo_fastapi_todo.Prelude.{Bool, Option, none, some, if◌then◌else◌}
use expo_fastapi_todo.Result.{Error, Result, ok, err}
use expo_fastapi_todo.Database.Transaction.{Database}

-- `OperationalError` or SQLAlchemy's `TimeoutError`, or any other exception of the driver
pub data Fault : Type 0 where
  operational unexpected : Fault

-- A transaction that breaks has been applied if only the answer to its commit was lost.
pub record Interrupt : Type 0 where
  pub fault : Fault
  pub applied : Bool

pub data Called {ℓ} (A : Type ℓ) : Type ℓ where
  returned : A → Called A
  raised : Error → Called A
  broken : Fault → Called A

module _ {ℓ} {A : Type ℓ} where
  abbrev pub called : Result A → Called A
  called (ok a) = returned a
  called (err e) = raised e

  -- the answer of a call, and the database that it leaves
  abbrev pub interrupted : Option Interrupt → Database → Result A × Database → Called A × Database
  interrupted none db (r, db') = (called r, db')
  interrupted (some interrupt) db (r, db') =
      (broken interrupt.fault, if interrupt.applied then db' else db)
