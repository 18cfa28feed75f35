-- ===== src/Api/Errors.antt =====
-- The error answers of apps/api/app/main.py, and a handler's answer to the outcome of its transaction.
use expo_fastapi_todo.Prelude.{ℕ, ◌≡◌, ◌∙◌, ap, inl, inr, Option, none, Text, codes}
use expo_fastapi_todo.Result.{Error, ok, Result-cases}
use expo_fastapi_todo.Http.{message, coded, HttpException, Answer, answered, refused}
use expo_fastapi_todo.Database.Transaction.{Database, Transaction, transact}
use expo_fastapi_todo.Database.Call.{
  Interrupt, Called, returned, raised, broken, operational, unexpected, interrupted,
}

abbrev pub http_error : ℕ → Text → HttpException
http_error status_code text = record { status_code = status_code; detail = message text }

abbrev pub unauthorized : HttpException
unauthorized = http_error 401 (codes "Not authenticated.")

abbrev pub database_unavailable : HttpException
database_unavailable = http_error 503 (codes "Database unavailable.")

abbrev pub workflow_not_found : HttpException
workflow_not_found = http_error 404 (codes "Todo workflow not found.")

abbrev pub workflow_conflict : Text → Text → HttpException
workflow_conflict code text = record { status_code = 409; detail = coded code text }

-- an exception that no clause of the handler catches: the server answers 500
abbrev pub internal_error : HttpException
internal_error = http_error 500 (codes "Internal Server Error")

-- the `except` clauses: the table of the program's exceptions, and the database's own
unfoldable pub settle {ℓ κ} :
    {A : Type ℓ} {B : Type κ}
    → (Error → HttpException)
    → (A → Answer B)
    → Called A × Database
    → Answer B × Database
settle table next (returned a, db) = (next a, db)
settle table next (raised e, db) = (refused (table e), db)
settle table next (broken operational, db) = (refused database_unavailable, db)
settle table next (broken unexpected, db) = (refused internal_error, db)

-- a handler with one transaction, which may be interrupted
abbrev pub handle {ℓ κ} :
    {A : Type ℓ} {B : Type κ}
    → (Error → HttpException)
    → (A → Answer B)
    → Option Interrupt
    → Transaction A
    → Database
    → Answer B × Database
handle table next o m db = settle table next (interrupted o db (transact m db))

-- an answer of an uninterrupted handler is of a transaction that committed
pub handle-answered {ℓ κ} :
    {A : Type ℓ} {B : Type κ} (table : Error → HttpException) (next : A → Answer B)
    (m : Transaction A) (db : Database) {b : B} {db' : Database}
    → handle table next none m db ≡ (answered b, db')
    → (a : A) × (m db ≡ ok (a, db')) × (next a ≡ answered b)
unfolding settle
handle-answered table next m db h = elim (Result-cases (m db)) [
  | inl ((a, db1), e) ↦
      let same = rw (e, transact) at h in
      (
        a,
        e ∙ ap (λ d. ok (a, d)) (ap (λ (x : Answer _ × Database). x.1) same),
        ap (λ (x : Answer _ × Database). x.0) same,
      )
  | inr (raise, e) ↦
      let failed = rw (e, transact) at h in cc (ap (λ (x : Answer _ × Database). x.0) failed)
]
