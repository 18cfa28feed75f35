-- ===== src/Suggestion/History/Safe.antt =====
-- Transactions whose commits only let the suggestions evolve, and the rules for their parts.
use expo_fastapi_todo.Prelude.{◌≡◌, refl, Bool, true, false, if◌then◌else◌, arith}
use expo_fastapi_todo.Result.{Error, Result, ok, err}
use expo_fastapi_todo.Database.Transaction.{Database, Transaction, pure, raise, lift, continue}
use expo_fastapi_todo.Suggestion.History.{IsOrdered, Follows, Follows-trans, Follows-same}

-- the outcome of a transaction on the database
pub record Commits {ℓ} {A : Type ℓ} (r : Result (A × Database)) (db : Database) : Type ℓ where
  pub run : {a : A} {db' : Database} → r ≡ ok (a, db') → IsOrdered db → Follows db db'

abbrev pub IsSafe {ℓ} : {A : Type ℓ} → Transaction A → Database → Type ℓ
IsSafe m db = Commits (m db) db

module _ {ℓ} {A : Type ℓ} where
  pub pure-IsSafe : (a : A) (db : Database) → IsSafe (pure a) db
  pure-IsSafe a db = record { run = λ h ordered. Follows-same db _ ordered (ground arith) }

  pub raise-IsSafe : (e : Error) (db : Database) → IsSafe (raise {A = A} e) db
  raise-IsSafe e db = record { run = λ h ordered. cc h }

  pub lift-IsSafe : (r : Result A) (db : Database) → IsSafe (lift r) db
  lift-IsSafe (ok a) db = pure-IsSafe a db
  lift-IsSafe (err e) db = raise-IsSafe e db

  pub if-IsSafe :
      (b : Bool) (x y : Transaction A) (db : Database)
      → (b ≡ true → IsSafe x db)
      → (b ≡ false → IsSafe y db)
      → IsSafe (if b then x else y) db
  if-IsSafe true x y db hx hy = hx refl
  if-IsSafe false x y db hx hy = hy refl

  pub ordered-IsSafe :
      (m : Transaction A) (db : Database) → (IsOrdered db → IsSafe m db) → IsSafe m db
  ordered-IsSafe m db safe = record { run = λ h ordered. (safe ordered).run h ordered }

module _ {ℓ κ} {A : Type ℓ} {B : Type κ} where
  pub bind-IsSafe :
      (r : Result (A × Database)) (f : A → Transaction B) (db : Database)
      → Commits r db
      → ((a : A) (db1 : Database) → r ≡ ok (a, db1) → IsSafe (f a) db1)
      → Commits (continue r f) db
  bind-IsSafe (ok (a, db1)) f db first next = record {
    run = λ h ordered.
        let here = first.run refl ordered in
        Follows-trans here ((next a db1 refl).run h here.ordered);
  }
  bind-IsSafe (err e) f db first next = record { run = λ h ordered. cc h }

  pub lift-bind-IsSafe :
      (r : Result A) (f : A → Transaction B) (db : Database)
      → ((a : A) → r ≡ ok a → IsSafe (f a) db)
      → Commits (continue (lift r db) f) db
  lift-bind-IsSafe (ok a) f db next = record { run = λ h ordered. (next a refl).run h ordered }
  lift-bind-IsSafe (err e) f db next = record { run = λ h ordered. cc h }
