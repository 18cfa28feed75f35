-- ===== src/Todos/Again.antt =====
-- A todo whose completion is set again (`set_completed` of apps/api/app/todo_repository.py).
use expo_fastapi_todo.Prelude.{
  ℕ, ◌≡◌, refl, subst, ap, Bool, true, false, Option, none, some, List, [], ◌∷◌, find, update_where,
  Bool-cases, Option-cases, inl, inr,
}
use mathlib.Core.Option
use expo_fastapi_todo.Result.{ok, ok-injective}
use expo_fastapi_todo.Database.Rows.{TodoRow}
use expo_fastapi_todo.Database.Transaction.{Database}
use expo_fastapi_todo.Todos.{is_todo, set_completed, with_completed}
use expo_fastapi_todo.Workflow.Domain.{Uuid}

find-update_where :
    (test : TodoRow → Bool) (change : TodoRow → TodoRow) (xs : List TodoRow)
    → ((x : TodoRow) → test (change x) ≡ test x)
    → find test (update_where test change xs) ≡ Option.map change (find test xs)
find-update_where test change [] same = refl
find-update_where test change (x ∷ xs) same = elim (Bool-cases (test x)) [
  | inl hit ↦ rw hit (rw (same x) (rw hit refl))
  | inr miss ↦ rw miss (rw miss (find-update_where test change xs same))
]

update_where_again :
    (test : TodoRow → Bool) (change change' : TodoRow → TodoRow) (xs : List TodoRow)
    → ((x : TodoRow) → test (change x) ≡ test x)
    → ((x : TodoRow) → change' (change x) ≡ change x)
    → update_where test change' (update_where test change xs) ≡ update_where test change xs
update_where_again test change change' [] same again = refl
update_where_again test change change' (x ∷ xs) same again = elim (Bool-cases (test x)) [
  | inl hit ↦ rw hit (
      rw (same x)
        (rw hit (rw (again x) (rw (update_where_again test change change' xs same again) refl))))
  | inr miss ↦ rw miss (rw miss (rw (update_where_again test change change' xs same again) refl))
]

with_completed_again :
    (now later : ℕ) (flag : Bool) (row : TodoRow)
    → with_completed later flag (with_completed now flag row) ≡ with_completed now flag row
with_completed_again now later false row = refl
with_completed_again now later true row = elim (Option-cases row.completed_at) [
  | inl never ↦ rw never refl
  | inr (at, done) ↦ rw done refl
]

map_again :
    (now later : ℕ) (flag : Bool) (found : Option TodoRow)
    → Option.map (with_completed later flag) (Option.map (with_completed now flag) found)
      ≡ Option.map (with_completed now flag) found
map_again now later flag none = refl
map_again now later flag (some row) = ap some (with_completed_again now later flag row)

abbrev completed_in : ℕ → Uuid → Bool → ℕ → Database → Database
completed_in now public_id flag owner_id db = record db {
  todos = record {
    rows = update_where (is_todo public_id owner_id) (with_completed now flag) db.todos.rows;
    next_id = db.todos.next_id;
  };
}

set_twice :
    (now later : ℕ) (public_id : Uuid) (flag : Bool) (owner_id : ℕ) (db : Database)
    → set_completed later public_id flag owner_id (completed_in now public_id flag owner_id db)
      ≡ ok (
        Option.map (with_completed now flag) (find (is_todo public_id owner_id) db.todos.rows),
        completed_in now public_id flag owner_id db,
      )
unfolding set_completed
set_twice now later public_id flag owner_id db =
    rw
      (update_where_again (is_todo public_id owner_id) (with_completed now flag)
        (with_completed later flag) db.todos.rows (λ x. refl) (with_completed_again now later flag))
      (rw
        (find-update_where (is_todo public_id owner_id) (with_completed now flag) db.todos.rows
          (λ x. refl))
        (rw (map_again now later flag (find (is_todo public_id owner_id) db.todos.rows)) refl))

-- Setting a todo's completion again, at any later time, answers the same and changes nothing: the
-- first time of completion stays.
pub set_completed_again :
    (now later : ℕ) (public_id : Uuid) (flag : Bool) (owner_id : ℕ) (db : Database)
    {row : Option TodoRow} {db' : Database}
    → set_completed now public_id flag owner_id db ≡ ok (row, db')
    → set_completed later public_id flag owner_id db' ≡ ok (row, db')
unfolding set_completed
set_completed_again now later public_id flag owner_id db {row} {db'} h =
    subst
      (λ (x : Option TodoRow × Database). set_completed later public_id flag owner_id x.1 ≡ ok x)
      (ok-injective h) (set_twice now later public_id flag owner_id db)
