-- ===== src/Todos.antt =====
-- apps/api/app/todo_repository.py: a user's todos. `now` is the transaction's `func.now()`.
pub mod Steps
pub mod Again
pub mod Backfill
use mathlib.Core.Option
use expo_fastapi_todo.Prelude.{
  ℕ, ◌+◌, Bool, true, false, not, ◌&&◌, Option, none, some, List, [], ◌∷◌, ◌++◌, any, select, find,
  update_where, ◌==◌, Text, is_none,
}
use expo_fastapi_todo.Database.Rows.{TodoRow, todo_row_ok}
use expo_fastapi_todo.Database.Transaction.{
  Database, Transaction, pure, gets, modify, require, ◌>>=◌, ◌>>◌,
}
use expo_fastapi_todo.Workflow.Domain.{Uuid}

-- `TodoRow.public_id == public_id, TodoRow.owner_id == owner_id`
abbrev pub is_todo : Uuid → ℕ → TodoRow → Bool
is_todo public_id owner_id row = row.public_id == public_id && row.owner_id == owner_id

-- the foreign key to `users.id`
abbrev pub user_exists : ℕ → Database → Bool
user_exists owner_id db = any (λ u. u.id == owner_id) db.users.rows

unfoldable pub list_todos : ℕ → Transaction (List TodoRow)
list_todos owner_id = gets (λ db. select (λ row. row.owner_id == owner_id) db.todos.rows)

abbrev pub new_todo : Uuid → Text → ℕ → Database → TodoRow
new_todo public_id title owner_id db = record {
  id = db.todos.next_id;
  public_id = public_id;
  title = title;
  completed = false;
  owner_id = owner_id;
  completed_at = none;
}

-- the constraints that an inserted todo meets
unfoldable pub todo_insertable : TodoRow → Database → Bool
unfolding todo_row_ok
todo_insertable row db =
    todo_row_ok row
    && user_exists row.owner_id db
    && not (any (λ r. r.public_id == row.public_id) db.todos.rows)

abbrev pub insert_todo : TodoRow → Database → Database
insert_todo row db = record db {
  todos = record { rows = db.todos.rows ++ row ∷ []; next_id = db.todos.next_id + 1 };
}

unfoldable pub create_todo : Uuid → Text → ℕ → Transaction TodoRow
create_todo public_id title owner_id = do
  todo ← gets (new_todo public_id title owner_id)
  require (todo_insertable todo)
  modify (insert_todo todo)
  pure todo

-- `UPDATE todos SET change WHERE public_id AND owner_id RETURNING *`
abbrev pub update_todo : Uuid → ℕ → (TodoRow → TodoRow) → Transaction (Option TodoRow)
update_todo public_id owner_id change = do
  found ← gets (λ db. find (is_todo public_id owner_id) db.todos.rows)
  modify (λ db. record db {
    todos = record {
      rows = update_where (is_todo public_id owner_id) change db.todos.rows;
      next_id = db.todos.next_id;
    };
  })
  pure (Option.map change found)

-- `func.coalesce(TodoRow.completed_at, func.now()) if completed else None`
abbrev pub stamp : ℕ → Bool → Option ℕ → Option ℕ
stamp now true (some at) = some at
stamp now true none = some now
stamp now false at = none

abbrev pub with_completed : ℕ → Bool → TodoRow → TodoRow
with_completed now completed row = record row {
  completed = completed;
  completed_at = stamp now completed row.completed_at;
}

unfoldable pub set_completed : ℕ → Uuid → Bool → ℕ → Transaction (Option TodoRow)
set_completed now public_id completed owner_id =
    update_todo public_id owner_id (with_completed now completed)

abbrev pub with_title : Text → TodoRow → TodoRow
with_title title row = record row { title = title }

-- The CHECK on the title refuses the update if a row is written.
unfoldable pub set_title : Uuid → Text → ℕ → Transaction (Option TodoRow)
unfolding todo_row_ok
set_title public_id title owner_id = do
  found ← gets (λ db. find (is_todo public_id owner_id) db.todos.rows)
  require (λ _. elim found [ none ↦ true | some row ↦ todo_row_ok (with_title title row) ])
  update_todo public_id owner_id (with_title title)

unfoldable pub delete_todo : Uuid → ℕ → Transaction Bool
delete_todo public_id owner_id = do
  found ← gets (λ db. find (is_todo public_id owner_id) db.todos.rows)
  modify (λ db. record db {
    todos = record {
      rows = select (λ row. not (is_todo public_id owner_id row)) db.todos.rows;
      next_id = db.todos.next_id;
    };
  })
  pure (not (is_none found))
