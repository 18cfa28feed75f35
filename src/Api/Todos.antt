-- ===== src/Api/Todos.antt =====
-- The todo handlers of apps/api/app/main.py, for the user that is logged in.
use expo_fastapi_todo.Prelude.{ℕ, Bool, true, false, Option, none, some, List, map, Text, codes}
use expo_fastapi_todo.Http.{HttpException, Answer, answered, refused}
use expo_fastapi_todo.Database.Rows.{TodoRow}
use expo_fastapi_todo.Database.Transaction.{Database, Transaction}
use expo_fastapi_todo.Database.Call.{Interrupt}
use expo_fastapi_todo.Workflow.Domain.{Uuid}
use expo_fastapi_todo.Api.Errors.{http_error, internal_error, handle}
use expo_fastapi_todo.Api.Payloads.{TodoUpdate, update_title, update_completed}
use expo_fastapi_todo.Api.Views.{Todo, as_todo}
use expo_fastapi_todo.Todos.{list_todos, create_todo, set_title, set_completed, delete_todo}

abbrev pub todo_not_found : HttpException
todo_not_found = http_error 404 (codes "Todo not found.")

abbrev pub or_todo_not_found : Option TodoRow → Answer Todo
or_todo_not_found none = refused todo_not_found
or_todo_not_found (some row) = answered (as_todo row)

unfoldable pub list_todos_handler : ℕ → Option Interrupt → Database → Answer (List Todo) × Database
list_todos_handler user_id o db =
    handle (λ e. internal_error) (λ rows. answered (map as_todo rows)) o (list_todos user_id) db

unfoldable pub create_todo_handler :
    Uuid → Text → ℕ → Option Interrupt → Database → Answer Todo × Database
create_todo_handler public_id title user_id o db =
    handle (λ e. internal_error) (λ row. answered (as_todo row)) o
      (create_todo public_id title user_id) db

-- the write of an update
abbrev pub update_of : ℕ → Uuid → TodoUpdate → ℕ → Transaction (Option TodoRow)
update_of now todo_id (update_title title) user_id = set_title todo_id title user_id
update_of now todo_id (update_completed completed) user_id =
    set_completed now todo_id completed user_id

unfoldable pub update_todo_handler :
    ℕ → Uuid → TodoUpdate → ℕ → Option Interrupt → Database → Answer Todo × Database
update_todo_handler now todo_id update user_id o db =
    handle (λ e. internal_error) or_todo_not_found o (update_of now todo_id update user_id) db

abbrev pub or_removed : Bool → Answer ℕ
or_removed true = answered 204
or_removed false = refused todo_not_found

-- `remove_todo`
unfoldable pub remove_todo : Uuid → ℕ → Option Interrupt → Database → Answer ℕ × Database
remove_todo todo_id user_id o db =
    handle (λ e. internal_error) or_removed o (delete_todo todo_id user_id) db
