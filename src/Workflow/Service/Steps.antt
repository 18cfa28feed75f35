-- ===== src/Workflow/Service/Steps.antt =====
-- What each step of an accepted action has written (workflow_service.py).
use mathlib.Core.List.{append-nil, append_assoc}
use expo_fastapi_todo.Prelude.{
  find_passes, ℕ, suc, ◌+◌, ◌≡◌, refl, ap, ◌∙◌, Bool, true, false, none, some, List, [], ◌∷◌, ◌++◌,
  map, find, select, update_where, Text, All, arith,
}
use expo_fastapi_todo.Result.{ok}
use expo_fastapi_todo.Database.Rows.{TodoRow, WorkflowRow}
use expo_fastapi_todo.Database.Transaction.{Database, >>=-eq-ok}
use expo_fastapi_todo.Todos.{create_todo, new_todo, insert_todo}
use expo_fastapi_todo.Workflow.Domain.{Uuid, CreatedTodo}
use expo_fastapi_todo.Workflow.Store.{is_workflow}
use expo_fastapi_todo.Workflow.Service.{
  AdvanceRequest, create_todos, update_workflow_row, is_current, only_row,
}

-- the tables that creating todos leaves alone
pub record OnlyTodos (db db' : Database) : Type 0 where
  pub users : db'.users ≡ db.users
  pub events : db'.events ≡ db.events
  pub workflows : db'.workflows ≡ db.workflows
  pub start_requests : db'.start_requests ≡ db.start_requests
  pub action_requests : db'.action_requests ≡ db.action_requests
  pub suggestions : db'.suggestions ≡ db.suggestions

create_todo_lem :
    (id : Uuid) (title : Text) (owner_id : ℕ) (db : Database) {row : TodoRow} {db' : Database}
    → create_todo id title owner_id db ≡ ok (row, db')
    → (row ≡ new_todo id title owner_id db) × (db' ≡ insert_todo row db)
unfolding create_todo
create_todo_lem id title owner_id db h = ground arith

-- The rows of todos that are created one after the other, all incomplete.
abbrev pub todo_rows : (ℕ → Uuid) → ℕ → ℕ → ℕ → List Text → List TodoRow
todo_rows draw owner_id next i [] = []
todo_rows draw owner_id next i (title ∷ titles) =
    record {
      id = next;
      public_id = draw i;
      title = title;
      completed = false;
      owner_id = owner_id;
      completed_at = none;
    }
    ∷ todo_rows draw owner_id (next + 1) (suc i) titles

pub record CreatesTodos (draw : ℕ → Uuid) (owner_id i : ℕ) (titles : List Text) (db : Database)
    (created : List CreatedTodo) (db' : Database) : Type 0 where
  pub only : OnlyTodos db db'
  pub titled : map (λ t. t.title) created ≡ titles
  pub undone : All (λ t. t.completed ≡ false) created
  pub rows : db'.todos.rows ≡ db.todos.rows ++ todo_rows draw owner_id db.todos.next_id i titles

pub create_todos_lem :
    (draw : ℕ → Uuid) (owner_id i : ℕ) (titles : List Text) (db : Database)
    {created : List CreatedTodo} {db' : Database}
    → create_todos draw owner_id i titles db ≡ ok (created, db')
    → CreatesTodos draw owner_id i titles db created db'
unfolding create_todos
create_todos_lem draw owner_id i [] db h = ground (arith, append-nil db.todos.rows)
create_todos_lem draw owner_id i (title ∷ titles) db h =
    let (row, db1, made, h1) = >>=-eq-ok (create_todo (draw i) title owner_id) _ db h in
    let (rest, db2, more, done) = >>=-eq-ok (create_todos draw owner_id (suc i) titles) _ db1 h1 in
    ground (
      arith,
      create_todo_lem (draw i) title owner_id db made,
      create_todos_lem draw owner_id (suc i) titles db1 more,
      append_assoc db.todos.rows (row ∷ [])
          (todo_rows draw owner_id (db.todos.next_id + 1) (suc i) titles),
    )

-- the one row that a guarded update selects is the one that was locked
select_one :
    (found : WorkflowRow → Bool) (current : WorkflowRow → Bool) (rows : List WorkflowRow)
    {row r : WorkflowRow}
    → find found rows ≡ some row
    → current row ≡ true
    → ((x : WorkflowRow) → current x ≡ true → found x ≡ true)
    → select current rows ≡ r ∷ []
    → r ≡ row
select_one found current [] e c sub s = cc
select_one found current (x ∷ xs) {row} {r} e c sub s =
    ground (arith, sub x, select_one found current xs {row = row} {r = r})

only_row_lem :
    (rows : List WorkflowRow) (db : Database) {row : WorkflowRow} {db' : Database}
    → only_row rows db ≡ ok (row, db')
    → (rows ≡ row ∷ []) × (db' ≡ db)
only_row_lem [] db h = cc
only_row_lem (row ∷ []) db h = ground arith
only_row_lem (one ∷ two ∷ more) db h = cc

map_one :
    (change : WorkflowRow → WorkflowRow) (rows : List WorkflowRow) {row : WorkflowRow}
    → map change rows ≡ row ∷ []
    → (r : WorkflowRow) × (rows ≡ r ∷ []) × (row ≡ change r)
map_one change [] h = cc
map_one change (r ∷ []) h = (r, refl, ground arith)
map_one change (r ∷ s ∷ more) h = cc

abbrev pub with_workflows : AdvanceRequest → (WorkflowRow → WorkflowRow) → Database → Database
with_workflows request change db = record db {
  workflows = record {
    rows = update_where (is_current request) change db.workflows.rows;
    next_id = db.workflows.next_id;
  };
}

pub update_workflow_row_lem :
    (request : AdvanceRequest) (change : WorkflowRow → WorkflowRow) (db : Database)
    {row row' : WorkflowRow} {db' : Database}
    → find (is_workflow request.workflow_id request.owner_id) db.workflows.rows ≡ some row
    → row.revision ≡ request.expected_revision
    → update_workflow_row request change db ≡ ok (row', db')
    → (row' ≡ change row)
      × (db' ≡ with_workflows request change db)
      × (select (is_current request) db.workflows.rows ≡ row ∷ [])
unfolding update_workflow_row
update_workflow_row_lem request change db {row} {row'} e same h =
    let (one, kept) =
      only_row_lem (map change (select (is_current request) db.workflows.rows))
        (with_workflows request change db) h in
    let (r, picked, changed) = map_one change (select (is_current request) db.workflows.rows) one in
    let current : is_current request row ≡ true =
      ground (
        arith,
        find_passes (is_workflow request.workflow_id request.owner_id) db.workflows.rows e,
      ) in
    let this =
      select_one (is_workflow request.workflow_id request.owner_id) (is_current request)
        db.workflows.rows e current (λ x c. ground arith) picked in
    (changed ∙ ap change this, kept, picked ∙ ap (λ x. x ∷ []) this)
