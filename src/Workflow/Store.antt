-- ===== src/Workflow/Store.antt =====
-- The workflow tables' operations of apps/api/app/workflow_repository.py.
use expo_fastapi_todo.Prelude.{
  ℕ, ◌+◌, Bool, not, ◌&&◌, Option, none, [], ◌∷◌, ◌++◌, any, find, ◌==◌, Text, codes,
}
use expo_fastapi_todo.Database.Rows.{
  WorkflowRow, WorkflowStartRequestRow, WorkflowActionRequestRow, workflow_row_ok, start_row_ok,
  action_row_ok,
}
use expo_fastapi_todo.Database.Transaction.{
  Database, Transaction, pure, gets, modify, require, ◌>>=◌, ◌>>◌,
}
use expo_fastapi_todo.Todos.{user_exists}
use expo_fastapi_todo.Workflow.Domain.{Uuid, current_workflow_definition_version}

abbrev pub is_workflow : Uuid → ℕ → WorkflowRow → Bool
is_workflow public_id owner_id row = row.public_id == public_id && row.owner_id == owner_id

-- `lock_workflow` selects the same row as `find_workflow`, and holds its lock to the end of the
-- transaction.
unfoldable pub find_workflow : Uuid → ℕ → Database → Option WorkflowRow
find_workflow public_id owner_id db = find (is_workflow public_id owner_id) db.workflows.rows

abbrev pub new_workflow : Uuid → ℕ → Text → Database → WorkflowRow
new_workflow public_id owner_id title db = record {
  id = db.workflows.next_id;
  public_id = public_id;
  owner_id = owner_id;
  state = codes "ASSESS_TASK";
  title = title;
  involves_multiple_steps = none;
  proposed_todo_titles = [];
  completion_result = none;
  revision = 0;
  definition_version = current_workflow_definition_version;
}

unfoldable pub workflow_insertable : WorkflowRow → Database → Bool
workflow_insertable row db =
    workflow_row_ok row
    && user_exists row.owner_id db
    && not (any (λ r. r.public_id == row.public_id) db.workflows.rows)

abbrev pub insert_workflow : WorkflowRow → Database → Database
insert_workflow row db = record db {
  workflows = record { rows = db.workflows.rows ++ row ∷ []; next_id = db.workflows.next_id + 1 };
}

unfoldable pub create_workflow : Uuid → ℕ → Text → Transaction WorkflowRow
create_workflow public_id owner_id title = do
  row ← gets (new_workflow public_id owner_id title)
  require (workflow_insertable row)
  modify (insert_workflow row)
  pure row

-- `session.get(WorkflowStartRequestRow, (owner_id, request_id))`
unfoldable pub find_start_request : ℕ → Uuid → Database → Option WorkflowStartRequestRow
find_start_request owner_id request_id db =
    find (λ r. r.owner_id == owner_id && r.request_id == request_id) db.start_requests

-- The primary key is free where this is called: the insert is `ON CONFLICT DO NOTHING`.
unfoldable pub insert_start_request : WorkflowStartRequestRow → Transaction (Unit {0})
insert_start_request row = do
  require (λ db. start_row_ok row && user_exists row.owner_id db)
  modify (λ db. record db { start_requests = db.start_requests ++ row ∷ [] })

-- the primary key of an action request
abbrev pub is_action : ℕ → Uuid → Uuid → WorkflowActionRequestRow → Bool
is_action owner_id workflow_id request_id r =
    r.owner_id == owner_id && r.workflow_id == workflow_id && r.request_id == request_id

unfoldable pub find_action_request : ℕ → Uuid → Uuid → Database → Option WorkflowActionRequestRow
find_action_request owner_id workflow_id request_id db =
    find (is_action owner_id workflow_id request_id) db.action_requests

unfoldable pub action_insertable : WorkflowActionRequestRow → Database → Bool
action_insertable row db =
    action_row_ok row
    && any (is_workflow row.workflow_id row.owner_id) db.workflows.rows
    && not (any (is_action row.owner_id row.workflow_id row.request_id) db.action_requests)

unfoldable pub insert_action_request : WorkflowActionRequestRow → Transaction (Unit {0})
insert_action_request row = do
  require (action_insertable row)
  modify (λ db. record db { action_requests = db.action_requests ++ row ∷ [] })
