-- ===== src/Workflow/RowSnapshot.antt =====
-- The snapshot of a workflow's row (`_snapshot_from_row` of apps/api/app/workflow_service.py).
use expo_fastapi_todo.Prelude.{Option, none, some, List, [], ◌∷◌}
use expo_fastapi_todo.Result.{Result, ok, err, value_error, ◌>>=◌}
use expo_fastapi_todo.Platform.{Platform}
use expo_fastapi_todo.Database.Rows.{StoredTodo, WorkflowRow}
use expo_fastapi_todo.Workflow.Domain.{parse_state, CreatedTodo, WorkflowSnapshot}

-- `UUID(text)` and `WorkflowState(text)` raise a `ValueError`
abbrev pub or_value_error : {A : Type 0} → Option A → Result A
or_value_error none = err value_error
or_value_error (some a) = ok a

-- the entries of `completion_result["created_todos"]`
unfoldable pub created_from_stored : Platform → List StoredTodo → Result (List CreatedTodo)
created_from_stored p [] = ok []
created_from_stored p (item ∷ items) = do
  id ← or_value_error (p.parse_uuid item.id)
  rest ← created_from_stored p items
  ok (record { id = id; title = item.title; completed = item.completed } ∷ rest)

unfoldable pub created_from_result :
    Platform → Option (List StoredTodo) → Result (Option (List CreatedTodo))
created_from_result p none = ok none
created_from_result p (some items) = do created ← created_from_stored p items; ok (some created)

unfoldable pub snapshot_from_row : Platform → WorkflowRow → Result WorkflowSnapshot
snapshot_from_row p row = do
  created ← created_from_result p row.completion_result
  state ← or_value_error (parse_state row.state)
  ok (record {
    id = row.public_id;
    state = state;
    title = row.title;
    involves_multiple_steps = row.involves_multiple_steps;
    proposed_todo_titles = row.proposed_todo_titles;
    created_todos = created;
    revision = row.revision;
    definition_version = row.definition_version;
  })

abbrev pub stored_todo : Platform → CreatedTodo → StoredTodo
stored_todo p item = record {
  id = p.show_uuid item.id;
  title = item.title;
  completed = item.completed;
}
