-- ===== src/Suggestion/Store.antt =====
-- The suggestion table's reads and writes of apps/api/app/suggestion_service.py.
use expo_fastapi_todo.Prelude.{
  map, select, ℕ, ◌+◌, Bool, false, not, ◌&&◌, Option, none, some, List, [], ◌∷◌, ◌++◌, any, all,
  find, update_where, ◌==◌, Text, codes, text_eq, if◌then◌else◌, is_none,
}
use mathlib.Core.Option
use expo_fastapi_todo.Json.{arr, nil, text_array}
use expo_fastapi_todo.Database.Rows.{
  SuggestionRow, suggestion_row_ok, pending_value, ready_value, failed_value, superseded_value,
}
use expo_fastapi_todo.Database.Transaction.{Database, Transaction, modify, require, ◌>>◌}
use expo_fastapi_todo.Analytics.Events.{record_event}
use expo_fastapi_todo.Workflow.Domain.{Uuid}
use expo_fastapi_todo.Workflow.Store.{is_workflow}
use expo_fastapi_todo.Suggestion.Types.{SuggestionErrorCode, error_value}

-- the last row of a `WHERE` clause by `id`: `ORDER BY id DESC LIMIT 1`
unfoldable pub find_last {ℓ} : {A : Type ℓ} → (A → Bool) → List A → Option A
find_last test [] = none
find_last test (x ∷ xs) = elim (find_last test xs) [
  | some y ↦ some y
  | none ↦ if test x then some x else none
]

abbrev pub of_workflow : ℕ → Uuid → SuggestionRow → Bool
of_workflow owner_id workflow_id row = row.owner_id == owner_id && row.workflow_id == workflow_id

-- `_latest_suggestion`
unfoldable pub latest_suggestion : ℕ → Uuid → Database → Option SuggestionRow
latest_suggestion owner_id workflow_id db =
    find_last (of_workflow owner_id workflow_id) db.suggestions.rows

abbrev pub is_suggestion : ℕ → Uuid → Uuid → SuggestionRow → Bool
is_suggestion owner_id workflow_id request_id row =
    of_workflow owner_id workflow_id row && row.request_id == request_id

unfoldable pub find_suggestion : ℕ → Uuid → Uuid → Database → Option SuggestionRow
find_suggestion owner_id workflow_id request_id db =
    find (is_suggestion owner_id workflow_id request_id) db.suggestions.rows

unfoldable pub find_suggestion_id : ℕ → Database → Option SuggestionRow
find_suggestion_id id db = find (λ r. r.id == id) db.suggestions.rows

-- `latest is not None and latest.id == row.id`
abbrev pub is_latest : Option SuggestionRow → SuggestionRow → Bool
is_latest none row = false
is_latest (some latest) row = latest.id == row.id

-- `row.queued_at is not None`
abbrev pub is_cloud_row : SuggestionRow → Bool
is_cloud_row row = not (is_none row.queued_at)

abbrev pub with_suggestions : (List SuggestionRow → List SuggestionRow) → Database → Database
with_suggestions change db = record db {
  suggestions = record { rows = change db.suggestions.rows; next_id = db.suggestions.next_id };
}

-- The flush of a changed row: `UPDATE ... WHERE id`, under the table's checks.
unfoldable pub save_suggestion : SuggestionRow → Transaction (Unit {0})
save_suggestion row = do
  require (λ _. suggestion_row_ok row)
  modify (with_suggestions (update_where (λ r. r.id == row.id) (λ _. row)))

abbrev pub is_pending : SuggestionRow → Bool
is_pending row = text_eq row.status pending_value

abbrev pub superseded_status : SuggestionRow → SuggestionRow
superseded_status row = record row { status = superseded_value }

-- `UPDATE ... SET status = 'superseded' WHERE` the workflow's row is pending
unfoldable pub supersede_pending : ℕ → Uuid → Transaction (Unit {0})
supersede_pending owner_id workflow_id = do
  require (λ db. all suggestion_row_ok (
      map superseded_status
        (select (λ r. of_workflow owner_id workflow_id r && is_pending r) db.suggestions.rows)))
  modify (
      with_suggestions
        (update_where (λ r. of_workflow owner_id workflow_id r && is_pending r) superseded_status))

unfoldable pub suggestion_insertable : SuggestionRow → Database → Bool
suggestion_insertable row db =
    suggestion_row_ok row
    && any (is_workflow row.workflow_id row.owner_id) db.workflows.rows
    && not (any (is_suggestion row.owner_id row.workflow_id row.request_id) db.suggestions.rows)

unfoldable pub insert_suggestion : (ℕ → SuggestionRow) → Transaction (Unit {0})
insert_suggestion row = do
  require (λ db. suggestion_insertable (row db.suggestions.next_id) db)
  modify (λ db. record db {
    suggestions = record {
      rows = db.suggestions.rows ++ row db.suggestions.next_id ∷ [];
      next_id = db.suggestions.next_id + 1;
    };
  })

abbrev pub result_row :
    Option (List Text) → Option SuggestionErrorCode → SuggestionRow → SuggestionRow
result_row (some titles) error_code row = record row {
  status = ready_value;
  proposed_titles = text_array titles;
  error_code = none;
}
result_row none error_code row = record row {
  status = failed_value;
  proposed_titles = arr nil;
  error_code = Option.map error_value error_code;
}

abbrev pub outcome_of : Option (List Text) → Text
outcome_of (some titles) = codes "ready"
outcome_of none = codes "failed"

-- `_set_result`
unfoldable pub set_result :
    ℕ
    → Uuid
    → SuggestionRow
    → Option (List Text)
    → Option SuggestionErrorCode
    → Transaction (Unit {0})
set_result now event_id row titles error_code = do
  save_suggestion (result_row titles error_code row)
  record_event now event_id (codes "suggestion_finished") row.owner_id (some row.workflow_id)
      (some (outcome_of titles))

abbrev pub failed_row : SuggestionRow → SuggestionRow
failed_row row = record row {
  status = failed_value;
  proposed_titles = arr nil;
  error_code = some (codes "timeout");
}

-- `_fail_row`
unfoldable pub fail_row : ℕ → Uuid → SuggestionRow → Transaction (Unit {0})
fail_row now event_id row = do
  save_suggestion (failed_row row)
  record_event now event_id (codes "suggestion_finished") row.owner_id (some row.workflow_id)
      (some (codes "expired"))

abbrev pub superseded_row : SuggestionRow → SuggestionRow
superseded_row row = record row {
  status = superseded_value;
  proposed_titles = arr nil;
  error_code = none;
}

-- `_supersede_row`
unfoldable pub supersede_row : SuggestionRow → Transaction (Unit {0})
supersede_row row = save_suggestion (superseded_row row)
