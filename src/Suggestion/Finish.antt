-- ===== src/Suggestion/Finish.antt =====
-- `finish_suggestion` and `get_current_suggestion` of apps/api/app/suggestion_service.py.
use expo_fastapi_todo.Prelude.{
  ℕ, not, ◌&&◌, ◌||◌, Option, none, some, List, ◌==◌, Text, text_eq, if◌then◌else◌,
}
use expo_fastapi_todo.Result.{Result, ok, err, stale_suggestion, unsupported_workflow_definition}
use expo_fastapi_todo.Platform.{Platform}
use expo_fastapi_todo.Database.Rows.{WorkflowRow, SuggestionRow}
use expo_fastapi_todo.Database.Transaction.{
  Database, Transaction, pure, raise, lift, gets, ◌>>=◌, ◌>>◌,
}
use expo_fastapi_todo.Workflow.Domain.{
  Uuid, state_value, collect_tasks, current_workflow_definition_version,
}
use expo_fastapi_todo.Workflow.StepId.{current_step_id}
use expo_fastapi_todo.Workflow.Store.{find_workflow}
use expo_fastapi_todo.Suggestion.Types.{SuggestionErrorCode, SuggestionSnapshot}
use expo_fastapi_todo.Suggestion.Snapshot.{suggestion_snapshot_from_row}
use expo_fastapi_todo.Suggestion.Checks.{workflow_unchanged, check_result}
use expo_fastapi_todo.Suggestion.Store.{
  latest_suggestion, find_suggestion, is_latest, set_result, result_row,
}
use expo_fastapi_todo.Suggestion.Reserve.{is_finished, status_is_pending}

-- the result that the provider gave: titles or an error
pub record FinishRequest : Type 0 where
  pub owner_id : ℕ
  pub workflow_id : Uuid
  pub request_id : Uuid
  pub titles : Option (List Text)
  pub error_code : Option SuggestionErrorCode

unfoldable pub finish_row :
    Platform
    → ℕ
    → Uuid
    → FinishRequest
    → Option (List Text)
    → WorkflowRow
    → SuggestionRow
    → Transaction SuggestionSnapshot
finish_row p now event_id request titles workflow row = do
  snapshot ← lift (suggestion_snapshot_from_row row)
  latest ← gets (latest_suggestion request.owner_id request.workflow_id)
  if is_finished snapshot.status
      then pure snapshot
      else if not (status_is_pending snapshot.status && is_latest latest row)
      then raise stale_suggestion
      else if not (workflow_unchanged p workflow row)
      then raise stale_suggestion
      else (do
        set_result now event_id row titles request.error_code
        lift (suggestion_snapshot_from_row (result_row titles request.error_code row)))

unfoldable pub finish_found :
    Platform
    → ℕ
    → Uuid
    → FinishRequest
    → Option (List Text)
    → WorkflowRow
    → Option SuggestionRow
    → Transaction SuggestionSnapshot
finish_found p now event_id request titles workflow none = raise stale_suggestion
finish_found p now event_id request titles workflow (some row) =
    finish_row p now event_id request titles workflow row

unfoldable pub finish_locked :
    Platform
    → ℕ
    → Uuid
    → FinishRequest
    → Option (List Text)
    → Option WorkflowRow
    → Transaction (Option SuggestionSnapshot)
finish_locked p now event_id request titles none = pure none
finish_locked p now event_id request titles (some workflow) = do
  row ← gets (find_suggestion request.owner_id request.workflow_id request.request_id)
  snapshot ← finish_found p now event_id request titles workflow row
  pure (some snapshot)

unfoldable pub finish_suggestion :
    Platform → ℕ → Uuid → FinishRequest → Transaction (Option SuggestionSnapshot)
finish_suggestion p now event_id request = do
  titles ← lift (check_result request.titles request.error_code)
  workflow ← gets (find_workflow request.workflow_id request.owner_id)
  finish_locked p now event_id request titles workflow

abbrev pub current_row :
    Platform → Uuid → WorkflowRow → Option SuggestionRow → Result (Option SuggestionSnapshot)
current_row p workflow_id workflow none = ok none
current_row p workflow_id workflow (some row) =
    if not (row.base_revision == workflow.revision)
      || not (text_eq row.step_id (current_step_id p workflow_id workflow.state))
    then ok none
    else elim (suggestion_snapshot_from_row row) [
      | ok snapshot ↦ ok (some snapshot)
      | err e ↦ err e
    ]

unfoldable pub get_current_suggestion :
    Platform → ℕ → Uuid → Database → Result (Option SuggestionSnapshot)
get_current_suggestion p owner_id workflow_id db = elim (find_workflow workflow_id owner_id db) [
  | none ↦ ok none
  | some workflow ↦
      if not (workflow.definition_version == current_workflow_definition_version)
      then err unsupported_workflow_definition
      else if not (text_eq workflow.state (state_value collect_tasks))
      then ok none
      else current_row p workflow_id workflow (latest_suggestion owner_id workflow_id db)
]
