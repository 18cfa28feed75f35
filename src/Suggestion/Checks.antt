-- ===== src/Suggestion/Checks.antt =====
-- The checks of apps/api/app/suggestion_service.py that touch no table.
use expo_fastapi_todo.Prelude.{
  ℕ, Bool, false, not, ◌&&◌, Option, none, some, List, [], ◌∷◌, ◌==◌, Text, codes, text_eq,
  texts_eq, if◌then◌else◌,
}
use expo_fastapi_todo.Result.{
  Result, ok, err, unsupported_workflow_definition, invalid_suggestion_state, stale_workflow_step,
  invalid_stored_suggestion, value_error, or_raise, raise_if, ◌>>=◌, ◌>>◌,
}
use expo_fastapi_todo.Json.{Json, text, obj, keys, get, same_keys}
use expo_fastapi_todo.Platform.{Platform}
use expo_fastapi_todo.Title.{canonicalize_title}
use expo_fastapi_todo.Database.Rows.{WorkflowRow, SuggestionRow}
use expo_fastapi_todo.Workflow.Domain.{
  Uuid, state_value, collect_tasks, current_workflow_definition_version, create_submit_tasks,
}
use expo_fastapi_todo.Workflow.StepId.{current_step_id}
use expo_fastapi_todo.Suggestion.Types.{
  SuggestionErrorCode, Clarification, normalize_clarification, suggestion_fingerprint,
}

-- `_validate_active_workflow`
unfoldable pub validate_active_workflow :
    Platform → WorkflowRow → Uuid → ℕ → Text → Result (Unit {0})
validate_active_workflow p row workflow_id expected_revision step_id =
    if not (row.definition_version == current_workflow_definition_version)
    then err unsupported_workflow_definition
    else if not (text_eq row.state (state_value collect_tasks))
    then err invalid_suggestion_state
    else if not (text_eq step_id (current_step_id p workflow_id row.state))
    then err stale_workflow_step
    else if not (expected_revision == row.revision)
    then err stale_workflow_step
    else ok tt

-- The workflow is still in the step and at the revision that the row was reserved for.
unfoldable pub workflow_unchanged : Platform → WorkflowRow → SuggestionRow → Bool
workflow_unchanged p workflow row =
    workflow.definition_version == current_workflow_definition_version
    && text_eq workflow.state (state_value collect_tasks)
    && workflow.revision == row.base_revision
    && text_eq row.step_id (current_step_id p row.workflow_id workflow.state)

-- `_validate_claimed_workflow`
unfoldable pub validate_claimed_workflow : Platform → Option WorkflowRow → SuggestionRow → Bool
validate_claimed_workflow p none row = false
validate_claimed_workflow p (some workflow) row = workflow_unchanged p workflow row

-- The argument checks of `finish_suggestion` and `finish_claimed_suggestion`: titles or an error.
unfoldable pub check_result :
    Option (List Text) → Option SuggestionErrorCode → Result (Option (List Text))
check_result (some titles) (some error_code) = err value_error
check_result none none = err value_error
check_result none (some error_code) = ok none
check_result (some titles) none = do
  validated ← create_submit_tasks titles
  raise_if (not (texts_eq validated titles)) value_error
  ok (some validated)

-- `_require_canonical_goal`
unfoldable pub require_canonical_goal : Option Text → Result Text
require_canonical_goal none = err invalid_stored_suggestion
require_canonical_goal (some goal) = do
  canonical ← or_raise (canonicalize_title goal) invalid_stored_suggestion
  raise_if (not (text_eq goal canonical)) invalid_stored_suggestion
  ok goal

abbrev pub clarification_keys : List Text
clarification_keys = codes "field" ∷ codes "value" ∷ []

-- a `str` field of the stored clarification
abbrev pub text_of : Option Json → Result Text
text_of (some (text t)) = ok t
text_of _ = err invalid_stored_suggestion

-- `_decode_stored_clarification`
unfoldable pub decode_stored_clarification : Option Json → Result (Option Clarification)
decode_stored_clarification none = ok none
decode_stored_clarification (some (obj fields)) = do
  raise_if (not (same_keys (keys fields) clarification_keys)) invalid_stored_suggestion
  name ← text_of (get (codes "field") fields)
  value ← text_of (get (codes "value") fields)
  canonical ←
      or_raise (normalize_clarification (record { field = name; value = value }))
        invalid_stored_suggestion
  ok (some canonical)
decode_stored_clarification (some _) = err invalid_stored_suggestion

-- `_claim_fingerprint_matches`
unfoldable pub claim_fingerprint_matches :
    Platform → SuggestionRow → Text → Option Clarification → Result Bool
claim_fingerprint_matches p row goal clarification = do
  fingerprint ←
      suggestion_fingerprint p row.workflow_id row.base_revision row.step_id goal clarification
  ok (text_eq row.request_fingerprint fingerprint)
