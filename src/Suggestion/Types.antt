-- ===== src/Suggestion/Types.antt =====
-- The statuses, error codes, clarifications and snapshots of apps/api/app/suggestion_service.py.
use expo_fastapi_todo.Prelude.{
  ℕ, not, Option, none, some, List, [], ◌∷◌, Text, codes, text_eq, if◌then◌else◌,
}
use expo_fastapi_todo.Result.{Result, ok, value_error, raise_if, ◌>>=◌, ◌>>◌}
use expo_fastapi_todo.Json.{Json, text, num, obj, Fields, field, end, member}
use expo_fastapi_todo.Platform.{Platform, fingerprint_payload}
use expo_fastapi_todo.Title.{strip, check_text}
use expo_fastapi_todo.Database.Rows.{pending_value, ready_value, failed_value, superseded_value}
use expo_fastapi_todo.Workflow.Domain.{Uuid}

pub data SuggestionStatus : Type 0 where
  pending ready failed superseded : SuggestionStatus

unfoldable pub status_value : SuggestionStatus → Text
status_value pending = pending_value
status_value ready = ready_value
status_value failed = failed_value
status_value superseded = superseded_value

-- `SuggestionStatus(text)`
unfoldable pub parse_status : Text → Option SuggestionStatus
parse_status value =
    if text_eq value pending_value
    then some pending
    else if text_eq value ready_value
    then some ready
    else if text_eq value failed_value
    then some failed
    else if text_eq value superseded_value
    then some superseded
    else none

pub data SuggestionErrorCode : Type 0 where
  not_configured timeout provider_unavailable invalid_output : SuggestionErrorCode

unfoldable pub error_value : SuggestionErrorCode → Text
error_value not_configured = codes "not_configured"
error_value timeout = codes "timeout"
error_value provider_unavailable = codes "provider_unavailable"
error_value invalid_output = codes "invalid_output"

-- `SuggestionErrorCode(text)`
unfoldable pub parse_error : Text → Option SuggestionErrorCode
parse_error value =
    if text_eq value (codes "not_configured")
    then some not_configured
    else if text_eq value (codes "timeout")
    then some timeout
    else if text_eq value (codes "provider_unavailable")
    then some provider_unavailable
    else if text_eq value (codes "invalid_output")
    then some invalid_output
    else none

pub record Clarification : Type 0 where
  pub field : Text
  pub value : Text

abbrev pub clarification_fields : List Text
clarification_fields =
    codes "date" ∷ codes "location" ∷ codes "people" ∷ codes "budget" ∷ codes "constraints" ∷ []

abbrev pub max_clarification_code_points : ℕ
max_clarification_code_points = 200

unfoldable pub normalize_clarification : Clarification → Result Clarification
normalize_clarification clarification = do
  raise_if (not (member clarification.field clarification_fields)) value_error
  canonical ← check_text max_clarification_code_points (strip clarification.value)
  ok (record { field = clarification.field; value = canonical })

-- `normalize_clarification(clarification) if clarification is not None else None`
unfoldable pub normalize_optional : Option Clarification → Result (Option Clarification)
normalize_optional none = ok none
normalize_optional (some clarification) = do
  canonical ← normalize_clarification clarification
  ok (some canonical)

abbrev pub clarification_json : Clarification → Json
clarification_json c =
    obj (field (codes "field") (text c.field) (field (codes "value") (text c.value) end))

pub record SuggestionSnapshot : Type 0 where
  pub workflow_id : Uuid
  pub request_id : Uuid
  pub base_revision : ℕ
  pub step_id : Text
  pub status : SuggestionStatus
  pub proposed_titles : List Text
  pub error_code : Option SuggestionErrorCode

pub record SuggestionReservation : Type 0 where
  pub workflow_id : Uuid
  pub request_id : Uuid
  pub base_revision : ℕ
  pub step_id : Text
  pub goal : Text
  pub request_fingerprint : Text
  pub clarification : Option Clarification

abbrev pub clarification_entry : Option Clarification → Fields
clarification_entry none = end
clarification_entry (some c) = field (codes "clarification") (clarification_json c) end

unfoldable pub suggestion_fingerprint :
    Platform → Uuid → ℕ → Text → Text → Option Clarification → Result Text
suggestion_fingerprint p workflow_id expected_revision step_id goal clarification =
    fingerprint_payload p (
      obj (
        field (codes "operation") (text (codes "suggest")) (
          field (codes "workflow_id") (text (p.show_uuid workflow_id)) (
            field (codes "expected_revision") (num expected_revision) (
              field (codes "step_id") (text step_id)
                (field (codes "title") (text goal) (clarification_entry clarification)))))))
