-- ===== src/Database/Rows.antt =====
-- The rows of todo_repository.py, auth_repository.py, analytics_events.py and workflow_repository.py,
-- and their CHECK constraints. A `datetime` is its number of microseconds, as the database keeps it.
use expo_fastapi_todo.Prelude.{
  ℕ, Bool, true, false, not, ◌&&◌, ◌||◌, Option, none, some, List, [], ◌∷◌, length, leb, ltb, ◌==◌,
  Text, codes, text_eq, is_none,
}
use expo_fastapi_todo.Json.{Json, arr, obj, list, member}
use expo_fastapi_todo.Platform.{is_fingerprint}
use expo_fastapi_todo.Workflow.Domain.{Uuid, max_workflow_revision}

pub record Table (R : Type 0) : Type 0 where
  pub rows : List R
  pub next_id : ℕ

pub record UserRow : Type 0 where
  pub id : ℕ
  pub public_id : Uuid
  pub username : Text
  pub password_hash : Text
  pub real_name_ciphertext : Option Text

pub record TodoRow : Type 0 where
  pub id : ℕ
  pub public_id : Uuid
  pub title : Text
  pub completed : Bool
  pub owner_id : ℕ
  pub completed_at : Option ℕ

-- ck_todos_title_length
unfoldable pub todo_row_ok : TodoRow → Bool
todo_row_ok row = leb 1 (length row.title) && leb (length row.title) 120

-- the property `is_completed`
abbrev pub is_completed : TodoRow → Bool
is_completed row = not (is_none row.completed_at)

pub record SessionRow : Type 0 where
  pub id : ℕ
  pub token_hash : Text
  pub user_id : ℕ
  pub expires_at : ℕ

pub record AnalyticsEventRow : Type 0 where
  pub id : ℕ
  pub event_id : Uuid
  pub event_name : Text
  pub user_key : Uuid
  pub workflow_key : Option Uuid
  pub outcome : Option Text
  pub occurred_at : ℕ
  pub schema_version : ℕ
  pub exported_at : Option ℕ

-- one entry of `completion_result["created_todos"]`
pub record StoredTodo : Type 0 where
  pub id : Text
  pub title : Text
  pub completed : Bool

-- `completion_result` is `None` or the object that the service writes, with its list of todos.
pub record WorkflowRow : Type 0 where
  pub id : ℕ
  pub public_id : Uuid
  pub owner_id : ℕ
  pub state : Text
  pub title : Text
  pub involves_multiple_steps : Option Bool
  pub proposed_todo_titles : List Text
  pub completion_result : Option (List StoredTodo)
  pub revision : ℕ
  pub definition_version : ℕ

-- ck_todo_workflows_revision_range, ck_todo_workflows_definition_version
unfoldable pub workflow_row_ok : WorkflowRow → Bool
workflow_row_ok row = leb row.revision max_workflow_revision && leb 1 row.definition_version

pub record WorkflowStartRequestRow : Type 0 where
  pub owner_id : ℕ
  pub request_id : Uuid
  pub request_fingerprint : Text
  pub workflow_id : Uuid
  pub accepted_snapshot : Json

-- `jsonb_typeof(value) = 'object'`
unfoldable pub is_object : Json → Bool
is_object (obj fields) = true
is_object _ = false

-- ck_start_requests_fingerprint_hex, ck_start_requests_snapshot_object
unfoldable pub start_row_ok : WorkflowStartRequestRow → Bool
start_row_ok row = is_fingerprint row.request_fingerprint && is_object row.accepted_snapshot

pub record WorkflowActionRequestRow : Type 0 where
  pub owner_id : ℕ
  pub workflow_id : Uuid
  pub request_id : Uuid
  pub request_fingerprint : Text
  pub accepted_snapshot : Json

-- ck_action_requests_fingerprint_hex, ck_action_requests_snapshot_object
unfoldable pub action_row_ok : WorkflowActionRequestRow → Bool
action_row_ok row = is_fingerprint row.request_fingerprint && is_object row.accepted_snapshot

pub record SuggestionRow : Type 0 where
  pub id : ℕ
  pub owner_id : ℕ
  pub workflow_id : Uuid
  pub request_id : Uuid
  pub request_fingerprint : Text
  pub base_revision : ℕ
  pub step_id : Text
  pub status : Text
  pub proposed_titles : Json
  pub error_code : Option Text
  pub queued_at : Option ℕ
  pub expires_at : Option ℕ
  pub provider_started_at : Option ℕ
  pub goal_snapshot : Option Text
  pub clarification_snapshot : Option Json
  pub trace_parent : Option Text

abbrev pub pending_value : Text
pending_value = codes "pending"

abbrev pub ready_value : Text
ready_value = codes "ready"

abbrev pub failed_value : Text
failed_value = codes "failed"

abbrev pub superseded_value : Text
superseded_value = codes "superseded"

abbrev pub error_values : List Text
error_values =
    codes "not_configured"
    ∷ codes "timeout"
    ∷ codes "provider_unavailable"
    ∷ codes "invalid_output"
    ∷ []

-- `NULL` passes a CHECK
abbrev pub holds_of : {A : Type 0} → (A → Bool) → Option A → Bool
holds_of test none = true
holds_of test (some a) = test a

abbrev pub is_array_of : (ℕ → Bool) → Json → Bool
is_array_of size (arr vs) = size (length (list vs))
is_array_of size _ = false

-- ck_suggestion_requests_status_fields
unfoldable pub status_fields_ok : Text → Option Text → Json → Bool
status_fields_ok status error_code titles =
    (text_eq status ready_value
      && is_none error_code
      && is_array_of (λ n. leb 2 n && leb n 10) titles)
    || (text_eq status failed_value && not (is_none error_code) && is_array_of (λ n. n == 0) titles)
    || ((text_eq status pending_value || text_eq status superseded_value)
        && is_none error_code
        && is_array_of (λ n. n == 0) titles)

-- ck_suggestion_requests_execution_coherent
unfoldable pub execution_ok : SuggestionRow → Bool
execution_ok row =
    (is_none row.queued_at
      && is_none row.expires_at
      && is_none row.provider_started_at
      && is_none row.goal_snapshot
      && is_none row.clarification_snapshot)
    || (not (is_none row.queued_at)
        && not (is_none row.expires_at)
        && not (is_none row.goal_snapshot))

-- ck_suggestion_requests_expiry_order, ck_suggestion_requests_claim_order
unfoldable pub times_ok : Option ℕ → Option ℕ → Option ℕ → Bool
times_ok queued expires started =
    holds_of (λ q. holds_of (λ x. ltb q x) expires && holds_of (λ s. leb q s) started) queued

-- The other CHECK constraints of the table.
unfoldable pub fields_ok : SuggestionRow → Bool
fields_ok row =
    is_fingerprint row.request_fingerprint
    && leb row.base_revision max_workflow_revision
    && leb 1 (length row.step_id)
    && holds_of (λ e. member e error_values) row.error_code
    && holds_of (λ g. leb 1 (length g) && leb (length g) 120) row.goal_snapshot
    && holds_of is_object row.clarification_snapshot
    && holds_of (λ t. leb (length t) 55) row.trace_parent

unfoldable pub suggestion_row_ok : SuggestionRow → Bool
suggestion_row_ok row =
    fields_ok row
    && status_fields_ok row.status row.error_code row.proposed_titles
    && execution_ok row
    && times_ok row.queued_at row.expires_at row.provider_started_at
