-- ===== src/Suggestion/Reserve.antt =====
-- `reserve_suggestion`, `finish_suggestion` and `get_current_suggestion` of
-- apps/api/app/suggestion_service.py. `now` is the transaction's `func.now()`.
pub mod NewRow
pub mod Pending
use expo_fastapi_todo.Prelude.{
  ℕ, ◌+◌, Bool, true, false, not, ◌&&◌, Option, none, some, Text, text_eq, if◌then◌else◌,
}
use mathlib.Core.Option
use expo_fastapi_todo.Result.{
  Result, ok, err, request_id_reused, suggestion_in_progress, stale_suggestion,
}
use expo_fastapi_todo.Json.{Json, arr, nil}
use expo_fastapi_todo.Platform.{Platform}
use expo_fastapi_todo.Database.Rows.{WorkflowRow, SuggestionRow, pending_value}
use expo_fastapi_todo.Database.Transaction.{Transaction, pure, raise, lift, gets, ◌>>=◌, ◌>>◌}
use expo_fastapi_todo.Workflow.Domain.{Uuid}
use expo_fastapi_todo.Workflow.Store.{find_workflow}
use expo_fastapi_todo.Suggestion.Trace.{canonical_trace_parent}
use expo_fastapi_todo.Suggestion.Types.{
  SuggestionStatus, pending, ready, failed, Clarification, normalize_optional, clarification_json,
  SuggestionSnapshot, SuggestionReservation, suggestion_fingerprint,
}
use expo_fastapi_todo.Suggestion.Snapshot.{suggestion_snapshot_from_row}
use expo_fastapi_todo.Suggestion.Checks.{validate_active_workflow, require_canonical_goal}
use expo_fastapi_todo.Suggestion.Store.{
  latest_suggestion, find_suggestion, is_latest, is_cloud_row, supersede_pending, insert_suggestion,
}

-- 15 minutes and 2 minutes
abbrev pub suggestion_reservation_ttl : ℕ
suggestion_reservation_ttl = 900000000

abbrev pub suggestion_claim_ttl : ℕ
suggestion_claim_ttl = 120000000

-- the arguments of a call
pub record ReserveRequest : Type 0 where
  pub owner_id : ℕ
  pub workflow_id : Uuid
  pub request_id : Uuid
  pub expected_revision : ℕ
  pub step_id : Text
  pub clarification : Option Clarification
  pub queued : Bool
  pub trace_parent : Option Text

-- a new reservation, or the saved answer of a replay
pub data Reserved : Type 0 where
  reservation : SuggestionReservation → Reserved
  saved : SuggestionSnapshot → Reserved

abbrev pub is_finished : SuggestionStatus → Bool
is_finished ready = true
is_finished failed = true
is_finished _ = false

abbrev pub status_is_pending : SuggestionStatus → Bool
status_is_pending pending = true
status_is_pending _ = false

-- a request that is stored already
unfoldable pub reserve_existing : ReserveRequest → Text → SuggestionRow → Transaction Reserved
reserve_existing request fingerprint existing =
    if not (text_eq existing.request_fingerprint fingerprint) then raise request_id_reused else do
      snapshot ← lift (suggestion_snapshot_from_row existing)
      latest ← gets (latest_suggestion request.owner_id request.workflow_id)
      if is_finished snapshot.status
          then pure (saved snapshot)
          else if status_is_pending snapshot.status && is_latest latest existing
          then (if is_cloud_row existing
              then pure (saved snapshot)
              else raise suggestion_in_progress)
          else raise stale_suggestion

-- what a queued reservation stores beside the request
pub record Queued : Type 0 where
  pub queued_at : Option ℕ
  pub expires_at : Option ℕ
  pub goal_snapshot : Option Text
  pub clarification_snapshot : Option Json
  pub trace_parent : Option Text

unfoldable pub queue_fields :
    Platform → ℕ → ReserveRequest → Option Clarification → WorkflowRow → Result Queued
queue_fields p now request clarification workflow =
    if request.queued
    then elim (require_canonical_goal (some workflow.title)) [
      | err e ↦ err e
      | ok goal ↦ ok (record {
        queued_at = some now;
        expires_at = some (now + suggestion_reservation_ttl);
        goal_snapshot = some goal;
        clarification_snapshot = Option.map clarification_json clarification;
        trace_parent = canonical_trace_parent p request.trace_parent;
      })
    ]
    else ok (record {
      queued_at = none;
      expires_at = none;
      goal_snapshot = none;
      clarification_snapshot = none;
      trace_parent = none;
    })

abbrev pub reserved_row : ReserveRequest → Text → Queued → ℕ → SuggestionRow
reserved_row request fingerprint q id = record {
  id = id;
  owner_id = request.owner_id;
  workflow_id = request.workflow_id;
  request_id = request.request_id;
  request_fingerprint = fingerprint;
  base_revision = request.expected_revision;
  step_id = request.step_id;
  status = pending_value;
  proposed_titles = arr nil;
  error_code = none;
  queued_at = q.queued_at;
  expires_at = q.expires_at;
  provider_started_at = none;
  goal_snapshot = q.goal_snapshot;
  clarification_snapshot = q.clarification_snapshot;
  trace_parent = q.trace_parent;
}

unfoldable pub reserve_new :
    Platform → ℕ → ReserveRequest → Option Clarification → Text → WorkflowRow → Transaction Reserved
reserve_new p now request clarification fingerprint workflow = do
  lift (
      validate_active_workflow p workflow request.workflow_id request.expected_revision
        request.step_id)
  supersede_pending request.owner_id request.workflow_id
  q ← lift (queue_fields p now request clarification workflow)
  insert_suggestion (reserved_row request fingerprint q)
  pure (
      reservation (record {
        workflow_id = request.workflow_id;
        request_id = request.request_id;
        base_revision = request.expected_revision;
        step_id = request.step_id;
        goal = workflow.title;
        request_fingerprint = fingerprint;
        clarification = clarification;
      }))

unfoldable pub reserve_request :
    Platform
    → ℕ
    → ReserveRequest
    → Option Clarification
    → Text
    → WorkflowRow
    → Option SuggestionRow
    → Transaction Reserved
reserve_request p now request clarification fingerprint workflow (some existing) =
    reserve_existing request fingerprint existing
reserve_request p now request clarification fingerprint workflow none =
    reserve_new p now request clarification fingerprint workflow

unfoldable pub reserve_locked :
    Platform
    → ℕ
    → ReserveRequest
    → Option Clarification
    → Option WorkflowRow
    → Transaction (Option Reserved)
reserve_locked p now request clarification none = pure none
reserve_locked p now request clarification (some workflow) = do
  fingerprint ← lift (
      suggestion_fingerprint p request.workflow_id request.expected_revision request.step_id
        workflow.title clarification)
  existing ← gets (find_suggestion request.owner_id request.workflow_id request.request_id)
  reserved ← reserve_request p now request clarification fingerprint workflow existing
  pure (some reserved)

unfoldable pub reserve_suggestion : Platform → ℕ → ReserveRequest → Transaction (Option Reserved)
reserve_suggestion p now request = do
  clarification ← lift (normalize_optional request.clarification)
  workflow ← gets (find_workflow request.workflow_id request.owner_id)
  reserve_locked p now request clarification workflow
