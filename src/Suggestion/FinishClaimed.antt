-- ===== src/Suggestion/FinishClaimed.antt =====
-- `finish_claimed_suggestion` of apps/api/app/suggestion_service.py: like a claim, it reads the owner and the
-- workflow of the row in a transaction of its own, and works in a second one.
pub mod Finished
pub mod Deadline
use expo_fastapi_todo.Prelude.{
  ℕ, ◌+◌, ◌-◌, ◌/◌, Bool, true, false, not, ◌&&◌, ◌||◌, Option, none, some, List, [], ◌∷◌, ◌==◌,
  leb, ltb, Text, codes, text_eq, if◌then◌else◌,
}
use mathlib.Core.Option
use expo_fastapi_todo.Result.{Result, ok, err, suggestion_in_progress}
use expo_fastapi_todo.Platform.{Platform}
use expo_fastapi_todo.Database.Rows.{WorkflowRow, SuggestionRow}
use expo_fastapi_todo.Database.Transaction.{
  Database, Transaction, pure, raise, lift, gets, modify, require, continue, ◌>>=◌, ◌>>◌,
}
use expo_fastapi_todo.Workflow.Domain.{Uuid}
use expo_fastapi_todo.Workflow.Store.{find_workflow}
use expo_fastapi_todo.Suggestion.Types.{
  SuggestionErrorCode, Clarification, SuggestionSnapshot, SuggestionReservation,
}
use expo_fastapi_todo.Suggestion.Snapshot.{suggestion_snapshot_from_row}
use expo_fastapi_todo.Suggestion.Checks.{
  validate_claimed_workflow, check_result, require_canonical_goal, decode_stored_clarification,
  claim_fingerprint_matches,
}
use expo_fastapi_todo.Suggestion.Store.{
  latest_suggestion, find_suggestion_id, is_latest, is_cloud_row, is_pending, save_suggestion,
  set_result, result_row, fail_row, failed_row, supersede_row, superseded_row,
}
use expo_fastapi_todo.Suggestion.Reserve.{suggestion_claim_ttl}
use expo_fastapi_todo.Suggestion.Claim.{ClaimedSuggestion, Discovered, is_expired}

-- the claim of the caller is the row's, and the row still waits for its result
unfoldable pub finishable : ClaimedSuggestion → Uuid → SuggestionRow → Bool
finishable claim workflow_id row =
    row.owner_id == claim.owner_id
    && row.workflow_id == workflow_id
    && elim row.provider_started_at [
      | none ↦ false
      | some started ↦ started == claim.provider_started_at
    ]
    && is_pending row
    && is_cloud_row row

-- one of the two deadlines has passed
unfoldable pub past_deadline : ℕ → ClaimedSuggestion → SuggestionRow → Bool
past_deadline now claim row =
    is_expired now row || leb (claim.provider_started_at + suggestion_claim_ttl) now

unfoldable pub finish_superseded : SuggestionRow → Transaction (Option SuggestionSnapshot)
finish_superseded row = do
  supersede_row row
  snapshot ← lift (suggestion_snapshot_from_row (superseded_row row))
  pure (some snapshot)

unfoldable pub finish_stored :
    ℕ
    → Uuid
    → SuggestionRow
    → Option (List Text)
    → Option SuggestionErrorCode
    → Transaction (Option SuggestionSnapshot)
finish_stored now event_id row titles error_code = do
  set_result now event_id row titles error_code
  snapshot ← lift (suggestion_snapshot_from_row (result_row titles error_code row))
  pure (some snapshot)

unfoldable pub finish_claimed_row :
    Platform
    → ℕ
    → Uuid
    → ClaimedSuggestion
    → Option (List Text)
    → Option SuggestionErrorCode
    → ℕ
    → Uuid
    → SuggestionRow
    → Transaction (Option SuggestionSnapshot)
finish_claimed_row p now event_id claim titles error_code owner_id workflow_id row = do
  lift (decode_stored_clarification row.clarification_snapshot)
  workflow ← gets (find_workflow workflow_id owner_id)
  latest ← gets (latest_suggestion row.owner_id row.workflow_id)
  if past_deadline now claim row
      then pure none
      else if not (validate_claimed_workflow p workflow row && is_latest latest row)
      then finish_superseded row
      else finish_stored now event_id row titles error_code

unfoldable pub finish_claimed_found :
    Platform
    → ℕ
    → Uuid
    → ClaimedSuggestion
    → Option (List Text)
    → Option SuggestionErrorCode
    → ℕ
    → Uuid
    → Option SuggestionRow
    → Transaction (Option SuggestionSnapshot)
finish_claimed_found p now event_id claim titles error_code owner_id workflow_id none = pure none
finish_claimed_found p now event_id claim titles error_code owner_id workflow_id (some row) =
    if finishable claim workflow_id row
    then finish_claimed_row p now event_id claim titles error_code owner_id workflow_id row
    else pure none

-- the second transaction of `finish_claimed_suggestion`
unfoldable pub finish_claimed_suggestion :
    Platform
    → ℕ
    → Uuid
    → ClaimedSuggestion
    → Option (List Text)
    → Option SuggestionErrorCode
    → Option Discovered
    → Transaction (Option SuggestionSnapshot)
finish_claimed_suggestion p now event_id claim titles error_code none = do
  lift (check_result titles error_code)
  pure none
finish_claimed_suggestion p now event_id claim titles error_code (some (owner_id, workflow_id)) = do
  canonical ← lift (check_result titles error_code)
  row ← gets (find_suggestion_id claim.suggestion_id)
  if owner_id == claim.owner_id
      then finish_claimed_found p now event_id claim canonical error_code owner_id workflow_id row
      else pure none
