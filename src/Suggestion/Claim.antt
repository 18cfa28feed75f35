-- ===== src/Suggestion/Claim.antt =====
-- `_claim_inner` of apps/api/app/suggestion_service.py. It reads the owner and the workflow of the row
-- in a transaction of its own, and then works in a second one,
-- which another transaction may have preceded.
pub mod Granted
pub mod Once
use expo_fastapi_todo.Prelude.{
  ℕ, ◌+◌, ◌-◌, ◌/◌, Bool, true, false, not, ◌&&◌, ◌||◌, Option, none, some, List, [], ◌∷◌, ◌==◌,
  leb, ltb, Text, codes, text_eq, if◌then◌else◌,
}
use mathlib.Core.Option
use expo_fastapi_todo.Result.{Result, ok, err, suggestion_in_progress}
use expo_fastapi_todo.Platform.{Platform}
use expo_fastapi_todo.Database.Rows.{WorkflowRow, SuggestionRow}
use expo_fastapi_todo.Database.Transaction.{
  Database, Transaction, pure, raise, lift, gets, modify, require, continue, ◌>>=◌, ◌>>◌,
}
use expo_fastapi_todo.Workflow.Domain.{Uuid}
use expo_fastapi_todo.Workflow.Store.{find_workflow}
use expo_fastapi_todo.Suggestion.Types.{
  SuggestionErrorCode, Clarification, SuggestionSnapshot, SuggestionReservation,
}
use expo_fastapi_todo.Suggestion.Snapshot.{suggestion_snapshot_from_row}
use expo_fastapi_todo.Suggestion.Checks.{
  validate_claimed_workflow, check_result, require_canonical_goal, decode_stored_clarification,
  claim_fingerprint_matches,
}
use expo_fastapi_todo.Suggestion.Store.{
  latest_suggestion, find_suggestion_id, is_latest, is_cloud_row, is_pending, save_suggestion,
  set_result, result_row, fail_row, failed_row, supersede_row, superseded_row,
}
use expo_fastapi_todo.Suggestion.Reserve.{suggestion_claim_ttl}

pub record ClaimedSuggestion : Type 0 where
  pub suggestion_id : ℕ
  pub owner_id : ℕ
  pub reservation : SuggestionReservation
  pub provider_started_at : ℕ
  pub trace_parent : Option Text
  pub queue_wait_ms : Option ℕ

-- The shapes of a `ClaimResult`: the outcome's name is the constructor's.
pub data ClaimResult : Type 0 where
  no_work : ClaimResult
  timeout superseded : SuggestionSnapshot → ClaimResult
  claimed : ClaimedSuggestion → ClaimResult

-- the owner and the workflow that the first transaction reads
abbrev pub Discovered : Type 0
Discovered = ℕ × Uuid

unfoldable pub discover : ℕ → Database → Option Discovered
discover suggestion_id db =
    Option.map (λ r. (r.owner_id, r.workflow_id)) (find_suggestion_id suggestion_id db)

-- a pending cloud row of the discovered owner and workflow
unfoldable pub claimable : ℕ → Uuid → SuggestionRow → Bool
claimable owner_id workflow_id row =
    row.owner_id == owner_id && row.workflow_id == workflow_id && is_pending row && is_cloud_row row

-- `row.expires_at is None or now >= row.expires_at`
abbrev pub is_expired : ℕ → SuggestionRow → Bool
is_expired now row = elim row.expires_at [ none ↦ true | some at ↦ leb at now ]

-- `int((now - row.queued_at).total_seconds() * 1000)`, at least 0, in exact arithmetic: the source's floats may
-- round to the millisecond before. Only the log reads it.
abbrev pub queue_wait : ℕ → SuggestionRow → Option ℕ
queue_wait now row = Option.map (λ at. (now - at) / 1000) row.queued_at

abbrev pub claimed_row : ℕ → SuggestionRow → SuggestionRow
claimed_row now row = record row { provider_started_at = some now }

abbrev pub claim_of : ℕ → Text → Option Clarification → SuggestionRow → ClaimedSuggestion
claim_of now goal clarification row = record {
  suggestion_id = row.id;
  owner_id = row.owner_id;
  reservation = record {
    workflow_id = row.workflow_id;
    request_id = row.request_id;
    base_revision = row.base_revision;
    step_id = row.step_id;
    goal = goal;
    request_fingerprint = row.request_fingerprint;
    clarification = clarification;
  };
  provider_started_at = now;
  trace_parent = row.trace_parent;
  queue_wait_ms = queue_wait now row;
}

-- a deadline or a lapsed claim is recorded
unfoldable pub claim_timeout : ℕ → Uuid → SuggestionRow → Transaction ClaimResult
claim_timeout now event_id row = do
  fail_row now event_id row
  snapshot ← lift (suggestion_snapshot_from_row (failed_row row))
  pure (timeout snapshot)

unfoldable pub claim_superseded : SuggestionRow → Transaction ClaimResult
claim_superseded row = do
  supersede_row row
  snapshot ← lift (suggestion_snapshot_from_row (superseded_row row))
  pure (superseded snapshot)

unfoldable pub claim_grant :
    ℕ → Text → Option Clarification → SuggestionRow → Transaction ClaimResult
claim_grant now goal clarification row = do
  save_suggestion (claimed_row now row)
  pure (claimed (claim_of now goal clarification row))

-- The row is neither expired nor claimed.
unfoldable pub claim_fresh :
    Platform → ℕ → ℕ → Uuid → Text → Option Clarification → SuggestionRow → Transaction ClaimResult
claim_fresh p now owner_id workflow_id goal clarification row = do
  workflow ← gets (find_workflow workflow_id owner_id)
  latest ← gets (latest_suggestion owner_id workflow_id)
  if not (validate_claimed_workflow p workflow row && is_latest latest row)
      then claim_superseded row
      else (do
        matches ← lift (claim_fingerprint_matches p row goal clarification)
        if matches then claim_grant now goal clarification row else claim_superseded row)

-- An earlier claim is live, or has lapsed.
unfoldable pub claim_again : ℕ → Uuid → ℕ → SuggestionRow → Transaction ClaimResult
claim_again now event_id started row =
    if ltb now (started + suggestion_claim_ttl)
    then raise suggestion_in_progress
    else claim_timeout now event_id row

unfoldable pub claim_live :
    Platform
    → ℕ
    → Uuid
    → ℕ
    → Uuid
    → Text
    → Option Clarification
    → Option ℕ
    → SuggestionRow
    → Transaction ClaimResult
claim_live p now event_id owner_id workflow_id goal clarification none row =
    claim_fresh p now owner_id workflow_id goal clarification row
claim_live p now event_id owner_id workflow_id goal clarification (some started) row =
    claim_again now event_id started row

unfoldable pub claim_row : Platform → ℕ → Uuid → ℕ → Uuid → SuggestionRow → Transaction ClaimResult
claim_row p now event_id owner_id workflow_id row = do
  goal ← lift (require_canonical_goal row.goal_snapshot)
  clarification ← lift (decode_stored_clarification row.clarification_snapshot)
  if is_expired now row
      then claim_timeout now event_id row
      else claim_live p now event_id owner_id workflow_id goal clarification row.provider_started_at
          row

unfoldable pub claim_found :
    Platform → ℕ → Uuid → ℕ → Uuid → Option SuggestionRow → Transaction ClaimResult
claim_found p now event_id owner_id workflow_id none = pure no_work
claim_found p now event_id owner_id workflow_id (some row) =
    if claimable owner_id workflow_id row
    then claim_row p now event_id owner_id workflow_id row
    else pure no_work

-- the second transaction of `_claim_inner`
unfoldable pub claim_suggestion :
    Platform → ℕ → Uuid → ℕ → Option Discovered → Transaction ClaimResult
claim_suggestion p now event_id suggestion_id none = pure no_work
claim_suggestion p now event_id suggestion_id (some (owner_id, workflow_id)) = do
  row ← gets (find_suggestion_id suggestion_id)
  claim_found p now event_id owner_id workflow_id row
