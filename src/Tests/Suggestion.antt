-- ===== src/Tests/Suggestion.antt =====
-- Runs of the suggestion service.
use expo_fastapi_todo.Prelude.{
  ℕ, ◌≡◌, refl, true, false, none, some, [], ◌∷◌, Text, codes, text_eq, texts_eq, arith,
}
use expo_fastapi_todo.Result.{Result, ok, err}
use expo_fastapi_todo.Platform.{fingerprint_payload, is_fingerprint}
use expo_fastapi_todo.Title.{
  has_surrogate, strip, strip_by, is_trim, has_nul, check_text, canonicalize_title,
}
use expo_fastapi_todo.Suggestion.Expire.Due.{expire_suggestions_due}
use expo_fastapi_todo.Json.{arr, nil}
use expo_fastapi_todo.Database.Rows.{
  WorkflowRow, SuggestionRow, is_object, suggestion_row_ok, fields_ok, status_fields_ok,
  execution_ok, times_ok,
}
use expo_fastapi_todo.Database.Transaction.{Database}
use expo_fastapi_todo.Analytics.Events.{record_event}
use expo_fastapi_todo.Workflow.Domain.{state_value, create_submit_tasks, canonical_titles}
use expo_fastapi_todo.Workflow.StepId.{current_step_id}
use expo_fastapi_todo.Workflow.Store.{find_workflow}
use expo_fastapi_todo.Suggestion.Types.{
  suggestion_fingerprint, parse_status, SuggestionSnapshot, ready,
}
use expo_fastapi_todo.Suggestion.Checks.{
  workflow_unchanged, validate_claimed_workflow, check_result, require_canonical_goal,
  decode_stored_clarification, claim_fingerprint_matches,
}
use expo_fastapi_todo.Suggestion.Snapshot.{
  read_error, read_list, read_texts, read_ready_titles, read_status_titles,
  suggestion_snapshot_from_row,
}
use expo_fastapi_todo.Suggestion.Store.{
  find_last, latest_suggestion, find_suggestion_id, save_suggestion, set_result, fail_row,
}
use expo_fastapi_todo.Suggestion.Reserve.{reserved_row, ReserveRequest}
use expo_fastapi_todo.Suggestion.Claim.{
  claim_of, claimed_row, ClaimedSuggestion, claimed, claimable, claim_grant, claim_fresh,
  claim_live, claim_row, claim_found, claim_suggestion,
}
use expo_fastapi_todo.Suggestion.FinishClaimed.{
  finishable, past_deadline, finish_stored, finish_claimed_row, finish_claimed_found,
  finish_claimed_suggestion,
}
use expo_fastapi_todo.Suggestion.Claim.Granted.{Granted, claim-Granted}
use expo_fastapi_todo.Suggestion.FinishClaimed.Deadline.{
  FinishResult, finish_claimed_suggestion_lem,
}
use expo_fastapi_todo.Suggestion.Expire.{
  is_past_due, is_still_due, candidate_ids, expire_row, expire_found, expire_each,
  expire_suggestions_with_context, expire_suggestions,
}
use expo_fastapi_todo.Suggestion.Types.{SuggestionReservation, normalize_optional}
use expo_fastapi_todo.Suggestion.Checks.{validate_active_workflow}
use expo_fastapi_todo.Suggestion.Store.{
  find_suggestion, supersede_pending, insert_suggestion, suggestion_insertable,
}
use expo_fastapi_todo.Suggestion.Trace.{canonical_trace_parent}
use expo_fastapi_todo.Suggestion.Reserve.{
  reservation, reserve_suggestion, reserve_locked, reserve_request, reserve_new, queue_fields,
}
use expo_fastapi_todo.Suggestion.Reserve.Pending.{ReserveResult, reserve_suggestion_lem}
use expo_fastapi_todo.Tests.Sample.{
  sample, hex_digits, hex_digit, checksum, dump, trip, breakdown, reviewed_row, before, draw,
  database_of,
}

-- Alice's workflow, while its tasks are collected
abbrev collecting_row : WorkflowRow
collecting_row = record reviewed_row {
  state = codes "COLLECT_TASKS";
  proposed_todo_titles = [];
  revision = 2;
}

abbrev collecting : Database
collecting = record before { workflows = record { rows = collecting_row ∷ []; next_id = 2 } }

abbrev pub reservation_request : ReserveRequest
reservation_request = record {
  owner_id = 1;
  workflow_id = 7;
  request_id = 60;
  expected_revision = 2;
  step_id = 7 ∷ codes ":COLLECT_TASKS";
  clarification = none;
  queued = true;
  trace_parent = none;
}

abbrev fingerprint_of : Result Text → Text
fingerprint_of (ok t) = t
fingerprint_of (err e) = []

abbrev pub stored_row : SuggestionRow
stored_row =
    reserved_row reservation_request
      (fingerprint_of (suggestion_fingerprint sample 7 2 reservation_request.step_id trip none))
      (record {
        queued_at = some 1000;
        expires_at = some 900001000;
        goal_snapshot = some trip;
        clarification_snapshot = none;
        trace_parent = none;
      })
      1

abbrev pub reserved : Database
reserved = record collecting { suggestions = record { rows = stored_row ∷ []; next_id = 2 } }

abbrev pub claim : ClaimedSuggestion
claim = claim_of 2000 trip none stored_row

abbrev pub after_claim : Database
after_claim = record collecting {
  suggestions = record { rows = claimed_row 2000 stored_row ∷ []; next_id = 2 };
}

pub granted :
    claim_suggestion sample 2000 300 1 (some (1, 7)) reserved ≡ ok (claimed claim, after_claim)
unfolding claim_suggestion claim_found claimable claim_row claim_live claim_fresh claim_grant
    find_suggestion_id text_eq require_canonical_goal canonicalize_title check_text strip strip_by
    is_trim has_nul has_surrogate decode_stored_clarification find_workflow latest_suggestion
    find_last validate_claimed_workflow workflow_unchanged state_value current_step_id
    claim_fingerprint_matches suggestion_fingerprint fingerprint_payload hex_digits hex_digit
    checksum dump save_suggestion suggestion_row_ok fields_ok is_fingerprint status_fields_ok
    execution_ok times_ok is_object
granted = refl

claim-Granted_example : Granted sample 2000 1 1 7 reserved claim after_claim
claim-Granted_example = claim-Granted sample 2000 300 1 1 7 reserved granted

abbrev pub done : Database
done = database_of (
    finish_claimed_suggestion sample 4000 302 claim (some breakdown) none (some (1, 7)) after_claim)

abbrev ready_snapshot : SuggestionSnapshot
ready_snapshot = record {
  workflow_id = 7;
  request_id = 60;
  base_revision = 2;
  step_id = reservation_request.step_id;
  status = ready;
  proposed_titles = breakdown;
  error_code = none;
}

pub finished :
    finish_claimed_suggestion sample 4000 302 claim (some breakdown) none (some (1, 7)) after_claim
    ≡ ok (some ready_snapshot, done)
unfolding claim_suggestion claim_found claimable claim_row claim_live claim_fresh claim_grant
    find_suggestion_id text_eq require_canonical_goal canonicalize_title check_text strip strip_by
    is_trim has_nul has_surrogate decode_stored_clarification find_workflow latest_suggestion
    find_last validate_claimed_workflow workflow_unchanged state_value current_step_id
    claim_fingerprint_matches suggestion_fingerprint fingerprint_payload hex_digits hex_digit
    checksum dump save_suggestion suggestion_row_ok fields_ok is_fingerprint status_fields_ok
    execution_ok times_ok is_object texts_eq finish_claimed_suggestion finish_claimed_found
    finishable finish_claimed_row past_deadline finish_stored set_result check_result
    create_submit_tasks canonical_titles record_event suggestion_snapshot_from_row parse_status
    read_error read_list read_texts read_ready_titles read_status_titles
finished = refl

finish_claimed_suggestion_lem_example :
    FinishResult sample 4000 claim 1 7 (some breakdown) none after_claim (some ready_snapshot) done
finish_claimed_suggestion_lem_example =
    finish_claimed_suggestion_lem sample 4000 302 claim (some breakdown) none 1 7 after_claim
      finished

abbrev late : ℕ
late = 900001000

abbrev after_expiry : Database
after_expiry = database_of (expire_suggestions (λ w. false) late draw reserved)

expired : expire_suggestions (λ w. false) late draw reserved ≡ ok (1, after_expiry)
unfolding claim_suggestion claim_found claimable claim_row claim_live claim_fresh claim_grant
    find_suggestion_id text_eq require_canonical_goal canonicalize_title check_text strip strip_by
    is_trim has_nul has_surrogate decode_stored_clarification find_workflow latest_suggestion
    find_last validate_claimed_workflow workflow_unchanged state_value current_step_id
    claim_fingerprint_matches suggestion_fingerprint fingerprint_payload hex_digits hex_digit
    checksum dump save_suggestion suggestion_row_ok fields_ok is_fingerprint status_fields_ok
    execution_ok times_ok is_object expire_suggestions expire_suggestions_with_context candidate_ids
    is_past_due expire_each expire_found expire_row is_still_due fail_row record_event
expired = refl

expire_suggestions_due_example :
    find_suggestion_id 1 after_expiry
    ≡ some (record stored_row {
      status = codes "failed";
      proposed_titles = arr nil;
      error_code = some (codes "timeout");
    })
unfolding find_suggestion_id find_workflow is_past_due text_eq
expire_suggestions_due_example =
    expire_suggestions_due (λ w. false) late draw reserved after_expiry 1 1 stored_row
      collecting_row 1000 900001000 expired (omega arith) refl refl refl refl (omega arith) refl
      refl

abbrev earlier_row : SuggestionRow
earlier_row = record stored_row { id = 1; request_id = 59 }

abbrev pub collecting_one : Database
collecting_one = record collecting { suggestions = record { rows = earlier_row ∷ []; next_id = 2 } }

abbrev after_reserve : Database
after_reserve = database_of (reserve_suggestion sample 1000 reservation_request collecting_one)

abbrev pub new_reservation : SuggestionReservation
new_reservation = record {
  workflow_id = 7;
  request_id = 60;
  base_revision = 2;
  step_id = reservation_request.step_id;
  goal = trip;
  request_fingerprint = stored_row.request_fingerprint;
  clarification = none;
}

newly_reserved :
    reserve_suggestion sample 1000 reservation_request collecting_one
    ≡ ok (some (reservation new_reservation), after_reserve)
unfolding reserve_suggestion normalize_optional find_workflow reserve_locked suggestion_fingerprint
    fingerprint_payload has_surrogate hex_digits hex_digit checksum dump find_suggestion
    reserve_request reserve_new validate_active_workflow current_step_id state_value text_eq
    supersede_pending suggestion_row_ok fields_ok is_fingerprint status_fields_ok execution_ok
    times_ok is_object queue_fields require_canonical_goal canonicalize_title check_text strip
    strip_by is_trim has_nul canonical_trace_parent insert_suggestion suggestion_insertable
newly_reserved = refl

reserve_suggestion_lem_example :
    ReserveResult sample 1000 reservation_request collecting_one
      (reservation new_reservation)
      after_reserve
reserve_suggestion_lem_example =
    reserve_suggestion_lem sample 1000 reservation_request collecting_one newly_reserved
