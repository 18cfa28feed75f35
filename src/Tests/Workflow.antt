-- ===== src/Tests/Workflow.antt =====
-- Runs of the workflow service and of the stored records.
use expo_fastapi_todo.Prelude.{
  ℕ, ◌≡◌, ◌≢◌, ◌⊎◌, refl, ap, none, some, [], ◌∷◌, ◌++◌, Text, arith, text_eq, inr, select, ◌==◌,
  ◌+◌, List, codes,
}
use expo_fastapi_todo.Result.{Result, ok, err, stale_workflow_step, request_id_reused}
use expo_fastapi_todo.Platform.{fingerprint_payload, is_fingerprint}
use expo_fastapi_todo.Title.{has_surrogate}
use expo_fastapi_todo.Database.Rows.{todo_row_ok, action_row_ok, is_object}
use expo_fastapi_todo.Database.Transaction.{Database}
use expo_fastapi_todo.Analytics.Events.{record_event}
use expo_fastapi_todo.Todos.{todo_insertable, create_todo, list_todos}
use expo_fastapi_todo.Workflow.Domain.{
  transition, dispatch, is_cancel, is_terminal, parse_state, state_value, confirm, cancel,
  completed,
}
use expo_fastapi_todo.Workflow.Domain.Validity.{creates}
use expo_fastapi_todo.Workflow.Service.Steps.{todo_rows}
use expo_fastapi_todo.Workflow.Domain.Graph.{steps_left}
use expo_fastapi_todo.Workflow.Fingerprint.{action_fingerprint, canonical_action}
use expo_fastapi_todo.Workflow.RowSnapshot.{
  snapshot_from_row, created_from_result, created_from_stored,
}
use expo_fastapi_todo.Workflow.Record.{snapshot_to_record, snapshot_from_record}
use expo_fastapi_todo.Workflow.Record.Valid.{IsValid}
use expo_fastapi_todo.Workflow.Record.Roundtrip.{record_round_trip}
use expo_fastapi_todo.Workflow.Record.Soundness.{snapshot_from_record-IsValid}
use expo_fastapi_todo.Workflow.StepId.{current_step_id}
use expo_fastapi_todo.Workflow.Store.{
  find_workflow, find_action_request, action_insertable, insert_action_request,
}
use expo_fastapi_todo.Workflow.Service.{
  check_action, create_todos, update_workflow_row, record_completed, apply_decision, new_action,
  advance_row, advance_found, advance_workflow,
}
use expo_fastapi_todo.Workflow.Service.Invariant.{WorkflowsValid, advance-WorkflowsValid}
use expo_fastapi_todo.Workflow.Service.Idempotence.{
  advance_again, competing_actions, request_id_conflict,
}
use expo_fastapi_todo.Title.{canonicalize_title, check_text, strip, strip_by, is_trim, has_nul}
use expo_fastapi_todo.Database.Rows.{start_row_ok, workflow_row_ok}
use expo_fastapi_todo.Prelude.{none}
use expo_fastapi_todo.Workflow.Domain.{WorkflowSnapshot, create_initial_snapshot, assess_task}
use expo_fastapi_todo.Workflow.Fingerprint.{start_fingerprint}
use expo_fastapi_todo.Workflow.Store.{
  find_start_request, insert_start_request, create_workflow, workflow_insertable,
}
use expo_fastapi_todo.Workflow.Service.{start_workflow, insert_start}
use expo_fastapi_todo.Workflow.Service.Restart.{start_again}
use expo_fastapi_todo.Tests.Sample.{trip, reviewed_row}
use expo_fastapi_todo.Database.Rows.{WorkflowRow, WorkflowActionRequestRow}
use expo_fastapi_todo.Json.{Json}
use expo_fastapi_todo.Workflow.Service.Effects.{advance_creates_todos, advance_isolated}
use expo_fastapi_todo.Tests.Sample.{
  sample, hex_digits, hex_digit, checksum, dump, sample-IsPlatform, breakdown, reviewed_snapshot,
  completed_snapshot, before, draw, confirmation, cancellation, changed_confirmation, database_of,
}
use expo_fastapi_todo.Tests.Domain.{trip-Title, breakdown-Breakdown}

abbrev pub after : Database
after = database_of (advance_workflow sample 1000 draw confirmation before)

pub confirmed :
    advance_workflow sample 1000 draw confirmation before ≡ ok (some completed_snapshot, after)
unfolding advance_workflow advance_found advance_row new_action check_action apply_decision
    create_todos create_todo todo_insertable todo_row_ok update_workflow_row record_completed
    record_event insert_action_request action_insertable action_row_ok is_fingerprint is_object
    find_workflow find_action_request action_fingerprint canonical_action fingerprint_payload
    has_surrogate current_step_id state_value parse_state transition dispatch is_cancel is_terminal
    snapshot_from_row created_from_result created_from_stored snapshot_to_record text_eq hex_digits
    hex_digit checksum dump
confirmed = refl

reviewed-IsValid : IsValid reviewed_snapshot
reviewed-IsValid = record {
  title = trip-Title;
  proposals = breakdown-Breakdown.canonical;
  context = inr (refl, breakdown-Breakdown);
  created = refl;
  revision = omega arith;
  version = omega arith;
}

pub before-WorkflowsValid : WorkflowsValid sample before
unfolding snapshot_from_row created_from_result parse_state text_eq steps_left
before-WorkflowsValid = (
  record {
    snapshot = reviewed_snapshot;
    read = refl;
    valid = reviewed-IsValid;
    steps = omega arith;
  },
  tt,
)

record_round_trip_example :
    snapshot_from_record sample (snapshot_to_record sample reviewed_snapshot) ≡ ok reviewed_snapshot
record_round_trip_example = record_round_trip sample-IsPlatform reviewed_snapshot reviewed-IsValid

snapshot_from_record-IsValid_example : IsValid reviewed_snapshot
snapshot_from_record-IsValid_example =
    snapshot_from_record-IsValid sample (snapshot_to_record sample reviewed_snapshot)
      {s = reviewed_snapshot}
      (record_round_trip sample-IsPlatform reviewed_snapshot reviewed-IsValid)

-- the workflow has gone on, and another request is stored
abbrev later_row : WorkflowRow
later_row = record reviewed_row { revision = 9; state = codes "CANCELLED" }

abbrev later_requests : List WorkflowActionRequestRow
later_requests =
    record {
      owner_id = 1;
      workflow_id = 7;
      request_id = 99;
      request_fingerprint = [];
      accepted_snapshot = Json.null;
    }
    ∷ []

abbrev much_later : Database
much_later = record after {
  workflows = record { rows = later_row ∷ []; next_id = 2 };
  action_requests = after.action_requests ++ later_requests;
}

advance_again_example :
    advance_workflow sample 2000 (λ i. 900 + i) confirmation much_later
    ≡ ok (some completed_snapshot, much_later)
unfolding find_workflow
advance_again_example =
    advance_again sample-IsPlatform 1000 2000 draw (λ i. 900 + i) confirmation before after
      much_later later_requests later_row tt before-WorkflowsValid confirmed refl refl

advance-WorkflowsValid_example : WorkflowsValid sample after
advance-WorkflowsValid_example =
    advance-WorkflowsValid sample-IsPlatform 1000 draw confirmation before tt before-WorkflowsValid
      confirmed

advance_creates_todos_example :
    after.todos.rows ≡ before.todos.rows ++ todo_rows draw 1 1 0 (creates completed breakdown)
unfolding find_action_request
advance_creates_todos_example =
    advance_creates_todos sample-IsPlatform 1000 draw confirmation before tt before-WorkflowsValid
      refl confirmed

abbrev fingerprint_of : Result Text → Text
fingerprint_of (ok t) = t
fingerprint_of (err e) = []

abbrev cancel_fingerprint : Text
cancel_fingerprint = fingerprint_of (action_fingerprint sample 7 3 confirmation.step_id cancel)

abbrev confirm_fingerprint : Text
confirm_fingerprint = fingerprint_of (action_fingerprint sample 7 3 confirmation.step_id confirm)

not_stored : find_action_request 1 7 41 after ≡ none
unfolding advance_workflow advance_found advance_row new_action check_action apply_decision
    create_todos create_todo todo_insertable todo_row_ok update_workflow_row record_completed
    record_event insert_action_request action_insertable action_row_ok is_fingerprint is_object
    find_workflow find_action_request action_fingerprint canonical_action fingerprint_payload
    has_surrogate current_step_id state_value parse_state transition dispatch is_cancel is_terminal
    snapshot_from_row created_from_result created_from_stored snapshot_to_record text_eq hex_digits
    hex_digit checksum dump
not_stored = refl

competing_actions_example :
    advance_workflow sample 2000 draw cancellation after ≡ err stale_workflow_step
unfolding find_action_request action_fingerprint canonical_action fingerprint_payload has_surrogate
    hex_digits hex_digit checksum dump
competing_actions_example =
    competing_actions sample 1000 2000 draw draw confirmation cancellation before
      {fingerprint = cancel_fingerprint} refl confirmed refl refl refl not_stored refl

abbrev first_code : Text → ℕ
first_code [] = 0
first_code (c ∷ cs) = c

differ : confirm_fingerprint ≢ cancel_fingerprint
unfolding action_fingerprint canonical_action fingerprint_payload has_surrogate hex_digits hex_digit
    checksum dump
differ e = omega (arith, ap first_code e)

request_id_conflict_example :
    advance_workflow sample 2000 draw changed_confirmation after ≡ err request_id_reused
unfolding find_action_request action_fingerprint canonical_action fingerprint_payload has_surrogate
    hex_digits hex_digit checksum dump
request_id_conflict_example =
    request_id_conflict sample 1000 2000 draw draw confirmation changed_confirmation before
      {fingerprint = confirm_fingerprint} {other = cancel_fingerprint} refl confirmed refl refl refl
      refl refl differ

abbrev bob : ℕ
bob = 2

abbrev other_workflow : ℕ
other_workflow = 8

advance_isolated_example :
    ((other_workflow ≢ confirmation.workflow_id) ⊎ (bob ≢ confirmation.owner_id)
      → find_workflow other_workflow bob after ≡ find_workflow other_workflow bob before)
    × (bob ≢ confirmation.owner_id
        → list_todos bob after ≡ ok (select (λ row. row.owner_id == bob) before.todos.rows, after))
advance_isolated_example =
    advance_isolated sample 1000 draw confirmation before other_workflow bob confirmed

abbrev started_snapshot : WorkflowSnapshot
started_snapshot = record {
  id = 500;
  state = assess_task;
  title = trip;
  involves_multiple_steps = none;
  proposed_todo_titles = [];
  created_todos = none;
  revision = 0;
  definition_version = 1;
}

abbrev started : Database
started = database_of (start_workflow sample 1000 draw 1 trip 80 before)

accepted_start : start_workflow sample 1000 draw 1 trip 80 before ≡ ok (started_snapshot, started)
unfolding start_workflow create_initial_snapshot canonicalize_title check_text strip strip_by
    is_trim has_nul has_surrogate start_fingerprint fingerprint_payload hex_digits hex_digit
    checksum dump find_start_request insert_start insert_start_request start_row_ok is_fingerprint
    is_object snapshot_to_record create_workflow workflow_insertable workflow_row_ok record_event
    text_eq state_value
accepted_start = refl

-- the started workflow is gone
abbrev restarted : Database
restarted = record started {
  workflows = before.workflows;
  start_requests = started.start_requests ++ [];
}

start_again_example :
    start_workflow sample 2000 (λ i. 900 + i) 1 trip 80 restarted ≡ ok (started_snapshot, restarted)
start_again_example =
    start_again sample-IsPlatform 1000 2000 draw (λ i. 900 + i) 1 trip 80 before started restarted
      [] accepted_start refl
