-- ===== src/Workflow/Service.antt =====
-- apps/api/app/workflow_service.py: starting, advancing, reading and listing workflows. `now` is the
-- transaction's `func.now()`, and `draw i` the i-th `uuid4()` of the call.
pub mod Steps
pub mod Accepted
pub mod NewAction
pub mod Decided
pub mod Outcome
pub mod Invariant
pub mod Idempotence
pub mod Effects
pub mod Restart
use expo_fastapi_todo.Prelude.{
  ℕ, suc, ◌+◌, Bool, true, false, not, ◌&&◌, ◌||◌, Option, none, some, List, [], ◌∷◌, map, any,
  select, find, update_where, length, leb, ◌==◌, Text, codes, if◌then◌else◌, text_eq, is_none,
  is_empty,
}
use mathlib.Core.List.{reverse}
use expo_fastapi_todo.Result.{
  Result, ok, err, terminal_workflow, unsupported_workflow_definition, stale_workflow_step,
  request_id_reused, revision_exhausted, value_error, raise_if,
}
use expo_fastapi_todo.Json.{Json, text, num, boolean, obj, field, end, text_array, Fields, member}
use expo_fastapi_todo.Platform.{Platform, fingerprint_payload}
use expo_fastapi_todo.Database.Rows.{
  Table, TodoRow, StoredTodo, WorkflowRow, WorkflowStartRequestRow, WorkflowActionRequestRow,
  is_completed,
}
use expo_fastapi_todo.Database.Transaction.{
  Database, Transaction, pure, raise, lift, gets, modify, require, continue, ◌>>=◌, ◌>>◌,
}
use expo_fastapi_todo.Todos.{create_todo}
use expo_fastapi_todo.Analytics.Events.{record_event}
use expo_fastapi_todo.Workflow.Domain.{
  Uuid, WorkflowState, assess_task, offer_breakdown, collect_tasks, review, completed, cancelled,
  state_value, parse_state, CreatedTodo, WorkflowSnapshot, WorkflowCommand, answer_multiple_steps,
  submit_tasks, confirm, cancel, TransitionDecision, max_workflow_revision,
  current_workflow_definition_version, create_initial_snapshot, transition, is_terminal,
}
use expo_fastapi_todo.Workflow.Record.{snapshot_to_record, snapshot_from_record}
use expo_fastapi_todo.Workflow.Fingerprint.{start_fingerprint, action_fingerprint}
use expo_fastapi_todo.Workflow.RowSnapshot.{snapshot_from_row, stored_todo}
use expo_fastapi_todo.Workflow.StepId.{current_step_id}
use expo_fastapi_todo.Workflow.Store.{
  is_workflow, find_workflow, create_workflow, find_start_request, insert_start_request,
  find_action_request, insert_action_request,
}

-- The keyword arguments of a call of `advance_workflow`.
pub record AdvanceRequest : Type 0 where
  pub owner_id : ℕ
  pub workflow_id : Uuid
  pub command : WorkflowCommand
  pub request_id : Uuid
  pub expected_revision : ℕ
  pub step_id : Text

unfoldable pub replay_start :
    Platform → Text → WorkflowStartRequestRow → Transaction WorkflowSnapshot
replay_start p fingerprint existing =
    if text_eq existing.request_fingerprint fingerprint
    then lift (snapshot_from_record p existing.accepted_snapshot)
    else raise request_id_reused

unfoldable pub insert_start :
    Platform → ℕ → Uuid → ℕ → Uuid → Text → WorkflowSnapshot → Transaction WorkflowSnapshot
insert_start p now event_id owner_id request_id fingerprint snapshot = do
  insert_start_request (record {
    owner_id = owner_id;
    request_id = request_id;
    request_fingerprint = fingerprint;
    workflow_id = snapshot.id;
    accepted_snapshot = snapshot_to_record p snapshot;
  })
  create_workflow snapshot.id owner_id snapshot.title
  record_event now event_id (codes "workflow_started") owner_id (some snapshot.id) none
  pure snapshot

unfoldable pub start_workflow :
    Platform → ℕ → (ℕ → Uuid) → ℕ → Text → Uuid → Transaction WorkflowSnapshot
start_workflow p now draw owner_id title request_id = do
  snapshot ← lift (create_initial_snapshot (draw 0) title)
  fingerprint ← lift (start_fingerprint p snapshot.title)
  found ← gets (find_start_request owner_id request_id)
  elim found [
    | none ↦ insert_start p now (draw 1) owner_id request_id fingerprint snapshot
    | some existing ↦ replay_start p fingerprint existing
  ]

unfoldable pub get_workflow : Platform → ℕ → Uuid → Database → Result (Option WorkflowSnapshot)
get_workflow p owner_id workflow_id db = elim (find_workflow workflow_id owner_id db) [
  | none ↦ ok none
  | some row ↦
      if not (row.definition_version == current_workflow_definition_version)
      then err unsupported_workflow_definition
      else elim (snapshot_from_row p row) [ ok snapshot ↦ ok (some snapshot) | err e ↦ err e ]
]

-- The checks of a new action against the locked row, in their order.
unfoldable pub check_action : Platform → AdvanceRequest → WorkflowRow → Result (Unit {0})
check_action p request row =
    if not (row.definition_version == current_workflow_definition_version)
    then err unsupported_workflow_definition
    else if not (text_eq request.step_id (current_step_id p request.workflow_id row.state))
    then err stale_workflow_step
    else if not (request.expected_revision == row.revision)
    then err stale_workflow_step
    else if text_eq row.state (state_value completed) || text_eq row.state (state_value cancelled)
    then err terminal_workflow
    else if leb max_workflow_revision row.revision
    then err revision_exhausted
    else ok tt

unfoldable pub replay_action :
    Platform → Text → WorkflowActionRequestRow → Transaction WorkflowSnapshot
replay_action p fingerprint existing =
    if text_eq existing.request_fingerprint fingerprint
    then lift (snapshot_from_record p existing.accepted_snapshot)
    else raise request_id_reused

-- the loop over `todo_titles_to_create`
unfoldable pub create_todos : (ℕ → Uuid) → ℕ → ℕ → List Text → Transaction (List CreatedTodo)
create_todos draw owner_id i [] = pure []
create_todos draw owner_id i (title ∷ titles) = do
  todo ← create_todo (draw i) title owner_id
  rest ← create_todos draw owner_id (suc i) titles
  pure (record { id = todo.public_id; title = todo.title; completed = is_completed todo } ∷ rest)

abbrev pub decided_row : TransitionDecision → Option (List StoredTodo) → WorkflowRow → WorkflowRow
decided_row decision completion_result row = record row {
  state = state_value decision.state;
  involves_multiple_steps = decision.involves_multiple_steps;
  proposed_todo_titles = decision.proposed_todo_titles;
  completion_result = completion_result;
  revision = row.revision + 1;
}

-- the `WHERE` clause of the guarded update
abbrev pub is_current : AdvanceRequest → WorkflowRow → Bool
is_current request row =
    is_workflow request.workflow_id request.owner_id row
    && row.revision == request.expected_revision

-- `if len(updated) != 1: raise`; the refreshed row is the one that the update returns
abbrev pub only_row : List WorkflowRow → Transaction WorkflowRow
only_row (row ∷ []) = pure row
only_row _ = raise stale_workflow_step

unfoldable pub update_workflow_row :
    AdvanceRequest → (WorkflowRow → WorkflowRow) → Transaction WorkflowRow
update_workflow_row request change = do
  updated ← gets (λ db. map change (select (is_current request) db.workflows.rows))
  modify (λ db. record db {
    workflows = record {
      rows = update_where (is_current request) change db.workflows.rows;
      next_id = db.workflows.next_id;
    };
  })
  only_row updated

unfoldable pub record_completed : ℕ → Uuid → AdvanceRequest → WorkflowState → Transaction (Unit {0})
record_completed now event_id request completed =
    record_event now event_id (codes "workflow_completed") request.owner_id
      (some request.workflow_id) none
record_completed now event_id request _ = pure tt

-- `completion_result` stays `None` if no todo is to be created
abbrev pub completion_of : Platform → List Text → List CreatedTodo → Option (List StoredTodo)
completion_of p [] created = none
completion_of p (_ ∷ _) created = some (map (stored_todo p) created)

-- What an accepted decision writes: the todos, the row, the event and the request.
unfoldable pub apply_decision :
    Platform
    → ℕ
    → (ℕ → Uuid)
    → AdvanceRequest
    → Text
    → TransitionDecision
    → Transaction WorkflowSnapshot
apply_decision p now draw request fingerprint decision = do
  created ← create_todos draw request.owner_id 0 decision.todo_titles_to_create
  row ←
      update_workflow_row request
        (decided_row decision (completion_of p decision.todo_titles_to_create created))
  record_completed now (draw (length decision.todo_titles_to_create)) request decision.state
  accepted ← lift (snapshot_from_row p row)
  insert_action_request (record {
    owner_id = request.owner_id;
    workflow_id = request.workflow_id;
    request_id = request.request_id;
    request_fingerprint = fingerprint;
    accepted_snapshot = snapshot_to_record p accepted;
  })
  pure accepted

unfoldable pub new_action :
    Platform → ℕ → (ℕ → Uuid) → AdvanceRequest → Text → WorkflowRow → Transaction WorkflowSnapshot
new_action p now draw request fingerprint row = do
  lift (check_action p request row)
  snapshot ← lift (snapshot_from_row p row)
  decision ← lift (transition snapshot request.command)
  apply_decision p now draw request fingerprint decision

unfoldable pub advance_row :
    Platform → ℕ → (ℕ → Uuid) → AdvanceRequest → Text → WorkflowRow → Transaction WorkflowSnapshot
advance_row p now draw request fingerprint row = do
  existing ← gets (find_action_request request.owner_id request.workflow_id request.request_id)
  elim existing [
    | some accepted ↦ replay_action p fingerprint accepted
    | none ↦ new_action p now draw request fingerprint row
  ]

unfoldable pub advance_found :
    Platform
    → ℕ
    → (ℕ → Uuid)
    → AdvanceRequest
    → Text
    → Option WorkflowRow
    → Transaction (Option WorkflowSnapshot)
advance_found p now draw request fingerprint none = pure none
advance_found p now draw request fingerprint (some row) = do
  accepted ← advance_row p now draw request fingerprint row
  pure (some accepted)

unfoldable pub advance_workflow :
    Platform → ℕ → (ℕ → Uuid) → AdvanceRequest → Transaction (Option WorkflowSnapshot)
advance_workflow p now draw request = do
  fingerprint ← lift (
      action_fingerprint p request.workflow_id request.expected_revision request.step_id
        request.command)
  found ← gets (find_workflow request.workflow_id request.owner_id)
  advance_found p now draw request fingerprint found

abbrev pub active_values : List Text
active_values =
    codes "ASSESS_TASK" ∷ codes "OFFER_BREAKDOWN" ∷ codes "COLLECT_TASKS" ∷ codes "REVIEW" ∷ []

-- the loop over the selected rows
unfoldable pub list_rows : Platform → List WorkflowRow → Result (List WorkflowSnapshot)
list_rows p [] = ok []
list_rows p (row ∷ rows) =
    if not (row.definition_version == current_workflow_definition_version)
    then err unsupported_workflow_definition
    else elim (snapshot_from_row p row) [
      | err e ↦ err e
      | ok snapshot ↦ elim (list_rows p rows) [ err e ↦ err e | ok rest ↦ ok (snapshot ∷ rest) ]
    ]

abbrev pub is_listed : ℕ → WorkflowRow → Bool
is_listed owner_id row =
    row.owner_id == owner_id
    && (not (row.definition_version == current_workflow_definition_version)
        || member row.state active_values)

-- newest first: the rows are kept in the order of their `id`
unfoldable pub list_active_workflows : Platform → ℕ → Database → Result (List WorkflowSnapshot)
list_active_workflows p owner_id db =
    list_rows p (reverse (select (is_listed owner_id) db.workflows.rows))
