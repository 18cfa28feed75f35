-- ===== src/Api/Workflows.antt =====
-- The workflow handlers of apps/api/app/main.py, for the user that is logged in.
pub mod Retry
use expo_fastapi_todo.Prelude.{ℕ, Option, none, some, List, map, Text, codes}
use expo_fastapi_todo.Result.{
  Error, Result, ok, err, request_id_reused, stale_workflow_step, terminal_workflow,
  invalid_workflow_action, unsupported_workflow_definition, revision_exhausted,
  invalid_stored_snapshot,
}
use expo_fastapi_todo.Http.{HttpException, Answer, answered, refused}
use expo_fastapi_todo.Platform.{Platform}
use expo_fastapi_todo.Database.Transaction.{Database, Transaction, lift}
use expo_fastapi_todo.Database.Call.{Interrupt}
use expo_fastapi_todo.Workflow.Domain.{Uuid, WorkflowSnapshot}
use expo_fastapi_todo.Workflow.Service.{
  AdvanceRequest, start_workflow, get_workflow, advance_workflow, list_active_workflows,
}
use expo_fastapi_todo.Api.Errors.{
  database_unavailable, workflow_not_found, workflow_conflict, internal_error, handle,
}
use expo_fastapi_todo.Api.Payloads.{WorkflowAction, to_domain_command}
use expo_fastapi_todo.Api.Views.{TodoWorkflowResponse, as_workflow_response}

abbrev pub reused_conflict : HttpException
reused_conflict =
    workflow_conflict (codes "request_id_reused")
      (codes "This request ID was already used with different details.")

abbrev pub unsupported_conflict : HttpException
unsupported_conflict =
    workflow_conflict (codes "unsupported_workflow_definition")
      (codes "This plan uses an unsupported workflow definition.")

-- the `except` clauses of the four handlers
abbrev pub start_error : Error → HttpException
start_error request_id_reused = reused_conflict
start_error invalid_stored_snapshot = database_unavailable
start_error _ = internal_error

abbrev pub list_error : Error → HttpException
list_error unsupported_workflow_definition = unsupported_conflict
list_error invalid_stored_snapshot = database_unavailable
list_error _ = internal_error

abbrev pub get_error : Error → HttpException
get_error unsupported_workflow_definition = unsupported_conflict
get_error _ = internal_error

abbrev pub advance_error : Error → HttpException
advance_error request_id_reused = reused_conflict
advance_error stale_workflow_step =
    workflow_conflict (codes "stale_step") (codes "This plan changed. Reload it and try again.")
advance_error terminal_workflow =
    workflow_conflict (codes "terminal_workflow") (codes "Todo workflow is already terminal.")
advance_error invalid_workflow_action =
    workflow_conflict (codes "invalid_action")
      (codes "Action is not valid for the current workflow state.")
advance_error unsupported_workflow_definition = unsupported_conflict
advance_error revision_exhausted =
    workflow_conflict (codes "revision_exhausted")
      (codes "This plan has reached its revision limit.")
advance_error invalid_stored_snapshot = database_unavailable
advance_error _ = internal_error

abbrev pub or_not_found : Platform → Option WorkflowSnapshot → Answer TodoWorkflowResponse
or_not_found p none = refused workflow_not_found
or_not_found p (some snapshot) = answered (as_workflow_response p snapshot)

-- a read of the database as a transaction
abbrev pub read_of : {A : Type 0} → (Database → Result A) → Transaction A
read_of f db = lift (f db) db

unfoldable pub start_todo_workflow :
    Platform
    → ℕ
    → (ℕ → Uuid)
    → ℕ
    → Text
    → Uuid
    → Option Interrupt
    → Database
    → Answer TodoWorkflowResponse × Database
start_todo_workflow p now draw user_id title request_id o db =
    handle start_error (λ snapshot. answered (as_workflow_response p snapshot)) o
      (start_workflow p now draw user_id title request_id) db

unfoldable pub list_todo_workflows :
    Platform → ℕ → Option Interrupt → Database → Answer (List TodoWorkflowResponse) × Database
list_todo_workflows p user_id o db =
    handle list_error (λ snapshots. answered (map (as_workflow_response p) snapshots)) o
      (read_of (list_active_workflows p user_id)) db

unfoldable pub get_todo_workflow :
    Platform → ℕ → Uuid → Option Interrupt → Database → Answer TodoWorkflowResponse × Database
get_todo_workflow p user_id workflow_id o db =
    handle get_error (or_not_found p) o (read_of (get_workflow p user_id workflow_id)) db

-- the body of an action request
pub record TodoWorkflowActionRequest : Type 0 where
  pub request_id : Uuid
  pub expected_revision : ℕ
  pub step_id : Text
  pub action : WorkflowAction

abbrev pub advance_request : ℕ → Uuid → TodoWorkflowActionRequest → AdvanceRequest
advance_request user_id workflow_id payload = record {
  owner_id = user_id;
  workflow_id = workflow_id;
  command = to_domain_command payload.action;
  request_id = payload.request_id;
  expected_revision = payload.expected_revision;
  step_id = payload.step_id;
}

unfoldable pub advance_todo_workflow :
    Platform
    → ℕ
    → (ℕ → Uuid)
    → ℕ
    → Uuid
    → TodoWorkflowActionRequest
    → Option Interrupt
    → Database
    → Answer TodoWorkflowResponse × Database
advance_todo_workflow p now draw user_id workflow_id payload o db =
    handle advance_error (or_not_found p) o
      (advance_workflow p now draw (advance_request user_id workflow_id payload)) db
