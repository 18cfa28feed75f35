-- ===== src/Api/Workflows/Retry.antt =====
-- A client of apps/api/app/main.py that lost the answer of an action can send it again.
use expo_fastapi_todo.Prelude.{ℕ, ◌≡◌, refl, ap, ◌∙◌, Option, none, some, true, arith}
use expo_fastapi_todo.Result.{ok}
use expo_fastapi_todo.Http.{answered}
use expo_fastapi_todo.Platform.{Platform, IsPlatform}
use expo_fastapi_todo.Database.Transaction.{Database, transact}
use expo_fastapi_todo.Database.Call.{Fault, operational, unexpected, Interrupt}
use expo_fastapi_todo.Workflow.Domain.{Uuid, WorkflowSnapshot}
use expo_fastapi_todo.Workflow.Domain.Validity.{IsCommand}
use expo_fastapi_todo.Workflow.Service.Invariant.{WorkflowsValid}
use expo_fastapi_todo.Workflow.Service.{advance_workflow}
use expo_fastapi_todo.Workflow.Service.Idempotence.{advance_twice}
use expo_fastapi_todo.Api.Errors.{settle, handle-answered}
use expo_fastapi_todo.Api.Payloads.{to_domain_command}
use expo_fastapi_todo.Api.Views.{TodoWorkflowResponse, as_workflow_response}
use expo_fastapi_todo.Api.Workflows.{
  TodoWorkflowActionRequest, advance_request, advance_error, or_not_found, advance_todo_workflow,
}

-- the connection broke after the commit
abbrev pub lost : Fault → Interrupt
lost fault = record { fault = fault; applied = true }

accepted_of :
    (p : Platform) (o : Option WorkflowSnapshot) {r : TodoWorkflowResponse}
    → or_not_found p o ≡ answered r
    → (s : WorkflowSnapshot) × (o ≡ some s) × (as_workflow_response p s ≡ r)
accepted_of p none h = cc
accepted_of p (some s) h = (s, refl, ground arith)

-- what an interrupted call leaves
lost_database :
    (p : Platform) (now : ℕ) (draw : ℕ → Uuid) (user_id : ℕ) (workflow_id : Uuid)
    (payload : TodoWorkflowActionRequest) (fault : Fault) (db db' : Database) {s : WorkflowSnapshot}
    → advance_workflow p now draw (advance_request user_id workflow_id payload) db
      ≡ ok (some s, db')
    → (advance_todo_workflow p now draw user_id workflow_id payload (some (lost fault)) db).1 ≡ db'
unfolding advance_todo_workflow settle
lost_database p now draw user_id workflow_id payload operational db db' h = rw (h, transact) refl
lost_database p now draw user_id workflow_id payload unexpected db db' h = rw (h, transact) refl

-- When an action would be answered, its command is well-formed, and the stored workflows are valid,
-- then a call whose answer is lost after its commit leaves the database of the answered call, and
-- sending the action again, at any later time, gets that answer and changes nothing.
pub advance_after_lost_answer :
    {p : Platform} (laws : IsPlatform p) (now later : ℕ) (draw draw' : ℕ → Uuid) (user_id : ℕ)
    (workflow_id : Uuid) (payload : TodoWorkflowActionRequest) (fault : Fault) (db db' : Database)
    {r : TodoWorkflowResponse}
    → IsCommand (to_domain_command payload.action)
    → WorkflowsValid p db
    → advance_todo_workflow p now draw user_id workflow_id payload none db ≡ (answered r, db')
    → ((advance_todo_workflow p now draw user_id workflow_id payload (some (lost fault)) db).1
        ≡ db')
      × (advance_todo_workflow p later draw' user_id workflow_id payload none db'
          ≡ (answered r, db'))
unfolding advance_todo_workflow settle
advance_after_lost_answer {p} laws now later draw draw' user_id workflow_id payload fault db db' {r}
      command valid h =
    let request = advance_request user_id workflow_id payload in
    let (o, committed, shown) =
      handle-answered advance_error (or_not_found p) (advance_workflow p now draw request) db
        {b = r} {db' = db'} h in
    let (s, is_some, presented) = accepted_of p o {r = r} shown in
    let accepted = committed ∙ ap (λ (a : Option WorkflowSnapshot). ok (a, db')) is_some in
    let again =
      advance_twice laws now later draw draw' request db {accepted = s} {db' = db'} command valid
        accepted in
    (
      lost_database p now draw user_id workflow_id payload fault db db' accepted,
      rw (again, transact) (ap (λ (x : TodoWorkflowResponse). (answered x, db')) presented),
    )
