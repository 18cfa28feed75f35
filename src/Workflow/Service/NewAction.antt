-- ===== src/Workflow/Service/NewAction.antt =====
-- The checks that a new action has passed and what it has written (workflow_service.py).
use expo_fastapi_todo.Prelude.{ℕ, ◌≡◌, ◌∙◌, some, Text, arith}
use expo_fastapi_todo.Result.{ok}
use expo_fastapi_todo.Platform.{Platform}
use expo_fastapi_todo.Database.Rows.{WorkflowRow}
use expo_fastapi_todo.Database.Transaction.{Database, lift, steps, after, lift-eq-ok}
use expo_fastapi_todo.Workflow.Domain.{Uuid, WorkflowSnapshot, TransitionDecision, transition}
use expo_fastapi_todo.Workflow.RowSnapshot.{snapshot_from_row}
use expo_fastapi_todo.Workflow.Store.{find_workflow}
use expo_fastapi_todo.Workflow.Service.{AdvanceRequest, check_action, new_action}
use expo_fastapi_todo.Workflow.Service.Accepted.{Applied, apply_decision_lem}

-- What a new action that is accepted went through.
pub record NewAction (p : Platform) (now : ℕ) (draw : ℕ → Uuid) (request : AdvanceRequest)
    (fingerprint : Text) (row : WorkflowRow) (db : Database) (accepted : WorkflowSnapshot)
    (db' : Database) : Type 0 where
  pub checked : check_action p request row ≡ ok tt
  pub snapshot : WorkflowSnapshot
  pub read : snapshot_from_row p row ≡ ok snapshot
  pub decision : TransitionDecision
  pub decided : transition snapshot request.command ≡ ok decision
  pub applied : Applied p now draw request fingerprint row decision db accepted db'

check_action-revision :
    (p : Platform) (request : AdvanceRequest) (row : WorkflowRow)
    → check_action p request row ≡ ok tt
    → row.revision ≡ request.expected_revision
unfolding check_action
check_action-revision p request row h = ground arith

pub new_action_lem :
    (p : Platform) (now : ℕ) (draw : ℕ → Uuid) (request : AdvanceRequest) (fingerprint : Text)
    (row : WorkflowRow) (db : Database) {accepted : WorkflowSnapshot} {db' : Database}
    → find_workflow request.workflow_id request.owner_id db ≡ some row
    → new_action p now draw request fingerprint row db ≡ ok (accepted, db')
    → NewAction p now draw request fingerprint row db accepted db'
unfolding new_action
new_action_lem p now draw request fingerprint row db {accepted} {db'} found h =
    elim (steps (lift (check_action p request row)) _ db h) [
      | after _ db1 e1 h1 ↦ elim (steps (lift (snapshot_from_row p row)) _ db1 h1) [
        | after snapshot db2 e2 h2 ↦
            elim (steps (lift (transition snapshot request.command)) _ db2 h2) [
              | after decision db3 e3 h3 ↦
                  let (checked, same1) = lift-eq-ok (check_action p request row) db e1 in
                  let (read, same2) = lift-eq-ok (snapshot_from_row p row) db1 e2 in
                  let (decided, same3) = lift-eq-ok (transition snapshot request.command) db2 e3 in
                  let same = same3 ∙ same2 ∙ same1 in
                  record {
                    checked = checked;
                    snapshot = snapshot;
                    read = read;
                    decision = decision;
                    decided = decided;
                    applied =
                        apply_decision_lem p now draw request fingerprint decision db found
                          (check_action-revision p request row checked) (rw same at h3);
                  }
            ]
      ]
    ]
