-- ===== src/Workflow/Service/Accepted.antt =====
-- The database after an accepted action: what it has written, table by table, and that it has
-- written nothing else (`advance_workflow` of workflow_service.py).
use expo_fastapi_todo.Prelude.{
  ℕ, ◌≡◌, sym, ap, ◌∙◌, true, false, none, some, List, [], ◌∷◌, ◌++◌, map, find, select,
  update_where, Text, All, arith, length, codes,
}
use mathlib.Core.List.{append-nil}
use expo_fastapi_todo.Result.{ok}
use expo_fastapi_todo.Platform.{Platform}
use expo_fastapi_todo.Database.Rows.{
  WorkflowRow, WorkflowActionRequestRow, AnalyticsEventRow, Table,
}
use expo_fastapi_todo.Database.Transaction.{Database, pure, lift, steps, after, lift-eq-ok}
use expo_fastapi_todo.Analytics.Events.{event_row}
use expo_fastapi_todo.Analytics.Events.Laws.{record_event_lem}
use expo_fastapi_todo.Workflow.Domain.{
  Uuid, CreatedTodo, WorkflowState, completed, WorkflowSnapshot, TransitionDecision,
}
use expo_fastapi_todo.Workflow.Record.{snapshot_to_record}
use expo_fastapi_todo.Workflow.RowSnapshot.{snapshot_from_row}
use expo_fastapi_todo.Workflow.Store.{
  is_workflow, find_workflow, insert_action_request, action_insertable,
}
use expo_fastapi_todo.Workflow.Service.{
  AdvanceRequest, create_todos, update_workflow_row, is_current, record_completed, decided_row,
  completion_of, apply_decision,
}
use expo_fastapi_todo.Workflow.Service.Steps.{
  CreatesTodos, create_todos_lem, with_workflows, update_workflow_row_lem, todo_rows,
}

abbrev pub action_row :
    Platform → AdvanceRequest → Text → WorkflowSnapshot → WorkflowActionRequestRow
action_row p request fingerprint accepted = record {
  owner_id = request.owner_id;
  workflow_id = request.workflow_id;
  request_id = request.request_id;
  request_fingerprint = fingerprint;
  accepted_snapshot = snapshot_to_record p accepted;
}

-- The events that an action adds: one if it completes its workflow.
abbrev pub completed_events :
    ℕ → Uuid → AdvanceRequest → Uuid → ℕ → WorkflowState → List AnalyticsEventRow
completed_events now event_id request user_key next completed =
    event_row now event_id (codes "workflow_completed") (some request.workflow_id) none user_key
      next
    ∷ []
completed_events now event_id request user_key next _ = []

record_completed_lem :
    (now : ℕ) (event_id : Uuid) (request : AdvanceRequest) (state : WorkflowState) (db : Database)
    {db' : Database}
    → record_completed now event_id request state db ≡ ok (tt, db')
    → (user_key : Uuid) × (db'.events.rows
        ≡ db.events.rows ++ completed_events now event_id request user_key db.events.next_id state)
      × (db' ≡ record db { events = db'.events })
unfolding record_completed
record_completed_lem now event_id request completed db h =
    let (user, e, known, written) =
      record_event_lem now event_id (codes "workflow_completed") request.owner_id
        (some request.workflow_id) none db h in
    (user.public_id, ground arith, ground arith)
record_completed_lem now event_id request _ db h =
    (0, ground (arith, append-nil db.events.rows), ground arith)

insert_action_request_lem :
    (row : WorkflowActionRequestRow) (db : Database) {db' : Database}
    → insert_action_request row db ≡ ok (tt, db')
    → (action_insertable row db ≡ true)
      × (db' ≡ record db { action_requests = db.action_requests ++ row ∷ [] })
unfolding insert_action_request
insert_action_request_lem row db h = ground arith

-- What `apply_decision` has done once it returns.
pub record Applied (p : Platform) (now : ℕ) (draw : ℕ → Uuid) (request : AdvanceRequest)
    (fingerprint : Text) (row : WorkflowRow) (decision : TransitionDecision) (db : Database)
    (accepted : WorkflowSnapshot) (db' : Database) : Type 0 where
  pub created : List CreatedTodo
  pub titled : map (λ t. t.title) created ≡ decision.todo_titles_to_create
  pub undone : All (λ t. t.completed ≡ false) created
  pub todos :
      db'.todos.rows
      ≡ db.todos.rows
        ++ todo_rows draw request.owner_id db.todos.next_id 0 decision.todo_titles_to_create
  pub read :
      snapshot_from_row p
        (decided_row decision (completion_of p decision.todo_titles_to_create created) row)
      ≡ ok accepted
  pub workflows :
      db'.workflows.rows
      ≡ update_where
          (is_current request)
          (decided_row decision (completion_of p decision.todo_titles_to_create created))
          db.workflows.rows
  pub actions :
      db'.action_requests ≡ db.action_requests ++ action_row p request fingerprint accepted ∷ []
  pub only : select (is_current request) db.workflows.rows ≡ row ∷ []
  pub user_key : Uuid
  pub events :
      db'.events.rows
      ≡ db.events.rows
        ++ completed_events now
            (draw (length decision.todo_titles_to_create))
            request
            user_key
            db.events.next_id
            decision.state
  pub users : db'.users ≡ db.users
  pub start_requests : db'.start_requests ≡ db.start_requests
  pub suggestions : db'.suggestions ≡ db.suggestions

abbrev pub change_of : Platform → TransitionDecision → List CreatedTodo → WorkflowRow → WorkflowRow
change_of p decision created =
    decided_row decision (completion_of p decision.todo_titles_to_create created)

module _ (p : Platform) (now : ℕ) (draw : ℕ → Uuid) (request : AdvanceRequest) (fingerprint : Text)
    (decision : TransitionDecision) (db : Database) {accepted : WorkflowSnapshot}
    {db' : Database} where
  -- the databases between the steps, joined
  Applied-of :
      {row : WorkflowRow} (created : List CreatedTodo) (db1 db2 db3 : Database) (row' : WorkflowRow)
      (user_key : Uuid)
      → CreatesTodos draw request.owner_id 0 decision.todo_titles_to_create db created db1
      → row' ≡ change_of p decision created row
      → db2 ≡ with_workflows request (change_of p decision created) db1
      → select (is_current request) db1.workflows.rows ≡ row ∷ []
      → db3.events.rows
        ≡ db2.events.rows
          ++ completed_events now
              (draw (length decision.todo_titles_to_create))
              request
              user_key
              db2.events.next_id
              decision.state
      → db3 ≡ record db2 { events = db3.events }
      → snapshot_from_row p row' ≡ ok accepted
      → db' ≡ record db3 {
        action_requests = db3.action_requests ++ action_row p request fingerprint accepted ∷ [];
      }
      → Applied p now draw request fingerprint row decision db accepted db'
  Applied-of created db1 db2 db3 row' user_key c er e2 picked ev e3 read e' = record {
    created = created;
    titled = c.titled;
    undone = c.undone;
    todos =
        ap (λ d. d.todos.rows) e' ∙ ap (λ d. d.todos.rows) e3 ∙ ap (λ d. d.todos.rows) e2 ∙ c.rows;
    read = rw (← er) read;
    workflows =
        ap (λ d. d.workflows.rows) e'
        ∙ ap (λ d. d.workflows.rows) e3
        ∙ ap (λ d. d.workflows.rows) e2
        ∙ ap (λ t. update_where (is_current request) (change_of p decision created) t.rows)
            c.only.workflows;
    actions =
        ap (λ d. d.action_requests) e'
        ∙ ap (λ t. t ++ action_row p request fingerprint accepted ∷ [])
            (ap (λ d. d.action_requests) e3
              ∙ ap (λ d. d.action_requests) e2
              ∙ c.only.action_requests);
    only = ap (λ t. select (is_current request) t.rows) (sym c.only.workflows) ∙ picked;
    user_key = user_key;
    events =
        ap (λ d. d.events.rows) e'
        ∙ ev
        ∙ ap
            (λ (t : Table AnalyticsEventRow).
              t.rows
              ++ completed_events now (draw (length decision.todo_titles_to_create)) request
                  user_key t.next_id decision.state)
            (ap (λ d. d.events) e2 ∙ c.only.events);
    users = ap (λ d. d.users) e' ∙ ap (λ d. d.users) e3 ∙ ap (λ d. d.users) e2 ∙ c.only.users;
    start_requests =
        ap (λ d. d.start_requests) e'
        ∙ ap (λ d. d.start_requests) e3
        ∙ ap (λ d. d.start_requests) e2
        ∙ c.only.start_requests;
    suggestions =
        ap (λ d. d.suggestions) e'
        ∙ ap (λ d. d.suggestions) e3
        ∙ ap (λ d. d.suggestions) e2
        ∙ c.only.suggestions;
  }

  stored_of :
      (row' : WorkflowRow) (snapshot : WorkflowSnapshot) (db3 db4 db5 : Database)
      → lift (snapshot_from_row p row') db3 ≡ ok (snapshot, db4)
      → insert_action_request (action_row p request fingerprint snapshot) db4 ≡ ok (tt, db5)
      → pure snapshot db5 ≡ ok (accepted, db')
      → (snapshot_from_row p row' ≡ ok accepted)
        × (db' ≡ record db3 {
          action_requests = db3.action_requests ++ action_row p request fingerprint accepted ∷ [];
        })
  stored_of row' snapshot db3 db4 db5 e stored done =
      let (read, same) = lift-eq-ok (snapshot_from_row p row') db3 e in
      let written =
        (insert_action_request_lem (action_row p request fingerprint snapshot) db4 stored).1 in
      let this : snapshot ≡ accepted = cc done in (rw (← this) read, cc (done, this, same, written))

  pub apply_decision_lem :
      {row : WorkflowRow}
      → find_workflow request.workflow_id request.owner_id db ≡ some row
      → row.revision ≡ request.expected_revision
      → apply_decision p now draw request fingerprint decision db ≡ ok (accepted, db')
      → Applied p now draw request fingerprint row decision db accepted db'
  unfolding apply_decision find_workflow
  apply_decision_lem {row} found same h =
      elim (steps (create_todos draw request.owner_id 0 decision.todo_titles_to_create) _ db h) [
        | after created db1 made h1 ↦
            elim (steps (update_workflow_row request (change_of p decision created)) _ db1 h1) [
              | after row' db2 updated h2 ↦
                  elim (steps
                    (record_completed now (draw (length decision.todo_titles_to_create)) request
                      decision.state)
                    _ db2 h2) [
                      | after _ db3 told h3 ↦
                          elim (steps (lift (snapshot_from_row p row')) _ db3 h3) [
                            | after snapshot db4 e h4 ↦
                                elim (steps
                                  (insert_action_request
                                    (action_row p request fingerprint snapshot))
                                  _ db4 h4) [
                                    | after _ db5 stored done ↦
                                        let c =
                                          create_todos_lem draw request.owner_id 0
                                            decision.todo_titles_to_create db made in
                                        let (changed, written, picked) =
                                          update_workflow_row_lem request
                                            (change_of p decision created) db1 {row = row}
                                            (ap
                                                (λ t.
                                                  find
                                                    (is_workflow request.workflow_id
                                                      request.owner_id)
                                                    t.rows)
                                                c.only.workflows
                                              ∙ found)
                                            same updated in
                                        let (user_key, events, rest) =
                                          record_completed_lem now
                                            (draw (length decision.todo_titles_to_create)) request
                                            decision.state db2 told in
                                        let (read, last) =
                                          stored_of row' snapshot db3 db4 db5 e stored done in
                                        Applied-of created db1 db2 db3 row' user_key c changed
                                          written picked events rest read last
                                  ]
                          ]
                    ]
            ]
      ]
