-- ===== src/Workflow/Service/Idempotence.antt =====
-- Retried and competing actions (`advance_workflow` of workflow_service.py).
use mathlib.Core.Option
use expo_fastapi_todo.Prelude.{
  ℕ, ◌≡◌, ◌≢◌, refl, ap, sym, subst, Bool, true, none, some, List, [], ◌∷◌, ◌++◌, Text, find,
  update_where, arith, inl, inr, Bool-cases, find_passes, find-append_some, text_eq_refl,
  text_eq_sound,
}
use expo_fastapi_todo.Result.{ok, err, request_id_reused, stale_workflow_step}
use expo_fastapi_todo.Platform.{Platform, IsPlatform}
use expo_fastapi_todo.Database.Rows.{WorkflowRow, WorkflowActionRequestRow}
use expo_fastapi_todo.Database.Transaction.{Database}
use expo_fastapi_todo.Workflow.Domain.{WorkflowSnapshot}
use expo_fastapi_todo.Workflow.Domain.Validity.{IsCommand}
use expo_fastapi_todo.Workflow.Record.{snapshot_from_record}
use expo_fastapi_todo.Workflow.Record.Roundtrip.{record_round_trip}
use expo_fastapi_todo.Workflow.Fingerprint.{action_fingerprint}
use expo_fastapi_todo.Workflow.Store.{is_workflow, is_action, find_workflow, find_action_request}
use expo_fastapi_todo.Workflow.Service.{
  AdvanceRequest, is_current, check_action, replay_action, new_action, advance_row, advance_found,
  advance_workflow,
}
use expo_fastapi_todo.Workflow.Service.Accepted.{change_of, action_row}
use expo_fastapi_todo.Workflow.Service.NewAction.{NewAction}
use expo_fastapi_todo.Workflow.Service.Outcome.{missing, replayed, fresh, advance-Outcome}
use expo_fastapi_todo.Workflow.Service.Invariant.{WorkflowsValid, find-RowIsValid, accepted-IsValid}

-- A search that found nothing finds the row that is added, if it fits.
find-append :
    (test : WorkflowActionRequestRow → Bool) (rows : List WorkflowActionRequestRow)
    (row : WorkflowActionRequestRow)
    → find test rows ≡ none
    → test row ≡ true
    → find test (rows ++ row ∷ []) ≡ some row
find-append test [] row e t = ground arith
find-append test (x ∷ xs) row e t = ground (arith, find-append test xs row)

-- The one row that an update changes is found after it, changed.
find-update_one :
    (found current : WorkflowRow → Bool) (change : WorkflowRow → WorkflowRow)
    (rows : List WorkflowRow) {row : WorkflowRow}
    → find found rows ≡ some row
    → current row ≡ true
    → ((x : WorkflowRow) → found (change x) ≡ found x)
    → find found (update_where current change rows) ≡ some (change row)
find-update_one found current change [] e c same = cc
find-update_one found current change (x ∷ xs) {row} e c same = elim (Bool-cases (found x)) [
  | inl f ↦
      let this : some x ≡ some row = rw f at e in
      let hit : current x ≡ true = ground (arith, this, c) in
      rw hit (rw (same x) (rw f (ap (λ o. Option.map change o) this)))
  | inr m ↦
      let rest : find found xs ≡ some row = rw m at e in
      elim (Bool-cases (current x)) [
        | inl hit ↦
            rw hit (rw (same x) (rw m (find-update_one found current change xs rest c same)))
        | inr miss ↦ rw miss (rw m (find-update_one found current change xs rest c same))
      ]
]

-- A stored request answers a call, whatever else the database holds, and writes nothing.
answered :
    (p : Platform) (now : ℕ) (draw : ℕ → ℕ) (request : AdvanceRequest) (db : Database)
    {row : WorkflowRow} {existing : WorkflowActionRequestRow} {fingerprint : Text}
    {accepted : WorkflowSnapshot}
    → find_workflow request.workflow_id request.owner_id db ≡ some row
    → find_action_request request.owner_id request.workflow_id request.request_id db ≡ some existing
    → action_fingerprint p request.workflow_id request.expected_revision request.step_id
        request.command
      ≡ ok fingerprint
    → existing.request_fingerprint ≡ fingerprint
    → snapshot_from_record p existing.accepted_snapshot ≡ ok accepted
    → advance_workflow p now draw request db ≡ ok (some accepted, db)
unfolding advance_workflow advance_found advance_row replay_action
answered p now draw request db {row} {existing} {fingerprint} found stored fp same read =
    rw fp (rw found (rw stored (rw same (rw (text_eq_refl fingerprint) (rw read refl)))))

module _ {p : Platform} {now : ℕ} {draw : ℕ → ℕ} (request : AdvanceRequest) {fingerprint : Text}
    {row : WorkflowRow} {db : Database} {accepted : WorkflowSnapshot} {db' : Database}
    (a : NewAction p now draw request fingerprint row db accepted db') where
  -- what a later call finds of an accepted action
  stored_after :
      find_action_request request.owner_id request.workflow_id request.request_id db ≡ none
      → find_action_request request.owner_id request.workflow_id request.request_id db'
        ≡ some (action_row p request fingerprint accepted)
  unfolding find_action_request
  stored_after free = rw a.applied.actions (
      find-append (is_action request.owner_id request.workflow_id request.request_id)
        db.action_requests (action_row p request fingerprint accepted) free (ground arith))

  row_after :
      find_workflow request.workflow_id request.owner_id db ≡ some row
      → find_workflow request.workflow_id request.owner_id db'
        ≡ some (change_of p a.decision a.applied.created row)
  unfolding find_workflow check_action
  row_after found = rw a.applied.workflows (
      find-update_one (is_workflow request.workflow_id request.owner_id) (is_current request)
        (change_of p a.decision a.applied.created) db.workflows.rows found
        (ground (
          arith,
          a.checked,
          find_passes (is_workflow request.workflow_id request.owner_id) db.workflows.rows found,
        ))
        (λ x. refl))

-- What an accepted call leaves: the workflow, and the request with the snapshot that was returned.
record Stored (p : Platform) (request : AdvanceRequest) (accepted : WorkflowSnapshot)
    (db : Database) : Type 0 where
  row : WorkflowRow
  existing : WorkflowActionRequestRow
  fingerprint : Text
  found : find_workflow request.workflow_id request.owner_id db ≡ some row
  stored :
      find_action_request request.owner_id request.workflow_id request.request_id db ≡ some existing
  printed :
      action_fingerprint p request.workflow_id request.expected_revision request.step_id
        request.command
      ≡ ok fingerprint
  same : existing.request_fingerprint ≡ fingerprint
  read : snapshot_from_record p existing.accepted_snapshot ≡ ok accepted

accepted-Stored :
    {p : Platform} (laws : IsPlatform p) (now : ℕ) (draw : ℕ → ℕ) (request : AdvanceRequest)
    (db db' : Database) {accepted : WorkflowSnapshot}
    → IsCommand request.command
    → WorkflowsValid p db
    → advance_workflow p now draw request db ≡ ok (some accepted, db')
    → Stored p request accepted db'
accepted-Stored {p} laws now draw request db db' {accepted} ok_command v h =
    elim (advance-Outcome p now draw request db h) [
      | missing _ nothing _ ↦ cc nothing
      | replayed row existing fingerprint answer found stored fp same read this kept ↦
          subst (λ (a : WorkflowSnapshot). Stored p request a db')
            (sym (Option.some-injective accepted answer this))
            (rw kept (record {
              row = row;
              existing = existing;
              fingerprint = fingerprint;
              found = found;
              stored = stored;
              printed = fp;
              same = same;
              read = read;
            }))
      | fresh row fingerprint answer found free fp a this ↦
          subst (λ (a : WorkflowSnapshot). Stored p request a db')
            (sym (Option.some-injective accepted answer this))
            (record {
              row = change_of p a.decision a.applied.created row;
              existing = action_row p request fingerprint answer;
              fingerprint = fingerprint;
              found = row_after request a found;
              stored = stored_after request a free;
              printed = fp;
              same = refl;
              read =
                  record_round_trip laws answer (
                    accepted-IsValid laws request ok_command (find-RowIsValid request db v found)
                      a);
            })
    ]

-- An accepted call that is made again at once returns the same snapshot and writes nothing.
pub advance_twice :
    {p : Platform} (laws : IsPlatform p) (now later : ℕ) (draw draw' : ℕ → ℕ)
    (request : AdvanceRequest) (db : Database) {accepted : WorkflowSnapshot} {db' : Database}
    → IsCommand request.command
    → WorkflowsValid p db
    → advance_workflow p now draw request db ≡ ok (some accepted, db')
    → advance_workflow p later draw' request db' ≡ ok (some accepted, db')
advance_twice {p} laws now later draw draw' request db {db' = db'} ok_command v h =
    let s = accepted-Stored laws now draw request db db' ok_command v h in
    answered p later draw' request db' s.found s.stored s.printed s.same s.read

action_still_stored :
    (owner_id : ℕ) (workflow_id request_id : ℕ) (db db' : Database)
    (more : List WorkflowActionRequestRow) {existing : WorkflowActionRequestRow}
    → find_action_request owner_id workflow_id request_id db ≡ some existing
    → db'.action_requests ≡ db.action_requests ++ more
    → find_action_request owner_id workflow_id request_id db' ≡ some existing
unfolding find_action_request
action_still_stored owner_id workflow_id request_id db db' more stored kept =
    rw kept
      (find-append_some (is_action owner_id workflow_id request_id) db.action_requests more stored)

-- A call of a well-formed command that was accepted, on a database whose stored workflows are valid, can be
-- repeated in every later database, at any time and with any other random draws: it returns the
-- snapshot that it returned before and writes nothing. In the later database the workflow still exists,
-- in whatever state, requests may have been added to the stored ones, and the rest is arbitrary.
pub advance_again :
    {p : Platform} (laws : IsPlatform p) (now later : ℕ) (draw draw' : ℕ → ℕ)
    (request : AdvanceRequest) (db db' db'' : Database) (more : List WorkflowActionRequestRow)
    (row : WorkflowRow) {accepted : WorkflowSnapshot}
    → IsCommand request.command
    → WorkflowsValid p db
    → advance_workflow p now draw request db ≡ ok (some accepted, db')
    → db''.action_requests ≡ db'.action_requests ++ more
    → find_workflow request.workflow_id request.owner_id db'' ≡ some row
    → advance_workflow p later draw' request db'' ≡ ok (some accepted, db'')
advance_again {p} laws now later draw draw' request db db' db'' more row ok_command v h kept found =
    let s = accepted-Stored laws now draw request db db' ok_command v h in
    answered p later draw' request db'' found
      (action_still_stored request.owner_id request.workflow_id request.request_id db' db'' more
        s.stored kept)
      s.printed s.same s.read

check_action_stale :
    (p : Platform) (request : AdvanceRequest) (row : WorkflowRow)
    → row.definition_version ≡ 1
    → request.expected_revision ≢ row.revision
    → check_action p request row ≡ err stale_workflow_step
unfolding check_action
check_action_stale p request row v other = ground arith

check_action-version :
    (p : Platform) (request : AdvanceRequest) (row : WorkflowRow)
    → check_action p request row ≡ ok tt
    → (row.definition_version ≡ 1) × (row.revision ≡ request.expected_revision)
unfolding check_action
check_action-version p request row h = ground arith

-- Of two actions on one revision of a workflow only one is accepted: once the first has been
-- accepted as a new one, the second, under a request id that is not stored, is refused as stale.
pub competing_actions :
    (p : Platform) (now later : ℕ) (draw draw' : ℕ → ℕ) (first second : AdvanceRequest)
    (db : Database) {accepted : WorkflowSnapshot} {fingerprint : Text} {db' : Database}
    → find_action_request first.owner_id first.workflow_id first.request_id db ≡ none
    → advance_workflow p now draw first db ≡ ok (some accepted, db')
    → second.owner_id ≡ first.owner_id
    → second.workflow_id ≡ first.workflow_id
    → second.expected_revision ≡ first.expected_revision
    → find_action_request second.owner_id second.workflow_id second.request_id db' ≡ none
    → action_fingerprint p second.workflow_id second.expected_revision second.step_id second.command
      ≡ ok fingerprint
    → advance_workflow p later draw' second db' ≡ err stale_workflow_step
unfolding advance_workflow advance_found advance_row new_action
competing_actions p now later draw draw' first second db {accepted} {fingerprint} {db'} free h owner
      workflow revision free' fp =
    elim (advance-Outcome p now draw first db h) [
      | missing _ nothing _ ↦ cc nothing
      | replayed _ existing _ _ _ stored _ _ _ _ _ ↦ cc (free, stored)
      | fresh row _ answer found _ _ a _ ↦
          let (version, base) = check_action-version p first row a.checked in
          let row' = change_of p a.decision a.applied.created row in
          let found' : find_workflow second.workflow_id second.owner_id db' ≡ some row' =
            rw (owner, workflow) (row_after first a found) in
          let stale = check_action_stale p second row' version (omega arith) in
          rw fp (rw found' (rw free' (rw stale refl)))
    ]

-- Once an action has been accepted as a new one, a later call under its request id whose payload has
-- another fingerprint is refused as a reuse of the id.
pub request_id_conflict :
    (p : Platform) (now later : ℕ) (draw draw' : ℕ → ℕ) (first second : AdvanceRequest)
    (db : Database) {accepted : WorkflowSnapshot} {fingerprint other : Text} {db' : Database}
    → find_action_request first.owner_id first.workflow_id first.request_id db ≡ none
    → advance_workflow p now draw first db ≡ ok (some accepted, db')
    → second.owner_id ≡ first.owner_id
    → second.workflow_id ≡ first.workflow_id
    → second.request_id ≡ first.request_id
    → action_fingerprint p first.workflow_id first.expected_revision first.step_id first.command
      ≡ ok fingerprint
    → action_fingerprint p second.workflow_id second.expected_revision second.step_id second.command
      ≡ ok other
    → fingerprint ≢ other
    → advance_workflow p later draw' second db' ≡ err request_id_reused
unfolding advance_workflow advance_found advance_row replay_action
request_id_conflict p now later draw draw' first second db {accepted} {fingerprint} {other} {db'}
      free h owner workflow request fp fp' differ =
    elim (advance-Outcome p now draw first db h) [
      | missing _ nothing _ ↦ cc nothing
      | replayed _ existing _ _ _ stored _ _ _ _ _ ↦ cc (free, stored)
      | fresh row used answer found _ this a _ ↦
          let found' : find_workflow second.workflow_id second.owner_id db'
              ≡ some (change_of p a.decision a.applied.created row) =
            rw (owner, workflow) (row_after first a found) in
          let stored' : find_action_request second.owner_id second.workflow_id second.request_id db'
              ≡ some (action_row p first used answer) =
            rw (owner, workflow, request) (stored_after first a free) in
          let same : used ≡ fingerprint = cc (this, fp) in
          rw fp' (rw found' (rw stored' (ground (arith, same, text_eq_sound used other, differ))))
    ]
