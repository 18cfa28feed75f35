-- ===== src/Workflow/Service/Outcome.antt =====
-- The three ways in which a call of `advance_workflow` returns (workflow_service.py).
use mathlib.Core.Path.{subst₂}
use expo_fastapi_todo.Prelude.{
  ℕ, ◌≡◌, refl, Option, none, some, Text, inl, inr, Bool-cases, Option-cases, text_eq,
  text_eq_sound,
}
use expo_fastapi_todo.Result.{ok}
use expo_fastapi_todo.Platform.{Platform}
use expo_fastapi_todo.Database.Rows.{WorkflowRow, WorkflowActionRequestRow}
use expo_fastapi_todo.Database.Transaction.{Database, steps, after, lift, lift-eq-ok}
use expo_fastapi_todo.Workflow.Domain.{WorkflowSnapshot}
use expo_fastapi_todo.Workflow.Record.{snapshot_from_record}
use expo_fastapi_todo.Workflow.Fingerprint.{action_fingerprint}
use expo_fastapi_todo.Workflow.Store.{find_workflow, find_action_request}
use expo_fastapi_todo.Workflow.Service.{
  AdvanceRequest, replay_action, advance_row, advance_found, advance_workflow,
}
use expo_fastapi_todo.Workflow.Service.NewAction.{NewAction, new_action_lem}

-- How a call of `advance_workflow` that returns has gone.
pub data Outcome (p : Platform) (now : ℕ) (draw : ℕ → ℕ) (request : AdvanceRequest) (db : Database)
    (result : Option WorkflowSnapshot) (db' : Database) : Type 0 where
  missing :
      find_workflow request.workflow_id request.owner_id db ≡ none
      → result ≡ none
      → db' ≡ db
      → Outcome p now draw request db result db'
  replayed :
      (row : WorkflowRow) (existing : WorkflowActionRequestRow) (fingerprint : Text)
      (accepted : WorkflowSnapshot)
      → find_workflow request.workflow_id request.owner_id db ≡ some row
      → find_action_request request.owner_id request.workflow_id request.request_id db
        ≡ some existing
      → action_fingerprint p request.workflow_id request.expected_revision request.step_id
          request.command
        ≡ ok fingerprint
      → existing.request_fingerprint ≡ fingerprint
      → snapshot_from_record p existing.accepted_snapshot ≡ ok accepted
      → result ≡ some accepted
      → db' ≡ db
      → Outcome p now draw request db result db'
  fresh :
      (row : WorkflowRow) (fingerprint : Text) (accepted : WorkflowSnapshot)
      → find_workflow request.workflow_id request.owner_id db ≡ some row
      → find_action_request request.owner_id request.workflow_id request.request_id db ≡ none
      → action_fingerprint p request.workflow_id request.expected_revision request.step_id
          request.command
        ≡ ok fingerprint
      → NewAction p now draw request fingerprint row db accepted db'
      → result ≡ some accepted
      → Outcome p now draw request db result db'

module _ (p : Platform) (now : ℕ) (draw : ℕ → ℕ) (request : AdvanceRequest) where
  replay_action_lem :
      (fingerprint : Text) (existing : WorkflowActionRequestRow) (db : Database)
      {accepted : WorkflowSnapshot} {db' : Database}
      → replay_action p fingerprint existing db ≡ ok (accepted, db')
      → (existing.request_fingerprint ≡ fingerprint)
        × (snapshot_from_record p existing.accepted_snapshot ≡ ok accepted)
        × (db' ≡ db)
  unfolding replay_action
  replay_action_lem fingerprint existing db h =
      elim (Bool-cases (text_eq existing.request_fingerprint fingerprint)) [
        | inl same ↦
            let (read, kept) =
              lift-eq-ok (snapshot_from_record p existing.accepted_snapshot) db (rw same at h) in
            (text_eq_sound existing.request_fingerprint fingerprint same, read, kept)
        | inr other ↦ absurd (cc (rw other at h))
      ]

  row-Outcome :
      (fingerprint : Text) (row : WorkflowRow) (db : Database) (accepted : WorkflowSnapshot)
      {db' : Database}
      → find_workflow request.workflow_id request.owner_id db ≡ some row
      → action_fingerprint p request.workflow_id request.expected_revision request.step_id
          request.command
        ≡ ok fingerprint
      → advance_row p now draw request fingerprint row db ≡ ok (accepted, db')
      → Outcome p now draw request db (some accepted) db'
  unfolding advance_row
  row-Outcome fingerprint row db accepted found fp h =
      elim (Option-cases
        (find_action_request request.owner_id request.workflow_id request.request_id db)) [
          | inl new ↦
              fresh row fingerprint accepted found new fp
                (new_action_lem p now draw request fingerprint row db found (rw new at h)) refl
          | inr (existing, old) ↦
              let (same, read, kept) = replay_action_lem fingerprint existing db (rw old at h) in
              replayed row existing fingerprint accepted found old fp same read refl kept
        ]

  found-Outcome :
      (fingerprint : Text) (found : Option WorkflowRow) (db : Database)
      {result : Option WorkflowSnapshot} {db' : Database}
      → find_workflow request.workflow_id request.owner_id db ≡ found
      → action_fingerprint p request.workflow_id request.expected_revision request.step_id
          request.command
        ≡ ok fingerprint
      → advance_found p now draw request fingerprint found db ≡ ok (result, db')
      → Outcome p now draw request db result db'
  unfolding advance_found
  found-Outcome fingerprint none db e fp h = missing e (cc h) (cc h)
  found-Outcome fingerprint (some row) db {result} {db'} e fp h =
      elim (steps (advance_row p now draw request fingerprint row) _ db h) [
        | after accepted db1 ran done ↦
            let this : some accepted ≡ result = cc done in
            let kept : db1 ≡ db' = cc done in
            subst₂ (λ r d. Outcome p now draw request db r d) this kept
              (row-Outcome fingerprint row db accepted e fp ran)
      ]

  pub advance-Outcome :
      (db : Database) {result : Option WorkflowSnapshot} {db' : Database}
      → advance_workflow p now draw request db ≡ ok (result, db')
      → Outcome p now draw request db result db'
  unfolding advance_workflow
  advance-Outcome db h =
      elim (steps
        (lift (
          action_fingerprint p request.workflow_id request.expected_revision request.step_id
            request.command))
        _ db h) [
          | after fingerprint db1 e h1 ↦
              let (fp, same) =
                lift-eq-ok
                  (action_fingerprint p request.workflow_id request.expected_revision
                    request.step_id request.command)
                  db e in
              found-Outcome fingerprint (find_workflow request.workflow_id request.owner_id db) db
                refl fp (rw same at h1)
        ]
