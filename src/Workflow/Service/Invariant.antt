-- ===== src/Workflow/Service/Invariant.antt =====
-- The stored workflows stay readable and valid, and no workflow takes more than four commands
-- (workflow_service.py).
use expo_fastapi_todo.Prelude.{
  ℕ, ◌+◌, ◌≡◌, ◌≤◌, sym, ap, ◌∙◌, subst, Bool, Option, some, List, [], ◌∷◌, Text, select,
  update_where, All, All-find, arith, inl, inr, Bool-cases,
}
use expo_fastapi_todo.Result.{ok, ok-injective}
use expo_fastapi_todo.Platform.{Platform, IsPlatform}
use expo_fastapi_todo.Database.Rows.{WorkflowRow}
use expo_fastapi_todo.Database.Transaction.{Database}
use expo_fastapi_todo.Workflow.Domain.{WorkflowSnapshot}
use expo_fastapi_todo.Workflow.Domain.Graph.{steps_left, transition-Edge, steps_left-Edge}
use expo_fastapi_todo.Workflow.Domain.Validity.{IsCommand}
use expo_fastapi_todo.Workflow.Record.Valid.{IsValid}
use expo_fastapi_todo.Workflow.RowSnapshot.{snapshot_from_row}
use expo_fastapi_todo.Workflow.Store.{is_workflow, find_workflow}
use expo_fastapi_todo.Workflow.Service.{AdvanceRequest, is_current, advance_workflow}
use expo_fastapi_todo.Workflow.Service.Accepted.{change_of}
use expo_fastapi_todo.Workflow.Service.Outcome.{missing, replayed, fresh, advance-Outcome}
use expo_fastapi_todo.Workflow.Service.NewAction.{NewAction}
use expo_fastapi_todo.Workflow.Service.Decided.{
  read_decided, decided-IsValid, snapshot_from_row-ReadsRow, decided_snapshot,
}

-- A row that reads as a valid snapshot; its revision counts the commands it has taken.
pub record RowIsValid (p : Platform) (row : WorkflowRow) : Type 0 where
  pub snapshot : WorkflowSnapshot
  pub read : snapshot_from_row p row ≡ ok snapshot
  pub valid : IsValid snapshot
  pub steps : row.revision + steps_left snapshot.state ≤ 4

abbrev pub WorkflowsValid : Platform → Database → Type 0
WorkflowsValid p db = All (RowIsValid p) db.workflows.rows

module _ {p : Platform} (laws : IsPlatform p) (request : AdvanceRequest)
    (ok_command : IsCommand request.command) where
  module _ {now : ℕ} {draw : ℕ → ℕ} {fingerprint : Text} {row : WorkflowRow} {db : Database}
      {accepted : WorkflowSnapshot} {db' : Database} (v : RowIsValid p row)
      (a : NewAction p now draw request fingerprint row db accepted db') where
    abbrev created_row : WorkflowRow
    created_row = change_of p a.decision a.applied.created row

    pub accepted-eq : accepted ≡ decided_snapshot a.decision a.applied.created row
    accepted-eq =
        ok-injective (sym a.applied.read ∙ read_decided laws a.decision a.applied.created row)

    pub same_snapshot : v.snapshot ≡ a.snapshot
    same_snapshot = ok-injective (sym v.read ∙ a.read)

    -- A new action on a valid row returns a valid snapshot.
    pub accepted-IsValid : IsValid accepted
    accepted-IsValid = rw accepted-eq (
        decided-IsValid row a.snapshot request.command a.decision a.applied.created
          (snapshot_from_row-ReadsRow p row a.read) (subst IsValid same_snapshot v.valid) ok_command
          a.decided (omega (arith, v.steps)) a.applied.titled a.applied.undone)

    pub accepted_steps : row.revision + 1 + steps_left a.decision.state ≤ 4
    accepted_steps = omega (
      arith,
      v.steps,
      ap (λ (t : WorkflowSnapshot). steps_left t.state) same_snapshot,
      steps_left-Edge (transition-Edge a.snapshot request.command a.decided),
    )

    -- The row that it writes is valid again.
    pub changed-RowIsValid : RowIsValid p (change_of p a.decision a.applied.created row)
    changed-RowIsValid = record {
      snapshot = accepted;
      read = a.applied.read;
      valid = accepted-IsValid;
      steps =
          omega
            (arith, accepted_steps, ap (λ (t : WorkflowSnapshot). steps_left t.state) accepted-eq);
    }

All-update_none :
    (P : WorkflowRow → Type 0) (current : WorkflowRow → Bool) (change : WorkflowRow → WorkflowRow)
    (rows : List WorkflowRow)
    → All P rows
    → select current rows ≡ []
    → All P (update_where current change rows)
All-update_none P current change [] all empty = tt
All-update_none P current change (x ∷ xs) all empty = elim (Bool-cases (current x)) [
  | inl hit ↦ absurd (cc (rw hit at empty))
  | inr miss ↦ rw miss (all.0, All-update_none P current change xs all.1 (rw miss at empty))
]

pub find-RowIsValid :
    {p : Platform} (request : AdvanceRequest) (db : Database) {row : WorkflowRow}
    → WorkflowsValid p db
    → find_workflow request.workflow_id request.owner_id db ≡ some row
    → RowIsValid p row
unfolding find_workflow
find-RowIsValid {p} request db v found =
    All-find (RowIsValid p) (is_workflow request.workflow_id request.owner_id) db.workflows.rows v
      found

-- An update that selects one row keeps what holds of every row, if it holds of the new row.
pub All-update_one :
    (P : WorkflowRow → Type 0) (current : WorkflowRow → Bool) (change : WorkflowRow → WorkflowRow)
    (rows : List WorkflowRow) {row : WorkflowRow}
    → All P rows
    → select current rows ≡ row ∷ []
    → P (change row)
    → All P (update_where current change rows)
All-update_one P current change [] all one new = tt
All-update_one P current change (x ∷ xs) {row} all one new = elim (Bool-cases (current x)) [
  | inl hit ↦
      let one' : x ∷ select current xs ≡ row ∷ [] = rw hit at one in
      let this : x ≡ row = cc one' in
      let rest : select current xs ≡ [] = cc one' in
      rw hit (rw this new, All-update_none P current change xs all.1 rest)
  | inr miss ↦
      let one' : select current xs ≡ row ∷ [] = rw miss at one in
      rw miss (all.0, All-update_one P current change xs all.1 one' new)
]

-- After an action of a well-formed command, every stored workflow still reads as a valid snapshot,
-- and its revision and the commands it can still take come to at most four.
pub advance-WorkflowsValid :
    {p : Platform} (laws : IsPlatform p) (now : ℕ) (draw : ℕ → ℕ) (request : AdvanceRequest)
    (db : Database) {result : Option WorkflowSnapshot} {db' : Database}
    → IsCommand request.command
    → WorkflowsValid p db
    → advance_workflow p now draw request db ≡ ok (result, db')
    → WorkflowsValid p db'
advance-WorkflowsValid {p} laws now draw request db {result} {db'} ok_command v h =
    elim (advance-Outcome p now draw request db h) [
      | missing _ _ same ↦ rw same v
      | replayed _ _ _ _ _ _ _ _ _ _ same ↦ rw same v
      | fresh row fingerprint accepted found _ _ a _ ↦ rw a.applied.workflows (
          All-update_one (RowIsValid p) (is_current request)
            (change_of p a.decision a.applied.created) db.workflows.rows v a.applied.only
            (changed-RowIsValid laws request ok_command (find-RowIsValid request db v found) a))
    ]
