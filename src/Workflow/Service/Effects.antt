-- ===== src/Workflow/Service/Effects.antt =====
-- What an action changes beside its workflow, and what it leaves alone (workflow_service.py).
use expo_fastapi_todo.Prelude.{
  ℕ, suc, ◌+◌, ◌≡◌, ◌≢◌, ◌⊎◌, refl, sym, ap, ◌∙◌, subst, Bool, true, false, Option, none, some,
  List, [], ◌∷◌, ◌++◌, Text, find, select, update_where, arith, inl, inr, Bool-cases, ◌==◌,
}
use mathlib.Core.Option
use expo_fastapi_todo.Result.{ok}
use expo_fastapi_todo.Platform.{Platform, IsPlatform}
use expo_fastapi_todo.Database.Rows.{TodoRow, WorkflowRow}
use expo_fastapi_todo.Database.Transaction.{Database}
use expo_fastapi_todo.Todos.{list_todos}
use expo_fastapi_todo.Workflow.Domain.{Uuid, WorkflowSnapshot}
use expo_fastapi_todo.Workflow.Domain.Validity.{Context, IsCommand, creates, transition-Decided}
use expo_fastapi_todo.Workflow.Store.{is_workflow, find_workflow, find_action_request}
use expo_fastapi_todo.Workflow.Service.{AdvanceRequest, is_current, advance_workflow}
use expo_fastapi_todo.Workflow.Service.Steps.{todo_rows}
use expo_fastapi_todo.Workflow.Service.Accepted.{change_of}
use expo_fastapi_todo.Workflow.Service.Outcome.{missing, replayed, fresh, advance-Outcome}
use expo_fastapi_todo.Workflow.Service.Invariant.{
  WorkflowsValid, find-RowIsValid, accepted-eq, same_snapshot,
}

find-update_other :
    (found current : WorkflowRow → Bool) (change : WorkflowRow → WorkflowRow)
    (rows : List WorkflowRow)
    → ((x : WorkflowRow) → current x ≡ true → found (change x) ≡ false)
    → ((x : WorkflowRow) → current x ≡ true → found x ≡ false)
    → find found (update_where current change rows) ≡ find found rows
find-update_other found current change [] new old = refl
find-update_other found current change (x ∷ xs) new old = elim (Bool-cases (current x)) [
  | inl hit ↦
      rw hit (rw (new x hit) (rw (old x hit) (find-update_other found current change xs new old)))
  | inr miss ↦ rw miss (rw (find-update_other found current change xs new old) refl)
]

select-append :
    (test : TodoRow → Bool) (xs ys : List TodoRow)
    → select test ys ≡ []
    → select test (xs ++ ys) ≡ select test xs
select-append test [] ys empty = empty
select-append test (x ∷ xs) ys empty = rw (select-append test xs ys empty) refl

todo_rows_foreign :
    (draw : ℕ → ℕ) (owner_id other next i : ℕ) (titles : List Text)
    → other ≢ owner_id
    → select (λ row. row.owner_id == other) (todo_rows draw owner_id next i titles) ≡ []
todo_rows_foreign draw owner_id other next i [] ne = refl
todo_rows_foreign draw owner_id other next i (t ∷ ts) ne =
    ground (arith, todo_rows_foreign draw owner_id other (next + 1) (suc i) ts)

-- A new action that is accepted adds todos exactly if it completes the workflow: then one incomplete
-- todo of the owner for each proposal of the accepted snapshot, in order, after the todos that were
-- there; otherwise none. It holds of valid stored workflows and a well-formed command.
pub advance_creates_todos :
    {p : Platform} (laws : IsPlatform p) (now : ℕ) (draw : ℕ → ℕ) (request : AdvanceRequest)
    (db : Database) {accepted : WorkflowSnapshot} {db' : Database}
    → IsCommand request.command
    → WorkflowsValid p db
    → find_action_request request.owner_id request.workflow_id request.request_id db ≡ none
    → advance_workflow p now draw request db ≡ ok (some accepted, db')
    → db'.todos.rows
      ≡ db.todos.rows
        ++ todo_rows draw request.owner_id db.todos.next_id 0
            (creates accepted.state accepted.proposed_todo_titles)
advance_creates_todos {p} laws now draw request db {accepted} {db'} ok_command v free h =
    elim (advance-Outcome p now draw request db h) [
      | missing _ nothing _ ↦ cc nothing
      | replayed _ existing _ _ _ stored _ _ _ _ _ ↦ cc (free, stored)
      | fresh row _ answer found _ _ a this ↦
          let valid = find-RowIsValid request db v found in
          let decided =
            transition-Decided a.snapshot request.command
              (subst
                (λ (s : WorkflowSnapshot).
                  Context s.state s.involves_multiple_steps s.title s.proposed_todo_titles)
                (same_snapshot laws request ok_command valid a) valid.valid.context)
              ok_command a.decided in
          let answer_eq = accepted-eq laws request ok_command valid a in
          let titles : a.decision.todo_titles_to_create
              ≡ creates accepted.state accepted.proposed_todo_titles =
            decided.created
            ∙ ap (λ (s : WorkflowSnapshot). creates s.state s.proposed_todo_titles)
                (sym (Option.some-injective accepted answer this ∙ answer_eq)) in
          rw (← titles) a.applied.todos
    ]

-- An action leaves every other workflow alone, be it the same user's or another's, and every todo
-- of another user.
pub advance_isolated :
    (p : Platform) (now : ℕ) (draw : ℕ → ℕ) (request : AdvanceRequest) (db : Database)
    {result : Option WorkflowSnapshot} {db' : Database} (workflow_id : Uuid) (owner_id : ℕ)
    → advance_workflow p now draw request db ≡ ok (result, db')
    → ((workflow_id ≢ request.workflow_id) ⊎ (owner_id ≢ request.owner_id)
        → find_workflow workflow_id owner_id db' ≡ find_workflow workflow_id owner_id db)
      × (owner_id ≢ request.owner_id
          → list_todos owner_id db'
            ≡ ok (select (λ row. row.owner_id == owner_id) db.todos.rows, db'))
unfolding find_workflow list_todos
advance_isolated p now draw request db {result} {db'} workflow_id owner_id h =
    elim (advance-Outcome p now draw request db h) [
      | missing _ _ same ↦ ((λ _. rw same refl), (λ _. rw same refl))
      | replayed _ _ _ _ _ _ _ _ _ _ same ↦ ((λ _. rw same refl), (λ _. rw same refl))
      | fresh row _ answer found _ _ a _ ↦ (
        (λ other. rw a.applied.workflows (
            find-update_other (is_workflow workflow_id owner_id) (is_current request)
              (change_of p a.decision a.applied.created) db.workflows.rows
              (λ x c. ground (arith, other)) (λ x c. ground (arith, other)))),
        (λ other.
            ap (λ rows. ok (rows, db'))
              (ap (select (λ row. row.owner_id == owner_id)) a.applied.todos
                ∙ select-append (λ row. row.owner_id == owner_id) db.todos.rows
                    (todo_rows draw request.owner_id db.todos.next_id 0
                      a.decision.todo_titles_to_create)
                    (todo_rows_foreign draw request.owner_id owner_id db.todos.next_id 0
                      a.decision.todo_titles_to_create other))),
      )
    ]
