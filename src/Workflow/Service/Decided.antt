-- ===== src/Workflow/Service/Decided.antt =====
-- The snapshot that an accepted action returns, and that it is valid (workflow_service.py).
use expo_fastapi_todo.Prelude.{
  ◌+◌, ◌≡◌, ◌<◌, refl, ◌∙◌, subst, Bool, false, Option, none, some, List, [], ◌∷◌, map, Text, All,
  arith,
}
use expo_fastapi_todo.Result.{ok}
use expo_fastapi_todo.Title.Canonical.{Title}
use expo_fastapi_todo.Platform.{Platform, IsPlatform}
use expo_fastapi_todo.Database.Rows.{WorkflowRow}
use expo_fastapi_todo.Workflow.Domain.{
  CreatedTodo, WorkflowState, assess_task, offer_breakdown, collect_tasks, review, completed,
  cancelled, parse_state-state_value, WorkflowSnapshot, WorkflowCommand, TransitionDecision,
  transition, max_workflow_revision,
}
use expo_fastapi_todo.Workflow.Domain.Validity.{Context, creates, IsCommand, transition-Decided}
use expo_fastapi_todo.Workflow.Record.Valid.{IsValid, Created}
use expo_fastapi_todo.Workflow.Record.Stages.{Reviewed-not_empty}
use expo_fastapi_todo.Workflow.RowSnapshot.{
  created_from_stored, created_from_result, snapshot_from_row, stored_todo,
}
use expo_fastapi_todo.Workflow.Service.{decided_row, completion_of}

abbrev pub created_of : List Text → List CreatedTodo → Option (List CreatedTodo)
created_of [] created = none
created_of (_ ∷ _) created = some created

-- The row after a decision, as a snapshot.
abbrev pub decided_snapshot : TransitionDecision → List CreatedTodo → WorkflowRow → WorkflowSnapshot
decided_snapshot decision created row = record {
  id = row.public_id;
  state = decision.state;
  title = row.title;
  involves_multiple_steps = decision.involves_multiple_steps;
  proposed_todo_titles = decision.proposed_todo_titles;
  created_todos = created_of decision.todo_titles_to_create created;
  revision = row.revision + 1;
  definition_version = row.definition_version;
}

module _ {p : Platform} (laws : IsPlatform p) where
  created_from_stored-stored_todo :
      (created : List CreatedTodo)
      → created_from_stored p (map (stored_todo p) created) ≡ ok created
  unfolding created_from_stored
  created_from_stored-stored_todo [] = refl
  created_from_stored-stored_todo (t ∷ ts) =
      rw (laws.uuid_round_trip t.id, created_from_stored-stored_todo ts)

  created_from_result-completion_of :
      (titles : List Text) (created : List CreatedTodo)
      → created_from_result p (completion_of p titles created) ≡ ok (created_of titles created)
  unfolding created_from_result
  created_from_result-completion_of [] created = refl
  created_from_result-completion_of (t ∷ ts) created = rw (created_from_stored-stored_todo created)

  pub read_decided :
      (decision : TransitionDecision) (created : List CreatedTodo) (row : WorkflowRow)
      → snapshot_from_row p
          (decided_row decision (completion_of p decision.todo_titles_to_create created) row)
        ≡ ok (decided_snapshot decision created row)
  unfolding snapshot_from_row
  read_decided decision created row =
      rw (created_from_result-completion_of decision.todo_titles_to_create created)
        (rw (parse_state-state_value decision.state))

-- What a row's snapshot has from the row.
pub record ReadsRow (row : WorkflowRow) (s : WorkflowSnapshot) : Type 0 where
  pub id : s.id ≡ row.public_id
  pub title : s.title ≡ row.title
  pub answer : s.involves_multiple_steps ≡ row.involves_multiple_steps
  pub proposals : s.proposed_todo_titles ≡ row.proposed_todo_titles
  pub revision : s.revision ≡ row.revision
  pub version : s.definition_version ≡ row.definition_version

pub snapshot_from_row-ReadsRow :
    (p : Platform) (row : WorkflowRow) {s : WorkflowSnapshot}
    → snapshot_from_row p row ≡ ok s
    → ReadsRow row s
unfolding snapshot_from_row
snapshot_from_row-ReadsRow p row h = ground arith

-- Proposals that fit their state are canonical.
Context-titles :
    (st : WorkflowState) (f : Option Bool) (t : Text) (ps : List Text)
    → Title t
    → Context st f t ps
    → All Title ps
Context-titles assess_task f t ps c v = ground arith
Context-titles offer_breakdown f t ps c v = ground arith
Context-titles collect_tasks f t ps c v = ground arith
Context-titles review f t ps c v = ground arith
Context-titles completed f t ps c v = ground arith
Context-titles cancelled f t ps c v = ground arith

Created-fits :
    (st : WorkflowState) (f : Option Bool) (t : Text) (ps todo_titles : List Text)
    (created : List CreatedTodo)
    → Context st f t ps
    → todo_titles ≡ creates st ps
    → map (λ t. t.title) created ≡ todo_titles
    → All (λ t. t.completed ≡ false) created
    → Created st (created_of todo_titles created) ps
Created-fits completed f t [] todo_titles created v e titled undone =
    absurd (cc (Reviewed-not_empty f t [] v))
Created-fits completed f t (q ∷ qs) todo_titles created v e titled undone =
    (created, rw e, titled ∙ e, undone)
Created-fits _ f t ps todo_titles created v e titled undone = rw e

-- From a valid snapshot of a row below the last revision, an accepted command leads to a valid one.
pub decided-IsValid :
    (row : WorkflowRow) (s : WorkflowSnapshot) (c : WorkflowCommand) (d : TransitionDecision)
    (created : List CreatedTodo)
    → ReadsRow row s
    → IsValid s
    → IsCommand c
    → transition s c ≡ ok d
    → row.revision < max_workflow_revision
    → map (λ t. t.title) created ≡ d.todo_titles_to_create
    → All (λ t. t.completed ≡ false) created
    → IsValid (decided_snapshot d created row)
decided-IsValid row s c d created reads v ok_command accepted room titled undone =
    let decided = transition-Decided s c v.context ok_command accepted in
    let title = subst Title reads.title v.title in
    let context =
      subst (λ t. Context d.state d.involves_multiple_steps t d.proposed_todo_titles) reads.title
        decided.context in
    record {
      title = title;
      proposals =
          Context-titles d.state d.involves_multiple_steps row.title d.proposed_todo_titles title
            context;
      context = context;
      created =
          Created-fits d.state d.involves_multiple_steps row.title d.proposed_todo_titles
            d.todo_titles_to_create created context decided.created titled undone;
      revision = omega arith;
      version = rw (← reads.version) v.version;
    }
