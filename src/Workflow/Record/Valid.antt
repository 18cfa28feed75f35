-- ===== src/Workflow/Record/Valid.antt =====
-- The snapshots that the program produces.
use expo_fastapi_todo.Prelude.{◌≡◌, ◌≤◌, false, Option, none, some, List, map, Text, All}
use expo_fastapi_todo.Title.Canonical.{Title}
use expo_fastapi_todo.Workflow.Domain.{
  WorkflowState, completed, CreatedTodo, WorkflowSnapshot, max_workflow_revision,
}
use expo_fastapi_todo.Workflow.Domain.Validity.{Context}

-- A completed workflow has one todo for each proposal, none of them done; any other has none.
abbrev pub Created : WorkflowState → Option (List CreatedTodo) → List Text → Type 0
Created completed created proposals =
    (todos : List CreatedTodo) × (created ≡ some todos)
    × (map (λ t. t.title) todos ≡ proposals)
    × All (λ t. t.completed ≡ false) todos
Created _ created proposals = created ≡ none

pub record IsValid (s : WorkflowSnapshot) : Type 0 where
  pub title : Title s.title
  pub proposals : All Title s.proposed_todo_titles
  pub context : Context s.state s.involves_multiple_steps s.title s.proposed_todo_titles
  pub created : Created s.state s.created_todos s.proposed_todo_titles
  pub revision : s.revision ≤ max_workflow_revision
  pub version : 1 ≤ s.definition_version
