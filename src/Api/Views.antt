-- ===== src/Api/Views.antt =====
-- The views of apps/api/app/workflow_presentation.py, and the response of apps/api/app/main.py that
-- holds one.
pub mod Offers
use expo_fastapi_todo.Prelude.{ℕ, Bool, Option, none, some, List, [], ◌∷◌, Text, codes}
use expo_fastapi_todo.Platform.{Platform}
use expo_fastapi_todo.Database.Rows.{TodoRow, is_completed}
use expo_fastapi_todo.Workflow.Domain.{
  Uuid, WorkflowState, assess_task, offer_breakdown, collect_tasks, review, completed, cancelled,
  state_value, CreatedTodo, WorkflowSnapshot, min_breakdown_titles, max_breakdown_titles,
}
use expo_fastapi_todo.Workflow.StepId.{current_step_id}

pub record Choice : Type 0 where
  pub id : Text
  pub label : Text

pub data WorkflowView : Type 0 where
  -- the step, the title, the question, the actions
  yes_no : Text → Text → Text → List Choice → WorkflowView
  -- the step, the title, the least and the greatest number of titles
  task_breakdown : Text → Text → ℕ → ℕ → WorkflowView
  -- the step, the title, the proposed titles
  review_view : Text → Text → List Text → WorkflowView
  -- the step, the title, the outcome, the created todos
  completion : Text → Text → Text → List CreatedTodo → WorkflowView

abbrev pub yes_no_actions : List Choice
yes_no_actions =
    record { id = codes "yes"; label = codes "Yes" }
    ∷ record { id = codes "no"; label = codes "No" }
    ∷ []

-- `snapshot.created_todos or ()`
abbrev pub or_empty : Option (List CreatedTodo) → List CreatedTodo
or_empty none = []
or_empty (some items) = items

abbrev pub view_of : Text → WorkflowState → WorkflowSnapshot → WorkflowView
view_of step_id assess_task snapshot =
    yes_no step_id snapshot.title (codes "Does this task involve multiple steps?") yes_no_actions
view_of step_id offer_breakdown snapshot =
    yes_no step_id snapshot.title (codes "Would you like to split it into smaller todos?")
      yes_no_actions
view_of step_id collect_tasks snapshot =
    task_breakdown step_id (codes "Break it into smaller todos") min_breakdown_titles
      max_breakdown_titles
view_of step_id review snapshot =
    review_view step_id (codes "Review your plan") snapshot.proposed_todo_titles
view_of step_id completed snapshot =
    completion step_id (codes "Plan complete") (codes "completed") (or_empty snapshot.created_todos)
view_of step_id cancelled snapshot =
    completion step_id (codes "Plan cancelled") (codes "cancelled") []

unfoldable pub present_workflow : Platform → WorkflowSnapshot → WorkflowView
present_workflow p snapshot =
    view_of (current_step_id p snapshot.id (state_value snapshot.state)) snapshot.state snapshot

-- `Todo`
pub record Todo : Type 0 where
  pub id : Uuid
  pub title : Text
  pub completed : Bool

-- `as_todo`
abbrev pub as_todo : TodoRow → Todo
as_todo row = record { id = row.public_id; title = row.title; completed = is_completed row }

pub record TodoWorkflowResponse : Type 0 where
  pub workflow_id : Uuid
  pub revision : ℕ
  pub definition_version : ℕ
  pub view_contract_version : ℕ
  pub state : Text
  pub title : Text
  pub involves_multiple_steps : Option Bool
  pub proposed_todo_titles : List Text
  pub created_todos : Option (List CreatedTodo)
  pub view : WorkflowView

unfoldable pub as_workflow_response : Platform → WorkflowSnapshot → TodoWorkflowResponse
as_workflow_response p snapshot = record {
  workflow_id = snapshot.id;
  revision = snapshot.revision;
  definition_version = snapshot.definition_version;
  view_contract_version = 1;
  state = state_value snapshot.state;
  title = snapshot.title;
  involves_multiple_steps = snapshot.involves_multiple_steps;
  proposed_todo_titles = snapshot.proposed_todo_titles;
  created_todos = snapshot.created_todos;
  view = present_workflow p snapshot;
}
