-- ===== src/Workflow/Domain.antt =====
-- apps/api/app/workflow_domain.py: the states, commands and transitions of a workflow.
pub mod Graph
pub mod Validity
use expo_fastapi_todo.Prelude.{
  ℕ, ◌≡◌, refl, Bool, true, false, not, ◌&&◌, ◌||◌, Option, none, some, List, [], ◌∷◌, length, leb,
  ◌==◌, Text, codes, if◌then◌else◌, text_eq,
}
use expo_fastapi_todo.Result.{
  Result, ok, err, invalid_workflow_action, terminal_workflow, invalid_workflow_input,
  unsupported_workflow_definition, or_raise, raise_if, ◌>>=◌, ◌>>◌,
}
use expo_fastapi_todo.Title.{canonicalize_title}

-- A `uuid.UUID` is its 128-bit number.
abbrev pub Uuid : Type 0
Uuid = ℕ

pub data WorkflowState : Type 0 where
  assess_task offer_breakdown collect_tasks review completed cancelled : WorkflowState

-- the `.value` of the `StrEnum`
unfoldable pub state_value : WorkflowState → Text
state_value assess_task = codes "ASSESS_TASK"
state_value offer_breakdown = codes "OFFER_BREAKDOWN"
state_value collect_tasks = codes "COLLECT_TASKS"
state_value review = codes "REVIEW"
state_value completed = codes "COMPLETED"
state_value cancelled = codes "CANCELLED"

-- `WorkflowState(text)`; `none` is its `ValueError`
unfoldable pub parse_state : Text → Option WorkflowState
parse_state text =
    if text_eq text (codes "ASSESS_TASK")
    then some assess_task
    else if text_eq text (codes "OFFER_BREAKDOWN")
    then some offer_breakdown
    else if text_eq text (codes "COLLECT_TASKS")
    then some collect_tasks
    else if text_eq text (codes "REVIEW")
    then some review
    else if text_eq text (codes "COMPLETED")
    then some completed
    else if text_eq text (codes "CANCELLED")
    then some cancelled
    else none

pub parse_state-state_value : (s : WorkflowState) → parse_state (state_value s) ≡ some s
unfolding parse_state state_value text_eq
parse_state-state_value assess_task = refl
parse_state-state_value offer_breakdown = refl
parse_state-state_value collect_tasks = refl
parse_state-state_value review = refl
parse_state-state_value completed = refl
parse_state-state_value cancelled = refl

abbrev pub max_workflow_revision : ℕ
max_workflow_revision = 2147483647

abbrev pub current_workflow_definition_version : ℕ
current_workflow_definition_version = 1

abbrev pub min_breakdown_titles : ℕ
min_breakdown_titles = 2

abbrev pub max_breakdown_titles : ℕ
max_breakdown_titles = 10

pub record CreatedTodo : Type 0 where
  pub id : Uuid
  pub title : Text
  pub completed : Bool

pub record WorkflowSnapshot : Type 0 where
  pub id : Uuid
  pub state : WorkflowState
  pub title : Text
  pub involves_multiple_steps : Option Bool
  pub proposed_todo_titles : List Text
  pub created_todos : Option (List CreatedTodo)
  pub revision : ℕ
  pub definition_version : ℕ

pub data WorkflowCommand : Type 0 where
  answer_multiple_steps : Bool → WorkflowCommand
  submit_tasks : List Text → WorkflowCommand
  confirm cancel : WorkflowCommand

pub record TransitionDecision : Type 0 where
  pub state : WorkflowState
  pub involves_multiple_steps : Option Bool
  pub proposed_todo_titles : List Text
  pub todo_titles_to_create : List Text

unfoldable pub create_initial_snapshot : Uuid → Text → Result WorkflowSnapshot
create_initial_snapshot workflow_id title = do
  canonical ← or_raise (canonicalize_title title) invalid_workflow_input
  ok (record {
    id = workflow_id;
    state = assess_task;
    title = canonical;
    involves_multiple_steps = none;
    proposed_todo_titles = [];
    created_todos = none;
    revision = 0;
    definition_version = current_workflow_definition_version;
  })

-- the loop of `create_submit_tasks`
unfoldable pub canonical_titles : List Text → Result (List Text)
canonical_titles [] = ok []
canonical_titles (title ∷ titles) = do
  canonical ← or_raise (canonicalize_title title) invalid_workflow_input
  rest ← canonical_titles titles
  ok (canonical ∷ rest)

unfoldable pub create_submit_tasks : List Text → Result (List Text)
create_submit_tasks titles = do
  canonical ← canonical_titles titles
  raise_if
      (not (
        leb min_breakdown_titles (length canonical) && leb (length canonical) max_breakdown_titles))
      invalid_workflow_input
  ok canonical

unfoldable pub cancelled_from : WorkflowSnapshot → TransitionDecision
cancelled_from snapshot = record {
  state = cancelled;
  involves_multiple_steps = snapshot.involves_multiple_steps;
  proposed_todo_titles = snapshot.proposed_todo_titles;
  todo_titles_to_create = [];
}

unfoldable pub is_terminal : WorkflowState → Bool
is_terminal completed = true
is_terminal cancelled = true
is_terminal _ = false

-- the `match` on the state, once the command is not `Cancel`
unfoldable pub dispatch :
    WorkflowState → WorkflowCommand → WorkflowSnapshot → Result TransitionDecision
dispatch assess_task (answer_multiple_steps true) snapshot = ok (record {
  state = offer_breakdown;
  involves_multiple_steps = some true;
  proposed_todo_titles = [];
  todo_titles_to_create = [];
})
dispatch assess_task (answer_multiple_steps false) snapshot = ok (record {
  state = review;
  involves_multiple_steps = some false;
  proposed_todo_titles = snapshot.title ∷ [];
  todo_titles_to_create = [];
})
dispatch assess_task _ snapshot = err invalid_workflow_action
dispatch offer_breakdown (answer_multiple_steps true) snapshot = ok (record {
  state = collect_tasks;
  involves_multiple_steps = snapshot.involves_multiple_steps;
  proposed_todo_titles = [];
  todo_titles_to_create = [];
})
dispatch offer_breakdown (answer_multiple_steps false) snapshot = ok (record {
  state = review;
  involves_multiple_steps = snapshot.involves_multiple_steps;
  proposed_todo_titles = snapshot.title ∷ [];
  todo_titles_to_create = [];
})
dispatch offer_breakdown _ snapshot = err invalid_workflow_action
dispatch collect_tasks (submit_tasks titles) snapshot = ok (record {
  state = review;
  involves_multiple_steps = snapshot.involves_multiple_steps;
  proposed_todo_titles = titles;
  todo_titles_to_create = [];
})
dispatch collect_tasks _ snapshot = err invalid_workflow_action
dispatch review confirm snapshot = ok (record {
  state = completed;
  involves_multiple_steps = snapshot.involves_multiple_steps;
  proposed_todo_titles = snapshot.proposed_todo_titles;
  todo_titles_to_create = snapshot.proposed_todo_titles;
})
dispatch review _ snapshot = err invalid_workflow_action
dispatch _ _ snapshot = err terminal_workflow

-- `isinstance(command, Cancel)`
unfoldable pub is_cancel : WorkflowCommand → Bool
is_cancel cancel = true
is_cancel _ = false

unfoldable pub transition : WorkflowSnapshot → WorkflowCommand → Result TransitionDecision
unfolding cancelled_from is_cancel
transition snapshot command =
    if not (snapshot.definition_version == current_workflow_definition_version)
    then err unsupported_workflow_definition
    else if is_terminal snapshot.state
    then err terminal_workflow
    else if is_cancel command
    then ok (cancelled_from snapshot)
    else dispatch snapshot.state command snapshot
