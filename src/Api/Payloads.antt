-- ===== src/Api/Payloads.antt =====
-- The checks on request bodies in apps/api/app/main.py that its own validators make; the types of the
-- fields are checked by Pydantic before.
use expo_fastapi_todo.Prelude.{
  ℕ, Bool, not, ◌&&◌, ◌||◌, List, all, length, leb, ◌==◌, Text, if◌then◌else◌,
}
use expo_fastapi_todo.Result.{Result, ok, err, value_error, ◌>>=◌}
use expo_fastapi_todo.Title.{has_nul, has_surrogate, canonicalize_title}
use expo_fastapi_todo.Workflow.Domain.{
  WorkflowCommand, answer_multiple_steps, submit_tasks, confirm, cancel, create_submit_tasks,
  max_workflow_revision,
}

-- the class `[A-Za-z0-9_-]`
abbrev pub is_username_char : ℕ → Bool
is_username_char c =
    (leb b'A' c && leb c b'Z')
    || (leb b'a' c && leb c b'z')
    || (leb b'0' c && leb c b'9')
    || c == b'_'
    || c == b'-'

-- `validate_username`, with the pattern `[A-Za-z0-9_-]{3,32}`
unfoldable pub validate_username : Text → Result Text
validate_username username =
    if has_nul username
      || not (leb 3 (length username) && leb (length username) 32 && all is_username_char username)
    then err value_error
    else ok username

unfoldable pub validate_password : Text → Result Text
validate_password password =
    if has_nul password
      || not (leb 8 (length password) && leb (length password) 128)
      || has_surrogate password
    then err value_error
    else ok password

-- the actions of a request, by their discriminator
pub data WorkflowAction : Type 0 where
  answer_multiple_steps_action : Bool → WorkflowAction
  submit_tasks_action : List Text → WorkflowAction
  confirm_action cancel_action : WorkflowAction

-- the validator of the action's titles
unfoldable pub validate_action : WorkflowAction → Result WorkflowAction
validate_action (submit_tasks_action titles) = do
  canonical ← create_submit_tasks titles
  ok (submit_tasks_action canonical)
validate_action action = ok action

unfoldable pub to_domain_command : WorkflowAction → WorkflowCommand
to_domain_command (answer_multiple_steps_action answer) = answer_multiple_steps answer
to_domain_command (submit_tasks_action titles) = submit_tasks titles
to_domain_command confirm_action = confirm
to_domain_command cancel_action = cancel

-- `Field(ge=0, le=MAX_WORKFLOW_REVISION)`
abbrev pub is_revision : ℕ → Bool
is_revision revision = leb revision max_workflow_revision

-- A field of a body: absent, null, or a value.
pub data Given {ℓ} (A : Type ℓ) : Type ℓ where
  absent given_null : Given A
  given : A → Given A

-- what an update sets
pub data TodoUpdate : Type 0 where
  update_title : Text → TodoUpdate
  update_completed : Bool → TodoUpdate

-- `TodoUpdate`: exactly one field is set, and it is not null; a title is canonical
unfoldable pub validate_todo_update : Given Text → Given Bool → Result TodoUpdate
validate_todo_update (given title) absent = do
  canonical ← canonicalize_title title
  ok (update_title canonical)
validate_todo_update absent (given completed) = ok (update_completed completed)
validate_todo_update _ _ = err value_error
