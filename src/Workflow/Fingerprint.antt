-- ===== src/Workflow/Fingerprint.antt =====
-- The request fingerprints of apps/api/app/workflow_service.py.
use expo_fastapi_todo.Prelude.{ℕ, Text, codes}
use expo_fastapi_todo.Result.{Result}
use expo_fastapi_todo.Json.{Json, text, num, boolean, obj, field, end, text_array}
use expo_fastapi_todo.Platform.{Platform, fingerprint_payload}
use expo_fastapi_todo.Workflow.Domain.{
  Uuid, WorkflowCommand, answer_multiple_steps, submit_tasks, confirm, cancel,
}

unfoldable pub start_fingerprint : Platform → Text → Result Text
start_fingerprint p canonical_title = fingerprint_payload p (
    obj (
      field (codes "operation") (text (codes "start"))
        (field (codes "title") (text canonical_title) end)))

unfoldable pub canonical_action : WorkflowCommand → Json
canonical_action (answer_multiple_steps answer) = obj (
    field (codes "action") (text (codes "answer_multiple_steps"))
      (field (codes "answer") (boolean answer) end))
canonical_action (submit_tasks titles) = obj (
    field (codes "action") (text (codes "submit_tasks"))
      (field (codes "titles") (text_array titles) end))
canonical_action confirm = obj (field (codes "action") (text (codes "confirm")) end)
canonical_action cancel = obj (field (codes "action") (text (codes "cancel")) end)

unfoldable pub action_fingerprint : Platform → Uuid → ℕ → Text → WorkflowCommand → Result Text
action_fingerprint p workflow_id expected_revision step_id command = fingerprint_payload p (
    obj (
      field (codes "operation") (text (codes "advance")) (
        field (codes "workflow_id") (text (p.show_uuid workflow_id)) (
          field (codes "expected_revision") (num expected_revision) (
            field (codes "step_id") (text step_id)
              (field (codes "action") (canonical_action command) end))))))
