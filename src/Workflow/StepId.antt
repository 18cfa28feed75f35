-- ===== src/Workflow/StepId.antt =====
-- `current_step_id` of apps/api/app/workflow_service.py.
use expo_fastapi_todo.Prelude.{◌++◌, Text, codes}
use expo_fastapi_todo.Platform.{Platform}
use expo_fastapi_todo.Workflow.Domain.{Uuid}

-- f"{workflow_id}:{state}"
unfoldable pub current_step_id : Platform → Uuid → Text → Text
current_step_id p workflow_id state = p.show_uuid workflow_id ++ codes ":" ++ state
