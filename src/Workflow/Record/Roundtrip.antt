-- ===== src/Workflow/Record/Roundtrip.antt =====
-- A stored snapshot is read back as it was written.
use expo_fastapi_todo.Prelude.{ℕ, ◌≡◌, ◌≤◌, refl, text_eq, arith}
use expo_fastapi_todo.Result.{ok}
use expo_fastapi_todo.Json.{num, same_keys}
use expo_fastapi_todo.Platform.{Platform, IsPlatform}
use expo_fastapi_todo.Workflow.Domain.{WorkflowSnapshot, max_workflow_revision}
use expo_fastapi_todo.Workflow.Record.{
  snapshot_to_record, snapshot_from_record, read_fields, read_revision, read_version,
}
use expo_fastapi_todo.Workflow.Record.Valid.{IsValid}
use expo_fastapi_todo.Workflow.Record.Stages.{
  read_id-show_uuid, read_state-state_value, require-Title, read_flag-flag_json,
  read_proposals-text_array, Context-valid, read_created-todos_json,
}

read_revision-num : (n : ℕ) → n ≤ max_workflow_revision → read_revision (num n) ≡ ok n
unfolding read_revision
read_revision-num n h = ground arith

read_version-num : (n : ℕ) → 1 ≤ n → read_version (num n) ≡ ok n
unfolding read_version
read_version-num n h = ground arith

-- Reading the record of a valid snapshot gives that snapshot back.
pub record_round_trip :
    {p : Platform} (laws : IsPlatform p) (s : WorkflowSnapshot)
    → IsValid s
    → snapshot_from_record p (snapshot_to_record p s) ≡ ok s
unfolding snapshot_from_record snapshot_to_record read_fields same_keys text_eq
record_round_trip laws s v = rw (read_id-show_uuid laws s.id) (
    rw (read_revision-num s.revision v.revision) (
      rw (read_version-num s.definition_version v.version) (
        rw (read_state-state_value laws s.state) (
          rw (require-Title s.title v.title) (
            rw (read_flag-flag_json s.involves_multiple_steps) (
              rw (read_proposals-text_array s.proposed_todo_titles v.proposals) (
                rw
                  (Context-valid s.state s.involves_multiple_steps s.title s.proposed_todo_titles
                    v.context)
                  (rw
                    (read_created-todos_json laws s.state s.involves_multiple_steps s.title
                      s.created_todos s.proposed_todo_titles v.created v.proposals v.context)
                    refl))))))))
