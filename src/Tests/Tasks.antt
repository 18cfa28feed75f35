-- ===== src/Tests/Tasks.antt =====
-- Runs of the queue's client.
use expo_fastapi_todo.Prelude.{
  ◌≡◌, refl, Option, none, some, [], ◌∷◌, Text, codes, text_eq, if◌then◌else◌,
}
use expo_fastapi_todo.Result.{Result, ok}
use expo_fastapi_todo.Json.{Json}
use expo_fastapi_todo.Http.{answered}
use expo_fastapi_todo.Title.{strip_by, rstrip, lstrip, rjoin}
use expo_fastapi_todo.Suggestion.Trace.{
  is_space, canonical_trace_parent, extract_stored_context, matches_trace_parent, drop,
}
use expo_fastapi_todo.Worker.Body.{Bytes, read_bounded_body, parse_task_body}
use expo_fastapi_todo.Tasks.{
  CloudTasksConfig, SplitResult, Task, task_payload, task_of, task_for, has_task_identity,
  require_nonempty, ends_with, has_other_parts, canonical_worker_url, read_cloud_config,
}
use expo_fastapi_todo.Tasks.Config.{IsCloudConfig, read_cloud_config-IsCloudConfig}
use expo_fastapi_todo.Tasks.Sent.{sent_task_is_read}
use expo_fastapi_todo.Tasks.Traced.{stored_trace_is_sent}
use expo_fastapi_todo.Tests.Sample.{sample, hex_digits, hex_digit, checksum, dump, database_of}
use expo_fastapi_todo.Tests.Suggestion.{
  reservation_request, collecting_one, new_reservation, stored_row,
}
use expo_fastapi_todo.Prelude.{select}
use expo_fastapi_todo.Database.Transaction.{Database}
use expo_fastapi_todo.Database.Rows.{
  SuggestionRow, is_object, suggestion_row_ok, fields_ok, status_fields_ok, execution_ok, times_ok,
}
use expo_fastapi_todo.Platform.{fingerprint_payload, is_fingerprint}
use expo_fastapi_todo.Title.{has_surrogate, strip, is_trim, has_nul, check_text, canonicalize_title}
use expo_fastapi_todo.Workflow.Domain.{state_value}
use expo_fastapi_todo.Workflow.StepId.{current_step_id}
use expo_fastapi_todo.Workflow.Store.{find_workflow}
use expo_fastapi_todo.Suggestion.Types.{suggestion_fingerprint, normalize_optional}
use expo_fastapi_todo.Suggestion.Checks.{validate_active_workflow, require_canonical_goal}
use expo_fastapi_todo.Suggestion.Store.{
  find_suggestion, supersede_pending, insert_suggestion, suggestion_insertable,
}
use expo_fastapi_todo.Suggestion.Reserve.{
  ReserveRequest, reservation, reserve_suggestion, reserve_locked, reserve_request, reserve_new,
  queue_fields,
}
use expo_fastapi_todo.Suggestion.Reserve.NewRow.{waits}

abbrev config : CloudTasksConfig
config = record {
  project = codes "todo";
  location = codes "west";
  queue = codes "plans";
  worker_url = codes "https://w.run.app";
  invoker_email = codes "invoker";
}

abbrev fingerprint : Text
fingerprint = hex_digits 64 5

abbrev loads : Bytes → Option Json
loads raw = elim (drop 25 raw) [ [] ↦ none | n ∷ ns ↦ some (task_payload n) ]

abbrev task : Task
task = task_of sample config 7 fingerprint none (dump (task_payload 7))

is_sent : task_for sample dump config 7 fingerprint none ≡ some task
unfolding task_for has_task_identity hex_digits hex_digit dump
is_sent = refl

is_loaded : loads (dump (task_payload 7)) ≡ some (task_payload 7)
unfolding dump
is_loaded = refl

is_body : task.body ≡ dump (task_payload 7)
unfolding task_of
is_body = refl

sent_task_is_read_example :
    (read_bounded_body (dump (task_payload 7) ∷ []) ≡ answered task.body)
    × (parse_task_body loads task.body ≡ answered 7)
unfolding task_of dump
sent_task_is_read_example =
    sent_task_is_read sample dump config loads 7 fingerprint none task (dump (task_payload 7) ∷ [])
      is_loaded is_sent refl

abbrev trace_parent : Text
trace_parent = codes "00-0af7651916cd43dd8448eb211c80319c-b7ad6b7169203331-01"

abbrev traced_request : ReserveRequest
traced_request = record reservation_request { trace_parent = some trace_parent }

abbrev traced : Database
traced = database_of (reserve_suggestion sample 1000 traced_request collecting_one)

abbrev traced_row : SuggestionRow
traced_row = record stored_row { id = 2; trace_parent = some trace_parent }

traced_run :
    reserve_suggestion sample 1000 traced_request collecting_one
    ≡ ok (some (reservation new_reservation), traced)
unfolding reserve_suggestion normalize_optional find_workflow reserve_locked suggestion_fingerprint
    fingerprint_payload has_surrogate hex_digits hex_digit checksum dump find_suggestion
    reserve_request reserve_new validate_active_workflow current_step_id state_value text_eq
    supersede_pending suggestion_row_ok fields_ok is_fingerprint status_fields_ok execution_ok
    times_ok is_object queue_fields require_canonical_goal canonicalize_title check_text strip
    strip_by is_trim has_nul canonical_trace_parent insert_suggestion suggestion_insertable
    extract_stored_context matches_trace_parent lstrip rstrip rjoin is_space
traced_run = refl

traced_only : select (waits traced_request) traced.suggestions.rows ≡ traced_row ∷ []
unfolding reserve_suggestion normalize_optional find_workflow reserve_locked suggestion_fingerprint
    fingerprint_payload has_surrogate hex_digits hex_digit checksum dump find_suggestion
    reserve_request reserve_new validate_active_workflow current_step_id state_value text_eq
    supersede_pending suggestion_row_ok fields_ok is_fingerprint status_fields_ok execution_ok
    times_ok is_object queue_fields require_canonical_goal canonicalize_title check_text strip
    strip_by is_trim has_nul canonical_trace_parent insert_suggestion suggestion_insertable
    extract_stored_context matches_trace_parent lstrip rstrip rjoin is_space
traced_only = refl

abbrev traced_task : Task
traced_task =
    task_of sample config 2 traced_row.request_fingerprint (some trace_parent)
      (dump (task_payload 2))

traced_sent :
    task_for sample dump config 2 traced_row.request_fingerprint (some trace_parent)
    ≡ some traced_task
unfolding task_for has_task_identity hex_digits hex_digit checksum dump suggestion_fingerprint
    fingerprint_payload has_surrogate
traced_sent = refl

stored_trace_is_sent_example :
    traced_task.headers
    ≡ (codes "Content-Type", codes "application/json")
      ∷ (codes "traceparent", trace_parent)
      ∷ (codes "X-Suggestion-Traceparent", trace_parent)
      ∷ []
stored_trace_is_sent_example =
    stored_trace_is_sent sample dump config 1000 traced_request collecting_one traced traced_row
      trace_parent traced_task traced_run traced_only refl traced_sent

abbrev split : Text → Result SplitResult
split text = ok (record {
  scheme = codes "https";
  hostname = some (codes "w.run.app");
  path = [];
  query = [];
  fragment = [];
  username = none;
  password = none;
  port = ok none;
})

abbrev env : Text → Option Text
env name =
    if text_eq name (codes "SUGGESTION_WORKER_URL")
    then some (codes "https://w.run.app/")
    else some (codes " value ")

abbrev configured : CloudTasksConfig
configured = record {
  project = codes "value";
  location = codes "value";
  queue = codes "value";
  worker_url = codes "https://w.run.app";
  invoker_email = codes "value";
}

is_configured : read_cloud_config split env ≡ ok configured
unfolding read_cloud_config canonical_worker_url has_other_parts ends_with require_nonempty strip_by
    lstrip rstrip rjoin is_space text_eq
is_configured = refl

read_cloud_config-IsCloudConfig_example : IsCloudConfig split env configured
read_cloud_config-IsCloudConfig_example = read_cloud_config-IsCloudConfig split env is_configured
