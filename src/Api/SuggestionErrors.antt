-- ===== src/Api/SuggestionErrors.antt =====
-- The error answers of the suggestion handlers of apps/api/app/main.py.
use expo_fastapi_todo.Prelude.{Option, none, some, codes}
use expo_fastapi_todo.Result.{
  Error, request_id_reused, suggestion_in_progress, stale_suggestion, stale_workflow_step,
  invalid_suggestion_state, unsupported_workflow_definition, invalid_stored_suggestion,
}
use expo_fastapi_todo.Http.{HttpException, coded}
use expo_fastapi_todo.Suggestion.Types.{
  SuggestionErrorCode, not_configured, timeout, invalid_output, error_value,
}
use expo_fastapi_todo.Api.Errors.{database_unavailable, workflow_conflict, internal_error}
use expo_fastapi_todo.Api.Workflows.{reused_conflict, unsupported_conflict}

unfoldable pub suggestion_failure : SuggestionErrorCode → HttpException
suggestion_failure not_configured = record {
  status_code = 503;
  detail = coded (error_value not_configured) (codes "Todo suggestions are not configured.");
}
suggestion_failure timeout = record {
  status_code = 504;
  detail = coded (error_value timeout) (codes "Todo suggestions timed out.");
}
suggestion_failure invalid_output = record {
  status_code = 502;
  detail = coded (error_value invalid_output) (codes "Todo suggestions returned invalid output.");
}
suggestion_failure code = record {
  status_code = 502;
  detail = coded (error_value code) (codes "Todo suggestion provider is unavailable.");
}

abbrev pub enqueue_unavailable : HttpException
enqueue_unavailable = record {
  status_code = 503;
  detail =
      coded (codes "enqueue_unavailable")
        (codes "Suggestion delivery is temporarily unavailable. Retry with the same request ID.");
}

abbrev pub stale_conflict : HttpException
stale_conflict =
    workflow_conflict (codes "stale_suggestion")
      (codes "This suggestion request is no longer current.")

-- the `except` clauses around the reservation, the reading and the storing
abbrev pub reserve_error : Error → HttpException
reserve_error request_id_reused = reused_conflict
reserve_error suggestion_in_progress =
    workflow_conflict (codes "suggestion_in_progress")
      (codes "A suggestion request is already in progress.")
reserve_error stale_suggestion = stale_conflict
reserve_error stale_workflow_step =
    workflow_conflict (codes "stale_step") (codes "This plan changed. Reload it and try again.")
reserve_error invalid_suggestion_state =
    workflow_conflict (codes "invalid_state")
      (codes "Suggestions are only available while collecting todo titles.")
reserve_error unsupported_workflow_definition = unsupported_conflict
reserve_error invalid_stored_suggestion = database_unavailable
reserve_error _ = internal_error

abbrev pub current_error : Error → HttpException
current_error unsupported_workflow_definition = unsupported_conflict
current_error invalid_stored_suggestion = database_unavailable
current_error _ = internal_error

abbrev pub finish_error : Error → HttpException
finish_error stale_suggestion = stale_conflict
finish_error invalid_stored_suggestion = database_unavailable
finish_error _ = internal_error

-- `assert error_code is not None`
abbrev pub failure_of : Option SuggestionErrorCode → HttpException
failure_of none = internal_error
failure_of (some code) = suggestion_failure code
