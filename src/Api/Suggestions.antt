-- ===== src/Api/Suggestions.antt =====
-- The suggestion handlers of apps/api/app/main.py. The transactions are numbered: 0 reserves, 1 looks the
-- row up and 2 reads it again for the queue, 3 stores the provider's result and 4 its refusal.
pub mod Asked
use expo_fastapi_todo.Prelude.{
  ℕ, Bool, true, false, not, ◌&&◌, ◌||◌, Option, none, some, List, Text, codes, text_eq,
  if◌then◌else◌, is_none,
}
use expo_fastapi_todo.Result.{
  Error, Result, request_id_reused, suggestion_in_progress, stale_suggestion, stale_workflow_step,
  invalid_suggestion_state, unsupported_workflow_definition, invalid_stored_suggestion,
  assertion_error,
}
use expo_fastapi_todo.Http.{HttpException, coded, Answer, answered, refused}
use expo_fastapi_todo.Database.Rows.{SuggestionRow}
use expo_fastapi_todo.Platform.{Platform}
use expo_fastapi_todo.Database.Transaction.{Database, gets}
use expo_fastapi_todo.Database.Call.{Interrupt}
use expo_fastapi_todo.Workflow.Domain.{Uuid}
use expo_fastapi_todo.Suggestion.Types.{
  SuggestionErrorCode, not_configured, timeout, invalid_output, error_value, Clarification,
  SuggestionStatus, pending, ready, failed, superseded, SuggestionSnapshot, SuggestionReservation,
}
use expo_fastapi_todo.Suggestion.Store.{is_pending, find_suggestion}
use expo_fastapi_todo.Suggestion.Reserve.{
  ReserveRequest, Reserved, reservation, saved, reserve_suggestion,
}
use expo_fastapi_todo.Suggestion.Finish.{FinishRequest, finish_suggestion, get_current_suggestion}
use expo_fastapi_todo.Tasks.{enqueue_accepted, enqueue_deduplicated}
use expo_fastapi_todo.Worker.Events.{
  World, emit, suggestion_reserved, suggestion_enqueue, provider_asked, Seams, Called, returned,
  raised, broken, operational, unexpected, attempt,
}
use expo_fastapi_todo.Worker.Delivery.{provider_result, is_type_or_value_error}
use expo_fastapi_todo.Api.Errors.{
  database_unavailable, workflow_not_found, workflow_conflict, internal_error, handle,
}
use expo_fastapi_todo.Api.SuggestionErrors.{
  suggestion_failure, enqueue_unavailable, stale_conflict, reserve_error, current_error,
  finish_error, failure_of,
}
use expo_fastapi_todo.Api.Workflows.{read_of}

pub record TodoWorkflowSuggestionRequest : Type 0 where
  pub request_id : Uuid
  pub expected_revision : ℕ
  pub step_id : Text
  pub clarification : Option Clarification

-- a status and the snapshot that the response shows
abbrev pub SuggestionReply : Type 0
SuggestionReply = ℕ × SuggestionSnapshot

-- what the queue's state of a suggestion is answered with
unfoldable pub reconciled : Option SuggestionSnapshot → Answer SuggestionReply
reconciled none = refused workflow_not_found
reconciled (some current) = elim current.status [
  | failed ↦ refused (failure_of current.error_code)
  | ready ↦ answered (200, current)
  | pending ↦ answered (202, current)
  | superseded ↦ answered (202, current)
]

unfoldable pub on_current :
    Called (Option SuggestionSnapshot) × World → Answer SuggestionReply × World
on_current (returned current, w) = (reconciled current, w)
on_current (raised e, w) = (refused (current_error e), w)
on_current (broken operational, w) = (refused database_unavailable, w)
on_current (broken unexpected, w) = (refused internal_error, w)

-- the outcome that is logged: an unknown value counts as accepted
unfoldable pub enqueue_outcome : Text → Text
enqueue_outcome outcome =
    if text_eq outcome enqueue_accepted || text_eq outcome enqueue_deduplicated
    then outcome
    else enqueue_accepted

-- The caller and the request of a handler's call. `trace_parent` is the server span's context.
pub record SuggestCall : Type 0 where
  pub user_id : ℕ
  pub workflow_id : Uuid
  pub payload : TodoWorkflowSuggestionRequest
  pub cloud_tasks : Bool
  pub trace_parent : Option Text

module _ (s : Seams) (call : SuggestCall) where
  unfoldable pub reconcile : World → Answer SuggestionReply × World
  reconcile w =
      on_current
        (attempt s 2 (read_of (get_current_suggestion s.platform call.user_id call.workflow_id)) w)

  -- a row that no worker has claimed
  abbrev pub waits_for_delivery : SuggestionRow → Bool
  waits_for_delivery row = is_pending row && is_none row.provider_started_at

  -- `enqueue` is the queue's client: its outcome, or none for `EnqueueUnavailable`
  unfoldable pub enqueue_row :
      (ℕ → Text → Option Text → Option Text)
      → Option SuggestionRow
      → World
      → Answer SuggestionReply × World
  enqueue_row enqueue none w = reconcile w
  enqueue_row enqueue (some row) w =
      if not (waits_for_delivery row)
      then reconcile w
      else elim (enqueue row.id row.request_fingerprint row.trace_parent) [
        | none ↦
            (refused enqueue_unavailable, emit (suggestion_enqueue (codes "unavailable") row.id) w)
        | some outcome ↦ reconcile (emit (suggestion_enqueue (enqueue_outcome outcome) row.id) w)
      ]

  -- No clause catches an exception of the lookup.
  unfoldable pub on_lookup :
      (ℕ → Text → Option Text → Option Text)
      → Called (Option SuggestionRow) × World
      → Answer SuggestionReply × World
  on_lookup enqueue (returned row, w) = enqueue_row enqueue row w
  on_lookup enqueue (raised e, w) = (refused internal_error, w)
  on_lookup enqueue (broken fault, w) = (refused internal_error, w)

  unfoldable pub deliver_by_queue :
      (ℕ → Text → Option Text → Option Text) → World → Answer SuggestionReply × World
  deliver_by_queue enqueue w =
      on_lookup enqueue (
        attempt s 1 (gets (find_suggestion call.user_id call.workflow_id call.payload.request_id))
          w)

  abbrev pub finish_request : Option (List Text) → Option SuggestionErrorCode → FinishRequest
  finish_request titles error_code = record {
    owner_id = call.user_id;
    workflow_id = call.workflow_id;
    request_id = call.payload.request_id;
    titles = titles;
    error_code = error_code;
  }

  unfoldable pub store_result :
      ℕ
      → Option (List Text)
      → Option SuggestionErrorCode
      → World
      → Called (Option SuggestionSnapshot) × World
  store_result i titles error_code w =
      attempt s i
        (finish_suggestion s.platform (s.now i) (s.draw i) (finish_request titles error_code)) w

  unfoldable pub on_stored :
      Option SuggestionErrorCode
      → Called (Option SuggestionSnapshot) × World
      → Answer SuggestionReply × World
  on_stored error_code (returned none, w) = (refused workflow_not_found, w)
  on_stored none (returned (some finished), w) = (answered (201, finished), w)
  on_stored (some code) (returned (some finished), w) = (refused (suggestion_failure code), w)
  on_stored error_code (raised e, w) = (refused (finish_error e), w)
  on_stored error_code (broken operational, w) = (refused database_unavailable, w)
  on_stored error_code (broken unexpected, w) = (refused internal_error, w)

  -- titles that are refused are stored as invalid output, unless the request is stale
  unfoldable pub or_store_invalid :
      Called (Option SuggestionSnapshot) × World → Answer SuggestionReply × World
  or_store_invalid (raised stale_suggestion, w) = (refused stale_conflict, w)
  or_store_invalid (raised e, w) =
      if is_type_or_value_error e
      then on_stored (some invalid_output) (store_result 4 none (some invalid_output) w)
      else on_stored none (raised e, w)
  or_store_invalid (returned stored, w) = on_stored none (returned stored, w)
  or_store_invalid (broken fault, w) = on_stored none (broken fault, w)

  unfoldable pub store_reply :
      (Option (List Text) × Option SuggestionErrorCode) × World → Answer SuggestionReply × World
  store_reply ((titles, some code), w) = on_stored (some code) (store_result 3 none (some code) w)
  store_reply ((some titles, none), w) = or_store_invalid (store_result 3 (some titles) none w)
  store_reply ((none, none), w) = (refused internal_error, w)

  -- The provider is asked for a new reservation. A saved snapshot has no clarification to read: that
  -- exception is taken for the provider's.
  unfoldable pub ask_provider :
      Reserved → World → (Option (List Text) × Option SuggestionErrorCode) × World
  ask_provider (reservation r) w =
      if s.configured
      then (provider_result (s.provider r.goal r.clarification), emit (provider_asked r.goal) w)
      else ((none, some not_configured), w)
  ask_provider (saved snapshot) w =
      if s.configured
      then ((none, some SuggestionErrorCode.provider_unavailable), w)
      else ((none, some not_configured), w)

  unfoldable pub execute :
      (ℕ → Text → Option Text → Option Text) → Reserved → World → Answer SuggestionReply × World
  execute enqueue reserved w =
      if call.cloud_tasks then deliver_by_queue enqueue w else store_reply (ask_provider reserved w)

  -- the answer to a saved snapshot, by its status
  abbrev pub saved_reply :
      (ℕ → Text → Option Text → Option Text)
      → SuggestionSnapshot
      → World
      → SuggestionStatus
      → Answer SuggestionReply × World
  saved_reply enqueue snapshot w failed = (refused (failure_of snapshot.error_code), w)
  saved_reply enqueue snapshot w ready = (answered (200, snapshot), w)
  saved_reply enqueue snapshot w pending = execute enqueue (saved snapshot) w
  saved_reply enqueue snapshot w superseded = execute enqueue (saved snapshot) w

  unfoldable pub on_reserved :
      (ℕ → Text → Option Text → Option Text) → Reserved → World → Answer SuggestionReply × World
  on_reserved enqueue (reservation r) w =
      execute enqueue (reservation r)
        (emit (suggestion_reserved call.workflow_id call.payload.request_id) w)
  on_reserved enqueue (saved snapshot) w = saved_reply enqueue snapshot w snapshot.status

  unfoldable pub on_reserve :
      (ℕ → Text → Option Text → Option Text)
      → Called (Option Reserved) × World
      → Answer SuggestionReply × World
  on_reserve enqueue (returned none, w) = (refused workflow_not_found, w)
  on_reserve enqueue (returned (some reserved), w) = on_reserved enqueue reserved w
  on_reserve enqueue (raised e, w) = (refused (reserve_error e), w)
  on_reserve enqueue (broken operational, w) = (refused database_unavailable, w)
  on_reserve enqueue (broken unexpected, w) = (refused internal_error, w)

  abbrev pub suggest_request : ReserveRequest
  suggest_request = record {
    owner_id = call.user_id;
    workflow_id = call.workflow_id;
    request_id = call.payload.request_id;
    expected_revision = call.payload.expected_revision;
    step_id = call.payload.step_id;
    clarification = call.payload.clarification;
    queued = call.cloud_tasks;
    trace_parent = call.trace_parent;
  }

  unfoldable pub suggest_todo_workflow :
      (ℕ → Text → Option Text → Option Text) → World → Answer SuggestionReply × World
  suggest_todo_workflow enqueue w =
      on_reserve enqueue (attempt s 0 (reserve_suggestion s.platform (s.now 0) suggest_request) w)

-- `get_todo_workflow_suggestion`
abbrev pub or_no_suggestion : Option SuggestionSnapshot → Answer SuggestionSnapshot
or_no_suggestion none = refused workflow_not_found
or_no_suggestion (some snapshot) = answered snapshot

unfoldable pub get_todo_workflow_suggestion :
    Platform → ℕ → Uuid → Option Interrupt → Database → Answer SuggestionSnapshot × Database
get_todo_workflow_suggestion p user_id workflow_id o db =
    handle current_error or_no_suggestion o (read_of (get_current_suggestion p user_id workflow_id))
      db
