-- ===== src/Worker/Delivery.antt =====
-- `_deliver_once` and `handle_suggestion` of apps/api/app/worker.py. The transactions of a delivery are
-- numbered: 0 and 1 claim, 2 and 3 finish, 4 and 5 store a result that was refused as a failure, 6
-- reads the stored trace parent.
pub mod Attempts
pub mod Calls
pub mod Once
use expo_fastapi_todo.Prelude.{
  ℕ, ◌+◌, Bool, true, false, Option, none, some, List, [], ◌∷◌, Text, codes, if◌then◌else◌,
}
use expo_fastapi_todo.Result.{
  Error, Result, ok, err, suggestion_in_progress, invalid_stored_suggestion, assertion_error,
  integrity_error,
}
use expo_fastapi_todo.Http.{HttpException, coded, Answer, answered, refused}
use expo_fastapi_todo.Json.{Json}
use expo_fastapi_todo.Database.Rows.{SuggestionRow}
use expo_fastapi_todo.Database.Transaction.{Database, gets}
use expo_fastapi_todo.Suggestion.Types.{SuggestionErrorCode, SuggestionSnapshot, SuggestionStatus}
use expo_fastapi_todo.Suggestion.Checks.{check_result}
use expo_fastapi_todo.Suggestion.Store.{find_suggestion_id}
use expo_fastapi_todo.Suggestion.Claim.{ClaimedSuggestion, ClaimResult, discover, claim_suggestion}
use expo_fastapi_todo.Suggestion.FinishClaimed.{finish_claimed_suggestion}
use expo_fastapi_todo.Worker.Body.{Bytes, read_bounded_body, parse_task_body}
use expo_fastapi_todo.Worker.Events.{
  ProviderReply, proposed, timed_out, unavailable, malformed, unconfigured, crashed, operational,
  unexpected, suggestion_delivery, suggestion_finished, unexpected_fault, provider_called,
  task_rejected, trace_context, World, emit, Seams, Called, returned, raised, broken, attempt,
  and_then,
}
use expo_fastapi_todo.Worker.Trace.{stored_context, incoming_trace_candidate, trace_diagnosis}

abbrev pub worker_unavailable : HttpException
worker_unavailable = record {
  status_code = 503;
  detail =
      coded (codes "worker_unavailable") (codes "Suggestion worker is temporarily unavailable.");
}

abbrev pub is_superseded : SuggestionStatus → Bool
is_superseded SuggestionStatus.superseded = true
is_superseded _ = false

-- the status 204 of a task that is done
abbrev pub no_content : Answer ℕ
no_content = answered 204

abbrev pub emit_delivery : ℕ → Text → Option SuggestionErrorCode → Option ℕ → World → World
emit_delivery suggestion_id outcome error_code queue_wait_ms w =
    emit (suggestion_delivery suggestion_id outcome error_code queue_wait_ms) w

abbrev pub emit_finished : ℕ → Text → Option SuggestionErrorCode → Option ℕ → World → World
emit_finished suggestion_id outcome error_code queue_wait_ms w =
    emit (suggestion_finished suggestion_id outcome error_code queue_wait_ms) w

-- `claim_once`
unfoldable pub claim_in_worker : Seams → ℕ → World → Called ClaimResult × World
claim_in_worker s suggestion_id w =
    and_then (attempt s 0 (gets (discover suggestion_id)) w) (λ discovered w1.
      attempt s 1 (claim_suggestion s.platform (s.now 1) (s.draw 1) suggestion_id discovered) w1)

-- `finish_claimed_suggestion` in the i-th and the next transaction; it checks its arguments before
unfoldable pub finish_once :
    Seams
    → ℕ
    → ClaimedSuggestion
    → Option (List Text)
    → Option SuggestionErrorCode
    → World
    → Called (Option SuggestionSnapshot) × World
finish_once s i claim titles error_code w = elim (check_result titles error_code) [
  | err e ↦ (raised e, w)
  | ok _ ↦ and_then (attempt s i (gets (discover claim.suggestion_id)) w) (λ discovered w1.
      attempt s (i + 1)
        (finish_claimed_suggestion s.platform (s.now (i + 1)) (s.draw (i + 1)) claim titles
          error_code discovered)
        w1)
]

-- the answers of `execute_provider` to what the provider's client returns or raises
unfoldable pub provider_result : ProviderReply → Option (List Text) × Option SuggestionErrorCode
provider_result (proposed titles) = (some titles, none)
provider_result timed_out = (none, some SuggestionErrorCode.timeout)
provider_result unavailable = (none, some SuggestionErrorCode.provider_unavailable)
provider_result malformed = (none, some SuggestionErrorCode.invalid_output)
provider_result unconfigured = (none, some SuggestionErrorCode.not_configured)
provider_result crashed = (none, some SuggestionErrorCode.provider_unavailable)

-- `execute_provider`: without a configuration the provider is not called
unfoldable pub execute_provider :
    Seams → ClaimedSuggestion → World → (Option (List Text) × Option SuggestionErrorCode) × World
execute_provider s claim w =
    if s.configured
    then (
      provider_result (s.provider claim.reservation.goal claim.reservation.clarification),
      emit (provider_called claim) w,
    )
    else ((none, some SuggestionErrorCode.not_configured), w)

-- `isinstance(exc, (TypeError, ValueError))`: the program's own exceptions are `ValueError`s
abbrev pub is_type_or_value_error : Error → Bool
is_type_or_value_error assertion_error = false
is_type_or_value_error integrity_error = false
is_type_or_value_error _ = true

-- the bounded outcome of a committed result
abbrev pub business_outcome : SuggestionStatus → Option SuggestionErrorCode → Text
business_outcome status none = if is_superseded status then codes "superseded" else codes "ready"
business_outcome status (some code) =
    if is_superseded status then codes "superseded" else codes "failed"

abbrev pub delivered :
    ℕ → ClaimedSuggestion → Text → Option SuggestionErrorCode → World → Answer ℕ × World
delivered id claim outcome error_code w = (
  no_content,
  emit_delivery id (codes "delivered") error_code claim.queue_wait_ms
      (emit_finished id outcome error_code claim.queue_wait_ms w),
)

-- the log and the answer of a finished delivery
unfoldable pub on_finished :
    ℕ
    → ClaimedSuggestion
    → Option SuggestionErrorCode
    → Called (Option SuggestionSnapshot) × World
    → Answer ℕ × World
on_finished id claim error_code (returned none, w) =
    (no_content, emit_delivery id (codes "discarded") error_code claim.queue_wait_ms w)
on_finished id claim error_code (returned (some saved), w) =
    delivered id claim (business_outcome saved.status error_code) error_code w
on_finished id claim error_code (broken operational, w) =
    (refused worker_unavailable, emit_delivery id (codes "finalize_unavailable") none none w)
on_finished id claim error_code (broken unexpected, w) = (
  refused worker_unavailable,
  emit (unexpected_fault (codes "finalize_failed"))
      (emit_delivery id (codes "finalize_failed") none none w),
)
on_finished id claim error_code (raised e, w) = (
  refused worker_unavailable,
  emit (unexpected_fault (codes "finalize_failed"))
      (emit_delivery id (codes "finalize_failed") none none w),
)

-- titles that are refused by a `TypeError` or a `ValueError` are stored as invalid output
unfoldable pub or_invalid_output :
    Seams → ℕ → ClaimedSuggestion → Called (Option SuggestionSnapshot) × World → Answer ℕ × World
or_invalid_output s id claim (raised e, w) =
    if is_type_or_value_error e
    then on_finished id claim (some SuggestionErrorCode.invalid_output)
        (finish_once s 4 claim none (some SuggestionErrorCode.invalid_output) w)
    else on_finished id claim none (raised e, w)
or_invalid_output s id claim (returned saved, w) = on_finished id claim none (returned saved, w)
or_invalid_output s id claim (broken fault, w) = on_finished id claim none (broken fault, w)

unfoldable pub finalize :
    Seams
    → ℕ
    → ClaimedSuggestion
    → (Option (List Text) × Option SuggestionErrorCode) × World
    → Answer ℕ × World
finalize s id claim ((titles, some error_code), w) =
    on_finished id claim (some error_code) (finish_once s 2 claim none (some error_code) w)
finalize s id claim ((some titles, none), w) =
    or_invalid_output s id claim (finish_once s 2 claim (some titles) none w)
finalize s id claim ((none, none), w) = on_finished id claim none (raised assertion_error, w)

-- a claim that committed a terminal state in place of granting work
unfoldable pub on_committed : ℕ → SuggestionSnapshot → World → Answer ℕ × World
on_committed id committed w =
    if is_superseded committed.status
    then (
      no_content,
      emit_delivery id (codes "claim_superseded") none none
          (emit_finished id (codes "superseded") none none w),
    )
    else (
      no_content,
      emit_delivery id (codes "claim_timeout") committed.error_code none
          (emit_finished id (codes "failed") committed.error_code none w),
    )

unfoldable pub on_claim : Seams → ℕ → Called ClaimResult × World → Answer ℕ × World
on_claim s id (returned ClaimResult.no_work, w) =
    (no_content, emit_delivery id (codes "no_work") none none w)
on_claim s id (returned (ClaimResult.timeout committed), w) = on_committed id committed w
on_claim s id (returned (ClaimResult.superseded committed), w) = on_committed id committed w
on_claim s id (returned (ClaimResult.claimed claim), w) =
    finalize s id claim (execute_provider s claim w)
on_claim s id (broken operational, w) =
    (refused worker_unavailable, emit_delivery id (codes "claim_unavailable") none none w)
on_claim s id (broken unexpected, w) = (
  refused worker_unavailable,
  emit (unexpected_fault (codes "claim_failed"))
      (emit_delivery id (codes "claim_failed") none none w),
)
on_claim s id (raised suggestion_in_progress, w) = (
  refused (record {
    status_code = 503;
    detail =
        coded (codes "suggestion_in_progress")
          (codes "Suggestion execution is already in progress.");
  }),
  emit_delivery id (codes "live_claim_retry") none none w,
)
on_claim s id (raised invalid_stored_suggestion, w) =
    (refused worker_unavailable, emit_delivery id (codes "invalid_stored_row") none none w)
on_claim s id (raised _, w) = (
  refused worker_unavailable,
  emit (unexpected_fault (codes "claim_failed"))
      (emit_delivery id (codes "claim_failed") none none w),
)

-- `_deliver_once`
unfoldable pub deliver_once : Seams → ℕ → World → Answer ℕ × World
deliver_once s suggestion_id w = on_claim s suggestion_id (claim_in_worker s suggestion_id w)

abbrev pub trace_parent_of : Called (Option SuggestionRow) → Option Text
trace_parent_of (returned (some row)) = row.trace_parent
trace_parent_of _ = none

-- `read_stored_trace_parent`: an exception reads as no trace parent
unfoldable pub read_stored_trace_parent : Seams → ℕ → World → Option Text × World
read_stored_trace_parent s suggestion_id w =
    let (row, w1) = attempt s 6 (gets (find_suggestion_id suggestion_id)) w in
    (trace_parent_of row, w1)

abbrev pub log_diagnosis : ℕ → Option Text → World → World
log_diagnosis id none w = w
log_diagnosis id (some outcome) w = emit (trace_context id outcome) w

-- a delivery whose body is good: the trace is diagnosed, and the diagnosis rejects nothing
unfoldable pub deliver_task : Seams → Option Text → Option Text → ℕ → World → Answer ℕ × World
deliver_task s app_raw std_raw id w =
    let (stored_raw, w1) = read_stored_trace_parent s id w in
    let incoming = incoming_trace_candidate s.platform app_raw std_raw in
    let stored = stored_context s.platform stored_raw in
    deliver_once s id
      (log_diagnosis id (trace_diagnosis s.trace_id app_raw std_raw incoming stored) w1)

-- `handle_suggestion`, once the application has its session factory
unfoldable pub handle_suggestion :
    Seams
    → (Bytes → Option Json)
    → Option Text
    → Option Text
    → List Bytes
    → World
    → Answer ℕ × World
handle_suggestion s loads app_raw std_raw chunks w = elim (read_bounded_body chunks) [
  | refused e ↦ (refused e, emit (task_rejected (codes "oversized")) w)
  | answered raw ↦ elim (parse_task_body loads raw) [
    | refused e ↦ (refused e, emit (task_rejected (codes "malformed")) w)
    | answered id ↦ deliver_task s app_raw std_raw id w
  ]
]
