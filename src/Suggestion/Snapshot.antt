-- ===== src/Suggestion/Snapshot.antt =====
-- `suggestion_snapshot_from_row` of apps/api/app/suggestion_service.py. The columns' types rule out
-- its checks that the ids are UUIDs, the revision an integer and the texts `str`.
use expo_fastapi_todo.Prelude.{
  Bool, not, Option, none, some, List, [], ◌∷◌, leb, Text, texts_eq, is_none, is_empty,
}
use expo_fastapi_todo.Result.{
  Result, ok, err, invalid_stored_suggestion, or_raise, raise_if, ◌>>=◌, ◌>>◌,
}
use expo_fastapi_todo.Json.{Json, text, arr, Items, nil, cons, list}
use expo_fastapi_todo.Platform.{is_fingerprint}
use expo_fastapi_todo.Database.Rows.{SuggestionRow}
use expo_fastapi_todo.Workflow.Domain.{max_workflow_revision, create_submit_tasks}
use expo_fastapi_todo.Suggestion.Types.{
  SuggestionStatus, ready, failed, parse_status, SuggestionErrorCode, parse_error,
  SuggestionSnapshot,
}

abbrev pub or_invalid : {A : Type 0} → Option A → Result A
or_invalid none = err invalid_stored_suggestion
or_invalid (some a) = ok a

unfoldable pub read_error : Option Text → Result (Option SuggestionErrorCode)
read_error none = ok none
read_error (some code) = do e ← or_invalid (parse_error code); ok (some e)

-- `titles` if it is a list
unfoldable pub read_list : Json → Result Items
read_list (arr vs) = ok vs
read_list _ = err invalid_stored_suggestion

-- titles that are all `str`
unfoldable pub read_texts : Items → Result (List Text)
read_texts nil = ok []
read_texts (cons (text t) vs) = do ts ← read_texts vs; ok (t ∷ ts)
read_texts (cons _ vs) = err invalid_stored_suggestion

unfoldable pub read_ready_titles : Option SuggestionErrorCode → Items → Result (List Text)
read_ready_titles error_code vs = do
  raise_if (not (is_none error_code)) invalid_stored_suggestion
  titles ← read_texts vs
  validated ← or_raise (create_submit_tasks titles) invalid_stored_suggestion
  raise_if (not (texts_eq titles validated)) invalid_stored_suggestion
  ok validated

-- the error code that a status which is not ready may have
abbrev pub error_fits : SuggestionStatus → Option SuggestionErrorCode → Bool
error_fits failed error_code = not (is_none error_code)
error_fits _ error_code = is_none error_code

unfoldable pub read_status_titles :
    SuggestionStatus → Option SuggestionErrorCode → Items → Result (List Text)
read_status_titles ready error_code vs = read_ready_titles error_code vs
read_status_titles status error_code vs = do
  raise_if (not (is_empty (list vs))) invalid_stored_suggestion
  raise_if (not (error_fits status error_code)) invalid_stored_suggestion
  ok []

unfoldable pub suggestion_snapshot_from_row : SuggestionRow → Result SuggestionSnapshot
suggestion_snapshot_from_row row = do
  raise_if (not (leb row.base_revision max_workflow_revision)) invalid_stored_suggestion
  raise_if (is_empty row.step_id) invalid_stored_suggestion
  raise_if (not (is_fingerprint row.request_fingerprint)) invalid_stored_suggestion
  status ← or_invalid (parse_status row.status)
  error_code ← read_error row.error_code
  vs ← read_list row.proposed_titles
  titles ← read_status_titles status error_code vs
  ok (record {
    workflow_id = row.workflow_id;
    request_id = row.request_id;
    base_revision = row.base_revision;
    step_id = row.step_id;
    status = status;
    proposed_titles = titles;
    error_code = error_code;
  })
