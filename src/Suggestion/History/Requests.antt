-- ===== src/Suggestion/History/Requests.antt =====
-- `reserve_suggestion` and `finish_suggestion` of apps/api/app/suggestion_service.py let the suggestions
-- evolve.
use expo_fastapi_todo.Prelude.{
  ℕ, ◌≡◌, refl, ap, ◌∙◌, true, not, ◌&&◌, Option, none, some, List, arith, leb, if◌then◌else◌, find,
  text_eq, Text, is_empty,
}
use expo_fastapi_todo.Result.{ok, stale_suggestion, raise_if, invalid_stored_suggestion, >>=-eq-ok}
use expo_fastapi_todo.Platform.{Platform, is_fingerprint}
use expo_fastapi_todo.Database.Rows.{WorkflowRow, SuggestionRow, pending_value}
use expo_fastapi_todo.Database.Transaction.{Database, pure, raise, lift, ◌>>◌}
use expo_fastapi_todo.Workflow.Domain.{Uuid, max_workflow_revision}
use expo_fastapi_todo.Workflow.Store.{find_workflow}
use expo_fastapi_todo.Suggestion.Types.{
  Clarification, SuggestionSnapshot, SuggestionStatus, parse_status, pending, ready, failed,
  superseded, normalize_optional, suggestion_fingerprint,
}
use expo_fastapi_todo.Suggestion.Snapshot.{
  suggestion_snapshot_from_row, or_invalid, read_error, read_list, read_status_titles,
}
use expo_fastapi_todo.Suggestion.Checks.{workflow_unchanged, check_result, validate_active_workflow}
use expo_fastapi_todo.Suggestion.Store.{
  is_latest, find_suggestion_id, find_suggestion, is_suggestion, latest_suggestion, set_result,
  result_row, supersede_pending, insert_suggestion,
}
use expo_fastapi_todo.Suggestion.Reserve.{
  ReserveRequest, is_finished, status_is_pending, reserve_existing, reserved_row, queue_fields,
  reserve_new, reserve_request, reserve_locked, reserve_suggestion,
}
use expo_fastapi_todo.Suggestion.Reserve.Pending.{reserve_existing_lem}
use expo_fastapi_todo.Suggestion.Finish.{
  FinishRequest, finish_row, finish_found, finish_locked, finish_suggestion,
}
use expo_fastapi_todo.Suggestion.History.{Follows-same}
use expo_fastapi_todo.Suggestion.History.Safe.{
  IsSafe, pure-IsSafe, raise-IsSafe, lift-IsSafe, if-IsSafe, bind-IsSafe, lift-bind-IsSafe,
  ordered-IsSafe,
}
use expo_fastapi_todo.Suggestion.History.Writes.{
  find_id, set_result-IsSafe, supersede_pending-IsSafe, insert_suggestion-IsSafe,
}

or_invalid-eq-ok : {A : Type 0} (o : Option A) {a : A} → or_invalid o ≡ ok a → o ≡ some a
or_invalid-eq-ok none h = cc
or_invalid-eq-ok (some x) h = ground arith

-- the status of a row that can be read
snapshot_status :
    (row : SuggestionRow) {s : SuggestionSnapshot}
    → suggestion_snapshot_from_row row ≡ ok s
    → parse_status row.status ≡ some s.status
unfolding suggestion_snapshot_from_row
snapshot_status row h =
    let (_, _, h1) =
      >>=-eq-ok
        (raise_if (not (leb row.base_revision max_workflow_revision)) invalid_stored_suggestion) _
        h in
    let (_, _, h2) = >>=-eq-ok (raise_if (is_empty row.step_id) invalid_stored_suggestion) _ h1 in
    let (_, _, h3) =
      >>=-eq-ok (raise_if (not (is_fingerprint row.request_fingerprint)) invalid_stored_suggestion)
        _ h2 in
    let (status, e, h4) = >>=-eq-ok (or_invalid (parse_status row.status)) _ h3 in
    let (error_code, _, h5) = >>=-eq-ok (read_error row.error_code) _ h4 in
    let (vs, _, h6) = >>=-eq-ok (read_list row.proposed_titles) _ h5 in
    let (titles, _, h7) = >>=-eq-ok (read_status_titles status error_code vs) _ h6 in
    or_invalid-eq-ok (parse_status row.status) e ∙ ground arith

parsed_pending :
    (t : Text) (status : SuggestionStatus)
    → parse_status t ≡ some status
    → status_is_pending status ≡ true
    → text_eq t pending_value ≡ true
unfolding parse_status
parsed_pending t pending h e = ground arith
parsed_pending t ready h e = cc
parsed_pending t failed h e = cc
parsed_pending t superseded h e = cc

module _ (p : Platform) (now : ℕ) (event_id : Uuid) (request : FinishRequest)
    (titles : Option (List Text)) where
  finish_row-IsSafe :
      (workflow : WorkflowRow) (row : SuggestionRow) (db : Database)
      → find_suggestion_id row.id db ≡ some row
      → IsSafe (finish_row p now event_id request titles workflow row) db
  unfolding finish_row
  finish_row-IsSafe workflow row db found =
      lift-bind-IsSafe (suggestion_snapshot_from_row row) _ db (λ snapshot read.
        let waits =
          status_is_pending snapshot.status
          && is_latest (latest_suggestion request.owner_id request.workflow_id db) row in
        let store =
          set_result now event_id row titles request.error_code
          >> lift (suggestion_snapshot_from_row (result_row titles request.error_code row)) in
        let checked =
          if not (workflow_unchanged p workflow row) then raise stale_suggestion else store in
        let pending_store : waits ≡ true → IsSafe store db = λ hit.
          bind-IsSafe (set_result now event_id row titles request.error_code db) _ db
            (set_result-IsSafe row
              (parsed_pending row.status snapshot.status (snapshot_status row read) (ground arith))
              db found now event_id titles request.error_code)
            (λ _ db1 _.
              lift-IsSafe (suggestion_snapshot_from_row (result_row titles request.error_code row))
                db1) in
        if-IsSafe (is_finished snapshot.status) (pure snapshot)
          (if not waits then raise stale_suggestion else checked) db (λ _. pure-IsSafe snapshot db)
          (λ _.
            if-IsSafe (not waits) (raise stale_suggestion) checked db
              (λ _. raise-IsSafe stale_suggestion db)
              (λ hit.
                if-IsSafe (not (workflow_unchanged p workflow row)) (raise stale_suggestion) store
                  db (λ _. raise-IsSafe stale_suggestion db) (λ _. pending_store (ground arith)))))

  finish_found-IsSafe :
      (workflow : WorkflowRow) (found : Option SuggestionRow) (db : Database)
      → ((row : SuggestionRow) → found ≡ some row → find_suggestion_id row.id db ≡ some row)
      → IsSafe (finish_found p now event_id request titles workflow found) db
  unfolding finish_found
  finish_found-IsSafe workflow none db there = raise-IsSafe stale_suggestion db
  finish_found-IsSafe workflow (some row) db there =
      finish_row-IsSafe workflow row db (there row refl)

  finish_locked-IsSafe :
      (workflow : Option WorkflowRow) (db : Database)
      → IsSafe (finish_locked p now event_id request titles workflow) db
  unfolding finish_locked find_suggestion find_suggestion_id
  finish_locked-IsSafe none db = pure-IsSafe none db
  finish_locked-IsSafe (some workflow) db =
      let search = is_suggestion request.owner_id request.workflow_id request.request_id in
      ordered-IsSafe (finish_locked p now event_id request titles (some workflow)) db (λ ordered.
        bind-IsSafe
          (finish_found p now event_id request titles workflow (find search db.suggestions.rows) db)
          _ db
          (finish_found-IsSafe workflow (find search db.suggestions.rows) db
            (λ row e. find_id search 0 db.suggestions.next_id db.suggestions.rows ordered e))
          (λ snapshot db1 _. pure-IsSafe (some snapshot) db1))

pub finish_suggestion-IsSafe :
    (p : Platform) (now : ℕ) (event_id : Uuid) (request : FinishRequest) (db : Database)
    → IsSafe (finish_suggestion p now event_id request) db
unfolding finish_suggestion
finish_suggestion-IsSafe p now event_id request db =
    lift-bind-IsSafe (check_result request.titles request.error_code) _ db (λ titles _.
      finish_locked-IsSafe p now event_id request titles
        (find_workflow request.workflow_id request.owner_id db) db)

reserve_existing-IsSafe :
    (request : ReserveRequest) (fingerprint : Text) (existing : SuggestionRow) (db : Database)
    → IsSafe (reserve_existing request fingerprint existing) db
reserve_existing-IsSafe request fingerprint existing db = record {
  run = λ {a} {db'} h ordered.
      let (_, _, same, _, _) =
        reserve_existing_lem request fingerprint existing db {r = a} {db' = db'} h in
      Follows-same db db' ordered (ap (λ (d : Database). d.suggestions) same);
}

module _ (p : Platform) (now : ℕ) (request : ReserveRequest) (clarification : Option Clarification)
    (fingerprint : Text) where
  reserve_new-IsSafe :
      (workflow : WorkflowRow) (db : Database)
      → IsSafe (reserve_new p now request clarification fingerprint workflow) db
  unfolding reserve_new
  reserve_new-IsSafe workflow db =
      lift-bind-IsSafe
        (validate_active_workflow p workflow request.workflow_id request.expected_revision
          request.step_id)
        _ db
        (λ _ _.
          bind-IsSafe (supersede_pending request.owner_id request.workflow_id db) _ db
            (supersede_pending-IsSafe request.owner_id request.workflow_id db)
            (λ _ db1 _.
              lift-bind-IsSafe (queue_fields p now request clarification workflow) _ db1 (λ q _.
                bind-IsSafe (insert_suggestion (reserved_row request fingerprint q) db1) _ db1
                  (insert_suggestion-IsSafe (reserved_row request fingerprint q) db1 (λ id. refl))
                  (λ _ db2 _. pure-IsSafe _ db2))))

  reserve_request-IsSafe :
      (workflow : WorkflowRow) (existing : Option SuggestionRow) (db : Database)
      → IsSafe (reserve_request p now request clarification fingerprint workflow existing) db
  unfolding reserve_request
  reserve_request-IsSafe workflow none db = reserve_new-IsSafe workflow db
  reserve_request-IsSafe workflow (some existing) db =
      reserve_existing-IsSafe request fingerprint existing db

reserve_locked-IsSafe :
    (p : Platform) (now : ℕ) (request : ReserveRequest) (clarification : Option Clarification)
    (workflow : Option WorkflowRow) (db : Database)
    → IsSafe (reserve_locked p now request clarification workflow) db
unfolding reserve_locked
reserve_locked-IsSafe p now request clarification none db = pure-IsSafe none db
reserve_locked-IsSafe p now request clarification (some workflow) db =
    let existing = find_suggestion request.owner_id request.workflow_id request.request_id db in
    lift-bind-IsSafe
      (suggestion_fingerprint p request.workflow_id request.expected_revision request.step_id
        workflow.title clarification)
      _ db
      (λ fingerprint _.
        bind-IsSafe (reserve_request p now request clarification fingerprint workflow existing db) _
          db (reserve_request-IsSafe p now request clarification fingerprint workflow existing db)
          (λ reserved db1 _. pure-IsSafe (some reserved) db1))

pub reserve_suggestion-IsSafe :
    (p : Platform) (now : ℕ) (request : ReserveRequest) (db : Database)
    → IsSafe (reserve_suggestion p now request) db
unfolding reserve_suggestion
reserve_suggestion-IsSafe p now request db =
    lift-bind-IsSafe (normalize_optional request.clarification) _ db (λ clarification _.
      reserve_locked-IsSafe p now request clarification
        (find_workflow request.workflow_id request.owner_id db) db)
