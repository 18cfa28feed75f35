-- ===== src/Tasks/Traced.antt =====
-- The stored trace parent of apps/api/app/suggestion_service.py in the headers of its task
-- (apps/api/app/suggestion_tasks.py).
use expo_fastapi_todo.Prelude.{
  ◌≡◌, refl, sym, true, false, Option, none, some, length, leb, Text, Bool, not, ◌&&◌, ◌||◌,
  if◌then◌else◌, ℕ, [], ◌∷◌, ap, ◌∙◌, inl, inr, select, codes,
}
use expo_fastapi_todo.Title.{strip_by, strip_by_idem}
use expo_fastapi_todo.Platform.{Platform}
use expo_fastapi_todo.Suggestion.Trace.{
  is_space, extract_stored_context, canonical_trace_parent, matches_trace_parent, all_zero, slice,
}
use expo_fastapi_todo.Result.{ok}
use expo_fastapi_todo.Json.{Json}
use expo_fastapi_todo.Database.Rows.{SuggestionRow}
use expo_fastapi_todo.Database.Transaction.{Database}
use expo_fastapi_todo.Suggestion.Types.{SuggestionReservation}
use expo_fastapi_todo.Suggestion.Reserve.{ReserveRequest, reservation, reserve_suggestion}
use expo_fastapi_todo.Suggestion.Reserve.NewRow.{waits}
use expo_fastapi_todo.Suggestion.Reserve.Pending.{reserve_suggestion_lem}
use expo_fastapi_todo.Worker.Body.{Bytes}
use expo_fastapi_todo.Tasks.{
  max_task_body_bytes, CloudTasksConfig, Task, task_payload, has_task_identity, task_of, task_for,
  trace_headers, validated_trace_header,
}
use expo_fastapi_todo.Tasks.Sent.{built}

kept :
    (a m b z : Bool) (text : Text) {stored : Text}
    → (if not (a && m) then none else if not b then none else if z then none else some text)
      ≡ some stored
    → (text ≡ stored) × (a ≡ true) × (b ≡ true)
kept true true true false text h = (cc, refl, refl)
kept true true true true text h = cc
kept true true false z text h = cc
kept true false b z text h = cc
kept false m b z text h = cc

-- what a canonical trace parent is
canonical_lem :
    (p : Platform) (value : Text) {stored : Text}
    → canonical_trace_parent p (some value) ≡ some stored
    → (strip_by is_space value ≡ stored)
      × (leb (length (strip_by is_space value)) 55 ≡ true)
      × (extract_stored_context p (strip_by is_space value) ≡ true)
unfolding canonical_trace_parent
canonical_lem p value h =
    let text = strip_by is_space value in
    kept (leb (length text) 55) (matches_trace_parent text) (extract_stored_context p text)
      (all_zero (slice 3 32 text) || all_zero (slice 36 16 text)) text h

-- A canonical trace parent passes the sender's check as it is.
canonical-validated :
    (p : Platform) (trace_parent : Option Text) (stored : Text)
    → canonical_trace_parent p trace_parent ≡ some stored
    → validated_trace_header p (some stored) ≡ some stored
unfolding canonical_trace_parent validated_trace_header
canonical-validated p none stored h = cc
canonical-validated p (some value) stored h =
    let (is_stored, short, extracts) = canonical_lem p value h in
    rw (sym is_stored) (rw (strip_by_idem is_space value) (rw short (rw extracts refl)))

-- A trace parent is stored only in its canonical form.
stored-canonical :
    (p : Platform) (queued : Bool) (trace_parent row_trace_parent : Option Text) (stored : Text)
    → row_trace_parent ≡ (if queued then canonical_trace_parent p trace_parent else none)
    → row_trace_parent ≡ some stored
    → canonical_trace_parent p trace_parent ≡ some stored
stored-canonical p true trace_parent row_trace_parent stored e h = sym e ∙ h
stored-canonical p false trace_parent row_trace_parent stored e h = cc

task_for-headers :
    (p : Platform) (dumps : Json → Bytes) (config : CloudTasksConfig) (id : ℕ) (fingerprint : Text)
    (trace_parent : Option Text) {task : Task}
    → task_for p dumps config id fingerprint trace_parent ≡ some task
    → task.headers
      ≡ (codes "Content-Type", codes "application/json")
        ∷ trace_headers (validated_trace_header p trace_parent)
unfolding task_for task_of
task_for-headers p dumps config id fingerprint trace_parent h =
    let body = dumps (task_payload id) in
    let (_, _, is_task) =
      built (has_task_identity id fingerprint) (leb (length body) max_task_body_bytes)
        (task_of p config id fingerprint trace_parent body) h in
    ap (λ (t : Task). t.headers) (sym is_task)

-- The trace parent that a new reservation has stored in its pending row is sent verbatim in both headers
-- of the task that is made from that row.
pub stored_trace_is_sent :
    (p : Platform) (dumps : Json → Bytes) (config : CloudTasksConfig) (now : ℕ)
    (request : ReserveRequest) (db db' : Database) (row : SuggestionRow) (stored : Text)
    (task : Task) {x : SuggestionReservation}
    → reserve_suggestion p now request db ≡ ok (some (reservation x), db')
    → select (waits request) db'.suggestions.rows ≡ row ∷ []
    → row.trace_parent ≡ some stored
    → task_for p dumps config row.id row.request_fingerprint row.trace_parent ≡ some task
    → task.headers
      ≡ (codes "Content-Type", codes "application/json")
        ∷ (codes "traceparent", stored)
        ∷ (codes "X-Suggestion-Traceparent", stored)
        ∷ []
unfolding trace_headers
stored_trace_is_sent p dumps config now request db db' row stored task {x} h only has_trace sent =
    elim (reserve_suggestion_lem p now request db {r = reservation x} {db' = db'} h) [
      | inl (s, is_saved, _, _, _, _) ↦ cc is_saved
      | inr (y, _, _, new_row, is_only, new) ↦
          let this : row ≡ new_row = cc (only, is_only) in
          let canonical =
            stored-canonical p request.queued request.trace_parent row.trace_parent stored
              (rw this new.trace_parent) has_trace in
          let headers =
            task_for-headers p dumps config row.id row.request_fingerprint row.trace_parent sent in
          headers
          ∙ rw has_trace (rw (canonical-validated p request.trace_parent stored canonical) refl)
    ]
