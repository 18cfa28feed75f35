-- ===== src/Suggestion/Reserve/Pending.antt =====
-- What a reservation (`reserve_suggestion` of apps/api/app/suggestion_service.py) leaves pending.
use expo_fastapi_todo.Prelude.{
  ℕ, ◌≡◌, subst, sym, ap, Option, none, some, [], ◌∷◌, ◌++◌, Text, select, update_where, arith,
  Bool-cases, Option-cases, inl, inr, text_eq, text_eq_sound, ◌⊎◌,
}
use expo_fastapi_todo.Result.{Result-cases, ok, ok-injective}
use expo_fastapi_todo.Platform.{Platform}
use expo_fastapi_todo.Database.Rows.{WorkflowRow, SuggestionRow}
use expo_fastapi_todo.Database.Transaction.{Database, lift, lift-eq-ok, steps, after}
use expo_fastapi_todo.Workflow.Store.{find_workflow}
use expo_fastapi_todo.Suggestion.Types.{
  Clarification, normalize_optional, suggestion_fingerprint, SuggestionReservation,
  SuggestionSnapshot,
}
use expo_fastapi_todo.Suggestion.Snapshot.{suggestion_snapshot_from_row}
use expo_fastapi_todo.Suggestion.Checks.{validate_active_workflow}
use expo_fastapi_todo.Suggestion.Store.{
  superseded_status, find_suggestion, supersede_pending, insert_suggestion,
}
use expo_fastapi_todo.Suggestion.Reserve.{
  ReserveRequest, Reserved, reservation, saved, queue_fields, reserved_row, reserve_existing,
  reserve_new, reserve_request, reserve_locked, reserve_suggestion,
}
use expo_fastapi_todo.Suggestion.Reserve.NewRow.{
  waits, supersede_pending_rows, insert_suggestion_rows, one_pending, reserved_row-waits, IsNewRow,
  reserved_row-IsNewRow,
}

reserve_new_lem :
    (p : Platform) (now : ℕ) (request : ReserveRequest) (clarification : Option Clarification)
    (fingerprint : Text) (workflow : WorkflowRow) (db : Database) {r : Reserved} {db' : Database}
    → reserve_new p now request clarification fingerprint workflow db ≡ ok (r, db')
    → (x : SuggestionReservation) × (r ≡ reservation x)
      × (row : SuggestionRow) × (select (waits request) db'.suggestions.rows ≡ row ∷ [])
      × IsNewRow p now request x.request_fingerprint row
unfolding reserve_new
reserve_new_lem p now request clarification fingerprint workflow db {r} {db'} h =
    elim (steps
      (lift (
        validate_active_workflow p workflow request.workflow_id request.expected_revision
          request.step_id))
      _ db h) [
        | after _ db1 e h1 ↦
            elim (steps (supersede_pending request.owner_id request.workflow_id) _ db1 h1) [
              | after _ db2 f h2 ↦
                  elim (steps (lift (queue_fields p now request clarification workflow)) _ db2 h2) [
                    | after q db3 g h3 ↦
                        elim (steps (insert_suggestion (reserved_row request fingerprint q)) _ db3
                          h3) [
                            | after _ db4 k h4 ↦
                                let (queued, same) =
                                  lift-eq-ok (queue_fields p now request clarification workflow) db2
                                    g in
                                let rows : db'.suggestions.rows
                                    ≡ update_where (waits request) superseded_status
                                        db1.suggestions.rows
                                      ++ reserved_row request fingerprint q db3.suggestions.next_id
                                        ∷ [] =
                                  ground (
                                    arith,
                                    same,
                                    supersede_pending_rows request.owner_id request.workflow_id db1
                                        f,
                                    insert_suggestion_rows (reserved_row request fingerprint q) db3
                                        k,
                                  ) in
                                (
                                  _,
                                  sym (ap (λ (x : Reserved × Database). x.0) (ok-injective h4)),
                                  reserved_row request fingerprint q db3.suggestions.next_id,
                                  rw rows (
                                      one_pending request db1.suggestions.rows
                                        (reserved_row request fingerprint q db3.suggestions.next_id)
                                        (reserved_row-waits request fingerprint q
                                          db3.suggestions.next_id)),
                                  reserved_row-IsNewRow p now request clarification fingerprint
                                      workflow q db3.suggestions.next_id queued,
                                )
                          ]
                  ]
            ]
      ]

-- a stored request is answered by its snapshot and nothing is written
pub reserve_existing_lem :
    (request : ReserveRequest) (fingerprint : Text) (existing : SuggestionRow) (db : Database)
    {r : Reserved} {db' : Database}
    → reserve_existing request fingerprint existing db ≡ ok (r, db')
    → (s : SuggestionSnapshot) × (r ≡ saved s)
      × (db' ≡ db)
      × (existing.request_fingerprint ≡ fingerprint)
      × (suggestion_snapshot_from_row existing ≡ ok s)
unfolding reserve_existing
reserve_existing_lem request fingerprint existing db {r} {db'} h =
    elim (Bool-cases (text_eq existing.request_fingerprint fingerprint)) [
      | inr other ↦ absurd (ground arith)
      | inl same ↦ elim (Result-cases (suggestion_snapshot_from_row existing)) [
        | inr (e, unread) ↦ absurd (ground arith)
        | inl (s, read) ↦ (
          s,
          ground arith,
          ground arith,
          text_eq_sound existing.request_fingerprint fingerprint same,
          read,
        )
      ]
    ]

-- What a call has done: answered a stored request without a write, or left one row of the workflow
-- pending, the new one.
abbrev pub ReserveResult : Platform → ℕ → ReserveRequest → Database → Reserved → Database → Type 0
ReserveResult p now request db r db' =
    ((s : SuggestionSnapshot) × (r ≡ saved s)
      × (db' ≡ db)
      × (existing : SuggestionRow) × (find_suggestion request.owner_id request.workflow_id
            request.request_id db
          ≡ some existing)
      × (suggestion_snapshot_from_row existing ≡ ok s))
    ⊎ ((x : SuggestionReservation) × (r ≡ reservation x)
        × (find_suggestion request.owner_id request.workflow_id request.request_id db ≡ none)
        × (row : SuggestionRow) × (select (waits request) db'.suggestions.rows ≡ row ∷ [])
        × IsNewRow p now request x.request_fingerprint row)

reserve_request_lem :
    (p : Platform) (now : ℕ) (request : ReserveRequest) (clarification : Option Clarification)
    (fingerprint : Text) (workflow : WorkflowRow) (db : Database) {r : Reserved} {db' : Database}
    → reserve_request p now request clarification fingerprint workflow
        (find_suggestion request.owner_id request.workflow_id request.request_id db)
        db
      ≡ ok (r, db')
    → ReserveResult p now request db r db'
unfolding reserve_request
reserve_request_lem p now request clarification fingerprint workflow db {r} {db'} h =
    elim (Option-cases
      (find_suggestion request.owner_id request.workflow_id request.request_id db)) [
        | inr (existing, found) ↦
            let (s, is_saved, kept, same, read) =
              reserve_existing_lem request fingerprint existing db {r = r} {db' = db'}
                (rw found at h) in
            inl (s, is_saved, kept, existing, found, read)
        | inl free ↦
            let (x, is_new, row, only, new) =
              reserve_new_lem p now request clarification fingerprint workflow db {r = r}
                {db' = db'} (rw free at h) in
            inr (x, is_new, free, row, only, new)
      ]

reserve_locked_lem :
    (p : Platform) (now : ℕ) (request : ReserveRequest) (clarification : Option Clarification)
    (workflow : WorkflowRow) (db : Database) {r : Reserved} {db' : Database}
    → reserve_locked p now request clarification (some workflow) db ≡ ok (some r, db')
    → ReserveResult p now request db r db'
unfolding reserve_locked
reserve_locked_lem p now request clarification workflow db {r} {db'} h =
    elim (steps
      (lift (
        suggestion_fingerprint p request.workflow_id request.expected_revision request.step_id
          workflow.title clarification))
      _ db h) [
        | after fingerprint db1 e h1 ↦
            let (_, same) =
              lift-eq-ok
                (suggestion_fingerprint p request.workflow_id request.expected_revision
                  request.step_id workflow.title clarification)
                db e in
            elim (steps
              (reserve_request p now request clarification fingerprint workflow
                (find_suggestion request.owner_id request.workflow_id request.request_id db1))
              _ db1 h1) [
                | after reserved db2 f end ↦
                    subst (λ (d : Database). ReserveResult p now request d r db') same
                      (reserve_request_lem p now request clarification fingerprint workflow db1
                        {r = r} {db' = db'} (ground (arith, f)))
              ]
      ]

-- A reservation that returns of a workflow that exists has either answered a stored request by its
-- snapshot and written nothing, or stored a new request, and then the new row is the only row of the
-- workflow that is pending. It has the request's identity, no titles, error code or claim marker, and, if
-- queued, a deadline 15 minutes later.
pub reserve_suggestion_lem :
    (p : Platform) (now : ℕ) (request : ReserveRequest) (db : Database) {r : Reserved}
    {db' : Database}
    → reserve_suggestion p now request db ≡ ok (some r, db')
    → ReserveResult p now request db r db'
unfolding reserve_suggestion reserve_locked
reserve_suggestion_lem p now request db {r} {db'} h =
    elim (steps (lift (normalize_optional request.clarification)) _ db h) [
      | after clarification db1 e h1 ↦
          let (_, same) = lift-eq-ok (normalize_optional request.clarification) db e in
          elim (Option-cases (find_workflow request.workflow_id request.owner_id db1)) [
            | inl missing ↦ absurd (ground arith)
            | inr (workflow, found) ↦
                reserve_locked_lem p now request clarification workflow db {r = r} {db' = db'}
                  (ground arith)
          ]
    ]
