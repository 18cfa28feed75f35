-- ===== src/Suggestion/FinishClaimed/Deadline.antt =====
-- What `finish_claimed_suggestion` of apps/api/app/suggestion_service.py stores, and when it stores nothing.
use expo_fastapi_todo.Prelude.{
  ℕ, ◌≡◌, ◌⊎◌, refl, true, Option, none, some, List, arith, Bool-cases, inl, inr, ◌==◌, Text,
}
use expo_fastapi_todo.Result.{ok}
use expo_fastapi_todo.Platform.{Platform}
use expo_fastapi_todo.Database.Rows.{SuggestionRow}
use expo_fastapi_todo.Database.Transaction.{Database, lift, lift-eq-ok, steps, after}
use expo_fastapi_todo.Workflow.Domain.{Uuid}
use expo_fastapi_todo.Suggestion.Types.{SuggestionErrorCode, SuggestionSnapshot}
use expo_fastapi_todo.Suggestion.Checks.{check_result, decode_stored_clarification}
use expo_fastapi_todo.Suggestion.Store.{find_suggestion_id}
use expo_fastapi_todo.Suggestion.Claim.{ClaimedSuggestion}
use expo_fastapi_todo.Prelude.{◌==◌}
use expo_fastapi_todo.Suggestion.FinishClaimed.{
  finishable, past_deadline, finish_claimed_row, finish_claimed_found, finish_claimed_suggestion,
}
use expo_fastapi_todo.Suggestion.FinishClaimed.Finished.{
  finished_row, result_row-finished_row, still_valid, Finished, guards-Finished,
  finish_superseded_lem, finish_stored_lem, IsLive, IsLive-guards,
}

-- What a call has done: nothing, as the claim is not live, or a result stored in time.
abbrev pub FinishResult :
    Platform
    → ℕ
    → ClaimedSuggestion
    → ℕ
    → Uuid
    → Option (List Text)
    → Option SuggestionErrorCode
    → Database
    → Option SuggestionSnapshot
    → Database
    → Type 0
FinishResult p now claim owner_id workflow_id titles error_code db r db' =
    ((r ≡ none) × (db' ≡ db) × (¬ IsLive now claim owner_id workflow_id db))
    ⊎ ((s : SuggestionSnapshot) × (r ≡ some s)
        × Finished p now claim workflow_id titles error_code db s db')

finish_claimed_row_lem :
    (p : Platform) (now : ℕ) (event_id : Uuid) (claim : ClaimedSuggestion)
    (titles canonical : Option (List Text)) (error_code : Option SuggestionErrorCode) (owner_id : ℕ)
    (workflow_id : Uuid) (row : SuggestionRow) (db : Database) {r : Option SuggestionSnapshot}
    {db' : Database}
    → check_result titles error_code ≡ ok canonical
    → find_suggestion_id claim.suggestion_id db ≡ some row
    → finishable claim workflow_id row ≡ true
    → finish_claimed_row p now event_id claim canonical error_code claim.owner_id workflow_id row db
      ≡ ok (r, db')
    → FinishResult p now claim owner_id workflow_id titles error_code db r db'
unfolding finish_claimed_row finished_row
finish_claimed_row_lem p now event_id claim titles canonical error_code owner_id workflow_id row db
      {r} {db'} checked found waiting h =
    elim (steps (lift (decode_stored_clarification row.clarification_snapshot)) _ db h) [
      | after c db1 e h1 ↦
          let (decoded, same) =
            lift-eq-ok (decode_stored_clarification row.clarification_snapshot) db e in
          elim (Bool-cases (past_deadline now claim row)) [
            | inl late ↦ inl (
              ground arith,
              ground arith,
              (λ l.
                  absurd
                    (cc (late, (IsLive-guards now claim owner_id workflow_id db row found l).1))),
            )
            | inr in_time ↦ elim (Bool-cases (still_valid p claim.owner_id workflow_id db row)) [
              | inl valid ↦
                  let (s, stored, is_s, rows) =
                    finish_stored_lem now event_id row canonical error_code db {r = r} {db' = db'}
                      (ground arith) in
                  inr (
                    s,
                    is_s,
                    guards-Finished p now claim workflow_id titles canonical error_code row db s db'
                        found waiting in_time checked
                        (rw valid (rw (result_row-finished_row canonical error_code row) stored))
                        (rw valid (rw (result_row-finished_row canonical error_code row) rows)),
                  )
              | inr stale ↦
                  let (s, stored, is_s, rows) =
                    finish_superseded_lem row db {r = r} {db' = db'} (ground arith) in
                  inr (
                    s,
                    is_s,
                    guards-Finished p now claim workflow_id titles canonical error_code row db s db'
                        found waiting in_time checked (rw stale stored) (rw stale rows),
                  )
            ]
          ]
    ]

finish_claimed_found_lem :
    (p : Platform) (now : ℕ) (event_id : Uuid) (claim : ClaimedSuggestion)
    (titles canonical : Option (List Text)) (error_code : Option SuggestionErrorCode) (owner_id : ℕ)
    (workflow_id : Uuid) (found : Option SuggestionRow) (db : Database)
    {r : Option SuggestionSnapshot} {db' : Database}
    → check_result titles error_code ≡ ok canonical
    → find_suggestion_id claim.suggestion_id db ≡ found
    → finish_claimed_found p now event_id claim canonical error_code claim.owner_id workflow_id
        found db
      ≡ ok (r, db')
    → FinishResult p now claim owner_id workflow_id titles error_code db r db'
unfolding finish_claimed_found
finish_claimed_found_lem p now event_id claim titles canonical error_code owner_id workflow_id none
      db checked e h =
    inl (ground arith, ground arith, (λ l. absurd (cc (e, l.found))))
finish_claimed_found_lem p now event_id claim titles canonical error_code owner_id workflow_id
      (some row) db {r} {db'} checked e h =
    elim (Bool-cases (finishable claim workflow_id row)) [
      | inr taken ↦ inl (
        ground arith,
        ground arith,
        (λ l. absurd (cc (taken, (IsLive-guards now claim owner_id workflow_id db row e l).0))),
      )
      | inl waiting ↦
          finish_claimed_row_lem p now event_id claim titles canonical error_code owner_id
            workflow_id row db {r = r} {db' = db'} checked e waiting (ground arith)
    ]

-- A call that returns has done nothing and returns nothing, and then the claim is not live, or it returns the snapshot of the row of
-- the caller's own claim, queued, pending, before its expiry and less than 2 minutes after the claim: with
-- the checked result if the workflow has not moved on and the row is its latest, and superseded
-- otherwise. The row is then stored as such.
pub finish_claimed_suggestion_lem :
    (p : Platform) (now : ℕ) (event_id : Uuid) (claim : ClaimedSuggestion)
    (titles : Option (List Text)) (error_code : Option SuggestionErrorCode) (owner_id : ℕ)
    (workflow_id : Uuid) (db : Database) {r : Option SuggestionSnapshot} {db' : Database}
    → finish_claimed_suggestion p now event_id claim titles error_code
        (some (owner_id, workflow_id))
        db
      ≡ ok (r, db')
    → FinishResult p now claim owner_id workflow_id titles error_code db r db'
unfolding finish_claimed_suggestion
finish_claimed_suggestion_lem p now event_id claim titles error_code owner_id workflow_id db {r}
      {db'} h =
    elim (steps (lift (check_result titles error_code)) _ db h) [
      | after canonical db1 e rest ↦
          let (checked, same) = lift-eq-ok (check_result titles error_code) db e in
          elim (Bool-cases (owner_id == claim.owner_id)) [
            | inr other ↦
                inl
                  (ground arith, ground arith, (λ l. absurd (ground (arith, other, l.discovered))))
            | inl own ↦
                finish_claimed_found_lem p now event_id claim titles canonical error_code owner_id
                  workflow_id (find_suggestion_id claim.suggestion_id db) db {r = r} {db' = db'}
                  checked refl (ground arith)
          ]
    ]
