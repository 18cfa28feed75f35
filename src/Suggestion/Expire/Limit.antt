-- ===== src/Suggestion/Expire/Limit.antt =====
-- A pass of `expire_suggestions` of apps/api/app/suggestion_service.py is bounded.
use expo_fastapi_todo.Prelude.{
  ℕ, ◌≡◌, some, List, [], ◌∷◌, arith, refl, any, find, update_where, ◌==◌, false, codes,
}
use expo_fastapi_todo.Result.{ok}
use expo_fastapi_todo.Database.Rows.{SuggestionRow}
use expo_fastapi_todo.Database.Transaction.{Database, steps, after}
use expo_fastapi_todo.Workflow.Domain.{Uuid}
use expo_fastapi_todo.Suggestion.Store.{fail_row, failed_row, save_suggestion, find_suggestion_id}
use expo_fastapi_todo.Suggestion.Claim.Granted.{save_suggestion_lem}
use expo_fastapi_todo.Analytics.Events.Laws.{record_event_lem}
use expo_fastapi_todo.Suggestion.Expire.{ExpiredSuggestion}

-- The rows that a list of expired suggestions does not name stay as they are.
abbrev pub Unchanged : List ExpiredSuggestion → Database → Database → Type 0
Unchanged expired db db' =
    (id : ℕ)
    → any (λ e. e.suggestion_id == id) expired ≡ false
    → find_suggestion_id id db' ≡ find_suggestion_id id db

find_other :
    (row : SuggestionRow) (id : ℕ) (rows : List SuggestionRow)
    → (row.id == id) ≡ false
    → find (λ r. r.id == id) (update_where (λ r. r.id == row.id) (λ _. row) rows)
      ≡ find (λ r. r.id == id) rows
find_other row id [] other = refl
find_other row id (x ∷ xs) other = ground (arith, find_other row id xs other)

pub fail_row-other :
    (now : ℕ) (event_id : Uuid) (row : SuggestionRow) (db : Database) {u : Unit {0}}
    {db' : Database} (id : ℕ)
    → fail_row now event_id row db ≡ ok (u, db')
    → (row.id == id) ≡ false
    → find_suggestion_id id db' ≡ find_suggestion_id id db
unfolding fail_row find_suggestion_id
fail_row-other now event_id row db {u} {db'} id h other =
    elim (steps (save_suggestion (failed_row row)) _ db h) [
      | after _ db1 saved rest ↦
          let (_, _, _, event) =
            record_event_lem now event_id (codes "suggestion_finished") row.owner_id
              (some row.workflow_id) (some (codes "expired")) db1 {db' = db'} (ground arith) in
          let rows : db'.suggestions.rows
              ≡ update_where (λ r. r.id == row.id) (λ _. failed_row row) db.suggestions.rows =
            ground (arith, event, save_suggestion_lem (failed_row row) db saved) in
          rw rows (find_other (failed_row row) id db.suggestions.rows other)
    ]
