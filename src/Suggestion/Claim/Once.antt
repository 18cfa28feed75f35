-- ===== src/Suggestion/Claim/Once.antt =====
-- The row that a granted claim (`_claim_inner` of apps/api/app/suggestion_service.py) leaves.
use expo_fastapi_todo.Prelude.{
  ℕ, ◌≡◌, refl, some, List, [], ◌∷◌, arith, ◌==◌, find, update_where, find_passes,
}
use expo_fastapi_todo.Result.{ok}
use expo_fastapi_todo.Platform.{Platform}
use expo_fastapi_todo.Database.Rows.{SuggestionRow}
use expo_fastapi_todo.Database.Transaction.{Database}
use expo_fastapi_todo.Workflow.Domain.{Uuid}
use expo_fastapi_todo.Suggestion.Store.{find_suggestion_id}
use expo_fastapi_todo.Suggestion.Claim.{ClaimedSuggestion, claimed, claimed_row, claim_suggestion}
use expo_fastapi_todo.Suggestion.Claim.Granted.{claim-Granted}

-- the row that an update by id writes is the row that the id finds
pub find-update_where :
    (row row' : SuggestionRow) (rows : List SuggestionRow) (id : ℕ)
    → find (λ r. r.id == id) rows ≡ some row
    → row'.id ≡ row.id
    → find (λ r. r.id == id) (update_where (λ r. r.id == row.id) (λ _. row') rows) ≡ some row'
find-update_where row row' [] id e same = cc
find-update_where row row' (x ∷ xs) id e same =
    ground
      (arith, find_passes (λ r. r.id == id) (x ∷ xs) {x = row} e, find-update_where row row' xs id)

-- the row after a granted claim
pub granted_row :
    (p : Platform) (now : ℕ) (event_id : Uuid) (id owner_id : ℕ) (workflow_id : Uuid)
    (db : Database) {c : ClaimedSuggestion} {db' : Database}
    (h : claim_suggestion p now event_id id (some (owner_id, workflow_id)) db ≡ ok (claimed c, db'))
    → find_suggestion_id id db'
      ≡ some (claimed_row now (claim-Granted p now event_id id owner_id workflow_id db h).row)
unfolding find_suggestion_id
granted_row p now event_id id owner_id workflow_id db h =
    let first = claim-Granted p now event_id id owner_id workflow_id db h in
    rw first.marked (
      find-update_where first.row (claimed_row now first.row) db.suggestions.rows id first.found
        refl)
