-- ===== src/Suggestion/History/Operations.antt =====
-- Each operation of apps/api/app/suggestion_service.py lets the suggestions evolve.
use expo_fastapi_todo.Prelude.{
  ℕ, ◌+◌, ◌≡◌, refl, true, not, ◌&&◌, Option, none, some, arith, ◌==◌, ltb, if◌then◌else◌, Text,
}
use expo_fastapi_todo.Result.{Result, suggestion_in_progress}
use expo_fastapi_todo.Platform.{Platform}
use expo_fastapi_todo.Database.Rows.{SuggestionRow}
use expo_fastapi_todo.Database.Transaction.{Database, pure, raise, lift, continue, ◌>>=◌}
use expo_fastapi_todo.Workflow.Domain.{Uuid}
use expo_fastapi_todo.Workflow.Store.{find_workflow}
use expo_fastapi_todo.Suggestion.Types.{Clarification, SuggestionSnapshot}
use expo_fastapi_todo.Suggestion.Snapshot.{suggestion_snapshot_from_row}
use expo_fastapi_todo.Suggestion.Checks.{
  validate_claimed_workflow, require_canonical_goal, decode_stored_clarification,
  claim_fingerprint_matches,
}
use expo_fastapi_todo.Suggestion.Store.{
  is_pending, is_latest, find_suggestion_id, latest_suggestion, failed_row, superseded_row,
  save_suggestion,
}
use expo_fastapi_todo.Suggestion.Claim.{
  no_work, timeout, superseded, claimed, Discovered, claimable, is_expired, claimed_row, claim_of,
  claim_timeout, claim_superseded, claim_grant, claim_fresh, claim_again, claim_live, claim_row,
  claim_found, claim_suggestion,
}
use expo_fastapi_todo.Suggestion.Reserve.{suggestion_claim_ttl}
use expo_fastapi_todo.Suggestion.History.{IsOrdered}
use expo_fastapi_todo.Suggestion.History.Safe.{
  Commits, IsSafe, pure-IsSafe, raise-IsSafe, if-IsSafe, bind-IsSafe, lift-bind-IsSafe,
  ordered-IsSafe,
}
use expo_fastapi_todo.Suggestion.History.Writes.{
  find_id, fail_row-IsSafe, supersede_row-IsSafe, claimed-IsSafe,
}

-- the snapshot after a write, as the operations return it
module _ {ℓ} {B : Type ℓ} where
  pub then_snapshot-IsSafe :
      (r : Result (Unit {0} × Database)) (row : SuggestionRow) (f : SuggestionSnapshot → B)
      (db : Database)
      → Commits r db
      → Commits (continue r (λ _. lift (suggestion_snapshot_from_row row) >>= λ s. pure (f s))) db
  then_snapshot-IsSafe r row f db safe = bind-IsSafe r _ db safe (λ _ db1 _.
      lift-bind-IsSafe (suggestion_snapshot_from_row row) _ db1 (λ s _. pure-IsSafe (f s) db1))

module _ (p : Platform) (now : ℕ) (event_id : Uuid) (owner_id : ℕ) (workflow_id : Uuid)
    (row : SuggestionRow) (waiting : is_pending row ≡ true) (db : Database)
    (found : find_suggestion_id row.id db ≡ some row) where
  claim_timeout-IsSafe : IsSafe (claim_timeout now event_id row) db
  unfolding claim_timeout
  claim_timeout-IsSafe =
      then_snapshot-IsSafe _ (failed_row row) timeout db
        (fail_row-IsSafe row waiting db found now event_id)

  claim_superseded-IsSafe : IsSafe (claim_superseded row) db
  unfolding claim_superseded
  claim_superseded-IsSafe =
      then_snapshot-IsSafe _ (superseded_row row) superseded db
        (supersede_row-IsSafe row waiting db found)

  claim_grant-IsSafe :
      (goal : Text) (clarification : Option Clarification)
      → row.provider_started_at ≡ none
      → IsSafe (claim_grant now goal clarification row) db
  unfolding claim_grant
  claim_grant-IsSafe goal clarification unclaimed =
      bind-IsSafe (save_suggestion (claimed_row now row) db) _ db
        (claimed-IsSafe row waiting db found now unclaimed)
        (λ _ db1 _. pure-IsSafe (claimed (claim_of now goal clarification row)) db1)

  claim_fresh-IsSafe :
      (goal : Text) (clarification : Option Clarification)
      → row.provider_started_at ≡ none
      → IsSafe (claim_fresh p now owner_id workflow_id goal clarification row) db
  unfolding claim_fresh
  claim_fresh-IsSafe goal clarification unclaimed =
      if-IsSafe
        (not (
          validate_claimed_workflow p (find_workflow workflow_id owner_id db) row
          && is_latest (latest_suggestion owner_id workflow_id db) row))
        (claim_superseded row)
        (lift (claim_fingerprint_matches p row goal clarification) >>= λ matches.
          if matches then claim_grant now goal clarification row else claim_superseded row)
        db (λ _. claim_superseded-IsSafe)
        (λ _.
          lift-bind-IsSafe (claim_fingerprint_matches p row goal clarification) _ db (λ matches _.
            if-IsSafe matches (claim_grant now goal clarification row) (claim_superseded row) db
              (λ _. claim_grant-IsSafe goal clarification unclaimed)
              (λ _. claim_superseded-IsSafe)))

  claim_live-IsSafe :
      (goal : Text) (clarification : Option Clarification) (marker : Option ℕ)
      → row.provider_started_at ≡ marker
      → IsSafe (claim_live p now event_id owner_id workflow_id goal clarification marker row) db
  unfolding claim_live claim_again
  claim_live-IsSafe goal clarification none e = claim_fresh-IsSafe goal clarification e
  claim_live-IsSafe goal clarification (some started) e =
      if-IsSafe (ltb now (started + suggestion_claim_ttl)) (raise suggestion_in_progress)
        (claim_timeout now event_id row) db (λ _. raise-IsSafe suggestion_in_progress db)
        (λ _. claim_timeout-IsSafe)

  claim_row-IsSafe : IsSafe (claim_row p now event_id owner_id workflow_id row) db
  unfolding claim_row
  claim_row-IsSafe = lift-bind-IsSafe (require_canonical_goal row.goal_snapshot) _ db (λ goal _.
      lift-bind-IsSafe (decode_stored_clarification row.clarification_snapshot) _ db
        (λ clarification _.
          if-IsSafe (is_expired now row) (claim_timeout now event_id row)
            (claim_live p now event_id owner_id workflow_id goal clarification
              row.provider_started_at row)
            db (λ _. claim_timeout-IsSafe)
            (λ _. claim_live-IsSafe goal clarification row.provider_started_at refl)))

-- a row that a search found is the row of its id
pub found_id :
    (id : ℕ) (db : Database) {row : SuggestionRow}
    → IsOrdered db
    → find_suggestion_id id db ≡ some row
    → find_suggestion_id row.id db ≡ some row
unfolding find_suggestion_id
found_id id db ordered found =
    find_id (λ r. r.id == id) 0 db.suggestions.next_id db.suggestions.rows ordered found

claim_found-IsSafe :
    (p : Platform) (now : ℕ) (event_id : Uuid) (owner_id : ℕ) (workflow_id : Uuid)
    (found : Option SuggestionRow) (db : Database)
    → ((row : SuggestionRow) → found ≡ some row → find_suggestion_id row.id db ≡ some row)
    → IsSafe (claim_found p now event_id owner_id workflow_id found) db
unfolding claim_found claimable
claim_found-IsSafe p now event_id owner_id workflow_id none db there = pure-IsSafe no_work db
claim_found-IsSafe p now event_id owner_id workflow_id (some row) db there =
    if-IsSafe (claimable owner_id workflow_id row)
      (claim_row p now event_id owner_id workflow_id row) (pure no_work) db
      (λ hit.
        claim_row-IsSafe p now event_id owner_id workflow_id row (ground arith) db (there row refl))
      (λ _. pure-IsSafe no_work db)

pub claim_suggestion-IsSafe :
    (p : Platform) (now : ℕ) (event_id : Uuid) (id : ℕ) (discovered : Option Discovered)
    (db : Database)
    → IsSafe (claim_suggestion p now event_id id discovered) db
unfolding claim_suggestion
claim_suggestion-IsSafe p now event_id id none db = pure-IsSafe no_work db
claim_suggestion-IsSafe p now event_id id (some (owner_id, workflow_id)) db =
    ordered-IsSafe (claim_suggestion p now event_id id (some (owner_id, workflow_id))) db
      (λ ordered.
        claim_found-IsSafe p now event_id owner_id workflow_id (find_suggestion_id id db) db
          (λ row e. found_id id db ordered e))
