-- ===== src/Suggestion/History/Results.antt =====
-- `finish_suggestion`, `finish_claimed_suggestion`, `reserve_suggestion` and
-- `expire_suggestions_with_context` of apps/api/app/suggestion_service.py let the suggestions evolve.
use expo_fastapi_todo.Prelude.{
  ℕ, suc, ◌≡◌, refl, Bool, true, not, ◌&&◌, Option, none, some, List, [], ◌∷◌, ◌++◌, arith, ◌==◌,
  if◌then◌else◌, Text,
}
use expo_fastapi_todo.Platform.{Platform}
use expo_fastapi_todo.Database.Rows.{SuggestionRow}
use expo_fastapi_todo.Database.Transaction.{Database, pure, ◌>>=◌}
use expo_fastapi_todo.Workflow.Domain.{Uuid}
use expo_fastapi_todo.Workflow.Store.{find_workflow}
use expo_fastapi_todo.Suggestion.Types.{SuggestionErrorCode}
use expo_fastapi_todo.Suggestion.Checks.{
  validate_claimed_workflow, check_result, decode_stored_clarification,
}
use expo_fastapi_todo.Suggestion.Store.{
  is_pending, is_latest, find_suggestion_id, latest_suggestion, fail_row, superseded_row,
  set_result, result_row, supersede_row,
}
use expo_fastapi_todo.Suggestion.Claim.{ClaimedSuggestion, Discovered}
use expo_fastapi_todo.Suggestion.FinishClaimed.{
  finishable, past_deadline, finish_superseded, finish_stored, finish_claimed_row,
  finish_claimed_found, finish_claimed_suggestion,
}
use expo_fastapi_todo.Suggestion.Expire.{
  is_still_due, expire_row, expire_found, expire_each, unlocked, candidate_ids,
  expire_suggestions_with_context,
}
use expo_fastapi_todo.Suggestion.History.Safe.{
  IsSafe, pure-IsSafe, if-IsSafe, bind-IsSafe, lift-bind-IsSafe, ordered-IsSafe,
}
use expo_fastapi_todo.Suggestion.History.Writes.{
  set_result-IsSafe, fail_row-IsSafe, supersede_row-IsSafe,
}
use expo_fastapi_todo.Suggestion.History.Operations.{found_id, then_snapshot-IsSafe}

module _ (p : Platform) (now : ℕ) (event_id : Uuid) (owner_id : ℕ) (workflow_id : Uuid)
    (claim : ClaimedSuggestion) (titles : Option (List Text))
    (error_code : Option SuggestionErrorCode) (row : SuggestionRow)
    (waiting : is_pending row ≡ true) (db : Database)
    (found : find_suggestion_id row.id db ≡ some row) where
  finish_superseded-IsSafe : IsSafe (finish_superseded row) db
  unfolding finish_superseded
  finish_superseded-IsSafe =
      then_snapshot-IsSafe (supersede_row row db) (superseded_row row) some db
        (supersede_row-IsSafe row waiting db found)

  finish_stored-IsSafe : IsSafe (finish_stored now event_id row titles error_code) db
  unfolding finish_stored
  finish_stored-IsSafe =
      then_snapshot-IsSafe (set_result now event_id row titles error_code db)
        (result_row titles error_code row) some db
        (set_result-IsSafe row waiting db found now event_id titles error_code)

  finish_claimed_row-IsSafe :
      IsSafe (finish_claimed_row p now event_id claim titles error_code owner_id workflow_id row) db
  unfolding finish_claimed_row
  finish_claimed_row-IsSafe =
      let fresh =
        validate_claimed_workflow p (find_workflow workflow_id owner_id db) row
        && is_latest (latest_suggestion row.owner_id row.workflow_id db) row in
      let stored = finish_stored now event_id row titles error_code in
      lift-bind-IsSafe (decode_stored_clarification row.clarification_snapshot) _ db (λ _ _.
        if-IsSafe (past_deadline now claim row) (pure none)
          (if not fresh then finish_superseded row else stored) db (λ _. pure-IsSafe none db)
          (λ _.
            if-IsSafe (not fresh) (finish_superseded row) stored db (λ _. finish_superseded-IsSafe)
              (λ _. finish_stored-IsSafe)))

module _ (p : Platform) (now : ℕ) (event_id : Uuid) (claim : ClaimedSuggestion)
    (error_code : Option SuggestionErrorCode) (owner_id : ℕ) (workflow_id : Uuid) where
  finish_claimed_found-IsSafe :
      (titles : Option (List Text)) (found : Option SuggestionRow) (db : Database)
      → ((row : SuggestionRow) → found ≡ some row → find_suggestion_id row.id db ≡ some row)
      → IsSafe
          (finish_claimed_found p now event_id claim titles error_code owner_id workflow_id found)
          db
  unfolding finish_claimed_found finishable
  finish_claimed_found-IsSafe titles none db there = pure-IsSafe none db
  finish_claimed_found-IsSafe titles (some row) db there =
      if-IsSafe (finishable claim workflow_id row)
        (finish_claimed_row p now event_id claim titles error_code owner_id workflow_id row)
        (pure none) db
        (λ hit.
          finish_claimed_row-IsSafe p now event_id owner_id workflow_id claim titles error_code row
            (ground arith) db (there row refl))
        (λ _. pure-IsSafe none db)

  finish_claimed_discovered-IsSafe :
      (titles : Option (List Text)) (db : Database)
      → IsSafe
          (finish_claimed_suggestion p now event_id claim titles error_code
            (some (owner_id, workflow_id)))
          db
  unfolding finish_claimed_suggestion
  finish_claimed_discovered-IsSafe titles db =
      ordered-IsSafe
        (finish_claimed_suggestion p now event_id claim titles error_code
          (some (owner_id, workflow_id)))
        db
        (λ ordered. lift-bind-IsSafe (check_result titles error_code) _ db (λ canonical _.
          if-IsSafe (owner_id == claim.owner_id)
            (finish_claimed_found p now event_id claim canonical error_code owner_id workflow_id
              (find_suggestion_id claim.suggestion_id db))
            (pure none) db
            (λ _.
              finish_claimed_found-IsSafe canonical (find_suggestion_id claim.suggestion_id db) db
                (λ row e. found_id claim.suggestion_id db ordered e))
            (λ _. pure-IsSafe none db)))

pub finish_claimed_suggestion-IsSafe :
    (p : Platform) (now : ℕ) (event_id : Uuid) (claim : ClaimedSuggestion)
    (titles : Option (List Text)) (error_code : Option SuggestionErrorCode)
    (discovered : Option Discovered) (db : Database)
    → IsSafe (finish_claimed_suggestion p now event_id claim titles error_code discovered) db
unfolding finish_claimed_suggestion
finish_claimed_suggestion-IsSafe p now event_id claim titles error_code none db =
    lift-bind-IsSafe (check_result titles error_code) _ db (λ _ _. pure-IsSafe none db)
finish_claimed_suggestion-IsSafe p now event_id claim titles error_code
      (some (owner_id, workflow_id)) db =
    finish_claimed_discovered-IsSafe p now event_id claim error_code owner_id workflow_id titles db

-- the sweep
module _ (locked : Uuid → Bool) (now : ℕ) where
  expire_row-IsSafe :
      (event_id : Uuid) (row : SuggestionRow) (db : Database)
      → find_suggestion_id row.id db ≡ some row
      → IsSafe (expire_row now event_id row) db
  unfolding expire_row is_still_due
  expire_row-IsSafe event_id row db found =
      if-IsSafe (is_still_due now row)
        (fail_row now event_id row >>= λ _.
          pure (record { suggestion_id = row.id; trace_parent = row.trace_parent } ∷ []))
        (pure []) db
        (λ hit.
          bind-IsSafe (fail_row now event_id row db) _ db
            (fail_row-IsSafe row (ground arith) db found now event_id)
            (λ _ db1 _.
              pure-IsSafe (record { suggestion_id = row.id; trace_parent = row.trace_parent } ∷ [])
                db1))
        (λ _. pure-IsSafe [] db)

  expire_found-IsSafe :
      (event_id : Uuid) (found : Option SuggestionRow) (db : Database)
      → ((row : SuggestionRow) → found ≡ some row → find_suggestion_id row.id db ≡ some row)
      → IsSafe (expire_found locked now event_id found) db
  unfolding expire_found
  expire_found-IsSafe event_id none db there = pure-IsSafe [] db
  expire_found-IsSafe event_id (some row) db there =
      if-IsSafe (unlocked locked row db) (expire_row now event_id row) (pure []) db
        (λ _. expire_row-IsSafe event_id row db (there row refl)) (λ _. pure-IsSafe [] db)

  expire_each-IsSafe :
      (draw : ℕ → Uuid) (i : ℕ) (ids : List ℕ) (db : Database)
      → IsSafe (expire_each locked now draw i ids) db
  unfolding expire_each
  expire_each-IsSafe draw i [] db = pure-IsSafe [] db
  expire_each-IsSafe draw i (id ∷ ids) db =
      ordered-IsSafe (expire_each locked now draw i (id ∷ ids)) db (λ ordered.
        bind-IsSafe (expire_found locked now (draw i) (find_suggestion_id id db) db) _ db
          (expire_found-IsSafe (draw i) (find_suggestion_id id db) db
            (λ row e. found_id id db ordered e))
          (λ expired db1 _.
            bind-IsSafe (expire_each locked now draw (suc i) ids db1) _ db1
              (expire_each-IsSafe draw (suc i) ids db1)
              (λ rest db2 _. pure-IsSafe (expired ++ rest) db2)))

  pub expire_suggestions-IsSafe :
      (draw : ℕ → Uuid) (db : Database)
      → IsSafe (expire_suggestions_with_context locked now draw) db
  unfolding expire_suggestions_with_context
  expire_suggestions-IsSafe draw db = expire_each-IsSafe draw 0 (candidate_ids now db) db
