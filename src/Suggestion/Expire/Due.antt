-- ===== src/Suggestion/Expire/Due.antt =====
-- A suggestion whose deadline has passed does not stay pending after a pass of `expire_suggestions` of
-- apps/api/app/suggestion_service.py.
use expo_fastapi_todo.Prelude.{
  ℕ, suc, ◌≡◌, ◌≤◌, refl, sym, ap, Bool, true, false, some, List, [], ◌∷◌, map, select, length,
  take, arith, ◌==◌, codes, find_passes, Has, find-Has, select-Has, text_eq, leb, zero, subst,
  Has-map, length-map, ◌+◌,
}
use expo_fastapi_todo.Result.{ok}
use expo_fastapi_todo.Json.{arr, nil}
use expo_fastapi_todo.Database.Rows.{SuggestionRow, WorkflowRow}
use expo_fastapi_todo.Database.Transaction.{Database, steps, after}
use expo_fastapi_todo.Workflow.Domain.{Uuid}
use expo_fastapi_todo.Workflow.Store.{find_workflow}
use expo_fastapi_todo.Suggestion.Store.{find_suggestion_id}
use expo_fastapi_todo.Suggestion.Expire.{
  is_still_due, is_past_due, unlocked, candidate_ids, expire_suggestions_with_context,
  expire_suggestions,
}
use expo_fastapi_todo.Suggestion.Expire.Visit.{expire_each-fails}

take-short : (n : ℕ) (ids : List ℕ) → length ids ≤ n → take n ids ≡ ids
take-short zero [] h = refl
take-short zero (x ∷ xs) h = absurd (omega (arith, h))
take-short (suc n) [] h = refl
take-short (suc n) (x ∷ xs) h = ap (λ rest. x ∷ rest) (take-short n xs (omega (arith, h)))

due_both :
    (now : ℕ) (row : SuggestionRow) (queued_at expires_at : ℕ)
    → row.status ≡ codes "pending"
    → row.queued_at ≡ some queued_at
    → row.expires_at ≡ some expires_at
    → expires_at ≤ now
    → (is_past_due now row ≡ true) × (is_still_due now row ≡ true)
unfolding is_past_due is_still_due text_eq
due_both now row queued_at expires_at pending queued expires late =
    let at : leb (expires_at + 0) now ≡ true = ground arith in
    (
      rw pending (rw queued (rw expires (rw at refl))),
      rw pending (rw queued (rw expires (rw at refl))),
    )

candidate :
    (now id : ℕ) (row : SuggestionRow) (db : Database)
    → length (select (is_past_due now) db.suggestions.rows) ≤ 100
    → find_suggestion_id id db ≡ some row
    → is_past_due now row ≡ true
    → Has id (candidate_ids now db)
unfolding candidate_ids find_suggestion_id
candidate now id row db few found late =
    let due = select (is_past_due now) db.suggestions.rows in
    let same : row.id ≡ id =
      ground (arith, find_passes (λ r. r.id == id) db.suggestions.rows {x = row} found) in
    let there =
      Has-map (λ (r : SuggestionRow). r.id) row due
        (select-Has (is_past_due now) row db.suggestions.rows
          (find-Has (λ r. r.id == id) row db.suggestions.rows found) late) in
    rw
      (take-short 100 (map (λ r. r.id) due)
        (omega (arith, length-map (λ (r : SuggestionRow). r.id) due, few)))
      (subst (λ i. Has i (map (λ r. r.id) due)) same there)

-- A pass that returns has failed each queued, pending suggestion whose deadline has passed, with the error
-- code of a timeout, if no transaction holds its workflow's row and at most 100 suggestions are due.
pub expire_suggestions_due :
    (locked : Uuid → Bool) (now : ℕ) (draw : ℕ → Uuid) (db db' : Database) (n id : ℕ)
    (row : SuggestionRow) (workflow : WorkflowRow) (queued_at expires_at : ℕ)
    → expire_suggestions locked now draw db ≡ ok (n, db')
    → length (select (is_past_due now) db.suggestions.rows) ≤ 100
    → find_suggestion_id id db ≡ some row
    → row.status ≡ codes "pending"
    → row.queued_at ≡ some queued_at
    → row.expires_at ≡ some expires_at
    → expires_at ≤ now
    → find_workflow row.workflow_id row.owner_id db ≡ some workflow
    → locked row.workflow_id ≡ false
    → find_suggestion_id id db'
      ≡ some (record row {
        status = codes "failed";
        proposed_titles = arr nil;
        error_code = some (codes "timeout");
      })
unfolding expire_suggestions expire_suggestions_with_context
expire_suggestions_due locked now draw db db' n id row workflow queued_at expires_at h few found
      pending queued expires late there free =
    elim (steps (expire_suggestions_with_context locked now draw) _ db h) [
      | after expired db1 e rest ↦
          let same : db1 ≡ db' = ground arith in
          let (past, still) = due_both now row queued_at expires_at pending queued expires late in
          let reachable : unlocked locked row db ≡ true = rw there (rw free refl) in
          rw (sym same) (
            expire_each-fails locked now draw 0 (candidate_ids now db) id row db
              (candidate now id row db few found past) found reachable still e)
    ]
