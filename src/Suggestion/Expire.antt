-- ===== src/Suggestion/Expire.antt =====
-- `expire_suggestions_with_context` of apps/api/app/suggestion_service.py. `locked` says which
-- workflows another transaction holds: `SKIP LOCKED` passes over them. `draw i` is the `uuid4()` of the
-- i-th candidate's event.
pub mod Limit
pub mod Visit
pub mod Due
use expo_fastapi_todo.Prelude.{
  ℕ, suc, ◌+◌, ◌-◌, Bool, true, false, not, ◌&&◌, ◌||◌, Option, none, some, List, [], ◌∷◌, ◌++◌,
  map, select, take, length, ◌==◌, leb, ltb, Text, codes, text_eq, if◌then◌else◌, is_none,
}
use expo_fastapi_todo.Result.{Result, ok, err}
use expo_fastapi_todo.Database.Rows.{WorkflowRow, SuggestionRow}
use expo_fastapi_todo.Database.Transaction.{
  Database, Transaction, pure, raise, lift, gets, modify, require, continue, ◌>>=◌, ◌>>◌,
}
use expo_fastapi_todo.Workflow.Domain.{Uuid}
use expo_fastapi_todo.Workflow.Store.{find_workflow}
use expo_fastapi_todo.Suggestion.Store.{find_suggestion_id, is_pending, fail_row, is_cloud_row}
use expo_fastapi_todo.Suggestion.Reserve.{suggestion_claim_ttl}

abbrev pub suggestion_expire_batch_limit : ℕ
suggestion_expire_batch_limit = 100

pub record ExpiredSuggestion : Type 0 where
  pub suggestion_id : ℕ
  pub trace_parent : Option Text

-- `at <= now` in SQL: NULL does not hold. `started <= now - ttl` is written as a sum.
abbrev pub due : ℕ → ℕ → Option ℕ → Bool
due now later none = false
due now later (some at) = leb (at + later) now

unfoldable pub is_past_due : ℕ → SuggestionRow → Bool
is_past_due now row =
    is_pending row
    && is_cloud_row row
    && (due now 0 row.expires_at || due now suggestion_claim_ttl row.provider_started_at)

-- the test on the locked row
unfoldable pub is_still_due : ℕ → SuggestionRow → Bool
is_still_due now row =
    is_pending row
    && is_cloud_row row
    && not (is_none row.expires_at)
    && (due now 0 row.expires_at || due now suggestion_claim_ttl row.provider_started_at)

unfoldable pub candidate_ids : ℕ → Database → List ℕ
candidate_ids now db =
    take suggestion_expire_batch_limit
      (map (λ r. r.id) (select (is_past_due now) db.suggestions.rows))

unfoldable pub expire_row : ℕ → Uuid → SuggestionRow → Transaction (List ExpiredSuggestion)
expire_row now event_id row =
    if is_still_due now row
    then (do
      fail_row now event_id row
      pure (record { suggestion_id = row.id; trace_parent = row.trace_parent } ∷ []))
    else pure []

-- the workflow's row, unless another transaction has locked it
abbrev pub unlocked : (Uuid → Bool) → SuggestionRow → Database → Bool
unlocked locked row db =
    not (is_none (find_workflow row.workflow_id row.owner_id db)) && not (locked row.workflow_id)

unfoldable pub expire_found :
    (Uuid → Bool) → ℕ → Uuid → Option SuggestionRow → Transaction (List ExpiredSuggestion)
expire_found locked now event_id none = pure []
expire_found locked now event_id (some row) = do
  free ← gets (unlocked locked row)
  if free then expire_row now event_id row else pure []

-- the loop over the candidates
unfoldable pub expire_each :
    (Uuid → Bool) → ℕ → (ℕ → Uuid) → ℕ → List ℕ → Transaction (List ExpiredSuggestion)
expire_each locked now draw i [] = pure []
expire_each locked now draw i (id ∷ ids) = do
  row ← gets (find_suggestion_id id)
  expired ← expire_found locked now (draw i) row
  rest ← expire_each locked now draw (suc i) ids
  pure (expired ++ rest)

unfoldable pub expire_suggestions_with_context :
    (Uuid → Bool) → ℕ → (ℕ → Uuid) → Transaction (List ExpiredSuggestion)
expire_suggestions_with_context locked now draw = do
  ids ← gets (candidate_ids now)
  expire_each locked now draw 0 ids

-- the count that `expire_suggestions` returns
unfoldable pub expire_suggestions : (Uuid → Bool) → ℕ → (ℕ → Uuid) → Transaction ℕ
expire_suggestions locked now draw = do
  expired ← expire_suggestions_with_context locked now draw
  pure (length expired)
