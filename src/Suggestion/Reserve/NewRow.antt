-- ===== src/Suggestion/Reserve/NewRow.antt =====
-- The row that a new reservation (`reserve_suggestion` of apps/api/app/suggestion_service.py) stores.
use expo_fastapi_todo.Prelude.{
  ℕ, ◌≡◌, refl, sym, Bool, true, false, ◌&&◌, Option, none, some, List, [], ◌∷◌, ◌++◌, Text, select,
  update_where, arith, Bool-cases, inl, inr, text_eq, ◌+◌, codes, if◌then◌else◌,
}
use expo_fastapi_todo.Result.{Result-cases, ok, ok-injective}
use expo_fastapi_todo.Json.{arr, nil}
use expo_fastapi_todo.Suggestion.Trace.{canonical_trace_parent}
use expo_fastapi_todo.Platform.{Platform}
use expo_fastapi_todo.Database.Rows.{WorkflowRow, SuggestionRow}
use expo_fastapi_todo.Database.Transaction.{Database}
use expo_fastapi_todo.Workflow.Domain.{Uuid}
use expo_fastapi_todo.Suggestion.Types.{Clarification}
use expo_fastapi_todo.Suggestion.Checks.{require_canonical_goal}
use expo_fastapi_todo.Suggestion.Store.{
  of_workflow, is_pending, superseded_status, supersede_pending, insert_suggestion,
}
use expo_fastapi_todo.Suggestion.Reserve.{ReserveRequest, Queued, queue_fields, reserved_row}

-- the workflow's pending rows
abbrev pub waits : ReserveRequest → SuggestionRow → Bool
waits request row = of_workflow request.owner_id request.workflow_id row && is_pending row

pub supersede_pending_rows :
    (owner_id : ℕ) (workflow_id : Uuid) (db : Database) {u : Unit {0}} {db' : Database}
    → supersede_pending owner_id workflow_id db ≡ ok (u, db')
    → db'.suggestions.rows
      ≡ update_where
          (λ r. of_workflow owner_id workflow_id r && is_pending r)
          superseded_status
          db.suggestions.rows
unfolding supersede_pending
supersede_pending_rows owner_id workflow_id db h = ground arith

pub insert_suggestion_rows :
    (row : ℕ → SuggestionRow) (db : Database) {u : Unit {0}} {db' : Database}
    → insert_suggestion row db ≡ ok (u, db')
    → db'.suggestions.rows ≡ db.suggestions.rows ++ row db.suggestions.next_id ∷ []
unfolding insert_suggestion
insert_suggestion_rows row db h = ground arith

superseded_waits_not :
    (request : ReserveRequest) (row : SuggestionRow) → waits request (superseded_status row) ≡ false
unfolding text_eq
superseded_waits_not request row = ground arith

-- Of rows whose pending ones have been superseded, with a pending row added, only that row is pending.
pub one_pending :
    (request : ReserveRequest) (rows : List SuggestionRow) (row : SuggestionRow)
    → waits request row ≡ true
    → select (waits request) (update_where (waits request) superseded_status rows ++ row ∷ [])
      ≡ row ∷ []
one_pending request [] row new = rw new refl
one_pending request (x ∷ xs) row new = elim (Bool-cases (waits request x)) [
  | inl old ↦ rw old (rw (superseded_waits_not request x) (one_pending request xs row new))
  | inr other ↦ rw other (rw other (one_pending request xs row new))
]

pub reserved_row-waits :
    (request : ReserveRequest) (fingerprint : Text) (q : Queued) (id : ℕ)
    → waits request (reserved_row request fingerprint q id) ≡ true
unfolding text_eq
reserved_row-waits request fingerprint q id = ground arith

-- The row that a new request stores: pending and unclaimed, with the request's identity. A queued one
-- has its deadline 15 minutes later, and the canonical form of the trace parent.
pub record IsNewRow (p : Platform) (now : ℕ) (request : ReserveRequest) (fingerprint : Text)
    (row : SuggestionRow) : Type 0 where
  pub owner_id : row.owner_id ≡ request.owner_id
  pub workflow_id : row.workflow_id ≡ request.workflow_id
  pub request_id : row.request_id ≡ request.request_id
  pub request_fingerprint : row.request_fingerprint ≡ fingerprint
  pub base_revision : row.base_revision ≡ request.expected_revision
  pub step_id : row.step_id ≡ request.step_id
  pub status : row.status ≡ codes "pending"
  pub proposed_titles : row.proposed_titles ≡ arr nil
  pub error_code : row.error_code ≡ none
  pub provider_started_at : row.provider_started_at ≡ none
  pub queued_at : row.queued_at ≡ (if request.queued then some now else none)
  pub expires_at : row.expires_at ≡ (if request.queued then some (now + 900000000) else none)
  pub trace_parent :
      row.trace_parent
      ≡ (if request.queued then canonical_trace_parent p request.trace_parent else none)

queue_fields_lem :
    (p : Platform) (now : ℕ) (request : ReserveRequest) (clarification : Option Clarification)
    (workflow : WorkflowRow) {q : Queued}
    → queue_fields p now request clarification workflow ≡ ok q
    → (q.queued_at ≡ (if request.queued then some now else none))
      × (q.expires_at ≡ (if request.queued then some (now + 900000000) else none))
      × (q.trace_parent
          ≡ (if request.queued then canonical_trace_parent p request.trace_parent else none))
unfolding queue_fields
queue_fields_lem p now request clarification workflow h = elim (Bool-cases request.queued) [
  | inr inline ↦ rw inline (rw (sym (ok-injective (rw inline at h))) (refl, refl, refl))
  | inl queued ↦ elim (Result-cases (require_canonical_goal (some workflow.title))) [
    | inr (e, refused) ↦ absurd (ground (arith, rw queued at h))
    | inl (goal, read) ↦
        rw queued (rw (sym (ok-injective (rw read at (rw queued at h)))) (refl, refl, refl))
  ]
]

pub reserved_row-IsNewRow :
    (p : Platform) (now : ℕ) (request : ReserveRequest) (clarification : Option Clarification)
    (fingerprint : Text) (workflow : WorkflowRow) (q : Queued) (id : ℕ)
    → queue_fields p now request clarification workflow ≡ ok q
    → IsNewRow p now request fingerprint (reserved_row request fingerprint q id)
reserved_row-IsNewRow p now request clarification fingerprint workflow q id h =
    let (queued_at, expires_at, trace_parent) =
      queue_fields_lem p now request clarification workflow h in
    record {
      owner_id = refl;
      workflow_id = refl;
      request_id = refl;
      request_fingerprint = refl;
      base_revision = refl;
      step_id = refl;
      status = refl;
      proposed_titles = refl;
      error_code = refl;
      provider_started_at = refl;
      queued_at = queued_at;
      expires_at = expires_at;
      trace_parent = trace_parent;
    }
