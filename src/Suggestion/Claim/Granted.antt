-- ===== src/Suggestion/Claim/Granted.antt =====
-- What a granted claim (`_claim_inner` of apps/api/app/suggestion_service.py) has found and written.
use expo_fastapi_todo.Prelude.{
  ℕ, ◌≡◌, refl, sym, ap, ◌∙◌, true, false, ◌&&◌, Option, none, some, Text, arith, Bool-cases,
  Option-cases, inl, inr, ◌==◌, update_where, if◌then◌else◌, ◌<◌, leb, not, is_none, codes,
  text_eq_sound,
}
use expo_fastapi_todo.Result.{ok}
use expo_fastapi_todo.Platform.{Platform}
use expo_fastapi_todo.Database.Rows.{SuggestionRow}
use expo_fastapi_todo.Database.Transaction.{Database, lift, lift-eq-ok, steps, after, ◌>>=◌}
use expo_fastapi_todo.Workflow.Domain.{Uuid}
use expo_fastapi_todo.Workflow.Store.{find_workflow}
use expo_fastapi_todo.Suggestion.Types.{Clarification}
use expo_fastapi_todo.Suggestion.Checks.{
  validate_claimed_workflow, require_canonical_goal, decode_stored_clarification,
  claim_fingerprint_matches,
}
use expo_fastapi_todo.Suggestion.Snapshot.{suggestion_snapshot_from_row}
use expo_fastapi_todo.Suggestion.Store.{
  latest_suggestion, find_suggestion_id, is_latest, save_suggestion, with_suggestions, fail_row,
  failed_row, supersede_row, superseded_row,
}
use expo_fastapi_todo.Suggestion.Claim.{
  ClaimedSuggestion, claimed, claimable, is_expired, claimed_row, claim_of, claim_timeout,
  claim_superseded, claim_grant, claim_fresh, claim_again, claim_live, claim_row, claim_found,
  claim_suggestion,
}

pub save_suggestion_lem :
    (row : SuggestionRow) (db : Database) {u : Unit {0}} {db' : Database}
    → save_suggestion row db ≡ ok (u, db')
    → db' ≡ with_suggestions (update_where (λ r. r.id == row.id) (λ _. row)) db
unfolding save_suggestion
save_suggestion_lem row db h = ground arith

pub record Granted (p : Platform) (now id owner_id : ℕ) (workflow_id : Uuid) (db : Database)
    (claim : ClaimedSuggestion) (db' : Database) : Type 0 where
  pub row : SuggestionRow
  pub found : find_suggestion_id id db ≡ some row
  pub owner : row.owner_id ≡ owner_id
  pub workflow : row.workflow_id ≡ workflow_id
  pub pending : row.status ≡ codes "pending"
  pub queued : (at : ℕ) × (row.queued_at ≡ some at)
  pub unexpired : (at : ℕ) × (row.expires_at ≡ some at) × (now < at)
  pub unclaimed : row.provider_started_at ≡ none
  pub unchanged :
      (validate_claimed_workflow p (find_workflow workflow_id owner_id db) row
        && is_latest (latest_suggestion owner_id workflow_id db) row)
      ≡ true
  pub matching :
      (goal : Text) × (clarification : Option Clarification) × (require_canonical_goal
          row.goal_snapshot
        ≡ ok goal)
      × (decode_stored_clarification row.clarification_snapshot ≡ ok clarification)
      × (claim_fingerprint_matches p row goal clarification ≡ ok true)
      × (claim ≡ claim_of now goal clarification row)
  pub marked :
      db'
      ≡ with_suggestions
          (update_where (λ r. r.id == row.id) (λ _. record row { provider_started_at = some now }))
          db

not_none : (value : Option ℕ) → not (is_none value) ≡ true → (at : ℕ) × (value ≡ some at)
not_none none h = cc
not_none (some at) h = (at, refl)

-- what the two tests say of the row
pub claimable_lem :
    (owner_id : ℕ) (workflow_id : Uuid) (row : SuggestionRow)
    → claimable owner_id workflow_id row ≡ true
    → (row.owner_id ≡ owner_id)
      × (row.workflow_id ≡ workflow_id)
      × (row.status ≡ codes "pending")
      × ((at : ℕ) × (row.queued_at ≡ some at))
unfolding claimable
claimable_lem owner_id workflow_id row h = (
  ground arith,
  ground arith,
  text_eq_sound row.status (codes "pending") (ground arith),
  not_none row.queued_at (ground arith),
)

expires_later :
    (now : ℕ) (value : Option ℕ)
    → (elim value [ none ↦ true | some at ↦ leb at now ]) ≡ false
    → (at : ℕ) × (value ≡ some at) × (now < at)
expires_later now none h = cc
expires_later now (some at) h = (at, refl, ground arith)

pub unexpired_lem :
    (now : ℕ) (row : SuggestionRow)
    → is_expired now row ≡ false
    → (at : ℕ) × (row.expires_at ≡ some at) × (now < at)
unfolding is_expired
unexpired_lem now row h = expires_later now row.expires_at h

timeout_grants_nothing :
    (now : ℕ) (event_id : Uuid) (row : SuggestionRow) (db : Database) {c : ClaimedSuggestion}
    {db' : Database}
    → claim_timeout now event_id row db ≡ ok (claimed c, db')
    → ⊥
unfolding claim_timeout
timeout_grants_nothing now event_id row db h = elim (steps (fail_row now event_id row) _ db h) [
  | after _ db1 e rest ↦
      elim (steps (lift (suggestion_snapshot_from_row (failed_row row))) _ db1 rest) [
        | after _ db2 f end ↦ cc
      ]
]

superseded_grants_nothing :
    (row : SuggestionRow) (db : Database) {c : ClaimedSuggestion} {db' : Database}
    → claim_superseded row db ≡ ok (claimed c, db')
    → ⊥
unfolding claim_superseded
superseded_grants_nothing row db h = elim (steps (supersede_row row) _ db h) [
  | after _ db1 e rest ↦
      elim (steps (lift (suggestion_snapshot_from_row (superseded_row row))) _ db1 rest) [
        | after _ db2 f end ↦ cc
      ]
]

claim_grant_lem :
    (now : ℕ) (goal : Text) (clarification : Option Clarification) (row : SuggestionRow)
    (db : Database) {c : ClaimedSuggestion} {db' : Database}
    → claim_grant now goal clarification row db ≡ ok (claimed c, db')
    → (c ≡ claim_of now goal clarification row)
      × (db' ≡ with_suggestions (update_where (λ r. r.id == row.id) (λ _. claimed_row now row)) db)
unfolding claim_grant
claim_grant_lem now goal clarification row db h =
    elim (steps (save_suggestion (claimed_row now row)) _ db h) [
      | after _ db1 e rest ↦ ground (arith, save_suggestion_lem (claimed_row now row) db e)
    ]

claim_matching_lem :
    (p : Platform) (now : ℕ) (goal : Text) (clarification : Option Clarification)
    (row : SuggestionRow) (db : Database) {c : ClaimedSuggestion} {db' : Database}
    → (lift (claim_fingerprint_matches p row goal clarification) >>= λ matches.
          if matches then claim_grant now goal clarification row else claim_superseded row)
        db
      ≡ ok (claimed c, db')
    → (claim_fingerprint_matches p row goal clarification ≡ ok true)
      × (c ≡ claim_of now goal clarification row)
      × (db' ≡ with_suggestions (update_where (λ r. r.id == row.id) (λ _. claimed_row now row)) db)
claim_matching_lem p now goal clarification row db {c} {db'} h =
    elim (steps (lift (claim_fingerprint_matches p row goal clarification)) _ db h) [
      | after true db1 e rest ↦ ground (
        arith,
        lift-eq-ok (claim_fingerprint_matches p row goal clarification) db e,
        claim_grant_lem now goal clarification row db1 rest,
      )
      | after false db1 e rest ↦ absurd (superseded_grants_nothing row db1 rest)
    ]

claim_fresh_lem :
    (p : Platform) (now owner_id : ℕ) (workflow_id : Uuid) (goal : Text)
    (clarification : Option Clarification) (row : SuggestionRow) (db : Database)
    {c : ClaimedSuggestion} {db' : Database}
    → claim_fresh p now owner_id workflow_id goal clarification row db ≡ ok (claimed c, db')
    → ((validate_claimed_workflow p (find_workflow workflow_id owner_id db) row
          && is_latest (latest_suggestion owner_id workflow_id db) row)
        ≡ true)
      × (claim_fingerprint_matches p row goal clarification ≡ ok true)
      × (c ≡ claim_of now goal clarification row)
      × (db' ≡ with_suggestions (update_where (λ r. r.id == row.id) (λ _. claimed_row now row)) db)
unfolding claim_fresh
claim_fresh_lem p now owner_id workflow_id goal clarification row db {c} {db'} h =
    elim (Bool-cases (
      validate_claimed_workflow p (find_workflow workflow_id owner_id db) row
      && is_latest (latest_suggestion owner_id workflow_id db) row)) [
        | inr stale ↦ absurd (superseded_grants_nothing row db {c = c} {db' = db'} (ground arith))
        | inl valid ↦
            let (matches, granted, marked) =
              claim_matching_lem p now goal clarification row db {c = c} {db' = db'}
                (ground arith) in
            (valid, matches, granted, marked)
      ]

claim_live_lem :
    (p : Platform) (now : ℕ) (event_id : Uuid) (owner_id : ℕ) (workflow_id : Uuid) (goal : Text)
    (clarification : Option Clarification) (marker : Option ℕ) (row : SuggestionRow) (db : Database)
    {c : ClaimedSuggestion} {db' : Database}
    → claim_live p now event_id owner_id workflow_id goal clarification marker row db
      ≡ ok (claimed c, db')
    → (marker ≡ none)
      × (claim_fresh p now owner_id workflow_id goal clarification row db ≡ ok (claimed c, db'))
unfolding claim_live claim_again
claim_live_lem p now event_id owner_id workflow_id goal clarification none row db h = (refl, h)
claim_live_lem p now event_id owner_id workflow_id goal clarification (some started) row db {c}
      {db'} h =
    absurd (ground (arith, timeout_grants_nothing now event_id row db {c = c} {db' = db'}))

claim_row_lem :
    (p : Platform) (now id : ℕ) (event_id : Uuid) (owner_id : ℕ) (workflow_id : Uuid)
    (row : SuggestionRow) (db : Database) {c : ClaimedSuggestion} {db' : Database}
    → claim_row p now event_id owner_id workflow_id row db ≡ ok (claimed c, db')
    → find_suggestion_id id db ≡ some row
    → claimable owner_id workflow_id row ≡ true
    → Granted p now id owner_id workflow_id db c db'
unfolding claim_row
claim_row_lem p now id event_id owner_id workflow_id row db {c} {db'} h found waiting =
    elim (steps (lift (require_canonical_goal row.goal_snapshot)) _ db h) [
      | after goal db1 e h1 ↦
          elim (steps (lift (decode_stored_clarification row.clarification_snapshot)) _ db1 h1) [
            | after clarification db2 f h2 ↦ elim (Bool-cases (is_expired now row)) [
              | inl late ↦ absurd (
                  ground (
                    arith,
                    lift-eq-ok (require_canonical_goal row.goal_snapshot) db e,
                    timeout_grants_nothing now event_id row db2 {c = c} {db' = db'},
                  ))
              | inr early ↦
                  let live : claim_live p now event_id owner_id workflow_id goal clarification
                        row.provider_started_at row db2
                      ≡ ok (claimed c, db') =
                    ground arith in
                  let (same, nothing1) =
                    lift-eq-ok (require_canonical_goal row.goal_snapshot) db e in
                  let (decoded, nothing2) =
                    lift-eq-ok (decode_stored_clarification row.clarification_snapshot) db1 f in
                  let (unclaimed, fresh) =
                    claim_live_lem p now event_id owner_id workflow_id goal clarification
                      row.provider_started_at row db2 live in
                  let (unchanged, matches, granted, marked) =
                    claim_fresh_lem p now owner_id workflow_id goal clarification row db2 fresh in
                  let (owner, workflow, pending, queued) =
                    claimable_lem owner_id workflow_id row waiting in
                  rw (sym nothing1) (
                    rw (sym nothing2) (record {
                      row = row;
                      found = ap (find_suggestion_id id) (nothing2 ∙ nothing1) ∙ found;
                      owner = owner;
                      workflow = workflow;
                      pending = pending;
                      queued = queued;
                      unexpired = unexpired_lem now row early;
                      unclaimed = unclaimed;
                      unchanged = unchanged;
                      matching = (goal, clarification, same, decoded, matches, granted);
                      marked = marked;
                    }))
            ]
          ]
    ]

-- A worker that is granted a claim holds a pending cloud row of the discovered owner and workflow that
-- is the workflow's latest, has not expired and carries no earlier claim marker; the workflow is still
-- in the step and at the revision of the row, and the stored goal and clarification have the row's
-- fingerprint. The claim carries these inputs, and the transaction writes the marker into the row and changes nothing else.
pub claim-Granted :
    (p : Platform) (now : ℕ) (event_id : Uuid) (id owner_id : ℕ) (workflow_id : Uuid)
    (db : Database) {c : ClaimedSuggestion} {db' : Database}
    → claim_suggestion p now event_id id (some (owner_id, workflow_id)) db ≡ ok (claimed c, db')
    → Granted p now id owner_id workflow_id db c db'
unfolding claim_suggestion claim_found
claim-Granted p now event_id id owner_id workflow_id db {c} {db'} h =
    elim (Option-cases (find_suggestion_id id db)) [
      | inl missing ↦ absurd (ground arith)
      | inr (row, found) ↦ elim (Bool-cases (claimable owner_id workflow_id row)) [
        | inr taken ↦ absurd (ground arith)
        | inl waiting ↦
            claim_row_lem p now id event_id owner_id workflow_id row db (ground arith) found waiting
      ]
    ]
