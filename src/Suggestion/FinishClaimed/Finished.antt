-- ===== src/Suggestion/FinishClaimed/Finished.antt =====
-- The row that `finish_claimed_suggestion` of apps/api/app/suggestion_service.py stores, and when.
use expo_fastapi_todo.Prelude.{
  sym, ◌∙◌, subst, text_eq, ℕ, ◌≡◌, refl, Bool, true, false, ◌&&◌, Option, none, some, List, arith,
  ◌==◌, Text, ◌<◌, ◌+◌,
}
use expo_fastapi_todo.Result.{ok}
use expo_fastapi_todo.Platform.{Platform}
use expo_fastapi_todo.Database.Rows.{SuggestionRow}
use expo_fastapi_todo.Database.Transaction.{Database, lift, lift-eq-ok, steps, after}
use expo_fastapi_todo.Workflow.Domain.{Uuid}
use expo_fastapi_todo.Workflow.Store.{find_workflow}
use expo_fastapi_todo.Suggestion.Types.{SuggestionErrorCode, error_value, SuggestionSnapshot}
use expo_fastapi_todo.Suggestion.Checks.{validate_claimed_workflow, check_result}
use expo_fastapi_todo.Suggestion.Snapshot.{suggestion_snapshot_from_row}
use expo_fastapi_todo.Suggestion.Store.{
  latest_suggestion, find_suggestion_id, is_latest, set_result, result_row, supersede_row,
  superseded_row,
}
use expo_fastapi_todo.Suggestion.Claim.{ClaimedSuggestion, claimable, is_expired}
use expo_fastapi_todo.Json.{arr, nil, text_array}
use mathlib.Core.Option
use expo_fastapi_todo.Suggestion.Claim.Granted.{save_suggestion_lem, claimable_lem, unexpired_lem}
use expo_fastapi_todo.Suggestion.Store.{save_suggestion, outcome_of}
use expo_fastapi_todo.Analytics.Events.Laws.{record_event_lem}
use expo_fastapi_todo.Prelude.{codes, update_where, ◌==◌}
use expo_fastapi_todo.Suggestion.FinishClaimed.{
  finishable, past_deadline, finish_superseded, finish_stored,
}

-- The row that the call leaves: the provider's result if the workflow has not moved on and the row is
-- its latest, and a superseded row otherwise.
unfoldable pub finished_row :
    Bool → Option (List Text) → Option SuggestionErrorCode → SuggestionRow → SuggestionRow
finished_row true (some titles) error_code row = record row {
  status = codes "ready";
  proposed_titles = text_array titles;
  error_code = none;
}
finished_row true none error_code row = record row {
  status = codes "failed";
  proposed_titles = arr nil;
  error_code = Option.map error_value error_code;
}
finished_row false titles error_code row = record row {
  status = codes "superseded";
  proposed_titles = arr nil;
  error_code = none;
}

pub result_row-finished_row :
    (titles : Option (List Text)) (error_code : Option SuggestionErrorCode) (row : SuggestionRow)
    → finished_row true titles error_code row ≡ result_row titles error_code row
unfolding finished_row
result_row-finished_row none error_code row = refl
result_row-finished_row (some titles) error_code row = refl

-- the workflow and the latest row that the second transaction reads
abbrev pub still_valid : Platform → ℕ → Uuid → Database → SuggestionRow → Bool
still_valid p owner_id workflow_id db row =
    validate_claimed_workflow p (find_workflow workflow_id owner_id db) row
    && is_latest (latest_suggestion row.owner_id row.workflow_id db) row

-- the rows after the update of one of them
abbrev pub written : SuggestionRow → SuggestionRow → Database → List SuggestionRow
written row row' db = update_where (λ r. r.id == row.id) (λ _. row') db.suggestions.rows

set_result_rows :
    (now : ℕ) (event_id : Uuid) (row : SuggestionRow) (titles : Option (List Text))
    (error_code : Option SuggestionErrorCode) (db : Database) {u : Unit {0}} {db' : Database}
    → set_result now event_id row titles error_code db ≡ ok (u, db')
    → db'.suggestions.rows ≡ written row (result_row titles error_code row) db
unfolding set_result
set_result_rows now event_id row none error_code db {u} {db'} h =
    elim (steps (save_suggestion (result_row none error_code row)) _ db h) [
      | after _ db1 e rest ↦
          let (_, _, _, event) =
            record_event_lem now event_id (codes "suggestion_finished") row.owner_id
              (some row.workflow_id) (some (outcome_of none)) db1 {db' = db'} (ground arith) in
          ground (arith, event, save_suggestion_lem (result_row none error_code row) db e)
    ]
set_result_rows now event_id row (some titles) error_code db {u} {db'} h =
    elim (steps (save_suggestion (result_row (some titles) error_code row)) _ db h) [
      | after _ db1 e rest ↦
          let (_, _, _, event) =
            record_event_lem now event_id (codes "suggestion_finished") row.owner_id
              (some row.workflow_id) (some (outcome_of (some titles))) db1 {db' = db'}
              (ground arith) in
          ground (arith, event, save_suggestion_lem (result_row (some titles) error_code row) db e)
    ]

pub record Finished (p : Platform) (now : ℕ) (claim : ClaimedSuggestion) (workflow_id : Uuid)
    (titles : Option (List Text)) (error_code : Option SuggestionErrorCode) (db : Database)
    (snapshot : SuggestionSnapshot) (db' : Database) : Type 0 where
  pub row : SuggestionRow
  pub found : find_suggestion_id claim.suggestion_id db ≡ some row
  pub owner : row.owner_id ≡ claim.owner_id
  pub workflow : row.workflow_id ≡ workflow_id
  pub marker : row.provider_started_at ≡ some claim.provider_started_at
  pub pending : row.status ≡ codes "pending"
  pub queued : (at : ℕ) × (row.queued_at ≡ some at)
  pub unexpired : (at : ℕ) × (row.expires_at ≡ some at) × (now < at)
  pub live : now < claim.provider_started_at + 120000000
  pub result :
      (canonical : Option (List Text)) × (check_result titles error_code ≡ ok canonical)
      × (suggestion_snapshot_from_row (
            finished_row (still_valid p claim.owner_id workflow_id db row) canonical error_code row)
          ≡ ok snapshot)
      × (db'.suggestions.rows
          ≡ written row
              (finished_row
                (still_valid p claim.owner_id workflow_id db row)
                canonical
                error_code
                row)
              db)

marker_lem :
    (claim : ClaimedSuggestion) (marker : Option ℕ)
    → (elim marker [ none ↦ false | some started ↦ started == claim.provider_started_at ]) ≡ true
    → marker ≡ some claim.provider_started_at
marker_lem claim none h = cc
marker_lem claim (some started) h = ground arith

finishable_lem :
    (claim : ClaimedSuggestion) (workflow_id : Uuid) (row : SuggestionRow)
    → finishable claim workflow_id row ≡ true
    → (row.provider_started_at ≡ some claim.provider_started_at)
      × (claimable claim.owner_id workflow_id row ≡ true)
unfolding finishable claimable
finishable_lem claim workflow_id row h =
    (marker_lem claim row.provider_started_at (ground arith), ground arith)

in_time_lem :
    (now : ℕ) (claim : ClaimedSuggestion) (row : SuggestionRow)
    → past_deadline now claim row ≡ false
    → (is_expired now row ≡ false) × (now < claim.provider_started_at + 120000000)
unfolding past_deadline
in_time_lem now claim row h = (ground arith, ground arith)

-- the guards of the call, and what follows from them
pub guards-Finished :
    (p : Platform) (now : ℕ) (claim : ClaimedSuggestion) (workflow_id : Uuid)
    (titles canonical : Option (List Text)) (error_code : Option SuggestionErrorCode)
    (row : SuggestionRow) (db : Database) (snapshot : SuggestionSnapshot) (db' : Database)
    → find_suggestion_id claim.suggestion_id db ≡ some row
    → finishable claim workflow_id row ≡ true
    → past_deadline now claim row ≡ false
    → check_result titles error_code ≡ ok canonical
    → suggestion_snapshot_from_row
        (finished_row (still_valid p claim.owner_id workflow_id db row) canonical error_code row)
      ≡ ok snapshot
    → db'.suggestions.rows
      ≡ written row
          (finished_row (still_valid p claim.owner_id workflow_id db row) canonical error_code row)
          db
    → Finished p now claim workflow_id titles error_code db snapshot db'
guards-Finished p now claim workflow_id titles canonical error_code row db snapshot db' found
      waiting in_time checked stored rows =
    let (marker, own) = finishable_lem claim workflow_id row waiting in
    let (owner, workflow, pending, queued) = claimable_lem claim.owner_id workflow_id row own in
    let (unexpired, live) = in_time_lem now claim row in_time in
    record {
      row = row;
      found = found;
      owner = owner;
      workflow = workflow;
      marker = marker;
      pending = pending;
      queued = queued;
      unexpired = unexpired_lem now row unexpired;
      live = live;
      result = (canonical, checked, stored, rows);
    }

pub finish_superseded_lem :
    (row : SuggestionRow) (db : Database) {r : Option SuggestionSnapshot} {db' : Database}
    → finish_superseded row db ≡ ok (r, db')
    → (s : SuggestionSnapshot) × (suggestion_snapshot_from_row (superseded_row row) ≡ ok s)
      × (r ≡ some s)
      × (db'.suggestions.rows ≡ written row (superseded_row row) db)
unfolding finish_superseded supersede_row
finish_superseded_lem row db h = elim (steps (supersede_row row) _ db h) [
  | after _ db1 e rest ↦
      elim (steps (lift (suggestion_snapshot_from_row (superseded_row row))) _ db1 rest) [
        | after s db2 f end ↦ (
          s,
          (lift-eq-ok (suggestion_snapshot_from_row (superseded_row row)) db1 f).0,
          ground arith,
          ground (
            arith,
            lift-eq-ok (suggestion_snapshot_from_row (superseded_row row)) db1 f,
            save_suggestion_lem (superseded_row row) db e,
          ),
        )
      ]
]

pub finish_stored_lem :
    (now : ℕ) (event_id : Uuid) (row : SuggestionRow) (titles : Option (List Text))
    (error_code : Option SuggestionErrorCode) (db : Database) {r : Option SuggestionSnapshot}
    {db' : Database}
    → finish_stored now event_id row titles error_code db ≡ ok (r, db')
    → (s : SuggestionSnapshot) × (suggestion_snapshot_from_row (result_row titles error_code row)
        ≡ ok s)
      × (r ≡ some s)
      × (db'.suggestions.rows ≡ written row (result_row titles error_code row) db)
unfolding finish_stored
finish_stored_lem now event_id row titles error_code db h =
    elim (steps (set_result now event_id row titles error_code) _ db h) [
      | after _ db1 e rest ↦
          elim (steps (lift (suggestion_snapshot_from_row (result_row titles error_code row))) _ db1
            rest) [
              | after s db2 f end ↦ (
                s,
                (lift-eq-ok (suggestion_snapshot_from_row (result_row titles error_code row)) db1
                    f).0,
                ground arith,
                ground (
                  arith,
                  lift-eq-ok (suggestion_snapshot_from_row (result_row titles error_code row)) db1
                      f,
                  set_result_rows now event_id row titles error_code db e,
                ),
              )
            ]
    ]

-- The claim is live: its row is the one that the discovered owner and workflow name, it carries the
-- claim's marker, and it is queued, pending and before both deadlines.
pub record IsLive (now : ℕ) (claim : ClaimedSuggestion) (owner_id : ℕ) (workflow_id : Uuid)
    (db : Database) : Type 0 where
  pub row : SuggestionRow
  pub found : find_suggestion_id claim.suggestion_id db ≡ some row
  pub discovered : owner_id ≡ claim.owner_id
  pub owner : row.owner_id ≡ claim.owner_id
  pub workflow : row.workflow_id ≡ workflow_id
  pub marker : row.provider_started_at ≡ some claim.provider_started_at
  pub pending : row.status ≡ codes "pending"
  pub queued_at : ℕ
  pub queued : row.queued_at ≡ some queued_at
  pub expires_at : ℕ
  pub expires : row.expires_at ≡ some expires_at
  pub unexpired : now < expires_at
  pub live : now < claim.provider_started_at + 120000000

live_row :
    (now : ℕ) (claim : ClaimedSuggestion) (owner_id : ℕ) (workflow_id : Uuid) (db : Database)
    (l : IsLive now claim owner_id workflow_id db)
    → (finishable claim workflow_id l.row ≡ true) × (past_deadline now claim l.row ≡ false)
unfolding finishable past_deadline text_eq
live_row now claim owner_id workflow_id db l = (
  rw l.owner (rw l.workflow (rw l.marker (rw l.pending (rw l.queued (ground arith))))),
  rw l.expires (ground (arith, l.unexpired, l.live)),
)

-- A live claim's row passes the guards of the call.
pub IsLive-guards :
    (now : ℕ) (claim : ClaimedSuggestion) (owner_id : ℕ) (workflow_id : Uuid) (db : Database)
    (row : SuggestionRow)
    → find_suggestion_id claim.suggestion_id db ≡ some row
    → IsLive now claim owner_id workflow_id db
    → (finishable claim workflow_id row ≡ true) × (past_deadline now claim row ≡ false)
IsLive-guards now claim owner_id workflow_id db row found l =
    let same : l.row ≡ row = Option.some-injective l.row row (sym l.found ∙ found) in
    subst
      (λ (r : SuggestionRow).
        (finishable claim workflow_id r ≡ true) × (past_deadline now claim r ≡ false))
      same (live_row now claim owner_id workflow_id db l)
