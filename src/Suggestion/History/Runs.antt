-- ===== src/Suggestion/History/Runs.antt =====
-- Any sequence of the committed transactions of apps/api/app/suggestion_service.py, of whatever requests
-- and workers, and of the other components' transactions between them.
use expo_fastapi_todo.Prelude.{ℕ, ◌≡◌, refl, sym, ap, ◌∙◌, Bool, Option, some, List, arith, Text}
use mathlib.Core.Option
use expo_fastapi_todo.Result.{ok}
use expo_fastapi_todo.Platform.{Platform}
use expo_fastapi_todo.Database.Rows.{SuggestionRow}
use expo_fastapi_todo.Database.Transaction.{Database}
use expo_fastapi_todo.Workflow.Domain.{Uuid}
use expo_fastapi_todo.Suggestion.Types.{SuggestionSnapshot, SuggestionErrorCode}
use expo_fastapi_todo.Suggestion.Reserve.{ReserveRequest, Reserved, reserve_suggestion}
use expo_fastapi_todo.Suggestion.Finish.{FinishRequest, finish_suggestion}
use expo_fastapi_todo.Suggestion.Claim.{
  ClaimedSuggestion, ClaimResult, claimed, Discovered, claim_suggestion, claimed_row,
}
use expo_fastapi_todo.Suggestion.Claim.Granted.{claim-Granted}
use expo_fastapi_todo.Suggestion.Claim.Once.{granted_row}
use expo_fastapi_todo.Suggestion.FinishClaimed.{finish_claimed_suggestion}
use expo_fastapi_todo.Suggestion.Expire.{ExpiredSuggestion, expire_suggestions_with_context}
use expo_fastapi_todo.Suggestion.History.{IsOrdered, Follows, Follows-trans, Follows-same}
use expo_fastapi_todo.Suggestion.History.Operations.{claim_suggestion-IsSafe}
use expo_fastapi_todo.Suggestion.History.Results.{
  finish_claimed_suggestion-IsSafe, expire_suggestions-IsSafe,
}
use expo_fastapi_todo.Suggestion.History.Requests.{
  reserve_suggestion-IsSafe, finish_suggestion-IsSafe,
}

-- One committed transaction.
pub data Step (p : Platform) (db db' : Database) : Type 0 where
  by_reserve :
      (now : ℕ) (request : ReserveRequest) (answer : Option Reserved)
      → reserve_suggestion p now request db ≡ ok (answer, db')
      → Step p db db'
  by_finish :
      (now : ℕ) (event_id : Uuid) (request : FinishRequest) (answer : Option SuggestionSnapshot)
      → finish_suggestion p now event_id request db ≡ ok (answer, db')
      → Step p db db'
  by_claim :
      (now : ℕ) (event_id : Uuid) (id : ℕ) (discovered : Option Discovered) (answer : ClaimResult)
      → claim_suggestion p now event_id id discovered db ≡ ok (answer, db')
      → Step p db db'
  by_finish_claim :
      (now : ℕ) (event_id : Uuid) (claim : ClaimedSuggestion) (titles : Option (List Text))
      (error_code : Option SuggestionErrorCode) (discovered : Option Discovered)
      (answer : Option SuggestionSnapshot)
      → finish_claimed_suggestion p now event_id claim titles error_code discovered db
        ≡ ok (answer, db')
      → Step p db db'
  by_expire :
      (locked : Uuid → Bool) (now : ℕ) (draw : ℕ → Uuid) (expired : List ExpiredSuggestion)
      → expire_suggestions_with_context locked now draw db ≡ ok (expired, db')
      → Step p db db'
  -- a transaction of another component, which has no statement on the table
  elsewhere : db'.suggestions ≡ db.suggestions → Step p db db'

pub data Reach (p : Platform) (db : Database) : Database → Type 0 where
  start : Reach p db db
  next : (db1 db2 : Database) → Reach p db db1 → Step p db1 db2 → Reach p db db2

Step-Follows : (p : Platform) (db db' : Database) → IsOrdered db → Step p db db' → Follows db db'
Step-Follows p db db' ordered (by_reserve now request answer e) =
    (reserve_suggestion-IsSafe p now request db).run e ordered
Step-Follows p db db' ordered (by_finish now event_id request answer e) =
    (finish_suggestion-IsSafe p now event_id request db).run e ordered
Step-Follows p db db' ordered (by_claim now event_id id discovered answer e) =
    (claim_suggestion-IsSafe p now event_id id discovered db).run e ordered
Step-Follows p db db' ordered
      (by_finish_claim now event_id claim titles error_code discovered answer e) =
    (finish_claimed_suggestion-IsSafe p now event_id claim titles error_code discovered db).run e
      ordered
Step-Follows p db db' ordered (by_expire locked now draw expired e) =
    (expire_suggestions-IsSafe locked now draw db).run e ordered
Step-Follows p db db' ordered (elsewhere same) = Follows-same db db' ordered same

-- When the ids of the table rise, then after any sequence of committed transactions they still do,
-- and each row is still there under its id: its identity and its stored inputs are the same, its
-- claim marker is the same or was not set, and the whole row is the same or was pending.
pub Reach-Follows :
    (p : Platform) (db db' : Database) → IsOrdered db → Reach p db db' → Follows db db'
Reach-Follows p db _ ordered start = Follows-same db db ordered refl
Reach-Follows p db _ ordered (next db1 db2 before last) =
    let earlier = Reach-Follows p db db1 ordered before in
    Follows-trans earlier (Step-Follows p db1 db2 earlier.ordered last)

-- In a table whose ids rise, after a claim was granted no claim of the same id is granted again,
-- whatever transactions commit in between.
pub claim_once_ever :
    (p : Platform) (now later : ℕ) (event_id event_id' : Uuid) (id owner_id owner_id' : ℕ)
    (workflow_id workflow_id' : Uuid) (db db1 db2 : Database) {c c' : ClaimedSuggestion}
    {db3 : Database}
    → IsOrdered db
    → claim_suggestion p now event_id id (some (owner_id, workflow_id)) db ≡ ok (claimed c, db1)
    → Reach p db1 db2
    → ¬ (
        claim_suggestion p later event_id' id (some (owner_id', workflow_id')) db2
        ≡ ok (claimed c', db3))
claim_once_ever p now later event_id event_id' id owner_id owner_id' workflow_id workflow_id' db db1
      db2 {c} {c'} {db3} ordered h run again =
    let first = claim-Granted p now event_id id owner_id workflow_id db h in
    let second = claim-Granted p later event_id' id owner_id' workflow_id' db2 again in
    let ordered1 =
      ((claim_suggestion-IsSafe p now event_id id (some (owner_id, workflow_id)) db).run h
        ordered).ordered in
    let (row', found', e) =
      (Reach-Follows p db1 db2 ordered1 run).evolved id (claimed_row now first.row)
        (granted_row p now event_id id owner_id workflow_id db h) in
    let this : row' ≡ second.row =
      Option.some-injective row' second.row (sym found' ∙ second.found) in
    ground
      (arith, e.marker, second.unclaimed, ap (λ (r : SuggestionRow). r.provider_started_at) this)

pub Reach-trans : (p : Platform) (a b c : Database) → Reach p a b → Reach p b c → Reach p a c
Reach-trans p a b _ before start = before
Reach-trans p a b _ before (next c d rest last) = next c d (Reach-trans p a b c before rest) last
