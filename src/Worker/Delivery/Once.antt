-- ===== src/Worker/Delivery/Once.antt =====
-- The provider is called at most once for a suggestion, over all deliveries (apps/api/app/worker.py).
use mathlib.Core.Option
use expo_fastapi_todo.Prelude.{
  ℕ, ◌+◌, ◌≤◌, ◌≡◌, ◌⊎◌, refl, sym, ap, ◌∙◌, subst, true, false, Option, none, some, List, [], ◌∷◌,
  ◌==◌, arith, Bool-cases, inl, inr, find_passes, All, is_none,
}
use expo_fastapi_todo.Result.{ok}
use expo_fastapi_todo.Platform.{Platform}
use expo_fastapi_todo.Database.Rows.{SuggestionRow}
use expo_fastapi_todo.Database.Transaction.{Database, gets}
use expo_fastapi_todo.Workflow.Domain.{Uuid}
use expo_fastapi_todo.Suggestion.Store.{find_suggestion_id}
use expo_fastapi_todo.Suggestion.Claim.{
  ClaimedSuggestion, ClaimResult, Discovered, claimed, no_work, discover, claim_suggestion,
  claimed_row,
}
use expo_fastapi_todo.Suggestion.Claim.Granted.{claim-Granted}
use expo_fastapi_todo.Suggestion.Claim.Once.{granted_row}
use expo_fastapi_todo.Suggestion.History.{IsOrdered}
use expo_fastapi_todo.Suggestion.History.Runs.{Reach, Reach-trans, Reach-Follows}
use expo_fastapi_todo.Worker.Events.{
  World, Seams, Called, returned, raised, broken, attempt, and_then,
}
use expo_fastapi_todo.Worker.Delivery.{claim_in_worker, deliver_once}
use expo_fastapi_todo.Worker.Delivery.Attempts.{
  IsFriendly, attempt-Reach, attempt_lem, gets-Runs, claim_in_worker-After,
}
use expo_fastapi_todo.Worker.Delivery.Calls.{calls, grants, on_claim-Counted}

-- the suggestion has been claimed
pub record Marked (id : ℕ) (db : Database) : Type 0 where
  pub row : SuggestionRow
  pub found : find_suggestion_id id db ≡ some row
  pub marked : is_none row.provider_started_at ≡ false

Marked-Reach :
    (p : Platform) (id : ℕ) (db db' : Database)
    → IsOrdered db
    → Reach p db db'
    → Marked id db
    → Marked id db'
Marked-Reach p id db db' ordered run m =
    let (row', found', e) = (Reach-Follows p db db' ordered run).evolved id m.row m.found in
    record { row = row'; found = found'; marked = ground (arith, e.marker, m.marked) }

-- A granted claim: the row had no marker, and has one after.
record GrantedOnce (id : ℕ) (claim : ClaimedSuggestion) (db db' : Database) : Type 0 where
  unmarked : ¬ (Marked id db)
  marked : Marked id db'
  same_id : claim.suggestion_id ≡ id

granted_once :
    (p : Platform) (now : ℕ) (event_id : Uuid) (id : ℕ) (discovered : Option Discovered)
    (db : Database) {claim : ClaimedSuggestion} {db' : Database}
    → claim_suggestion p now event_id id discovered db ≡ ok (claimed claim, db')
    → GrantedOnce id claim db db'
unfolding claim_suggestion find_suggestion_id
granted_once p now event_id id none db h = cc
granted_once p now event_id id (some (owner_id, workflow_id)) db {claim} {db'} h =
    let granted = claim-Granted p now event_id id owner_id workflow_id db h in
    let (goal, clarification, _, _, _, is_claim) = granted.matching in
    record {
      unmarked = λ m.
          let same : m.row ≡ granted.row =
            Option.some-injective m.row granted.row (sym m.found ∙ granted.found) in
          ground (
            arith,
            m.marked,
            granted.unclaimed,
            ap (λ (r : SuggestionRow). r.provider_started_at) same,
          );
      marked = record {
        row = claimed_row now granted.row;
        found = granted_row p now event_id id owner_id workflow_id db h;
        marked = refl;
      };
      same_id = ground (
        arith,
        is_claim,
        find_passes (λ (r : SuggestionRow). r.id == id) db.suggestions.rows granted.found,
      );
    }

-- the two transactions of a claim, when the claim was granted
claim_once_granted :
    (p : Platform) (s : Seams) (id : ℕ) (w : World) {claim : ClaimedSuggestion}
    → IsFriendly p s
    → (claim_in_worker s id w).0 ≡ returned (claimed claim)
    → (db : Database) × Reach p w.db db × GrantedOnce id claim db (claim_in_worker s id w).1.db
unfolding claim_in_worker
claim_once_granted p s id w {claim} friendly h =
    go (attempt s 0 (gets (discover id)) w).0 (attempt s 0 (gets (discover id)) w).1
      (attempt-Reach p s 0 (gets (discover id)) w friendly (gets-Runs p (discover id))) h
  where
    go :
        (x : Called (Option Discovered)) (w1 : World)
        → Reach p w.db w1.db
        → (and_then
            (x, w1)
            (λ discovered w2.
              attempt s 1 (claim_suggestion s.platform (s.now 1) (s.draw 1) id discovered) w2)).0
          ≡ returned (claimed claim)
        → (db : Database) × Reach p w.db db
          × GrantedOnce id claim db
              (and_then
                (x, w1)
                (λ discovered w2.
                  attempt s 1
                    (claim_suggestion s.platform (s.now 1) (s.draw 1) id discovered)
                    w2)).1.db
    go (returned discovered) w1 run e = (
      s.others 1 w1.db,
      Reach-trans p w.db w1.db (s.others 1 w1.db) run (friendly.run 1 w1.db),
      granted_once s.platform (s.now 1) (s.draw 1) id discovered (s.others 1 w1.db)
          (attempt_lem s 1 (claim_suggestion s.platform (s.now 1) (s.draw 1) id discovered) w1 e),
    )
    go (raised error) w1 run e = cc
    go (broken fault) w1 run e = cc

-- No call yet, or one call and the suggestion has been claimed.
record CalledOnce (id : ℕ) (w : World) : Type 0 where
  ordered : IsOrdered w.db
  at_most : (calls id w.events ≤ 0) ⊎ ((calls id w.events ≤ 1) × Marked id w.db)

grants_none :
    (id : ℕ) (claim : ClaimedSuggestion)
    → (claim.suggestion_id == id) ≡ false
    → grants id (returned (claimed claim)) ≡ 0
grants_none id claim h = ground arith

-- what a delivery adds to the calls
delivery-Counted :
    (p : Platform) (s : Seams) (k id : ℕ) (w : World)
    → IsFriendly p s
    → (calls id (deliver_once s k w).1.events
        ≤ calls id w.events + grants id (claim_in_worker s k w).0)
      × Reach p (claim_in_worker s k w).1.db (deliver_once s k w).1.db
unfolding deliver_once
delivery-Counted p s k id w friendly =
    let first = claim_in_worker-After p s k w friendly in
    let second =
      on_claim-Counted p id s k (claim_in_worker s k w).0 (claim_in_worker s k w).1 friendly in
    (omega (arith, second.bound, ap (calls id) first.events), second.reached)

delivery-CalledOnce :
    (p : Platform) (s : Seams) (k id : ℕ) (w : World) (answer : Called ClaimResult)
    → IsFriendly p s
    → (claim_in_worker s k w).0 ≡ answer
    → CalledOnce id w
    → CalledOnce id (deliver_once s k w).1
delivery-CalledOnce p s k id w answer friendly e before =
    let (bound, last) = delivery-Counted p s k id w friendly in
    let first = (claim_in_worker-After p s k w friendly).reached in
    let run = Reach-trans p w.db (claim_in_worker s k w).1.db _ first last in
    let kept = Reach-Follows p w.db _ before.ordered run in
    let quiet : grants id answer ≡ 0 → CalledOnce id (deliver_once s k w).1 = λ idle. record {
      ordered = kept.ordered;
      at_most = elim before.at_most [
        | inl none_yet ↦ inl (omega (arith, bound, ap (grants id) e, idle, none_yet))
        | inr (one_call, m) ↦ inr (
          omega (arith, bound, ap (grants id) e, idle, one_call),
          Marked-Reach p id w.db _ before.ordered run m,
        )
      ];
    } in
    let granting : (claim : ClaimedSuggestion)
        → answer ≡ returned (claimed claim)
        → (claim.suggestion_id == id) ≡ true
        → CalledOnce id (deliver_once s k w).1 =
      λ claim g hit.
        let (db, there, granted) = claim_once_granted p s k w {claim = claim} friendly (e ∙ g) in
        let same : k ≡ id = ground (arith, granted.same_id, hit) in
        let marked' =
          Marked-Reach p id (claim_in_worker s k w).1.db _
            (Reach-Follows p w.db (claim_in_worker s k w).1.db before.ordered first).ordered last
            (subst (λ i. Marked i (claim_in_worker s k w).1.db) same granted.marked) in
        let unmarked : ¬ (Marked id w.db) = λ m. granted.unmarked (
          Marked-Reach p k w.db db before.ordered there
            (subst (λ i. Marked i w.db) (sym same) m)) in
        record {
          ordered = kept.ordered;
          at_most = elim before.at_most [
            | inl none_yet ↦
                inr (ground (arith, bound, ap (grants id) (e ∙ g), hit, none_yet), marked')
            | inr (one_call, m) ↦ absurd (unmarked m)
          ];
        } in
    decide answer quiet granting
  where
    decide :
        {C : Type 0} (r : Called ClaimResult)
        → (grants id r ≡ 0 → C)
        → ((claim : ClaimedSuggestion)
            → r ≡ returned (claimed claim)
            → (claim.suggestion_id == id) ≡ true
            → C)
        → C
    decide (returned (claimed claim)) idle hit = elim (Bool-cases (claim.suggestion_id == id)) [
      | inl same ↦ hit claim refl same
      | inr other ↦ idle (ground arith)
    ]
    decide (returned no_work) idle hit = idle refl
    decide (returned (ClaimResult.timeout snapshot)) idle hit = idle refl
    decide (returned (ClaimResult.superseded snapshot)) idle hit = idle refl
    decide (raised error) idle hit = idle refl
    decide (broken fault) idle hit = idle refl

-- deliveries one after another, each with its surroundings and its suggestion
abbrev pub deliver_all : List (Seams × ℕ) → World → World
deliver_all [] w = w
deliver_all ((s, id) ∷ deliveries) w = deliver_all deliveries (deliver_once s id w).1

deliver_all-CalledOnce :
    (p : Platform) (id : ℕ) (deliveries : List (Seams × ℕ)) (w : World)
    → All (λ d. IsFriendly p d.0) deliveries
    → CalledOnce id w
    → CalledOnce id (deliver_all deliveries w)
deliver_all-CalledOnce p id [] w friendly before = before
deliver_all-CalledOnce p id ((s, k) ∷ deliveries) w friendly before =
    deliver_all-CalledOnce p id deliveries (deliver_once s k w).1 friendly.1
      (delivery-CalledOnce p s k id w (claim_in_worker s k w).0 friendly.0 refl before)

-- In a table whose ids rise, any deliveries one after another, of whatever suggestions, with whatever
-- of their transactions broken, with the provider's replies as they come, and with any committed
-- transactions of others before each of theirs, call the provider at most once for each suggestion.
pub provider_called_once :
    (p : Platform) (id : ℕ) (deliveries : List (Seams × ℕ)) (w : World)
    → All (λ d. IsFriendly p d.0) deliveries
    → IsOrdered w.db
    → calls id w.events ≡ 0
    → calls id (deliver_all deliveries w).events ≤ 1
provider_called_once p id deliveries w friendly ordered fresh =
    let after =
      deliver_all-CalledOnce p id deliveries w friendly
        (record { ordered = ordered; at_most = inl (omega (arith, fresh)) }) in
    elim after.at_most [ inl none_yet ↦ omega (arith, none_yet) | inr (one_call, m) ↦ one_call ]
