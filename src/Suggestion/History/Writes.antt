-- ===== src/Suggestion/History/Writes.antt =====
-- The writes of the suggestion table let its rows evolve.
use expo_fastapi_todo.Prelude.{
  ℕ, suc, ◌+◌, ◌≡◌, ◌≤◌, inl, inr, refl, sym, ap, ◌∙◌, subst, Bool, true, ◌&&◌, Option, none, some,
  List, [], ◌∷◌, ◌++◌, find, update_where, arith, ◌==◌, Bool-cases, if◌then◌else◌, Text, codes,
}
use expo_fastapi_todo.Database.Rows.{SuggestionRow}
use expo_fastapi_todo.Database.Transaction.{Database}
use expo_fastapi_todo.Workflow.Domain.{Uuid}
use expo_fastapi_todo.Suggestion.Types.{SuggestionErrorCode}
use expo_fastapi_todo.Suggestion.Store.{
  is_pending, find_suggestion_id, with_suggestions, save_suggestion, superseded_status,
  supersede_pending, insert_suggestion, of_workflow, result_row, failed_row, superseded_row,
  set_result, fail_row, supersede_row, outcome_of,
}
use expo_fastapi_todo.Analytics.Events.{record_event}
use expo_fastapi_todo.Analytics.Events.Laws.{record_event_lem}
use mathlib.Core.Option
use expo_fastapi_todo.Suggestion.Claim.{claimed_row}
use expo_fastapi_todo.Suggestion.Claim.Granted.{save_suggestion_lem}
use expo_fastapi_todo.Suggestion.History.{
  Evolves, Evolves-refl, Ordered, IsOrdered, Follows, Follows-same,
}
use expo_fastapi_todo.Suggestion.History.Safe.{IsSafe, bind-IsSafe}

Ordered-bound : (lo hi : ℕ) (rows : List SuggestionRow) → Ordered lo rows hi → lo ≤ hi
Ordered-bound lo hi [] h = h
Ordered-bound lo hi (x ∷ xs) h = omega (arith, Ordered-bound (suc x.id) hi xs h.1)

find-ge :
    (test : SuggestionRow → Bool) (lo hi : ℕ) (rows : List SuggestionRow) {row : SuggestionRow}
    → Ordered lo rows hi
    → find test rows ≡ some row
    → lo ≤ row.id
find-ge test lo hi [] h e = cc
find-ge test lo hi (x ∷ xs) {row} h e =
    ground (arith, find-ge test (suc x.id) hi xs {row = row} h.1)

-- In a table whose ids rise, a row that some search finds is the row of its id.
pub find_id :
    (test : SuggestionRow → Bool) (lo hi : ℕ) (rows : List SuggestionRow) {row : SuggestionRow}
    → Ordered lo rows hi
    → find test rows ≡ some row
    → find (λ r. r.id == row.id) rows ≡ some row
find_id test lo hi [] h e = cc
find_id test lo hi (x ∷ xs) {row} h e = ground (
  arith,
  find_id test (suc x.id) hi xs {row = row} h.1,
  find-ge test (suc x.id) hi xs {row = row} h.1,
)

module _ (test : SuggestionRow → Bool) (change : SuggestionRow → SuggestionRow)
    (same : (x : SuggestionRow) → test x ≡ true → (change x).id ≡ x.id) where
  find-update :
      (id : ℕ) (rows : List SuggestionRow) {row : SuggestionRow}
      → find (λ r. r.id == id) rows ≡ some row
      → find (λ r. r.id == id) (update_where test change rows)
        ≡ some (if test row then change row else row)
  find-update id [] e = cc
  find-update id (x ∷ xs) {row} e = ground (arith, same x, find-update id xs {row = row})

  Ordered-update :
      (lo hi : ℕ) (rows : List SuggestionRow)
      → Ordered lo rows hi
      → Ordered lo (update_where test change rows) hi
  Ordered-update lo hi [] h = h
  Ordered-update lo hi (x ∷ xs) h = ground (arith, same x, Ordered-update (suc x.id) hi xs h.1)

Ordered-append :
    (lo hi : ℕ) (rows : List SuggestionRow) (row : SuggestionRow)
    → Ordered lo rows hi
    → row.id ≡ hi
    → Ordered lo (rows ++ row ∷ []) (hi + 1)
Ordered-append lo hi [] row h e = omega (arith, e)
Ordered-append lo hi (x ∷ xs) row h e = (h.0, Ordered-append (suc x.id) hi xs row h.1 e)

find-append_some :
    (test : SuggestionRow → Bool) (xs ys : List SuggestionRow) {row : SuggestionRow}
    → find test xs ≡ some row
    → find test (xs ++ ys) ≡ some row
find-append_some test [] ys e = cc
find-append_some test (x ∷ xs) ys {row} e = ground (arith, find-append_some test xs ys {row = row})

-- An update of rows that keeps their ids lets them evolve.
update-Follows :
    (test : SuggestionRow → Bool) (change : SuggestionRow → SuggestionRow) (db : Database)
    → IsOrdered db
    → ((x : SuggestionRow) → test x ≡ true → (change x).id ≡ x.id)
    → ((x : SuggestionRow)
        → find_suggestion_id x.id db ≡ some x
        → test x ≡ true
        → Evolves x (change x))
    → Follows db (with_suggestions (update_where test change) db)
unfolding find_suggestion_id
update-Follows test change db ordered same evolves = record {
  evolved = λ id row found. (
    if test row then change row else row,
    find-update test change same id db.suggestions.rows found,
    elim (Bool-cases (test row)) [
      | inl hit ↦ rw hit (
          evolves row
            (find_id (λ r. r.id == id) 0 db.suggestions.next_id db.suggestions.rows ordered found)
            hit)
      | inr miss ↦ rw miss (Evolves-refl row)
    ],
  );
  ordered = Ordered-update test change same 0 db.suggestions.next_id db.suggestions.rows ordered;
}

saved_row :
    (row row' x : SuggestionRow) (db : Database)
    → find_suggestion_id row.id db ≡ some row
    → Evolves row row'
    → find_suggestion_id x.id db ≡ some x
    → (x.id == row'.id) ≡ true
    → Evolves x row'
saved_row row row' x db found e there hit =
    let same_id : row'.id ≡ row.id = ap (λ (r : SuggestionRow). r.id) e.identity in
    let x_id : x.id ≡ row.id = ground (arith, same_id, hit) in
    let this : row ≡ x =
      Option.some-injective row x
        (sym found ∙ ap (λ i. find_suggestion_id i db) (sym x_id) ∙ there) in
    subst (λ (r : SuggestionRow). Evolves r row') this e

-- Saving the evolved form of a stored row.
pub save-IsSafe :
    (row row' : SuggestionRow) (db : Database)
    → find_suggestion_id row.id db ≡ some row
    → Evolves row row'
    → IsSafe (save_suggestion row') db
save-IsSafe row row' db found e = record {
  run = λ {a} {db'} h ordered.
      subst (λ (d : Database). Follows db d) (sym (save_suggestion_lem row' db h))
        (update-Follows (λ r. r.id == row'.id) (λ _. row') db ordered (λ x t. ground arith)
          (λ x there hit. saved_row row row' x db found e there hit));
}

pub record_event-IsSafe :
    (now : ℕ) (event_id : Uuid) (name : Text) (owner_id : ℕ) (workflow_key : Option Uuid)
    (outcome : Option Text) (db : Database)
    → IsSafe (record_event now event_id name owner_id workflow_key outcome) db
record_event-IsSafe now event_id name owner_id workflow_key outcome db = record {
  run = λ {a} {db'} h ordered.
      let (user, _, _, only) =
        record_event_lem now event_id name owner_id workflow_key outcome db {db' = db'} (h) in
      Follows-same db db' ordered (ground (arith, only));
}

-- what happens to a pending row
pub result_row-Evolves :
    (titles : Option (List Text)) (error_code : Option SuggestionErrorCode) (row : SuggestionRow)
    → is_pending row ≡ true
    → Evolves row (result_row titles error_code row)
result_row-Evolves none error_code row h = record {
  identity = refl;
  marker = inr refl;
  final = inl h;
}
result_row-Evolves (some titles) error_code row h = record {
  identity = refl;
  marker = inr refl;
  final = inl h;
}

module _ (row : SuggestionRow) (pending : is_pending row ≡ true) (db : Database)
    (found : find_suggestion_id row.id db ≡ some row) where
  pub set_result-IsSafe :
      (now : ℕ) (event_id : Uuid) (titles : Option (List Text))
      (error_code : Option SuggestionErrorCode)
      → IsSafe (set_result now event_id row titles error_code) db
  unfolding set_result
  set_result-IsSafe now event_id titles error_code =
      bind-IsSafe (save_suggestion (result_row titles error_code row) db) _ db
        (save-IsSafe row (result_row titles error_code row) db found
          (result_row-Evolves titles error_code row pending))
        (λ _ db1 _.
          record_event-IsSafe now event_id (codes "suggestion_finished") row.owner_id
            (some row.workflow_id) (some (outcome_of titles)) db1)

  pub fail_row-IsSafe : (now : ℕ) (event_id : Uuid) → IsSafe (fail_row now event_id row) db
  unfolding fail_row
  fail_row-IsSafe now event_id =
      bind-IsSafe (save_suggestion (failed_row row) db) _ db
        (save-IsSafe row (failed_row row) db found
          (record { identity = refl; marker = inr refl; final = inl pending }))
        (λ _ db1 _.
          record_event-IsSafe now event_id (codes "suggestion_finished") row.owner_id
            (some row.workflow_id) (some (codes "expired")) db1)

  pub supersede_row-IsSafe : IsSafe (supersede_row row) db
  unfolding supersede_row
  supersede_row-IsSafe =
      save-IsSafe row (superseded_row row) db found
        (record { identity = refl; marker = inr refl; final = inl pending })

  pub claimed-IsSafe :
      (now : ℕ) → row.provider_started_at ≡ none → IsSafe (save_suggestion (claimed_row now row)) db
  claimed-IsSafe now unclaimed =
      save-IsSafe row (claimed_row now row) db found
        (record { identity = refl; marker = inl unclaimed; final = inl pending })

pub supersede_pending-IsSafe :
    (owner_id : ℕ) (workflow_id : Uuid) (db : Database)
    → IsSafe (supersede_pending owner_id workflow_id) db
unfolding supersede_pending
supersede_pending-IsSafe owner_id workflow_id db = record {
  run = λ {a} {db'} h ordered.
      subst (λ (d : Database). Follows db d) (ground arith)
        (update-Follows (λ r. of_workflow owner_id workflow_id r && is_pending r) superseded_status
          db ordered (λ x t. refl)
          (λ x there hit. record {
            identity = refl;
            marker = inr refl;
            final = inl (ground arith);
          }));
}

-- the database with one more row
abbrev inserted : (ℕ → SuggestionRow) → Database → Database
inserted row db = record db {
  suggestions = record {
    rows = db.suggestions.rows ++ row db.suggestions.next_id ∷ [];
    next_id = db.suggestions.next_id + 1;
  };
}

inserted-Follows :
    (row : ℕ → SuggestionRow) (db : Database)
    → ((id : ℕ) → (row id).id ≡ id)
    → IsOrdered db
    → Follows db (inserted row db)
unfolding find_suggestion_id
inserted-Follows row db fresh ordered = record {
  evolved = λ id old found. (
    old,
    find-append_some (λ r. r.id == id) db.suggestions.rows (row db.suggestions.next_id ∷ []) found,
    Evolves-refl old,
  );
  ordered =
      Ordered-append 0 db.suggestions.next_id db.suggestions.rows (row db.suggestions.next_id)
        ordered (fresh db.suggestions.next_id);
}

pub insert_suggestion-IsSafe :
    (row : ℕ → SuggestionRow) (db : Database)
    → ((id : ℕ) → (row id).id ≡ id)
    → IsSafe (insert_suggestion row) db
unfolding insert_suggestion
insert_suggestion-IsSafe row db fresh = record {
  run = λ {a} {db'} h ordered.
      let same : inserted row db ≡ db' = ground arith in
      subst (λ (d : Database). Follows db d) same (inserted-Follows row db fresh ordered);
}
