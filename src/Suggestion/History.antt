-- ===== src/Suggestion/History.antt =====
-- How a suggestion's row may change (apps/api/app/suggestion_service.py): its identity and its stored
-- inputs stay, the claim marker is written once, and a row that is not pending is final.
pub mod Safe
pub mod Writes
pub mod Operations
pub mod Results
pub mod Requests
pub mod Runs
use expo_fastapi_todo.Prelude.{
  ℕ, suc, ◌≡◌, ◌≤◌, ◌⊎◌, inl, inr, refl, ap, ◌∙◌, true, none, some, List, [], ◌∷◌, find, arith,
  ◌==◌,
}
use expo_fastapi_todo.Database.Rows.{SuggestionRow}
use expo_fastapi_todo.Database.Transaction.{Database}
use expo_fastapi_todo.Suggestion.Store.{is_pending, find_suggestion_id}

pub record Evolves (row row' : SuggestionRow) : Type 0 where
  pub identity : row' ≡ record row {
    status = row'.status;
    proposed_titles = row'.proposed_titles;
    error_code = row'.error_code;
    provider_started_at = row'.provider_started_at;
  }
  pub marker :
      (row.provider_started_at ≡ none) ⊎ (row'.provider_started_at ≡ row.provider_started_at)
  pub final : (is_pending row ≡ true) ⊎ (row' ≡ row)

pub Evolves-refl : (row : SuggestionRow) → Evolves row row
Evolves-refl row = record { identity = refl; marker = inr refl; final = inr refl }

pub Evolves-trans : {a b c : SuggestionRow} → Evolves a b → Evolves b c → Evolves a c
Evolves-trans {a} {b} {c} e f = record {
  identity =
      f.identity
      ∙ ap
          (λ (r : SuggestionRow). record r {
            status = c.status;
            proposed_titles = c.proposed_titles;
            error_code = c.error_code;
            provider_started_at = c.provider_started_at;
          })
          e.identity;
  marker = ground (arith, e.marker, f.marker);
  final = ground (arith, e.final, f.final);
}

-- The ids of a table rise, from `lo` on, and stay below the next one.
abbrev pub Ordered : ℕ → List SuggestionRow → ℕ → Type 0
Ordered lo [] hi = lo ≤ hi
Ordered lo (x ∷ xs) hi = (lo ≤ x.id) × Ordered (suc x.id) xs hi

abbrev pub IsOrdered : Database → Type 0
IsOrdered db = Ordered 0 db.suggestions.rows db.suggestions.next_id

-- Each row of the first database is in the second one under its id, evolved.
pub record Follows (db db' : Database) : Type 0 where
  pub evolved :
      (id : ℕ) (row : SuggestionRow)
      → find_suggestion_id id db ≡ some row
      → (row' : SuggestionRow) × (find_suggestion_id id db' ≡ some row') × Evolves row row'
  pub ordered : IsOrdered db'

pub Follows-trans : {a b c : Database} → Follows a b → Follows b c → Follows a c
Follows-trans f g = record {
  evolved = λ id row found.
      let (row', found', e) = f.evolved id row found in
      let (row'', found'', e') = g.evolved id row' found' in (row'', found'', Evolves-trans e e');
  ordered = g.ordered;
}

-- a transaction that leaves the suggestions alone
pub Follows-same :
    (db db' : Database) → IsOrdered db → db'.suggestions ≡ db.suggestions → Follows db db'
unfolding find_suggestion_id
Follows-same db db' ordered same = record {
  evolved = λ id row found. (row, rw same found, Evolves-refl row);
  ordered = rw same ordered;
}
