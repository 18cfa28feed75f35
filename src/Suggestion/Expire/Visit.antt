-- ===== src/Suggestion/Expire/Visit.antt =====
-- One candidate, and the loop over them, in `expire_suggestions_with_context` of
-- apps/api/app/suggestion_service.py.
use expo_fastapi_todo.Prelude.{
  ℕ, suc, ◌≡◌, refl, sym, ap, ◌∙◌, Bool, true, false, Option, none, some, List, [], ◌∷◌, arith,
  Bool-cases, inl, inr, ◌==◌, codes, find_passes, Has, text_eq,
}
use mathlib.Core.Option
use expo_fastapi_todo.Result.{ok}
use expo_fastapi_todo.Database.Rows.{SuggestionRow}
use expo_fastapi_todo.Database.Transaction.{Database, pure, ◌>>=◌, steps, after}
use expo_fastapi_todo.Workflow.Domain.{Uuid}
use expo_fastapi_todo.Workflow.Store.{find_workflow}
use expo_fastapi_todo.Analytics.Events.Laws.{record_event_lem}
use expo_fastapi_todo.Suggestion.Store.{
  fail_row, failed_row, save_suggestion, find_suggestion_id, is_pending,
}
use expo_fastapi_todo.Suggestion.Claim.Granted.{save_suggestion_lem}
use expo_fastapi_todo.Suggestion.Claim.Once.{find-update_where}
use expo_fastapi_todo.Suggestion.Expire.{
  ExpiredSuggestion, is_still_due, unlocked, expire_row, expire_found, expire_each,
}
use expo_fastapi_todo.Suggestion.Expire.Limit.{fail_row-other}

-- a failed row is stored under its id, and the workflows stay
fail_row_lem :
    (now : ℕ) (event_id : Uuid) (row : SuggestionRow) (db : Database) {u : Unit {0}}
    {db' : Database} (id : ℕ)
    → fail_row now event_id row db ≡ ok (u, db')
    → find_suggestion_id id db ≡ some row
    → (find_suggestion_id id db' ≡ some (failed_row row)) × (db'.workflows ≡ db.workflows)
unfolding fail_row find_suggestion_id
fail_row_lem now event_id row db {u} {db'} id h found =
    elim (steps (save_suggestion (failed_row row)) _ db h) [
      | after _ db1 saved rest ↦
          let (_, _, _, event) =
            record_event_lem now event_id (codes "suggestion_finished") row.owner_id
              (some row.workflow_id) (some (codes "expired")) db1 {db' = db'} (ground arith) in
          let written = save_suggestion_lem (failed_row row) db saved in
          (
            rw event (
                rw written
                  (find-update_where row (failed_row row) db.suggestions.rows id found refl)),
            rw event (rw written refl),
          )
    ]

-- What one candidate of the loop does to the row of an id.
data Visit (id i : ℕ) (db db' : Database) : Type 0 where
  passed : db' ≡ db → Visit id i db db'
  failed :
      (row : SuggestionRow)
      → find_suggestion_id i db ≡ some row
      → is_pending row ≡ true
      → db'.workflows ≡ db.workflows
      → find_suggestion_id i db' ≡ some (failed_row row)
      → ((i == id) ≡ false → find_suggestion_id id db' ≡ find_suggestion_id id db)
      → Visit id i db db'

expire_row-Visit :
    (now : ℕ) (event_id : Uuid) (id i : ℕ) (row : SuggestionRow) (db : Database)
    {expired : List ExpiredSuggestion} {db' : Database}
    → find_suggestion_id i db ≡ some row
    → row.id ≡ i
    → (fail_row now event_id row >>= λ _.
          pure (record { suggestion_id = row.id; trace_parent = row.trace_parent } ∷ []))
        db
      ≡ ok (expired, db')
    → is_pending row ≡ true
    → Visit id i db db'
expire_row-Visit now event_id id i row db {expired} {db'} found same h pending =
    elim (steps (fail_row now event_id row) _ db h) [
      | after u db1 e rest ↦
          let end : db1 ≡ db' = ground arith in
          let (stored, kept) = fail_row_lem now event_id row db i e found in
          rw (sym end) (
            failed row found pending kept stored
              (λ other. fail_row-other now event_id row db id e (rw same other)))
    ]

still_due-pending :
    (now : ℕ) (row : SuggestionRow) → is_still_due now row ≡ true → is_pending row ≡ true
unfolding is_still_due
still_due-pending now row h = ground arith

expire_found-Visit :
    (locked : Uuid → Bool) (now : ℕ) (event_id : Uuid) (id i : ℕ) (found : Option SuggestionRow)
    (db : Database) {expired : List ExpiredSuggestion} {db' : Database}
    → find_suggestion_id i db ≡ found
    → expire_found locked now event_id found db ≡ ok (expired, db')
    → Visit id i db db'
unfolding expire_found expire_row find_suggestion_id
expire_found-Visit locked now event_id id i none db e h = passed (ground arith)
expire_found-Visit locked now event_id id i (some row) db {expired} {db'} e h =
    let same : row.id ≡ i =
      ground (arith, find_passes (λ r. r.id == i) db.suggestions.rows {x = row} e) in
    elim (Bool-cases (unlocked locked row db)) [
      | inr held ↦ passed (ground arith)
      | inl free ↦ elim (Bool-cases (is_still_due now row)) [
        | inr early ↦ passed (ground arith)
        | inl due ↦
            expire_row-Visit now event_id id i row db {expired = expired} {db' = db'} e same
              (rw due at (rw free at h)) (still_due-pending now row due)
      ]
    ]

-- a candidate that is unlocked and due is failed
expire_found-fails :
    (locked : Uuid → Bool) (now : ℕ) (event_id : Uuid) (i : ℕ) (row : SuggestionRow) (db : Database)
    {expired : List ExpiredSuggestion} {db' : Database}
    → find_suggestion_id i db ≡ some row
    → unlocked locked row db ≡ true
    → is_still_due now row ≡ true
    → expire_found locked now event_id (some row) db ≡ ok (expired, db')
    → find_suggestion_id i db' ≡ some (failed_row row)
unfolding expire_found expire_row
expire_found-fails locked now event_id i row db {expired} {db'} found free due h =
    elim (steps (fail_row now event_id row) _ db (rw due at (rw free at h))) [
      | after u db1 e rest ↦
          let end : db1 ≡ db' = ground arith in
          rw (sym end) (fail_row_lem now event_id row db i e found).0
    ]

-- a row that is not pending is passed over
Visit-settled :
    (id i : ℕ) (row : SuggestionRow) (db db' : Database)
    → Visit id i db db'
    → find_suggestion_id id db ≡ some row
    → is_pending row ≡ false
    → find_suggestion_id id db' ≡ some row
Visit-settled id i row db db' (passed same) found settled = rw same found
Visit-settled id i row db db' (failed other there pending kept stored rest) found settled =
    elim (Bool-cases (i == id)) [
      | inr miss ↦ rest miss ∙ found
      | inl hit ↦
          let this : i ≡ id = ground arith in
          let one : other ≡ row =
            Option.some-injective other row
              (sym there ∙ ap (λ k. find_suggestion_id k db) this ∙ found) in
          absurd (cc (pending, settled, ap is_pending one))
    ]

expire_each-settled :
    (locked : Uuid → Bool) (now : ℕ) (draw : ℕ → Uuid) (k : ℕ) (ids : List ℕ) (id : ℕ)
    (row : SuggestionRow) (db : Database) {expired : List ExpiredSuggestion} {db' : Database}
    → expire_each locked now draw k ids db ≡ ok (expired, db')
    → find_suggestion_id id db ≡ some row
    → is_pending row ≡ false
    → find_suggestion_id id db' ≡ some row
unfolding expire_each
expire_each-settled locked now draw k [] id row db {expired} {db'} h found settled =
    let same : db ≡ db' = ground arith in rw (sym same) found
expire_each-settled locked now draw k (i ∷ ids) id row db {expired} {db'} h found settled =
    elim (steps (expire_found locked now (draw k) (find_suggestion_id i db)) _ db h) [
      | after first db1 f rest ↦ elim (steps (expire_each locked now draw (suc k) ids) _ db1 rest) [
        | after more db2 g end ↦
            let same : db2 ≡ db' = ground arith in
            let visited =
              expire_found-Visit locked now (draw k) id i (find_suggestion_id i db) db refl f in
            rw (sym same) (
              expire_each-settled locked now draw (suc k) ids id row db1 g
                (Visit-settled id i row db db1 visited found settled) settled)
      ]
    ]

Visit-other :
    (id i : ℕ) (db db' : Database)
    → Visit id i db db'
    → (i == id) ≡ false
    → (find_suggestion_id id db' ≡ find_suggestion_id id db) × (db'.workflows ≡ db.workflows)
Visit-other id i db db' (passed same) other =
    (ap (find_suggestion_id id) same, ap (λ (d : Database). d.workflows) same)
Visit-other id i db db' (failed row there pending kept stored rest) other = (rest other, kept)

unlocked-workflows :
    (locked : Uuid → Bool) (row : SuggestionRow) (db db' : Database)
    → db'.workflows ≡ db.workflows
    → unlocked locked row db ≡ true
    → unlocked locked row db' ≡ true
unfolding find_workflow
unlocked-workflows locked row db db' same free = rw same free

failed_row-settled : (row : SuggestionRow) → is_pending (failed_row row) ≡ false
unfolding text_eq
failed_row-settled row = refl

-- a candidate among those of the loop that is unlocked and due is failed
pub expire_each-fails :
    (locked : Uuid → Bool) (now : ℕ) (draw : ℕ → Uuid) (k : ℕ) (ids : List ℕ) (id : ℕ)
    (row : SuggestionRow) (db : Database) {expired : List ExpiredSuggestion} {db' : Database}
    → Has id ids
    → find_suggestion_id id db ≡ some row
    → unlocked locked row db ≡ true
    → is_still_due now row ≡ true
    → expire_each locked now draw k ids db ≡ ok (expired, db')
    → find_suggestion_id id db' ≡ some (failed_row row)
unfolding expire_each
expire_each-fails locked now draw k [] id row db there found free due h = absurd there
expire_each-fails locked now draw k (i ∷ ids) id row db {expired} {db'} there found free due h =
    elim (steps (expire_found locked now (draw k) (find_suggestion_id i db)) _ db h) [
      | after first db1 f rest ↦ elim (steps (expire_each locked now draw (suc k) ids) _ db1 rest) [
        | after more db2 g end ↦
            let same : db2 ≡ db' = ground arith in
            rw (sym same) (elim (Bool-cases (i == id)) [
              | inl hit ↦
                  let this : i ≡ id = ground arith in
                  let here = ap (λ j. find_suggestion_id j db) this ∙ found in
                  let now_failed =
                    expire_found-fails locked now (draw k) i row db here free due (rw here at f) in
                  expire_each-settled locked now draw (suc k) ids id (failed_row row) db1 g
                    (ap (λ j. find_suggestion_id j db1) (sym this) ∙ now_failed)
                    (failed_row-settled row)
              | inr miss ↦
                  let (kept, workflows) =
                    Visit-other id i db db1
                      (expire_found-Visit locked now (draw k) id i (find_suggestion_id i db) db refl
                        f)
                      miss in
                  elim there [
                    | inl this ↦ absurd (ground (arith, this))
                    | inr later ↦
                        expire_each-fails locked now draw (suc k) ids id row db1 later
                          (kept ∙ found) (unlocked-workflows locked row db db1 workflows free) due g
                  ]
            ])
      ]
    ]
