-- ===== src/Analytics/Events/Laws.antt =====
-- What a recorded event has written.
use expo_fastapi_todo.Prelude.{
  ℕ, ◌+◌, ◌≡◌, ◌↔◌, refl, sym, true, false, Option, none, some, List, [], ◌∷◌, ◌++◌, Text, codes,
  text_eq, text_eq_sound, text_eq_refl, arith, Option-cases, Bool-cases, inl, inr, any, find, ◌==◌,
  Has,
}
use expo_fastapi_todo.Result.{ok}
use expo_fastapi_todo.Json.{member}
use expo_fastapi_todo.Database.Rows.{UserRow}
use expo_fastapi_todo.Database.Transaction.{Database}
use expo_fastapi_todo.Workflow.Domain.{Uuid}
use expo_fastapi_todo.Analytics.Events.{
  event_names, event_row, insert_event, find_user, record_event,
}

-- what a recorded event has found and added
pub record_event_lem :
    (now : ℕ) (event_id : Uuid) (event_name : Text) (owner_id : ℕ) (workflow_key : Option Uuid)
    (outcome : Option Text) (db : Database) {db' : Database}
    → record_event now event_id event_name owner_id workflow_key outcome db ≡ ok (tt, db')
    → (user : UserRow) × (find_user owner_id db ≡ some user)
      × (member event_name event_names ≡ true)
      × (db'
          ≡ insert_event (event_row now event_id event_name workflow_key outcome user.public_id) db)
unfolding record_event
record_event_lem now event_id event_name owner_id workflow_key outcome db h =
    elim (Option-cases (find_user owner_id db)) [
      | inl missing ↦ absurd (ground arith)
      | inr (user, e) ↦ (user, e, ground arith, ground arith)
    ]

-- What a call adds: one row with the arguments, the key of the owner's user and no time of export. The
-- name is one of the four that are known, and the event's id is new.
pub record IsRecorded (now : ℕ) (event_id : Uuid) (event_name : Text) (owner_id : ℕ)
    (workflow_key : Option Uuid) (outcome : Option Text) (db db' : Database) : Type 0 where
  pub user : UserRow
  pub found : find (λ u. u.id == owner_id) db.users.rows ≡ some user
  pub known : Has event_name (
      codes "user_signed_up"
      ∷ codes "workflow_started"
      ∷ codes "workflow_completed"
      ∷ codes "suggestion_finished"
      ∷ [])
  pub unused : any (λ e. e.event_id == event_id) db.events.rows ≡ false
  pub added : db' ≡ record db {
    events = record {
      rows =
          db.events.rows
          ++ record {
            id = db.events.next_id;
            event_id = event_id;
            event_name = event_name;
            user_key = user.public_id;
            workflow_key = workflow_key;
            outcome = outcome;
            occurred_at = now;
            schema_version = 1;
            exported_at = none;
          }
            ∷ [];
      next_id = db.events.next_id + 1;
    };
  }

member-Has : (name : Text) (names : List Text) → member name names ≡ true → Has name names
member-Has name [] h = cc
member-Has name (x ∷ xs) h = elim (Bool-cases (text_eq x name)) [
  | inl hit ↦ inl (sym (text_eq_sound x name hit))
  | inr miss ↦ inr (member-Has name xs (rw miss at h))
]

Has-member : (name : Text) (names : List Text) → Has name names → member name names ≡ true
Has-member name [] h = absurd h
Has-member name (x ∷ xs) (inl e) = rw e (rw (text_eq_refl x) refl)
Has-member name (x ∷ xs) (inr h) = ground (arith, Has-member name xs h)

record_event-unused :
    (now : ℕ) (event_id : Uuid) (event_name : Text) (owner_id : ℕ) (workflow_key : Option Uuid)
    (outcome : Option Text) (db : Database) {db' : Database}
    → record_event now event_id event_name owner_id workflow_key outcome db ≡ ok (tt, db')
    → any (λ e. e.event_id == event_id) db.events.rows ≡ false
unfolding record_event
record_event-unused now event_id event_name owner_id workflow_key outcome db h = ground arith

-- An event is recorded exactly if its name is known, its id is new and its owner is a user, and then
-- the call adds one row and changes nothing else: the arguments, the user's key, and no time of export.
pub record_event_iff :
    (now : ℕ) (event_id : Uuid) (event_name : Text) (owner_id : ℕ) (workflow_key : Option Uuid)
    (outcome : Option Text) (db db' : Database)
    → (record_event now event_id event_name owner_id workflow_key outcome db ≡ ok (tt, db'))
      ↔ IsRecorded now event_id event_name owner_id workflow_key outcome db db'
unfolding record_event find_user
record_event_iff now event_id event_name owner_id workflow_key outcome db db' = (
  (λ h.
      let (user, found, known, only) =
        record_event_lem now event_id event_name owner_id workflow_key outcome db {db' = db'} h in
      record {
        user = user;
        found = found;
        known = member-Has event_name event_names known;
        unused =
            record_event-unused now event_id event_name owner_id workflow_key outcome db {db' = db'}
              h;
        added = only;
      }),
  (λ r.
      rw (Has-member event_name event_names r.known) (rw r.unused (rw r.found (rw r.added refl)))),
)
