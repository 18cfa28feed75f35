-- ===== src/Analytics/Events.antt =====
-- apps/api/app/analytics_events.py: an event joins the caller's transaction. `event_id` is the
-- `uuid4()` that the call draws.
pub mod Laws
use expo_fastapi_todo.Prelude.{
  ℕ, ◌+◌, Bool, not, ◌&&◌, Option, none, some, List, [], ◌∷◌, ◌++◌, any, find, ◌==◌, Text, codes,
  if◌then◌else◌,
}
use expo_fastapi_todo.Result.{value_error, integrity_error}
use expo_fastapi_todo.Json.{member}
use expo_fastapi_todo.Database.Rows.{Table, UserRow, AnalyticsEventRow}
use expo_fastapi_todo.Database.Transaction.{
  Database, Transaction, pure, raise, gets, modify, require, continue, ◌>>=◌, ◌>>◌,
}
use expo_fastapi_todo.Workflow.Domain.{Uuid}

abbrev pub event_names : List Text
event_names =
    codes "user_signed_up"
    ∷ codes "workflow_started"
    ∷ codes "workflow_completed"
    ∷ codes "suggestion_finished"
    ∷ []

abbrev pub event_row : ℕ → Uuid → Text → Option Uuid → Option Text → Uuid → ℕ → AnalyticsEventRow
event_row now event_id event_name workflow_key outcome user_key id = record {
  id = id;
  event_id = event_id;
  event_name = event_name;
  user_key = user_key;
  workflow_key = workflow_key;
  outcome = outcome;
  occurred_at = now;
  schema_version = 1;
  exported_at = none;
}

abbrev pub insert_event : (ℕ → AnalyticsEventRow) → Database → Database
insert_event row db = record db {
  events = record {
    rows = db.events.rows ++ row db.events.next_id ∷ [];
    next_id = db.events.next_id + 1;
  };
}

abbrev pub find_user : ℕ → Database → Option UserRow
find_user owner_id db = find (λ u. u.id == owner_id) db.users.rows

-- the event row of a user that is found; a missing user's key would be NULL, which is refused
abbrev pub add_event : (Uuid → ℕ → AnalyticsEventRow) → Option UserRow → Transaction (Unit {0})
add_event row none = raise integrity_error
add_event row (some user) = modify (insert_event (row user.public_id))

unfoldable pub record_event :
    ℕ → Uuid → Text → ℕ → Option Uuid → Option Text → Transaction (Unit {0})
record_event now event_id event_name owner_id workflow_key outcome =
    if member event_name event_names
    then (do
      require (λ db. not (any (λ e. e.event_id == event_id) db.events.rows))
      user ← gets (find_user owner_id)
      add_event (event_row now event_id event_name workflow_key outcome) user)
    else raise value_error
