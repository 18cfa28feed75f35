-- ===== src/Tests/Tables.antt =====
-- Runs on the todos and the analytics events.
use expo_fastapi_todo.Todos.Backfill.{backfill}
use expo_fastapi_todo.Todos.Backfill.Ends.{IsDone, backfill_ends}
use expo_fastapi_todo.Analytics.Export.{Outbox, Failures, export_events}
use expo_fastapi_todo.Analytics.Export.Kept.{IdsUnique, IsSound, Keeps, export_events-Keeps}
use expo_fastapi_todo.Prelude.{
  ◌≡◌, refl, sym, ◌∙◌, inl, inr, true, false, none, some, List, [], ◌∷◌, codes, arith, ◌↔◌,
}
use expo_fastapi_todo.Result.{ok}
use expo_fastapi_todo.Database.Rows.{TodoRow, AnalyticsEventRow}
use expo_fastapi_todo.Database.Transaction.{Database}
use expo_fastapi_todo.Todos.{set_completed, list_todos}
use expo_fastapi_todo.Todos.Again.{set_completed_again}
use expo_fastapi_todo.Todos.Steps.{completes, TodosCoherent, step-TodosCoherent, step_isolated}
use expo_fastapi_todo.Analytics.Events.{record_event, event_row, insert_event}
use expo_fastapi_todo.Analytics.Events.Laws.{IsRecorded, record_event_iff}
use expo_fastapi_todo.Tests.Sample.{sample, trip, before}

abbrev open_todo : TodoRow
open_todo = record {
  id = 1;
  public_id = 70;
  title = codes "Book";
  completed = false;
  owner_id = 1;
  completed_at = none;
}

abbrev done_todo : TodoRow
done_todo = record open_todo { completed = true; completed_at = some 1000 }

abbrev foreign_todo : TodoRow
foreign_todo = record open_todo { id = 2; public_id = 71; owner_id = 2 }

abbrev with_rows : List TodoRow → Database
with_rows rows = record before { todos = record { rows = rows; next_id = 3 } }

abbrev two_todos : Database
two_todos = with_rows (open_todo ∷ foreign_todo ∷ [])

abbrev one_done : Database
one_done = with_rows (done_todo ∷ foreign_todo ∷ [])

completed_run : set_completed 1000 70 true 1 two_todos ≡ ok (some done_todo, one_done)
unfolding set_completed
completed_run = refl

set_completed_again_example : set_completed 2000 70 true 1 one_done ≡ ok (some done_todo, one_done)
set_completed_again_example = set_completed_again 1000 2000 70 true 1 two_todos completed_run

step-TodosCoherent_example : TodosCoherent one_done
step-TodosCoherent_example =
    step-TodosCoherent {db = two_todos} (completes 1000 70 true (some done_todo) completed_run)
      (refl, (refl, tt))

step_isolated_example : list_todos 2 one_done ≡ ok (foreign_todo ∷ [], one_done)
unfolding list_todos
step_isolated_example =
    step_isolated 2 (foreign_todo ∷ []) (completes 1000 70 true (some done_todo) completed_run)
      (omega arith) refl

abbrev signed_up : Database
signed_up = insert_event (event_row 1000 300 (codes "user_signed_up") none none 100) before

record_event_iff_example :
    (record_event 1000 300 (codes "user_signed_up") 1 none none before ≡ ok (tt, signed_up))
    ↔ IsRecorded 1000 300 (codes "user_signed_up") 1 none none before signed_up
record_event_iff_example =
    record_event_iff 1000 300 (codes "user_signed_up") 1 none none before signed_up

abbrev legacy_rows : List TodoRow
legacy_rows =
    record {
      id = 1;
      public_id = 5;
      title = trip;
      completed = true;
      owner_id = 1;
      completed_at = none;
    }
    ∷ record {
      id = 2;
      public_id = 6;
      title = trip;
      completed = false;
      owner_id = 1;
      completed_at = some 9;
    }
    ∷ []

backfill_ends_example :
    IsDone (λ id. false) legacy_rows 0 (backfill 3 (λ id. false) 1 (λ i. 100) 0 legacy_rows)
backfill_ends_example = backfill_ends 3 (λ id. false) 0 (λ i. 100) 0 legacy_rows (omega arith)

abbrev waiting_event : AnalyticsEventRow
waiting_event = record {
  id = 1;
  event_id = 40;
  event_name = codes "user_signed_up";
  user_key = 3;
  workflow_key = none;
  outcome = none;
  occurred_at = 10;
  schema_version = 1;
  exported_at = none;
}

abbrev outbox : Outbox
outbox = record { events = waiting_event ∷ []; warehouse = [] }

abbrev lost_answer : Failures
lost_answer = record {
  reads = true;
  job_runs = true;
  job_reported = false;
  marks = true;
  prunes = true;
}

outbox-IdsUnique : IdsUnique outbox.events
outbox-IdsUnique a b here there same = elim here [
  | inl x ↦ elim there [ inl y ↦ x ∙ sym y | inr y ↦ absurd y ]
  | inr x ↦ absurd x
]

outbox-IsSound : IsSound sample (λ at. []) outbox
outbox-IsSound row here = elim here [ inl e ↦ inl (rw e refl) | inr e ↦ absurd e ]

export_events-Keeps_example :
    Keeps sample (λ at. []) outbox (export_events sample (λ at. []) lost_answer 20 outbox).1
export_events-Keeps_example =
    export_events-Keeps sample (λ at. []) lost_answer 20 outbox outbox-IdsUnique outbox-IsSound
