-- ===== src/Tests/Worker.antt =====
-- Runs of the worker.
use expo_fastapi_todo.Prelude.{
  ◌≡◌, ◌↔◌, ◌≤◌, refl, true, Option, none, some, [], ◌∷◌, List, arith, codes, false,
}
use expo_fastapi_todo.Json.{Json, num, obj, field, end}
use expo_fastapi_todo.Http.{answered}
use expo_fastapi_todo.Suggestion.History.{IsOrdered}
use expo_fastapi_todo.Suggestion.History.Runs.{start}
use expo_fastapi_todo.Worker.Body.{Bytes, read_bounded_body, parse_task_body}
use expo_fastapi_todo.Worker.Body.Bounded.{joined, read_then_test, read_bounded_body_lem}
use expo_fastapi_todo.Worker.Body.Parsed.{IsTask, parse_task_body_iff}
use expo_fastapi_todo.Worker.Events.{Seams, World, proposed}
use expo_fastapi_todo.Worker.Delivery.Attempts.{IsFriendly}
use expo_fastapi_todo.Worker.Delivery.Calls.{calls}
use expo_fastapi_todo.Worker.Delivery.Once.{deliver_all, provider_called_once}
use expo_fastapi_todo.Tests.Sample.{sample, breakdown}
use expo_fastapi_todo.Tests.Suggestion.{reserved}

abbrev chunks : List Bytes
chunks = (1 ∷ 2 ∷ []) ∷ (3 ∷ []) ∷ []

read_bounded_body_lem_example : read_bounded_body chunks ≡ read_then_test (joined chunks)
read_bounded_body_lem_example = read_bounded_body_lem chunks

abbrev loads : Bytes → Option Json
loads raw = some (obj (field (codes "suggestion_id") (num 1) (field (codes "version") (num 1) end)))

parse_task_body_iff_example :
    (parse_task_body loads (1 ∷ []) ≡ answered 1) ↔ IsTask (loads (1 ∷ [])) 1
parse_task_body_iff_example = parse_task_body_iff loads (1 ∷ []) 1

abbrev pub quiet : Seams
quiet = record {
  platform = sample;
  now = λ i. 2000;
  draw = λ i. 300;
  others = λ i db. db;
  breaks = λ i. none;
  configured = true;
  provider = λ goal clarification. proposed breakdown;
  trace_id = λ text. 0;
  locked = λ workflow_id. false;
}

pub quiet-IsFriendly : IsFriendly sample quiet
quiet-IsFriendly = record { same_platform = refl; run = λ i db. start }

abbrev pub waiting : World
waiting = record { db = reserved; events = [] }

pub waiting-IsOrdered : IsOrdered waiting.db
waiting-IsOrdered = (omega arith, omega arith)

provider_called_once_example :
    calls 1 (deliver_all ((quiet, 1) ∷ (quiet, 1) ∷ []) waiting).events ≤ 1
provider_called_once_example =
    provider_called_once sample 1 ((quiet, 1) ∷ (quiet, 1) ∷ []) waiting
      (quiet-IsFriendly, (quiet-IsFriendly, tt)) waiting-IsOrdered refl
