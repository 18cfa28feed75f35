-- ===== src/Tasks/Sent.antt =====
-- The task of apps/api/app/suggestion_tasks.py, read by the worker of apps/api/app/worker.py.
use expo_fastapi_todo.Prelude.{
  ℕ, ◌≡◌, ◌∙◌, ap, sym, ◌<◌, refl, Bool, not, if◌then◌else◌, true, false, Option, none, some, List,
  length, leb, arith, Text, codes, text_eq,
}
use expo_fastapi_todo.Json.{Json, num, field, end, same_keys}
use expo_fastapi_todo.Http.{answered}
use expo_fastapi_todo.Platform.{Platform}
use expo_fastapi_todo.Worker.Body.{Bytes, read_bounded_body, parse_task_body}
use expo_fastapi_todo.Worker.Body.Bounded.{joined, read_then_test, read_bounded_body_lem}
use expo_fastapi_todo.Worker.Body.Parsed.{IsTask, parse_task_body_iff}
use expo_fastapi_todo.Tasks.{
  task_version, max_task_body_bytes, CloudTasksConfig, Task, task_payload, has_task_identity,
  task_of, task_for,
}

task_payload-IsTask : (n : ℕ) → 0 < n → IsTask (some (task_payload n)) n
unfolding same_keys text_eq
task_payload-IsTask n n_positive = record {
  fields = field (codes "version") (num task_version) (field (codes "suggestion_id") (num n) end);
  is_payload = refl;
  only = refl;
  version = refl;
  id = refl;
  id_positive = n_positive;
}

identity_positive : (n : ℕ) (fingerprint : Text) → has_task_identity n fingerprint ≡ true → 0 < n
unfolding has_task_identity
identity_positive n fingerprint h = ground arith

read_then_test_fits :
    (raw : Bytes) → leb (length raw) max_task_body_bytes ≡ true → read_then_test raw ≡ answered raw
read_then_test_fits raw fits = rw fits refl

pub built :
    (b c : Bool) (t : Task) {task : Task}
    → (if not b then none else if c then some t else none) ≡ some task
    → (b ≡ true) × (c ≡ true) × (t ≡ task)
built true true t h = (refl, refl, cc)
built true false t h = cc
built false c t h = cc

module _ (p : Platform) (dumps : Json → Bytes) (config : CloudTasksConfig) where
  task_for_lem :
      (n : ℕ) (fingerprint : Text) (trace_parent : Option Text) {task : Task}
      → task_for p dumps config n fingerprint trace_parent ≡ some task
      → (has_task_identity n fingerprint ≡ true)
        × (leb (length (dumps (task_payload n))) max_task_body_bytes ≡ true)
        × (dumps (task_payload n) ≡ task.body)
  unfolding task_for task_of
  task_for_lem n fingerprint trace_parent h =
      let body = dumps (task_payload n) in
      let (identity, fits, is_task) =
        built (has_task_identity n fingerprint) (leb (length body) max_task_body_bytes)
          (task_of p config n fingerprint trace_parent body) h in
      (identity, fits, ap (λ t. t.body) is_task)

  -- The worker accepts the body of every task that is sent, however the stream that brings it is cut, and
  -- reads the id of the row that it was sent for, where `json.loads` reads back what `json.dumps` has
  -- written of that task.
  pub sent_task_is_read :
      (loads : Bytes → Option Json) (n : ℕ) (fingerprint : Text) (trace_parent : Option Text)
      (task : Task) (chunks : List Bytes)
      → loads (dumps (task_payload n)) ≡ some (task_payload n)
      → task_for p dumps config n fingerprint trace_parent ≡ some task
      → joined chunks ≡ task.body
      → (read_bounded_body chunks ≡ answered task.body)
        × (parse_task_body loads task.body ≡ answered n)
  sent_task_is_read loads n fingerprint trace_parent task chunks reads sent cut =
      let (identity, fits, body) = task_for_lem n fingerprint trace_parent sent in
      let payload : loads task.body ≡ some (task_payload n) = rw (sym body) reads in
      (
        read_bounded_body_lem chunks ∙ rw cut (read_then_test_fits task.body (rw (sym body) fits)),
        (parse_task_body_iff loads task.body n).1
            (rw payload (task_payload-IsTask n (identity_positive n fingerprint identity))),
      )
