-- ===== src/Tasks.antt =====
-- apps/api/app/suggestion_tasks.py: the task that a reservation is put in the queue as. The client of the
-- queue (`create_task`), `urlsplit` and `json.dumps(...).encode()` are parameters. A configured value that is
-- missing is `none`; a row's id is natural.
pub mod Sent
pub mod Config
pub mod Traced
use expo_fastapi_todo.Prelude.{
  ℕ, ◌-◌, Bool, true, false, not, ◌&&◌, ◌||◌, Option, none, some, List, [], ◌∷◌, ◌++◌, length, leb,
  ◌==◌, Text, codes, text_eq, is_empty, is_none, all, if◌then◌else◌,
}
use expo_fastapi_todo.Result.{Result, ok, err, value_error, raise_if, ◌>>=◌, ◌>>◌}
use expo_fastapi_todo.Json.{Json, num, obj, field, end}
use expo_fastapi_todo.Title.{strip_by, rstrip}
use expo_fastapi_todo.Platform.{Platform, is_hex}
use expo_fastapi_todo.Suggestion.Trace.{is_space, extract_stored_context, drop}
use expo_fastapi_todo.Worker.Body.{Bytes}

abbrev pub task_version : ℕ
task_version = 1

abbrev pub max_task_body_bytes : ℕ
max_task_body_bytes = 1024

pub record CloudTasksConfig : Type 0 where
  pub project : Text
  pub location : Text
  pub queue : Text
  pub worker_url : Text
  pub invoker_email : Text

-- what `urlsplit` returns; `port` raises on a text that is no port
pub record SplitResult : Type 0 where
  pub scheme : Text
  pub hostname : Option Text
  pub path : Text
  pub query : Text
  pub fragment : Text
  pub username : Option Text
  pub password : Option Text
  pub port : Result (Option ℕ)

unfoldable pub require_nonempty : Option Text → Result Text
require_nonempty none = err value_error
require_nonempty (some value) =
    let text = strip_by is_space value in if is_empty text then err value_error else ok text

-- `value or ""`
abbrev pub or_blank : Option Text → Text
or_blank none = []
or_blank (some value) = value

-- `text.endswith(suffix)`
unfoldable pub ends_with : Text → Text → Bool
ends_with suffix text =
    leb (length suffix) (length text) && text_eq (drop (length text - length suffix) text) suffix

abbrev pub run_app : Text
run_app = codes ".run.app"

-- a part of the URL other than the scheme and the host
unfoldable pub has_other_parts : SplitResult → Result Bool
has_other_parts parsed =
    if not (is_empty parsed.path)
      || not (is_empty parsed.query)
      || not (is_empty parsed.fragment)
      || not (is_empty (or_blank parsed.username))
      || not (is_empty (or_blank parsed.password))
    then ok true
    else parsed.port >>= λ port. ok (not (is_none port))

unfoldable pub canonical_worker_url : (Text → Result SplitResult) → Option Text → Result Text
canonical_worker_url urlsplit value = do
  nonempty ← require_nonempty value
  parsed ← urlsplit (rstrip (λ c. c == b'/') nonempty)
  raise_if (not (text_eq parsed.scheme (codes "https"))) value_error
  raise_if (not (ends_with run_app (or_blank parsed.hostname))) value_error
  other ← has_other_parts parsed
  raise_if other value_error
  ok (codes "https://" ++ or_blank parsed.hostname)

unfoldable pub read_cloud_config :
    (Text → Result SplitResult) → (Text → Option Text) → Result CloudTasksConfig
read_cloud_config urlsplit env = do
  project ← require_nonempty (env (codes "GOOGLE_CLOUD_PROJECT"))
  location ← require_nonempty (env (codes "CLOUD_TASKS_LOCATION"))
  queue ← require_nonempty (env (codes "CLOUD_TASKS_QUEUE"))
  worker_url ← canonical_worker_url urlsplit (env (codes "SUGGESTION_WORKER_URL"))
  invoker_email ← require_nonempty (env (codes "TASK_INVOKER_SERVICE_ACCOUNT"))
  ok (record {
    project = project;
    location = location;
    queue = queue;
    worker_url = worker_url;
    invoker_email = invoker_email;
  })

abbrev pub enqueue_accepted : Text
enqueue_accepted = codes "accepted"

abbrev pub enqueue_deduplicated : Text
enqueue_deduplicated = codes "deduplicated"

-- what is sent to the queue
pub record Task : Type 0 where
  pub parent : Text
  pub name : Text
  pub url : Text
  pub headers : List (Text × Text)
  pub body : Bytes
  pub service_account_email : Text
  pub audience : Text
  pub dispatch_deadline : ℕ

-- the client's answer: the task is new, its name exists, or any other exception
pub data Creation : Type 0 where
  created already_exists create_failed : Creation

abbrev pub task_payload : ℕ → Json
task_payload suggestion_id = obj (
    field (codes "version") (num task_version)
      (field (codes "suggestion_id") (num suggestion_id) end))

-- `_require_task_identity` does not raise
unfoldable pub has_task_identity : ℕ → Text → Bool
has_task_identity suggestion_id fingerprint =
    not (leb suggestion_id 0) && length fingerprint == 64 && all is_hex fingerprint

abbrev pub task_dispatch_deadline_seconds : ℕ
task_dispatch_deadline_seconds = 60

abbrev pub queue_parent : CloudTasksConfig → Text
queue_parent config =
    codes "projects/"
    ++ config.project
    ++ codes "/locations/"
    ++ config.location
    ++ codes "/queues/"
    ++ config.queue

unfoldable pub trace_headers : Option Text → List (Text × Text)
trace_headers none = []
trace_headers (some stored) =
    (codes "traceparent", stored) ∷ (codes "X-Suggestion-Traceparent", stored) ∷ []

module _ (p : Platform) where
  unfoldable pub task_name_for : ℕ → Text → Text
  task_name_for suggestion_id fingerprint =
      codes "suggest-v1-" ++ p.sha256_hex (p.str (num suggestion_id) ++ codes ":" ++ fingerprint)

  unfoldable pub validated_trace_header : Option Text → Option Text
  validated_trace_header none = none
  validated_trace_header (some value) =
      let text = strip_by is_space value in
      if not (leb (length text) 55)
      then none
      else if extract_stored_context p text
      then some text
      else none

  unfoldable pub task_of : CloudTasksConfig → ℕ → Text → Option Text → Bytes → Task
  task_of config suggestion_id fingerprint trace_parent body = record {
    parent = queue_parent config;
    name = queue_parent config ++ codes "/tasks/" ++ task_name_for suggestion_id fingerprint;
    url = config.worker_url ++ codes "/internal/suggestions";
    headers =
        (codes "Content-Type", codes "application/json")
        ∷ trace_headers (validated_trace_header trace_parent);
    body = body;
    service_account_email = config.invoker_email;
    audience = config.worker_url;
    dispatch_deadline = task_dispatch_deadline_seconds;
  }

  -- the task that is created, `none` when the call raises before it
  unfoldable pub task_for : (Json → Bytes) → CloudTasksConfig → ℕ → Text → Option Text → Option Task
  task_for dumps config suggestion_id fingerprint trace_parent =
      let body = dumps (task_payload suggestion_id) in
      if not (has_task_identity suggestion_id fingerprint)
      then none
      else if leb (length body) max_task_body_bytes
      then some (task_of config suggestion_id fingerprint trace_parent body)
      else none

  abbrev pub enqueue_result : Creation → Option Text
  enqueue_result created = some enqueue_accepted
  enqueue_result already_exists = some enqueue_deduplicated
  enqueue_result create_failed = none

  -- `none` is `EnqueueUnavailable`
  unfoldable pub enqueue_suggestion_with_config :
      (Json → Bytes) → CloudTasksConfig → (Task → Creation) → ℕ → Text → Option Text → Option Text
  enqueue_suggestion_with_config dumps config create_task suggestion_id fingerprint trace_parent =
      elim (task_for dumps config suggestion_id fingerprint trace_parent) [
        | none ↦ none
        | some task ↦ enqueue_result (create_task task)
      ]

-- The configuration is read again at each call.
unfoldable pub enqueue_suggestion :
    Platform
    → (Json → Bytes)
    → (Text → Result SplitResult)
    → (Text → Option Text)
    → (Task → Creation)
    → ℕ
    → Text
    → Option Text
    → Option Text
enqueue_suggestion p dumps urlsplit env create_task suggestion_id fingerprint trace_parent =
    if not (has_task_identity suggestion_id fingerprint)
    then none
    else elim (read_cloud_config urlsplit env) [
      | err e ↦ none
      | ok config ↦
          enqueue_suggestion_with_config p dumps config create_task suggestion_id fingerprint
            trace_parent
    ]
