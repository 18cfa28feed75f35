-- ===== src/Tasks/Config.antt =====
-- `read_cloud_config` of apps/api/app/suggestion_tasks.py accepts complete configurations only.
use expo_fastapi_todo.Prelude.{
  ◌≡◌, ◌++◌, sym, true, false, not, Option, none, some, Text, codes, text_eq, is_empty, Bool-cases,
  inl, inr, arith, ◌==◌, Bool, ℕ, zero, suc, ◌-◌, refl, ap, ◌∙◌, [], ◌∷◌, take, length, is_none,
  text_eq_sound,
}
use expo_fastapi_todo.Result.{
  Result, ok, err, value_error, raise_if, ◌>>=◌, >>=-eq-ok, raise_if-not-eq-ok, raise_if-eq-ok,
  ok-injective,
}
use expo_fastapi_todo.Title.{strip_by, strip_by_idem, rstrip}
use expo_fastapi_todo.Suggestion.Trace.{is_space, drop}
use expo_fastapi_todo.Tasks.{
  CloudTasksConfig, SplitResult, require_nonempty, or_blank, ends_with, run_app, has_other_parts,
  canonical_worker_url, read_cloud_config,
}

-- a value that is not empty and has no space around it
pub record IsPresent (value : Text) : Type 0 where
  pub present : is_empty value ≡ false
  pub stripped : strip_by is_space value ≡ value

-- What `urlsplit` makes of the configured URL: an https URL of a host under run.app, with nothing else.
-- The worker's URL is its scheme and host.
pub record IsWorkerOrigin (urlsplit : Text → Result SplitResult) (value : Option Text) (url : Text)
    : Type 0 where
  pub raw : Text
  pub configured : value ≡ some raw
  pub parsed : SplitResult
  pub split : urlsplit (rstrip (λ c. c == b'/') (strip_by is_space raw)) ≡ ok parsed
  pub is_https : parsed.scheme ≡ codes "https"
  pub host : Text
  pub is_host : parsed.hostname ≡ some host
  pub subdomain : Text
  pub is_run_app : host ≡ subdomain ++ codes ".run.app"
  pub no_path : parsed.path ≡ []
  pub no_query : parsed.query ≡ []
  pub no_fragment : parsed.fragment ≡ []
  pub no_username : or_blank parsed.username ≡ []
  pub no_password : or_blank parsed.password ≡ []
  pub no_port : parsed.port ≡ ok none
  pub is_url : url ≡ codes "https://" ++ host

pub record IsCloudConfig (urlsplit : Text → Result SplitResult) (env : Text → Option Text)
    (config : CloudTasksConfig) : Type 0 where
  pub project : IsPresent config.project
  pub location : IsPresent config.location
  pub queue : IsPresent config.queue
  pub worker_url : IsWorkerOrigin urlsplit (env (codes "SUGGESTION_WORKER_URL")) config.worker_url
  pub invoker_email : IsPresent config.invoker_email

require_nonempty-IsPresent :
    (value : Option Text) {text : Text} → require_nonempty value ≡ ok text → IsPresent text
unfolding require_nonempty
require_nonempty-IsPresent none h = cc
require_nonempty-IsPresent (some value) {text = text} h =
    elim (Bool-cases (is_empty (strip_by is_space value))) [
      | inl empty ↦ ground arith
      | inr full ↦
          let e : strip_by is_space value ≡ text = ground arith in
          record { present = rw (sym e) full; stripped = rw (sym e) (strip_by_idem is_space value) }
    ]

empty_lem : (text : Text) → is_empty text ≡ true → text ≡ []
empty_lem [] h = refl
empty_lem (c ∷ cs) h = cc

take-drop : (n : ℕ) (text : Text) → text ≡ take n text ++ drop n text
take-drop zero text = refl
take-drop (suc n) [] = refl
take-drop (suc n) (c ∷ cs) = ap (λ rest. c ∷ rest) (take-drop n cs)

ends_with_lem :
    (suffix text : Text) → ends_with suffix text ≡ true → (front : Text) × (text ≡ front ++ suffix)
unfolding ends_with
ends_with_lem suffix text h =
    let n = length text - length suffix in
    let same : drop n text ≡ suffix = text_eq_sound (drop n text) suffix (ground arith) in
    (take n text, take-drop n text ∙ ap (λ rest. take n text ++ rest) same)

-- A host that ends in something is there.
host_lem :
    (hostname : Option Text)
    → ends_with run_app (or_blank hostname) ≡ true
    → (host : Text) × (hostname ≡ some host) × (host ≡ or_blank hostname)
unfolding ends_with
host_lem none h = absurd (ground arith)
host_lem (some host) h = (host, refl, refl)

require_nonempty_lem :
    (value : Option Text) {text : Text}
    → require_nonempty value ≡ ok text
    → (raw : Text) × (value ≡ some raw) × (strip_by is_space raw ≡ text)
unfolding require_nonempty
require_nonempty_lem none h = cc
require_nonempty_lem (some raw) h = (raw, refl, ground arith)

no_port_lem :
    (port : Result (Option ℕ))
    → (port >>= λ value. ok (not (is_none value))) ≡ ok false
    → port ≡ ok none
no_port_lem (ok none) h = refl
no_port_lem (ok (some value)) h = cc
no_port_lem (err e) h = cc

-- the five parts are empty, and the port was asked for
has_other_parts_lem :
    (parsed : SplitResult)
    → has_other_parts parsed ≡ ok false
    → (is_empty parsed.path ≡ true)
      × (is_empty parsed.query ≡ true)
      × (is_empty parsed.fragment ≡ true)
      × (is_empty (or_blank parsed.username) ≡ true)
      × (is_empty (or_blank parsed.password) ≡ true)
      × ((parsed.port >>= λ value. ok (not (is_none value))) ≡ ok false)
unfolding has_other_parts
has_other_parts_lem parsed h =
    (ground arith, ground arith, ground arith, ground arith, ground arith, ground arith)

canonical_worker_url-IsWorkerOrigin :
    (urlsplit : Text → Result SplitResult) (value : Option Text) {url : Text}
    → canonical_worker_url urlsplit value ≡ ok url
    → IsWorkerOrigin urlsplit value url
unfolding canonical_worker_url
canonical_worker_url-IsWorkerOrigin urlsplit value h =
    let (nonempty, is_nonempty, h1) = >>=-eq-ok (require_nonempty value) _ h in
    let (parsed, is_parsed, h2) = >>=-eq-ok (urlsplit (rstrip (λ c. c == b'/') nonempty)) _ h1 in
    let (_, is_https, h3) =
      >>=-eq-ok (raise_if (not (text_eq parsed.scheme (codes "https"))) value_error) _ h2 in
    let (_, is_host, h4) =
      >>=-eq-ok (raise_if (not (ends_with run_app (or_blank parsed.hostname))) value_error) _ h3 in
    let (other, others, h5) = >>=-eq-ok (has_other_parts parsed) _ h4 in
    let (_, bare, h6) = >>=-eq-ok (raise_if other value_error) _ h5 in
    let under =
      raise_if-not-eq-ok (ends_with run_app (or_blank parsed.hostname)) value_error is_host in
    let (raw, configured, stripped) = require_nonempty_lem value is_nonempty in
    let (host, named, same) = host_lem parsed.hostname under in
    let (subdomain, is_run_app) = ends_with_lem run_app (or_blank parsed.hostname) under in
    let (path, query, fragment, username, password, port) =
      has_other_parts_lem parsed
        (others ∙ ap (λ (b : Bool). ok b) (raise_if-eq-ok other value_error bare)) in
    record {
      raw = raw;
      configured = configured;
      parsed = parsed;
      split = rw stripped is_parsed;
      is_https =
          text_eq_sound parsed.scheme (codes "https")
            (raise_if-not-eq-ok (text_eq parsed.scheme (codes "https")) value_error is_https);
      host = host;
      is_host = named;
      subdomain = subdomain;
      is_run_app = same ∙ is_run_app;
      no_path = empty_lem parsed.path path;
      no_query = empty_lem parsed.query query;
      no_fragment = empty_lem parsed.fragment fragment;
      no_username = empty_lem (or_blank parsed.username) username;
      no_password = empty_lem (or_blank parsed.password) password;
      no_port = no_port_lem parsed.port port;
      is_url = sym (ok-injective h6) ∙ ap (λ rest. codes "https://" ++ rest) (sym same);
    }

-- A configuration that is accepted has no empty value, and the worker's URL that was configured splits,
-- without the spaces around it and the slashes after it, into the scheme https and a host under run.app,
-- with no path, query, fragment, user or port. The accepted URL is that scheme and host.
pub read_cloud_config-IsCloudConfig :
    (urlsplit : Text → Result SplitResult) (env : Text → Option Text) {config : CloudTasksConfig}
    → read_cloud_config urlsplit env ≡ ok config
    → IsCloudConfig urlsplit env config
unfolding read_cloud_config
read_cloud_config-IsCloudConfig urlsplit env {config = config} h =
    let (project, h_project, h1) =
      >>=-eq-ok (require_nonempty (env (codes "GOOGLE_CLOUD_PROJECT"))) _ h in
    let (location, h_location, h2) =
      >>=-eq-ok (require_nonempty (env (codes "CLOUD_TASKS_LOCATION"))) _ h1 in
    let (queue, h_queue, h3) =
      >>=-eq-ok (require_nonempty (env (codes "CLOUD_TASKS_QUEUE"))) _ h2 in
    let (worker_url, h_url, h4) =
      >>=-eq-ok (canonical_worker_url urlsplit (env (codes "SUGGESTION_WORKER_URL"))) _ h3 in
    let (invoker, h_invoker, h5) =
      >>=-eq-ok (require_nonempty (env (codes "TASK_INVOKER_SERVICE_ACCOUNT"))) _ h4 in
    rw (sym (ok-injective h5)) (record {
      project = require_nonempty-IsPresent (env (codes "GOOGLE_CLOUD_PROJECT")) h_project;
      location = require_nonempty-IsPresent (env (codes "CLOUD_TASKS_LOCATION")) h_location;
      queue = require_nonempty-IsPresent (env (codes "CLOUD_TASKS_QUEUE")) h_queue;
      worker_url =
          canonical_worker_url-IsWorkerOrigin urlsplit (env (codes "SUGGESTION_WORKER_URL")) h_url;
      invoker_email =
          require_nonempty-IsPresent (env (codes "TASK_INVOKER_SERVICE_ACCOUNT")) h_invoker;
    })
