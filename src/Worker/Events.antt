-- ===== src/Worker/Events.antt =====
-- What a delivery of apps/api/app/worker.py acts on: the database, which other requests and workers
-- change between its transactions, and the events that it emits.
use expo_fastapi_todo.Prelude.{ℕ, Bool, Option, List, [], ◌∷◌, ◌++◌, Text}
use expo_fastapi_todo.Platform.{Platform}
use expo_fastapi_todo.Database.Transaction.{Database, Transaction, transact}
pub use expo_fastapi_todo.Database.Call.{
  Fault, operational, unexpected, Interrupt, Called, returned, raised, broken, interrupted,
}
use expo_fastapi_todo.Workflow.Domain.{Uuid}
use expo_fastapi_todo.Suggestion.Types.{SuggestionErrorCode, Clarification}
use expo_fastapi_todo.Suggestion.Claim.{ClaimedSuggestion}

-- what the provider's client returns or raises
pub data ProviderReply : Type 0 where
  proposed : List Text → ProviderReply
  -- `SuggestionTimeout`, `ProviderUnavailable`, `InvalidSuggestionOutput`, `SuggestionsNotConfigured`
  timed_out unavailable malformed unconfigured : ProviderReply
  -- any other exception
  crashed : ProviderReply

-- the events that are logged, and the calls of the provider
pub data WorkerEvent : Type 0 where
  suggestion_delivery suggestion_finished :
      ℕ → Text → Option SuggestionErrorCode → Option ℕ → WorkerEvent
  unexpected_fault : Text → WorkerEvent
  provider_called : ClaimedSuggestion → WorkerEvent
  task_rejected : Text → WorkerEvent
  trace_context : ℕ → Text → WorkerEvent
  maintenance_finished : Text → ℕ → WorkerEvent
  -- of the suggestion handler of main.py
  suggestion_reserved : Uuid → Uuid → WorkerEvent
  suggestion_enqueue : Text → ℕ → WorkerEvent
  provider_asked : Text → WorkerEvent

pub record World : Type 0 where
  pub db : Database
  pub events : List WorkerEvent

abbrev pub emit : WorkerEvent → World → World
emit event w = record w { events = w.events ++ event ∷ [] }

-- The surroundings of one delivery, whose transactions are numbered.
pub record Seams : Type 0 where
  pub platform : Platform
  -- `func.now()` and `uuid4()` in a transaction
  pub now : ℕ → ℕ
  pub draw : ℕ → Uuid
  -- what others commit before the transaction
  pub others : ℕ → Database → Database
  pub breaks : ℕ → Option Interrupt
  -- whether `get_openrouter_config` finds a configuration
  pub configured : Bool
  pub provider : Text → Option Clarification → ProviderReply
  -- the trace id of the context that a text propagates
  pub trace_id : Text → ℕ
  -- the workflows that the sweep finds locked
  pub locked : Uuid → Bool

module _ {ℓ} {A : Type ℓ} where
  abbrev pub with_database : World → Called A × Database → Called A × World
  with_database w (answer, db) = (answer, record w { db = db })

  -- the i-th transaction of the delivery, on what the others have left
  unfoldable pub attempt : Seams → ℕ → Transaction A → World → Called A × World
  attempt s i m w =
      let db = s.others i w.db in with_database w (interrupted (s.breaks i) db (transact m db))

abbrev pub and_then {ℓ κ} :
    {A : Type ℓ} {B : Type κ} → Called A × World → (A → World → Called B × World) → Called B × World
and_then (returned a, w) f = f a w
and_then (raised e, w) f = (raised e, w)
and_then (broken fault, w) f = (broken fault, w)
