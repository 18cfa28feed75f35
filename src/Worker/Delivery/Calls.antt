-- ===== src/Worker/Delivery/Calls.antt =====
-- How many calls of the provider a delivery makes (apps/api/app/worker.py), and what it leaves.
use expo_fastapi_todo.Prelude.{
  ℕ, ◌+◌, ◌≤◌, ◌≡◌, refl, Option, none, some, List, [], ◌∷◌, ◌++◌, ◌==◌, arith, Bool-cases, inl,
  inr, if◌then◌else◌, Text,
}
use expo_fastapi_todo.Result.{
  invalid_workflow_action, terminal_workflow, invalid_workflow_input,
  unsupported_workflow_definition, stale_workflow_step, request_id_reused, revision_exhausted,
  invalid_stored_snapshot, suggestion_in_progress, stale_suggestion, invalid_suggestion_state,
  invalid_stored_suggestion, value_error, type_error, assertion_error, integrity_error,
}
use expo_fastapi_todo.Platform.{Platform}
use expo_fastapi_todo.Suggestion.Types.{SuggestionErrorCode, SuggestionSnapshot}
use expo_fastapi_todo.Suggestion.Claim.{ClaimedSuggestion, ClaimResult}
use expo_fastapi_todo.Suggestion.History.Runs.{Reach, start, Reach-trans}
use expo_fastapi_todo.Worker.Events.{
  World, WorkerEvent, suggestion_delivery, suggestion_finished, unexpected_fault, provider_called,
  task_rejected, trace_context, maintenance_finished, suggestion_reserved, suggestion_enqueue,
  provider_asked, Seams, Called, returned, raised, broken, operational, unexpected, emit,
}
use expo_fastapi_todo.Worker.Delivery.{
  finish_once, on_finished, or_invalid_output, finalize, execute_provider, on_committed, on_claim,
  is_type_or_value_error, is_superseded,
}
use expo_fastapi_todo.Worker.Delivery.Attempts.{IsFriendly, After, finish_once-After}

-- one for a call of the provider on the suggestion
abbrev pub call_count : ℕ → WorkerEvent → ℕ
call_count id (provider_called claim) = if claim.suggestion_id == id then 1 else 0
call_count id (suggestion_delivery i outcome error_code wait) = 0
call_count id (suggestion_finished i outcome error_code wait) = 0
call_count id (unexpected_fault outcome) = 0
call_count id (task_rejected outcome) = 0
call_count id (trace_context i outcome) = 0
call_count id (maintenance_finished outcome n) = 0
call_count id (suggestion_reserved workflow_id request_id) = 0
call_count id (suggestion_enqueue outcome row_id) = 0
call_count id (provider_asked goal) = 0

abbrev pub calls : ℕ → List WorkerEvent → ℕ
calls id [] = 0
calls id (event ∷ events) = call_count id event + calls id events

calls-append :
    (id : ℕ) (events : List WorkerEvent) (event : WorkerEvent)
    → calls id (events ++ event ∷ []) ≡ calls id events + call_count id event
calls-append id [] event = omega arith
calls-append id (x ∷ xs) event = omega (arith, calls-append id xs event)

-- one if the claim of the suggestion was granted
abbrev pub grants : ℕ → Called ClaimResult → ℕ
grants id (returned (ClaimResult.claimed claim)) = call_count id (provider_called claim)
grants id _ = 0

-- At most n calls on the suggestion lead from one world to the other.
pub record Counted (p : Platform) (id n : ℕ) (w w' : World) : Type 0 where
  pub bound : calls id w'.events ≤ calls id w.events + n
  pub reached : Reach p w.db w'.db

module _ (p : Platform) (id : ℕ) where
  Counted-trans :
      (n : ℕ) (a b c : World) → Counted p id n a b → Counted p id 0 b c → Counted p id n a c
  Counted-trans n a b c f g = record {
    bound = omega (arith, f.bound, g.bound);
    reached = Reach-trans p a.db b.db c.db f.reached g.reached;
  }

  After-Counted : (w w' : World) → After p w w' → Counted p id 0 w w'
  After-Counted w w' after = record {
    bound = rw after.events (omega arith);
    reached = after.reached;
  }

  emit-Counted :
      (event : WorkerEvent) (w : World) → Counted p id (call_count id event) w (emit event w)
  emit-Counted event w = record {
    bound = rw (calls-append id w.events event) (omega arith);
    reached = start;
  }

  quiet-Counted : (w : World) → Counted p id 0 w w
  quiet-Counted w = record { bound = omega arith; reached = start }

  -- two events that are no call
  two-Counted :
      (e f : WorkerEvent) (w : World)
      → call_count id e ≡ 0
      → call_count id f ≡ 0
      → Counted p id 0 w (emit f (emit e w))
  two-Counted e f w he hf = record {
    bound = ground (arith, calls-append id w.events e, calls-append id (w.events ++ e ∷ []) f);
    reached = start;
  }

  on_finished-Counted :
      (k : ℕ) (claim : ClaimedSuggestion) (error_code : Option SuggestionErrorCode)
      (x : Called (Option SuggestionSnapshot)) (w : World)
      → Counted p id 0 w (on_finished k claim error_code (x, w)).1
  unfolding on_finished
  on_finished-Counted k claim error_code (returned none) w = emit-Counted _ w
  on_finished-Counted k claim error_code (returned (some saved)) w = two-Counted _ _ w refl refl
  on_finished-Counted k claim error_code (raised e) w = two-Counted _ _ w refl refl
  on_finished-Counted k claim error_code (broken operational) w = emit-Counted _ w
  on_finished-Counted k claim error_code (broken unexpected) w = two-Counted _ _ w refl refl

  module _ (s : Seams) (friendly : IsFriendly p s) (k : ℕ) (claim : ClaimedSuggestion) where
    -- storing a result, and what is logged of it
    stored-Counted :
        (i : ℕ) (titles : Option (List Text)) (given error_code : Option SuggestionErrorCode)
        (w : World)
        → Counted p id 0 w (on_finished k claim error_code (finish_once s i claim titles given w)).1
    stored-Counted i titles given error_code w =
        Counted-trans 0 w (finish_once s i claim titles given w).1 _
          (After-Counted w _ (finish_once-After p s i claim titles given w friendly))
          (on_finished-Counted k claim error_code (finish_once s i claim titles given w).0
            (finish_once s i claim titles given w).1)

    or_invalid_output-Counted :
        (x : Called (Option SuggestionSnapshot)) (w : World)
        → Counted p id 0 w (or_invalid_output s k claim (x, w)).1
    unfolding or_invalid_output
    or_invalid_output-Counted (returned saved) w =
        on_finished-Counted k claim none (returned saved) w
    or_invalid_output-Counted (broken fault) w = on_finished-Counted k claim none (broken fault) w
    or_invalid_output-Counted (raised e) w = elim (Bool-cases (is_type_or_value_error e)) [
      | inl value ↦
          rw (value, or_invalid_output)
            (stored-Counted 4 none (some SuggestionErrorCode.invalid_output)
              (some SuggestionErrorCode.invalid_output) w)
      | inr other ↦ rw (other, or_invalid_output) (on_finished-Counted k claim none (raised e) w)
    ]

    finalize-Counted :
        (titles : Option (List Text)) (error_code : Option SuggestionErrorCode) (w : World)
        → Counted p id 0 w (finalize s k claim ((titles, error_code), w)).1
    unfolding finalize
    finalize-Counted titles (some code) w = stored-Counted 2 none (some code) (some code) w
    finalize-Counted (some titles) none w =
        Counted-trans 0 w (finish_once s 2 claim (some titles) none w).1 _
          (After-Counted w _ (finish_once-After p s 2 claim (some titles) none w friendly))
          (or_invalid_output-Counted (finish_once s 2 claim (some titles) none w).0
            (finish_once s 2 claim (some titles) none w).1)
    finalize-Counted none none w = on_finished-Counted k claim none (raised assertion_error) w

    execute_provider-Counted :
        (w : World)
        → Counted p id (call_count id (provider_called claim)) w (execute_provider s claim w).1
    unfolding execute_provider
    execute_provider-Counted w = elim (Bool-cases s.configured) [
      | inl set ↦ rw set (emit-Counted (provider_called claim) w)
      | inr unset ↦ rw unset (record { bound = omega arith; reached = start })
    ]

    provided-Counted :
        (w : World)
        → Counted p id
            (call_count id (provider_called claim))
            w
            (finalize s k claim (execute_provider s claim w)).1
    provided-Counted w =
        Counted-trans (call_count id (provider_called claim)) w (execute_provider s claim w).1 _
          (execute_provider-Counted w)
          (finalize-Counted (execute_provider s claim w).0.0 (execute_provider s claim w).0.1
            (execute_provider s claim w).1)

  on_committed-Counted :
      (k : ℕ) (committed : SuggestionSnapshot) (w : World)
      → Counted p id 0 w (on_committed k committed w).1
  unfolding on_committed
  on_committed-Counted k committed w = elim (Bool-cases (is_superseded committed.status)) [
    | inl is ↦ rw (is, on_committed) (two-Counted _ _ w refl refl)
    | inr not ↦ rw (not, on_committed) (two-Counted _ _ w refl refl)
  ]

  -- A delivery calls the provider at most once, and only if its claim was granted.
  pub on_claim-Counted :
      (s : Seams) (k : ℕ) (x : Called ClaimResult) (w : World)
      → IsFriendly p s
      → Counted p id (grants id x) w (on_claim s k (x, w)).1
  unfolding on_claim
  on_claim-Counted s k (returned ClaimResult.no_work) w friendly = emit-Counted _ w
  on_claim-Counted s k (returned (ClaimResult.timeout committed)) w friendly =
      on_committed-Counted k committed w
  on_claim-Counted s k (returned (ClaimResult.superseded committed)) w friendly =
      on_committed-Counted k committed w
  on_claim-Counted s k (returned (ClaimResult.claimed claim)) w friendly =
      provided-Counted s friendly k claim w
  on_claim-Counted s k (broken operational) w friendly = emit-Counted _ w
  on_claim-Counted s k (broken unexpected) w friendly = two-Counted _ _ w refl refl
  on_claim-Counted s k (raised suggestion_in_progress) w friendly = emit-Counted _ w
  on_claim-Counted s k (raised invalid_stored_suggestion) w friendly = emit-Counted _ w
  on_claim-Counted s k (raised invalid_workflow_action) w friendly = two-Counted _ _ w refl refl
  on_claim-Counted s k (raised terminal_workflow) w friendly = two-Counted _ _ w refl refl
  on_claim-Counted s k (raised invalid_workflow_input) w friendly = two-Counted _ _ w refl refl
  on_claim-Counted s k (raised unsupported_workflow_definition) w friendly =
      two-Counted _ _ w refl refl
  on_claim-Counted s k (raised stale_workflow_step) w friendly = two-Counted _ _ w refl refl
  on_claim-Counted s k (raised request_id_reused) w friendly = two-Counted _ _ w refl refl
  on_claim-Counted s k (raised revision_exhausted) w friendly = two-Counted _ _ w refl refl
  on_claim-Counted s k (raised invalid_stored_snapshot) w friendly = two-Counted _ _ w refl refl
  on_claim-Counted s k (raised stale_suggestion) w friendly = two-Counted _ _ w refl refl
  on_claim-Counted s k (raised invalid_suggestion_state) w friendly = two-Counted _ _ w refl refl
  on_claim-Counted s k (raised value_error) w friendly = two-Counted _ _ w refl refl
  on_claim-Counted s k (raised type_error) w friendly = two-Counted _ _ w refl refl
  on_claim-Counted s k (raised assertion_error) w friendly = two-Counted _ _ w refl refl
  on_claim-Counted s k (raised integrity_error) w friendly = two-Counted _ _ w refl refl
