-- ===== src/Api/Suggestions/Asked.antt =====
-- When the suggestion handler of apps/api/app/main.py asks the provider.
use expo_fastapi_todo.Prelude.{
  ℕ, ◌+◌, ◌≤◌, ◌≡◌, refl, ap, ◌∙◌, Bool, true, false, Option, none, some, List, [], ◌∷◌, ◌++◌, Text,
  codes, if◌then◌else◌, Bool-cases, Option-cases, inl, inr, arith,
}
use expo_fastapi_todo.Result.{
  invalid_workflow_action, terminal_workflow, invalid_workflow_input,
  unsupported_workflow_definition, stale_workflow_step, request_id_reused, revision_exhausted,
  invalid_stored_snapshot, suggestion_in_progress, stale_suggestion, invalid_suggestion_state,
  invalid_stored_suggestion, value_error, type_error, assertion_error, integrity_error,
}
use expo_fastapi_todo.Http.{Answer}
use expo_fastapi_todo.Database.Rows.{SuggestionRow}
use expo_fastapi_todo.Database.Transaction.{gets}
use expo_fastapi_todo.Suggestion.Types.{
  SuggestionErrorCode, invalid_output, SuggestionSnapshot, SuggestionStatus, pending, ready, failed,
  superseded,
}
use expo_fastapi_todo.Suggestion.Store.{find_suggestion}
use expo_fastapi_todo.Suggestion.Reserve.{Reserved, reservation, saved, reserve_suggestion}
use expo_fastapi_todo.Suggestion.Finish.{get_current_suggestion, finish_suggestion}
use expo_fastapi_todo.Worker.Events.{
  World, WorkerEvent, suggestion_delivery, suggestion_finished, unexpected_fault, provider_called,
  task_rejected, trace_context, maintenance_finished, suggestion_reserved, suggestion_enqueue,
  provider_asked, emit, Seams, Called, returned, raised, broken, operational, unexpected, attempt,
}
use expo_fastapi_todo.Worker.Delivery.Attempts.{attempt_emits_nothing}
use expo_fastapi_todo.Api.Workflows.{read_of}
use expo_fastapi_todo.Api.Suggestions.{
  SuggestCall, SuggestionReply, finish_request, saved_reply, on_current, reconcile,
  waits_for_delivery, enqueue_outcome, enqueue_row, on_lookup, deliver_by_queue, store_result,
  on_stored, or_store_invalid, store_reply, ask_provider, execute, on_reserved, on_reserve,
  suggest_request, suggest_todo_workflow,
}

-- one for a call of the provider by the handler
abbrev pub asked_count : WorkerEvent → ℕ
asked_count (provider_asked goal) = 1
asked_count (suggestion_delivery i outcome error_code wait) = 0
asked_count (suggestion_finished i outcome error_code wait) = 0
asked_count (unexpected_fault outcome) = 0
asked_count (provider_called claim) = 0
asked_count (task_rejected outcome) = 0
asked_count (trace_context i outcome) = 0
asked_count (maintenance_finished outcome n) = 0
asked_count (suggestion_reserved workflow_id request_id) = 0
asked_count (suggestion_enqueue outcome row_id) = 0

abbrev pub asked : List WorkerEvent → ℕ
asked [] = 0
asked (event ∷ events) = asked_count event + asked events

asked-append :
    (events : List WorkerEvent) (event : WorkerEvent)
    → asked (events ++ event ∷ []) ≡ asked events + asked_count event
asked-append [] event = omega arith
asked-append (x ∷ xs) event = omega (arith, asked-append xs event)

-- one for a new reservation
abbrev pub new_reservations : Called (Option Reserved) → ℕ
new_reservations (returned (some (reservation r))) = 1
new_reservations _ = 0

on_current_lem : (x : Called (Option SuggestionSnapshot)) (w : World) → (on_current (x, w)).1 ≡ w
unfolding on_current
on_current_lem (returned current) w = refl
on_current_lem (raised e) w = refl
on_current_lem (broken operational) w = refl
on_current_lem (broken unexpected) w = refl

module _ (s : Seams) (call : SuggestCall) where
  on_stored_lem :
      (code : Option SuggestionErrorCode) (x : Called (Option SuggestionSnapshot)) (w : World)
      → (on_stored s call code (x, w)).1 ≡ w
  unfolding on_stored
  on_stored_lem code (returned none) w = refl
  on_stored_lem none (returned (some finished)) w = refl
  on_stored_lem (some code) (returned (some finished)) w = refl
  on_stored_lem code (raised e) w = refl
  on_stored_lem code (broken operational) w = refl
  on_stored_lem code (broken unexpected) w = refl

  reconcile_emits_nothing : (w : World) → (reconcile s call w).1.events ≡ w.events
  unfolding reconcile
  reconcile_emits_nothing w =
      let x =
        attempt s 2 (read_of (get_current_suggestion s.platform call.user_id call.workflow_id)) w in
      ap (λ (v : World). v.events) (on_current_lem x.0 x.1)
      ∙ attempt_emits_nothing s 2
          (read_of (get_current_suggestion s.platform call.user_id call.workflow_id)) w

  -- storing a result, and what is answered of it
  stored_emits_nothing :
      (code : Option SuggestionErrorCode) (i : ℕ) (titles : Option (List Text))
      (given : Option SuggestionErrorCode) (w : World)
      → (on_stored s call code (store_result s call i titles given w)).1.events ≡ w.events
  unfolding store_result
  stored_emits_nothing code i titles given w =
      let m =
        finish_suggestion s.platform (s.now i) (s.draw i) (finish_request s call titles given) in
      ap (λ (v : World). v.events) (on_stored_lem code (attempt s i m w).0 (attempt s i m w).1)
      ∙ attempt_emits_nothing s i m w

  or_store_invalid_emits_nothing :
      (x : Called (Option SuggestionSnapshot)) (w : World)
      → (or_store_invalid s call (x, w)).1.events ≡ w.events
  unfolding or_store_invalid
  or_store_invalid_emits_nothing (returned stored) w =
      ap (λ (v : World). v.events) (on_stored_lem none (returned stored) w)
  or_store_invalid_emits_nothing (broken fault) w =
      ap (λ (v : World). v.events) (on_stored_lem none (broken fault) w)
  or_store_invalid_emits_nothing (raised stale_suggestion) w = refl
  or_store_invalid_emits_nothing (raised assertion_error) w =
      ap (λ (v : World). v.events) (on_stored_lem none (raised assertion_error) w)
  or_store_invalid_emits_nothing (raised integrity_error) w =
      ap (λ (v : World). v.events) (on_stored_lem none (raised integrity_error) w)
  or_store_invalid_emits_nothing (raised invalid_workflow_action) w =
      stored_emits_nothing (some invalid_output) 4 none (some invalid_output) w
  or_store_invalid_emits_nothing (raised terminal_workflow) w =
      stored_emits_nothing (some invalid_output) 4 none (some invalid_output) w
  or_store_invalid_emits_nothing (raised invalid_workflow_input) w =
      stored_emits_nothing (some invalid_output) 4 none (some invalid_output) w
  or_store_invalid_emits_nothing (raised unsupported_workflow_definition) w =
      stored_emits_nothing (some invalid_output) 4 none (some invalid_output) w
  or_store_invalid_emits_nothing (raised stale_workflow_step) w =
      stored_emits_nothing (some invalid_output) 4 none (some invalid_output) w
  or_store_invalid_emits_nothing (raised request_id_reused) w =
      stored_emits_nothing (some invalid_output) 4 none (some invalid_output) w
  or_store_invalid_emits_nothing (raised revision_exhausted) w =
      stored_emits_nothing (some invalid_output) 4 none (some invalid_output) w
  or_store_invalid_emits_nothing (raised invalid_stored_snapshot) w =
      stored_emits_nothing (some invalid_output) 4 none (some invalid_output) w
  or_store_invalid_emits_nothing (raised suggestion_in_progress) w =
      stored_emits_nothing (some invalid_output) 4 none (some invalid_output) w
  or_store_invalid_emits_nothing (raised invalid_suggestion_state) w =
      stored_emits_nothing (some invalid_output) 4 none (some invalid_output) w
  or_store_invalid_emits_nothing (raised invalid_stored_suggestion) w =
      stored_emits_nothing (some invalid_output) 4 none (some invalid_output) w
  or_store_invalid_emits_nothing (raised value_error) w =
      stored_emits_nothing (some invalid_output) 4 none (some invalid_output) w
  or_store_invalid_emits_nothing (raised type_error) w =
      stored_emits_nothing (some invalid_output) 4 none (some invalid_output) w

  store_reply_emits_nothing :
      (titles : Option (List Text)) (code : Option SuggestionErrorCode) (w : World)
      → (store_reply s call ((titles, code), w)).1.events ≡ w.events
  unfolding store_reply store_result
  store_reply_emits_nothing titles (some code) w =
      stored_emits_nothing (some code) 3 none (some code) w
  store_reply_emits_nothing none none w = refl
  store_reply_emits_nothing (some titles) none w =
      let m =
        finish_suggestion s.platform (s.now 3) (s.draw 3)
          (finish_request s call (some titles) none) in
      or_store_invalid_emits_nothing (attempt s 3 m w).0 (attempt s 3 m w).1
      ∙ attempt_emits_nothing s 3 m w

  ask_provider_lem :
      (reserved : Reserved) (w : World)
      → asked (ask_provider s call reserved w).1.events
        ≤ asked w.events + new_reservations (returned (some reserved))
  unfolding ask_provider
  ask_provider_lem (reservation r) w = elim (Bool-cases s.configured) [
    | inl set ↦ rw set (rw (asked-append w.events (provider_asked r.goal)) (omega arith))
    | inr unset ↦ rw unset (omega arith)
  ]
  ask_provider_lem (saved snapshot) w = elim (Bool-cases s.configured) [
    | inl set ↦ rw set (omega arith)
    | inr unset ↦ rw unset (omega arith)
  ]

  -- the way through the queue asks nothing
  quiet_emit :
      (e : WorkerEvent) (w : World) → asked_count e ≡ 0 → asked (emit e w).events ≡ asked w.events
  quiet_emit e w h = omega (arith, asked-append w.events e, h)

  enqueue_row_asks_nothing :
      (enqueue : ℕ → Text → Option Text → Option Text) (row : Option SuggestionRow) (w : World)
      → asked (enqueue_row s call enqueue row w).1.events ≡ asked w.events
  unfolding enqueue_row
  enqueue_row_asks_nothing enqueue none w = ap asked (reconcile_emits_nothing w)
  enqueue_row_asks_nothing enqueue (some row) w =
      elim (Bool-cases (waits_for_delivery s call row)) [
        | inr claimed ↦ rw claimed (ap asked (reconcile_emits_nothing w))
        | inl waits ↦
            elim (Option-cases (enqueue row.id row.request_fingerprint row.trace_parent)) [
              | inl unavailable ↦ rw waits (
                  rw unavailable
                    (quiet_emit (suggestion_enqueue (codes "unavailable") row.id) w refl))
              | inr (outcome, accepted) ↦ rw waits (
                  rw accepted (
                    ap asked (
                      reconcile_emits_nothing
                        (emit (suggestion_enqueue (enqueue_outcome outcome) row.id) w))
                    ∙ quiet_emit (suggestion_enqueue (enqueue_outcome outcome) row.id) w refl))
            ]
      ]

  on_lookup_asks_nothing :
      (enqueue : ℕ → Text → Option Text → Option Text) (x : Called (Option SuggestionRow))
      (w : World)
      → asked (on_lookup s call enqueue (x, w)).1.events ≡ asked w.events
  unfolding on_lookup
  on_lookup_asks_nothing enqueue (returned row) w = enqueue_row_asks_nothing enqueue row w
  on_lookup_asks_nothing enqueue (raised e) w = refl
  on_lookup_asks_nothing enqueue (broken fault) w = refl

  deliver_by_queue_asks_nothing :
      (enqueue : ℕ → Text → Option Text → Option Text) (w : World)
      → asked (deliver_by_queue s call enqueue w).1.events ≡ asked w.events
  unfolding deliver_by_queue
  deliver_by_queue_asks_nothing enqueue w =
      let m = gets (find_suggestion call.user_id call.workflow_id call.payload.request_id) in
      on_lookup_asks_nothing enqueue (attempt s 1 m w).0 (attempt s 1 m w).1
      ∙ ap asked (attempt_emits_nothing s 1 m w)

  -- the calls that a reservation may lead to
  abbrev pub allowed : Called (Option Reserved) → ℕ
  allowed x = if call.cloud_tasks then 0 else new_reservations x

  choose_lem :
      (b : Bool) (x y : Answer SuggestionReply × World) (n k : ℕ)
      → asked x.1.events ≤ n
      → asked y.1.events ≤ n + k
      → asked (if b then x else y).1.events ≤ n + (if b then 0 else k)
  choose_lem true x y n k hx hy = omega (arith, hx)
  choose_lem false x y n k hx hy = hy

  execute_lem :
      (enqueue : ℕ → Text → Option Text → Option Text) (reserved : Reserved) (w : World)
      → asked (execute s call enqueue reserved w).1.events
        ≤ asked w.events + allowed (returned (some reserved))
  unfolding execute
  execute_lem enqueue reserved w =
      let x = ask_provider s call reserved w in
      choose_lem call.cloud_tasks (deliver_by_queue s call enqueue w) (store_reply s call x)
        (asked w.events) (new_reservations (returned (some reserved)))
        (omega (arith, deliver_by_queue_asks_nothing enqueue w))
        (omega (
          arith,
          ap asked (store_reply_emits_nothing x.0.0 x.0.1 x.1),
          ask_provider_lem reserved w,
        ))

  on_reserve_lem :
      (enqueue : ℕ → Text → Option Text → Option Text) (x : Called (Option Reserved)) (w : World)
      → asked (on_reserve s call enqueue (x, w)).1.events ≤ asked w.events + allowed x
  unfolding on_reserve on_reserved
  on_reserve_lem enqueue (returned none) w = omega arith
  on_reserve_lem enqueue (returned (some (reservation r))) w =
      let e = suggestion_reserved call.workflow_id call.payload.request_id in
      omega (arith, execute_lem enqueue (reservation r) (emit e w), quiet_emit e w refl)
  on_reserve_lem enqueue (returned (some (saved snapshot))) w =
      elim snapshot.status
        as (λ (st : SuggestionStatus).
          asked (saved_reply s call enqueue snapshot w st).1.events
          ≤ asked w.events + allowed (returned (some (saved snapshot)))) [
            | pending ↦ execute_lem enqueue (saved snapshot) w
            | superseded ↦ execute_lem enqueue (saved snapshot) w
            | ready ↦ omega arith
            | failed ↦ omega arith
          ]
  on_reserve_lem enqueue (raised e) w = omega arith
  on_reserve_lem enqueue (broken operational) w = omega arith
  on_reserve_lem enqueue (broken unexpected) w = omega arith

-- The handler asks the provider at most once, and only if it works without a queue and its reservation
-- was new: a replay and a queued request never ask, whatever transactions are broken.
pub asks_once :
    (s : Seams) (call : SuggestCall) (enqueue : ℕ → Text → Option Text → Option Text) (w : World)
    → asked (suggest_todo_workflow s call enqueue w).1.events
      ≤ asked w.events
        + allowed s call
            (attempt s 0 (reserve_suggestion s.platform (s.now 0) (suggest_request s call)) w).0
unfolding suggest_todo_workflow
asks_once s call enqueue w =
    let m = reserve_suggestion s.platform (s.now 0) (suggest_request s call) in
    omega (
      arith,
      on_reserve_lem s call enqueue (attempt s 0 m w).0 (attempt s 0 m w).1,
      ap asked (attempt_emits_nothing s 0 m w),
    )
