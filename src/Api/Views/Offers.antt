-- ===== src/Api/Views/Offers.antt =====
-- A view of apps/api/app/workflow_presentation.py offers what the domain accepts.
use expo_fastapi_todo.Prelude.{
  ◌≡◌, refl, sym, ap, ◌∙◌, Bool, true, false, not, ◌&&◌, List, [], any, length, leb, ◌==◌, Text,
  codes, text_eq, arith, inl, inr, if◌then◌else◌,
}
use expo_fastapi_todo.Result.{
  Result, Error, ok, err, Result-cases, ok-injective, terminal_workflow,
  unsupported_workflow_definition,
}
use expo_fastapi_todo.Platform.{Platform}
use expo_fastapi_todo.Workflow.Domain.{
  WorkflowState, assess_task, offer_breakdown, collect_tasks, review, completed, cancelled,
  WorkflowSnapshot, TransitionDecision, transition, dispatch, is_terminal, is_cancel,
  cancelled_from, create_submit_tasks,
}
use expo_fastapi_todo.Workflow.Domain.Validity.{create_submit_tasks_sound}
use expo_fastapi_todo.Api.Payloads.{
  WorkflowAction, answer_multiple_steps_action, submit_tasks_action, confirm_action, cancel_action,
  validate_action, to_domain_command,
}
use expo_fastapi_todo.Api.Views.{
  WorkflowView, yes_no, task_breakdown, review_view, completion, present_workflow, view_of,
}

abbrev pub choice_id : Bool → Text
choice_id true = codes "yes"
choice_id false = codes "no"

-- what a client can do with a view: answer with one of its choices, submit as many titles as it asks
-- for, confirm the reviewed titles, and cancel what is not over
abbrev pub offers : WorkflowView → WorkflowAction → Bool
offers (yes_no step title question actions) (answer_multiple_steps_action answer) =
    any (λ c. text_eq c.id (choice_id answer)) actions
offers (task_breakdown step title least most) (submit_tasks_action titles) =
    leb least (length titles) && leb (length titles) most
offers (review_view step title titles) confirm_action = true
offers (completion step title outcome created) action = false
offers view cancel_action = true
offers view action = false

-- whether the domain accepts
abbrev pub is_accepted : Result TransitionDecision → Bool
is_accepted (ok decision) = true
is_accepted (err e) = false

abbrev titles_of : WorkflowAction → List Text
titles_of (submit_tasks_action titles) = titles
titles_of action = []

in_bounds :
    (titles : List Text)
    → validate_action (submit_tasks_action titles) ≡ ok (submit_tasks_action titles)
    → (leb 2 (length titles) && leb (length titles) 10) ≡ true
unfolding validate_action
in_bounds titles h = elim (Result-cases (create_submit_tasks titles)) [
  | inl (canonical, e) ↦
      let same : canonical ≡ titles = ap titles_of (ok-injective (rw e at h)) in
      let (_, b) = create_submit_tasks_sound titles {accepted = canonical} e in
      ground (arith, same, b.at_least, b.at_most)
  | inr (raise, e) ↦ absurd (ground (arith, rw e at h))
]

view_offers :
    (step : Text) (st : WorkflowState) (s : WorkflowSnapshot) (action : WorkflowAction)
    → validate_action action ≡ ok action
    → is_accepted (
        if is_terminal st
        then err terminal_workflow
        else if is_cancel (to_domain_command action)
        then ok (cancelled_from s)
        else dispatch st (to_domain_command action) s)
      ≡ offers (view_of step st s) action
unfolding is_terminal is_cancel dispatch to_domain_command text_eq
view_offers step assess_task s (answer_multiple_steps_action true) h = refl
view_offers step assess_task s (answer_multiple_steps_action false) h = refl
view_offers step assess_task s (submit_tasks_action titles) h = refl
view_offers step assess_task s confirm_action h = refl
view_offers step assess_task s cancel_action h = refl
view_offers step offer_breakdown s (answer_multiple_steps_action true) h = refl
view_offers step offer_breakdown s (answer_multiple_steps_action false) h = refl
view_offers step offer_breakdown s (submit_tasks_action titles) h = refl
view_offers step offer_breakdown s confirm_action h = refl
view_offers step offer_breakdown s cancel_action h = refl
view_offers step collect_tasks s (answer_multiple_steps_action answer) h = refl
view_offers step collect_tasks s (submit_tasks_action titles) h = sym (in_bounds titles h)
view_offers step collect_tasks s confirm_action h = refl
view_offers step collect_tasks s cancel_action h = refl
view_offers step review s (answer_multiple_steps_action answer) h = refl
view_offers step review s (submit_tasks_action titles) h = refl
view_offers step review s confirm_action h = refl
view_offers step review s cancel_action h = refl
view_offers step completed s (answer_multiple_steps_action answer) h = refl
view_offers step completed s (submit_tasks_action titles) h = refl
view_offers step completed s confirm_action h = refl
view_offers step completed s cancel_action h = refl
view_offers step cancelled s (answer_multiple_steps_action answer) h = refl
view_offers step cancelled s (submit_tasks_action titles) h = refl
view_offers step cancelled s confirm_action h = refl
view_offers step cancelled s cancel_action h = refl

unguarded :
    (b : Bool) (e : Error) (r : Result TransitionDecision)
    → b ≡ false
    → is_accepted (if b then err e else r) ≡ is_accepted r
unguarded b e r h = rw h refl

-- For a workflow of the current definition version and an action that the request's validator leaves
-- as it is, the domain accepts the action exactly if the workflow's view offers it.
pub transition-offers :
    (p : Platform) (s : WorkflowSnapshot) (action : WorkflowAction)
    → s.definition_version ≡ 1
    → validate_action action ≡ ok action
    → is_accepted (transition s (to_domain_command action)) ≡ offers (present_workflow p s) action
unfolding transition present_workflow
transition-offers p s action version valid =
    unguarded (not (s.definition_version == 1)) unsupported_workflow_definition _
      (ground (arith, version))
    ∙ view_offers _ s.state s action valid
