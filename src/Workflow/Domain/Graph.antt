-- ===== src/Workflow/Domain/Graph.antt =====
-- The order in which a workflow passes through its states.
use expo_fastapi_todo.Prelude.{ℕ, ◌<◌, ◌≡◌, refl, sym, true, false, List, arith}
use expo_fastapi_todo.Result.{ok}
use expo_fastapi_todo.Workflow.Domain.{
  WorkflowState, assess_task, offer_breakdown, collect_tasks, review, completed, cancelled,
  WorkflowSnapshot, WorkflowCommand, answer_multiple_steps, submit_tasks, confirm, cancel,
  TransitionDecision, is_terminal, is_cancel, cancelled_from, dispatch, transition,
}

-- The commands that each state takes, and where they lead.
pub data Edge : WorkflowState → WorkflowCommand → WorkflowState → Type 0 where
  split : Edge assess_task (answer_multiple_steps true) offer_breakdown
  single : Edge assess_task (answer_multiple_steps false) review
  accept : Edge offer_breakdown (answer_multiple_steps true) collect_tasks
  decline : Edge offer_breakdown (answer_multiple_steps false) review
  submit : {titles : List (List ℕ)} → Edge collect_tasks (submit_tasks titles) review
  finish : Edge review confirm completed
  abandon : {s : WorkflowState} → is_terminal s ≡ false → Edge s cancel cancelled

ruleset edges = (split, single, accept, decline, submit, finish)

dispatch-Edge :
    (st : WorkflowState) (c : WorkflowCommand) (s : WorkflowSnapshot) {d : TransitionDecision}
    → dispatch st c s ≡ ok d
    → Edge st c d.state
unfolding dispatch
dispatch-Edge assess_task (answer_multiple_steps true) s h = grind (arith, edges)
dispatch-Edge assess_task (answer_multiple_steps false) s h = grind (arith, edges)
dispatch-Edge offer_breakdown (answer_multiple_steps true) s h = grind (arith, edges)
dispatch-Edge offer_breakdown (answer_multiple_steps false) s h = grind (arith, edges)
dispatch-Edge collect_tasks (submit_tasks titles) s h = grind (arith, edges)
dispatch-Edge review confirm s h = grind (arith, edges)
dispatch-Edge _ _ s h = cc

-- An accepted command follows an edge of the graph from the state of the workflow.
pub transition-Edge :
    (s : WorkflowSnapshot) (c : WorkflowCommand) {d : TransitionDecision}
    → transition s c ≡ ok d
    → Edge s.state c d.state
unfolding transition
transition-Edge s cancel h = grind (arith, abandon)
transition-Edge s c {d} h = ground (arith, dispatch-Edge s.state c s {d = d})

Edge-dispatch :
    {st t : WorkflowState} {c : WorkflowCommand} (s : WorkflowSnapshot)
    → Edge st c t
    → is_cancel c ≡ false
    → (d : TransitionDecision) × (dispatch st c s ≡ ok d) × (d.state ≡ t)
unfolding dispatch is_cancel
Edge-dispatch s split h = (_, refl, refl)
Edge-dispatch s single h = (_, refl, refl)
Edge-dispatch s accept h = (_, refl, refl)
Edge-dispatch s decline h = (_, refl, refl)
Edge-dispatch s submit h = (_, refl, refl)
Edge-dispatch s finish h = (_, refl, refl)
Edge-dispatch s (abandon live) h = cc

Edge-live : {s t : WorkflowState} {c : WorkflowCommand} → Edge s c t → is_terminal s ≡ false
unfolding is_terminal
Edge-live split = refl
Edge-live single = refl
Edge-live accept = refl
Edge-live decline = refl
Edge-live submit = refl
Edge-live finish = refl
Edge-live (abandon live) = live

Edge-cancel : {s t : WorkflowState} → Edge s cancel t → t ≡ cancelled
Edge-cancel (abandon live) = refl

-- Every edge is taken, by a workflow of the current definition version.
pub Edge-transition :
    (s : WorkflowSnapshot) (c : WorkflowCommand) {t : WorkflowState}
    → s.definition_version ≡ 1
    → Edge s.state c t
    → (d : TransitionDecision) × (transition s c ≡ ok d) × (d.state ≡ t)
unfolding transition
Edge-transition s cancel v e =
    (cancelled_from s, simp (v, Edge-live e), unfold cancelled_from in sym (Edge-cancel e))
Edge-transition s c v e =
    let (d, accepted, lands) = Edge-dispatch s e refl in (d, simp (v, Edge-live e) accepted, lands)

-- How many more commands a workflow in a state can take.
unfoldable pub steps_left : WorkflowState → ℕ
steps_left assess_task = 4
steps_left offer_breakdown = 3
steps_left collect_tasks = 2
steps_left review = 1
steps_left completed = 0
steps_left cancelled = 0

steps_left_live : (s : WorkflowState) → is_terminal s ≡ false → 0 < steps_left s
unfolding steps_left is_terminal
steps_left_live completed h = cc
steps_left_live cancelled h = cc
steps_left_live _ h = omega arith

pub steps_left-Edge :
    {s t : WorkflowState} {c : WorkflowCommand} → Edge s c t → steps_left t < steps_left s
unfolding steps_left
steps_left-Edge split = omega arith
steps_left-Edge single = omega arith
steps_left-Edge accept = omega arith
steps_left-Edge decline = omega arith
steps_left-Edge submit = omega arith
steps_left-Edge finish = omega arith
steps_left-Edge (abandon {s} live) = steps_left_live s live
