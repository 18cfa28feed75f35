-- ===== src/Workflow/Domain/Validity.antt =====
-- The workflows that the domain rules produce: which answer and which proposals go with a state.
use expo_fastapi_todo.Prelude.{
  ◌≤◌, ◌≡◌, ◌⊎◌, inl, inr, refl, Bool, true, false, Option, none, some, List, [], ◌∷◌, length,
  arith, is_none, Text, All, map,
}
use expo_fastapi_todo.Result.{ok, invalid_workflow_input, or_raise, >>=-eq-ok, or_raise-eq-ok}
use expo_fastapi_todo.Title.{strip, canonicalize_title}
use expo_fastapi_todo.Title.Canonical.{Title, canonicalize_title_sound, canonicalize_title_fixed}
use expo_fastapi_todo.Workflow.Domain.{
  WorkflowState, assess_task, offer_breakdown, collect_tasks, review, completed, cancelled,
  WorkflowSnapshot, WorkflowCommand, answer_multiple_steps, submit_tasks, confirm, cancel,
  TransitionDecision, is_terminal, is_cancel, cancelled_from, dispatch, transition,
  canonical_titles, create_submit_tasks,
}

-- Titles that `create_submit_tasks` returns.
pub record Breakdown (titles : List Text) : Type 0 where
  pub canonical : All Title titles
  pub at_least : 2 ≤ length titles
  pub at_most : length titles ≤ 10

-- Reviewed proposals: the task itself, or a breakdown of a task that has several steps.
abbrev pub Reviewed : Option Bool → Text → List Text → Type 0
Reviewed answer t titles =
    ((is_none answer ≡ false) × (titles ≡ t ∷ [])) ⊎ ((answer ≡ some true) × Breakdown titles)

abbrev pub Collecting : Option Bool → List Text → Type 0
Collecting answer titles = (answer ≡ some true) × (titles ≡ [])

-- The answer and the proposals that go with a state. A cancelled workflow keeps those it had.
abbrev pub Context : WorkflowState → Option Bool → Text → List Text → Type 0
Context assess_task answer t titles = (answer ≡ none) × (titles ≡ [])
Context offer_breakdown answer t titles = Collecting answer titles
Context collect_tasks answer t titles = Collecting answer titles
Context review answer t titles = Reviewed answer t titles
Context completed answer t titles = Reviewed answer t titles
Context cancelled answer t titles =
    ((answer ≡ none) × (titles ≡ [])) ⊎ Collecting answer titles ⊎ Reviewed answer t titles

abbrev pub IsCommand : WorkflowCommand → Type 0
IsCommand (submit_tasks titles) = Breakdown titles
IsCommand _ = Unit

abbrev pub creates : WorkflowState → List Text → List Text
creates completed titles = titles
creates _ titles = []

-- The decision on a workflow of a given title: its answer and proposals fit the new state, and the
-- todos to create are the proposals if the workflow completes, and none otherwise.
pub record Decided (title : Text) (d : TransitionDecision) : Type 0 where
  pub context : Context d.state d.involves_multiple_steps title d.proposed_todo_titles
  pub created : d.todo_titles_to_create ≡ creates d.state d.proposed_todo_titles

dispatch-Decided :
    (st : WorkflowState) (c : WorkflowCommand) (s : WorkflowSnapshot) {d : TransitionDecision}
    → Context st s.involves_multiple_steps s.title s.proposed_todo_titles
    → IsCommand c
    → dispatch st c s ≡ ok d
    → Decided s.title d
unfolding dispatch
dispatch-Decided assess_task (answer_multiple_steps true) s v g h = ground arith
dispatch-Decided assess_task (answer_multiple_steps false) s v g h = ground arith
dispatch-Decided offer_breakdown (answer_multiple_steps true) s v g h = ground arith
dispatch-Decided offer_breakdown (answer_multiple_steps false) s v g h = ground arith
dispatch-Decided collect_tasks (submit_tasks titles) s v g h = ground arith
dispatch-Decided review confirm s v g h = ground arith
dispatch-Decided _ _ s v g h = cc

live-Context :
    (st : WorkflowState) (answer : Option Bool) (t : Text) (titles : List Text)
    → Context st answer t titles
    → is_terminal st ≡ false
    → Context cancelled answer t titles
unfolding is_terminal
live-Context assess_task answer t titles v h = inl v
live-Context offer_breakdown answer t titles v h = inr (inl v)
live-Context collect_tasks answer t titles v h = inr (inl v)
live-Context review answer t titles v h = inr (inr v)
live-Context _ answer t titles v h = cc

-- From a workflow whose answer and proposals fit its state, every accepted command that carries a
-- canonical breakdown, if it carries titles, leads to one that fits again.
pub transition-Decided :
    (s : WorkflowSnapshot) (c : WorkflowCommand) {d : TransitionDecision}
    → Context s.state s.involves_multiple_steps s.title s.proposed_todo_titles
    → IsCommand c
    → transition s c ≡ ok d
    → Decided s.title d
unfolding transition cancelled_from is_cancel
transition-Decided s cancel v g h =
    ground (arith, live-Context s.state s.involves_multiple_steps s.title s.proposed_todo_titles v)
transition-Decided s c {d} v g h = ground (arith, dispatch-Decided s.state c s {d = d} v g)

canonical_titles_sound :
    (titles : List Text) {canonical : List Text}
    → canonical_titles titles ≡ ok canonical
    → (canonical ≡ map strip titles) × All Title canonical
unfolding canonical_titles
canonical_titles_sound [] h = ground arith
canonical_titles_sound (t ∷ ts) h =
    let (c, ec, rest) = >>=-eq-ok (or_raise (canonicalize_title t) invalid_workflow_input) _ h in
    let (cs, ecs, done) = >>=-eq-ok (canonical_titles ts) _ rest in
    ground (
      arith,
      canonicalize_title_sound t {s = c}
          (or_raise-eq-ok (canonicalize_title t) invalid_workflow_input ec),
      canonical_titles_sound ts {canonical = cs} ecs,
    )

canonical_titles_fixed :
    (titles : List Text) → All Title titles → canonical_titles titles ≡ ok titles
unfolding canonical_titles
canonical_titles_fixed [] h = refl
canonical_titles_fixed (t ∷ ts) h =
    rw (canonicalize_title_fixed t h.0) (rw (canonical_titles_fixed ts h.1))

-- Titles that are accepted are the trimmed input, canonical, and 2 to 10 of them.
pub create_submit_tasks_sound :
    (titles : List Text) {accepted : List Text}
    → create_submit_tasks titles ≡ ok accepted
    → (accepted ≡ map strip titles) × Breakdown accepted
unfolding create_submit_tasks
create_submit_tasks_sound titles {accepted} h =
    ground (arith, canonical_titles_sound titles {canonical = accepted})

-- A breakdown is accepted as it stands.
pub create_submit_tasks_fixed :
    (titles : List Text) → Breakdown titles → create_submit_tasks titles ≡ ok titles
unfolding create_submit_tasks
create_submit_tasks_fixed titles b = rw (canonical_titles_fixed titles b.canonical) (ground arith)
