-- ===== src/Tests/Domain.antt =====
-- Runs of the domain rules and of the titles.
use expo_fastapi_todo.Prelude.{◌≡◌, refl, true, some, Text, codes, arith, inr, map}
use expo_fastapi_todo.Result.{ok}
use expo_fastapi_todo.Title.{
  canonicalize_title, strip, strip_by, is_trim, has_nul, has_surrogate, check_text,
}
use expo_fastapi_todo.Title.Canonical.{Title, canonicalize_title_sound, canonicalize_title_complete}
use expo_fastapi_todo.Workflow.Domain.{
  transition, dispatch, is_cancel, is_terminal, create_submit_tasks, canonical_titles, confirm,
  review, completed, TransitionDecision,
}
use expo_fastapi_todo.Workflow.Domain.Graph.{Edge, finish, transition-Edge, Edge-transition}
use expo_fastapi_todo.Workflow.Domain.Validity.{
  Breakdown, Decided, transition-Decided, create_submit_tasks_sound,
}
use expo_fastapi_todo.Tests.Sample.{trip, breakdown, reviewed_snapshot}

pub trip-Title : Title trip
unfolding strip strip_by is_trim has_nul has_surrogate
trip-Title = record {
  trimmed = refl;
  no_nul = refl;
  no_surrogate = refl;
  not_blank = omega arith;
  short = omega arith;
}

pub breakdown-Breakdown : Breakdown breakdown
unfolding strip strip_by is_trim has_nul has_surrogate
breakdown-Breakdown = record {
  canonical = (
    record {
      trimmed = refl;
      no_nul = refl;
      no_surrogate = refl;
      not_blank = omega arith;
      short = omega arith;
    },
    (
      record {
        trimmed = refl;
        no_nul = refl;
        no_surrogate = refl;
        not_blank = omega arith;
        short = omega arith;
      },
      tt,
    ),
  );
  at_least = omega arith;
  at_most = omega arith;
}

abbrev padded : Text
padded = codes "  Trip "

canonicalize_title_sound_example : (trip ≡ strip padded) × Title trip
unfolding canonicalize_title check_text strip strip_by is_trim has_nul has_surrogate
canonicalize_title_sound_example = canonicalize_title_sound padded {s = trip} refl

canonicalize_title_complete_example : canonicalize_title padded ≡ ok (strip padded)
unfolding strip strip_by is_trim
canonicalize_title_complete_example = canonicalize_title_complete padded trip-Title

create_submit_tasks_sound_example : (breakdown ≡ map strip breakdown) × Breakdown breakdown
unfolding create_submit_tasks canonical_titles canonicalize_title check_text strip strip_by is_trim
    has_nul has_surrogate
create_submit_tasks_sound_example = create_submit_tasks_sound breakdown {accepted = breakdown} refl

abbrev completion : TransitionDecision
completion = record {
  state = completed;
  involves_multiple_steps = some true;
  proposed_todo_titles = breakdown;
  todo_titles_to_create = breakdown;
}

transition-Edge_example : Edge review confirm completed
unfolding transition dispatch is_cancel is_terminal
transition-Edge_example = transition-Edge reviewed_snapshot confirm {d = completion} refl

Edge-transition_example :
    (d : TransitionDecision) × (transition reviewed_snapshot confirm ≡ ok d) × (d.state ≡ completed)
Edge-transition_example = Edge-transition reviewed_snapshot confirm refl finish

transition-Decided_example : Decided trip completion
unfolding transition dispatch is_cancel is_terminal
transition-Decided_example =
    transition-Decided reviewed_snapshot confirm {d = completion} (inr (refl, breakdown-Breakdown))
      tt refl
