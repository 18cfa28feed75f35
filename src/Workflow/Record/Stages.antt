-- ===== src/Workflow/Record/Stages.antt =====
-- Each check of the decoder accepts what the encoder writes.
use expo_fastapi_todo.Prelude.{
  ℕ, ◌≡◌, refl, Bool, true, false, Option, none, some, List, [], ◌∷◌, map, length, length-map, Text,
  All, arith, text_eq, text_eq_refl, texts_eq_refl, ==_refl, is_empty,
}
use expo_fastapi_todo.Result.{ok}
use expo_fastapi_todo.Title.Canonical.{Title, canonicalize_title_fixed}
use expo_fastapi_todo.Json.{text, boolean, items, text_array, same_keys}
use expo_fastapi_todo.Platform.{Platform, IsPlatform}
use expo_fastapi_todo.Workflow.Domain.{
  WorkflowState, assess_task, offer_breakdown, collect_tasks, review, completed, cancelled,
  CreatedTodo, state_value, parse_state-state_value,
}
use expo_fastapi_todo.Workflow.Domain.Validity.{Context, Reviewed}
use expo_fastapi_todo.Workflow.Record.{
  read_id, read_state, require_canonical_title, read_flag, flag_json, read_titles, read_proposals,
  context_ok, reviewed_ok, cancelled_ok, read_todo, todo_json, read_todos, read_created_todos,
  read_created, todos_json, read_completed,
}
use expo_fastapi_todo.Workflow.Record.Valid.{Created}

module _ {p : Platform} (laws : IsPlatform p) where
  pub read_id-show_uuid : (u : ℕ) → read_id p (text (p.show_uuid u)) ≡ ok u
  unfolding read_id
  read_id-show_uuid u = ground (arith, laws.str_text (p.show_uuid u), laws.uuid_round_trip u)

  pub read_state-state_value : (s : WorkflowState) → read_state p (text (state_value s)) ≡ ok s
  unfolding read_state
  read_state-state_value s =
      ground (arith, laws.str_text (state_value s), parse_state-state_value s)

pub require-Title : (t : Text) → Title t → require_canonical_title (text t) ≡ ok t
unfolding require_canonical_title
require-Title t c = rw (canonicalize_title_fixed t c, text_eq_refl t)

pub read_flag-flag_json : (f : Option Bool) → read_flag (flag_json f) ≡ ok f
unfolding read_flag
read_flag-flag_json none = refl
read_flag-flag_json (some b) = refl

read_titles_texts : (ts : List Text) → All Title ts → read_titles (items (map text ts)) ≡ ok ts
unfolding read_titles
read_titles_texts [] h = refl
read_titles_texts (t ∷ ts) h = rw (require-Title t h.0, read_titles_texts ts h.1)

pub read_proposals-text_array :
    (ts : List Text) → All Title ts → read_proposals (text_array ts) ≡ ok ts
unfolding read_proposals
read_proposals-text_array ts h = read_titles_texts ts h

Reviewed-valid :
    (f : Option Bool) (t : Text) (ps : List Text) → Reviewed f t ps → reviewed_ok f t ps ≡ true
Reviewed-valid none t ps v = ground arith
Reviewed-valid (some false) t ps v = ground (arith, text_eq_refl t)
Reviewed-valid (some true) t [] v = ground arith
Reviewed-valid (some true) t (only ∷ []) v = ground (arith, text_eq_refl t)
Reviewed-valid (some true) t (one ∷ two ∷ more) v = ground arith

cancelled_valid :
    (f : Option Bool) (t : Text) (ps : List Text)
    → Context cancelled f t ps
    → cancelled_ok f t ps ≡ true
cancelled_valid none t ps v = ground arith
cancelled_valid (some false) t ps v = ground (arith, text_eq_refl t)
cancelled_valid (some true) t [] v = ground arith
cancelled_valid (some true) t (only ∷ []) v = ground (arith, text_eq_refl t)
cancelled_valid (some true) t (one ∷ two ∷ more) v = ground arith

pub Context-valid :
    (s : WorkflowState) (f : Option Bool) (t : Text) (ps : List Text)
    → Context s f t ps
    → context_ok s f t ps ≡ true
unfolding context_ok
Context-valid assess_task f t ps v = ground arith
Context-valid offer_breakdown f t ps v = ground arith
Context-valid collect_tasks f t ps v = ground arith
Context-valid review f t ps v = Reviewed-valid f t ps v
Context-valid completed f t ps v = Reviewed-valid f t ps v
Context-valid cancelled f t ps v = cancelled_valid f t ps v

read_completed-boolean : (b : Bool) → b ≡ false → read_completed (boolean b) ≡ ok b
unfolding read_completed
read_completed-boolean true h = cc
read_completed-boolean false h = refl

pub Reviewed-not_empty :
    (f : Option Bool) (t : Text) (ps : List Text) → Reviewed f t ps → is_empty ps ≡ false
Reviewed-not_empty f t [] v = ground arith
Reviewed-not_empty f t (p ∷ ps) v = refl

module _ {p : Platform} (laws : IsPlatform p) where
  read_todo-todo_json :
      (todo : CreatedTodo)
      → Title todo.title
      → todo.completed ≡ false
      → read_todo p (todo_json p todo) ≡ ok todo
  unfolding read_todo same_keys text_eq read_completed
  read_todo-todo_json todo c undone =
      rw (read_id-show_uuid laws todo.id)
        (rw (require-Title todo.title c) (rw (read_completed-boolean todo.completed undone) refl))

  read_todos-todo_json :
      (todos : List CreatedTodo)
      → All Title (map (λ t. t.title) todos)
      → All (λ t. t.completed ≡ false) todos
      → read_todos p (items (map (todo_json p) todos)) ≡ ok todos
  unfolding read_todos
  read_todos-todo_json [] c undone = refl
  read_todos-todo_json (t ∷ ts) c undone =
      rw (read_todo-todo_json t c.0 undone.0, read_todos-todo_json ts c.1 undone.1)

  read_created_todos-todos :
      (todos : List CreatedTodo)
      → All Title (map (λ t. t.title) todos)
      → All (λ t. t.completed ≡ false) todos
      → is_empty (map (λ t. t.title) todos) ≡ false
      → read_created_todos p (map (λ t. t.title) todos) (todos_json p (some todos)) ≡ ok todos
  unfolding read_created_todos
  read_created_todos-todos [] c undone h = cc
  read_created_todos-todos (t ∷ ts) c undone h = rw (read_todos-todo_json (t ∷ ts) c undone) (
      rw (
        length-map (λ (t : CreatedTodo). t.title) ts,
        ==_refl (length (t ∷ ts)),
        texts_eq_refl (map (λ t. t.title) (t ∷ ts)),
      ))

  pub read_created-todos_json :
      (s : WorkflowState) (f : Option Bool) (t : Text) (created : Option (List CreatedTodo))
      (ps : List Text)
      → Created s created ps
      → All Title ps
      → Context s f t ps
      → read_created p s ps (todos_json p created) ≡ ok created
  unfolding read_created
  read_created-todos_json completed f t created ps (todos, e, titles, undone) c v =
      rw (e, ← titles)
        (rw (
          read_created_todos-todos todos (rw (← titles) at c) undone
            (rw titles (Reviewed-not_empty f t ps v))))
  read_created-todos_json _ f t created ps v c x = rw v
