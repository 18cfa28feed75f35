-- ===== src/Workflow/Record.antt =====
-- The stored form of a workflow snapshot: `snapshot_to_record` and `snapshot_from_record` of
-- apps/api/app/workflow_repository.py. Each check of the decoder is a function of its own.
pub mod Valid
pub mod Stages
pub mod Roundtrip
pub mod Soundness
use expo_fastapi_todo.Prelude.{
  ℕ, Bool, true, false, not, ◌&&◌, Option, none, some, List, [], ◌∷◌, map, length, leb, ◌==◌, Text,
  codes, if◌then◌else◌, text_eq, texts_eq, is_none, is_empty,
}
use expo_fastapi_todo.Result.{
  Result, ok, err, invalid_stored_snapshot, or_raise, raise_if, ◌>>=◌, ◌>>◌,
}
use expo_fastapi_todo.Title.{canonicalize_title}
use expo_fastapi_todo.Json.{
  Json, null, boolean, num, negative, real, text, arr, obj, Items, nil, cons, Fields, end, field,
  get, keys, items, text_array, same_keys, list,
}
use expo_fastapi_todo.Platform.{Platform}
use expo_fastapi_todo.Workflow.Domain.{
  Uuid, WorkflowState, assess_task, offer_breakdown, collect_tasks, review, completed, cancelled,
  CreatedTodo, WorkflowSnapshot, state_value, parse_state, max_workflow_revision,
  max_breakdown_titles,
}

abbrev pub snapshot_record_keys : List Text
snapshot_record_keys =
    codes "workflow_id"
    ∷ codes "revision"
    ∷ codes "definition_version"
    ∷ codes "state"
    ∷ codes "title"
    ∷ codes "involves_multiple_steps"
    ∷ codes "proposed_todo_titles"
    ∷ codes "created_todos"
    ∷ []

abbrev pub todo_keys : List Text
todo_keys = codes "id" ∷ codes "title" ∷ codes "completed" ∷ []

-- `None` or a flag
abbrev pub flag_json : Option Bool → Json
flag_json none = null
flag_json (some b) = boolean b

abbrev pub todo_json : Platform → CreatedTodo → Json
todo_json p item = obj (
    field (codes "id") (text (p.show_uuid item.id)) (
      field (codes "title") (text item.title)
        (field (codes "completed") (boolean item.completed) end)))

abbrev pub todos_json : Platform → Option (List CreatedTodo) → Json
todos_json p none = null
todos_json p (some todos) = arr (items (map (todo_json p) todos))

unfoldable pub snapshot_to_record : Platform → WorkflowSnapshot → Json
snapshot_to_record p snapshot = obj (
    field (codes "workflow_id") (text (p.show_uuid snapshot.id)) (
      field (codes "revision") (num snapshot.revision) (
        field (codes "definition_version") (num snapshot.definition_version) (
          field (codes "state") (text (state_value snapshot.state)) (
            field (codes "title") (text snapshot.title) (
              field (codes "involves_multiple_steps") (flag_json snapshot.involves_multiple_steps) (
                field (codes "proposed_todo_titles") (text_array snapshot.proposed_todo_titles)
                  (field (codes "created_todos") (todos_json p snapshot.created_todos) end))))))))

-- `record[key]`, after the check of the keys: the default is not reached
abbrev pub value : Text → Fields → Json
value key fields = elim (get key fields) [ none ↦ null | some v ↦ v ]

-- `UUID(str(value))`
unfoldable pub read_id : Platform → Json → Result Uuid
read_id p v = elim (p.parse_uuid (p.str v)) [ none ↦ err invalid_stored_snapshot | some u ↦ ok u ]

-- a revision is an integer that is no `bool`, from 0 to the maximum
unfoldable pub read_revision : Json → Result ℕ
read_revision (num n) = if leb n max_workflow_revision then ok n else err invalid_stored_snapshot
read_revision _ = err invalid_stored_snapshot

unfoldable pub read_version : Json → Result ℕ
read_version (num n) = if leb 1 n then ok n else err invalid_stored_snapshot
read_version _ = err invalid_stored_snapshot

-- `WorkflowState(str(value))`
unfoldable pub read_state : Platform → Json → Result WorkflowState
read_state p v = elim (parse_state (p.str v)) [ none ↦ err invalid_stored_snapshot | some s ↦ ok s ]

unfoldable pub require_canonical_title : Json → Result Text
require_canonical_title (text t) = do
  canonical ← or_raise (canonicalize_title t) invalid_stored_snapshot
  raise_if (not (text_eq t canonical)) invalid_stored_snapshot
  ok t
require_canonical_title _ = err invalid_stored_snapshot

unfoldable pub read_flag : Json → Result (Option Bool)
read_flag null = ok none
read_flag (boolean b) = ok (some b)
read_flag _ = err invalid_stored_snapshot

unfoldable pub read_titles : Items → Result (List Text)
read_titles nil = ok []
read_titles (cons v vs) = do
  title ← require_canonical_title v
  titles ← read_titles vs
  ok (title ∷ titles)

unfoldable pub read_proposals : Json → Result (List Text)
unfolding read_titles
read_proposals (arr vs) = read_titles vs
read_proposals _ = err invalid_stored_snapshot

-- a lone proposal is the title of the workflow
abbrev pub lone_is_title : Text → List Text → Bool
lone_is_title title (only ∷ []) = text_eq only title
lone_is_title title _ = true

abbrev pub reviewed_ok : Option Bool → Text → List Text → Bool
reviewed_ok (some false) title proposals = length proposals == 1 && lone_is_title title proposals
reviewed_ok (some true) title proposals =
    leb 1 (length proposals)
    && leb (length proposals) max_breakdown_titles
    && lone_is_title title proposals
reviewed_ok none title proposals = false

abbrev pub cancelled_ok : Option Bool → Text → List Text → Bool
cancelled_ok none title proposals = is_empty proposals
cancelled_ok (some false) title proposals = length proposals == 1 && lone_is_title title proposals
cancelled_ok (some true) title proposals =
    leb (length proposals) max_breakdown_titles && lone_is_title title proposals

-- `involves is True and not proposals`
abbrev pub collecting_ok : Option Bool → List Text → Bool
collecting_ok (some true) proposals = is_empty proposals
collecting_ok _ proposals = false

-- the flag and the proposals that a snapshot in each state may have
unfoldable pub context_ok : WorkflowState → Option Bool → Text → List Text → Bool
context_ok assess_task involves title proposals = is_none involves && is_empty proposals
context_ok offer_breakdown involves title proposals = collecting_ok involves proposals
context_ok collect_tasks involves title proposals = collecting_ok involves proposals
context_ok review involves title proposals = reviewed_ok involves title proposals
context_ok completed involves title proposals = reviewed_ok involves title proposals
context_ok cancelled involves title proposals = cancelled_ok involves title proposals

unfoldable pub read_completed : Json → Result Bool
read_completed (boolean true) = err invalid_stored_snapshot
read_completed (boolean false) = ok false
read_completed _ = err invalid_stored_snapshot

unfoldable pub read_todo : Platform → Json → Result CreatedTodo
read_todo p (obj fields) = do
  raise_if (not (same_keys (keys fields) todo_keys)) invalid_stored_snapshot
  id ← read_id p (value (codes "id") fields)
  title ← require_canonical_title (value (codes "title") fields)
  done ← read_completed (value (codes "completed") fields)
  ok (record { id = id; title = title; completed = done })
read_todo p _ = err invalid_stored_snapshot

unfoldable pub read_todos : Platform → Items → Result (List CreatedTodo)
read_todos p nil = ok []
read_todos p (cons v vs) = do todo ← read_todo p v; todos ← read_todos p vs; ok (todo ∷ todos)

-- a completed snapshot has one incomplete todo for each proposal, in order
unfoldable pub read_created_todos : Platform → List Text → Json → Result (List CreatedTodo)
read_created_todos p proposals (arr vs) = do
  raise_if (is_empty (list vs)) invalid_stored_snapshot
  todos ← read_todos p vs
  raise_if (not (length todos == length proposals)) invalid_stored_snapshot
  raise_if (not (texts_eq (map (λ t. t.title) todos) proposals)) invalid_stored_snapshot
  ok todos
read_created_todos p proposals _ = err invalid_stored_snapshot

unfoldable pub read_created :
    Platform → WorkflowState → List Text → Json → Result (Option (List CreatedTodo))
read_created p completed proposals v = do todos ← read_created_todos p proposals v; ok (some todos)
read_created p _ proposals null = ok none
read_created p _ proposals _ = err invalid_stored_snapshot

unfoldable pub read_fields : Platform → Fields → Result WorkflowSnapshot
read_fields p fields = do
  workflow_id ← read_id p (value (codes "workflow_id") fields)
  revision ← read_revision (value (codes "revision") fields)
  definition_version ← read_version (value (codes "definition_version") fields)
  state ← read_state p (value (codes "state") fields)
  title ← require_canonical_title (value (codes "title") fields)
  involves ← read_flag (value (codes "involves_multiple_steps") fields)
  proposals ← read_proposals (value (codes "proposed_todo_titles") fields)
  raise_if (not (context_ok state involves title proposals)) invalid_stored_snapshot
  created ← read_created p state proposals (value (codes "created_todos") fields)
  ok (record {
    id = workflow_id;
    state = state;
    title = title;
    involves_multiple_steps = involves;
    proposed_todo_titles = proposals;
    created_todos = created;
    revision = revision;
    definition_version = definition_version;
  })

unfoldable pub snapshot_from_record : Platform → Json → Result WorkflowSnapshot
snapshot_from_record p (obj fields) = do
  raise_if (not (same_keys (keys fields) snapshot_record_keys)) invalid_stored_snapshot
  read_fields p fields
snapshot_from_record p _ = err invalid_stored_snapshot
