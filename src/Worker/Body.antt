-- ===== src/Worker/Body.antt =====
-- Reading and checking a request's body in apps/api/app/worker.py. `loads` is `json.loads` of the decoded
-- bytes, `none` when it raises.
pub mod Bounded
pub mod Parsed
use expo_fastapi_todo.Prelude.{
  ℕ, ◌+◌, ◌++◌, Bool, true, false, not, ◌||◌, ◌&&◌, Option, none, some, List, [], ◌∷◌, length, leb,
  ltb, ◌==◌, Text, codes, if◌then◌else◌,
}
use expo_fastapi_todo.Json.{Json, num, negative, obj, Fields, end, get, keys, same_keys}
use expo_fastapi_todo.Http.{Answer, answered, refuse, ◌>>=◌}

abbrev pub Bytes : Type 0
Bytes = List ℕ

abbrev pub max_task_body_bytes : ℕ
max_task_body_bytes = 1024

abbrev pub task_version : ℕ
task_version = 1

-- `read_bounded_body`: `bytes` is what has been read of the stream's chunks
unfoldable pub read_chunks : Bytes → List Bytes → Answer Bytes
read_chunks bytes [] = answered bytes
read_chunks bytes (chunk ∷ chunks) =
    let rest = read_chunks (bytes ++ chunk) chunks in
    if ltb max_task_body_bytes (length (bytes ++ chunk))
    then refuse 413 (codes "Task body is too large.")
    else rest

unfoldable pub read_bounded_body : List Bytes → Answer Bytes
read_bounded_body chunks = read_chunks [] chunks

-- `type(value) is int`
abbrev pub is_int : Option Json → Bool
is_int (some (num n)) = true
is_int (some (negative n)) = true
is_int _ = false

-- `value == n` of an integer
abbrev pub equals : ℕ → Option Json → Bool
equals n (some (num m)) = m == n
equals n _ = false

-- the integer, if it is positive
abbrev pub positive : Option Json → Answer ℕ
positive (some (num n)) =
    if leb n 0 then refuse 422 (codes "Task suggestion_id must be positive.") else answered n
positive _ = refuse 422 (codes "Task suggestion_id must be positive.")

unfoldable pub parse_fields : Fields → Answer ℕ
parse_fields payload =
    let version = get (codes "version") payload in
    let suggestion_id = get (codes "suggestion_id") payload in
    if not (same_keys (keys payload) (codes "version" ∷ codes "suggestion_id" ∷ []))
    then refuse 422 (codes "Task body has unexpected fields.")
    else if not (is_int version) || not (is_int suggestion_id)
    then refuse 422 (codes "Task body fields must be integers.")
    else if not (equals task_version version)
    then refuse 400 (codes "Unsupported task version.")
    else positive suggestion_id

unfoldable pub parse_payload : Option Json → Answer ℕ
parse_payload none = refuse 422 (codes "Task body must be JSON.")
parse_payload (some (obj payload)) = parse_fields payload
parse_payload (some _) = refuse 422 (codes "Task body must be a JSON object.")

unfoldable pub parse_task_body : (Bytes → Option Json) → Bytes → Answer ℕ
parse_task_body loads raw = parse_payload (loads raw)

-- the body of the sweep and of the export: `{}`
unfoldable pub parse_empty_body : (Bytes → Option Json) → Text → Text → Bytes → Answer (Unit {0})
parse_empty_body loads no_json no_object raw = elim (loads raw) [
  | none ↦ refuse 422 no_json
  | some (obj end) ↦ answered tt
  | some _ ↦ refuse 422 no_object
]
