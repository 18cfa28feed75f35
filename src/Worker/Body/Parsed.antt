-- ===== src/Worker/Body/Parsed.antt =====
-- `parse_task_body` of apps/api/app/worker.py accepts version 1 and a positive id, and nothing else.
use expo_fastapi_todo.Prelude.{
  ℕ, ◌<◌, ◌≡◌, ◌↔◌, refl, true, Option, none, some, [], ◌∷◌, codes, arith,
}
use expo_fastapi_todo.Json.{
  Json, null, boolean, num, negative, real, text, arr, obj, Fields, get, keys, same_keys,
}
use expo_fastapi_todo.Http.{answered}
use expo_fastapi_todo.Worker.Body.{
  Bytes, equals, positive, parse_fields, parse_payload, parse_task_body,
}

-- an object with the two fields of a task
pub record IsTask (payload : Option Json) (suggestion_id : ℕ) : Type 0 where
  pub fields : Fields
  pub is_payload : payload ≡ some (obj fields)
  pub only : same_keys (keys fields) (codes "version" ∷ codes "suggestion_id" ∷ []) ≡ true
  pub version : get (codes "version") fields ≡ some (num 1)
  pub id : get (codes "suggestion_id") fields ≡ some (num suggestion_id)
  pub id_positive : 0 < suggestion_id

equals_one : (value : Option Json) → equals 1 value ≡ true → value ≡ some (num 1)
equals_one none h = cc
equals_one (some (num n)) h = ground arith
equals_one (some null) h = cc
equals_one (some (boolean b)) h = cc
equals_one (some (negative n)) h = cc
equals_one (some (real t)) h = cc
equals_one (some (text t)) h = cc
equals_one (some (arr vs)) h = cc
equals_one (some (obj fs)) h = cc

positive_lem :
    (value : Option Json) {n : ℕ} → positive value ≡ answered n → (value ≡ some (num n)) × (0 < n)
positive_lem none h = cc
positive_lem (some (num m)) h = (ground arith, ground arith)
positive_lem (some null) h = cc
positive_lem (some (boolean b)) h = cc
positive_lem (some (negative n)) h = cc
positive_lem (some (real t)) h = cc
positive_lem (some (text t)) h = cc
positive_lem (some (arr vs)) h = cc
positive_lem (some (obj fs)) h = cc

parse_fields_sound :
    (fields : Fields) (n : ℕ) → parse_fields fields ≡ answered n → IsTask (some (obj fields)) n
unfolding parse_fields
parse_fields_sound fields n h =
    let (id, id_positive) =
      positive_lem (get (codes "suggestion_id") fields) {n = n} (ground arith) in
    record {
      fields = fields;
      is_payload = refl;
      only = ground arith;
      version = equals_one (get (codes "version") fields) (ground arith);
      id = id;
      id_positive = id_positive;
    }

parse_fields_complete :
    (fields : Fields) (n : ℕ)
    → same_keys (keys fields) (codes "version" ∷ codes "suggestion_id" ∷ []) ≡ true
    → get (codes "version") fields ≡ some (num 1)
    → get (codes "suggestion_id") fields ≡ some (num n)
    → 0 < n
    → parse_fields fields ≡ answered n
unfolding parse_fields
parse_fields_complete fields n only version id id_positive =
    rw only (rw version (rw id (ground arith)))

parse_payload_sound :
    (payload : Option Json) (n : ℕ) → parse_payload payload ≡ answered n → IsTask payload n
unfolding parse_payload
parse_payload_sound none n h = cc
parse_payload_sound (some (obj fields)) n h = parse_fields_sound fields n h
parse_payload_sound (some null) n h = cc
parse_payload_sound (some (boolean b)) n h = cc
parse_payload_sound (some (num m)) n h = cc
parse_payload_sound (some (negative m)) n h = cc
parse_payload_sound (some (real t)) n h = cc
parse_payload_sound (some (text t)) n h = cc
parse_payload_sound (some (arr vs)) n h = cc

-- A task's body gives an id exactly if it decodes to an object whose only fields are `version`, which
-- is the integer 1, and `suggestion_id`, which is that id and positive.
pub parse_task_body_iff :
    (loads : Bytes → Option Json) (raw : Bytes) (suggestion_id : ℕ)
    → (parse_task_body loads raw ≡ answered suggestion_id) ↔ IsTask (loads raw) suggestion_id
unfolding parse_task_body parse_payload
parse_task_body_iff loads raw suggestion_id = (
  parse_payload_sound (loads raw) suggestion_id,
  λ task. rw task.is_payload (
      parse_fields_complete task.fields suggestion_id task.only task.version task.id
        task.id_positive),
)
