-- ===== src/Worker/Maintenance.antt =====
-- The sweep of apps/api/app/worker.py, `expire`: one transaction, then one event for each row that it
-- has expired. The transaction is number 7.
use expo_fastapi_todo.Prelude.{ℕ, Option, none, some, List, [], ◌∷◌, length, codes}
use expo_fastapi_todo.Json.{Json}
use expo_fastapi_todo.Http.{Answer, answered, refused}
use expo_fastapi_todo.Suggestion.Types.{SuggestionErrorCode}
use expo_fastapi_todo.Suggestion.Expire.{ExpiredSuggestion, expire_suggestions_with_context}
use expo_fastapi_todo.Worker.Body.{Bytes, read_bounded_body, parse_empty_body}
use expo_fastapi_todo.Worker.Events.{
  World, emit, suggestion_finished, maintenance_finished, task_rejected, unexpected_fault,
  operational, unexpected, Seams, Called, returned, raised, broken, attempt,
}
use expo_fastapi_todo.Worker.Delivery.{worker_unavailable}

-- the event of each expired row
unfoldable pub emit_expired : List ExpiredSuggestion → World → World
emit_expired [] w = w
emit_expired (item ∷ items) w = emit_expired items (
    emit
      (suggestion_finished item.suggestion_id (codes "failed") (some SuggestionErrorCode.timeout)
        none)
      w)

unfoldable pub on_swept : Called (List ExpiredSuggestion) × World → Answer ℕ × World
on_swept (returned rows, w) = (
  answered (length rows),
  emit (maintenance_finished (codes "success") (length rows)) (emit_expired rows w),
)
on_swept (broken operational, w) =
    (refused worker_unavailable, emit (maintenance_finished (codes "unavailable") 0) w)
on_swept (broken unexpected, w) = (
  refused worker_unavailable,
  emit (unexpected_fault (codes "expire_failed"))
      (emit (maintenance_finished (codes "failed") 0) w),
)
on_swept (raised e, w) = (
  refused worker_unavailable,
  emit (unexpected_fault (codes "expire_failed"))
      (emit (maintenance_finished (codes "failed") 0) w),
)

-- a body that is no JSON is refused without a log line
abbrev pub log_malformed : Option Json → World → World
log_malformed none w = w
log_malformed (some payload) w = emit (task_rejected (codes "malformed")) w

-- `expire`, once the application has its session factory; the answer is the count
unfoldable pub expire : Seams → (Bytes → Option Json) → List Bytes → World → Answer ℕ × World
expire s loads chunks w = elim (read_bounded_body chunks) [
  | refused e ↦ (refused e, emit (task_rejected (codes "oversized")) w)
  | answered raw ↦
      elim (parse_empty_body loads (codes "Expiry body must be JSON.")
        (codes "Expiry body must be an empty object.") raw) [
          | refused e ↦ (refused e, log_malformed (loads raw) w)
          | answered _ ↦
              on_swept (attempt s 7 (expire_suggestions_with_context s.locked (s.now 7) s.draw) w)
        ]
]
