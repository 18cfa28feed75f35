-- ===== src/Worker/Export.antt =====
-- The remaining routes of apps/api/app/worker.py: `analytics_export` and `ready`. `configured` says whether the
-- application holds a session factory, `loads` and `Failures` are as in the other modules.
use expo_fastapi_todo.Prelude.{ℕ, Bool, not, Option, none, some, List, Text, codes, if◌then◌else◌}
use expo_fastapi_todo.Json.{Json}
use expo_fastapi_todo.Platform.{Platform}
use expo_fastapi_todo.Http.{Answer, answered, refused, refuse}
use expo_fastapi_todo.Analytics.Export.{ExportResult, Outbox, Failures, export_events}
use expo_fastapi_todo.Worker.Body.{Bytes, read_bounded_body, parse_empty_body}
use expo_fastapi_todo.Worker.Delivery.{worker_unavailable}

-- the event that the export logs, with the counts of a successful one; `read_bounded_body` logs
-- `suggestion_task_rejected` of an oversized body
pub data ExportEvent : Type 0 where
  oversized_body : ExportEvent
  export_failed : ExportEvent
  export_success : ℕ → ℕ → ℕ → ExportEvent

-- an answer, the event that is logged, and the tables after it
abbrev pub Exported : Type 0
Exported = Answer ExportResult × Option ExportEvent × Outbox

unfoldable pub on_exported : Option ExportResult × Outbox → Exported
on_exported (none, outbox) =
    (refuse 500 (codes "Analytics export failed."), some export_failed, outbox)
on_exported (some result, outbox) =
    (answered result, some (export_success result.selected result.loaded result.pruned), outbox)

module _ (p : Platform) (isoformat : ℕ → Text) (loads : Bytes → Option Json) where
  unfoldable pub export_body : Bool → Failures → ℕ → Bytes → Outbox → Exported
  export_body configured failures now raw outbox =
      elim (parse_empty_body loads (codes "Export body must be JSON.")
        (codes "Export body must be an empty object.") raw) [
          | refused e ↦ (refused e, none, outbox)
          | answered _ ↦
              if not configured
              then (refused worker_unavailable, none, outbox)
              else on_exported (export_events p isoformat failures now outbox)
        ]

  unfoldable pub analytics_export : Bool → Failures → ℕ → List Bytes → Outbox → Exported
  analytics_export configured failures now chunks outbox = elim (read_bounded_body chunks) [
    | refused e ↦ (refused e, some oversized_body, outbox)
    | answered raw ↦ export_body configured failures now raw outbox
  ]

-- `checks` says whether `SELECT 1` returns in time
unfoldable pub ready : Bool → Bool → Answer Text
ready configured checks =
    if not configured
    then refused worker_unavailable
    else if checks
    then answered (codes "ok")
    else refused worker_unavailable
