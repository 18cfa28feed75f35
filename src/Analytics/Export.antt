-- ===== src/Analytics/Export.antt =====
-- apps/api/app/analytics_export.py: sending the outbox of events to a warehouse. The load job and the
-- three transactions may each fail; a failure ends the call, and what was done before it stays.
pub mod Kept
use expo_fastapi_todo.Prelude.{
  ℕ, ◌+◌, ◌*◌, Bool, true, false, not, ◌&&◌, Option, none, some, List, [], ◌∷◌, ◌++◌, any, map,
  select, take, length, update_where, ltb, leb, ◌==◌, Text, codes, is_none, is_empty, if◌then◌else◌,
}
use mathlib.Core.Option
use expo_fastapi_todo.Json.{Json, null, num, text, obj, Fields, field, end}
use expo_fastapi_todo.Platform.{Platform}
use expo_fastapi_todo.Database.Rows.{AnalyticsEventRow, Table}

abbrev pub export_batch_limit : ℕ
export_batch_limit = 5000

-- 30 days in microseconds
abbrev pub prune_after : ℕ
prune_after = 2592000000000

pub record ExportResult : Type 0 where
  pub selected : ℕ
  pub loaded : ℕ
  pub pruned : ℕ

-- The outbox, and the rows that the warehouse holds.
pub record Outbox : Type 0 where
  pub events : List AnalyticsEventRow
  pub warehouse : List Json

-- `str(value) if value else None`, `value`
abbrev pub text_json : Option Text → Json
text_json none = null
text_json (some value) = text value

-- `_as_json`; `isoformat` prints a time
unfoldable pub as_json : Platform → (ℕ → Text) → AnalyticsEventRow → Text → Json
as_json p isoformat row loaded_at = obj (
    field (codes "event_id") (text (p.show_uuid row.event_id)) (
      field (codes "event_name") (text row.event_name) (
        field (codes "user_key") (text (p.show_uuid row.user_key)) (
          field (codes "workflow_key") (text_json (Option.map p.show_uuid row.workflow_key)) (
            field (codes "outcome") (text_json row.outcome) (
              field (codes "occurred_at") (text (isoformat row.occurred_at)) (
                field (codes "schema_version") (num row.schema_version)
                  (field (codes "loaded_at") (text loaded_at) end))))))))

-- What the surroundings do in a call: whether the load job runs and is reported done, and whether the
-- transactions commit. A job may run and be reported as failed.
pub record Failures : Type 0 where
  pub reads : Bool
  pub job_runs : Bool
  pub job_reported : Bool
  pub marks : Bool
  pub prunes : Bool

-- the rows of the batch
unfoldable pub batch : List AnalyticsEventRow → List AnalyticsEventRow
batch events = take export_batch_limit (select (λ row. is_none row.exported_at) events)

abbrev pub in_batch : List AnalyticsEventRow → AnalyticsEventRow → Bool
in_batch rows row = any (λ r. r.id == row.id) rows

-- `UPDATE ... SET exported_at = now() WHERE id IN ...`
unfoldable pub mark_exported :
    ℕ → List AnalyticsEventRow → List AnalyticsEventRow → List AnalyticsEventRow
mark_exported now rows events =
    update_where (in_batch rows) (λ row. record row { exported_at = some now }) events

-- `exported_at < now() - interval`: NULL does not hold, and the difference is written as a sum
abbrev pub is_old : ℕ → AnalyticsEventRow → Bool
is_old now row = elim row.exported_at [ none ↦ false | some at ↦ ltb (at + prune_after) now ]

-- the last transaction
unfoldable pub prune : ℕ → ℕ → ℕ → Outbox → Option ExportResult × Outbox
prune now selected loaded outbox = (
  some (record {
    selected = selected;
    loaded = loaded;
    pruned = length (select (is_old now) outbox.events);
  }),
  record outbox { events = select (λ row. not (is_old now row)) outbox.events },
)

unfoldable pub prune_or_fail : Failures → ℕ → ℕ → ℕ → Outbox → Option ExportResult × Outbox
prune_or_fail failures now selected loaded outbox =
    if failures.prunes then prune now selected loaded outbox else (none, outbox)

-- the load job
unfoldable pub load :
    Platform → (ℕ → Text) → Failures → ℕ → List AnalyticsEventRow → Outbox → Outbox
load p isoformat failures now rows outbox =
    if failures.job_runs
    then record outbox {
      warehouse = outbox.warehouse ++ map (λ row. as_json p isoformat row (isoformat now)) rows;
    }
    else outbox

-- the rows are marked only after the job is reported done
unfoldable pub load_and_mark :
    Platform
    → (ℕ → Text)
    → Failures
    → ℕ
    → List AnalyticsEventRow
    → Outbox
    → Option ExportResult × Outbox
load_and_mark p isoformat failures now rows outbox =
    let sent = load p isoformat failures now rows outbox in
    if not (failures.job_runs && failures.job_reported)
    then (none, sent)
    else if not failures.marks
    then (none, sent)
    else prune_or_fail failures now (length rows) (length rows)
        (record sent { events = mark_exported now rows sent.events })

-- `export_events`; `none` is an exception
unfoldable pub export_events :
    Platform → (ℕ → Text) → Failures → ℕ → Outbox → Option ExportResult × Outbox
export_events p isoformat failures now outbox =
    if not failures.reads
    then (none, outbox)
    else if is_empty (batch outbox.events)
    then prune_or_fail failures now 0 0 outbox
    else load_and_mark p isoformat failures now (batch outbox.events) outbox
