-- ===== src/Worker/Trace.antt =====
-- The trace of a delivery in apps/api/app/worker.py: `_incoming_trace_candidate`, `_trace_diagnosis`,
-- `_delivery_span`. A context is given by the text that it was extracted from.
use expo_fastapi_todo.Prelude.{
  ℕ, Bool, false, not, ◌&&◌, Option, none, some, ◌==◌, Text, codes, text_eq, if◌then◌else◌, is_none,
}
use expo_fastapi_todo.Title.{strip_by}
use expo_fastapi_todo.Platform.{Platform}
use expo_fastapi_todo.Suggestion.Trace.{is_space, extract_stored_context}

-- the text, if a context can be extracted from it
unfoldable pub stored_context : Platform → Option Text → Option Text
stored_context p none = none
stored_context p (some raw) =
    if extract_stored_context p raw then some (strip_by is_space raw) else none

-- `_incoming_trace_candidate`: the application's header first, then `traceparent`
unfoldable pub incoming_trace_candidate : Platform → Option Text → Option Text → Option Text
incoming_trace_candidate p app_raw std_raw = elim (stored_context p app_raw) [
  | some text ↦ some text
  | none ↦ stored_context p std_raw
]

-- `app_raw is not None and incoming_raw == app_raw.strip() and std_raw != app_raw.strip()`
abbrev pub is_modified : Option Text → Option Text → Text → Bool
is_modified none std_raw incoming = false
is_modified (some app) none incoming = text_eq incoming (strip_by is_space app)
is_modified (some app) (some std) incoming =
    text_eq incoming (strip_by is_space app) && not (text_eq std (strip_by is_space app))

module _ (trace_id : Text → ℕ) where
  abbrev pub mismatches : Text → Option Text → Bool
  mismatches incoming none = false
  mismatches incoming (some stored) = not (trace_id incoming == trace_id stored)

  -- `_trace_diagnosis`: the headers, the candidate of the two, the stored context
  unfoldable pub trace_diagnosis :
      Option Text → Option Text → Option Text → Option Text → Option Text
  trace_diagnosis app_raw std_raw none none = none
  trace_diagnosis app_raw std_raw none (some stored) =
      if is_none app_raw && is_none std_raw then some (codes "missing") else some (codes "invalid")
  trace_diagnosis app_raw std_raw (some incoming) stored =
      if mismatches incoming stored
      then some (codes "mismatch")
      else if is_modified app_raw std_raw incoming
      then some (codes "modified")
      else none

  -- The span of a delivery: a child of the receiving span, or a span under another context that
  -- links to the receiving span if there is one.
  pub data SpanStart : Type 0 where
    child : SpanStart
    stored_parent header_parent : Text → Option ℕ → SpanStart

  abbrev pub same_trace : Option ℕ → Text → Bool
  same_trace none lineage = false
  same_trace (some receipt) lineage = receipt == trace_id lineage

  -- `_delivery_span`; the receiving span is given by its trace id if it is valid
  unfoldable pub delivery_span : Option Text → Option Text → Option ℕ → SpanStart
  delivery_span none none receipt = child
  delivery_span (some stored) incoming receipt =
      if same_trace receipt stored then child else stored_parent stored receipt
  delivery_span none (some incoming) receipt =
      if same_trace receipt incoming then child else header_parent incoming receipt
