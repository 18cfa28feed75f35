-- ===== src/Analytics/Export/Kept.antt =====
-- No event of the outbox is lost by an export of apps/api/app/analytics_export.py.
use expo_fastapi_todo.Prelude.{
  ℕ, ◌≡◌, ◌⊎◌, inl, inr, refl, sym, subst, Bool, true, false, not, ◌&&◌, Option, none, some, List,
  map, select, length, ◌==◌, Text, is_none, is_empty, if◌then◌else◌, Bool-cases, arith, Has,
  Has-append_left, Has-append_right, Has-map, Has-take, Has-select, select-Has, update_where-Has,
  Has-update_where, any-Has, ==_iff,
}
use expo_fastapi_todo.Json.{Json}
use expo_fastapi_todo.Platform.{Platform}
use expo_fastapi_todo.Database.Rows.{AnalyticsEventRow}
use expo_fastapi_todo.Analytics.Export.{
  Outbox, Failures, ExportResult, export_batch_limit, as_json, batch, in_batch, mark_exported,
  is_old, prune, prune_or_fail, load, load_and_mark, export_events,
}

-- an id names one row, as the primary key has it
abbrev pub IdsUnique : List AnalyticsEventRow → Type 0
IdsUnique events = (a b : AnalyticsEventRow) → Has a events → Has b events → a.id ≡ b.id → a ≡ b

-- The warehouse holds a row of the event, whenever it was loaded.
abbrev pub IsSent : Platform → (ℕ → Text) → AnalyticsEventRow → List Json → Type 0
IsSent p isoformat row warehouse =
    (loaded_at : Text) × Has (as_json p isoformat row loaded_at) warehouse

-- Only rows that the warehouse holds are marked.
abbrev pub IsSound : Platform → (ℕ → Text) → Outbox → Type 0
IsSound p isoformat o =
    (row : AnalyticsEventRow)
    → Has row o.events
    → (is_none row.exported_at ≡ true) ⊎ IsSent p isoformat row o.warehouse

-- From one outbox to the next no event is lost: it is in the warehouse, or still waits.
pub record Keeps (p : Platform) (isoformat : ℕ → Text) (o o' : Outbox) : Type 0 where
  pub kept :
      (row : AnalyticsEventRow)
      → Has row o.events
      → IsSent p isoformat row o'.warehouse ⊎ Has row o'.events
  pub grows : (json : Json) → Has json o.warehouse → Has json o'.warehouse
  pub sound : IsSound p isoformat o'

if-Keeps :
    (p : Platform) (isoformat : ℕ → Text) (o : Outbox) (b : Bool)
    (x y : Option ExportResult × Outbox)
    → (b ≡ true → Keeps p isoformat o x.1)
    → (b ≡ false → Keeps p isoformat o y.1)
    → Keeps p isoformat o (if b then x else y).1
if-Keeps p isoformat o true x y hx hy = hx refl
if-Keeps p isoformat o false x y hx hy = hy refl

module _ (p : Platform) (isoformat : ℕ → Text) where
  Keeps-refl : (o : Outbox) → IsSound p isoformat o → Keeps p isoformat o o
  Keeps-refl o sound = record { kept = λ row h. inr h; grows = λ json h. h; sound = sound }

  Keeps-trans :
      (a b c : Outbox) → Keeps p isoformat a b → Keeps p isoformat b c → Keeps p isoformat a c
  Keeps-trans a b c f g = record {
    kept = λ row h. elim (f.kept row h) [
      | inl (t, sent) ↦ inl (t, g.grows (as_json p isoformat row t) sent)
      | inr here ↦ g.kept row here
    ];
    grows = λ json h. g.grows json (f.grows json h);
    sound = g.sound;
  }

  prune-Keeps :
      (now selected loaded : ℕ) (o : Outbox)
      → IsSound p isoformat o
      → Keeps p isoformat o (prune now selected loaded o).1
  unfolding prune
  prune-Keeps now selected loaded o sound = record {
    kept = λ row h. elim (sound row h) [
      | inl waits ↦ inr (select-Has (λ r. not (is_old now r)) row o.events h (ground arith))
      | inr sent ↦ inl sent
    ];
    grows = λ json h. h;
    sound = λ row h. sound row (Has-select (λ r. not (is_old now r)) row o.events h);
  }

  prune_or_fail-Keeps :
      (failures : Failures) (now selected loaded : ℕ) (o : Outbox)
      → IsSound p isoformat o
      → Keeps p isoformat o (prune_or_fail failures now selected loaded o).1
  unfolding prune_or_fail
  prune_or_fail-Keeps failures now selected loaded o sound =
      if-Keeps p isoformat o failures.prunes (prune now selected loaded o) (none, o)
        (λ _. prune-Keeps now selected loaded o sound) (λ _. Keeps-refl o sound)

  load-Keeps :
      (failures : Failures) (now : ℕ) (rows : List AnalyticsEventRow) (o : Outbox)
      → IsSound p isoformat o
      → Keeps p isoformat o (load p isoformat failures now rows o)
  unfolding load
  load-Keeps failures now rows o sound =
      let sent = map (λ row. as_json p isoformat row (isoformat now)) rows in
      elim (Bool-cases failures.job_runs) [
        | inl runs ↦ rw runs (record {
          kept = λ row h. inr h;
          grows = λ json h. Has-append_left json o.warehouse sent h;
          sound = λ row h. elim (sound row h) [
            | inl waits ↦ inl waits
            | inr (t, there) ↦
                inr (t, Has-append_left (as_json p isoformat row t) o.warehouse sent there)
          ];
        })
        | inr fails ↦ rw fails (Keeps-refl o sound)
      ]

  load_events :
      (failures : Failures) (now : ℕ) (rows : List AnalyticsEventRow) (o : Outbox)
      → (load p isoformat failures now rows o).events ≡ o.events
  unfolding load
  load_events failures now rows o = elim (Bool-cases failures.job_runs) [
    | inl runs ↦ rw runs refl
    | inr fails ↦ rw fails refl
  ]

  -- what a job that ran has sent
  load_sends :
      (failures : Failures) (now : ℕ) (rows : List AnalyticsEventRow) (o : Outbox)
      → failures.job_runs ≡ true
      → (row : AnalyticsEventRow) → Has row rows
      → Has
          (as_json p isoformat row (isoformat now))
          (load p isoformat failures now rows o).warehouse
  unfolding load
  load_sends failures now rows o runs row h = rw runs (
      Has-append_right (as_json p isoformat row (isoformat now)) o.warehouse _
        (Has-map (λ r. as_json p isoformat r (isoformat now)) row rows h))

  -- marking rows that have been sent
  mark-Keeps :
      (now : ℕ) (rows : List AnalyticsEventRow) (o : Outbox)
      → IsSound p isoformat o
      → ((row : AnalyticsEventRow)
          → Has row o.events
          → in_batch rows row ≡ true
          → IsSent p isoformat row o.warehouse)
      → Keeps p isoformat o (record o { events = mark_exported now rows o.events })
  unfolding mark_exported as_json
  mark-Keeps now rows o sound sent =
      let mark = λ (row : AnalyticsEventRow). record row { exported_at = some now } in
      record {
        kept = λ row h. elim (Bool-cases (in_batch rows row)) [
          | inl hit ↦ inl (sent row h hit)
          | inr miss ↦ inr (update_where-Has (in_batch rows) mark row o.events h miss)
        ];
        grows = λ json h. h;
        sound = λ row h. elim (Has-update_where (in_batch rows) mark row o.events h) [
          | inl (old, there, hit, e) ↦
              inr (subst (λ r. IsSent p isoformat r o.warehouse) (sym e) (sent old there hit))
          | inr there ↦ sound row there
        ];
      }

  -- a row of the batch by its id is a row of the batch
  in_batch-Has :
      (o : Outbox) (row : AnalyticsEventRow)
      → IdsUnique o.events
      → Has row o.events
      → in_batch (batch o.events) row ≡ true
      → Has row (batch o.events)
  unfolding batch
  in_batch-Has o row unique here hit =
      let (r, there, same) = any-Has (λ r. r.id == row.id) (batch o.events) hit in
      let waiting = select (λ (x : AnalyticsEventRow). is_none x.exported_at) o.events in
      let stored =
        Has-select (λ x. is_none x.exported_at) r o.events
          (Has-take export_batch_limit r waiting there) in
      subst (λ x. Has x (batch o.events)) (unique r row stored here ((==_iff r.id row.id).0 same))
        there

  load_and_mark-Keeps :
      (failures : Failures) (now : ℕ) (o : Outbox)
      → IdsUnique o.events
      → IsSound p isoformat o
      → Keeps p isoformat o (load_and_mark p isoformat failures now (batch o.events) o).1
  unfolding load_and_mark
  load_and_mark-Keeps failures now o unique sound =
      let rows = batch o.events in
      let sent = load p isoformat failures now rows o in
      let marked = record sent { events = mark_exported now rows sent.events } in
      let pruned = prune_or_fail failures now (length rows) (length rows) marked in
      let loaded = load-Keeps failures now rows o sound in
      let failed = not (failures.job_runs && failures.job_reported) in
      if-Keeps p isoformat o failed (none, sent)
        (if not failures.marks then (none, sent) else pruned) (λ _. loaded)
        (λ done.
          if-Keeps p isoformat o (not failures.marks) (none, sent) pruned (λ _. loaded)
            (λ _.
              let marks = mark-Keeps now rows sent loaded.sound (λ row h hit. (
                isoformat now,
                load_sends failures now rows o (ground (arith, done)) row (
                    in_batch-Has o row unique
                      (subst (λ es. Has row es) (load_events failures now rows o) h) hit),
              )) in
              Keeps-trans o sent pruned.1 loaded (
                Keeps-trans sent marked pruned.1 marks (
                  prune_or_fail-Keeps failures now (length rows) (length rows) marked
                    marks.sound))))

-- When the ids are unique and the warehouse holds every row that is marked, then after an export, with
-- whatever failures, each event of the outbox is in the warehouse or still waits in the outbox, the
-- warehouse has lost nothing, and it holds every row that is marked.
pub export_events-Keeps :
    (p : Platform) (isoformat : ℕ → Text) (failures : Failures) (now : ℕ) (o : Outbox)
    → IdsUnique o.events
    → IsSound p isoformat o
    → Keeps p isoformat o (export_events p isoformat failures now o).1
unfolding export_events
export_events-Keeps p isoformat failures now o unique sound =
    let marked = load_and_mark p isoformat failures now (batch o.events) o in
    let pruned = prune_or_fail failures now 0 0 o in
    if-Keeps p isoformat o (not failures.reads) (none, o)
      (if is_empty (batch o.events) then pruned else marked) (λ _. Keeps-refl p isoformat o sound)
      (λ _.
        if-Keeps p isoformat o (is_empty (batch o.events)) pruned marked
          (λ _. prune_or_fail-Keeps p isoformat failures now 0 0 o sound)
          (λ _. load_and_mark-Keeps p isoformat failures now o unique sound))
