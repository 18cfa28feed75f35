-- ===== src/Workflow/Service/Restart.antt =====
-- A retried start (`start_workflow` of apps/api/app/workflow_service.py).
use expo_fastapi_todo.Prelude.{
  ℕ, ◌≡◌, refl, ap, Bool, true, ◌&&◌, none, some, List, [], ◌∷◌, ◌++◌, Text, find, arith,
  Bool-cases, Option-cases, find-append_some, inl, inr, ◌==◌, text_eq, text_eq_refl, text_eq_sound,
  subst, codes,
}
use expo_fastapi_todo.Result.{
  ok, or_raise, invalid_workflow_input, or_raise-eq-ok, >>=-eq-ok, ok-injective,
}
use expo_fastapi_todo.Title.{canonicalize_title}
use expo_fastapi_todo.Title.Canonical.{canonicalize_title_sound}
use expo_fastapi_todo.Platform.{Platform, IsPlatform}
use expo_fastapi_todo.Database.Rows.{WorkflowRow, WorkflowStartRequestRow}
use expo_fastapi_todo.Database.Transaction.{Database, lift, lift-eq-ok, steps, after}
use expo_fastapi_todo.Analytics.Events.{record_event}
use expo_fastapi_todo.Analytics.Events.Laws.{record_event_lem}
use expo_fastapi_todo.Workflow.Domain.{Uuid, WorkflowSnapshot, create_initial_snapshot}
use expo_fastapi_todo.Workflow.Fingerprint.{start_fingerprint}
use expo_fastapi_todo.Workflow.Record.{snapshot_to_record, snapshot_from_record}
use expo_fastapi_todo.Workflow.Record.Valid.{IsValid}
use expo_fastapi_todo.Workflow.Record.Roundtrip.{record_round_trip}
use expo_fastapi_todo.Workflow.Store.{create_workflow, insert_start_request, find_start_request}
use expo_fastapi_todo.Workflow.Service.{start_workflow, insert_start, replay_start}

abbrev is_start : ℕ → Uuid → WorkflowStartRequestRow → Bool
is_start owner_id request_id r = r.owner_id == owner_id && r.request_id == request_id

find-append_start :
    (test : WorkflowStartRequestRow → Bool) (rows : List WorkflowStartRequestRow)
    (row : WorkflowStartRequestRow)
    → find test rows ≡ none
    → test row ≡ true
    → find test (rows ++ row ∷ []) ≡ some row
find-append_start test [] row e t = ground arith
find-append_start test (x ∷ xs) row e t = ground (arith, find-append_start test xs row)

-- the request that a new start stores
abbrev start_row : Platform → ℕ → Uuid → Text → WorkflowSnapshot → WorkflowStartRequestRow
start_row p owner_id request_id fingerprint snapshot = record {
  owner_id = owner_id;
  request_id = request_id;
  request_fingerprint = fingerprint;
  workflow_id = snapshot.id;
  accepted_snapshot = snapshot_to_record p snapshot;
}

insert_start_request_lem :
    (row : WorkflowStartRequestRow) (db : Database) {u : Unit {0}} {db' : Database}
    → insert_start_request row db ≡ ok (u, db')
    → db'.start_requests ≡ db.start_requests ++ row ∷ []
unfolding insert_start_request
insert_start_request_lem row db h = ground arith

create_workflow_requests :
    (id : Uuid) (owner_id : ℕ) (title : Text) (db : Database) {row : WorkflowRow} {db' : Database}
    → create_workflow id owner_id title db ≡ ok (row, db')
    → db'.start_requests ≡ db.start_requests
unfolding create_workflow
create_workflow_requests id owner_id title db h = ground arith

insert_start_lem :
    (p : Platform) (now : ℕ) (event_id : Uuid) (owner_id : ℕ) (request_id : Uuid)
    (fingerprint : Text) (snapshot : WorkflowSnapshot) (db : Database) {s : WorkflowSnapshot}
    {db' : Database}
    → insert_start p now event_id owner_id request_id fingerprint snapshot db ≡ ok (s, db')
    → (s ≡ snapshot)
      × (db'.start_requests
          ≡ db.start_requests ++ start_row p owner_id request_id fingerprint snapshot ∷ [])
unfolding insert_start
insert_start_lem p now event_id owner_id request_id fingerprint snapshot db h =
    elim (steps (insert_start_request (start_row p owner_id request_id fingerprint snapshot)) _ db
      h) [
        | after _ db1 e h1 ↦
            elim (steps (create_workflow snapshot.id owner_id snapshot.title) _ db1 h1) [
              | after _ db2 f h2 ↦
                  elim (steps
                    (record_event now event_id (codes "workflow_started") owner_id
                      (some snapshot.id) none)
                    _ db2 h2) [
                      | after u db3 g h3 ↦
                          let (user, _, _, only) =
                            record_event_lem now event_id (codes "workflow_started") owner_id
                              (some snapshot.id) none db2 {db' = db3} (ground arith) in
                          (
                            ground arith,
                            ground (
                              arith,
                              only,
                              create_workflow_requests snapshot.id owner_id snapshot.title db1 f,
                              insert_start_request_lem
                                  (start_row p owner_id request_id fingerprint snapshot) db e,
                            ),
                          )
                    ]
            ]
      ]

-- a new workflow is valid, and another draw changes its id only
create_initial_snapshot-IsValid :
    (id : Uuid) (title : Text) {s : WorkflowSnapshot}
    → create_initial_snapshot id title ≡ ok s
    → IsValid s × ((id' : Uuid) → create_initial_snapshot id' title ≡ ok (record s { id = id' }))
unfolding create_initial_snapshot
create_initial_snapshot-IsValid id title {s} h =
    let (canonical, e, rest) =
      >>=-eq-ok (or_raise (canonicalize_title title) invalid_workflow_input) _ h in
    let read = or_raise-eq-ok (canonicalize_title title) invalid_workflow_input e in
    (
      subst IsValid (ok-injective rest) (record {
        title = (canonicalize_title_sound title read).1;
        proposals = tt;
        context = (refl, refl);
        created = refl;
        revision = omega arith;
        version = omega arith;
      }),
      (λ id'.
          rw read (ap (λ (t : WorkflowSnapshot). ok (record t { id = id' })) (ok-injective rest))),
    )

-- A start whose request is stored with the same fingerprint reads its answer and writes nothing.
restarted :
    (p : Platform) (now : ℕ) (draw : ℕ → Uuid) (owner_id : ℕ) (title : Text) (request_id : Uuid)
    (db : Database) {initial s : WorkflowSnapshot} {fingerprint : Text}
    {existing : WorkflowStartRequestRow}
    → create_initial_snapshot (draw 0) title ≡ ok initial
    → start_fingerprint p initial.title ≡ ok fingerprint
    → find_start_request owner_id request_id db ≡ some existing
    → existing.request_fingerprint ≡ fingerprint
    → snapshot_from_record p existing.accepted_snapshot ≡ ok s
    → start_workflow p now draw owner_id title request_id db ≡ ok (s, db)
unfolding start_workflow replay_start
restarted p now draw owner_id title request_id db {initial} {s} {fingerprint} made fp found same
      read =
    rw made (rw fp (rw found (rw same (rw (text_eq_refl fingerprint) (rw read refl)))))

start_stored :
    (owner_id : ℕ) (request_id : Uuid) (row : WorkflowStartRequestRow) (db db' : Database)
    → find_start_request owner_id request_id db ≡ none
    → db'.start_requests ≡ db.start_requests ++ row ∷ []
    → is_start owner_id request_id row ≡ true
    → find_start_request owner_id request_id db' ≡ some row
unfolding find_start_request
start_stored owner_id request_id row db db' free stored fits =
    rw stored (find-append_start (is_start owner_id request_id) db.start_requests row free fits)

replay_start_lem :
    (p : Platform) (fingerprint : Text) (existing : WorkflowStartRequestRow) (db : Database)
    {s : WorkflowSnapshot} {db' : Database}
    → replay_start p fingerprint existing db ≡ ok (s, db')
    → (existing.request_fingerprint ≡ fingerprint)
      × (snapshot_from_record p existing.accepted_snapshot ≡ ok s)
      × (db' ≡ db)
unfolding replay_start
replay_start_lem p fingerprint existing db {s} {db'} h =
    elim (Bool-cases (text_eq existing.request_fingerprint fingerprint)) [
      | inl same ↦
          let (read, kept) =
            lift-eq-ok (snapshot_from_record p existing.accepted_snapshot) db {a = s} {db' = db'}
              (ground arith) in
          (text_eq_sound existing.request_fingerprint fingerprint same, read, kept)
      | inr other ↦ absurd (ground arith)
    ]

start_still_stored :
    (owner_id : ℕ) (request_id : Uuid) (db db' : Database) (more : List WorkflowStartRequestRow)
    {existing : WorkflowStartRequestRow}
    → find_start_request owner_id request_id db ≡ some existing
    → db'.start_requests ≡ db.start_requests ++ more
    → find_start_request owner_id request_id db' ≡ some existing
unfolding find_start_request
start_still_stored owner_id request_id db db' more stored kept =
    rw kept (find-append_some (is_start owner_id request_id) db.start_requests more stored)

-- A start that was accepted can be repeated in every later database, at any time and with any other
-- random draws: it returns the snapshot that it returned before, with the workflow's first id, and
-- writes nothing. In the later database start requests may have been added to the stored ones, and the
-- rest, the workflow's own row included, is arbitrary.
pub start_again :
    {p : Platform} (laws : IsPlatform p) (now later : ℕ) (draw draw' : ℕ → Uuid) (owner_id : ℕ)
    (title : Text) (request_id : Uuid) (db db' db'' : Database)
    (more : List WorkflowStartRequestRow) {s : WorkflowSnapshot}
    → start_workflow p now draw owner_id title request_id db ≡ ok (s, db')
    → db''.start_requests ≡ db'.start_requests ++ more
    → start_workflow p later draw' owner_id title request_id db'' ≡ ok (s, db'')
unfolding start_workflow
start_again {p} laws now later draw draw' owner_id title request_id db db' db'' more {s} h
      later_rows =
    elim (steps (lift (create_initial_snapshot (draw 0) title)) _ db h) [
      | after initial db1 e h1 ↦ elim (steps (lift (start_fingerprint p initial.title)) _ db1 h1) [
        | after fingerprint db2 f h2 ↦
            let (made, kept1) = lift-eq-ok (create_initial_snapshot (draw 0) title) db e in
            let (fp, kept2) = lift-eq-ok (start_fingerprint p initial.title) db1 f in
            let (valid, drawn) = create_initial_snapshot-IsValid (draw 0) title made in
            elim (Option-cases (find_start_request owner_id request_id db2)) [
              | inr (existing, found) ↦
                  let (same, read, kept) =
                    replay_start_lem p fingerprint existing db2 {s = s} {db' = db'}
                      (ground arith) in
                  restarted p later draw' owner_id title request_id db'' {existing = existing}
                    (drawn (draw' 0)) fp
                    (start_still_stored owner_id request_id db' db'' more (rw kept found)
                      later_rows)
                    same read
              | inl free ↦
                  let (first, stored) =
                    insert_start_lem p now (draw 1) owner_id request_id fingerprint initial db2
                      {s = s} {db' = db'} (ground arith) in
                  rw first (
                    restarted p later draw' owner_id title request_id db''
                      {existing = start_row p owner_id request_id fingerprint initial}
                      (drawn (draw' 0)) fp
                      (start_still_stored owner_id request_id db' db'' more
                        (start_stored owner_id request_id
                          (start_row p owner_id request_id fingerprint initial) db2 db' free stored
                          (ground arith))
                        later_rows)
                      refl (record_round_trip laws initial valid))
            ]
      ]
    ]
