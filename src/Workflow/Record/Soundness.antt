-- ===== src/Workflow/Record/Soundness.antt =====
-- The decoder accepts only snapshots that the program could have produced.
use expo_fastapi_todo.Prelude.{
  ℕ, ◌≡◌, ◌≤◌, Bool, true, false, Option, none, some, List, [], ◌∷◌, map, Text, All, arith, inr,
  sym, subst, codes, text_eq_sound, texts_eq_sound, is_empty, not,
}
use expo_fastapi_todo.Result.{
  ok, invalid_stored_snapshot, or_raise, raise_if, >>=-eq-ok, or_raise-eq-ok, ok-injective,
  raise_if-not-eq-ok,
}
use expo_fastapi_todo.Title.{canonicalize_title}
use expo_fastapi_todo.Title.Canonical.{Title, canonicalize_title_sound}
use expo_fastapi_todo.Json.{
  Json, null, boolean, num, text, arr, obj, Items, nil, cons, list, keys, same_keys,
}
use expo_fastapi_todo.Platform.{Platform}
use expo_fastapi_todo.Workflow.Domain.{
  WorkflowState, assess_task, offer_breakdown, collect_tasks, review, completed, cancelled,
  CreatedTodo, WorkflowSnapshot, max_workflow_revision,
}
use expo_fastapi_todo.Workflow.Domain.Validity.{Context, Reviewed}
use expo_fastapi_todo.Workflow.Record.{
  read_revision, read_version, require_canonical_title, read_titles, read_proposals, context_ok,
  reviewed_ok, cancelled_ok, read_todo, read_todos, read_created_todos, read_created,
  read_completed, read_id, read_state, read_flag, value, todo_keys, snapshot_record_keys,
  read_fields, snapshot_from_record,
}
use expo_fastapi_todo.Workflow.Record.Valid.{Created, IsValid}

read_revision-le : (v : Json) {n : ℕ} → read_revision v ≡ ok n → n ≤ max_workflow_revision
unfolding read_revision
read_revision-le (num n) h = ground arith
read_revision-le _ h = cc

read_version-le : (v : Json) {n : ℕ} → read_version v ≡ ok n → 1 ≤ n
unfolding read_version
read_version-le (num n) h = ground arith
read_version-le _ h = cc

require_canonical_title-Title : (v : Json) {t : Text} → require_canonical_title v ≡ ok t → Title t
unfolding require_canonical_title
require_canonical_title-Title (text s) {t} h =
    let (canonical, e, rest) =
      >>=-eq-ok (or_raise (canonicalize_title s) invalid_stored_snapshot) _ h in
    ground (
      arith,
      text_eq_sound s canonical,
      canonicalize_title_sound s {s = canonical}
          (or_raise-eq-ok (canonicalize_title s) invalid_stored_snapshot e),
    )
require_canonical_title-Title _ h = cc

read_titles-Title : (vs : Items) {ts : List Text} → read_titles vs ≡ ok ts → All Title ts
unfolding read_titles
read_titles-Title nil h = ground arith
read_titles-Title (cons v vs) h =
    let (t, et, rest) = >>=-eq-ok (require_canonical_title v) _ h in
    let (ts, ets, done) = >>=-eq-ok (read_titles vs) _ rest in
    ground (arith, require_canonical_title-Title v {t = t} et, read_titles-Title vs {ts = ts} ets)

read_proposals-Title : (v : Json) {ts : List Text} → read_proposals v ≡ ok ts → All Title ts
unfolding read_proposals
read_proposals-Title (arr vs) h = read_titles-Title vs h
read_proposals-Title _ h = cc

Reviewed-sound :
    (f : Option Bool) (t : Text) (ps : List Text)
    → All Title ps
    → reviewed_ok f t ps ≡ true
    → Reviewed f t ps
Reviewed-sound none t ps a h = cc
Reviewed-sound (some false) t [] a h = ground arith
Reviewed-sound (some true) t [] a h = ground arith
Reviewed-sound (some false) t (only ∷ []) a h = ground (arith, text_eq_sound only t)
Reviewed-sound (some true) t (only ∷ []) a h = ground (arith, text_eq_sound only t)
Reviewed-sound (some false) t (one ∷ two ∷ more) a h = ground arith
Reviewed-sound (some true) t (one ∷ two ∷ more) a h = ground arith

cancelled_sound :
    (f : Option Bool) (t : Text) (ps : List Text)
    → All Title ps
    → cancelled_ok f t ps ≡ true
    → Context cancelled f t ps
cancelled_sound none t [] a h = ground arith
cancelled_sound none t (p ∷ ps) a h = cc
cancelled_sound (some false) t ps a h = inr (inr (Reviewed-sound (some false) t ps a h))
cancelled_sound (some true) t [] a h = ground arith
cancelled_sound (some true) t (only ∷ []) a h = ground (arith, text_eq_sound only t)
cancelled_sound (some true) t (one ∷ two ∷ more) a h = ground arith

Context-sound :
    (s : WorkflowState) (f : Option Bool) (t : Text) (ps : List Text)
    → All Title ps
    → context_ok s f t ps ≡ true
    → Context s f t ps
unfolding context_ok
Context-sound assess_task none t [] a h = ground arith
Context-sound assess_task _ t ps a h = cc
Context-sound offer_breakdown (some true) t [] a h = ground arith
Context-sound offer_breakdown _ t ps a h = cc
Context-sound collect_tasks (some true) t [] a h = ground arith
Context-sound collect_tasks _ t ps a h = cc
Context-sound review f t ps a h = Reviewed-sound f t ps a h
Context-sound completed f t ps a h = Reviewed-sound f t ps a h
Context-sound cancelled f t ps a h = cancelled_sound f t ps a h

read_completed-false : (v : Json) {b : Bool} → read_completed v ≡ ok b → b ≡ false
unfolding read_completed
read_completed-false (boolean true) h = cc
read_completed-false (boolean false) h = ground arith
read_completed-false _ h = cc

read_todo-undone :
    (p : Platform) (v : Json) {t : CreatedTodo} → read_todo p v ≡ ok t → t.completed ≡ false
unfolding read_todo
read_todo-undone p (obj fields) {t} h =
    let (_, _, h1) =
      >>=-eq-ok (raise_if (not (same_keys (keys fields) todo_keys)) invalid_stored_snapshot) _ h in
    let (_, _, h2) = >>=-eq-ok (read_id p (value (codes "id") fields)) _ h1 in
    let (_, _, h3) = >>=-eq-ok (require_canonical_title (value (codes "title") fields)) _ h2 in
    let (done, e, h4) = >>=-eq-ok (read_completed (value (codes "completed") fields)) _ h3 in
    ground (arith, read_completed-false (value (codes "completed") fields) {b = done} e)
read_todo-undone p _ h = cc

read_todos-undone :
    (p : Platform) (vs : Items) {ts : List CreatedTodo}
    → read_todos p vs ≡ ok ts
    → All (λ t. t.completed ≡ false) ts
unfolding read_todos
read_todos-undone p nil h = ground arith
read_todos-undone p (cons v vs) h =
    let (t, et, rest) = >>=-eq-ok (read_todo p v) _ h in
    let (ts, ets, done) = >>=-eq-ok (read_todos p vs) _ rest in
    ground (arith, read_todo-undone p v {t = t} et, read_todos-undone p vs {ts = ts} ets)

read_created_todos-Created :
    (p : Platform) (ps : List Text) (v : Json) {ts : List CreatedTodo}
    → read_created_todos p ps v ≡ ok ts
    → (map (λ t. t.title) ts ≡ ps) × All (λ t. t.completed ≡ false) ts
unfolding read_created_todos
read_created_todos-Created p ps (arr vs) {ts} h =
    let (_, _, h1) = >>=-eq-ok (raise_if (is_empty (list vs)) invalid_stored_snapshot) _ h in
    let (todos, e, h2) = >>=-eq-ok (read_todos p vs) _ h1 in
    ground
      (arith, read_todos-undone p vs {ts = todos} e, texts_eq_sound (map (λ t. t.title) todos) ps)
read_created_todos-Created p ps _ h = cc

read_created-Created :
    (p : Platform) (s : WorkflowState) (ps : List Text) (v : Json) {c : Option (List CreatedTodo)}
    → read_created p s ps v ≡ ok c
    → Created s c ps
unfolding read_created
read_created-Created p completed ps v {c} h =
    let (todos, e, done) = >>=-eq-ok (read_created_todos p ps v) _ h in
    let (titles, undone) = read_created_todos-Created p ps v e in
    (todos, sym (ok-injective done), titles, undone)
read_created-Created p _ ps null h = sym (ok-injective h)
read_created-Created p _ ps _ h = cc

-- Whatever the record, a snapshot that is read from it is valid.
pub snapshot_from_record-IsValid :
    (p : Platform) (record_ : Json) {s : WorkflowSnapshot}
    → snapshot_from_record p record_ ≡ ok s
    → IsValid s
unfolding snapshot_from_record read_fields
snapshot_from_record-IsValid p (obj fields) {s} h =
    let (_, _, h0) =
      >>=-eq-ok
        (raise_if (not (same_keys (keys fields) snapshot_record_keys)) invalid_stored_snapshot) _
        h in
    let (_, _, h1) = >>=-eq-ok (read_id p (value (codes "workflow_id") fields)) _ h0 in
    let (revision, er, h2) = >>=-eq-ok (read_revision (value (codes "revision") fields)) _ h1 in
    let (version, ev, h3) =
      >>=-eq-ok (read_version (value (codes "definition_version") fields)) _ h2 in
    let (state, es, h4) = >>=-eq-ok (read_state p (value (codes "state") fields)) _ h3 in
    let (title, et, h5) = >>=-eq-ok (require_canonical_title (value (codes "title") fields)) _ h4 in
    let (flag, ef, h6) =
      >>=-eq-ok (read_flag (value (codes "involves_multiple_steps") fields)) _ h5 in
    let (ps, eps, h7) =
      >>=-eq-ok (read_proposals (value (codes "proposed_todo_titles") fields)) _ h6 in
    let (_, eg, h8) =
      >>=-eq-ok (raise_if (not (context_ok state flag title ps)) invalid_stored_snapshot) _ h7 in
    let (created, ec, h9) =
      >>=-eq-ok (read_created p state ps (value (codes "created_todos") fields)) _ h8 in
    let proposals = read_proposals-Title _ eps in
    subst IsValid (ok-injective h9) (record {
      title = require_canonical_title-Title _ et;
      proposals = proposals;
      context =
          Context-sound state flag title ps proposals
            (raise_if-not-eq-ok (context_ok state flag title ps) invalid_stored_snapshot eg);
      created = read_created-Created p state ps _ ec;
      revision = read_revision-le _ er;
      version = read_version-le _ ev;
    })
snapshot_from_record-IsValid p _ h = cc
