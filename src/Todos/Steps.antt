-- ===== src/Todos/Steps.antt =====
-- The operations of apps/api/app/todo_repository.py as steps on the todos, and what they keep.
use expo_fastapi_todo.Prelude.{
  ℕ, ◌≡◌, ◌≢◌, refl, ap, ◌∙◌, Bool, true, false, not, Option, List, [], ◌∷◌, ◌++◌, Text, select,
  update_where, All, All-append, All-update_where, arith, Bool-cases, Option-cases, inl, inr, ◌==◌,
}
use expo_fastapi_todo.Result.{ok}
use expo_fastapi_todo.Database.Rows.{TodoRow, is_completed}
use expo_fastapi_todo.Database.Transaction.{Database}
use expo_fastapi_todo.Todos.{
  is_todo, list_todos, create_todo, set_completed, set_title, delete_todo, with_completed,
  with_title, new_todo,
}
use expo_fastapi_todo.Workflow.Domain.{Uuid}

-- a call of one owner that commits
pub data TodoStep (owner_id : ℕ) (db db' : Database) : Type 0 where
  creates :
      (public_id : Uuid) (title : Text) (row : TodoRow)
      → create_todo public_id title owner_id db ≡ ok (row, db')
      → TodoStep owner_id db db'
  completes :
      (now : ℕ) (public_id : Uuid) (flag : Bool) (row : Option TodoRow)
      → set_completed now public_id flag owner_id db ≡ ok (row, db')
      → TodoStep owner_id db db'
  titles :
      (public_id : Uuid) (title : Text) (row : Option TodoRow)
      → set_title public_id title owner_id db ≡ ok (row, db')
      → TodoStep owner_id db db'
  deletes :
      (public_id : Uuid) (found : Bool)
      → delete_todo public_id owner_id db ≡ ok (found, db')
      → TodoStep owner_id db db'

-- A todo has a time of completion if it is completed, and only then.
abbrev pub IsCoherent : TodoRow → Type 0
IsCoherent row = is_completed row ≡ row.completed

abbrev pub TodosCoherent : Database → Type 0
TodosCoherent db = All IsCoherent db.todos.rows

All-select :
    (test : TodoRow → Bool) (xs : List TodoRow)
    → All IsCoherent xs
    → All IsCoherent (select test xs)
All-select test [] h = tt
All-select test (x ∷ xs) h = ground (arith, All-select test xs h.1)

-- the four effects on the rows
create_todo_rows :
    (public_id : Uuid) (title : Text) (owner_id : ℕ) (db : Database) {row : TodoRow}
    {db' : Database}
    → create_todo public_id title owner_id db ≡ ok (row, db')
    → db'.todos.rows ≡ db.todos.rows ++ new_todo public_id title owner_id db ∷ []
unfolding create_todo
create_todo_rows public_id title owner_id db h = ground arith

set_completed_rows :
    (now : ℕ) (public_id : Uuid) (flag : Bool) (owner_id : ℕ) (db : Database) {row : Option TodoRow}
    {db' : Database}
    → set_completed now public_id flag owner_id db ≡ ok (row, db')
    → db'.todos.rows
      ≡ update_where (is_todo public_id owner_id) (with_completed now flag) db.todos.rows
unfolding set_completed
set_completed_rows now public_id flag owner_id db h = ground arith

set_title_rows :
    (public_id : Uuid) (title : Text) (owner_id : ℕ) (db : Database) {row : Option TodoRow}
    {db' : Database}
    → set_title public_id title owner_id db ≡ ok (row, db')
    → db'.todos.rows ≡ update_where (is_todo public_id owner_id) (with_title title) db.todos.rows
unfolding set_title
set_title_rows public_id title owner_id db h = ground arith

delete_todo_rows :
    (public_id : Uuid) (owner_id : ℕ) (db : Database) {found : Bool} {db' : Database}
    → delete_todo public_id owner_id db ≡ ok (found, db')
    → db'.todos.rows ≡ select (λ row. not (is_todo public_id owner_id row)) db.todos.rows
unfolding delete_todo
delete_todo_rows public_id owner_id db h = ground arith

with_completed-IsCoherent :
    (now : ℕ) (flag : Bool) (row : TodoRow) → IsCoherent (with_completed now flag row)
with_completed-IsCoherent now true row = elim (Option-cases row.completed_at) [
  | inl never ↦ rw never refl
  | inr (at, done) ↦ rw done refl
]
with_completed-IsCoherent now false row = refl

-- If every todo has a time of completion exactly if it is completed, then so it is after any operation
-- that commits.
pub step-TodosCoherent :
    {owner_id : ℕ} {db db' : Database}
    → TodoStep owner_id db db'
    → TodosCoherent db
    → TodosCoherent db'
step-TodosCoherent {owner_id} {db} (creates public_id title row h) v =
    rw (create_todo_rows public_id title owner_id db h)
      (All-append IsCoherent db.todos.rows (new_todo public_id title owner_id db ∷ []) v (refl, tt))
step-TodosCoherent {owner_id} {db} (completes now public_id flag row h) v =
    rw (set_completed_rows now public_id flag owner_id db h) (
      All-update_where IsCoherent (is_todo public_id owner_id) (with_completed now flag)
        db.todos.rows v (λ x c t. with_completed-IsCoherent now flag x))
step-TodosCoherent {owner_id} {db} (titles public_id title row h) v =
    rw (set_title_rows public_id title owner_id db h) (
      All-update_where IsCoherent (is_todo public_id owner_id) (with_title title) db.todos.rows v
        (λ x c t. c))
step-TodosCoherent {owner_id} {db} (deletes public_id found h) v =
    rw (delete_todo_rows public_id owner_id db h)
      (All-select (λ row. not (is_todo public_id owner_id row)) db.todos.rows v)

module _ (test hit : TodoRow → Bool) (foreign : (x : TodoRow) → hit x ≡ true → test x ≡ false) where
  select-update_where :
      (change : TodoRow → TodoRow) (xs : List TodoRow)
      → ((x : TodoRow) → test (change x) ≡ test x)
      → select test (update_where hit change xs) ≡ select test xs
  select-update_where change [] same = refl
  select-update_where change (x ∷ xs) same = elim (Bool-cases (hit x)) [
    | inl mine ↦ rw mine (rw (same x) (rw (foreign x mine) (select-update_where change xs same)))
    | inr miss ↦ rw miss (rw (select-update_where change xs same) refl)
  ]

  select-select : (xs : List TodoRow) → select test (select (λ x. not (hit x)) xs) ≡ select test xs
  select-select [] = refl
  select-select (x ∷ xs) = ground (arith, foreign x, select-select xs)

select-append_one :
    (test : TodoRow → Bool) (xs : List TodoRow) (y : TodoRow)
    → test y ≡ false
    → select test (xs ++ y ∷ []) ≡ select test xs
select-append_one test [] y foreign = rw foreign refl
select-append_one test (x ∷ xs) y foreign = rw (select-append_one test xs y foreign) refl

owned_by_other :
    {owner_id : ℕ} {db db' : Database} (other : ℕ)
    → TodoStep owner_id db db'
    → other ≢ owner_id
    → select (λ row. row.owner_id == other) db'.todos.rows
      ≡ select (λ row. row.owner_id == other) db.todos.rows
owned_by_other {owner_id} {db} other (creates public_id title row h) ne =
    rw (create_todo_rows public_id title owner_id db h) (
      select-append_one (λ row. row.owner_id == other) db.todos.rows
        (new_todo public_id title owner_id db) (ground arith))
owned_by_other {owner_id} {db} other (completes now public_id flag row h) ne =
    rw (set_completed_rows now public_id flag owner_id db h) (
      select-update_where (λ row. row.owner_id == other) (is_todo public_id owner_id)
        (λ x t. ground arith) (with_completed now flag) db.todos.rows (λ x. refl))
owned_by_other {owner_id} {db} other (titles public_id title row h) ne =
    rw (set_title_rows public_id title owner_id db h) (
      select-update_where (λ row. row.owner_id == other) (is_todo public_id owner_id)
        (λ x t. ground arith) (with_title title) db.todos.rows (λ x. refl))
owned_by_other {owner_id} {db} other (deletes public_id found h) ne =
    rw (delete_todo_rows public_id owner_id db h) (
      select-select (λ row. row.owner_id == other) (is_todo public_id owner_id)
        (λ x t. ground arith) db.todos.rows)

-- No operation of one owner changes what another owner lists.
pub step_isolated :
    {owner_id : ℕ} {db db' : Database} (other : ℕ) (rows : List TodoRow)
    → TodoStep owner_id db db'
    → other ≢ owner_id
    → list_todos other db ≡ ok (rows, db)
    → list_todos other db' ≡ ok (rows, db')
unfolding list_todos
step_isolated {owner_id} {db} {db'} other rows step ne listed =
    ap (λ r. ok (r, db')) (owned_by_other other step ne ∙ cc listed)
