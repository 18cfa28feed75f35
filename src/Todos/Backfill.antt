-- ===== src/Todos/Backfill.antt =====
-- apps/api/app/backfill_completed_at.py: stamping completed todos that have no time of completion, and
-- clearing the times of open ones, in batches. `locked` says which rows another transaction holds:
-- `SKIP LOCKED` passes over them. The loop runs on fuel.
pub mod Ends
use expo_fastapi_todo.Prelude.{
  ℕ, zero, suc, ◌+◌, Bool, true, false, not, ◌&&◌, Option, none, some, List, [], ◌∷◌, length, take,
  select, ◌==◌, is_none,
}
use expo_fastapi_todo.Database.Rows.{TodoRow}

-- `completed AND completed_at IS NULL`, of a row that is not locked
abbrev pub unstamped : (ℕ → Bool) → TodoRow → Bool
unstamped locked row = not (locked row.id) && row.completed && is_none row.completed_at

-- `NOT completed AND completed_at IS NOT NULL`, of a row that is not locked
abbrev pub overstamped : (ℕ → Bool) → TodoRow → Bool
overstamped locked row = not (locked row.id) && not row.completed && not (is_none row.completed_at)

abbrev pub stamped : ℕ → TodoRow → TodoRow
stamped now row = record row { completed_at = some now }

abbrev pub cleared : TodoRow → TodoRow
cleared row = record row { completed_at = none }

-- the rows after `UPDATE` of the first rows that pass the test, and `rowcount`
unfoldable pub update_first :
    ℕ → (TodoRow → Bool) → (TodoRow → TodoRow) → List TodoRow → List TodoRow
update_first n test change [] = []
update_first zero test change (x ∷ xs) = x ∷ xs
update_first (suc n) test change (x ∷ xs) = elim (test x) [
  | true ↦ change x ∷ update_first n test change xs
  | false ↦ x ∷ update_first (suc n) test change xs
]

abbrev pub rowcount : ℕ → (TodoRow → Bool) → List TodoRow → ℕ
rowcount n test rows = length (take n (select test rows))

-- the two statements of an iteration
abbrev pub after_stamp : (ℕ → Bool) → ℕ → ℕ → List TodoRow → List TodoRow
after_stamp locked batch_size now rows =
    update_first batch_size (unstamped locked) (stamped now) rows

abbrev pub after_clear : (ℕ → Bool) → ℕ → List TodoRow → List TodoRow
after_clear locked batch_size rows = update_first batch_size (overstamped locked) cleared rows

-- the sum of their `rowcount`s
abbrev pub updated_rows : (ℕ → Bool) → ℕ → ℕ → List TodoRow → ℕ
updated_rows locked batch_size now rows =
    rowcount batch_size (unstamped locked) rows
    + rowcount batch_size (overstamped locked) (after_stamp locked batch_size now rows)

-- The loop of `backfill`: `none` is out of fuel. `now fuel` is the time of the iteration.
unfoldable pub backfill :
    ℕ → (ℕ → Bool) → ℕ → (ℕ → ℕ) → ℕ → List TodoRow → Option (List TodoRow × ℕ)
backfill zero locked batch_size now total rows = none
backfill (suc fuel) locked batch_size now total rows =
    let updated = updated_rows locked batch_size (now fuel) rows in
    let after = after_clear locked batch_size (after_stamp locked batch_size (now fuel) rows) in
    elim (updated == 0) [
      | true ↦ some (after, total)
      | false ↦ backfill fuel locked batch_size now (total + updated) after
    ]
