-- ===== src/Todos/Backfill/Ends.antt =====
-- The loop of apps/api/app/backfill_completed_at.py ends.
use expo_fastapi_todo.Prelude.{
  ℕ, zero, suc, ◌+◌, ◌<◌, ◌≡◌, refl, ap, ◌∙◌, Bool, true, false, Option, some, List, [], ◌∷◌,
  length, take, select, ◌==◌, arith, Bool-cases, inl, inr,
}
use expo_fastapi_todo.Database.Rows.{TodoRow}
use expo_fastapi_todo.Todos.Backfill.{
  unstamped, overstamped, stamped, cleared, update_first, rowcount, after_stamp, after_clear,
  updated_rows, backfill,
}

abbrev pub count : (TodoRow → Bool) → List TodoRow → ℕ
count test rows = length (select test rows)

module _ (test : TodoRow → Bool) (change : TodoRow → TodoRow) where
  -- an update that ends the test counts its rows down
  count-update_first :
      ((x : TodoRow) → test (change x) ≡ false)
      → (n : ℕ) (rows : List TodoRow)
      → count test (update_first n test change rows) + rowcount n test rows ≡ count test rows
  unfolding update_first
  count-update_first ends zero [] = refl
  count-update_first ends (suc n) [] = refl
  count-update_first ends zero (x ∷ xs) = omega arith
  count-update_first ends (suc n) (x ∷ xs) = elim (Bool-cases (test x)) [
    | inl hit ↦ rw (hit, update_first) (rw (ends x) (omega (arith, count-update_first ends n xs)))
    | inr miss ↦ rw (miss, update_first) (rw miss (count-update_first ends (suc n) xs))
  ]

  -- and keeps the count of a test that neither the old nor the new rows pass
  count_other-update_first :
      (other : TodoRow → Bool)
      → ((x : TodoRow) → test x ≡ true → other x ≡ false)
      → ((x : TodoRow) → test x ≡ true → other (change x) ≡ false)
      → (n : ℕ) (rows : List TodoRow)
      → count other (update_first n test change rows) ≡ count other rows
  unfolding update_first
  count_other-update_first other old new zero [] = refl
  count_other-update_first other old new (suc n) [] = refl
  count_other-update_first other old new zero (x ∷ xs) = refl
  count_other-update_first other old new (suc n) (x ∷ xs) = elim (Bool-cases (test x)) [
    | inl hit ↦
        rw (hit, update_first)
          (rw (old x hit) (rw (new x hit) (count_other-update_first other old new n xs)))
    | inr miss ↦
        rw (miss, update_first) (ground (arith, count_other-update_first other old new (suc n) xs))
  ]

rowcount_zero :
    (n : ℕ) (test : TodoRow → Bool) (rows : List TodoRow)
    → rowcount (suc n) test rows ≡ 0
    → count test rows ≡ 0
rowcount_zero n test rows h = go (select test rows) h
  where
    go : (xs : List TodoRow) → length (take (suc n) xs) ≡ 0 → length xs ≡ 0
    go [] e = refl
    go (x ∷ xs) e = ground (arith, e)

-- the rows that the backfill has to write
abbrev pub open_rows : (ℕ → Bool) → List TodoRow → ℕ
open_rows locked rows = count (unstamped locked) rows + count (overstamped locked) rows

module _ (locked : ℕ → Bool) (batch_size : ℕ) where
  stamp_lem :
      (now : ℕ) (rows : List TodoRow)
      → count (overstamped locked) (after_stamp locked batch_size now rows)
        ≡ count (overstamped locked) rows
  stamp_lem now rows =
      count_other-update_first (unstamped locked) (stamped now) (overstamped locked)
        (λ x h. ground arith) (λ x h. ground arith) batch_size rows

  iteration_lem :
      (now : ℕ) (rows : List TodoRow)
      → open_rows locked (after_clear locked batch_size (after_stamp locked batch_size now rows))
          + updated_rows locked batch_size now rows
        ≡ open_rows locked rows
  iteration_lem now rows =
      let rows1 = after_stamp locked batch_size now rows in
      omega (
        arith,
        count-update_first (unstamped locked) (stamped now) (λ x. ground arith) batch_size rows,
        stamp_lem now rows,
        count-update_first (overstamped locked) cleared (λ x. ground arith) batch_size rows1,
        count_other-update_first (overstamped locked) cleared (unstamped locked)
            (λ x h. ground arith) (λ x h. ground arith) batch_size rows1,
      )

-- What the loop returns: no row is left to write, and the total is the number that there were.
abbrev pub IsDone : (ℕ → Bool) → List TodoRow → ℕ → Option (List TodoRow × ℕ) → Type 0
IsDone locked rows total result =
    (rows' : List TodoRow) × (result ≡ some (rows', total + open_rows locked rows))
    × (open_rows locked rows' ≡ 0)

-- With a batch size of at least 1, fixed locks and no other writer, the loop ends after at most one
-- iteration more than there are rows to write: it returns the number of these rows, and none is left.
pub backfill_ends :
    (fuel : ℕ) (locked : ℕ → Bool) (batch_size : ℕ) (now : ℕ → ℕ) (total : ℕ) (rows : List TodoRow)
    → open_rows locked rows < fuel
    → IsDone locked rows total (backfill fuel locked (suc batch_size) now total rows)
unfolding backfill
backfill_ends zero locked batch_size now total rows enough = absurd (omega (arith, enough))
backfill_ends (suc fuel) locked batch_size now total rows enough =
    let size = suc batch_size in
    let updated = updated_rows locked size (now fuel) rows in
    let rows1 = after_stamp locked size (now fuel) rows in
    let rows2 = after_clear locked size rows1 in
    let step = iteration_lem locked size (now fuel) rows in
    elim (Bool-cases (updated == 0)) [
      | inl none_left ↦
          let zero_updated : updated ≡ 0 = ground (arith, none_left) in
          let first =
            rowcount_zero batch_size (unstamped locked) rows (omega (arith, zero_updated)) in
          let second =
            rowcount_zero batch_size (overstamped locked) rows1 (omega (arith, zero_updated)) in
          let none_open : open_rows locked rows ≡ 0 =
            omega (arith, first, second, stamp_lem locked size (now fuel) rows) in
          rw (none_left, backfill)
            (
              rows2,
              ap (λ n. some (rows2, n)) (omega (arith, none_open)),
              omega (arith, step, zero_updated, none_open),
            )
      | inr more ↦
          let (rows', result, none_open) =
            backfill_ends fuel locked batch_size now (total + updated) rows2
              (ground (arith, step, more, enough)) in
          rw (more, backfill)
            (rows', result ∙ ap (λ n. some (rows', n)) (omega (arith, step)), none_open)
    ]
