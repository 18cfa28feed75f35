-- ===== src/Worker/Body/Bounded.antt =====
-- `read_bounded_body` of apps/api/app/worker.py, against reading the whole stream first.
use expo_fastapi_todo.Prelude.{
  ◌≡◌, refl, sym, ap, ◌∙◌, ◌++◌, true, false, List, [], ◌∷◌, length, leb, ltb, codes, if◌then◌else◌,
  Bool-cases, inl, inr, arith, length-append,
}
use expo_fastapi_todo.Http.{Answer, answered, refuse}
use expo_fastapi_todo.Worker.Body.{Bytes, max_task_body_bytes, read_chunks, read_bounded_body}

-- the whole stream
abbrev pub joined : List Bytes → Bytes
joined [] = []
joined (chunk ∷ chunks) = chunk ++ joined chunks

-- reading all of it, and then testing its length
abbrev pub read_then_test : Bytes → Answer Bytes
read_then_test bytes =
    if leb (length bytes) max_task_body_bytes
    then answered bytes
    else refuse 413 (codes "Task body is too large.")

append_nil : (xs : Bytes) → xs ++ [] ≡ xs
append_nil [] = refl
append_nil (x ∷ xs) = ap (λ ys. x ∷ ys) (append_nil xs)

append_assoc : (xs ys zs : Bytes) → (xs ++ ys) ++ zs ≡ xs ++ (ys ++ zs)
append_assoc [] ys zs = refl
append_assoc (x ∷ xs) ys zs = ap (λ r. x ∷ r) (append_assoc xs ys zs)

too_long :
    (xs ys : Bytes)
    → ltb max_task_body_bytes (length xs) ≡ true
    → leb (length (xs ++ ys)) max_task_body_bytes ≡ false
too_long xs ys h = ground (arith, length-append xs ys)

read_chunks_lem :
    (bytes : Bytes) (chunks : List Bytes)
    → leb (length bytes) max_task_body_bytes ≡ true
    → read_chunks bytes chunks ≡ read_then_test (bytes ++ joined chunks)
unfolding read_chunks
read_chunks_lem bytes [] fits = rw (append_nil bytes) (rw fits refl)
read_chunks_lem bytes (chunk ∷ chunks) fits =
    elim (Bool-cases (ltb max_task_body_bytes (length (bytes ++ chunk)))) [
      | inl over ↦ rw over (
          rw (sym (append_assoc bytes chunk (joined chunks)))
            (rw (too_long (bytes ++ chunk) (joined chunks) over) refl))
      | inr under ↦ rw under (
          read_chunks_lem (bytes ++ chunk) chunks (ground arith)
          ∙ ap read_then_test (append_assoc bytes chunk (joined chunks)))
    ]

-- Reading a body chunk by chunk, with the limit tested after each, answers what reading the whole
-- stream and testing its length once would: the body if it has at most 1024 bytes, and status 413
-- otherwise, however the stream is cut.
pub read_bounded_body_lem :
    (chunks : List Bytes) → read_bounded_body chunks ≡ read_then_test (joined chunks)
unfolding read_bounded_body
read_bounded_body_lem chunks = read_chunks_lem [] chunks refl
