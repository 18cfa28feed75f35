-- ===== src/Prelude/Predicates.antt =====
-- Predicates over lists, by recursion, so that the tactics read them as tuples.
use mathlib.Core.Path.{◌≡◌}
use mathlib.Core.Bool.{Bool, true}
use mathlib.Core.Option.{some}
use mathlib.Core.Logic.{inl, inr}
use mathlib.Core.List.{List, [], ◌∷◌, ◌++◌}
use native.Mathlib.Omega.{arith}
use expo_fastapi_todo.Prelude.Tests.{Bool-cases}
use expo_fastapi_todo.Prelude.Lists.{find, update_where}

abbrev pub All {ℓ κ} : {A : Type ℓ} → (A → Type κ) → List A → Type κ
All P [] = Unit
All P (x ∷ xs) = P x × All P xs

module _ {ℓ κ} {A : Type ℓ} (P : A → Type κ) where
  pub All-append : (xs ys : List A) → All P xs → All P ys → All P (xs ++ ys)
  All-append [] ys hx hy = hy
  All-append (x ∷ xs) ys hx hy = (hx.0, All-append xs ys hx.1 hy)

  -- what a search finds satisfies what all rows satisfy
  pub All-find : (test : A → Bool) (xs : List A) {x : A} → All P xs → find test xs ≡ some x → P x
  All-find test [] h e = cc
  All-find test (y ∷ ys) {x} h e = ground (arith, All-find test ys {x = x} h.1)

  pub All-update_where :
      (test : A → Bool) (change : A → A) (xs : List A)
      → All P xs
      → ((x : A) → P x → test x ≡ true → P (change x))
      → All P (update_where test change xs)
  All-update_where test change [] h keep = tt
  All-update_where test change (x ∷ xs) h keep =
      ground (arith, keep x h.0, All-update_where test change xs h.1 keep)

module _ {ℓ} {A : Type ℓ} where
  -- what a search finds passes the test
  pub find_passes : (test : A → Bool) (xs : List A) {x : A} → find test xs ≡ some x → test x ≡ true
  find_passes test [] e = cc
  find_passes test (y ∷ ys) {x} e = elim (Bool-cases (test y)) [
    | inl hit ↦ ground (arith)
    | inr miss ↦ ground (arith, find_passes test ys {x = x})
  ]
