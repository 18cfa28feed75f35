-- ===== src/Prelude/Members.antt =====
-- Membership in a list, by recursion, and the list operations that keep it.
use Prim.Native.Nat.{ℕ, zero, suc}
use mathlib.Core.Path.{◌≡◌, refl, sym, ap, ◌∙◌, subst}
use mathlib.Core.Bool.{Bool, true, false}
use mathlib.Core.Logic.{◌⊎◌, inl, inr}
use mathlib.Core.Option.{Option, some}
use mathlib.Core.Option
use mathlib.Core.List.{List, [], ◌∷◌, ◌++◌, map}
use native.Mathlib.Omega.{arith}
use expo_fastapi_todo.Prelude.Tests.{Bool-cases, if◌then◌else◌}
use expo_fastapi_todo.Prelude.Lists.{any, find, select, take, update_where}

-- membership
abbrev pub Has : {A : Type 0} → A → List A → Type 0
Has x [] = ⊥
Has x (y ∷ ys) = (x ≡ y) ⊎ Has x ys

module _ {A : Type 0} where
  pub Has-append_left : (x : A) (xs ys : List A) → Has x xs → Has x (xs ++ ys)
  Has-append_left x [] ys h = absurd h
  Has-append_left x (y ∷ xs) ys (inl e) = inl e
  Has-append_left x (y ∷ xs) ys (inr h) = inr (Has-append_left x xs ys h)

  pub Has-append_right : (x : A) (xs ys : List A) → Has x ys → Has x (xs ++ ys)
  Has-append_right x [] ys h = h
  Has-append_right x (y ∷ xs) ys h = inr (Has-append_right x xs ys h)

  -- what is found in a list is found in one that begins with it
  pub find-append_some :
      (test : A → Bool) (xs ys : List A) {x : A}
      → find test xs ≡ some x
      → find test (xs ++ ys) ≡ some x
  find-append_some test [] ys e = cc
  find-append_some test (y ∷ xs) ys {x} e = ground (arith, find-append_some test xs ys {x = x})

  pub Has-map : {B : Type 0} (f : A → B) (x : A) (xs : List A) → Has x xs → Has (f x) (map f xs)
  Has-map f x [] h = absurd h
  Has-map f x (y ∷ xs) (inl e) = inl (ap f e)
  Has-map f x (y ∷ xs) (inr h) = inr (Has-map f x xs h)

  pub Has-take : (n : ℕ) (x : A) (xs : List A) → Has x (take n xs) → Has x xs
  Has-take zero x xs h = absurd h
  Has-take (suc n) x [] h = absurd h
  Has-take (suc n) x (y ∷ xs) (inl e) = inl e
  Has-take (suc n) x (y ∷ xs) (inr h) = inr (Has-take n x xs h)

  -- what a selection holds, and what it keeps
  pub Has-select : (test : A → Bool) (x : A) (xs : List A) → Has x (select test xs) → Has x xs
  Has-select test x [] h = absurd h
  Has-select test x (y ∷ xs) h = elim (Bool-cases (test y)) [
    | inl hit ↦ elim (subst (λ b. Has x (if b then y ∷ select test xs else select test xs)) hit h) [
      | inl e ↦ inl e
      | inr rest ↦ inr (Has-select test x xs rest)
    ]
    | inr miss ↦ inr (
        Has-select test x xs
          (subst (λ b. Has x (if b then y ∷ select test xs else select test xs)) miss h))
  ]

  pub select-Has :
      (test : A → Bool) (x : A) (xs : List A) → Has x xs → test x ≡ true → Has x (select test xs)
  select-Has test x [] h t = absurd h
  select-Has test x (y ∷ xs) (inl e) t = rw (sym (ap test e) ∙ t) (inl e)
  select-Has test x (y ∷ xs) (inr h) t = elim (Bool-cases (test y)) [
    | inl hit ↦ rw hit (inr (select-Has test x xs h t))
    | inr miss ↦ rw miss (select-Has test x xs h t)
  ]

  -- an update leaves the rows that fail its test
  pub update_where-Has :
      (test : A → Bool) (change : A → A) (x : A) (xs : List A)
      → Has x xs
      → test x ≡ false
      → Has x (update_where test change xs)
  update_where-Has test change x [] h t = absurd h
  update_where-Has test change x (y ∷ xs) (inl e) t = inl (rw (sym (ap test e) ∙ t) e)
  update_where-Has test change x (y ∷ xs) (inr h) t = inr (update_where-Has test change x xs h t)

  -- a row after an update is a changed row that passes the test, or an old row
  pub Has-update_where :
      (test : A → Bool) (change : A → A) (x : A) (xs : List A)
      → Has x (update_where test change xs)
      → ((y : A) × Has y xs × (test y ≡ true) × (x ≡ change y)) ⊎ Has x xs
  Has-update_where test change x [] h = absurd h
  Has-update_where test change x (y ∷ xs) (inl e) = elim (Bool-cases (test y)) [
    | inl hit ↦ inl (y, inl refl, hit, e ∙ ap (λ b. if b then change y else y) hit)
    | inr miss ↦ inr (inl (e ∙ ap (λ b. if b then change y else y) miss))
  ]
  Has-update_where test change x (y ∷ xs) (inr h) = elim (Has-update_where test change x xs h) [
    | inl (z, there, hit, e) ↦ inl (z, inr there, hit, e)
    | inr there ↦ inr (inr there)
  ]

  pub any-Has :
      (test : A → Bool) (xs : List A) → any test xs ≡ true → (x : A) × Has x xs × (test x ≡ true)
  any-Has test [] h = cc
  any-Has test (y ∷ xs) h = elim (Bool-cases (test y)) [
    | inl hit ↦ (y, inl refl, hit)
    | inr miss ↦ let (x, there, t) = any-Has test xs (ground arith) in (x, inr there, t)
  ]

module _ {A : Type 0} where
  -- what a search finds is a member
  pub find-Has : (test : A → Bool) (x : A) (xs : List A) → find test xs ≡ some x → Has x xs
  find-Has test x [] e = cc
  find-Has test x (y ∷ ys) e = elim (Bool-cases (test y)) [
    | inl hit ↦ inl (
        sym (
          Option.some-injective y x
            (subst (λ b. (if b then some y else find test ys) ≡ some x) hit e)))
    | inr miss ↦
        inr (find-Has test x ys (subst (λ b. (if b then some y else find test ys) ≡ some x) miss e))
  ]
