-- ===== src/Worker/Delivery/Attempts.antt =====
-- The transactions of a delivery (apps/api/app/worker.py): what each leaves in the database.
use expo_fastapi_todo.Prelude.{
  ℕ, ◌+◌, ◌≡◌, refl, ◌∙◌, subst, Option, none, some, List, arith, Bool-cases, inl, inr, Text,
}
use expo_fastapi_todo.Result.{Result, ok, Result-cases}
use expo_fastapi_todo.Platform.{Platform}
use expo_fastapi_todo.Database.Transaction.{Database, Transaction, transact, gets}
use expo_fastapi_todo.Suggestion.Types.{SuggestionErrorCode}
use expo_fastapi_todo.Suggestion.Checks.{check_result}
use expo_fastapi_todo.Suggestion.Claim.{ClaimedSuggestion, discover, claim_suggestion}
use expo_fastapi_todo.Suggestion.FinishClaimed.{finish_claimed_suggestion}
use expo_fastapi_todo.Suggestion.History.Runs.{
  Reach, start, next, by_claim, by_finish_claim, Reach-trans,
}
use expo_fastapi_todo.Worker.Events.{
  World, Seams, Interrupt, Called, returned, raised, broken, interrupted, attempt, and_then,
}
use expo_fastapi_todo.Worker.Delivery.{claim_in_worker, finish_once}

-- The others run transactions of the program on the platform.
pub record IsFriendly (p : Platform) (s : Seams) : Type 0 where
  pub same_platform : s.platform ≡ p
  pub run : (i : ℕ) (db : Database) → Reach p db (s.others i db)

-- each commit of the transaction is a run of the program
abbrev pub Runs {ℓ} : {A : Type ℓ} → Platform → Transaction A → Type ℓ
Runs {A = A} p m = (db : Database) (a : A) (db' : Database) → m db ≡ ok (a, db') → Reach p db db'

pub gets-Runs {ℓ} : {A : Type ℓ} (p : Platform) (f : Database → A) → Runs p (gets f)
gets-Runs p f db a db' h = subst (λ d. Reach p db d) (ground arith) start

module _ {ℓ} {A : Type ℓ} where
  interrupted-Reach :
      (p : Platform) (o : Option Interrupt) (db : Database) (x : Result A × Database)
      → Reach p db x.1
      → Reach p db (interrupted o db x).1
  interrupted-Reach p none db (r, db') run = run
  interrupted-Reach p (some interrupt) db (r, db') run = elim (Bool-cases interrupt.applied) [
    | inl lost ↦ rw lost run
    | inr undone ↦ rw undone start
  ]

  transact-Reach :
      (p : Platform) (m : Transaction A) (db : Database) → Runs p m → Reach p db (transact m db).1
  transact-Reach p m db runs = elim (Result-cases (m db)) [
    | inl ((a, db'), e) ↦ rw (e, transact) (runs db a db' e)
    | inr (raise, e) ↦ rw (e, transact) start
  ]

  pub attempt-Reach :
      (p : Platform) (s : Seams) (i : ℕ) (m : Transaction A) (w : World)
      → IsFriendly p s
      → Runs p m
      → Reach p w.db (attempt s i m w).1.db
  unfolding attempt
  attempt-Reach p s i m w friendly runs =
      Reach-trans p w.db (s.others i w.db) _ (friendly.run i w.db) (
        interrupted-Reach p (s.breaks i) (s.others i w.db) (transact m (s.others i w.db))
          (transact-Reach p m (s.others i w.db) runs))

  pub attempt_emits_nothing :
      (s : Seams) (i : ℕ) (m : Transaction A) (w : World) → (attempt s i m w).1.events ≡ w.events
  unfolding attempt
  attempt_emits_nothing s i m w = refl

  -- an attempt that returned has committed on what the others left
  pub attempt_lem :
      (s : Seams) (i : ℕ) (m : Transaction A) (w : World) {a : A}
      → (attempt s i m w).0 ≡ returned a
      → m (s.others i w.db) ≡ ok (a, (attempt s i m w).1.db)
  unfolding attempt
  attempt_lem s i m w h = elim (Result-cases (m (s.others i w.db))) [
    | inl ((a, db'), e) ↦ ground arith
    | inr (raise, e) ↦ ground arith
  ]

module _ {ℓ κ} {A : Type ℓ} {B : Type κ} where
  -- a chain of calls that keeps a property of the world keeps it in each call
  and_then_keeps :
      (keeps : World → Type 0) (x : Called A × World) (f : A → World → Called B × World)
      → keeps x.1
      → ((a : A) (w : World) → keeps w → keeps (f a w).1)
      → keeps (and_then x f).1
  and_then_keeps keeps (returned a, w) f first step = step a w first
  and_then_keeps keeps (raised e, w) f first step = first
  and_then_keeps keeps (broken fault, w) f first step = first

-- The world after a call: the same events, and a database that the program can reach.
pub record After (p : Platform) (w w' : World) : Type 0 where
  pub events : w'.events ≡ w.events
  pub reached : Reach p w.db w'.db

After-trans : (p : Platform) (a b c : World) → After p a b → After p b c → After p a c
After-trans p a b c f g = record {
  events = g.events ∙ f.events;
  reached = Reach-trans p a.db b.db c.db f.reached g.reached;
}

attempt-After {ℓ} :
    {A : Type ℓ} (p : Platform) (s : Seams) (i : ℕ) (m : Transaction A) (w : World)
    → IsFriendly p s
    → Runs p m
    → After p w (attempt s i m w).1
attempt-After p s i m w friendly runs = record {
  events = attempt_emits_nothing s i m w;
  reached = attempt-Reach p s i m w friendly runs;
}

pub claim_in_worker-After :
    (p : Platform) (s : Seams) (id : ℕ) (w : World)
    → IsFriendly p s
    → After p w (claim_in_worker s id w).1
unfolding claim_in_worker
claim_in_worker-After p s id w friendly =
    and_then_keeps (After p w) (attempt s 0 (gets (discover id)) w) _
      (attempt-After p s 0 (gets (discover id)) w friendly (gets-Runs p (discover id)))
      (λ discovered w1 before. After-trans p w w1 _ before (
        attempt-After p s 1 (claim_suggestion s.platform (s.now 1) (s.draw 1) id discovered) w1
          friendly
          (λ db a db' h.
            next db db' start
              (by_claim (s.now 1) (s.draw 1) id discovered a (rw friendly.same_platform at h)))))

pub finish_once-After :
    (p : Platform) (s : Seams) (i : ℕ) (claim : ClaimedSuggestion) (titles : Option (List Text))
    (error_code : Option SuggestionErrorCode) (w : World)
    → IsFriendly p s
    → After p w (finish_once s i claim titles error_code w).1
unfolding finish_once
finish_once-After p s i claim titles error_code w friendly =
    elim (Result-cases (check_result titles error_code)) [
      | inr (e, refused) ↦ rw (refused, finish_once) (record { events = refl; reached = start })
      | inl (checked, fine) ↦
          rw (fine, finish_once)
            (and_then_keeps (After p w) (attempt s i (gets (discover claim.suggestion_id)) w) _
              (attempt-After p s i (gets (discover claim.suggestion_id)) w friendly
                (gets-Runs p (discover claim.suggestion_id)))
              (λ discovered w1 before. After-trans p w w1 _ before (
                attempt-After p s (i + 1)
                  (finish_claimed_suggestion s.platform (s.now (i + 1)) (s.draw (i + 1)) claim
                    titles error_code discovered)
                  w1 friendly
                  (λ db a db' h. next db db' start (
                    by_finish_claim (s.now (i + 1)) (s.draw (i + 1)) claim titles error_code
                      discovered a (rw friendly.same_platform at h))))))
    ]
