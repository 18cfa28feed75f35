-- ===== src/Api/Auth/Opened.antt =====
-- What a log in of apps/api/app/main.py has opened.
use expo_fastapi_todo.Prelude.{
  ℕ, ◌+◌, ◌<◌, ◌≡◌, ap, ◌∙◌, true, false, not, Option, none, some, List, [], ◌∷◌, ◌++◌, any, select,
  find, Text, text_eq, text_eq_refl, Bool-cases, Option-cases, inl, inr, arith,
}
use expo_fastapi_todo.Result.{ok}
use expo_fastapi_todo.Http.{answered}
use expo_fastapi_todo.Platform.{Platform}
use expo_fastapi_todo.Database.Rows.{UserRow, SessionRow}
use expo_fastapi_todo.Database.Transaction.{Database, lift, steps, after, lift-eq-ok}
use expo_fastapi_todo.Accounts.{
  hash_token, find_user_by_username, create_session, delete_expired_sessions, is_valid_session,
  is_expired_session, new_session, session_insertable, insert_session, with_sessions,
}
use expo_fastapi_todo.Api.Errors.{internal_error, handle-answered}
use expo_fastapi_todo.Api.Auth.{
  Secrets, SessionResponse, as_user, login, login_transaction, open_session, or_refused,
  session_ttl,
}

-- the new session is what its token finds, after the expired ones are removed
pub find-opened :
    (now later user_id : ℕ) (row : SessionRow) (rows : List SessionRow)
    → any (λ s. text_eq s.token_hash row.token_hash) rows ≡ false
    → now < row.expires_at
    → later < row.expires_at
    → find
        (is_valid_session later row.token_hash)
        (select (λ s. not (is_expired_session now user_id s)) (rows ++ row ∷ []))
      ≡ some row
find-opened now later user_id row [] new fresh valid = ground (arith, text_eq_refl row.token_hash)
find-opened now later user_id row (x ∷ xs) new fresh valid =
    let rest = find-opened now later user_id row xs (ground (arith, new)) fresh valid in
    let other : text_eq x.token_hash row.token_hash ≡ false = ground (arith, new) in
    elim (Bool-cases (is_expired_session now user_id x)) [
      | inl gone ↦ rw gone rest
      | inr stays ↦ rw stays (rw other rest)
    ]

create_session_lem :
    (user_id : ℕ) (hash : Text) (expires_at : ℕ) (db : Database) {row : SessionRow} {db' : Database}
    → create_session user_id hash expires_at db ≡ ok (row, db')
    → (any (λ s. text_eq s.token_hash hash) db.sessions.rows ≡ false)
      × (db' ≡ insert_session (new_session user_id hash expires_at db) db)
unfolding create_session session_insertable
create_session_lem user_id hash expires_at db h = (ground arith, ground arith)

delete_expired_sessions_lem :
    (now user_id : ℕ) (db : Database) {n : ℕ} {db' : Database}
    → delete_expired_sessions now user_id db ≡ ok (n, db')
    → db' ≡ with_sessions (select (λ s. not (is_expired_session now user_id s))) db
unfolding delete_expired_sessions
delete_expired_sessions_lem now user_id db h = ground arith

-- What a log in has opened: a session of a user with that name whose password was verified.
pub record IsOpened (p : Platform) (s : Secrets) (now clock : ℕ) (username password token : Text)
    (r : SessionResponse) (db db' : Database) : Type 0 where
  pub user : UserRow
  pub named : find_user_by_username username db ≡ some user
  pub verified : s.verify_password password user.password_hash ≡ true
  pub response :
      r ≡ record { token = token; expires_at = clock + session_ttl; user = as_user s true user }
  pub hash : Text
  pub hashed : hash_token p token ≡ ok hash
  pub unused : any (λ x. text_eq x.token_hash hash) db.sessions.rows ≡ false
  pub opened :
      db'
      ≡ with_sessions
          (select (λ x. not (is_expired_session now user.id x)))
          (insert_session (new_session user.id hash (clock + session_ttl) db) db)

open_session-IsOpened :
    (p : Platform) (s : Secrets) (now clock : ℕ) (username password token : Text) (user : UserRow)
    (db db' : Database) {r : SessionResponse}
    → find_user_by_username username db ≡ some user
    → open_session p s now clock password token (some user) db ≡ ok (some r, db')
    → IsOpened p s now clock username password token r db db'
unfolding open_session
open_session-IsOpened p s now clock username password token user db db' {r} named h =
    elim (Bool-cases (s.verify_password password user.password_hash)) [
      | inr wrong ↦ absurd (ground (arith, rw wrong at h))
      | inl verified ↦ elim (steps (lift (hash_token p token)) _ db (rw verified at h)) [
        | after hash db1 hashed h1 ↦
            elim (steps (create_session user.id hash (clock + session_ttl)) _ db1 h1) [
              | after row db2 created h2 ↦
                  elim (steps (delete_expired_sessions now user.id) _ db2 h2) [
                    | after n db3 deleted end ↦
                        let (is_hash, same) = lift-eq-ok (hash_token p token) db hashed in
                        let (unused, inserted) =
                          create_session_lem user.id hash (clock + session_ttl) db1 {row = row}
                            created in
                        record {
                          user = user;
                          named = named;
                          verified = verified;
                          response = ground arith;
                          hash = hash;
                          hashed = is_hash;
                          unused = ground (arith, unused, same);
                          opened = ground (
                            arith,
                            same,
                            inserted,
                            delete_expired_sessions_lem now user.id db2 deleted,
                          );
                        }
                  ]
            ]
      ]
    ]

or_refused-answered :
    (o : Option SessionResponse) {r : SessionResponse} → or_refused o ≡ answered r → o ≡ some r
or_refused-answered none h = cc
or_refused-answered (some x) h = ground arith

-- A log in that is answered was of a user with that name and password, and opened its session.
pub login-IsOpened :
    (p : Platform) (s : Secrets) (now clock : ℕ) (username password token : Text)
    (db db' : Database) {r : SessionResponse}
    → login p s now clock username password token none db ≡ (answered r, db')
    → IsOpened p s now clock username password token r db db'
unfolding login login_transaction open_session
login-IsOpened p s now clock username password token db db' {r} h =
    let (session, committed, answers) =
      handle-answered (λ e. internal_error) or_refused
        (login_transaction p s now clock username password token) db {b = r} {db' = db'} h in
    elim (Option-cases (find_user_by_username username db)) [
      | inl nobody ↦ absurd (ground (arith, rw nobody at committed))
      | inr (user, named) ↦
          open_session-IsOpened p s now clock username password token user db db' named
            (rw named at committed ∙ ap (λ a. ok (a, db')) (or_refused-answered session answers))
    ]
