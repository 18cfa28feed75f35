-- ===== src/Api/Auth/Session.antt =====
-- A session of apps/api/app/main.py, from log in to log out.
use expo_fastapi_todo.Prelude.{
  ℕ, ◌+◌, ◌<◌, ◌≡◌, refl, ◌∙◌, Bool, true, not, none, some, List, [], ◌∷◌, ◌++◌, select, find, ◌==◌,
  Text, text_eq, Bool-cases, inl, inr, arith, Has, find-Has, find-append_some, sym,
}
use expo_fastapi_todo.Api.Auth.Opened.{find-opened, login-IsOpened}
use expo_fastapi_todo.Result.{ok}
use expo_fastapi_todo.Http.{answered, refused}
use expo_fastapi_todo.Platform.{Platform}
use expo_fastapi_todo.Database.Rows.{UserRow, SessionRow}
use expo_fastapi_todo.Database.Transaction.{Database, lift, steps, after, lift-eq-ok, transact}
use expo_fastapi_todo.Accounts.{
  hash_token, find_user_by_username, find_user_by_id, find_valid_session, delete_session,
  is_valid_session, is_expired_session, new_session, with_sessions,
}
use expo_fastapi_todo.Api.Errors.{unauthorized, internal_error, settle, handle-answered}
use expo_fastapi_todo.Api.Auth.{
  Secrets, SessionResponse, get_current_user, current_user, login, session_ttl, logout,
  logout_transaction,
}

-- a search for what was removed finds nothing
find-removed :
    (now : ℕ) (hash : Text) (rows : List SessionRow)
    → find (is_valid_session now hash) (select (λ s. not (text_eq s.token_hash hash)) rows) ≡ none
find-removed now hash [] = refl
find-removed now hash (x ∷ xs) = elim (Bool-cases (text_eq x.token_hash hash)) [
  | inl hit ↦ rw hit (find-removed now hash xs)
  | inr miss ↦ rw miss (rw miss (find-removed now hash xs))
]

delete_session_lem :
    (hash : Text) (db : Database) {b : Bool} {db' : Database}
    → delete_session hash db ≡ ok (b, db')
    → db' ≡ with_sessions (select (λ s. not (text_eq s.token_hash hash))) db
unfolding delete_session
delete_session_lem hash db h = ground arith

-- After a log out with a token, at every later time the token names no user.
pub logout_ends_session :
    (p : Platform) (token : Text) (later : ℕ) (db db' : Database)
    → logout p (some token) none db ≡ (answered 204, db')
    → get_current_user p later (some token) none db' ≡ (refused unauthorized, db')
unfolding logout logout_transaction get_current_user current_user find_valid_session settle
logout_ends_session p token later db db' h =
    let (u, committed, _) =
      handle-answered (λ e. internal_error) (λ _. answered 204) (logout_transaction p (some token))
        db {b = 204} {db' = db'} h in
    elim (steps (lift (hash_token p token)) _ db committed) [
      | after hash db1 hashed rest ↦ elim (steps (delete_session hash) _ db1 rest) [
        | after found db2 deleted end ↦
            let (is_hash, same) = lift-eq-ok (hash_token p token) db hashed in
            let gone : db' ≡ with_sessions (select (λ s. not (text_eq s.token_hash hash))) db1 =
              ground (arith, delete_session_lem hash db1 deleted) in
            let unfound : find (is_valid_session later hash) db'.sessions.rows ≡ none =
              rw gone (find-removed later hash db1.sessions.rows) in
            rw is_hash (rw (unfound, transact) refl)
      ]
    ]

-- Any number of later log ins, of whatever users, before a time.
pub data LogIns (p : Platform) (s : Secrets) (until : ℕ) (db : Database) : Database → Type 0 where
  no_more : LogIns p s until db db
  then_login :
      {db1 db2 : Database} (now clock : ℕ) (username password token : Text) {r : SessionResponse}
      → LogIns p s until db db1
      → now < until
      → login p s now clock username password token none db1 ≡ (answered r, db2)
      → LogIns p s until db db2

find-selected :
    (test keep : SessionRow → Bool) (rows : List SessionRow) {row : SessionRow}
    → find test rows ≡ some row
    → keep row ≡ true
    → find test (select keep rows) ≡ some row
find-selected test keep [] e k = cc
find-selected test keep (x ∷ xs) {row} e k = ground (arith, find-selected test keep xs {row = row})

-- A log in leaves the live sessions and the users as they are.
login-keeps :
    (p : Platform) (s : Secrets) (now clock later : ℕ) (hash username password token : Text)
    (db db' : Database) {r : SessionResponse} {row : SessionRow}
    → login p s now clock username password token none db ≡ (answered r, db')
    → now < row.expires_at
    → find (is_valid_session later hash) db.sessions.rows ≡ some row
    → (find (is_valid_session later hash) db'.sessions.rows ≡ some row) × (db'.users ≡ db.users)
login-keeps p s now clock later hash username password token db db' {r} {row} h live found =
    let o = login-IsOpened p s now clock username password token db db' h in
    let opened = new_session o.user.id o.hash (clock + session_ttl) db in
    let still =
      find-append_some (is_valid_session later hash) db.sessions.rows (opened ∷ []) found in
    let alive : not (is_expired_session now o.user.id row) ≡ true = ground arith in
    (
      rw o.opened (
          find-selected (is_valid_session later hash)
            (λ x. not (is_expired_session now o.user.id x)) (db.sessions.rows ++ opened ∷ []) still
            alive),
      rw o.opened refl,
    )

LogIns-keep :
    (p : Platform) (s : Secrets) (until later : ℕ) (hash : Text) (db : Database) {db' : Database}
    {row : SessionRow}
    → until ≡ row.expires_at
    → find (is_valid_session later hash) db.sessions.rows ≡ some row
    → LogIns p s until db db'
    → (find (is_valid_session later hash) db'.sessions.rows ≡ some row) × (db'.users ≡ db.users)
LogIns-keep p s until later hash db e found no_more = (found, refl)
LogIns-keep p s until later hash db {db'} {row} e found
      (then_login {db1} {db2} now clock username password token {r} before in_time h) =
    let (still, users) = LogIns-keep p s until later hash db e found before in
    let (now_still, same) =
      login-keeps p s now clock later hash username password token db1 db2 {r = r} {row = row} h
        (rw (sym e) in_time) still in
    (now_still, same ∙ users)

-- A log in that is answered is of a user with that name whose password was verified. If its session's
-- time is after the database's clock, then before that time its token names that user, provided that
-- an id names one user, whatever log ins have followed; no log out is among them.
pub login_then_current :
    (p : Platform) (s : Secrets) (now clock later : ℕ) (username password token : Text)
    (db db' db'' : Database) {r : SessionResponse}
    → ((u : UserRow) → Has u db.users.rows → find_user_by_id u.id db ≡ some u)
    → login p s now clock username password token none db ≡ (answered r, db')
    → now < clock + session_ttl
    → later < clock + session_ttl
    → LogIns p s (clock + session_ttl) db' db''
    → (user : UserRow) × (find_user_by_username username db ≡ some user)
      × (s.verify_password password user.password_hash ≡ true)
      × (get_current_user p later (some token) none db'' ≡ (answered user, db''))
unfolding get_current_user current_user find_valid_session settle find_user_by_username
    find_user_by_id
login_then_current p s now clock later username password token db db' db'' keyed h fresh valid
      others =
    let o = login-IsOpened p s now clock username password token db db' h in
    let row = new_session o.user.id o.hash (clock + session_ttl) db in
    let opened : find (is_valid_session later o.hash) db'.sessions.rows ≡ some row =
      rw o.opened (find-opened now later o.user.id row db.sessions.rows o.unused fresh valid) in
    let (found, same) =
      LogIns-keep p s (clock + session_ttl) later o.hash db' {row = row} refl opened others in
    let users : db''.users ≡ db.users = same ∙ rw o.opened refl in
    let known : find (λ u. u.id == o.user.id) db''.users.rows ≡ some o.user =
      rw users
        (keyed o.user (find-Has (λ u. text_eq u.username username) o.user db.users.rows o.named)) in
    (o.user, o.named, o.verified, rw o.hashed (rw (found, transact) (rw known refl)))
