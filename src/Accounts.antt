-- ===== src/Accounts.antt =====
-- apps/api/app/auth_repository.py: users and their sessions. A session is stored by the hash of its
-- token. `now` is the transaction's `func.now()`.
use expo_fastapi_todo.Prelude.{
  ℕ, ◌+◌, Bool, not, ◌&&◌, ◌||◌, Option, List, [], ◌∷◌, ◌++◌, any, select, find, length, ltb, leb,
  ◌==◌, Text, text_eq, if◌then◌else◌,
}
use expo_fastapi_todo.Platform.{Platform}
use expo_fastapi_todo.Result.{Result, ok, err, value_error}
use expo_fastapi_todo.Title.{has_surrogate}
use expo_fastapi_todo.Database.Rows.{UserRow, SessionRow}
use expo_fastapi_todo.Database.Transaction.{
  Database, Transaction, pure, gets, modify, require, ◌>>=◌, ◌>>◌,
}
use expo_fastapi_todo.Workflow.Domain.{Uuid}

-- `hash_token`; encoding a surrogate raises a `ValueError`
unfoldable pub hash_token : Platform → Text → Result Text
hash_token p token = if has_surrogate token then err value_error else ok (p.sha256_hex token)

abbrev pub new_user : Uuid → Text → Text → Option Text → Database → UserRow
new_user public_id username password_hash real_name_ciphertext db = record {
  id = db.users.next_id;
  public_id = public_id;
  username = username;
  password_hash = password_hash;
  real_name_ciphertext = real_name_ciphertext;
}

-- the two unique columns
unfoldable pub user_insertable : UserRow → Database → Bool
user_insertable row db =
    not (any (λ u. u.public_id == row.public_id || text_eq u.username row.username) db.users.rows)

abbrev pub insert_user : UserRow → Database → Database
insert_user row db = record db {
  users = record { rows = db.users.rows ++ row ∷ []; next_id = db.users.next_id + 1 };
}

unfoldable pub create_user : Uuid → Text → Text → Option Text → Transaction UserRow
create_user public_id username password_hash real_name_ciphertext = do
  row ← gets (new_user public_id username password_hash real_name_ciphertext)
  require (user_insertable row)
  modify (insert_user row)
  pure row

unfoldable pub find_user_by_username : Text → Database → Option UserRow
find_user_by_username username db = find (λ u. text_eq u.username username) db.users.rows

unfoldable pub find_user_by_id : ℕ → Database → Option UserRow
find_user_by_id user_id db = find (λ u. u.id == user_id) db.users.rows

abbrev pub new_session : ℕ → Text → ℕ → Database → SessionRow
new_session user_id token_hash expires_at db = record {
  id = db.sessions.next_id;
  token_hash = token_hash;
  user_id = user_id;
  expires_at = expires_at;
}

-- the unique hash and the foreign key
unfoldable pub session_insertable : SessionRow → Database → Bool
session_insertable row db =
    not (any (λ s. text_eq s.token_hash row.token_hash) db.sessions.rows)
    && any (λ u. u.id == row.user_id) db.users.rows

abbrev pub with_sessions : (List SessionRow → List SessionRow) → Database → Database
with_sessions change db = record db {
  sessions = record { rows = change db.sessions.rows; next_id = db.sessions.next_id };
}

abbrev pub insert_session : SessionRow → Database → Database
insert_session row db = record db {
  sessions = record { rows = db.sessions.rows ++ row ∷ []; next_id = db.sessions.next_id + 1 };
}

unfoldable pub create_session : ℕ → Text → ℕ → Transaction SessionRow
create_session user_id token_hash expires_at = do
  row ← gets (new_session user_id token_hash expires_at)
  require (session_insertable row)
  modify (insert_session row)
  pure row

-- of the token, and not expired
abbrev pub is_valid_session : ℕ → Text → SessionRow → Bool
is_valid_session now token_hash row = text_eq row.token_hash token_hash && ltb now row.expires_at

unfoldable pub find_valid_session : ℕ → Text → Database → Option SessionRow
find_valid_session now token_hash db = find (is_valid_session now token_hash) db.sessions.rows

unfoldable pub delete_session : Text → Transaction Bool
delete_session token_hash = do
  found ← gets (λ db. any (λ s. text_eq s.token_hash token_hash) db.sessions.rows)
  modify (with_sessions (select (λ s. not (text_eq s.token_hash token_hash))))
  pure found

-- the user's sessions that are past their time
abbrev pub is_expired_session : ℕ → ℕ → SessionRow → Bool
is_expired_session now user_id row = row.user_id == user_id && leb row.expires_at now

unfoldable pub delete_expired_sessions : ℕ → ℕ → Transaction ℕ
delete_expired_sessions now user_id = do
  count ← gets (λ db. length (select (is_expired_session now user_id) db.sessions.rows))
  modify (with_sessions (select (λ s. not (is_expired_session now user_id s))))
  pure count
