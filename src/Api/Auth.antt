-- ===== src/Api/Auth.antt =====
-- The account handlers of apps/api/app/main.py. The password hasher, the cipher of real names, the new
-- token and the process's clock are parameters. `now` is the transaction's `func.now()`.
pub mod Opened
pub mod Session
use expo_fastapi_todo.Prelude.{
  ℕ, ◌+◌, Bool, true, false, not, ◌||◌, ◌&&◌, Option, none, some, List, Text, codes, if◌then◌else◌,
}
use expo_fastapi_todo.Result.{Error, Result, ok, err, integrity_error}
use expo_fastapi_todo.Http.{HttpException, Answer, answered, refused}
use expo_fastapi_todo.Platform.{Platform}
use expo_fastapi_todo.Database.Rows.{UserRow, SessionRow}
use expo_fastapi_todo.Database.Transaction.{Database, Transaction, pure, lift, gets, ◌>>=◌, ◌>>◌}
use expo_fastapi_todo.Database.Call.{Interrupt}
use expo_fastapi_todo.Workflow.Domain.{Uuid}
use expo_fastapi_todo.Analytics.Events.{record_event}
use expo_fastapi_todo.Accounts.{
  hash_token, create_user, find_user_by_username, find_user_by_id, create_session,
  find_valid_session, delete_session, delete_expired_sessions,
}
use expo_fastapi_todo.Api.Errors.{
  http_error, unauthorized, internal_error, database_unavailable, handle,
}

-- `argon2` and the KMS client; `none` of the cipher is `NameUnavailable`
pub record Secrets : Type 0 where
  pub hash_password : Text → Text
  pub verify_password : Text → Text → Bool
  pub dummy_password_hash : Text
  pub encrypt : Option (Uuid → Text → Option Text)
  pub decrypt : Option (Uuid → Text → Option Text)

pub record UserPublic : Type 0 where
  pub id : Uuid
  pub username : Text
  pub real_name : Option Text

pub record SessionResponse : Type 0 where
  pub token : Text
  pub expires_at : ℕ
  pub user : UserPublic

-- the name, or nothing if it cannot be decrypted
abbrev pub decrypted : Option (Uuid → Text → Option Text) → Uuid → Option Text → Option Text
decrypted none id ciphertext = none
decrypted (some decrypt) id none = none
decrypted (some decrypt) id (some ciphertext) = decrypt id ciphertext

-- `as_user`
unfoldable pub as_user : Secrets → Bool → UserRow → UserPublic
as_user s include_name row = record {
  id = row.public_id;
  username = row.username;
  real_name =
      if include_name then decrypted s.decrypt row.public_id row.real_name_ciphertext else none;
}

abbrev pub session_user : Option SessionRow → Database → Option UserRow
session_user none db = none
session_user (some row) db = find_user_by_id row.user_id db

abbrev pub or_unauthorized : Option UserRow → Answer UserRow
or_unauthorized none = refused unauthorized
or_unauthorized (some user) = answered user

-- the user of the token's session
unfoldable pub current_user : Platform → ℕ → Text → Transaction (Option UserRow)
current_user p now token = do
  hash ← lift (hash_token p token)
  row ← gets (find_valid_session now hash)
  gets (session_user row)

-- `get_current_user`
unfoldable pub get_current_user :
    Platform → ℕ → Option Text → Option Interrupt → Database → Answer UserRow × Database
get_current_user p now none o db = (refused unauthorized, db)
get_current_user p now (some token) o db =
    handle (λ e. internal_error) or_unauthorized o (current_user p now token) db

abbrev pub no_name_service : HttpException
no_name_service = http_error 503 (codes "Account creation temporarily unavailable.")

-- the ciphertext of a new account's name
unfoldable pub encrypt_name : Secrets → Uuid → Option Text → Answer (Option Text)
encrypt_name s public_id none = answered none
encrypt_name s public_id (some name) = elim s.encrypt [
  | none ↦ refused no_name_service
  | some encrypt ↦ elim (encrypt public_id name) [
    | none ↦ refused no_name_service
    | some ciphertext ↦ answered (some ciphertext)
  ]
]

unfoldable pub signup_transaction :
    Secrets → ℕ → Uuid → Uuid → Text → Text → Option Text → Transaction UserPublic
signup_transaction s now event_id public_id username password ciphertext = do
  created ← create_user public_id username (s.hash_password password) ciphertext
  record_event now event_id (codes "user_signed_up") created.id none none
  pure (as_user s false created)

-- `IntegrityError`
abbrev pub signup_error : Error → HttpException
signup_error integrity_error = http_error 422 (codes "Username is taken.")
signup_error _ = internal_error

unfoldable pub signup :
    Secrets
    → ℕ
    → Uuid
    → Uuid
    → Text
    → Text
    → Option Text
    → Option Interrupt
    → Database
    → Answer UserPublic × Database
signup s now event_id public_id username password real_name o db =
    elim (encrypt_name s public_id real_name) [
      | refused e ↦ (refused e, db)
      | answered ciphertext ↦
          handle signup_error answered o
            (signup_transaction s now event_id public_id username password ciphertext) db
    ]

-- 30 days in microseconds
abbrev pub session_ttl : ℕ
session_ttl = 2592000000000

-- a missing user's password is verified against the hash of no password
abbrev pub password_valid : Secrets → Text → Option UserRow → Bool
password_valid s password none = s.verify_password password s.dummy_password_hash
password_valid s password (some user) = s.verify_password password user.password_hash

unfoldable pub open_session :
    Platform → Secrets → ℕ → ℕ → Text → Text → Option UserRow → Transaction (Option SessionResponse)
open_session p s now clock password token none = pure none
open_session p s now clock password token (some user) =
    if not (password_valid s password (some user)) then pure none else do
      hash ← lift (hash_token p token)
      create_session user.id hash (clock + session_ttl)
      delete_expired_sessions now user.id
      pure (
          some (record {
            token = token;
            expires_at = clock + session_ttl;
            user = as_user s true user;
          }))

unfoldable pub login_transaction :
    Platform → Secrets → ℕ → ℕ → Text → Text → Text → Transaction (Option SessionResponse)
login_transaction p s now clock username password token = do
  user ← gets (find_user_by_username username)
  open_session p s now clock password token user

abbrev pub or_refused : Option SessionResponse → Answer SessionResponse
or_refused none = refused (http_error 401 (codes "Invalid username or password."))
or_refused (some session) = answered session

unfoldable pub login :
    Platform
    → Secrets
    → ℕ
    → ℕ
    → Text
    → Text
    → Text
    → Option Interrupt
    → Database
    → Answer SessionResponse × Database
login p s now clock username password token o db =
    handle (λ e. internal_error) or_refused o
      (login_transaction p s now clock username password token) db

unfoldable pub logout_transaction : Platform → Option Text → Transaction (Unit {0})
logout_transaction p none = pure tt
logout_transaction p (some token) = do
  hash ← lift (hash_token p token)
  delete_session hash
  pure tt

unfoldable pub logout : Platform → Option Text → Option Interrupt → Database → Answer ℕ × Database
logout p credentials o db =
    handle (λ e. internal_error) (λ _. answered 204) o (logout_transaction p credentials) db

abbrev pub presented : Secrets → Answer UserRow → Answer UserPublic
presented s (refused e) = refused e
presented s (answered user) = answered (as_user s true user)

-- `read_me`
unfoldable pub read_me :
    Platform
    → Secrets
    → ℕ
    → Option Text
    → Option Interrupt
    → Database
    → Answer UserPublic × Database
read_me p s now credentials o db =
    let (user, db') = get_current_user p now credentials o db in (presented s user, db')
