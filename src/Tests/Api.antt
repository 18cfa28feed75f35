-- ===== src/Tests/Api.antt =====
-- Runs of the API's handlers.
use expo_fastapi_todo.Prelude.{
  ◌+◌, ◌≡◌, ◌≤◌, refl, true, false, none, some, [], ◌∷◌, inl, inr, arith, Text, codes, text_eq, Has,
}
use expo_fastapi_todo.Result.{ok}
use expo_fastapi_todo.Http.{Answer, answered, refused}
use expo_fastapi_todo.Title.{has_surrogate}
use expo_fastapi_todo.Database.Rows.{UserRow}
use expo_fastapi_todo.Database.Transaction.{Database, transact}
use expo_fastapi_todo.Accounts.{
  hash_token, find_user_by_username, find_user_by_id, create_session, session_insertable,
  delete_expired_sessions, delete_session,
}
use expo_fastapi_todo.Api.Errors.{unauthorized, settle}
use expo_fastapi_todo.Api.Auth.{
  Secrets, SessionResponse, as_user, get_current_user, login, login_transaction, open_session,
  session_ttl, logout, logout_transaction,
}
use expo_fastapi_todo.Api.Auth.Session.{
  no_more, then_login, logout_ends_session, login_then_current,
}
use expo_fastapi_todo.Api.Payloads.{validate_action, to_domain_command, confirm_action}
use expo_fastapi_todo.Api.Views.{TodoWorkflowResponse, present_workflow, as_workflow_response}
use expo_fastapi_todo.Api.Workflows.{TodoWorkflowActionRequest, advance_todo_workflow}
use expo_fastapi_todo.Api.Workflows.Retry.{lost, advance_after_lost_answer}
use expo_fastapi_todo.Database.Call.{operational}
use expo_fastapi_todo.Api.Suggestions.{SuggestCall, suggest_request, suggest_todo_workflow}
use expo_fastapi_todo.Api.Suggestions.Asked.{asked, allowed, asks_once}
use expo_fastapi_todo.Suggestion.Reserve.{reserve_suggestion}
use expo_fastapi_todo.Worker.Events.{attempt}
use expo_fastapi_todo.Tests.Worker.{quiet, waiting}
use expo_fastapi_todo.Tests.Workflow.{after, confirmed, before-WorkflowsValid}
use expo_fastapi_todo.Api.Views.Offers.{offers, is_accepted, transition-offers}
use expo_fastapi_todo.Workflow.Domain.{transition}
use expo_fastapi_todo.Tests.Sample.{
  hex_digits, hex_digit, checksum, sample, sample-IsPlatform, draw, completed_snapshot, before,
  reviewed_snapshot,
}

-- the password of a user is stored as it is
abbrev open_secrets : Secrets
open_secrets = record {
  hash_password = λ password. password;
  verify_password = λ password stored. text_eq password stored;
  dummy_password_hash = [];
  encrypt = none;
  decrypt = none;
}

abbrev token : Text
token = codes "t"

abbrev database_after : {A : Type 0} → Answer A × Database → Database
database_after (answer, db) = db

abbrev logged_in : Database
logged_in =
    database_after (login sample open_secrets 10 10 (codes "alice") (codes "h") token none before)

abbrev session : SessionResponse
session = record {
  token = token;
  expires_at = 10 + session_ttl;
  user = record { id = 100; username = codes "alice"; real_name = none };
}

login_run :
    login sample open_secrets 10 10 (codes "alice") (codes "h") token none before
    ≡ (answered session, logged_in)
unfolding login login_transaction open_session settle find_user_by_username text_eq hash_token
    has_surrogate create_session session_insertable delete_expired_sessions as_user
login_run = refl

abbrev other_token : Text
other_token = codes "u"

abbrev logged_in_again : Database
logged_in_again =
    database_after
      (login sample open_secrets 20 20 (codes "alice") (codes "h") other_token none logged_in)

login_again_run :
    login sample open_secrets 20 20 (codes "alice") (codes "h") other_token none logged_in ≡ (
      answered (record session { token = other_token; expires_at = 20 + session_ttl }),
      logged_in_again,
    )
unfolding login login_transaction open_session settle find_user_by_username text_eq hash_token
    has_surrogate create_session session_insertable delete_expired_sessions as_user hex_digits
    hex_digit checksum
login_again_run = refl

before-keyed : (u : UserRow) → Has u before.users.rows → find_user_by_id u.id before ≡ some u
unfolding find_user_by_id
before-keyed u here = elim here [ inl e ↦ rw e refl | inr nobody ↦ absurd nobody ]

login_then_current_example :
    (user : UserRow) × (find_user_by_username (codes "alice") before ≡ some user)
    × (text_eq (codes "h") user.password_hash ≡ true)
    × (get_current_user sample 99 (some token) none logged_in_again
        ≡ (answered user, logged_in_again))
login_then_current_example =
    login_then_current sample open_secrets 10 10 99 (codes "alice") (codes "h") token before
      logged_in logged_in_again before-keyed login_run (omega arith) (omega arith)
      (then_login 20 20 (codes "alice") (codes "h") other_token no_more (omega arith)
        login_again_run)

abbrev logged_out : Database
logged_out = database_after (logout sample (some token) none logged_in)

logout_run : logout sample (some token) none logged_in ≡ (answered 204, logged_out)
unfolding logout logout_transaction settle hash_token has_surrogate delete_session login
    login_transaction open_session find_user_by_username text_eq create_session session_insertable
    delete_expired_sessions as_user
logout_run = refl

logout_ends_session_example :
    get_current_user sample 99 (some token) none logged_out ≡ (refused unauthorized, logged_out)
logout_ends_session_example = logout_ends_session sample token 99 logged_in logged_out logout_run

valid_confirm : validate_action confirm_action ≡ ok confirm_action
unfolding validate_action
valid_confirm = refl

transition-offers_example :
    is_accepted (transition reviewed_snapshot (to_domain_command confirm_action))
    ≡ offers (present_workflow sample reviewed_snapshot) confirm_action
transition-offers_example =
    transition-offers sample reviewed_snapshot confirm_action refl valid_confirm

abbrev confirm_payload : TodoWorkflowActionRequest
confirm_payload = record {
  request_id = 40;
  expected_revision = 3;
  step_id = 7 ∷ codes ":REVIEW";
  action = confirm_action;
}

abbrev response : TodoWorkflowResponse
response = as_workflow_response sample completed_snapshot

confirm_run :
    advance_todo_workflow sample 1000 draw 1 7 confirm_payload none before
    ≡ (answered response, after)
unfolding advance_todo_workflow settle to_domain_command
confirm_run = rw (confirmed, transact) refl

advance_after_lost_answer_example :
    ((advance_todo_workflow sample 1000 draw 1 7 confirm_payload (some (lost operational)) before).1
      ≡ after)
    × (advance_todo_workflow sample 2000 (λ i. 900 + i) 1 7 confirm_payload none after
        ≡ (answered response, after))
unfolding to_domain_command
advance_after_lost_answer_example =
    advance_after_lost_answer sample-IsPlatform 1000 2000 draw (λ i. 900 + i) 1 7 confirm_payload
      operational before after tt before-WorkflowsValid confirm_run

abbrev suggest_call : SuggestCall
suggest_call = record {
  user_id = 1;
  workflow_id = 7;
  payload = record {
    request_id = 61;
    expected_revision = 2;
    step_id = 7 ∷ codes ":COLLECT_TASKS";
    clarification = none;
  };
  cloud_tasks = false;
  trace_parent = none;
}

asks_once_example :
    asked (suggest_todo_workflow quiet suggest_call (λ id fingerprint trace. none) waiting).1.events
    ≤ asked waiting.events
      + allowed quiet suggest_call
          (attempt quiet 0
            (reserve_suggestion sample 2000 (suggest_request quiet suggest_call))
            waiting).0
asks_once_example = asks_once quiet suggest_call (λ id fingerprint trace. none) waiting
