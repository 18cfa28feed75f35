-- ===== src/Tests/Sample.antt =====
-- A small platform and a small database. The platform's digest is a checksum in hexadecimal digits.
use expo_fastapi_todo.Prelude.{
  ℕ, zero, suc, all, ◌+◌, ◌*◌, ◌/◌, ◌≡◌, refl, true, false, Option, none, some, List, [], ◌∷◌, ◌++◌,
  length, ltb, Text, codes, if◌then◌else◌, arith,
}
use Prim.Native.Nat.{◌%◌}
use expo_fastapi_todo.Result.{Result, ok, err}
use expo_fastapi_todo.Json.{
  Json, null, boolean, num, negative, real, text, arr, obj, Items, nil, cons, Fields, end, field,
}
use expo_fastapi_todo.Platform.{Platform, IsPlatform, is_hex, is_fingerprint}
use expo_fastapi_todo.Database.Rows.{UserRow, WorkflowRow}
use expo_fastapi_todo.Database.Transaction.{Database}
use expo_fastapi_todo.Workflow.Domain.{Uuid, WorkflowSnapshot, review, confirm, cancel, completed}
use expo_fastapi_todo.Workflow.Service.{AdvanceRequest}

unfoldable pub hex_digit : ℕ → ℕ
hex_digit n = if ltb n 10 then 48 + n else if ltb n 16 then 87 + n else 48

hex_digit-is_hex : (n : ℕ) → is_hex (hex_digit n) ≡ true
unfolding hex_digit
hex_digit-is_hex n = ground arith

-- the last `i` hexadecimal digits of a number
unfoldable pub hex_digits : ℕ → ℕ → Text
hex_digits zero n = []
hex_digits (suc i) n = hex_digit (n % 16) ∷ hex_digits i (n / 16)

unfoldable pub checksum : ℕ → Text → ℕ
checksum h [] = h
checksum h (c ∷ cs) = checksum ((h * 31 + c) % 4294967296) cs

hex_digits-shape : (i n : ℕ) → (length (hex_digits i n) ≡ i) × (all is_hex (hex_digits i n) ≡ true)
unfolding hex_digits
hex_digits-shape zero n = (refl, refl)
hex_digits-shape (suc i) n = ground (arith, hex_digits-shape i (n / 16), hex_digit-is_hex (n % 16))

unfoldable mutual
  pub dump : Json → Text
  dump null = codes "null"
  dump (boolean true) = codes "true"
  dump (boolean false) = codes "false"
  dump (num n) = n ∷ []
  dump (negative n) = codes "-" ++ n ∷ []
  dump (real t) = t
  dump (text t) = codes "'" ++ t ++ codes "'"
  dump (arr vs) = codes "[" ++ dump_items vs
  dump (obj fs) = codes "{" ++ dump_fields fs

  pub dump_items : Items → Text
  dump_items nil = codes "]"
  dump_items (cons v vs) = dump v ++ codes "," ++ dump_items vs

  pub dump_fields : Fields → Text
  dump_fields end = codes "}"
  dump_fields (field name v fs) = name ++ codes ":" ++ dump v ++ codes "," ++ dump_fields fs

abbrev pub parse_one : Text → Option ℕ
parse_one (u ∷ []) = some u
parse_one _ = none

abbrev pub text_or_empty : Json → Text
text_or_empty (text t) = t
text_or_empty _ = []

abbrev pub sample : Platform
sample = record {
  show_uuid = λ u. u ∷ [];
  parse_uuid = parse_one;
  str = text_or_empty;
  dumps = dump;
  sha256_hex = λ t. hex_digits 64 (checksum 7 t);
  propagates = λ t. true;
}

pub sample-IsPlatform : IsPlatform sample
unfolding is_fingerprint
sample-IsPlatform = record {
  uuid_round_trip = λ u. refl;
  str_text = λ t. refl;
  digest_shape = λ t. ground (arith, hex_digits-shape 64 (checksum 7 t));
}

abbrev pub alice : UserRow
alice = record {
  id = 1;
  public_id = 100;
  username = codes "alice";
  password_hash = codes "h";
  real_name_ciphertext = none;
}

abbrev pub trip : Text
trip = codes "Trip"

abbrev pub breakdown : List Text
breakdown = codes "Book" ∷ codes "Pack" ∷ []

-- Alice's workflow, in review
abbrev pub reviewed_row : WorkflowRow
reviewed_row = record {
  id = 1;
  public_id = 7;
  owner_id = 1;
  state = codes "REVIEW";
  title = trip;
  involves_multiple_steps = some true;
  proposed_todo_titles = breakdown;
  completion_result = none;
  revision = 3;
  definition_version = 1;
}

abbrev pub reviewed_snapshot : WorkflowSnapshot
reviewed_snapshot = record {
  id = 7;
  state = review;
  title = trip;
  involves_multiple_steps = some true;
  proposed_todo_titles = breakdown;
  created_todos = none;
  revision = 3;
  definition_version = 1;
}

abbrev pub before : Database
before = record {
  users = record { rows = alice ∷ []; next_id = 2 };
  sessions = record { rows = []; next_id = 1 };
  todos = record { rows = []; next_id = 1 };
  events = record { rows = []; next_id = 1 };
  workflows = record { rows = reviewed_row ∷ []; next_id = 2 };
  start_requests = [];
  action_requests = [];
  suggestions = record { rows = []; next_id = 1 };
}

-- the i-th random UUID of a call
abbrev pub draw : ℕ → Uuid
draw i = 500 + i

abbrev pub confirmation : AdvanceRequest
confirmation = record {
  owner_id = 1;
  workflow_id = 7;
  command = confirm;
  request_id = 40;
  expected_revision = 3;
  step_id = 7 ∷ codes ":REVIEW";
}

-- another request, for the same revision
abbrev pub cancellation : AdvanceRequest
cancellation = record confirmation { command = cancel; request_id = 41 }

-- another payload, under the same request id
abbrev pub changed_confirmation : AdvanceRequest
changed_confirmation = record confirmation { command = cancel }

abbrev pub completed_snapshot : WorkflowSnapshot
completed_snapshot = record {
  id = 7;
  state = completed;
  title = trip;
  involves_multiple_steps = some true;
  proposed_todo_titles = breakdown;
  created_todos = some (
      record { id = 500; title = codes "Book"; completed = false }
      ∷ record { id = 501; title = codes "Pack"; completed = false }
      ∷ []);
  revision = 4;
  definition_version = 1;
}

abbrev pub database_of {ℓ} : {A : Type ℓ} → Result (A × Database) → Database
database_of (ok (a, db)) = db
database_of (err e) = before
