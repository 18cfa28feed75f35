-- ===== src/Http.antt =====
-- What a FastAPI handler of apps/api/app answers: its value, or the `HTTPException` that it raises.
use expo_fastapi_todo.Prelude.{ℕ, Text}

-- `detail`: a text, or a dict of a code and a message
pub data Detail : Type 0 where
  message : Text → Detail
  coded : Text → Text → Detail

pub record HttpException : Type 0 where
  pub status_code : ℕ
  pub detail : Detail

pub data Answer {ℓ} (A : Type ℓ) : Type ℓ where
  answered : A → Answer A
  refused : HttpException → Answer A

abbrev pub refuse {ℓ} : {A : Type ℓ} → ℕ → Text → Answer A
refuse status_code text = refused (record { status_code = status_code; detail = message text })

infixl 5 ◌>>=◌
abbrev pub ◌>>=◌ {ℓ κ} : {A : Type ℓ} {B : Type κ} → Answer A → (A → Answer B) → Answer B
refused e >>= next = refused e
answered a >>= next = next a
