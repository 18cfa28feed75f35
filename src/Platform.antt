-- ===== src/Platform.antt =====
-- What the program takes from the standard library and is not modelled: the text of a UUID, `str` of
-- a JSON value, the JSON encoder and SHA-256. They are parameters; `IsPlatform` is what they document.
use expo_fastapi_todo.Prelude.{
  ℕ, ◌≡◌, Option, some, Text, length, if◌then◌else◌, all, leb, ◌&&◌, ◌||◌, true, Bool, ◌==◌,
}
use expo_fastapi_todo.Json.{Json}
use expo_fastapi_todo.Result.{Result, ok, err, value_error}
use expo_fastapi_todo.Title.{has_surrogate}

pub record Platform : Type 0 where
  -- `str(uuid)`
  pub show_uuid : ℕ → Text
  -- `UUID(text)`; `none` is its `ValueError`
  pub parse_uuid : Text → Option ℕ
  -- `str(value)`
  pub str : Json → Text
  -- `json.dumps(value, sort_keys=True, separators=(",", ":"), ensure_ascii=False)`
  pub dumps : Json → Text
  -- `hashlib.sha256(text.encode("utf-8")).hexdigest()`, of a text that can be encoded
  pub sha256_hex : Text → Text
  -- whether the W3C propagator of OpenTelemetry reads a valid span context with nonzero ids
  pub propagates : Text → Bool

-- `character in "0123456789abcdef"`
abbrev pub is_hex : ℕ → Bool
is_hex c = (leb b'0' c && leb c b'9') || (leb b'a' c && leb c b'f')

-- the pattern `^[0-9a-f]{64}$`
unfoldable pub is_fingerprint : Text → Bool
is_fingerprint t = length t == 64 && all is_hex t

pub record IsPlatform (p : Platform) : Type 0 where
  pub uuid_round_trip : (u : ℕ) → p.parse_uuid (p.show_uuid u) ≡ some u
  pub str_text : (t : Text) → p.str (Json.text t) ≡ t
  pub digest_shape : (t : Text) → is_fingerprint (p.sha256_hex t) ≡ true

-- `fingerprint_payload` of workflow_service.py. Encoding a surrogate as UTF-8 raises a `ValueError`.
unfoldable pub fingerprint_payload : Platform → Json → Result Text
fingerprint_payload p payload =
    let encoded = p.dumps payload in
    if has_surrogate encoded then err value_error else ok (p.sha256_hex encoded)
