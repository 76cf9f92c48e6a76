-- ===== src/Domain/Error.antt =====
-- internal/domain/errors.go: the sentinel errors, wrapped errors and validation errors, with
-- `errors.Is` and `Error()` of the chains that `fmt.Errorf` builds; and the ErrInvalidToken of
-- internal/security/jwt.go.
use ingress_api_gateway.Prelude.{ℕ, String, Bool, false, ◌<>◌, eqb}

pub data Sentinel : Type 0 where
  err_not_found err_duplicate err_invalid_payload err_invalid_signature err_queue_full : Sentinel
  err_rate_limited err_duplicate_scan err_unknown_job_type err_non_retryable : Sentinel
  err_invalid_token : Sentinel

-- Each sentinel is one value of its own: `errors.New` gives a new pointer at every call.
abbrev pub identity : Sentinel → ℕ
identity err_not_found = 0
identity err_duplicate = 1
identity err_invalid_payload = 2
identity err_invalid_signature = 3
identity err_queue_full = 4
identity err_rate_limited = 5
identity err_duplicate_scan = 6
identity err_unknown_job_type = 7
identity err_non_retryable = 8
identity err_invalid_token = 9

-- `wrap before e after` is `fmt.Errorf("<before>%w<after>", e)`; `foreign` is an error of another
-- package, known by its text alone.
pub data Error : Type 0 where
  sentinel : Sentinel → Error
  validation_error : String → String → Error
  wrap : String → Error → String → Error
  foreign : String → Error

-- The texts given to `errors.New`.
abbrev pub sentinel_text : Sentinel → String
sentinel_text err_not_found = "resource not found"
sentinel_text err_duplicate = "duplicate resource"
sentinel_text err_invalid_payload = "invalid payload"
sentinel_text err_invalid_signature = "invalid signature"
sentinel_text err_queue_full = "queue is full (backpressure)"
sentinel_text err_rate_limited = "rate limit exceeded"
sentinel_text err_duplicate_scan = "duplicate qr scan"
sentinel_text err_unknown_job_type = "unknown job type"
sentinel_text err_non_retryable = "non-retryable error"
sentinel_text err_invalid_token = "invalid token"

-- `Error()`; `quote` is the quoting of `%q`.
unfoldable pub error_text : (String → String) → Error → String
error_text quote (sentinel s) = sentinel_text s
error_text quote (validation_error field message) =
    "validation failed on " <> quote field <> ": " <> message
error_text quote (wrap before e after) = before <> error_text quote e <> after
error_text quote (foreign text) = text

-- `errors.Is(err, target)` for a sentinel target.
unfoldable pub is_error : Error → Sentinel → Bool
is_error (sentinel s) target = eqb (identity s) (identity target)
is_error (validation_error field message) target = false
is_error (wrap before e after) target = is_error e target
is_error (foreign text) target = false

-- `NewValidationError`.
abbrev pub new_validation_error : String → String → Error
new_validation_error field message = validation_error field message
