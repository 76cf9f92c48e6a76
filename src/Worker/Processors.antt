-- ===== src/Worker/Processors.antt =====
-- The processors of internal/worker, one for each job type, and what they share.
pub mod Registration
pub mod Payment
pub mod QrScan
pub mod Notification
pub mod Permanent
pub mod Effects
pub mod Window
use ingress_api_gateway.Prelude.{String, ◌<>◌, ◌==◌, if◌then◌else◌}
use ingress_api_gateway.Domain.Error.{Error, sentinel, wrap, err_non_retryable, error_text}

-- `fmt.Errorf("%w: ...", domain.ErrNonRetryable)`.
abbrev pub non_retryable : String → Error
non_retryable detail = wrap "" (sentinel err_non_retryable) (": " <> detail)

-- `fmt.Errorf("%w: <what>: %v", domain.ErrNonRetryable, err)`.
abbrev pub undecodable : (String → String) → String → Error → Error
undecodable quote what e = non_retryable (what <> ": " <> error_text quote e)

unfoldable pub default_str : String → String → String
default_str v def = if v == "" then def else v
