-- ===== src/Tests/Config.antt =====
-- internal/config at concrete inputs.
use ingress_api_gateway.Prelude.{String, ◌≡◌, refl, true, Option, none, some}
use ingress_api_gateway.Config.{Parsers, load, validate, get_env_int}
use ingress_api_gateway.Config.Defaults.{passes, validate-load}
use ingress_api_gateway.Tests.Reference.{put, empty}

abbrev parsers : Parsers
parsers = record {
  atoi = λ s. none;
  parse_int = λ s. none;
  parse_float = λ s. none;
  parse_duration = λ s. none;
}

-- A production environment with both secrets, and one that lacks the second.
abbrev secured : String → Option String
secured =
    put "ENV" (some "prod")
      (put "JWT_SECRET" (some "a") (put "PAYMENT_HMAC_SECRET" (some "b") empty))

secured-passes : passes (validate (load parsers secured)) ≡ true
unfolding load get_env_int
secured-passes = validate-load parsers secured refl
