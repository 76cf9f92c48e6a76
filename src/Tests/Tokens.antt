-- ===== src/Tests/Tokens.antt =====
-- internal/security/jwt.go and the admin check at a concrete token.
use ingress_api_gateway.Prelude.{
  ℕ, ◌+◌, ◌≡◌, refl, true, ◌||◌, none, [], ◌==◌, arith, if◌then◌else◌,
}
use ingress_api_gateway.Prelude.Int.{pos}
use ingress_api_gateway.Security.Jwt.{hs256, generate, verify, key_func, parser_options}
use ingress_api_gateway.Security.Jwt.Tokens.{is_past, is_ahead, verify_checks}
use ingress_api_gateway.Api.Http.{Request, bytes, Handler, write_json, many_jobs}
use ingress_api_gateway.Api.Middleware.{jwt_auth}
use ingress_api_gateway.Api.Middleware.Admin.{jwt_auth-generate}
use ingress_api_gateway.Tests.TokenLib.{manager, known, lib, signs, lib-IsJwt}

verify_checks_example :
    (signs hs256 "s3cret" known "tok" ≡ true)
    × (((manager.issuer == "") || (known.issuer == manager.issuer)) ≡ true)
    × (is_past 7 known.not_before ≡ true)
    × (is_ahead 7 known.expires_at ≡ true)
unfolding verify parser_options key_func
verify_checks_example = verify_checks lib signs lib-IsJwt (λ s. s) manager "tok" 7 known refl

abbrev with_token : Request
with_token = record {
  method = "GET";
  path = "/api/v1/admin/jobs";
  route = "/api/v1/admin/jobs";
  header = λ k. if k == "Authorization" then "Bearer tok" else "";
  content_length = pos 0;
  body = λ limit. bytes "";
  limit = none;
  remote_addr = "1.2.3.4:5";
  request_id = "r";
  trace_id = "t";
}

abbrev listed : Handler ℕ
listed r w = (write_json 200 (many_jobs 0 []), w + 1)

jwt_auth-generate_example :
    jwt_auth (verify lib (λ s. s) manager 7) (λ s. s) "admin" listed with_token 0
    ≡ listed with_token 0
unfolding generate
jwt_auth-generate_example =
    jwt_auth-generate lib signs lib-IsJwt (λ s. s) (λ s. s) manager "ann" "admin" "tok"
      (pos 3600000000000) 0 7 listed with_token 0 refl (omega arith) (omega arith) refl refl
