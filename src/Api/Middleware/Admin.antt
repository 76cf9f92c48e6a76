-- ===== src/Api/Middleware/Admin.antt =====
-- internal/api/middleware/auth.go with internal/security/jwt.go: a token of Generate at the admin API.
use text.Mathlib.TextPositions.{slice-append_right, starts_with-append, len-append}
use ingress_api_gateway.Prelude.{
  ℕ, ◌+◌, ◌≤◌, String, ◌≡◌, refl, ap, Bool, true, false, not, ◌==◌, ◌<>◌, if◌then◌else◌,
}
use ingress_api_gateway.Prelude.Int.{ℤ}
use ingress_api_gateway.Domain.Result.{Result, ok}
use ingress_api_gateway.Security.Jwt.{
  Claims, Method, JwtLib, JwtManager, add_duration, generate, verify, new_claims,
}
use ingress_api_gateway.Security.Jwt.Tokens.{IsJwt, second, verify-generate}
use ingress_api_gateway.Api.Http.{Request, Handler, write_error}
use ingress_api_gateway.Api.Middleware.{jwt_auth, bearer, bearer_token}

bearer_token-append :
    (trim_space : String → String) (s : String)
    → bearer_token trim_space (bearer <> s) ≡ trim_space s
unfolding bearer_token
bearer_token-append trim_space s =
    rw (len-append bearer s) (ap trim_space (slice-append_right bearer s))

if-not {ℓ} : {A : Type ℓ} (b : Bool) (x y : A) → (if not b then y else x) ≡ (if b then x else y)
if-not true x y = refl
if-not false x y = refl

jwt_auth-verified :
    {W : Type 0} (check : String → Result Claims) (trim_space : String → String) (next : Handler W)
    (s : String) (c : Claims) (r : Request) (w : W)
    → r.header "Authorization" ≡ (bearer <> s)
    → trim_space s ≡ s
    → check s ≡ ok c
    → jwt_auth check trim_space "admin" next r w ≡ (
        if c.role == "admin"
        then next r w
        else (write_error r 403 "forbidden" "insufficient role", w))
unfolding jwt_auth
jwt_auth-verified check trim_space next s c r w sent trimmed checked = rw sent (
    rw (starts_with-append bearer s) (
      rw (bearer_token-append trim_space s)
        (rw trimmed (rw checked (if-not (c.role == "admin") (next r w) _)))))

-- With golang-jwt as documented: a request whose Authorization header is "Bearer " and a token of
-- Generate that TrimSpace leaves as it is, sent no earlier than its issue and at least a second
-- before its time to live has passed, passes to the handler if the token's role is admin, and is
-- otherwise answered 403 with the state as it was.
pub jwt_auth-generate :
    {W : Type 0} (lib : JwtLib) (signs : Method → String → Claims → String → Bool)
    (is_jwt : IsJwt lib signs) (quote trim_space : String → String) (m : JwtManager)
    (subject role s : String) (ttl : ℤ) (issued now : ℕ) (next : Handler W) (r : Request) (w : W)
    → generate lib m subject role ttl issued ≡ ok s
    → issued ≤ now
    → now + second ≤ add_duration issued ttl
    → r.header "Authorization" ≡ (bearer <> s)
    → trim_space s ≡ s
    → jwt_auth (verify lib quote m now) trim_space "admin" next r w ≡ (
        if role == "admin"
        then next r w
        else (write_error r 403 "forbidden" "insufficient role", w))
jwt_auth-generate lib signs is_jwt quote trim_space m subject role s ttl issued now next r w made
      from until sent trimmed =
    jwt_auth-verified (verify lib quote m now) trim_space next s
      (new_claims lib m subject role ttl issued) r w sent trimmed
      (verify-generate lib signs is_jwt quote m subject role s ttl issued now made from until)
