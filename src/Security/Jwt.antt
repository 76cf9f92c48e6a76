-- ===== src/Security/Jwt.antt =====
-- internal/security/jwt.go: the tokens of the admin API. golang-jwt is a parameter.
pub mod Tokens
use ingress_api_gateway.Prelude.{
  ℕ, ◌+◌, ◌-◌, ◌≤◌, ◌<◌, String, ◌≡◌, Bool, true, false, not, ◌||◌, Option, none, some, List, [],
  ◌∷◌, ◌==◌, ◌<>◌, leb, ltb, if◌then◌else◌, ◌&&◌,
}
use ingress_api_gateway.Prelude.Int.{ℤ, pos_part, neg_part}
use ingress_api_gateway.Domain.Error.{Error, sentinel, wrap, err_invalid_token, error_text}
use ingress_api_gateway.Domain.Result.{Result, ok, err}

-- The claims of an admin token; a time that is not set is `none`.
pub record Claims : Type 0 where
  pub role : String
  pub subject : String
  pub issuer : String
  pub issued_at : Option ℕ
  pub not_before : Option ℕ
  pub expires_at : Option ℕ

-- A signing method with the name that the header gives: of the type SigningMethodHMAC, or another.
pub data Method : Type 0 where
  hmac : String → Method
  other_method : String → Method

abbrev pub alg : Method → String
alg (hmac name) = name
alg (other_method name) = name

abbrev pub hs256 : Method
hs256 = hmac "HS256"

-- `WithValidMethods` and `WithIssuer`.
pub record ParserOptions : Type 0 where
  pub valid_methods : List String
  pub issuer : Option String

-- What a parse gives back: the claims are `none` if they have another type.
pub record Token : Type 0 where
  pub method : Method
  pub claims : Option Claims
  pub valid : Bool

-- golang-jwt: `NewNumericDate`, `NewWithClaims` with `SignedString`, and `ParseWithClaims` at a time.
pub record JwtLib : Type 0 where
  pub numeric_date : ℕ → ℕ
  pub signed_string : Method → String → Claims → Result String
  pub parse_with_claims : ParserOptions → (Method → Result String) → String → ℕ → Result Token

pub record JwtManager : Type 0 where
  pub secret : String
  pub issuer : String

-- `now.Add(ttl)`; there is no time before 1970.
abbrev pub add_duration : ℕ → ℤ → ℕ
add_duration t d = t + pos_part d - neg_part d

abbrev pub new_claims : JwtLib → JwtManager → String → String → ℤ → ℕ → Claims
new_claims lib m subject role ttl now = record {
  role = role;
  subject = subject;
  issuer = m.issuer;
  issued_at = some (lib.numeric_date now);
  not_before = some (lib.numeric_date now);
  expires_at = some (lib.numeric_date (add_duration now ttl));
}

unfoldable pub generate : JwtLib → JwtManager → String → String → ℤ → ℕ → Result String
generate lib m subject role ttl now =
    lib.signed_string hs256 m.secret (new_claims lib m subject role ttl now)

-- The secret is given for an HMAC method alone.
unfoldable pub key_func : (String → String) → JwtManager → Method → Result String
key_func quote m (hmac name) = ok m.secret
key_func quote m (other_method name) =
    err (wrap "" (sentinel err_invalid_token) (": unexpected signing method " <> quote name))

unfoldable pub parser_options : JwtManager → ParserOptions
parser_options m = record {
  valid_methods = "HS256" ∷ [];
  issuer = if not (m.issuer == "") then some m.issuer else none;
}

abbrev pub checked_claims : Option Claims → Bool → Result Claims
checked_claims none valid = err (sentinel err_invalid_token)
checked_claims (some claims) valid =
    if not valid then err (sentinel err_invalid_token) else ok claims

abbrev pub verified : (String → String) → Result Token → Result Claims
verified quote (ok t) = checked_claims t.claims t.valid
verified quote (err e) = err (wrap "" (sentinel err_invalid_token) (": " <> error_text quote e))

unfoldable pub verify : JwtLib → (String → String) → JwtManager → ℕ → String → Result Claims
verify lib quote m now s =
    verified quote (lib.parse_with_claims (parser_options m) (key_func quote m) s now)
