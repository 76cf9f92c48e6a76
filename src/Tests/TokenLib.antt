-- ===== src/Tests/TokenLib.antt =====
-- A token library that knows one token.
use ingress_api_gateway.Prelude.{
  ℕ, ◌+◌, ◌*◌, ◌/◌, ◌≤◌, ◌<◌, String, ◌≡◌, refl, Bool, true, false, ◌&&◌, Option, none, some, ◌==◌,
  eqb, arith, eq_iff, sym, ap, ◌∙◌, Bool-cases, inl, inr, if◌then◌else◌,
}
use ingress_api_gateway.Domain.Error.{foreign}
use ingress_api_gateway.Domain.Result.{Result, ok, err}
use ingress_api_gateway.Security.Jwt.{
  Claims, Method, hmac, other_method, hs256, ParserOptions, Token, JwtLib, JwtManager,
}
use ingress_api_gateway.Security.Jwt.Tokens.{IsJwt, admits, second}

abbrev pub whole_seconds : ℕ → ℕ
whole_seconds t = t / second * second

abbrev pub manager : JwtManager
manager = record { secret = "s3cret"; issuer = "gateway" }

-- The claims of the one token: an hour for ann.
abbrev pub known : Claims
known = record {
  role = "admin";
  subject = "ann";
  issuer = "gateway";
  issued_at = some 0;
  not_before = some 0;
  expires_at = some 3600000000000;
}

abbrev pub same_time : Option ℕ → Option ℕ → Bool
same_time none none = true
same_time (some a) (some b) = eqb a b
same_time none (some b) = false
same_time (some a) none = false

abbrev pub is_known : Claims → Bool
is_known c =
    (c.role == "admin")
    && (c.subject == "ann")
    && (c.issuer == "gateway")
    && same_time c.issued_at (some 0)
    && same_time c.not_before (some 0)
    && same_time c.expires_at (some 3600000000000)

abbrev pub is_hs256 : Method → Bool
is_hs256 (hmac name) = name == "HS256"
is_hs256 (other_method name) = false

abbrev pub signs_known : Method → String → Claims → Bool
signs_known m key c = is_hs256 m && (key == "s3cret") && is_known c

abbrev pub parse_known : ParserOptions → ℕ → Result String → Result Token
parse_known opts now (ok key) =
    if (key == "s3cret") && admits opts hs256 now known
    then ok (record { method = hs256; claims = some known; valid = true })
    else err (foreign "token is expired")
parse_known opts now (err e) = err e

abbrev pub lib : JwtLib
lib = record {
  numeric_date = whole_seconds;
  signed_string = λ m key c. if signs_known m key c then ok "tok" else err (foreign "no key");
  parse_with_claims = λ opts keys s now.
      if s == "tok" then parse_known opts now (keys hs256) else err (foreign "malformed");
}

abbrev pub signs : Method → String → Claims → String → Bool
signs m key c s = signs_known m key c && (s == "tok")

is_hs256_iff : (m : Method) → is_hs256 m ≡ true → m ≡ hs256
is_hs256_iff (hmac name) h = ground (arith, eq_iff name "HS256")
is_hs256_iff (other_method name) h = ground arith

same_time_iff : (a b : Option ℕ) → same_time a b ≡ true → a ≡ b
same_time_iff none none h = refl
same_time_iff (some a) (some b) h = ground arith
same_time_iff none (some b) h = ground arith
same_time_iff (some a) none h = ground arith

is_known_iff : (c : Claims) → is_known c ≡ true → c ≡ known
is_known_iff c h = ground (
  arith,
  eq_iff c.role "admin",
  eq_iff c.subject "ann",
  eq_iff c.issuer "gateway",
  same_time_iff c.issued_at (some 0),
  same_time_iff c.not_before (some 0),
  same_time_iff c.expires_at (some 3600000000000),
)

signs_known_iff :
    (m : Method) (key : String) (c : Claims)
    → signs_known m key c ≡ true
    → (m ≡ hs256) × (key ≡ "s3cret") × (c ≡ known)
signs_known_iff m key c h =
    let parts : (is_hs256 m ≡ true) × ((key == "s3cret") ≡ true) × (is_known c ≡ true) =
      ground arith in
    (is_hs256_iff m parts.0, (eq_iff key "s3cret").0 parts.1, is_known_iff c parts.2)

signed_known :
    (m : Method) (key : String) (c : Claims) (s : String)
    → lib.signed_string m key c ≡ ok s
    → (signs_known m key c ≡ true) × (s ≡ "tok")
signed_known m key c s h = ground arith

parse_known_ok :
    (opts : ParserOptions) (now : ℕ) (key : String)
    → key ≡ "s3cret"
    → admits opts hs256 now known ≡ true
    → parse_known opts now (ok key)
      ≡ ok (record { method = hs256; claims = some known; valid = true })
parse_known_ok opts now key is h = rw (is, h) refl

parses_known :
    (m : Method) (key : String) (c : Claims) (s : String)
    → lib.signed_string m key c ≡ ok s
    → (opts : ParserOptions) (keys : Method → Result String) (now : ℕ) → keys m ≡ ok key
    → admits opts m now c ≡ true
    → lib.parse_with_claims opts keys s now
      ≡ ok (record { method = m; claims = some c; valid = true })
parses_known m key c s h opts keys now given adm =
    let (signed, token) = signed_known m key c s h in
    let (pm, pk, pc) = signs_known_iff m key c signed in
    let adm' : admits opts hs256 now known ≡ true =
      sym (ap (λ n. admits opts n now c) pm ∙ ap (admits opts hs256 now) pc) ∙ adm in
    rw token (
      ap (parse_known opts now) (ap keys (sym pm) ∙ given)
      ∙ parse_known_ok opts now key pk adm'
      ∙ sym (
          ap (λ n. ok (record { method = n; claims = some c; valid = true })) pm
          ∙ ap (λ d. ok (record { method = hs256; claims = some d; valid = true })) pc))

abbrev pub known_token : Token
known_token = record { method = hs256; claims = some known; valid = true }

parse_known_inv :
    (opts : ParserOptions) (now : ℕ) (k : Result String) (t : Token)
    → parse_known opts now k ≡ ok t
    → (key : String) × (k ≡ ok key)
      × (key ≡ "s3cret")
      × (admits opts hs256 now known ≡ true)
      × (known_token ≡ t)
parse_known_inv opts now (ok key) t h =
    elim (Bool-cases ((key == "s3cret") && admits opts hs256 now known)) [
      | inl p ↦
          let parts : ((key == "s3cret") ≡ true) × (admits opts hs256 now known ≡ true) =
            ground arith in
          let same : known_token ≡ t = ground arith in
          (key, refl, (eq_iff key "s3cret").0 parts.0, parts.1, same)
      | inr n ↦ ground arith
    ]
parse_known_inv opts now (err e) t h = ground arith

read_known :
    (opts : ParserOptions) (keys : Method → Result String) (s : String) (now : ℕ) (t : Token)
    → lib.parse_with_claims opts keys s now ≡ ok t
    → (s ≡ "tok") × (parse_known opts now (keys hs256) ≡ ok t)
read_known opts keys s now t h = ground (arith, eq_iff s "tok")

checks_known :
    (opts : ParserOptions) (keys : Method → Result String) (s : String) (now : ℕ) (t : Token)
    (c : Claims)
    → lib.parse_with_claims opts keys s now ≡ ok t
    → t.claims ≡ some c
    → t.valid ≡ true
    → (key : String) × (keys t.method ≡ ok key)
      × (signs t.method key c s ≡ true)
      × (admits opts t.method now c ≡ true)
checks_known opts keys s now t c h is_claims valid =
    let (token, parsed) = read_known opts keys s now t h in
    let (key, given, secret, admitted, same) = parse_known_inv opts now (keys hs256) t parsed in
    let same_claims : some known ≡ some c = ap (λ u. u.claims) same ∙ is_claims in
    let c_known : known ≡ c = ground arith in
    (
      key,
      ap (λ u. keys u.method) (sym same) ∙ given,
      rw (← same) (rw (← c_known) (rw (secret, token) refl)),
      rw (← same) (rw (← c_known) admitted),
    )

truncates : (t : ℕ) → (whole_seconds t ≤ t) × (t < whole_seconds t + second)
truncates t = omega arith

pub lib-IsJwt : IsJwt lib signs
lib-IsJwt = record { truncates = truncates; parses = parses_known; checks = checks_known }
