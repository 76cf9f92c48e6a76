-- ===== src/Security/Jwt/Tokens.antt =====
-- internal/security/jwt.go: which tokens Verify takes.
use ingress_api_gateway.Prelude.{
  ℕ, ◌+◌, ◌≤◌, ◌<◌, String, ◌≡◌, refl, Bool, true, false, ◌||◌, ◌&&◌, Option, none, some, List, [],
  ◌∷◌, ◌==◌, leb, ltb, arith, eq_iff, sym, ap, ◌∙◌, eq_refl,
}
use ingress_api_gateway.Prelude.Int.{ℤ}
use ingress_api_gateway.Domain.Error.{Error, err_invalid_token, is_error}
use ingress_api_gateway.Domain.Result.{Result, ok, err}
use ingress_api_gateway.Security.Jwt.{
  Claims, Method, hmac, other_method, alg, hs256, ParserOptions, Token, JwtLib, JwtManager,
  add_duration, new_claims, checked_claims, verified, generate, key_func, parser_options, verify,
}

abbrev pub names : List String → String → Bool
names [] s = false
names (t ∷ ts) s = (t == s) || names ts s

abbrev pub issued_by : Option String → String → Bool
issued_by none issuer = true
issued_by (some expected) issuer = issuer == expected

abbrev pub is_past : ℕ → Option ℕ → Bool
is_past now none = true
is_past now (some t) = leb t now

abbrev pub is_ahead : ℕ → Option ℕ → Bool
is_ahead now none = true
is_ahead now (some t) = ltb now t

-- The claims that a parse checks.
abbrev pub admits : ParserOptions → Method → ℕ → Claims → Bool
admits opts m now c =
    names opts.valid_methods (alg m)
    && issued_by opts.issuer c.issuer
    && is_past now c.not_before
    && is_ahead now c.expires_at

-- A nanosecond clock's second.
abbrev pub second : ℕ
second = 1000000000

-- What golang-jwt documents; `signs m key c s` says that s carries the claims c and a signature of m
-- under the key.
pub record IsJwt (lib : JwtLib) (signs : Method → String → Claims → String → Bool) : Type 0 where
  pub truncates : (t : ℕ) → (lib.numeric_date t ≤ t) × (t < lib.numeric_date t + second)
  pub parses :
      (m : Method) (key : String) (c : Claims) (s : String)
      → lib.signed_string m key c ≡ ok s
      → (opts : ParserOptions) (keys : Method → Result String) (now : ℕ) → keys m ≡ ok key
      → admits opts m now c ≡ true
      → lib.parse_with_claims opts keys s now
        ≡ ok (record { method = m; claims = some c; valid = true })
  pub checks :
      (opts : ParserOptions) (keys : Method → Result String) (s : String) (now : ℕ) (t : Token)
      (c : Claims)
      → lib.parse_with_claims opts keys s now ≡ ok t
      → t.claims ≡ some c
      → t.valid ≡ true
      → (key : String) × (keys t.method ≡ ok key)
        × (signs t.method key c s ≡ true)
        × (admits opts t.method now c ≡ true)

-- The parts of `admits`.
admits_parts :
    (opts : ParserOptions) (n : Method) (now : ℕ) (c : Claims)
    → admits opts n now c ≡ true
    → (names opts.valid_methods (alg n) ≡ true)
      × (issued_by opts.issuer c.issuer ≡ true)
      × (is_past now c.not_before ≡ true)
      × (is_ahead now c.expires_at ≡ true)
admits_parts opts n now c h = ground arith

checked_claims_ok :
    (o : Option Claims) (v : Bool) (c : Claims)
    → checked_claims o v ≡ ok c
    → (o ≡ some c) × (v ≡ true)
checked_claims_ok none v c h = ground arith
checked_claims_ok (some d) true c h = ground arith
checked_claims_ok (some d) false c h = ground arith

module _ (quote : String → String) (m : JwtManager) where
  verified_ok :
      (r : Result Token) (c : Claims)
      → verified quote r ≡ ok c
      → (t : Token) × (r ≡ ok t) × (t.claims ≡ some c) × (t.valid ≡ true)
  verified_ok (err e) c h = ground arith
  verified_ok (ok t) c h =
      let (is_claims, valid) = checked_claims_ok t.claims t.valid c h in (t, refl, is_claims, valid)

  key_func_ok :
      (n : Method) (key : String)
      → key_func quote m n ≡ ok key
      → names (parser_options m).valid_methods (alg n) ≡ true
      → (n ≡ hs256) × (key ≡ m.secret)
  unfolding key_func parser_options
  key_func_ok (hmac name) key h named = ground (arith, eq_iff "HS256" name)
  key_func_ok (other_method name) key h named = ground arith

  issued_by_self : issued_by (parser_options m).issuer m.issuer ≡ true
  unfolding parser_options
  issued_by_self = ground (arith, eq_refl m.issuer)

  issued_by_cases :
      (issuer : String)
      → issued_by (parser_options m).issuer issuer ≡ true
      → ((m.issuer == "") || (issuer == m.issuer)) ≡ true
  unfolding parser_options
  issued_by_cases issuer h = ground arith

module _ (lib : JwtLib) (signs : Method → String → Claims → String → Bool)
    (is_jwt : IsJwt lib signs) (quote : String → String) (m : JwtManager) where
  -- With golang-jwt as documented: a token that Generate issues, verified no earlier and at least a
  -- second before its time to live has passed, gives back the claims that it was issued with.
  pub verify-generate :
      (subject role s : String) (ttl : ℤ) (issued now : ℕ)
      → generate lib m subject role ttl issued ≡ ok s
      → issued ≤ now
      → now + second ≤ add_duration issued ttl
      → verify lib quote m now s ≡ ok (new_claims lib m subject role ttl issued)
  unfolding generate verify key_func parser_options
  verify-generate subject role s ttl issued now made from until =
      let claims = new_claims lib m subject role ttl issued in
      let begun = is_jwt.truncates issued in
      let ends = is_jwt.truncates (add_duration issued ttl) in
      let past : is_past now claims.not_before ≡ true = ground arith in
      let ahead : is_ahead now claims.expires_at ≡ true = ground arith in
      ap (verified quote) (
        is_jwt.parses hs256 m.secret claims s made (parser_options m) (key_func quote m) now refl
          (rw (issued_by_self quote m, past, ahead) refl))

  -- With golang-jwt as documented: claims that Verify gives stand in the token under an HS256
  -- signature with the secret; they are of the issuer, if one is set, and the time is neither before
  -- their begin nor at or behind their end, if they have these.
  pub verify_checks :
      (s : String) (now : ℕ) (c : Claims)
      → verify lib quote m now s ≡ ok c
      → (signs hs256 m.secret c s ≡ true)
        × (((m.issuer == "") || (c.issuer == m.issuer)) ≡ true)
        × (is_past now c.not_before ≡ true)
        × (is_ahead now c.expires_at ≡ true)
  unfolding verify key_func parser_options
  verify_checks s now c h =
      let (t, parsed, is_claims, valid) =
        verified_ok quote m (lib.parse_with_claims (parser_options m) (key_func quote m) s now) c
          h in
      let (key, given, signed, admitted) =
        is_jwt.checks (parser_options m) (key_func quote m) s now t c parsed is_claims valid in
      let (named, issued, past, ahead) = admits_parts (parser_options m) t.method now c admitted in
      let (method, secret) = key_func_ok quote m t.method key given named in
      (
        sym (ap (λ n. signs n key c s) method ∙ ap (λ k. signs hs256 k c s) secret) ∙ signed,
        issued_by_cases quote m c.issuer issued,
        past,
        ahead,
      )

  -- Every error of Verify is ErrInvalidToken for errors.Is.
  pub verify_error :
      (s : String) (now : ℕ) (e : Error)
      → verify lib quote m now s ≡ err e
      → is_error e err_invalid_token ≡ true
  unfolding verify is_error
  verify_error s now e h = ground arith
