-- ===== src/Config/Defaults.antt =====
-- internal/config/config.go: which environments are refused in production.
use ingress_api_gateway.Prelude.{
  String, ◌≡◌, refl, ap, ◌∙◌, Bool, true, false, not, ◌&&◌, Option, none, some, arith, ◌==◌,
  eq_refl, Bool-cases, inl, inr,
}
use ingress_api_gateway.Prelude.Int.{is_positive}
use ingress_api_gateway.Domain.Error.{Error}
use ingress_api_gateway.Config.{
  Config, Parsers, load, validate, get_env, text_or, insecure_jwt_secret, insecure_hmac_key,
}

-- A variable that is set, is not empty, and is not the default.
abbrev pub is_own : String → Option String → Bool
is_own def none = false
is_own def (some v) = not (v == "") && not (v == def)

abbrev pub passes : Option Error → Bool
passes none = true
passes (some e) = false

-- What the check reads of the configuration that is loaded.
loaded :
    (parsers : Parsers) (lookup_env : String → Option String)
    → ((load parsers lookup_env).env ≡ text_or "dev" (lookup_env "ENV"))
      × ((load parsers lookup_env).security.jwt_secret
          ≡ text_or insecure_jwt_secret (lookup_env "JWT_SECRET"))
      × ((load parsers lookup_env).security.payment_hmac_key
          ≡ text_or insecure_hmac_key (lookup_env "PAYMENT_HMAC_SECRET"))
unfolding load get_env
loaded parsers lookup_env = (refl, refl, refl)

own_text : (def : String) (o : Option String) → (text_or def o == def) ≡ not (is_own def o)
own_text def none = eq_refl def
own_text def (some v) = elim (Bool-cases (v == "")) [
  | inl p ↦ rw p (eq_refl def)
  | inr n ↦ rw n (ground arith)
]

validate_read :
    (c : Config) (secret key : Option String)
    → c.env ≡ "prod"
    → c.security.jwt_secret ≡ text_or insecure_jwt_secret secret
    → c.security.payment_hmac_key ≡ text_or insecure_hmac_key key
    → passes (validate c) ≡ (
        is_own insecure_jwt_secret secret
        && (is_own insecure_hmac_key key && is_positive c.worker.count))
unfolding validate
validate_read c secret key env es ek =
    let prod : (c.env == "prod") ≡ true = rw env refl in
    let own_secret : (c.security.jwt_secret == insecure_jwt_secret)
        ≡ not (is_own insecure_jwt_secret secret) =
      rw es (own_text insecure_jwt_secret secret) in
    let own_key : (c.security.payment_hmac_key == insecure_hmac_key)
        ≡ not (is_own insecure_hmac_key key) =
      rw ek (own_text insecure_hmac_key key) in
    ground (arith, prod, own_secret, own_key)

-- In production the configuration that is loaded passes the check exactly if both secrets are set to a
-- value that is neither empty nor the default, and the worker count that was read is positive.
pub validate-load :
    (parsers : Parsers) (lookup_env : String → Option String)
    → lookup_env "ENV" ≡ some "prod"
    → passes (validate (load parsers lookup_env)) ≡ (
        is_own insecure_jwt_secret (lookup_env "JWT_SECRET")
        && (is_own insecure_hmac_key (lookup_env "PAYMENT_HMAC_SECRET")
            && is_positive (load parsers lookup_env).worker.count))
validate-load parsers lookup_env prod =
    let (env, secret, key) = loaded parsers lookup_env in
    validate_read (load parsers lookup_env) (lookup_env "JWT_SECRET")
      (lookup_env "PAYMENT_HMAC_SECRET") (env ∙ ap (text_or "dev") prod) secret key
