-- ===== src/Security.antt =====
-- internal/security/hmac.go: the signature check of payment webhooks. `hmac.Equal` is equality of
-- the texts; its running time is not modelled.
pub mod Jwt
use Prim.Native.String.{slice, len}
use text.Mathlib.TextPositions.{slice-append_right, starts_with-append, len-append}
use text.Mathlib.TextEquality.{starts_with_iff}
use text.Mathlib.TextLemmas.{append-eq-nil_iff}
use ingress_api_gateway.Prelude.{
  String, ◌≡◌, refl, ap, sym, ◌∙◌, ==-false, ne_text, ◌⊎◌, ◌↔◌, inl, inr, Bool, true, false, arith,
  ◌<>◌, ◌==◌, eq_iff, eq_refl, starts_with, Bool-cases, if◌then◌else◌,
}
use ingress_api_gateway.Domain.Ports.{Runtime}

-- `strings.TrimPrefix`
unfoldable pub trim_prefix : String → String → String
trim_prefix s prefix = if starts_with s prefix then slice s (len prefix) (len s) else s

unfoldable pub verify_hmac_sha256 : Runtime → String → String → String → Bool
verify_hmac_sha256 rt secret payload signature =
    if signature == ""
    then false
    else rt.hmac_sha256_hex secret payload == trim_prefix signature "sha256="

trim_prefix_self : (prefix s : String) → trim_prefix (prefix <> s) prefix ≡ s
unfolding trim_prefix
trim_prefix_self prefix s =
    rw (starts_with-append prefix s) (rw (len-append prefix s) (slice-append_right prefix s))

ne_prefix_nil : (s : String) → (("sha256=" <> s) == "") ≡ false
ne_prefix_nil s = ==-false _ "" (λ e. ne_text "sha256=" "" refl ((append-eq-nil_iff.0 e).0))

trim_prefix_none : (s prefix : String) → starts_with s prefix ≡ false → trim_prefix s prefix ≡ s
unfolding trim_prefix
trim_prefix_none s prefix h = rw h

trim_prefix_some :
    (s prefix : String) → starts_with s prefix ≡ true → s ≡ (prefix <> trim_prefix s prefix)
trim_prefix_some s prefix h =
    let found = (starts_with_iff s prefix).0 h in
    rw (← found.1) (ap (λ (u : String). prefix <> u) (sym (trim_prefix_self prefix found.0)))

-- The forms of a signature that are taken.
abbrev pub IsSignature : String → String → Type 0
IsSignature signature mac = (signature ≡ mac) ⊎ (signature ≡ ("sha256=" <> mac))

verify-IsSignature :
    (rt : Runtime) (secret payload signature : String)
    → verify_hmac_sha256 rt secret payload signature ≡ true
    → IsSignature signature (rt.hmac_sha256_hex secret payload)
unfolding verify_hmac_sha256
verify-IsSignature rt secret payload signature h =
    let mac = rt.hmac_sha256_hex secret payload in
    let trimmed : mac ≡ trim_prefix signature "sha256=" =
      ground (arith, eq_iff mac (trim_prefix signature "sha256=")) in
    elim (Bool-cases (starts_with signature "sha256=")) [
      | inl p ↦ inr (
          trim_prefix_some signature "sha256=" p
          ∙ ap (λ (u : String). "sha256=" <> u) (sym trimmed))
      | inr n ↦ inl (sym (trimmed ∙ trim_prefix_none signature "sha256=" n))
    ]

IsSignature-verify :
    (rt : Runtime) (secret payload signature : String)
    → starts_with (rt.hmac_sha256_hex secret payload) "sha256=" ≡ false
    → (rt.hmac_sha256_hex secret payload == "") ≡ false
    → IsSignature signature (rt.hmac_sha256_hex secret payload)
    → verify_hmac_sha256 rt secret payload signature ≡ true
unfolding verify_hmac_sha256
IsSignature-verify rt secret payload signature plain full (inl e) =
    rw e (rw full (rw (trim_prefix_none _ "sha256=" plain) (eq_refl _)))
IsSignature-verify rt secret payload signature plain full (inr e) =
    let mac = rt.hmac_sha256_hex secret payload in
    rw e (rw (ne_prefix_nil mac) (rw (trim_prefix_self "sha256=" mac) (eq_refl mac)))

-- With a MAC that is neither empty nor begins with the prefix, as no hexadecimal text does, a
-- signature is taken exactly if it is the MAC of the payload, bare or behind "sha256=".
pub verify_hmac_sha256_iff :
    (rt : Runtime) (secret payload signature : String)
    → starts_with (rt.hmac_sha256_hex secret payload) "sha256=" ≡ false
    → (rt.hmac_sha256_hex secret payload == "") ≡ false
    → (verify_hmac_sha256 rt secret payload signature ≡ true)
      ↔ IsSignature signature (rt.hmac_sha256_hex secret payload)
verify_hmac_sha256_iff rt secret payload signature plain full = (
  verify-IsSignature rt secret payload signature,
  IsSignature-verify rt secret payload signature plain full,
)
