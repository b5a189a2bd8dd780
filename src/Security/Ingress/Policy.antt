-- ===== src/Security/Ingress/Policy.antt =====
-- Which requests each authentication mode of `validate_request_security` lets through.
use antigravity_webhook_hub.Prelude.{
  ℕ, ◌≡◌, ◌∙◌, ap, ◌≤◌, Bool, true, false, not, ◌&&◌, ◌||◌, some, List, arith, if◌then◌else◌,
}
use antigravity_webhook_hub.Prelude.Int.{ℤ, ◌≤ℤ◌, ◌+ℤ◌, ◌-ℤ◌}
use antigravity_webhook_hub.Text.{
  Text, codes, text_eq, is_nil, truthy, lower, print_int, count_digits, max_digits,
}
use antigravity_webhook_hub.Models.{ValidationResult, HttpRequest}
use antigravity_webhook_hub.Security.Hmac.{generate_hmac_signature, verify_hmac_signature}
use antigravity_webhook_hub.Security.Hmac.Laws.{IsSha256, verify-generate}
use antigravity_webhook_hub.Security.Bearer.{verify_bearer_token}
use antigravity_webhook_hub.Security.Ingress.{
  SecurityConfig, find_signature, find_timestamp, find_authorization, request_hmac, request_bearer,
  validate_any, validate_both, validate_request_security,
}

module _ (digest : List ℕ → List ℕ → Text) (request : HttpRequest) (config : SecurityConfig)
    (now : ℤ) where
  -- What each mode promises, in terms of the two kinds of credentials.
  abbrev pub policy : Bool
  policy =
      let hmac_ok = (request_hmac digest request config now).is_valid in
      let bearer_ok = (request_bearer request config).is_valid in
      let mode = lower config.auth_mode in
      if text_eq mode (codes "hmac")
      then not (is_nil config.webhook_secret) && hmac_ok
      else if text_eq mode (codes "bearer")
      then bearer_ok
      else if text_eq mode (codes "any")
      then hmac_ok || bearer_ok
      else if text_eq mode (codes "both")
      then hmac_ok && bearer_ok
      else false

  hmac-needs_headers :
      (truthy (find_signature request config) || truthy (find_timestamp request config)) ≡ false
      → (request_hmac digest request config now).is_valid ≡ false
  unfolding request_hmac verify_hmac_signature
  hmac-needs_headers h = ground arith

  bearer-needs_header :
      truthy (find_authorization request) ≡ false → (request_bearer request config).is_valid ≡ false
  unfolding request_bearer verify_bearer_token
  bearer-needs_header h = ground arith

  any-is_or : (validate_any digest request config now).is_valid ≡ (
      (request_hmac digest request config now).is_valid || (request_bearer request config).is_valid)
  unfolding validate_any
  any-is_or = ground (arith, hmac-needs_headers, bearer-needs_header)

  both-is_and : (validate_both digest request config now).is_valid ≡ (
      (request_hmac digest request config now).is_valid && (request_bearer request config).is_valid)
  unfolding validate_both
  both-is_and = ground arith

  -- validate_request_security lets a request through exactly if the policy of its mode holds: hmac
  -- needs a configured secret and a valid signature, bearer a valid token, any one of the two,
  -- both the two, and any other mode lets nothing through.
  pub validate-policy : (validate_request_security digest request config now).is_valid ≡ policy
  unfolding validate_request_security
  validate-policy = ground (arith, any-is_or, both-is_and)

-- In mode any with an empty webhook secret, a request that is signed under the empty key for a
-- timestamp inside the window is let through. The digest gives 64 lower-case hexadecimal digits,
-- and the timestamp has at most 4300 digits.
pub any-accepts_empty_secret :
    (digest : List ℕ → List ℕ → Text) (request : HttpRequest) (config : SecurityConfig) (t now : ℤ)
    → IsSha256 digest
    → lower config.auth_mode ≡ codes "any"
    → config.webhook_secret ≡ codes ""
    → find_signature request config
      ≡ some (generate_hmac_signature digest (codes "") request.body t true)
    → find_timestamp request config ≡ some (print_int t)
    → count_digits (print_int t) ≤ max_digits
    → (now -ℤ config.timestamp_tolerance_seconds) ≤ℤ t
    → t ≤ℤ (now +ℤ config.future_timestamp_tolerance_seconds)
    → (validate_request_security digest request config now).is_valid ≡ true
any-accepts_empty_secret digest request config t now sha mode secret sig ts fits old new =
    validate-policy digest request config now ∙ rw mode (unfold text_eq in rw hmac_ok)
  where
    hmac_ok : (request_hmac digest request config now).is_valid ≡ true
    hmac_ok =
        unfold request_hmac in
        rw (sig, ts, secret)
          (ap (λ (r : ValidationResult). r.is_valid)
            (verify-generate digest sha (codes "") request.body t config.timestamp_tolerance_seconds
              config.future_timestamp_tolerance_seconds now true fits old new))
