-- ===== src/Security/Ingress.antt =====
-- `validate_request_security` of hub/security.py: the policy of each authentication mode.
pub mod Policy
use antigravity_webhook_hub.Prelude.{ℕ, not, ◌||◌, Option, List, if◌then◌else◌}
use antigravity_webhook_hub.Prelude.Int.{ℤ}
use antigravity_webhook_hub.Text.{Text, codes, text_eq, is_nil, truthy, lower}
use antigravity_webhook_hub.Models.{ValidationResult, reject, accept, HttpRequest, header}
use antigravity_webhook_hub.Security.Hmac.{verify_hmac_signature}
use antigravity_webhook_hub.Security.Bearer.{verify_bearer_token}

pub record SecurityConfig : Type 0 where
  pub auth_mode : Text
  pub webhook_secret : Text
  pub bearer_token : Text
  pub signature_header : Text
  pub timestamp_header : Text
  pub timestamp_tolerance_seconds : ℤ
  pub future_timestamp_tolerance_seconds : ℤ

-- Python's `a or b` on optional texts.
abbrev pub or_else : Option Text → Option Text → Option Text
or_else a b = if truthy a then a else b

unfoldable pub find_signature : HttpRequest → SecurityConfig → Option Text
find_signature request config =
    or_else (header request config.signature_header)
      (or_else (header request (codes "x-signature-256")) (header request (codes "x-signature")))

unfoldable pub find_timestamp : HttpRequest → SecurityConfig → Option Text
find_timestamp request config =
    or_else (header request config.timestamp_header) (header request (codes "x-timestamp"))

unfoldable pub find_authorization : HttpRequest → Option Text
find_authorization request = header request (codes "authorization")

unfoldable pub request_bearer : HttpRequest → SecurityConfig → ValidationResult
request_bearer request config = verify_bearer_token config.bearer_token (find_authorization request)

-- `digest` is `_hmac_sha256_hex(key, message)`.
module _ (digest : List ℕ → List ℕ → Text) where
  unfoldable pub request_hmac : HttpRequest → SecurityConfig → ℤ → ValidationResult
  request_hmac request config now =
      verify_hmac_signature digest config.webhook_secret request.body
        (find_signature request config) (find_timestamp request config)
        config.timestamp_tolerance_seconds config.future_timestamp_tolerance_seconds now

  unfoldable pub validate_any : HttpRequest → SecurityConfig → ℤ → ValidationResult
  validate_any request config now =
      let hmac_res = request_hmac request config now in
      let bearer_res = request_bearer request config in
      if truthy (find_signature request config) || truthy (find_timestamp request config)
      then (if hmac_res.is_valid
          then hmac_res
          else if truthy (find_authorization request)
          then (if bearer_res.is_valid then bearer_res else hmac_res)
          else hmac_res)
      else if truthy (find_authorization request)
      then bearer_res
      else reject "missing_credentials" 401

  unfoldable pub validate_both : HttpRequest → SecurityConfig → ℤ → ValidationResult
  validate_both request config now =
      let hmac_res = request_hmac request config now in
      let bearer_res = request_bearer request config in
      if not hmac_res.is_valid
      then hmac_res
      else if not bearer_res.is_valid
      then bearer_res
      else accept "verified"

  unfoldable pub validate_request_security : HttpRequest → SecurityConfig → ℤ → ValidationResult
  unfolding validate_any validate_both
  validate_request_security request config now =
      let mode = lower config.auth_mode in
      if text_eq mode (codes "hmac")
      then (if is_nil config.webhook_secret
          then reject "webhook_secret_not_configured" 401
          else request_hmac request config now)
      else if text_eq mode (codes "bearer")
      then request_bearer request config
      else if text_eq mode (codes "any")
      then validate_any request config now
      else if text_eq mode (codes "both")
      then validate_both request config now
      else reject "invalid_auth_mode" 500
