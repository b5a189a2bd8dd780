-- ===== src/Security/Dashboard/Entitlement.antt =====
-- What lets a request to the dashboard through (hub/security.py).
use antigravity_webhook_hub.Prelude.{◌≡◌, Bool, true, false, ◌||◌, Option, some}
use antigravity_webhook_hub.Text.{Text, codes, is_nil, or_empty, truthy, utf8}
use antigravity_webhook_hub.Models.{ValidationResult, HttpRequest, header}
use antigravity_webhook_hub.Security.Dashboard.{
  DashboardConfig, Claims, expired, has_text, auth_enforced, expected_token, provided_token,
  verify_dashboard_auth,
}

module _ {Float : Type 0} (lt : Float → Float → Bool) (decode_jwt : Text → Option (Claims Float))
    (b64decode : Text → Option Text) (query_value : Text → Text → Option Text)
    (request : HttpRequest) (cfg : DashboardConfig) (now : Float) where
  abbrev result : ValidationResult
  result = verify_dashboard_auth lt decode_jwt b64decode query_value request cfg now

  abbrev assertion : Option Text
  assertion = header request (codes "cf-access-jwt-assertion")

  -- The grounds on which a request is let through.
  pub data Entitled : Type 0 where
    by_assertion :
        (claims : Claims Float)
        → decode_jwt (or_empty assertion) ≡ some claims
        → expired lt claims.exp now ≡ false
        → (is_nil cfg.cloudflare_access_aud || has_text cfg.cloudflare_access_aud claims.aud) ≡ true
        → Entitled
    by_service_headers :
        truthy (header request (codes "cf-access-client-id")) ≡ true
        → truthy (header request (codes "cf-access-client-secret")) ≡ true
        → Entitled
    by_password :
        (user pwd : Text)
        → utf8 user ≡ utf8 cfg.basic_auth_user
        → utf8 pwd ≡ utf8 cfg.basic_auth_pass
        → is_nil cfg.basic_auth_user ≡ false
        → is_nil cfg.basic_auth_pass ≡ false
        → Entitled
    by_token :
        utf8 (provided_token query_value request) ≡ utf8 (expected_token cfg)
        → is_nil (expected_token cfg) ≡ false
        → Entitled
    not_enforced : auth_enforced cfg ≡ false → Entitled
