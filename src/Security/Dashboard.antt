-- ===== src/Security/Dashboard.antt =====
-- `verify_dashboard_auth` of hub/security.py. The parameters stand for `decode_jwt_unverified`
-- (`none` for an exception), `base64.b64decode` with the decoding of UTF-8 (`none` for an
-- exception), and the first value that `parse_qs` gives a name in the query of a target; times are
-- Python's floats, compared by `lt`.
pub mod Entitlement
use antigravity_webhook_hub.Prelude.{
  Bool, true, false, not, ◌&&◌, ◌||◌, Option, none, some, List, [], ◌∷◌, any, drop, ◌==◌,
  if◌then◌else◌,
}
use antigravity_webhook_hub.Text.{
  Text, codes, text_eq, is_nil, or_empty, truthy, strip, lower, starts_with, utf8,
}
use antigravity_webhook_hub.Models.{ValidationResult, reject, accept, HttpRequest, header, get}
use antigravity_webhook_hub.Security.Ingress.{or_else}

-- The dashboard's settings, and the bearer token of the security settings.
pub record DashboardConfig : Type 0 where
  pub auth_enabled : Bool
  pub cloudflare_access_aud : Text
  pub allowed_emails : List Text
  pub basic_auth_user : Text
  pub basic_auth_pass : Text
  pub auth_token : Text
  pub bearer_token : Text

-- The member `exp`: missing, refused by `float`, or a time.
pub data Expiry (Float : Type 0) : Type 0 where
  never unreadable : Expiry Float
  expires : Float → Expiry Float

pub record Claims (Float : Type 0) : Type 0 where
  pub exp : Expiry Float
  pub aud : List Text
  pub email : Option Text

abbrev pub has_text : Text → List Text → Bool
has_text t ts = any (λ u. text_eq u t) ts

-- `user, pwd = decoded.split(":", 1)`, or `none` without a colon.
unfoldable pub split_colon : Text → Option (Text × Text)
split_colon [] = none
split_colon (c ∷ s) =
    let rest = split_colon s in
    if c == b':' then some ([], s) else (elim rest [ none ↦ none | some p ↦ some (c ∷ p.0, p.1) ])

unfoldable pub check_basic : DashboardConfig → Text × Text → Option ValidationResult
check_basic cfg (user, pwd) =
    if is_nil cfg.basic_auth_user || is_nil cfg.basic_auth_pass
    then none
    else if text_eq (utf8 user) (utf8 cfg.basic_auth_user)
        && text_eq (utf8 pwd) (utf8 cfg.basic_auth_pass)
    then some (accept "verified_basic_auth")
    else some (reject "invalid_basic_credentials" 401)

-- The decoded credentials; `none` goes on to the tokens.
abbrev pub basic_credentials : DashboardConfig → Option Text → Option ValidationResult
basic_credentials cfg none = some (reject "malformed_basic_auth" 401)
basic_credentials cfg (some decoded) = elim (split_colon decoded) [
  | none ↦ none
  | some p ↦ check_basic cfg p
]

abbrev pub has_scheme : Text → Option Text → Bool
has_scheme scheme auth = truthy auth && starts_with scheme (lower (strip (or_empty auth)))

-- Step 4.
unfoldable pub auth_enforced : DashboardConfig → Bool
auth_enforced cfg =
    cfg.auth_enabled
    || not (is_nil cfg.basic_auth_user) && not (is_nil cfg.basic_auth_pass)
    || not (is_nil cfg.auth_token)
    || not (is_nil cfg.cloudflare_access_aud)

abbrev pub expected_token : DashboardConfig → Text
expected_token cfg = if is_nil cfg.auth_token then cfg.bearer_token else cfg.auth_token

unfoldable pub check_tokens : DashboardConfig → Text → ValidationResult
unfolding auth_enforced
check_tokens cfg provided =
    if not (is_nil provided) && not (is_nil (expected_token cfg))
    then (if text_eq (utf8 provided) (utf8 (expected_token cfg))
        then accept "verified_token"
        else reject "invalid_token" 401)
    else if not (auth_enforced cfg)
    then accept "auth_not_enforced"
    else reject "unauthorized" 401

abbrev pub or_result : Option ValidationResult → ValidationResult → ValidationResult
or_result none r = r
or_result (some s) r = s

abbrev pub no_emails : List Text → Bool
no_emails [] = true
no_emails (e ∷ es) = false

module _ {Float : Type 0} where
  abbrev pub readable : Expiry Float → Bool
  readable never = true
  readable unreadable = false
  readable (expires t) = true

  abbrev pub user_email : Claims Float → Option Text → Text
  user_email claims cf_email = or_empty (or_else claims.email cf_email)

-- Step 3: the token that the request provides, the empty text without one.
module _ (query_value : Text → Text → Option Text) where
  abbrev pub target : HttpRequest → Text
  target request = if is_nil request.raw_path then request.path else request.raw_path

  abbrev pub queried : Text → Text
  queried path =
      if truthy (query_value path (codes "token"))
      then strip (or_empty (query_value path (codes "token")))
      else strip (or_empty (query_value path (codes "auth_token")))

  unfoldable pub provided_token : HttpRequest → Text
  provided_token request =
      let auth = header request (codes "authorization") in
      if has_scheme (codes "bearer ") auth
      then strip (drop 7 (strip (or_empty auth)))
      else if truthy (header request (codes "x-dashboard-token"))
      then strip (or_empty (header request (codes "x-dashboard-token")))
      else if truthy (header request (codes "x-auth-token"))
      then strip (or_empty (header request (codes "x-auth-token")))
      else if truthy (get request.query_params (codes "token"))
      then strip (or_empty (get request.query_params (codes "token")))
      else if truthy (get request.query_params (codes "auth_token"))
      then strip (or_empty (get request.query_params (codes "auth_token")))
      else if any (λ c. c == b'?') (target request)
      then queried (target request)
      else []

module _ {Float : Type 0} (lt : Float → Float → Bool) where
  abbrev pub expired : Expiry Float → Float → Bool
  expired never now = false
  expired unreadable now = false
  expired (expires t) now = lt t now

  -- 1. The assertion, decoded.
  unfoldable pub check_claims :
      DashboardConfig → Option Text → Float → Claims Float → ValidationResult
  check_claims cfg cf_email now claims =
      if not (readable claims.exp)
      then reject "invalid_cf_access_jwt" 401
      else if expired claims.exp now
      then reject "cf_access_token_expired" 401
      else if not (is_nil cfg.cloudflare_access_aud)
          && not (has_text cfg.cloudflare_access_aud claims.aud)
      then reject "cf_access_aud_mismatch" 401
      else if not (no_emails cfg.allowed_emails)
          && not (is_nil (user_email claims cf_email))
          && not (has_text (user_email claims cf_email) cfg.allowed_emails)
      then reject "cf_access_email_not_allowed" 403
      else accept "verified_cloudflare_access"

  abbrev pub check_assertion :
      DashboardConfig → Option Text → Float → Option (Claims Float) → ValidationResult
  check_assertion cfg cf_email now none = reject "invalid_cf_access_jwt" 401
  check_assertion cfg cf_email now (some claims) = check_claims cfg cf_email now claims

  module _ (decode_jwt : Text → Option (Claims Float)) (b64decode : Text → Option Text)
      (query_value : Text → Text → Option Text) where
    -- 2. Basic credentials, if the request has that scheme.
    unfoldable pub basic_result : HttpRequest → DashboardConfig → Option ValidationResult
    unfolding split_colon check_basic
    basic_result request cfg =
        let auth = header request (codes "authorization") in
        if has_scheme (codes "basic ") auth
        then basic_credentials cfg (b64decode (strip (drop 6 (strip (or_empty auth)))))
        else none

    unfoldable pub verify_dashboard_auth : HttpRequest → DashboardConfig → Float → ValidationResult
    unfolding check_claims basic_result provided_token check_tokens
    verify_dashboard_auth request cfg now =
        let assertion = header request (codes "cf-access-jwt-assertion") in
        if truthy assertion
        then check_assertion cfg (header request (codes "cf-access-authenticated-user-email")) now
            (decode_jwt (or_empty assertion))
        else if truthy (header request (codes "cf-access-client-id"))
            && truthy (header request (codes "cf-access-client-secret"))
        then accept "verified_cf_service_token"
        else or_result (basic_result request cfg)
            (check_tokens cfg (provided_token query_value request))
