-- ===== src/Samples/Dashboard.antt =====
-- A request to the dashboard. Numbers stand in for the times, and nothing can be decoded.
use antigravity_webhook_hub.Prelude.{ℕ, true, Option, none, [], ◌∷◌}
use antigravity_webhook_hub.Text.{Text, codes}
use antigravity_webhook_hub.Models.{HttpRequest}
use antigravity_webhook_hub.Security.Dashboard.{DashboardConfig, Claims}

abbrev decode_jwt : Text → Option (Claims ℕ)
decode_jwt s = none

abbrev b64decode : Text → Option Text
b64decode s = none

abbrev query_value : Text → Text → Option Text
query_value path name = none

abbrev request : HttpRequest
request = record {
  path = codes "/dashboard";
  raw_path = codes "/dashboard";
  query_params = [];
  headers = (codes "x-dashboard-token", codes "tok") ∷ [];
  body = [];
}

abbrev config : DashboardConfig
config = record {
  auth_enabled = true;
  cloudflare_access_aud = [];
  allowed_emails = [];
  basic_auth_user = [];
  basic_auth_pass = [];
  auth_token = codes "tok";
  bearer_token = [];
}
