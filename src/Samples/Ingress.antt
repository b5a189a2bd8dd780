-- ===== src/Samples/Ingress.antt =====
-- A webhook to hub/routes/webhook.py with the bearer token of the hub.
use antigravity_webhook_hub.Prelude.{
  Bool, ℕ, String, ◌≡◌, ◌⊎◌, refl, true, false, Option, none, some, List, [], ◌∷◌,
}
use antigravity_webhook_hub.Prelude.Int.{pos}
use antigravity_webhook_hub.Text.{Text, codes, text_eq, lower, strip, utf8}
use antigravity_webhook_hub.Models.{HttpRequest}
use antigravity_webhook_hub.Dispatcher.{idle}
use antigravity_webhook_hub.Security.Ingress.{
  validate_request_security, request_bearer, find_authorization,
}
use antigravity_webhook_hub.Security.Bearer.{verify_bearer_token}
use antigravity_webhook_hub.Schedule.Engine.{Hub}
use antigravity_webhook_hub.Schedule.Create.{Planned}
use antigravity_webhook_hub.Ingress.Payload.{Payload, missing, number}
use antigravity_webhook_hub.Ingress.Check.{
  Job, Parsed, object, Triage, autonomous, declined, AppConfig,
}
use antigravity_webhook_hub.Ingress.Handle.{hub_after, handle_webhook}
use antigravity_webhook_hub.Ingress.Joined.{took}
use antigravity_webhook_hub.Ingress.Redelivery.{redelivery-unchanged}
use antigravity_webhook_hub.Ingress.Truth.{IsTruthful}
use antigravity_webhook_hub.Ingress.Answers.{handle_webhook-IsTruthful}
use antigravity_webhook_hub.Ingress.Trust.{handle_webhook-authenticated}

abbrev digest : List ℕ → List ℕ → Text
digest key message = codes "00"

abbrev payload_hash : List ℕ → String
payload_hash body = "sha"

abbrev decode : List ℕ → String
decode body = "{}"

abbrev payload : Payload
payload = record {
  source = none;
  action_type = none;
  action = none;
  text = some "deploy";
  message = none;
  command = none;
  target_action = none;
  event = none;
  type = none;
  priority = number (pos 3);
  timeout_seconds = missing;
  max_retries = missing;
  schedule_at = none;
  scheduled_at = none;
  delay_seconds = none;
  delay = none;
  cron = none;
  cron_expression = none;
  name = none;
  title = none;
  timezone = none;
  max_runs = none;
  sync = false;
}

abbrev loads : List ℕ → Parsed
loads body = object payload

abbrev agrees : String → Triage
agrees message = autonomous

abbrev declines : String → Triage
declines message = declined

abbrev config : AppConfig
config = record {
  security = record {
    auth_mode = codes "bearer";
    webhook_secret = [];
    bearer_token = codes "t0ken";
    signature_header = codes "x-hub-signature-256";
    timestamp_header = codes "x-hub-timestamp";
    timestamp_tolerance_seconds = pos 300;
    future_timestamp_tolerance_seconds = pos 60;
  };
  default_action_timeout_seconds = pos 300;
}

abbrev next_run : String → String → Planned
next_run cron zone = Planned.at "2"

abbrev target_time : Option String → Option String → Option String → Planned
target_time a b c = Planned.at "2"

abbrev params_json : Job → String
params_json job = "{}"

abbrev has_scheduler : Bool
has_scheduler = true

abbrev request : HttpRequest
request = record {
  path = codes "/webhook/slack-make";
  raw_path = codes "/webhook/slack-make";
  query_params = [];
  headers = (codes "authorization", codes "Bearer t0ken") ∷ [];
  body = codes "{}";
}

abbrev hub : Hub
hub = record {
  db = record { events = []; tasks = []; auto_event = false };
  schedules = [];
  dispatcher = idle;
}

redelivery-unchanged_example :
    let first =
      handle_webhook digest payload_hash decode loads agrees config next_run target_time params_json
        has_scheduler request "slack-make"
        (pos 1)
        "evt_1"
        "tsk_1"
        "sch_1"
        1
        hub in
    let second =
      handle_webhook digest payload_hash decode loads declines config next_run target_time
        params_json has_scheduler request "slack-make"
        (pos 9)
        "evt_2"
        "tsk_2"
        "sch_2"
        9
        (hub_after first) in
    (hub_after second ≡ hub_after first) × (took second ≡ false)
unfolding validate_request_security text_eq lower request_bearer verify_bearer_token
    find_authorization strip utf8
redelivery-unchanged_example =
    redelivery-unchanged digest payload_hash decode loads config next_run target_time params_json
      has_scheduler agrees declines request "slack-make" (pos 1) (pos 9) "evt_1" "tsk_1" "sch_1"
      "evt_2" "tsk_2" "sch_2" 1 9 hub refl (unfold handle_webhook in refl)

handle_webhook-IsTruthful_example : IsTruthful hub (
    handle_webhook digest payload_hash decode loads agrees config next_run target_time params_json
      has_scheduler request "slack-make"
      (pos 1)
      "evt_1"
      "tsk_1"
      "sch_1"
      1
      hub)
handle_webhook-IsTruthful_example =
    handle_webhook-IsTruthful digest payload_hash decode loads agrees config next_run target_time
      params_json has_scheduler request "slack-make" (pos 1) "evt_1" "tsk_1" "sch_1" 1 hub

handle_webhook-authenticated_example :
    (hub_after (
        handle_webhook digest payload_hash decode loads agrees config next_run target_time
          params_json has_scheduler request "slack-make"
          (pos 1)
          "evt_1"
          "tsk_1"
          "sch_1"
          1
          hub)
      ≡ hub)
    ⊎ ((validate_request_security digest request config.security (pos 1)).is_valid ≡ true)
      × (p : Payload) × (loads request.body ≡ object p)
handle_webhook-authenticated_example =
    handle_webhook-authenticated digest payload_hash decode loads agrees config next_run target_time
      params_json has_scheduler request "slack-make" (pos 1) "evt_1" "tsk_1" "sch_1" 1 hub
