-- ===== src/Ingress/Check.antt =====
-- `handle_webhook` of hub/routes/webhook.py up to its first look at the database: authentication,
-- schema validation, the Slack triage, and the defaults. What it asks of other code is a
-- parameter: `digest` (HMAC-SHA256, hexadecimal), `payload_hash` (`compute_payload_hash`), `loads`
-- (`json.loads` of the decoded body), `decode` (`req.text()`) and `triage`
-- (`evaluate_slack_task_async`).
pub mod Keys
use antigravity_webhook_hub.Prelude.{
  ℕ, String, str_eq, Bool, true, false, not, ◌||◌, Option, none, some, List, ◌∷◌, ◌++◌,
  if◌then◌else◌,
}
use antigravity_webhook_hub.Prelude.Int.{ℤ, pos}
use antigravity_webhook_hub.Text.{
  Text, codes, text_eq, is_nil, truthy, or_empty, lower, utf8, of_codes,
}
use antigravity_webhook_hub.Models.{HttpRequest, header, get}
use antigravity_webhook_hub.Security.Ingress.{SecurityConfig, validate_request_security, or_else}
use antigravity_webhook_hub.Schedule.Engine.{truthy_text}
use antigravity_webhook_hub.Ingress.Payload.{
  Payload, Read, invalid, overflows, value, read_int, read_int_or, or_given, or_text, source_of,
  action_of, command_of,
}

-- The members of `config` that the handler reads.
pub record AppConfig : Type 0 where
  pub security : SecurityConfig
  pub default_action_timeout_seconds : ℤ

-- The answer, as far as a client can tell answers apart.
pub data Response : Type 0 where
  error : ℕ → String → Response
  skipped : Response
  duplicate : String → Option String → Response
  scheduled : String → String → Response
  accepted : String → String → Bool → Response

-- The parameters of a delayed or a recurring task.
pub record Timing : Type 0 where
  pub scheduled_at : Option String
  pub delay_seconds : Option String
  pub delay : Option String
  pub cron_expression : Option String
  pub name : Option String
  pub timezone : String
  pub max_runs : Option ℤ

-- What the rest of the handler knows about a request that passed.
pub record Job : Type 0 where
  pub source : String
  pub action_type : String
  pub command : Option String
  pub priority : ℤ
  pub timeout_seconds : ℤ
  pub max_retries : ℤ
  pub idempotency_key : String
  pub payload_hash : String
  pub raw_payload : String
  pub timing : Timing
  pub sync : Bool

-- Refused with an answer, left by an exception, or passed on.
pub data Checked : Type 0 where
  refused : Response → Checked
  crashes : Checked
  ready : Job → Checked

-- `json.loads`: an exception, something that is no object, an object.
pub data Parsed : Type 0 where
  malformed not_object : Parsed
  object : Payload → Parsed

-- The triage: `is_autonomous` is false, or true, or an exception.
pub data Triage : Type 0 where
  declined autonomous triage_failed : Triage

abbrev text_header : HttpRequest → Text → Option String
text_header req name = elim (header req name) [ none ↦ none | some s ↦ some (of_codes s) ]

-- `req.header(a) or req.header(b) or …`
abbrev timing_header : HttpRequest → Text → Text → Option String → Option String
timing_header req a b member = or_given (text_header req a) (or_given (text_header req b) member)

unfoldable pub timing_of : HttpRequest → Payload → Timing
unfolding header
timing_of req payload = record {
  scheduled_at =
      timing_header req (codes "x-schedule-at") (codes "schedule-at")
        (or_given payload.schedule_at payload.scheduled_at);
  delay_seconds =
      timing_header req (codes "x-delay-seconds") (codes "delay-seconds") payload.delay_seconds;
  delay = timing_header req (codes "x-delay") (codes "delay") payload.delay;
  cron_expression =
      timing_header req (codes "x-cron") (codes "cron")
        (or_given payload.cron payload.cron_expression);
  name = or_given payload.name payload.title;
  timezone =
      or_text payload.timezone (or_text (text_header req (codes "x-timezone")) "Asia/Bangkok");
  max_runs = payload.max_runs;
}

abbrev is_some {ℓ} : {A : Type ℓ} → Option A → Bool
is_some none = false
is_some (some a) = true

abbrev pub is_scheduled : Timing → Bool
is_scheduled t =
    truthy_text t.scheduled_at
    || is_some t.delay_seconds
    || truthy_text t.delay
    || truthy_text t.cron_expression

-- The headers that may carry the idempotency key, in this order.
unfoldable pub given_key : HttpRequest → Option Text
unfolding header
given_key req = or_else (header req (codes "x-hub-event-id")) (
    or_else (header req (codes "x-idempotency-key")) (
      or_else (header req (codes "idempotency-key"))
        (or_else (header req (codes "x-github-delivery")) (header req (codes "x-webhook-id")))))

abbrev pub is_sync : HttpRequest → Payload → Bool
is_sync req payload =
    let asked = lower (or_empty (get req.query_params (codes "sync"))) in
    text_eq asked (codes "true")
    || text_eq asked (codes "1")
    || text_eq asked (codes "yes")
    || payload.sync

module _ (payload_hash : List ℕ → String) where
  -- hash(source:path:payload_hash), without a header.
  unfoldable pub idempotency_key : HttpRequest → String → String
  unfolding given_key
  idempotency_key req source =
      if truthy (given_key req)
      then of_codes (or_empty (given_key req))
      else payload_hash
          (utf8 (codes source ++ b':' ∷ req.path ++ b':' ∷ codes (payload_hash req.body)))

-- What the triage leaves: an answer, or the action and the command to go on with.
pub data Triaged : Type 0 where
  stops : Response → Triaged
  goes_on : Option String → Option String → Triaged

abbrev pub verdict : Triage → Option String → Option String → String → Triaged
verdict declined action command message = stops skipped
verdict autonomous action command message =
    goes_on (some "antigravity_task") (if truthy_text command then command else some message)
verdict triage_failed action command message = goes_on action command

module _ (triage : String → Triage) where
  unfoldable pub slack_triage : String → Payload → Triaged
  slack_triage source payload =
      let action = or_given payload.action_type payload.action in
      let message = or_text payload.text (or_text payload.message "") in
      if str_eq source "slack-make"
      then (if str_eq message ""
          then stops (error 400 "missing_text")
          else verdict (triage message) action payload.command message)
      else goes_on action payload.command

abbrev pub with_read : Read → (ℤ → Checked) → Checked
with_read invalid k = refused (error 400 "invalid_task_schema")
with_read overflows k = crashes
with_read (value n) k = k n

abbrev pub with_ints : Read → Read → Read → (ℤ → ℤ → ℤ → Checked) → Checked
with_ints a b c k = with_read a λ p. with_read b λ t. with_read c λ m. k p t m

module _ (payload_hash : List ℕ → String) (decode : List ℕ → String) (triage : String → Triage)
    (config : AppConfig) where
  abbrev pub job_record : HttpRequest → Payload → String → String → Option String → ℤ → ℤ → ℤ → Job
  job_record req payload source action_type command priority timeout_seconds max_retries = record {
    source = source;
    action_type = action_type;
    command = command;
    priority = priority;
    timeout_seconds = timeout_seconds;
    max_retries = max_retries;
    idempotency_key = idempotency_key payload_hash req source;
    payload_hash = payload_hash req.body;
    raw_payload = decode req.body;
    timing = timing_of req payload;
    sync = is_sync req payload;
  }

  abbrev pub task_schema : HttpRequest → Payload → (ℤ → ℤ → ℤ → Job) → Checked
  task_schema req payload job =
      with_ints (read_int payload.priority (pos 0))
        (read_int_or payload.timeout_seconds config.default_action_timeout_seconds)
        (read_int payload.max_retries (pos 0)) λ p t m. ready (job p t m)

  abbrev pub with_triaged : Triaged → HttpRequest → Payload → String → Checked
  with_triaged (stops answer) req payload source = refused answer
  with_triaged (goes_on action command) req payload source =
      let action_type = action_of action source req.path in
      task_schema req payload (
        job_record req payload source action_type
          (command_of command action_type source req.path payload))

  abbrev pub with_payload : HttpRequest → String → Payload → Checked
  with_payload req source payload =
      let resolved = source_of source payload in
      with_triaged (slack_triage triage resolved payload) req payload resolved

  abbrev pub with_parsed : HttpRequest → String → Parsed → Checked
  with_parsed req source malformed = refused (error 400 "malformed_json")
  with_parsed req source not_object = refused (error 400 "invalid_json_type")
  with_parsed req source (object payload) = with_payload req source payload

  module _ (digest : List ℕ → List ℕ → Text) (loads : List ℕ → Parsed) where
    -- `now` is the clock that the signature's timestamp is compared with.
    unfoldable pub check_request : HttpRequest → String → ℤ → Checked
    unfolding slack_triage idempotency_key source_of action_of command_of timing_of
    check_request req source now =
        let val = validate_request_security digest req config.security now in
        if not val.is_valid
        then refused (error val.status_code val.reason)
        else if is_nil req.body
        then refused (error 400 "empty_body")
        else with_parsed req source (loads req.body)
