-- ===== src/Ingress/Payload.antt =====
-- The JSON object of a webhook (hub/routes/webhook.py): its members as the handler reads them, and
-- the defaults for the source, the action and the command. A member that is `null` is read like one
-- that is missing where the code does so; every other member with a text is taken to hold a text.
use antigravity_webhook_hub.Prelude.{
  String, str_eq, Bool, ◌||◌, Option, none, some, List, [], ◌∷◌, any, if◌then◌else◌,
}
use antigravity_webhook_hub.Prelude.Int.{ℤ}
use antigravity_webhook_hub.Text.{Text, codes, ends_with, contains}
use antigravity_webhook_hub.Schedule.Engine.{truthy_text}

-- A member that is passed to `int`. `infinite` stands for `Infinity` and `-Infinity`, which
-- `json.loads` accepts and for which `int` raises OverflowError; `refused` for what makes it raise
-- ValueError or TypeError.
pub data Member : Type 0 where
  missing null refused infinite : Member
  number : ℤ → Member

pub data Read : Type 0 where
  invalid overflows : Read
  value : ℤ → Read

-- int(body_dict.get(name, default))
abbrev pub read_int : Member → ℤ → Read
read_int missing default = value default
read_int null default = invalid
read_int refused default = invalid
read_int infinite default = overflows
read_int (number n) default = value n

-- The same, where `None` is replaced by the default before `int`.
abbrev pub read_int_or : Member → ℤ → Read
read_int_or null default = value default
read_int_or m default = read_int m default

pub record Payload : Type 0 where
  pub source : Option String
  pub action_type : Option String
  pub action : Option String
  pub text : Option String
  pub message : Option String
  pub command : Option String
  pub target_action : Option String
  pub event : Option String
  pub type : Option String
  pub priority : Member
  pub timeout_seconds : Member
  pub max_retries : Member
  pub schedule_at : Option String
  pub scheduled_at : Option String
  pub delay_seconds : Option String
  pub delay : Option String
  pub cron : Option String
  pub cron_expression : Option String
  pub name : Option String
  pub title : Option String
  pub timezone : Option String
  pub max_runs : Option ℤ
  pub sync : Bool

-- Python's `a or b`, on texts that may be `None`.
abbrev pub or_given : Option String → Option String → Option String
or_given a b = if truthy_text a then a else b

abbrev pub or_text : Option String → String → String
or_text none b = b
or_text (some a) b = if str_eq a "" then b else a

abbrev pub one_of : List String → String → Bool
one_of words s = any (str_eq s) words

-- Priority: the path parameter, the member, "default".
unfoldable pub source_of : String → Payload → String
source_of source payload =
    if str_eq source "" || str_eq source "default" then or_text payload.source "default" else source

abbrev pub is_surecart : String → Text → Bool
is_surecart source path =
    one_of ("surecart" ∷ "surecart-acs" ∷ "surecart_acs" ∷ "stripe-acs" ∷ "stripe_acs" ∷ []) source
    || contains (codes "/surecart") path

abbrev derived_action : String → Text → String
derived_action source path =
    if one_of ("contact-review" ∷ "contact_review" ∷ []) source
      || ends_with (codes "/contact-review") path
    then "contact_review"
    else if one_of ("antigravity" ∷ "slack_task" ∷ "slack-task" ∷ []) source
        || ends_with (codes "/antigravity") path
    then "antigravity"
    else "cli"

abbrev renamed_action : String → String
renamed_action s =
    if one_of ("antigravity.run" ∷ "antigravity_run" ∷ []) s then "antigravity" else s

unfoldable pub action_of : Option String → String → Text → String
action_of none source path = derived_action source path
action_of (some s) source path =
    if str_eq s "" then derived_action source path else renamed_action s

abbrev review_actions : List String
review_actions = "contact_review" ∷ "review_contact" ∷ "contact-review" ∷ []

abbrev agent_actions : List String
agent_actions =
    "antigravity" ∷ "agent_conversation" ∷ "antigravity_task" ∷ "antigravity.run"
    ∷ "antigravity_run" ∷ []

abbrev surecart_command : Option String → String
surecart_command event =
    if str_eq (or_text event "") "product.deleted"
    then "python3 /Users/vecsatfoxmailcom/.agents/skills/stripe-agentic-commerce/scripts/stripe_acs_cli.py surecart sync --mode replace"
    else "python3 /Users/vecsatfoxmailcom/.agents/skills/stripe-agentic-commerce/scripts/stripe_acs_cli.py surecart sync"

abbrev default_command : String → String → Text → Payload → Option String → Option String
default_command action_type source path payload given =
    if one_of review_actions action_type
    then some "bin/webhook-hub review-contact"
    else if one_of agent_actions action_type
    then some "agentapi new-conversation"
    else if is_surecart source path
    then some (surecart_command (or_given payload.event payload.type))
    else given

-- `command` is the member, which the triage may have replaced.
unfoldable pub command_of : Option String → String → String → Text → Payload → Option String
command_of command action_type source path payload =
    let given = or_given command payload.target_action in
    if truthy_text given then given else default_command action_type source path payload given
