-- ===== src/Store/Rehydrate.antt =====
-- `rehydrate_orphaned_event` of hub/db.py: a task for an event that has none.
-- `json.loads` and `uuid.uuid4` are the parameters `loads` and `fresh`.
pub mod Frame
use antigravity_webhook_hub.Prelude.{
  ℕ, String, str_eq, Bool, true, false, ◌&&◌, ◌||◌, Option, none, some, any, if◌then◌else◌,
}
use antigravity_webhook_hub.Prelude.Int.{ℤ, pos}
use antigravity_webhook_hub.Text.{codes, is_nil, strip}
use antigravity_webhook_hub.Models.{queued}
use antigravity_webhook_hub.Store.Rows.{Event, Task, Db, sql_eq}
use antigravity_webhook_hub.Store.Events.{get_webhook_event}
use antigravity_webhook_hub.Store.Tasks.{insert_task}

-- A member that the code passes to `int`: missing, refused by `int`, or read.
pub data Field : Type 0 where
  absent unreadable : Field
  number : ℤ → Field

-- The members of a JSON object that `rehydrate_orphaned_event` reads.
pub record Payload : Type 0 where
  pub action_type : Option String
  pub action : Option String
  pub command : Option String
  pub target_action : Option String
  pub priority : Field
  pub timeout_seconds : Field
  pub max_retries : Field

-- What `json.loads` gives: an object, a string, or anything else, an exception too.
pub data Json : Type 0 where
  object : Payload → Json
  string : String → Json
  other : Json

abbrev pub no_payload : Payload
no_payload = record {
  action_type = none;
  action = none;
  command = none;
  target_action = none;
  priority = absent;
  timeout_seconds = absent;
  max_retries = absent;
}

abbrev payload_of : Json → Payload
payload_of (object p) = p
payload_of (string s) =
    if is_nil (strip (codes s)) then no_payload else record no_payload { command = some s }
payload_of other = no_payload

-- int(payload.get(name, default)); `none` is the ValueError.
abbrev pub int_field : Field → ℤ → Option ℤ
int_field absent default = some default
int_field unreadable default = none
int_field (number n) default = some n

-- `a or b` with a text for `b`.
abbrev or_text : Option String → String → String
or_text none b = b
or_text (some a) b = if str_eq a "" then b else a

-- What a method does: it returns, or an exception leaves it; either way there is a store.
pub data Outcome (A : Type 0) : Type 0 where
  returns : A → Db → Outcome A
  raises : Db → Outcome A

-- An exception skips what follows.
abbrev pub and_then : {A B : Type 0} → Outcome A → (A → Db → Outcome B) → Outcome B
and_then (returns a db) k = k a db
and_then (raises db) k = raises db

abbrev pub store_after : {A : Type 0} → Outcome A → Db
store_after (returns a db) = db
store_after (raises db) = db

-- An `int(…)` in the middle of a method: its exception leaves the method.
abbrev pub with_int : {A : Type 0} → Field → ℤ → Db → (ℤ → Outcome A) → Outcome A
with_int f default db k = elim (int_field f default) [ none ↦ raises db | some n ↦ k n ]

abbrev default_action : String → String → String
default_action source default_action_type =
    if str_eq source "contact-review" || str_eq source "contact_review"
    then "contact_review"
    else default_action_type

abbrev default_command : String → String → String
default_command action_type command =
    if str_eq command ""
      && (str_eq action_type "contact_review"
          || str_eq action_type "review_contact"
          || str_eq action_type "contact-review")
    then "bin/webhook-hub review-contact"
    else command

-- The record that is handed to `insert_task`.
unfoldable pub rehydrated_task : Payload → Event → String → String → ℕ → ℤ → ℤ → ℤ → Task
rehydrated_task payload event task_id default_action_type now priority timeout_seconds max_retries =
    let action_type =
      or_text payload.action_type
        (or_text payload.action (default_action event.source default_action_type)) in
    record {
      task_id = task_id;
      event_id = some event.event_id;
      source = event.source;
      action_type = action_type;
      command =
          default_command action_type (or_text payload.command (or_text payload.target_action ""));
      status = queued;
      priority = priority;
      timeout_seconds = timeout_seconds;
      retry_count = pos 0;
      max_retries = max_retries;
      exit_code = none;
      error_message = none;
      created_at = now;
      queued_at = none;
      started_at = none;
      completed_at = none;
      updated_at = now;
    }

abbrev pub given_event : Option Event → String → Db → Option Event
given_event none event_id db = get_webhook_event event_id db
given_event (some e) event_id db = some e

abbrev pub with_event :
    Option Event → Db → (Event → Outcome (Option String)) → Outcome (Option String)
with_event none db k = returns none db
with_event (some event) db k = k event

abbrev pub inserted : String → Db → Option Db → Outcome (Option String)
inserted task_id db none = raises db
inserted task_id db (some db') = returns (some task_id) db'

module _ (loads : String → Json) where
  abbrev pub decoded : Event → Payload
  decoded event =
      if str_eq event.raw_payload "" then no_payload else payload_of (loads event.raw_payload)

  unfoldable pub rehydrate_event :
      Event → String → String → ℤ → ℤ → ℕ → Db → Outcome (Option String)
  unfolding rehydrated_task insert_task
  rehydrate_event event task_id default_action_type default_max_retries default_timeout now db =
      let payload = decoded event in
      with_int payload.priority (pos 0) db λ priority.
        with_int payload.timeout_seconds default_timeout db λ timeout.
          with_int payload.max_retries default_max_retries db λ max_retries. inserted task_id db (
            insert_task
              (rehydrated_task payload event task_id default_action_type now priority timeout
                max_retries)
              db)

  -- `event_record` is the optional argument; without it the event is read from the table.
  unfoldable pub rehydrate_orphaned_event :
      String → Option Event → String → String → ℤ → ℤ → ℕ → Db → Outcome (Option String)
  unfolding rehydrate_event get_webhook_event
  rehydrate_orphaned_event event_id event_record task_id action_type max_retries timeout now db =
      with_event (given_event event_record event_id db) db λ event.
        if any (λ t. sql_eq t.event_id event_id) db.tasks
        then returns none db
        else rehydrate_event event task_id action_type max_retries timeout now db
