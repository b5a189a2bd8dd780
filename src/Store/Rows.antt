-- ===== src/Store/Rows.antt =====
-- The rows of `webhook_events` and `tasks`, the store, and what SQLite checks on INSERT.
use antigravity_webhook_hub.Prelude.{
  ℕ, suc, String, str_eq, Bool, true, false, not, ◌&&◌, ◌||◌, Option, none, some, List, [], ◌∷◌,
  ◌++◌, any, ◌==◌, if◌then◌else◌,
}
use antigravity_webhook_hub.Prelude.Int.{ℤ}
use antigravity_webhook_hub.Text.{Text}
use antigravity_webhook_hub.Models.{TaskStatus}

-- The CHECK of the status column of `webhook_events`.
pub data EventStatus : Type 0 where
  received processed duplicate rejected scheduled : EventStatus

abbrev ordinal : EventStatus → ℕ
ordinal received = 0
ordinal processed = 1
ordinal duplicate = 2
ordinal rejected = 3
ordinal scheduled = 4

abbrev pub event_status_eq : EventStatus → EventStatus → Bool
event_status_eq s t = ordinal s == ordinal t

pub record Event : Type 0 where
  pub event_id : String
  pub source : String
  pub idempotency_key : Option String
  pub payload_hash : String
  pub raw_payload : String
  pub status : EventStatus
  pub received_at : ℕ

pub record Task : Type 0 where
  pub task_id : String
  pub event_id : Option String
  pub source : String
  pub action_type : String
  pub command : String
  pub status : TaskStatus
  pub priority : ℤ
  pub timeout_seconds : ℤ
  pub retry_count : ℤ
  pub max_retries : ℤ
  pub exit_code : Option ℤ
  pub error_message : Option Text
  pub created_at : ℕ
  pub queued_at : Option ℕ
  pub started_at : Option ℕ
  pub completed_at : Option ℕ
  pub updated_at : ℕ

-- `auto_event`: whether register_sse_routes of hub/routes/sse.py has made its trigger.
pub record Db : Type 0 where
  pub events : List Event
  pub tasks : List Task
  pub auto_event : Bool

-- Equality of nullable columns in SQL: NULL is equal to nothing.
abbrev pub sql_eq : Option String → String → Bool
sql_eq none s = false
sql_eq (some t) s = str_eq t s

-- The constraints that an inserted row must meet; a row that breaks one raises IntegrityError.
-- `webhook_events`: the primary key, and the unique index on (source, idempotency_key).
abbrev pub event_clashes : Event → Event → Bool
event_clashes new old =
    str_eq old.event_id new.event_id
    || str_eq old.source new.source
      && (elim new.idempotency_key [ none ↦ false | some k ↦ sql_eq old.idempotency_key k ])

-- `tasks`: the primary key, and the foreign key to `webhook_events` (PRAGMA foreign_keys = ON).
abbrev pub references : Task → Event → Bool
references t e = sql_eq t.event_id e.event_id

abbrev pub task_allowed : Task → Db → Bool
task_allowed t db =
    not (any (λ u. str_eq u.task_id t.task_id) db.tasks)
    && (elim t.event_id [ none ↦ true | some _ ↦ any (references t) db.events ])

-- CREATE TRIGGER IF NOT EXISTS trg_tasks_auto_event, without which a database begins.
abbrev pub make_trigger : Db → Db
make_trigger db = record db { auto_event = true }

-- The event that the trigger trg_tasks_auto_event makes for a task; `received_at` is the time of the
-- statement, like `created_at` of the task.
abbrev pub auto_event_of : String → Task → Event
auto_event_of event_id t = record {
  event_id = event_id;
  source = t.source;
  idempotency_key = none;
  payload_hash = "";
  raw_payload = "{}";
  status = received;
  received_at = t.created_at;
}

-- BEFORE INSERT ON tasks, with INSERT OR IGNORE.
unfoldable pub auto_events : Bool → Task → List Event → List Event
auto_events installed t events = elim t.event_id as (λ _. List Event) [
  | none ↦ events
  | some event_id ↦
      if installed && not (any (references t) events)
      then events ++ auto_event_of event_id t ∷ []
      else events
]

abbrev pub create_event : Task → Db → Db
create_event t db = record db { events = auto_events db.auto_event t db.events }

-- UPDATE … WHERE: the rows that pass the test are rewritten, in place.
unfoldable pub update_rows : (Task → Bool) → (Task → Task) → List Task → List Task
update_rows test change [] = []
update_rows test change (t ∷ ts) =
    let rest = update_rows test change ts in if test t then change t ∷ rest else t ∷ rest

-- cursor.rowcount
unfoldable pub count_rows : (Task → Bool) → List Task → ℕ
count_rows test [] = 0
count_rows test (t ∷ ts) = let rest = count_rows test ts in if test t then suc rest else rest
