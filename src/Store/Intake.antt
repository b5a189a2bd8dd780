-- ===== src/Store/Intake.antt =====
-- `insert_event_and_task` of hub/db.py: an event with its task, or the task for an event that the
-- store has already.
pub mod Duplicates
pub mod Again
use antigravity_webhook_hub.Prelude.{
  String, str_eq, Bool, true, false, not, ◌&&◌, Option, none, some, if◌then◌else◌,
}
use antigravity_webhook_hub.Store.Rows.{Event, Task, Db}
use antigravity_webhook_hub.Store.Events.{
  insert_webhook_event, get_event_by_idempotency, get_event_by_payload_hash,
}
use antigravity_webhook_hub.Store.Tasks.{insert_task, get_task_by_event_id}
use antigravity_webhook_hub.Store.Rehydrate.{Outcome, returns, raises}

abbrev pub by_key : Event → Db → Option Event
by_key event db = elim event.idempotency_key [
  | none ↦ none
  | some key ↦ if str_eq key "" then none else get_event_by_idempotency event.source key db
]

abbrev pub by_hash : Event → Db → Option Event
by_hash event db =
    if str_eq event.payload_hash ""
    then none
    else get_event_by_payload_hash event.source event.payload_hash db

abbrev pub or_event : Option Event → Option Event → Option Event
or_event none other = other
or_event (some e) other = some e

abbrev pub existing_event : Event → Db → Option Event
existing_event event db = or_event (by_key event db) (by_hash event db)

-- (is_new_event, event_id, task_id), after the insertion of the task.
abbrev pub with_task : Bool → String → String → Db → Option Db → Outcome (Bool × String × String)
with_task is_new event_id task_id db none = raises db
with_task is_new event_id task_id db (some db') = returns (is_new, event_id, task_id) db'

-- The event exists: its task is found, or the given task is attached to it.
abbrev pub attach : Event → Option Task → Task → Db → Outcome (Bool × String × String)
attach e (some t) task db = returns (false, e.event_id, t.task_id) db
attach e none task db =
    with_task false e.event_id task.task_id db
      (insert_task (record task { event_id = some e.event_id }) db)

-- The result of `insert_webhook_event` is not looked at. It commits by itself, so that the
-- rollback after an exception of `insert_task` finds nothing to undo.
abbrev pub insert_both : Option Event → Event → Task → Db → Outcome (Bool × String × String)
insert_both none event task db =
    let (_, stored) = insert_webhook_event event db in
    with_task true event.event_id task.task_id stored (insert_task task stored)
insert_both (some e) event task db = attach e (get_task_by_event_id e.event_id db) task db

unfoldable pub insert_event_and_task : Event → Task → Db → Outcome (Bool × String × String)
unfolding insert_webhook_event insert_task get_event_by_idempotency get_event_by_payload_hash
    get_task_by_event_id
insert_event_and_task event task db = insert_both (existing_event event db) event task db
