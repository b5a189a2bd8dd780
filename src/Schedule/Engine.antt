-- ===== src/Schedule/Engine.antt =====
-- The engine of hub/scheduler.py: the sweep of the due schedules, the trigger of one, and the
-- operations on one schedule. The parameters stand for `uuid4` and `strftime` (`event_name`,
-- `task_name`, `run_key`), `json.dumps` of the merged parameters (`payload_of`), and
-- `compute_next_cron_run` with `format_iso_utc` (`next_run`, `none` for an exception).
-- Publishing on the broker is left out: its result is not used.
use antigravity_webhook_hub.Prelude.{
  ℕ, suc, String, str_eq, Bool, true, false, not, ◌&&◌, ◌||◌, Option, none, some, List, [], ◌∷◌,
  any, if◌then◌else◌,
}
use antigravity_webhook_hub.Prelude.Int.{ℤ, pos, ◌+ℤ◌, ltb_ℤ}
use antigravity_webhook_hub.Models.{queued}
use antigravity_webhook_hub.Store.Rows
use antigravity_webhook_hub.Store.Rows.{Event, Task, Db}
use antigravity_webhook_hub.Store.Events.{insert_webhook_event}
use antigravity_webhook_hub.Store.Tasks.{insert_task}
use antigravity_webhook_hub.Dispatcher.{Dispatcher, enqueue}
use antigravity_webhook_hub.Schedule.Rows.{
  Schedule, ScheduleType, once, recurring, ScheduleStatus, active, paused, completed, cancelled,
  failed, named, get_schedule, update_by_id, update_schedule_status, record_schedule_execution,
  get_due_schedules,
}

pub record Hub : Type 0 where
  pub db : Db
  pub schedules : List Schedule
  pub dispatcher : Dispatcher

-- A trigger that came to its end, with the task's id, or one that an exception ended.
pub data Fired : Type 0 where
  fired : String → Hub → Fired
  broken : Hub → Fired

abbrev pub hub_after : Fired → Hub
hub_after (fired task_id hub) = hub
hub_after (broken hub) = hub

abbrev pub with_fired : Fired → List String → List String
with_fired (fired task_id hub) ids = task_id ∷ ids
with_fired (broken hub) ids = ids

abbrev pub truthy_text : Option String → Bool
truthy_text none = false
truthy_text (some s) = not (str_eq s "")

abbrev pub text_or : Option String → String → String
text_or none d = d
text_or (some s) d = if str_eq s "" then d else s

-- Step 3: the next run and the status, without the limit on the runs.
abbrev pub recur : Option String → Option String × ScheduleStatus
recur none = (none, failed)
recur (some at) = (some at, active)

abbrev pub follow_up : ScheduleType → Bool → Option String → Option String × ScheduleStatus
follow_up once has_cron next = (none, completed)
follow_up recurring false next = (none, completed)
follow_up recurring true next = recur next

-- `max_runs and current_runs >= int(max_runs)`
abbrev pub runs_out : Option ℤ → ℤ → Bool
runs_out none current = false
runs_out (some m) current = (ltb_ℤ m (pos 0) || ltb_ℤ (pos 0) m) && not (ltb_ℤ current m)

abbrev pub next_status : Option ℤ → ℤ → ScheduleStatus → ScheduleStatus
next_status max_runs current status = if runs_out max_runs current then completed else status

module _ (next_run : String → String → Option String) where
  abbrev pub next_of : Schedule → Option String
  next_of s = elim s.cron_expression [ none ↦ none | some cron ↦ next_run cron s.timezone ]

  abbrev pub planned : Schedule → Option String × ScheduleStatus
  planned s = follow_up s.schedule_type (truthy_text s.cron_expression) (next_of s)

  abbrev pub status_after : Schedule → ScheduleStatus
  status_after s = next_status s.max_runs (s.total_runs +ℤ pos 1) (planned s).1

module _ (event_name task_name : ℕ → String) (run_key : Schedule → ℕ → String → String)
    (payload_of : Schedule → String) where
  -- 1. The synthetic event.
  abbrev pub event_record : Schedule → ℕ → ℕ → Event
  event_record s i now = record {
    event_id = event_name i;
    source = s.source;
    idempotency_key = some (run_key s now (task_name i));
    payload_hash = "";
    raw_payload = payload_of s;
    status = Rows.received;
    received_at = now;
  }

  -- 2. The task; `scheduled_tasks` has no columns for the priority and the timeout.
  abbrev pub task_record : Schedule → ℕ → ℕ → Task
  task_record s i now =
      let command = text_or s.command (text_or s.target_action "") in
      record {
        task_id = task_name i;
        event_id = some (event_name i);
        source = s.source;
        action_type = s.action_type;
        command = text_or (some command) (text_or s.target_action command);
        status = queued;
        priority = pos 0;
        timeout_seconds = pos 300;
        retry_count = pos 0;
        max_retries = pos 0;
        exit_code = none;
        error_message = none;
        created_at = now;
        queued_at = none;
        started_at = none;
        completed_at = none;
        updated_at = now;
      }

  module _ (next_run : String → String → Option String) where
    -- 3. to 5., after the insertion of the task.
    abbrev pub after_insertion : Schedule → ℕ → ℕ → Hub → Option Db → Fired
    after_insertion s i now hub none = broken hub
    after_insertion s i now hub (some db) = fired (task_name i) (record {
      db = db;
      schedules =
          (record_schedule_execution s.schedule_id (task_name i) (planned next_run s).0
            (some (status_after next_run s)) none now hub.schedules).1;
      dispatcher = enqueue (task_name i) hub.dispatcher;
    })

    -- `i` numbers the ids that `uuid4` gives.
    unfoldable pub execute_schedule_trigger : Schedule → ℕ → ℕ → Hub → Fired
    unfolding insert_webhook_event insert_task
    execute_schedule_trigger s i now hub =
        let (_, db) = insert_webhook_event (event_record s i now) hub.db in
        after_insertion s i now (record hub { db = db }) (insert_task (task_record s i now) db)

    -- The loop of `sweep_due`: an exception ends one trigger, not the sweep.
    unfoldable pub trigger_all : ℕ → ℕ → List Schedule → Hub → List String × Hub
    unfolding execute_schedule_trigger
    trigger_all i now [] hub = ([], hub)
    trigger_all i now (s ∷ due) hub =
        let res = execute_schedule_trigger s i now hub in
        let (triggered, after) = trigger_all (suc i) now due (hub_after res) in
        (with_fired res triggered, after)

    unfoldable pub sweep_due :
        (String → String → Bool) → (String → Option String) → String → ℕ → Hub → List String × Hub
    unfolding trigger_all get_due_schedules
    sweep_due le datetime as_of now hub =
        trigger_all 0 now (get_due_schedules le datetime as_of hub.schedules) hub

    unfoldable pub trigger_now : String → ℕ → Hub → Option Fired
    unfolding get_schedule execute_schedule_trigger
    trigger_now schedule_id now hub = elim (get_schedule schedule_id hub.schedules) [
      | none ↦ none
      | some s ↦ some (execute_schedule_trigger s 0 now hub)
    ]

unfoldable pub pause_schedule : String → ℕ → Hub → Bool × Hub
unfolding update_schedule_status
pause_schedule schedule_id now hub =
    let (ok, rows) = update_schedule_status schedule_id paused none now hub.schedules in
    (ok, record hub { schedules = rows })

unfoldable pub cancel_schedule : String → ℕ → Hub → Bool × Hub
unfolding update_schedule_status
cancel_schedule schedule_id now hub =
    let (ok, rows) = update_schedule_status schedule_id cancelled none now hub.schedules in
    (ok, record hub { schedules = rows })

-- The `update_schedule` of `resume_schedule`.
unfoldable pub set_resumed : Option String → ℕ → Schedule → Schedule
set_resumed next now s = record s {
  status = active;
  next_run_at = elim next [ none ↦ s.next_run_at | some at ↦ at ];
  updated_at = now;
}

abbrev pub resumed_run : (String → Option String) → Schedule → Option String
resumed_run next_run s = elim s.schedule_type [
  | once ↦ none
  | recurring ↦
      if truthy_text s.cron_expression
      then (elim s.cron_expression [ none ↦ none | some cron ↦ next_run cron ])
      else none
]

unfoldable pub resume_schedule : (String → Option String) → String → ℕ → Hub → Bool × Hub
unfolding get_schedule update_by_id set_resumed
resume_schedule next_run schedule_id now hub = elim (get_schedule schedule_id hub.schedules) [
  | none ↦ (false, hub)
  | some s ↦ (
    any (named schedule_id) hub.schedules,
    record hub {
      schedules = update_by_id schedule_id (set_resumed (resumed_run next_run s) now) hub.schedules;
    },
  )
]
