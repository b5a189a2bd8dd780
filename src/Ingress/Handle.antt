-- ===== src/Ingress/Handle.antt =====
-- `handle_webhook` of hub/routes/webhook.py from the look for duplicates on, with a database and a
-- dispatcher. Left out: the comment in the Slack thread (its result is not used)
-- and the publication of `task_created`, which never takes place (`time` is not imported, and the
-- NameError is caught).
use antigravity_webhook_hub.Prelude.{
  ℕ, String, Bool, true, false, Option, none, some, List, if◌then◌else◌,
}
use antigravity_webhook_hub.Prelude.Int.{ℤ, pos}
use antigravity_webhook_hub.Text.{Text}
use antigravity_webhook_hub.Models.{HttpRequest, queued}
use antigravity_webhook_hub.Store.Rows.{Event, EventStatus, received, scheduled, Task, Db}
use antigravity_webhook_hub.Store.Events.{
  insert_webhook_event, get_event_by_idempotency, get_event_by_payload_hash,
}
use antigravity_webhook_hub.Store.Tasks.{
  insert_task, get_task_by_event_id, get_task_by_idempotency, get_task_by_payload_hash,
}
use antigravity_webhook_hub.Dispatcher.{enqueue}
use antigravity_webhook_hub.Schedule.Engine.{Hub, text_or}
use antigravity_webhook_hub.Schedule.Create.{Planned, Created}
use antigravity_webhook_hub.Ingress.Check.{
  Response, error, duplicate, accepted, Job, Checked, refused, crashes, ready, Parsed, Triage,
  AppConfig, is_scheduled, check_request,
}
use antigravity_webhook_hub.Ingress.Scheduled.{schedule_request, make_schedule}

-- What the handler does: it answers, it hands a task to `dispatcher.execute_task` and answers with
-- the result, or an exception leaves it.
pub data Handled : Type 0 where
  answers : Response → Hub → Handled
  executes : String → String → Hub → Handled
  fails : Hub → Handled

abbrev pub hub_after : Handled → Hub
hub_after (answers response hub) = hub
hub_after (executes event_id task_id hub) = hub
hub_after (fails hub) = hub

abbrev pub event_record : Job → String → EventStatus → ℕ → Event
event_record job event_id status now = record {
  event_id = event_id;
  source = job.source;
  idempotency_key = some job.idempotency_key;
  payload_hash = job.payload_hash;
  raw_payload = job.raw_payload;
  status = status;
  received_at = now;
}

abbrev pub task_record : Job → String → String → ℕ → Task
task_record job event_id task_id now = record {
  task_id = task_id;
  event_id = some event_id;
  source = job.source;
  action_type = job.action_type;
  command = text_or job.command "";
  status = queued;
  priority = job.priority;
  timeout_seconds = job.timeout_seconds;
  retry_count = pos 0;
  max_retries = job.max_retries;
  exit_code = none;
  error_message = none;
  created_at = now;
  queued_at = none;
  started_at = none;
  completed_at = none;
  updated_at = now;
}

abbrev pub or_task : Option Task → Option Task → Option Task
or_task none other = other
or_task (some t) other = some t

-- 5. The task of an earlier request, by the key, then by the hash of the payload.
unfoldable pub find_duplicate : Job → Db → Option Task
unfolding get_task_by_idempotency get_task_by_payload_hash
find_duplicate job db =
    or_task (get_task_by_idempotency job.source job.idempotency_key db)
      (get_task_by_payload_hash job.source job.payload_hash db)

-- After a refused insertion: the event, and its task.
abbrev pub or_event : Option Event → Option Event → Option Event
or_event none other = other
or_event (some e) other = some e

unfoldable pub find_event : Job → Db → Option Event
unfolding get_event_by_idempotency get_event_by_payload_hash
find_event job db =
    or_event (get_event_by_idempotency job.source job.idempotency_key db)
      (get_event_by_payload_hash job.source job.payload_hash db)

abbrev pub task_of_event : Option Event → Db → Option Task
task_of_event none db = none
task_of_event (some e) db = get_task_by_event_id e.event_id db

abbrev pub id_of : Option Event → String → String
id_of none event_id = event_id
id_of (some e) event_id = e.event_id

-- 7. and 8.
abbrev pub dispatch : Job → String → String → Bool → Hub → Handled
dispatch job event_id task_id is_duplicate hub =
    if job.sync
    then executes event_id task_id hub
    else answers (accepted event_id task_id is_duplicate)
        (record hub { dispatcher = enqueue task_id hub.dispatcher })

abbrev pub with_stored : Job → String → String → Bool → Hub → Option Db → Handled
with_stored job event_id task_id is_duplicate hub none = fails hub
with_stored job event_id task_id is_duplicate hub (some db) =
    dispatch job event_id task_id is_duplicate (record hub { db = db })

abbrev pub attach_task : Job → String → String → Bool → ℕ → Hub → Handled
attach_task job event_id task_id is_duplicate now hub =
    with_stored job event_id task_id is_duplicate hub
      (insert_task (task_record job event_id task_id now) hub.db)

abbrev pub answer_duplicate : Task → Hub → Handled
answer_duplicate t hub = answers (duplicate t.task_id t.event_id) hub

-- The event is in the table already. If it has no task, one is attached to it.
abbrev pub collision : Option Task → Option Event → Job → String → String → ℕ → Hub → Handled
collision (some t) e job event_id task_id now hub = answer_duplicate t hub
collision none e job event_id task_id now hub =
    attach_task job (id_of e event_id) task_id true now hub

abbrev pub with_inserted : Bool × Db → Job → String → String → ℕ → Hub → Handled
with_inserted (true, db) job event_id task_id now hub =
    attach_task job event_id task_id false now (record hub { db = db })
with_inserted (false, db) job event_id task_id now hub =
    let e = find_event job db in
    collision
      (or_task (task_of_event e db) (get_task_by_idempotency job.source job.idempotency_key db)) e
      job event_id task_id now (record hub { db = db })

unfoldable pub store_task : Job → String → String → ℕ → Hub → Handled
unfolding find_event insert_webhook_event insert_task get_task_by_event_id get_task_by_idempotency
    enqueue
store_task job event_id task_id now hub =
    with_inserted (insert_webhook_event (event_record job event_id received now) hub.db) job
      event_id task_id now hub

abbrev pub with_created : Created → String → Hub → Handled
with_created (Created.created s rows) event_id hub =
    answers (Response.scheduled event_id s.schedule_id) (record hub { schedules = rows })
with_created Created.value_error event_id hub = answers (error 400 "invalid_schedule") hub
with_created Created.other_error event_id hub = fails hub

-- 6. The schedule. The event is written before the times are parsed. `params_json` is
-- `json.dumps(body_dict)`; `has_scheduler` says whether the server has a scheduler.
module _ (next_run : String → String → Planned)
    (target_time : Option String → Option String → Option String → Planned)
    (params_json : Job → String) (has_scheduler : Bool) where
  unfoldable pub store_schedule : Job → String → String → ℕ → Hub → Handled
  unfolding insert_webhook_event make_schedule
  store_schedule job event_id schedule_id now hub =
      let (_, db) = insert_webhook_event (event_record job event_id scheduled now) hub.db in
      with_created
        (make_schedule next_run target_time params_json has_scheduler
          (schedule_request next_run target_time params_json has_scheduler job) schedule_id now
          hub.schedules)
        event_id (record hub { db = db })

  abbrev pub with_duplicate : Option Task → Job → String → String → String → ℕ → Hub → Handled
  with_duplicate (some t) job event_id task_id schedule_id now hub = answer_duplicate t hub
  with_duplicate none job event_id task_id schedule_id now hub =
      if is_scheduled job.timing
      then store_schedule job event_id schedule_id now hub
      else store_task job event_id task_id now hub

  -- `event_id`, `task_id` and `schedule_id` are what `uuid4` gives for this request.
  unfoldable pub ingest : Job → String → String → String → ℕ → Hub → Handled
  unfolding find_duplicate store_schedule store_task
  ingest job event_id task_id schedule_id now hub =
      with_duplicate (find_duplicate job hub.db) job event_id task_id schedule_id now hub

abbrev pub with_checked : Checked → (Job → Handled) → Hub → Handled
with_checked (refused response) k hub = answers response hub
with_checked crashes k hub = fails hub
with_checked (ready job) k hub = k job

module _ (digest : List ℕ → List ℕ → Text) (payload_hash : List ℕ → String)
    (decode : List ℕ → String) (loads : List ℕ → Parsed) (triage : String → Triage)
    (config : AppConfig) (next_run : String → String → Planned)
    (target_time : Option String → Option String → Option String → Planned)
    (params_json : Job → String) (has_scheduler : Bool) where
  unfoldable pub handle_webhook :
      HttpRequest → String → ℤ → String → String → String → ℕ → Hub → Handled
  unfolding check_request ingest
  handle_webhook req source clock event_id task_id schedule_id now hub =
      with_checked (check_request payload_hash decode triage config digest loads req source clock)
        (λ job.
          ingest next_run target_time params_json has_scheduler job event_id task_id schedule_id now
            hub)
        hub
