-- ===== src/TaskRoutes.antt =====
-- The handlers of hub/routes/tasks.py that change state, POST /tasks and POST /tasks/{id}/rerun, on
-- the store and the dispatcher of a process. Publishing on the broker is left out: nothing reads
-- its result. uuid4 and the texts of the request are parameters.
pub mod Rerun
pub mod Create
use antigravity_webhook_hub.Prelude.{
  ℕ, String, str_eq, Option, none, some, List, [], ◌∷◌, if◌then◌else◌,
}
use antigravity_webhook_hub.Prelude.Int.{ℤ, pos}
use antigravity_webhook_hub.Text.{Text, codes, lower, strip}
use antigravity_webhook_hub.Models.{queued}
use antigravity_webhook_hub.Store.Rows.{Task, Db}
use antigravity_webhook_hub.Store.Tasks.{insert_task, get_task, rerun_task}
use antigravity_webhook_hub.Schedule.Engine.{truthy_text, text_or}
use antigravity_webhook_hub.Ingress.Payload.{Member, Read, invalid, overflows, value, read_int}
use antigravity_webhook_hub.Dispatcher.{enqueue}
use antigravity_webhook_hub.Dispatcher.Boot.{Process}

-- The body of POST /tasks, as the handler reads it. A member with a text holds a text.
pub record Submission : Type 0 where
  pub action : Option String
  pub action_type : Option String
  pub command : Option String
  pub target_action : Option String
  pub source : Option String
  pub timeout_seconds : Member
  pub priority : Member
  pub max_retries : Member

-- `crashed` is an exception of the handler: the server answers 500.
pub data Reply : Type 0 where
  malformed : Reply
  accepted : String → String → Reply
  task_not_found : Reply
  requeued : String → Option Task → Reply
  crashed : Reply

-- try: int(body_dict.get(name, default)) except (ValueError, TypeError): default
abbrev pub or_fallback : Read → ℤ → Read
or_fallback (value n) default = value n
or_fallback invalid default = value default
or_fallback overflows default = overflows

-- a or b or c
abbrev pub either : Option String → Option String → String → String
either a b c = if truthy_text a then text_or a c else text_or b c

-- `tidy` stands for `.lower().strip()`.
abbrev pub submitted : (String → String) → String → String → Submission → ℤ → ℤ → ℤ → ℕ → Task
submitted tidy task_id event_id body timeout priority max_retries now = record {
  task_id = task_id;
  event_id = some event_id;
  source = text_or body.source "api";
  action_type = tidy (either body.action body.action_type "cli");
  command = either body.command body.target_action "";
  status = queued;
  priority = priority;
  timeout_seconds = timeout;
  retry_count = pos 0;
  max_retries = max_retries;
  exit_code = none;
  error_message = none;
  created_at = now;
  queued_at = none;
  started_at = none;
  completed_at = none;
  updated_at = now;
}

abbrev pub with_task_stored : Task → String → Process → Option Db → Reply × Process
with_task_stored task event_id p none = (crashed, p)
with_task_stored task event_id p (some db) = (
  accepted task.task_id event_id,
  record { db = db; dispatcher = enqueue task.task_id p.dispatcher },
)

-- The database has no method `insert_event`, for which the handler asks with `hasattr`: the event
-- is not inserted, only the task.
unfoldable pub submit : Task → String → Process → Reply × Process
unfolding insert_task enqueue
submit task event_id p = with_task_stored task event_id p (insert_task task p.db)

unfoldable pub with_numbers :
    (String → String)
    → String
    → String
    → Submission
    → Read
    → Read
    → Read
    → ℕ
    → Process
    → Reply × Process
unfolding submit
with_numbers tidy task_id event_id body (value timeout) (value priority) (value max_retries) now p =
    submit (submitted tidy task_id event_id body timeout priority max_retries now) event_id p
with_numbers tidy task_id event_id body timeout priority max_retries now p = (crashed, p)

-- The ids are f"tsk_{uuid}" and f"evt_{uuid}"; `none` is a body that is no JSON object.
unfoldable pub handle_create_task :
    (String → String) → String → String → Option Submission → ℕ → Process → Reply × Process
unfolding with_numbers
handle_create_task tidy task_id event_id none now p = (malformed, p)
handle_create_task tidy task_id event_id (some body) now p =
    with_numbers tidy task_id event_id body
      (or_fallback (read_int body.timeout_seconds (pos 300)) (pos 300))
      (or_fallback (read_int body.priority (pos 0)) (pos 0))
      (or_fallback (read_int body.max_retries (pos 0)) (pos 0)) now p

-- The task was found.
unfoldable pub rerun_found : String → ℕ → Process → Reply × Process
unfolding rerun_task enqueue get_task
rerun_found task_id now p =
    let db = (rerun_task task_id now p.db).1 in
    (
      requeued task_id (get_task task_id db),
      record { db = db; dispatcher = enqueue task_id p.dispatcher },
    )

abbrev pub if_found : String → ℕ → Process → Option Task → Reply × Process
if_found task_id now p none = (task_not_found, p)
if_found task_id now p (some task) = rerun_found task_id now p

unfoldable pub handle_task_rerun : String → ℕ → Process → Reply × Process
unfolding rerun_found
handle_task_rerun task_id now p = if_found task_id now p (get_task task_id p.db)
