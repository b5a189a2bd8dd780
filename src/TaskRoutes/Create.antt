-- ===== src/TaskRoutes/Create.antt =====
-- What POST /tasks of hub/routes/tasks.py does, with and without the trigger of
-- hub/routes/sse.py.
use antigravity_webhook_hub.Prelude.{
  ℕ, String, str_eq, ◌≡◌, ◌⊎◌, Bool, true, false, ◌++◌, Option, none, some, [], ◌∷◌, any,
}
use antigravity_webhook_hub.Prelude.Int.{ℤ}
use antigravity_webhook_hub.Models.{queued}
use antigravity_webhook_hub.Store.Rows.{Task, Db, auto_event_of}
use antigravity_webhook_hub.Store.Tasks.{has_id, get_task}
use antigravity_webhook_hub.Dispatcher.{member}
use antigravity_webhook_hub.Dispatcher.Boot.{Process}
use antigravity_webhook_hub.Ingress.Payload.{infinite}
use antigravity_webhook_hub.TaskRoutes

abbrev pub has_event : String → Db → Bool
has_event event_id db = any (λ e. str_eq event_id e.event_id) db.events

-- A number of the body is Infinity.
abbrev pub HasOverflow : TaskRoutes.Submission → Type 0
HasOverflow body =
    (body.timeout_seconds ≡ infinite) ⊎ (body.priority ≡ infinite) ⊎ (body.max_retries ≡ infinite)

-- The task was taken: it is in the table, queued, with its event, and known to the dispatcher.
pub record IsTaken (task_id event_id : String) (r : TaskRoutes.Reply × Process) : Type 0 where
  pub task : Task
  pub reply : r.0 ≡ TaskRoutes.accepted task_id event_id
  pub row : get_task task_id r.1.db ≡ some task
  pub is_queued : task.status ≡ queued
  pub own_event : task.event_id ≡ some event_id
  pub event : has_event event_id r.1.db ≡ true
  pub is_known : member task_id r.1.dispatcher.enqueued_task_ids ≡ true

-- The task is refused: the body is no object, or the handler ends in an exception, and then the
-- trigger is not there or a number of the body is Infinity.
abbrev pub IsRefused : Option TaskRoutes.Submission → Process → TaskRoutes.Reply × Process → Type 0
IsRefused none p r = r ≡ (TaskRoutes.malformed, p)
IsRefused (some body) p r =
    (r ≡ (TaskRoutes.crashed, p)) × ((p.db.auto_event ≡ false) ⊎ HasOverflow body)

module _ (tidy : String → String) (task_id event_id : String) (now : ℕ) (p : Process)
    (absent : has_event event_id p.db ≡ false)
    (unused : any (has_id task_id) p.db.tasks ≡ false) where
  module _ (body : TaskRoutes.Submission) (timeout priority max_retries : ℤ) where
    abbrev task : Task
    task = TaskRoutes.submitted tidy task_id event_id body timeout priority max_retries now

    abbrev made : Db
    made = record p.db {
      events = p.db.events ++ auto_event_of event_id task ∷ [];
      tasks = p.db.tasks ++ task ∷ [];
    }

    abbrev Decided : TaskRoutes.Reply × Process → Type 0
    Decided r = IsRefused (some body) p r ⊎ ((p.db.auto_event ≡ true) × IsTaken task_id event_id r)
