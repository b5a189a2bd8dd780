-- ===== src/Samples/Intake.antt =====
-- Events and tasks that come in to hub/db.py, the queue, the retries, and the workers.
use antigravity_webhook_hub.Prelude.{
  Bool, ◌≡◌, ◌&&◌, refl, String, true, false, Option, none, some, [], ◌∷◌, any, keep,
}
use antigravity_webhook_hub.Prelude.Int.{ℤ, pos}
use antigravity_webhook_hub.Models.{TaskStatus, queued, running, is_terminal}
use antigravity_webhook_hub.Store.Rows
use antigravity_webhook_hub.Store.Rows.{Event, Task, Db, count_rows, task_allowed}
use antigravity_webhook_hub.Store.Tasks.{
  get_queued_tasks, is_queued, is_running, recover_orphaned_tasks,
}
use antigravity_webhook_hub.Store.Rehydrate.{returns, store_after}
use antigravity_webhook_hub.Store.Sweep.{Options, is_stale, recover_stale_tasks, sweep_failures}
use antigravity_webhook_hub.Store.Queue.{InOrder, get_queued_tasks-sorts}
use antigravity_webhook_hub.Store.Budget.{over_budget, recovery-in_budget}
use antigravity_webhook_hub.Store.Tasks.{update_task_status_cas}
use antigravity_webhook_hub.Prelude.Int.{◌+ℤ◌}
use antigravity_webhook_hub.Dispatcher.Start.{ExecutionResult, stops, claim}
use antigravity_webhook_hub.Dispatcher.Start.Claims.{claim_once}
use antigravity_webhook_hub.Store.Intake.{insert_event_and_task}
use antigravity_webhook_hub.Store.Intake.Again.{insert_event_and_task-again}

abbrev event : String → Event
event id = record {
  event_id = id;
  source = "github";
  idempotency_key = some "k";
  payload_hash = "h";
  raw_payload = "{}";
  status = Rows.received;
  received_at = 1;
}

abbrev task : String → Option String → TaskStatus → ℤ → Task
task id event_id status priority = record {
  task_id = id;
  event_id = event_id;
  source = "github";
  action_type = "cli";
  command = "true";
  status = status;
  priority = priority;
  timeout_seconds = pos 10;
  retry_count = pos 0;
  max_retries = pos 1;
  exit_code = none;
  error_message = none;
  created_at = 0;
  queued_at = none;
  started_at = some 5;
  completed_at = none;
  updated_at = 5;
}

abbrev empty : Db
empty = record { events = []; tasks = []; auto_event = false }

abbrev busy : Db
busy = record {
  events = [];
  auto_event = false;
  tasks =
      task "a" none running (pos 0)
      ∷ task "b" none queued (pos 1)
      ∷ task "c" none queued (pos 2)
      ∷ [];
}

abbrev options : Options
options = record {
  stale_running_seconds = pos 100;
  max_retries = pos 3;
  auto_retry_interrupted = true;
  source = none;
  limit = 50;
}

get_queued_tasks-sorts_example :
    InOrder (get_queued_tasks busy)
    × ((p : Task → Bool)
        → count_rows p (get_queued_tasks busy) ≡ count_rows (λ t. is_queued t && p t) busy.tasks)
get_queued_tasks-sorts_example = get_queued_tasks-sorts busy

recovery-in_budget_example :
    (any is_running (recover_orphaned_tasks 9 busy).1.tasks ≡ false)
    × (any over_budget (recover_orphaned_tasks 9 busy).1.tasks ≡ false)
    × (any over_budget
          (recover_stale_tasks options 9 (keep (is_stale options 9) busy.tasks) busy.tasks).1
        ≡ false)
    × (any over_budget (store_after (sweep_failures options 9 0 0 0 busy)).tasks ≡ false)
recovery-in_budget_example = recovery-in_budget options 9 0 0 0 busy (refl, (refl, (refl, tt))) refl

abbrev first_task : Task
first_task = task "t1" (some "e1") queued (pos 0)

insert_event_and_task-again_example :
    (i t : String) × (insert_event_and_task
        (event "e1")
        (task "t2" (some "e1") queued (pos 0))
        (store_after (insert_event_and_task (event "e1") first_task empty))
      ≡ returns (false, i, t) (store_after (insert_event_and_task (event "e1") first_task empty)))
unfolding insert_event_and_task
insert_event_and_task-again_example =
    insert_event_and_task-again (event "e1") "k" refl refl first_task
      (task "t2" (some "e1") queued (pos 0)) empty _ _ refl refl refl

claim_once_example :
    (r : ExecutionResult) × (claim "b" 8
        (task "b" none queued (pos 1))
        (claim "b" 7 (task "b" none queued (pos 1)) busy).1
      ≡ (stops r, (claim "b" 7 (task "b" none queued (pos 1)) busy).1))
unfolding claim update_task_status_cas is_terminal ◌+ℤ◌
claim_once_example = claim_once "b" 7 8 (task "b" none queued (pos 1)) busy _ (pos 1) refl refl
