-- ===== src/Samples/Dispatcher.antt =====
-- Tasks that hub/dispatcher.py executes, sweeps and starts with, on a small store.
use antigravity_webhook_hub.Prelude.{false, ℕ, ◌≡◌, refl, String, true, Option, none, some, [], ◌∷◌}
use antigravity_webhook_hub.Prelude.Int.{pos}
use antigravity_webhook_hub.Text.{Text, codes}
use antigravity_webhook_hub.Models.{TaskStatus, queued, running, succeeded, is_terminal}
use antigravity_webhook_hub.Store.Rows.{Task, Db}
use antigravity_webhook_hub.Store.Events.{get_orphaned_webhook_events}
use antigravity_webhook_hub.Store.Tasks.{get_task}
use antigravity_webhook_hub.Store.Rehydrate.{Json, other}
use antigravity_webhook_hub.Store.Sweep.{Options}
use antigravity_webhook_hub.Dispatcher.{idle, member}
use antigravity_webhook_hub.Dispatcher.Exclusion.{IsExclusive, IsExclusive-idle}
use antigravity_webhook_hub.Dispatcher.Execute.{Route, Ending, exited, Outcome, execute_task}
use antigravity_webhook_hub.Dispatcher.Execute.Settles.{IsSettled, execute_task-IsSettled}
use antigravity_webhook_hub.Dispatcher.Boot.{Process, sweep_unprocessed_tasks, start_dispatcher}
use antigravity_webhook_hub.Dispatcher.Boot.Enqueued.{
  IsPickedUp, sweep_unprocessed_tasks-IsPickedUp, start_dispatcher_complete,
}

abbrev task : String → TaskStatus → Task
task id status = record {
  task_id = id;
  event_id = none;
  source = "github";
  action_type = "cli";
  command = "make test";
  status = status;
  priority = pos 0;
  timeout_seconds = pos 10;
  retry_count = pos 0;
  max_retries = pos 1;
  exit_code = none;
  error_message = none;
  created_at = 0;
  queued_at = none;
  started_at = none;
  completed_at = none;
  updated_at = 0;
}

abbrev db : Db
db = record { events = []; tasks = task "a" queued ∷ task "b" running ∷ []; auto_event = false }

abbrev target_of : Task → Text
target_of t = []

abbrev url_of : Task → Option Text
url_of t = none

abbrev perform : Route → Task → Db → Ending × Db
perform r t d = (exited (pos 2), d)

execute_task-IsSettled_example :
    IsSettled "a" 6 (execute_task target_of url_of (codes "501") perform "a" 5 6 db)
unfolding is_terminal
execute_task-IsSettled_example =
    execute_task-IsSettled target_of url_of (codes "501") perform (λ r t d. refl) "a" 5 6
      (task "a" queued) db (refl, (refl, tt)) (unfold get_task in refl) refl

abbrev done : Outcome
done = record { status = succeeded; exit_code = some (pos 0); error_message = none }

abbrev loads : String → Json
loads s = other

abbrev fresh : ℕ → String
fresh i = "t"

abbrev options : Options
options = record {
  stale_running_seconds = pos 100;
  max_retries = pos 3;
  auto_retry_interrupted = true;
  source = none;
  limit = 10;
}

abbrev process : Process
process = record { db = db; dispatcher = idle }

sweep_unprocessed_tasks-IsPickedUp_example :
    IsPickedUp process (sweep_unprocessed_tasks loads fresh options 1000 process)
sweep_unprocessed_tasks-IsPickedUp_example =
    sweep_unprocessed_tasks-IsPickedUp loads fresh options 1000 process IsExclusive-idle

start_dispatcher_complete_example :
    (member "b" (start_dispatcher loads fresh options 1000 process).dispatcher.enqueued_task_ids
      ≡ true)
    × IsExclusive (start_dispatcher loads fresh options 1000 process).dispatcher
unfolding get_orphaned_webhook_events
start_dispatcher_complete_example =
    start_dispatcher_complete loads fresh options 1000 process "b" IsExclusive-idle
      (unfold start_dispatcher in refl)
