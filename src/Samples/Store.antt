-- ===== src/Samples/Store.antt =====
-- A store of hub/db.py with a task in each of the conditions that a sweep takes up.
use antigravity_webhook_hub.Prelude.{ℕ, ◌≡◌, refl, String, true, false, none, some, [], ◌∷◌, any}
use antigravity_webhook_hub.Prelude.Int.{pos}
use antigravity_webhook_hub.Models.{TaskStatus, running, succeeded, timed_out, received}
use antigravity_webhook_hub.Store.Rows.{Task, Db}
use antigravity_webhook_hub.Store.Rehydrate.{Json, other, Outcome, returns, raises, store_after}
use antigravity_webhook_hub.Store.Events.{get_orphaned_webhook_events}
use antigravity_webhook_hub.Store.Tasks.{update_task_status_cas}
use antigravity_webhook_hub.Store.Updates.{Distinct}
use antigravity_webhook_hub.Store.Sweep.{
  Options, Report, is_stale, is_received, sweep_and_requeue_unprocessed,
}
use antigravity_webhook_hub.Store.Cas.{cas-refines, lookup, swap_in_map}
use antigravity_webhook_hub.Store.Sweep.Settled.{sweep-settled, sweep-again}

abbrev task : String → TaskStatus → Task
task id status = record {
  task_id = id;
  event_id = none;
  source = "default";
  action_type = "cli";
  command = "true";
  status = status;
  priority = pos 0;
  timeout_seconds = pos 10;
  retry_count = pos 0;
  max_retries = pos 1;
  exit_code = none;
  error_message = none;
  created_at = 0;
  queued_at = none;
  started_at = some 5;
  completed_at = none;
  updated_at = 5;
}

abbrev db : Db
db = record {
  events = [];
  auto_event = false;
  tasks = task "a" running ∷ task "b" received ∷ task "c" timed_out ∷ task "d" succeeded ∷ [];
}

db-Distinct : Distinct db.tasks
db-Distinct = (refl, (refl, (refl, (refl, tt))))

abbrev options : Options
options = record {
  stale_running_seconds = pos 100;
  max_retries = pos 3;
  auto_retry_interrupted = true;
  source = none;
  limit = 50;
}

abbrev loads : String → Json
loads s = other

abbrev fresh : ℕ → String
fresh i = "fresh"

abbrev swept : Outcome Report
swept = sweep_and_requeue_unprocessed loads fresh options 1000 db

sweep-settled_example :
    (any (is_stale options 1000) (store_after swept).tasks ≡ false)
    × (any (is_received options) (store_after swept).tasks ≡ false)
sweep-settled_example = sweep-settled loads fresh options 1000 db db-Distinct

abbrev report_of : Outcome Report → Report
report_of (returns report after) = report
report_of (raises after) = record {
  recovered_stale_running = 1;
  recovered_received_tasks = 1;
  recovered_orphaned_events = 1;
  recovered_interrupted_failed = 1;
  task_ids = [];
}

abbrev swept_again : Outcome Report
swept_again = sweep_and_requeue_unprocessed loads fresh options 1000 (store_after swept)

sweep-again_example :
    ((report_of swept_again).recovered_stale_running ≡ 0)
    × ((report_of swept_again).recovered_received_tasks ≡ 0)
    × ((report_of swept_again).recovered_interrupted_failed ≡ 0)
unfolding sweep_and_requeue_unprocessed get_orphaned_webhook_events
sweep-again_example = sweep-again loads fresh options 1000 db db-Distinct refl refl

cas-refines_example :
    (
      (update_task_status_cas "a" running succeeded none none 6 db).0,
      lookup (update_task_status_cas "a" running succeeded none none 6 db).1,
    )
    ≡ swap_in_map "a" running succeeded none none 6 (lookup db)
cas-refines_example = cas-refines "a" running succeeded none none 6 db db-Distinct
