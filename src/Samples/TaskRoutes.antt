-- ===== src/Samples/TaskRoutes.antt =====
-- Requests to hub/routes/tasks.py on a store with a queued and a running task.
use antigravity_webhook_hub.Prelude.{◌≡◌, refl, String, true, false, none, some, [], ◌∷◌}
use antigravity_webhook_hub.Prelude.Int.{pos}
use antigravity_webhook_hub.Models.{TaskStatus, queued, running, succeeded}
use antigravity_webhook_hub.Store.Rows.{Task, make_trigger}
use antigravity_webhook_hub.Store.Tasks.{get_task, set_rerun}
use antigravity_webhook_hub.Dispatcher.{finish, member}
use antigravity_webhook_hub.Dispatcher.Execute.{Outcome, finish_task}
use antigravity_webhook_hub.Dispatcher.Boot.{Process}
use antigravity_webhook_hub.Ingress.Payload.{missing, number}
use antigravity_webhook_hub.TaskRoutes.{
  Submission, crashed, accepted, requeued, handle_create_task, handle_task_rerun,
}
use antigravity_webhook_hub.TaskRoutes.Rerun.{IsRequeued, rerun-IsQueued, rerun-strands}

abbrev task : String → TaskStatus → Task
task id status = record {
  task_id = id;
  event_id = none;
  source = "github";
  action_type = "cli";
  command = "make test";
  status = status;
  priority = pos 0;
  timeout_seconds = pos 10;
  retry_count = pos 0;
  max_retries = pos 1;
  exit_code = none;
  error_message = none;
  created_at = 0;
  queued_at = none;
  started_at = none;
  completed_at = none;
  updated_at = 0;
}

abbrev process : Process
process = record {
  db = record { events = []; tasks = task "a" queued ∷ task "b" running ∷ []; auto_event = false };
  dispatcher = record { queue = "a" ∷ []; enqueued_task_ids = "b" ∷ "a" ∷ []; running = "b" ∷ [] };
}

abbrev body : Submission
body = record {
  action = some "cli";
  action_type = none;
  command = some "make";
  target_action = none;
  source = none;
  timeout_seconds = number (pos 60);
  priority = missing;
  max_retries = missing;
}

abbrev tidy : String → String
tidy s = s

-- The same process behind register_sse_routes.
abbrev served : Process
served = record process { db = make_trigger process.db }

-- With the trigger the task is taken, without it the handler ends in an exception.
taken : (handle_create_task tidy "tsk_1" "evt_1" (some body) 5 served).0 ≡ accepted "tsk_1" "evt_1"
unfolding handle_create_task
taken = refl

rejected : handle_create_task tidy "tsk_1" "evt_1" (some body) 5 process ≡ (crashed, process)
unfolding handle_create_task
rejected = refl

rerun-IsQueued_example :
    let (reply, after) = handle_task_rerun "a" 9 process in
    ((r : Task) × IsRequeued 9 (task "a" queued) r
      × (get_task "a" after.db ≡ some r)
      × (reply ≡ requeued "a" (some r)))
    × (get_task "b" after.db ≡ get_task "b" process.db)
    × (after.db.events ≡ process.db.events)
    × (member "a" after.dispatcher.enqueued_task_ids ≡ true)
rerun-IsQueued_example =
    rerun-IsQueued "a" "b" 9 (task "a" queued) process (unfold get_task in refl) refl

abbrev done : Outcome
done = record { status = succeeded; exit_code = some (pos 0); error_message = none }

rerun-strands_example :
    let p' = (handle_task_rerun "b" 9 process).1 in
    let db = (finish_task "b" (task "b" running) done 11 p'.db).1 in
    let d = finish "b" p'.dispatcher in
    (get_task "b" db ≡ some (set_rerun 9 (task "b" running)))
    × (member "b" d.queue ≡ false)
    × (member "b" d.enqueued_task_ids ≡ false)
rerun-strands_example =
    rerun-strands "b" 9 11 (task "b" running) done process (refl, (refl, tt))
      (record { once = (refl, (refl, tt)); tracked = refl }) (unfold get_task in refl) refl
