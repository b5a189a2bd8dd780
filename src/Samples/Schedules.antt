-- ===== src/Samples/Schedules.antt =====
-- Schedules of hub/scheduler.py on concrete inputs. Times are compared as texts of one digit.
use antigravity_webhook_hub.Prelude.{
  false, ℕ, ◌≡◌, refl, String, str_eq, Bool, Option, none, some, [], ◌∷◌,
}
use antigravity_webhook_hub.Prelude.Int.{pos}
use antigravity_webhook_hub.Dispatcher.{idle}
use antigravity_webhook_hub.Schedule.Rows.{
  Schedule, ScheduleType, once, recurring, ScheduleStatus, active, cancelled, get_schedule,
}
use antigravity_webhook_hub.Schedule.Engine.{Hub, sweep_due}
use antigravity_webhook_hub.Schedule.Safety.{sweep_due-not_due}

abbrev event_name : ℕ → String
event_name i = "evt"

abbrev task_name : ℕ → String
task_name i = "tsk"

abbrev run_key : Schedule → ℕ → String → String
run_key s now id = id

abbrev body_of : Schedule → String
body_of s = "{}"

abbrev next_run : String → String → Option String
next_run cron zone = some "2"

abbrev le : String → String → Bool
le a b = str_eq a b

abbrev datetime : String → Option String
datetime s = some s

abbrev schedule : String → ScheduleType → ScheduleStatus → Schedule
schedule id kind status = record {
  schedule_id = id;
  name = "nightly";
  source = "scheduler";
  schedule_type = kind;
  cron_expression = some "0 1 * * *";
  scheduled_at = none;
  next_run_at = "1";
  last_run_at = none;
  timezone = "UTC";
  action_type = "cli";
  command = some "true";
  target_action = none;
  action_params_json = "{}";
  status = status;
  max_runs = none;
  total_runs = pos 0;
  last_task_id = none;
  last_error = none;
  updated_at = 0;
}

abbrev one_off : Schedule
one_off = schedule "s1" once active

abbrev stopped : Schedule
stopped = schedule "s2" recurring cancelled

abbrev hub : Hub
hub = record {
  db = record { events = []; tasks = []; auto_event = false };
  schedules = one_off ∷ stopped ∷ [];
  dispatcher = idle;
}

sweep_due-not_due_example :
    get_schedule "s2"
      (sweep_due event_name task_name run_key body_of next_run le datetime "1" 0 hub).1.schedules
    ≡ some stopped
sweep_due-not_due_example =
    sweep_due-not_due event_name task_name run_key body_of next_run le datetime "1" 0 hub stopped
      (refl, (refl, tt)) (unfold get_schedule in refl) refl
