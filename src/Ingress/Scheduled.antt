-- ===== src/Ingress/Scheduled.antt =====
-- The schedule of a delayed or recurring webhook (hub/routes/webhook.py), made by the scheduler or by
-- the handler itself.
use Prim.Native.String.{◌++◌}
use antigravity_webhook_hub.Prelude.{ℕ, String, Bool, Option, none, some, List, if◌then◌else◌}
use antigravity_webhook_hub.Prelude.Int.{pos}
use antigravity_webhook_hub.Schedule.Rows.{Schedule, once, recurring, active, insert_schedule}
use antigravity_webhook_hub.Schedule.Engine.{truthy_text, text_or}
use antigravity_webhook_hub.Schedule.Create.{Planned, Request, Created, create_schedule}
use antigravity_webhook_hub.Ingress.Check.{Job}

-- The row that the handler inserts itself when the server has no scheduler.
abbrev pub direct_stored : Schedule → Option (List Schedule) → Created
direct_stored s none = Created.other_error
direct_stored s (some rows) = Created.created s rows

-- `params_json` is `json.dumps(body_dict)`; `has_scheduler` says whether the server has a scheduler.
module _ (next_run : String → String → Planned)
    (target_time : Option String → Option String → Option String → Planned)
    (params_json : Job → String) (has_scheduler : Bool) where
  abbrev pub schedule_request : Job → Request
  schedule_request job = record {
    name =
        text_or job.timing.name ("Webhook " ++ (job.source ++ (" (" ++ (job.action_type ++ ")"))));
    schedule_type = if truthy_text job.timing.cron_expression then recurring else once;
    scheduled_at = job.timing.scheduled_at;
    delay_seconds = job.timing.delay_seconds;
    delay = job.timing.delay;
    cron_expression = job.timing.cron_expression;
    action_type = job.action_type;
    command = job.command;
    target_action = some (text_or job.command "");
    action_params_json = params_json job;
    source = job.source;
    timezone = job.timing.timezone;
    max_runs = job.timing.max_runs;
  }

  abbrev pub direct_run : Request → Planned
  direct_run r =
      if truthy_text r.cron_expression
      then next_run (text_or r.cron_expression "") r.timezone
      else target_time r.scheduled_at r.delay_seconds r.delay

  abbrev pub direct_record : Request → String → String → ℕ → Schedule
  direct_record r schedule_id next now = record {
    schedule_id = schedule_id;
    name = text_or (some r.name) "Unnamed Schedule";
    source = text_or (some r.source) "scheduler";
    schedule_type = r.schedule_type;
    cron_expression = r.cron_expression;
    scheduled_at = if truthy_text r.cron_expression then none else some next;
    next_run_at = next;
    last_run_at = none;
    timezone = text_or (some r.timezone) "Asia/Bangkok";
    action_type = text_or (some r.action_type) "cli";
    command = some (text_or r.command "");
    target_action = some (text_or r.command "");
    action_params_json = r.action_params_json;
    status = active;
    max_runs = if truthy_text r.cron_expression then r.max_runs else some (pos 1);
    total_runs = pos 0;
    last_task_id = none;
    last_error = none;
    updated_at = now;
  }

  abbrev pub insert_directly : Planned → Request → String → ℕ → List Schedule → Created
  insert_directly (Planned.at next) r schedule_id now rows =
      direct_stored (direct_record r schedule_id next now)
        (insert_schedule (direct_record r schedule_id next now) rows)
  insert_directly Planned.value_error r schedule_id now rows = Created.value_error
  insert_directly Planned.other_error r schedule_id now rows = Created.other_error

  unfoldable pub make_schedule : Request → String → ℕ → List Schedule → Created
  unfolding create_schedule insert_schedule
  make_schedule r schedule_id now rows =
      if has_scheduler
      then create_schedule next_run target_time r schedule_id now rows
      else insert_directly (direct_run r) r schedule_id now rows
