-- ===== src/Schedule/Create.antt =====
-- `create_schedule` of hub/scheduler.py, with the parsing of times as parameters:
-- `next_run cron timezone` for `format_iso_utc(compute_next_cron_run(...))` and `target_time` for
-- `format_iso_utc(parse_schedule_time(...))`. Publishing on the broker is left out: its exceptions
-- are caught and its result is not used.
use antigravity_webhook_hub.Prelude.{String, Option, none, some, List, if◌then◌else◌}
use antigravity_webhook_hub.Prelude.Int.{ℤ, pos}
use antigravity_webhook_hub.Prelude.{ℕ}
use antigravity_webhook_hub.Schedule.Rows.{
  Schedule, ScheduleType, once, recurring, active, insert_schedule,
}
use antigravity_webhook_hub.Schedule.Engine.{truthy_text, text_or}

-- What the parsing of a time gives: a text, a ValueError, another exception (OverflowError).
pub data Planned : Type 0 where
  at : String → Planned
  value_error other_error : Planned

pub record Request : Type 0 where
  pub name : String
  pub schedule_type : ScheduleType
  pub scheduled_at : Option String
  pub delay_seconds : Option String
  pub delay : Option String
  pub cron_expression : Option String
  pub action_type : String
  pub command : Option String
  pub target_action : Option String
  pub action_params_json : String
  pub source : String
  pub timezone : String
  pub max_runs : Option ℤ

pub data Created : Type 0 where
  created : Schedule → List Schedule → Created
  value_error other_error : Created

module _ (next_run : String → String → Planned)
    (target_time : Option String → Option String → Option String → Planned) where
  abbrev pub cron_run : Option String → String → Planned
  cron_run none timezone = Planned.value_error
  cron_run (some cron) timezone =
      if truthy_text (some cron) then next_run cron timezone else Planned.value_error

  abbrev pub planned_run : ScheduleType → Request → Planned
  planned_run recurring r = cron_run r.cron_expression r.timezone
  planned_run once r = target_time r.scheduled_at r.delay_seconds r.delay

  abbrev fixed_time : ScheduleType → String → Option String
  fixed_time recurring next = none
  fixed_time once next = some next

  abbrev run_limit : ScheduleType → Option ℤ → Option ℤ
  run_limit recurring max_runs = max_runs
  run_limit once max_runs = some (pos 1)

  -- The `ScheduledTask`, as `insert_schedule` stores it.
  abbrev pub schedule_record : Request → String → String → ℕ → Schedule
  schedule_record r schedule_id next now = record {
    schedule_id = schedule_id;
    name = text_or (some r.name) "Unnamed Schedule";
    source = text_or (some r.source) "scheduler";
    schedule_type = r.schedule_type;
    cron_expression = r.cron_expression;
    scheduled_at = fixed_time r.schedule_type next;
    next_run_at = next;
    last_run_at = none;
    timezone = text_or (some r.timezone) "Asia/Bangkok";
    action_type = text_or (some r.action_type) "cli";
    command = r.command;
    target_action = if truthy_text r.target_action then r.target_action else r.command;
    action_params_json = r.action_params_json;
    status = active;
    max_runs = run_limit r.schedule_type r.max_runs;
    total_runs = pos 0;
    last_task_id = none;
    last_error = none;
    updated_at = now;
  }

  -- The IntegrityError of the primary key is no ValueError.
  abbrev pub stored : Schedule → Option (List Schedule) → Created
  stored s none = Created.other_error
  stored s (some rows) = created s rows

  abbrev pub with_run : Planned → Request → String → ℕ → List Schedule → Created
  with_run (Planned.at next) r schedule_id now rows =
      let s = schedule_record r schedule_id next now in stored s (insert_schedule s rows)
  with_run Planned.value_error r schedule_id now rows = Created.value_error
  with_run Planned.other_error r schedule_id now rows = Created.other_error

  unfoldable pub create_schedule : Request → String → ℕ → List Schedule → Created
  unfolding insert_schedule
  create_schedule r schedule_id now rows =
      with_run (planned_run r.schedule_type r) r schedule_id now rows
