-- ===== src/Schedule/Planning.antt =====
-- `create_schedule` of hub/scheduler.py with the search for cron times that it calls.
use antigravity_webhook_hub.Prelude.{String, ◌≡◌, true, false, some, List, any, ◌⊎◌}
use antigravity_webhook_hub.Text.{codes}
use antigravity_webhook_hub.Cron.Calendar.{Stamp}
use antigravity_webhook_hub.Cron.Search.{Next, found, no_match, out_of_range, compute_next_cron_run}
use antigravity_webhook_hub.Cron.Earliest.{Earliest}
use antigravity_webhook_hub.Schedule.Rows.{Schedule, named, get_schedule}
use antigravity_webhook_hub.Schedule.Engine.{truthy_text}
use antigravity_webhook_hub.Schedule.Create.{Planned, Created}

-- `format_iso_utc(compute_next_cron_run(...))`: `format` is `format_iso_utc`, `now` the clock.
module _ (format : Stamp → String) (now : Stamp) where
  abbrev pub planned_at : Next → Planned
  planned_at (found t) = Planned.at (format t)
  planned_at no_match = Planned.value_error
  planned_at out_of_range = Planned.other_error

  unfoldable pub next_cron_run : String → String → Planned
  unfolding compute_next_cron_run
  next_cron_run cron timezone = planned_at (compute_next_cron_run (codes cron) now)

  -- A schedule that is created is in the table, and runs next at the earliest match behind `now`. A
  -- ValueError means that there is no expression or no match in the rounds of the search, another
  -- exception that the search left the calendar or that the id is taken.
  abbrev pub IsPlanned : String → String → List Schedule → Created → Type 0
  IsPlanned cron schedule_id before (Created.created s rows) =
      (t : Stamp) × (s.next_run_at ≡ format t)
      × Earliest (codes cron) now t
      × (get_schedule schedule_id rows ≡ some s)
  IsPlanned cron schedule_id before Created.value_error =
      (truthy_text (some cron) ≡ false) ⊎ (compute_next_cron_run (codes cron) now ≡ no_match)
  IsPlanned cron schedule_id before Created.other_error =
      (compute_next_cron_run (codes cron) now ≡ out_of_range)
      ⊎ (any (named schedule_id) before ≡ true)
