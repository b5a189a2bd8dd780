-- ===== src/Samples/Cron.antt =====
-- Cron expressions of hub/scheduler.py on concrete times.
use antigravity_webhook_hub.Prelude.{ℕ, ◌≡◌, refl, arith, [], ◌∷◌, String, Option, some, none}
use antigravity_webhook_hub.Schedule.Rows.{recurring}
use antigravity_webhook_hub.Schedule.Create.{Planned, Request}
use antigravity_webhook_hub.Text.{codes, strip, contains, starts_with, text_eq, parse_int}
use antigravity_webhook_hub.Cron.Calendar.{Stamp, next_minute, weekday}
use antigravity_webhook_hub.Cron.Search.{
  Cron, found, no_match, out_of_range, parse_cron, compute_next_cron_run,
}
use antigravity_webhook_hub.Cron.Fair.{first_match}
use antigravity_webhook_hub.Cron.Earliest.{Earliest, compute-Earliest, compute_complete}

abbrev at : ℕ → ℕ → ℕ → ℕ → ℕ → Stamp
at y m d h n = record { year = y; month = m; day = d; hour = h; minute = n }

abbrev now : Stamp
now = at 2026 11 26 12 50

-- Thursday, the quarter of an hour, working hours, a leap day, and a day that no month has.
thursday : weekday now ≡ 3
unfolding weekday
thursday = refl

quarter : compute_next_cron_run (codes "*/15 * * * *") now ≡ found (at 2026 11 26 13 0)
unfolding compute_next_cron_run strip contains starts_with text_eq parse_int
quarter = refl

working_hours :
    compute_next_cron_run (codes " 0 8-10  * * 1-5") (at 2026 11 27 10 0)
    ≡ found (at 2026 11 30 8 0)
unfolding compute_next_cron_run strip contains starts_with text_eq parse_int
working_hours = refl

leap_day : compute_next_cron_run (codes "30 9 29 2 *") now ≡ found (at 2028 2 29 9 30)
unfolding compute_next_cron_run strip contains starts_with text_eq parse_int
leap_day = refl

no_day : compute_next_cron_run (codes "0 0 31 2 *") (at 9997 11 27 10 0) ≡ out_of_range
unfolding compute_next_cron_run strip contains starts_with text_eq parse_int
no_day = refl

malformed : compute_next_cron_run (codes "*/0 * * * *") now ≡ no_match
unfolding compute_next_cron_run strip contains starts_with text_eq parse_int
malformed = refl

compute-Earliest_example : Earliest (codes "30 9 29 2 *") now (at 2028 2 29 9 30)
compute-Earliest_example = compute-Earliest (codes "30 9 29 2 *") now (at 2028 2 29 9 30) leap_day

abbrev noon : Cron
noon = record {
  minutes = 0 ∷ [];
  hours = 13 ∷ [];
  days = 26 ∷ 27 ∷ [];
  months = 11 ∷ [];
  weekdays = 3 ∷ 4 ∷ [];
}

compute_complete_example :
    compute_next_cron_run (codes "0 13 26,27 11 4-5") now ≡ found (at 2026 11 26 13 0)
unfolding parse_cron next_minute first_match weekday strip contains starts_with text_eq parse_int
compute_complete_example =
    compute_complete (codes "0 13 26,27 11 4-5") noon now (at 2026 11 26 12 51) (at 2026 11 26 13 0)
      10 refl refl (omega arith) refl

abbrev format : Stamp → String
format t = "2026-11-26T13:00:00Z"

abbrev target_time : Option String → Option String → Option String → Planned
target_time a b c = Planned.value_error

abbrev request : Request
request = record {
  name = "quarterly";
  schedule_type = recurring;
  scheduled_at = none;
  delay_seconds = none;
  delay = none;
  cron_expression = some "*/15 * * * *";
  action_type = "cli";
  command = some "true";
  target_action = none;
  action_params_json = "{}";
  source = "scheduler";
  timezone = "UTC";
  max_runs = none;
}
