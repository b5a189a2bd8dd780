-- ===== src/Cron/Search.antt =====
-- The search of `compute_next_cron_run` (hub/scheduler.py).
use antigravity_webhook_hub.Prelude.{
  ℕ, zero, suc, ◌*◌, ◌-◌, Bool, not, ◌&&◌, ◌||◌, Option, none, some, List, [], ◌∷◌, any, ◌==◌,
  if◌then◌else◌, map,
}
use antigravity_webhook_hub.Text.{Text}
use antigravity_webhook_hub.Cron.Calendar.{
  Stamp, weekday, midnight, next_day, next_hour, next_minute, add_days,
}
use antigravity_webhook_hub.Cron.Field.{words, parse_cron_field}

-- The sets of an expression; `weekdays` in Python's numbering.
pub record Cron : Type 0 where
  pub minutes : List ℕ
  pub hours : List ℕ
  pub days : List ℕ
  pub months : List ℕ
  pub weekdays : List ℕ

abbrev pub is_in : ℕ → List ℕ → Bool
is_in n ns = any (λ m. m == n) ns

-- The result, ValueError, or OverflowError.
pub data Next : Type 0 where
  found : Stamp → Next
  no_match out_of_range : Next

-- curr.replace(day=1, hour=0, minute=0) + timedelta(days=32), with the day set to 1.
abbrev pub first_of : Option Stamp → Option Stamp
first_of none = none
first_of (some t) = some (record t { day = 1 })

unfoldable pub skip_month : Stamp → Option Stamp
unfolding add_days
skip_month s = first_of (add_days 32 (record s { day = 1; hour = 0; minute = 0 }))

abbrev pub day_matches : Cron → Stamp → Bool
day_matches c s = is_in s.day c.days && is_in (weekday s) c.weekdays

-- One round: the time matches, or the next time to look at.
pub data Round : Type 0 where
  stays : Round
  goes_to : Option Stamp → Round

-- The time matches all five fields.
abbrev pub matches : Cron → Stamp → Bool
matches c s =
    is_in s.month c.months && day_matches c s && is_in s.hour c.hours && is_in s.minute c.minutes

unfoldable pub look : Cron → Stamp → Round
unfolding skip_month next_day next_hour next_minute weekday
look c s =
    if not (is_in s.month c.months)
    then goes_to (skip_month s)
    else if not (day_matches c s)
    then goes_to (next_day (midnight s))
    else if not (is_in s.hour c.hours)
    then goes_to (next_hour (record s { minute = 0 }))
    else if not (is_in s.minute c.minutes)
    then goes_to (next_minute s)
    else stays

abbrev pub follow : Round → Stamp → (Stamp → Next) → Next
follow stays s k = found s
follow (goes_to none) s k = out_of_range
follow (goes_to (some t)) s k = k t

unfoldable pub search : ℕ → Cron → Stamp → Next
unfolding look
search zero c s = no_match
search (suc rounds) c s = follow (look c s) s (λ t. search rounds c t)

abbrev pub max_rounds : ℕ
max_rounds = 366 * 1440

-- cron: 0 and 7 are Sunday.
abbrev py_weekday : ℕ → ℕ
py_weekday d = if d == 0 || d == 7 then 6 else d - 1

abbrev assemble :
    Option (List ℕ)
    → Option (List ℕ)
    → Option (List ℕ)
    → Option (List ℕ)
    → Option (List ℕ)
    → Option Cron
assemble (some minutes) (some hours) (some days) (some months) (some dow) = some (record {
  minutes = minutes;
  hours = hours;
  days = days;
  months = months;
  weekdays = map py_weekday dow;
})
assemble _ _ _ _ _ = none

abbrev of_fields : List Text → Option Cron
of_fields (a ∷ b ∷ c ∷ d ∷ e ∷ []) =
    assemble (parse_cron_field a 0 59) (parse_cron_field b 0 23) (parse_cron_field c 1 31)
      (parse_cron_field d 1 12) (parse_cron_field e 0 7)
of_fields _ = none

unfoldable pub parse_cron : Text → Option Cron
unfolding words parse_cron_field
parse_cron expr = of_fields (words expr)

abbrev pub start_search : Cron → Option Stamp → Next
start_search c none = out_of_range
start_search c (some s) = search max_rounds c s

-- `start` is `start_dt` without its seconds. The argument `tz_name` is not used.
unfoldable pub compute_next_cron_run : Text → Stamp → Next
unfolding parse_cron search next_minute
compute_next_cron_run expr start = elim (parse_cron expr) [
  | none ↦ no_match
  | some c ↦ start_search c (next_minute start)
]
