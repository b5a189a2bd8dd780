-- ===== src/Cron/Calendar.antt =====
-- `datetime.datetime` to the minute, as hub/scheduler.py uses it: the proleptic Gregorian calendar
-- up to the end of the year 9999, past which arithmetic raises OverflowError (`none`).
use antigravity_webhook_hub.Prelude.{
  ℕ, zero, suc, ◌+◌, ◌-◌, ◌*◌, ◌/◌, ◌%◌, Bool, not, ◌&&◌, ◌||◌, Option, none, some, ltb, ◌==◌,
  if◌then◌else◌,
}

pub record Stamp : Type 0 where
  pub year : ℕ
  pub month : ℕ
  pub day : ℕ
  pub hour : ℕ
  pub minute : ℕ

abbrev pub last_year : ℕ
last_year = 9999

unfoldable pub is_leap : ℕ → Bool
is_leap y = y % 4 == 0 && (not (y % 100 == 0) || y % 400 == 0)

unfoldable pub days_in_month : ℕ → ℕ → ℕ
unfolding is_leap
days_in_month y m =
    if m == 2
    then (if is_leap y then 29 else 28)
    else if m == 4 || m == 6 || m == 9 || m == 11
    then 30
    else 31

-- The days of the months before month `m`.
unfoldable pub days_before_month : ℕ → ℕ → ℕ
unfolding days_in_month
days_before_month y zero = 0
days_before_month y (suc m) = days_before_month y m + (if m == 0 then 0 else days_in_month y m)

unfoldable pub ordinal : Stamp → ℕ
unfolding days_before_month
ordinal s =
    let y = s.year - 1 in
    y * 365 + y / 4 - y / 100 + y / 400 + days_before_month s.year s.month + s.day

-- 0 is Monday.
unfoldable pub weekday : Stamp → ℕ
unfolding ordinal
weekday s = (ordinal s + 6) % 7

-- The first minute of the month, the day and the hour behind a time.
abbrev pub month_start : ℕ → ℕ → Stamp
month_start y m = record { year = y; month = m; day = 1; hour = 0; minute = 0 }

unfoldable pub next_month : Stamp → Option Stamp
next_month s =
    if ltb s.month 12
    then some (month_start s.year (s.month + 1))
    else if ltb s.year last_year
    then some (month_start (s.year + 1) 1)
    else none

abbrev pub midnight : Stamp → Stamp
midnight s = record s { hour = 0; minute = 0 }

-- timedelta(days=1)
unfoldable pub next_day : Stamp → Option Stamp
unfolding next_month days_in_month
next_day s =
    if ltb s.day (days_in_month s.year s.month)
    then some (record s { day = s.day + 1 })
    else (elim (next_month s) [
      | none ↦ none
      | some t ↦ some (record t { hour = s.hour; minute = s.minute })
    ])

-- timedelta(hours=1)
unfoldable pub next_hour : Stamp → Option Stamp
unfolding next_day
next_hour s =
    if ltb s.hour 23
    then some (record s { hour = s.hour + 1 })
    else next_day (record s { hour = 0 })

-- timedelta(minutes=1)
unfoldable pub next_minute : Stamp → Option Stamp
unfolding next_hour
next_minute s =
    if ltb s.minute 59
    then some (record s { minute = s.minute + 1 })
    else next_hour (record s { minute = 0 })

-- timedelta(days=n)
unfoldable pub add_days : ℕ → Stamp → Option Stamp
unfolding next_day
add_days zero s = some s
add_days (suc n) s = elim (next_day s) [ none ↦ none | some t ↦ add_days n t ]
