-- ===== src/Cron/Walk.antt =====
-- The minutes between two times, none of which a cron expression matches: what the skips of
-- `compute_next_cron_run` (hub/scheduler.py) leave out.
use mathlib.Core.Path.{subst}
use antigravity_webhook_hub.Prelude.{
  ℕ, zero, suc, ◌+◌, ◌≤◌, ◌≡◌, refl, sym, false, Option, none, some, ltb, arith, Bool-cases, inl,
  inr,
}
use antigravity_webhook_hub.Cron.Calendar.{
  Stamp, midnight, last_year, next_month, next_day, next_hour, next_minute, days_in_month,
}
use antigravity_webhook_hub.Cron.Search.{Cron, matches}

-- `none` is the end of the calendar.
pub data Misses (c : Cron) : ℕ → Stamp → Option Stamp → Type 0 where
  done : (s : Stamp) → Misses c zero s (some s)
  ends : (s : Stamp) → matches c s ≡ false → next_minute s ≡ none → Misses c (suc zero) s none
  step :
      (n : ℕ) (s t : Stamp) (o : Option Stamp)
      → matches c s ≡ false
      → next_minute s ≡ some t
      → Misses c n t o
      → Misses c (suc n) s o

-- At least one minute.
abbrev pub Walk : Cron → Stamp → Option Stamp → Type 0
Walk c s o = (n : ℕ) × Misses c (suc n) s o

pub next_day-late :
    (s : Stamp)
    → ltb s.day (days_in_month s.year s.month) ≡ false
    → next_day (midnight s) ≡ next_month s
unfolding next_day next_month
next_day-late s e = elim (Bool-cases (ltb s.month 12)) [
  | inl m ↦ rw (e, m) refl
  | inr m ↦ (elim (Bool-cases (ltb s.year last_year)) [
    | inl y ↦ rw (e, m, y) refl
    | inr y ↦ rw (e, m, y) refl
  ])
]

module _ (c : Cron) where
  Walk-on :
      (n : ℕ) (s t : Stamp) (o o' : Option Stamp)
      → Misses c n s o
      → o ≡ some t
      → (k : ℕ) → Misses c (suc k) t o'
      → Walk c s o'
  Walk-on _ _ t _ o' (done u) e k w =
      let same : u ≡ t = cc e in (k, subst (λ x. Misses c (suc k) x o') (sym same) w)
  Walk-on _ _ t _ o' (ends u miss stop) e k w = cc
  Walk-on _ _ t _ o' (step m u v o miss next rest) e k w =
      let (j, more) = Walk-on m v t o o' rest e k w in (suc j, step (suc j) u v o' miss next more)

  pub Walk-append : (s t : Stamp) (o : Option Stamp) → Walk c s (some t) → Walk c t o → Walk c s o
  Walk-append s t o (n, first) (k, second) = Walk-on (suc n) s t (some t) o first refl k second

  -- One minute, wherever it leads.
  pub minute-Walk :
      (s : Stamp) (o : Option Stamp) → matches c s ≡ false → next_minute s ≡ o → Walk c s o
  minute-Walk s none miss e = (0, ends s miss e)
  minute-Walk s (some t) miss e = (0, step zero s t (some t) miss e (done t))

  -- To the next hour, if no minute of this hour matches.
  abbrev QuietHour : Stamp → Type 0
  QuietHour s = (minute : ℕ) → matches c (record s { minute = minute }) ≡ false

  pub hour-Walk :
      (fuel : ℕ) (s : Stamp)
      → 59 ≤ fuel + s.minute
      → QuietHour s
      → Walk c s (next_hour (record s { minute = 0 }))
  unfolding next_minute
  hour-Walk zero s enough quiet =
      minute-Walk s (next_hour (record s { minute = 0 })) (quiet s.minute) (ground arith)
  hour-Walk (suc fuel) s enough quiet = elim (Bool-cases (ltb s.minute 59)) [
    | inl e ↦
        Walk-append s (record s { minute = s.minute + 1 }) (next_hour (record s { minute = 0 }))
          (minute-Walk s (some (record s { minute = s.minute + 1 })) (quiet s.minute) (rw e refl))
          (hour-Walk fuel (record s { minute = s.minute + 1 }) (omega arith) quiet)
    | inr e ↦ minute-Walk s (next_hour (record s { minute = 0 })) (quiet s.minute) (rw e refl)
  ]

  -- To the next day, if no minute of this day matches.
  abbrev QuietDay : Stamp → Type 0
  QuietDay s = (hour : ℕ) → QuietHour (record s { hour = hour })

  pub day-Walk :
      (fuel : ℕ) (s : Stamp) → 23 ≤ fuel + s.hour → QuietDay s → Walk c s (next_day (midnight s))
  unfolding next_hour
  day-Walk zero s enough quiet =
      let late : next_hour (record s { minute = 0 }) ≡ next_day (midnight s) = ground arith in
      subst (Walk c s) late (hour-Walk 59 s (omega arith) (quiet s.hour))
  day-Walk (suc fuel) s enough quiet =
      let first = hour-Walk 59 s (omega arith) (quiet s.hour) in
      elim (Bool-cases (ltb s.hour 23)) [
        | inl e ↦
            (let later = record s { hour = s.hour + 1; minute = 0 } in
              let early : next_hour (record s { minute = 0 }) ≡ some later = rw e refl in
              Walk-append s later (next_day (midnight s)) (subst (Walk c s) early first)
                (day-Walk fuel later (omega arith) quiet))
        | inr e ↦ subst (Walk c s) (rw e refl) first
      ]

  -- To the next month, if no minute of this month matches.
  abbrev QuietMonth : Stamp → Type 0
  QuietMonth s = (day : ℕ) → QuietDay (record s { day = day })

  pub month-Walk :
      (fuel : ℕ) (s : Stamp)
      → days_in_month s.year s.month ≤ fuel + s.day
      → QuietMonth s
      → Walk c s (next_month s)
  unfolding next_day
  month-Walk zero s enough quiet =
      subst (Walk c s) (next_day-late s (ground arith)) (day-Walk 23 s (omega arith) (quiet s.day))
  month-Walk (suc fuel) s enough quiet =
      let first = day-Walk 23 s (omega arith) (quiet s.day) in
      elim (Bool-cases (ltb s.day (days_in_month s.year s.month))) [
        | inl e ↦
            (let later = record s { day = s.day + 1; hour = 0; minute = 0 } in
              let early : next_day (midnight s) ≡ some later = rw e refl in
              Walk-append s later (next_month s) (subst (Walk c s) early first)
                (month-Walk fuel later (omega arith) quiet))
        | inr e ↦ subst (Walk c s) (next_day-late s e) first
      ]
