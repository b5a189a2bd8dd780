-- ===== src/Cron/Fair.antt =====
-- One round of `compute_next_cron_run` (hub/scheduler.py), and the search that looks at every
-- minute.
use mathlib.Core.Path.{subst}
use antigravity_webhook_hub.Prelude.{
  ℕ, zero, suc, ◌≡◌, refl, sym, true, false, Option, none, some, arith, Bool-cases, inl, inr,
  if◌then◌else◌,
}
use antigravity_webhook_hub.Cron.Calendar.{Stamp, next_minute, days_in_month, weekday, ordinal}
use antigravity_webhook_hub.Cron.Search.{
  Cron, is_in, matches, day_matches, Round, stays, goes_to, look,
}
use antigravity_webhook_hub.Cron.Walk.{Walk, minute-Walk, hour-Walk, day-Walk, month-Walk}
use antigravity_webhook_hub.Cron.Skip.{skip_month-next}

-- The search that the code's skips are to agree with: minute by minute, `n` of them at most.
unfoldable pub first_match : ℕ → Cron → Stamp → Option Stamp
unfolding next_minute
first_match zero c s = none
first_match (suc n) c s =
    if matches c s
    then some s
    else (elim (next_minute s) [ none ↦ none | some t ↦ first_match n c t ])

-- What a round says: the time matches, or none up to the next time to look at does.
abbrev pub IsFair : Cron → Stamp → Round → Type 0
IsFair c s stays = matches c s ≡ true
IsFair c s (goes_to o) = Walk c s o

pub look-IsFair : (c : Cron) (s : Stamp) → IsFair c s (look c s)
unfolding look weekday ordinal
look-IsFair c s = elim (Bool-cases (is_in s.month c.months)) [
  | inr m ↦ rw m (
      subst (Walk c s) (sym (skip_month-next s)) (
        month-Walk c (days_in_month s.year s.month) s (omega arith) (λ day hour minute. rw m refl)))
  | inl m ↦ (elim (Bool-cases (day_matches c s)) [
    | inr d ↦
        rw (m, d)
          (day-Walk c 23 s (omega arith) (λ hour minute.
            let same : day_matches c (record s { hour = hour; minute = minute }) ≡ false = d in
            ground arith))
    | inl d ↦ (elim (Bool-cases (is_in s.hour c.hours)) [
      | inr h ↦ rw (m, d, h) (hour-Walk c 59 s (omega arith) (λ minute. ground arith))
      | inl h ↦ (elim (Bool-cases (is_in s.minute c.minutes)) [
        | inr n ↦ rw (m, d, h, n) (minute-Walk c s (next_minute s) (ground arith) refl)
        | inl n ↦ rw (m, d, h, n) (ground arith)
      ])
    ])
  ])
]
