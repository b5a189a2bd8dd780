-- ===== src/Cron/Skip.antt =====
-- The skip to the next month of `compute_next_cron_run` (hub/scheduler.py), by 32 days.
use mathlib.Core.Path.{subst}
use antigravity_webhook_hub.Prelude.{
  ℕ, zero, suc, ◌+◌, ◌-◌, ◌≤◌, ◌<◌, ◌≡◌, refl, sym, ap, ◌∙◌, true, Option, none, some, ltb, arith,
  Bool-cases, Option-cases, inl, inr,
}
use antigravity_webhook_hub.Cron.Calendar.{
  Stamp, midnight, month_start, last_year, next_month, next_day, add_days, days_in_month,
}
use antigravity_webhook_hub.Cron.Search.{first_of, skip_month}
use antigravity_webhook_hub.Cron.Walk.{next_day-late}

month_length : (y m : ℕ) → (28 ≤ days_in_month y m) × (days_in_month y m ≤ 31)
unfolding days_in_month
month_length y m = ground arith

next_day-early :
    (s : Stamp)
    → s.day < days_in_month s.year s.month
    → next_day s ≡ some (record s { day = s.day + 1 })
unfolding next_day
next_day-early s h =
    let e : ltb s.day (days_in_month s.year s.month) ≡ true = ground arith in rw (next_day, e) refl

add_days-suc : (n : ℕ) (s t : Stamp) → next_day s ≡ some t → add_days (suc n) s ≡ add_days n t
unfolding add_days
add_days-suc n s t h = rw (add_days, h) refl

add_days-none : (n : ℕ) (s : Stamp) → next_day s ≡ none → add_days (suc n) s ≡ none
unfolding add_days
add_days-none n s h = rw (add_days, h) refl

in_month :
    (n d : ℕ) (s : Stamp)
    → s.day + n ≡ d
    → d ≤ days_in_month s.year s.month
    → add_days n s ≡ some (record s { day = d })
unfolding add_days
in_month zero d s e h = ap (λ x. some (record s { day = x })) (omega arith)
in_month (suc n) d s e h =
    add_days-suc n s (record s { day = s.day + 1 }) (next_day-early s (omega arith))
    ∙ in_month n d (record s { day = s.day + 1 }) (omega arith) h

abbrev then_days : ℕ → Option Stamp → Option Stamp
then_days n none = none
then_days n (some t) = add_days n t

-- Past the last day of the month.
last_day :
    (n : ℕ) (s : Stamp)
    → s.day ≡ days_in_month s.year s.month
    → add_days (suc n) (midnight s) ≡ then_days n (next_month s)
last_day n s e =
    let late = next_day-late s (ground arith) in
    elim (Option-cases (next_month s)) [
      | inl f ↦ add_days-none n (midnight s) (late ∙ f) ∙ ap (then_days n) (sym f)
      | inr (t, f) ↦ add_days-suc n (midnight s) t (late ∙ f) ∙ ap (then_days n) (sym f)
    ]

cross :
    (k n total : ℕ) (s : Stamp)
    → s.day + k ≡ days_in_month s.year s.month
    → total ≡ k + suc n
    → add_days total (midnight s) ≡ then_days n (next_month s)
unfolding next_month
cross zero n total s e h =
    ap (λ x. add_days x (midnight s)) (omega arith) ∙ last_day n s (omega arith)
cross (suc k) n total s e h =
    ap (λ x. add_days x (midnight s)) (omega arith)
    ∙ add_days-suc (k + suc n) (midnight s) (record s { day = s.day + 1; hour = 0; minute = 0 })
        (next_day-early (midnight s) (omega arith))
    ∙ cross k n (k + suc n) (record s { day = s.day + 1 }) (omega arith) refl

starts_at_first : (y m : ℕ) (t : Stamp) → some (month_start y m) ≡ some t → record t { day = 1 } ≡ t
starts_at_first y m t h =
    let same : month_start y m ≡ t = cc h in subst (λ x. record x { day = 1 } ≡ x) same refl

next_month-first : (s t : Stamp) → next_month s ≡ some t → record t { day = 1 } ≡ t
unfolding next_month
next_month-first s t h = elim (Bool-cases (ltb s.month 12)) [
  | inl m ↦ starts_at_first s.year (s.month + 1) t (rw m at h)
  | inr m ↦ (elim (Bool-cases (ltb s.year last_year)) [
    | inl y ↦ starts_at_first (s.year + 1) 1 t (rw (m, y) at h)
    | inr y ↦ absurd (cc (rw (m, y) at h))
  ])
]

few_days :
    (n : ℕ) (s : Stamp) (o : Option Stamp) → n ≤ 4 → next_month s ≡ o → first_of (then_days n o) ≡ o
few_days n s none h e = refl
few_days n s (some t) h e =
    let first = next_month-first s t e in
    let one : 1 ≡ t.day = ap (λ (x : Stamp). x.day) first in
    let bound = month_length t.year t.month in
    ap first_of (in_month n (t.day + n) t refl (omega arith)) ∙ ap some first

pub skip_month-next : (s : Stamp) → skip_month s ≡ next_month s
unfolding skip_month next_month
skip_month-next s =
    let first = record s { day = 1 } in
    let bound = month_length s.year s.month in
    let length = days_in_month s.year s.month in
    ap first_of (cross (length - 1) (32 - length) 32 first (omega arith) (omega arith))
    ∙ few_days (32 - length) s (next_month s) (omega arith) refl
