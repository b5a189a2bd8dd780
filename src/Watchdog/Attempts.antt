-- ===== src/Watchdog/Attempts.antt =====
-- How attempts are counted, from `_evaluate_resuscitation_eligibility` over `resuscitate_session`
-- (hub/antigravity/watchdog.py) to `get_resuscitation_attempts` (hub/db.py).
use antigravity_webhook_hub.Prelude.{
  ℕ, ◌+◌, ◌≤◌, ◌<◌, ◌≡◌, ◌≢◌, refl, ap, ◌∙◌, inl, inr, true, false, Option, none, some, [], ◌∷◌,
  arith, Bool-cases,
}
use antigravity_webhook_hub.Text.{Text, text_eq_refl, or_empty}
use antigravity_webhook_hub.Watchdog.Prompts.{StalledSession}
use antigravity_webhook_hub.Watchdog.Eligibility.{WatchdogConfig, budget_guard, in_progress}
use antigravity_webhook_hub.Watchdog.Ledger.{
  Resuscitation, Rows, quota_cooldown, get_active_quota_cooldown, cooling, counts, consecutive,
  count_attempts, attempts_of, get_last_resuscitation, get_resuscitation_attempts,
}
use antigravity_webhook_hub.Watchdog.Resuscitate.{
  Watch, Call, Answer, end_resuscitation, answer_verdict, quota_verdict, not_sent, is_quota_error,
}
use antigravity_webhook_hub.Watchdog.Quota.{
  Delay, delay, no_delay, value_error, parse_quota_reset_seconds,
}
use antigravity_webhook_hub.Watchdog.Sending.{IsSent}
use antigravity_webhook_hub.Watchdog.Restart.{finished, end-rows}

-- The steps, from the newest attempt on, never rise.
abbrev pub Falling : ℕ → Rows → Type 0
Falling step [] = Unit
Falling step (r ∷ rows) = (r.last_step_index ≤ step) × Falling r.last_step_index rows

abbrev StepsUpTo : ℕ → Rows → Type 0
StepsUpTo step [] = Unit
StepsUpTo step (r ∷ rows) = (r.last_step_index ≤ step) × StepsUpTo step rows

Falling-StepsUpTo : (a b : ℕ) (rows : Rows) → a ≤ b → Falling a rows → StepsUpTo b rows
Falling-StepsUpTo a b [] h f = tt
Falling-StepsUpTo a b (r ∷ rows) h f =
    (omega arith, Falling-StepsUpTo r.last_step_index b rows (omega arith) f.1)

-- A later anchor is near to fewer of the older steps.
consecutive-later :
    (a b : ℕ) (rows : Rows) → a ≤ b → StepsUpTo a rows → consecutive b rows ≤ consecutive a rows
unfolding consecutive
consecutive-later a b [] h up = omega arith
consecutive-later a b (r ∷ rows) h up = ground (arith, h, up.0, consecutive-later a b rows h up.1)

consecutive-first :
    (step : ℕ) (rows : Rows)
    → Falling step rows
    → consecutive step rows ≤ count_attempts (some step) rows
unfolding count_attempts consecutive
consecutive-first step [] f = omega arith
consecutive-first step (r ∷ rows) f = ground (
  arith,
  f.0,
  consecutive-later r.last_step_index step rows f.0
      (Falling-StepsUpTo r.last_step_index r.last_step_index rows (omega arith) f.1),
)

count-le-first :
    (current : Option ℕ) (r : Resuscitation) (rows : Rows)
    → count_attempts current (r ∷ rows) ≤ consecutive r.last_step_index rows + 1
unfolding count_attempts consecutive
count-le-first none r rows = ground arith
count-le-first (some step) r rows = ground arith

pub budget_guard-none :
    (cfg : WatchdogConfig) (now attempts epoch : ℕ)
    → budget_guard cfg now attempts epoch ≡ none
    → attempts < cfg.max_total_attempts
unfolding budget_guard
budget_guard-none cfg now attempts epoch h = ground (arith, h)

count-later :
    (step step' : ℕ) (rows : Rows)
    → step ≤ step'
    → count_attempts (some step') rows ≤ count_attempts (some step) rows
unfolding count_attempts
count-later step step' [] h = omega arith
count-later step step' (r ∷ rows) h = ground arith

pub verdict-quota :
    (cfg : WatchdogConfig) (c : Call) (later : ℕ) (err : Option Text)
    → is_quota_error err ≡ true
    → answer_verdict cfg c later (not_sent err)
      ≡ quota_verdict (or_empty err) later (parse_quota_reset_seconds (or_empty err))
unfolding answer_verdict
verdict-quota cfg c later err h = rw h refl

pub attempting-last :
    (fresh_id : Text) (s : StalledSession) (now : ℕ) (w v : Watch) (c : Call)
    → IsSent fresh_id s now w c v
    → in_progress (get_last_resuscitation s.conversation_id v.rows) ≡ true
unfolding get_last_resuscitation
attempting-last fresh_id s now w v c e = rw e.written (rw (text_eq_refl s.conversation_id) refl)

-- The attempts of a conversation after one more attempt of it.
module _ (cfg : WatchdogConfig) (fresh_id : Text) (s : StalledSession) (now : ℕ) (w v : Watch)
    (c : Call) (later : ℕ) (answer : Answer) (e : IsSent fresh_id s now w c v) where
  abbrev pub last_row : Resuscitation
  last_row = finished cfg fresh_id s now w v c later answer e.prompt

  abbrev pub rows_after : Rows
  rows_after = (end_resuscitation cfg c later answer v).1.rows

  last_row_step :
      consecutive last_row.last_step_index (attempts_of s.conversation_id w.rows)
      ≡ consecutive s.last_step_index (attempts_of s.conversation_id w.rows)
  unfolding finished
  last_row_step = refl

  attempts-counted :
      counts (answer_verdict cfg c later answer).status ≡ true
      → attempts_of s.conversation_id rows_after ≡ last_row ∷ attempts_of s.conversation_id w.rows
  unfolding finished
  attempts-counted h =
      ap (attempts_of s.conversation_id) (end-rows cfg fresh_id s now w v c later answer e)
      ∙ rw (text_eq_refl s.conversation_id, h) refl

  pub attempts-uncounted :
      (cid : Text)
      → counts (answer_verdict cfg c later answer).status ≡ false
      → attempts_of cid rows_after ≡ attempts_of cid w.rows
  unfolding finished
  attempts-uncounted cid h =
      ap (attempts_of cid) (end-rows cfg fresh_id s now w v c later answer e) ∙ ground (arith, h)

  pub attempts-le :
      (step' : ℕ)
      → Falling s.last_step_index (attempts_of s.conversation_id w.rows)
      → get_resuscitation_attempts s.conversation_id (some s.last_step_index) w.rows
        < cfg.max_total_attempts
      → s.last_step_index ≤ step'
      → get_resuscitation_attempts s.conversation_id (some step') rows_after
        ≤ cfg.max_total_attempts
  unfolding get_resuscitation_attempts
  attempts-le step' falling fewer h =
      let old = attempts_of s.conversation_id w.rows in
      elim (Bool-cases (counts (answer_verdict cfg c later answer).status)) [
        | inl counted ↦ rw (attempts-counted counted) (
            omega (
              arith,
              count-le-first (some step') last_row old,
              consecutive-first s.last_step_index old falling,
              fewer,
              last_row_step,
            ))
        | inr uncounted ↦
            rw (attempts-uncounted s.conversation_id uncounted)
              (omega (arith, count-later s.last_step_index step' old h, fewer))
      ]

  -- The status that the quota gives.
  pub quota-uncounted :
      (d : Delay) (error : Text)
      → ((number : Text) → d ≢ value_error number)
      → (until : ℕ) × ((quota_verdict error later d).status ≡ quota_cooldown)
        × ((quota_verdict error later d).cooldown_until ≡ some until)
        × (later + 30000 < until)
  unfolding quota_verdict
  quota-uncounted (delay ms) error ok = (_, refl, refl, ground arith)
  quota-uncounted no_delay error ok = (_, refl, refl, omega arith)
  quota-uncounted (value_error number) error ok = absurd (ok number refl)

  last-after : get_last_resuscitation s.conversation_id rows_after ≡ some last_row
  unfolding finished get_last_resuscitation
  last-after =
      ap (get_last_resuscitation s.conversation_id)
        (end-rows cfg fresh_id s now w v c later answer e)
      ∙ rw (text_eq_refl s.conversation_id) refl

  pub cooldown-after :
      (until : ℕ)
      → (answer_verdict cfg c later answer).status ≡ quota_cooldown
      → (answer_verdict cfg c later answer).cooldown_until ≡ some until
      → (get_active_quota_cooldown s.conversation_id rows_after ≡ some last_row)
        × (last_row.cooldown_until ≡ some until)
  unfolding finished get_active_quota_cooldown
  cooldown-after until status_eq until_eq =
      (ap cooling last-after ∙ rw status_eq refl, ground (arith, until_eq))
