-- ===== src/Watchdog/Restart.antt =====
-- hub/antigravity/watchdog.py, in sequence: a session that is woken, and what
-- `_evaluate_resuscitation_eligibility` says of it and of the same ledger afterwards.
use antigravity_webhook_hub.Prelude.{
  ℕ, ◌-◌, ◌/◌, ◌≤◌, ◌≡◌, ◌≢◌, refl, ap, Bool, true, false, Option, none, some, ◌∷◌, ◌++◌, any,
  arith, any-concat,
}
use antigravity_webhook_hub.Text.{Text, text_eq_refl}
use antigravity_webhook_hub.Watchdog.Prompts.{Prompt, StalledSession}
use antigravity_webhook_hub.Watchdog.Eligibility.{
  WatchdogConfig, SkipReason, Case, Observation, evaluate_eligibility, parent_guard, ledger_guards,
  is_prior_to_restart, restart_guard, budget_guard, or_skip, skip_if, in_progress, epoch_of,
  effective_attempts, effective_epoch, resuscitation_in_progress,
}
use antigravity_webhook_hub.Watchdog.Ledger.{
  Resuscitation, Rows, is_wake, set_outcome, get_last_resuscitation, has_resuscitation_since,
}
use antigravity_webhook_hub.Watchdog.Resuscitate.{
  Watch, sending, Call, Glance, Answer, sent, begin_resuscitation, end_resuscitation,
  answer_verdict, written_details,
}
use antigravity_webhook_hub.Watchdog.Sending.{IsSent, row_of, begin-IsSent, outcome-first}

-- The row of a finished attempt: what the begin wrote, with the verdict's status.
module _ (cfg : WatchdogConfig) (fresh_id : Text) (s : StalledSession) (now : ℕ) (w v : Watch)
    (c : Call) (later : ℕ) (answer : Answer) where
  unfoldable pub finished : Prompt → Resuscitation
  finished prompt =
      let d = answer_verdict cfg c later answer in
      set_outcome d.status d.cooldown_until (written_details answer d.error)
        (row_of fresh_id prompt s now w.rows)

  pub end-rows :
      (e : IsSent fresh_id s now w c v)
      → (end_resuscitation cfg c later answer v).1.rows ≡ finished e.prompt ∷ w.rows
  unfolding end_resuscitation finished
  end-rows e = rw e.written (
      outcome-first c.resuscitation_id (answer_verdict cfg c later answer).status
        (answer_verdict cfg c later answer).cooldown_until
        (written_details answer (answer_verdict cfg c later answer).error)
        (row_of fresh_id e.prompt s now w.rows) w.rows (rw e.call refl) (rw e.call e.fresh))

or_skip-none : (a b : Option SkipReason) → or_skip a b ≡ none → (a ≡ none) × (b ≡ none)
or_skip-none none b h = (refl, h)
or_skip-none (some r) b h = cc

-- The steps behind the last resuscitation of an eligible session.
eligible-ledger :
    (cfg : WatchdogConfig) (c : Case) (o : Observation) (rows : Rows)
    → evaluate_eligibility cfg c o rows ≡ none
    → ledger_guards cfg c o (get_last_resuscitation c.conversation_id rows) rows ≡ none
unfolding evaluate_eligibility
eligible-ledger cfg c o rows h = (or_skip-none _ _ (or_skip-none (parent_guard c o) _ h).1).1

-- The guards, one by one, on the effective attempts and epoch.
pub record PassesGuards (cfg : WatchdogConfig) (c : Case) (o : Observation)
    (last : Option Resuscitation) (rows : Rows) : Type 0 where
  pub settled : in_progress last ≡ false
  pub restart : restart_guard c rows ≡ none
  pub budget :
      budget_guard cfg c.now
        (effective_attempts c (epoch_of last))
        (effective_epoch c (epoch_of last))
      ≡ none

skip_if-none : (b : Bool) (r : SkipReason) → skip_if b r ≡ none → b ≡ false
skip_if-none true r h = cc
skip_if-none false r h = refl

ledger_guards-none :
    (cfg : WatchdogConfig) (c : Case) (o : Observation) (last : Option Resuscitation) (rows : Rows)
    → ledger_guards cfg c o last rows ≡ none
    → PassesGuards cfg c o last rows
unfolding ledger_guards
ledger_guards-none cfg c o last rows h =
    let (settled, h1) = or_skip-none _ _ h in
    let (restart, h2) = or_skip-none _ _ h1 in
    let (_, h3) = or_skip-none _ _ h2 in
    let (budget, _) = or_skip-none _ _ h3 in
    record {
      settled = skip_if-none (in_progress last) resuscitation_in_progress settled;
      restart = restart;
      budget = budget;
    }

pub eligible-PassesGuards :
    (cfg : WatchdogConfig) (c : Case) (o : Observation) (rows : Rows)
    → evaluate_eligibility cfg c o rows ≡ none
    → PassesGuards cfg c o (get_last_resuscitation c.conversation_id rows) rows
eligible-PassesGuards cfg c o rows h =
    ledger_guards-none cfg c o (get_last_resuscitation c.conversation_id rows) rows
      (eligible-ledger cfg c o rows h)

eligible-not_woken :
    (cfg : WatchdogConfig) (c : Case) (o : Observation) (rows : Rows)
    → evaluate_eligibility cfg c o rows ≡ none
    → is_prior_to_restart c ≡ true
    → any (is_wake c.conversation_id c.ls_restart_time) rows ≡ false
unfolding restart_guard has_resuscitation_since
eligible-not_woken cfg c o rows h prior =
    let guard = skip_if-none _ _ (eligible-PassesGuards cfg c o rows h).restart in
    ground (arith, guard, prior)

finished-is_wake :
    (cfg : WatchdogConfig) (fresh_id : Text) (s : StalledSession) (now later restart : ℕ)
    (w v : Watch) (c : Call) (prompt : Prompt)
    → restart ≤ now
    → is_wake s.conversation_id restart (finished cfg fresh_id s now w v c later sent prompt) ≡ true
unfolding finished answer_verdict
finished-is_wake cfg fresh_id s now later restart w v c prompt h =
    let same = text_eq_refl s.conversation_id in
    let order : (restart - 5000) / 1000 ≤ now / 1000 = omega arith in ground (arith, same, order)

-- A session is woken once per start of the server: after a message to it was sent at or after the
-- last start, it is not eligible again for as long as that start is the last one and its
-- transcript is older, whatever rows the table gets after that.
pub once_per_restart :
    (cfg : WatchdogConfig) (custom_prompt active_account : Option Text) (fresh_id : Text)
    (s : StalledSession) (g : Glance) (now later : ℕ) (w v : Watch) (c : Call) (k : Case)
    (o : Observation) (newer : Rows)
    → begin_resuscitation cfg custom_prompt active_account fresh_id s g now w ≡ (sending c, v)
    → k.conversation_id ≡ s.conversation_id
    → k.ls_restart_time ≤ now
    → is_prior_to_restart k ≡ true
    → evaluate_eligibility cfg k o (newer ++ (end_resuscitation cfg c later sent v).1.rows) ≢ none
once_per_restart cfg custom account fresh_id s g now later w v c k o newer begun same order prior
      h =
    let e = begin-IsSent fresh_id s now w c v cfg custom account g begun in
    let written = end-rows cfg fresh_id s now w v c later sent e in
    let wake = is_wake k.conversation_id k.ls_restart_time in
    let woken : wake (finished cfg fresh_id s now w v c later sent e.prompt) ≡ true =
      rw same (finished-is_wake cfg fresh_id s now later k.ls_restart_time w v c e.prompt order) in
    let unwoken = eligible-not_woken cfg k o _ h prior in
    let split = any-concat wake newer (end_resuscitation cfg c later sent v).1.rows in
    let first = ap (any wake) written in ground (arith, woken, unwoken, split, first)
