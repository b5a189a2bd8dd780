-- ===== src/Watchdog/Tries.antt =====
-- The limits on waking a session: from `_evaluate_resuscitation_eligibility` over
-- `resuscitate_session` (hub/antigravity/watchdog.py) to the next evaluation.
use antigravity_webhook_hub.Prelude.{
  ℕ, ◌+◌, ◌≤◌, ◌<◌, ◌≡◌, ◌≢◌, ap, ◌∙◌, true, false, Option, none, some, arith,
}
use antigravity_webhook_hub.Text.{Text, or_empty}
use antigravity_webhook_hub.Watchdog.Prompts.{StalledSession}
use antigravity_webhook_hub.Watchdog.Eligibility.{
  WatchdogConfig, Case, Observation, evaluate_eligibility, is_prior_to_restart, renewed, epoch_of,
}
use antigravity_webhook_hub.Watchdog.Ledger.{
  Resuscitation, get_active_quota_cooldown, counts, count_attempts, attempts_of,
  get_last_resuscitation, get_resuscitation_attempts,
}
use antigravity_webhook_hub.Watchdog.Resuscitate.{
  Watch, sending, Call, Glance, Answer, begin_resuscitation, end_resuscitation, not_sent,
  is_quota_error,
}
use antigravity_webhook_hub.Watchdog.Quota.{value_error, parse_quota_reset_seconds}
use antigravity_webhook_hub.Watchdog.Sending.{begin-IsSent}
use antigravity_webhook_hub.Watchdog.Restart.{eligible-PassesGuards}
use antigravity_webhook_hub.Watchdog.Attempts.{
  Falling, budget_guard-none, verdict-quota, attempting-last, attempts-uncounted, attempts-le,
  quota-uncounted, cooldown-after,
}

-- A session that is eligible and whose last resuscitation still counts (it is not older than the
-- last start of the server, nor is the transcript) is tried at most max_total_attempts times at
-- one step: after one more attempt, however it ends, the count at this step, or at a later one, is
-- within the limit. The session's steps never fell back.
pub attempts-le-max :
    (cfg : WatchdogConfig) (custom_prompt active_account : Option Text) (fresh_id : Text)
    (s : StalledSession) (g : Glance) (now later step' : ℕ) (answer : Answer) (w v : Watch)
    (c : Call) (k : Case) (o : Observation)
    → begin_resuscitation cfg custom_prompt active_account fresh_id s g now w ≡ (sending c, v)
    → evaluate_eligibility cfg k o w.rows ≡ none
    → k.conversation_id ≡ s.conversation_id
    → k.attempts ≡ get_resuscitation_attempts s.conversation_id (some s.last_step_index) w.rows
    → is_prior_to_restart k ≡ false
    → renewed k.ls_restart_time (epoch_of (get_last_resuscitation k.conversation_id w.rows)) ≡ false
    → Falling s.last_step_index (attempts_of s.conversation_id w.rows)
    → s.last_step_index ≤ step'
    → get_resuscitation_attempts s.conversation_id
        (some step')
        (end_resuscitation cfg c later answer v).1.rows
      ≤ cfg.max_total_attempts
attempts-le-max cfg custom account fresh_id s g now later step' answer w v c k o begun ok same
      counted prior old falling order =
    let e = begin-IsSent fresh_id s now w c v cfg custom account g begun in
    let guard = (eligible-PassesGuards cfg k o w.rows ok).budget in
    let fewer = budget_guard-none cfg k.now _ _ guard in
    attempts-le cfg fresh_id s now w v c later answer e step' falling
      (ground (arith, fewer, counted, prior, old)) order

-- A message that the quota refuses costs no attempt, of any conversation, and leaves the session
-- in a cooldown that ends more than thirty seconds later, if the delay in the message can be read.
pub quota-refused :
    (cfg : WatchdogConfig) (custom_prompt active_account : Option Text) (fresh_id : Text)
    (s : StalledSession) (g : Glance) (now later : ℕ) (err : Option Text) (w v : Watch) (c : Call)
    → begin_resuscitation cfg custom_prompt active_account fresh_id s g now w ≡ (sending c, v)
    → is_quota_error err ≡ true
    → ((number : Text) → parse_quota_reset_seconds (or_empty err) ≢ value_error number)
    → let rows = (end_resuscitation cfg c later (not_sent err) v).1.rows in
      ((cid : Text) (current : Option ℕ)
        → get_resuscitation_attempts cid current rows
          ≡ get_resuscitation_attempts cid current w.rows)
      × (r : Resuscitation) × (until : ℕ) × (get_active_quota_cooldown s.conversation_id rows
          ≡ some r)
      × (r.cooldown_until ≡ some until)
      × (later + 30000 < until)
quota-refused cfg custom account fresh_id s g now later err w v c begun refusal readable =
    let e = begin-IsSent fresh_id s now w c v cfg custom account g begun in
    let d = parse_quota_reset_seconds (or_empty err) in
    let (until, status_eq, until_eq, long) =
      quota-uncounted cfg fresh_id s now w v c later (not_sent err) e d (or_empty err) readable in
    let is_verdict = verdict-quota cfg c later err refusal in
    let cooled =
      cooldown-after cfg fresh_id s now w v c later (not_sent err) e until
        (ap (λ a. a.status) is_verdict ∙ status_eq)
        (ap (λ a. a.cooldown_until) is_verdict ∙ until_eq) in
    (
      λ cid current.
          unfold get_resuscitation_attempts in
          ap (count_attempts current) (
            attempts-uncounted cfg fresh_id s now w v c later (not_sent err) e cid
              (ap counts (ap (λ a. a.status) is_verdict ∙ status_eq))),
      _,
      until,
      cooled.0,
      cooled.1,
      long,
    )

-- If a call breaks off between its begin and its end, as when the process stops, its session is
-- not eligible on the table that is left, at any time and whatever the transcripts say.
pub interrupted-blocks :
    (cfg : WatchdogConfig) (custom_prompt active_account : Option Text) (fresh_id : Text)
    (s : StalledSession) (g : Glance) (now : ℕ) (w v : Watch) (c : Call) (k : Case)
    (o : Observation)
    → begin_resuscitation cfg custom_prompt active_account fresh_id s g now w ≡ (sending c, v)
    → k.conversation_id ≡ s.conversation_id
    → evaluate_eligibility cfg k o v.rows ≢ none
interrupted-blocks cfg custom account fresh_id s g now w v c k o begun same ok =
    let e = begin-IsSent fresh_id s now w c v cfg custom account g begun in
    let guard = (eligible-PassesGuards cfg k o v.rows ok).settled in
    cc (attempting-last fresh_id s now w v c e, guard, same)
