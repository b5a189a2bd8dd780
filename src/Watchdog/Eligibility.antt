-- ===== src/Watchdog/Eligibility.antt =====
-- `_evaluate_resuscitation_eligibility` in `scan_stalled_conversations` of
-- hub/antigravity/watchdog.py: whether a stalled session may be woken. What the code finds in the
-- transcripts and in the summaries comes in as an observation. Times are milliseconds.
use antigravity_webhook_hub.Prelude.{
  ℕ, ◌+◌, ◌-◌, ◌*◌, ◌/◌, Bool, true, false, not, ◌&&◌, ◌||◌, Option, none, some, ltb, leb, ◌==◌,
  if◌then◌else◌,
}
use antigravity_webhook_hub.Text.{Text, truthy, or_empty}
use antigravity_webhook_hub.Watchdog.Prompts.{says}
use antigravity_webhook_hub.Watchdog.Ledger.{
  ResuscitationStatus, resuscitated, failed, exhausted, schedule_remounted, Resuscitation, Rows,
  is_attempting, get_last_resuscitation, has_resuscitation_since,
}

-- AntigravityWatchdogConfig, the limits; all but the counts are seconds.
pub record WatchdogConfig : Type 0 where
  pub enabled : Bool
  pub stall_grace_seconds : ℕ
  pub max_retries_per_session : ℕ
  pub backoff_cooldown_seconds : ℕ
  pub max_total_attempts : ℕ
  pub auto_resuscitate : Bool

pub data SkipReason : Type 0 where
  orphaned_subagent : SkipReason
  parent_already_completed : SkipReason
  parent_already_active : SkipReason
  parent_has_other_active_subagent : SkipReason
  zombie_immunity : Text → SkipReason
  resuscitation_in_progress : SkipReason
  already_resuscitated : SkipReason
  session_already_completed : SkipReason
  max_retries_permanently_exhausted : ℕ → SkipReason
  max_retries_in_backoff : ℕ → ℕ → SkipReason
  max_retries_exhausted : ℕ → SkipReason
  recent_resuscitation_cooldown : SkipReason
  pending_prompt : Text → SkipReason

-- What the files say: of the parent, if its transcript exists, whether it claims completion, when
-- it was written, and whether another child of it is active; of the session, why it is a zombie,
-- whether it claims completion, and which prompt it has not answered.
pub record Observation : Type 0 where
  pub parent_completed : Bool
  pub parent_mtime : Option ℕ
  pub other_child_active : Bool
  pub zombie : Option Text
  pub session_completed : Bool
  pub pending : Option Text

-- The arguments, with the time of the transcript and of the last start of the server (0: none).
pub record Case : Type 0 where
  pub conversation_id : Text
  pub attempts : ℕ
  pub subagent : Bool
  pub parent_id : Option Text
  pub error_hint : Option Text
  pub file_mtime : ℕ
  pub ls_restart_time : ℕ
  pub now : ℕ

abbrev pub is_prior_to_restart : Case → Bool
is_prior_to_restart c = ltb 0 c.ls_restart_time && ltb c.file_mtime c.ls_restart_time

abbrev pub or_skip : Option SkipReason → Option SkipReason → Option SkipReason
or_skip none next = next
or_skip (some reason) next = some reason

abbrev pub skip_if : Bool → SkipReason → Option SkipReason
skip_if test reason = if test then some reason else none

-- p_mtime >= self.ls_restart_time
abbrev pub written_since : ℕ → Option ℕ → Bool
written_since restart none = false
written_since restart (some mtime) = leb restart mtime

-- 1 to 1c
unfoldable pub parent_guard : Case → Observation → Option SkipReason
parent_guard c o = or_skip (skip_if (c.subagent && not (truthy c.parent_id)) orphaned_subagent) (
    or_skip (skip_if (c.subagent && o.parent_completed) parent_already_completed) (
      or_skip
        (skip_if
          (c.subagent && is_prior_to_restart c && written_since c.ls_restart_time o.parent_mtime)
          parent_already_active)
        (skip_if (c.subagent && is_prior_to_restart c && o.other_child_active)
          parent_has_other_active_subagent)))

-- 1d
abbrev pub immune : Bool → Option Text → Option SkipReason
immune true (some reason) = some (zombie_immunity reason)
immune _ _ = none

-- status == "attempting"
abbrev pub in_progress : Option Resuscitation → Bool
in_progress none = false
in_progress (some r) = is_attempting r.status

-- float(last_res.get("resuscitated_epoch") or 0.0)
abbrev pub epoch_of : Option Resuscitation → ℕ
epoch_of none = 0
epoch_of (some r) = r.resuscitated_at * 1000

-- parent_id if (subagent and parent_id) else cid
abbrev pub target_cid : Case → Text
target_cid c = if c.subagent && truthy c.parent_id then or_empty c.parent_id else c.conversation_id

abbrev pub names_restart : Option Text → Bool
names_restart hint =
    says "server_restart" (or_empty hint)
    || says "unfinished_conversation_in_summaries" (or_empty hint)

-- 2b
unfoldable pub restart_guard : Case → Rows → Option SkipReason
unfolding has_resuscitation_since
restart_guard c rows =
    skip_if
      (ltb 0 c.ls_restart_time
        && (has_resuscitation_since c.conversation_id c.ls_restart_time rows
            || has_resuscitation_since (target_cid c) c.ls_restart_time rows)
        && (is_prior_to_restart c || names_restart c.error_hint))
      already_resuscitated

-- The last resuscitation came before the last start of the server: it no longer counts.
abbrev pub renewed : ℕ → ℕ → Bool
renewed restart epoch = ltb 0 restart && ltb 0 epoch && ltb epoch restart

abbrev pub effective_attempts : Case → ℕ → ℕ
effective_attempts c epoch =
    if renewed c.ls_restart_time epoch || is_prior_to_restart c && epoch == 0 then 0 else c.attempts

abbrev pub effective_epoch : Case → ℕ → ℕ
effective_epoch c epoch = if renewed c.ls_restart_time epoch then 0 else epoch

-- 3
unfoldable pub budget_guard : WatchdogConfig → ℕ → ℕ → ℕ → Option SkipReason
budget_guard cfg now attempts epoch =
    let backoff = cfg.backoff_cooldown_seconds * 1000 in
    if leb cfg.max_total_attempts attempts
    then some (max_retries_permanently_exhausted attempts)
    else if ltb attempts cfg.max_retries_per_session
    then none
    else if epoch == 0
    then some (max_retries_exhausted attempts)
    else if ltb now (epoch + backoff)
    then some (max_retries_in_backoff attempts ((epoch + backoff - now) / 1000))
    else none

-- status in ("resuscitated", "failed", "exhausted", "schedule_remounted")
abbrev pub is_debounced : ResuscitationStatus → Bool
is_debounced resuscitated = true
is_debounced failed = true
is_debounced exhausted = true
is_debounced schedule_remounted = true
is_debounced _ = false

abbrev pub last_debounced : Option Resuscitation → Bool
last_debounced none = false
last_debounced (some r) = is_debounced r.status

abbrev pub max_of : ℕ → ℕ → ℕ
max_of a b = if ltb a b then b else a

-- max(base_cd * multiplier, 300.0)
unfoldable pub step_cooldown : WatchdogConfig → ℕ → ℕ
step_cooldown cfg attempts =
    let multiplier = if leb attempts 1 then 1000 else if attempts == 2 then 1500 else 2500 in
    max_of (cfg.stall_grace_seconds * multiplier) 300000

-- 4
unfoldable pub debounce_guard :
    WatchdogConfig → ℕ → ℕ → ℕ → Option Resuscitation → Option SkipReason
unfolding step_cooldown
debounce_guard cfg now attempts epoch last =
    skip_if (ltb 0 epoch && last_debounced last && ltb now (epoch + step_cooldown cfg attempts))
      recent_resuscitation_cooldown

-- 5
abbrev pub pending_guard : Option Text → Option SkipReason
pending_guard none = none
pending_guard (some reason) = some (pending_prompt reason)

-- From the last resuscitation on: 2, 2b to 5. `none` is (True, None).
unfoldable pub ledger_guards :
    WatchdogConfig → Case → Observation → Option Resuscitation → Rows → Option SkipReason
unfolding restart_guard budget_guard debounce_guard
ledger_guards cfg c o last rows =
    let epoch = epoch_of last in
    let attempts = effective_attempts c epoch in
    or_skip (skip_if (in_progress last) resuscitation_in_progress) (
      or_skip (restart_guard c rows) (
        or_skip (skip_if o.session_completed session_already_completed) (
          or_skip (budget_guard cfg c.now attempts (effective_epoch c epoch)) (
            or_skip (debounce_guard cfg c.now attempts (effective_epoch c epoch) last)
              (pending_guard o.pending)))))

unfoldable pub evaluate_eligibility : WatchdogConfig → Case → Observation → Rows → Option SkipReason
unfolding parent_guard ledger_guards get_last_resuscitation
evaluate_eligibility cfg c o rows = or_skip (parent_guard c o) (
    or_skip (immune c.subagent o.zombie)
      (ledger_guards cfg c o (get_last_resuscitation c.conversation_id rows) rows))
