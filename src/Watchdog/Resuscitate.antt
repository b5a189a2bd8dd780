-- ===== src/Watchdog/Resuscitate.antt =====
-- `resuscitate_session` and `_execute_resuscitation` of hub/antigravity/watchdog.py, in two steps:
-- `begin_resuscitation` up to the await of `send_message`, and `end_resuscitation` from its answer
-- on. Other calls may run in between.
use antigravity_webhook_hub.Prelude.{
  ℕ, ◌+◌, ◌*◌, Bool, true, false, not, ◌&&◌, ◌||◌, Option, none, some, List, ◌∷◌, any, keep, take,
  ltb, leb, ◌==◌, ◌++◌, if◌then◌else◌,
}
use antigravity_webhook_hub.Text.{Text, codes, text_eq, truthy, or_empty}
use antigravity_webhook_hub.Watchdog.Prompts.{
  Prompt, StalledSession, is_delegated, target_conversation, says, choose_prompt,
}
use antigravity_webhook_hub.Watchdog.Quota.{
  Delay, delay, no_delay, value_error, parse_quota_reset_seconds,
}
use antigravity_webhook_hub.Watchdog.Ledger.{
  ResuscitationStatus, attempting, resuscitated, failed, exhausted, quota_cooldown,
  schedule_remounted, Resuscitation, Rows, record_resuscitation, update_resuscitation_status,
  has_resuscitation_since,
}
use antigravity_webhook_hub.Watchdog.Schedules.{
  ConversationSchedule, update_conversation_schedule_trigger,
}
use antigravity_webhook_hub.Watchdog.Eligibility.{WatchdogConfig, max_of}

-- The watchdog with the tables that it writes; `recently_resuscitated` reads a missing id as 0.
pub record Watch : Type 0 where
  pub in_flight_resuscitations : List Text
  pub recently_resuscitated : Text → ℕ
  pub ls_restart_time : ℕ
  pub last_known_ls_pid : Option ℕ
  pub rows : Rows
  pub schedules : List ConversationSchedule

abbrev pub holds_id : Text → List Text → Bool
holds_id i is = any (λ j. text_eq j i) is

abbrev pub drop_id : Text → List Text → List Text
drop_id i is = keep (λ j. not (text_eq j i)) is

abbrev pub touch : Text → ℕ → (Text → ℕ) → Text → ℕ
touch i now recently j = if text_eq i j then now else recently j

-- max(float(self.config.stall_grace_seconds), 300.0)
abbrev pub min_debounce : WatchdogConfig → ℕ
min_debounce cfg = max_of (cfg.stall_grace_seconds * 1000) 300000

pub data Refusal : Type 0 where
  in_flight_skip : Refusal
  completed : Refusal
  dead_subagent : Text → Refusal
  already_resuscitated_for_restart : Refusal
  debounced : Refusal

-- A message on its way: what the rest of the call needs.
pub record Call : Type 0 where
  pub conversation_id : Text
  pub target_id : Text
  pub resuscitation_id : Text
  pub attempt_count : ℕ
  pub has_active_schedule : Bool
  pub prompt : Prompt

pub data Begun : Type 0 where
  refused : Refusal → Begun
  sending : Call → Begun
  record_failed : Begun

-- What the files say at the call: the session claims completion; why the subagent is a zombie.
pub record Glance : Type 0 where
  pub claims_completion : Bool
  pub zombie : Option Text

-- 3
unfoldable pub already_woken : StalledSession → Watch → Bool
unfolding has_resuscitation_since
already_woken s w =
    ltb 0 w.ls_restart_time
    && (has_resuscitation_since s.conversation_id w.ls_restart_time w.rows
        || has_resuscitation_since (target_conversation s) w.ls_restart_time w.rows)
    && (s.is_server_restart
        || says "server_restart" s.last_error
        || says "unfinished_conversation_in_summaries" s.last_error)

-- 1, 2, 2b, 3, 4
abbrev pub zombie_refusal : Bool → Option Text → Option Refusal → Option Refusal
zombie_refusal true (some reason) next = some (dead_subagent reason)
zombie_refusal true none next = next
zombie_refusal false zombie next = next

unfoldable pub preflight : WatchdogConfig → StalledSession → Glance → ℕ → Watch → Option Refusal
unfolding already_woken
preflight cfg s g now w =
    let recent =
      max_of (w.recently_resuscitated s.conversation_id)
        (w.recently_resuscitated (target_conversation s)) in
    if holds_id s.conversation_id w.in_flight_resuscitations
      || holds_id (target_conversation s) w.in_flight_resuscitations
    then some in_flight_skip
    else if g.claims_completion
    then some completed
    else zombie_refusal (is_delegated s || s.is_subagent) g.zombie (
        if already_woken s w
        then some already_resuscitated_for_restart
        else if ltb now (recent + min_debounce cfg)
        then some debounced
        else none)

-- The `finally`.
unfoldable pub release : Text → Text → ℕ → Watch → Watch
release cid target now w = record w {
  in_flight_resuscitations = drop_id target (drop_id cid w.in_flight_resuscitations);
  recently_resuscitated = touch target now (touch cid now w.recently_resuscitated);
}

-- f"delegated_to_parent:{target_convo_id}"
abbrev pub delegation : StalledSession → Option Text
delegation s =
    if is_delegated s then some (codes "delegated_to_parent:" ++ target_conversation s) else none

abbrev pub attempt_row : Text → Prompt → StalledSession → Resuscitation
attempt_row fresh_id prompt s = record {
  resuscitation_id = fresh_id;
  conversation_id = s.conversation_id;
  sidecar_slug = s.sidecar_slug;
  last_error = some s.last_error;
  attempt_count = 0;
  status = attempting;
  resuscitation_prompt = some prompt;
  last_step_index = s.last_step_index;
  cooldown_until = none;
  error_details = delegation s;
  resuscitated_at = 0;
}

abbrev pub call_of : Prompt → StalledSession → Resuscitation → Call
call_of prompt s row = record {
  conversation_id = s.conversation_id;
  target_id = target_conversation s;
  resuscitation_id = row.resuscitation_id;
  attempt_count = row.attempt_count;
  has_active_schedule = s.has_active_schedule;
  prompt = prompt;
}

-- The ids go in flight, and the attempt is recorded.
abbrev pub mark_in_flight : StalledSession → Watch → Watch
mark_in_flight s w = record w {
  in_flight_resuscitations = target_conversation s ∷ s.conversation_id ∷ w.in_flight_resuscitations;
}

unfoldable pub started :
    Prompt → StalledSession → ℕ → Watch → Option (Resuscitation × Rows) → Begun × Watch
started prompt s now w none =
    (record_failed, release s.conversation_id (target_conversation s) now (mark_in_flight s w))
started prompt s now w (some (row, rows)) =
    (sending (call_of prompt s row), record (mark_in_flight s w) { rows = rows })

unfoldable pub start_call : Text → Prompt → StalledSession → ℕ → Watch → Begun × Watch
start_call fresh_id prompt s now w =
    started prompt s now w (record_resuscitation (attempt_row fresh_id prompt s) now w.rows)

-- The custom prompt and the account of the sentinel; uuid4 gives fresh_id.
unfoldable pub begin_resuscitation :
    WatchdogConfig
    → Option Text
    → Option Text
    → Text
    → StalledSession
    → Glance
    → ℕ
    → Watch
    → Begun × Watch
begin_resuscitation cfg custom_prompt active_account fresh_id s g now w =
    elim (preflight cfg s g now w) [
      | some refusal ↦ (refused refusal, w)
      | none ↦ start_call fresh_id (choose_prompt custom_prompt active_account s) s now w
    ]

-- The answer of agentapi.send_message, or the text of its exception.
pub data Answer : Type 0 where
  sent : Answer
  not_sent : Option Text → Answer
  raised : Text → Answer

pub record Verdict : Type 0 where
  pub success : Bool
  pub status : ResuscitationStatus
  pub cooldown_until : Option ℕ
  pub error : Option Text

abbrev pub is_quota_error : Option Text → Bool
is_quota_error err =
    truthy err
    && (says "individual quota reached" (or_empty err) || says "resource_exhausted" (or_empty err))

abbrev pub failed_with : Text → Verdict
failed_with error = record {
  success = false;
  status = failed;
  cooldown_until = none;
  error = some error;
}

-- parse_quota_reset_seconds(err) or 6853.0, and 30 seconds more
abbrev pub wait_of : ℕ → ℕ
wait_of ms = if ms == 0 then 6853000 else ms

abbrev pub cooled : Text → ℕ → ℕ → Verdict
cooled error now wait = record {
  success = false;
  status = quota_cooldown;
  cooldown_until = some (now + wait + 30000);
  error = some error;
}

unfoldable pub quota_verdict : Text → ℕ → Delay → Verdict
quota_verdict error now (delay ms) = cooled error now (wait_of ms)
quota_verdict error now no_delay = cooled error now 6853000
quota_verdict error now (value_error number) =
    failed_with (codes "could not convert string to float: '" ++ number ++ codes "'")

unfoldable pub answer_verdict : WatchdogConfig → Call → ℕ → Answer → Verdict
unfolding quota_verdict parse_quota_reset_seconds
answer_verdict cfg c now sent = record {
  success = true;
  status = if c.has_active_schedule then schedule_remounted else resuscitated;
  cooldown_until = none;
  error = none;
}
answer_verdict cfg c now (not_sent err) =
    if is_quota_error err
    then quota_verdict (or_empty err) now (parse_quota_reset_seconds (or_empty err))
    else record {
      success = false;
      status = if leb cfg.max_retries_per_session c.attempt_count then exhausted else failed;
      cooldown_until = none;
      error = err;
    }
answer_verdict cfg c now (raised message) = failed_with message

-- err[:500] if err else None; of an exception, str(e)[:500]
abbrev pub details_of : Option Text → Option Text
details_of none = none
details_of (some err) = some (take 500 err)

abbrev pub written_details : Answer → Option Text → Option Text
written_details (not_sent err) error = if truthy error then details_of error else none
written_details answer error = details_of error

unfoldable pub end_resuscitation : WatchdogConfig → Call → ℕ → Answer → Watch → Verdict × Watch
unfolding answer_verdict update_resuscitation_status update_conversation_schedule_trigger release
end_resuscitation cfg c now answer w =
    let v = answer_verdict cfg c now answer in
    let rows =
      update_resuscitation_status c.resuscitation_id v.status v.cooldown_until
        (written_details answer v.error) w.rows in
    let schedules =
      if v.success && c.has_active_schedule
      then update_conversation_schedule_trigger c.conversation_id now w.last_known_ls_pid
          w.schedules
      else w.schedules in
    (v, release c.conversation_id c.target_id now (record w { rows = rows; schedules = schedules }))
