-- ===== src/Watchdog/Prompts.antt =====
-- The choice of the message to a stalled session, `_execute_resuscitation` of
-- hub/antigravity/watchdog.py. A prompt stands for its template and what is filled in.
use antigravity_webhook_hub.Prelude.{
  ℕ, Bool, not, ◌&&◌, ◌||◌, Option, [], ◌∷◌, length, leb, ◌==◌, String, if◌then◌else◌,
}
use antigravity_webhook_hub.Cron.Field.{words}
use antigravity_webhook_hub.Text.{Text, codes, text_eq, contains, lower, truthy, or_empty, is_nil}

pub data Prompt : Type 0 where
  custom : Text → Prompt
  parent_delegation_completed : Text → Text → Prompt
  boost_server_restart : Prompt
  server_restart : Prompt
  boost_delegation : Text → Text → Prompt
  quota : Prompt
  boost_goal : Prompt
  agent_executor_crash : Prompt
  network_error : Prompt
  mcp_error : Prompt
  schedule_remount : Text → Text → Prompt
  default_prompt : Prompt
  empty_response : Prompt
  tool_result : Prompt

-- StalledSessionInfo, the fields that a resuscitation reads.
pub record StalledSession : Type 0 where
  pub conversation_id : Text
  pub last_step_index : ℕ
  pub last_error : Text
  pub is_subagent : Bool
  pub parent_conversation_id : Option Text
  pub sidecar_slug : Option Text
  pub can_resuscitate : Bool
  pub is_quota_exhausted : Bool
  pub is_mcp_error : Bool
  pub has_active_schedule : Bool
  pub active_cron_expression : Option Text
  pub active_schedule_prompt : Option Text
  pub is_boost_goal : Bool
  pub is_stop_hook_hang : Bool
  pub completed_child_id : Option Text
  pub completed_child_summary : Option Text
  pub is_network_issue : Bool
  pub is_server_restart : Bool

-- is_subagent and parent_conversation_id
abbrev pub is_delegated : StalledSession → Bool
is_delegated s = s.is_subagent && truthy s.parent_conversation_id

-- The conversation that gets the message.
abbrev pub target_conversation : StalledSession → Text
target_conversation s =
    if is_delegated s then or_empty s.parent_conversation_id else s.conversation_id

-- word in str(last_error).lower()
abbrev pub says : String → Text → Bool
says word error = contains (codes word) (lower error)

-- `value or default`
abbrev pub or_words : Option Text → String → Text
or_words value default = if truthy value then or_empty value else codes default

-- .strip(' "\'')
abbrev pub is_quote : ℕ → Bool
is_quote c = c == b' ' || c == 34 || c == 39

abbrev pub lstrip_quotes : Text → Text
lstrip_quotes [] = []
lstrip_quotes (c ∷ s) = let rest = lstrip_quotes s in if is_quote c then rest else c ∷ s

abbrev pub rstrip_quotes : Text → Text
rstrip_quotes [] = []
rstrip_quotes (c ∷ s) =
    let rest = rstrip_quotes s in if is_quote c && is_nil rest then [] else c ∷ rest

unfoldable pub strip_quotes : Text → Text
strip_quotes s = rstrip_quotes (lstrip_quotes s)

unfoldable pub is_boost_error : StalledSession → Bool
is_boost_error s =
    s.is_boost_goal
    || s.is_stop_hook_hang
    || says "stop_hook" s.last_error
    || says "boost" s.last_error
    || says "goal" s.last_error

unfoldable pub is_crash : Text → Bool
is_crash error =
    text_eq error (codes "agent_executor_crash")
    || text_eq error (codes "agent execution terminated due to error")
    || says "executor" error
    || says "crash" error

unfoldable pub schedule_prompt : StalledSession → Prompt
unfolding strip_quotes
schedule_prompt s =
    let cron = strip_quotes (or_empty s.active_cron_expression) in
    if not (is_nil cron) && leb 5 (length (words cron))
    then schedule_remount cron (or_words s.active_schedule_prompt "原后台定时任务")
    else if s.is_server_restart
    then server_restart
    else default_prompt

-- What is sent without a custom prompt. `active_account` is the account that the quota sentinel
-- reports, if it reports one.
unfoldable pub template : Option Text → StalledSession → Prompt
unfolding schedule_prompt is_crash is_boost_error
template active_account s =
    if truthy s.completed_child_id
    then parent_delegation_completed (or_empty s.completed_child_id)
        (or_words s.completed_child_summary "（已圆满完成原定子任务）")
    else if s.is_server_restart
    then if s.is_boost_goal || is_delegated s then boost_server_restart else server_restart
    else if is_delegated s
    then boost_delegation s.conversation_id (or_words active_account "已恢复活跃账户")
    else if s.is_quota_exhausted || text_eq s.last_error (codes "quota_restored_pull_up")
    then quota
    else if is_boost_error s
    then boost_goal
    else if is_crash s.last_error
    then agent_executor_crash
    else if s.is_network_issue || says "network" s.last_error || says "server_error" s.last_error
    then network_error
    else if s.is_mcp_error || says "mcp" s.last_error
    then mcp_error
    else if s.has_active_schedule || says "schedule" s.last_error
    then schedule_prompt s
    else if text_eq s.last_error (codes "empty_planner_response_hang")
    then empty_response
    else if says "tool_result" s.last_error
    then tool_result
    else default_prompt

unfoldable pub choose_prompt : Option Text → Option Text → StalledSession → Prompt
unfolding template
choose_prompt custom_prompt active_account s =
    if truthy custom_prompt then custom (or_empty custom_prompt) else template active_account s
