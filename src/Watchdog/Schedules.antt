-- ===== src/Watchdog/Schedules.antt =====
-- The table conversation_schedules of hub/db.py, and its methods that write. Times are
-- milliseconds.
use antigravity_webhook_hub.Prelude.{ℕ, ◌&&◌, Option, none, some, List, [], ◌∷◌, ltb, if◌then◌else◌}
use antigravity_webhook_hub.Text.{Text, codes, text_eq}

pub record ConversationSchedule : Type 0 where
  pub conversation_id : Text
  pub cron_expression : Text
  pub prompt : Text
  pub expected_interval_seconds : ℕ
  pub last_trigger_at : ℕ
  pub status : Text
  pub ls_pid : ℕ

abbrev pub later : ℕ → ℕ → ℕ
later a b = if ltb a b then b else a

-- ON CONFLICT(conversation_id) DO UPDATE
abbrev pub merged : ConversationSchedule → ConversationSchedule → ConversationSchedule
merged new old = record old {
  cron_expression = new.cron_expression;
  prompt = new.prompt;
  expected_interval_seconds = new.expected_interval_seconds;
  last_trigger_at = later old.last_trigger_at new.last_trigger_at;
  status = new.status;
  ls_pid = if ltb 0 new.ls_pid then new.ls_pid else old.ls_pid;
}

unfoldable pub save_conversation_schedule :
    ConversationSchedule → List ConversationSchedule → List ConversationSchedule
save_conversation_schedule new [] = new ∷ []
save_conversation_schedule new (s ∷ rows) =
    let rest = save_conversation_schedule new rows in
    if text_eq s.conversation_id new.conversation_id then merged new s ∷ rows else s ∷ rest

-- ls_pid = ?, if the pid is known and not 0
abbrev pub or_pid : Option ℕ → ℕ → ℕ
or_pid none old = old
or_pid (some pid) old = if ltb 0 pid then pid else old

abbrev pub triggered : ℕ → Option ℕ → ConversationSchedule → ConversationSchedule
triggered at pid s = record s {
  last_trigger_at = later s.last_trigger_at at;
  ls_pid = or_pid pid s.ls_pid;
}

unfoldable pub update_conversation_schedule_trigger :
    Text → ℕ → Option ℕ → List ConversationSchedule → List ConversationSchedule
update_conversation_schedule_trigger cid at pid [] = []
update_conversation_schedule_trigger cid at pid (s ∷ rows) =
    let rest = update_conversation_schedule_trigger cid at pid rows in
    if text_eq s.conversation_id cid then triggered at pid s ∷ rest else s ∷ rest

unfoldable pub complete_conversation_schedule :
    Text → List ConversationSchedule → List ConversationSchedule
complete_conversation_schedule cid [] = []
complete_conversation_schedule cid (s ∷ rows) =
    let rest = complete_conversation_schedule cid rows in
    if text_eq s.conversation_id cid && text_eq s.status (codes "active")
    then record s { status = codes "completed" } ∷ rest
    else s ∷ rest
