-- ===== src/Samples/Watchdog.antt =====
-- A session that hub/antigravity/watchdog.py wakes, on an empty table.
use antigravity_webhook_hub.Prelude.{
  ℕ, ◌+◌, ◌≤◌, ◌<◌, ◌≡◌, ◌≢◌, refl, true, false, Option, none, some, [], ◌∷◌, ◌++◌, length, keep,
  arith, ap,
}
use antigravity_webhook_hub.Text.{Text, codes, or_empty, print_nat, contains, lower, starts_with}
use antigravity_webhook_hub.Watchdog.Prompts.{Prompt, StalledSession, choose_prompt}
use antigravity_webhook_hub.Watchdog.Quota.{delay, value_error, parse_quota_reset_seconds}
use antigravity_webhook_hub.Watchdog.Ledger.{
  Resuscitation, attempting, get_resuscitation_attempts, get_active_quota_cooldown,
  record_resuscitation, get_last_resuscitation,
}
use antigravity_webhook_hub.Watchdog.Eligibility.{
  WatchdogConfig, Case, Observation, evaluate_eligibility,
}
use antigravity_webhook_hub.Watchdog.Resuscitate.{
  Watch, Call, Glance, sent, not_sent, sending, begin_resuscitation, end_resuscitation, preflight,
  start_call, started, min_debounce,
}
use antigravity_webhook_hub.Watchdog.Concurrent.{
  World, done, step, begins, ends, concerns, times_of, after_begin,
}
use antigravity_webhook_hub.Watchdog.Quiet.{Spaced}
use antigravity_webhook_hub.Watchdog.Spacing.{messages-Spaced}
use antigravity_webhook_hub.Watchdog.Restart.{once_per_restart}
use antigravity_webhook_hub.Watchdog.Tries.{attempts-le-max, quota-refused, interrupted-blocks}
use antigravity_webhook_hub.Watchdog.Tick.{
  Turn, Once, resuscitate_stalled_sessions, resuscitate_stalled_sessions-Once,
}
use antigravity_webhook_hub.Watchdog.Lifecycle.{
  Server, FloatTexts, restore, check_language_server_lifecycle, restart-reported_once,
}

abbrev config : WatchdogConfig
config = record {
  enabled = true;
  stall_grace_seconds = 180;
  max_retries_per_session = 3;
  backoff_cooldown_seconds = 1800;
  max_total_attempts = 5;
  auto_resuscitate = true;
}

abbrev session : StalledSession
session = record {
  conversation_id = codes "c1";
  last_step_index = 7;
  last_error = codes "i/o timeout";
  is_subagent = false;
  parent_conversation_id = none;
  sidecar_slug = none;
  can_resuscitate = true;
  is_quota_exhausted = false;
  is_mcp_error = false;
  has_active_schedule = false;
  active_cron_expression = none;
  active_schedule_prompt = none;
  is_boost_goal = false;
  is_stop_hook_hang = false;
  completed_child_id = none;
  completed_child_summary = none;
  is_network_issue = false;
  is_server_restart = false;
}

abbrev watch : Watch
watch = record {
  in_flight_resuscitations = [];
  recently_resuscitated = λ i. 0;
  ls_restart_time = 0;
  last_known_ls_pid = none;
  rows = [];
  schedules = [];
}

abbrev glance : Glance
glance = record { claims_completion = false; zombie = none }

abbrev now : ℕ
now = 1000000

abbrev prompt : Prompt
prompt = choose_prompt none none session

abbrev call : Call
call = record {
  conversation_id = codes "c1";
  target_id = codes "c1";
  resuscitation_id = codes "r1";
  attempt_count = 1;
  has_active_schedule = false;
  prompt = prompt;
}

abbrev row : Resuscitation
row = record {
  resuscitation_id = codes "r1";
  conversation_id = codes "c1";
  sidecar_slug = none;
  last_error = some (codes "i/o timeout");
  attempt_count = 1;
  status = attempting;
  resuscitation_prompt = some prompt;
  last_step_index = 7;
  cooldown_until = none;
  error_details = none;
  resuscitated_at = 1000;
}

abbrev flying : Watch
flying = record watch { in_flight_resuscitations = codes "c1" ∷ codes "c1" ∷ []; rows = row ∷ [] }

-- The session is woken.
sends :
    begin_resuscitation config none none (codes "r1") session glance now watch
    ≡ (sending call, flying)
unfolding begin_resuscitation preflight start_call started record_resuscitation
sends = refl

abbrev eligible_case : Case
eligible_case = record {
  conversation_id = codes "c1";
  attempts = 0;
  subagent = false;
  parent_id = none;
  error_hint = none;
  file_mtime = 900;
  ls_restart_time = 0;
  now = now;
}

abbrev silent : Observation
silent = record {
  parent_completed = false;
  parent_mtime = none;
  other_child_active = false;
  zombie = none;
  session_completed = false;
  pending = none;
}

abbrev restarted_case : Case
restarted_case = record eligible_case { ls_restart_time = 5000; now = 9000000 }

once_per_restart_example :
    evaluate_eligibility config restarted_case silent
      ([] ++ (end_resuscitation config call 1000200 sent flying).1.rows)
    ≢ none
once_per_restart_example =
    once_per_restart config none none (codes "r1") session glance now 1000200 watch flying call
      restarted_case silent [] sends refl (omega arith) refl

interrupted-blocks_example : evaluate_eligibility config restarted_case silent flying.rows ≢ none
interrupted-blocks_example =
    interrupted-blocks config none none (codes "r1") session glance now watch flying call
      restarted_case silent sends refl

attempts-le-max_example :
    get_resuscitation_attempts
      (codes "c1")
      (some 7)
      (end_resuscitation config call 1000200 sent flying).1.rows
    ≤ 5
attempts-le-max_example =
    attempts-le-max config none none (codes "r1") session glance now 1000200 7 sent watch flying
      call eligible_case silent sends (unfold evaluate_eligibility in refl) refl
      (unfold get_resuscitation_attempts in refl) refl (unfold get_last_resuscitation in refl) tt
      (omega arith)

abbrev refusal : Option Text
refusal = some (codes "RESOURCE_EXHAUSTED: Resets in 30s")

refusal_delay : parse_quota_reset_seconds (or_empty refusal) ≡ delay 30000
unfolding parse_quota_reset_seconds starts_with lower
refusal_delay = refl

readable : (number : Text) → parse_quota_reset_seconds (or_empty refusal) ≢ value_error number
readable number h = cc (refusal_delay, h)

quota-refused_example :
    let rows = (end_resuscitation config call 1000200 (not_sent refusal) flying).1.rows in
    ((cid : Text) (current : Option ℕ)
      → get_resuscitation_attempts cid current rows ≡ get_resuscitation_attempts cid current [])
    × (r : Resuscitation) × (until : ℕ) × (get_active_quota_cooldown (codes "c1") rows ≡ some r)
    × (r.cooldown_until ≡ some until)
    × (1000200 + 30000 < until)
unfolding contains lower starts_with
quota-refused_example =
    quota-refused config none none (codes "r1") session glance now 1000200 refusal watch flying call
      sends refl readable

-- The examples of the code's own documentation.
delay_example_1 : parse_quota_reset_seconds (codes "Resets in 45m10s") ≡ delay 2710000
unfolding parse_quota_reset_seconds starts_with lower
delay_example_1 = refl

delay_example_2 :
    parse_quota_reset_seconds (codes "retryDelay\": \"6853.667943359s\"") ≡ delay 6853668
unfolding parse_quota_reset_seconds starts_with
delay_example_2 = refl

-- A call begins and ends.
abbrev world : World
world = record { watch = watch; waiting = []; messages = []; clock = 0 }

abbrev called : World
called =
    after_begin now world
      (begin_resuscitation config none none (codes "r1") session glance now world.watch)

waits : called.waiting ≡ [] ++ call ∷ []
waits = ap (λ r. (after_begin now world r).waiting) sends

abbrev ended : World
ended = record called {
  watch = (end_resuscitation config call 1000200 sent called.watch).1;
  waiting = [] ++ [];
  clock = 1000200;
}

clocked : called.clock ≤ 1000200
clocked = rw sends (omega arith)

messages-Spaced_example :
    (length (keep (concerns (codes "c1")) ended.waiting) ≤ 1)
    × Spaced (min_debounce config) (times_of (codes "c1") ended.messages)
messages-Spaced_example =
    messages-Spaced config (codes "c1")
      (record { no_calls = refl; no_messages = refl; no_marks = λ i. refl })
      (step
        (step (done world) (begins none none (codes "r1") session glance now world (omega arith)))
        (ends [] [] call sent 1000200 called clocked waits))

abbrev one_turn : Turn
one_turn = record {
  active_account = none;
  fresh_id = codes "r1";
  glance = glance;
  now_sweep = now;
  begun_at = now;
  ended_at = 1000200;
  answer = sent;
  meanwhile = λ w. w;
}

resuscitate_stalled_sessions-Once_example :
    Once
      (resuscitate_stalled_sessions config true true
        ((session, one_turn) ∷ (session, one_turn) ∷ [])
        watch).0
resuscitate_stalled_sessions-Once_example =
    resuscitate_stalled_sessions-Once config true true
      ((session, one_turn) ∷ (session, one_turn) ∷ []) watch

abbrev server : Server
server = record { last_known_ls_pid = none; ls_restart_time = 0; metadata = λ k. none }

-- Times as texts of one character.
abbrev read_one : Text → Option ℕ
read_one [] = none
read_one (c ∷ t) = some c

abbrev floats : FloatTexts
floats = record { text = λ t. t ∷ []; read = read_one }

restart-reported_once_example :
    let after = (check_language_server_lifecycle floats (some 812) (some 77) 99 server).1 in
    (check_language_server_lifecycle floats (some 812) none 120 after ≡ (false, after))
    × ((check_language_server_lifecycle floats
          (some 812)
          none
          120
          (restore floats after.metadata)).0
        ≡ false)
restart-reported_once_example =
    restart-reported_once floats (some 812) (some 77) none 99 120 server
      (record { not_empty = λ t. refl; same = λ t. refl }) (unfold print_nat in omega arith)
      (record { pid = refl; time = refl })
