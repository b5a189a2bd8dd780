-- ===== src/Samples/Streams.antt =====
-- The stream of a task that has printed three lines, left behind the second.
use antigravity_webhook_hub.Prelude.{
  false, ℕ, String, true, ◌≡◌, refl, none, some, List, [], ◌∷◌, ◌++◌, take, keep, map,
}
use antigravity_webhook_hub.Prelude.Int.{pos, ltb_ℤ}
use antigravity_webhook_hub.Text.{codes, print_nat, text_eq, starts_with}
use antigravity_webhook_hub.Models.{running}
use antigravity_webhook_hub.Store.Rows.{Db, Task}
use antigravity_webhook_hub.Store.Logs.{Log, get_execution_logs, get_task_backlog, since_int}
use antigravity_webhook_hub.Broker.{Broker}
use antigravity_webhook_hub.Streams.{
  Notice, StreamRound, arrives, times_out, live, status_payload, is_completion, publish_status,
  StreamHub, log_frame, open_stream,
}
use antigravity_webhook_hub.Streams.Logged.{LogCall, logged, no_logs}
use antigravity_webhook_hub.Streams.Resume.{resume-exact}
use antigravity_webhook_hub.Streams.Ends.{publish_status-ends}

abbrev task : String → Task
task id = record {
  task_id = id;
  event_id = none;
  source = "github";
  action_type = "cli";
  command = "make test";
  status = running;
  priority = pos 0;
  timeout_seconds = pos 10;
  retry_count = pos 0;
  max_retries = pos 1;
  exit_code = none;
  error_message = none;
  created_at = 0;
  queued_at = none;
  started_at = some 1;
  completed_at = none;
  updated_at = 1;
}

abbrev db : Db
db = record { events = []; tasks = task "a" ∷ task "b" ∷ []; auto_event = false }

abbrev line : String → String → ℕ → LogCall
line id chunk now = record {
  task_id = id;
  stream = "stdout";
  chunk = chunk;
  execution_id = some "exec_1";
  now = now;
  tasks = db.tasks;
}

abbrev row : ℕ → String → ℕ → Log
row n chunk now = record {
  log_id = n;
  execution_id = "exec_1";
  task_id = "a";
  stream_type = "stdout";
  chunk = chunk;
  timestamp = now;
}

abbrev before : List LogCall
before = line "a" "one" 2 ∷ line "b" "other" 2 ∷ line "a" "two" 3 ∷ line "a" "three" 3 ∷ []

abbrev after : List LogCall
after = line "b" "other" 4 ∷ line "a" "four" 5 ∷ []

abbrev broker : Broker Notice
broker = record {
  default_queue_size = pos 100;
  subscribers = record { topic = codes "events"; members = 0 ∷ [] } ∷ [];
  queues = λ i. record { maxsize = pos 100; items = [] };
  next = 1;
}

abbrev first : StreamHub
first = record { db = db; logs = logged before no_logs; broker = broker }

abbrev again : StreamHub
again = record { db = db; logs = logged after (logged before no_logs); broker = broker }

resume-exact_example :
    ((open_stream "a" (codes "0") first).0.sent
      ≡ map log_frame (row 1 "one" 2 ∷ row 3 "two" 3 ∷ []) ++ map log_frame (row 4 "three" 3 ∷ []))
    × (map log_frame (row 1 "one" 2 ∷ row 3 "two" 3 ∷ [])
          ++ (open_stream "a" (print_nat 3) again).0.sent
        ≡ map log_frame (
            take 502 (
              keep
                (λ x. ltb_ℤ (since_int (codes "0")) (pos x.log_id))
                (get_execution_logs "a" again.logs))))
unfolding get_task_backlog logged print_nat
resume-exact_example =
    resume-exact "a" (codes "0") before after db broker broker (row 1 "one" 2 ∷ [])
      (row 4 "three" 3 ∷ []) (row 3 "two" 3) refl refl

-- The stream waits twice, and takes the message in between.
abbrev rounds : List StreamRound
rounds = times_out ∷ arrives (status_payload "a" "succeeded" (some (pos 0)) 9) ∷ times_out ∷ []

-- The broker behind the opening of the stream.
abbrev listened : Broker Notice
listened = record broker {
  subscribers = record { topic = codes "task.a"; members = 1 ∷ [] } ∷ broker.subscribers;
  next = 2;
}

publish_status-ends_example : (live rounds).1 ≡ true
unfolding publish_status status_payload is_completion text_eq starts_with
publish_status-ends_example =
    publish_status-ends "a" "succeeded" (some (pos 0)) 9 1 listened rounds (λ j. refl) refl refl
      refl
