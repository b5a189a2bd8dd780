-- ===== src/Streams.antt =====
-- hub/routes/sse.py: the stream of a task's output, GET /tasks/{task_id}/stream, over the logs in
-- hub/db.py and the queues of hub/broker.py. A frame is the arguments of `format_sse_frame`; its
-- text is left out. Behind a frame other parts of the hub may run, so that the steps of a stream
-- take the server as it then is.
pub mod Logged
pub mod Resume
pub mod Traces
pub mod Ends
use mathlib.Core.Option
use antigravity_webhook_hub.Prelude.{
  any, ◌==◌, ℕ, String, str_eq, Bool, true, false, ◌||◌, Option, none, some, List, [], ◌∷◌, ◌++◌,
  map, if◌then◌else◌,
}
use antigravity_webhook_hub.Prelude.Int.{ℤ}
use antigravity_webhook_hub.Text.{Text, codes, print_nat}
use antigravity_webhook_hub.Models.{TaskStatus, succeeded, failed, timed_out, cancelled, status_eq}
use antigravity_webhook_hub.Store.Rows.{Task, Db}
use antigravity_webhook_hub.Store.Tasks.{get_task}
use antigravity_webhook_hub.Store.Logs.{Log, Logs, get_task_backlog}
use antigravity_webhook_hub.Broker.{Broker, Queue, subscribe, unsubscribe, publish}

-- The keys that the stream reads in a dictionary from a queue, and the output that it carries.
pub record Notice : Type 0 where
  pub event : Option String
  pub kind : Option String
  pub log_id : Option ℕ
  pub task_id : Option String
  pub status : Option String
  pub exit_code : Option ℤ
  pub stream : String
  pub chunk : String
  pub timestamp : ℕ

-- `publish_log` and `publish_status` of hub/broker.py. No row of the table stands behind a
-- message, so that it has no `log_id`.
unfoldable pub log_payload : String → String → String → ℕ → Notice
log_payload task_id stream chunk now = record {
  event = some "log";
  kind = some "log";
  log_id = none;
  task_id = some task_id;
  status = none;
  exit_code = none;
  stream = stream;
  chunk = chunk;
  timestamp = now;
}

unfoldable pub is_completion : String → Bool
is_completion status =
    str_eq status "succeeded" || str_eq status "failed" || str_eq status "timed_out"

unfoldable pub status_payload : String → String → Option ℤ → ℕ → Notice
unfolding is_completion
status_payload task_id status exit_code now = record {
  event = some (if is_completion status then "completed" else "status_changed");
  kind = some "status_changed";
  log_id = none;
  task_id = some task_id;
  status = some status;
  exit_code = exit_code;
  stream = "";
  chunk = "";
  timestamp = now;
}

abbrev pub topic_of : String → Text
topic_of task_id = codes "task." ++ codes task_id

unfoldable pub publish_log : String → String → String → ℕ → Broker Notice → ℕ × Broker Notice
unfolding log_payload publish
publish_log task_id stream chunk now b =
    publish (topic_of task_id) (log_payload task_id stream chunk now) b

unfoldable pub publish_status : String → String → Option ℤ → ℕ → Broker Notice → ℕ × Broker Notice
unfolding status_payload publish
publish_status task_id status exit_code now b =
    publish (topic_of task_id) (status_payload task_id status exit_code now) b

-- What a frame says.
pub data Data : Type 0 where
  log_row : Log → Data
  completion : TaskStatus → Option ℤ → Data
  message : Notice → Data

pub data Frame : Type 0 where
  frame : (event : String) (content : Data) (event_id : Option Text) → Frame
  ping : Frame

abbrev or_string : Option String → String → String
or_string none d = d
or_string (some s) d = if str_eq s "" then d else s

abbrev pub has_ended : TaskStatus → Bool
has_ended s =
    status_eq s succeeded || status_eq s failed || status_eq s timed_out || status_eq s cancelled

abbrev pub log_frame : Log → Frame
log_frame r = frame "log" (log_row r) (some (print_nat r.log_id))

-- `event or type or "log"`, and `log_id or task_id`.
unfoldable pub live_frame : Notice → Frame
live_frame p = frame (or_string p.event (or_string p.kind "log")) (message p) (elim p.log_id [
  | none ↦ Option.map codes p.task_id
  | some n ↦ if n == 0 then Option.map codes p.task_id else some (print_nat n)
])

abbrev is_one_of : List String → Option String → Bool
is_one_of names none = false
is_one_of names (some s) = any (str_eq s) names

unfoldable pub is_last : Notice → Bool
is_last p =
    is_one_of ("completed" ∷ "task_completed" ∷ []) p.event
    || is_one_of ("succeeded" ∷ "failed" ∷ "timed_out" ∷ []) p.status

-- How a round of the live loop goes: a message is there, the two seconds are over, or the server
-- cancels the stream.
pub data StreamRound : Type 0 where
  arrives : Notice → StreamRound
  times_out cancels : StreamRound

-- The frames of the live loop, and whether it has ended.
unfoldable pub live : List StreamRound → List Frame × Bool
unfolding live_frame is_last
live [] = ([], false)
live (arrives p ∷ rounds) =
    let (frames, ended) = live rounds in
    if is_last p then (live_frame p ∷ [], true) else (live_frame p ∷ frames, ended)
live (times_out ∷ rounds) = let (frames, ended) = live rounds in (ping ∷ frames, ended)
live (cancels ∷ rounds) = ([], true)

pub record StreamHub : Type 0 where
  pub db : Db
  pub logs : Logs
  pub broker : Broker Notice

-- `query_params.get("since_id") or header("last-event-id") or "0"`
abbrev pub since_of : Option Text → Option Text → Text
since_of (some (c ∷ s)) last_event_id = c ∷ s
since_of _ (some (c ∷ s)) = c ∷ s
since_of _ _ = codes "0"

pub record Stream : Type 0 where
  pub queue : ℕ
  pub sent : List Frame

-- `stream_generator` up to its first frame: the subscription, then the backlog.
unfoldable pub open_stream : String → Text → StreamHub → Stream × StreamHub
unfolding get_task_backlog subscribe
open_stream task_id since_id s =
    let (queue, broker) = subscribe (topic_of task_id) none s.broker in
    (
      record { queue = queue; sent = map log_frame (get_task_backlog task_id since_id 500 s.logs) },
      record s { broker = broker },
    )

-- The look at the task behind the backlog, and whether the stream goes on into the live loop.
unfoldable pub before_live : String → StreamHub → List Frame × Bool
unfolding get_task
before_live task_id s = elim (get_task task_id s.db) [
  | none ↦ (ping ∷ [], true)
  | some t ↦
      if has_ended t.status
      then (
        frame "completed" (completion t.status t.exit_code) (some (codes "completed")) ∷ [],
        false,
      )
      else (ping ∷ [], true)
]

-- The `finally` of the generator, wherever it was left.
unfoldable pub close_stream : String → Stream → StreamHub → StreamHub
unfolding unsubscribe
close_stream task_id stream s = record s {
  broker = unsubscribe (topic_of task_id) stream.queue s.broker;
}

-- A stream begins when the server iterates over it.
pub data StreamAnswer : Type 0 where
  not_found : StreamAnswer
  streams : (task_id : String) (since_id : Text) → StreamAnswer

unfoldable pub handle_task_stream : String → Option Text → Option Text → StreamHub → StreamAnswer
unfolding get_task
handle_task_stream task_id since_id last_event_id s = elim (get_task task_id s.db) [
  | none ↦ not_found
  | some t ↦ streams task_id (since_of since_id last_event_id)
]
