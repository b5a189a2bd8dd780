-- ===== src/Store/Sweep.antt =====
-- `sweep_and_requeue_unprocessed` of hub/db.py.
pub mod RowWise
pub mod Settled
use antigravity_webhook_hub.Prelude.{
  ℕ, suc, String, str_eq, Bool, true, false, not, ◌&&◌, ◌||◌, Option, none, some, List, [], ◌∷◌,
  length, any, all, keep, take, map, ◌==◌, if◌then◌else◌,
}
use antigravity_webhook_hub.Prelude.Int.{ℤ, pos, ltb_ℤ, max_ℤ, ◌+ℤ◌, ◌-ℤ◌}
use antigravity_webhook_hub.Text.{Text, codes, contains, ascii_lower}
use antigravity_webhook_hub.Models
use antigravity_webhook_hub.Models.{TaskStatus, queued, running, failed, timed_out, status_eq}
use antigravity_webhook_hub.Store.Rows.{Event, Task, Db, update_rows, count_rows}
use antigravity_webhook_hub.Store.Events.{source_matches, get_orphaned_webhook_events}
use antigravity_webhook_hub.Store.Tasks.{has_id, is_running, is_queued, by_priority}
use antigravity_webhook_hub.Store.Rehydrate.{
  Json, Outcome, returns, and_then, rehydrate_orphaned_event,
}

-- The arguments of the sweep.
pub record Options : Type 0 where
  pub stale_running_seconds : ℤ
  pub max_retries : ℤ
  pub auto_retry_interrupted : Bool
  pub source : Option String
  pub limit : ℕ

abbrev pub or_time : Option ℕ → ℕ → ℕ
or_time none u = u
or_time (some s) u = s

-- `COALESCE(started_at, updated_at, …)`: `updated_at` is never NULL.
abbrev pub is_stale : Options → ℕ → Task → Bool
is_stale o now t =
    is_running t
    && ltb_ℤ (max_ℤ o.stale_running_seconds t.timeout_seconds)
        (pos now -ℤ pos (or_time t.started_at t.updated_at))
    && source_matches o.source t.source

abbrev pub retry_limit : Options → Task → ℤ
retry_limit o t =
    max_ℤ t.max_retries (if o.auto_retry_interrupted then o.max_retries else t.max_retries)

abbrev pub may_retry : Options → Task → Bool
may_retry o t = o.auto_retry_interrupted && ltb_ℤ t.retry_count (retry_limit o t)

unfoldable pub set_requeued : ℤ → Text → ℕ → Task → Task
set_requeued max_retries message now t = record t {
  status = queued;
  retry_count = t.retry_count +ℤ pos 1;
  max_retries = max_retries;
  error_message = some message;
  queued_at = some now;
  started_at = none;
  completed_at = none;
  updated_at = now;
}

unfoldable pub set_exhausted : ℕ → Task → Task
set_exhausted now t = record t {
  status = timed_out;
  error_message = some (codes "Stale execution timed out; max retries exhausted");
  completed_at = some now;
  updated_at = now;
}

-- 1. The body of the loop over the stale rows: an UPDATE by the row's id.
unfoldable pub recover_stale : Options → ℕ → Task → Task → Task
unfolding set_requeued set_exhausted
recover_stale o now stale t =
    if may_retry o stale
    then set_requeued (retry_limit o stale)
        (codes "Interrupted by sleep or timeout; auto-recovered by sweeper") now t
    else set_exhausted now t

unfoldable pub recover_stale_tasks : Options → ℕ → List Task → List Task → ℕ × List Task
unfolding recover_stale update_rows
recover_stale_tasks o now [] tasks = (0, tasks)
recover_stale_tasks o now (st ∷ stale) tasks =
    let (n, after) =
      recover_stale_tasks o now stale
        (update_rows (has_id st.task_id) (recover_stale o now st) tasks) in
    (if may_retry o st then suc n else n, after)

-- 2. Rows still in `received`.
abbrev pub is_received : Options → Task → Bool
is_received o t = status_eq t.status Models.received && source_matches o.source t.source

unfoldable pub set_promoted : ℕ → Task → Task
set_promoted now t = record t {
  status = queued;
  queued_at = some now;
  started_at = none;
  completed_at = none;
  updated_at = now;
}

-- `LIKE '%pattern%'`: SQLite ignores the case of ASCII letters.
abbrev pub like : String → Text → Bool
like pattern s = contains (ascii_lower (codes pattern)) (ascii_lower s)

unfoldable pub is_interruption : Text → Bool
unfolding contains
is_interruption message =
    like "restart" message
    || like "interrupted" message
    || like "timed out" message
    || like "timeout" message
    || like "handshake" message
    || like "Connection" message
    || like "network" message

abbrev pub error_like : Option Text → Bool
error_like none = false
error_like (some message) = is_interruption message

-- 4. Failures that the sweep tries again.
abbrev pub is_recoverable : Options → Task → Bool
is_recoverable o t =
    (status_eq t.status failed && error_like t.error_message || status_eq t.status timed_out)
    && ltb_ℤ t.retry_count o.max_retries
    && source_matches o.source t.source

abbrev pub is_retried : Options → Task → Bool
is_retried o t = o.auto_retry_interrupted && is_recoverable o t

unfoldable pub set_recovered_failure : Options → ℕ → Task → Task
unfolding set_requeued
set_recovered_failure o now t =
    set_requeued (max_ℤ t.max_retries o.max_retries)
      (codes "Recovered interrupted failure for re-execution") now t

pub record Report : Type 0 where
  pub recovered_stale_running : ℕ
  pub recovered_received_tasks : ℕ
  pub recovered_orphaned_events : ℕ
  pub recovered_interrupted_failed : ℕ
  pub task_ids : List String

-- 5. The ids to dispatch.
unfoldable pub queued_ids : Options → Db → List String
unfolding by_priority
queued_ids o db =
    map (λ t. t.task_id)
      (take o.limit
        (by_priority [] (keep (λ t. is_queued t && source_matches o.source t.source) db.tasks)))

-- Steps 4 and 5, after the orphans.
unfoldable pub sweep_failures : Options → ℕ → ℕ → ℕ → ℕ → Db → Outcome Report
unfolding set_recovered_failure queued_ids
sweep_failures o now stale promoted orphaned db =
    let db' = record db {
      tasks = update_rows (is_retried o) (set_recovered_failure o now) db.tasks;
    } in
    returns
      (record {
        recovered_stale_running = stale;
        recovered_received_tasks = promoted;
        recovered_orphaned_events = orphaned;
        recovered_interrupted_failed = count_rows (is_retried o) db.tasks;
        task_ids = queued_ids o db';
      })
      db'

module _ (loads : String → Json) (fresh : ℕ → String) where
  -- 3. The loop over the orphaned events; `i` numbers the ids that `uuid4` gives.
  unfoldable pub rehydrate_all : Options → ℕ → ℕ → List Event → Db → Outcome ℕ
  rehydrate_all o now i [] db = returns 0 db
  rehydrate_all o now i (e ∷ es) db =
      and_then
        (rehydrate_orphaned_event loads e.event_id (some e) (fresh i) "cli" o.max_retries (pos 300)
          now db)
        λ created db'.
          and_then (rehydrate_all o now (suc i) es db')
            λ n db''. returns (elim created [ none ↦ n | some _ ↦ suc n ]) db''

  unfoldable pub sweep_and_requeue_unprocessed : Options → ℕ → Db → Outcome Report
  unfolding recover_stale_tasks set_promoted rehydrate_all sweep_failures
  sweep_and_requeue_unprocessed o now db =
      let (stale, after) = recover_stale_tasks o now (keep (is_stale o now) db.tasks) db.tasks in
      let promoted = count_rows (is_received o) after in
      let swept = record db { tasks = update_rows (is_received o) (set_promoted now) after } in
      and_then (rehydrate_all o now 0 (get_orphaned_webhook_events o.source o.limit swept) swept)
        λ orphaned db'. sweep_failures o now stale promoted orphaned db'
