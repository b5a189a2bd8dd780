-- ===== src/Store/Tasks.antt =====
-- The methods of hub/db.py on `tasks`: insertion, queries, and the compare-and-swap transitions.
use antigravity_webhook_hub.Prelude.{
  ℕ, String, str_eq, Bool, not, ◌&&◌, ◌||◌, Option, none, some, List, [], ◌∷◌, ◌++◌, any, find,
  keep, leb, if◌then◌else◌,
}
use antigravity_webhook_hub.Prelude.Int.{ℤ, pos, ltb_ℤ, ◌+ℤ◌}
use antigravity_webhook_hub.Text.{Text, codes}
use antigravity_webhook_hub.Models.{TaskStatus, queued, running, failed, status_eq, is_terminal}
use antigravity_webhook_hub.Store.Rows.{
  Event, Task, Db, sql_eq, references, task_allowed, auto_events, create_event, update_rows,
  count_rows,
}

-- `none` is the IntegrityError, which takes back the event of the trigger too; the row holds the defaults that `insert_task` fills in.
unfoldable pub insert_task : Task → Db → Option Db
unfolding auto_events
insert_task t db =
    if task_allowed t (create_event t db)
    then some (record (create_event t db) { tasks = db.tasks ++ t ∷ [] })
    else none

abbrev pub has_id : String → Task → Bool
has_id task_id t = str_eq t.task_id task_id

unfoldable pub get_task : String → Db → Option Task
get_task task_id db = find (has_id task_id) db.tasks

-- ORDER BY created_at DESC LIMIT 1, with the later row first among equal times.
unfoldable pub latest_task : List Task → Option Task
latest_task [] = none
latest_task (t ∷ ts) = elim (latest_task ts) [
  | none ↦ some t
  | some l ↦ if leb t.created_at l.created_at then some l else some t
]

unfoldable pub get_task_by_event_id : String → Db → Option Task
unfolding latest_task
get_task_by_event_id event_id db = latest_task (keep (λ t. sql_eq t.event_id event_id) db.tasks)

-- The JOIN: the task's event passes the test.
abbrev joins : (Event → Bool) → Db → Task → Bool
joins test db t = any (λ e. references t e && test e) db.events

unfoldable pub get_task_by_idempotency : String → String → Db → Option Task
unfolding latest_task
get_task_by_idempotency source key db =
    latest_task
      (keep (joins (λ e. str_eq e.source source && sql_eq e.idempotency_key key) db) db.tasks)

unfoldable pub get_task_by_payload_hash : String → String → Db → Option Task
unfolding latest_task
get_task_by_payload_hash source hash db =
    latest_task
      (keep (joins (λ e. str_eq e.source source && str_eq e.payload_hash hash) db) db.tasks)

-- CASE WHEN ? IS NOT NULL THEN ? ELSE column END
abbrev pub overwrite {ℓ} : {A : Type ℓ} → Option A → Option A → Option A
overwrite none old = old
overwrite (some new) old = some new

-- The SET list of `update_task_status_cas`.
unfoldable pub set_status : TaskStatus → Option ℤ → Option Text → ℕ → Task → Task
set_status new_status exit_code error_message now t = record t {
  status = new_status;
  updated_at = now;
  queued_at = if status_eq new_status queued then some now else t.queued_at;
  started_at =
      if status_eq new_status running
      then some now
      else if status_eq new_status queued
      then none
      else t.started_at;
  completed_at =
      if is_terminal new_status
      then some now
      else if status_eq new_status queued
      then none
      else t.completed_at;
  exit_code = overwrite exit_code t.exit_code;
  error_message = overwrite error_message t.error_message;
}

abbrev pub expects : String → TaskStatus → Task → Bool
expects task_id expected t = has_id task_id t && status_eq t.status expected

unfoldable pub update_task_status_cas :
    String → TaskStatus → TaskStatus → Option ℤ → Option Text → ℕ → Db → Bool × Db
update_task_status_cas task_id expected new_status exit_code error_message now db = (
  any (expects task_id expected) db.tasks,
  record db {
    tasks =
        update_rows (expects task_id expected) (set_status new_status exit_code error_message now)
          db.tasks;
  },
)

-- The SET list of `rerun_task`.
unfoldable pub set_rerun : ℕ → Task → Task
set_rerun now t = record t {
  status = queued;
  retry_count = t.retry_count +ℤ pos 1;
  exit_code = none;
  error_message = none;
  started_at = none;
  completed_at = none;
  queued_at = some now;
  updated_at = now;
}

unfoldable pub rerun_task : String → ℕ → Db → Bool × Db
rerun_task task_id now db = (
  any (has_id task_id) db.tasks,
  record db { tasks = update_rows (has_id task_id) (set_rerun now) db.tasks },
)

abbrev pub is_running : Task → Bool
is_running t = status_eq t.status running

abbrev pub has_retries : Task → Bool
has_retries t = ltb_ℤ t.retry_count t.max_retries

-- The SET list of `recover_orphaned_tasks`.
unfoldable pub set_recovered : ℕ → Task → Task
set_recovered now t = record t {
  status = if has_retries t then queued else failed;
  retry_count = if has_retries t then t.retry_count +ℤ pos 1 else t.retry_count;
  error_message = some (codes "Interrupted by server restart");
  queued_at = if has_retries t then some now else t.queued_at;
  started_at = if has_retries t then none else t.started_at;
  completed_at = if has_retries t then none else some now;
  updated_at = now;
}

unfoldable pub recover_orphaned_tasks : ℕ → Db → ℕ × Db
unfolding update_rows count_rows set_recovered
recover_orphaned_tasks now db = (
  count_rows is_running db.tasks,
  record db { tasks = update_rows is_running (set_recovered now) db.tasks },
)

-- ORDER BY priority DESC, created_at ASC.
abbrev pub runs_before : Task → Task → Bool
runs_before t u =
    ltb_ℤ u.priority t.priority
    || not (ltb_ℤ t.priority u.priority) && leb t.created_at u.created_at

-- Rows that the order does not tell apart stay in the order of insertion, as in the index.
unfoldable pub insert_by_priority : Task → List Task → List Task
insert_by_priority t [] = t ∷ []
insert_by_priority t (u ∷ us) =
    let rest = insert_by_priority t us in if runs_before u t then u ∷ rest else t ∷ u ∷ us

unfoldable pub by_priority : List Task → List Task → List Task
unfolding insert_by_priority
by_priority sorted [] = sorted
by_priority sorted (t ∷ ts) = by_priority (insert_by_priority t sorted) ts

abbrev pub is_queued : Task → Bool
is_queued t = status_eq t.status queued

unfoldable pub get_queued_tasks : Db → List Task
unfolding by_priority
get_queued_tasks db = by_priority [] (keep is_queued db.tasks)
