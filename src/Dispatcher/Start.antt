-- ===== src/Dispatcher/Start.antt =====
-- The start of `execute_task` of hub/dispatcher.py, up to the transition to `running`: the read of
-- the task, the return for a task that is finished, and the compare-and-swap from the status that
-- was read. Another worker may act between the read and the swap, so the swap is a function of
-- the row that was read. The audit row of `insert_execution` and the broadcast are left out.
pub mod Claims
use antigravity_webhook_hub.Prelude.{
  ℕ, String, Bool, Option, none, some, ◌++◌, true, false, if◌then◌else◌,
}
use antigravity_webhook_hub.Prelude.Int.{ℤ, pos, negsuc, ◌+ℤ◌}
use antigravity_webhook_hub.Text.{Text, codes}
use antigravity_webhook_hub.Models.{TaskStatus, running, failed, is_terminal}
use antigravity_webhook_hub.Store.Rows.{Task, Db}
use antigravity_webhook_hub.Store.Tasks.{get_task, update_task_status_cas}

pub record ExecutionResult : Type 0 where
  pub task_id : String
  pub status : TaskStatus
  pub exit_code : Option ℤ
  pub error_message : Option Text

-- The method returns, or the task is executed as the attempt of the given number.
pub data Start : Type 0 where
  stops : ExecutionResult → Start
  runs : ℤ → Start

abbrev pub not_found : String → ExecutionResult
not_found task_id = record {
  task_id = task_id;
  status = failed;
  exit_code = some (negsuc 0);
  error_message = some (codes "Task " ++ codes task_id ++ codes " not found in database");
}

abbrev pub as_stored : Task → ExecutionResult
as_stored t = record {
  task_id = t.task_id;
  status = t.status;
  exit_code = t.exit_code;
  error_message = t.error_message;
}

-- The answer to a swap that failed, from the row as it is now.
abbrev pub lost : String → Option Task → ExecutionResult
lost task_id none = record {
  task_id = task_id;
  status = failed;
  exit_code = none;
  error_message = some (codes "CAS state transition to running failed (concurrent update)");
}
lost task_id (some t) = record {
  task_id = task_id;
  status = t.status;
  exit_code = t.exit_code;
  error_message = some (codes "CAS state transition to running failed (concurrent update)");
}

abbrev pub swapped : String → Task → Bool × Db → Start × Db
swapped task_id t (success, db) =
    if success
    then (runs (t.retry_count +ℤ pos 1), db)
    else (stops (lost task_id (get_task task_id db)), db)

-- A finished task is left alone; otherwise the result of the swap counts.
abbrev pub proceed : Bool → String → Task → Db → Bool × Db → Start × Db
proceed true task_id t db swap = (stops (as_stored t), db)
proceed false task_id t db swap = swapped task_id t swap

-- Step 2, for the row that step 1 read.
unfoldable pub claim : String → ℕ → Task → Db → Start × Db
claim task_id now t db =
    proceed (is_terminal t.status) task_id t db
      (update_task_status_cas task_id t.status running none none now db)

abbrev pub claim_read : Option Task → String → ℕ → Db → Start × Db
claim_read none task_id now db = (stops (not_found task_id), db)
claim_read (some t) task_id now db = claim task_id now t db

unfoldable pub start_task : String → ℕ → Db → Start × Db
unfolding claim
start_task task_id now db = claim_read (get_task task_id db) task_id now db
