-- ===== src/Store/Logs.antt =====
-- The table `execution_logs` of hub/db.py, `_record_log` of hub/dispatcher.py, which fills it, and
-- the backlog that hub/broker.py reads from it. Ids stay below the largest of SQLite, 2 ^ 63 - 1.
use antigravity_webhook_hub.Prelude.{
  ℕ, suc, String, str_eq, Bool, ◌&&◌, Option, none, some, List, [], ◌∷◌, ◌++◌, any, keep, take, leb,
  ltb, if◌then◌else◌,
}
use antigravity_webhook_hub.Prelude.Int.{ℤ, pos, negsuc, ltb_ℤ}
use antigravity_webhook_hub.Text.{Text, parse_int}
use antigravity_webhook_hub.Store.Rows.{Task}
use antigravity_webhook_hub.Store.Tasks.{has_id}

pub record Log : Type 0 where
  pub log_id : ℕ
  pub execution_id : String
  pub task_id : String
  pub stream_type : String
  pub chunk : String
  pub timestamp : ℕ

-- The rows, and the last id that AUTOINCREMENT gave out.
pub record Logs : Type 0 where
  pub rows : List Log
  pub last_id : ℕ

abbrev or_blank : Option String → String
or_blank none = ""
or_blank (some s) = s

abbrev pub of_task : String → Log → Bool
of_task task_id r = str_eq r.task_id task_id

-- `none` is the IntegrityError of the foreign key on the task.
unfoldable pub insert_execution_log :
    String → String → String → Option String → ℕ → List Task → Logs → Option (ℕ × Logs)
insert_execution_log task_id stream chunk execution_id now tasks t =
    if any (has_id task_id) tasks
    then some (
      suc t.last_id,
      record {
        rows =
            t.rows
            ++ record {
              log_id = suc t.last_id;
              execution_id = or_blank execution_id;
              task_id = task_id;
              stream_type = stream;
              chunk = chunk;
              timestamp = now;
            }
              ∷ [];
        last_id = suc t.last_id;
      },
    )
    else none

-- ORDER BY log_id ASC
abbrev insert_log : Log → List Log → List Log
insert_log r [] = r ∷ []
insert_log r (s ∷ ss) =
    let rest = insert_log r ss in if leb r.log_id s.log_id then r ∷ s ∷ ss else s ∷ rest

unfoldable pub by_log_id : List Log → List Log
by_log_id [] = []
by_log_id (r ∷ rs) = insert_log r (by_log_id rs)

unfoldable pub get_execution_logs : String → Logs → List Log
unfolding by_log_id
get_execution_logs task_id t = by_log_id (keep (of_task task_id) t.rows)

-- `int(since_id)`, or 0 if it raises.
unfoldable pub since_int : Text → ℤ
unfolding parse_int
since_int since_id = elim (parse_int since_id) [ none ↦ pos 0 | some n ↦ n ]

abbrev pub is_behind : String → ℤ → Log → Bool
is_behind task_id since r = of_task task_id r && ltb_ℤ since (pos r.log_id)

-- The integers that SQLite takes; any other makes the query raise.
abbrev pub fits : ℤ → Bool
fits (pos n) = ltb n 9223372036854775808
fits (negsuc n) = ltb n 9223372036854775808

unfoldable pub get_task_backlog : String → Text → ℕ → Logs → List Log
unfolding by_log_id since_int
get_task_backlog task_id since_id limit t =
    if fits (since_int since_id)
    then take limit (by_log_id (keep (is_behind task_id (since_int since_id)) t.rows))
    else []

-- `_record_log` swallows the error.
unfoldable pub record_log : String → String → String → Option String → ℕ → List Task → Logs → Logs
unfolding insert_execution_log
record_log task_id stream chunk execution_id now tasks t =
    elim (insert_execution_log task_id stream chunk execution_id now tasks t) [
      | none ↦ t
      | some p ↦ p.1
    ]
