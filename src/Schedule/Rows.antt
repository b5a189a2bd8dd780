-- ===== src/Schedule/Rows.antt =====
-- The methods of hub/db.py on `scheduled_tasks`. Times are ISO texts: SQLite's `<=` on texts and
-- its `datetime` are the parameters `le` and `datetime`.
use antigravity_webhook_hub.Prelude.{
  ℕ, String, str_eq, Bool, false, not, ◌&&◌, ◌||◌, Option, none, some, List, [], ◌∷◌, ◌++◌, any,
  find, keep, ◌==◌, if◌then◌else◌,
}
use antigravity_webhook_hub.Prelude.Int.{ℤ, pos, ◌+ℤ◌}
use antigravity_webhook_hub.Store.Tasks.{overwrite}

pub data ScheduleType : Type 0 where
  once recurring : ScheduleType

pub data ScheduleStatus : Type 0 where
  active paused completed cancelled failed : ScheduleStatus

abbrev ordinal : ScheduleStatus → ℕ
ordinal active = 0
ordinal paused = 1
ordinal completed = 2
ordinal cancelled = 3
ordinal failed = 4

abbrev pub schedule_status_eq : ScheduleStatus → ScheduleStatus → Bool
schedule_status_eq s t = ordinal s == ordinal t

pub record Schedule : Type 0 where
  pub schedule_id : String
  pub name : String
  pub source : String
  pub schedule_type : ScheduleType
  pub cron_expression : Option String
  pub scheduled_at : Option String
  pub next_run_at : String
  pub last_run_at : Option ℕ
  pub timezone : String
  pub action_type : String
  pub command : Option String
  pub target_action : Option String
  pub action_params_json : String
  pub status : ScheduleStatus
  pub max_runs : Option ℤ
  pub total_runs : ℤ
  pub last_task_id : Option String
  pub last_error : Option String
  pub updated_at : ℕ

abbrev pub named : String → Schedule → Bool
named schedule_id s = str_eq s.schedule_id schedule_id

-- The row is the record with the defaults of `insert_schedule` filled in; `none` is the
-- IntegrityError of the primary key.
unfoldable pub insert_schedule : Schedule → List Schedule → Option (List Schedule)
insert_schedule s rows = if any (named s.schedule_id) rows then none else some (rows ++ s ∷ [])

unfoldable pub get_schedule : String → List Schedule → Option Schedule
get_schedule schedule_id rows = find (named schedule_id) rows

-- UPDATE … WHERE schedule_id = ?, with the rowcount as a Boolean.
unfoldable pub update_by_id : String → (Schedule → Schedule) → List Schedule → List Schedule
update_by_id schedule_id change [] = []
update_by_id schedule_id change (s ∷ rows) =
    let rest = update_by_id schedule_id change rows in
    if named schedule_id s then change s ∷ rest else s ∷ rest

unfoldable pub set_schedule_status : ScheduleStatus → Option String → ℕ → Schedule → Schedule
set_schedule_status status last_error now s = record s {
  status = status;
  last_error = overwrite last_error s.last_error;
  updated_at = now;
}

unfoldable pub update_schedule_status :
    String → ScheduleStatus → Option String → ℕ → List Schedule → Bool × List Schedule
unfolding update_by_id set_schedule_status
update_schedule_status schedule_id status last_error now rows = (
  any (named schedule_id) rows,
  update_by_id schedule_id (set_schedule_status status last_error now) rows,
)

-- COALESCE(?, column)
abbrev pub coalesce {ℓ} : {A : Type ℓ} → Option A → A → A
coalesce none old = old
coalesce (some new) old = new

unfoldable pub set_executed :
    String → Option String → Option ScheduleStatus → Option String → ℕ → Schedule → Schedule
set_executed task_id next_run_at status error now s = record s {
  total_runs = s.total_runs +ℤ pos 1;
  last_run_at = some now;
  last_task_id = some task_id;
  next_run_at = coalesce next_run_at s.next_run_at;
  status = coalesce status s.status;
  last_error = error;
  updated_at = now;
}

unfoldable pub record_schedule_execution :
    String
    → String
    → Option String
    → Option ScheduleStatus
    → Option String
    → ℕ
    → List Schedule
    → Bool × List Schedule
unfolding update_by_id set_executed
record_schedule_execution schedule_id task_id next_run_at status error now rows = (
  any (named schedule_id) rows,
  update_by_id schedule_id (set_executed task_id next_run_at status error now) rows,
)

unfoldable pub delete_schedule : String → List Schedule → Bool × List Schedule
delete_schedule schedule_id rows =
    (any (named schedule_id) rows, keep (λ s. not (named schedule_id s)) rows)

abbrev at_or_before : (String → String → Bool) → Option String → Option String → Bool
at_or_before le none b = false
at_or_before le (some a) none = false
at_or_before le (some a) (some b) = le a b

module _ (le : String → String → Bool) where
  -- ORDER BY next_run_at ASC; rows of the same time stay in the order of insertion.
  unfoldable pub insert_by_next_run : Schedule → List Schedule → List Schedule
  insert_by_next_run s [] = s ∷ []
  insert_by_next_run s (u ∷ us) =
      let rest = insert_by_next_run s us in
      if le u.next_run_at s.next_run_at then u ∷ rest else s ∷ u ∷ us

  unfoldable pub by_next_run : List Schedule → List Schedule → List Schedule
  unfolding insert_by_next_run
  by_next_run sorted [] = sorted
  by_next_run sorted (s ∷ rows) = by_next_run (insert_by_next_run s sorted) rows

  module _ (datetime : String → Option String) where
    abbrev pub is_due : String → Schedule → Bool
    is_due as_of s =
        schedule_status_eq s.status active
        && (le s.next_run_at as_of || at_or_before le (datetime s.next_run_at) (datetime as_of))

    unfoldable pub get_due_schedules : String → List Schedule → List Schedule
    unfolding by_next_run
    get_due_schedules as_of rows = by_next_run [] (keep (is_due as_of) rows)
