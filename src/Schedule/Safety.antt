-- ===== src/Schedule/Safety.antt =====
-- What a sweep and a trigger of hub/scheduler.py do to the rows of `scheduled_tasks`.
use antigravity_webhook_hub.Prelude.{
  ℕ, suc, String, str_eq, eq_iff, ◌≡◌, ◌⊎◌, refl, sym, ap, ◌∙◌, Bool, true, false, ◌||◌, Option,
  none, some, List, [], ◌∷◌, any, find, keep, if◌then◌else◌, arith, Bool-cases, inl, inr,
}
use antigravity_webhook_hub.Prelude.Int.{pos, ◌+ℤ◌}
use antigravity_webhook_hub.Store.Rows.{Db}
use antigravity_webhook_hub.Store.Events.{insert_webhook_event}
use antigravity_webhook_hub.Store.Tasks.{insert_task}
use antigravity_webhook_hub.Schedule.Rows.{
  Schedule, ScheduleType, once, recurring, active, completed, named, is_due, get_schedule,
  update_by_id, set_executed, record_schedule_execution, get_due_schedules, insert_by_next_run,
  by_next_run,
}
use antigravity_webhook_hub.Schedule.Engine.{
  Hub, Fired, fired, runs_out, execute_schedule_trigger, trigger_all, sweep_due, trigger_now,
  hub_after, after_insertion, event_record, task_record, status_after, planned, next_of, follow_up,
  truthy_text,
}

-- A schedule's id stands in one row: the primary key.
abbrev pub Keyed : List Schedule → Type 0
Keyed [] = Unit
Keyed (s ∷ rows) = (any (named s.schedule_id) rows ≡ false) × Keyed rows

find-update_other :
    (id other : String) (change : Schedule → Schedule) (rows : List Schedule)
    → str_eq other id ≡ false
    → ((s : Schedule) → (change s).schedule_id ≡ s.schedule_id)
    → find (named id) (update_by_id other change rows) ≡ find (named id) rows
unfolding update_by_id
find-update_other id other change [] h k = refl
find-update_other id other change (s ∷ rows) h k = elim (Bool-cases (named other s)) [
  | inl e ↦
      rw (e, k s)
        (ground (arith, eq_iff s.schedule_id other, find-update_other id other change rows h k))
  | inr e ↦ rw (e, find-update_other id other change rows h k) refl
]

changed_first :
    (id : String) (change : Schedule → Schedule) (r : Schedule) (rows : List Schedule)
    (s : Schedule)
    → named id r ≡ true
    → (change r).schedule_id ≡ r.schedule_id
    → some r ≡ some s
    → find (named id) (update_by_id id change (r ∷ rows)) ≡ some (change s)
unfolding update_by_id
changed_first id change r rows s e k h =
    let still : str_eq (change r).schedule_id id ≡ true = ap (λ i. str_eq i id) k ∙ e in
    let same : some (change r) ≡ some (change s) = cc in rw (e, still) same

find-update_self :
    (id : String) (change : Schedule → Schedule) (rows : List Schedule) (s : Schedule)
    → find (named id) rows ≡ some s
    → ((r : Schedule) → (change r).schedule_id ≡ r.schedule_id)
    → find (named id) (update_by_id id change rows) ≡ some (change s)
unfolding update_by_id
find-update_self id change [] s h k = cc
find-update_self id change (r ∷ rows) s h k = elim (Bool-cases (named id r)) [
  | inl e ↦ changed_first id change r rows s e (k r) (rw e at h)
  | inr e ↦ rw (e, e) (find-update_self id change rows s (rw e at h) k)
]

any-insert_by_next_run :
    (le : String → String → Bool) (p : Schedule → Bool) (s : Schedule) (rows : List Schedule)
    → any p (insert_by_next_run le s rows) ≡ p s || any p rows
unfolding insert_by_next_run
any-insert_by_next_run le p s [] = refl
any-insert_by_next_run le p s (u ∷ rows) = ground (arith, any-insert_by_next_run le p s rows)

any-by_next_run :
    (le : String → String → Bool) (p : Schedule → Bool) (sorted rows : List Schedule)
    → any p (by_next_run le sorted rows) ≡ any p sorted || any p rows
unfolding by_next_run
any-by_next_run le p sorted [] = ground arith
any-by_next_run le p sorted (s ∷ rows) =
    any-by_next_run le p (insert_by_next_run le s sorted) rows
    ∙ rw (any-insert_by_next_run le p s sorted) (ground arith)

absent-keep :
    (test : Schedule → Bool) (id : String) (rows : List Schedule)
    → any (named id) rows ≡ false
    → any (named id) (keep test rows) ≡ false
absent-keep test id [] h = refl
absent-keep test id (s ∷ rows) h = ground (arith, absent-keep test id rows)

failed_test :
    (test : Schedule → Bool) (r s : Schedule) → test s ≡ false → some r ≡ some s → test r ≡ false
failed_test test r s k h = ap (λ o. elim o [ none ↦ false | some x ↦ test x ]) h ∙ k

same_id :
    (a b : String) (rows : List Schedule)
    → a ≡ b
    → any (named a) rows ≡ false
    → any (named b) rows ≡ false
same_id a b rows e h = rw (sym e) h

-- The row of an id that fails a test is not among those that pass it.
not_kept :
    (test : Schedule → Bool) (id : String) (rows : List Schedule) (s : Schedule)
    → Keyed rows
    → find (named id) rows ≡ some s
    → test s ≡ false
    → any (named id) (keep test rows) ≡ false
not_kept test id [] s d h k = cc
not_kept test id (r ∷ rows) s d h k = elim (Bool-cases (named id r)) [
  | inl e ↦
      rw (failed_test test r s k (rw e at h)) (
        absent-keep test id rows
          (same_id r.schedule_id id rows ((eq_iff r.schedule_id id).0 e) d.0))
  | inr e ↦ ground (arith, e, not_kept test id rows s d.1 (rw e at h) k)
]

some_injective : {A : Type 0} {a b : A} → some a ≡ some b → a ≡ b
some_injective h = cc

finished :
    (kind : ScheduleType) (has_cron : Bool) (next : Option String) (out : Bool)
    → (kind ≡ once) ⊎ (out ≡ true)
    → (if out then completed else (follow_up kind has_cron next).1) ≡ completed
finished once has_cron next true c = refl
finished once has_cron next false c = refl
finished recurring has_cron next true c = refl
finished recurring has_cron next false (inl e) = cc
finished recurring has_cron next false (inr e) = cc

module _ (event_name task_name : ℕ → String) (run_key : Schedule → ℕ → String → String)
    (payload_of : Schedule → String) (next_run : String → String → Option String) where
  abbrev trigger : Schedule → ℕ → ℕ → Hub → Fired
  trigger = execute_schedule_trigger event_name task_name run_key payload_of next_run

  insertion-other :
      (id : String) (s : Schedule) (i now : ℕ) (hub : Hub) (o : Option Db)
      → str_eq s.schedule_id id ≡ false
      → get_schedule id
          (hub_after (
            after_insertion event_name task_name run_key payload_of next_run s i now hub
              o)).schedules
        ≡ get_schedule id hub.schedules
  unfolding get_schedule record_schedule_execution
  insertion-other id s i now hub none h = refl
  insertion-other id s i now hub (some db) h =
      find-update_other id s.schedule_id
        (set_executed (task_name i) (planned next_run s).0 (some (status_after next_run s)) none
          now)
        hub.schedules (h) (λ r. unfold set_executed in refl)

  trigger-other :
      (id : String) (s : Schedule) (i now : ℕ) (hub : Hub)
      → str_eq s.schedule_id id ≡ false
      → get_schedule id (hub_after (trigger s i now hub)).schedules ≡ get_schedule id hub.schedules
  unfolding execute_schedule_trigger
  trigger-other id s i now hub h =
      let stored =
        insert_webhook_event (event_record event_name task_name run_key payload_of s i now)
          hub.db in
      insertion-other id s i now (record hub { db = stored.1 })
        (insert_task (task_record event_name task_name run_key payload_of s i now) stored.1) h

  trigger_all-other :
      (id : String) (i now : ℕ) (due : List Schedule) (hub : Hub)
      → any (named id) due ≡ false
      → get_schedule id
          (trigger_all event_name task_name run_key payload_of next_run i now due hub).1.schedules
        ≡ get_schedule id hub.schedules
  unfolding trigger_all
  trigger_all-other id i now [] hub h = refl
  trigger_all-other id i now (s ∷ due) hub h =
      trigger_all-other id (suc i) now due (hub_after (trigger s i now hub)) (ground arith)
      ∙ trigger-other id s i now hub (ground arith)

  -- A schedule that is not due when a sweep begins (one that is not active never is) has the same
  -- row after the sweep. Schedule ids are distinct.
  pub sweep_due-not_due :
      (le : String → String → Bool) (datetime : String → Option String) (as_of : String) (now : ℕ)
      (hub : Hub) (s : Schedule)
      → Keyed hub.schedules
      → get_schedule s.schedule_id hub.schedules ≡ some s
      → is_due le datetime as_of s ≡ false
      → get_schedule s.schedule_id
          (sweep_due event_name task_name run_key payload_of next_run le datetime as_of now
            hub).1.schedules
        ≡ some s
  unfolding sweep_due get_due_schedules
  sweep_due-not_due le datetime as_of now hub s d h k =
      trigger_all-other s.schedule_id 0 now
        (by_next_run le [] (keep (is_due le datetime as_of) hub.schedules)) hub
        (any-by_next_run le (named s.schedule_id) [] (keep (is_due le datetime as_of) hub.schedules)
          ∙ not_kept (is_due le datetime as_of) s.schedule_id hub.schedules s d
              (unfold get_schedule in h) k)
      ∙ h

  -- The row of a schedule after a trigger that came to its end.
  abbrev row_after : Schedule → ℕ → ℕ → Schedule
  row_after s i now =
      set_executed (task_name i) (planned next_run s).0 (some (status_after next_run s)) none now s

  insertion-row :
      (s : Schedule) (i now : ℕ) (hub after : Hub) (o : Option Db) (t : String)
      → get_schedule s.schedule_id hub.schedules ≡ some s
      → after_insertion event_name task_name run_key payload_of next_run s i now hub o
        ≡ fired t after
      → get_schedule s.schedule_id after.schedules ≡ some (row_after s i now)
  unfolding get_schedule record_schedule_execution
  insertion-row s i now hub after none t h e = cc
  insertion-row s i now hub after (some db) t h e =
      ap (λ f. get_schedule s.schedule_id (hub_after f).schedules) (sym e)
      ∙ find-update_self s.schedule_id
          (set_executed (task_name i) (planned next_run s).0 (some (status_after next_run s)) none
            now)
          hub.schedules s h (λ r. unfold set_executed in refl)

  -- A trigger that came to its end counts one run of the schedule.
  pub trigger-row :
      (s : Schedule) (i now : ℕ) (hub after : Hub) (t : String)
      → get_schedule s.schedule_id hub.schedules ≡ some s
      → trigger s i now hub ≡ fired t after
      → get_schedule s.schedule_id after.schedules ≡ some (row_after s i now)
  unfolding execute_schedule_trigger
  trigger-row s i now hub after t h e =
      let stored =
        insert_webhook_event (event_record event_name task_name run_key payload_of s i now)
          hub.db in
      insertion-row s i now (record hub { db = stored.1 }) after
        (insert_task (task_record event_name task_name run_key payload_of s i now) stored.1) t h e

  insertion-id :
      (s : Schedule) (i now : ℕ) (hub after : Hub) (o : Option Db) (t : String)
      → after_insertion event_name task_name run_key payload_of next_run s i now hub o
        ≡ fired t after
      → task_name i ≡ t
  insertion-id s i now hub after none t e = cc
  insertion-id s i now hub after (some db) t e = cc

  trigger-id :
      (s : Schedule) (i now : ℕ) (hub after : Hub) (t : String)
      → trigger s i now hub ≡ fired t after
      → task_name i ≡ t
  unfolding execute_schedule_trigger
  trigger-id s i now hub after t e =
      let stored =
        insert_webhook_event (event_record event_name task_name run_key payload_of s i now)
          hub.db in
      insertion-id s i now (record hub { db = stored.1 }) after
        (insert_task (task_record event_name task_name run_key payload_of s i now) stored.1) t e

  trigger_now-some :
      (id : String) (s : Schedule) (now : ℕ) (hub : Hub) (f : Fired)
      → get_schedule id hub.schedules ≡ some s
      → trigger_now event_name task_name run_key payload_of next_run id now hub ≡ some f
      → trigger s 0 now hub ≡ f
  unfolding trigger_now
  trigger_now-some id s now hub f h e = some_injective (rw (trigger_now, h) at e)

  -- A trigger that comes to its end completes a one-off schedule, and one whose run reaches its
  -- limit; it counts the run and records the id of the task.
  trigger-completes :
      (s : Schedule) (i now : ℕ) (hub after : Hub) (t : String)
      → get_schedule s.schedule_id hub.schedules ≡ some s
      → trigger s i now hub ≡ fired t after
      → (s.schedule_type ≡ once) ⊎ (runs_out s.max_runs (s.total_runs +ℤ pos 1) ≡ true)
      → (r : Schedule) × (get_schedule s.schedule_id after.schedules ≡ some r)
        × (r.status ≡ completed)
        × (r.total_runs ≡ s.total_runs +ℤ pos 1)
        × (r.last_task_id ≡ some t)
  trigger-completes s i now hub after t h e c = (
    row_after s i now,
    trigger-row s i now hub after t h e,
    unfold set_executed in
        finished s.schedule_type (truthy_text s.cron_expression) (next_of next_run s)
          (runs_out s.max_runs (s.total_runs +ℤ pos 1)) c,
    unfold set_executed in refl,
    unfold set_executed in ap some (trigger-id s i now hub after t e),
  )

  -- A recurring schedule with a cron expression that is triggered by hand is active afterwards,
  -- with its next run set, whatever its status was, if the trigger comes to its end, the next run
  -- can be computed and the limit of runs is not reached.
  trigger_now-activates :
      (s : Schedule) (cron at : String) (now : ℕ) (hub after : Hub) (t : String)
      → get_schedule s.schedule_id hub.schedules ≡ some s
      → s.schedule_type ≡ recurring
      → s.cron_expression ≡ some cron
      → str_eq cron "" ≡ false
      → next_run cron s.timezone ≡ some at
      → runs_out s.max_runs (s.total_runs +ℤ pos 1) ≡ false
      → trigger_now event_name task_name run_key payload_of next_run s.schedule_id now hub
        ≡ some (fired t after)
      → (r : Schedule) × (get_schedule s.schedule_id after.schedules ≡ some r)
        × (r.status ≡ active)
        × (r.next_run_at ≡ at)
  trigger_now-activates s cron at now hub after t h kind cron_is nonempty next limit e = (
    row_after s 0 now,
    trigger-row s 0 now hub after t h
        (trigger_now-some s.schedule_id s now hub (fired t after) h e),
    unfold set_executed in rw (limit, kind, cron_is, nonempty, next) refl,
    unfold set_executed in rw (kind, cron_is, nonempty, next) refl,
  )
