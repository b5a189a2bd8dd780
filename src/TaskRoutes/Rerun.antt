-- ===== src/TaskRoutes/Rerun.antt =====
-- What the handlers of hub/routes/tasks.py do to the store and to the dispatcher.
use antigravity_webhook_hub.Prelude.{
  ℕ, String, str_eq, eq_iff, ◌≡◌, refl, sym, ap, ◌∙◌, inl, inr, true, false, ◌++◌, none, some, List,
  [], ◌∷◌, find, find-holds, arith, Bool-cases, Option-cases,
}
use antigravity_webhook_hub.Prelude.Int.{pos, ◌+ℤ◌}
use antigravity_webhook_hub.Models.{queued}
use antigravity_webhook_hub.Store.Rows.{Task, Db}
use antigravity_webhook_hub.Store.Tasks.{has_id, get_task, set_rerun, rerun_task}
use antigravity_webhook_hub.Store.Updates.{
  Distinct, rewrite_if, map_option, find-update_rows, Distinct-update_rows,
}
use antigravity_webhook_hub.Dispatcher.{Dispatcher, enqueue, finish, member}
use antigravity_webhook_hub.Dispatcher.Exclusion.{
  IsExclusive, known, runs-absent, member-remove_self,
}
use antigravity_webhook_hub.Dispatcher.Execute.{Outcome, finish_task}
use antigravity_webhook_hub.Dispatcher.Execute.Settles.{finish_task-lost}
use antigravity_webhook_hub.Dispatcher.Boot.{Process}
use antigravity_webhook_hub.TaskRoutes

get_task-rerun :
    (i j : String) (now : ℕ) (db : Db)
    → get_task j (rerun_task i now db).1
      ≡ map_option (rewrite_if (has_id i) (set_rerun now)) (get_task j db)
unfolding rerun_task get_task
get_task-rerun i j now db =
    find-update_rows (has_id i) (set_rerun now) (λ t. unfold set_rerun in refl) j db.tasks

Distinct-rerun :
    (i : String) (now : ℕ) (db : Db) → Distinct db.tasks → Distinct (rerun_task i now db).1.tasks
unfolding rerun_task
Distinct-rerun i now db d =
    Distinct-update_rows (has_id i) (set_rerun now) (λ t. unfold set_rerun in refl) db.tasks d

rerun-row :
    (i : String) (now : ℕ) (t : Task) (db : Db)
    → get_task i db ≡ some t
    → get_task i (rerun_task i now db).1 ≡ some (set_rerun now t)
rerun-row i now t db found =
    get_task-rerun i i now db
    ∙ ap (map_option (rewrite_if (has_id i) (set_rerun now))) found
    ∙ rw (find-holds (has_id i) db.tasks t (unfold get_task in found)) refl

pub enqueue-known : (i : String) (d : Dispatcher) → member i (enqueue i d).enqueued_task_ids ≡ true
unfolding enqueue
enqueue-known i d = ground (arith, eq_iff i i)

-- What a task is when it is to run again: queued, with one retry more and no trace of a run; all
-- else is as it was.
pub record IsRequeued (now : ℕ) (t r : Task) : Type 0 where
  pub status : r.status ≡ queued
  pub retry_count : r.retry_count ≡ t.retry_count +ℤ pos 1
  pub exit_code : r.exit_code ≡ none
  pub error_message : r.error_message ≡ none
  pub started_at : r.started_at ≡ none
  pub completed_at : r.completed_at ≡ none
  pub queued_at : r.queued_at ≡ some now
  pub updated_at : r.updated_at ≡ now
  pub task_id : r.task_id ≡ t.task_id
  pub event_id : r.event_id ≡ t.event_id
  pub source : r.source ≡ t.source
  pub action_type : r.action_type ≡ t.action_type
  pub command : r.command ≡ t.command
  pub priority : r.priority ≡ t.priority
  pub timeout_seconds : r.timeout_seconds ≡ t.timeout_seconds
  pub max_retries : r.max_retries ≡ t.max_retries
  pub created_at : r.created_at ≡ t.created_at

set_rerun-IsRequeued : (now : ℕ) (t : Task) → IsRequeued now t (set_rerun now t)
unfolding set_rerun
set_rerun-IsRequeued now t = record {
  status = refl;
  retry_count = refl;
  exit_code = refl;
  error_message = refl;
  started_at = refl;
  completed_at = refl;
  queued_at = refl;
  updated_at = refl;
  task_id = refl;
  event_id = refl;
  source = refl;
  action_type = refl;
  command = refl;
  priority = refl;
  timeout_seconds = refl;
  max_retries = refl;
  created_at = refl;
}

apart : (i j : String) (u : Task) → has_id j u ≡ true → str_eq i j ≡ false → has_id i u ≡ false
apart i j u same other = elim (Bool-cases (str_eq u.task_id i)) [
  | inl e ↦
      let equal : i ≡ j = sym ((eq_iff u.task_id i).0 e) ∙ (eq_iff u.task_id j).0 same in
      absurd (cc ((eq_iff i j).1 equal, other))
  | inr e ↦ e
]

-- The task with another id.
rerun-other :
    (i j : String) (now : ℕ) (db : Db)
    → str_eq i j ≡ false
    → get_task j (rerun_task i now db).1 ≡ get_task j db
rerun-other i j now db other = get_task-rerun i j now db ∙ (elim (Option-cases (get_task j db)) [
  | inl e ↦ rw e refl
  | inr (u, e) ↦
      let same = find-holds (has_id j) db.tasks u (unfold get_task in e) in
      rw (e, apart i j u same other) refl
])

-- After a rerun of a task that is in the store: its row is queued at that time, with one retry
-- more, without exit code, error, start and end, and otherwise as it was; the answer has that row;
-- the task under any other id and the events are as before; and the dispatcher knows the task.
pub rerun-IsQueued :
    (i j : String) (now : ℕ) (t : Task) (p : Process)
    → get_task i p.db ≡ some t
    → str_eq i j ≡ false
    → let (reply, after) = TaskRoutes.handle_task_rerun i now p in
      ((r : Task) × IsRequeued now t r
        × (get_task i after.db ≡ some r)
        × (reply ≡ TaskRoutes.requeued i (some r)))
      × (get_task j after.db ≡ get_task j p.db)
      × (after.db.events ≡ p.db.events)
      × (member i after.dispatcher.enqueued_task_ids ≡ true)
unfolding TaskRoutes.handle_task_rerun TaskRoutes.rerun_found rerun_task
rerun-IsQueued i j now t p found other =
    let row = rerun-row i now t p.db found in
    rw found (
      (set_rerun now t, set_rerun-IsRequeued now t, row, ap (TaskRoutes.requeued i) row),
      rerun-other i j now p.db other,
      refl,
      enqueue-known i p.dispatcher,
    )

known-member :
    (i : String) (e is ks : List String)
    → known e (is ++ ks) ≡ true
    → member i is ≡ true
    → member i e ≡ true
known-member i e [] ks h m = cc
known-member i e (j ∷ is) ks h m = elim (Bool-cases (str_eq j i)) [
  | inl same ↦ rw (sym ((eq_iff j i).0 same)) (ground (arith, h))
  | inr other ↦ known-member i e is ks (ground (arith, h)) (ground (arith, m, other))
]

enqueue-member :
    (i : String) (d : Dispatcher) → member i d.enqueued_task_ids ≡ true → enqueue i d ≡ d
unfolding enqueue
enqueue-member i d h = rw h refl

-- A rerun of a task that a worker executes is lost to the workers: when the action ends, whatever
-- its outcome, the task stands in the store as the rerun left it, queued, and it neither waits in
-- the queue nor is known to the dispatcher. Task ids are distinct, and nothing waits or runs
-- twice.
pub rerun-strands :
    (i : String) (now later : ℕ) (t : Task) (o : Outcome) (p : Process)
    → Distinct p.db.tasks
    → IsExclusive p.dispatcher
    → get_task i p.db ≡ some t
    → member i p.dispatcher.running ≡ true
    → let p' = (TaskRoutes.handle_task_rerun i now p).1 in
      let db = (finish_task i t o later p'.db).1 in
      let d = finish i p'.dispatcher in
      (get_task i db ≡ some (set_rerun now t))
      × (member i d.queue ≡ false)
      × (member i d.enqueued_task_ids ≡ false)
unfolding TaskRoutes.handle_task_rerun TaskRoutes.rerun_found
rerun-strands i now later t o p distinct exclusive found runs =
    let row = rerun-row i now t p.db found in
    let lost =
      finish_task-lost i t (set_rerun now t) o later (rerun_task i now p.db).1
        (Distinct-rerun i now p.db distinct) row (unfold set_rerun in refl) in
    let busy = known-member i _ p.dispatcher.running p.dispatcher.queue exclusive.tracked runs in
    rw found (
      (unfold get_task in ap (find (has_id i)) lost.0 ∙ row),
      rw (enqueue-member i p.dispatcher busy) (
          unfold finish in
          runs-absent i p.dispatcher.running p.dispatcher.queue exclusive.once runs),
      unfold finish in member-remove_self i (enqueue i p.dispatcher).enqueued_task_ids,
    )
