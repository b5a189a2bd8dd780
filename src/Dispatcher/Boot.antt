-- ===== src/Dispatcher/Boot.antt =====
-- `sweep_unprocessed_tasks` and `start` of hub/dispatcher.py on the store and the queue: what is
-- left in the store becomes work again. The watchers of sessions, the quota scan, the broadcasts
-- and the counters for display are left out.
pub mod Enqueued
use antigravity_webhook_hub.Prelude.{ℕ, zero, suc, String, Bool, List, [], ◌∷◌, map, if◌then◌else◌}
use antigravity_webhook_hub.Store.Rows.{Task, Db}
use antigravity_webhook_hub.Store.Tasks.{recover_orphaned_tasks, get_queued_tasks}
use antigravity_webhook_hub.Store.Rehydrate.{Json, Outcome, returns, raises, store_after}
use antigravity_webhook_hub.Store.Sweep.{Options, Report, sweep_and_requeue_unprocessed}
use antigravity_webhook_hub.Dispatcher.{Dispatcher, member, enqueue}

-- The store and the dispatcher of one process.
pub record Process : Type 0 where
  pub db : Db
  pub dispatcher : Dispatcher

-- for tid in task_ids: if tid not in self._enqueued_task_ids: enqueue, and count
unfoldable pub enqueue_new : List String → Dispatcher → ℕ × Dispatcher
unfolding enqueue
enqueue_new [] d = (0, d)
enqueue_new (i ∷ is) d =
    let (n, after) = enqueue_new is (enqueue i d) in
    (if member i d.enqueued_task_ids then n else suc n, after)

unfoldable pub enqueue_all : List String → Dispatcher → Dispatcher
unfolding enqueue
enqueue_all [] d = d
enqueue_all (i ∷ is) d = enqueue_all is (enqueue i d)

abbrev pub rehydrate_queue : Process → Process
rehydrate_queue p = record p {
  dispatcher = enqueue_all (map (λ t. t.task_id) (get_queued_tasks p.db)) p.dispatcher;
}

-- The part of the summary that tells of the queue.
pub record Summary : Type 0 where
  pub task_ids : List String
  pub newly_enqueued : ℕ

-- An exception of the database's sweep leaves no ids.
abbrev pub reported_ids : Outcome Report → List String
reported_ids (returns report db) = report.task_ids
reported_ids (raises db) = []

module _ (loads : String → Json) (fresh : ℕ → String) (o : Options) where
  unfoldable pub sweep_unprocessed_tasks : ℕ → Process → Summary × Process
  unfolding enqueue_new sweep_and_requeue_unprocessed
  sweep_unprocessed_tasks now p =
      let res = sweep_and_requeue_unprocessed loads fresh o now p.db in
      let task_ids = reported_ids res in
      let (n, after) = enqueue_new task_ids p.dispatcher in
      (
        record { task_ids = task_ids; newly_enqueued = n },
        record { db = store_after res; dispatcher = after },
      )

  -- `start`, up to the creation of the workers.
  unfoldable pub start_dispatcher : ℕ → Process → Process
  unfolding recover_orphaned_tasks get_queued_tasks sweep_unprocessed_tasks enqueue_all
  start_dispatcher now p =
      rehydrate_queue
        (sweep_unprocessed_tasks now (record p { db = (recover_orphaned_tasks now p.db).1 })).1
