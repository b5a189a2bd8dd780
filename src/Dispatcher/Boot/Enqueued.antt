-- ===== src/Dispatcher/Boot/Enqueued.antt =====
-- What the sweep and the start of hub/dispatcher.py put into the queue.
use antigravity_webhook_hub.Prelude.{
  ℕ, suc, ◌+◌, ◌<◌, ◌≡◌, refl, ap, ◌∙◌, String, str_eq, eq_iff, Bool, true, ◌&&◌, ◌||◌, List, [],
  ◌∷◌, ◌++◌, map, any, length, arith, Bool-cases, inl, inr,
}
use antigravity_webhook_hub.Store.Rows.{Task, Db, count_rows}
use antigravity_webhook_hub.Store.Tasks.{
  has_id, is_queued, get_queued_tasks, recover_orphaned_tasks,
}
use antigravity_webhook_hub.Store.Rehydrate.{Json}
use antigravity_webhook_hub.Store.Sweep.{Options, sweep_and_requeue_unprocessed}
use antigravity_webhook_hub.Store.Queue.{get_queued_tasks-sorts}
use antigravity_webhook_hub.Dispatcher.{Dispatcher, member, enqueue}
use antigravity_webhook_hub.Dispatcher.Exclusion.{known, IsExclusive, enqueue-IsExclusive}
use antigravity_webhook_hub.Dispatcher.Boot.{
  Process, Summary, enqueue_new, enqueue_all, reported_ids, sweep_unprocessed_tasks,
  start_dispatcher,
}

pub enqueue-member : (i : String) (d : Dispatcher) → member i (enqueue i d).enqueued_task_ids ≡ true
unfolding enqueue
enqueue-member i d = elim (Bool-cases (member i d.enqueued_task_ids)) [
  | inl e ↦ rw e e
  | inr e ↦ rw e (ground (arith, eq_iff i i))
]

abbrev Tracks : String → Dispatcher → Type 0
Tracks j d = member j d.enqueued_task_ids ≡ true

enqueue-Tracks : (i j : String) (d : Dispatcher) → Tracks j d → Tracks j (enqueue i d)
unfolding enqueue
enqueue-Tracks i j d h = elim (Bool-cases (member i d.enqueued_task_ids)) [
  | inl e ↦ rw e h
  | inr e ↦ rw e (ground arith)
]

enqueue_all-Tracks :
    (is : List String) (j : String) (d : Dispatcher) → Tracks j d → Tracks j (enqueue_all is d)
unfolding enqueue_all
enqueue_all-Tracks [] j d h = h
enqueue_all-Tracks (i ∷ is) j d h = enqueue_all-Tracks is j (enqueue i d) (enqueue-Tracks i j d h)

enqueue_all-member :
    (is : List String) (j : String) (d : Dispatcher)
    → member j is ≡ true
    → Tracks j (enqueue_all is d)
unfolding enqueue_all
enqueue_all-member [] j d h = cc
enqueue_all-member (i ∷ is) j d h = elim (Bool-cases (str_eq i j)) [
  | inl e ↦ enqueue_all-Tracks is j (enqueue i d) (rw ((eq_iff i j).0 e) (enqueue-member j d))
  | inr e ↦ enqueue_all-member is j (enqueue i d) (rw e at h)
]

enqueue_all-IsExclusive :
    (is : List String) (d : Dispatcher) → IsExclusive d → IsExclusive (enqueue_all is d)
unfolding enqueue_all
enqueue_all-IsExclusive [] d h = h
enqueue_all-IsExclusive (i ∷ is) d h =
    enqueue_all-IsExclusive is (enqueue i d) (enqueue-IsExclusive i d h)

known-all :
    (e is : List String)
    → ((i : String) → member i is ≡ true → member i e ≡ true)
    → known e is ≡ true
known-all e [] h = refl
known-all e (i ∷ is) h =
    ground (arith, h i (ground (arith, eq_iff i i)), known-all e is (λ j k. h j (ground arith)))

-- The counting loop does the same.
enqueue_new-all : (is : List String) (d : Dispatcher) → (enqueue_new is d).1 ≡ enqueue_all is d
unfolding enqueue_new enqueue_all
enqueue_new-all [] d = refl
enqueue_new-all (i ∷ is) d = enqueue_new-all is (enqueue i d)

length-snoc : (is : List String) (i : String) → length (is ++ i ∷ []) ≡ suc (length is)
length-snoc [] i = refl
length-snoc (j ∷ is) i = ap suc (length-snoc is i)

enqueue_new-length :
    (is : List String) (d : Dispatcher)
    → length (enqueue_new is d).1.queue ≡ (enqueue_new is d).0 + length d.queue
unfolding enqueue_new enqueue
enqueue_new-length [] d = omega arith
enqueue_new-length (i ∷ is) d = elim (Bool-cases (member i d.enqueued_task_ids)) [
  | inl e ↦ rw e (enqueue_new-length is d)
  | inr e ↦
      (let longer = record d {
        queue = d.queue ++ i ∷ [];
        enqueued_task_ids = i ∷ d.enqueued_task_ids;
      } in
        rw e (omega (arith, enqueue_new-length is longer, length-snoc d.queue i)))
]

count-any : (p : Task → Bool) (ts : List Task) → 0 < count_rows p ts → any p ts ≡ true
unfolding count_rows
count-any p [] h = absurd (omega arith)
count-any p (t ∷ ts) h = elim (Bool-cases (p t)) [
  | inl e ↦ rw e refl
  | inr e ↦ rw e (count-any p ts (rw e at h))
]

any-count : (p : Task → Bool) (ts : List Task) → any p ts ≡ true → 0 < count_rows p ts
unfolding count_rows
any-count p [] h = cc
any-count p (t ∷ ts) h = elim (Bool-cases (p t)) [
  | inl e ↦ rw e (omega arith)
  | inr e ↦ rw e (any-count p ts (rw e at h))
]

member-ids : (i : String) (ts : List Task) → member i (map (λ t. t.task_id) ts) ≡ any (has_id i) ts
member-ids i [] = refl
member-ids i (t ∷ ts) = ap (λ b. has_id i t || b) (member-ids i ts)

-- A queued task is among those that `get_queued_tasks` gives.
queued-member :
    (i : String) (db : Db)
    → any (λ t. is_queued t && has_id i t) db.tasks ≡ true
    → member i (map (λ t. t.task_id) (get_queued_tasks db)) ≡ true
queued-member i db h =
    let same = (get_queued_tasks-sorts db).1 (has_id i) in
    let some_row = any-count (λ t. is_queued t && has_id i t) db.tasks h in
    member-ids i (get_queued_tasks db)
    ∙ count-any (has_id i) (get_queued_tasks db) (omega (arith, same, some_row))

-- The ids of a summary are known to the dispatcher, and those that are new are as many as the queue
-- has grown by; nothing waits or runs twice.
abbrev pub IsPickedUp : Process → Summary × Process → Type 0
IsPickedUp before (summary, after) =
    (known after.dispatcher.enqueued_task_ids summary.task_ids ≡ true)
    × (length after.dispatcher.queue ≡ summary.newly_enqueued + length before.dispatcher.queue)
    × IsExclusive after.dispatcher

module _ (loads : String → Json) (fresh : ℕ → String) (o : Options) (now : ℕ) where
  -- After sweep_unprocessed_tasks the dispatcher knows every id of the summary, the queue has
  -- grown by newly_enqueued, and nothing waits or runs twice, if nothing did before.
  pub sweep_unprocessed_tasks-IsPickedUp :
      (p : Process)
      → IsExclusive p.dispatcher
      → IsPickedUp p (sweep_unprocessed_tasks loads fresh o now p)
  unfolding sweep_unprocessed_tasks
  sweep_unprocessed_tasks-IsPickedUp p h =
      let ids = reported_ids (sweep_and_requeue_unprocessed loads fresh o now p.db) in
      let same = enqueue_new-all ids p.dispatcher in
      (
        rw same (
            known-all (enqueue_all ids p.dispatcher).enqueued_task_ids ids
              (λ i k. enqueue_all-member ids i p.dispatcher k)),
        enqueue_new-length ids p.dispatcher,
        rw same (enqueue_all-IsExclusive ids p.dispatcher h),
      )

  -- From a dispatcher in which nothing waits or runs twice, every task that is queued in the store
  -- after the start is known to the dispatcher, and still nothing waits or runs twice.
  pub start_dispatcher_complete :
      (p : Process) (i : String)
      → IsExclusive p.dispatcher
      → any (λ t. is_queued t && has_id i t) (start_dispatcher loads fresh o now p).db.tasks ≡ true
      → (member i (start_dispatcher loads fresh o now p).dispatcher.enqueued_task_ids ≡ true)
        × IsExclusive (start_dispatcher loads fresh o now p).dispatcher
  unfolding start_dispatcher
  start_dispatcher_complete p i h k =
      let booted = record p { db = (recover_orphaned_tasks now p.db).1 } in
      let swept = (sweep_unprocessed_tasks loads fresh o now booted).1 in
      let ids = map (λ t. t.task_id) (get_queued_tasks swept.db) in
      (
        enqueue_all-member ids i swept.dispatcher (queued-member i swept.db k),
        enqueue_all-IsExclusive ids swept.dispatcher
            (sweep_unprocessed_tasks-IsPickedUp booted h).2,
      )
