-- ===== src/Ingress/Truth.antt =====
-- What an answer of `handle_webhook` (hub/routes/webhook.py) is to say of the hub that it leaves, and
-- the requests that become a task.
use antigravity_webhook_hub.Prelude.{
  ℕ, String, str_eq, eq_iff, ◌≡◌, refl, sym, Bool, true, false, Option, none, some, [], ◌∷◌, ◌++◌,
  any, find-last, arith, Bool-cases, ◌⊎◌, inl, inr,
}
use antigravity_webhook_hub.Models.{queued}
use antigravity_webhook_hub.Store.Rows.{
  Event, received, Task, Db, task_allowed, create_event, event_clashes,
}
use antigravity_webhook_hub.Store.Events.{insert_webhook_event, key_taken}
use antigravity_webhook_hub.Store.Tasks.{insert_task, get_task, has_id, get_task_by_idempotency}
use antigravity_webhook_hub.Dispatcher.Boot.Enqueued.{enqueue-member}
use antigravity_webhook_hub.Dispatcher.{member}
use antigravity_webhook_hub.Schedule.Rows.{Schedule, active, get_schedule}
use antigravity_webhook_hub.Schedule.Engine.{Hub}
use mathlib.Core.Path.{subst}
use antigravity_webhook_hub.Ingress.Known.{refused-same}
use antigravity_webhook_hub.Ingress.Check.{Response, error, skipped, duplicate, accepted, Job}
use antigravity_webhook_hub.Ingress.Handle.{
  Handled, answers, executes, fails, event_record, task_record, or_task, find_event, task_of_event,
  id_of, with_inserted, attach_task, dispatch, collision, store_task,
}

-- The task is in the table, queued, and belongs to the event.
abbrev pub IsQueued : String → String → Db → Type 0
IsQueued event_id task_id db =
    (t : Task) × (get_task task_id db ≡ some t) × (t.status ≡ queued) × (t.event_id ≡ some event_id)

-- Nothing but the table of events has changed.
abbrev pub OnlyEvents : Hub → Hub → Type 0
OnlyEvents before after =
    (after.db.tasks ≡ before.db.tasks)
    × (after.schedules ≡ before.schedules)
    × (after.dispatcher ≡ before.dispatcher)

-- What an answer says of the hub before the request and the hub after it.
abbrev pub Says : Response → Hub → Hub → Type 0
Says (error code reason) before after =
    (after ≡ before) ⊎ ((reason ≡ "invalid_schedule") × OnlyEvents before after)
Says skipped before after = after ≡ before
Says (duplicate task_id event_id) before after = after ≡ before
Says (Response.scheduled event_id schedule_id) before after =
    (after.db.tasks ≡ before.db.tasks)
    × (s : Schedule) × (get_schedule schedule_id after.schedules ≡ some s)
    × (s.status ≡ active)
Says (accepted event_id task_id dup) before after =
    IsQueued event_id task_id after.db × (member task_id after.dispatcher.enqueued_task_ids ≡ true)

-- A request that the dispatcher executes has its task in the table; of a request that an exception
-- ends nothing is said.
abbrev pub IsTruthful : Hub → Handled → Type 0
IsTruthful before (answers r after) = Says r before after
IsTruthful before (executes event_id task_id after) = IsQueued event_id task_id after.db
IsTruthful before (fails after) = Unit

pub same_text : (s : String) → str_eq s s ≡ true
same_text s = (eq_iff s s).1 refl

pub inserted-tasks : (e : Event) (db : Db) → (insert_webhook_event e db).1.tasks ≡ db.tasks
unfolding insert_webhook_event
inserted-tasks e db = elim (Bool-cases (key_taken e db)) [
  | inl k ↦ rw k refl
  | inr k ↦ (elim (Bool-cases (any (event_clashes e) db.events)) [
    | inl c ↦ rw (k, c) refl
    | inr c ↦ rw (k, c) refl
  ])
]

attached-IsQueued :
    (job : Job) (event_id task_id : String) (now : ℕ) (db : Db)
    → let t = task_record job event_id task_id now in
      task_allowed t (create_event t db) ≡ true
      → IsQueued event_id task_id (record (create_event t db) { tasks = db.tasks ++ t ∷ [] })
unfolding get_task
attached-IsQueued job event_id task_id now db h = (
  task_record job event_id task_id now,
  find-last (has_id task_id) db.tasks (task_record job event_id task_id now) (ground arith)
      (same_text task_id),
  refl,
  refl,
)

dispatch-IsTruthful :
    (job : Job) (event_id task_id : String) (dup : Bool) (before hub : Hub)
    → IsQueued event_id task_id hub.db
    → IsTruthful before (dispatch job event_id task_id dup hub)
dispatch-IsTruthful job event_id task_id dup before hub h = elim (Bool-cases job.sync) [
  | inl s ↦ rw s h
  | inr s ↦ rw s (h, enqueue-member task_id hub.dispatcher)
]

attach-IsTruthful :
    (job : Job) (event_id task_id : String) (dup : Bool) (now : ℕ) (before hub : Hub)
    → IsTruthful before (attach_task job event_id task_id dup now hub)
unfolding insert_task
attach-IsTruthful job event_id task_id dup now before hub =
    let t = task_record job event_id task_id now in
    elim (Bool-cases (task_allowed t (create_event t hub.db))) [
      | inl e ↦
          rw (insert_task, e)
            (dispatch-IsTruthful job event_id task_id dup before _
              (attached-IsQueued job event_id task_id now hub.db e))
      | inr e ↦ rw (insert_task, e) tt
    ]

collision-IsTruthful :
    (o : Option Task) (e : Option Event) (job : Job) (event_id task_id : String) (now : ℕ)
    (hub : Hub)
    → IsTruthful hub (collision o e job event_id task_id now hub)
collision-IsTruthful (some t) e job event_id task_id now hub = refl
collision-IsTruthful none e job event_id task_id now hub =
    attach-IsTruthful job (id_of e event_id) task_id true now hub hub

pub store_task-IsTruthful :
    (job : Job) (event_id task_id : String) (now : ℕ) (hub : Hub)
    → IsTruthful hub (store_task job event_id task_id now hub)
unfolding store_task
store_task-IsTruthful job event_id task_id now hub =
    let e = event_record job event_id received now in
    let family =
      λ (stored : Bool × Db). IsTruthful hub (with_inserted stored job event_id task_id now hub) in
    elim (Bool-cases (insert_webhook_event e hub.db).0) [
      | inl h ↦ subst family (sym (λ i. (h i, (insert_webhook_event e hub.db).1))) (
          attach-IsTruthful job event_id task_id false now hub
            (record hub { db = (insert_webhook_event e hub.db).1 }))
      | inr h ↦ subst family (sym (refused-same e hub.db h)) (
          collision-IsTruthful
            (or_task (task_of_event (find_event job hub.db) hub.db)
              (get_task_by_idempotency job.source job.idempotency_key hub.db))
            (find_event job hub.db) job event_id task_id now hub)
    ]
