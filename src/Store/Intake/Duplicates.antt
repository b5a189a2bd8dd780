-- ===== src/Store/Intake/Duplicates.antt =====
-- Duplicates of an event in hub/db.py.
use antigravity_webhook_hub.Prelude.{
  any-concat, any-last, String, str_eq, eq_iff, ◌≡◌, refl, ap, sym, ◌∙◌, Bool, true, false, ◌&&◌,
  some, List, [], ◌∷◌, ◌++◌, any, keep, leb, arith, Bool-cases, Option-cases, inl, inr,
}
use antigravity_webhook_hub.Store.Rows.{
  Event, Task, Db, sql_eq, event_clashes, task_allowed, create_event,
}
use antigravity_webhook_hub.Store.Events.{key_taken, insert_webhook_event}
use antigravity_webhook_hub.Store.Tasks.{insert_task, get_task_by_event_id, latest_task}
use antigravity_webhook_hub.Store.Rehydrate.{returns, store_after}
use antigravity_webhook_hub.Store.Intake.{with_task}

pub inserted-event :
    (e : Event) (db : Db)
    → (insert_webhook_event e db).0 ≡ true
    → (insert_webhook_event e db).1 ≡ record db { events = db.events ++ e ∷ [] }
unfolding insert_webhook_event
inserted-event e db h = elim (Bool-cases (key_taken e db)) [
  | inl k ↦ absurd (cc (rw k at h))
  | inr k ↦ (elim (Bool-cases (any (event_clashes e) db.events)) [
    | inl c ↦ absurd (cc (rw (k, c) at h))
    | inr c ↦ rw (k, c) refl
  ])
]

refused-event :
    (e : Event) (db : Db) → key_taken e db ≡ true → insert_webhook_event e db ≡ (false, db)
unfolding insert_webhook_event
refused-event e db h = rw h refl

-- The row of `e` takes its key from every event of the same source.
pub takes_key :
    (e f : Event) (key : String)
    → e.idempotency_key ≡ some key
    → f.source ≡ e.source
    → (str_eq e.source f.source && sql_eq e.idempotency_key key) ≡ true
takes_key e f key ke same = rw (ke, same) (ground (arith, eq_iff e.source e.source, eq_iff key key))

key_taken-after :
    (e f : Event) (key : String) (db : Db)
    → e.idempotency_key ≡ some key
    → f.idempotency_key ≡ some key
    → f.source ≡ e.source
    → str_eq key "" ≡ false
    → key_taken f (record db { events = db.events ++ e ∷ [] }) ≡ true
key_taken-after e f key db ke kf same nonempty =
    rw (kf, nonempty)
      (any-concat (λ x. str_eq x.source f.source && sql_eq x.idempotency_key key) db.events (e ∷ [])
        ∙ ground (arith, takes_key e f key ke same))

-- After an event with a non-empty idempotency key was inserted, the insertion of any event of the
-- same source with the same key fails and changes nothing.
pub insert_webhook_event-duplicate :
    (e f : Event) (key : String) (db : Db)
    → (insert_webhook_event e db).0 ≡ true
    → e.idempotency_key ≡ some key
    → f.idempotency_key ≡ some key
    → f.source ≡ e.source
    → str_eq key "" ≡ false
    → insert_webhook_event f (insert_webhook_event e db).1 ≡ (false, (insert_webhook_event e db).1)
insert_webhook_event-duplicate e f key db h ke kf same nonempty =
    refused-event f (insert_webhook_event e db).1
      (ap (key_taken f) (inserted-event e db h) ∙ key_taken-after e f key db ke kf same nonempty)

latest_task-cons : (t : Task) (ts : List Task) → (u : Task) × (latest_task (t ∷ ts) ≡ some u)
unfolding latest_task
latest_task-cons t ts = elim (Option-cases (latest_task ts)) [
  | inl e ↦ (t, rw e refl)
  | inr (l, e) ↦ (elim (Bool-cases (leb t.created_at l.created_at)) [
    | inl k ↦ (l, rw (e, k) refl)
    | inr k ↦ (t, rw (e, k) refl)
  ])
]

pub latest_task-some :
    (p : Task → Bool) (ts : List Task)
    → any p ts ≡ true
    → (u : Task) × (latest_task (keep p ts) ≡ some u)
latest_task-some p [] h = cc
latest_task-some p (t ∷ ts) h = elim (Bool-cases (p t)) [
  | inl e ↦ rw e (latest_task-cons t (keep p ts))
  | inr e ↦ rw e (latest_task-some p ts (rw e at h))
]

-- A task that was just inserted for an event is found under it.
pub finds_task :
    (t : Task) (i : String) (db : Db) (tasks : List Task)
    → t.event_id ≡ some i
    → (u : Task) × (get_task_by_event_id i (record db { tasks = tasks ++ t ∷ [] }) ≡ some u)
unfolding get_task_by_event_id
finds_task t i db tasks h =
    latest_task-some (λ u. sql_eq u.event_id i) (tasks ++ t ∷ [])
      (any-last (λ u. sql_eq u.event_id i) tasks t (rw h ((eq_iff i i).1 refl)))

pub inserted-task :
    (is_new : Bool) (i j : String) (t : Task) (db : Db) (r : Bool × String × String) (after : Db)
    → with_task is_new i j db (insert_task t db) ≡ returns r after
    → after ≡ record (create_event t db) { tasks = db.tasks ++ t ∷ [] }
unfolding insert_task
inserted-task is_new i j t db r after h = elim (Bool-cases (task_allowed t (create_event t db))) [
  | inl e ↦ sym (ap store_after (rw (insert_task, e) at h))
  | inr e ↦ absurd (cc (rw (insert_task, e) at h))
]
