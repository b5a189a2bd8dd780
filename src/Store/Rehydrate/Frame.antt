-- ===== src/Store/Rehydrate/Frame.antt =====
-- What `rehydrate_orphaned_event` of hub/db.py leaves as it was: it adds queued rows and no others.
use antigravity_webhook_hub.Prelude.{
  ℕ, String, ◌≡◌, refl, inl, inr, Bool, true, false, Option, none, some, List, [], ◌∷◌, ◌++◌, any,
  arith, if◌then◌else◌, Bool-cases,
}
use antigravity_webhook_hub.Prelude.Int.{ℤ, pos}
use antigravity_webhook_hub.Models.{queued}
use antigravity_webhook_hub.Store.Rows.{Event, Task, Db, sql_eq, task_allowed, create_event}
use antigravity_webhook_hub.Store.Tasks.{insert_task}
use antigravity_webhook_hub.Store.Rehydrate.{
  Json, Outcome, store_after, inserted, decoded, Field, absent, unreadable, number, with_int,
  with_event, rehydrated_task, given_event, rehydrate_event, rehydrate_orphaned_event,
}

pub any-append :
    (p : Task → Bool) (ts us : List Task)
    → any p ts ≡ false
    → any p us ≡ false
    → any p (ts ++ us) ≡ false
any-append p [] us h k = k
any-append p (t ∷ ts) us h k = ground (arith, any-append p ts us)

module _ (p : Task → Bool) (quiet : (t : Task) → t.status ≡ queued → p t ≡ false) where
  inserted-quiet :
      (id : String) (t : Task) (db : Db)
      → t.status ≡ queued
      → any p db.tasks ≡ false
      → any p (store_after (inserted id db (insert_task t db))).tasks ≡ false
  unfolding insert_task
  inserted-quiet id t db e h = elim (Bool-cases (task_allowed t (create_event t db))) [
    | inl a ↦ rw (insert_task, a) (any-append p db.tasks (t ∷ []) h (rw (quiet t e)))
    | inr a ↦ rw (insert_task, a) h
  ]

  -- The stores in which the test fails on every row.
  abbrev Quiet : {A : Type 0} → Outcome A → Type 0
  Quiet o = any p (store_after o).tasks ≡ false

  Quiet-if :
      {A : Type 0} (b : Bool) (m n : Outcome A) → Quiet m → Quiet n → Quiet (if b then m else n)
  Quiet-if true m n hm hn = hm
  Quiet-if false m n hm hn = hn

  with_int-Quiet :
      {A : Type 0} (f : Field) (default : ℤ) (db : Db) (k : ℤ → Outcome A)
      → any p db.tasks ≡ false
      → ((n : ℤ) → Quiet (k n))
      → Quiet (with_int f default db k)
  with_int-Quiet absent default db k h hk = hk default
  with_int-Quiet unreadable default db k h hk = h
  with_int-Quiet (number n) default db k h hk = hk n

  with_event-Quiet :
      (e : Option Event) (db : Db) (k : Event → Outcome (Option String))
      → any p db.tasks ≡ false
      → ((event : Event) → Quiet (k event))
      → Quiet (with_event e db k)
  with_event-Quiet none db k h hk = h
  with_event-Quiet (some event) db k h hk = hk event

  module _ (loads : String → Json) (id action : String) (retries timeout : ℤ) (now : ℕ) where
    rehydrate_event-Quiet :
        (event : Event) (db : Db)
        → any p db.tasks ≡ false
        → Quiet (rehydrate_event loads event id action retries timeout now db)
    unfolding rehydrate_event
    rehydrate_event-Quiet event db h =
        with_int-Quiet (decoded loads event).priority (pos 0) db _ h λ n.
          with_int-Quiet (decoded loads event).timeout_seconds timeout db _ h λ s.
            with_int-Quiet (decoded loads event).max_retries retries db _ h λ m.
              inserted-quiet id (rehydrated_task (decoded loads event) event id action now n s m) db
                refl h

    -- A test that fails on queued rows fails on all rows afterwards, if it did before.
    pub rehydrate_orphaned_event-quiet :
        (event_id : String) (record? : Option Event) (db : Db)
        → any p db.tasks ≡ false
        → any p
            (store_after (
              rehydrate_orphaned_event loads event_id record? id action retries timeout now
                db)).tasks
          ≡ false
    unfolding rehydrate_orphaned_event
    rehydrate_orphaned_event-quiet event_id record? db h =
        with_event-Quiet (given_event record? event_id db) db _ h λ event.
          Quiet-if (any (λ t. sql_eq t.event_id event_id) db.tasks) _ _ h
            (rehydrate_event-Quiet event db h)
