-- ===== src/Store/Intake/Again.antt =====
-- A second call of `insert_event_and_task` of hub/db.py.
use antigravity_webhook_hub.Prelude.{
  find-last, any-last, find-none, String, str_eq, eq_iff, ◌≡◌, refl, ap, sym, ◌∙◌, Bool, true,
  false, ◌&&◌, ◌||◌, Option, none, some, List, [], ◌∷◌, ◌++◌, any, find, arith, Option-cases, inl,
  inr,
}
use antigravity_webhook_hub.Store.Rows.{
  Event, Task, Db, sql_eq, references, event_clashes, task_allowed, create_event,
}
use antigravity_webhook_hub.Store.Trigger.{auto_events-same, existing_event-any}
use antigravity_webhook_hub.Store.Events.{
  key_taken, insert_webhook_event, get_event_by_idempotency, get_event_by_payload_hash,
}
use antigravity_webhook_hub.Store.Tasks.{insert_task, get_task_by_event_id}
use antigravity_webhook_hub.Store.Rehydrate.{returns, raises, store_after}
use antigravity_webhook_hub.Store.Intake.{
  insert_event_and_task, insert_both, existing_event, or_event, by_key, by_hash, with_task, attach,
}
use antigravity_webhook_hub.Store.Intake.Duplicates.{
  inserted-event, finds_task, inserted-task, takes_key,
}

-- The events alone decide whether an event exists.
existing-events :
    (event : Event) (db db' : Db)
    → db'.events ≡ db.events
    → existing_event event db' ≡ existing_event event db
unfolding get_event_by_idempotency get_event_by_payload_hash
existing-events event db db' e = rw e refl

again :
    (event e : Event) (t other : Task) (after : Db)
    → existing_event event after ≡ some e
    → get_task_by_event_id e.event_id after ≡ some t
    → insert_event_and_task event other after ≡ returns (false, e.event_id, t.task_id) after
unfolding insert_event_and_task
again event e t other after h k = rw h (rw k refl)

owned :
    (i : String) (t : Task) (e : Event)
    → t.event_id ≡ some i
    → str_eq e.event_id i ≡ true
    → references t e ≡ true
owned i t e own h = rw own (ground (arith, eq_iff e.event_id i, eq_iff i e.event_id))

attached :
    (event e : Event) (o : Option Task) (task : Task) (db after : Db) (r : Bool × String × String)
    → existing_event event db ≡ some e
    → get_task_by_event_id e.event_id db ≡ o
    → attach e o task db ≡ returns r after
    → (after.events ≡ db.events) × (t : Task) × (get_task_by_event_id e.event_id after ≡ some t)
attached event e (some t) task db after r found h k =
    let same : db ≡ after = ap store_after k in
    (ap (λ (d : Db). d.events) (sym same), t, ap (get_task_by_event_id e.event_id) (sym same) ∙ h)
attached event e none task db after r found h k =
    let own = record task { event_id = some e.event_id } in
    let stored = inserted-task false e.event_id task.task_id own db r after k in
    let (t, row) = finds_task own e.event_id (create_event own db) db.tasks refl in
    let there =
      existing_event-any (references own) event db e ((eq_iff e.event_id e.event_id).1 refl)
        found in
    (
      ap (λ (d : Db). d.events) stored ∙ auto_events-same db.auto_event own db.events there,
      t,
      ap (get_task_by_event_id e.event_id) stored ∙ row,
    )

or_event-none : (a b : Option Event) → or_event a b ≡ none → a ≡ none
or_event-none none b h = refl
or_event-none (some e) b h = cc

module _ (event : Event) (key : String) (ke : event.idempotency_key ≡ some key)
    (nonempty : str_eq key "" ≡ false) where
  abbrev holds_key : Event → Bool
  holds_key x = str_eq x.source event.source && sql_eq x.idempotency_key key

  looked_up :
      (db : Db) (e : Event)
      → find holds_key db.events ≡ some e
      → get_event_by_idempotency event.source key db ≡ some e
  unfolding get_event_by_idempotency
  looked_up db e h = rw (get_event_by_idempotency, h) refl

  by_key-find : (db : Db) (e : Event) → find holds_key db.events ≡ some e → by_key event db ≡ some e
  by_key-find db e h = rw (ke, nonempty) (looked_up db e h)

  no_key : (db : Db) → existing_event event db ≡ none → any holds_key db.events ≡ false
  no_key db h =
      let absent = or_event-none (by_key event db) (by_hash event db) h in
      elim (Option-cases (find holds_key db.events)) [
        | inl e ↦ find-none holds_key db.events e
        | inr (e, f) ↦ absurd (cc (by_key-find db e f, absent))
      ]

  clashes : (e : Event) → event_clashes event e ≡ str_eq e.event_id event.event_id || holds_key e
  clashes e = rw ke refl

  no_clash :
      (es : List Event)
      → any holds_key es ≡ false
      → any (λ e. str_eq e.event_id event.event_id) es ≡ false
      → any (event_clashes event) es ≡ false
  no_clash [] h k = refl
  no_clash (e ∷ es) h k = rw (clashes e) (ground (arith, no_clash es))

  key_taken-any : (db : Db) → key_taken event db ≡ any holds_key db.events
  key_taken-any db = rw (ke, nonempty) refl

  stored_new :
      (db : Db)
      → any holds_key db.events ≡ false
      → any (λ e. str_eq e.event_id event.event_id) db.events ≡ false
      → insert_webhook_event event db ≡ (true, record db { events = db.events ++ event ∷ [] })
  unfolding insert_webhook_event
  stored_new db h k =
      let free : key_taken event db ≡ false = key_taken-any db ∙ h in
      rw (free, no_clash db.events h k) refl

  found_new :
      (events : List Event) (db : Db)
      → any holds_key events ≡ false
      → db.events ≡ events ++ event ∷ []
      → existing_event event db ≡ some event
  found_new events db h same =
      ap (λ o. or_event o (by_hash event db))
        (by_key-find db event (
          ap (find holds_key) same
          ∙ find-last holds_key events event h (takes_key event event key ke refl)))

  again_new :
      (task other : Task) (db after : Db) (r : Bool × String × String)
      → any holds_key db.events ≡ false
      → any (λ e. str_eq e.event_id event.event_id) db.events ≡ false
      → task.event_id ≡ some event.event_id
      → insert_both none event task db ≡ returns r after
      → (i t : String) × (insert_event_and_task event other after ≡ returns (false, i, t) after)
  again_new task other db after r h k own ended =
      let stored = record db { events = db.events ++ event ∷ [] } in
      let placed =
        inserted-task true event.event_id task.task_id task stored r after
          (rw (stored_new db h k) at ended) in
      let there =
        any-last (references task) db.events event
          (owned event.event_id task event own ((eq_iff event.event_id event.event_id).1 refl)) in
      let same : after.events ≡ db.events ++ event ∷ [] =
        ap (λ (d : Db). d.events) placed
        ∙ auto_events-same stored.auto_event task stored.events there in
      let (t, found) = finds_task task event.event_id (create_event task stored) db.tasks own in
      (
        event.event_id,
        t.task_id,
        again event event t other after (found_new db.events after h same)
            (ap (get_task_by_event_id event.event_id) placed ∙ found),
      )

  again_cases :
      (o : Option Event) (task other : Task) (db after : Db) (r : Bool × String × String)
      → existing_event event db ≡ o
      → any (λ e. str_eq e.event_id event.event_id) db.events ≡ false
      → task.event_id ≡ some event.event_id
      → insert_both o event task db ≡ returns r after
      → (i t : String) × (insert_event_and_task event other after ≡ returns (false, i, t) after)
  again_cases none task other db after r h k own ended =
      again_new task other db after r (no_key db h) k own ended
  again_cases (some e) task other db after r h k own ended =
      let (same, t, found) =
        attached event e (get_task_by_event_id e.event_id db) task db after r h refl ended in
      (
        e.event_id,
        t.task_id,
        again event e t other after (existing-events event db after same ∙ h) found,
      )

  -- When insert_event_and_task returned for an event that has a non-empty idempotency key and a
  -- new event id, and for a task that names the event, a second call with the event, and any task,
  -- reports a known event and changes nothing.
  pub insert_event_and_task-again :
      (task other : Task) (db after : Db) (r : Bool × String × String)
      → any (λ e. str_eq e.event_id event.event_id) db.events ≡ false
      → task.event_id ≡ some event.event_id
      → insert_event_and_task event task db ≡ returns r after
      → (i t : String) × (insert_event_and_task event other after ≡ returns (false, i, t) after)
  unfolding insert_event_and_task
  insert_event_and_task-again task other db after r k own ended =
      again_cases (existing_event event db) task other db after r refl k own ended

refused_task :
    (b : Bool) (i j : String) (t : Task) (db : Db)
    → task_allowed t (create_event t db) ≡ false
    → with_task b i j db (insert_task t db) ≡ raises db
unfolding insert_task
refused_task b i j t db h = rw (insert_task, h) refl

-- When no earlier event is found, the event is inserted and the task is then refused,
-- insert_event_and_task raises and the event stays in the store.
pub insert_event_and_task-leaves_event :
    (event : Event) (task : Task) (db : Db)
    → existing_event event db ≡ none
    → (insert_webhook_event event db).0 ≡ true
    → task_allowed task (create_event task (insert_webhook_event event db).1) ≡ false
    → (after : Db) × (insert_event_and_task event task db ≡ raises after)
      × (after.events ≡ db.events ++ event ∷ [])
unfolding insert_event_and_task
insert_event_and_task-leaves_event event task db new stored refused =
    let after = (insert_webhook_event event db).1 in
    (
      after,
      rw new (refused_task true event.event_id task.task_id task after refused),
      ap (λ (d : Db). d.events) (inserted-event event db stored),
    )
