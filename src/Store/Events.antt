-- ===== src/Store/Events.antt =====
-- The methods of hub/db.py on `webhook_events`.
use antigravity_webhook_hub.Prelude.{
  ℕ, String, str_eq, Bool, true, false, not, ◌&&◌, ◌||◌, Option, none, some, List, [], ◌∷◌, ◌++◌,
  any, find, keep, take, leb, map, if◌then◌else◌,
}
use antigravity_webhook_hub.Prelude.Int.{ℤ, pos, negsuc}
use antigravity_webhook_hub.Store.Rows.{
  EventStatus, received, Event, Db, sql_eq, event_status_eq, event_clashes, references,
}

-- `if idemp_key:` and the SELECT behind it.
abbrev pub key_taken : Event → Db → Bool
key_taken event db = elim event.idempotency_key [
  | none ↦ false
  | some k ↦
      not (str_eq k "")
      && any (λ e. str_eq e.source event.source && sql_eq e.idempotency_key k) db.events
]

-- False for a duplicate; then nothing is written.
unfoldable pub insert_webhook_event : Event → Db → Bool × Db
insert_webhook_event event db =
    if key_taken event db
    then (false, db)
    else if any (event_clashes event) db.events
    then (false, db)
    else (true, record db { events = db.events ++ event ∷ [] })

unfoldable pub get_webhook_event : String → Db → Option Event
get_webhook_event event_id db = find (λ e. str_eq e.event_id event_id) db.events

-- ORDER BY received_at DESC LIMIT 1. Among equal times the later row stands first, as the
-- descending scan of the index on `received_at` gives them.
unfoldable pub latest_event : List Event → Option Event
latest_event [] = none
latest_event (e ∷ es) = elim (latest_event es) [
  | none ↦ some e
  | some l ↦ if leb e.received_at l.received_at then some l else some e
]

unfoldable pub get_event_by_idempotency : String → String → Db → Option Event
unfolding latest_event
get_event_by_idempotency source key db =
    elim (find (λ e. str_eq e.source source && sql_eq e.idempotency_key key) db.events) [
      | some e ↦ some e
      | none ↦ latest_event (keep (λ e. sql_eq e.idempotency_key key) db.events)
    ]

unfoldable pub get_event_by_payload_hash : String → String → Db → Option Event
unfolding latest_event
get_event_by_payload_hash source hash db =
    elim (latest_event
      (keep (λ e. str_eq e.source source && str_eq e.payload_hash hash) db.events)) [
        | some e ↦ some e
        | none ↦ latest_event (keep (λ e. str_eq e.payload_hash hash) db.events)
      ]

unfoldable pub update_event_status : String → EventStatus → Db → Bool × Db
update_event_status event_id status db = (
  any (λ e. str_eq e.event_id event_id) db.events,
  record db {
    events =
        map (λ e. if str_eq e.event_id event_id then record e { status = status } else e) db.events;
  },
)

-- Insertion by `received_at`, behind the rows of the same time.
unfoldable pub insert_by_time : Event → List Event → List Event
insert_by_time e [] = e ∷ []
insert_by_time e (f ∷ fs) =
    let rest = insert_by_time e fs in
    if leb f.received_at e.received_at then f ∷ rest else e ∷ f ∷ fs

unfoldable pub by_time : List Event → List Event → List Event
unfolding insert_by_time
by_time sorted [] = sorted
by_time sorted (e ∷ es) = by_time (insert_by_time e sorted) es

-- `AND e.source = ?`, if a source is given.
abbrev pub source_matches : Option String → String → Bool
source_matches none s = true
source_matches (some wanted) s = str_eq wanted "" || str_eq s wanted

abbrev pub is_orphan : Option String → Db → Event → Bool
is_orphan source db e =
    event_status_eq e.status received
    && not (any (λ t. references t e) db.tasks)
    && source_matches source e.source

unfoldable pub get_orphaned_webhook_events : Option String → ℕ → Db → List Event
unfolding by_time
get_orphaned_webhook_events source limit db =
    take limit (by_time [] (keep (is_orphan source db) db.events))

-- `get_events_backlog` of hub/broker.py, which does not use `since_id`. A limit below 0 is none.
unfoldable pub get_events_backlog : ℤ → Db → List Event
unfolding by_time
get_events_backlog (pos limit) db = take limit (by_time [] db.events)
get_events_backlog (negsuc limit) db = by_time [] db.events
