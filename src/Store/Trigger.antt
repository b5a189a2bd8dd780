-- ===== src/Store/Trigger.antt =====
-- About the trigger of register_sse_routes (hub/routes/sse.py), and the events that a lookup finds.
use antigravity_webhook_hub.Prelude.{
  ◌≡◌, refl, String, str_eq, Bool, true, ◌&&◌, some, List, [], ◌∷◌, any, keep, leb, arith,
  Bool-cases, Option-cases, inl, inr, find, find-any,
}
use antigravity_webhook_hub.Store.Rows.{Event, Task, Db, sql_eq, references, auto_events}
use antigravity_webhook_hub.Store.Events.{
  latest_event, get_event_by_idempotency, get_event_by_payload_hash,
}
use antigravity_webhook_hub.Store.Intake.{by_key, by_hash, existing_event}

pub auto_events-same :
    (installed : Bool) (t : Task) (es : List Event)
    → any (references t) es ≡ true
    → auto_events installed t es ≡ es
unfolding auto_events
auto_events-same installed t es h = elim (Option-cases t.event_id) [
  | inl e ↦ rw e refl
  | inr (i, e) ↦
      let there : any (λ x. str_eq i x.event_id) es ≡ true = (rw e at h) in
      rw e (elim (Bool-cases installed) [ inl k ↦ rw (k, there) refl | inr k ↦ rw k refl ])
]

latest_event-any :
    (q : Event → Bool) (es : List Event) (e : Event)
    → latest_event es ≡ some e
    → q e ≡ true
    → any q es ≡ true
unfolding latest_event
latest_event-any q [] e h k = cc
latest_event-any q (x ∷ es) e h k = elim (Option-cases (latest_event es)) [
  | inl n ↦ let same : x ≡ e = cc (rw n at h) in rw same (ground (arith, k))
  | inr (l, n) ↦ (elim (Bool-cases (leb x.received_at l.received_at)) [
    | inl c ↦
        let same : l ≡ e = cc (rw (n, c) at h) in
        ground (arith, latest_event-any q es l n (rw same k))
    | inr c ↦ let same : x ≡ e = cc (rw (n, c) at h) in rw same (ground (arith, k))
  ])
]

any-keep : (p q : Event → Bool) (es : List Event) → any q (keep p es) ≡ true → any q es ≡ true
any-keep p q [] h = h
any-keep p q (e ∷ es) h = ground (arith, any-keep p q es)

latest_kept-any :
    (p q : Event → Bool) (es : List Event) (e : Event)
    → latest_event (keep p es) ≡ some e
    → q e ≡ true
    → any q es ≡ true
latest_kept-any p q es e h k = any-keep p q es (latest_event-any q (keep p es) e h k)

module _ (q : Event → Bool) (event : Event) (db : Db) (e : Event) (holds : q e ≡ true) where
  by_idempotency-any :
      (key : String)
      → get_event_by_idempotency event.source key db ≡ some e
      → any q db.events ≡ true
  unfolding get_event_by_idempotency
  by_idempotency-any key h =
      elim (Option-cases
        (find (λ x. str_eq x.source event.source && sql_eq x.idempotency_key key) db.events)) [
          | inl n ↦
              latest_kept-any (λ x. sql_eq x.idempotency_key key) q db.events e
                (rw (get_event_by_idempotency, n) at h) holds
          | inr (f, n) ↦
              let same : f ≡ e = cc (rw (get_event_by_idempotency, n) at h) in
              find-any (λ x. str_eq x.source event.source && sql_eq x.idempotency_key key) q
                db.events f n (rw same holds)
        ]

  by_payload_hash-any :
      get_event_by_payload_hash event.source event.payload_hash db ≡ some e → any q db.events ≡ true
  unfolding get_event_by_payload_hash
  by_payload_hash-any h =
      elim (Option-cases (
        latest_event (
          keep (λ x. str_eq x.source event.source && str_eq x.payload_hash event.payload_hash)
            db.events))) [
              | inl n ↦
                  latest_kept-any (λ x. str_eq x.payload_hash event.payload_hash) q db.events e
                    (rw (get_event_by_payload_hash, n) at h) holds
              | inr (f, n) ↦
                  let same : f ≡ e = cc (rw (get_event_by_payload_hash, n) at h) in
                  latest_kept-any
                    (λ x. str_eq x.source event.source && str_eq x.payload_hash event.payload_hash)
                    q db.events f n (rw same holds)
            ]

  by_key-any : by_key event db ≡ some e → any q db.events ≡ true
  by_key-any h = elim (Option-cases event.idempotency_key) [
    | inl n ↦ absurd (cc (rw n at h))
    | inr (key, n) ↦ (elim (Bool-cases (str_eq key "")) [
      | inl c ↦ absurd (cc (rw (n, c) at h))
      | inr c ↦ by_idempotency-any key (rw (n, c) at h)
    ])
  ]

  by_hash-any : by_hash event db ≡ some e → any q db.events ≡ true
  by_hash-any h = elim (Bool-cases (str_eq event.payload_hash "")) [
    | inl c ↦ absurd (cc (rw c at h))
    | inr c ↦ by_payload_hash-any (rw c at h)
  ]

  -- What the lookup of an event finds stands in the table.
  pub existing_event-any : existing_event event db ≡ some e → any q db.events ≡ true
  existing_event-any h = elim (Option-cases (by_key event db)) [
    | inl n ↦ by_hash-any (rw n at h)
    | inr (f, n) ↦ by_key-any (cc (n, rw n at h))
  ]
