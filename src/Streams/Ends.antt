-- ===== src/Streams/Ends.antt =====
-- How a stream that waits for messages comes to its end.
use antigravity_webhook_hub.Prelude.{
  ℕ, String, ◌≡◌, refl, ap, ◌∙◌, true, Option, List, [], ◌∷◌, ◌++◌, any, drop, if◌then◌else◌, arith,
  any-last,
}
use antigravity_webhook_hub.Prelude.Int.{ℤ}
use antigravity_webhook_hub.Broker.{Broker, has, members_of, full}
use antigravity_webhook_hub.Broker.Delivery.{IsBounded, hears, publish-items}
use antigravity_webhook_hub.Streams.{
  Notice, StreamRound, arrives, times_out, cancels, live, is_last, is_completion, status_payload,
  publish_status, topic_of,
}

-- The messages that the rounds take.
abbrev pub taken : List StreamRound → List Notice
taken [] = []
taken (arrives p ∷ rounds) = p ∷ taken rounds
taken (times_out ∷ rounds) = taken rounds
taken (cancels ∷ rounds) = taken rounds

live-ends : (rounds : List StreamRound) → any is_last (taken rounds) ≡ true → (live rounds).1 ≡ true
unfolding live
live-ends [] h = h
live-ends (arrives p ∷ rounds) h = ground (arith, live-ends rounds)
live-ends (times_out ∷ rounds) h = live-ends rounds h
live-ends (cancels ∷ rounds) h = refl

status_payload-last :
    (task_id status : String) (code : Option ℤ) (now : ℕ)
    → is_completion status ≡ true
    → is_last (status_payload task_id status code now) ≡ true
unfolding status_payload is_completion is_last
status_payload-last task_id status code now h = rw h refl

-- A stream ends when its task is completed: if its queue stands in the set of the topic when the
-- completion is published, and its rounds take what the queue then holds, with pauses anywhere,
-- the live loop comes to its end. The queues are within their bounds.
pub publish_status-ends :
    (task_id status : String) (code : Option ℤ) (now i : ℕ) (b : Broker Notice)
    (rounds : List StreamRound)
    → ((j : ℕ) → IsBounded (b.queues j))
    → has i (members_of (topic_of task_id) b.subscribers) ≡ true
    → is_completion status ≡ true
    → taken rounds ≡ ((publish_status task_id status code now b).1.queues i).items
    → (live rounds).1 ≡ true
unfolding publish_status
publish_status-ends task_id status code now i b rounds bounded member done h =
    let p = status_payload task_id status code now in
    let heard : hears i (topic_of task_id) b.subscribers ≡ true = rw member refl in
    live-ends rounds (
      ap (any is_last) (
        h
        ∙ (publish-items (topic_of task_id) p b bounded).1 i
        ∙ ap
            (λ x.
              if x
              then (if full (b.queues i) then drop 1 (b.queues i).items else (b.queues i).items)
                ++ p ∷ []
              else (b.queues i).items)
            heard)
      ∙ any-last is_last _ p (status_payload-last task_id status code now done))
