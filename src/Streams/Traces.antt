-- ===== src/Streams/Traces.antt =====
-- What a stream leaves behind in the broker.
use antigravity_webhook_hub.Prelude.{
  ℕ, String, ◌≡◌, refl, sym, ap, ◌∙◌, Bool, true, false, not, ◌&&◌, ◌||◌, none, List, [], ◌∷◌, any,
  ◌==◌, arith, Bool-cases, inl, inr, ==_iff,
}
use antigravity_webhook_hub.Text.{Text, text_eq, text_eq_iff}
use antigravity_webhook_hub.Broker.{
  Broker, Subscription, has, add, is_empty, join_topic, members_of, subscribe,
}
use antigravity_webhook_hub.Broker.Leaving.{
  holds, hollow, Unique, nobody-members, subscribe-members, unsubscribe-members,
}
use antigravity_webhook_hub.Streams.{Notice, StreamHub, topic_of, open_stream, close_stream}

-- A dictionary that the broker can have: each topic once, no empty set, and no queue that is yet to
-- be made.
pub record IsTidy (b : Broker Notice) : Type 0 where
  pub unique : Unique b.subscribers
  pub nonempty : any hollow b.subscribers ≡ false
  pub fresh : any (holds b.next) b.subscribers ≡ false

add-nonempty : (i : ℕ) (xs : List ℕ) → is_empty (add i xs) ≡ false
unfolding add
add-nonempty i [] = refl
add-nonempty i (x ∷ xs) = elim (Bool-cases (has i (x ∷ xs))) [
  | inl e ↦ rw e refl
  | inr e ↦ rw e refl
]

join_topic-hollow :
    (topic : Text) (i : ℕ) (ss : List Subscription)
    → any hollow ss ≡ false
    → any hollow (join_topic topic i ss) ≡ false
unfolding join_topic
join_topic-hollow topic i [] h = refl
join_topic-hollow topic i (s ∷ ss) h =
    ground (arith, join_topic-hollow topic i ss, add-nonempty i s.members)

join_topic-absent :
    (topic : Text) (i : ℕ) (v : Text) (ss : List Subscription)
    → any (λ u. text_eq u.topic v) ss ≡ false
    → text_eq topic v ≡ false
    → any (λ u. text_eq u.topic v) (join_topic topic i ss) ≡ false
unfolding join_topic
join_topic-absent topic i v [] h k = ground arith
join_topic-absent topic i v (s ∷ ss) h k = ground (arith, join_topic-absent topic i v ss)

other_way : (s t : Text) → text_eq s t ≡ false → text_eq t s ≡ false
other_way s t h = elim (Bool-cases (text_eq t s)) [
  | inl e ↦ absurd (cc ((text_eq_iff s t).1 (sym ((text_eq_iff t s).0 e)), h))
  | inr e ↦ e
]

join_topic-Unique :
    (topic : Text) (i : ℕ) (ss : List Subscription) → Unique ss → Unique (join_topic topic i ss)
unfolding join_topic Unique
join_topic-Unique topic i [] d = (refl, tt)
join_topic-Unique topic i (s ∷ ss) d = elim (Bool-cases (text_eq s.topic topic)) [
  | inl e ↦ rw e d
  | inr e ↦ rw e (
    join_topic-absent topic i s.topic ss d.0 (other_way s.topic topic e),
    join_topic-Unique topic i ss d.1,
  )
]

or-nothing : (same had : Bool) → same && false || had ≡ had
or-nothing true had = refl
or-nothing false had = refl

-- A queue that is made and leaves: the others stay.
join-leave :
    (j n : ℕ) (same had : Bool)
    → ((j == n) ≡ true → had ≡ false)
    → not (j == n) && (same && n == j || had) ≡ had
join-leave j n same had h = elim (Bool-cases (j == n)) [
  | inl e ↦ rw (e, h e) refl
  | inr e ↦ let other : (n == j) ≡ false = ground arith in rw (e, other) (or-nothing same had)
]

-- A stream that was opened and is closed leaves no subscription behind: every topic has the
-- subscribers that it had. The dictionary had each topic once, none with an empty set, and not the
-- queue to be made.
close_stream-members :
    (task_id : String) (since_id t : Text) (j : ℕ) (s : StreamHub)
    → IsTidy s.broker
    → let (stream, opened) = open_stream task_id since_id s in
      has j (members_of t (close_stream task_id stream opened).broker.subscribers)
      ≡ has j (members_of t s.broker.subscribers)
unfolding open_stream close_stream
close_stream-members task_id since_id t j s h =
    let b = s.broker in
    let topic = topic_of task_id in
    (unsubscribe-members topic b.next j t (subscribe topic none b).1
      (join_topic-hollow topic b.next b.subscribers h.nonempty)
      (join_topic-Unique topic b.next b.subscribers h.unique)).0
    ∙ ap (λ x. not (j == b.next) && x) (subscribe-members topic none j t b)
    ∙ join-leave j b.next (text_eq topic t) (has j (members_of t b.subscribers)) (λ e.
      ap (λ n. has n (members_of t b.subscribers)) ((==_iff j b.next).0 e)
      ∙ nobody-members b.next t b.subscribers h.fresh)
