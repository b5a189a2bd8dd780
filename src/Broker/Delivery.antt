-- ===== src/Broker/Delivery.antt =====
-- What `publish` of hub/broker.py does to every queue.
use antigravity_webhook_hub.Prelude.{
  ℕ, suc, ◌-◌, ◌≡◌, refl, sym, ap, ◌∙◌, Bool, true, false, ◌&&◌, ◌||◌, List, [], ◌∷◌, ◌++◌, length,
  drop, ◌==◌, if◌then◌else◌, arith, Bool-cases, inl, inr, ==_iff,
}
use antigravity_webhook_hub.Prelude.Int.{pos, ltb_ℤ}
use antigravity_webhook_hub.Text.{Text, codes, text_eq}
use antigravity_webhook_hub.Broker.{
  Queue, Broker, Subscription, has, full, drop_oldest, offer, accepts, deliver_all, publish,
  target_queues, members_of, update, set_queue, is_task_topic,
}
use antigravity_webhook_hub.Broker.Sets.{NoRepeats, has-update, NoRepeats-update}

-- A bounded queue holds no more than `maxsize` messages.
abbrev pub IsBounded : {A : Type 0} → Queue A → Type 0
IsBounded q = ltb_ℤ (pos 0) q.maxsize && ltb_ℤ q.maxsize (pos (length q.items)) ≡ false

length-drop_one : {A : Type 0} (xs : List A) → length (drop 1 xs) ≡ length xs - 1
length-drop_one [] = refl
length-drop_one (x ∷ xs) = omega arith

length-snoc : {A : Type 0} (xs : List A) (x : A) → length (xs ++ x ∷ []) ≡ suc (length xs)
length-snoc [] x = refl
length-snoc (y ∷ xs) x = omega (arith, length-snoc xs x)

module _ {A : Type 0} where
  drop_oldest-room : (q : Queue A) → IsBounded q → full (drop_oldest q) ≡ false
  unfolding drop_oldest
  drop_oldest-room q h = elim (Bool-cases (full q)) [
    | inl e ↦ rw e (ground (arith, length-drop_one q.items))
    | inr e ↦ rw (e, e) refl
  ]

  accepts-IsBounded : (q : Queue A) → IsBounded q → accepts q ≡ true
  unfolding accepts
  accepts-IsBounded q h = rw (drop_oldest-room q h) refl

  -- A bounded queue within its bound, or an unbounded one, takes every message: a full queue loses
  -- its oldest message, and the new one stands last.
  pub offer-items :
      (message : A) (q : Queue A)
      → IsBounded q
      → (offer message q).items ≡ (if full q then drop 1 q.items else q.items) ++ message ∷ []
  unfolding offer drop_oldest
  offer-items message q h =
      let room : full (drop_oldest q) ≡ false = drop_oldest-room q h in
      elim (Bool-cases (full q)) [ inl e ↦ rw (room, e) refl | inr e ↦ rw (room, e) refl ]

  offer-maxsize : (message : A) (q : Queue A) → (offer message q).maxsize ≡ q.maxsize
  unfolding offer drop_oldest
  offer-maxsize message q = ground arith

  -- A queue within its bound is within it after a message was offered to it.
  pub offer-IsBounded : (message : A) (q : Queue A) → IsBounded q → IsBounded (offer message q)
  offer-IsBounded message q h =
      rw (offer-maxsize message q, offer-items message q h)
        (elim (Bool-cases (full q)) [
          | inl e ↦
              rw e (ground (arith, length-snoc (drop 1 q.items) message, length-drop_one q.items))
          | inr e ↦ rw e (ground (arith, length-snoc q.items message))
        ])

==-swap : (i j : ℕ) → (i == j) ≡ false → (j == i) ≡ false
==-swap i j h = ground arith

==-refl : (i : ℕ) → (i == i) ≡ true
==-refl i = ground arith

module _ {A : Type 0} (message : A) where
  offered_once :
      (i j : ℕ) (is : List ℕ) (queues : ℕ → Queue A)
      → i ≡ j
      → has i is ≡ false
      → (if has j is
          then offer message (set_queue i (offer message (queues i)) queues j)
          else set_queue i (offer message (queues i)) queues j)
        ≡ (if has j (i ∷ is) then offer message (queues j) else queues j)
  offered_once i j is queues e h = rw (sym e, h, ==-refl i) refl

  deliver_all-queue :
      (is : List ℕ) (queues : ℕ → Queue A) (j : ℕ)
      → NoRepeats is
      → (deliver_all message is queues).1 j
        ≡ (if has j is then offer message (queues j) else queues j)
  unfolding deliver_all
  deliver_all-queue [] queues j d = refl
  deliver_all-queue (i ∷ is) queues j d =
      deliver_all-queue is (set_queue i (offer message (queues i)) queues) j d.1
      ∙ (elim (Bool-cases (i == j)) [
        | inl e ↦ offered_once i j is queues ((==_iff i j).0 e) d.0
        | inr e ↦ rw (e, ==-swap i j e) refl
      ])

  deliver_all-count :
      (is : List ℕ) (queues : ℕ → Queue A)
      → ((j : ℕ) → IsBounded (queues j))
      → (deliver_all message is queues).0 ≡ length is
  unfolding deliver_all
  deliver_all-count [] queues h = refl
  deliver_all-count (i ∷ is) queues h = rw (accepts-IsBounded (queues i) (h i)) (
      ap suc (
        deliver_all-count is (set_queue i (offer message (queues i)) queues) λ j.
          (elim (Bool-cases (j == i)) [
            | inl e ↦ rw e (offer-IsBounded message (queues i) (h i))
            | inr e ↦ rw e (h j)
          ])))

-- The queues that a message on a topic is for, read off the subscriptions.
abbrev pub other_name : Text → Text
other_name topic = if is_task_topic topic then drop 5 topic else codes "task." ++ topic

abbrev pub hears : ℕ → Text → List Subscription → Bool
hears i topic subs =
    has i (members_of topic subs)
    || has i (members_of (codes "*") subs)
    || (text_eq topic (codes "events") || is_task_topic topic)
      && has i (members_of (codes "events") subs)
    || has i (members_of (other_name topic) subs)

-- The union that `publish` builds, with the fourth set given.
abbrev union : Bool → List ℕ → List ℕ → List ℕ → List ℕ → List ℕ
union global exact wild events other =
    update
      (if global
        then update (update (update [] exact) wild) events
        else update (update [] exact) wild)
      other

has-union :
    (i : ℕ) (g : Bool) (a b c d : List ℕ)
    → has i (union g a b c d) ≡ has i a || has i b || g && has i c || has i d
has-union i true a b c d =
    has-update i (update (update (update [] a) b) c) d
    ∙ rw (has-update i (update (update [] a) b) c, has-update i (update [] a) b, has-update i [] a)
        (ground arith)
has-union i false a b c d =
    has-update i (update (update [] a) b) d
    ∙ rw (has-update i (update [] a) b, has-update i [] a) (ground arith)

NoRepeats-union : (g : Bool) (a b c d : List ℕ) → NoRepeats (union g a b c d)
NoRepeats-union true a b c d = NoRepeats-update (update (update (update [] a) b) c) d (
    NoRepeats-update (update (update [] a) b) c
      (NoRepeats-update (update [] a) b (NoRepeats-update [] a tt)))
NoRepeats-union false a b c d =
    NoRepeats-update (update (update [] a) b) d
      (NoRepeats-update (update [] a) b (NoRepeats-update [] a tt))

pub has-target_queues :
    (i : ℕ) (topic : Text) (subs : List Subscription)
    → has i (target_queues topic subs) ≡ hears i topic subs
unfolding target_queues
has-target_queues i topic subs = elim (Bool-cases (is_task_topic topic)) [
  | inl e ↦ rw e (
      has-union i (text_eq topic (codes "events") || true) (members_of topic subs)
        (members_of (codes "*") subs) (members_of (codes "events") subs)
        (members_of (drop 5 topic) subs))
  | inr e ↦ rw e (
      has-union i (text_eq topic (codes "events") || false) (members_of topic subs)
        (members_of (codes "*") subs) (members_of (codes "events") subs)
        (members_of (codes "task." ++ topic) subs))
]

NoRepeats-target_queues :
    (topic : Text) (subs : List Subscription) → NoRepeats (target_queues topic subs)
unfolding target_queues
NoRepeats-target_queues topic subs = elim (Bool-cases (is_task_topic topic)) [
  | inl e ↦ rw e (
      NoRepeats-union (text_eq topic (codes "events") || true) (members_of topic subs)
        (members_of (codes "*") subs) (members_of (codes "events") subs)
        (members_of (drop 5 topic) subs))
  | inr e ↦ rw e (
      NoRepeats-union (text_eq topic (codes "events") || false) (members_of topic subs)
        (members_of (codes "*") subs) (members_of (codes "events") subs)
        (members_of (codes "task." ++ topic) subs))
]

module _ {A : Type 0} (topic : Text) (message : A) (b : Broker A) where
  -- A message is offered once to every queue that subscribes to its topic, under either name of a
  -- task, to the wildcard, or to the event feed if the topic belongs to it; every other queue is
  -- left as it was.
  pub publish-queue :
      (i : ℕ)
      → (publish topic message b).1.queues i
        ≡ (if hears i topic b.subscribers then offer message (b.queues i) else b.queues i)
  unfolding publish
  publish-queue i =
      deliver_all-queue message (target_queues topic b.subscribers) b.queues i
        (NoRepeats-target_queues topic b.subscribers)
      ∙ ap (λ h. if h then offer message (b.queues i) else b.queues i)
          (has-target_queues i topic b.subscribers)

  -- If every queue is within its bound, publish returns the number of its target queues: none of
  -- them refuses the message.
  pub publish-delivered :
      ((i : ℕ) → IsBounded (b.queues i))
      → (publish topic message b).0 ≡ length (target_queues topic b.subscribers)
  unfolding publish
  publish-delivered h = deliver_all-count message (target_queues topic b.subscribers) b.queues h

  heard-items :
      (i : ℕ) (heard : Bool)
      → IsBounded (b.queues i)
      → (if heard then offer message (b.queues i) else b.queues i).items ≡ (
          if heard
          then (if full (b.queues i) then drop 1 (b.queues i).items else (b.queues i).items)
            ++ message ∷ []
          else (b.queues i).items)
  heard-items i true h = offer-items message (b.queues i) h
  heard-items i false h = refl

  -- If every queue is within its bound, publish returns the number of its target queues, and a
  -- message goes once, to the end, to every queue that subscribes to its topic, under either name
  -- of a task, to the wildcard, or to the event feed if the topic belongs to it: a full queue
  -- loses its oldest message for it. Every other queue holds what it held.
  pub publish-items :
      ((i : ℕ) → IsBounded (b.queues i))
      → ((publish topic message b).0 ≡ length (target_queues topic b.subscribers))
        × ((i : ℕ)
            → ((publish topic message b).1.queues i).items ≡ (
                if hears i topic b.subscribers
                then (if full (b.queues i) then drop 1 (b.queues i).items else (b.queues i).items)
                  ++ message ∷ []
                else (b.queues i).items))
  publish-items h = (
    publish-delivered h,
    λ i. ap (λ q. q.items) (publish-queue i) ∙ heard-items i (hears i topic b.subscribers) (h i),
  )
