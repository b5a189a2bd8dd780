-- ===== src/Broker.antt =====
-- hub/broker.py: the bounded publish/subscribe bus behind the event streams.
-- A queue object is a number, and `queues` is the store of the objects that the numbers name; a
-- subscriber that left may still hold its queue, so the store keeps it. `_subscribers` is the
-- dictionary, in the order of insertion; a set of queues is the list of its members.
pub mod Sets
pub mod Delivery
pub mod Leaving
use antigravity_webhook_hub.Prelude.{
  ℕ, suc, ◌+◌, Bool, true, false, not, ◌&&◌, ◌||◌, Option, none, some, List, [], ◌∷◌, ◌++◌, length,
  drop, any, keep, ◌==◌, if◌then◌else◌,
}
use antigravity_webhook_hub.Prelude.Int.{ℤ, pos, negsuc, ltb_ℤ}
use antigravity_webhook_hub.Text.{Text, codes, text_eq, starts_with}

-- asyncio.Queue; one without a positive `maxsize` is unbounded.
pub record Queue (A : Type 0) : Type 0 where
  pub maxsize : ℤ
  pub items : List A

pub record Subscription : Type 0 where
  pub topic : Text
  pub members : List ℕ

pub record Broker (A : Type 0) : Type 0 where
  pub default_queue_size : ℤ
  pub subscribers : List Subscription
  pub queues : ℕ → Queue A
  pub next : ℕ

-- Sets of queues: `in`, `add`, `update`, `discard`.
abbrev pub has : ℕ → List ℕ → Bool
has i xs = any (λ j. j == i) xs

unfoldable pub add : ℕ → List ℕ → List ℕ
add i xs = if has i xs then xs else i ∷ xs

unfoldable pub update : List ℕ → List ℕ → List ℕ
unfolding add
update xs [] = xs
update xs (y ∷ ys) = update (add y xs) ys

abbrev pub discard : ℕ → List ℕ → List ℕ
discard i xs = keep (λ j. not (j == i)) xs

abbrev pub is_empty : List ℕ → Bool
is_empty [] = true
is_empty (x ∷ xs) = false

-- `_subscribers.get(topic, set())`
unfoldable pub members_of : Text → List Subscription → List ℕ
members_of topic [] = []
members_of topic (s ∷ ss) = if text_eq s.topic topic then s.members else members_of topic ss

unfoldable pub join_topic : Text → ℕ → List Subscription → List Subscription
unfolding add
join_topic topic i [] = record { topic = topic; members = i ∷ [] } ∷ []
join_topic topic i (s ∷ ss) =
    let rest = join_topic topic i ss in
    if text_eq s.topic topic then record s { members = add i s.members } ∷ ss else s ∷ rest

-- `maxsize or self._default_queue_size`
abbrev pub size_or : Option ℤ → ℤ → ℤ
size_or none d = d
size_or (some (pos n)) d = if n == 0 then d else pos n
size_or (some (negsuc n)) d = negsuc n

abbrev pub set_queue : {A : Type 0} → ℕ → Queue A → (ℕ → Queue A) → ℕ → Queue A
set_queue i q queues j = if j == i then q else queues j

unfoldable pub subscribe : {A : Type 0} → Text → Option ℤ → Broker A → ℕ × Broker A
unfolding join_topic
subscribe topic maxsize b = (
  b.next,
  record b {
    subscribers = join_topic topic b.next b.subscribers;
    queues =
        set_queue b.next (record { maxsize = size_or maxsize b.default_queue_size; items = [] })
          b.queues;
    next = suc b.next;
  },
)

-- The topic's own set; an empty set is deleted.
unfoldable pub leave_topic : Text → ℕ → List Subscription → List Subscription
leave_topic topic i [] = []
leave_topic topic i (s ∷ ss) =
    let rest = leave_topic topic i ss in
    if text_eq s.topic topic
    then (if is_empty (discard i s.members)
        then ss
        else record s { members = discard i s.members } ∷ ss)
    else s ∷ rest

-- The sweep over the other topics.
unfoldable pub leave_all : ℕ → List Subscription → List Subscription
leave_all i [] = []
leave_all i (s ∷ ss) =
    let rest = leave_all i ss in
    if has i s.members
    then (if is_empty (discard i s.members)
        then rest
        else record s { members = discard i s.members } ∷ rest)
    else s ∷ rest

unfoldable pub unsubscribe : {A : Type 0} → Text → ℕ → Broker A → Broker A
unfolding leave_topic leave_all
unsubscribe topic i b = record b { subscribers = leave_all i (leave_topic topic i b.subscribers) }

abbrev all_queues : List ℕ → List Subscription → List ℕ
all_queues acc [] = acc
all_queues acc (s ∷ ss) = all_queues (update acc s.members) ss

unfoldable pub subscriber_count : {A : Type 0} → Option Text → Broker A → ℕ
unfolding members_of update
subscriber_count none b = length (all_queues [] b.subscribers)
subscriber_count (some topic) b = length (members_of topic b.subscribers)

unfoldable pub clear : {A : Type 0} → Broker A → Broker A
clear b = record b { subscribers = [] }

abbrev pub is_task_topic : Text → Bool
is_task_topic topic = starts_with (codes "task.") topic

-- The queues that `publish` collects under its lock.
unfoldable pub target_queues : Text → List Subscription → List ℕ
unfolding members_of update
target_queues topic subs =
    let exact = update [] (members_of topic subs) in
    let wild = update exact (members_of (codes "*") subs) in
    let global =
      if text_eq topic (codes "events") || is_task_topic topic
      then update wild (members_of (codes "events") subs)
      else wild in
    if is_task_topic topic
    then update global (members_of (drop 5 topic) subs)
    else update global (members_of (codes "task." ++ topic) subs)

abbrev pub full : {A : Type 0} → Queue A → Bool
full q = ltb_ℤ (pos 0) q.maxsize && not (ltb_ℤ (pos (length q.items)) q.maxsize)

-- `if queue.full(): queue.get_nowait()`
unfoldable pub drop_oldest : {A : Type 0} → Queue A → Queue A
drop_oldest q = if full q then record q { items = drop 1 q.items } else q

-- `put_nowait`; on QueueFull the queue is left as it is.
unfoldable pub offer : {A : Type 0} → A → Queue A → Queue A
unfolding drop_oldest
offer message q =
    let room = drop_oldest q in
    if full room then room else record room { items = room.items ++ message ∷ [] }

unfoldable pub accepts : {A : Type 0} → Queue A → Bool
unfolding drop_oldest
accepts q = not (full (drop_oldest q))

unfoldable pub deliver_all : {A : Type 0} → A → List ℕ → (ℕ → Queue A) → ℕ × (ℕ → Queue A)
unfolding offer accepts
deliver_all message [] queues = (0, queues)
deliver_all message (i ∷ is) queues =
    let (n, after) = deliver_all message is (set_queue i (offer message (queues i)) queues) in
    (if accepts (queues i) then suc n else n, after)

unfoldable pub publish : {A : Type 0} → Text → A → Broker A → ℕ × Broker A
unfolding deliver_all target_queues
publish topic message b =
    let (delivered, after) = deliver_all message (target_queues topic b.subscribers) b.queues in
    (delivered, record b { queues = after })

-- The topic that `publish_event` chooses.
unfoldable pub event_topic : Text → Text
event_topic t =
    if is_task_topic t || text_eq t (codes "events") || text_eq t (codes "*")
    then t
    else codes "task." ++ t

-- `payload.setdefault(key, value)`
unfoldable pub set_default : {V : Type 0} → Text → V → List (Text × V) → List (Text × V)
set_default k v [] = (k, v) ∷ []
set_default k v ((j, w) ∷ d) =
    let rest = set_default k v d in if text_eq j k then (j, w) ∷ d else (j, w) ∷ rest

-- `of_text` is a text as a value of a dictionary.
unfoldable pub publish_event :
    {V : Type 0} (of_text : Text → V)
    → Text
    → Text
    → List (Text × V)
    → Broker (List (Text × V))
    → ℕ × Broker (List (Text × V))
unfolding publish event_topic set_default
publish_event of_text task_id_or_topic event_type given b =
    publish (event_topic task_id_or_topic) (set_default (codes "event") (of_text event_type) given)
      b
