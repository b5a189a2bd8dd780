-- ===== src/Broker/Leaving.antt =====
-- What `subscribe` and `unsubscribe` of hub/broker.py do to the sets of the topics.
use antigravity_webhook_hub.Prelude.{
  ap, not, ==_iff, ℕ, ◌≡◌, refl, sym, ◌∙◌, Bool, true, false, ◌&&◌, ◌||◌, Option, List, [], ◌∷◌,
  any, ◌==◌, arith, Bool-cases, inl, inr,
}
use mathlib.Core.Path.{subst}
use antigravity_webhook_hub.Prelude.Int.{ℤ}
use antigravity_webhook_hub.Text.{Text, text_eq, text_eq_iff}
use antigravity_webhook_hub.Broker.{
  Broker, Subscription, has, discard, is_empty, leave_topic, leave_all, unsubscribe, subscribe,
  join_topic, members_of,
}
use antigravity_webhook_hub.Broker.Sets.{has-discard_self, has-discard_other, has-add}

-- The set holds the queue.
abbrev pub holds : ℕ → Subscription → Bool
holds i s = has i s.members

abbrev pub hollow : Subscription → Bool
hollow s = is_empty s.members

leave_all-gone : (i : ℕ) (ss : List Subscription) → any (holds i) (leave_all i ss) ≡ false
unfolding leave_all
leave_all-gone i [] = refl
leave_all-gone i (s ∷ ss) = ground (arith, leave_all-gone i ss, has-discard_self i s.members)

leave_all-hollow :
    (i : ℕ) (ss : List Subscription) → any hollow ss ≡ false → any hollow (leave_all i ss) ≡ false
unfolding leave_all
leave_all-hollow i [] h = refl
leave_all-hollow i (s ∷ ss) h = ground (arith, leave_all-hollow i ss)

leave_topic-hollow :
    (topic : Text) (i : ℕ) (ss : List Subscription)
    → any hollow ss ≡ false
    → any hollow (leave_topic topic i ss) ≡ false
unfolding leave_topic
leave_topic-hollow topic i [] h = refl
leave_topic-hollow topic i (s ∷ ss) h = ground (arith, leave_topic-hollow topic i ss)

unsubscribe-gone :
    {A : Type 0} (topic : Text) (i : ℕ) (b : Broker A)
    → any hollow b.subscribers ≡ false
    → (any (holds i) (unsubscribe topic i b).subscribers ≡ false)
      × (any hollow (unsubscribe topic i b).subscribers ≡ false)
unfolding unsubscribe
unsubscribe-gone topic i b h = (
  leave_all-gone i (leave_topic topic i b.subscribers),
  leave_all-hollow i (leave_topic topic i b.subscribers)
      (leave_topic-hollow topic i b.subscribers h),
)

-- The dictionary has a topic once.
unfoldable pub Unique : List Subscription → Type 0
Unique [] = Unit
Unique (s ∷ ss) = (any (λ u. text_eq u.topic s.topic) ss ≡ false) × Unique ss

absent-members :
    (t : Text) (j : ℕ) (ss : List Subscription)
    → any (λ u. text_eq u.topic t) ss ≡ false
    → has j (members_of t ss) ≡ false
unfolding members_of
absent-members t j [] h = refl
absent-members t j (s ∷ ss) h = ground (arith, absent-members t j ss)

empty-has : (j : ℕ) (xs : List ℕ) → is_empty xs ≡ true → has j xs ≡ false
empty-has j [] h = refl
empty-has j (x ∷ xs) h = cc

leave_all-absent :
    (i : ℕ) (v : Text) (ss : List Subscription)
    → any (λ u. text_eq u.topic v) ss ≡ false
    → any (λ u. text_eq u.topic v) (leave_all i ss) ≡ false
unfolding leave_all
leave_all-absent i v [] h = refl
leave_all-absent i v (s ∷ ss) h = ground (arith, leave_all-absent i v ss)

absent-topic :
    (t : Text) (s : Subscription) (ss : List Subscription)
    → text_eq s.topic t ≡ true
    → any (λ u. text_eq u.topic s.topic) ss ≡ false
    → any (λ u. text_eq u.topic t) ss ≡ false
absent-topic t s ss e h =
    subst (λ v. any (λ u. text_eq u.topic v) ss ≡ false) ((text_eq_iff s.topic t).0 e) h

emptied :
    (i j : ℕ) (xs : List ℕ) → (j == i) ≡ false → is_empty (discard i xs) ≡ true → has j xs ≡ false
emptied i j xs h e = sym (has-discard_other i j xs h) ∙ empty-has j (discard i xs) e

leave_all-other :
    (i j : ℕ) (t : Text) (ss : List Subscription)
    → (j == i) ≡ false
    → Unique ss
    → has j (members_of t (leave_all i ss)) ≡ has j (members_of t ss)
unfolding leave_all members_of Unique
leave_all-other i j t [] h d = refl
leave_all-other i j t (s ∷ ss) h d = elim (Bool-cases (text_eq s.topic t)) [
  | inl e ↦ ground (
    arith,
    emptied i j s.members h,
    has-discard_other i j s.members h,
    absent-members t j (leave_all i ss) (leave_all-absent i t ss (absent-topic t s ss e d.0)),
  )
  | inr e ↦ ground (arith, leave_all-other i j t ss h d.1)
]

leave_topic-absent :
    (topic : Text) (i : ℕ) (v : Text) (ss : List Subscription)
    → any (λ u. text_eq u.topic v) ss ≡ false
    → any (λ u. text_eq u.topic v) (leave_topic topic i ss) ≡ false
unfolding leave_topic
leave_topic-absent topic i v [] h = refl
leave_topic-absent topic i v (s ∷ ss) h = ground (arith, leave_topic-absent topic i v ss)

leave_topic-Unique :
    (topic : Text) (i : ℕ) (ss : List Subscription) → Unique ss → Unique (leave_topic topic i ss)
unfolding leave_topic Unique
leave_topic-Unique topic i [] d = d
leave_topic-Unique topic i (s ∷ ss) d = elim (Bool-cases (text_eq s.topic topic)) [
  | inl e ↦ elim (Bool-cases (is_empty (discard i s.members))) [
    | inl k ↦ rw (e, k) d.1
    | inr k ↦ rw (e, k) d
  ]
  | inr e ↦ rw e (leave_topic-absent topic i s.topic ss d.0, leave_topic-Unique topic i ss d.1)
]

leave_topic-other :
    (topic : Text) (i j : ℕ) (t : Text) (ss : List Subscription)
    → (j == i) ≡ false
    → Unique ss
    → has j (members_of t (leave_topic topic i ss)) ≡ has j (members_of t ss)
unfolding leave_topic members_of Unique
leave_topic-other topic i j t [] h d = refl
leave_topic-other topic i j t (s ∷ ss) h d = elim (Bool-cases (text_eq s.topic t)) [
  | inl e ↦ ground (
    arith,
    emptied i j s.members h,
    has-discard_other i j s.members h,
    absent-members t j ss (absent-topic t s ss e d.0),
  )
  | inr e ↦ ground (arith, leave_topic-other topic i j t ss h d.1)
]

unsubscribe-other :
    {A : Type 0} (topic : Text) (i j : ℕ) (t : Text) (b : Broker A)
    → (j == i) ≡ false
    → Unique b.subscribers
    → has j (members_of t (unsubscribe topic i b).subscribers) ≡ has j (members_of t b.subscribers)
unfolding unsubscribe
unsubscribe-other topic i j t b h d =
    leave_all-other i j t (leave_topic topic i b.subscribers) h
      (leave_topic-Unique topic i b.subscribers d)
    ∙ leave_topic-other topic i j t b.subscribers h d

pub nobody-members :
    (i : ℕ) (t : Text) (ss : List Subscription)
    → any (holds i) ss ≡ false
    → has i (members_of t ss) ≡ false
unfolding members_of
nobody-members i t [] h = refl
nobody-members i t (s ∷ ss) h = ground (arith, nobody-members i t ss)

-- After unsubscribe, a queue stands in the set of a topic exactly if it did before and is not the
-- one that left, and no topic is left with an empty set, if the dictionary had each topic once and
-- none with an empty set.
pub unsubscribe-members :
    {A : Type 0} (topic : Text) (i j : ℕ) (t : Text) (b : Broker A)
    → any hollow b.subscribers ≡ false
    → Unique b.subscribers
    → (has j (members_of t (unsubscribe topic i b).subscribers)
        ≡ not (j == i) && has j (members_of t b.subscribers))
      × (any hollow (unsubscribe topic i b).subscribers ≡ false)
unsubscribe-members topic i j t b h d = (
  elim (Bool-cases (j == i)) [
    | inl e ↦ rw e (
        ap (λ x. has x (members_of t (unsubscribe topic i b).subscribers)) ((==_iff j i).0 e)
        ∙ nobody-members i t (unsubscribe topic i b).subscribers (unsubscribe-gone topic i b h).0)
    | inr e ↦ rw e (unsubscribe-other topic i j t b e d)
  ],
  (unsubscribe-gone topic i b h).1,
)

other_topic : (s u t : Text) → text_eq s u ≡ false → text_eq s t ≡ true → text_eq u t ≡ false
other_topic s u t h k = elim (Bool-cases (text_eq u t)) [
  | inl e ↦
      absurd (cc ((text_eq_iff s u).1 ((text_eq_iff s t).0 k ∙ sym ((text_eq_iff u t).0 e)), h))
  | inr e ↦ e
]

same_topic-members :
    (topic : Text) (i j : ℕ) (t : Text) (s : Subscription) (ss : List Subscription)
    → s.topic ≡ topic
    → has j (members_of t (join_topic topic i (s ∷ ss)))
      ≡ text_eq topic t && i == j || has j (members_of t (s ∷ ss))
unfolding join_topic members_of
same_topic-members topic i j t s ss e =
    rw (e, (text_eq_iff topic topic).1 refl)
      (elim (Bool-cases (text_eq topic t)) [
        | inl k ↦ rw k (has-add j i s.members)
        | inr k ↦ rw k refl
      ])

join_topic-members :
    (topic : Text) (i j : ℕ) (t : Text) (ss : List Subscription)
    → has j (members_of t (join_topic topic i ss))
      ≡ text_eq topic t && i == j || has j (members_of t ss)
unfolding join_topic members_of
join_topic-members topic i j t [] = ground arith
join_topic-members topic i j t (s ∷ ss) = elim (Bool-cases (text_eq s.topic topic)) [
  | inl e ↦ same_topic-members topic i j t s ss ((text_eq_iff s.topic topic).0 e)
  | inr e ↦ rw e (elim (Bool-cases (text_eq s.topic t)) [
    | inl k ↦ rw (k, other_topic s.topic topic t e k) refl
    | inr k ↦ rw k (join_topic-members topic i j t ss)
  ])
]

-- After subscribe, a queue stands in the set of a topic exactly if it did before, or it is the new
-- queue and the topic is the one subscribed to.
pub subscribe-members :
    {A : Type 0} (topic : Text) (maxsize : Option ℤ) (j : ℕ) (t : Text) (b : Broker A)
    → has j (members_of t (subscribe topic maxsize b).1.subscribers)
      ≡ text_eq topic t && b.next == j || has j (members_of t b.subscribers)
unfolding subscribe
subscribe-members topic maxsize j t b = join_topic-members topic b.next j t b.subscribers
