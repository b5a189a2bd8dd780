-- ===== src/Dispatcher/Exclusion.antt =====
-- No task stands twice in the queue and the hands of the workers of hub/dispatcher.py.
use antigravity_webhook_hub.Prelude.{
  str_eq_comm, String, str_eq, eq_iff, Bool, true, false, ◌≡◌, refl, sym, ◌∙◌, ◌&&◌, ◌||◌, List, [],
  ◌∷◌, ◌++◌, all, arith, Bool-cases, inl, inr,
}
use mathlib.Core.List.{append_assoc, append-nil}
use antigravity_webhook_hub.Dispatcher.{
  Dispatcher, Step, Steps, enqueues, dequeues, finishes, done, step, enqueue, dequeue, finish,
  member, remove, idle,
}

-- The ids in the list are different.
abbrev pub NoRepeats : List String → Type 0
NoRepeats [] = Unit
NoRepeats (i ∷ is) = (member i is ≡ false) × NoRepeats is

abbrev pub known : List String → List String → Bool
known enqueued is = all (λ i. member i enqueued) is

-- What waits or runs is in `_enqueued_task_ids`, and nothing waits or runs twice.
pub record IsExclusive (d : Dispatcher) : Type 0 where
  pub once : NoRepeats (d.running ++ d.queue)
  pub tracked : known d.enqueued_task_ids (d.running ++ d.queue) ≡ true

member-append :
    (i : String) (xs ys : List String) → member i (xs ++ ys) ≡ member i xs || member i ys
member-append i [] ys = refl
member-append i (x ∷ xs) ys = ground (arith, member-append i xs ys)

member-swap :
    (i j : String) (xs ys : List String)
    → member i (xs ++ j ∷ ys) ≡ str_eq j i || member i (xs ++ ys)
member-swap i j [] ys = refl
member-swap i j (x ∷ xs) ys = ground (arith, member-swap i j xs ys)

-- A new id may stand anywhere.
NoRepeats-insert :
    (j : String) (xs ys : List String)
    → member j (xs ++ ys) ≡ false
    → NoRepeats (xs ++ ys)
    → NoRepeats (xs ++ j ∷ ys)
NoRepeats-insert j [] ys h d = (h, d)
NoRepeats-insert j (x ∷ xs) ys h d = (
  ground (arith, d.0, member-swap x j xs ys, str_eq_comm x j),
  NoRepeats-insert j xs ys (ground arith) d.1,
)

NoRepeats-delete :
    (j : String) (xs ys : List String)
    → NoRepeats (xs ++ j ∷ ys)
    → (member j (xs ++ ys) ≡ false) × NoRepeats (xs ++ ys)
NoRepeats-delete j [] ys d = d
NoRepeats-delete j (x ∷ xs) ys d =
    let rest = NoRepeats-delete j xs ys d.1 in
    (
      ground (arith, d.0, rest.0, member-swap x j xs ys, str_eq_comm x j),
      (ground (arith, d.0, member-swap x j xs ys), rest.1),
    )

known-append : (e xs ys : List String) → known e (xs ++ ys) ≡ known e xs && known e ys
known-append e [] ys = refl
known-append e (x ∷ xs) ys = ground (arith, known-append e xs ys)

known-grows : (j : String) (e is : List String) → known e is ≡ true → known (j ∷ e) is ≡ true
known-grows j e [] h = refl
known-grows j e (i ∷ is) h = ground (arith, known-grows j e is)

unknown-absent :
    (j : String) (e is : List String) → member j e ≡ false → known e is ≡ true → member j is ≡ false
unknown-absent j e [] h k = refl
unknown-absent j e (i ∷ is) h k = ground (arith, unknown-absent j e is, eq_iff i j)

member-remove_other :
    (i j : String) (e : List String) → str_eq j i ≡ false → member j (remove i e) ≡ member j e
member-remove_other i j [] h = refl
member-remove_other i j (x ∷ e) h =
    ground (arith, member-remove_other i j e h, eq_iff x j, eq_iff x i)

known-remove :
    (j : String) (e is : List String)
    → member j is ≡ false
    → known e is ≡ true
    → known (remove j e) is ≡ true
known-remove j e [] h k = refl
known-remove j e (i ∷ is) h k = ground (arith, known-remove j e is, member-remove_other j i e)

absent-remove :
    (j i : String) (is : List String) → member i is ≡ false → member i (remove j is) ≡ false
absent-remove j i [] h = refl
absent-remove j i (x ∷ is) h = ground (arith, absent-remove j i is)

pub member-remove_self : (i : String) (is : List String) → member i (remove i is) ≡ false
member-remove_self i [] = refl
member-remove_self i (x ∷ is) = ground (arith, member-remove_self i is)

NoRepeats-remove :
    (i : String) (xs ys : List String) → NoRepeats (xs ++ ys) → NoRepeats (remove i xs ++ ys)
NoRepeats-remove i [] ys d = d
NoRepeats-remove i (x ∷ xs) ys d = elim (Bool-cases (str_eq x i)) [
  | inl e ↦ rw e (NoRepeats-remove i xs ys d.1)
  | inr e ↦ rw e (
    member-append x (remove i xs) ys
        ∙ ground (arith, d.0, member-append x xs ys, absent-remove i x xs),
    NoRepeats-remove i xs ys d.1,
  )
]

known-remove_left :
    (i : String) (e xs ys : List String)
    → known e (xs ++ ys) ≡ true
    → known e (remove i xs ++ ys) ≡ true
known-remove_left i e [] ys h = h
known-remove_left i e (x ∷ xs) ys h = ground (arith, known-remove_left i e xs ys)

-- What runs does not wait.
pub runs-absent :
    (i : String) (xs ys : List String)
    → NoRepeats (xs ++ ys)
    → member i xs ≡ true
    → member i ys ≡ false
runs-absent i [] ys d h = cc
runs-absent i (x ∷ xs) ys d h = elim (Bool-cases (str_eq x i)) [
  | inl e ↦ ground (arith, d.0, member-append x xs ys, (eq_iff x i).0 e)
  | inr e ↦ runs-absent i xs ys d.1 (ground arith)
]

pub enqueue-IsExclusive : (i : String) (d : Dispatcher) → IsExclusive d → IsExclusive (enqueue i d)
unfolding enqueue
enqueue-IsExclusive i d h = elim (Bool-cases (member i d.enqueued_task_ids)) [
  | inl e ↦ rw e h
  | inr e ↦ rw e (record {
    once = rw (sym (append_assoc d.running d.queue (i ∷ []))) (
        NoRepeats-insert i (d.running ++ d.queue) []
          (rw (append-nil (d.running ++ d.queue))
            (unknown-absent i d.enqueued_task_ids (d.running ++ d.queue) e h.tracked))
          (rw (append-nil (d.running ++ d.queue)) h.once));
    tracked = rw (sym (append_assoc d.running d.queue (i ∷ []))) (
        known-append (i ∷ d.enqueued_task_ids) (d.running ++ d.queue) (i ∷ [])
        ∙ rw (known-grows i d.enqueued_task_ids (d.running ++ d.queue) h.tracked)
            (ground (arith, eq_iff i i)));
  })
]

dequeue-IsExclusive :
    (d : Dispatcher) (queue : List String)
    → NoRepeats (d.running ++ queue)
    → known d.enqueued_task_ids (d.running ++ queue) ≡ true
    → d.queue ≡ queue
    → IsExclusive (dequeue d queue)
unfolding dequeue
dequeue-IsExclusive d [] h k e = record { once = rw e h; tracked = rw e k }
dequeue-IsExclusive d (i ∷ rest) h k e = record {
  once = NoRepeats-delete i d.running rest h;
  tracked = ground (
    arith,
    known-append d.enqueued_task_ids d.running (i ∷ rest),
    k,
    known-append d.enqueued_task_ids d.running rest,
  );
}

finish-IsExclusive :
    (i : String) (d : Dispatcher)
    → member i d.running ≡ true
    → IsExclusive d
    → IsExclusive (finish i d)
unfolding finish
finish-IsExclusive i d m h = record {
  once = NoRepeats-remove i d.running d.queue h.once;
  tracked =
      known-remove i d.enqueued_task_ids (remove i d.running ++ d.queue)
        (member-append i (remove i d.running) d.queue
          ∙ rw (member-remove_self i d.running) (runs-absent i d.running d.queue h.once m))
        (known-remove_left i d.enqueued_task_ids d.running d.queue h.tracked);
}

Step-IsExclusive : {c d : Dispatcher} → Step c d → IsExclusive c → IsExclusive d
Step-IsExclusive (enqueues i d) h = enqueue-IsExclusive i d h
Step-IsExclusive (dequeues d) h = dequeue-IsExclusive d d.queue h.once h.tracked refl
Step-IsExclusive (finishes i d m) h = finish-IsExclusive i d m h

Steps-IsExclusive : {c d : Dispatcher} → Steps c d → IsExclusive c → IsExclusive d
Steps-IsExclusive (done d) h = h
Steps-IsExclusive (step s ss) h = Steps-IsExclusive ss (Step-IsExclusive s h)

pub IsExclusive-idle : IsExclusive idle
unfolding idle
IsExclusive-idle = record { once = tt; tracked = refl }

-- From the empty dispatcher, whatever is enqueued and in whatever order the workers take and
-- finish tasks, no task id stands twice among those that wait and those that are executed.
pub single_execution : {d : Dispatcher} → Steps idle d → NoRepeats (d.running ++ d.queue)
single_execution steps = (Steps-IsExclusive steps IsExclusive-idle).once
