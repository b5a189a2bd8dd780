-- ===== src/Streams/Logged.antt =====
-- The rows of `execution_logs`, as `_record_log` writes them: their ids ascend.
use mathlib.Core.List.{append_assoc, append-nil}
use antigravity_webhook_hub.Store.Tasks.{has_id}
use antigravity_webhook_hub.Prelude.{
  ℕ, zero, suc, String, ◌≡◌, refl, sym, ap, ◌∙◌, Bool, true, Option, List, [], ◌∷◌, ◌++◌, any, all,
  keep, take, drop, ltb, leb, arith, Bool-cases, inl, inr,
}
use antigravity_webhook_hub.Prelude.Int.{ℤ, pos, negsuc, ltb_ℤ}
use antigravity_webhook_hub.Store.Rows.{Task}
use antigravity_webhook_hub.Store.Logs.{
  Log, Logs, insert_execution_log, record_log, is_behind, by_log_id,
}

-- What `_record_log` is called with, and the tasks that the table then refers to.
pub record LogCall : Type 0 where
  pub task_id : String
  pub stream : String
  pub chunk : String
  pub execution_id : Option String
  pub now : ℕ
  pub tasks : List Task

unfoldable pub logged : List LogCall → Logs → Logs
unfolding record_log
logged [] t = t
logged (e ∷ es) t = logged es (record_log e.task_id e.stream e.chunk e.execution_id e.now e.tasks t)

abbrev pub no_logs : Logs
no_logs = record { rows = []; last_id = 0 }

abbrev pub later : Log → Log → Bool
later r s = ltb r.log_id s.log_id

unfoldable pub Ascending : List Log → Type 0
Ascending [] = Unit
Ascending (r ∷ rs) = (all (later r) rs ≡ true) × Ascending rs

pub record IsOrdered (t : Logs) : Type 0 where
  pub ascending : Ascending t.rows
  pub within : all (λ r. leb r.log_id t.last_id) t.rows ≡ true

insert_log-head :
    (r : Log) (rs : List Log)
    → all (later r) rs ≡ true
    → by_log_id rs ≡ rs
    → by_log_id (r ∷ rs) ≡ r ∷ rs
unfolding by_log_id
insert_log-head r [] h e = refl
insert_log-head r (s ∷ rs) h e = rw e (ground arith)

pub by_log_id-eq_self : (rs : List Log) → Ascending rs → by_log_id rs ≡ rs
unfolding Ascending
by_log_id-eq_self [] a = unfold by_log_id in refl
by_log_id-eq_self (r ∷ rs) (a, b) = insert_log-head r rs a (by_log_id-eq_self rs b)

all-keep : (p q : Log → Bool) (rs : List Log) → all p rs ≡ true → all p (keep q rs) ≡ true
all-keep p q [] h = refl
all-keep p q (r ∷ rs) h = ground (arith, all-keep p q rs)

pub Ascending-keep : (q : Log → Bool) (rs : List Log) → Ascending rs → Ascending (keep q rs)
unfolding Ascending
Ascending-keep q [] a = tt
Ascending-keep q (r ∷ rs) (a, b) = elim (Bool-cases (q r)) [
  | inl e ↦ rw e (all-keep (later r) q rs a, Ascending-keep q rs b)
  | inr e ↦ rw e (Ascending-keep q rs b)
]

all-snoc :
    (p : Log → Bool) (rs : List Log) (x : Log)
    → all p rs ≡ true
    → p x ≡ true
    → all p (rs ++ x ∷ []) ≡ true
all-snoc p [] x h k = ground arith
all-snoc p (r ∷ rs) x h k = ground (arith, all-snoc p rs x)

Ascending-snoc :
    (n : ℕ) (rs : List Log) (x : Log)
    → Ascending rs
    → all (λ r. leb r.log_id n) rs ≡ true
    → ltb n x.log_id ≡ true
    → Ascending (rs ++ x ∷ [])
unfolding Ascending
Ascending-snoc n [] x a h k = (refl, tt)
Ascending-snoc n (r ∷ rs) x (a, b) h k =
    (all-snoc (later r) rs x a (ground arith), Ascending-snoc n rs x b (ground arith) k)

all-widen :
    (n : ℕ) (rs : List Log)
    → all (λ r. leb r.log_id n) rs ≡ true
    → all (λ r. leb r.log_id (suc n)) rs ≡ true
all-widen n [] h = refl
all-widen n (r ∷ rs) h = ground (arith, all-widen n rs)

record_log-IsOrdered :
    (e : LogCall) (t : Logs)
    → IsOrdered t
    → IsOrdered (record_log e.task_id e.stream e.chunk e.execution_id e.now e.tasks t)
unfolding record_log insert_execution_log
record_log-IsOrdered e t h = elim (Bool-cases (any (has_id e.task_id) e.tasks)) [
  | inl k ↦
      rw (record_log, insert_execution_log, k)
        (record {
          ascending = Ascending-snoc t.last_id t.rows _ h.ascending h.within (ground arith);
          within = all-snoc _ t.rows _ (all-widen t.last_id t.rows h.within) (ground arith);
        })
  | inr k ↦ rw (record_log, insert_execution_log, k) h
]

record_log-grows :
    (e : LogCall) (t : Logs)
    → (new : List Log) × ((record_log e.task_id e.stream e.chunk e.execution_id e.now e.tasks
          t).rows
        ≡ t.rows ++ new)
unfolding record_log insert_execution_log
record_log-grows e t = elim (Bool-cases (any (has_id e.task_id) e.tasks)) [
  | inl k ↦ rw (record_log, insert_execution_log, k) (_, refl)
  | inr k ↦ rw (record_log, insert_execution_log, k) ([], sym (append-nil t.rows))
]

pub logged-IsOrdered : (es : List LogCall) (t : Logs) → IsOrdered t → IsOrdered (logged es t)
unfolding logged
logged-IsOrdered [] t h = h
logged-IsOrdered (e ∷ es) t h = logged-IsOrdered es _ (record_log-IsOrdered e t h)

pub logged-grows :
    (es : List LogCall) (t : Logs) → (new : List Log) × ((logged es t).rows ≡ t.rows ++ new)
unfolding logged
logged-grows [] t = ([], sym (append-nil t.rows))
logged-grows (e ∷ es) t =
    let (new, h) = record_log-grows e t in
    let (more, k) =
      logged-grows es (record_log e.task_id e.stream e.chunk e.execution_id e.now e.tasks t) in
    (new ++ more, k ∙ rw h (append_assoc t.rows new more))

pub keep-concat : (p : Log → Bool) (rs ss : List Log) → keep p (rs ++ ss) ≡ keep p rs ++ keep p ss
keep-concat p [] ss = refl
keep-concat p (r ∷ rs) ss = elim (Bool-cases (p r)) [
  | inl e ↦ rw (e, keep-concat p rs ss) refl
  | inr e ↦ rw (e, keep-concat p rs ss) refl
]

pub take-drop : (n : ℕ) (rs : List Log) → take n rs ++ drop n rs ≡ rs
take-drop zero rs = refl
take-drop (suc n) [] = refl
take-drop (suc n) (r ∷ rs) = ap (λ ss. r ∷ ss) (take-drop n rs)

keep-all : (p : Log → Bool) (rs : List Log) → all p rs ≡ true → keep p rs ≡ rs
keep-all p [] h = refl
keep-all p (r ∷ rs) h = ground (arith, keep-all p rs)

pub keep-split :
    (task_id : String) (since : ℤ) (n : ℕ) (rs : List Log)
    → ltb_ℤ since (pos n) ≡ true
    → keep (is_behind task_id (pos n)) rs
      ≡ keep (λ s. ltb n s.log_id) (keep (is_behind task_id since) rs)
keep-split task_id since n [] h = refl
keep-split task_id (pos m) n (r ∷ rs) h = ground (arith, keep-split task_id (pos m) n rs)
keep-split task_id (negsuc m) n (r ∷ rs) h = ground (arith, keep-split task_id (negsuc m) n rs)

pub all-middle :
    (p : Log → Bool) (sent : List Log) (r : Log) (rest : List Log)
    → all p (sent ++ r ∷ rest) ≡ true
    → p r ≡ true
all-middle p [] r rest h = ground arith
all-middle p (s ∷ sent) r rest h = all-middle p sent r rest (ground arith)

-- In an ascending list, the rows behind one of its rows are those after it.
pub keep-after :
    (sent : List Log) (r : Log) (rest : List Log)
    → Ascending (sent ++ r ∷ rest)
    → keep (later r) (sent ++ r ∷ rest) ≡ rest
unfolding Ascending
keep-after [] r rest (a, b) = ground (arith, keep-all (later r) rest a)
keep-after (s ∷ sent) r rest (a, b) =
    ground (arith, keep-after sent r rest b, all-middle (later s) sent r rest a)

pub all-kept : (p : Log → Bool) (rs : List Log) → all p (keep p rs) ≡ true
all-kept p [] = refl
all-kept p (r ∷ rs) = ground (arith, all-kept p rs)
