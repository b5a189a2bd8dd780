-- ===== src/Streams/Resume.antt =====
-- What a client gets that comes back to the stream of a task.
use mathlib.Core.Path.{subst}
use mathlib.Core.List.{append_assoc}
use antigravity_webhook_hub.Prelude.{
  map, ◌≢◌, ℕ, suc, ◌+◌, String, ◌≡◌, refl, sym, ap, ◌∙◌, true, false, some, List, [], ◌∷◌, ◌++◌,
  all, length, keep, take, drop, arith, Bool-cases, inl, inr,
}
use antigravity_webhook_hub.Prelude.Int.{ℤ, pos, ltb_ℤ}
use antigravity_webhook_hub.Text.{
  Text, print_int, parse_int, parse_int-print_int, print_nat, count_digits-print_nat-le,
}
use antigravity_webhook_hub.Store.Rows.{Db}
use antigravity_webhook_hub.Broker.{Broker}
use antigravity_webhook_hub.Streams.{Frame, StreamHub, Notice, log_frame, open_stream}
use antigravity_webhook_hub.Store.Logs.{
  Log, Logs, get_task_backlog, get_execution_logs, is_behind, of_task, since_int, fits,
}
use antigravity_webhook_hub.Streams.Logged.{
  LogCall, logged, no_logs, later, Ascending, IsOrdered, all-middle, all-kept, keep-split,
  keep-after, keep-concat, take-drop, Ascending-keep, by_log_id-eq_self, logged-IsOrdered,
  logged-grows,
}

one_more : (n : ℕ) → suc n + 501 ≡ suc (n + 501)
one_more n = omega arith

take-after :
    (sent : List Log) (r : Log) (rest : List Log)
    → take (length sent + 501) (sent ++ r ∷ rest) ≡ sent ++ r ∷ take 500 rest
take-after [] r rest = refl
take-after (s ∷ sent) r rest =
    ap (λ n. take n (s ∷ (sent ++ r ∷ rest))) (one_more (length sent))
    ∙ ap (λ ss. s ∷ ss) (take-after sent r rest)

nothing-IsOrdered : IsOrdered no_logs
nothing-IsOrdered = record { ascending = unfold Ascending in tt; within = refl }

parse_int-print_nat : (n : ℕ) → fits (pos n) ≡ true → parse_int (print_nat n) ≡ some (pos n)
unfolding print_int
parse_int-print_nat n h =
    parse_int-print_int (pos n) (omega (arith, count_digits-print_nat-le n (ground arith)))

since-print_nat : (n : ℕ) → fits (pos n) ≡ true → since_int (print_nat n) ≡ pos n
unfolding since_int
since-print_nat n h = rw (since_int, parse_int-print_nat n h) refl

keep-both :
    (task_id : String) (asked : ℤ) (rs : List Log)
    → keep (λ x. ltb_ℤ asked (pos x.log_id)) (keep (of_task task_id) rs)
      ≡ keep (is_behind task_id asked) rs
keep-both task_id asked [] = refl
keep-both task_id asked (r ∷ rs) = elim (Bool-cases (of_task task_id r)) [
  | inl e ↦ rw (e, keep-both task_id asked rs) refl
  | inr e ↦ rw (e, keep-both task_id asked rs) refl
]

module _ (task_id : String) (asked : ℤ) (t : Logs) (ordered : IsOrdered t) where
  behind-Ascending : Ascending (keep (is_behind task_id asked) t.rows)
  behind-Ascending = Ascending-keep (is_behind task_id asked) t.rows ordered.ascending

  -- The rows behind a row that stands in the list of those behind `asked`.
  rows-behind :
      (sent : List Log) (r : Log) (rest : List Log)
      → keep (is_behind task_id asked) t.rows ≡ sent ++ r ∷ rest
      → keep (is_behind task_id (pos r.log_id)) t.rows ≡ rest
  rows-behind sent r rest h =
      let kept : is_behind task_id asked r ≡ true =
        all-middle (is_behind task_id asked) sent r rest (
          ap (all (is_behind task_id asked)) (sym h) ∙ all-kept (is_behind task_id asked) t.rows) in
      keep-split task_id asked r.log_id t.rows (ground arith)
      ∙ ap (keep (later r)) h
      ∙ keep-after sent r rest (subst Ascending h behind-Ascending)

  logs-behind :
      keep (λ x. ltb_ℤ asked (pos x.log_id)) (get_execution_logs task_id t)
      ≡ keep (is_behind task_id asked) t.rows
  unfolding get_execution_logs
  logs-behind =
      ap (keep (λ x. ltb_ℤ asked (pos x.log_id))) (
        by_log_id-eq_self (keep (of_task task_id) t.rows)
          (Ascending-keep (of_task task_id) t.rows ordered.ascending))
      ∙ keep-both task_id asked t.rows

backlog-rows :
    (task_id : String) (since_id : Text) (n : ℕ) (t : Logs)
    → IsOrdered t
    → fits (since_int since_id) ≡ true
    → get_task_backlog task_id since_id n t
      ≡ take n (keep (is_behind task_id (since_int since_id)) t.rows)
unfolding get_task_backlog
backlog-rows task_id since_id n t h k =
    rw (get_task_backlog, k)
      (ap (take n) (by_log_id-eq_self _ (behind-Ascending task_id (since_int since_id) t h)))

nil-ne-around : (sent unsent : List Log) (r : Log) → [] ≢ sent ++ r ∷ unsent
nil-ne-around [] unsent r h = cc
nil-ne-around (s ∷ sent) unsent r h = cc

backlog-unfit :
    (task_id : String) (since_id : Text) (n : ℕ) (t : Logs)
    → fits (since_int since_id) ≡ false
    → get_task_backlog task_id since_id n t ≡ []
unfolding get_task_backlog
backlog-unfit task_id since_id n t e = rw (get_task_backlog, e) refl

backlog-fits :
    (task_id : String) (since_id : Text) (n : ℕ) (t : Logs) (sent unsent : List Log) (r : Log)
    → get_task_backlog task_id since_id n t ≡ sent ++ r ∷ unsent
    → fits (since_int since_id) ≡ true
backlog-fits task_id since_id n t sent unsent r h = elim (Bool-cases (fits (since_int since_id))) [
  | inl e ↦ e
  | inr e ↦ absurd (nil-ne-around sent unsent r (sym (backlog-unfit task_id since_id n t e) ∙ h))
]

map-append : (f : Log → Frame) (rs ss : List Log) → map f (rs ++ ss) ≡ map f rs ++ map f ss
map-append f [] ss = refl
map-append f (r ∷ rs) ss = ap (λ fs. f r ∷ fs) (map-append f rs ss)

rows_grown :
    (task_id : String) (asked : ℤ) (ds : List LogCall) (t : Logs)
    → (new : List Log) × (keep (is_behind task_id asked) (logged ds t).rows
        ≡ keep (is_behind task_id asked) t.rows ++ new)
rows_grown task_id asked ds t =
    let (new, h) = logged-grows ds t in
    (
      keep (is_behind task_id asked) new,
      ap (keep (is_behind task_id asked)) h ∙ keep-concat (is_behind task_id asked) t.rows new,
    )

module _ (task_id : String) (since_id : Text) (ds : List LogCall) (t : Logs) (ordered : IsOrdered t)
    (sent unsent : List Log) (r : Log) where
  abbrev asked : ℤ
  asked = since_int since_id

  -- All rows behind `since_id`, seen from the row `r`.
  rows_around :
      get_task_backlog task_id since_id 500 t ≡ sent ++ r ∷ unsent
      → (rest : List Log) × (keep (is_behind task_id asked) (logged ds t).rows ≡ sent ++ r ∷ rest)
  rows_around h =
      let xs = keep (is_behind task_id asked) t.rows in
      let (new, g) = rows_grown task_id asked ds t in
      let split : xs ≡ (sent ++ r ∷ unsent) ++ drop 500 xs =
        sym (take-drop 500 xs)
        ∙ ap (λ ss. ss ++ drop 500 xs)
            (sym (
                backlog-rows task_id since_id 500 t ordered
                  (backlog-fits task_id since_id 500 t sent unsent r h))
              ∙ h) in
      (
        (unsent ++ drop 500 xs) ++ new,
        g
            ∙ ap (λ ss. ss ++ new) (split ∙ append_assoc sent (r ∷ unsent) (drop 500 xs))
            ∙ append_assoc sent (r ∷ (unsent ++ drop 500 xs)) new,
      )

  rows_resumed :
      get_task_backlog task_id since_id 500 t ≡ sent ++ r ∷ unsent
      → fits (pos r.log_id) ≡ true
      → sent ++ r ∷ get_task_backlog task_id (print_nat r.log_id) 500 (logged ds t)
        ≡ take
            (length sent + 501)
            (keep (λ x. ltb_ℤ asked (pos x.log_id)) (get_execution_logs task_id (logged ds t)))
  rows_resumed h f =
      let after = logged-IsOrdered ds t ordered in
      let (rest, e) = rows_around h in
      let again : get_task_backlog task_id (print_nat r.log_id) 500 (logged ds t) ≡ take 500 rest =
        backlog-rows task_id (print_nat r.log_id) 500 (logged ds t) after
          (ap fits (since-print_nat r.log_id f) ∙ f)
        ∙ ap (λ n. take 500 (keep (is_behind task_id n) (logged ds t).rows))
            (since-print_nat r.log_id f)
        ∙ ap (take 500) (rows-behind task_id asked (logged ds t) after sent r rest e) in
      ap (λ ss. sent ++ r ∷ ss) again
      ∙ sym (take-after sent r rest)
      ∙ ap (take (length sent + 501)) (sym e ∙ sym (logs-behind task_id asked (logged ds t) after))

-- A client that comes back to the stream of a task with the id of the last row that it received
-- gets the output in order, with no row lost and none twice: the rows that it had and those that
-- it gets before the live ones are together the first rows of the task behind the point from which
-- it asked at first, up to 500 after the last that it had, with those written in the meantime. The
-- id is one that SQLite takes.
pub resume-exact :
    (task_id : String) (since_id : Text) (es ds : List LogCall) (db : Db) (b c : Broker Notice)
    (sent unsent : List Log) (r : Log)
    → get_task_backlog task_id since_id 500 (logged es no_logs) ≡ sent ++ r ∷ unsent
    → fits (pos r.log_id) ≡ true
    → let first : StreamHub = record { db = db; logs = logged es no_logs; broker = b } in
      let again : StreamHub = record {
        db = db;
        logs = logged ds (logged es no_logs);
        broker = c;
      } in
      ((open_stream task_id since_id first).0.sent
        ≡ map log_frame (sent ++ r ∷ []) ++ map log_frame unsent)
      × (map log_frame (sent ++ r ∷ []) ++ (open_stream task_id (print_nat r.log_id) again).0.sent
          ≡ map log_frame (
              take (length sent + 501) (
                keep
                  (λ x. ltb_ℤ (since_int since_id) (pos x.log_id))
                  (get_execution_logs task_id again.logs))))
unfolding open_stream
resume-exact task_id since_id es ds db b c sent unsent r h f =
    let t = logged es no_logs in
    let ordered = logged-IsOrdered es no_logs nothing-IsOrdered in
    (
      ap (map log_frame) (h ∙ sym (append_assoc sent (r ∷ []) unsent))
          ∙ map-append log_frame (sent ++ r ∷ []) unsent,
      sym (
            map-append log_frame (sent ++ r ∷ [])
              (get_task_backlog task_id (print_nat r.log_id) 500 (logged ds t)))
          ∙ ap (map log_frame) (
              append_assoc sent (r ∷ []) _
              ∙ rows_resumed task_id since_id ds t ordered sent unsent r h f),
    )
