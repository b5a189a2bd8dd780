-- ===== src/Store/Budget.antt =====
-- The retries that the recoveries of hub/db.py spend.
use antigravity_webhook_hub.Prelude.{
  ℕ, ◌≡◌, refl, Bool, true, false, ◌&&◌, ◌||◌, List, [], ◌∷◌, any, keep, arith, Bool-cases, inl,
  inr,
}
use antigravity_webhook_hub.Prelude.Int.{ℤ, pos, negsuc, ltb_ℤ, ◌+ℤ◌, max_ℤ}
use antigravity_webhook_hub.Store.Rows.{Task, Db, update_rows}
use antigravity_webhook_hub.Store.Tasks.{is_running, set_recovered, recover_orphaned_tasks}
use antigravity_webhook_hub.Store.Updates.{Distinct, any-update_rows_left, any-update_rows_kept}
use antigravity_webhook_hub.Store.Sweep.{
  Options, is_stale, recover_stale, recover_stale_tasks, set_requeued, set_exhausted, may_retry,
  is_retried, set_recovered_failure, retry_limit, sweep_failures, error_like,
}
use antigravity_webhook_hub.Store.Rehydrate.{store_after}
use antigravity_webhook_hub.Store.Events.{source_matches}
use antigravity_webhook_hub.Models.{failed, timed_out, status_eq}
use antigravity_webhook_hub.Store.Sweep.RowWise.{row_wise}

-- A task that was tried again more often than it may be.
abbrev pub over_budget : Task → Bool
over_budget t = ltb_ℤ t.max_retries t.retry_count

next-in_budget : (n m : ℤ) → ltb_ℤ n m ≡ true → ltb_ℤ m (n +ℤ pos 1) ≡ false
unfolding ◌+ℤ◌
next-in_budget (pos n) (pos m) h = ground arith
next-in_budget (pos n) (negsuc m) h = ground arith
next-in_budget (negsuc n) (pos m) h = ground arith
next-in_budget (negsuc n) (negsuc m) h = ground arith

recovered-in_budget :
    (now : ℕ) (t : Task) → over_budget t ≡ false → over_budget (set_recovered now t) ≡ false
unfolding set_recovered
recovered-in_budget now t h = elim (Bool-cases (ltb_ℤ t.retry_count t.max_retries)) [
  | inl e ↦ rw e (next-in_budget t.retry_count t.max_retries e)
  | inr e ↦ rw e h
]

-- If no task was retried more often than it may be, then after recover_orphaned_tasks none was,
-- and no task is running.
pub recover_orphaned_tasks-settled :
    (now : ℕ) (db : Db)
    → any over_budget db.tasks ≡ false
    → (any is_running (recover_orphaned_tasks now db).1.tasks ≡ false)
      × (any over_budget (recover_orphaned_tasks now db).1.tasks ≡ false)
unfolding recover_orphaned_tasks
recover_orphaned_tasks-settled now db h = (
  any-update_rows_left is_running (set_recovered now) db.tasks
      (λ t e. unfold set_recovered in ground arith),
  any-update_rows_kept over_budget is_running (set_recovered now) db.tasks (recovered-in_budget now)
      h,
)

max_ℤ-left : (n a b : ℤ) → ltb_ℤ n b ≡ true → ltb_ℤ n (max_ℤ a b) ≡ true
max_ℤ-left n a b h = ground arith

and-right : (a b : Bool) → (a && b) ≡ true → b ≡ true
and-right a b h = ground arith

and_middle : (a b c d : Bool) → (a && (b && c && d)) ≡ true → c ≡ true
and_middle a b c d h = ground arith

-- A test that an UPDATE makes false on the rows it rewrites stays false on every row.
any-update_rows_where :
    (p test : Task → Bool) (change : Task → Task) (ts : List Task)
    → ((t : Task) → test t ≡ true → p (change t) ≡ false)
    → any p ts ≡ false
    → any p (update_rows test change ts) ≡ false
unfolding update_rows
any-update_rows_where p test change [] k h = refl
any-update_rows_where p test change (t ∷ ts) k h =
    ground (arith, k t, any-update_rows_where p test change ts k)

retried-has_retries :
    (o : Options) (t : Task) → is_retried o t ≡ true → ltb_ℤ t.retry_count o.max_retries ≡ true
retried-has_retries o t h =
    and_middle o.auto_retry_interrupted
      (status_eq t.status failed && error_like t.error_message || status_eq t.status timed_out)
      (ltb_ℤ t.retry_count o.max_retries) (source_matches o.source t.source) h

recover_stale-in_budget :
    (o : Options) (now : ℕ) (t : Task)
    → over_budget t ≡ false
    → over_budget (recover_stale o now t t) ≡ false
unfolding recover_stale set_requeued set_exhausted
recover_stale-in_budget o now t h = elim (Bool-cases (may_retry o t)) [
  | inl e ↦ rw e (
      next-in_budget t.retry_count (retry_limit o t)
        (and-right o.auto_retry_interrupted (ltb_ℤ t.retry_count (retry_limit o t)) e))
  | inr e ↦ rw e h
]

retried-in_budget :
    (o : Options) (now : ℕ) (t : Task)
    → is_retried o t ≡ true
    → over_budget (set_recovered_failure o now t) ≡ false
unfolding set_recovered_failure set_requeued
retried-in_budget o now t e =
    next-in_budget t.retry_count (max_ℤ t.max_retries o.max_retries)
      (max_ℤ-left t.retry_count t.max_retries o.max_retries (retried-has_retries o t e))

-- If no task was retried more often than it may be, then none was after the recovery of the stale
-- tasks, nor after the steps of the sweep behind the orphans, each applied to that store. Task ids
-- are distinct.
pub sweep-in_budget :
    (o : Options) (now a b c : ℕ) (db : Db)
    → Distinct db.tasks
    → any over_budget db.tasks ≡ false
    → (any over_budget (recover_stale_tasks o now (keep (is_stale o now) db.tasks) db.tasks).1
        ≡ false)
      × (any over_budget (store_after (sweep_failures o now a b c db)).tasks ≡ false)
unfolding sweep_failures
sweep-in_budget o now a b c db d h = (
  rw (row_wise o now db.tasks d) (
      any-update_rows_kept over_budget (is_stale o now) (λ t. recover_stale o now t t) db.tasks
        (recover_stale-in_budget o now) h),
  any-update_rows_where over_budget (is_retried o) (set_recovered_failure o now) db.tasks
      (retried-in_budget o now) h,
)

-- If no task was retried more often than it may be, then none was after recover_orphaned_tasks,
-- which leaves no task running, nor after the recovery of the stale tasks, nor after the steps of
-- the sweep behind the orphans, each applied to that store. Task ids are distinct.
pub recovery-in_budget :
    (o : Options) (now a b c : ℕ) (db : Db)
    → Distinct db.tasks
    → any over_budget db.tasks ≡ false
    → (any is_running (recover_orphaned_tasks now db).1.tasks ≡ false)
      × (any over_budget (recover_orphaned_tasks now db).1.tasks ≡ false)
      × (any over_budget (recover_stale_tasks o now (keep (is_stale o now) db.tasks) db.tasks).1
          ≡ false)
      × (any over_budget (store_after (sweep_failures o now a b c db)).tasks ≡ false)
recovery-in_budget o now a b c db d h =
    let (settled, orphans) = recover_orphaned_tasks-settled now db h in
    let (stale, failures) = sweep-in_budget o now a b c db d h in
    (settled, orphans, stale, failures)
