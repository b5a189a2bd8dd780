-- ===== src/Store/Sweep/Settled.antt =====
-- What a sweep of hub/db.py leaves behind: nothing that the next sweep would recover.
use mathlib.Core.Bool.{and-false}
use antigravity_webhook_hub.Prelude.{
  ℕ, suc, String, ◌≡◌, refl, ap, sym, ◌∙◌, Bool, false, some, List, [], ◌∷◌, any, keep, arith,
}
use antigravity_webhook_hub.Prelude.Int.{pos}
use antigravity_webhook_hub.Models.{queued}
use antigravity_webhook_hub.Store.Rows.{Event, Task, Db, update_rows, count_rows}
use antigravity_webhook_hub.Store.Events.{get_orphaned_webhook_events}
use antigravity_webhook_hub.Store.Updates.{Distinct, any-update_rows_left, any-update_rows_kept}
use antigravity_webhook_hub.Store.Rehydrate.{
  Json, Outcome, returns, raises, and_then, store_after, rehydrate_orphaned_event,
}
use antigravity_webhook_hub.Store.Rehydrate.Frame.{rehydrate_orphaned_event-quiet}
use antigravity_webhook_hub.Store.Sweep.{
  Options, Report, is_stale, is_received, is_retried, set_promoted, set_recovered_failure,
  recover_stale, recover_stale_tasks, rehydrate_all, sweep_failures, sweep_and_requeue_unprocessed,
}
use antigravity_webhook_hub.Store.Sweep.RowWise.{row_wise}

and_then-returns :
    {A B : Type 0} (m : Outcome A) (k : A → Db → Outcome B) {b : B} {db : Db}
    → and_then m k ≡ returns b db
    → (a : A) × (before : Db) × (m ≡ returns a before) × (k a before ≡ returns b db)
and_then-returns (returns a before) k h = (a, before, refl, h)
and_then-returns (raises before) k h = cc

module _ (loads : String → Json) (fresh : ℕ → String) (o : Options) (now : ℕ) where
  module _ (p : Task → Bool) (quiet : (t : Task) → t.status ≡ queued → p t ≡ false) where
    and_then-quiet :
        {A B : Type 0} (m : Outcome A) (k : A → Db → Outcome B)
        → any p (store_after m).tasks ≡ false
        → ((a : A) (db : Db) → any p db.tasks ≡ false → any p (store_after (k a db)).tasks ≡ false)
        → any p (store_after (and_then m k)).tasks ≡ false
    and_then-quiet (returns a db) k h hk = hk a db h
    and_then-quiet (raises db) k h hk = h

    rehydrate_all-quiet :
        (i : ℕ) (es : List Event) (db : Db)
        → any p db.tasks ≡ false
        → any p (store_after (rehydrate_all loads fresh o now i es db)).tasks ≡ false
    unfolding rehydrate_all
    rehydrate_all-quiet i [] db h = h
    rehydrate_all-quiet i (e ∷ es) db h =
        and_then-quiet
          (rehydrate_orphaned_event loads e.event_id (some e) (fresh i) "cli" o.max_retries
            (pos 300) now db)
          _
          (rehydrate_orphaned_event-quiet p quiet loads (fresh i) "cli" o.max_retries (pos 300) now
            e.event_id (some e) db h)
          λ created db' h'.
            and_then-quiet (rehydrate_all loads fresh o now (suc i) es db') _
              (rehydrate_all-quiet (suc i) es db' h') (λ n db'' h''. h'')

    sweep_failures-quiet :
        (a b c : ℕ) (db : Db)
        → any p db.tasks ≡ false
        → any p (store_after (sweep_failures o now a b c db)).tasks ≡ false
    unfolding sweep_failures
    sweep_failures-quiet a b c db h =
        any-update_rows_kept p (is_retried o) (set_recovered_failure o now) db.tasks
          (λ t _. quiet (set_recovered_failure o now t) (unfold set_recovered_failure in refl)) h

  swept : Db → Db
  swept db =
      let (stale, after) = recover_stale_tasks o now (keep (is_stale o now) db.tasks) db.tasks in
      record db { tasks = update_rows (is_received o) (set_promoted now) after }

  -- Nothing is stale after the first two steps, and nothing is left in `received`.
  stale-recovered :
      (db : Db)
      → Distinct db.tasks
      → any (is_stale o now) (recover_stale_tasks o now (keep (is_stale o now) db.tasks) db.tasks).1
        ≡ false
  stale-recovered db d = rw (row_wise o now db.tasks d) (
      any-update_rows_left (is_stale o now) (λ t. recover_stale o now t t) db.tasks
        (λ t _. unfold recover_stale in ground arith))

  stale-swept : (db : Db) → Distinct db.tasks → any (is_stale o now) (swept db).tasks ≡ false
  unfolding swept
  stale-swept db d =
      any-update_rows_kept (is_stale o now) (is_received o) (set_promoted now) _
        (λ t _. unfold set_promoted in refl) (stale-recovered db d)

  received-swept : (db : Db) → any (is_received o) (swept db).tasks ≡ false
  unfolding swept
  received-swept db =
      any-update_rows_left (is_received o) (set_promoted now) _ (λ t _. unfold set_promoted in refl)

  sweep-quiet :
      (p : Task → Bool)
      → ((t : Task) → t.status ≡ queued → p t ≡ false)
      → (db : Db) → any p (swept db).tasks ≡ false
      → any p (store_after (sweep_and_requeue_unprocessed loads fresh o now db)).tasks ≡ false
  unfolding sweep_and_requeue_unprocessed swept
  sweep-quiet p quiet db h =
      and_then-quiet p quiet
        (rehydrate_all loads fresh o now 0 (get_orphaned_webhook_events o.source o.limit (swept db))
          (swept db))
        _ (rehydrate_all-quiet p quiet 0 _ (swept db) h)
        (λ n db' h'.
          sweep_failures-quiet p quiet
            (recover_stale_tasks o now (keep (is_stale o now) db.tasks) db.tasks).0
            (count_rows (is_received o)
              (recover_stale_tasks o now (keep (is_stale o now) db.tasks) db.tasks).1)
            n db' h')

  -- After a sweep of a store with distinct task ids, also one that an exception ends, no task that
  -- the sweep looks at is stale and none of them is in the status received: those of the source
  -- that it was given, or all if it was given none.
  pub sweep-settled :
      (db : Db)
      → Distinct db.tasks
      → let after = store_after (sweep_and_requeue_unprocessed loads fresh o now db) in
        (any (is_stale o now) after.tasks ≡ false) × (any (is_received o) after.tasks ≡ false)
  sweep-settled db d = (
    sweep-quiet (is_stale o now) (λ t e. rw e) db (stale-swept db d),
    sweep-quiet (is_received o) (λ t e. rw e) db (received-swept db),
  )

  is_retried-quiet : (t : Task) → t.status ≡ queued → is_retried o t ≡ false
  is_retried-quiet t e = rw e (and-false o.auto_retry_interrupted)

  -- The state in which step 4 runs, and what it returns.
  record Finished (db : Db) (report : Report) (after : Db) : Type 0 where
    stale : ℕ
    promoted : ℕ
    orphaned : ℕ
    before : Db
    rehydrated :
        rehydrate_all loads fresh o now 0
          (get_orphaned_webhook_events o.source o.limit (swept db))
          (swept db)
        ≡ returns orphaned before
    stale_count : stale ≡ (recover_stale_tasks o now (keep (is_stale o now) db.tasks) db.tasks).0
    promoted_count :
        promoted
        ≡ count_rows
            (is_received o)
            (recover_stale_tasks o now (keep (is_stale o now) db.tasks) db.tasks).1
    ended : sweep_failures o now stale promoted orphaned before ≡ returns report after

  finish :
      (db : Db) {report : Report} {after : Db}
      → sweep_and_requeue_unprocessed loads fresh o now db ≡ returns report after
      → Finished db report after
  unfolding sweep_and_requeue_unprocessed swept
  finish db h =
      let (n, before, e, k) =
        and_then-returns
          (rehydrate_all loads fresh o now 0
            (get_orphaned_webhook_events o.source o.limit (swept db)) (swept db))
          _ h in
      record {
        stale = _;
        promoted = _;
        orphaned = n;
        before = before;
        rehydrated = e;
        stale_count = refl;
        promoted_count = refl;
        ended = k;
      }

  sweep_failures-returns :
      (a b c : ℕ) (db : Db) {report : Report} {after : Db}
      → sweep_failures o now a b c db ≡ returns report after
      → (report.recovered_stale_running ≡ a)
        × (report.recovered_received_tasks ≡ b)
        × (report.recovered_interrupted_failed ≡ count_rows (is_retried o) db.tasks)
        × (after.tasks ≡ update_rows (is_retried o) (set_recovered_failure o now) db.tasks)
  unfolding sweep_failures
  sweep_failures-returns a b c db h = ground arith

  -- When a sweep returns, no failed or timed-out task is left that the sweep would try again.
  sweep-recovers_failures :
      (db : Db) {report : Report} {after : Db}
      → sweep_and_requeue_unprocessed loads fresh o now db ≡ returns report after
      → any (is_retried o) after.tasks ≡ false
  sweep-recovers_failures db h =
      let f = finish db h in
      rw (sweep_failures-returns f.stale f.promoted f.orphaned f.before f.ended).3 (
        any-update_rows_left (is_retried o) (set_recovered_failure o now) f.before.tasks (λ t _.
          is_retried-quiet (set_recovered_failure o now t) (unfold set_recovered_failure in refl)))

  keep-none : (test : Task → Bool) (ts : List Task) → any test ts ≡ false → keep test ts ≡ []
  keep-none test [] h = refl
  keep-none test (t ∷ ts) h = ground (arith, keep-none test ts)

  count_rows-none :
      (test : Task → Bool) (ts : List Task) → any test ts ≡ false → count_rows test ts ≡ 0
  unfolding count_rows
  count_rows-none test [] h = refl
  count_rows-none test (t ∷ ts) h = ground (arith, count_rows-none test ts)

  idle :
      (ts : List Task)
      → any (is_stale o now) ts ≡ false
      → recover_stale_tasks o now (keep (is_stale o now) ts) ts ≡ (0, ts)
  unfolding recover_stale_tasks
  idle ts h = rw (keep-none (is_stale o now) ts h)

  is_retried-swept :
      (db : Db)
      → any (is_stale o now) db.tasks ≡ false
      → any (is_retried o) db.tasks ≡ false
      → any (is_retried o) (swept db).tasks ≡ false
  unfolding swept
  is_retried-swept db a c = rw (idle db.tasks a) (
      any-update_rows_kept (is_retried o) (is_received o) (set_promoted now) db.tasks
        (λ t _. is_retried-quiet (set_promoted now t) (unfold set_promoted in refl)) c)

  -- A store in which nothing is stale, `received` or to be tried again.
  quiet_sweep :
      (db : Db) {report : Report} {after : Db}
      → any (is_stale o now) db.tasks ≡ false
      → any (is_received o) db.tasks ≡ false
      → any (is_retried o) db.tasks ≡ false
      → sweep_and_requeue_unprocessed loads fresh o now db ≡ returns report after
      → (report.recovered_stale_running ≡ 0)
        × (report.recovered_received_tasks ≡ 0)
        × (report.recovered_interrupted_failed ≡ 0)
  quiet_sweep db a b c h =
      let f = finish db h in
      let r = sweep_failures-returns f.stale f.promoted f.orphaned f.before f.ended in
      (
        r.0 ∙ f.stale_count ∙ ap (λ (p : ℕ × List Task). p.0) (idle db.tasks a),
        r.1 ∙ f.promoted_count ∙ rw (idle db.tasks a) (count_rows-none (is_received o) db.tasks b),
        r.2
            ∙ count_rows-none (is_retried o) f.before.tasks (
                ap (λ m. any (is_retried o) (store_after m).tasks) (sym f.rehydrated)
                ∙ rehydrate_all-quiet (is_retried o) is_retried-quiet 0
                    (get_orphaned_webhook_events o.source o.limit (swept db)) (swept db)
                    (is_retried-swept db a c)),
      )

  -- When two sweeps at the same time and with the same options both return, the second one reports
  -- no stale task, no received task and no interrupted failure: the first settled them all. Task
  -- ids are distinct.
  pub sweep-again :
      (db : Db) {report report' : Report} {after after' : Db}
      → Distinct db.tasks
      → sweep_and_requeue_unprocessed loads fresh o now db ≡ returns report after
      → sweep_and_requeue_unprocessed loads fresh o now after ≡ returns report' after'
      → (report'.recovered_stale_running ≡ 0)
        × (report'.recovered_received_tasks ≡ 0)
        × (report'.recovered_interrupted_failed ≡ 0)
  sweep-again db {after = after} d h h' =
      quiet_sweep after
        (ap (λ m. any (is_stale o now) (store_after m).tasks) (sym h) ∙ (sweep-settled db d).0)
        (ap (λ m. any (is_received o) (store_after m).tasks) (sym h) ∙ (sweep-settled db d).1)
        (sweep-recovers_failures db h) h'
