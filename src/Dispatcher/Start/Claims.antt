-- ===== src/Dispatcher/Start/Claims.antt =====
-- Which of several workers executes a task (hub/dispatcher.py).
use mathlib.Core.Path.{subst}
use antigravity_webhook_hub.Prelude.{ℕ, String, ◌≡◌, refl, ap, ◌∙◌, Bool, true, false, none, some}
use antigravity_webhook_hub.Prelude.Int.{ℤ, pos, ◌+ℤ◌}
use antigravity_webhook_hub.Models.{running, status_eq, is_terminal}
use antigravity_webhook_hub.Store.Rows.{Task, Db}
use antigravity_webhook_hub.Store.Tasks.{get_task, update_task_status_cas}
use antigravity_webhook_hub.Store.Updates.{Distinct}
use antigravity_webhook_hub.Store.Cas.{cas_once, cas-succeeds}
use antigravity_webhook_hub.Dispatcher.Start.{
  Start, ExecutionResult, stops, runs, claim, proceed, swapped, start_task, lost,
}

proceed-runs :
    (b : Bool) (i : String) (t : Task) (db : Db) (swap : Bool × Db) (n : ℤ) (after : Db)
    → proceed b i t db swap ≡ (runs n, after)
    → (b ≡ false) × (swap.1 ≡ after)
proceed-runs true i t db swap n after h = cc
proceed-runs false i t db (true, d) n after h = (refl, ap (λ (p : Start × Db). p.1) h)
proceed-runs false i t db (false, d) n after h = cc

-- Of two workers that read a task in one and the same state, not running, and start it one after
-- the other, only the first executes it: once it does, the second returns and leaves the store as
-- it is.
pub claim_once :
    (i : String) (now later : ℕ) (t : Task) (db after : Db) (n : ℤ)
    → status_eq running t.status ≡ false
    → claim i now t db ≡ (runs n, after)
    → (r : ExecutionResult) × (claim i later t after ≡ (stops r, after))
unfolding claim
claim_once i now later t db after n idle h =
    let (open_task, same) =
      proceed-runs (is_terminal t.status) i t db
        (update_task_status_cas i t.status running none none now db) n after h in
    let refused : update_task_status_cas i t.status running none none later after ≡ (false, after) =
      subst (λ d. update_task_status_cas i t.status running none none later d ≡ (false, d)) same
        (cas_once i t.status running none none now running none none later db idle) in
    (lost i (get_task i after), rw (open_task, refused) refl)

-- A task that the store holds as running is started again by whoever calls execute_task for it:
-- the transition from running to running succeeds. Task ids are distinct.
pub running-claimed :
    (i : String) (now : ℕ) (t : Task) (db : Db)
    → Distinct db.tasks
    → get_task i db ≡ some t
    → t.status ≡ running
    → (after : Db) × (start_task i now db ≡ (runs (t.retry_count +ℤ pos 1), after))
unfolding start_task
running-claimed i now t db d h k =
    let swap = update_task_status_cas i t.status running none none now db in
    let won : swap.0 ≡ true = cas-succeeds i t.status running none none now db t d h ∙ rw k refl in
    let open_task : is_terminal t.status ≡ false = rw k (unfold is_terminal in refl) in
    (swap.1, rw h (rw open_task (ap (λ b. swapped i t (b, swap.1)) won)))
