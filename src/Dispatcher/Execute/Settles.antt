-- ===== src/Dispatcher/Execute/Settles.antt =====
-- Where `execute_task` of hub/dispatcher.py leaves the task.
use mathlib.Core.Path.{subst}
use antigravity_webhook_hub.Prelude.{
  any, find, ℕ, zero, suc, String, str_eq, ◌≡◌, refl, ap, sym, ◌∙◌, true, false, not, ◌&&◌, Option,
  none, some, find-holds, arith, Bool-cases, inl, inr, ==_iff, if◌then◌else◌,
}
use antigravity_webhook_hub.Prelude.Int.{ℤ, pos, negsuc, ◌+ℤ◌, ltb_ℤ}
use antigravity_webhook_hub.Text.{Text, truthy}
use antigravity_webhook_hub.Models.{TaskStatus, running, succeeded, status_eq, is_terminal}
use antigravity_webhook_hub.Store.Rows.{Task, Db}
use antigravity_webhook_hub.Store.Events.{update_event_status}
use antigravity_webhook_hub.Store.Tasks.{
  get_task, has_id, expects, set_status, update_task_status_cas,
}
use antigravity_webhook_hub.Store.Updates.{update_rows-none, Distinct, rewrite_if, map_option}
use antigravity_webhook_hub.Store.Cas.{cas-succeeds, get_task-cas}
use antigravity_webhook_hub.Dispatcher.Start.{ExecutionResult, runs, swapped, start_task}
use antigravity_webhook_hub.Dispatcher.Execute.{
  Route, signal, review, converse, call_url, run_command, no_url, no_command, Ending, signalled,
  reviewed, conversed, responded, exited, overran, raised, Outcome, outcome, event_done,
  finish_task, route, ending_of, execute_task,
}

outcome-terminal : (t : Task) (e : Ending) → is_terminal (outcome t e).status ≡ true
unfolding outcome is_terminal
outcome-terminal t signalled = refl
outcome-terminal t (reviewed error) = elim (Bool-cases (truthy error)) [
  | inl h ↦ rw h refl
  | inr h ↦ rw h refl
]
outcome-terminal t (conversed true error) = refl
outcome-terminal t (conversed false error) = refl
outcome-terminal t (responded code error) =
    elim (Bool-cases (not (ltb_ℤ code (pos 200)) && ltb_ℤ code (pos 400))) [
      | inl h ↦ rw h refl
      | inr h ↦ rw h refl
    ]
outcome-terminal t (exited (pos zero)) = refl
outcome-terminal t (exited (pos (suc n))) = refl
outcome-terminal t (exited (negsuc n)) = refl
outcome-terminal t (overran code) = refl
outcome-terminal t (raised message code) = refl

same_status : (s : TaskStatus) → status_eq s s ≡ true
same_status s = (==_iff _ _).1 refl

-- A swap from the status of the row rewrites it.
swap-row :
    (i : String) (s new_status : TaskStatus) (code : Option ℤ) (message : Option Text) (now : ℕ)
    (t : Task) (db : Db)
    → get_task i db ≡ some t
    → status_eq t.status s ≡ true
    → get_task i (update_task_status_cas i s new_status code message now db).1
      ≡ some (set_status new_status code message now t)
unfolding get_task
swap-row i s new_status code message now t db h same =
    let expected : expects i s t ≡ true = ground (arith, find-holds (has_id i) db.tasks t h) in
    let change = set_status new_status code message now in
    get_task-cas i s new_status code message now i db
    ∙ ap (map_option (rewrite_if (expects i s) change)) h
    ∙ ap (λ b. some (if b then change t else t)) expected

event_done-rows :
    (e : Option String) (s : TaskStatus) (db : Db) → (event_done e s db).tasks ≡ db.tasks
unfolding update_event_status
event_done-rows none s db = refl
event_done-rows (some e) s db = elim (Bool-cases (status_eq s succeeded && not (str_eq e ""))) [
  | inl h ↦ rw h refl
  | inr h ↦ rw h refl
]

event_done-tasks :
    (i : String) (e : Option String) (s : TaskStatus) (db : Db)
    → get_task i (event_done e s db) ≡ get_task i db
unfolding get_task
event_done-tasks i e s db = ap (find (has_id i)) (event_done-rows e s db)

start-runs :
    (i : String) (now : ℕ) (t : Task) (db : Db)
    → Distinct db.tasks
    → get_task i db ≡ some t
    → is_terminal t.status ≡ false
    → start_task i now db ≡ (
      runs (t.retry_count +ℤ pos 1),
      (update_task_status_cas i t.status running none none now db).1,
    )
unfolding start_task
start-runs i now t db d h open_task =
    let swap = update_task_status_cas i t.status running none none now db in
    let won : swap.0 ≡ true =
      cas-succeeds i t.status running none none now db t d h ∙ same_status t.status in
    rw h (rw open_task (ap (λ b. swapped i t (b, swap.1)) won))

completed :
    (o : Outcome) (later : ℕ) (t : Task)
    → is_terminal o.status ≡ true
    → (set_status o.status o.exit_code o.error_message later t).completed_at ≡ some later
unfolding set_status
completed o later t h = rw h refl

finish-row :
    (i : String) (t u : Task) (o : Outcome) (later : ℕ) (db : Db)
    → get_task i db ≡ some u
    → status_eq u.status running ≡ true
    → get_task i (finish_task i t o later db).1
      ≡ some (set_status o.status o.exit_code o.error_message later u)
unfolding finish_task
finish-row i t u o later db h k =
    event_done-tasks i t.event_id o.status
      (update_task_status_cas i running o.status o.exit_code o.error_message later db).1
    ∙ swap-row i running o.status o.exit_code o.error_message later u db h k

-- The task is finished, with the status of the result, at the given time.
abbrev pub IsSettled : String → ℕ → ExecutionResult × Db → Type 0
IsSettled i later (result, db) =
    (t : Task) × (get_task i db ≡ some t)
    × (t.status ≡ result.status)
    × (is_terminal t.status ≡ true)
    × (t.completed_at ≡ some later)

finish-IsSettled :
    (i : String) (t u : Task) (e : Ending) (later : ℕ) (db : Db)
    → get_task i db ≡ some u
    → status_eq u.status running ≡ true
    → IsSettled i later (finish_task i t (outcome t e) later db)
unfolding finish_task set_status
finish-IsSettled i t u e later db h k =
    let o = outcome t e in
    (
      set_status o.status o.exit_code o.error_message later u,
      finish-row i t u o later db h k,
      refl,
      outcome-terminal t e,
      completed o later u (outcome-terminal t e),
    )

-- If the task is no longer running when its action ends, the terminal transition changes no task,
-- and the result names the status of the action all the same. Task ids are distinct.
pub finish_task-lost :
    (i : String) (t u : Task) (o : Outcome) (later : ℕ) (db : Db)
    → Distinct db.tasks
    → get_task i db ≡ some u
    → status_eq u.status running ≡ false
    → ((finish_task i t o later db).1.tasks ≡ db.tasks)
      × ((finish_task i t o later db).0.status ≡ o.status)
unfolding finish_task update_task_status_cas update_event_status
finish_task-lost i t u o later db d h k =
    let change = set_status o.status o.exit_code o.error_message later in
    let none_left : any (expects i running) db.tasks ≡ false =
      cas-succeeds i running o.status o.exit_code o.error_message later db u d h ∙ k in
    (
      event_done-rows t.event_id o.status _
          ∙ update_rows-none (expects i running) change db.tasks none_left,
      refl,
    )

module _ (target_of : Task → Text) (url_of : Task → Option Text) (uid : Text)
    (perform : Route → Task → Db → Ending × Db)
    (quiet : (r : Route) (t : Task) (db : Db) → (perform r t db).1 ≡ db) where
  ending-quiet :
      (r : Route) (t : Task) (db : Db) → (ending_of target_of url_of uid perform r t db).1 ≡ db
  ending-quiet no_url t db = refl
  ending-quiet no_command t db = refl
  ending-quiet signal t db = quiet signal t db
  ending-quiet review t db = quiet review t db
  ending-quiet converse t db = quiet converse t db
  ending-quiet (call_url url) t db = quiet (call_url url) t db
  ending-quiet (run_command cmd) t db = quiet (run_command cmd) t db

  -- A task that stands in the store and is not finished is finished after execute_task, with the
  -- status of the result and the time of the second transition, however its action ends short of a
  -- cancellation by stop, if the action leaves the store alone. Task ids are distinct.
  pub execute_task-IsSettled :
      (i : String) (now later : ℕ) (t : Task) (db : Db)
      → Distinct db.tasks
      → get_task i db ≡ some t
      → is_terminal t.status ≡ false
      → IsSettled i later (execute_task target_of url_of uid perform i now later db)
  unfolding execute_task
  execute_task-IsSettled i now later t db d h open_task =
      let started = (update_task_status_cas i t.status running none none now db).1 in
      let held = swap-row i t.status running none none now t db h (same_status t.status) in
      let ending =
        ending_of target_of url_of uid perform (route target_of url_of uid t) t started in
      let same : ending.1 ≡ started = ending-quiet (route target_of url_of uid t) t started in
      let settled =
        finish-IsSettled i t (set_status running none none now t) ending.0 later started held
          (unfold set_status in refl) in
      rw (start-runs i now t db d h open_task, h)
        (subst (λ after. IsSettled i later (finish_task i t (outcome t ending.0) later after))
          (sym same) settled)
