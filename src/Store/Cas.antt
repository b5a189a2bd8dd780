-- ===== src/Store/Cas.antt =====
-- The compare-and-swap transition of hub/db.py: what it changes, and that a status is left once.
use mathlib.Core.Option.{some-injective}
use mathlib.Core.Bool.{or-false}
use antigravity_webhook_hub.Prelude.{
  ℕ, String, eq_iff, ◌≡◌, refl, ap, ◌∙◌, inl, inr, Bool, false, Option, some, List, [], ◌∷◌, any,
  find, arith, Bool-cases, Option-cases, none, find-none,
}
use antigravity_webhook_hub.Prelude.Int.{ℤ}
use antigravity_webhook_hub.Text.{Text}
use antigravity_webhook_hub.Models.{TaskStatus, status_eq}
use antigravity_webhook_hub.Store.Rows.{Task, Db, update_rows}
use antigravity_webhook_hub.Store.Tasks.{
  has_id, expects, get_task, set_status, update_task_status_cas,
}
use antigravity_webhook_hub.Store.Updates.{
  Distinct, update_rows-none, any-update_rows_left, find-update_rows, rewrite_if, map_option,
}

no_id-expects :
    (i : String) (s : TaskStatus) (ts : List Task)
    → any (has_id i) ts ≡ false
    → any (expects i s) ts ≡ false
no_id-expects i s [] h = refl
no_id-expects i s (t ∷ ts) h = elim (Bool-cases (has_id i t)) [
  | inl e ↦ cc
  | inr e ↦ rw e (no_id-expects i s ts (rw e at h))
]

-- The test of a swap on all rows is that on the row of the id.
expects-find :
    (i : String) (s : TaskStatus) (ts : List Task) {t : Task}
    → Distinct ts
    → find (has_id i) ts ≡ some t
    → any (expects i s) ts ≡ status_eq t.status s
expects-find i s [] d h = cc
expects-find i s (u ∷ ts) {t} d h = elim (Bool-cases (has_id i u)) [
  | inl e ↦
      let same : some u ≡ some t = rw e at h in
      let alone : any (has_id i) ts ≡ false = rw ((eq_iff u.task_id i).0 e) at d.0 in
      rw (e, no_id-expects i s ts alone)
        (or-false (status_eq u.status s) ∙ ap (λ v. status_eq v.status s) (some-injective u t same))
  | inr e ↦ rw e (expects-find i s ts d.1 (rw e at h))
]

-- The store as the map from ids to tasks that its readers see.
abbrev pub Tasks : Type 0
Tasks = String → Option Task

abbrev pub lookup : Db → Tasks
lookup db j = get_task j db

module _ (i : String) (expected new_status : TaskStatus) (code : Option ℤ) (message : Option Text)
    (now : ℕ) where
  abbrev swap : Db → Bool × Db
  swap = update_task_status_cas i expected new_status code message now

  -- Of two compare-and-swaps of one task away from the same status, the first of which writes
  -- another status, the second fails and leaves the store as it is, whatever the store held.
  pub cas_once :
      (other : TaskStatus) (code' : Option ℤ) (message' : Option Text) (later : ℕ) (db : Db)
      → status_eq new_status expected ≡ false
      → update_task_status_cas i expected other code' message' later (swap db).1
        ≡ (false, (swap db).1)
  unfolding update_task_status_cas
  cas_once other code' message' later db moved = rw (
    gone,
    update_rows-none (expects i expected) (set_status other code' message' later) after gone,
  )
    where
      after : List Task
      after = update_rows (expects i expected) (set_status new_status code message now) db.tasks

      gone : any (expects i expected) after ≡ false
      gone =
          any-update_rows_left (expects i expected) (set_status new_status code message now)
            db.tasks (λ t e. unfold set_status in rw moved (ground arith))

  pub get_task-cas :
      (j : String) (db : Db)
      → get_task j (swap db).1
        ≡ map_option
            (rewrite_if (expects i expected) (set_status new_status code message now))
            (get_task j db)
  unfolding update_task_status_cas get_task
  get_task-cas j db =
      find-update_rows (expects i expected) (set_status new_status code message now)
        (λ t. unfold set_status in refl) j db.tasks

  pub cas-succeeds :
      (db : Db) (t : Task)
      → Distinct db.tasks
      → get_task i db ≡ some t
      → (swap db).0 ≡ status_eq t.status expected
  unfolding update_task_status_cas get_task
  cas-succeeds db t d h = expects-find i expected db.tasks d h

  -- The swap on such a map.
  abbrev pub holds_status : Option Task → Bool
  holds_status none = false
  holds_status (some t) = status_eq t.status expected

  abbrev pub swap_in_map : Tasks → Bool × Tasks
  swap_in_map tasks = (
    holds_status (tasks i),
    λ j.
        map_option (rewrite_if (expects i expected) (set_status new_status code message now))
          (tasks j),
  )

  cas-result : (db : Db) → Distinct db.tasks → (swap db).0 ≡ holds_status (get_task i db)
  unfolding update_task_status_cas get_task
  cas-result db d = elim (Option-cases (get_task i db)) [
    | inl e ↦ rw e (no_id-expects i expected db.tasks (find-none (has_id i) db.tasks e))
    | inr (t, e) ↦ rw e (cas-succeeds db t d e)
  ]

  -- The compare-and-swap implements one on a finite map: seen as the map from ids to tasks, the
  -- store after it is the map before with the row of the id rewritten if it stands in the expected
  -- status, and the result says whether it did. Task ids are distinct.
  pub cas-refines :
      (db : Db) → Distinct db.tasks → ((swap db).0, lookup (swap db).1) ≡ swap_in_map (lookup db)
  cas-refines db d = λ k. (cas-result db d k, λ j. get_task-cas j db k)
