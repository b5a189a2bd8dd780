-- ===== src/Store/Queue.antt =====
-- The order of `get_queued_tasks` of hub/db.py.
use antigravity_webhook_hub.Prelude.{
  ◌+◌, ◌≤◌, ◌⊎◌, sym, ap, ◌≡◌, refl, ◌∙◌, Bool, true, false, ◌&&◌, List, [], ◌∷◌, keep, arith,
  Bool-cases, inl, inr, if◌then◌else◌,
}
use antigravity_webhook_hub.Prelude.Int.{ℤ, pos, negsuc, ltb_ℤ, ◌<ℤ◌}
use antigravity_webhook_hub.Store.Rows.{Task, Db, count_rows}
use antigravity_webhook_hub.Store.Tasks.{
  runs_before, insert_by_priority, by_priority, is_queued, get_queued_tasks,
}

-- Each task runs before the one behind it, by the comparison of the query.
abbrev leads : Task → List Task → Bool
leads t [] = true
leads t (u ∷ us) = runs_before t u

abbrev Led : List Task → Type 0
Led [] = Unit
Led (t ∷ ts) = (leads t ts ≡ true) × Led ts

-- The order that is meant: a higher priority, or the same priority and no later creation.
abbrev pub Precedes : Task → Task → Type 0
Precedes t u =
    (u.priority <ℤ t.priority) ⊎ ((t.priority ≡ u.priority) × (t.created_at ≤ u.created_at))

abbrev pub PrecedesAll : Task → List Task → Type 0
PrecedesAll t [] = Unit
PrecedesAll t (u ∷ us) = Precedes t u × PrecedesAll t us

-- Each task precedes all that come behind it.
abbrev pub InOrder : List Task → Type 0
InOrder [] = Unit
InOrder (t ∷ ts) = PrecedesAll t ts × InOrder ts

equal_ℤ : (a b : ℤ) → ltb_ℤ a b ≡ false → ltb_ℤ b a ≡ false → a ≡ b
equal_ℤ (pos m) (pos n) h k = ap pos (ground (arith, h, k))
equal_ℤ (pos m) (negsuc n) h k = absurd (ground (arith, h, k))
equal_ℤ (negsuc m) (pos n) h k = absurd (ground (arith, h, k))
equal_ℤ (negsuc m) (negsuc n) h k = ap negsuc (ground (arith, h, k))

runs_before-Precedes : (t u : Task) → runs_before t u ≡ true → Precedes t u
runs_before-Precedes t u h = elim (Bool-cases (ltb_ℤ u.priority t.priority)) [
  | inl e ↦ inl (ground (arith, e))
  | inr e ↦ elim (Bool-cases (ltb_ℤ t.priority u.priority)) [
    | inl k ↦ absurd (cc (rw (e, k) at h))
    | inr k ↦ inr (equal_ℤ t.priority u.priority k e, ground (arith, rw (e, k) at h))
  ]
]

Precedes-trans : (t u v : Task) → Precedes t u → Precedes u v → Precedes t v
Precedes-trans t u v (inl h) (inl k) = inl (omega (arith, h, k))
Precedes-trans t u v (inl h) (inr (e, k)) = inl (rw (sym e) h)
Precedes-trans t u v (inr (e, h)) (inl k) = inl (rw e k)
Precedes-trans t u v (inr (e, h)) (inr (d, k)) = inr (e ∙ d, omega (arith, h, k))

PrecedesAll-trans :
    (t u : Task) (us : List Task) → Precedes t u → PrecedesAll u us → PrecedesAll t us
PrecedesAll-trans t u [] h k = tt
PrecedesAll-trans t u (v ∷ us) h (k, l) = (Precedes-trans t u v h k, PrecedesAll-trans t u us h l)

PrecedesAll-leads : (t : Task) (us : List Task) → leads t us ≡ true → InOrder us → PrecedesAll t us
PrecedesAll-leads t [] h d = tt
PrecedesAll-leads t (u ∷ us) h (d, e) =
    let first = runs_before-Precedes t u h in (first, PrecedesAll-trans t u us first d)

Led-InOrder : (ts : List Task) → Led ts → InOrder ts
Led-InOrder [] d = tt
Led-InOrder (t ∷ ts) (h, d) =
    let behind = Led-InOrder ts d in (PrecedesAll-leads t ts h behind, behind)

runs_before-total : (t u : Task) → runs_before u t ≡ false → runs_before t u ≡ true
runs_before-total t u h = ground arith

leads-insert :
    (t u : Task) (us : List Task)
    → runs_before u t ≡ true
    → leads u us ≡ true
    → leads u (insert_by_priority t us) ≡ true
unfolding insert_by_priority
leads-insert t u [] h k = h
leads-insert t u (v ∷ us) h k = elim (Bool-cases (runs_before v t)) [
  | inl e ↦ rw e k
  | inr e ↦ rw e h
]

Led-insert : (t : Task) (us : List Task) → Led us → Led (insert_by_priority t us)
unfolding insert_by_priority
Led-insert t [] d = (refl, tt)
Led-insert t (u ∷ us) d = elim (Bool-cases (runs_before u t)) [
  | inl e ↦ rw e (leads-insert t u us e d.0, Led-insert t us d.1)
  | inr e ↦ rw e (runs_before-total t u e, d)
]

Led-by_priority : (sorted ts : List Task) → Led sorted → Led (by_priority sorted ts)
unfolding by_priority
Led-by_priority sorted [] d = d
Led-by_priority sorted (t ∷ ts) d =
    Led-by_priority (insert_by_priority t sorted) ts (Led-insert t sorted d)

count-insert :
    (p : Task → Bool) (t : Task) (us : List Task)
    → count_rows p (insert_by_priority t us) ≡ (if p t then 1 else 0) + count_rows p us
unfolding insert_by_priority count_rows
count-insert p t [] = ground arith
count-insert p t (u ∷ us) = ground (arith, count-insert p t us)

count-by_priority :
    (p : Task → Bool) (sorted ts : List Task)
    → count_rows p (by_priority sorted ts) ≡ count_rows p sorted + count_rows p ts
unfolding by_priority count_rows
count-by_priority p sorted [] = omega arith
count-by_priority p sorted (t ∷ ts) =
    count-by_priority p (insert_by_priority t sorted) ts
    ∙ rw (count-insert p t sorted) (ground arith)

count-keep :
    (p q : Task → Bool) (ts : List Task)
    → count_rows p (keep q ts) ≡ count_rows (λ t. q t && p t) ts
unfolding count_rows
count-keep p q [] = refl
count-keep p q (t ∷ ts) = ground (arith, count-keep p q ts)

get_queued_tasks-InOrder : (db : Db) → InOrder (get_queued_tasks db)
unfolding get_queued_tasks
get_queued_tasks-InOrder db = Led-InOrder _ (Led-by_priority [] (keep is_queued db.tasks) tt)

get_queued_tasks-count :
    (p : Task → Bool) (db : Db)
    → count_rows p (get_queued_tasks db) ≡ count_rows (λ t. is_queued t && p t) db.tasks
unfolding get_queued_tasks count_rows
get_queued_tasks-count p db =
    omega (arith, count-by_priority p [] (keep is_queued db.tasks), count-keep p is_queued db.tasks)

-- In the list of queued tasks each task has a higher priority than every task behind it, or the
-- same priority and no later time of creation. For every test the list has as many tasks that pass
-- it as the store has queued tasks that pass it.
pub get_queued_tasks-sorts :
    (db : Db)
    → InOrder (get_queued_tasks db)
      × ((p : Task → Bool)
          → count_rows p (get_queued_tasks db) ≡ count_rows (λ t. is_queued t && p t) db.tasks)
get_queued_tasks-sorts db = (get_queued_tasks-InOrder db, λ p. get_queued_tasks-count p db)
