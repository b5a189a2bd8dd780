-- ===== src/Store/Updates.antt =====
-- What an UPDATE of hub/db.py that keeps the ids does to the rows of `tasks`.
use antigravity_webhook_hub.Prelude.{
  String, str_eq, ◌≡◌, refl, ap, ◌∙◌, inl, inr, Bool, true, false, Option, none, some, List, [],
  ◌∷◌, any, find, keep, arith, Bool-cases, if◌then◌else◌,
}
use antigravity_webhook_hub.Store.Rows.{Task, update_rows}
use antigravity_webhook_hub.Store.Tasks.{has_id}

-- A task id stands in one row: the primary key of `tasks`.
abbrev pub Distinct : List Task → Type 0
Distinct [] = Unit
Distinct (t ∷ ts) = (any (has_id t.task_id) ts ≡ false) × Distinct ts

-- An UPDATE that no row passes changes nothing.
pub update_rows-none :
    (test : Task → Bool) (change : Task → Task) (ts : List Task)
    → any test ts ≡ false
    → update_rows test change ts ≡ ts
unfolding update_rows
update_rows-none test change [] h = refl
update_rows-none test change (t ∷ ts) h = ground (arith, update_rows-none test change ts)

-- No row passes a test any more after an UPDATE of the rows that passed it to rows that do not.
pub any-update_rows_left :
    (test : Task → Bool) (change : Task → Task) (ts : List Task)
    → ((t : Task) → test t ≡ true → test (change t) ≡ false)
    → any test (update_rows test change ts) ≡ false
unfolding update_rows
any-update_rows_left test change [] left = refl
any-update_rows_left test change (t ∷ ts) left = elim (Bool-cases (test t)) [
  | inl e ↦ rw (e, left t e, any-update_rows_left test change ts left)
  | inr e ↦ rw (e, e, any-update_rows_left test change ts left)
]

-- A test that an UPDATE never makes true stays false on every row.
pub any-update_rows_kept :
    (p test : Task → Bool) (change : Task → Task) (ts : List Task)
    → ((t : Task) → p t ≡ false → p (change t) ≡ false)
    → any p ts ≡ false
    → any p (update_rows test change ts) ≡ false
unfolding update_rows
any-update_rows_kept p test change [] kept h = refl
any-update_rows_kept p test change (t ∷ ts) kept h =
    ground (arith, kept t, any-update_rows_kept p test change ts kept)

abbrev pub rewrite_if : (Task → Bool) → (Task → Task) → Task → Task
rewrite_if test change t = if test t then change t else t

abbrev pub map_option : (Task → Task) → Option Task → Option Task
map_option f none = none
map_option f (some t) = some (f t)

map_option-if :
    (b : Bool) (f : Task → Task) (t : Task) (o : Option Task)
    → (if b then some (f t) else map_option f o) ≡ map_option f (if b then some t else o)
map_option-if true f t o = refl
map_option-if false f t o = refl

module _ (test : Task → Bool) (change : Task → Task)
    (same_id : (t : Task) → (change t).task_id ≡ t.task_id) where
  id-rewrite : (t : Task) → (rewrite_if test change t).task_id ≡ t.task_id
  id-rewrite t = elim (Bool-cases (test t)) [ inl e ↦ rw e (same_id t) | inr e ↦ rw e ]

  has_id-rewrite : (i : String) (t : Task) → has_id i (rewrite_if test change t) ≡ has_id i t
  has_id-rewrite i t = ap (λ s. str_eq s i) (id-rewrite t)

  pub update_rows-cons :
      (t : Task) (ts : List Task)
      → update_rows test change (t ∷ ts) ≡ rewrite_if test change t ∷ update_rows test change ts
  unfolding update_rows
  update_rows-cons t ts = ground arith

  pub any-update_rows :
      (i : String) (ts : List Task)
      → any (has_id i) (update_rows test change ts) ≡ any (has_id i) ts
  unfolding update_rows
  any-update_rows i [] = refl
  any-update_rows i (t ∷ ts) = rw update_rows-cons (rw (has_id-rewrite i t, any-update_rows i ts))

  pub find-update_rows :
      (i : String) (ts : List Task)
      → find (has_id i) (update_rows test change ts)
        ≡ map_option (rewrite_if test change) (find (has_id i) ts)
  unfolding update_rows
  find-update_rows i [] = refl
  find-update_rows i (t ∷ ts) = rw update_rows-cons (
      rw (has_id-rewrite i t, find-update_rows i ts)
        (map_option-if (has_id i t) (rewrite_if test change) t (find (has_id i) ts)))

  pub Distinct-update_rows : (ts : List Task) → Distinct ts → Distinct (update_rows test change ts)
  unfolding update_rows
  Distinct-update_rows [] d = d
  Distinct-update_rows (t ∷ ts) d = rw update_rows-cons (
    any-update_rows (rewrite_if test change t).task_id ts
        ∙ ap (λ s. any (has_id s) ts) (id-rewrite t)
        ∙ d.0,
    Distinct-update_rows ts d.1,
  )

pub any-keep : (p q : Task → Bool) (ts : List Task) → any p ts ≡ false → any p (keep q ts) ≡ false
any-keep p q [] h = refl
any-keep p q (t ∷ ts) h = ground (arith, any-keep p q ts)
