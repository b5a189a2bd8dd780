-- ===== src/Broker/Sets.antt =====
-- The sets of queues of hub/broker.py, as lists of numbers.
use antigravity_webhook_hub.Prelude.{
  ℕ, ◌≡◌, refl, true, false, ◌||◌, List, [], ◌∷◌, ◌==◌, arith, Bool-cases, inl, inr,
}
use antigravity_webhook_hub.Broker.{has, add, update, discard}

-- No queue twice.
abbrev pub NoRepeats : List ℕ → Type 0
NoRepeats [] = Unit
NoRepeats (x ∷ xs) = (has x xs ≡ false) × NoRepeats xs

has-eq : (i y : ℕ) (xs : List ℕ) → has y xs ≡ true → has i xs ≡ (y == i) || has i xs
has-eq i y [] h = cc
has-eq i y (x ∷ xs) h = ground (arith, has-eq i y xs)

pub has-add : (i y : ℕ) (xs : List ℕ) → has i (add y xs) ≡ (y == i) || has i xs
unfolding add
has-add i y xs = elim (Bool-cases (has y xs)) [
  | inl e ↦ rw e (ground (arith, has-eq i y xs e))
  | inr e ↦ rw e refl
]

pub has-update : (i : ℕ) (xs ys : List ℕ) → has i (update xs ys) ≡ has i xs || has i ys
unfolding update
has-update i xs [] = ground arith
has-update i xs (y ∷ ys) = ground (arith, has-update i (add y xs) ys, has-add i y xs)

pub NoRepeats-update : (xs ys : List ℕ) → NoRepeats xs → NoRepeats (update xs ys)
unfolding update
NoRepeats-update xs [] h = h
NoRepeats-update xs (y ∷ ys) h =
    NoRepeats-update (add y xs) ys
      (unfold add in elim (Bool-cases (has y xs)) [ inl e ↦ rw e h | inr e ↦ rw e (e, h) ])

pub has-discard_self : (i : ℕ) (xs : List ℕ) → has i (discard i xs) ≡ false
has-discard_self i [] = refl
has-discard_self i (x ∷ xs) = ground (arith, has-discard_self i xs)

pub has-discard_other : (i j : ℕ) (xs : List ℕ) → (j == i) ≡ false → has j (discard i xs) ≡ has j xs
has-discard_other i j [] h = refl
has-discard_other i j (x ∷ xs) h = ground (arith, has-discard_other i j xs h)
