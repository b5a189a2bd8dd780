-- ===== src/Cron/Earliest.antt =====
-- `compute_next_cron_run` (hub/scheduler.py) against the search that looks at every minute.
use mathlib.Core.Path.{subst}
use antigravity_webhook_hub.Prelude.{
  ℕ, zero, suc, ◌+◌, ◌≤◌, ◌≡◌, refl, sym, ap, true, Option, none, some, arith, Bool-cases,
  Option-cases, inl, inr,
}
use antigravity_webhook_hub.Text.{Text}
use antigravity_webhook_hub.Cron.Calendar.{Stamp, next_minute}
use antigravity_webhook_hub.Cron.Search.{
  Cron, Next, found, matches, Round, stays, goes_to, look, follow, search, max_rounds, parse_cron,
  compute_next_cron_run,
}
use antigravity_webhook_hub.Cron.Walk.{Misses, done, ends, step}
use antigravity_webhook_hub.Cron.Fair.{first_match, IsFair, look-IsFair}

-- A walk leaves out minutes, and no match.
Misses-on :
    (c : Cron) (n k : ℕ) (s t u : Stamp) (o : Option Stamp)
    → Misses c n s o
    → o ≡ some t
    → first_match k c t ≡ some u
    → (j : ℕ) × (first_match j c s ≡ some u)
unfolding first_match
Misses-on c _ k _ t u _ (done s) e h =
    let same : s ≡ t = cc e in (k, subst (λ x. first_match k c x ≡ some u) (sym same) h)
Misses-on c _ k _ t u _ (ends s miss stop) e h = cc
Misses-on c _ k _ t u _ (step n s v o miss next rest) e h =
    let (j, later) = Misses-on c n k v t u o rest e h in (suc j, rw (first_match, miss, next) later)

Misses-back :
    (c : Cron) (n k : ℕ) (s u : Stamp) (o : Option Stamp)
    → Misses c n s o
    → first_match k c s ≡ some u
    → (t : Stamp) × (j : ℕ) × (o ≡ some t) × (n + j ≡ k) × (first_match j c t ≡ some u)
unfolding first_match
Misses-back c _ k _ u _ (done s) h = (s, k, refl, omega arith, h)
Misses-back c _ zero _ u _ (ends s miss stop) h = cc
Misses-back c _ (suc k) _ u _ (ends s miss stop) h = absurd (cc (rw (first_match, miss, stop) at h))
Misses-back c _ zero _ u _ (step n s v o miss next rest) h = cc
Misses-back c _ (suc k) _ u _ (step n s v o miss next rest) h =
    let (t, j, e, count, later) =
      Misses-back c n k v u o rest (rw (first_match, miss, next) at h) in
    (t, j, e, omega arith, later)

follow-first :
    (r : Round) (c : Cron) (s u : Stamp) (k : Stamp → Next)
    → IsFair c s r
    → ((t : Stamp) → k t ≡ found u → (j : ℕ) × (first_match j c t ≡ some u))
    → follow r s k ≡ found u
    → (j : ℕ) × (first_match j c s ≡ some u)
unfolding first_match
follow-first stays c s u k fair rest h =
    let same : s ≡ u = cc h in (1, rw (first_match, fair) (ap some same))
follow-first (goes_to none) c s u k fair rest h = cc
follow-first (goes_to (some t)) c s u k (n, walk) rest h =
    let (j, later) = rest t h in Misses-on c (suc n) j s t u (some t) walk refl later

search-first :
    (rounds : ℕ) (c : Cron) (s u : Stamp)
    → search rounds c s ≡ found u
    → (j : ℕ) × (first_match j c s ≡ some u)
unfolding search
search-first zero c s u h = cc
search-first (suc rounds) c s u h =
    follow-first (look c s) c s u (λ t. search rounds c t) (look-IsFair c s)
      (λ t. search-first rounds c t u) h

first_match-matches :
    (n : ℕ) (c : Cron) (s t : Stamp) → first_match n c s ≡ some t → matches c t ≡ true
unfolding first_match
first_match-matches zero c s t h = cc
first_match-matches (suc n) c s t h = elim (Bool-cases (matches c s)) [
  | inl m ↦ let same : s ≡ t = cc (rw m at h) in subst (λ x. matches c x ≡ true) same m
  | inr m ↦ (elim (Option-cases (next_minute s)) [
    | inl e ↦ absurd (cc (rw (m, e) at h))
    | inr (v, e) ↦ first_match-matches n c v t (rw (m, e) at h)
  ])
]

follow_complete :
    (r : Round) (c : Cron) (s u : Stamp) (n rounds : ℕ)
    → IsFair c s r
    → n ≤ suc rounds
    → ((t : Stamp) (j : ℕ) → j ≤ rounds → first_match j c t ≡ some u → search rounds c t ≡ found u)
    → first_match n c s ≡ some u
    → follow r s (λ t. search rounds c t) ≡ found u
unfolding first_match
follow_complete stays c s u zero rounds fair le rest h = cc
follow_complete stays c s u (suc n) rounds fair le rest h =
    let same : s ≡ u = cc (rw fair at h) in ap found same
follow_complete (goes_to none) c s u n rounds (k, walk) le rest h =
    let (t, j, e, count, later) = Misses-back c (suc k) n s u none walk h in cc e
follow_complete (goes_to (some v)) c s u n rounds (k, walk) le rest h =
    let (t, j, e, count, later) = Misses-back c (suc k) n s u (some v) walk h in
    let same : t ≡ v = cc e in
    rest v j (omega arith) (subst (λ x. first_match j c x ≡ some u) same later)

search_complete :
    (rounds n : ℕ) (c : Cron) (s u : Stamp)
    → n ≤ rounds
    → first_match n c s ≡ some u
    → search rounds c s ≡ found u
unfolding search first_match
search_complete zero zero c s u le h = cc
search_complete zero (suc n) c s u le h = absurd (omega arith)
search_complete (suc rounds) n c s u le h =
    follow_complete (look c s) c s u n rounds (look-IsFair c s) le
      (λ t j. search_complete rounds j c t u) h

abbrev pub Earliest : Text → Stamp → Stamp → Type 0
Earliest expr start t =
    (c : Cron) × (s : Stamp) × (n : ℕ) × (parse_cron expr ≡ some c)
    × (next_minute start ≡ some s)
    × (first_match n c s ≡ some t)
    × (matches c t ≡ true)

-- A time that compute_next_cron_run returns matches the expression, and the search that looks at
-- every minute from the minute after the start finds the same time first: the skips leave out no
-- match.
pub compute-Earliest :
    (expr : Text) (start t : Stamp)
    → compute_next_cron_run expr start ≡ found t
    → Earliest expr start t
unfolding compute_next_cron_run
compute-Earliest expr start t h = elim (Option-cases (parse_cron expr)) [
  | inl e ↦ absurd (cc (rw (compute_next_cron_run, e) at h))
  | inr (c, e) ↦ (elim (Option-cases (next_minute start)) [
    | inl m ↦ absurd (cc (rw (compute_next_cron_run, e, m) at h))
    | inr (s, m) ↦
        (let (n, first) = search-first max_rounds c s t (rw (compute_next_cron_run, e, m) at h) in
          (c, s, n, e, m, first, first_match-matches n c s t first))
  ])
]

-- If the search that looks at every minute finds a match among the first 366 days of minutes after
-- the start, the rounds of compute_next_cron_run are enough, and it returns that match.
pub compute_complete :
    (expr : Text) (c : Cron) (start s t : Stamp) (n : ℕ)
    → parse_cron expr ≡ some c
    → next_minute start ≡ some s
    → n ≤ max_rounds
    → first_match n c s ≡ some t
    → compute_next_cron_run expr start ≡ found t
unfolding compute_next_cron_run
compute_complete expr c start s t n e m le h =
    rw (compute_next_cron_run, e, m) (search_complete max_rounds n c s t le h)
