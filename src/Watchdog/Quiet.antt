-- ===== src/Watchdog/Quiet.antt =====
-- One conversation while calls of `resuscitate_session` (hub/antigravity/watchdog.py) overlap: what
-- each kind of step keeps.
use antigravity_webhook_hub.Prelude.{
  ℕ, ◌+◌, ◌≤◌, ◌≡◌, refl, ◌∙◌, true, false, ◌||◌, List, [], ◌∷◌, ◌++◌, any, keep, length, arith,
  Bool-cases, inl, inr, if◌then◌else◌,
}
use antigravity_webhook_hub.Text.{Text, text_eq, text_eq_iff}
use antigravity_webhook_hub.Watchdog.Resuscitate.{
  Watch, sending, Call, release, holds_id, drop_id, touch,
}
use antigravity_webhook_hub.Watchdog.Concurrent.{World, concerns, times_of, after_begin}

-- Each time is at least the gap behind the one before.
abbrev pub Spaced : ℕ → List ℕ → Type 0
Spaced gap [] = Unit
Spaced gap (t ∷ []) = Unit
Spaced gap (t ∷ s ∷ ts) = (s + gap ≤ t) × Spaced gap (s ∷ ts)

abbrev pub UpTo : ℕ → List ℕ → Type 0
UpTo bound [] = Unit
UpTo bound (t ∷ ts) = t ≤ bound

abbrev pub calls_about : Text → List Call → ℕ
calls_about i cs = length (keep (concerns i) cs)

-- For one conversation: at most one call about it waits, and the ids of that call are in flight;
-- the messages are spaced, and what is not in a call is marked with the last message or later.
pub record IsQuiet (gap : ℕ) (i : Text) (v : World) : Type 0 where
  pub one_call : calls_about i v.waiting ≤ 1
  pub flying :
      any (concerns i) v.waiting ≡ true → holds_id i v.watch.in_flight_resuscitations ≡ true
  pub spaced : Spaced gap (times_of i v.messages)
  pub marked :
      any (concerns i) v.waiting ≡ false
      → UpTo (v.watch.recently_resuscitated i) (times_of i v.messages)
  pub mark_past : v.watch.recently_resuscitated i ≤ v.clock
  pub past : UpTo v.clock (times_of i v.messages)

UpTo-le : {a b : ℕ} (ts : List ℕ) → a ≤ b → UpTo a ts → UpTo b ts
UpTo-le [] h k = tt
UpTo-le (t ∷ ts) h k = omega arith

Spaced-cons :
    (gap now mark : ℕ) (ts : List ℕ)
    → mark + gap ≤ now
    → UpTo mark ts
    → Spaced gap ts
    → Spaced gap (now ∷ ts)
Spaced-cons gap now mark [] h k s = tt
Spaced-cons gap now mark (t ∷ ts) h k s = (omega arith, s)

pub none_about : (i : Text) (cs : List Call) → any (concerns i) cs ≡ false → calls_about i cs ≡ 0
none_about i [] h = refl
none_about i (c ∷ cs) h = ground (arith, none_about i cs)

pub any-split :
    (i : Text) (before after : List Call) (c : Call)
    → any (concerns i) (before ++ c ∷ after) ≡ concerns i c || any (concerns i) (before ++ after)
any-split i [] after c = refl
any-split i (b ∷ before) after c = ground (arith, any-split i before after c)

pub about-split :
    (i : Text) (before after : List Call) (c : Call)
    → calls_about i (before ++ c ∷ after)
      ≡ (if concerns i c then 1 else 0) + calls_about i (before ++ after)
about-split i [] after c = ground arith
about-split i (b ∷ before) after c = ground (arith, about-split i before after c)

pub about-zero : (i : Text) (cs : List Call) → calls_about i cs ≡ 0 → any (concerns i) cs ≡ false
about-zero i [] h = refl
about-zero i (c ∷ cs) h = ground (arith, about-zero i cs)

member-discard_other :
    (i j : Text) (is : List Text) → text_eq j i ≡ false → holds_id i (drop_id j is) ≡ holds_id i is
member-discard_other i j [] h = refl
member-discard_other i j (x ∷ is) h =
    ground (arith, member-discard_other i j is h, text_eq_iff x i, text_eq_iff x j, text_eq_iff j i)

module _ (gap : ℕ) (i : Text) where
  -- A call begins: the conversation had no call.
  pub sending-IsQuiet :
      (v : World) (c : Call) (w : Watch) (now : ℕ)
      → v.clock ≤ now
      → IsQuiet gap i v
      → (concerns i c ≡ true → holds_id i v.watch.in_flight_resuscitations ≡ false)
      → (text_eq c.target_id i ≡ true → v.watch.recently_resuscitated i + gap ≤ now)
      → w.in_flight_resuscitations
        ≡ c.target_id ∷ c.conversation_id ∷ v.watch.in_flight_resuscitations
      → w.recently_resuscitated ≡ v.watch.recently_resuscitated
      → IsQuiet gap i (after_begin now v (sending c, w))
  sending-IsQuiet v c w now late q free rested flies same = elim (Bool-cases (concerns i c)) [
    | inl e ↦
        let idle : any (concerns i) v.waiting ≡ false = ground (arith, q.flying, free) in
        let marked = q.marked idle in
        elim (Bool-cases (text_eq c.target_id i)) [
          | inl t ↦ record {
            one_call = rw (e, none_about i v.waiting idle) (omega arith);
            flying = rw flies (ground arith);
            spaced =
                rw t (Spaced-cons gap now _ (times_of i v.messages) (rested t) marked q.spaced);
            marked = ground arith;
            mark_past = rw same (omega (arith, q.mark_past));
            past = rw t (omega arith);
          }
          | inr t ↦ record {
            one_call = rw (e, none_about i v.waiting idle) (omega arith);
            flying = rw flies (ground arith);
            spaced = rw t q.spaced;
            marked = ground arith;
            mark_past = rw same (omega (arith, q.mark_past));
            past = rw t (UpTo-le (times_of i v.messages) late q.past);
          }
        ]
    | inr e ↦
        let away : text_eq c.target_id i ≡ false = ground arith in
        record {
          one_call = rw e q.one_call;
          flying = rw (e, flies) (ground (arith, q.flying));
          spaced = rw away q.spaced;
          marked = rw (e, away, same) q.marked;
          mark_past = rw same (omega (arith, q.mark_past));
          past = rw away (UpTo-le (times_of i v.messages) late q.past);
        }
  ]

  touched :
      (cid target : Text) (now : ℕ) (w : Watch)
      → (text_eq cid i || text_eq target i) ≡ true
      → touch target now (touch cid now w.recently_resuscitated) i ≡ now
  touched cid target now w e = ground arith

  untouched :
      (cid target : Text) (now : ℕ) (w : Watch)
      → (text_eq cid i || text_eq target i) ≡ false
      → touch target now (touch cid now w.recently_resuscitated) i ≡ w.recently_resuscitated i
  untouched cid target now w e = ground arith

  -- Time passes, and the marks stay.
  pub waiting-IsQuiet :
      (v : World) (w : Watch) (now : ℕ)
      → v.clock ≤ now
      → IsQuiet gap i v
      → w.in_flight_resuscitations ≡ v.watch.in_flight_resuscitations
      → w.recently_resuscitated ≡ v.watch.recently_resuscitated
      → IsQuiet gap i (record v { watch = w; clock = now })
  waiting-IsQuiet v w now late q flies same = record {
    one_call = q.one_call;
    flying = rw flies q.flying;
    spaced = q.spaced;
    marked = rw same q.marked;
    mark_past = rw same (omega (arith, q.mark_past));
    past = UpTo-le (times_of i v.messages) late q.past;
  }

  -- The `finally` of a call with the rest of the calls.
  pub release-IsQuiet :
      (v : World) (w : Watch) (cid target : Text) (rest : List Call) (now : ℕ)
      → v.clock ≤ now
      → calls_about i rest ≤ 1
      → (any (concerns i) rest ≡ true
          → ((text_eq cid i || text_eq target i) ≡ false)
            × (holds_id i w.in_flight_resuscitations ≡ true))
      → Spaced gap (times_of i v.messages)
      → ((text_eq cid i || text_eq target i) ≡ false
          → any (concerns i) rest ≡ false
          → UpTo (w.recently_resuscitated i) (times_of i v.messages))
      → w.recently_resuscitated i ≤ v.clock
      → UpTo v.clock (times_of i v.messages)
      → IsQuiet gap i (record v { watch = release cid target now w; waiting = rest; clock = now })
  unfolding release
  release-IsQuiet v w cid target rest now late one flying spaced marked mark_past past = record {
    one_call = one;
    flying = λ busy.
        let (other, flies) = flying busy in
        member-discard_other i target (drop_id cid w.in_flight_resuscitations) (ground arith)
        ∙ member-discard_other i cid w.in_flight_resuscitations (ground arith)
        ∙ flies;
    spaced = spaced;
    marked = λ idle. elim (Bool-cases (text_eq cid i || text_eq target i)) [
      | inl e ↦ rw (touched cid target now w e) (UpTo-le (times_of i v.messages) late past)
      | inr e ↦ rw (untouched cid target now w e) (marked e idle)
    ];
    mark_past = elim (Bool-cases (text_eq cid i || text_eq target i)) [
      | inl e ↦ rw (touched cid target now w e) (omega arith)
      | inr e ↦ rw (untouched cid target now w e) (omega (arith, mark_past))
    ];
    past = UpTo-le (times_of i v.messages) late past;
  }
