-- ===== src/Http/Connection/Pipeline.antt =====
-- Requests that follow one another on a connection.
use mathlib.Core.Option
use antigravity_webhook_hub.Prelude.{
  ℕ, zero, suc, ◌-◌, ◌≤◌, ◌<◌, ◌≡◌, refl, ap, ◌∙◌, true, false, ◌&&◌, Option, none, some, List, [],
  ◌∷◌, ◌++◌, length, drop, ltb, ◌==◌, arith, Bool-cases, inl, inr,
}
use antigravity_webhook_hub.Text.{starts_with}
use antigravity_webhook_hub.Http.Reader.{Silence, got, limit, in_front, split_after, read_until}
use antigravity_webhook_hub.Http.Chunks.{crlf}
use antigravity_webhook_hub.Http.Chunks.RoundTrip.{input}
use antigravity_webhook_hub.Http.Head.{Head, parse_head}
use antigravity_webhook_hub.Http.Connection.{
  Env, HttpServer, respond, with_body, with_head, with_bytes, round,
}
use antigravity_webhook_hub.Http.Connection.Framing.{Framed, read_body-Framed}
use antigravity_webhook_hub.Http.Connection.Checks.{counted}

starts_with-le : (sep s : List ℕ) → starts_with sep s ≡ true → length sep ≤ length s
unfolding starts_with
starts_with-le [] s h = omega arith
starts_with-le (d ∷ sep) [] h = cc
starts_with-le (d ∷ sep) (c ∷ s) h = ground (arith, starts_with-le sep s)

starts_with-longer :
    (sep s x : List ℕ) → length sep ≤ length s → starts_with sep (s ++ x) ≡ starts_with sep s
unfolding starts_with
starts_with-longer [] s x h = refl
starts_with-longer (d ∷ sep) [] x h = absurd (omega arith)
starts_with-longer (d ∷ sep) (c ∷ s) x h =
    ap (λ b. d == c && b) (starts_with-longer sep s x (omega arith))

drop-longer : (n : ℕ) (s x : List ℕ) → n ≤ length s → drop n (s ++ x) ≡ drop n s ++ x
drop-longer zero s x h = refl
drop-longer (suc n) [] x h = absurd (omega arith)
drop-longer (suc n) (c ∷ s) x h = drop-longer n s x (omega arith)

in_front-inversion :
    (c : ℕ) (o : Option (List ℕ × List ℕ)) (a r : List ℕ)
    → Option.map (in_front c) o ≡ some (a, r)
    → (b : List ℕ) × (o ≡ some (b, r)) × (a ≡ c ∷ b)
in_front-inversion c none a r h = cc
in_front-inversion c (some (b, q)) a r h = (b, cc, cc)

split_after-le : (sep s a r : List ℕ) → split_after sep s ≡ some (a, r) → length sep ≤ length s
unfolding split_after
split_after-le sep [] a r h = cc
split_after-le sep (c ∷ s) a r h = elim (Bool-cases (starts_with sep (c ∷ s))) [
  | inl e ↦ starts_with-le sep (c ∷ s) e
  | inr e ↦
      let (b, k, _) = in_front-inversion c (split_after sep s) a r (rw e at h) in
      omega (arith, split_after-le sep s b r k)
]

split_after-longer :
    (sep s a r x : List ℕ)
    → split_after sep s ≡ some (a, r)
    → split_after sep (s ++ x) ≡ some (a, r ++ x)
unfolding split_after
split_after-longer sep [] a r x h = cc
split_after-longer sep (c ∷ s) a r x h =
    let enough = split_after-le sep (c ∷ s) a r h in
    let same = starts_with-longer sep (c ∷ s) x enough in
    elim (Bool-cases (starts_with sep (c ∷ s))) [
      | inl e ↦
          let first : some (sep, drop (length sep) (c ∷ s)) ≡ some (a, r) = rw e at h in
          rw (same, e, drop-longer (length sep) (c ∷ s) x enough)
            (ap (Option.map (λ (p : List ℕ × List ℕ). (p.0, p.1 ++ x))) first)
      | inr e ↦
          let (b, k, l) = in_front-inversion c (split_after sep s) a r (rw e at h) in
          rw (same, e, split_after-longer sep s b r x k, l) refl
    ]

-- The bytes of a request line with headers: they end at the first empty line, within the limit of
-- the reader.
pub record IsHeadBytes (b : List ℕ) : Type 0 where
  pub alone : split_after (crlf ++ crlf) b ≡ some (b, [])
  pub short : ltb limit (length b - 4) ≡ false

module _ (silence : Silence) where
  read_head :
      (b x : List ℕ)
      → IsHeadBytes b
      → read_until (crlf ++ crlf) (input silence (b ++ x)) ≡ got b (input silence x)
  unfolding read_until
  read_head b x h = rw (split_after-longer (crlf ++ crlf) b b [] x h.alone, h.short) refl

-- A request whose head ends at its first empty line within the 64 KiB limit and is parsed, and
-- whose body stands behind it by its length or in chunks as write_stream writes them: the round
-- answers it with exactly that body, and the connection is read on at the first byte behind it,
-- whatever stands there. The server runs, its limit on bodies is below 2^63, and the body is
-- within it.
pub round-next :
    {S H : Type 0} (env : Env S H) (s : HttpServer S H) (silence : Silence)
    (head_bytes b wire next : List ℕ) (head : Head)
    → env.is_running s.hub ≡ true
    → env.max_body_bytes < 9223372036854775808
    → IsHeadBytes head_bytes
    → parse_head env.parse_url head_bytes ≡ some head
    → Framed head.headers b wire
    → length b ≤ env.max_body_bytes
    → round env (input silence (head_bytes ++ (wire ++ next))) s
      ≡ respond env head b (input silence next) (counted s)
unfolding round
round-next env s silence head_bytes b wire next head running small h parsed framed fits =
    rw running (ap (with_bytes env s) (read_head silence head_bytes (wire ++ next) h))
    ∙ ap (with_head env (input silence (wire ++ next)) (counted s)) parsed
    ∙ ap (with_body env head (counted s))
        (read_body-Framed env.max_body_bytes silence small next framed fits)
