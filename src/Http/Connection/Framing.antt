-- ===== src/Http/Connection/Framing.antt =====
-- The body that is read from a connection.
use antigravity_webhook_hub.Prelude.{
  ℕ, suc, ◌≤◌, ◌<◌, ◌≡◌, refl, ap, ◌∙◌, false, Option, none, some, List, [], ◌∷◌, ◌++◌, length, ltb,
  ◌==◌, arith, Bool-cases, inl, inr,
}
use antigravity_webhook_hub.Prelude.Int.{ℤ, pos, negsuc}
use antigravity_webhook_hub.Text.{
  Text, codes, contains, starts_with, lower, parse_int, parse_int-print_int, print_int, print_nat,
  count_digits-print_nat-le,
}
use antigravity_webhook_hub.Models.{get}
use antigravity_webhook_hub.Http.Reader.{
  Input, Silence, Reading, got, incomplete, timed_out, overrun, read_exactly,
}
use antigravity_webhook_hub.Http.Chunks.{body, write_stream}
use antigravity_webhook_hub.Http.Chunks.Bounds.{
  IsWithin, Exactly, read_exactly-Exactly, read_chunks-IsWithin,
}
use antigravity_webhook_hub.Http.Chunks.RoundTrip.{
  concat, input, read_item, write_stream-longer, read_chunks-written,
}
use antigravity_webhook_hub.Http.Connection.{
  length_read, read_length, or_gone, read_coded, framed_body, read_body,
}

length_read-IsWithin :
    (max n : ℕ) (i : Input) (r : Reading) → n ≤ max → Exactly n i r → IsWithin max i (length_read r)
length_read-IsWithin max n i (got b rest) h e = (omega arith, e.1)
length_read-IsWithin max n i incomplete h e = tt
length_read-IsWithin max n i timed_out h e = tt
length_read-IsWithin max n i overrun h e = tt

read_length-IsWithin : (max : ℕ) (n : Option ℤ) (i : Input) → IsWithin max i (read_length max n i)
unfolding read_length
read_length-IsWithin max none i = tt
read_length-IsWithin max (some (negsuc n)) i = tt
read_length-IsWithin max (some (pos n)) i = elim (Bool-cases (ltb max n)) [
  | inl e ↦ rw e tt
  | inr e ↦ elim (Bool-cases (n == 0)) [
    | inl k ↦ rw (e, k) (omega arith, omega arith)
    | inr k ↦
        rw (e, k)
          (length_read-IsWithin max n i (read_exactly n i) (ground arith)
            (read_exactly-Exactly n i))
  ]
]

read_coded-IsWithin :
    (max : ℕ) (coding : Text) (i : Input) → IsWithin max i (read_coded max coding i)
read_coded-IsWithin max coding i = elim (Bool-cases (contains (codes "chunked") coding)) [
  | inl e ↦
      let (b, k, w) =
        read_chunks-IsWithin (suc (length i.bytes)) max [] i (omega arith) (omega arith) in
      rw (e, k) w
  | inr e ↦ rw e (omega arith, omega arith)
]

framed_body-IsWithin :
    (max : ℕ) (n coding : Option Text) (i : Input) → IsWithin max i (framed_body max n coding i)
framed_body-IsWithin max (some n) (some coding) i = tt
framed_body-IsWithin max (some n) none i = read_length-IsWithin max (parse_int n) i
framed_body-IsWithin max none (some coding) i = read_coded-IsWithin max (lower coding) i
framed_body-IsWithin max none none i = (omega arith, omega arith)

-- A body is within the limit, and what is left of the connection is no longer than before.
pub read_body-IsWithin :
    (max : ℕ) (headers : List (Text × Text)) (i : Input) → IsWithin max i (read_body max headers i)
unfolding read_body
read_body-IsWithin max headers i =
    framed_body-IsWithin max (get headers (codes "content-length"))
      (get headers (codes "transfer-encoding")) i

-- How a client puts a body behind the headers: with its length, or in chunks.
pub data Framed (headers : List (Text × Text)) : List ℕ → List ℕ → Type 0 where
  by_length :
      (b : List ℕ)
      → get headers (codes "content-length") ≡ some (print_nat (length b))
      → get headers (codes "transfer-encoding") ≡ none
      → Framed headers b b
  by_chunks :
      (b wire : List ℕ) (items : List (List ℕ))
      → get headers (codes "content-length") ≡ none
      → get headers (codes "transfer-encoding") ≡ some (codes "chunked")
      → b ≡ concat items
      → wire ≡ write_stream items
      → Framed headers b wire

parse_int-print_nat : (n : ℕ) → n < 9223372036854775808 → parse_int (print_nat n) ≡ some (pos n)
unfolding print_int
parse_int-print_nat n h = parse_int-print_int (pos n) (omega (arith, count_digits-print_nat-le n h))

module _ (max : ℕ) (silence : Silence) (small : max < 9223372036854775808) where
  read_length-framed :
      (b t : List ℕ)
      → length b ≤ max
      → read_length max (some (pos (length b))) (input silence (b ++ t)) ≡ body b (input silence t)
  unfolding read_length
  read_length-framed [] t h = let e : ltb max 0 ≡ false = ground arith in rw e refl
  read_length-framed (c ∷ b) t h =
      let e : ltb max (suc (length b)) ≡ false = ground arith in
      let more : (suc (length b) == 0) ≡ false = ground arith in
      rw (e, more, read_item silence (c ∷ b) t) refl

  read_coded-framed :
      (items : List (List ℕ)) (t : List ℕ)
      → length (concat items) ≤ max
      → read_coded max (lower (codes "chunked")) (input silence (write_stream items ++ t))
        ≡ body (concat items) (input silence t)
  unfolding contains lower starts_with
  read_coded-framed items t h = ap or_gone (
      read_chunks-written silence items (suc (length (write_stream items ++ t))) max [] t
        (omega (arith, write_stream-longer items t)) (omega arith) (omega arith))

  -- The bytes behind a body stay for the next request.
  pub read_body-Framed :
      {headers : List (Text × Text)} {b wire : List ℕ} (t : List ℕ)
      → Framed headers b wire
      → length b ≤ max
      → read_body max headers (input silence (wire ++ t)) ≡ body b (input silence t)
  unfolding read_body
  read_body-Framed t (by_length b size coding) h =
      rw (size, coding)
        (ap (λ n. read_length max n (input silence (b ++ t)))
            (parse_int-print_nat (length b) (omega arith))
          ∙ read_length-framed b t h)
  read_body-Framed t (by_chunks b wire items size coding e k) h =
      rw (size, coding, e, k)
        (read_coded-framed items t (omega (arith, ap (λ (x : List ℕ). length x) e)))
