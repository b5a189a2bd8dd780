-- ===== src/Http/Chunks/Bounds.antt =====
-- What the reader takes from a connection: each read shortens it, and no body is too large.
use mathlib.Core.Option
use antigravity_webhook_hub.Prelude.{
  ℕ, zero, suc, ◌+◌, ◌-◌, ◌≤◌, ◌<◌, ◌≡◌, refl, ap, Option, none, some, List, [], ◌∷◌, ◌++◌, length,
  take, drop, ltb, leb, arith, Bool-cases, inl, inr,
}
use antigravity_webhook_hub.Prelude.Int.{ℤ, pos, negsuc}
use antigravity_webhook_hub.Text.{Text, starts_with}
use antigravity_webhook_hub.Http.Reader.{
  Input, Silence, closed, stalled, Reading, got, incomplete, timed_out, overrun, ended, split_after,
  in_front, within_limit, limit, read_until, read_exactly, found,
}
use antigravity_webhook_hub.Http.Chunks.{
  BodyRead, body, refused, gone, crlf, Chunk, more, done, line_read, data_read, with_size,
  size_read, read_chunk, read_chunks, chunk_size, last_line, next_chunk,
}

length-append : (s t : List ℕ) → length (s ++ t) ≡ length s + length t
length-append [] t = omega arith
length-append (c ∷ s) t = omega (arith, length-append s t)

length-drop-le : (n : ℕ) (s : List ℕ) → length (drop n s) ≤ length s
length-drop-le zero s = omega arith
length-drop-le (suc n) [] = omega arith
length-drop-le (suc n) (c ∷ s) = omega (arith, length-drop-le n s)

length-take : (n : ℕ) (s : List ℕ) → n ≤ length s → length (take n s) ≡ n
length-take zero s h = refl
length-take (suc n) [] h = absurd (omega arith)
length-take (suc n) (c ∷ s) h = ap suc (length-take n s (omega arith))

-- What a read leaves is shorter than the input.
abbrev pub Shorter : Input → Reading → Type 0
Shorter i (got s i') = length i'.bytes < length i.bytes
Shorter i _ = Unit

abbrev ShorterRest : ℕ → Option (List ℕ × List ℕ) → Type 0
ShorterRest n none = Unit
ShorterRest n (some p) = length p.1 < n

in_front-Shorter :
    (c n : ℕ) (o : Option (List ℕ × List ℕ))
    → ShorterRest n o
    → ShorterRest (suc n) (Option.map (in_front c) o)
in_front-Shorter c n none h = tt
in_front-Shorter c n (some (s, t)) h = omega arith

split_after-Shorter : (d : ℕ) (sep s : List ℕ) → ShorterRest (length s) (split_after (d ∷ sep) s)
unfolding split_after
split_after-Shorter d sep [] = tt
split_after-Shorter d sep (c ∷ s) = elim (Bool-cases (starts_with (d ∷ sep) (c ∷ s))) [
  | inl e ↦ rw e (omega (arith, length-drop-le (length sep) s))
  | inr e ↦ rw e (in_front-Shorter c (length s) _ (split_after-Shorter d sep s))
]

ended-Shorter : (i : Input) (q : Silence) → Shorter i (ended q)
ended-Shorter i closed = tt
ended-Shorter i stalled = tt

within_limit-Shorter :
    (n : ℕ) (i : Input) (p : List ℕ × List ℕ)
    → length p.1 < length i.bytes
    → Shorter i (within_limit n p i.silence)
within_limit-Shorter n i p h = elim (Bool-cases (ltb limit (length p.0 - n))) [
  | inl e ↦ rw e tt
  | inr e ↦ rw e h
]

found-Shorter :
    (sep : Text) (i : Input) (o : Option (List ℕ × List ℕ))
    → ShorterRest (length i.bytes) o
    → Shorter i (found sep i o)
found-Shorter sep i none h = elim (Bool-cases (ltb limit (length i.bytes + 1 - length sep))) [
  | inl e ↦ rw e tt
  | inr e ↦ rw e (ended-Shorter i i.silence)
]
found-Shorter sep i (some p) h = within_limit-Shorter (length sep) i p h

pub read_until-Shorter : (d : ℕ) (sep : List ℕ) (i : Input) → Shorter i (read_until (d ∷ sep) i)
unfolding read_until
read_until-Shorter d sep i =
    found-Shorter (d ∷ sep) i (split_after (d ∷ sep) i.bytes) (split_after-Shorter d sep i.bytes)

-- What a read of `n` bytes gives.
abbrev pub Exactly : ℕ → Input → Reading → Type 0
Exactly n i (got s i') = (length s ≡ n) × (length i'.bytes ≤ length i.bytes)
Exactly n i _ = Unit

ended-Exactly : (n : ℕ) (i : Input) (q : Silence) → Exactly n i (ended q)
ended-Exactly n i closed = tt
ended-Exactly n i stalled = tt

pub read_exactly-Exactly : (n : ℕ) (i : Input) → Exactly n i (read_exactly n i)
unfolding read_exactly
read_exactly-Exactly n i = elim (Bool-cases (leb n (length i.bytes))) [
  | inl e ↦ rw e (length-take n i.bytes (ground arith), length-drop-le n i.bytes)
  | inr e ↦ rw e (ended-Exactly n i i.silence)
]

-- A body within the limit, and an input that is no longer than before.
abbrev pub IsWithin : ℕ → Input → BodyRead → Type 0
IsWithin max i (body b rest) = (length b ≤ max) × (length rest.bytes ≤ length i.bytes)
IsWithin max i _ = Unit

-- A chunk shortens the input and keeps the body within the limit.
abbrev IsChunk : ℕ → List ℕ → Input → Chunk → Type 0
IsChunk max acc i (more chunk rest) =
    (length acc + length chunk ≤ max) × (length rest.bytes < length i.bytes)
IsChunk max acc i (done b) = IsWithin max i b

module _ (max : ℕ) (acc : List ℕ) (i : Input) where
  line_read-IsChunk :
      (chunk : List ℕ) (i' : Input) (r : Reading)
      → length acc + length chunk ≤ max
      → length i'.bytes ≤ length i.bytes
      → Shorter i' r
      → IsChunk max acc i (line_read chunk r)
  line_read-IsChunk chunk i' (got s rest) a b c = (a, omega arith)
  line_read-IsChunk chunk i' incomplete a b c = tt
  line_read-IsChunk chunk i' timed_out a b c = tt
  line_read-IsChunk chunk i' overrun a b c = tt

  data_read-IsChunk :
      (n : ℕ) (i' : Input) (r : Reading)
      → length acc + n ≤ max
      → length i'.bytes ≤ length i.bytes
      → Exactly n i' r
      → IsChunk max acc i (data_read r)
  data_read-IsChunk n i' (got chunk rest) a b c =
      line_read-IsChunk chunk rest (read_until crlf rest) (omega arith) (omega arith)
        (read_until-Shorter 13 (10 ∷ []) rest)
  data_read-IsChunk n i' incomplete a b c = tt
  data_read-IsChunk n i' timed_out a b c = tt
  data_read-IsChunk n i' overrun a b c = tt

  last_line-IsChunk :
      (i' : Input) (r : Reading)
      → length acc ≤ max
      → length i'.bytes ≤ length i.bytes
      → Shorter i' r
      → IsWithin max i (last_line acc r)
  last_line-IsChunk i' (got s rest) a b c = (a, omega arith)
  last_line-IsChunk i' incomplete a b c = tt
  last_line-IsChunk i' timed_out a b c = tt
  last_line-IsChunk i' overrun a b c = tt

  with_size-IsChunk :
      (size : Option ℤ) (i' : Input)
      → length acc ≤ max
      → length i'.bytes ≤ length i.bytes
      → IsChunk max acc i (with_size max acc size i')
  unfolding with_size
  with_size-IsChunk none i' a b = tt
  with_size-IsChunk (some (negsuc n)) i' a b = tt
  with_size-IsChunk (some (pos zero)) i' a b =
      last_line-IsChunk i' (read_until crlf i') a b (read_until-Shorter 13 (10 ∷ []) i')
  with_size-IsChunk (some (pos (suc n))) i' a b = elim (Bool-cases (ltb max (length acc + suc n))) [
    | inl e ↦ rw e tt
    | inr e ↦ rw e (
        data_read-IsChunk (suc n) i' (read_exactly (suc n) i') (ground arith) b
          (read_exactly-Exactly (suc n) i'))
  ]

  size_read-IsChunk :
      (r : Reading) → length acc ≤ max → Shorter i r → IsChunk max acc i (size_read max acc r)
  size_read-IsChunk (got line i') a b = with_size-IsChunk (chunk_size line) i' a (omega arith)
  size_read-IsChunk incomplete a b = tt
  size_read-IsChunk timed_out a b = tt
  size_read-IsChunk overrun a b = tt

  read_chunk-IsChunk : length acc ≤ max → IsChunk max acc i (read_chunk max acc i)
  unfolding read_chunk
  read_chunk-IsChunk a = size_read-IsChunk (read_until crlf i) a (read_until-Shorter 13 (10 ∷ []) i)

IsWithin-longer :
    (max : ℕ) (i i' : Input) (b : BodyRead)
    → length i'.bytes ≤ length i.bytes
    → IsWithin max i' b
    → IsWithin max i b
IsWithin-longer max i i' (body b rest) h (k, l) = (k, omega arith)
IsWithin-longer max i i' (refused c m) h k = tt
IsWithin-longer max i i' gone h k = tt

next_chunk-IsWithin :
    (max : ℕ) (acc : List ℕ) (i : Input) (again : List ℕ → Input → Option BodyRead) (c : Chunk)
    → ((chunk : List ℕ) (rest : Input)
        → length acc + length chunk ≤ max
        → length rest.bytes < length i.bytes
        → (b : BodyRead) × (again chunk rest ≡ some b) × IsWithin max rest b)
    → IsChunk max acc i c
    → (b : BodyRead) × (next_chunk again c ≡ some b) × IsWithin max i b
next_chunk-IsWithin max acc i again (more chunk rest) ih (k, l) =
    let (b, e, w) = ih chunk rest k l in (b, e, IsWithin-longer max i rest b (omega arith) w)
next_chunk-IsWithin max acc i again (done b) ih k = (b, refl, k)

-- With more fuel than there are bytes the loop ends, and a body that it gives is within the limit.
pub read_chunks-IsWithin :
    (fuel max : ℕ) (acc : List ℕ) (i : Input)
    → length acc ≤ max
    → length i.bytes < fuel
    → (b : BodyRead) × (read_chunks fuel max acc i ≡ some b) × IsWithin max i b
unfolding read_chunks
read_chunks-IsWithin zero max acc i a h = elim h [ ]
read_chunks-IsWithin (suc fuel) max acc i a h =
    next_chunk-IsWithin max acc i (λ chunk rest. read_chunks fuel max (acc ++ chunk) rest)
      (read_chunk max acc i)
      (λ chunk rest k l.
        read_chunks-IsWithin fuel max (acc ++ chunk) rest (omega (arith, length-append acc chunk))
          (omega arith))
      (read_chunk-IsChunk max acc i a)
