-- ===== src/Http/Chunks.antt =====
-- How hub/server.py reads the body of a request, and writes that of a stream.
pub mod RoundTrip
pub mod Bounds
use antigravity_webhook_hub.Prelude.{
  ℕ, zero, suc, ◌+◌, ◌*◌, String, Bool, true, false, Option, none, some, List, [], ◌∷◌, ◌++◌,
  length, ltb, ◌==◌, if◌then◌else◌,
}
use antigravity_webhook_hub.Prelude.Int.{ℤ, pos, negsuc}
use antigravity_webhook_hub.Text.{Text, codes, is_nil}
use antigravity_webhook_hub.Http.Reader.{
  Input, Reading, got, incomplete, timed_out, overrun, read_until, read_exactly,
}
use antigravity_webhook_hub.Http.Hex.{parse_hex, strip_bytes, print_hex}

abbrev pub crlf : Text
crlf = 13 ∷ 10 ∷ []

-- A body with what follows it; a quick error; or the client is gone.
pub data BodyRead : Type 0 where
  body : List ℕ → Input → BodyRead
  refused : (status : ℕ) (message : Text) → BodyRead
  gone : BodyRead

-- `size_line.strip().split(b";")[0]`
unfoldable pub before_semicolon : List ℕ → List ℕ
before_semicolon [] = []
before_semicolon (c ∷ s) = let rest = before_semicolon s in if c == b';' then [] else c ∷ rest

unfoldable pub chunk_size : List ℕ → Option ℤ
unfolding parse_hex before_semicolon strip_bytes
chunk_size line = parse_hex (before_semicolon (strip_bytes line))

-- The handlers of the `try` about the loop.
abbrev pub cut_short : Reading → BodyRead
cut_short timed_out = refused 408 (codes "Request Timeout")
cut_short _ = refused 400 (codes "Invalid Chunked Body")

-- Behind the last chunk: one line.
abbrev pub last_line : List ℕ → Reading → BodyRead
last_line acc (got _ i) = body acc i
last_line acc r = cut_short r

-- A round of the loop: one more chunk, or the end of the loop.
pub data Chunk : Type 0 where
  more : List ℕ → Input → Chunk
  done : BodyRead → Chunk

abbrev pub line_read : List ℕ → Reading → Chunk
line_read chunk (got _ rest) = more chunk rest
line_read chunk r = done (cut_short r)

abbrev pub data_read : Reading → Chunk
data_read (got chunk i) = line_read chunk (read_until crlf i)
data_read r = done (cut_short r)

unfoldable pub with_size : ℕ → List ℕ → Option ℤ → Input → Chunk
unfolding read_exactly read_until
with_size max acc none i = done (refused 400 (codes "Invalid Chunked Body"))
with_size max acc (some (negsuc n)) i = done (refused 400 (codes "Invalid Chunk Size"))
with_size max acc (some (pos zero)) i = done (last_line acc (read_until crlf i))
with_size max acc (some (pos (suc n))) i =
    if ltb max (length acc + suc n)
    then done (refused 413 (codes "Chunked Payload Too Large"))
    else data_read (read_exactly (suc n) i)

abbrev pub size_read : ℕ → List ℕ → Reading → Chunk
size_read max acc (got line i) = with_size max acc (chunk_size line) i
size_read max acc r = done (cut_short r)

unfoldable pub read_chunk : ℕ → List ℕ → Input → Chunk
unfolding read_until chunk_size with_size
read_chunk max acc i = size_read max acc (read_until crlf i)

abbrev pub next_chunk : (List ℕ → Input → Option BodyRead) → Chunk → Option BodyRead
next_chunk again (more chunk rest) = again chunk rest
next_chunk again (done b) = some b

-- The loop, with fuel; `none` means that it ran out.
unfoldable pub read_chunks : ℕ → ℕ → List ℕ → Input → Option BodyRead
unfolding read_chunk
read_chunks zero max acc i = none
read_chunks (suc fuel) max acc i =
    next_chunk (λ chunk rest. read_chunks fuel max (acc ++ chunk) rest) (read_chunk max acc i)

-- The loop of `_write_response` over a stream: empty items are left out.
unfoldable pub write_chunks : List (List ℕ) → List ℕ
unfolding print_hex
write_chunks [] = []
write_chunks (item ∷ items) =
    let rest = write_chunks items in
    if is_nil item then rest else print_hex (length item) ++ (crlf ++ (item ++ (crlf ++ rest)))

unfoldable pub write_stream : List (List ℕ) → List ℕ
unfolding write_chunks
write_stream items = write_chunks items ++ (b'0' ∷ (crlf ++ crlf))
