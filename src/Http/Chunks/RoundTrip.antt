-- ===== src/Http/Chunks/RoundTrip.antt =====
-- The server reads the chunks that it writes.
use mathlib.Core.List.{append_assoc, append-nil}
use antigravity_webhook_hub.Prelude.{
  ℕ, zero, suc, ◌+◌, ◌-◌, ◌≤◌, ◌<◌, ◌≡◌, refl, sym, ap, ◌∙◌, true, false, some, List, [], ◌∷◌, ◌++◌,
  length, take, drop, all, ltb, leb, ◌==◌, arith,
}
use antigravity_webhook_hub.Prelude.Int.{pos}
use antigravity_webhook_hub.Text.{starts_with}
use antigravity_webhook_hub.Http.Reader.{
  Input, Silence, got, split_after, read_until, read_exactly, limit,
}
use antigravity_webhook_hub.Http.Hex.{is_hex_digit, rstrip_bytes, parse_hex, print_hex}
use antigravity_webhook_hub.Http.Hex.Laws.{
  all-print_hex, print_hex-ne-nil, length-print_hex-le, strip-digits, parse_hex-print_hex,
}
use antigravity_webhook_hub.Http.Chunks.{
  body, crlf, before_semicolon, chunk_size, more, line_read, data_read, with_size, size_read,
  read_chunk, read_chunks, write_chunks, write_stream,
}

-- The items of a stream, one after the other.
abbrev pub concat : List (List ℕ) → List ℕ
concat [] = []
concat (x ∷ xs) = x ++ concat xs

length-append : (s t : List ℕ) → length (s ++ t) ≡ length s + length t
length-append [] t = omega arith
length-append (c ∷ s) t = omega (arith, length-append s t)

take-length : (s t : List ℕ) → take (length s) (s ++ t) ≡ s
take-length [] t = refl
take-length (c ∷ s) t = ap (λ r. c ∷ r) (take-length s t)

drop-length : (s t : List ℕ) → drop (length s) (s ++ t) ≡ t
drop-length [] t = refl
drop-length (c ∷ s) t = drop-length s t

split_after-digits :
    (s t : List ℕ)
    → all is_hex_digit s ≡ true
    → split_after crlf (s ++ (crlf ++ t)) ≡ some (s ++ crlf, t)
unfolding split_after starts_with
split_after-digits [] t h = refl
split_after-digits (c ∷ s) t h =
    let other : (13 == c) ≡ false = ground arith in
    rw (other, split_after-digits s t (ground arith)) refl

before_semicolon-digits : (s : List ℕ) → all is_hex_digit s ≡ true → before_semicolon s ≡ s
unfolding before_semicolon
before_semicolon-digits [] h = refl
before_semicolon-digits (c ∷ s) h =
    let other : (c == b';') ≡ false = ground arith in
    rw (other, before_semicolon-digits s (ground arith)) refl

chunk_size-printed : (n : ℕ) → chunk_size (print_hex n ++ crlf) ≡ some (pos n)
unfolding chunk_size
chunk_size-printed n =
    let digits = all-print_hex n in
    ap (λ s. parse_hex (before_semicolon s))
      (strip-digits (print_hex n) crlf digits (print_hex-ne-nil n) (unfold rstrip_bytes in refl))
    ∙ ap parse_hex (before_semicolon-digits (print_hex n) digits)
    ∙ parse_hex-print_hex n

write_stream-nil : (t : List ℕ) → write_stream [] ++ t ≡ b'0' ∷ (crlf ++ (crlf ++ t))
unfolding write_stream
write_stream-nil t = refl

write_stream-empty : (items : List (List ℕ)) → write_stream ([] ∷ items) ≡ write_stream items
unfolding write_stream
write_stream-empty items = refl

framed :
    (a x y t : List ℕ)
    → (a ++ (crlf ++ (x ++ (crlf ++ y)))) ++ t ≡ a ++ (crlf ++ (x ++ (crlf ++ (y ++ t))))
framed a x y t =
    append_assoc a (crlf ++ (x ++ (crlf ++ y))) t
    ∙ ap (λ r. a ++ (crlf ++ r)) (append_assoc x (crlf ++ y) t)

write_stream-cons :
    (c : ℕ) (s : List ℕ) (items : List (List ℕ)) (t : List ℕ)
    → write_stream ((c ∷ s) ∷ items) ++ t
      ≡ print_hex (length (c ∷ s)) ++ (crlf ++ ((c ∷ s) ++ (crlf ++ (write_stream items ++ t))))
unfolding write_stream
write_stream-cons c s items t =
    let end = b'0' ∷ (crlf ++ crlf) in
    ap (λ r. r ++ t) (framed (print_hex (length (c ∷ s))) (c ∷ s) (write_chunks items) end)
    ∙ framed (print_hex (length (c ∷ s))) (c ∷ s) (write_chunks items ++ end) t

write_chunks-longer :
    (c : ℕ) (s : List ℕ) (items : List (List ℕ))
    → length (write_chunks items) < length (write_chunks ((c ∷ s) ∷ items))
unfolding write_chunks
write_chunks-longer c s items =
    let size = print_hex (length (c ∷ s)) in
    let rest = s ++ (crlf ++ write_chunks items) in
    omega
      (arith, length-append size (crlf ++ c ∷ rest), length-append s (crlf ++ write_chunks items))

pub write_stream-longer :
    (items : List (List ℕ)) (t : List ℕ)
    → length (write_chunks items) < length (write_stream items ++ t)
unfolding write_stream
write_stream-longer items t =
    let end = b'0' ∷ (crlf ++ crlf) in
    omega
      (arith, length-append (write_chunks items ++ end) t, length-append (write_chunks items) end)

module _ (silence : Silence) where
  abbrev pub input : List ℕ → Input
  input s = record { bytes = s; silence = silence }

  read_size :
      (n : ℕ) (t : List ℕ)
      → n < 18446744073709551616
      → read_until crlf (input (print_hex n ++ (crlf ++ t))) ≡ got (print_hex n ++ crlf) (input t)
  unfolding read_until
  read_size n t h =
      let short : ltb limit (length (print_hex n ++ crlf) - 2) ≡ false =
        ground (arith, length-append (print_hex n) crlf, length-print_hex-le n h) in
      rw (split_after-digits (print_hex n) t (all-print_hex n), short) refl

  pub read_item : (s t : List ℕ) → read_exactly (length s) (input (s ++ t)) ≡ got s (input t)
  unfolding read_exactly
  read_item s t =
      let enough : leb (length s) (length (s ++ t)) ≡ true = ground (arith, length-append s t) in
      rw (enough, take-length s t, drop-length s t) refl

  read_crlf : (t : List ℕ) → read_until crlf (input (crlf ++ t)) ≡ got crlf (input t)
  unfolding read_until split_after starts_with
  read_crlf t = refl

  -- One round of the loop on one chunk.
  read_chunk-written :
      (max c : ℕ) (acc s t : List ℕ)
      → length acc + suc (length s) ≤ max
      → max < 18446744073709551616
      → read_chunk max acc
          (input (print_hex (length (c ∷ s)) ++ (crlf ++ ((c ∷ s) ++ (crlf ++ t)))))
        ≡ more (c ∷ s) (input t)
  unfolding read_chunk with_size
  read_chunk-written max c acc s t fits small =
      let item = c ∷ s in
      let within : ltb max (length acc + suc (length s)) ≡ false = ground arith in
      ap (size_read max acc) (read_size (length item) (item ++ (crlf ++ t)) (omega arith))
      ∙ ap (λ n. with_size max acc n (input (item ++ (crlf ++ t))))
          (chunk_size-printed (length item))
      ∙ rw within (ap data_read (read_item item (crlf ++ t)))
      ∙ ap (line_read item) (read_crlf t)

  round :
      (fuel max c : ℕ) (acc s t : List ℕ)
      → length acc + suc (length s) ≤ max
      → max < 18446744073709551616
      → read_chunks
          (suc fuel)
          max
          acc
          (input (print_hex (length (c ∷ s)) ++ (crlf ++ ((c ∷ s) ++ (crlf ++ t)))))
        ≡ read_chunks fuel max (acc ++ c ∷ s) (input t)
  unfolding read_chunks
  round fuel max c acc s t fits small = rw (read_chunk-written max c acc s t fits small) refl

  last_round :
      (fuel max : ℕ) (acc t : List ℕ)
      → read_chunks (suc fuel) max acc (input (b'0' ∷ (crlf ++ (crlf ++ t))))
        ≡ some (body acc (input t))
  unfolding read_chunks read_chunk with_size read_until split_after starts_with chunk_size
  last_round fuel max acc t = refl

  -- The reader behind any text.
  pub read_chunks-written :
      (items : List (List ℕ)) (fuel max : ℕ) (acc t : List ℕ)
      → length (write_chunks items) < fuel
      → length acc + length (concat items) ≤ max
      → max < 18446744073709551616
      → read_chunks fuel max acc (input (write_stream items ++ t))
        ≡ some (body (acc ++ concat items) (input t))
  read_chunks-written items zero max acc t h fits small = absurd (omega arith)
  read_chunks-written [] (suc fuel) max acc t h fits small =
      ap (λ x. read_chunks (suc fuel) max acc (input x)) (write_stream-nil t)
      ∙ last_round fuel max acc t
      ∙ ap (λ x. some (body x (input t))) (sym (append-nil acc))
  read_chunks-written ([] ∷ items) (suc fuel) max acc t h fits small =
      ap (λ x. read_chunks (suc fuel) max acc (input (x ++ t))) (write_stream-empty items)
      ∙ read_chunks-written items (suc fuel) max acc t (unfold write_chunks in h) fits small
  read_chunks-written ((c ∷ s) ∷ items) (suc fuel) max acc t h fits small =
      let item = c ∷ s in
      let size = length-append item (concat items) in
      let so_far = length-append acc item in
      ap (λ x. read_chunks (suc fuel) max acc (input x)) (write_stream-cons c s items t)
      ∙ round fuel max c acc s (write_stream items ++ t) (omega arith) small
      ∙ read_chunks-written items fuel max (acc ++ item) t
          (omega (arith, write_chunks-longer c s items)) (omega arith) small
      ∙ ap (λ x. some (body x (input t))) (append_assoc acc item (concat items))
