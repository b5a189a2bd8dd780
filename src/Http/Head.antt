-- ===== src/Http/Head.antt =====
-- The request line and the headers, as `_handle_client` of hub/server.py reads them. The parts of
-- an URL (urlsplit, unquote, parse_qs) are a parameter.
use mathlib.Core.Option
use antigravity_webhook_hub.Prelude.{
  ℕ, ◌-◌, Bool, not, ◌&&◌, ◌||◌, Option, none, some, List, [], ◌∷◌, ◌++◌, map, leb, ◌==◌,
  if◌then◌else◌,
}
use antigravity_webhook_hub.Text.{Text, codes, strip, lower, text_eq}
use antigravity_webhook_hub.Models.{HttpRequest, get}

-- `upper` on Latin-1, in which the request line is decoded.
abbrev upper_char : ℕ → Text
upper_char c =
    if leb b'a' c && leb c b'z' || leb 224 c && leb c 254 && not (c == 247)
    then (c - 32) ∷ []
    else if c == 181
    then 924 ∷ []
    else if c == 223
    then b'S' ∷ b'S' ∷ []
    else if c == 255
    then 376 ∷ []
    else c ∷ []

abbrev pub upper : Text → Text
upper [] = []
upper (c ∷ s) = upper_char c ++ upper s

-- What urlsplit, unquote and parse_qs give; a ValueError is `none` where it is used.
pub record Url : Type 0 where
  pub path : Text
  pub raw_path : Text
  pub query : List (Text × List Text)

-- `split` at one character.
unfoldable pub split_at : ℕ → Text → List Text
split_at c [] = [] ∷ []
split_at c (d ∷ s) =
    let rest = split_at c s in
    if d == c
    then [] ∷ rest
    else (elim rest [ [] ↦ (d ∷ []) ∷ [] | word ∷ words ↦ (d ∷ word) ∷ words ])

-- `split(b"\r\n")`
unfoldable pub split_lines : Text → List Text
split_lines [] = [] ∷ []
split_lines (c ∷ []) = (c ∷ []) ∷ []
split_lines (c ∷ d ∷ s) =
    let behind = split_lines s in
    let rest = split_lines (d ∷ s) in
    if c == 13 && d == 10
    then [] ∷ behind
    else (elim rest [ [] ↦ (c ∷ []) ∷ [] | line ∷ lines ↦ (c ∷ line) ∷ lines ])

-- `line.split(":", 1)`, if there is a colon.
unfoldable pub header_parts : Text → Option (Text × Text)
header_parts [] = none
header_parts (c ∷ s) =
    let rest = Option.map (λ (p : Text × Text). (c ∷ p.0, p.1)) (header_parts s) in
    if c == b':' then some ([], s) else rest

-- `headers[key] = value`
unfoldable pub set_entry : Text → Text → List (Text × Text) → List (Text × Text)
set_entry k v [] = (k, v) ∷ []
set_entry k v ((j, w) ∷ d) =
    let rest = set_entry k v d in if text_eq j k then (j, v) ∷ d else (j, w) ∷ rest

abbrev add_header : Option (Text × Text) → List (Text × Text) → List (Text × Text)
add_header none headers = headers
add_header (some (k, v)) headers = set_entry (lower (strip k)) (strip v) headers

unfoldable pub read_headers : List Text → List (Text × Text) → List (Text × Text)
unfolding header_parts set_entry strip lower
read_headers [] headers = headers
read_headers (line ∷ lines) headers = read_headers lines (add_header (header_parts line) headers)

-- ",".join(values)
unfoldable pub join_comma : List Text → Text
join_comma [] = []
join_comma (v ∷ []) = v
join_comma (v ∷ w ∷ vs) = v ++ b',' ∷ join_comma (w ∷ vs)

abbrev pub query_param : Text × List Text → Text × Text
query_param (k, vs) = (k, join_comma vs)

pub record Head : Type 0 where
  pub method : Text
  pub version : Text
  pub url : Url
  pub headers : List (Text × Text)

abbrev request_line : List Text → Option (Text × Text × Text)
request_line (method ∷ uri ∷ version ∷ []) = some (method, uri, version)
request_line _ = none

module _ (parse_url : Text → Option Url) where
  -- `none` is answered with 400.
  abbrev head_of : List Text → Option (Text × Text × Text) → Option Head
  head_of lines none = none
  head_of lines (some (method, uri, version)) =
      Option.map
        (λ url. record {
          method = upper method;
          version = upper version;
          url = url;
          headers = read_headers lines [];
        })
        (parse_url uri)

  unfoldable pub parse_head : List ℕ → Option Head
  unfolding split_lines split_at strip read_headers
  parse_head bytes = elim (split_lines bytes) [
    | [] ↦ none
    | line ∷ lines ↦ head_of lines (request_line (split_at b' ' (strip line)))
  ]

-- `"/" + path` unless it starts so.
abbrev pub rooted : Text → Text
rooted [] = b'/' ∷ []
rooted (c ∷ s) = if c == b'/' then c ∷ s else b'/' ∷ (c ∷ s)

unfoldable pub request_of : Head → List ℕ → HttpRequest
unfolding join_comma
request_of h body = record {
  path = rooted h.url.path;
  raw_path = h.url.raw_path;
  query_params = map query_param h.url.query;
  headers = h.headers;
  body = body;
}

abbrev lowered : Option Text → Text
lowered none = []
lowered (some v) = lower v

unfoldable pub wants_keep_alive : Head → Bool
unfolding get lower text_eq
wants_keep_alive h =
    let connection = lowered (get h.headers (codes "connection")) in
    if text_eq h.version (codes "HTTP/1.0")
    then text_eq connection (codes "keep-alive")
    else not (text_eq connection (codes "close"))
