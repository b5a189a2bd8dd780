-- ===== src/Http/Connection.antt =====
-- `_handle_client` and `_write_response` of hub/server.py. The middlewares and the handlers, on the
-- state of the hub, the text of an error (json.dumps), the date and the parts of an URL are
-- parameters. The relief of memory is left out, and so are the client's address and the time in the
-- request, and a generator of a stream that raises or does not end.
pub mod Framing
pub mod Checks
pub mod Ends
pub mod Pipeline
use mathlib.Core.Option
use antigravity_webhook_hub.Prelude.{
  ℕ, zero, suc, ◌+◌, ◌-◌, String, Bool, true, false, not, ◌&&◌, ◌||◌, Option, none, some, List, [],
  ◌∷◌, ◌++◌, length, all, ltb, leb, ◌==◌, if◌then◌else◌,
}
use antigravity_webhook_hub.Prelude.Int.{ℤ, pos, negsuc}
use antigravity_webhook_hub.Text.{
  Text, codes, text_eq, contains, lower, parse_int, print_nat, utf8, is_nil,
}
use antigravity_webhook_hub.Models.{HttpRequest, get}
use antigravity_webhook_hub.Http.Reader.{
  Input, Reading, got, incomplete, timed_out, overrun, read_until, read_exactly,
}
use antigravity_webhook_hub.Http.Chunks.{
  BodyRead, body, refused, gone, crlf, read_chunks, write_stream,
}
use antigravity_webhook_hub.Http.Head.{
  Url, Head, parse_head, request_of, wants_keep_alive, set_entry, rooted,
}
use antigravity_webhook_hub.Http.Routes.{Routes, Resolution, found, missing, resolve_route}

-- `items` is there for a stream: what its generator yields.
pub record HttpResponse : Type 0 where
  pub status_code : ℕ
  pub headers : List (Text × Text)
  pub body : List ℕ
  pub items : Option (List (List ℕ))

-- What a handler returns: a response, the text of a dictionary or a list, a text, bytes, None, or
-- the text of anything else.
pub data Returned : Type 0 where
  response : HttpResponse → Returned
  json : (encoded : List ℕ) → Returned
  text : Text → Returned
  bytes : List ℕ → Returned
  nothing : Returned
  other : Text → Returned

pub data CallResult (A : Type 0) : Type 0 where
  returns : A → CallResult A
  raises : (message : Text) → CallResult A

-- What the server runs in; `S` is the state of the hub, and `H` names handlers.
pub record Env (S H : Type 0) : Type 0 where
  pub max_body_bytes : ℕ
  pub is_running : S → Bool
  pub parse_url : Text → Option Url
  pub error_body : (kind message : Text) → List ℕ
  pub date : S → Text
  pub middlewares : List (Text → HttpRequest → S → CallResult (Option HttpResponse) × S)
  pub resolver : Option (Text → Text → Routes H → Routes H)
  pub invoke : H → Text → HttpRequest → List (Text × Text) → S → CallResult Returned × S

-- The server as one connection sees it: `output` is what was written to it.
pub record HttpServer (S H : Type 0) : Type 0 where
  pub hub : S
  pub routes : Routes H
  pub output : List ℕ
  pub total_requests : ℕ
  pub active_connections : ℕ

abbrev json_type : Text × Text
json_type = (codes "Content-Type", codes "application/json; charset=utf-8")

abbrev text_type : Text × Text
text_type = (codes "Content-Type", codes "text/plain; charset=utf-8")

abbrev text_response : Text → HttpResponse
text_response s = record {
  status_code = 200;
  headers = text_type ∷ [];
  body = utf8 s;
  items = none;
}

-- `HTTPResponse.json`, `text`, `empty` where a handler returns no response.
unfoldable pub normalized : Returned → HttpResponse
unfolding utf8
normalized (response r) = r
normalized (json encoded) = record {
  status_code = 200;
  headers = json_type ∷ [];
  body = encoded;
  items = none;
}
normalized (text s) = text_response s
normalized (bytes b) = record { status_code = 200; headers = []; body = b; items = none }
normalized nothing = record { status_code = 204; headers = []; body = []; items = none }
normalized (other s) = text_response s

-- The content length is there: `int`, then the checks, then the bytes.
abbrev pub length_read : Reading → BodyRead
length_read (got b rest) = body b rest
length_read timed_out = refused 408 (codes "Request Timeout")
length_read _ = gone

abbrev too_large : ℕ → ℕ → Text
too_large n max =
    codes "Payload size ("
    ++ (print_nat n
        ++ (codes " bytes) exceeds maximum limit (" ++ (print_nat max ++ codes " bytes)")))

unfoldable pub read_length : ℕ → Option ℤ → Input → BodyRead
unfolding read_exactly print_nat
read_length max none i = refused 400 (codes "Invalid Content-Length")
read_length max (some (negsuc n)) i =
    refused 400 (codes "Invalid Content-Length: must be non-negative")
read_length max (some (pos n)) i =
    if ltb max n
    then refused 413 (too_large n max)
    else if n == 0
    then body [] i
    else length_read (read_exactly n i)

abbrev pub or_gone : Option BodyRead → BodyRead
or_gone none = gone
or_gone (some b) = b

-- The loop over the chunks takes a byte in every round, so that this fuel is enough.
abbrev pub read_coded : ℕ → Text → Input → BodyRead
read_coded max coding i =
    if contains (codes "chunked") coding
    then or_gone (read_chunks (suc (length i.bytes)) max [] i)
    else body [] i

abbrev pub framed_body : ℕ → Option Text → Option Text → Input → BodyRead
framed_body max (some n) (some coding) i =
    refused 400 (codes "Bad Request: Conflicting Content-Length and Transfer-Encoding")
framed_body max (some n) none i = read_length max (parse_int n) i
framed_body max none (some coding) i = read_coded max (lower coding) i
framed_body max none none i = body [] i

unfoldable pub read_body : ℕ → List (Text × Text) → Input → BodyRead
unfolding get parse_int lower contains read_length read_chunks
read_body max headers i =
    framed_body max (get headers (codes "content-length")) (get headers (codes "transfer-encoding"))
      i

-- `str.encode("latin1")`; `none` is the UnicodeEncodeError, which ends the connection.
abbrev latin1 : Text → Option (List ℕ)
latin1 s = if all (λ c. ltb c 256) s then some s else none

abbrev reason_of : ℕ → String
reason_of status =
    if status == 201
    then "Created"
    else if status == 202
    then "Accepted"
    else if status == 204
    then "No Content"
    else if status == 400
    then "Bad Request"
    else if status == 401
    then "Unauthorized"
    else if status == 403
    then "Forbidden"
    else if status == 404
    then "Not Found"
    else if status == 405
    then "Method Not Allowed"
    else if status == 408
    then "Request Timeout"
    else if status == 409
    then "Conflict"
    else if status == 413
    then "Payload Too Large"
    else if status == 431
    then "Request Header Fields Too Large"
    else if status == 500
    then "Internal Server Error"
    else if status == 502
    then "Bad Gateway"
    else if status == 503
    then "Service Unavailable"
    else "OK"

abbrev header_lines : List (Text × Text) → Text
header_lines [] = []
header_lines ((k, v) ∷ headers) = k ++ (codes ": " ++ (v ++ (crlf ++ header_lines headers)))

abbrev head_text : ℕ → List (Text × Text) → Text
head_text status headers =
    codes "HTTP/1.1 "
    ++ (print_nat status
        ++ (b' ' ∷ (codes (reason_of status) ++ (crlf ++ (header_lines headers ++ crlf)))))

abbrev set_all : List (Text × Text) → List (Text × Text) → List (Text × Text)
set_all [] headers = headers
set_all ((k, v) ∷ new) headers = set_all new (set_entry k v headers)

abbrev stream_headers : List (Text × Text)
stream_headers =
    (codes "Transfer-Encoding", codes "chunked")
    ∷ (codes "Connection", codes "keep-alive")
    ∷ (codes "Cache-Control", codes "no-cache, no-transform")
    ∷ (codes "X-Accel-Buffering", codes "no")
    ∷ []

abbrev plain_headers : List ℕ → Bool → List (Text × Text)
plain_headers b keep_alive =
    (codes "Content-Length", print_nat (length b))
    ∷ (codes "Connection", codes (if keep_alive then "keep-alive" else "close"))
    ∷ []

abbrev sent_body : HttpResponse → Bool → List ℕ
sent_body r true = []
sent_body r false = elim r.items [ none ↦ r.body | some items ↦ write_stream items ]

abbrev framing : HttpResponse → Bool → List (Text × Text)
framing r keep_alive = elim r.items [
  | none ↦ plain_headers r.body keep_alive
  | some _ ↦ stream_headers
]

-- The bytes of a response.
unfoldable pub write_response : Text → HttpResponse → Bool → Bool → Option (List ℕ)
unfolding print_nat write_stream set_entry
write_response date r keep_alive is_head =
    let standard =
      set_all ((codes "Date", date) ∷ (codes "Server", codes "Antigravity-Webhook-Hub/1.0") ∷ [])
        r.headers in
    Option.map (λ head. head ++ sent_body r is_head)
      (latin1 (head_text r.status_code (set_all (framing r keep_alive) standard)))

-- The `error` of an error response.
abbrev error_kind : ℕ → String
error_kind status =
    if status == 401
    then "unauthorized"
    else if status == 403
    then "forbidden"
    else if status == 404
    then "not_found"
    else if status == 413
    then "payload_too_large"
    else if leb 500 status
    then "error"
    else "client_error"

-- A round of the loop: the connection is closed, or read on.
pub data RoundEnd (S H : Type 0) : Type 0 where
  closes : HttpServer S H → RoundEnd S H
  reads_on : Input → HttpServer S H → RoundEnd S H

module _ {S H : Type 0} (env : Env S H) where
  unfoldable pub error_response : ℕ → Text → List (Text × Text) → HttpResponse
  error_response status message headers = record {
    status_code = status;
    headers = set_all headers (json_type ∷ []);
    body = env.error_body (codes (error_kind status)) message;
    items = none;
  }

  abbrev written : Option (List ℕ) → HttpServer S H → HttpServer S H
  written none s = s
  written (some sent) s = record s { output = s.output ++ sent }

  unfoldable pub send_quick_error : ℕ → Text → HttpServer S H → HttpServer S H
  unfolding write_response error_response
  send_quick_error status message s =
      written (write_response (env.date s.hub) (error_response status message []) false false) s

  abbrev after_middleware :
      (S → Option HttpResponse × S) → CallResult (Option HttpResponse) × S → Option HttpResponse × S
  after_middleware rest (raises message, hub) =
      (some (error_response 500 (codes "Internal Server Error") []), hub)
  after_middleware rest (returns (some r), hub) = (some r, hub)
  after_middleware rest (returns none, hub) = rest hub

  -- Up to the first middleware that answers or raises.
  unfoldable pub run_middlewares :
      List (Text → HttpRequest → S → CallResult (Option HttpResponse) × S)
      → Text
      → HttpRequest
      → S
      → Option HttpResponse × S
  unfolding error_response
  run_middlewares [] method request hub = (none, hub)
  run_middlewares (m ∷ ms) method request hub =
      after_middleware (run_middlewares ms method request) (m method request hub)

  abbrev handled : CallResult Returned × S → HttpResponse × S
  handled (returns r, hub) = (normalized r, hub)
  handled (raises message, hub) =
      (error_response 500 (codes "Internal Server Error: " ++ message) [], hub)

  abbrev routed :
      Text → HttpRequest → HttpServer S H → Resolution H × Routes H → HttpResponse × HttpServer S H
  routed method request s (found handler params, routes) =
      let (r, hub) = handled (env.invoke handler method request params s.hub) in
      (r, record s { hub = hub; routes = routes })
  routed method request s (missing true, routes) = (
    error_response 405 (codes "Method " ++ (method ++ (codes " not allowed for " ++ request.path)))
        ((codes "Allow", codes "GET, POST, OPTIONS, HEAD") ∷ []),
    record s { routes = routes },
  )
  routed method request s (missing false, routes) = (
    error_response 404 (codes "Route not found: " ++ (method ++ (b' ' ∷ request.path))) [],
    record s { routes = routes },
  )

  -- 404, 405, or the handler.
  unfoldable pub route_request : Text → HttpRequest → HttpServer S H → HttpResponse × HttpServer S H
  unfolding resolve_route error_response normalized
  route_request method request s =
      routed method request s (resolve_route env.resolver method request.path s.routes)

  abbrev after_middlewares :
      Text → HttpRequest → HttpServer S H → Option HttpResponse × S → HttpResponse × HttpServer S H
  after_middlewares method request s (some r, hub) = (r, record s { hub = hub })
  after_middlewares method request s (none, hub) =
      route_request method request (record s { hub = hub })

  unfoldable pub answer_request :
      Text → HttpRequest → HttpServer S H → HttpResponse × HttpServer S H
  unfolding run_middlewares route_request
  answer_request method request s =
      after_middlewares method request s (run_middlewares env.middlewares method request s.hub)

  abbrev is_stream : HttpResponse → Bool
  is_stream r = elim r.items [ none ↦ false | some _ ↦ true ]

  abbrev after_writing : Option (List ℕ) → Bool → Input → HttpServer S H → RoundEnd S H
  after_writing none goes_on rest s = closes s
  after_writing (some b) goes_on rest s =
      let sent = record s { output = s.output ++ b } in
      if goes_on then reads_on rest sent else closes sent

  -- A request with its body.
  unfoldable pub respond : Head → List ℕ → Input → HttpServer S H → RoundEnd S H
  unfolding request_of wants_keep_alive answer_request write_response text_eq
  respond head b rest s =
      let (r, after) = answer_request head.method (request_of head b) s in
      let keep_alive = wants_keep_alive head && ltb r.status_code 500 in
      after_writing
        (write_response (env.date after.hub) r keep_alive (text_eq head.method (codes "HEAD")))
        (keep_alive && not (is_stream r)) rest after

  abbrev with_body : Head → HttpServer S H → BodyRead → RoundEnd S H
  with_body head s (body b rest) = respond head b rest s
  with_body head s (refused status message) = closes (send_quick_error status message s)
  with_body head s gone = closes s

  abbrev with_head : Input → HttpServer S H → Option Head → RoundEnd S H
  with_head rest s none = closes (send_quick_error 400 (codes "Bad Request") s)
  with_head rest s (some head) = with_body head s (read_body env.max_body_bytes head.headers rest)

  abbrev with_bytes : HttpServer S H → Reading → RoundEnd S H
  with_bytes s (got head_bytes rest) =
      with_head rest (record s { total_requests = suc s.total_requests })
        (parse_head env.parse_url head_bytes)
  with_bytes s _ = closes s

  unfoldable pub round : Input → HttpServer S H → RoundEnd S H
  unfolding read_until parse_head read_body respond send_quick_error
  round i s = if env.is_running s.hub then with_bytes s (read_until (crlf ++ crlf) i) else closes s

  abbrev continue :
      (Input → HttpServer S H → Option (HttpServer S H)) → RoundEnd S H → Option (HttpServer S H)
  continue again (closes s) = some s
  continue again (reads_on rest s) = again rest s

  -- The loop, with fuel; `none` means that it ran out.
  unfoldable pub serve : ℕ → Input → HttpServer S H → Option (HttpServer S H)
  unfolding round
  serve zero i s = none
  serve (suc fuel) i s = continue (serve fuel) (round i s)

  abbrev left : HttpServer S H → HttpServer S H
  left s = record s { active_connections = s.active_connections - 1 }

  unfoldable pub handle_client : Input → HttpServer S H → Option (HttpServer S H)
  unfolding serve
  handle_client i s =
      Option.map left (
        serve (suc (length i.bytes)) i (record s { active_connections = suc s.active_connections }))
