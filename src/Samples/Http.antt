-- ===== src/Samples/Http.antt =====
-- A connection with two requests, and a table of routes.
use antigravity_webhook_hub.Prelude.{
  ℕ, suc, ◌≡◌, ◌⊎◌, refl, true, none, some, List, [], ◌∷◌, ◌++◌, arith,
}
use antigravity_webhook_hub.Text.{Text, codes, text_eq, contains, starts_with, print_nat}
use antigravity_webhook_hub.Models.{get}
use antigravity_webhook_hub.Http.Reader.{Input, stalled, split_after}
use antigravity_webhook_hub.Http.Head.{Head, parse_head, upper}
use antigravity_webhook_hub.Http.Routes.{
  Piece, pieces_of, compile, Routes, found, normal_path, add_route, resolve_route, find_exact,
  find_pattern,
}
use antigravity_webhook_hub.Http.Routes.Matching.{Filled, end, char, value, add_route-found}
use antigravity_webhook_hub.Http.Connection.{Env, HttpServer, text, returns, respond, round}
use antigravity_webhook_hub.Http.Chunks.RoundTrip.{input}
use antigravity_webhook_hub.Http.Connection.Checks.{IsChecked, IsClosed, counted, round-IsChecked}
use antigravity_webhook_hub.Http.Connection.Framing.{Framed, by_length}
use antigravity_webhook_hub.Http.Connection.Pipeline.{IsHeadBytes, round-next}

-- The state of the hub is the number of requests that its handler saw.
abbrev env : Env ℕ ℕ
env = record {
  max_body_bytes = 1000;
  is_running = λ n. true;
  parse_url = λ uri. some (record { path = uri; raw_path = uri; query = [] });
  error_body = λ kind message. message;
  date = λ n. codes "Thu, 01 Jan 1970 00:00:00 GMT";
  middlewares = (λ method request n. (returns none, n)) ∷ [];
  resolver = none;
  invoke = λ h method request params n. (returns (text (codes "ok")), suc n);
}

abbrev server : HttpServer ℕ ℕ
server = record {
  hub = 0;
  routes = record {
    exact_routes = record { method = codes "POST"; path = codes "/webhook"; handler = 7 } ∷ [];
    pattern_routes = [];
  };
  output = [];
  total_requests = 0;
  active_connections = 0;
}

abbrev newline : Text
newline = 13 ∷ 10 ∷ []

abbrev head_bytes : Text
head_bytes =
    codes "POST /webhook HTTP/1.1"
    ++ (newline ++ (codes "Content-Length: 2" ++ (newline ++ newline)))

abbrev next : Text
next = codes "GET / HTTP/1.1" ++ (newline ++ newline)

abbrev head : Head
head = record {
  method = codes "POST";
  version = codes "HTTP/1.1";
  url = record { path = codes "/webhook"; raw_path = codes "/webhook"; query = [] };
  headers = (codes "content-length", codes "2") ∷ [];
}

abbrev two_requests : Input
two_requests = input stalled (head_bytes ++ (codes "hi" ++ next))

round-IsChecked_example : IsClosed env two_requests server ⊎ IsChecked env two_requests server
round-IsChecked_example = round-IsChecked env two_requests server

head_bytes-IsHeadBytes : IsHeadBytes head_bytes
unfolding split_after starts_with
head_bytes-IsHeadBytes = record { alone = refl; short = refl }

hi-Framed : Framed head.headers (codes "hi") (codes "hi")
unfolding get print_nat text_eq
hi-Framed = by_length (codes "hi") refl refl

head-parsed : parse_head env.parse_url head_bytes ≡ some head
unfolding parse_head
head-parsed = refl

round-next_example :
    round env two_requests server
    ≡ respond env head (codes "hi") (input stalled next) (counted server)
round-next_example =
    round-next env server stalled head_bytes (codes "hi") (codes "hi") next head refl (omega arith)
      head_bytes-IsHeadBytes head-parsed hi-Framed (omega arith)

abbrev table : Routes ℕ
table = record {
  exact_routes = record { method = codes "GET"; path = codes "/tasks"; handler = 1 } ∷ [];
  pattern_routes =
      record {
        method = codes "GET";
        raw_pattern = codes "/tasks/{task_id}";
        pieces = pieces_of 0 (codes "/tasks/{task_id}");
        handler = 2;
      }
      ∷ [];
}

abbrev stream_pieces : List Piece
stream_pieces = pieces_of 0 (codes "/tasks/{task_id}/stream")

stream-Filled :
    Filled stream_pieces
      ((codes "task_id", codes "a1") ∷ [])
      (normal_path (codes "/tasks/a1/stream/"))
unfolding pieces_of normal_path text_eq
stream-Filled = char b'/' (
    char b't' (
      char b'a' (
        char b's' (
          char b'k' (
            char b's' (
              char b'/' (
                value (codes "task_id") b'a' (b'1' ∷ []) refl refl refl (
                  char b'/' (
                    char b's'
                      (char b't' (char b'r' (char b'e' (char b'a' (char b'm' end))))))))))))))

add_route-found_example :
    (after : Routes ℕ) × (add_route (codes "get") (codes "/tasks/{task_id}/stream") 3 table
      ≡ some after)
    × (resolve_route none (upper (codes "get")) (codes "/tasks/a1/stream/") after
        ≡ (found 3 ((codes "task_id", codes "a1") ∷ []), after))
unfolding find_exact find_pattern normal_path contains starts_with text_eq compile pieces_of
add_route-found_example =
    add_route-found (codes "get") (codes "/tasks/{task_id}/stream") (codes "/tasks/a1/stream/") 3
      table stream_pieces ((codes "task_id", codes "a1") ∷ []) refl refl stream-Filled refl refl
      refl
