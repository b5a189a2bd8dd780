-- ===== src/Http/Connection/Checks.antt =====
-- Which requests reach the middlewares and the handlers, and what the next request on a connection is.
use antigravity_webhook_hub.Prelude.{
  ℕ, suc, ◌≤◌, ◌≡◌, ◌⊎◌, inl, inr, refl, Option, none, some, List, ◌++◌, length, Bool-cases,
}
use antigravity_webhook_hub.Text.{Text, codes}
use antigravity_webhook_hub.Models.{get}
use antigravity_webhook_hub.Http.Reader.{
  Input, Reading, got, incomplete, timed_out, overrun, read_until,
}
use antigravity_webhook_hub.Http.Chunks.{BodyRead, body, refused, gone, crlf}
use antigravity_webhook_hub.Http.Chunks.Bounds.{IsWithin}
use antigravity_webhook_hub.Http.Head.{Head, parse_head}
use antigravity_webhook_hub.Http.Connection.{
  Env, HttpServer, closes, respond, send_quick_error, written, with_body, with_head, with_bytes,
  round, read_body, framed_body,
}
use antigravity_webhook_hub.Http.Connection.Framing.{read_body-IsWithin}

abbrev pub counted : {S H : Type 0} → HttpServer S H → HttpServer S H
counted s = record s { total_requests = suc s.total_requests }

-- A request whose body was read: its headers do not give both lengths, and its body is within the
-- limit.
pub record IsChecked {S H : Type 0} (env : Env S H) (i : Input) (s : HttpServer S H) : Type 0 where
  pub head_bytes : List ℕ
  pub behind : Input
  pub head : Head
  pub content : List ℕ
  pub rest : Input
  pub read : read_until (crlf ++ crlf) i ≡ got head_bytes behind
  pub parsed : parse_head env.parse_url head_bytes ≡ some head
  pub came : read_body env.max_body_bytes head.headers behind ≡ body content rest
  pub one_length :
      (get head.headers (codes "content-length") ≡ none)
      ⊎ (get head.headers (codes "transfer-encoding") ≡ none)
  pub within : length content ≤ env.max_body_bytes
  pub responds : round env i s ≡ respond env head content rest (counted s)

-- A round that closes the connection and leaves the hub as it is.
pub record IsClosed {S H : Type 0} (env : Env S H) (i : Input) (s : HttpServer S H) : Type 0 where
  pub after : HttpServer S H
  pub closed : round env i s ≡ closes after
  pub same_hub : after.hub ≡ s.hub
  pub same_routes : after.routes ≡ s.routes

module _ {S H : Type 0} (env : Env S H) where
  written-same :
      (sent : Option (List ℕ)) (s : HttpServer S H)
      → ((written env sent s).hub ≡ s.hub) × ((written env sent s).routes ≡ s.routes)
  written-same none s = (refl, refl)
  written-same (some b) s = (refl, refl)

  send_quick_error-same :
      (status : ℕ) (message : Text) (s : HttpServer S H)
      → ((send_quick_error env status message s).hub ≡ s.hub)
        × ((send_quick_error env status message s).routes ≡ s.routes)
  unfolding send_quick_error
  send_quick_error-same status message s = written-same _ s

  module _ (i : Input) (s : HttpServer S H) where
    refused-IsClosed :
        (status : ℕ) (message : Text)
        → round env i s ≡ closes (send_quick_error env status message (counted s))
        → IsClosed env i s
    refused-IsClosed status message e =
        let same = send_quick_error-same status message (counted s) in
        record { after = _; closed = e; same_hub = same.0; same_routes = same.1 }

    one_framing :
        (max : ℕ) (n coding : Option Text) (behind : Input) (b : List ℕ) (rest : Input)
        → framed_body max n coding behind ≡ body b rest
        → (n ≡ none) ⊎ (coding ≡ none)
    one_framing max none coding behind b rest h = inl refl
    one_framing max (some n) none behind b rest h = inr refl
    one_framing max (some n) (some coding) behind b rest h = cc

    body-cases :
        (head_bytes : List ℕ) (behind : Input) (head : Head) (r : BodyRead)
        → read_until (crlf ++ crlf) i ≡ got head_bytes behind
        → parse_head env.parse_url head_bytes ≡ some head
        → read_body env.max_body_bytes head.headers behind ≡ r
        → IsWithin env.max_body_bytes behind r
        → round env i s ≡ with_body env head (counted s) r
        → IsClosed env i s ⊎ IsChecked env i s
    unfolding read_body
    body-cases head_bytes behind head (body b rest) read parsed h w e = inr (record {
      head_bytes = head_bytes;
      behind = behind;
      head = head;
      content = b;
      rest = rest;
      read = read;
      parsed = parsed;
      came = h;
      one_length = one_framing env.max_body_bytes _ _ behind b rest h;
      within = w.0;
      responds = e;
    })
    body-cases head_bytes behind head (refused status message) read parsed h w e =
        inl (refused-IsClosed status message e)
    body-cases head_bytes behind head gone read parsed h w e =
        inl (record { after = counted s; closed = e; same_hub = refl; same_routes = refl })

    head-cases :
        (head_bytes : List ℕ) (behind : Input) (o : Option Head)
        → read_until (crlf ++ crlf) i ≡ got head_bytes behind
        → parse_head env.parse_url head_bytes ≡ o
        → round env i s ≡ with_head env behind (counted s) o
        → IsClosed env i s ⊎ IsChecked env i s
    head-cases head_bytes behind none read parsed e =
        inl (refused-IsClosed 400 (codes "Bad Request") e)
    head-cases head_bytes behind (some head) read parsed e =
        body-cases head_bytes behind head (read_body env.max_body_bytes head.headers behind) read
          parsed refl (read_body-IsWithin env.max_body_bytes head.headers behind) e

    reading-cases :
        (r : Reading)
        → read_until (crlf ++ crlf) i ≡ r
        → round env i s ≡ with_bytes env s r
        → IsClosed env i s ⊎ IsChecked env i s
    reading-cases (got head_bytes behind) h e =
        head-cases head_bytes behind (parse_head env.parse_url head_bytes) h refl e
    reading-cases incomplete h e =
        inl (record { after = s; closed = e; same_hub = refl; same_routes = refl })
    reading-cases timed_out h e =
        inl (record { after = s; closed = e; same_hub = refl; same_routes = refl })
    reading-cases overrun h e =
        inl (record { after = s; closed = e; same_hub = refl; same_routes = refl })

    -- Each round of a connection either closes it and leaves the hub and the routes as they were,
    -- or answers a request: then its head was parsed, it does not give both Content-Length and
    -- Transfer-Encoding, its body is what read_body reads, and the body is within max_body_bytes.
    pub round-IsChecked : IsClosed env i s ⊎ IsChecked env i s
    unfolding round
    round-IsChecked = elim (Bool-cases (env.is_running s.hub)) [
      | inl e ↦ reading-cases (read_until (crlf ++ crlf) i) refl (rw e refl)
      | inr e ↦ inl (record { after = s; closed = rw e refl; same_hub = refl; same_routes = refl })
    ]
