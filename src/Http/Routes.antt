-- ===== src/Http/Routes.antt =====
-- The routing tables of hub/server.py: `add_route`, `RoutePattern` and `_resolve_route`. A pattern
-- goes into a regular expression as it is. Those of the hub are of characters that stand for
-- themselves, and of placeholders; other expressions are left out.
pub mod Matching
use mathlib.Core.Option
use antigravity_webhook_hub.Prelude.{
  ℕ, zero, suc, length, Bool, true, false, not, ◌&&◌, ◌||◌, Option, none, some, List, [], ◌∷◌, ◌++◌,
  any, all, keep, leb, ◌==◌, if◌then◌else◌,
}
use antigravity_webhook_hub.Text.{Text, codes, text_eq, contains, is_nil}
use antigravity_webhook_hub.Http.Head.{upper}

abbrev pub slash : ℕ
slash = b'/'

-- `path.strip("/")`
unfoldable pub lstrip_slash : Text → Text
lstrip_slash [] = []
lstrip_slash (c ∷ s) = let rest = lstrip_slash s in if c == slash then rest else c ∷ s

unfoldable pub rstrip_slash : Text → Text
rstrip_slash [] = []
rstrip_slash (c ∷ s) =
    let rest = rstrip_slash s in if c == slash && is_nil rest then [] else c ∷ rest

-- `"/" + path.strip("/") if path != "/" else "/"`
unfoldable pub normal_path : Text → Text
unfolding lstrip_slash rstrip_slash
normal_path path =
    if text_eq path (slash ∷ []) then slash ∷ [] else slash ∷ rstrip_slash (lstrip_slash path)

-- A compiled pattern: a character, or a parameter for one character or more that are no slash.
pub data Piece : Type 0 where
  literal : ℕ → Piece
  param : Text → Piece

abbrev is_letter : ℕ → Bool
is_letter c = leb b'a' c && leb c b'z' || leb b'A' c && leb c b'Z' || c == b'_'

abbrev is_name_char : ℕ → Bool
is_name_char c = is_letter c || leb b'0' c && leb c b'9'

-- `name}` at the head of a text: the name, and what follows.
unfoldable pub closed_name : Text → Option (Text × Text)
closed_name [] = none
closed_name (c ∷ s) =
    let rest = Option.map (λ (p : Text × Text). (c ∷ p.0, p.1)) (closed_name s) in
    if c == b'}' then some ([], s) else if is_name_char c then rest else none

-- `{name}`, where the first character is no digit.
abbrev placeholder : Text → Option (Text × Text)
placeholder [] = none
placeholder (c ∷ s) = if is_letter c then closed_name (c ∷ s) else none

-- `skip` counts the characters that belong to the parameter before them.
unfoldable pub pieces_of : ℕ → Text → List Piece
unfolding closed_name
pieces_of skip [] = []
pieces_of (suc skip) (c ∷ s) = pieces_of skip s
pieces_of zero (c ∷ s) = elim (if c == b'{' then placeholder s else none) as (λ _. List Piece) [
  | none ↦ literal c ∷ pieces_of zero s
  | some (name, _) ↦ param name ∷ pieces_of (suc (length name)) s
]

-- The characters that do not stand for themselves in a regular expression.
abbrev is_special : ℕ → Bool
is_special c = any (λ d. d == c) (codes ".^$*+?{}[]\\|()")

unfoldable pub names_of : List Piece → List Text
names_of [] = []
names_of (literal c ∷ ps) = names_of ps
names_of (param name ∷ ps) = name ∷ names_of ps

unfoldable pub are_distinct : List Text → Bool
unfolding text_eq
are_distinct [] = true
are_distinct (n ∷ ns) = let rest = are_distinct ns in not (any (text_eq n) ns) && rest

abbrev stands_for_itself : Piece → Bool
stands_for_itself (literal c) = not (is_special c)
stands_for_itself (param name) = true

-- `none` is an expression that is left out, or a repeated name, for which `re.compile` raises.
abbrev pub if_plain : List Piece → Option (List Piece)
if_plain ps = if all stands_for_itself ps && are_distinct (names_of ps) then some ps else none

unfoldable pub compile : Text → Option (List Piece)
unfolding pieces_of names_of are_distinct
compile pattern = if_plain (pieces_of 0 pattern)

abbrev add_char : ℕ → Option (Text × List (Text × Text)) → Option (Text × List (Text × Text))
add_char c none = none
add_char c (some (value, params)) = some (c ∷ value, params)

abbrev or_shorter : {A : Type 0} → Option A → Option A → Option A
or_shorter none b = b
or_shorter (some a) b = some a

-- `[^/]+` and what follows it: as many characters as leave a match. `begun` says that there was
-- one already.
unfoldable pub match_param :
    (Text → Option (List (Text × Text))) → Bool → Text → Option (Text × List (Text × Text))
match_param rest begun [] = if begun then Option.map (λ params. ([], params)) (rest []) else none
match_param rest begun (c ∷ s) =
    let longer = if c == slash then none else add_char c (match_param rest true s) in
    let here = if begun then Option.map (λ params. ([], params)) (rest (c ∷ s)) else none in
    or_shorter longer here

-- `$` matches at the end, and before a line feed at the end.
unfoldable pub match_pieces : List Piece → Text → Option (List (Text × Text))
unfolding match_param
match_pieces [] [] = some []
match_pieces [] (c ∷ []) = if c == 10 then some [] else none
match_pieces [] (c ∷ d ∷ s) = none
match_pieces (literal c ∷ ps) [] = none
match_pieces (literal c ∷ ps) (d ∷ s) =
    let rest = match_pieces ps s in if c == d then rest else none
match_pieces (param name ∷ ps) s =
    Option.map (λ (p : Text × List (Text × Text)). (name, p.0) ∷ p.1)
      (match_param (match_pieces ps) false s)

pub record RoutePattern (H : Type 0) : Type 0 where
  pub method : Text
  pub raw_pattern : Text
  pub pieces : List Piece
  pub handler : H

pub record ExactRoute (H : Type 0) : Type 0 where
  pub method : Text
  pub path : Text
  pub handler : H

pub record Routes (H : Type 0) : Type 0 where
  pub exact_routes : List (ExactRoute H)
  pub pattern_routes : List (RoutePattern H)

-- handler, parameters, whether the path exists for another method
pub data Resolution (H : Type 0) : Type 0 where
  found : H → List (Text × Text) → Resolution H
  missing : (path_exists : Bool) → Resolution H

abbrev is_some : {A : Type 0} → Option A → Bool
is_some none = false
is_some (some a) = true

module _ {H : Type 0} where
  abbrev pub has_key : Text → Text → ExactRoute H → Bool
  has_key method path r = text_eq r.method method && text_eq r.path path

  unfoldable pub set_exact : ExactRoute H → List (ExactRoute H) → List (ExactRoute H)
  set_exact r [] = r ∷ []
  set_exact r (q ∷ qs) =
      let rest = set_exact r qs in
      if has_key r.method r.path q then record q { handler = r.handler } ∷ qs else q ∷ rest

  -- The pattern takes the place of one of the same method and text, at the end of the list.
  abbrev pub set_pattern : Text → Text → H → Routes H → List Piece → Routes H
  set_pattern method pattern handler t pieces = record t {
    pattern_routes =
        keep (λ r. not (text_eq r.method method && text_eq r.raw_pattern pattern)) t.pattern_routes
        ++ record { method = method; raw_pattern = pattern; pieces = pieces; handler = handler }
          ∷ [];
  }

  -- `none` as for `compile`.
  unfoldable pub add_route : Text → Text → H → Routes H → Option (Routes H)
  unfolding normal_path set_exact compile contains
  add_route method path handler t =
      let m = upper method in
      let p = normal_path path in
      if contains (codes "{") p && contains (codes "}") p
      then Option.map (set_pattern m p handler t) (compile p)
      else some (record t {
        exact_routes =
            set_exact (record { method = m; path = p; handler = handler }) t.exact_routes;
      })

  unfoldable pub find_exact : Text → Text → List (ExactRoute H) → Option H
  find_exact method path [] = none
  find_exact method path (r ∷ rs) =
      if has_key method path r then some r.handler else find_exact method path rs

  abbrev serves : Text → RoutePattern H → Bool
  serves method r =
      text_eq r.method method || text_eq method (codes "HEAD") && text_eq r.method (codes "GET")

  unfoldable pub find_pattern :
      Text → Text → List (RoutePattern H) → Option (H × List (Text × Text))
  unfolding match_pieces
  find_pattern method path [] = none
  find_pattern method path (r ∷ rs) =
      let later = find_pattern method path rs in
      if serves method r
      then or_shorter (Option.map (λ params. (r.handler, params)) (match_pieces r.pieces path))
          later
      else later

  abbrev with_params : Option H → Option (H × List (Text × Text))
  with_params = Option.map (λ handler. (handler, []))

  abbrev head_route : Text → Text → List (ExactRoute H) → Option H
  head_route method path rs =
      if text_eq method (codes "HEAD") then find_exact (codes "GET") path rs else none

  -- The exact routes, those of GET for HEAD, and the patterns.
  unfoldable pub look_up : Text → Text → Routes H → Option (H × List (Text × Text))
  unfolding find_exact find_pattern
  look_up method path t = or_shorter (with_params (find_exact method path t.exact_routes)) (
      or_shorter (with_params (head_route method path t.exact_routes))
        (find_pattern method path t.pattern_routes))

  -- The test for 405.
  unfoldable pub path_exists : Text → Text → Routes H → Bool
  unfolding match_pieces
  path_exists method path t =
      any (λ r. text_eq r.path path && not (text_eq r.method method)) t.exact_routes
      || any (λ r. is_some (match_pieces r.pieces path) && not (text_eq r.method method))
          t.pattern_routes

  abbrev resolved : Option (H × List (Text × Text)) → Resolution H → Resolution H
  resolved none other = other
  resolved (some (handler, params)) other = found handler params

  abbrev after_resolver :
      Option (Text → Text → Routes H → Routes H) → Text → Text → Routes H → Routes H
  after_resolver none method path t = t
  after_resolver (some resolver) method path t = resolver method path t

  -- `resolver` wires routes when they are asked for; what it wired stays.
  unfoldable pub resolve_route :
      Option (Text → Text → Routes H → Routes H) → Text → Text → Routes H → Resolution H × Routes H
  unfolding normal_path look_up path_exists
  resolve_route resolver method path t =
      let p = normal_path path in
      let wired = after_resolver resolver method p t in
      elim (look_up method p t) [
        | some (handler, params) ↦ (found handler params, t)
        | none ↦ (resolved (look_up method p wired) (missing (path_exists method p wired)), wired)
      ]
