-- ===== src/Http/Routes/Matching.antt =====
-- Which paths a pattern matches, and with which parameters.

use mathlib.Core.Option
use antigravity_webhook_hub.Prelude.{
  ℕ, ◌≡◌, refl, ap, ◌∙◌, Bool, true, false, not, ◌&&◌, Option, none, some, List, [], ◌∷◌, ◌++◌, all,
  keep, ◌==◌, arith, Bool-cases, inl, inr,
}
use antigravity_webhook_hub.Text.{Text, codes, text_eq, text_eq_refl, contains}
use antigravity_webhook_hub.Http.Head.{upper}
use antigravity_webhook_hub.Http.Routes.{
  slash, Piece, literal, param, compile, or_shorter, match_param, match_pieces, normal_path,
  RoutePattern, Routes, found, add_route, set_pattern, find_exact, find_pattern, serves, head_route,
  look_up, resolve_route,
}

-- A value of a parameter is not empty and has no slash; it ends at a slash or with the path.
abbrev pub AtSlash : Text → Type 0
AtSlash [] = Unit
AtSlash (c ∷ s) = c ≡ slash

abbrev no_slash : ℕ → Bool
no_slash c = not (c == slash)

-- The path that a pattern stands for with values for its parameters.
pub data Filled : List Piece → List (Text × Text) → Text → Type 0 where
  end : Filled [] [] []
  char :
      {ps : List Piece} {params : List (Text × Text)} {s : Text} (c : ℕ)
      → Filled ps params s
      → Filled (literal c ∷ ps) params (c ∷ s)
  value :
      {ps : List Piece} {params : List (Text × Text)} {s path : Text} (name : Text) (c : ℕ)
      (v : Text)
      → all no_slash (c ∷ v) ≡ true
      → AtSlash s
      → path ≡ (c ∷ v) ++ s
      → Filled ps params s
      → Filled (param name ∷ ps) ((name, c ∷ v) ∷ params) path

module _ (rest : Text → Option (List (Text × Text))) (params : List (Text × Text)) where
  match_param-end :
      (s : Text) → AtSlash s → rest s ≡ some params → match_param rest true s ≡ some ([], params)
  unfolding match_param
  match_param-end [] a e = rw e refl
  match_param-end (c ∷ s) a e = let at : (c == slash) ≡ true = ground arith in rw (at, e) refl

  match_param-value :
      (begun : Bool) (c : ℕ) (v s : Text)
      → all no_slash (c ∷ v) ≡ true
      → AtSlash s
      → rest s ≡ some params
      → match_param rest begun ((c ∷ v) ++ s) ≡ some (c ∷ v, params)
  unfolding match_param
  match_param-value begun c [] s h a e =
      let other : (c == slash) ≡ false = ground arith in rw (other, match_param-end s a e) refl
  match_param-value begun c (d ∷ v) s h a e =
      let other : (c == slash) ≡ false = ground arith in
      rw (other, match_param-value true d v s (ground arith) a e) refl

-- The greedy search with its way back finds the values.
pub match_pieces-Filled :
    {ps : List Piece} {params : List (Text × Text)} {s : Text}
    → Filled ps params s
    → match_pieces ps s ≡ some params
unfolding match_pieces
match_pieces-Filled end = refl
match_pieces-Filled (char c f) =
    let same : (c == c) ≡ true = ground arith in rw (same, match_pieces-Filled f) refl
match_pieces-Filled (value {ps = ps} {params = params} {s = s} name c v h a e f) =
    ap (match_pieces (param name ∷ ps)) e
    ∙ rw (match_param-value (match_pieces ps) params false c v s h a (match_pieces-Filled f)) refl

or_shorter-none : {A : Type 0} (a b : Option A) → or_shorter a b ≡ none → (a ≡ none) × (b ≡ none)
or_shorter-none none b h = (refl, h)
or_shorter-none (some a) b h = cc

module _ {H : Type 0} (method path : Text) where
  find_pattern-last :
      (rs : List (RoutePattern H)) (r : RoutePattern H) (params : List (Text × Text))
      → find_pattern method path rs ≡ none
      → serves method r ≡ true
      → match_pieces r.pieces path ≡ some params
      → find_pattern method path (rs ++ r ∷ []) ≡ some (r.handler, params)
  unfolding find_pattern
  find_pattern-last [] r params h k m = rw (k, m) refl
  find_pattern-last (q ∷ rs) r params h k m = elim (Bool-cases (serves method q)) [
    | inl e ↦
        let parts = or_shorter-none _ (find_pattern method path rs) (rw e at h) in
        rw (e, parts.0, find_pattern-last rs r params parts.1 k m) refl
    | inr e ↦ rw e (find_pattern-last rs r params (ground arith) k m)
  ]

  find_pattern-keep :
      (test : RoutePattern H → Bool) (rs : List (RoutePattern H))
      → find_pattern method path rs ≡ none
      → find_pattern method path (keep test rs) ≡ none
  unfolding find_pattern
  find_pattern-keep test [] h = refl
  find_pattern-keep test (q ∷ rs) h = elim (Bool-cases (serves method q)) [
    | inl e ↦
        let parts = or_shorter-none _ (find_pattern method path rs) (rw e at h) in
        elim (Bool-cases (test q)) [
          | inl k ↦ rw (k, e, parts.0) (find_pattern-keep test rs parts.1)
          | inr k ↦ rw k (find_pattern-keep test rs parts.1)
        ]
    | inr e ↦ elim (Bool-cases (test q)) [
      | inl k ↦ rw (k, e) (find_pattern-keep test rs (rw e at h))
      | inr k ↦ rw k (find_pattern-keep test rs (rw e at h))
    ]
  ]

module _ {H : Type 0} where
  resolve_route-found :
      (method path : Text) (handler : H) (params : List (Text × Text)) (t : Routes H)
      → look_up method (normal_path path) t ≡ some (handler, params)
      → resolve_route none method path t ≡ (found handler params, t)
  unfolding resolve_route
  resolve_route-found method path handler params t h = rw (resolve_route, h) refl

  look_up-pattern :
      (method path : Text) (t : Routes H) (r : Option (H × List (Text × Text)))
      → find_exact method path t.exact_routes ≡ none
      → head_route method path t.exact_routes ≡ none
      → find_pattern method path t.pattern_routes ≡ r
      → look_up method path t ≡ r
  unfolding look_up
  look_up-pattern method path t r e g p = rw (e, g, p) refl

-- A route with placeholders, of other characters that stand for themselves in a regular expression
-- and of distinct names, is added, and is then found for a path that its pattern gives when each
-- placeholder is filled by a value, with these values as parameters; a value is not empty, has no
-- slash, and ends at a slash of the pattern or at its end. The table has no resolver, and for that
-- path no exact route (nor the GET route that serves HEAD) and no pattern before.
pub add_route-found :
    {H : Type 0} (method pattern path : Text) (handler : H) (t : Routes H) (pieces : List Piece)
    (params : List (Text × Text))
    → contains (codes "{") (normal_path pattern) && contains (codes "}") (normal_path pattern)
      ≡ true
    → compile (normal_path pattern) ≡ some pieces
    → Filled pieces params (normal_path path)
    → find_exact (upper method) (normal_path path) t.exact_routes ≡ none
    → head_route (upper method) (normal_path path) t.exact_routes ≡ none
    → find_pattern (upper method) (normal_path path) t.pattern_routes ≡ none
    → (after : Routes H) × (add_route method pattern handler t ≡ some after)
      × (resolve_route none (upper method) path after ≡ (found handler params, after))
unfolding add_route
add_route-found {H} method pattern path handler t pieces params braces compiled filled e g p =
    let m = upper method in
    let here = normal_path path in
    let r : RoutePattern H = record {
      method = m;
      raw_pattern = normal_path pattern;
      pieces = pieces;
      handler = handler;
    } in
    let others =
      keep
        (λ (q : RoutePattern H).
          not (text_eq q.method m && text_eq q.raw_pattern (normal_path pattern)))
        t.pattern_routes in
    let table = set_pattern m (normal_path pattern) handler t pieces in
    (
      table,
      rw braces (ap (Option.map (set_pattern m (normal_path pattern) handler t)) compiled),
      resolve_route-found m path handler params table (
          look_up-pattern m here table (some (handler, params)) e g (
            find_pattern-last m here others r params (find_pattern-keep m here _ t.pattern_routes p)
              (rw (text_eq_refl m) refl) (match_pieces-Filled filled))),
    )
