-- ===== src/Upstream/Routing.antt =====
-- Which route of internal/upstream a request takes.

use mathlib.Core.Bool.{Bool, true, false}
use gitlab_workhorse.Base.{
  ℕ, ◌≡◌, refl, sym, ap, ◌∙◌, ◌≢◌, ◌⊎◌, inl, inr, List, [], ◌∷◌, ◌++◌, map, Option, none, some,
  arith, if◌then◌else◌, All, Bool-cases, Option-cases,
}
use gitlab_workhorse.Base.Text.{Text, text_eq, text_eq_iff, codes}
use gitlab_workhorse.UrlPrefix.{clean_uri_path, match_prefix, strip}
use gitlab_workhorse.Upstream.{
  Request, http_error, serve, RouteEntry, all_match, is_match, find_route, delete_all,
  request_header_blacklist, serve_http, deny_websocket, route, ws_route,
}

-- The route `ro` stands in a table behind routes that do not match.
pub record First (path : Text) (req : Request) (routes : List RouteEntry) : Type 0 where
  pub before : List RouteEntry
  pub ro : RouteEntry
  pub after : List RouteEntry
  pub table : routes ≡ before ++ ro ∷ after
  pub missed : All (λ r. is_match r path req ≡ false) before
  pub matched : is_match ro path req ≡ true

find_route-none :
    (routes : List RouteEntry) (path : Text) (req : Request)
    → find_route routes path req ≡ none
    → All (λ r. is_match r path req ≡ false) routes
unfolding find_route
find_route-none [] path req e = tt
find_route-none (ro ∷ routes) path req e =
    (ground (arith, e), find_route-none routes path req (ground (arith, e)))

find_route-some :
    (routes : List RouteEntry) (path : Text) (req : Request) (ro : RouteEntry)
    → find_route routes path req ≡ some ro
    → (f : First path req routes) × (f.ro ≡ ro)
unfolding find_route
find_route-some [] path req ro e = absurd (ground (arith, e))
find_route-some (x ∷ routes) path req ro e = elim (Bool-cases (is_match x path req)) [
  | inl hit ↦ (
    record { before = []; ro = x; after = routes; table = refl; missed = tt; matched = hit },
    ground (arith, e, hit),
  )
  | inr miss ↦
      let (f, same) = find_route-some routes path req ro (ground (arith, e, miss)) in
      (
        record {
          before = x ∷ f.before;
          ro = f.ro;
          after = f.after;
          table = ap (λ t. x ∷ t) f.table;
          missed = (miss, f.missed);
          matched = f.matched;
        },
        same,
      )
]

-- A request that is not refused before the routes are tried.
pub record IsAdmitted (prefix : Text) (r : Request) : Type 0 where
  pub not_star : r.request_uri ≢ codes "*"
  pub not_connect : r.method ≢ codes "CONNECT"
  pub inside : match_prefix prefix (clean_uri_path r.url_path) ≡ true

-- The request as its handler gets it.
abbrev pub handed : Request → Request
handed r = record r { header = delete_all request_header_blacklist r.header }

-- Every request has one of two ends. It is admitted, and the handler of the first route that
-- matches its path without the prefix gets it, with the blacklisted headers deleted. Or it is
-- answered with an error, and then it was not admitted or no route matches it.
pub serve_http_dispatches :
    (quote : Text → Text) (prefix : Text) (routes : List RouteEntry) (r : Request)
    → let path = strip prefix (clean_uri_path r.url_path) in
      let outcome = serve_http quote prefix routes r in
      (IsAdmitted prefix r × (f : First path r routes) × (outcome ≡ f.ro.handler (handed r)))
      ⊎ ((text : Text) × (status : ℕ) × (outcome ≡ http_error text status)
          × ((IsAdmitted prefix r → ⊥) ⊎ All (λ ro. is_match ro path r ≡ false) routes))
unfolding serve_http
serve_http_dispatches quote prefix routes r =
    let path = clean_uri_path r.url_path in
    let star_iff = text_eq_iff r.request_uri (codes "*") in
    let connect_iff = text_eq_iff r.method (codes "CONNECT") in
    elim (Bool-cases (text_eq r.request_uri (codes "*"))) [
      | inl star ↦ inr (
        codes "Connection upgrade not allowed",
        400,
        ground (arith, star),
        inl (λ ok. ok.not_star (ground (arith, star, star_iff))),
      )
      | inr uri ↦ elim (Bool-cases (text_eq r.method (codes "CONNECT"))) [
        | inl connect ↦ inr (
          codes "CONNECT not allowed",
          400,
          ground (arith, uri, connect),
          inl (λ ok. ok.not_connect (ground (arith, connect, connect_iff))),
        )
        | inr method ↦ elim (Bool-cases (match_prefix prefix path)) [
          | inr outside ↦ inr (
            codes "Not found " ++ quote path,
            404,
            ground (arith, uri, method, outside),
            inl (λ ok. ground (arith, ok.inside, outside)),
          )
          | inl inside ↦ elim (Option-cases (find_route routes (strip prefix path) r)) [
            | inl missing ↦ inr (
              codes "Forbidden",
              403,
              ground (arith, uri, method, inside, missing),
              inr (find_route-none routes (strip prefix path) r missing),
            )
            | inr (ro, found) ↦
                let (f, same) = find_route-some routes (strip prefix path) r ro found in
                inl (
                  record {
                    not_star = ground (arith, uri, star_iff);
                    not_connect = ground (arith, method, connect_iff);
                    inside = inside;
                  },
                  f,
                  ground (arith, uri, method, inside, found)
                      ∙ ap (λ x. x.handler (handed r)) (sym same),
                )
          ]
        ]
      ]
    ]

-- A line of the routing table.
pub record RouteSpec : Type 0 where
  pub websocket : Bool
  pub method : Text
  pub regex : Option (Text → Bool)
  pub name : Text
  pub matchers : List (Request → Bool)

module _ (is_upgrade : Request → Bool) where
  abbrev pub build : RouteSpec → RouteEntry
  build x =
      if x.websocket
      then ws_route is_upgrade x.regex x.name x.matchers
      else route is_upgrade x.method x.regex x.name x.matchers

  all_match-last :
      (ms : List (Request → Bool)) (m : Request → Bool) (r : Request)
      → all_match (ms ++ m ∷ []) r ≡ true
      → m r ≡ true
  unfolding all_match
  all_match-last [] m r e = ground (arith, e)
  all_match-last (x ∷ ms) m r e = all_match-last ms m r (ground (arith, e))

  ws_route-upgrade :
      (regex : Option (Text → Bool)) (name : Text) (ms : List (Request → Bool)) (path : Text)
      → (r : Request) → is_match (ws_route is_upgrade regex name ms) path r ≡ true
      → is_upgrade r ≡ true
  unfolding is_match ws_route
  ws_route-upgrade none name ms path r e = all_match-last ms is_upgrade r (ground (arith, e))
  ws_route-upgrade (some m) name ms path r e = all_match-last ms is_upgrade r (ground (arith, e))

  -- The line of a route that a handler was called through.
  built :
      (specs : List RouteSpec) (before : List RouteEntry) (ro : RouteEntry)
      (after : List RouteEntry)
      → map build specs ≡ before ++ ro ∷ after
      → (front : List RouteSpec) × (x : RouteSpec) × (back : List RouteSpec) × (specs
          ≡ front ++ x ∷ back)
        × (build x ≡ ro)
  built [] [] ro after e = absurd (ground (arith, e))
  built [] (b ∷ before) ro after e = absurd (ground (arith, e))
  built (x ∷ specs) [] ro after e = ([], x, specs, refl, ground (arith, e))
  built (x ∷ specs) (b ∷ before) ro after e =
      let (front, y, back, table, same) = built specs before ro after (ground (arith, e)) in
      (x ∷ front, y, back, ap (λ t. x ∷ t) table, same)

  serves_kind :
      (x : RouteSpec) (path : Text) (r h : Request) (name : Text) (r' : Request)
      → is_upgrade h ≡ is_upgrade r
      → is_match (build x) path r ≡ true
      → (build x).handler h ≡ serve name r'
      → (x.name ≡ name) × (x.websocket ≡ is_upgrade r)
  unfolding route ws_route deny_websocket
  serves_kind x path r h name r' same hit e = elim (Bool-cases x.websocket) [
    | inl ws ↦
        let made : build x ≡ ws_route is_upgrade x.regex x.name x.matchers = ground (arith, ws) in
        let upgrade =
          ws_route-upgrade x.regex x.name x.matchers path r (ground (arith, made, hit)) in
        (ground (arith, made, e), ground (arith, ws, upgrade))
    | inr plain ↦
        let made : build x ≡ route is_upgrade x.method x.regex x.name x.matchers =
          ground (arith, plain) in
        (ground (arith, made, e), ground (arith, made, e, plain, same))
  ]

  -- If the deletion of the blacklisted headers does not turn a websocket upgrade into another
  -- request or back, and a handler of the table gets a request: then its line of the table is a
  -- websocket route exactly when the request is a websocket upgrade.
  pub upgrades_need_ws_route :
      (quote : Text → Text) (prefix : Text) (specs : List RouteSpec) (r : Request)
      → (name : Text) (r' : Request) → is_upgrade (handed r) ≡ is_upgrade r
      → serve_http quote prefix (map build specs) r ≡ serve name r'
      → (front : List RouteSpec) × (x : RouteSpec) × (back : List RouteSpec) × (specs
          ≡ front ++ x ∷ back)
        × (x.name ≡ name)
        × (x.websocket ≡ is_upgrade r)
  upgrades_need_ws_route quote prefix specs r name r' same e =
      elim (serve_http_dispatches quote prefix (map build specs) r) [
        | inr (text, status, bad, why) ↦ absurd (ground (arith, bad, e))
        | inl (ok, f, good) ↦
            let (front, x, back, table, made) = built specs f.before f.ro f.after f.table in
            let path = strip prefix (clean_uri_path r.url_path) in
            let (named, kind) =
              serves_kind x path r (handed r) name r' same
                (ap (λ y. is_match y path r) made ∙ f.matched)
                (ap (λ y. y.handler (handed r)) made ∙ sym good ∙ e) in
            (front, x, back, table, named, kind)
      ]
