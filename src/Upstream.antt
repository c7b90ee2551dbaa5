-- ===== src/Upstream.antt =====
-- internal/upstream/upstream.go and internal/upstream/routes.go: which handler gets a request.
pub mod Routing
pub mod Handlers
mod Examples
use mathlib.Core.Option
use mathlib.Core.Bool.{Bool, true, false, not, ◌&&◌, ◌||◌}
use gitlab_workhorse.Base.{ℕ, List, [], ◌∷◌, ◌++◌, Option, none, some, if◌then◌else◌}
use gitlab_workhorse.Base.Text.{Text, text_eq, codes, has_suffix}
use gitlab_workhorse.Http.{Header, header_del}
use gitlab_workhorse.UrlPrefix.{clean_uri_path, match_prefix, strip}

-- What routing reads of a request, and the header that it changes.
pub record Request : Type 0 where
  pub method : Text
  pub request_uri : Text
  pub url_path : Text
  pub header : Header

-- What happens to a request: an error with its text and status, or the handler with a name gets it.
pub data Outcome : Type 0 where
  http_error : Text → ℕ → Outcome
  serve : Text → Request → Outcome

-- A `routeEntry`; `regex` is the `MatchString` of the compiled expression.
pub record RouteEntry : Type 0 where
  pub method : Text
  pub regex : Option (Text → Bool)
  pub handler : Request → Outcome
  pub matchers : List (Request → Bool)

-- The loop over the matchers.
unfoldable pub all_match : List (Request → Bool) → Request → Bool
all_match [] req = true
all_match (matcher ∷ ms) req = let rest = all_match ms req in if matcher req then rest else false

-- `routeEntry.isMatch`.
unfoldable pub is_match : RouteEntry → Text → Request → Bool
is_match ro cleaned_path req =
    if not (text_eq ro.method []) && not (text_eq req.method ro.method)
    then false
    else elim ro.regex [
      | none ↦ all_match ro.matchers req
      | some match_string ↦ if match_string cleaned_path then all_match ro.matchers req else false
    ]

-- The loop over the routes: the first that matches.
unfoldable pub find_route : List RouteEntry → Text → Request → Option RouteEntry
find_route [] path req = none
find_route (ro ∷ routes) path req =
    let rest = find_route routes path req in if is_match ro path req then some ro else rest

-- `requestHeaderBlacklist`.
unfoldable pub rewritten_fields_header : Text
rewritten_fields_header = codes "Gitlab-Workhorse-Multipart-Fields"

abbrev pub request_header_blacklist : List Text
request_header_blacklist = rewritten_fields_header ∷ []

unfoldable pub delete_all : List Text → Header → Header
delete_all [] h = h
delete_all (k ∷ ks) h = delete_all ks (header_del k h)

-- `configureURLPrefix`.
unfoldable pub configure_url_prefix : Text → Text
configure_url_prefix backend_path =
    if has_suffix backend_path (codes "/") then backend_path else backend_path ++ codes "/"

-- `upstream.ServeHTTP`, given the verb `%q` for the text of the error.
unfoldable pub serve_http : (Text → Text) → Text → List RouteEntry → Request → Outcome
serve_http quote prefix routes r =
    let uri_path = clean_uri_path r.url_path in
    if text_eq r.request_uri (codes "*")
    then http_error (codes "Connection upgrade not allowed") 400
    else if text_eq r.method (codes "CONNECT")
    then http_error (codes "CONNECT not allowed") 400
    else if not (match_prefix prefix uri_path)
    then http_error (codes "Not found " ++ quote uri_path) 404
    else elim (find_route routes (strip prefix uri_path) r) [
      | none ↦ http_error (codes "Forbidden") 403
      | some ro ↦ ro.handler (record r { header = delete_all request_header_blacklist r.header })
    ]

-- `is_upgrade` is `websocket.IsWebSocketUpgrade`.
module _ (is_upgrade : Request → Bool) where
  unfoldable pub deny_websocket : (Request → Outcome) → Request → Outcome
  deny_websocket next r =
      if is_upgrade r then http_error (codes "websocket upgrade not allowed") 400 else next r

  unfoldable pub route : Text → Option (Text → Bool) → Text → List (Request → Bool) → RouteEntry
  route method regex name matchers = record {
    method = method;
    regex = regex;
    handler = deny_websocket (serve name);
    matchers = matchers;
  }

  unfoldable pub ws_route : Option (Text → Bool) → Text → List (Request → Bool) → RouteEntry
  ws_route regex name matchers = record {
    method = codes "GET";
    regex = regex;
    handler = serve name;
    matchers = matchers ++ is_upgrade ∷ [];
  }
