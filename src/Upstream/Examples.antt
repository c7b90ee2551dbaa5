-- ===== src/Upstream/Examples.antt =====
-- A table with an API route and a terminal.

use mathlib.Core.Bool.{Bool, true, false}
use gitlab_workhorse.Base.{ℕ, ◌≡◌, refl, ◌⊎◌, List, [], ◌∷◌, ◌++◌, map, none, some, All}
use gitlab_workhorse.Base.Text.{Text, text_eq, codes, has_prefix, has_suffix, trim_prefix}
use gitlab_workhorse.Base.Dict.{lookup, delete}
use gitlab_workhorse.UrlPrefix.{
  clean_uri_path, match_prefix, strip, path_clean, split, clean_elements, flatten, join,
  ends_with_slash,
}
use gitlab_workhorse.Upstream.{
  Request, http_error, serve, serve_http, is_match, all_match, find_route, delete_all,
  rewritten_fields_header, deny_websocket, route, ws_route, configure_url_prefix,
}
use gitlab_workhorse.Upstream.Routing.{
  First, IsAdmitted, handed, RouteSpec, build, serve_http_dispatches,
}

abbrev is_upgrade : Request → Bool
is_upgrade r = elim (lookup (codes "Upgrade") r.header) [ none ↦ false | some v ↦ true ]

abbrev specs : List RouteSpec
specs =
    record {
      websocket = false;
      method = codes "GET";
      regex = some (λ p. has_prefix p (codes "/api/"));
      name = codes "api";
      matchers = [];
    }
    ∷ record {
      websocket = true;
      method = codes "GET";
      regex = some (λ p. has_suffix p (codes "/terminal.ws"));
      name = codes "terminal";
      matchers = [];
    }
    ∷ []

abbrev prefix : Text
prefix = codes "/gitlab/"

abbrev terminal : Request
terminal = record {
  method = codes "GET";
  request_uri = codes "/gitlab/p/terminal.ws";
  url_path = codes "/gitlab/p/terminal.ws";
  header = (codes "Upgrade", codes "websocket" ∷ []) ∷ [];
}

abbrev quote : Text → Text
quote t = b'"' ∷ t ++ b'"' ∷ []

prefix_has_slash : configure_url_prefix (codes "/gitlab") ≡ prefix
unfolding configure_url_prefix has_suffix has_prefix
prefix_has_slash = refl

serve_http_dispatches_example :
    let path = strip prefix (clean_uri_path terminal.url_path) in
    let outcome = serve_http quote prefix (map (build is_upgrade) specs) terminal in
    (IsAdmitted prefix terminal
      × (f : First path terminal (map (build is_upgrade) specs)) × (outcome
          ≡ f.ro.handler (handed terminal)))
    ⊎ ((text : Text) × (status : ℕ) × (outcome ≡ http_error text status)
        × ((IsAdmitted prefix terminal → ⊥)
            ⊎ All (λ ro. is_match ro path terminal ≡ false) (map (build is_upgrade) specs)))
serve_http_dispatches_example =
    serve_http_dispatches quote prefix (map (build is_upgrade) specs) terminal

terminal_is_served :
    serve_http quote prefix (map (build is_upgrade) specs) terminal
    ≡ serve (codes "terminal") (handed terminal)
unfolding serve_http find_route is_match all_match ws_route route deny_websocket clean_uri_path
    strip match_prefix path_clean split clean_elements flatten join ends_with_slash text_eq
    has_prefix has_suffix trim_prefix lookup delete delete_all rewritten_fields_header
terminal_is_served = refl

terminal_stays_upgrade : is_upgrade (handed terminal) ≡ is_upgrade terminal
unfolding lookup delete delete_all rewritten_fields_header text_eq
terminal_stays_upgrade = refl
