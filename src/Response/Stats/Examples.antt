-- ===== src/Response/Stats/Examples.antt =====
-- The collecting writer on a concrete handler.

use gitlab_workhorse.Base.{◌≡◌, List, [], ◌∷◌, length, ◌≤◌, true, false, none, some}
use gitlab_workhorse.Base.Text.{codes}
use gitlab_workhorse.Http.{
  Header, Response, new_response, server_writer, Action, set_header, write_header, write, serve,
  Same,
}
use gitlab_workhorse.Response.Stats.{stats_writer, new_stats_collecting_response_writer}
use gitlab_workhorse.Response.Stats.Logged.{log_is_right}

abbrev not_found : List Action
not_found =
    set_header (codes "Etag") (codes "1")
    ∷ write_header 404
    ∷ write (codes "ab")
    ∷ write_header 200
    ∷ []

log_is_right_example :
    let r : Response = record new_response { header = [] } in
    let l =
      serve
        (stats_writer server_writer)
        not_found
        (new_stats_collecting_response_writer server_writer r) in
    Same l.rw (serve server_writer not_found r)
    × (l.wrote_header ≡ true → (sent : Header) × (l.rw.sent ≡ some (l.status, sent)))
    × (l.wrote_header ≡ false → (l.status ≡ 0) × (l.rw.sent ≡ none) × (l.rw.body ≡ []))
    × (l.written ≡ length l.rw.body)
    × (l.rw.header_calls ≤ 1)
log_is_right_example = log_is_right not_found []
