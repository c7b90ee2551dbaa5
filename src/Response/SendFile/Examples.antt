-- ===== src/Response/SendFile/Examples.antt =====
-- `SendFile` on a disk with one file.

use gitlab_workhorse.Base.{◌≡◌, refl, List, [], ◌∷◌, Option, none, some, if◌then◌else◌}
use gitlab_workhorse.Base.Text.{Text, text_eq, codes}
use gitlab_workhorse.Base.Dict.{lookup, insert}
use gitlab_workhorse.Http.{
  Response, new_response, server_writer, header_get, header_set, buffering, Action, set_header,
  del_header, write_header, write, serve, http_error,
}
use gitlab_workhorse.Response.SendFile.{send_file_response_header, send_file}
use gitlab_workhorse.Response.SendFile.Takeover.{send_file_takes_over}

abbrev disk : Text → Option Text
disk path = if text_eq path (codes "/a") then some (codes "contents") else none

abbrev content : Text → List Action
content bytes = write_header 200 ∷ write bytes ∷ []

abbrev named : Response
named = record new_response { header = header_set send_file_response_header (codes "/a") [] }

file_is_named : header_get send_file_response_header named.header ≡ codes "/a"
unfolding send_file_response_header lookup insert text_eq
file_is_named = refl

send_file_takes_over_example :
    let s =
      send_file server_writer disk content (write_header 200 ∷ write (codes "x") ∷ []) named in
    let r1 =
      serve server_writer
        (del_header send_file_response_header ∷ set_header buffering (codes "no") ∷ [])
        named in
    let alone : Response = elim (disk (codes "/a")) [
      | none ↦ http_error server_writer (codes "404 page not found") 404 r1
      | some bytes ↦ serve server_writer (content bytes) r1
    ] in
    (s.rw.sent ≡ alone.sent) × (s.rw.body ≡ alone.body)
send_file_takes_over_example =
    send_file_takes_over disk content (write (codes "x") ∷ []) named (codes "/a") file_is_named
      (λ e. cc)
