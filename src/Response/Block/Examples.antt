-- ===== src/Response/Block/Examples.antt =====
-- `Block` on concrete answers.

use gitlab_workhorse.Base.{ℕ, ◌≡◌, refl, List, [], ◌∷◌, ◌++◌, Option, some, true, false}
use gitlab_workhorse.Base.Text.{Text, text_eq, codes}
use gitlab_workhorse.Base.Dict.{lookup, insert, delete}
use gitlab_workhorse.Http.{
  Header, new_response, server_writer, server_write_header, server_write, commit, content_type,
  content_type_options, content_length, plain_text, internal_server_error, http_error, fail500,
  Action, set_header, write_header, write, serve,
}
use gitlab_workhorse.Response.Block.{
  is_content_type, response_content_type, is_internal, block_write_header, block_write, block,
}
use gitlab_workhorse.Response.Block.Leaks.{block_leaks_nothing}

-- A media type without parameters.
abbrev media_type : Text → Option Text
media_type t = some t

abbrev api_answer : List Action
api_answer =
    set_header content_type response_content_type ∷ write_header 200 ∷ write (codes "secret") ∷ []

answer_is_replaced :
    (block server_writer media_type api_answer new_response).rw.body
    ≡ internal_server_error ++ b'\n' ∷ []
unfolding block serve block_write_header block_write fail500 http_error server_write
    server_write_header commit content_type content_type_options content_length plain_text
    internal_server_error response_content_type is_content_type text_eq lookup insert delete
answer_is_replaced = refl

plain_text_is_not_internal : is_content_type media_type response_content_type plain_text ≡ false
unfolding is_content_type response_content_type plain_text text_eq
plain_text_is_not_internal = refl

block_leaks_nothing_example :
    let b = block server_writer media_type api_answer (record new_response { header = [] }) in
    ((n : ℕ) × (sent : Header) × (b.rw.sent ≡ some (n, sent))
      × (is_internal server_writer media_type sent ≡ false))
    × (b.hijacked ≡ true → b.rw.body ≡ internal_server_error ++ b'\n' ∷ [])
block_leaks_nothing_example =
    block_leaks_nothing media_type plain_text_is_not_internal api_answer []
