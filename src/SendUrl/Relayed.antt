-- ===== src/SendUrl/Relayed.antt =====
-- What the client of internal/sendurl/sendurl.go receives.

use gitlab_workhorse.Base.{◌≡◌, List, [], ◌∷◌, ◌++◌, some, true, false, if◌then◌else◌}
use gitlab_workhorse.Base.Text.{Text, text_eq}
use gitlab_workhorse.Base.Dict.{lookup}
use gitlab_workhorse.Http.{Header, Response, internal_server_error}
use gitlab_workhorse.Http.Message.{Request, HttpResponse}
use gitlab_workhorse.SendUrl.{EntryParams, Client, copy_keys, range_header_keys}

-- Rails names a URL, and a request for it, with the ranges that the client asks for, is answered.
pub record IsFetched (client : Client) (r : Request) (send_data : Text) : Type 0 where
  pub params : EntryParams
  pub unpacked : client.unpack send_data ≡ some params
  pub named : text_eq params.url [] ≡ false
  pub valid : client.is_valid params.url ≡ true
  pub response : HttpResponse
  pub answered :
      client.get params.allow_redirects params.url (copy_keys range_header_keys r.header [])
      ≡ some response

abbrev pub error_text : Text
error_text = internal_server_error ++ b'\n' ∷ []

-- The client has the status of a response, each of its headers, and its body; a body that could not
-- be read to the end is followed by the text of an error.
pub record IsRelayed (resp : HttpResponse) (before after : Response) : Type 0 where
  pub header : Header
  pub sent : after.sent ≡ some (resp.status_code, header)
  pub body : after.body ≡ before.body ++ resp.body ++ (if resp.body_fails then error_text else [])
  pub values : (k : Text) (v : List Text) → lookup k resp.header ≡ some v → lookup k header ≡ some v
