-- ===== src/SendUrl/Examples.antt =====
-- A page that Rails names by its URL.

use gitlab_workhorse.Base.{[], ◌∷◌, some, true, false}
use gitlab_workhorse.Base.Text.{codes}
use gitlab_workhorse.Http.{Header}
use gitlab_workhorse.Http.Message.{HttpResponse}
use gitlab_workhorse.SendUrl.{Client}

abbrev cookies : Header
cookies = (codes "Cookie", codes "session" ∷ []) ∷ (codes "Range", codes "bytes=0-1" ∷ []) ∷ []

abbrev page : HttpResponse
page = record {
  status_code = 206;
  header = (codes "Content-Range", codes "bytes 0-1/3" ∷ []) ∷ [];
  body = codes "ab";
  body_fails = false;
}

abbrev client : Client
client = record {
  unpack = λ s. some (record { url = s; allow_redirects = false });
  is_valid = λ url. true;
  get = λ redirects url header. some page;
}
