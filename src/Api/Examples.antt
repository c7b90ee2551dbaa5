-- ===== src/Api/Examples.antt =====
-- A request to upload, which Rails allows or refuses.

use gitlab_workhorse.Base.{
  ◌≡◌, ◌≤◌, ◌<◌, ◌⊎◌, refl, [], ◌∷◌, Option, none, some, true, false, length,
}
use gitlab_workhorse.Base.Text.{Text, codes, text_eq}
use gitlab_workhorse.Base.Dict.{lookup}
use gitlab_workhorse.Http.{Response, new_response, server_writer, content_type, fail500}
use gitlab_workhorse.Http.Message.{Request, HttpResponse}
use gitlab_workhorse.Response.Block.{response_content_type}
use gitlab_workhorse.Api.{
  Api, ApiResponse, RemoteObject, Backend, new_request, pre_authorize_handler, pass_response_back,
  copy_auth_header, failure_response_limit, www_authenticate_spelled,
}
use gitlab_workhorse.Api.Authorized.{
  IsAuthorized, IsPassedBack, IsUndecided, next_needs_authorization,
}
use gitlab_workhorse.Api.PassBack.{IsPassedOn, response_is_passed_whole}
use gitlab_workhorse.Api.Settings.{TerminalSettings}

abbrev pub rails : Api
rails = record {
  url = record { scheme = codes "http"; host = codes "rails"; path = []; raw_query = [] };
  version = codes "8.5";
}

abbrev pub no_object : RemoteObject
no_object = record {
  get_url = [];
  delete_url = [];
  store_url = [];
  custom_put_headers = false;
  put_headers = [];
  id = [];
  timeout = 0;
  multipart_upload = none;
}

-- The answer for an LFS object "abc", whose checksum is taken to be its reverse.
abbrev pub answer : ApiResponse
answer = record {
  gl_id = codes "user-1";
  gl_username = codes "root";
  gl_repository = [];
  repo_path = [];
  git_config_options = [];
  lfs_oid = codes "cba";
  lfs_size = 3;
  temp_path = codes "/tmp";
  remote_object = no_object;
  archive = [];
  entry = [];
  terminal = none;
  gitaly_address = [];
  show_all_refs = false;
}

abbrev pub json_response : HttpResponse
json_response = record {
  status_code = 200;
  header = (content_type, response_content_type ∷ []) ∷ [];
  body = codes "{}";
  body_fails = false;
}

abbrev split_host_port : Text → Option Text
split_host_port addr = some addr

abbrev pub backend : Backend
backend = record {
  split_host_port = split_host_port;
  jwt_token_string = some (codes "token");
  round_trip = λ req. some json_response;
  decode = λ resp. some answer;
  parse_media_type = λ t. some t;
}

abbrev pub upload : Request
upload = record {
  method = codes "PUT";
  url = record {
    scheme = [];
    host = [];
    path = codes "/a.git/gitlab-lfs/objects/cba/3";
    raw_query = [];
  };
  host = codes "gitlab";
  remote_addr = codes "10.0.0.1";
  header = (codes "Content-Length", codes "3" ∷ []) ∷ (codes "Accept", codes "*" ∷ []) ∷ [];
  content_length = some 3;
  body = codes "abc";
  body_fails = false;
}

abbrev authorize : Text
authorize = codes "/authorize"

abbrev asked : Request
asked = elim (new_request rails split_host_port (some (codes "token")) upload none authorize) [
  | none ↦ upload
  | some req ↦ req
]

next_needs_authorization_example :
    let result : (Request → ApiResponse → Response → Response) → Response = λ next.
      pre_authorize_handler server_writer rails backend
        (λ k. false)
        next
        authorize
        upload
        new_response in
    ((a : IsAuthorized rails backend authorize upload) × ((next : Request
          → ApiResponse
          → Response
          → Response)
        → result next
          ≡ next upload a.answer (
              server_writer.set_header
                (copy_auth_header
                  (λ k. false)
                  a.response.header
                  (server_writer.header new_response))
                new_response)))
    ⊎ (IsUndecided rails backend authorize upload
        × ((next : Request → ApiResponse → Response → Response)
            → result next ≡ fail500 server_writer new_response))
    ⊎ ((p : IsPassedBack rails backend authorize upload) × ((next : Request
            → ApiResponse
            → Response
            → Response)
          → result next ≡ pass_response_back server_writer p.response new_response))
next_needs_authorization_example =
    next_needs_authorization server_writer rails backend (λ k. false) authorize upload new_response

abbrev refusal : HttpResponse
refusal = record {
  status_code = 401;
  header =
      (codes "Www-Authenticate", codes "Basic" ∷ []) ∷ (codes "X-Request-Id", codes "7" ∷ []) ∷ [];
  body = codes "denied";
  body_fails = false;
}

response_is_passed_whole_example :
    let after = pass_response_back server_writer refusal new_response in
    ((length refusal.body < failure_response_limit)
      × (false ≡ false)
      × IsPassedOn refusal new_response after)
    ⊎ (((failure_response_limit ≤ length refusal.body) ⊎ (false ≡ true))
        × (after ≡ fail500 server_writer new_response))
unfolding lookup text_eq www_authenticate_spelled
response_is_passed_whole_example =
    response_is_passed_whole refusal new_response refl (refl, (refl, tt)) refl

abbrev settings : Text → Text → TerminalSettings
settings first second = record {
  subprotocols = codes "terminal" ∷ [];
  url = codes "wss://pod";
  header = (first, codes "1" ∷ []) ∷ (second, codes "1" ∷ []) ∷ [];
  ca_pem = [];
  max_session_time = 0;
}
