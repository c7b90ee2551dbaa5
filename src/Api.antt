-- ===== src/Api.antt =====
-- internal/api/api.go: asking Rails about a request before it is handled here.
pub mod Settings
pub mod Outgoing
pub mod Authorized
pub mod PassBack
pub mod Examples
use mathlib.Core.Option
use gitlab_workhorse.Base.{
  ℕ, ◌==◌, ltb, leb, ◌&&◌, List, [], ◌∷◌, ◌++◌, Option, none, some, Bool, true, false, not,
  if◌then◌else◌, length, drop, ◌>>=◌,
}
use gitlab_workhorse.Base.Text.{Text, codes, text_eq, has_prefix, has_suffix}
use gitlab_workhorse.Base.Dict.{Dict, insert}
use gitlab_workhorse.Http.{Header, header_get, header_set, ResponseWriter, fail500, content_type}
use gitlab_workhorse.Http.Message.{Url, Request, HttpResponse, delete_keys, set_forwarded_for}
use gitlab_workhorse.Response.Block.{is_content_type, response_content_type}
use gitlab_workhorse.Api.Settings.{TerminalSettings}

pub record Api : Type 0 where
  pub url : Url
  pub version : Text

pub record MultipartUploadParams : Type 0 where
  pub part_size : ℕ
  pub part_urls : List Text
  pub complete_url : Text
  pub abort_url : Text

pub record RemoteObject : Type 0 where
  pub get_url : Text
  pub delete_url : Text
  pub store_url : Text
  pub custom_put_headers : Bool
  pub put_headers : Dict Text
  pub id : Text
  pub timeout : ℕ
  pub multipart_upload : Option MultipartUploadParams

-- The answer of Rails; `gitaly_address` is the address of `GitalyServer`.
pub record ApiResponse : Type 0 where
  pub gl_id : Text
  pub gl_username : Text
  pub gl_repository : Text
  pub repo_path : Text
  pub git_config_options : List Text
  pub lfs_oid : Text
  pub lfs_size : ℕ
  pub temp_path : Text
  pub remote_object : RemoteObject
  pub archive : Text
  pub entry : Text
  pub terminal : Option TerminalSettings
  pub gitaly_address : Text
  pub show_all_refs : Bool

unfoldable pub single_joining_slash : Text → Text → Text
single_joining_slash a b =
    let aslash = has_suffix a (codes "/") in
    let bslash = has_prefix b (codes "/") in
    if aslash && bslash
    then a ++ drop 1 b
    else if not aslash && not bslash
    then a ++ codes "/" ++ b
    else a ++ b

unfoldable pub rebase_url : Url → Url → Text → Url
rebase_url url onto suffix = record {
  scheme = onto.scheme;
  host = onto.host;
  path = if text_eq suffix [] then url.path else single_joining_slash url.path suffix;
  raw_query =
      if text_eq onto.raw_query []
      then onto.raw_query ++ url.raw_query
      else if text_eq url.raw_query []
      then onto.raw_query ++ url.raw_query
      else onto.raw_query ++ codes "&" ++ url.raw_query;
}

-- The headers that a request without a body does not take over.
unfoldable pub body_headers : List Text
body_headers =
    codes "Content-Type"
    ∷ codes "Content-Encoding"
    ∷ codes "Content-Length"
    ∷ codes "Content-Disposition"
    ∷ codes "Accept-Encoding"
    ∷ codes "Transfer-Encoding"
    ∷ codes "Connection"
    ∷ codes "Keep-Alive"
    ∷ codes "Proxy-Authenticate"
    ∷ codes "Proxy-Authorization"
    ∷ codes "Te"
    ∷ codes "Trailers"
    ∷ codes "Upgrade"
    ∷ []

unfoldable pub version_header : Text
version_header = codes "Gitlab-Workhorse"

-- `RequestHeader`.
unfoldable pub request_header : Text
request_header = codes "Gitlab-Workhorse-Api-Request"

-- `newRequest`, given `net.SplitHostPort` and the signed token; `none` where it cannot be signed.
unfoldable pub new_request :
    Api → (Text → Option Text) → Option Text → Request → Option Text → Text → Option Request
new_request api split_host_port jwt_token_string r body suffix =
    let cleaned : Header = elim body [
      | none ↦ delete_keys body_headers r.header
      | some b ↦ r.header
    ] in
    let versioned = header_set version_header api.version cleaned in
    let forwarded = set_forwarded_for split_host_port versioned r in
    elim jwt_token_string [
      | none ↦ none
      | some token_string ↦ some (record {
        method = r.method;
        url = rebase_url r.url api.url suffix;
        host = r.host;
        remote_addr = [];
        header = header_set request_header token_string forwarded;
        content_length = some 0;
        body = elim body [ none ↦ [] | some b ↦ b ];
        body_fails = false;
      })
    ]

-- What `PreAuthorize` returns, its error without the text.
pub data PreAuthorization : Type 0 where
  pre_authorize_error : PreAuthorization
  not_authorized : HttpResponse → PreAuthorization
  authorized : HttpResponse → ApiResponse → PreAuthorization

-- The environment of the client: `net.SplitHostPort`, the signed token, the backend (`none` is an
-- error of the transport), the decoder of JSON, and `mime.ParseMediaType`.
pub record Backend : Type 0 where
  pub split_host_port : Text → Option Text
  pub jwt_token_string : Option Text
  pub round_trip : Request → Option HttpResponse
  pub decode : HttpResponse → Option ApiResponse
  pub parse_media_type : Text → Option Text

unfoldable pub valid_response_content_type : Backend → HttpResponse → Bool
valid_response_content_type env resp =
    is_content_type env.parse_media_type response_content_type (header_get content_type resp.header)

unfoldable pub read_authorization : Backend → HttpResponse → PreAuthorization
read_authorization env resp =
    if resp.status_code == 200 && valid_response_content_type env resp
    then elim (env.decode resp) [ none ↦ pre_authorize_error | some auth ↦ authorized resp auth ]
    else not_authorized resp

unfoldable pub pre_authorize : Api → Backend → Text → Request → PreAuthorization
pre_authorize api env suffix r =
    elim (new_request api env.split_host_port env.jwt_token_string r none suffix) [
      | none ↦ pre_authorize_error
      | some auth_req ↦ elim (env.round_trip auth_req) [
        | none ↦ pre_authorize_error
        | some http_response ↦ read_authorization env http_response
      ]
    ]

abbrev pub failure_response_limit : ℕ
failure_response_limit = 32768

-- `bufferResponse`: at most the limit is read; `none` if it is reached, or if reading fails.
unfoldable pub buffer_response : HttpResponse → Option Text
buffer_response resp =
    if leb failure_response_limit (length resp.body)
    then none
    else if resp.body_fails
    then none
    else some resp.body

unfoldable pub www_authenticate : Text
www_authenticate = codes "Www-Authenticate"

-- The spelling for clients that compare letters.
unfoldable pub www_authenticate_spelled : Text
www_authenticate_spelled = codes "WWW-Authenticate"

abbrev pub spelled : Text → Text
spelled k = if text_eq k www_authenticate then www_authenticate_spelled else k

unfoldable pub pass_headers : Header → Header → Header
pass_headers [] h = h
pass_headers ((k, v) ∷ m) h = pass_headers m (insert (spelled k) v h)

-- The headers `equal_fold` says are WWW-Authenticate (`strings.EqualFold`).
unfoldable pub copy_auth_header : (Text → Bool) → Header → Header → Header
copy_auth_header equal_fold [] h = h
copy_auth_header equal_fold ((k, v) ∷ m) h =
    copy_auth_header equal_fold m (if equal_fold k then insert k v h else h)

module _ {S : Type 0} (w : ResponseWriter S) where
  -- `passResponseBack`; the metric and a failed write are left out.
  unfoldable pub pass_response_back : HttpResponse → S → S
  pass_response_back resp s = elim (buffer_response resp) [
    | none ↦ fail500 w s
    | some response_body ↦
        let s1 = w.set_header (pass_headers resp.header (w.header s)) s in
        (w.write response_body (w.write_header resp.status_code s1)).0
  ]

  -- `PreAuthorizeHandler`, with `next` as a function of the request and the answer of Rails.
  unfoldable pub pre_authorize_handler :
      Api → Backend → (Text → Bool) → (Request → ApiResponse → S → S) → Text → Request → S → S
  pre_authorize_handler api env equal_fold next suffix r s = elim (pre_authorize api env suffix r) [
    | pre_authorize_error ↦ fail500 w s
    | not_authorized resp ↦ pass_response_back resp s
    | authorized resp auth ↦
        next r auth (w.set_header (copy_auth_header equal_fold resp.header (w.header s)) s)
  ]
