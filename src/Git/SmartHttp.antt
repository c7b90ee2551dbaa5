-- ===== src/Git/SmartHttp.antt =====
-- internal/git/git-http.go, info-refs.go, upload-pack.go and receive-pack.go: Git over HTTP.
pub mod Answered
pub mod Pushed
mod Examples
use mathlib.Core.Option
use gitlab_workhorse.Base.{
  ℕ, ◌==◌, ◌*◌, ◌||◌, leb, ltb, ◌&&◌, List, [], ◌∷◌, ◌++◌, map, Option, none, some, Bool, true,
  false, not, if◌then◌else◌, length, take,
}
use gitlab_workhorse.Base.Text.{Text, codes, text_eq, trim_prefix}
use gitlab_workhorse.Http.{
  header_get, ResponseWriter, io_copy, Action, set_header, write, serve, http_error, fail500,
  set_key, content_type,
}
use gitlab_workhorse.Http.Message.{Request}
use gitlab_workhorse.Helper.WriteAfterReader.{Io, new_write_after_reader, flush}
use gitlab_workhorse.Helper.WriteAfterReader.Order.{Call, run}
use gitlab_workhorse.Api.{Api, ApiResponse, Backend, pre_authorize_handler}
use gitlab_workhorse.FileStore.{Reader}
use gitlab_workhorse.Response.Counting.{
  CountingResponseWriter, new_counting_response_writer, counting_writer, counting_write_header,
}

-- What a call of Gitaly writes to its response, piece by piece, until it returns, and whether it
-- returns an error.
pub record Answer : Type 0 where
  pub pieces : List Text
  pub failed : Bool

-- What a call of Gitaly, or a process, does with the reader and the writer that it is given, until it
-- returns, and whether it returns an error.
pub record Exchange : Type 0 where
  pub calls : List Call
  pub failed : Bool

-- The environment: `Query().Get("service")` of a query, `filepath.Base`; whether a temporary file and
-- a client of Gitaly can be made; the calls of Gitaly, with the options and the protocol; the process
-- of receive-pack (`none` if it does not start); how its last `Flush` turns out; and how many bytes the
-- client takes.
pub record Env : Type 0 where
  pub query_service : Text → Text
  pub base : Text → Text
  pub has_temp_file : Bool
  pub has_client : Bool
  pub info_refs : Text → List Text → Text → Option Reader
  pub upload_pack : Text → List Text → Text → Answer
  pub receive_pack : Text → Text → Exchange
  pub git_command : Text → Text → Option (List Call)
  pub last_flush : Io
  pub client_takes : ℕ

unfoldable pub git_config_show_all_refs : Text
git_config_show_all_refs = codes "transfer.hideRefs=!refs"

unfoldable pub git_config_options : ApiResponse → List Text
git_config_options a = if a.show_all_refs then git_config_show_all_refs ∷ [] else []

unfoldable pub get_service : Env → Request → Text
get_service env r =
    if text_eq r.method (codes "GET")
    then env.query_service r.url.raw_query
    else env.base r.url.path

-- `subCommand`.
unfoldable pub sub_command : Text → Text
sub_command rpc = trim_prefix rpc (codes "git-")

-- `writePostRPCHeader`, as the calls that it makes.
unfoldable pub write_post_rpc_header : Text → List Action
write_post_rpc_header action =
    set_header content_type (codes "application/x-" ++ action ++ codes "-result")
    ∷ set_header (codes "Cache-Control") (codes "no-cache")
    ∷ []

-- What a handler of a POST request calls, and whether it returns an error.
pub record Rpc : Type 0 where
  pub headers : List Action
  pub pieces : List Text
  pub failed : Bool

unfoldable pub upload_pack_limit : ℕ
upload_pack_limit = 10 * 1024 * 1024

abbrev git_protocol : Request → Text
git_protocol r = header_get (codes "Git-Protocol") r.header

-- `handleUploadPackWithGitaly`.
unfoldable pub handle_upload_pack_with_gitaly : Env → Request → ApiResponse → Text → Answer
handle_upload_pack_with_gitaly env r a buffer =
    if env.has_client
    then env.upload_pack buffer (git_config_options a) (git_protocol r)
    else record { pieces = []; failed = true }

-- `handleUploadPack`: of the body at most the limit is read, and an error after it is not seen.
unfoldable pub handle_upload_pack : Env → Request → ApiResponse → Rpc
handle_upload_pack env r a =
    if not env.has_temp_file || (r.body_fails && ltb (length r.body) upload_pack_limit)
    then record { headers = []; pieces = []; failed = true }
    else (let answer = handle_upload_pack_with_gitaly env r a (take upload_pack_limit r.body) in
        record {
          headers = write_post_rpc_header (get_service env r);
          pieces = answer.pieces;
          failed = answer.failed;
        })

-- `handleReceivePackLocally`: once the process runs, its errors are logged.
unfoldable pub handle_receive_pack_locally : Env → Request → Text → Exchange
handle_receive_pack_locally env r action = elim (env.git_command (sub_command action) r.body) [
  | none ↦ record { calls = []; failed = true }
  | some calls ↦ record { calls = calls; failed = false }
]

unfoldable pub handle_receive_pack_with_gitaly : Env → Request → Exchange
handle_receive_pack_with_gitaly env r =
    if env.has_client
    then env.receive_pack r.body (git_protocol r)
    else record { calls = []; failed = true }

-- The two ways of `handleReceivePack`.
unfoldable pub receive_pack_exchange : Env → Request → ApiResponse → Exchange
receive_pack_exchange env r a =
    if text_eq a.gitaly_address []
    then handle_receive_pack_locally env r (get_service env r)
    else handle_receive_pack_with_gitaly env r

-- The bytes that reach the writer, which is not called for none.
abbrev pub as_pieces : Text → List Text
as_pieces [] = []
as_pieces (c ∷ t) = (c ∷ t) ∷ []

-- `handleReceivePack`: the reader and the writer are coupled, and the error of the last `Flush` is not
-- looked at.
unfoldable pub handle_receive_pack : Env → Request → ApiResponse → Rpc
handle_receive_pack env r a =
    let exchange = receive_pack_exchange env r a in
    let coupled = run new_write_after_reader exchange.calls in
    record {
      headers = write_post_rpc_header (get_service env r);
      pieces = as_pieces (flush coupled env.last_flush).0.out;
      failed = exchange.failed;
    }

module _ {S : Type 0} (w : ResponseWriter S) where
  -- What `postRPCHandler` does once the request is authorized, with the count that it logs.
  unfoldable pub run_rpc : Rpc → S → CountingResponseWriter S
  run_rpc rpc rw =
      let c = serve (counting_writer w) rpc.headers (new_counting_response_writer w rw) in
      let c' = serve (counting_writer w) (map write rpc.pieces) c in
      if rpc.failed then counting_write_header w 500 c' else c'

  -- `postRPCHandler`, with its handler.
  unfoldable pub post_rpc_handler :
      Api → Backend → (Text → Bool) → (Request → ApiResponse → Rpc) → Request → S → S
  post_rpc_handler api backend equal_fold handler r s =
      pre_authorize_handler w api backend equal_fold (λ r' a s'. (run_rpc (handler r' a) s').rw) []
        r s

  unfoldable pub upload_pack : Api → Backend → (Text → Bool) → Env → Request → S → S
  upload_pack api backend equal_fold env r s =
      post_rpc_handler api backend equal_fold (handle_upload_pack env) r s

  unfoldable pub receive_pack : Api → Backend → (Text → Bool) → Env → Request → S → S
  receive_pack api backend equal_fold env r s =
      post_rpc_handler api backend equal_fold (handle_receive_pack env) r s

  -- `handleGetInfoRefsWithGitaly`, and whether it returns an error.
  unfoldable pub handle_get_info_refs_with_gitaly :
      Env → Request → ApiResponse → Text → S → S × Bool
  handle_get_info_refs_with_gitaly env r a rpc s =
      if env.has_client
      then elim (env.info_refs rpc (git_config_options a) (git_protocol r)) [
        | none ↦ (s, true)
        | some reader ↦ (
          io_copy w env.client_takes reader.content s,
          reader.read_fails || ltb env.client_takes (length reader.content),
        )
      ]
      else (s, true)

  -- `handleGetInfoRefs`, without the counting of its bytes.
  unfoldable pub handle_get_info_refs : Env → Request → ApiResponse → S → S
  handle_get_info_refs env r a s =
      let rpc = get_service env r in
      if text_eq rpc (codes "git-upload-pack") || text_eq rpc (codes "git-receive-pack")
      then (let s1 =
            set_key w content_type (codes "application/x-" ++ rpc ++ codes "-advertisement") s in
          let s2 = set_key w (codes "Cache-Control") (codes "no-cache") s1 in
          let (s3, failed) = handle_get_info_refs_with_gitaly env r a rpc s2 in
          if failed then fail500 w s3 else s3)
      else http_error w (codes "Not Found") 404 s
