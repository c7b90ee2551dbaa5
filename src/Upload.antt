-- ===== src/Upload.antt =====
-- internal/upload: the files of a multipart request are saved before Rails sees it.
pub mod Rewritten
pub mod Handled
pub mod Accelerate
pub mod Artifacts
mod Examples
use mathlib.Core.Option
use gitlab_workhorse.Base.{
  ℕ, ◌==◌, ◌&&◌, ◌||◌, List, [], ◌∷◌, ◌++◌, Option, none, some, Bool, true, false, not,
  if◌then◌else◌, length, map,
}
use gitlab_workhorse.Base.Text.{Text, codes, text_eq}
use gitlab_workhorse.Base.Dict.{Dict}
use gitlab_workhorse.Http.{Header, header_set, ResponseWriter, fail500, content_type}
use gitlab_workhorse.Http.Message.{Request, request_entity_too_large}
use gitlab_workhorse.Api.{ApiResponse, RemoteObject}
use gitlab_workhorse.FileStore.Options.{SaveFileOpts, get_opts, is_local, is_remote}
use gitlab_workhorse.FileStore.{
  FileHandler, Storage, Reader, SaveError, err_entity_too_large, saved, save_failed, Stored,
  save_file_from_reader, git_lab_finalize_fields,
}

-- A part of a multipart body, with the time at which it is read.
pub record Part : Type 0 where
  pub form_name : Text
  pub file_name : Text
  pub header : Header
  pub reader : Reader
  pub time : ℕ

-- What `r.MultipartReader` makes of a request: the parts, and whether an error and not the end comes
-- after them.
pub data MultipartReader : Type 0 where
  not_multipart malformed : MultipartReader
  parts : List Part → Bool → MultipartReader

-- What is written to the `multipart.Writer`: a field, or a part with its header.
pub data Piece : Type 0 where
  field : Text → Text → Piece
  copied_part : Header → Text → Piece

pub data UploadError : Type 0 where
  err_not_multipart bad_reader next_part_error illegal_filename process_file_error : UploadError
  persist_error : SaveError → UploadError
  duplicate_error process_field_error : UploadError

-- `MultipartFormProcessor` over its state `P`: `none` is an error. `process_file` returns what it
-- writes, and `finalize` may change the request.
pub record Processor (P : Type 0) : Type 0 where
  pub process_file : Text → FileHandler → P → Option (P × List Piece)
  pub process_field : Text → P → Option P
  pub finalize : P → Request → Option Request

-- The state of the processor and what was written so far, or an error.
pub data Rewriting (P : Type 0) : Type 0 where
  written : P → List Piece → Rewriting P
  rewrite_failed : UploadError → Rewriting P

unfoldable pub has_slash : Text → Bool
has_slash [] = false
has_slash (c ∷ t) = let rest = has_slash t in if c == b'/' then true else rest

unfoldable pub is_illegal : Text → Bool
is_illegal filename =
    has_slash filename || (text_eq filename (codes ".") || text_eq filename (codes ".."))

-- The loop of `WriteField`, in the order of the table; that of the program is random.
unfoldable pub write_fields : Dict Text → List Piece
write_fields [] = []
write_fields ((k, v) ∷ fields) = field k v ∷ write_fields fields

module _ {P : Type 0} (env : Storage) (preauth : ApiResponse) (filter : Processor P) where
  -- `GetOpts`, with the name of the file.
  abbrev pub part_opts : Part → SaveFileOpts
  part_opts p = record (get_opts p.time preauth) { temp_file_prefix = p.file_name }

  -- From the saved file on.
  unfoldable pub finalize_file : Part → Stored → P → List Piece → Rewriting P
  finalize_file p st q pieces =
      let fields = write_fields (git_lab_finalize_fields st.handler p.form_name) in
      elim (filter.process_file p.form_name st.handler q) [
        | none ↦ rewrite_failed process_file_error
        | some (q', more) ↦ written q' (pieces ++ fields ++ more)
      ]

  -- `handleFilePart`.
  unfoldable pub handle_file_part : Part → P → List Piece → Rewriting P
  handle_file_part p q pieces =
      if is_illegal p.file_name
      then rewrite_failed illegal_filename
      else elim (save_file_from_reader env (part_opts p) p.reader none) [
        | save_failed e ↦ rewrite_failed (persist_error e)
        | saved st ↦ finalize_file p st q pieces
      ]

  -- `copyPart`; writing to the buffer does not fail.
  unfoldable pub copy_part : Part → P → List Piece → Rewriting P
  copy_part p q pieces =
      if p.reader.read_fails
      then rewrite_failed duplicate_error
      else elim (filter.process_field p.form_name q) [
        | none ↦ rewrite_failed process_field_error
        | some q' ↦ written q' (pieces ++ copied_part p.header p.reader.content ∷ [])
      ]

  -- One round of the loop.
  unfoldable pub rewrite_part : Part → P → List Piece → Rewriting P
  rewrite_part p q pieces =
      if text_eq p.form_name []
      then written q pieces
      else if text_eq p.file_name []
      then copy_part p q pieces
      else handle_file_part p q pieces

  -- The loop over the parts.
  unfoldable pub rewrite_parts : List Part → Bool → P → List Piece → Rewriting P
  rewrite_parts [] broken q pieces =
      if broken then rewrite_failed next_part_error else written q pieces
  rewrite_parts (p ∷ ps) broken q pieces = elim (rewrite_part p q pieces) [
    | rewrite_failed e ↦ rewrite_failed e
    | written q' pieces' ↦ rewrite_parts ps broken q' pieces'
  ]

  unfoldable pub rewrite_form_files_from_multipart : MultipartReader → P → Rewriting P
  rewrite_form_files_from_multipart not_multipart q = rewrite_failed err_not_multipart
  rewrite_form_files_from_multipart malformed q = rewrite_failed bad_reader
  rewrite_form_files_from_multipart (parts ps broken) q = rewrite_parts ps broken q []

abbrev no_object : RemoteObject
no_object = record {
  get_url = [];
  delete_url = [];
  store_url = [];
  custom_put_headers = false;
  put_headers = [];
  id = [];
  timeout = 0;
  multipart_upload = none;
}

-- The `api.Response` of `SkipRailsAuthorizer`.
unfoldable pub temp_path_only : Text → ApiResponse
temp_path_only temp_path = record {
  gl_id = [];
  gl_username = [];
  gl_repository = [];
  repo_path = [];
  git_config_options = [];
  lfs_oid = [];
  lfs_size = 0;
  temp_path = temp_path;
  remote_object = no_object;
  archive = [];
  entry = [];
  terminal = none;
  gitaly_address = [];
  show_all_refs = false;
}

-- `multipart.Writer`: its bytes after `Close`, and its content type.
pub record FormWriter : Type 0 where
  pub encode : List Piece → Text
  pub form_data_content_type : Text

-- The hijacked request.
unfoldable pub with_form : FormWriter → Request → List Piece → Request
with_form form r pieces =
    let body = form.encode pieces in
    record r {
      body = body;
      body_fails = false;
      content_length = some (length body);
      header = header_set content_type form.form_data_content_type r.header;
    }

module _ {S : Type 0} (w : ResponseWriter S) (form : FormWriter) where
  -- The answer to an error.
  unfoldable pub answer_error : (Request → S → S) → UploadError → Request → S → S
  answer_error h err_not_multipart r s = h r s
  answer_error h (persist_error err_entity_too_large) r s = request_entity_too_large w s
  answer_error h _ r s = fail500 w s

  -- `HandleFileUploads`, with what the multipart reader makes of the request.
  unfoldable pub handle_file_uploads :
      {P : Type 0}
      → Storage
      → ℕ
      → (Request → MultipartReader)
      → (Request → S → S)
      → ApiResponse
      → Processor P
      → P
      → Request
      → S
      → S
  handle_file_uploads env now multipart_reader h preauth filter start r s =
      let opts = get_opts now preauth in
      if not (is_local opts) && not (is_remote opts)
      then fail500 w s
      else elim (rewrite_form_files_from_multipart env preauth filter (multipart_reader r) start) [
        | rewrite_failed e ↦ answer_error h e r s
        | written q pieces ↦ elim (filter.finalize q (with_form form r pieces)) [
          | none ↦ fail500 w s
          | some r' ↦ h r' s
        ]
      ]

  -- `SkipRailsAuthorizer.PreAuthorizeHandler`.
  unfoldable pub skip_rails_authorizer :
      Text → (Request → ApiResponse → S → S) → Text → Request → S → S
  skip_rails_authorizer temp_path next suffix r s = next r (temp_path_only temp_path) s
