-- ===== src/Upload/Artifacts.antt =====
-- internal/artifacts/artifacts_upload.go: the upload of a CI artifact, with the metadata of its ZIP.
pub mod OneFile
use mathlib.Core.Option
use gitlab_workhorse.Base.{ℕ, List, [], Option, none, some, Bool, true, false, if◌then◌else◌}
use gitlab_workhorse.Base.Text.{Text, codes, text_eq}
use gitlab_workhorse.Http.{ResponseWriter}
use gitlab_workhorse.Http.Message.{Request}
use gitlab_workhorse.Api.{Api, ApiResponse, Backend, pre_authorize_handler}
use gitlab_workhorse.FileStore.Options.{SaveFileOpts, get_opts}
use gitlab_workhorse.FileStore.{
  FileHandler, Storage, Reader, saved, save_failed, save_file_from_reader, git_lab_finalize_fields,
}
use gitlab_workhorse.Upload.{
  Piece, Processor, MultipartReader, FormWriter, write_fields, handle_file_uploads,
}

-- How the command gitlab-zip-metadata ends on a file; `output` is what it prints.
pub data ZipMetadata : Type 0 where
  start_error not_zip exit_error : ZipMetadata
  output : Text → ZipMetadata

-- The environment of the processor: the command, `os.TempDir`, and whether the context is done.
pub record Runner : Type 0 where
  pub zip_metadata : Text → ZipMetadata
  pub temp_dir : Text
  pub context_done : Bool

unfoldable pub meta_opts : Runner → SaveFileOpts → SaveFileOpts
meta_opts run opts = record {
  temp_file_prefix = codes "metadata.gz";
  local_temp_path = if text_eq opts.local_temp_path [] then run.temp_dir else opts.local_temp_path;
  remote_id = [];
  remote_url = [];
  presigned_put = [];
  presigned_delete = [];
  put_headers = [];
  deadline = 0;
  part_size = 0;
  presigned_parts = [];
  presigned_complete_multipart = [];
  presigned_abort_multipart = [];
}

-- `generateMetadataFromZip`: an error, or the metadata, if the file is a ZIP archive.
unfoldable pub generate_metadata_from_zip :
    Storage → Runner → SaveFileOpts → FileHandler → Option (Option FileHandler)
generate_metadata_from_zip env run opts file =
    let file_name = if text_eq file.local_path [] then file.remote_url else file.local_path in
    elim (run.zip_metadata file_name) [
      | start_error ↦ none
      | not_zip ↦ some none
      | exit_error ↦ none
      | output content ↦
          let meta_reader : Reader = record { content = content; read_fails = false } in
          elim (save_file_from_reader env (meta_opts run opts) meta_reader none) [
            | save_failed e ↦ none
            | saved st ↦ some (some st.handler)
          ]
    ]

abbrev metadata_fields : Option FileHandler → List Piece
metadata_fields none = []
metadata_fields (some fh) = write_fields (git_lab_finalize_fields fh (codes "metadata"))

-- `ProcessFile`; the state is the field `stored`.
unfoldable pub process_file :
    Storage → Runner → SaveFileOpts → Text → FileHandler → Bool → Option (Bool × List Piece)
process_file env run opts form_name file stored =
    if text_eq form_name (codes "file")
    then if stored
      then none
      else if run.context_done
      then none
      else elim (generate_metadata_from_zip env run opts file) [
        | none ↦ none
        | some metadata ↦ some (true, metadata_fields metadata)
      ]
    else none

abbrev pub artifacts_upload_processor : Storage → Runner → SaveFileOpts → Processor Bool
artifacts_upload_processor env run opts = record {
  process_file = process_file env run opts;
  process_field = λ form_name stored. some stored;
  finalize = λ stored r. some r;
}

-- `UploadArtifacts`.
unfoldable pub upload_artifacts :
    {S : Type 0}
    → ResponseWriter S
    → FormWriter
    → Storage
    → Runner
    → ℕ
    → (Request → MultipartReader)
    → Api
    → Backend
    → (Text → Bool)
    → (Request → S → S)
    → Request
    → S
    → S
upload_artifacts w form env run now multipart_reader api backend equal_fold h r s =
    pre_authorize_handler w api backend equal_fold
      (λ r' a s'.
        handle_file_uploads w form env now multipart_reader h a
          (artifacts_upload_processor env run (get_opts now a)) false r' s')
      (codes "/authorize") r s
