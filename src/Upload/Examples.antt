-- ===== src/Upload/Examples.antt =====
-- A form with one file, and a field.

use gitlab_workhorse.Base.{◌≡◌, ◌⊎◌, refl, List, [], ◌∷◌, Option, none, some, true, false}
use gitlab_workhorse.Base.Text.{Text, codes, text_eq}
use gitlab_workhorse.Base.Dict.{Dict, lookup, insert}
use gitlab_workhorse.Http.{Response, new_response, server_writer, fail500}
use gitlab_workhorse.Http.Message.{Request, request_entity_too_large}
use gitlab_workhorse.Upstream.{rewritten_fields_header}
use gitlab_workhorse.Api.Examples.{answer, upload}
use gitlab_workhorse.FileStore.Options.{get_opts, multipart_opts, is_local, is_remote, is_multipart}
use gitlab_workhorse.FileStore.{
  save_file_from_reader, remote_writer, upload_local_file, copies, copied, close_remote, copy_to,
  opened,
}
use gitlab_workhorse.FileStore.Examples.{disk}
use gitlab_workhorse.Upload.{
  Part, Piece, MultipartReader, parts, not_multipart, FormWriter, handle_file_uploads,
  rewrite_parts, rewrite_part, copy_part, handle_file_part, finalize_file, is_illegal, has_slash,
}
use gitlab_workhorse.Upload.Rewritten.{AreRewritten, rewrite_parts-AreRewritten}
use gitlab_workhorse.Upload.Handled.{IsFinished, handle_file_uploads-cases}
use gitlab_workhorse.Upload.Accelerate.{saved_file_tracker}
use gitlab_workhorse.Upload.Accelerate.EndToEnd.{Tools, IsVouched, accelerate-IsVouched}
use gitlab_workhorse.Upload.Accelerate.{accelerate}
use gitlab_workhorse.Api.{pre_authorize_handler, copy_auth_header}
use gitlab_workhorse.Api.Authorized.{IsAuthorized}
use gitlab_workhorse.Api.Examples.{rails, backend}
use gitlab_workhorse.Upload.Artifacts.{
  Runner, not_zip, artifacts_upload_processor, process_file, generate_metadata_from_zip,
}

abbrev file : Part
file = record {
  form_name = codes "file";
  file_name = codes "a.txt";
  header = [];
  reader = record { content = codes "abc"; read_fails = false };
  time = 0;
}

abbrev token_field : Part
token_field = record {
  form_name = codes "token";
  file_name = [];
  header = (codes "Content-Disposition", codes "form-data; name=token" ∷ []) ∷ [];
  reader = record { content = codes "secret"; read_fails = false };
  time = 0;
}

abbrev form : FormWriter
form = record {
  encode = λ pieces. codes "form";
  form_data_content_type = codes "multipart/form-data";
}

abbrev multipart_reader : Request → MultipartReader
multipart_reader r = parts (file ∷ token_field ∷ []) false

abbrev sign : Dict Text → Option Text
sign fields = some (codes "signed")

handle_file_uploads-cases_example :
    let result : (Request → Response → Response) → Response = λ h.
      handle_file_uploads server_writer form disk 0 multipart_reader h answer
        (saved_file_tracker sign)
        none
        upload
        new_response in
    ((r' : Request) × (f : IsFinished disk answer
        (saved_file_tracker sign)
        none
        form
        multipart_reader
        upload
        r')
      × ((h : Request → Response → Response) → result h ≡ h r' new_response))
    ⊎ ((plain : multipart_reader upload ≡ not_multipart) × ((h : Request → Response → Response)
          → result h ≡ h upload new_response))
    ⊎ ((h : Request → Response → Response)
        → result h ≡ request_entity_too_large server_writer new_response)
    ⊎ ((h : Request → Response → Response) → result h ≡ fail500 server_writer new_response)
handle_file_uploads-cases_example =
    handle_file_uploads-cases disk answer (saved_file_tracker sign) none server_writer form 0
      multipart_reader upload new_response

abbrev tools : Tools
tools = record {
  form = form;
  storage = disk;
  now = 0;
  multipart_reader = multipart_reader;
  sign = sign;
}

accelerate-IsVouched_example :
    let result : (Request → Response → Response) → Response = λ h.
      accelerate server_writer form disk 0 multipart_reader sign
        (pre_authorize_handler server_writer rails backend (λ k. false))
        h
        upload
        new_response in
    ((a : IsAuthorized rails backend (codes "/authorize") upload) × (r' : Request) × (((r' ≡ upload)
          × (multipart_reader upload ≡ not_multipart))
        ⊎ IsVouched tools a.answer upload r')
      × ((h : Request → Response → Response)
          → result h
            ≡ h r' (
                server_writer.set_header
                  (copy_auth_header
                    (λ k. false)
                    a.response.header
                    (server_writer.header new_response))
                  new_response)))
    ⊎ ((answer : Response) × ((h : Request → Response → Response) → result h ≡ answer))
unfolding lookup rewritten_fields_header text_eq
accelerate-IsVouched_example =
    accelerate-IsVouched server_writer tools rails backend (λ k. false) upload new_response refl

-- A file that is no ZIP archive.
abbrev run : Runner
run = record { zip_metadata = λ name. not_zip; temp_dir = codes "/tmp"; context_done = false }

artifacts-AreRewritten :
    (pieces : List Piece) × AreRewritten disk answer
      (artifacts_upload_processor disk run (get_opts 0 answer))
      (file ∷ token_field ∷ [])
      false
      true
      pieces
unfolding rewrite_parts rewrite_part copy_part handle_file_part finalize_file is_illegal has_slash
    save_file_from_reader remote_writer upload_local_file copies copy_to close_remote opened copied
    is_local is_remote is_multipart get_opts multipart_opts process_file generate_metadata_from_zip
    insert text_eq
artifacts-AreRewritten =
    let (pieces, finished, split, done) =
      rewrite_parts-AreRewritten disk answer
        (artifacts_upload_processor disk run (get_opts 0 answer)) (file ∷ token_field ∷ []) false
        false [] true _ refl in
    (pieces, done)
