-- ===== src/FileStore/Body.antt =====
-- internal/filestore/body_uploader.go: the body of a request is saved, and Rails gets its fields.
pub mod Verified
use mathlib.Core.Option
use gitlab_workhorse.Base.{
  ℕ, List, [], ◌∷◌, ◌++◌, Option, none, some, Bool, true, false, if◌then◌else◌, length,
}
use gitlab_workhorse.Base.Text.{Text, codes}
use gitlab_workhorse.Base.Dict.{Dict}
use gitlab_workhorse.Http.{Header, header_set, ResponseWriter, fail500, content_type}
use gitlab_workhorse.Http.Message.{Request}
use gitlab_workhorse.Api.{ApiResponse}
use gitlab_workhorse.FileStore.Options.{SaveFileOpts, get_opts}
use gitlab_workhorse.FileStore.{
  FileHandler, Storage, Reader, SaveResult, saved, save_failed, Stored, save_file_from_reader,
  git_lab_finalize_fields,
}

-- `UploadPreparer` with its `UploadVerifier`: the options for an answer of Rails, and a check of the
-- saved file, if there is one; `none` is an error.
abbrev pub Preparer : Type 0
Preparer = ApiResponse → Option (SaveFileOpts × Option (FileHandler → Bool))

-- `defaultPreparer`, at a time.
unfoldable pub default_prepare : ℕ → Preparer
default_prepare now a = some (get_opts now a, none)

abbrev pub body_reader : Request → Reader
body_reader r = record { content = r.body; read_fails = r.body_fails }

abbrev pub verified : Option (FileHandler → Bool) → FileHandler → Bool
verified none fh = true
verified (some verify) fh = verify fh

unfoldable pub form_type : Text
form_type = codes "application/x-www-form-urlencoded"

-- `encode` is `url.Values.Encode`.
module _ {S : Type 0} (w : ResponseWriter S) (env : Storage) (encode : Dict Text → Text) where
  -- The request with the fields of the file as its body.
  unfoldable pub with_fields : Request → FileHandler → Request
  with_fields r fh =
      let body = encode (git_lab_finalize_fields fh (codes "file")) in
      record r {
        body = body;
        body_fails = false;
        content_length = some (length body);
        header = header_set content_type form_type r.header;
      }

  -- What `BodyUploader` gives to the authorizer.
  unfoldable pub upload_body : Preparer → (Request → S → S) → Request → ApiResponse → S → S
  upload_body prepare h r a s = elim (prepare a) [
    | none ↦ fail500 w s
    | some (opts, verifier) ↦
        elim (save_file_from_reader env opts (body_reader r) r.content_length) [
          | save_failed e ↦ fail500 w s
          | saved st ↦
              if verified verifier st.handler then h (with_fields r st.handler) s else fail500 w s
        ]
  ]

  -- `BodyUploader`, where `rails` is the method of the `PreAuthorizer`.
  unfoldable pub body_uploader :
      ((Request → ApiResponse → S → S) → Text → Request → S → S)
      → (Request → S → S)
      → Preparer
      → Request
      → S
      → S
  body_uploader rails h prepare r s = rails (upload_body prepare h) (codes "/authorize") r s
