-- ===== src/Artifacts.antt =====
-- internal/artifacts/entry.go and escape_quotes.go: one file of a ZIP archive of artifacts.
pub mod Quoted
mod Examples
use mathlib.Core.Option
use gitlab_workhorse.Base.{
  ℕ, ◌==◌, ◌||◌, leb, List, [], ◌∷◌, ◌++◌, Option, none, some, Bool, true, false, if◌then◌else◌,
  length, take,
}
use gitlab_workhorse.Base.Text.{Text, codes, text_eq}
use gitlab_workhorse.Http.{ResponseWriter, io_copy, fail500, set_key, content_type, content_length}
use gitlab_workhorse.Http.Message.{not_found}
use gitlab_workhorse.FileStore.{Reader}

-- `escapeQuotes`.
unfoldable pub escape_quotes : Text → Text
escape_quotes [] = []
escape_quotes (c ∷ s) =
    let rest = escape_quotes s in
    if c == b'\\' then b'\\' ∷ b'\\' ∷ rest else if c == b'"' then b'\\' ∷ b'"' ∷ rest else c ∷ rest

pub record EntryParams : Type 0 where
  pub archive : Text
  pub entry : Text

-- How a process of gitlab-zip-cat ends.
pub data ExitStatus : Type 0 where
  success status_entry_not_found other_status : ExitStatus

-- A process of gitlab-zip-cat: it starts or not; the line with the length, if one is read; the file;
-- and its end.
pub record CatFile : Type 0 where
  pub starts : Bool
  pub content_length : Option Text
  pub body : Reader
  pub status : ExitStatus

pub data EntryError : Type 0 where
  not_exist other_error : EntryError

-- The environment: base64, the process for an archive and an entry, `filepath.Base`, the type of a
-- file name by `mime.TypeByExtension`, and how many bytes the client takes.
pub record Env : Type 0 where
  pub decode_file_entry : Text → Option Text
  pub cat_file : Text → Text → CatFile
  pub base : Text → Text
  pub type_by_extension : Text → Text
  pub client_takes : ℕ

unfoldable pub detect_file_content_type : Env → Text → Text
detect_file_content_type env file_name =
    let found = env.type_by_extension file_name in
    if text_eq found [] then codes "application/octet-stream" else found

unfoldable pub wait_cat_file : ExitStatus → Option EntryError
wait_cat_file success = none
wait_cat_file status_entry_not_found = some not_exist
wait_cat_file other_status = some other_error

-- The name of the header.
unfoldable pub disposition_header : Text
disposition_header = codes "Content-Disposition"

unfoldable pub content_disposition : Text → Text
content_disposition basename =
    codes "attachment; filename=" ++ b'"' ∷ escape_quotes basename ++ b'"' ∷ []

module _ {S : Type 0} (w : ResponseWriter S) (env : Env) where
  -- The header and the file, and the error that is left.
  unfoldable pub send_file : Text → Text → CatFile → S → S × Option EntryError
  send_file file_name size cat s =
      let s1 = set_key w content_length size s in
      let s2 = set_key w content_type (detect_file_content_type env file_name) s1 in
      let s3 = set_key w disposition_header (content_disposition (env.base file_name)) s2 in
      let s4 = io_copy w env.client_takes cat.body.content s3 in
      (
        s4,
        if leb (length cat.body.content) env.client_takes
            then if cat.body.read_fails then some other_error else wait_cat_file cat.status
            else some other_error,
      )

  unfoldable pub unpack_file_from_zip : Text → Text → S → S × Option EntryError
  unpack_file_from_zip archive_path encoded_filename s =
      let cat = env.cat_file archive_path encoded_filename in
      elim (env.decode_file_entry encoded_filename) [
        | none ↦ (s, some other_error)
        | some file_name ↦
            if cat.starts
            then elim cat.content_length [
              | none ↦
                  (s, elim (wait_cat_file cat.status) [ none ↦ some other_error | some e ↦ some e ])
              | some size ↦ send_file file_name size cat s
            ]
            else (s, some other_error)
      ]

  unfoldable pub answer_error : Option EntryError → S → S
  answer_error none s = s
  answer_error (some not_exist) s = not_found w s
  answer_error (some other_error) s = fail500 w s

  -- `entry.Inject`, with what `Unpack` finds; the log line is left out.
  unfoldable pub inject : Option EntryParams → S → S
  inject none s = fail500 w s
  inject (some params) s =
      if text_eq params.archive [] || text_eq params.entry []
      then fail500 w s
      else (let (s1, e) = unpack_file_from_zip params.archive params.entry s in answer_error e s1)
