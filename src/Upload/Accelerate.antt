-- ===== src/Upload/Accelerate.antt =====
-- internal/upload/accelerate.go: Rails is told, signed, which fields of a form stand for saved files.
pub mod Signed
pub mod EndToEnd
use mathlib.Core.Option
use gitlab_workhorse.Base.{ℕ, List, [], Option, none, some}
use gitlab_workhorse.Base.Text.{Text, codes}
use gitlab_workhorse.Base.Dict.{Dict, insert}
use gitlab_workhorse.Http.{header_set, ResponseWriter}
use gitlab_workhorse.Http.Message.{Request}
use gitlab_workhorse.Api.{ApiResponse}
use gitlab_workhorse.FileStore.{FileHandler, Storage}
use gitlab_workhorse.Upstream.{rewritten_fields_header}
use gitlab_workhorse.Upload.{Piece, Processor, MultipartReader, FormWriter, handle_file_uploads}

-- `savedFileTracker`: the map of rewritten fields, `none` while it is nil.
abbrev pub SavedFileTracker : Type 0
SavedFileTracker = Option (Dict Text)

abbrev pub fields_of : SavedFileTracker → Dict Text
fields_of none = []
fields_of (some fields) = fields

unfoldable pub track_file :
    Text → FileHandler → SavedFileTracker → Option (SavedFileTracker × List Piece)
track_file field_name file t = some (some (insert field_name file.local_path (fields_of t)), [])

-- `Finalize`, where `sign` is `secret.JWTTokenString` on the claims with these fields.
unfoldable pub finalize : (Dict Text → Option Text) → SavedFileTracker → Request → Option Request
finalize sign none r = some r
finalize sign (some fields) r = elim (sign fields) [
  | none ↦ none
  | some token_string ↦
      some (record r { header = header_set rewritten_fields_header token_string r.header })
]

abbrev pub saved_file_tracker : (Dict Text → Option Text) → Processor SavedFileTracker
saved_file_tracker sign = record {
  process_file = track_file;
  process_field = λ field_name t. some t;
  finalize = finalize sign;
}

-- `Accelerate`, where `rails` is the method of the `PreAuthorizer`.
unfoldable pub accelerate :
    {S : Type 0}
    → ResponseWriter S
    → FormWriter
    → Storage
    → ℕ
    → (Request → MultipartReader)
    → (Dict Text → Option Text)
    → ((Request → ApiResponse → S → S) → Text → Request → S → S)
    → (Request → S → S)
    → Request
    → S
    → S
accelerate w form env now multipart_reader sign rails h r s =
    rails
      (λ r' a s'.
        handle_file_uploads w form env now multipart_reader h a (saved_file_tracker sign) none r'
          s')
      (codes "/authorize") r s
