-- ===== src/ObjectStore/Multipart.antt =====
-- internal/objectstore/multipart.go, and the ETag of internal/objectstore/uploader.go.
pub mod Parts
pub mod Etag
mod Examples
use mathlib.Core.Option
use gitlab_workhorse.Base.{
  ℕ, ◌+◌, ◌-◌, ◌==◌, ltb, List, [], ◌∷◌, ◌++◌, Option, none, some, Bool, true, false, if◌then◌else◌,
  length, take, drop,
}
use gitlab_workhorse.Base.Text.{Text, text_eq}

pub record CompleteMultipartUploadPart : Type 0 where
  pub part_number : ℕ
  pub etag : Text

-- What one part came to: nothing was left to read, it failed, or it was uploaded.
pub data PartResult : Type 0 where
  no_part part_failed : PartResult
  uploaded : CompleteMultipartUploadPart → PartResult

pub data UploadError : Type 0 where
  part_error : ℕ → UploadError
  cannot_drain err_not_enough_parts complete_error etag_mismatch : UploadError

-- `part` is `cmu.Part`; `sent` is what has been uploaded, with its URL; `etag` is the uploader's.
pub record Progress : Type 0 where
  pub part : List CompleteMultipartUploadPart
  pub sent : List (Text × Text)
  pub etag : Text

-- The goroutine of `NewMultipart` panics, or ends with an `uploadError` or none.
pub data Outcome : Type 0 where
  panicked : Outcome
  ended : Option UploadError → Progress → Outcome

-- `extractETag`; `none` where the slice `rawETag[1 : len(rawETag)-1]` panics.
unfoldable pub extract_etag : Text → Option Text
extract_etag [] = some []
extract_etag (c ∷ s) =
    if c == b'"' then if length s == 0 then none else some (take (length s - 1) s) else some (c ∷ s)

-- The loop over the parts stops at an error, or goes on with the bytes that are left in the pipe.
pub data Loop : Type 0 where
  stopped : UploadError → Progress → Loop
  left_over : Text → Progress → Loop

-- The environment: whether a part can be buffered on the disk, the ETag of an uploaded part, the raw
-- ETag in the answer to the completion, and the checksum of the parts; `none` is an error.
module _ (part_size : ℕ) (buffers : ℕ → Bool) (upload_part : Text → Text → Option Text)
    (complete_request : List CompleteMultipartUploadPart → Option Text)
    (build_multipart_upload_etag : List CompleteMultipartUploadPart → Option Text) where
  unfoldable pub read_and_upload_one_part : Text → Text → ℕ → PartResult
  read_and_upload_one_part part_url src part_number =
      if buffers part_number
      then if length src == 0 then no_part else elim (upload_part part_url src) [
        | none ↦ part_failed
        | some etag ↦ uploaded (record { part_number = part_number; etag = etag })
      ]
      else part_failed

  abbrev pub add_part : Text → Text → CompleteMultipartUploadPart → Progress → Progress
  add_part url src p m = record m { part = m.part ++ p ∷ []; sent = m.sent ++ (url, src) ∷ [] }

  -- `for i, partURL := range partURLs`, from part number `i`, over the bytes of the pipe.
  unfoldable pub upload_parts : List Text → ℕ → Text → Progress → Loop
  upload_parts [] i pipe m = left_over pipe m
  upload_parts (part_url ∷ urls) i pipe m =
      elim (read_and_upload_one_part part_url (take part_size pipe) i) [
        | part_failed ↦ stopped (part_error i) m
        | no_part ↦ left_over (drop part_size pipe) m
        | uploaded p ↦
            upload_parts urls (i + 1) (drop part_size pipe)
              (add_part part_url (take part_size pipe) p m)
      ]

  -- `verifyETag`.
  unfoldable pub verify_etag : List CompleteMultipartUploadPart → Text → Option UploadError
  verify_etag part etag = elim (build_multipart_upload_etag part) [
    | none ↦ some etag_mismatch
    | some expected ↦ if text_eq expected etag then none else some etag_mismatch
  ]

  unfoldable pub complete : Progress → Outcome
  complete m = elim (complete_request m.part) [
    | none ↦ ended (some complete_error) m
    | some raw_etag ↦ elim (extract_etag raw_etag) [
      | none ↦ panicked
      | some etag ↦ ended (verify_etag m.part etag) (record m { etag = etag })
    ]
  ]

  -- After the loop: drain the pipe, and complete the upload.
  unfoldable pub finish : Bool → Loop → Outcome
  finish drains (stopped e m) = ended (some e) m
  finish drains (left_over pipe m) =
      if drains
      then if ltb 0 (length pipe) then ended (some err_not_enough_parts) m else complete m
      else ended (some cannot_drain) m

  -- The goroutine of `NewMultipart`, over all that is written to the pipe before it is closed.
  unfoldable pub new_multipart : List Text → Text → Bool → Outcome
  new_multipart part_urls written drains =
      finish drains (upload_parts part_urls 1 written (record { part = []; sent = []; etag = [] }))

-- What `cleanup` does at the end: `none` is the removal of the object once Rails has it.
pub data Cleanup : Type 0 where
  abort delete : Cleanup

unfoldable pub cleanup : Option UploadError → Cleanup
cleanup none = delete
cleanup (some e) = abort

-- `uploader.Close` before the deadline, as an error or the ETag; a panic ends the program.
unfoldable pub close : Outcome → Option (Option UploadError × Text)
close panicked = none
close (ended e m) = some (e, m.etag)
