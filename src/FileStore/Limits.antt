-- ===== src/FileStore/Limits.antt =====
-- The limit on what internal/filestore saves through internal/objectstore/multipart.go.

use gitlab_workhorse.Base.{
  ℕ, ◌*◌, ◌≡◌, ◌≢◌, ◌<◌, refl, ◌⊎◌, ◌↔◌, List, Option, none, some, true, false, length, arith,
}
use gitlab_workhorse.Base.Text.{Text}
use gitlab_workhorse.FileStore.Options.{SaveFileOpts, is_multipart}
use gitlab_workhorse.FileStore.{
  Closed, uploaded, not_enough_parts, close_error, Upload, Storage, err_entity_too_large,
  save_failed, remote_writer, upload_local_file, copies, close_remote, copy_to, opened,
  save_file_from_reader,
}
use gitlab_workhorse.Base.{some_of_ne_none}
use gitlab_workhorse.ObjectStore.Multipart.{
  CompleteMultipartUploadPart, UploadError, part_error, cannot_drain, complete_error, etag_mismatch,
  Progress, Outcome, ended, panicked, new_multipart, err_not_enough_parts, close,
}
use gitlab_workhorse.ObjectStore.Multipart.Parts.{not_enough_parts_iff}

abbrev closed_error : UploadError → Closed
closed_error err_not_enough_parts = not_enough_parts
closed_error _ = close_error

-- What `Close` and `ETag` say of the goroutine's end; one that panics has no `Close`.
abbrev pub closed : Option (Option UploadError × Text) → Closed
closed none = close_error
closed (some (none, tag)) = uploaded tag
closed (some (some e, tag)) = closed_error e

-- The multipart upload as an `Upload`, in an object store that stays reachable.
module _ (upload_part : Text → Text → Option Text)
    (complete_request : List CompleteMultipartUploadPart → Option Text)
    (build_etag : List CompleteMultipartUploadPart → Option Text) where
  abbrev pub run : SaveFileOpts → Text → Outcome
  run opts content =
      new_multipart opts.part_size (λ i. true) upload_part complete_request build_etag
        opts.presigned_parts content true

  abbrev pub multipart_upload : SaveFileOpts → Upload
  multipart_upload opts = record {
    opens = true;
    accepts = λ content. true;
    close = λ content. closed (close (run opts content));
  }

  not_enough_parts_ended :
      (o : Outcome)
      → closed (close o) ≡ not_enough_parts
      → (m : Progress) × (o ≡ ended (some err_not_enough_parts) m)
  unfolding close
  not_enough_parts_ended panicked e = absurd (ground (arith, e))
  not_enough_parts_ended (ended none m) e = absurd (ground (arith, e))
  not_enough_parts_ended (ended (some err_not_enough_parts) m) e = (m, refl)
  not_enough_parts_ended (ended (some (part_error n)) m) e = absurd (ground (arith, e))
  not_enough_parts_ended (ended (some cannot_drain) m) e = absurd (ground (arith, e))
  not_enough_parts_ended (ended (some complete_error) m) e = absurd (ground (arith, e))
  not_enough_parts_ended (ended (some etag_mismatch) m) e = absurd (ground (arith, e))

  -- `Close` says "not enough parts" exactly of a file that is longer than all parts.
  close_iff :
      (opts : SaveFileOpts) (content : Text)
      → ((url src : Text) → upload_part url src ≢ none)
      → is_multipart opts ≡ true
      → (closed (close (run opts content)) ≡ not_enough_parts)
        ↔ (opts.part_size * length opts.presigned_parts < length content)
  unfolding close is_multipart
  close_iff opts content answered multi =
      let (only_if, if_) =
        not_enough_parts_iff opts.part_size (λ i. true) upload_part complete_request build_etag
          (λ i. refl) answered (ground (arith, multi)) opts.presigned_parts content in
      (
        λ e. only_if (not_enough_parts_ended (run opts content) e),
        λ h. let (m, e) = if_ h in ground (arith, e),
      )

  -- Let the options ask for a multipart upload, the object store answer each part, and everything
  -- else succeed: the reader, the local copy if there is one, and the size if one was announced.
  -- Then the file is refused as too large exactly if it is longer than all parts together.
  pub too_large_iff :
      (env : Storage) (opts : SaveFileOpts) (content : Text) (size : Option ℕ)
      → env.multipart ≡ multipart_upload
      → is_multipart opts ≡ true
      → ((url src : Text) → upload_part url src ≢ none)
      → upload_local_file env opts ≢ none
      → env.disk_accepts content ≡ true
      → (size ≡ none) ⊎ (size ≡ some (length content))
      → (save_file_from_reader env opts (record { content = content; read_fails = false }) size
          ≡ save_failed err_entity_too_large)
        ↔ (opts.part_size * length opts.presigned_parts < length content)
  unfolding save_file_from_reader remote_writer copies copy_to close_remote opened
  too_large_iff env opts content size store multi answered local disk announced =
      let (path, made) = some_of_ne_none (upload_local_file env opts) local in
      let (only_if, if_) = close_iff opts content answered multi in
      (
        λ e. only_if (ground (arith, e, store, multi, made, disk, announced)),
        λ h. ground (arith, if_ h, store, multi, made, disk, announced),
      )
