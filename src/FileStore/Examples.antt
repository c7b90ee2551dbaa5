-- ===== src/FileStore/Examples.antt =====
-- A disk, and an object store with parts of two bytes.

use mathlib.Core.List.{reverse}
use gitlab_workhorse.Base.{
  ◌*◌, ◌≡◌, ◌<◌, ◌↔◌, refl, inl, List, [], ◌∷◌, Option, none, some, true, false, arith,
}
use gitlab_workhorse.Base.Text.{Text, codes, text_eq}
use gitlab_workhorse.ObjectStore.Multipart.{CompleteMultipartUploadPart}
use gitlab_workhorse.FileStore.Options.{SaveFileOpts, is_local, is_remote, is_multipart}
use gitlab_workhorse.FileStore.{
  Storage, Upload, uploaded, Reader, Stored, save_failed, err_entity_too_large,
  save_file_from_reader, remote_writer, upload_local_file, copies, copied, close_remote, copy_to,
  opened,
}
use gitlab_workhorse.FileStore.Saved.{IsSaved, save_file_from_reader-IsSaved}
use gitlab_workhorse.FileStore.Limits.{too_large_iff, multipart_upload}

abbrev reversed : Text → Text → Text
reversed name content = reverse content

abbrev no_upload : Upload
no_upload = record { opens = false; accepts = λ s. false; close = λ s. uploaded [] }

abbrev temp_file : Text → Text → Option Text
temp_file dir prefix = some (codes "/tmp/upload1")

-- A disk that is never full, and no object store.
abbrev pub disk : Storage
disk = record {
  multipart = λ opts. no_upload;
  object = λ opts size. no_upload;
  temp_file = temp_file;
  disk_accepts = λ s. true;
  checksum = reversed;
}

abbrev local_opts : SaveFileOpts
local_opts = record {
  temp_file_prefix = codes "a.txt";
  local_temp_path = codes "/tmp";
  remote_id = [];
  remote_url = [];
  presigned_put = [];
  presigned_delete = [];
  put_headers = [];
  deadline = 0;
  part_size = 0;
  presigned_parts = [];
  presigned_complete_multipart = [];
  presigned_abort_multipart = [];
}

abbrev abc : Reader
abc = record { content = codes "abc"; read_fails = false }

abbrev stored : Stored
stored = copied disk local_opts abc none (some (codes "/tmp/upload1"))

save_file_from_reader-IsSaved_example : IsSaved disk local_opts abc (some 3) stored
unfolding save_file_from_reader remote_writer upload_local_file copies copy_to close_remote opened
    is_remote is_local is_multipart text_eq
save_file_from_reader-IsSaved_example =
    save_file_from_reader-IsSaved disk local_opts abc (some 3) stored refl

abbrev upload_part : Text → Text → Option Text
upload_part url src = some src

abbrev complete_request : List CompleteMultipartUploadPart → Option Text
complete_request part = some (codes "sum")

abbrev bucket : Storage
bucket = record disk { multipart = multipart_upload upload_part complete_request complete_request }

abbrev multipart_opts : SaveFileOpts
multipart_opts = record local_opts { part_size = 2; presigned_parts = codes "u1" ∷ [] }

too_large_iff_example :
    (save_file_from_reader bucket multipart_opts abc none ≡ save_failed err_entity_too_large)
    ↔ (2 * 1 < 3)
unfolding upload_local_file is_local is_multipart text_eq
too_large_iff_example =
    too_large_iff upload_part complete_request complete_request bucket multipart_opts (codes "abc")
      none refl refl (λ url src e. absurd (ground (arith, e))) (λ e. absurd (ground (arith, e)))
      refl (inl refl)
