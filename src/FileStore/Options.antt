-- ===== src/FileStore/Options.antt =====
-- internal/filestore/save_file_opts.go.

use gitlab_workhorse.Base.{
  ℕ, ◌+◌, ◌-◌, ◌*◌, ◌%◌, ◌^◌, ◌==◌, ltb, ◌||◌, List, [], Option, none, some, Bool, not,
  if◌then◌else◌,
}
use gitlab_workhorse.Base.Text.{Text, codes, text_eq}
use gitlab_workhorse.Base.Dict.{Dict, insert}
use gitlab_workhorse.Api.{ApiResponse, MultipartUploadParams}

-- `time.Second`: durations and times are in nanoseconds.
abbrev second : ℕ
second = 1000000000

abbrev pub default_object_store_timeout : ℕ
default_object_store_timeout = 4 * 60 * 60 * second

-- `time.Now().Add` of the 64 bits of a duration, which is negative from 2 ^ 63 on.
abbrev pub add_duration : ℕ → ℕ → ℕ
add_duration now bits = if ltb bits (2 ^ 63) then now + bits else now - (2 ^ 64 - bits)

pub record SaveFileOpts : Type 0 where
  pub temp_file_prefix : Text
  pub local_temp_path : Text
  pub remote_id : Text
  pub remote_url : Text
  pub presigned_put : Text
  pub presigned_delete : Text
  pub put_headers : Dict Text
  pub deadline : ℕ
  pub part_size : ℕ
  pub presigned_parts : List Text
  pub presigned_complete_multipart : Text
  pub presigned_abort_multipart : Text

unfoldable pub is_local : SaveFileOpts → Bool
is_local s = not (text_eq s.local_temp_path [])

unfoldable pub is_multipart : SaveFileOpts → Bool
is_multipart s = ltb 0 s.part_size

unfoldable pub is_remote : SaveFileOpts → Bool
is_remote s = not (text_eq s.presigned_put []) || is_multipart s

unfoldable pub multipart_opts : Option MultipartUploadParams → SaveFileOpts → SaveFileOpts
multipart_opts none opts = opts
multipart_opts (some p) opts = record opts {
  part_size = p.part_size;
  presigned_complete_multipart = p.complete_url;
  presigned_abort_multipart = p.abort_url;
  presigned_parts = p.part_urls;
}

-- `GetOpts`, at a time.
unfoldable pub get_opts : ℕ → ApiResponse → SaveFileOpts
get_opts now api_response =
    let o = api_response.remote_object in
    let bits = o.timeout * second % 2 ^ 64 in
    let timeout = if bits == 0 then default_object_store_timeout else bits in
    multipart_opts o.multipart_upload (record {
      temp_file_prefix = [];
      local_temp_path = api_response.temp_path;
      remote_id = o.id;
      remote_url = o.get_url;
      presigned_put = o.store_url;
      presigned_delete = o.delete_url;
      put_headers =
          if o.custom_put_headers
          then o.put_headers
          else insert (codes "Content-Type") (codes "application/octet-stream") [];
      deadline = add_duration now timeout;
      part_size = 0;
      presigned_parts = [];
      presigned_complete_multipart = [];
      presigned_abort_multipart = [];
    })
