-- ===== src/Lfs.antt =====
-- internal/lfs/lfs.go: the storage of LFS objects.
pub mod Checked
mod Examples
use mathlib.Core.Option
use gitlab_workhorse.Base.{ℕ, ◌==◌, Option, none, some, Bool, true, false, if◌then◌else◌}
use gitlab_workhorse.Base.Text.{Text, text_eq}
use gitlab_workhorse.Base.Dict.{Dict}
use gitlab_workhorse.Http.{ResponseWriter}
use gitlab_workhorse.Http.Message.{Request}
use gitlab_workhorse.Api.{Api, ApiResponse, Backend, pre_authorize_handler}
use gitlab_workhorse.FileStore.Options.{SaveFileOpts, get_opts}
use gitlab_workhorse.FileStore.{FileHandler, Storage, get_sha256}
use gitlab_workhorse.FileStore.Body.{Preparer, body_uploader}

pub record Object : Type 0 where
  pub size : ℕ
  pub oid : Text

-- `object.Verify`.
unfoldable pub verify : Object → FileHandler → Bool
verify l fh = if fh.size == l.size then text_eq (get_sha256 fh) l.oid else false

-- `uploadPreparer.Prepare`, at a time.
unfoldable pub prepare : ℕ → Preparer
prepare now a =
    let opts = record (get_opts now a) { temp_file_prefix = a.lfs_oid } in
    some (opts, some (verify (record { size = a.lfs_size; oid = a.lfs_oid })))

-- `PutStore`.
unfoldable pub put_store :
    {S : Type 0}
    → ResponseWriter S
    → Storage
    → (Dict Text → Text)
    → ℕ
    → Api
    → Backend
    → (Text → Bool)
    → (Request → S → S)
    → Request
    → S
    → S
put_store w env encode now api backend equal_fold h r s =
    body_uploader w env encode (pre_authorize_handler w api backend equal_fold) h (prepare now) r s
