-- ===== src/Git/Senders.antt =====
-- internal/git/blob.go, diff.go, format-patch.go and snapshot.go: Git objects sent by Gitaly or by a
-- process, and the copying of internal/gitaly/blob.go and diff.go.
pub mod Answered
mod Examples
use mathlib.Core.Option
use gitlab_workhorse.Base.{
  ℕ, leb, ◌&&◌, List, [], ◌∷◌, ◌++◌, Option, none, some, Bool, true, false, not, if◌then◌else◌,
  length,
}
use gitlab_workhorse.Base.Text.{Text, codes, text_eq, decimal}
use gitlab_workhorse.Http.{
  ResponseWriter, io_copy, fail500, set_key, del_key, content_type, content_length,
}
use gitlab_workhorse.FileStore.{Reader}

-- How a handler ends: it returns, or panics with what it has written.
pub data Outcome (S : Type 0) : Type 0 where
  responded panicked : S → Outcome S

-- A process of git: it starts or not, and prints something.
pub record Process : Type 0 where
  pub pipe : Bool
  pub starts : Bool
  pub stdout : Reader

pub record BlobParams : Type 0 where
  pub repo_path : Text
  pub blob_id : Text
  pub gitaly_address : Text

-- The parameters of `SendDiff` and of `SendPatch`, which differ in the name of the request.
pub record RangeParams : Type 0 where
  pub repo_path : Text
  pub sha_from : Text
  pub sha_to : Text
  pub gitaly_address : Text
  pub raw_request : Text

-- What `GetBlob` comes to: the size in its first message, if one arrives, and the content.
pub record BlobStream : Type 0 where
  pub size : Option ℕ
  pub content : Reader

-- The environment: how many bytes the client takes; whether a client of Gitaly can be made; the
-- answers of Gitaly to a request in JSON (`none` is an error of the call), where a parser that fails
-- leaves some other request; and the processes.
pub record Env : Type 0 where
  pub client_takes : ℕ
  pub has_client : Text → Bool
  pub get_blob : Option BlobStream
  pub parses : Text → Bool
  pub left_over : Text → Text
  pub raw : Text → Option Reader
  pub blob_size : BlobParams → Option Text
  pub show_blob : BlobParams → Process
  pub range : RangeParams → Process

module _ {S : Type 0} (w : ResponseWriter S) (env : Env) where
  -- `io.Copy` to the client.
  unfoldable pub copy : Reader → S → S
  copy reader s = io_copy w env.client_takes reader.content s

  unfoldable pub is_copied : Reader → Bool
  is_copied reader = leb (length reader.content) env.client_takes && not reader.read_fails

  unfoldable pub set_size : Option ℕ → S → S
  set_size none s = s
  set_size (some size) s = set_key w content_length (decimal size) s

  -- `BlobClient.SendBlob`, and whether it returns an error.
  unfoldable pub send_blob : S → S × Bool
  send_blob s = elim env.get_blob [
    | none ↦ (s, true)
    | some stream ↦ (copy stream.content (set_size stream.size s), not (is_copied stream.content))
  ]

  -- Without a client the handler goes on, and dereferences nil.
  unfoldable pub handle_send_blob_with_gitaly : BlobParams → S → Outcome S
  handle_send_blob_with_gitaly params s =
      if env.has_client params.gitaly_address
      then (let (s1, failed) = send_blob s in responded (if failed then fail500 w s1 else s1))
      else panicked (fail500 w s)

  unfoldable pub run_blob_process : Text → Process → S → S
  run_blob_process size_output process s =
      if process.pipe && process.starts
      then copy process.stdout (set_key w content_length size_output s)
      else fail500 w s

  -- `handleSendBlobLocally`; the size is the output of git without its space.
  unfoldable pub handle_send_blob_locally : BlobParams → S → Outcome S
  handle_send_blob_locally params s = elim (env.blob_size params) [
    | none ↦ responded (fail500 w s)
    | some size_output ↦ responded (run_blob_process size_output (env.show_blob params) s)
  ]

  unfoldable pub inject_blob : Option BlobParams → S → Outcome S
  inject_blob none s = responded (fail500 w s)
  inject_blob (some params) s =
      if text_eq params.gitaly_address []
      then handle_send_blob_locally params s
      else handle_send_blob_with_gitaly params s

  -- `DiffClient.SendRawDiff` and `SendRawPatch`; an error is logged.
  unfoldable pub send_raw : Text → S → S
  send_raw request s = elim (env.raw request) [
    | none ↦ s
    | some reader ↦ copy reader (del_key w content_length s)
  ]

  -- `handleSendDiffWithGitaly`: after either error the handler goes on.
  unfoldable pub handle_send_diff_with_gitaly : RangeParams → S → Outcome S
  handle_send_diff_with_gitaly params s =
      let request =
        if env.parses params.raw_request
        then params.raw_request
        else env.left_over params.raw_request in
      let s1 = if env.parses params.raw_request then s else fail500 w s in
      if env.has_client params.gitaly_address
      then responded (send_raw request s1)
      else panicked (fail500 w s1)

  -- `handleSendPatchWithGitaly`.
  unfoldable pub handle_send_patch_with_gitaly : RangeParams → S → Outcome S
  handle_send_patch_with_gitaly params s =
      let request =
        if env.parses params.raw_request
        then params.raw_request
        else env.left_over params.raw_request in
      let s1 = if env.parses params.raw_request then s else fail500 w s in
      if env.has_client params.gitaly_address
      then responded (send_raw request s1)
      else panicked (fail500 w s1)

  unfoldable pub handle_send_diff_locally : RangeParams → S → Outcome S
  handle_send_diff_locally params s =
      let process = env.range params in
      responded (
        if process.pipe && process.starts
        then copy process.stdout (del_key w content_length s)
        else fail500 w s)

  unfoldable pub handle_send_patch_locally : RangeParams → S → Outcome S
  handle_send_patch_locally params s =
      let process = env.range params in
      responded (
        if process.pipe && process.starts
        then copy process.stdout (del_key w content_length s)
        else fail500 w s)

  unfoldable pub inject_diff : Option RangeParams → S → Outcome S
  inject_diff none s = responded (fail500 w s)
  inject_diff (some params) s =
      if text_eq params.gitaly_address []
      then handle_send_diff_locally params s
      else handle_send_diff_with_gitaly params s

  unfoldable pub inject_patch : Option RangeParams → S → Outcome S
  inject_patch none s = responded (fail500 w s)
  inject_patch (some params) s =
      if text_eq params.gitaly_address []
      then handle_send_patch_locally params s
      else handle_send_patch_with_gitaly params s

  -- `SendSnapshot`, given its address and request.
  unfoldable pub inject_snapshot : Option (Text × Text) → S → Outcome S
  inject_snapshot none s = responded (fail500 w s)
  inject_snapshot (some (gitaly_address, request)) s =
      if env.parses request && env.has_client gitaly_address
      then elim (env.raw request) [
        | none ↦ responded (fail500 w s)
        | some reader ↦
            let s1 = del_key w content_length s in
            let s2 =
              set_key w (codes "Content-Disposition")
                (codes "attachment; filename=" ++ b'"' ∷ codes "snapshot.tar" ++ b'"' ∷ []) s1 in
            let s3 = set_key w content_type (codes "application/x-tar") s2 in
            let s4 = set_key w (codes "Content-Transfer-Encoding") (codes "binary") s3 in
            let s5 = set_key w (codes "Cache-Control") (codes "private") s4 in
            responded (copy reader (w.write_header 200 s5))
      ]
      else responded (fail500 w s)
